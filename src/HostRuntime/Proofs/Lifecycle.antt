-- ===== src/HostRuntime/Proofs/Lifecycle.antt =====
-- Which states of a room's server lead to which.
use easy_mc_server.Prelude.{
  ◌≡◌, ◌≤◌, ◌⊎◌, Bool-cases, sym, inl, inr, refl, ◌∙◌, ap, true, false, none, some, List, [], ◌∷◌,
  ◌++◌, length, length-append, arith,
}
use easy_mc_server.HostRuntime.Input.{
  RuntimeState, stopped, ready, starting, running, stopping, restarting, crashed, failed,
}
use easy_mc_server.HostRuntime.Plan.{is_crashed}
use easy_mc_server.HostRuntime.Lifecycle.{
  RuntimeAction, prepare, start, stop, restart, transition_to, simulate_lifecycle_transition,
  after_actions,
}

after_actions-append :
    (s : RuntimeState) (xs ys : List RuntimeAction)
    → after_actions s (xs ++ ys) ≡ after_actions (after_actions s xs) ys
unfolding after_actions
after_actions-append s [] ys = refl
after_actions-append s (x ∷ xs) ys =
    after_actions-append (simulate_lifecycle_transition (some s) none (some x)).next xs ys

transition-crashed :
    (s : RuntimeState) (a : RuntimeAction)
    → is_crashed s ≡ true
    → (simulate_lifecycle_transition (some s) none (some a)).next ≡ s
unfolding simulate_lifecycle_transition
transition-crashed s a h = ground arith

transition-healthy :
    (s : RuntimeState) (a : RuntimeAction)
    → is_crashed s ≡ false
    → is_crashed (simulate_lifecycle_transition (some s) none (some a)).next ≡ false
unfolding simulate_lifecycle_transition transition_to
transition-healthy s a h = ground arith

-- A state and one that it leads to: the same, or neither is crashed or failed.
abbrev pub AreLinked : RuntimeState → RuntimeState → Type 0
AreLinked s t = (s ≡ t) ⊎ ((is_crashed s ≡ false) × (is_crashed t ≡ false))

after_actions-crashed :
    (s : RuntimeState) (xs : List RuntimeAction) → is_crashed s ≡ true → after_actions s xs ≡ s
unfolding after_actions
after_actions-crashed s [] h = refl
after_actions-crashed s (x ∷ xs) h = rw (transition-crashed s x h) (after_actions-crashed s xs h)

after_actions-healthy :
    (s : RuntimeState) (xs : List RuntimeAction)
    → is_crashed s ≡ false
    → is_crashed (after_actions s xs) ≡ false
unfolding after_actions
after_actions-healthy s [] h = h
after_actions-healthy s (x ∷ xs) h =
    after_actions-healthy (simulate_lifecycle_transition (some s) none (some x)).next xs
      (transition-healthy s x h)

abbrev to_stopped : RuntimeState → List RuntimeAction
to_stopped ready = start ∷ stop ∷ stop ∷ []
to_stopped starting = stop ∷ stop ∷ []
to_stopped running = stop ∷ stop ∷ []
to_stopped stopping = stop ∷ []
to_stopped restarting = restart ∷ stop ∷ stop ∷ []
to_stopped _ = []

abbrev from_stopped : RuntimeState → List RuntimeAction
from_stopped ready = prepare ∷ []
from_stopped starting = start ∷ []
from_stopped running = start ∷ start ∷ []
from_stopped stopping = start ∷ stop ∷ []
from_stopped restarting = start ∷ start ∷ restart ∷ []
from_stopped _ = []

stops : (s : RuntimeState) → is_crashed s ≡ false → after_actions s (to_stopped s) ≡ stopped
unfolding after_actions simulate_lifecycle_transition transition_to
stops stopped h = refl
stops ready h = refl
stops starting h = refl
stops running h = refl
stops stopping h = refl
stops restarting h = refl
stops crashed h = cc h
stops failed h = cc h

resumes : (t : RuntimeState) → is_crashed t ≡ false → after_actions stopped (from_stopped t) ≡ t
unfolding after_actions simulate_lifecycle_transition transition_to
resumes stopped h = refl
resumes ready h = refl
resumes starting h = refl
resumes running h = refl
resumes stopping h = refl
resumes restarting h = refl
resumes crashed h = cc h
resumes failed h = cc h

to_stopped-short : (s : RuntimeState) → length (to_stopped s) ≤ 3
to_stopped-short s = ground arith

from_stopped-short : (s : RuntimeState) → length (from_stopped s) ≤ 3
from_stopped-short s = ground arith

-- Whatever actions are taken, a server that is crashed or has failed stays so and no other gets there;
-- and a server that is neither is brought to any state that is neither, by at most six actions.
pub after_actions-AreLinked :
    (s t : RuntimeState)
    → ((xs : List RuntimeAction) → AreLinked s (after_actions s xs))
      × (AreLinked s t → (xs : List RuntimeAction) × (after_actions s xs ≡ t) × (length xs ≤ 6))
unfolding after_actions
after_actions-AreLinked s t = (forth, back)
  where
    forth : (xs : List RuntimeAction) → AreLinked s (after_actions s xs)
    forth xs = elim (Bool-cases (is_crashed s)) [
      | inl c ↦ inl (sym (after_actions-crashed s xs c))
      | inr h ↦ inr (h, after_actions-healthy s xs h)
    ]

    back : AreLinked s t → (xs : List RuntimeAction) × (after_actions s xs ≡ t) × (length xs ≤ 6)
    back (inl same) = ([], same, omega arith)
    back (inr (h, k)) = (
      to_stopped s ++ from_stopped t,
      after_actions-append s (to_stopped s) (from_stopped t)
          ∙ ap (λ x. after_actions x (from_stopped t)) (stops s h)
          ∙ resumes t k,
      omega (
        arith,
        length-append (to_stopped s) (from_stopped t),
        to_stopped-short s,
        from_stopped-short t,
      ),
    )
