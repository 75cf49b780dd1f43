-- ===== src/Service/Proofs/Rules.antt =====
-- Rules for the calls of the room service: what the state looks like after each step.
use easy_mc_server.Prelude.{
  ℕ, ◌≡◌, ◌⊎◌, refl, sym, ap, subst, ◌∙◌, Bool, true, false, Option, none, some, Text, Result, ok,
  err, inl, inr, Option-cases,
}
use easy_mc_server.Service.Records.{Failure, Event}
use easy_mc_server.Service.Repository.{Repository, View, Writes, IsLawful}
use easy_mc_server.Service.Steps.{
  M, after, or_fail, check, HookAnswer, said_false, refused, allowed, call_hook, audit_with,
}
use easy_mc_server.Service.Rooms.{audit}
use easy_mc_server.Service.Machine.{Move, Moves, here, next}

pub Move-Moves : {actor : Text} {v v' : View} → Move actor v v' → Moves actor v v'
Move-Moves m = next (here refl) m

pub Moves-trans :
    {actor : Text} {u v w : View} → Moves actor u v → Moves actor v w → Moves actor u w
Moves-trans {actor} {u} ms (here e) = subst (Moves actor u) (sym e) ms
Moves-trans ms (next ns m) = next (Moves-trans ms ns) m

module _ {S : Type 0} (actor : Text) (view : S → View) (u : View) where
  -- The state after a call is reached from `u`.
  abbrev pub Reaches : {A : Type 0} → S × Result Failure A → Type 0
  Reaches out = Moves actor u (view out.0)

  pub after-reading :
      {A B : Type 0} (e : Failure) (s : S) (r : Result Failure A) (f : A → M S B)
      → Moves actor u (view s)
      → ((a : A) → r ≡ ok a → Reaches (f a s))
      → Reaches (after (s, or_fail e r) f)
  after-reading e s (ok a) f here_now then_on = then_on a refl
  after-reading e s (err x) f here_now then_on = here_now

  pub after-check :
      {B : Type 0} (b : Bool) (e : Failure) (s : S) (k : M S B)
      → Moves actor u (view s)
      → (b ≡ true → Reaches (k s))
      → Reaches (after (check b e s) (λ _. k))
  after-check true e s k here_now then_on = then_on refl
  after-check false e s k here_now then_on = here_now

  pub after-hook :
      {B : Type 0} (o : Option HookAnswer) (s : S) (k : M S B)
      → Moves actor u (view s)
      → Reaches (k s)
      → Reaches (after (call_hook o s) (λ _. k))
  unfolding call_hook
  after-hook none s k here_now then_on = then_on
  after-hook (some said_false) s k here_now then_on = here_now
  after-hook (some (refused reason)) s k here_now then_on = here_now
  after-hook (some allowed) s k here_now then_on = then_on

  pub after-save :
      {A B : Type 0} (P : A → Type 0) (put : A → View → View) (s : S) (out : S × Result Failure A)
      (f : A → M S B)
      → Writes view P put s out
      → Moves actor u (view s)
      → ((a : A) (s' : S) → P a → view s' ≡ put a (view s) → Reaches (f a s'))
      → Reaches (after out f)
  after-save P put s (s', ok a) f (inl (e, is_err, same)) here_now then_on = cc is_err
  after-save P put s (s', ok a) f (inr (b, is_ok, p, put_b)) here_now then_on =
      let b_eq : b ≡ a = cc is_ok in
      then_on a s' (subst P b_eq p) (put_b ∙ ap (λ x. put x (view s)) b_eq)
  after-save P put s (s', err e) f (inl (x, is_err, same)) here_now then_on =
      subst (Moves actor u) (sym same) here_now
  after-save P put s (s', err e) f (inr (b, is_ok, p, put_b)) here_now then_on = cc is_ok

  -- A step that reads only, with what it found.
  pub after-found :
      {A B : Type 0} (P : A → Type 0) (s : S) (out : S × Result Failure A) (f : A → M S B)
      → ((e : Failure) × (out ≡ (s, err e))) ⊎ ((a : A) × (out ≡ (s, ok a)) × P a)
      → Moves actor u (view s)
      → ((a : A) → P a → Reaches (f a s))
      → Reaches (after out f)
  after-found P s out f (inl (e, is_err)) here_now then_on = rw is_err here_now
  after-found P s out f (inr (a, is_ok, p)) here_now then_on = rw is_ok (then_on a p)

  -- A step that changes nothing that is seen.
  pub after-quiet :
      {A B : Type 0} (s : S) (out : S × Result Failure A) (f : A → M S B)
      → view out.0 ≡ view s
      → Moves actor u (view s)
      → ((a : A) (s' : S) → view s' ≡ view s → Reaches (f a s'))
      → Reaches (after out f)
  after-quiet s (s', ok a) f same here_now then_on = then_on a s' same
  after-quiet s (s', err e) f same here_now then_on = subst (Moves actor u) (sym same) here_now

  module _ (repo : Repository S) (law : IsLawful repo view) where
    pub after-audit :
        {B : Type 0} (id : Text) (now : ℕ) (event : Event) (s : S) (k : M S B)
        → ((s' : S) → view s' ≡ view s → Reaches (k s'))
        → Reaches (after (audit repo id now event s) (λ _. k))
    unfolding audit audit_with
    after-audit id now event s k then_on = elim (Option-cases repo.record_audit_event) [
      | inl e ↦ rw (e, audit_with) (then_on s refl)
      | inr (record_event, e) ↦
          rw (e, audit_with)
            (then_on (record_event id now event s) (law.audit_law record_event id now event s e))
    ]
