-- ===== src/HostRuntime/Proofs/Opening.antt =====
-- `createHostRuntimePlan` answers with a plan for the rooms that may be opened, and for no others.
use easy_mc_server.Prelude.{
  Option, none, some, Option-cases, ◌≡◌, ◌⊎◌, refl, sym, ◌∙◌, none, Result, ok, err, Bool-cases,
  Option-cases, Result-cases, inl, inr,
}
use easy_mc_server.Prelude.Chars.{chars}
use easy_mc_server.HostRuntime.Paths.{is_safe_file_name}
use easy_mc_server.HostRuntime.Input.{
  RuntimeState, FailureReason, SelectedVersion, select_supported_minecraft_version, Loader,
  choose_loader, launcher_jar_of, resolved, resolve_fabric_loader, RuntimeInput,
  cache_layout_invalid, loader_unavailable,
}
use easy_mc_server.HostRuntime.Layout.{layout_of, create_app_data_layout}
use easy_mc_server.HostRuntime.Plan.{
  validate_with, validate_host_runtime, Problem, refused, type_error, Plan, plan_of, plan_with,
  with_runtime, create_host_runtime_plan,
}
use easy_mc_server.HostRuntime.Proofs.Guards.{MayOpen, root_of, validate_with-none}

abbrev pub plan_for : RuntimeInput → Option RuntimeState → SelectedVersion → Loader → Plan
plan_for input state selected l =
    plan_of input state selected (resolved selected.version l)
      (layout_of (chars (root_of input)) (chars input.room.id))

-- What is answered where all guards have passed.
abbrev answer_for : RuntimeInput → SelectedVersion → Loader → Result Problem Plan
answer_for input selected l =
    with_runtime input selected (resolved selected.version l)
      (layout_of (chars (root_of input)) (chars input.room.id)) input.runtime

plan_with-plan :
    (input : RuntimeInput) (selected : SelectedVersion) (l : Loader)
    → MayOpen input selected l
    → plan_with input selected ≡ answer_for input selected l
unfolding plan_with resolve_fabric_loader create_app_data_layout resolved
plan_with-plan input selected l m =
    rw
      (m.loader, m.jar, m.root, m.room_id, plan_with, resolve_fabric_loader, create_app_data_layout)
      (rw (m.jar, resolved) refl)

-- A refusal with a reason, or the plan of a room that may be opened.
abbrev Outcome : RuntimeInput → Result Problem Plan → Type 0
Outcome input out =
    ((reason : FailureReason) × (out ≡ err (refused reason)))
    ⊎ ((selected : SelectedVersion) × (l : Loader) × MayOpen input selected l
        × (out ≡ answer_for input selected l))

plan_with-Outcome :
    (input : RuntimeInput) (selected : SelectedVersion)
    → select_supported_minecraft_version input.supported_versions input.minecraft_version
      ≡ ok selected
    → validate_with input selected ≡ none
    → Outcome input (plan_with input selected)
unfolding plan_with resolve_fabric_loader
plan_with-Outcome input selected e f =
    elim (Option-cases
      (choose_loader input.fabric.loaders selected.version input.fabric.loader_version)) [
        | inl g ↦ inl (loader_unavailable, rw (g, plan_with, resolve_fabric_loader) refl)
        | inr (l, g) ↦ elim (Bool-cases (is_safe_file_name (launcher_jar_of selected.version l))) [
          | inr h ↦ inl (cache_layout_invalid, rw (g, h, plan_with, resolve_fabric_loader) refl)
          | inl h ↦
              let m = validate_with-none input selected l e f g h in
              inr (selected, l, m, plan_with-plan input selected l m)
        ]
      ]

pub create_host_runtime_plan-Outcome :
    (input : RuntimeInput) → Outcome input (create_host_runtime_plan input)
unfolding create_host_runtime_plan validate_host_runtime
create_host_runtime_plan-Outcome input =
    elim (Result-cases
      (select_supported_minecraft_version input.supported_versions input.minecraft_version)) [
        | inl (r, e) ↦ inl (r, rw (e, create_host_runtime_plan, validate_host_runtime) refl)
        | inr (selected, e) ↦ elim (Option-cases (validate_with input selected)) [
          | inr (r, f) ↦ inl (r, rw (e, f, create_host_runtime_plan, validate_host_runtime) refl)
          | inl f ↦
              rw (e, f, create_host_runtime_plan, validate_host_runtime)
                (rw e (plan_with-Outcome input selected e f))
        ]
      ]

-- The outcome, by whether the input has a runtime.
with_runtime-some :
    (input : RuntimeInput) (state : Option RuntimeState) (selected : SelectedVersion) (l : Loader)
    → input.runtime ≡ some state
    → answer_for input selected l ≡ ok (plan_for input state selected l)
unfolding with_runtime
with_runtime-some input state selected l e = rw e refl

with_runtime-none :
    (input : RuntimeInput) (selected : SelectedVersion) (l : Loader)
    → input.runtime ≡ none
    → answer_for input selected l ≡ err type_error
unfolding with_runtime
with_runtime-none input selected l e = rw e refl

err-ok : {x : Problem} {p : Plan} → ◌≡◌ {A = Result Problem Plan} (err x) (ok p) → ⊥
err-ok e = cc e

-- A plan is made only for a room that may be opened and whose input has a runtime.
pub planned-MayOpen :
    (input : RuntimeInput) (p : Plan)
    → create_host_runtime_plan input ≡ ok p
    → (state : Option RuntimeState) × (selected : SelectedVersion) × (l : Loader) × MayOpen input
        selected l
      × (input.runtime ≡ some state)
      × (p ≡ plan_for input state selected l)
planned-MayOpen input p q = elim (create_host_runtime_plan-Outcome input) [
  | inl (r, e) ↦ absurd (err-ok (sym e ∙ q))
  | inr (selected, l, m, e) ↦ elim (Option-cases input.runtime) [
    | inl f ↦ absurd (err-ok (sym (with_runtime-none input selected l f) ∙ sym e ∙ q))
    | inr (state, f) ↦ (
      state,
      selected,
      l,
      m,
      f,
      ok-injective (sym q ∙ e ∙ with_runtime-some input state selected l f),
    )
  ]
]
  where
    ok-injective : {a b : Plan} → ◌≡◌ {A = Result Problem Plan} (ok a) (ok b) → a ≡ b
    ok-injective h = cc h
