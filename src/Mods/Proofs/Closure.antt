-- ===== src/Mods/Proofs/Closure.antt =====
-- A set of mods that may be made into a pack has all that it needs.
use easy_mc_server.Prelude.{
  ◌≡◌, refl, sym, subst, ap, ◌∙◌, Bool, true, false, ◌&&◌, Option, none, some, List, [], ◌∷◌, Text,
  All, or_else, arith, inl, inr, Bool-cases,
}
use mathlib.Core.List.{Memᴰ}
use mathlib.Core.List.Memᴰ
use easy_mc_server.Prelude.Map.{Map, get, values}
use easy_mc_server.Mods.Entry.{
  Mod, Dependency, normalize_selected_mod, required_dependencies, supports_target, includes,
}
use easy_mc_server.Mods.Metadata.{is_complete}
use easy_mc_server.Mods.Plan.{
  Plan, plan_candidate, plan_dependency, plan_mod, plan_mods, no_plan, normalize_all, ids_of,
  build_catalog, resolve_dependency_plan,
}
use easy_mc_server.Mods.Verdict.{Conflict, is_nil, label_of, findings_of, evaluate_compatibility}
use easy_mc_server.Mods.Proofs.Lists.{is_nil-append, is_nil-filter, All-tabulate, map-Memᴰ}

-- A plan that adds nothing and misses nothing.
abbrev is_quiet : Plan → Bool
is_quiet p = is_nil p.suggestions && is_nil p.missing

plan_candidate-adds :
    (minecraft_version loader : Text) (m : Mod) (d : Dependency) (o : Option Mod) (p : Plan)
    → is_quiet (plan_candidate minecraft_version loader m d o p) ≡ false
unfolding plan_candidate
plan_candidate-adds minecraft_version loader m d none p = grind (arith, is_nil-append p.missing)
plan_candidate-adds minecraft_version loader m d (some c) p =
    grind (arith, is_nil-append p.missing, is_nil-append p.suggestions)

module _ (minecraft_version loader : Text) (catalog : Map Mod) where
  plan_dependency-quiet :
      (m : Mod) (d : Dependency) (p : Plan)
      → is_quiet (plan_dependency minecraft_version loader catalog m d p) ≡ true
      → (plan_dependency minecraft_version loader catalog m d p ≡ p)
        × (includes d.project_id p.selected_ids ≡ true)
  unfolding plan_dependency
  plan_dependency-quiet m d p h = elim (Bool-cases (includes d.project_id p.selected_ids)) [
    | inl b ↦ (rw (b, plan_dependency) refl, b)
    | inr b ↦ cc (
      rw (b, plan_dependency) at h,
      plan_candidate-adds minecraft_version loader m d (get d.project_id catalog) p,
    )
  ]

  plan_mod-quiet :
      (m : Mod) (ds : List Dependency) (p : Plan)
      → is_quiet (plan_mod minecraft_version loader catalog m ds p) ≡ true
      → (plan_mod minecraft_version loader catalog m ds p ≡ p)
        × ((d : Dependency) → Memᴰ d ds → includes d.project_id p.selected_ids ≡ true)
  unfolding plan_mod
  plan_mod-quiet m [] p h = (refl, λ d n. elim n [ ])
  plan_mod-quiet m (d ∷ ds) p h =
      let q = plan_dependency minecraft_version loader catalog m d p in
      let (same, rest) = plan_mod-quiet m ds q h in
      let (same_d, there) = plan_dependency-quiet m d p (ap is_quiet (sym same) ∙ h) in
      (
        same ∙ same_d,
        λ x n. elim (Memᴰ.cases_cons n) [
          | inl e ↦ rw e there
          | inr o ↦ ap (λ (r : Plan). includes x.project_id r.selected_ids) (sym same_d) ∙ rest x o
        ],
      )

  plan_mods-quiet :
      (ms : List Mod) (p : Plan)
      → is_quiet (plan_mods minecraft_version loader catalog ms p) ≡ true
      → (plan_mods minecraft_version loader catalog ms p ≡ p)
        × ((m : Mod) (d : Dependency)
            → Memᴰ m ms
            → Memᴰ d (required_dependencies m)
            → includes d.project_id p.selected_ids ≡ true)
  unfolding plan_mods
  plan_mods-quiet [] p h = (refl, λ m d n _. elim n [ ])
  plan_mods-quiet (m ∷ ms) p h =
      let q = plan_mod minecraft_version loader catalog m (required_dependencies m) p in
      let (same, rest) = plan_mods-quiet ms q h in
      let (same_m, there) =
        plan_mod-quiet m (required_dependencies m) p (ap is_quiet (sym same) ∙ h) in
      (
        same ∙ same_m,
        λ x d n o. elim (Memᴰ.cases_cons n) [
          | inl e ↦ there d (subst (λ y. Memᴰ d (required_dependencies y)) e o)
          | inr k ↦
              ap (λ (r : Plan). includes d.project_id r.selected_ids) (sym same_m) ∙ rest x d k o
        ],
      )

normalize-supports_target :
    (minecraft_version loader : Text) (m : Mod)
    → supports_target minecraft_version loader (normalize_selected_mod m)
      ≡ supports_target minecraft_version loader m
unfolding supports_target normalize_selected_mod
normalize-supports_target minecraft_version loader m = refl

or_else-twice : (a b : Text) → or_else (or_else a b) b ≡ or_else a b
unfolding or_else
or_else-twice Text.undefined Text.undefined = refl
or_else-twice Text.undefined (Text.str b) = refl
or_else-twice (Text.str a) b = refl

ids_of-normalize_all :
    (ms : List Mod) → ids_of (normalize_all (normalize_all ms)) ≡ ids_of (normalize_all ms)
unfolding normalize_selected_mod
ids_of-normalize_all [] = refl
ids_of-normalize_all (m ∷ ms) = cc (or_else-twice m.project_id m.id, ids_of-normalize_all ms)

-- A selected mod of a set that may be made into a pack: its metadata is complete, it supports the
-- target, and what it requires is selected.
pub record IsSettled (minecraft_version loader : Text) (selected_mods : List Mod) (m : Mod)
    : Type 0 where
  pub complete : is_complete (normalize_selected_mod m) ≡ true
  pub supported : supports_target minecraft_version loader m ≡ true
  pub closed :
      All
        (λ d. includes d.project_id (ids_of (normalize_all selected_mods)) ≡ true)
        (required_dependencies m)

-- If a set of mods may be made into a pack, then each of its mods has complete metadata and supports
-- the target, and each dependency that it requires is in the set.
pub evaluate_compatibility-IsSettled :
    (minecraft_version loader : Text) (selected_mods catalog : List Mod) (known : List Conflict)
    (m : Mod)
    → (evaluate_compatibility minecraft_version loader selected_mods catalog
        known).can_generate_pack
      ≡ true
    → Memᴰ m selected_mods
    → IsSettled minecraft_version loader selected_mods m
unfolding evaluate_compatibility label_of findings_of resolve_dependency_plan normalize_selected_mod
    required_dependencies
evaluate_compatibility-IsSettled minecraft_version loader selected_mods catalog known m h n =
    let f = findings_of minecraft_version loader selected_mods catalog known in
    let selected = normalize_all selected_mods in
    let again = normalize_all selected in
    let entries = build_catalog (values (build_catalog catalog selected)) again in
    let there = map-Memᴰ normalize_selected_mod selected_mods m n in
    let quiet : is_quiet f.plan ≡ true = ground arith in
    let all_there =
      (plan_mods-quiet minecraft_version loader entries again (no_plan again) quiet).1 in
    record {
      complete = is_nil-filter is_complete selected _ (ground arith) there;
      supported =
          sym (normalize-supports_target minecraft_version loader m)
          ∙ is_nil-filter (supports_target minecraft_version loader) selected _ (ground arith)
              there;
      closed =
          All-tabulate
            (λ (d : Dependency).
              includes d.project_id (ids_of (normalize_all selected_mods)) ≡ true)
            (required_dependencies m)
            (λ d o.
              ap (includes d.project_id) (sym (ids_of-normalize_all selected_mods))
              ∙ all_there _ d (map-Memᴰ normalize_selected_mod selected _ there) o);
    }
