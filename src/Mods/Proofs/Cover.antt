-- ===== src/Mods/Proofs/Cover.antt =====
-- The plan of dependencies leaves nothing out.
use easy_mc_server.Prelude.{
  ◌≡◌, refl, sym, subst, ap, ◌∙◌, Bool, true, ◌||◌, Option, none, some, List, [], ◌∷◌, ◌++◌, Text,
  ◌==◌, ==_iff, any, arith, map, or_else, inl, inr, Bool-cases,
}
use mathlib.Core.List.{Memᴰ}
use easy_mc_server.Prelude.Map.{Map, get, put}
use easy_mc_server.Prelude.Map.Laws.{get-put}
use easy_mc_server.Mods.Entry.{
  Mod, Dependency, normalize_selected_mod, required_dependencies, supports_target, includes,
}
use easy_mc_server.Mods.Metadata.{is_complete}
use easy_mc_server.Mods.Plan.{
  Plan, MissingDependency, Suggestion, plan_candidate, plan_dependency, plan_mod, plan_mods,
  no_plan, ids_of, normalize_all, put_mods, build_catalog, add_missing, add_suggestion,
  resolve_dependency_plan,
}
use easy_mc_server.Mods.Proofs.Lists.{map-Memᴰ}

-- The loop has selected the id, or lists it as missing.
abbrev is_covered : Text → Plan → Bool
is_covered id p =
    includes id p.selected_ids || any (λ (x : MissingDependency). x.project_id == id) p.missing

any-append :
    {A : Type 0} (t : A → Bool) (xs ys : List A) → any t (xs ++ ys) ≡ (any t xs || any t ys)
unfolding any
any-append t [] ys = refl
any-append t (x ∷ xs) ys = ground (arith, any-append t xs ys)

add_missing-covers :
    (x : MissingDependency) (id : Text) (p : Plan)
    → (is_covered id (add_missing x p)) ≡ (is_covered id p || x.project_id == id)
unfolding any
add_missing-covers x id p =
    ground (arith, any-append (λ (y : MissingDependency). y.project_id == id) p.missing (x ∷ []))

add_suggestion-covers :
    (x : Suggestion) (id : Text) (p : Plan)
    → (is_covered id (add_suggestion x p)) ≡ (is_covered id p || x.project_id == id)
unfolding any includes
add_suggestion-covers x id p =
    ground (arith, any-append (λ y. y == id) p.selected_ids (x.project_id ∷ []))

-- The entries of the catalog lie under their ids.
abbrev IsKeyed : Map Mod → Type 0
IsKeyed entries = (k : Text) (c : Mod) → get k entries ≡ some c → c.project_id ≡ k

put_mods-IsKeyed :
    (ms : List Mod) (entries : Map Mod) → IsKeyed entries → IsKeyed (put_mods ms entries)
unfolding put_mods
put_mods-IsKeyed [] entries h = h
put_mods-IsKeyed (m ∷ ms) entries h =
    let n = normalize_selected_mod m in
    put_mods-IsKeyed ms (put n.project_id n entries) (λ k c e.
      elim (Bool-cases (n.project_id == k)) [
        | inl hit ↦
            let is_n : n ≡ c = ground (arith, get-put n.project_id k n entries) in
            ap (λ (x : Mod). x.project_id) (sym is_n) ∙ (==_iff n.project_id k).0 hit
        | inr miss ↦ h k c (ground (arith, get-put n.project_id k n entries))
      ])

build_catalog-IsKeyed : (catalog selected : List Mod) → IsKeyed (build_catalog catalog selected)
unfolding build_catalog
build_catalog-IsKeyed catalog selected =
    put_mods-IsKeyed (catalog ++ selected) [] (λ k c e. unfold get in cc e)

plan_candidate-covers :
    (minecraft_version loader : Text) (m : Mod) (d : Dependency) (o : Option Mod) (p : Plan)
    (id : Text)
    → ((c : Mod) → o ≡ some c → c.project_id ≡ d.project_id)
    → is_covered id (plan_candidate minecraft_version loader m d o p)
      ≡ (is_covered id p || d.project_id == id)
unfolding plan_candidate
plan_candidate-covers minecraft_version loader m d none p id keyed = add_missing-covers _ id p
plan_candidate-covers minecraft_version loader m d (some c) p id keyed =
    elim (Bool-cases (supports_target minecraft_version loader c)) [
      | inr b ↦ rw (b, plan_candidate) (add_missing-covers _ id p)
      | inl b ↦ elim (Bool-cases (is_complete c)) [
        | inr e ↦ rw (b, e, plan_candidate) (add_missing-covers _ id p)
        | inl e ↦
            rw (b, e, plan_candidate)
              (add_suggestion-covers
                  (record {
                    project_id = c.project_id;
                    title = c.title;
                    required_by = m.project_id;
                  })
                  id p
                ∙ ap (λ k. is_covered id p || k == id) (keyed c refl))
      ]
    ]

module _ (minecraft_version loader : Text) (catalog : Map Mod) (keyed : IsKeyed catalog) where
  plan_dependency-covers :
      (m : Mod) (d : Dependency) (p : Plan) (id : Text)
      → is_covered id (plan_dependency minecraft_version loader catalog m d p)
        ≡ (is_covered id p || d.project_id == id)
  unfolding plan_dependency
  plan_dependency-covers m d p id = elim (Bool-cases (includes d.project_id p.selected_ids)) [
    | inl b ↦ rw (b, plan_dependency) (ground (arith, ==_iff d.project_id id))
    | inr b ↦
        rw (b, plan_dependency)
          (plan_candidate-covers minecraft_version loader m d (get d.project_id catalog) p id
            (keyed d.project_id))
  ]

  plan_mod-keeps :
      (m : Mod) (ds : List Dependency) (p : Plan) (id : Text)
      → is_covered id p ≡ true
      → is_covered id (plan_mod minecraft_version loader catalog m ds p) ≡ true
  unfolding plan_mod
  plan_mod-keeps m [] p id h = h
  plan_mod-keeps m (d ∷ ds) p id h =
      plan_mod-keeps m ds _ id (ground (arith, plan_dependency-covers m d p id))

  plan_mod-covers :
      (m : Mod) (ds : List Dependency) (p : Plan) (d : Dependency)
      → Memᴰ d ds
      → is_covered d.project_id (plan_mod minecraft_version loader catalog m ds p) ≡ true
  unfolding plan_mod
  plan_mod-covers m [] p d n = elim n [ ]
  plan_mod-covers m (x ∷ ds) p d (Memᴰ.head e) = plan_mod-keeps m ds _ d.project_id (
      ground (
        arith,
        ap (λ (y : Dependency). y.project_id) e,
        plan_dependency-covers m x p d.project_id,
        ==_iff x.project_id d.project_id,
      ))
  plan_mod-covers m (x ∷ ds) p d (Memᴰ.tail n) = plan_mod-covers m ds _ d n

  plan_mods-keeps :
      (ms : List Mod) (p : Plan) (id : Text)
      → is_covered id p ≡ true
      → is_covered id (plan_mods minecraft_version loader catalog ms p) ≡ true
  unfolding plan_mods
  plan_mods-keeps [] p id h = h
  plan_mods-keeps (m ∷ ms) p id h = plan_mods-keeps ms _ id (plan_mod-keeps m _ p id h)

  plan_mods-covers :
      (ms : List Mod) (p : Plan) (m : Mod) (d : Dependency)
      → Memᴰ m ms
      → Memᴰ d (required_dependencies m)
      → is_covered d.project_id (plan_mods minecraft_version loader catalog ms p) ≡ true
  unfolding plan_mods
  plan_mods-covers [] p m d n o = elim n [ ]
  plan_mods-covers (x ∷ ms) p m d (Memᴰ.head e) o = plan_mods-keeps ms _ d.project_id (
      plan_mod-covers x (required_dependencies x) p d
        (subst (λ y. Memᴰ d (required_dependencies y)) e o))
  plan_mods-covers (x ∷ ms) p m d (Memᴰ.tail n) o = plan_mods-covers ms _ m d n o

-- The ids that the loop has selected are those that it began with and those that it suggests.
abbrev IsSplit : List Text → Plan → Type 0
IsSplit start p =
    (id : Text)
    → includes id p.selected_ids
      ≡ (includes id start || any (λ (x : Suggestion). x.project_id == id) p.suggestions)

add_suggestion-IsSplit :
    (start : List Text) (x : Suggestion) (p : Plan)
    → IsSplit start p
    → IsSplit start (add_suggestion x p)
unfolding any includes
add_suggestion-IsSplit start x p h id = ground (
  arith,
  h id,
  any-append (λ y. y == id) p.selected_ids (x.project_id ∷ []),
  any-append (λ (y : Suggestion). y.project_id == id) p.suggestions (x ∷ []),
)

plan_candidate-IsSplit :
    (start : List Text) (minecraft_version loader : Text) (m : Mod) (d : Dependency)
    (o : Option Mod) (p : Plan)
    → IsSplit start p
    → IsSplit start (plan_candidate minecraft_version loader m d o p)
unfolding plan_candidate
plan_candidate-IsSplit start minecraft_version loader m d none p h = h
plan_candidate-IsSplit start minecraft_version loader m d (some c) p h =
    elim (Bool-cases (supports_target minecraft_version loader c)) [
      | inr b ↦ rw (b, plan_candidate) h
      | inl b ↦ elim (Bool-cases (is_complete c)) [
        | inr e ↦ rw (b, e, plan_candidate) h
        | inl e ↦ rw (b, e, plan_candidate) (add_suggestion-IsSplit start _ p h)
      ]
    ]

module _ (start : List Text) (minecraft_version loader : Text) (catalog : Map Mod) where
  plan_dependency-IsSplit :
      (m : Mod) (d : Dependency) (p : Plan)
      → IsSplit start p
      → IsSplit start (plan_dependency minecraft_version loader catalog m d p)
  unfolding plan_dependency
  plan_dependency-IsSplit m d p h = elim (Bool-cases (includes d.project_id p.selected_ids)) [
    | inl b ↦ rw (b, plan_dependency) h
    | inr b ↦
        rw (b, plan_dependency)
          (plan_candidate-IsSplit start minecraft_version loader m d (get d.project_id catalog) p h)
  ]

  plan_mod-IsSplit :
      (m : Mod) (ds : List Dependency) (p : Plan)
      → IsSplit start p
      → IsSplit start (plan_mod minecraft_version loader catalog m ds p)
  unfolding plan_mod
  plan_mod-IsSplit m [] p h = h
  plan_mod-IsSplit m (d ∷ ds) p h = plan_mod-IsSplit m ds _ (plan_dependency-IsSplit m d p h)

  plan_mods-IsSplit :
      (ms : List Mod) (p : Plan)
      → IsSplit start p
      → IsSplit start (plan_mods minecraft_version loader catalog ms p)
  unfolding plan_mods
  plan_mods-IsSplit [] p h = h
  plan_mods-IsSplit (m ∷ ms) p h =
      plan_mods-IsSplit ms _ (plan_mod-IsSplit m (required_dependencies m) p h)

no_plan-IsSplit : (selected : List Mod) → IsSplit (ids_of selected) (no_plan selected)
unfolding any
no_plan-IsSplit selected id = ground arith

-- The id of a mod as it is handed in.
abbrev pub id_of : Mod → Text
id_of m = or_else m.project_id m.id

ids_of-normalize_all : (ms : List Mod) → ids_of (normalize_all ms) ≡ map id_of ms
unfolding normalize_selected_mod
ids_of-normalize_all [] = refl
ids_of-normalize_all (m ∷ ms) = ap (λ ids. id_of m ∷ ids) (ids_of-normalize_all ms)

-- The id is that of a selected mod, or a suggestion or a missing dependency of the plan has it.
abbrev pub is_settled : Text → List Mod → Plan → Bool
is_settled id selected_mods p =
    includes id (map id_of selected_mods)
    || any (λ (x : Suggestion). x.project_id == id) p.suggestions
    || any (λ (x : MissingDependency). x.project_id == id) p.missing

-- Each dependency that a selected mod requires is the id of a selected mod, or the plan suggests it,
-- or the plan lists it as missing.
pub resolve_dependency_plan-covers :
    (minecraft_version loader : Text) (selected_mods catalog : List Mod) (m : Mod) (d : Dependency)
    → Memᴰ m selected_mods
    → Memᴰ d (required_dependencies m)
    → is_settled d.project_id selected_mods
        (resolve_dependency_plan minecraft_version loader selected_mods catalog)
      ≡ true
unfolding resolve_dependency_plan normalize_selected_mod required_dependencies
resolve_dependency_plan-covers minecraft_version loader selected_mods catalog m d n o =
    let selected = normalize_all selected_mods in
    let entries = build_catalog catalog selected in
    let p = plan_mods minecraft_version loader entries selected (no_plan selected) in
    let covered : is_covered d.project_id p ≡ true =
      plan_mods-covers minecraft_version loader entries (build_catalog-IsKeyed catalog selected)
        selected (no_plan selected) (normalize_selected_mod m) d
        (map-Memᴰ normalize_selected_mod selected_mods m n) o in
    let parts =
      plan_mods-IsSplit (ids_of selected) minecraft_version loader entries selected
        (no_plan selected) (no_plan-IsSplit selected) d.project_id in
    rw (← ids_of-normalize_all selected_mods) (rw (← parts) covered)
