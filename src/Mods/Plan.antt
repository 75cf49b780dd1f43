-- ===== src/Mods/Plan.antt =====
-- `resolveDependencyPlan`: what to add to the selected mods, and what is missing.
use easy_mc_server.Prelude.{Option, none, some, List, [], ◌∷◌, ◌++◌, map, Text, if◌then◌else◌}
use easy_mc_server.Prelude.Map.{Map, get, put}
use easy_mc_server.Mods.Entry.{
  Mod, Dependency, normalize_selected_mod, supports_target, required_dependencies, includes,
}
use easy_mc_server.Mods.Metadata.{Field, evaluate_mod_metadata, is_complete}

pub record Suggestion : Type 0 where
  pub project_id : Text
  pub title : Text
  pub required_by : Text

pub data MissingReason : Type 0 where
  incomplete_metadata : List Field → MissingReason
  not_in_catalog : MissingReason

pub record MissingDependency : Type 0 where
  pub project_id : Text
  pub required_by : Text
  pub reason : MissingReason

-- The state of the loop, whose set of ids is a list.
pub record Plan : Type 0 where
  pub selected_ids : List Text
  pub suggestions : List Suggestion
  pub missing : List MissingDependency

abbrev pub normalize_all : List Mod → List Mod
normalize_all = map normalize_selected_mod

abbrev pub ids_of : List Mod → List Text
ids_of = map (λ (m : Mod). m.project_id)

unfoldable pub put_mods : List Mod → Map Mod → Map Mod
put_mods [] entries = entries
put_mods (m ∷ ms) entries =
    let n = normalize_selected_mod m in put_mods ms (put n.project_id n entries)

unfoldable pub build_catalog : List Mod → List Mod → Map Mod
build_catalog catalog selected = put_mods (catalog ++ selected) []

abbrev pub add_missing : MissingDependency → Plan → Plan
add_missing x p = record p { missing = p.missing ++ (x ∷ []) }

abbrev pub add_suggestion : Suggestion → Plan → Plan
add_suggestion x p = record p {
  selected_ids = p.selected_ids ++ (x.project_id ∷ []);
  suggestions = p.suggestions ++ (x ∷ []);
}

-- One required dependency that is not selected, with its entry in the catalog.
unfoldable pub plan_candidate : Text → Text → Mod → Dependency → Option Mod → Plan → Plan
plan_candidate minecraft_version loader m d none p =
    add_missing
      (record { project_id = d.project_id; required_by = m.project_id; reason = not_in_catalog }) p
plan_candidate minecraft_version loader m d (some candidate) p =
    if supports_target minecraft_version loader candidate
    then (if is_complete candidate
        then add_suggestion
            (record {
              project_id = candidate.project_id;
              title = candidate.title;
              required_by = m.project_id;
            })
            p
        else add_missing
            (record {
              project_id = d.project_id;
              required_by = m.project_id;
              reason = incomplete_metadata (evaluate_mod_metadata candidate);
            })
            p)
    else add_missing
        (record { project_id = d.project_id; required_by = m.project_id; reason = not_in_catalog })
        p

unfoldable pub plan_dependency : Text → Text → Map Mod → Mod → Dependency → Plan → Plan
unfolding plan_candidate
plan_dependency minecraft_version loader catalog m d p =
    if includes d.project_id p.selected_ids
    then p
    else plan_candidate minecraft_version loader m d (get d.project_id catalog) p

unfoldable pub plan_mod : Text → Text → Map Mod → Mod → List Dependency → Plan → Plan
plan_mod minecraft_version loader catalog m [] p = p
plan_mod minecraft_version loader catalog m (d ∷ ds) p =
    plan_mod minecraft_version loader catalog m ds
      (plan_dependency minecraft_version loader catalog m d p)

unfoldable pub plan_mods : Text → Text → Map Mod → List Mod → Plan → Plan
plan_mods minecraft_version loader catalog [] p = p
plan_mods minecraft_version loader catalog (m ∷ ms) p =
    plan_mods minecraft_version loader catalog ms
      (plan_mod minecraft_version loader catalog m (required_dependencies m) p)

abbrev pub no_plan : List Mod → Plan
no_plan selected = record { selected_ids = ids_of selected; suggestions = []; missing = [] }

unfoldable pub resolve_dependency_plan : Text → Text → List Mod → List Mod → Plan
resolve_dependency_plan minecraft_version loader selected_mods catalog =
    let selected = normalize_all selected_mods in
    plan_mods minecraft_version loader (build_catalog catalog selected) selected (no_plan selected)

-- `resolvedMods`: a suggestion stands for its entry in the catalog.
unfoldable pub resolved_mods : Text → Text → List Mod → List Mod → List (Option Mod)
resolved_mods minecraft_version loader selected_mods catalog =
    let selected = normalize_all selected_mods in
    let entries = build_catalog catalog selected in
    let p = resolve_dependency_plan minecraft_version loader selected_mods catalog in
    map some selected ++ map (λ (s : Suggestion). get s.project_id entries) p.suggestions
