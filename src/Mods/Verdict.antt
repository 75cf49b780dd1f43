-- ===== src/Mods/Verdict.antt =====
-- `evaluateCompatibility`: the label of a set of mods and the advice that goes with it.
use easy_mc_server.Prelude.{
  Bool, true, false, not, ◌||◌, Option, List, [], ◌∷◌, Text, str, or_else, get_or, any, all, filter,
  if◌then◌else◌,
}
use easy_mc_server.Prelude.Map.{values}
use easy_mc_server.Mods.Entry.{
  Mod, SideClass, unknown_side, classify_side, supports_target, includes,
}
use easy_mc_server.Mods.Metadata.{is_complete}
use easy_mc_server.Mods.Plan.{Plan, normalize_all, ids_of, build_catalog, resolve_dependency_plan}

pub data RiskLabel : Type 0 where
  high_confidence caution likely_fail : RiskLabel

pub record Conflict : Type 0 where
  pub mods : Option (List Text)
  pub a : Text
  pub b : Text
  pub advice : Text

abbrev pub mods_of : Conflict → List Text
mods_of c = get_or c.mods (c.a ∷ c.b ∷ [])

unfoldable pub find_known_conflicts : List Text → List Conflict → List Conflict
find_known_conflicts selected_ids known =
    filter (λ c. all (λ id. includes id selected_ids) (mods_of c)) known

abbrev pub is_nil : {A : Type 0} → List A → Bool
is_nil [] = true
is_nil (x ∷ xs) = false

abbrev pub is_unknown : SideClass → Bool
is_unknown unknown_side = true
is_unknown _ = false

-- What the label and the advice are made of.
pub record Findings : Type 0 where
  pub metadata_issues : List Mod
  pub unsupported : List Mod
  pub plan : Plan
  pub conflicts : List Conflict
  pub unknown_sides : Bool

unfoldable pub label_of : Findings → RiskLabel
label_of f =
    if not (is_nil f.metadata_issues)
      || not (is_nil f.unsupported)
      || not (is_nil f.plan.missing)
      || not (is_nil f.plan.suggestions)
    then likely_fail
    else if not (is_nil f.conflicts) || f.unknown_sides
    then caution
    else high_confidence

abbrev pub first_advice : List Conflict → Text
first_advice [] = str "Review this combination before recommending it."
first_advice (c ∷ cs) = or_else c.advice (str "Use only one of these mods in this pack.")

abbrev pub is_high : RiskLabel → Bool
is_high high_confidence = true
is_high _ = false

abbrev pub is_likely_fail : RiskLabel → Bool
is_likely_fail likely_fail = true
is_likely_fail _ = false

unfoldable pub build_advice : RiskLabel → Findings → Text
build_advice label f =
    if is_high label
    then str "This set is marked compatible for the selected Minecraft and Fabric version."
    else if not (is_nil f.metadata_issues)
    then str "Some selected mods are missing metadata needed for a safe recommendation."
    else if not (is_nil f.unsupported)
    then str
        "Choose versions that list the selected Minecraft version and Fabric loader before generating the pack."
    else if not (is_nil f.plan.missing)
    then str "Add the required dependencies or choose another mod before generating the pack."
    else first_advice f.conflicts

pub record Verdict : Type 0 where
  pub label : RiskLabel
  pub can_generate_pack : Bool
  pub advice : Text
  pub findings : Findings

unfoldable pub findings_of : Text → Text → List Mod → List Mod → List Conflict → Findings
findings_of minecraft_version loader selected_mods catalog known =
    let selected = normalize_all selected_mods in
    record {
      metadata_issues = filter (λ m. not (is_complete m)) selected;
      unsupported = filter (λ m. not (supports_target minecraft_version loader m)) selected;
      plan =
          resolve_dependency_plan minecraft_version loader selected
            (values (build_catalog catalog selected));
      conflicts = find_known_conflicts (ids_of selected) known;
      unknown_sides = any (λ m. is_unknown (classify_side m)) selected;
    }

unfoldable pub evaluate_compatibility : Text → Text → List Mod → List Mod → List Conflict → Verdict
evaluate_compatibility minecraft_version loader selected_mods catalog known =
    let f = findings_of minecraft_version loader selected_mods catalog known in
    let label = label_of f in
    record {
      label = label;
      can_generate_pack = not (is_likely_fail label);
      advice = build_advice label f;
      findings = f;
    }
