-- ===== src/Mods/Proofs/Sides.antt =====
-- What completing a mod twice does to its sides. `evaluateCompatibility` completes the catalog before
-- `resolveDependencyPlan` completes it again.
use easy_mc_server.Prelude.{◌≡◌, refl, false, none, some, str, or_else, ◌==◌, arith}
use easy_mc_server.Mods.Entry.{
  Mod, normalize_selected_mod, has_complete_side_metadata, is_known_side_value,
}
use easy_mc_server.Mods.Metadata.{is_complete, evaluate_mod_metadata}
use easy_mc_server.Mods.Proofs.Lists.{none_missing-append}

abbrev pub bare : Mod → Mod
bare m = record m { side = none }

abbrev pub declared : Mod → Mod
declared m = record m { side = some (record { client = str "optional"; server = str "optional" }) }

-- A mod without sides is incomplete once it has been normalized; normalized a second time it counts
-- as complete as if it had declared both sides optional.
pub normalize_forgets_sides :
    (m : Mod)
    → (is_complete (normalize_selected_mod (bare m)) ≡ false)
      × (is_complete (normalize_selected_mod (normalize_selected_mod (bare m)))
          ≡ is_complete (normalize_selected_mod (declared m)))
unfolding is_complete evaluate_mod_metadata normalize_selected_mod has_complete_side_metadata
    is_known_side_value or_else ◌==◌
normalize_forgets_sides m = (grind (arith, none_missing-append), refl)
