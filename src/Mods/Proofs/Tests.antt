-- ===== src/Mods/Proofs/Tests.antt =====
-- Two mods, where one requires the other. The theorems on sets of mods are applied to them.
use easy_mc_server.Prelude.{
  ◌≡◌, refl, true, false, none, some, [], ◌∷◌, filter, any, all, All, undefined, str, ◌==◌, truthy,
  or_else, ok,
}
use mathlib.Core.List.{Memᴰ}
use easy_mc_server.Prelude.Map.{get, put, values}
use easy_mc_server.Mods.Entry.{
  Dependency, Mod, normalize_selected_mod, required_dependencies, supports_target, includes,
  has_complete_side_metadata, is_known_side_value, classify_side, classify_sides,
}
use easy_mc_server.Mods.Metadata.{
  is_complete, evaluate_mod_metadata, evaluate_file, evaluate_files, files_metadata, require_field,
}
use easy_mc_server.Mods.Plan.{
  build_catalog, put_mods, plan_dependency, plan_mod, plan_mods, resolve_dependency_plan,
}
use easy_mc_server.Mods.Verdict.{
  evaluate_compatibility, findings_of, find_known_conflicts, label_of,
}
use easy_mc_server.Mods.Catalog.{
  Pack, create_curated_pack, pack_files, evaluate_catalog_file, evaluate_catalog_entry_metadata,
  catalog_entry_has_required_metadata,
}
use easy_mc_server.Mods.Proofs.Cover.{is_settled, resolve_dependency_plan-covers}
use easy_mc_server.Mods.Proofs.Pack.{IsPinnedFile, create_curated_pack-IsPinned}
use easy_mc_server.Mods.Proofs.Closure.{IsSettled, evaluate_compatibility-IsSettled}
use easy_mc_server.Mods.Proofs.Sides.{bare, declared, normalize_forgets_sides}

abbrev api : Mod
api = record {
  id = undefined;
  project_id = str "api";
  slug = str "api";
  title = str "API";
  source_provider = str "modrinth";
  source_project_url = undefined;
  source_link = undefined;
  metadata_source = undefined;
  source_url = str "https://modrinth.com/mod/api";
  license = str "MIT";
  permission = str "original_url_only";
  side = some (record { client = str "required"; server = str "required" });
  side_metadata_complete = none;
  version = some (record {
    game_versions = some (str "1.21.1" ∷ []);
    loaders = some (str "fabric" ∷ []);
    dependencies = some [];
  });
  game_versions = none;
  loaders = none;
  dependencies = none;
  files = some (
      record {
        filename = str "api.jar";
        url = str "https://cdn/api.jar";
        sha1 = str "a1";
        sha512 = str "a5";
        size = some 10;
      }
      ∷ []);
}

abbrev fast : Mod
fast = record api {
  project_id = str "fast";
  version = some (record {
    game_versions = some (str "1.21.1" ∷ []);
    loaders = some (str "fabric" ∷ []);
    dependencies = some (record { project_id = str "api"; kind = str "required" } ∷ []);
  });
}

may_generate :
    (evaluate_compatibility (str "1.21.1") (str "fabric") (fast ∷ api ∷ []) [] []).can_generate_pack
    ≡ true
unfolding evaluate_compatibility findings_of find_known_conflicts label_of resolve_dependency_plan
    plan_mods plan_mod plan_dependency build_catalog put_mods normalize_selected_mod
    required_dependencies supports_target includes has_complete_side_metadata is_known_side_value
    is_complete evaluate_mod_metadata evaluate_file evaluate_files files_metadata require_field get
    put values filter any all ◌==◌ truthy or_else classify_side classify_sides
may_generate = refl

evaluate_compatibility-IsSettled_example :
    IsSettled (str "1.21.1") (str "fabric") (fast ∷ api ∷ []) fast
evaluate_compatibility-IsSettled_example =
    evaluate_compatibility-IsSettled (str "1.21.1") (str "fabric") (fast ∷ api ∷ []) [] [] fast
      may_generate (Memᴰ.head refl)

abbrev pack : Pack
pack = record {
  name = str "Room";
  version_id = str "1";
  summary = str "A room";
  minecraft_version = str "1.21.1";
  fabric_loader_version = str "0.16";
  files = pack_files (api ∷ []);
}

makes_pack :
    create_curated_pack (str "Room") (str "1") (str "A room") (str "1.21.1") (str "0.16") (api ∷ [])
    ≡ ok pack
unfolding create_curated_pack catalog_entry_has_required_metadata evaluate_catalog_entry_metadata
    evaluate_catalog_file evaluate_file evaluate_files files_metadata require_field
    has_complete_side_metadata is_known_side_value filter ◌==◌ truthy or_else
makes_pack = refl

create_curated_pack-IsPinned_example :
    All (λ m. catalog_entry_has_required_metadata m ≡ true) (api ∷ []) × All IsPinnedFile pack.files
create_curated_pack-IsPinned_example =
    create_curated_pack-IsPinned (str "Room") (str "1") (str "A room") (str "1.21.1") (str "0.16")
      (api ∷ []) pack makes_pack

normalize_forgets_sides_example :
    (is_complete (normalize_selected_mod (bare api)) ≡ false)
    × (is_complete (normalize_selected_mod (normalize_selected_mod (bare api)))
        ≡ is_complete (normalize_selected_mod (declared api)))
normalize_forgets_sides_example = normalize_forgets_sides api

abbrev requires_api : Dependency
requires_api = record { project_id = str "api"; kind = str "required" }

fast-requires : Memᴰ requires_api (required_dependencies fast)
unfolding required_dependencies normalize_selected_mod filter ◌==◌ truthy
fast-requires = Memᴰ.head refl

resolve_dependency_plan-covers_example :
    is_settled
      (str "api")
      (fast ∷ [])
      (resolve_dependency_plan (str "1.21.1") (str "fabric") (fast ∷ []) (api ∷ []))
    ≡ true
resolve_dependency_plan-covers_example =
    resolve_dependency_plan-covers (str "1.21.1") (str "fabric") (fast ∷ []) (api ∷ []) fast
      requires_api (Memᴰ.head refl) fast-requires
