-- ===== src/Mods/Catalog.antt =====
-- packages/mod-catalog/src/index.mjs: the metadata of a catalog entry, and the curated pack, which
-- takes complete entries only. What the source throws is a refusal.
use easy_mc_server.Prelude.{
  ℕ, Bool, true, false, not, Option, none, some, List, [], ◌∷◌, ◌++◌, map, Text, str, truthy, show,
  or_else, get_or, filter, Result, ok, err,
}
use Prim.Native.String.{◌++◌ as append}
use easy_mc_server.Mods.Entry.{
  Mod, ModFile, Side, client_of, server_of, game_versions_of, loaders_of, dependencies_of,
  has_complete_side_metadata,
}
use easy_mc_server.Mods.Metadata.{
  Field, lacks, require_field, is_empty, evaluate_file, files_metadata, source_url_of, none_missing,
  project_id_field, provider_field, source_url_field, license_field, permission_field, side_field,
  game_versions_field, loaders_field, dependencies_field, filename_field,
}

unfoldable pub evaluate_catalog_file : ℕ → ModFile → List Field
unfolding evaluate_file
evaluate_catalog_file index f =
    lacks (not (truthy f.filename)) (filename_field index) ++ evaluate_file index f

abbrev pub is_absent : {A : Type 0} → Option A → Bool
is_absent none = true
is_absent (some a) = false

unfoldable pub evaluate_catalog_entry_metadata : Mod → List Field
evaluate_catalog_entry_metadata m =
    require_field project_id_field (or_else m.project_id m.id)
    ++ (require_field provider_field (or_else m.source_provider m.metadata_source)
        ++ (require_field source_url_field (source_url_of m)
            ++ (require_field license_field m.license
                ++ (require_field permission_field m.permission
                    ++ (lacks (not (has_complete_side_metadata m.side)) side_field
                        ++ (lacks (is_empty (game_versions_of m.version)) game_versions_field
                            ++ (lacks (is_empty (loaders_of m.version)) loaders_field
                                ++ (lacks (is_absent (dependencies_of m.version)) dependencies_field
                                    ++ files_metadata evaluate_catalog_file m.files))))))))

unfoldable pub catalog_entry_has_required_metadata : Mod → Bool
catalog_entry_has_required_metadata m = none_missing (evaluate_catalog_entry_metadata m)

unfoldable pub side_to_env : Option Side → Side
side_to_env side = record {
  client = or_else (client_of side) (str "optional");
  server = or_else (server_of side) (str "optional");
}

pub record PackFile : Type 0 where
  pub path : Text
  pub sha1 : Text
  pub sha512 : Text
  pub env : Side
  pub download : Text
  pub file_size : Option ℕ
  pub project_id : Text
  pub source_url : Text
  pub license : Text
  pub permission : Text

unfoldable pub pack_file : Mod → ModFile → PackFile
unfolding side_to_env
pack_file m f = record {
  path = str (append "mods/" (show f.filename));
  sha1 = f.sha1;
  sha512 = f.sha512;
  env = side_to_env m.side;
  download = f.url;
  file_size = f.size;
  project_id = m.project_id;
  source_url = m.source_url;
  license = m.license;
  permission = m.permission;
}

unfoldable pub pack_files : List Mod → List PackFile
pack_files [] = []
pack_files (m ∷ ms) = map (pack_file m) (get_or m.files []) ++ pack_files ms

-- The reasons to throw: no mods, or the entries that are not complete.
pub data PackError : Type 0 where
  no_mods : PackError
  incomplete : List Mod → PackError

pub record Pack : Type 0 where
  pub name : Text
  pub version_id : Text
  pub summary : Text
  pub minecraft_version : Text
  pub fabric_loader_version : Text
  pub files : List PackFile

unfoldable pub create_curated_pack :
    Text → Text → Text → Text → Text → List Mod → Result PackError Pack
create_curated_pack name version_id summary minecraft_version fabric_loader_version [] = err no_mods
create_curated_pack name version_id summary minecraft_version fabric_loader_version (m ∷ ms) =
    elim (filter (λ x. not (catalog_entry_has_required_metadata x)) (m ∷ ms)) [
      | x ∷ xs ↦ err (incomplete (x ∷ xs))
      | [] ↦ ok (record {
        name = name;
        version_id = version_id;
        summary = summary;
        minecraft_version = minecraft_version;
        fabric_loader_version = fabric_loader_version;
        files = pack_files (m ∷ ms);
      })
    ]
