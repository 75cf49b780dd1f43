-- ===== src/Mods/Metadata.antt =====
-- `evaluateModMetadata`: the fields that a mod lacks. A list, once it is there, is a list; so the
-- check that the dependencies are one always passes after normalizing.
use easy_mc_server.Prelude.{
  ℕ, suc, Bool, true, false, not, ◌||◌, Option, none, some, List, [], ◌∷◌, ◌++◌, Text, truthy,
  or_else, get_or, ltb, if◌then◌else◌,
}
use easy_mc_server.Mods.Entry.{
  Mod, ModFile, game_versions_of, loaders_of, marked_incomplete, has_complete_side_metadata,
  normalize_selected_mod,
}

pub data Field : Type 0 where
  project_id_field provider_field source_url_field license_field permission_field : Field
  side_field game_versions_field loaders_field dependencies_field files_field : Field
  filename_field url_field sha1_field sha512_field size_field : ℕ → Field

-- `missing.push(field)` under a condition.
abbrev pub lacks : Bool → Field → List Field
lacks true f = f ∷ []
lacks false f = []

unfoldable pub require_field : Field → Text → List Field
require_field f value = lacks (not (truthy value)) f

abbrev pub is_empty : {A : Type 0} → Option (List A) → Bool
is_empty (some (x ∷ xs)) = false
is_empty _ = true

abbrev pub is_positive : Option ℕ → Bool
is_positive none = false
is_positive (some n) = ltb 0 n

unfoldable pub evaluate_file : ℕ → ModFile → List Field
evaluate_file index f =
    lacks (not (truthy f.url)) (url_field index)
    ++ (lacks (not (truthy f.sha1)) (sha1_field index)
        ++ (lacks (not (truthy f.sha512)) (sha512_field index)
            ++ lacks (not (is_positive f.size)) (size_field index)))

unfoldable pub evaluate_files : (ℕ → ModFile → List Field) → ℕ → List ModFile → List Field
evaluate_files evaluate index [] = []
evaluate_files evaluate index (f ∷ fs) = evaluate index f ++ evaluate_files evaluate (suc index) fs

unfoldable pub files_metadata : (ℕ → ModFile → List Field) → Option (List ModFile) → List Field
files_metadata evaluate files =
    if is_empty files then files_field ∷ [] else evaluate_files evaluate 0 (get_or files [])

abbrev pub source_url_of : Mod → Text
source_url_of m = or_else m.source_url (or_else m.source_project_url m.source_link)

unfoldable pub evaluate_mod_metadata : Mod → List Field
evaluate_mod_metadata m =
    let v = (normalize_selected_mod m).version in
    require_field provider_field (or_else m.source_provider m.metadata_source)
    ++ (require_field source_url_field (source_url_of m)
        ++ (require_field license_field m.license
            ++ (require_field permission_field m.permission
                ++ (lacks
                      (marked_incomplete m.side_metadata_complete
                        || not (has_complete_side_metadata m.side))
                      side_field
                    ++ (lacks (is_empty (game_versions_of v)) game_versions_field
                        ++ (lacks (is_empty (loaders_of v)) loaders_field
                            ++ files_metadata evaluate_file m.files))))))

-- `complete: missing.length === 0`
abbrev pub none_missing : List Field → Bool
none_missing [] = true
none_missing (f ∷ fs) = false

unfoldable pub is_complete : Mod → Bool
is_complete m = none_missing (evaluate_mod_metadata m)
