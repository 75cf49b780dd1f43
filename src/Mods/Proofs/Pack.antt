-- ===== src/Mods/Proofs/Pack.antt =====
-- A curated pack downloads nothing that is not pinned.
use easy_mc_server.Prelude.{
  ℕ, ◌≡◌, refl, subst, Bool, true, false, not, Option, none, some, List, [], ◌∷◌, map, filter, All,
  Text, truthy, get_or, arith, inl, inr, Result, ok, err,
}
use mathlib.Core.List.{Memᴰ}
use easy_mc_server.Mods.Entry.{Mod, ModFile}
use easy_mc_server.Mods.Metadata.{
  Field, lacks, none_missing, evaluate_file, files_metadata, is_positive,
}
use easy_mc_server.Mods.Catalog.{
  Pack, PackFile, PackError, pack_file, pack_files, create_curated_pack, evaluate_catalog_file,
  evaluate_catalog_entry_metadata, catalog_entry_has_required_metadata,
}
use easy_mc_server.Mods.Proofs.Lists.{
  none_missing-append, evaluate_files-each, is_nil-filter, List-cases, All-tabulate, All-append,
}

-- A file with its address, both of its hashes and a positive size.
pub record IsPinned (f : ModFile) : Type 0 where
  pub named : truthy f.filename ≡ true
  pub addressed : truthy f.url ≡ true
  pub hashed : truthy f.sha1 ≡ true
  pub hashed_long : truthy f.sha512 ≡ true
  pub sized : is_positive f.size ≡ true

pub record IsPinnedFile (f : PackFile) : Type 0 where
  pub addressed : truthy f.download ≡ true
  pub hashed : truthy f.sha1 ≡ true
  pub hashed_long : truthy f.sha512 ≡ true
  pub sized : is_positive f.file_size ≡ true

lacks-none : (b : Bool) (f : Field) → none_missing (lacks (not b) f) ≡ b
lacks-none true f = refl
lacks-none false f = refl

evaluate_catalog_file-IsPinned :
    (i : ℕ) (f : ModFile) → none_missing (evaluate_catalog_file i f) ≡ true → IsPinned f
unfolding evaluate_catalog_file evaluate_file
evaluate_catalog_file-IsPinned i f h = record {
  named = ground arith;
  addressed = ground arith;
  hashed = ground arith;
  hashed_long = ground arith;
  sized = ground arith;
}

files_metadata-IsPinned :
    (fs : Option (List ModFile))
    → none_missing (files_metadata evaluate_catalog_file fs) ≡ true
    → All IsPinned (get_or fs [])
unfolding files_metadata
files_metadata-IsPinned none h = tt
files_metadata-IsPinned (some []) h = tt
files_metadata-IsPinned (some (f ∷ fs)) h =
    evaluate_files-each evaluate_catalog_file IsPinned evaluate_catalog_file-IsPinned 0 (f ∷ fs) h

entry-IsPinned :
    (m : Mod) → catalog_entry_has_required_metadata m ≡ true → All IsPinned (get_or m.files [])
unfolding catalog_entry_has_required_metadata evaluate_catalog_entry_metadata
entry-IsPinned m h = files_metadata-IsPinned m.files (grind (arith, h, none_missing-append))

All-IsPinned :
    (m : Mod) (fs : List ModFile) → All IsPinned fs → All IsPinnedFile (map (pack_file m) fs)
unfolding pack_file
All-IsPinned m [] h = tt
All-IsPinned m (f ∷ fs) h = (
  record {
    addressed = h.0.addressed;
    hashed = h.0.hashed;
    hashed_long = h.0.hashed_long;
    sized = h.0.sized;
  },
  All-IsPinned m fs h.1,
)

pack_files-IsPinned :
    (ms : List Mod)
    → ((m : Mod) → Memᴰ m ms → All IsPinned (get_or m.files []))
    → All IsPinnedFile (pack_files ms)
unfolding pack_files
pack_files-IsPinned [] h = tt
pack_files-IsPinned (m ∷ ms) h =
    All-append IsPinnedFile (map (pack_file m) (get_or m.files [])) (pack_files ms)
      (All-IsPinned m (get_or m.files []) (h m (Memᴰ.head refl)))
      (pack_files-IsPinned ms (λ x n. h x (Memᴰ.tail n)))

abbrev files_of : Result PackError Pack → List PackFile
files_of (ok pack) = pack.files
files_of (err e) = []

-- A curated pack is made only of entries with complete metadata, and each of its files has an
-- address, both hashes and a positive size.
pub create_curated_pack-IsPinned :
    (name version_id summary minecraft_version fabric_loader_version : Text) (mods : List Mod)
    (pack : Pack)
    → create_curated_pack name version_id summary minecraft_version fabric_loader_version mods
      ≡ ok pack
    → All (λ m. catalog_entry_has_required_metadata m ≡ true) mods × All IsPinnedFile pack.files
unfolding create_curated_pack
create_curated_pack-IsPinned name version_id summary minecraft_version fabric_loader_version [] pack
      e =
    cc
create_curated_pack-IsPinned name version_id summary minecraft_version fabric_loader_version
      (m ∷ ms) pack e =
    elim (List-cases (filter (λ x. not (catalog_entry_has_required_metadata x)) (m ∷ ms))) [
      | inr (y, ys, there) ↦ cc (rw (there, create_curated_pack) at e)
      | inl none_there ↦
          let complete = λ (x : Mod) (n : Memᴰ x (m ∷ ms)).
            is_nil-filter catalog_entry_has_required_metadata (m ∷ ms) x (rw none_there refl) n in
          (
            All-tabulate (λ x. catalog_entry_has_required_metadata x ≡ true) (m ∷ ms) complete,
            subst (λ (r : Result PackError Pack). All IsPinnedFile (files_of r)) e
                (rw (none_there, create_curated_pack)
                  (pack_files-IsPinned (m ∷ ms) (λ x n. entry-IsPinned x (complete x n)))),
          )
    ]
