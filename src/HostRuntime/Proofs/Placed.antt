-- ===== src/HostRuntime/Proofs/Placed.antt =====
-- Where the paths of a plan lie: the room's own in the folder of the room, the shared ones in the cache.
use easy_mc_server.Prelude.{
  Option, show, ℕ, ◌≡◌, ◌≢◌, refl, sym, ap, subst, ◌∙◌, true, List, [], ◌∷◌, ◌++◌, map, Text,
  undefined, str, all, any, All, arith, or_else,
}
use easy_mc_server.Prelude.Chars.{codes, chars}
use easy_mc_server.HostRuntime.Paths.{
  slash, is_segment, is_safe_file_name, is_safe_app_data_root, join_path,
}
use easy_mc_server.HostRuntime.Input.{
  RuntimeState, SelectedVersion, Loader, resolved, launcher_jar_of, ModInput, RuntimeInput,
}
use easy_mc_server.HostRuntime.Layout.{
  create_cache_plan, Layout, layout_of, ModEntry, mod_entry, create_mod_install_plan,
}
use easy_mc_server.HostRuntime.Plan.{Plan, plan_of}
use easy_mc_server.HostRuntime.Proofs.Joining.{join_path-segment, IsFolder-segment, IsFolder}
use easy_mc_server.HostRuntime.Proofs.Guards.{Match, MayOpen, root_of}
use easy_mc_server.HostRuntime.Proofs.Opening.{plan_for}
use easy_mc_server.HostRuntime.Proofs.Shared.{trunk, cache-IsFolder, join_path-cache}
use Prim.Native.String.{◌++◌ as append}
use easy_mc_server.HostRuntime.Proofs.Rooms.{
  safe_path_segment-segment, safe_file_name-segment, rooms_of, room_root-rooms_of,
  room_root-IsFolder, IsWithin, child-IsWithin, grandchild-IsWithin,
}

-- The paths of a plan that are the room's own.
abbrev pub room_paths : Plan → List (List ℕ)
room_paths p =
    p.files.server_properties
    ∷ p.files.eula
    ∷ p.files.mods
    ∷ p.files.world
    ∷ p.layout.runtime
    ∷ p.layout.logs
    ∷ p.fabric.launcher_jar
    ∷ map (λ (e : ModEntry). e.target) p.mods.entries

-- The paths of a plan below the cache, which the rooms under one root share.
abbrev pub cached_paths : Plan → List (List ℕ)
cached_paths p = p.cache.downloads ∷ p.cache.metadata ∷ p.fabric.metadata_path ∷ []

-- The name of the file with the metadata of the loader.
abbrev pub metadata_name : Plan → List ℕ
metadata_name p = codes (append "fabric-" (append (show p.room.minecraft_version) ".json"))

targets-IsWithin :
    (layout : Layout) (base : List ℕ) (mods : List ModInput)
    → IsFolder base
    → layout.mods ≡ join_path (base ∷ codes "mods" ∷ [])
    → All
        (λ (m : ModInput).
          Match (or_else m.expected_sha256 m.sha256) m.sha256
          × (is_safe_file_name m.file_name ≡ true))
        mods
    → All (IsWithin base) (map (λ (e : ModEntry). e.target) (map (mod_entry layout) mods))
unfolding mod_entry is_segment all
targets-IsWithin layout base [] f e a = tt
targets-IsWithin layout base (m ∷ mods) f e a = (
  subst (λ z. IsWithin base (join_path (z ∷ chars m.file_name ∷ []))) (sym e)
      (grandchild-IsWithin base (codes "mods") (chars m.file_name) f refl
        (safe_file_name-segment m.file_name a.0.1)),
  targets-IsWithin layout base mods f e a.1,
)

safe_root-given : (t : Text) → is_safe_app_data_root t ≡ true → chars t ≢ []
unfolding is_safe_app_data_root any
safe_root-given undefined h e = cc h
safe_root-given (str s) h e = ground (arith, h, e)

-- The folder of the room that an input names.
abbrev pub room_folder : RuntimeInput → List ℕ
room_folder input = rooms_of (chars (root_of input)) ++ chars input.room.id

pub plan_for-IsWithin :
    (input : RuntimeInput) (state : Option RuntimeState) (selected : SelectedVersion) (l : Loader)
    → MayOpen input selected l
    → let p = plan_for input state selected l in
      (p.layout.room_root ≡ room_folder input) × All (IsWithin p.layout.room_root) (room_paths p)
unfolding plan_of layout_of create_mod_install_plan resolved is_segment all
plan_for-IsWithin input state selected l m =
    let p = plan_for input state selected l in
    let id = safe_path_segment-segment input.room.id m.room_id in
    let is_root : p.layout.room_root ≡ room_folder input =
      room_root-rooms_of (chars (root_of input)) (chars input.room.id)
        (safe_root-given (root_of input) m.root) id in
    let f : IsFolder p.layout.room_root =
      subst IsFolder (sym is_root)
        (room_root-IsFolder (chars (root_of input)) (chars input.room.id) id) in
    let jar = safe_file_name-segment (launcher_jar_of selected.version l) m.jar in
    let base = p.layout.room_root in
    (
      is_root,
      (
        child-IsWithin base (codes "server.properties") f refl,
        (
          child-IsWithin base (codes "eula.txt") f refl,
          (
            child-IsWithin base (codes "mods") f refl,
            (
              child-IsWithin base (codes "world") f refl,
              (
                child-IsWithin base (codes "runtime") f refl,
                (
                  child-IsWithin base (codes "logs") f refl,
                  (
                    grandchild-IsWithin base (codes "runtime")
                        (chars (launcher_jar_of selected.version l)) f refl jar,
                    targets-IsWithin p.layout base input.pack.mods f refl m.mods,
                  ),
                ),
              ),
            ),
          ),
        ),
      ),
    )

pub plan_for-cached :
    (input : RuntimeInput) (state : Option RuntimeState) (selected : SelectedVersion) (l : Loader)
    → MayOpen input selected l
    → let p = plan_for input state selected l in
      is_segment (metadata_name p) ≡ true
      → (p.cache.root ≡ trunk (chars (root_of input)) ++ codes "cache")
        × All (IsWithin p.cache.root) (cached_paths p)
unfolding plan_of layout_of create_cache_plan is_segment all
plan_for-cached input state selected l m named =
    let p = plan_for input state selected l in
    let root = chars (root_of input) in
    let given = safe_root-given (root_of input) m.root in
    let (is_cache, folder) = cache-IsFolder root given in
    let f : IsFolder p.cache.root = subst IsFolder (sym is_cache) folder in
    let below = λ (n : List ℕ) (h : is_segment n ≡ true).
      join_path-cache root n given h ∙ ap (λ c. c ++ slash ∷ n) (sym is_cache) in
    (
      is_cache,
      (
        record {
          name = codes "downloads";
          names = [];
          goes = below (codes "downloads") refl;
          are_names = (refl, tt);
        },
        (
          record {
            name = codes "metadata";
            names = [];
            goes = below (codes "metadata") refl;
            are_names = (refl, tt);
          },
          (
            record {
              name = codes "metadata";
              names = metadata_name p ∷ [];
              goes =
                  ap (λ z. join_path (z ∷ metadata_name p ∷ [])) (below (codes "metadata") refl)
                  ∙ join_path-segment (p.cache.root ++ slash ∷ codes "metadata") (metadata_name p)
                      (IsFolder-segment p.cache.root (codes "metadata") f refl) named;
              are_names = (refl, (named, tt));
            },
            tt,
          ),
        ),
      ),
    )
