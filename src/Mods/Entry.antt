-- ===== src/Mods/Entry.antt =====
-- packages/compatibility-engine/src/index.mjs: a mod as it is handed in, where a field may be missing,
-- and as `normalizeSelectedMod` completes it. A license and a permission are shown by a text.
use easy_mc_server.Prelude.{
  ℕ, Bool, true, false, not, ◌&&◌, ◌||◌, Option, none, some, List, [], Text, undefined, str, ◌==◌,
  if◌then◌else◌, truthy, or_else, get_or, any, filter,
}

pub record Side : Type 0 where
  pub client : Text
  pub server : Text

pub record Dependency : Type 0 where
  pub project_id : Text
  pub kind : Text

-- A size that is no whole number is none.
pub record ModFile : Type 0 where
  pub filename : Text
  pub url : Text
  pub sha1 : Text
  pub sha512 : Text
  pub size : Option ℕ

pub record Version : Type 0 where
  pub game_versions : Option (List Text)
  pub loaders : Option (List Text)
  pub dependencies : Option (List Dependency)

pub record Mod : Type 0 where
  pub id : Text
  pub project_id : Text
  pub slug : Text
  pub title : Text
  pub source_provider : Text
  pub source_project_url : Text
  pub source_link : Text
  pub metadata_source : Text
  pub source_url : Text
  pub license : Text
  pub permission : Text
  pub side : Option Side
  pub side_metadata_complete : Option Bool
  pub version : Option Version
  pub game_versions : Option (List Text)
  pub loaders : Option (List Text)
  pub dependencies : Option (List Dependency)
  pub files : Option (List ModFile)

-- `side?.client` and `side?.server`
abbrev pub client_of : Option Side → Text
client_of none = undefined
client_of (some s) = s.client

abbrev pub server_of : Option Side → Text
server_of none = undefined
server_of (some s) = s.server

-- `a ?? b` on values that may be missing.
abbrev pub or_other : {A : Type 0} → Option A → Option A → Option A
or_other none b = b
or_other (some a) b = some a

abbrev pub game_versions_of : Option Version → Option (List Text)
game_versions_of none = none
game_versions_of (some v) = v.game_versions

abbrev pub loaders_of : Option Version → Option (List Text)
loaders_of none = none
loaders_of (some v) = v.loaders

abbrev pub dependencies_of : Option Version → Option (List Dependency)
dependencies_of none = none
dependencies_of (some v) = v.dependencies

unfoldable pub is_known_side_value : Text → Bool
is_known_side_value v = v == str "required" || v == str "optional" || v == str "unsupported"

unfoldable pub has_complete_side_metadata : Option Side → Bool
unfolding is_known_side_value
has_complete_side_metadata side =
    is_known_side_value (client_of side) && is_known_side_value (server_of side)

unfoldable pub normalize_selected_mod : Mod → Mod
normalize_selected_mod m =
    let project_id = or_else m.project_id m.id in
    record m {
      project_id = project_id;
      title = or_else m.title (or_else m.slug project_id);
      side = some (record {
        client = or_else (client_of m.side) (str "optional");
        server = or_else (server_of m.side) (str "optional");
      });
      side_metadata_complete = some (has_complete_side_metadata m.side);
      version = some (record {
        game_versions = some (get_or (or_other (game_versions_of m.version) m.game_versions) []);
        loaders = some (get_or (or_other (loaders_of m.version) m.loaders) []);
        dependencies = some (get_or (or_other (dependencies_of m.version) m.dependencies) []);
      });
    }

-- `xs.includes(x)` on a list that is there after normalizing.
unfoldable pub includes : Text → List Text → Bool
includes x xs = any (λ y. y == x) xs

unfoldable pub supports_target : Text → Text → Mod → Bool
supports_target minecraft_version loader m =
    let v = (normalize_selected_mod m).version in
    includes minecraft_version (get_or (game_versions_of v) [])
    && includes loader (get_or (loaders_of v) [])

abbrev pub is_required : Dependency → Bool
is_required d = d.kind == str "required" && truthy d.project_id

unfoldable pub required_dependencies : Mod → List Dependency
required_dependencies m =
    filter is_required (get_or (dependencies_of (normalize_selected_mod m).version) [])

pub data SideClass : Type 0 where
  both_sides client_only server_only unknown_side : SideClass

abbrev pub marked_incomplete : Option Bool → Bool
marked_incomplete (some false) = true
marked_incomplete _ = false

unfoldable pub classify_sides : Text → Text → SideClass
classify_sides client server =
    let no_client = client == str "unsupported" in
    let no_server = server == str "unsupported" in
    if no_client && not no_server
    then server_only
    else if no_server && not no_client
    then client_only
    else if no_client && no_server
    then unknown_side
    else if truthy client && truthy server
    then both_sides
    else unknown_side

unfoldable pub classify_side : Mod → SideClass
classify_side m =
    if marked_incomplete m.side_metadata_complete || not (has_complete_side_metadata m.side)
    then unknown_side
    else (let side = (normalize_selected_mod m).side in
        classify_sides (client_of side) (server_of side))
