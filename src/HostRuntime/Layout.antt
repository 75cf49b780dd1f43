-- ===== src/HostRuntime/Layout.antt =====
-- The folders of a room and what is put into them: `createAppDataLayout`, `createCachePlan`,
-- `createEulaPlan`, `createServerPropertiesPlan` and `createModInstallPlan`.
use easy_mc_server.Prelude.{
  ℕ, Bool, true, false, ◌&&◌, ◌||◌, Option, none, some, List, [], ◌∷◌, map, Text, undefined, str,
  String, ◌==◌, truthy, or_else, ltb, eqb, any, get_or, if◌then◌else◌,
}
use easy_mc_server.Prelude.Chars.{codes, chars, first_chars}
use easy_mc_server.Prelude.Decimal.{decimal}
use easy_mc_server.HostRuntime.Paths.{join_path, is_safe_path_segment, is_safe_app_data_root}
use easy_mc_server.HostRuntime.Input.{
  RoomInput, JavaInput, ℤ, Consent, is_true, ModInput, PackInput, PropertiesInput,
}

pub record Layout : Type 0 where
  pub app_data_root : List ℕ
  pub room_root : List ℕ
  pub runtime : List ℕ
  pub cache : List ℕ
  pub downloads : List ℕ
  pub metadata : List ℕ
  pub server_properties : List ℕ
  pub eula : List ℕ
  pub mods : List ℕ
  pub world : List ℕ
  pub logs : List ℕ

unfoldable pub layout_of : List ℕ → List ℕ → Layout
layout_of root id =
    let room_root = join_path (root ∷ codes "rooms" ∷ id ∷ []) in
    record {
      app_data_root = join_path (root ∷ []);
      room_root = room_root;
      runtime = join_path (room_root ∷ codes "runtime" ∷ []);
      cache = join_path (root ∷ codes "cache" ∷ []);
      downloads = join_path (root ∷ codes "cache" ∷ codes "downloads" ∷ []);
      metadata = join_path (root ∷ codes "cache" ∷ codes "metadata" ∷ []);
      server_properties = join_path (room_root ∷ codes "server.properties" ∷ []);
      eula = join_path (room_root ∷ codes "eula.txt" ∷ []);
      mods = join_path (room_root ∷ codes "mods" ∷ []);
      world = join_path (room_root ∷ codes "world" ∷ []);
      logs = join_path (room_root ∷ codes "logs" ∷ []);
    }

-- No layout is an error that is thrown.
unfoldable pub create_app_data_layout : RoomInput → Option Layout
unfolding layout_of
create_app_data_layout room =
    let root = or_else room.app_data_root room.data_root in
    if is_safe_app_data_root root && is_safe_path_segment room.id
    then some (layout_of (chars root) (chars room.id))
    else none

pub record JavaPlan : Type 0 where
  pub detected : Bool
  pub source : Text
  pub vendor : Text

abbrev is_given : Option ℤ → Bool
is_given none = false
is_given (some n) = true

-- A missing source or vendor, `null` in the source, is undefined.
unfoldable pub create_windows_java_detection_plan : JavaInput → JavaPlan
create_windows_java_detection_plan java = record {
  detected = truthy java.path && is_given java.major_version;
  source = or_else java.source (if truthy java.path then str "configuredPath" else undefined);
  vendor = java.vendor;
}

pub record CachePlan : Type 0 where
  pub root : List ℕ
  pub downloads : List ℕ
  pub metadata : List ℕ
  pub reuse_verified_downloads : Bool

unfoldable pub create_cache_plan : Option Bool → Layout → CachePlan
create_cache_plan reuse layout = record {
  root = layout.cache;
  downloads = layout.downloads;
  metadata = layout.metadata;
  reuse_verified_downloads = get_or reuse true;
}

pub record EulaPlan : Type 0 where
  pub path : List ℕ
  pub accepted : Bool
  pub write_text : Option String

abbrev pub is_consent : Consent → Bool
is_consent is_true = true
is_consent _ = false

unfoldable pub create_eula_plan : Consent → Layout → EulaPlan
create_eula_plan accepted layout = record {
  path = layout.eula;
  accepted = is_consent accepted;
  write_text = if is_consent accepted then some "eula=true\n" else none;
}

unfoldable pub safe_integer : Option ℕ → ℕ → ℕ → ℕ → ℕ
safe_integer none least most fallback = fallback
safe_integer (some n) least most fallback = if ltb n least || ltb most n then fallback else n

-- `/[\r\n\0]/`
abbrev is_break : ℕ → Bool
is_break c = eqb c 13 || eqb c 10 || eqb c 0

unfoldable pub safe_property_text : Text → String → ℕ → List ℕ
safe_property_text value fallback max_length =
    let text = chars (or_else value (str fallback)) in
    if any is_break text then codes fallback else first_chars max_length text

pub record PropertiesPlan : Type 0 where
  pub path : List ℕ
  pub values : List (String × List ℕ)
  pub diagnosed_port : List ℕ
  pub diagnosed_bind_address : List ℕ

unfoldable pub create_server_properties_plan : PropertiesInput → Layout → PropertiesPlan
unfolding safe_integer safe_property_text
create_server_properties_plan p layout =
    let max_players = safe_integer p.max_players 1 10 10 in
    let port = safe_integer p.port 1024 65535 25565 in
    let motd = safe_property_text p.motd "Cozy Performance Room" 80 in
    record {
      path = layout.server_properties;
      values =
          ("enable-command-block", codes "false")
          ∷ ("enforce-secure-profile", codes "true")
          ∷ ("max-players", codes (decimal max_players))
          ∷ ("motd", motd)
          ∷ ("online-mode", codes "true")
          ∷ ("server-ip", codes "")
          ∷ ("server-port", codes (decimal port))
          ∷ ("white-list", codes "true")
          ∷ [];
      diagnosed_port = codes (decimal port);
      diagnosed_bind_address = codes "default";
    }

unfoldable pub checksums_match : Text → Text → Bool
checksums_match expected actual = truthy expected && truthy actual && expected == actual

pub record ModEntry : Type 0 where
  pub id : Text
  pub file_name : Text
  pub sha256 : Text
  pub source : List ℕ
  pub download_url : Text
  pub provider : Text
  pub expected_file_size : Option ℕ
  pub target : List ℕ
  pub verified : Bool

unfoldable pub is_mod_verified : ModInput → Bool
unfolding checksums_match
is_mod_verified m = checksums_match (or_else m.expected_sha256 m.sha256) m.sha256

unfoldable pub mod_source : Layout → ModInput → Text → List ℕ
mod_source layout m (str s) = codes s
mod_source layout m undefined =
    join_path (layout.downloads ∷ chars (or_else m.source_file_name m.file_name) ∷ [])

unfoldable pub mod_entry : Layout → ModInput → ModEntry
unfolding is_mod_verified mod_source
mod_entry layout m = record {
  id = m.id;
  file_name = m.file_name;
  sha256 = m.sha256;
  source = mod_source layout m m.source;
  download_url = m.download_url;
  provider = m.provider;
  expected_file_size = m.file_size;
  target = join_path (layout.mods ∷ chars m.file_name ∷ []);
  verified = is_mod_verified m;
}

pub record ModsPlan : Type 0 where
  pub directory : List ℕ
  pub entries : List ModEntry

unfoldable pub create_mod_install_plan : PackInput → Layout → ModsPlan
unfolding mod_entry
create_mod_install_plan pack layout = record {
  directory = layout.mods;
  entries = map (mod_entry layout) pack.mods;
}
