-- ===== src/HostRuntime/Input.antt =====
-- What a plan of the host runtime is made from, and `selectSupportedMinecraftVersion` and
-- `resolveFabricLoader`.
use Prim.Native.String.{◌++◌ as append}
use easy_mc_server.Prelude.{
  not, false, ℕ, Bool, ◌||◌, Option, none, some, List, Text, undefined, str, String, show, truthy,
  or_else, ◌==◌, find, Result, ok, err, get_or, if◌then◌else◌,
}
use easy_mc_server.HostRuntime.Paths.{is_safe_file_name}

pub data RuntimeState : Type 0 where
  stopped : RuntimeState
  ready : RuntimeState
  starting : RuntimeState
  running : RuntimeState
  stopping : RuntimeState
  restarting : RuntimeState
  crashed : RuntimeState
  failed : RuntimeState

pub data FailureReason : Type 0 where
  unsupported_version : FailureReason
  java_missing : FailureReason
  java_incompatible : FailureReason
  eula_required : FailureReason
  fabric_checksum_failed : FailureReason
  fabric_bootstrap_failed : FailureReason
  pack_not_fixed : FailureReason
  pack_checksum_failed : FailureReason
  room_crashed : FailureReason
  server_uuid_missing : FailureReason
  loader_unavailable : FailureReason
  mod_checksum_failed : FailureReason
  cache_layout_invalid : FailureReason

-- A supported version: a string, or an object with a version, a channel and a major version of Java.
pub data SupportedVersion : Type 0 where
  named : String → SupportedVersion
  described : Text → Text → Option ℕ → SupportedVersion

pub record SelectedVersion : Type 0 where
  pub version : Text
  pub channel : Text
  pub java_major : Option ℕ

-- `candidate.version === version || candidate === version`; a string has no version.
unfoldable pub is_version : Text → SupportedVersion → Bool
is_version version (named s) = undefined == version || str s == version
is_version version (described v channel java_major) = v == version

unfoldable pub selected_version : SupportedVersion → SelectedVersion
selected_version (named s) = record { version = str s; channel = str "stable"; java_major = none }
selected_version (described v channel java_major) = record {
  version = v;
  channel = or_else channel (str "stable");
  java_major = some (get_or java_major 21);
}

-- `!selected`: the empty string is false.
unfoldable pub is_blank : SupportedVersion → Bool
is_blank (named s) = not (truthy (str s))
is_blank (described v channel java_major) = false

unfoldable pub select_supported_minecraft_version :
    List SupportedVersion → Text → Result FailureReason SelectedVersion
unfolding is_version selected_version is_blank
select_supported_minecraft_version supported version = elim (find (is_version version) supported) [
  | none ↦ err unsupported_version
  | some candidate ↦ ok (selected_version candidate)
]

pub record Loader : Type 0 where
  pub minecraft_version : Text
  pub version : Text
  pub launcher_jar : Text
  pub installer_version : Text
  pub installer_sha256 : Text
  pub server_jar_sha256 : Text

-- The loader that is made of a default version alone.
unfoldable pub default_loader : Text → Text → Option Loader
default_loader minecraft_version version =
    if truthy version
    then some (record {
      minecraft_version = minecraft_version;
      version = version;
      launcher_jar = str "fabric-server-launch.jar";
      installer_version = undefined;
      installer_sha256 = undefined;
      server_jar_sha256 = undefined;
    })
    else none

-- `a ?? b`
abbrev or_instead : {A : Type 0} → Option A → Option A → Option A
or_instead none b = b
or_instead (some a) b = some a

unfoldable pub choose_loader : List Loader → Text → Text → Option Loader
unfolding default_loader
choose_loader loaders minecraft_version default_version =
    or_instead (find (λ (l : Loader). l.minecraft_version == minecraft_version) loaders) (
      or_instead (find (λ (l : Loader). l.version == default_version) loaders)
        (default_loader minecraft_version default_version))

unfoldable pub launcher_jar_of : Text → Loader → Text
launcher_jar_of minecraft_version l = or_else l.launcher_jar (
    str (
      append "fabric-server-"
        (append (show minecraft_version) (append "-" (append (show l.version) ".jar")))))

unfoldable pub resolved : Text → Loader → Loader
unfolding launcher_jar_of
resolved minecraft_version l = record {
  minecraft_version = or_else l.minecraft_version minecraft_version;
  version = l.version;
  launcher_jar = launcher_jar_of minecraft_version l;
  installer_version = if truthy l.installer_version then l.installer_version else undefined;
  installer_sha256 = l.installer_sha256;
  server_jar_sha256 = l.server_jar_sha256;
}

unfoldable pub resolve_fabric_loader : List Loader → Text → Text → Result FailureReason Loader
unfolding choose_loader resolved launcher_jar_of
resolve_fabric_loader loaders minecraft_version default_version =
    elim (choose_loader loaders minecraft_version default_version) [
      | none ↦ err loader_unavailable
      | some l ↦
          (if is_safe_file_name (launcher_jar_of minecraft_version l)
            then ok (resolved minecraft_version l)
            else err cache_layout_invalid)
    ]

-- A value that is handed in as consent: `true`, another value that is truthy, or none.
pub data Consent : Type 0 where
  is_true : Consent
  is_truthy : Consent
  is_falsy : Consent

pub record RoomInput : Type 0 where
  pub id : Text
  pub host_id : Text
  pub name : Text
  pub app_data_root : Text
  pub data_root : Text

pub data ℤ : Type 0 where
  pos : ℕ → ℤ
  negsuc : ℕ → ℤ

-- A major version that is no integer is none.
pub record JavaInput : Type 0 where
  pub path : Text
  pub major_version : Option ℤ
  pub source : Text
  pub vendor : Text

pub record FabricInput : Type 0 where
  pub bootstrap_state : Text
  pub expected_installer_sha256 : Text
  pub installer_sha256 : Text
  pub loaders : List Loader
  pub loader_version : Text

pub record ModInput : Type 0 where
  pub id : Text
  pub file_name : Text
  pub sha256 : Text
  pub expected_sha256 : Text
  pub source : Text
  pub source_file_name : Text
  pub download_url : Text
  pub provider : Text
  pub file_size : Option ℕ

pub record PackInput : Type 0 where
  pub id : Text
  pub fixed : Bool
  pub expected_sha256 : Text
  pub sha256 : Text
  pub mods : List ModInput

-- Numbers after `Number`; one that is no natural number is none.
pub record PropertiesInput : Type 0 where
  pub max_players : Option ℕ
  pub port : Option ℕ
  pub motd : Text

-- `runtime` is none where the input has none, and holds its state, which may be undefined.
pub record RuntimeInput : Type 0 where
  pub supported_versions : List SupportedVersion
  pub minecraft_version : Text
  pub room : RoomInput
  pub java : JavaInput
  pub eula : Consent
  pub fabric : FabricInput
  pub pack : PackInput
  pub runtime : Option (Option RuntimeState)
  pub reuse_verified_downloads : Option Bool
  pub server_properties : PropertiesInput
