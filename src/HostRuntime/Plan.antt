-- ===== src/HostRuntime/Plan.antt =====
-- `validateHostRuntime` and `createHostRuntimePlan`.
use Prim.Native.String.{◌++◌ as append}
use easy_mc_server.Prelude.{
  ℕ, Bool, true, false, not, ◌||◌, Option, none, some, List, [], ◌∷◌, Text, undefined, str, show,
  truthy, or_else, ◌==◌, ltb, any, get_or, Result, ok, err, if◌then◌else◌,
}
use easy_mc_server.Prelude.Chars.{codes, chars}
use easy_mc_server.HostRuntime.Paths.{
  join_path, is_safe_path_segment, is_safe_file_name, is_safe_app_data_root,
}
use easy_mc_server.HostRuntime.Input.{
  RuntimeState, FailureReason, java_missing, java_incompatible, eula_required,
  fabric_checksum_failed, fabric_bootstrap_failed, pack_not_fixed, pack_checksum_failed,
  room_crashed, mod_checksum_failed, cache_layout_invalid, SelectedVersion,
  select_supported_minecraft_version, ℤ, pos, negsuc, Loader, resolve_fabric_loader, Consent,
  is_falsy, RuntimeInput, JavaInput, ModInput,
}
use easy_mc_server.HostRuntime.Layout.{
  Layout, create_app_data_layout, JavaPlan, create_windows_java_detection_plan, CachePlan,
  create_cache_plan, EulaPlan, create_eula_plan, PropertiesPlan, create_server_properties_plan,
  checksums_match, is_mod_verified, ModsPlan, create_mod_install_plan,
}

-- `if (test) { return reason; }`
unfoldable pub fail_if : Bool → FailureReason → Option FailureReason → Option FailureReason
fail_if true reason rest = some reason
fail_if false reason rest = rest

abbrev pub is_crashed : RuntimeState → Bool
is_crashed RuntimeState.crashed = true
is_crashed RuntimeState.failed = true
is_crashed _ = false

-- `input.runtime?.state`
abbrev pub has_crashed : Option (Option RuntimeState) → Bool
has_crashed (some (some state)) = is_crashed state
has_crashed _ = false

abbrev pub is_refused : Consent → Bool
is_refused is_falsy = true
is_refused _ = false

abbrev pub lacks_java : JavaInput → Bool
lacks_java java = elim java.major_version [ none ↦ true | some n ↦ not (truthy java.path) ]

abbrev pub is_older : Option ℤ → ℕ → Bool
is_older none least = false
is_older (some (pos n)) least = ltb n least
is_older (some (negsuc n)) least = true

unfoldable pub validate_with : RuntimeInput → SelectedVersion → Option FailureReason
unfolding fail_if
validate_with input selected =
    let root = or_else input.room.app_data_root input.room.data_root in
    fail_if (lacks_java input.java) java_missing (
      fail_if (is_older input.java.major_version (get_or selected.java_major 21)) java_incompatible
        (fail_if (is_refused input.eula) eula_required (
          fail_if (input.fabric.bootstrap_state == str "failed") fabric_bootstrap_failed (
            fail_if
              (not (
                checksums_match input.fabric.expected_installer_sha256
                  input.fabric.installer_sha256))
              fabric_checksum_failed
              (fail_if (not input.pack.fixed) pack_not_fixed (
                fail_if (not (checksums_match input.pack.expected_sha256 input.pack.sha256))
                  pack_checksum_failed
                  (fail_if (any (λ m. not (is_mod_verified m)) input.pack.mods) mod_checksum_failed
                    (fail_if (has_crashed input.runtime) room_crashed (
                      fail_if (not (truthy input.room.id) || not (truthy root)) cache_layout_invalid
                        (fail_if
                          (not (is_safe_app_data_root root)
                            || not (is_safe_path_segment input.room.id))
                          cache_layout_invalid
                          (fail_if
                            (any (λ (m : ModInput). not (is_safe_file_name m.file_name))
                              input.pack.mods)
                            cache_layout_invalid none)))))))))))

unfoldable pub validate_host_runtime : RuntimeInput → Option FailureReason
unfolding validate_with
validate_host_runtime input =
    elim (select_supported_minecraft_version input.supported_versions input.minecraft_version) [
      | err reason ↦ some reason
      | ok selected ↦ validate_with input selected
    ]

-- What `createHostRuntimePlan` may fail with: a reason that it gives, or an error that is thrown.
pub data Problem : Type 0 where
  refused : FailureReason → Problem
  type_error : Problem

pub record RoomPlan : Type 0 where
  pub id : Text
  pub host_id : Text
  pub name : Text
  pub minecraft_version : Text
  pub channel : Text

pub record FilesPlan : Type 0 where
  pub root : List ℕ
  pub server_properties : List ℕ
  pub eula : List ℕ
  pub mods : List ℕ
  pub world : List ℕ

pub record FabricPlan : Type 0 where
  pub loader_version : Text
  pub installer_version : Text
  pub installer_verified : Bool
  pub installer_sha256 : Text
  pub server_jar_sha256 : Text
  pub launcher_jar : List ℕ
  pub metadata_path : List ℕ

-- `java` has the fields of `JavaPlan`, and beside it the path and the version that are given.
pub record Plan : Type 0 where
  pub room : RoomPlan
  pub current : Option RuntimeState
  pub next : RuntimeState
  pub files : FilesPlan
  pub layout : Layout
  pub java : JavaPlan
  pub java_path : Text
  pub java_major_version : Option ℤ
  pub fabric : FabricPlan
  pub cache : CachePlan
  pub eula : EulaPlan
  pub server_properties : PropertiesPlan
  pub mods : ModsPlan
  pub pack_id : Text
  pub command : List (List ℕ)

-- The fields of an answer that may be no selection, which then are undefined.
abbrev pub selection : Result FailureReason SelectedVersion → SelectedVersion
selection (ok selected) = selected
selection (err reason) = record { version = undefined; channel = undefined; java_major = none }

unfoldable pub plan_of :
    RuntimeInput → Option RuntimeState → SelectedVersion → Loader → Layout → Plan
unfolding create_windows_java_detection_plan create_cache_plan create_eula_plan
    create_server_properties_plan create_mod_install_plan
plan_of input state selected loader layout =
    let launcher_jar = join_path (layout.runtime ∷ chars loader.launcher_jar ∷ []) in
    record {
      room = record {
        id = input.room.id;
        host_id = input.room.host_id;
        name = input.room.name;
        minecraft_version = selected.version;
        channel = selected.channel;
      };
      current = state;
      next = RuntimeState.ready;
      files = record {
        root = layout.room_root;
        server_properties = layout.server_properties;
        eula = layout.eula;
        mods = layout.mods;
        world = layout.world;
      };
      layout = layout;
      java = create_windows_java_detection_plan input.java;
      java_path = input.java.path;
      java_major_version = input.java.major_version;
      fabric = record {
        loader_version = loader.version;
        installer_version = loader.installer_version;
        installer_verified = true;
        installer_sha256 = loader.installer_sha256;
        server_jar_sha256 = loader.server_jar_sha256;
        launcher_jar = launcher_jar;
        metadata_path = join_path (
            layout.metadata
            ∷ codes (append "fabric-" (append (show selected.version) ".json"))
            ∷ []);
      };
      cache = create_cache_plan input.reuse_verified_downloads layout;
      eula = create_eula_plan input.eula layout;
      server_properties = create_server_properties_plan input.server_properties layout;
      mods = create_mod_install_plan input.pack layout;
      pack_id = input.pack.id;
      command = chars input.java.path ∷ codes "-jar" ∷ launcher_jar ∷ codes "nogui" ∷ [];
    }

-- `input.runtime.state` throws where the input has no runtime.
unfoldable pub with_runtime :
    RuntimeInput
    → SelectedVersion
    → Loader
    → Layout
    → Option (Option RuntimeState)
    → Result Problem Plan
unfolding plan_of
with_runtime input selected loader layout none = err type_error
with_runtime input selected loader layout (some state) =
    ok (plan_of input state selected loader layout)

-- The plan for a version that is chosen.
unfoldable pub plan_with : RuntimeInput → SelectedVersion → Result Problem Plan
unfolding with_runtime
plan_with input selected =
    elim (resolve_fabric_loader input.fabric.loaders selected.version input.fabric.loader_version) [
      | err reason ↦ err (refused reason)
      | ok loader ↦
          (if not (is_safe_file_name loader.launcher_jar)
            then err (refused cache_layout_invalid)
            else (elim (create_app_data_layout input.room) [
              | none ↦ err type_error
              | some layout ↦ with_runtime input selected loader layout input.runtime
            ]))
    ]

unfoldable pub create_host_runtime_plan : RuntimeInput → Result Problem Plan
unfolding validate_host_runtime plan_with
create_host_runtime_plan input = elim (validate_host_runtime input) [
  | some reason ↦ err (refused reason)
  | none ↦ plan_with input (
      selection
        (select_supported_minecraft_version input.supported_versions input.minecraft_version))
]
