-- ===== src/HostRuntime/Proofs/Tests.antt =====
-- A room that is opened on Windows with one mod. The theorems on the host runtime are applied to it.
use easy_mc_server.Prelude.{
  show, ◌≡◌, ◌≢◌, ◌≤◌, ◌↔◌, refl, true, false, Text, undefined, str, ◌==◌, ==_iff, truthy, or_else,
  none, some, List, [], ◌∷◌, length, find, any, all, All, ok, arith,
}
use easy_mc_server.Prelude.Chars.{codes, same_chars, ends_with}
use easy_mc_server.HostRuntime.Paths.{
  join_path, is_safe_path_segment, is_safe_file_name, is_safe_app_data_root,
  has_parent_path_segment, is_segment,
}
use easy_mc_server.HostRuntime.Input.{
  named, described, pos, is_blank, SelectedVersion, select_supported_minecraft_version, is_version,
  selected_version, Loader, choose_loader, default_loader, launcher_jar_of, resolved,
  resolve_fabric_loader, is_true, RuntimeInput, ModInput, ready, running, stopped,
}
use easy_mc_server.HostRuntime.Layout.{
  layout_of, create_app_data_layout, checksums_match, is_mod_verified,
}
use easy_mc_server.HostRuntime.Plan.{
  fail_if, validate_with, validate_host_runtime, Plan, plan_of, plan_with, with_runtime,
  create_host_runtime_plan,
}
use easy_mc_server.HostRuntime.Approvals.{ApprovalInput, create_approval_ui_state}
use easy_mc_server.HostRuntime.Proofs.Approvals.{Awaits, create_approval_ui_state-Awaits}
use easy_mc_server.HostRuntime.Lifecycle.{RuntimeAction, after_actions}
use easy_mc_server.HostRuntime.Proofs.Lifecycle.{AreLinked, after_actions-AreLinked}
use easy_mc_server.HostRuntime.Proofs.Opening.{plan_for}
use easy_mc_server.HostRuntime.Proofs.Rooms.{IsWithin}
use easy_mc_server.HostRuntime.Proofs.Placed.{room_paths, cached_paths}
use easy_mc_server.HostRuntime.Proofs.Apart.{room_paths-IsWithin}

abbrev lithium : ModInput
lithium = record {
  id = str "lithium";
  file_name = str "lithium.jar";
  sha256 = str "aa11";
  expected_sha256 = undefined;
  source = undefined;
  source_file_name = undefined;
  download_url = undefined;
  provider = str "modrinth";
  file_size = some 1000;
}

abbrev input_of : Text → RuntimeInput
input_of id = record {
  supported_versions = described (str "1.21.1") undefined none ∷ [];
  minecraft_version = str "1.21.1";
  room = record {
    id = id;
    host_id = str "host_1";
    name = str "Home";
    app_data_root = str "C:\\data\\";
    data_root = undefined;
  };
  java = record {
    path = str "C:/java/bin/java.exe";
    major_version = some (pos 21);
    source = undefined;
    vendor = undefined;
  };
  eula = is_true;
  fabric = record {
    bootstrap_state = undefined;
    expected_installer_sha256 = str "f00d";
    installer_sha256 = str "f00d";
    loaders = [];
    loader_version = str "0.16.0";
  };
  pack = record {
    id = str "pack_1";
    fixed = true;
    expected_sha256 = str "beef";
    sha256 = str "beef";
    mods = lithium ∷ [];
  };
  runtime = some (some stopped);
  reuse_verified_downloads = none;
  server_properties = record { max_players = some 4; port = none; motd = undefined };
}

abbrev input_1 : RuntimeInput
input_1 = input_of (str "room_1")

abbrev input_2 : RuntimeInput
input_2 = input_of (str "room_2")

abbrev chosen : SelectedVersion
chosen = record { version = str "1.21.1"; channel = str "stable"; java_major = some 21 }

abbrev loader : Loader
loader = record {
  minecraft_version = str "1.21.1";
  version = str "0.16.0";
  launcher_jar = str "fabric-server-launch.jar";
  installer_version = undefined;
  installer_sha256 = undefined;
  server_jar_sha256 = undefined;
}

abbrev plan_1 : Plan
plan_1 = plan_for input_1 (some stopped) chosen loader

abbrev plan_2 : Plan
plan_2 = plan_for input_2 (some stopped) chosen loader

room_folder_1 : plan_1.layout.mods ≡ codes "C:/data/rooms/room_1/mods"
unfolding plan_of layout_of join_path or_else
room_folder_1 = refl

planned_1 : create_host_runtime_plan input_1 ≡ ok plan_1
unfolding create_host_runtime_plan validate_host_runtime validate_with plan_with
    resolve_fabric_loader choose_loader default_loader launcher_jar_of resolved
    select_supported_minecraft_version create_app_data_layout checksums_match is_mod_verified
    fail_if is_safe_file_name is_safe_path_segment is_safe_app_data_root is_segment is_version
    selected_version has_parent_path_segment ends_with same_chars find any all or_else truthy ◌==◌
    is_blank with_runtime
planned_1 = refl

planned_2 : create_host_runtime_plan input_2 ≡ ok plan_2
unfolding create_host_runtime_plan validate_host_runtime validate_with plan_with
    resolve_fabric_loader choose_loader default_loader launcher_jar_of resolved
    select_supported_minecraft_version create_app_data_layout checksums_match is_mod_verified
    fail_if is_safe_file_name is_safe_path_segment is_safe_app_data_root is_segment is_version
    selected_version has_parent_path_segment ends_with same_chars find any all or_else truthy ◌==◌
    is_blank with_runtime
planned_2 = refl

ids_differ : str "room_1" ≢ str "room_2"
unfolding ◌==◌
ids_differ e = ground (arith, (==_iff (str "room_1") (str "room_2")).1 e)

room_paths-IsWithin_example :
    All (IsWithin plan_1.layout.room_root) (room_paths plan_1)
    × All (IsWithin plan_1.cache.root) (cached_paths plan_1)
    × (plan_1.cache.root ≡ plan_2.cache.root)
    × All (λ x. All (λ y. x ≢ y) (room_paths plan_2)) (room_paths plan_1)
    × All (λ x. All (λ y. x ≢ y) (plan_2.cache.root ∷ cached_paths plan_2)) (room_paths plan_1)
unfolding plan_of is_segment all or_else show
room_paths-IsWithin_example =
    room_paths-IsWithin input_1 input_2 plan_1 plan_2 planned_1 planned_2 refl refl refl ids_differ

after_actions-AreLinked_example :
    ((xs : List RuntimeAction) → AreLinked running (after_actions running xs))
    × (AreLinked running ready
        → (xs : List RuntimeAction) × (after_actions running xs ≡ ready) × (length xs ≤ 6))
after_actions-AreLinked_example = after_actions-AreLinked running ready

abbrev waiting : ApprovalInput
waiting = record {
  has_error = false;
  decision = undefined;
  status = undefined;
  connection_id = str "c1";
  server_observed_uuid = str "uuid_1";
  claimed_minecraft_uuid = str "uuid_1";
}

create_approval_ui_state-Awaits_example :
    ((create_approval_ui_state waiting).primary_action ≡ str "approve") ↔ Awaits waiting
create_approval_ui_state-Awaits_example = create_approval_ui_state-Awaits waiting

-- A missing version is taken for supported where a supported version is a string.
missing_version_selected :
    select_supported_minecraft_version (named "1.21.1" ∷ []) undefined
    ≡ ok (record { version = str "1.21.1"; channel = str "stable"; java_major = none })
unfolding select_supported_minecraft_version is_version selected_version is_blank find ◌==◌
missing_version_selected = refl
