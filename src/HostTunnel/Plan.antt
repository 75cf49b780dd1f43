-- ===== src/HostTunnel/Plan.antt =====
-- `createHostTunnelPlan` and `createHostTunnelUiState`.
use easy_mc_server.Prelude.{
  ℕ, Bool, not, ◌&&◌, ◌||◌, Option, some, List, Text, undefined, str, truthy, ◌==◌, eqb, Result, ok,
  err, get_or, if◌then◌else◌,
}
use easy_mc_server.Relay.State.{Target}
use easy_mc_server.Relay.Tunnels.{OpenTunnel, CloseTunnel}
use easy_mc_server.HostTunnel.Redaction.{redaction_label, redact_tunnel_secrets}

pub data TunnelFailure : Type 0 where
  room_not_ready : TunnelFailure
  relay_session_missing : TunnelFailure
  open_proxy_blocked : TunnelFailure

pub record TunnelInput : Type 0 where
  pub local_server_ready : Bool
  pub room_id : Text
  pub host_id : Text
  pub relay_url : Text
  pub host_tunnel_token : Text
  pub relay_token : Text
  pub local_target : Option Target

pub record OpenFrame : Type 0 where
  pub protocol_version : Text
  pub kind : Text
  pub room_id : Text
  pub host_id : Text
  pub host_token : Text
  pub target : Target

pub record CloseFrame : Type 0 where
  pub protocol_version : Text
  pub kind : Text
  pub room_id : Text
  pub host_id : Text
  pub host_token : Text

pub record Diagnostics : Type 0 where
  pub room_id : List ℕ
  pub host_id : List ℕ
  pub relay_url : List ℕ
  pub host_tunnel_token : List ℕ
  pub target_kind : List ℕ
  pub target_host : List ℕ
  pub target_port : ℕ

pub record TunnelPlan : Type 0 where
  pub protocol_version : Text
  pub room_id : Text
  pub host_id : Text
  pub relay_url : List ℕ
  pub open_frame : OpenFrame
  pub local_target : Target
  pub close_frame : CloseFrame
  pub diagnostics : Diagnostics

abbrev relay_protocol_version : Text
relay_protocol_version = str "relay.m4"

abbrev pub minecraft_target : Target
minecraft_target = record { kind = str "minecraft"; host = str "127.0.0.1"; port = 25565 }

unfoldable pub is_minecraft_room_target : Target → Bool
is_minecraft_room_target t =
    t.kind == str "minecraft" && t.host == str "127.0.0.1" && eqb t.port 25565

-- `redactTunnelDiagnostics` on the fields of a plan; the field of the token is a secret by its name.
unfoldable pub diagnostics_of : TunnelInput → Target → Diagnostics
diagnostics_of input target =
    let redact = redact_tunnel_secrets input.host_tunnel_token input.relay_token in
    record {
      room_id = redact input.room_id;
      host_id = redact input.host_id;
      relay_url = redact input.relay_url;
      host_tunnel_token = redaction_label;
      target_kind = redact target.kind;
      target_host = redact target.host;
      target_port = target.port;
    }

unfoldable pub tunnel_plan_of : TunnelInput → Target → TunnelPlan
unfolding diagnostics_of
tunnel_plan_of input target = record {
  protocol_version = relay_protocol_version;
  room_id = input.room_id;
  host_id = input.host_id;
  relay_url = redact_tunnel_secrets input.host_tunnel_token input.relay_token input.relay_url;
  open_frame = record {
    protocol_version = relay_protocol_version;
    kind = str "host_tunnel_open";
    room_id = input.room_id;
    host_id = input.host_id;
    host_token = input.host_tunnel_token;
    target = target;
  };
  local_target = target;
  close_frame = record {
    protocol_version = relay_protocol_version;
    kind = str "host_tunnel_close";
    room_id = input.room_id;
    host_id = input.host_id;
    host_token = input.host_tunnel_token;
  };
  diagnostics = diagnostics_of input target;
}

unfoldable pub create_host_tunnel_plan : TunnelInput → Result TunnelFailure TunnelPlan
unfolding is_minecraft_room_target tunnel_plan_of
create_host_tunnel_plan input =
    let target = get_or input.local_target minecraft_target in
    if not input.local_server_ready
    then err room_not_ready
    else if not (truthy input.room_id)
        || not (truthy input.host_id)
        || not (truthy input.relay_url)
        || not (truthy input.host_tunnel_token)
    then err relay_session_missing
    else if not (is_minecraft_room_target target)
    then err open_proxy_blocked
    else ok (tunnel_plan_of input target)

-- What the relay is handed: the fields that it reads of a frame.
abbrev pub open_request : OpenFrame → OpenTunnel
open_request f = record {
  host_id = f.host_id;
  room_id = f.room_id;
  target = some f.target;
  host_token = f.host_token;
}

abbrev pub close_request : CloseFrame → CloseTunnel
close_request f = record {
  tunnel_id = undefined;
  room_id = f.room_id;
  host_id = f.host_id;
  host_token = f.host_token;
  reason = undefined;
}

pub data TunnelUiState : Type 0 where
  connecting : TunnelUiState
  ready : TunnelUiState
  warning : TunnelUiState
  stopped : TunnelUiState
  failed : TunnelUiState

-- The state and the primary action, where `null` is undefined.
unfoldable pub create_host_tunnel_ui_state : Text → TunnelUiState × Text
create_host_tunnel_ui_state status =
    if status == str "open"
    then (ready, undefined)
    else if status == str "quota_warning"
    then (warning, str "keep_playing")
    else if status == str "quota_stopped"
    then (stopped, str "close_room")
    else if status == str "disconnected" || status == str "unavailable"
    then (failed, str "retry_connection")
    else (connecting, undefined)
