-- ===== src/Relay/State.antt =====
-- The state of `createRelaySimulation`: its maps, its metrics and its event log. Constant fields of
-- a tunnel, a stream and a frame (`protocolVersion`, `kind`, `role`) are left out. Times are
-- milliseconds; a time that may be `undefined` is an `Option`.
use easy_mc_server.Prelude.{
  ℕ, ◌+◌, ◌*◌, String, Bool, true, false, ◌&&◌, Option, some, List, [], ◌∷◌, ◌++◌, Text, ◌==◌, str,
  truthy, Result, err, if◌then◌else◌, show, get_or, undefined,
}
use easy_mc_server.Prelude.Map.{Map, get}
use Prim.Native.String.{◌++◌ as append}

-- `RelayFailureReasons`; `other` is a reason that the session service gave.
pub data Reason : Type 0 where
  unauthenticated session_expired cross_room wrong_invite session_replayed wrong_uuid : Reason
  wrong_friend wrong_host host_tunnel_unauthorized host_tunnel_conflict : Reason
  host_tunnel_unavailable host_tunnel_closed open_proxy_blocked invalid_transfer : Reason
  disconnect_retry_exhausted room_size_quota session_duration_quota idle_quota : Reason
  room_bandwidth_quota monthly_host_quota : Reason
  other : String → Reason

pub record Quotas : Type 0 where
  pub max_room_members : ℕ
  pub max_session_ms : ℕ
  pub idle_timeout_ms : ℕ
  pub warning_room_bytes : ℕ
  pub max_room_bytes : ℕ
  pub max_monthly_host_bytes : ℕ

abbrev pub default_quotas : Quotas
default_quotas = record {
  max_room_members = 9;
  max_session_ms = 6 * 60 * 60 * 1000;
  idle_timeout_ms = 20 * 60 * 1000;
  warning_room_bytes = 25 * 1024 * 1024 * 1024;
  max_room_bytes = 40 * 1024 * 1024 * 1024;
  max_monthly_host_bytes = 150 * 1024 * 1024 * 1024;
}

pub record Target : Type 0 where
  pub kind : Text
  pub host : Text
  pub port : ℕ

pub data TunnelState : Type 0 where
  opened closed : TunnelState

pub record Tunnel : Type 0 where
  pub id : Text
  pub host_id : Text
  pub room_id : Text
  pub target : Target
  pub opened_at : ℕ
  pub closed_at : Option ℕ
  pub state : TunnelState

pub record Session : Type 0 where
  pub session_id : Text
  pub session_token : Text
  pub room_id : Text
  pub invite_id : Text
  pub host_id : Text
  pub friend_id : Text
  pub minecraft_uuid : Text
  pub approved : Bool
  pub issued_at : Option ℕ
  pub expires_at : Option ℕ
  pub authorized_at : Option ℕ
  pub consumed_at : Option ℕ

-- A payload: text, a byte array, or any other value by its JSON text.
pub data Payload : Type 0 where
  text : String → Payload
  bytes : List ℕ → Payload
  json : String → Payload

pub data Direction : Type 0 where
  friend_to_host host_to_friend : Direction

pub record Frame : Type 0 where
  pub stream_id : Text
  pub room_id : Text
  pub direction : Direction
  pub payload : Payload

pub data StreamState : Type 0 where
  opened closed disconnect_failed : StreamState

pub record Stream : Type 0 where
  pub id : Text
  pub room_id : Text
  pub invite_id : Text
  pub host_id : Text
  pub friend_id : Text
  pub minecraft_uuid : Text
  pub target : Target
  pub session_id : Text
  pub tunnel_id : Text
  pub opened_at : ℕ
  pub last_activity_at : ℕ
  pub closed_at : Option ℕ
  pub bytes : ℕ
  pub host_inbox : List Frame
  pub friend_inbox : List Frame
  pub state : StreamState

-- `publicStream`: what a caller is told of a stream, without its session id and its inboxes.
pub record PublicStream : Type 0 where
  pub id : Text
  pub room_id : Text
  pub invite_id : Text
  pub tunnel_id : Text
  pub host_id : Text
  pub friend_id : Text
  pub minecraft_uuid : Text
  pub target : Target
  pub state : StreamState

unfoldable pub public_stream : Stream → PublicStream
public_stream s = record {
  id = s.id;
  room_id = s.room_id;
  invite_id = s.invite_id;
  tunnel_id = s.tunnel_id;
  host_id = s.host_id;
  friend_id = s.friend_id;
  minecraft_uuid = s.minecraft_uuid;
  target = s.target;
  state = s.state;
}

pub record Metrics : Type 0 where
  pub host_tunnels_opened : ℕ
  pub host_tunnels_closed : ℕ
  pub friend_streams_opened : ℕ
  pub friend_streams_closed : ℕ
  pub failed_opens : ℕ
  pub bytes_relayed : ℕ
  pub disconnect_retries : ℕ
  pub disconnect_failures : ℕ
  pub quota_stops : ℕ

abbrev pub no_metrics : Metrics
no_metrics = record {
  host_tunnels_opened = 0;
  host_tunnels_closed = 0;
  friend_streams_opened = 0;
  friend_streams_closed = 0;
  failed_opens = 0;
  bytes_relayed = 0;
  disconnect_retries = 0;
  disconnect_failures = 0;
  quota_stops = 0;
}

-- The request of a friend; what it leaves out is `undefined`.
pub record Request : Type 0 where
  pub session_id : Text
  pub session_token : Text
  pub room_id : Text
  pub invite_id : Text
  pub friend_id : Text
  pub minecraft_uuid : Text
  pub requested_target : Option Target

-- `safeOpenFailureMetadata`: a failed open is logged with neither session id nor token.
pub record OpenFailure : Type 0 where
  pub reason : Reason
  pub room_id : Text
  pub invite_id : Text
  pub friend_id : Text
  pub minecraft_uuid : Text
  pub requested_target : Option Target

-- An event's `type` and its metadata, before secrets are struck out of the texts in it.
pub data Event : Type 0 where
  host_tunnel_opened : Text → Text → Text → Target → Event
  host_tunnel_closed : Text → Text → Text → ℕ → Event
  friend_stream_opened : Stream → Event
  friend_stream_open_failed : OpenFailure → Event
  relay_transfer_recorded : Text → Text → ℕ → Event
  friend_stream_disconnected : Text → ℕ → Event
  friend_stream_disconnect_failed : Text → ℕ → Event
  friend_stream_closed : Text → Text → Text → Event

-- What `closeStream` and `recordEvent` write, whichever stream they are called for.
pub record Journal : Type 0 where
  pub metrics : Metrics
  pub events : List (ℕ × Event)

pub record Relay : Type 0 where
  pub credentials : Map Text
  pub quotas : Quotas
  pub tunnels : Map Tunnel
  pub sessions : Map Session
  pub streams : Map Stream
  pub room_bytes : Map ℕ
  pub monthly_host_bytes : Map ℕ
  pub journal : Journal

-- `createRelaySimulation`
abbrev pub init : Map Text → Quotas → Relay
init credentials quotas = record {
  credentials = credentials;
  quotas = quotas;
  tunnels = [];
  sessions = [];
  streams = [];
  room_bytes = [];
  monthly_host_bytes = [];
  journal = record { metrics = no_metrics; events = [] };
}

abbrev pub is_open : StreamState → Bool
is_open opened = true
is_open _ = false

abbrev pub is_closed : StreamState → Bool
is_closed closed = true
is_closed _ = false

abbrev pub tunnel_is_open : TunnelState → Bool
tunnel_is_open opened = true
tunnel_is_open closed = false

unfoldable pub record_event : ℕ → Event → Journal → Journal
record_event now e j = record j { events = j.events ++ (now, e) ∷ [] }

unfoldable pub close_stream : ℕ → Text → Stream → Journal → Stream × Journal
unfolding record_event
close_stream now reason s j = if is_closed s.state then (s, j) else (
  record s { state = closed; closed_at = some now },
  record_event now (friend_stream_closed s.id s.room_id reason) (record j {
    metrics = record j.metrics { friend_streams_closed = j.metrics.friend_streams_closed + 1 };
  }),
)

-- The answer `{ ok: false, reason }` of a call that changed nothing.
abbrev pub refuse : {A : Type 0} → Relay → Reason → Relay × Result Reason A
refuse r e = (r, err e)

unfoldable pub host_tunnel_authorized : Relay → Text → Text → Text → Bool
host_tunnel_authorized r host_id room_id host_token =
    let key = str (append (show room_id) (append ":" (show host_id))) in
    let expected = get_or (get key r.credentials) undefined in
    truthy expected && truthy host_token && expected == host_token
