-- ===== src/Simulation/State.antt =====
-- The state of `createControlPlaneSimulation`, and its rooms. The hash of invite tokens is a
-- parameter; the time and the uuids that a call draws are arguments.
use easy_mc_server.Prelude.{
  ℕ, ◌-◌, ◌*◌, String, Bool, true, false, ◌&&◌, none, some, [], Text, ◌==◌, str, leb, Result, err,
  if◌then◌else◌,
}
use Prim.Native.String.{◌++◌ as append}
use easy_mc_server.Prelude.Map.{Map, get, put}
use easy_mc_server.Protocol.{
  Actor, Action, no_context, can_actor_perform, RoomState, InviteState, ApprovalState, SessionState,
  ErrorState,
}

pub record Room : Type 0 where
  pub id : Text
  pub host_id : Text
  pub alias : Text
  pub minecraft_version : Text
  pub pack_profile_name : Text
  pub state : RoomState
  pub created_at : ℕ
  pub host_last_seen_at : ℕ

pub record Invite : Type 0 where
  pub id : Text
  pub room_id : Text
  pub token_hash : Text
  pub state : InviteState
  pub created_at : ℕ
  pub expires_at : ℕ

pub record JoinRequest : Type 0 where
  pub id : Text
  pub room_id : Text
  pub invite_id : Text
  pub friend_id : Text
  pub minecraft_uuid : Text
  pub display_name : Text
  pub state : ApprovalState
  pub created_at : ℕ
  pub session_issued : Bool

pub record Session : Type 0 where
  pub id : Text
  pub room_id : Text
  pub invite_id : Text
  pub request_id : Text
  pub minecraft_uuid : Text
  pub state : SessionState
  pub issued_at : ℕ
  pub expires_at : ℕ

-- `options`, and the SHA-256 of a token.
pub record Config : Type 0 where
  pub invite_ttl_ms : ℕ
  pub presence_ttl_ms : ℕ
  pub session_ttl_ms : ℕ
  pub hash : Text → Text

abbrev pub default_config : (Text → Text) → Config
default_config hash = record {
  invite_ttl_ms = 24 * 60 * 60 * 1000;
  presence_ttl_ms = 90 * 1000;
  session_ttl_ms = 15 * 60 * 1000;
  hash = hash;
}

pub record Plane : Type 0 where
  pub config : Config
  pub rooms : Map Room
  pub invites : Map Invite
  pub approvals : Map JoinRequest
  pub sessions : Map Session
  pub raw_tokens : Map Text

abbrev pub init : Config → Plane
init config = record {
  config = config;
  rooms = [];
  invites = [];
  approvals = [];
  sessions = [];
  raw_tokens = [];
}

abbrev pub refuse : {A : Type 0} → Plane → ErrorState → Plane × Result ErrorState A
refuse p e = (p, err e)

-- `canActorPerform(Actors.HOST, action, { actorId, roomHostId })`
unfoldable pub host_may : Action → Text → Room → Bool
unfolding can_actor_perform
host_may action actor_id room =
    can_actor_perform Actor.host action
      (record no_context { room_host_id = room.host_id; actor_id = actor_id })

abbrev pub room_is_open : RoomState → Bool
room_is_open RoomState.opened = true
room_is_open _ = false

unfoldable pub create_room : ℕ → String → Text → Text → Text → Text → Plane → Plane × Room
create_room now uuid host_id alias minecraft_version pack_profile_name p =
    let room : Room = record {
      id = str (append "room_" uuid);
      host_id = host_id;
      alias = alias;
      minecraft_version = minecraft_version;
      pack_profile_name = pack_profile_name;
      state = RoomState.opened;
      created_at = now;
      host_last_seen_at = now;
    } in
    (record p { rooms = put room.id room p.rooms }, room)

unfoldable pub heartbeat_host : ℕ → Text → Text → Plane → Plane × Bool
heartbeat_host now actor_id room_id p = elim (get room_id p.rooms) [
  | none ↦ (p, false)
  | some room ↦
      if room.host_id == actor_id
      then (
        record p {
          rooms =
              put room_id (record room { host_last_seen_at = now; state = RoomState.opened })
                p.rooms;
        },
        true,
      )
      else (p, false)
]

unfoldable pub is_host_online : ℕ → Room → Plane → Bool
is_host_online now room p =
    room_is_open room.state && leb (now - room.host_last_seen_at) p.config.presence_ttl_ms
