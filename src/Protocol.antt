-- ===== src/Protocol.antt =====
-- packages/protocol/src/index.mjs: the vocabulary of the services, and who may do what. A string
-- that is none of the listed values is `unknown`.
pub mod Permissions
use easy_mc_server.Prelude.{Bool, true, false, ◌&&◌, Text, ◌==◌, truthy, Option, none, some, String}

pub data Actor : Type 0 where
  host friend service service_admin : Actor
  unknown : Actor

pub data Action : Type 0 where
  create_room create_invite revoke_invite read_safe_invite read_approval_queue : Action
  create_join_request approve_join deny_join block_join issue_session read_relay_metrics : Action
  break_glass_read : Action
  unknown : Action

pub data RoomState : Type 0 where
  created opened closed host_offline : RoomState

pub data InviteState : Type 0 where
  active expired revoked unavailable : InviteState

pub data ApprovalState : Type 0 where
  pending approved denied blocked expired host_unavailable already_allowed : ApprovalState
  identity_changed : ApprovalState

pub data SessionState : Type 0 where
  issued expired revoked : SessionState

pub data ErrorState : Type 0 where
  invite_unavailable room_closed approval_required session_unavailable rate_limited : ErrorState

-- What the caller says of the situation.
pub record Context : Type 0 where
  pub room_host_id : Text
  pub actor_id : Text
  pub valid_invite : Bool
  pub authorized_approval : Bool
  pub break_glass : Bool

abbrev pub no_context : Context
no_context = record {
  room_host_id = Text.undefined;
  actor_id = Text.undefined;
  valid_invite = false;
  authorized_approval = false;
  break_glass = false;
}

-- `ownRoomHostActions`
abbrev pub own_room_host_action : Action → Bool
own_room_host_action create_room = true
own_room_host_action create_invite = true
own_room_host_action revoke_invite = true
own_room_host_action read_safe_invite = true
own_room_host_action read_approval_queue = true
own_room_host_action approve_join = true
own_room_host_action deny_join = true
own_room_host_action block_join = true
own_room_host_action read_relay_metrics = true
own_room_host_action _ = false

abbrev pub friend_action : Action → Bool
friend_action read_safe_invite = true
friend_action create_join_request = true
friend_action _ = false

abbrev pub service_action : Action → Bool
service_action issue_session = true
service_action _ = false

abbrev pub service_admin_action : Action → Bool
service_admin_action break_glass_read = true
service_admin_action _ = false

abbrev pub own_room : Context → Bool
own_room c = truthy c.room_host_id && truthy c.actor_id && c.room_host_id == c.actor_id

unfoldable pub can_actor_perform : Actor → Action → Context → Bool
can_actor_perform host a c = own_room_host_action a && own_room c
can_actor_perform friend a c = friend_action a && c.valid_invite
can_actor_perform service a c = service_action a && c.authorized_approval
can_actor_perform service_admin a c = service_admin_action a && c.break_glass
can_actor_perform unknown a c = false

-- The status of an invite as a caller without rights may see it.
pub record InviteStatus : Type 0 where
  pub state : InviteState
  pub room_alias : Text
  pub minecraft_version : Text
  pub pack_profile_name : Text
  pub trust_copy : Text

pub data SafeStatus : Type 0 where
  unavailable : SafeStatus
  available : Text → Text → Text → Text → SafeStatus

unfoldable pub redact_invite_status : Option InviteStatus → SafeStatus
redact_invite_status none = unavailable
redact_invite_status (some s) = elim s.state [
  | active ↦ available s.room_alias s.minecraft_version s.pack_profile_name s.trust_copy
  | _ ↦ unavailable
]
