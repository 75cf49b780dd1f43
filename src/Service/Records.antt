-- ===== src/Service/Records.antt =====
-- The records that the room service hands to its repository, and what a call may fail with.
use easy_mc_server.Prelude.{ℕ, Bool, true, false, ◌||◌, Option, none, some, Text, ltb, eqb}
use easy_mc_server.Protocol.{RoomState, InviteState, ApprovalState, SessionState, ErrorState}

-- A reason of the protocol, one that a hook gives, or an error that is thrown.
pub data Failure : Type 0 where
  known : ErrorState → Failure
  given : Text → Failure
  type_error : Failure

pub record Room : Type 0 where
  pub id : Text
  pub host_id : Text
  pub alias : Text
  pub minecraft_version : Text
  pub pack_profile_name : Text
  pub state : RoomState
  pub created_at : ℕ
  pub updated_at : ℕ

-- An invite is handed in with its token or with the hash of it, and kept with the hash.
pub data Credential : Type 0 where
  plain : Text → Credential
  hashed : Text → Credential

pub record InviteInput : Type 0 where
  pub id : Text
  pub room_id : Text
  pub credential : Credential
  pub state : InviteState
  pub created_at : ℕ
  pub expires_at : Option ℕ
  pub revoked_at : Option ℕ

pub record Invite : Type 0 where
  pub id : Text
  pub room_id : Text
  pub token_hash : Text
  pub state : InviteState
  pub created_at : ℕ
  pub expires_at : Option ℕ
  pub revoked_at : Option ℕ

pub record Approval : Type 0 where
  pub id : Text
  pub room_id : Text
  pub invite_id : Text
  pub friend_id : Text
  pub minecraft_uuid : Text
  pub display_name : Text
  pub state : ApprovalState
  pub created_at : ℕ
  pub decided_at : Option ℕ

-- A session is handed in with its credential, and kept with the hash of it.
pub record SessionInput : Type 0 where
  pub id : Text
  pub room_id : Text
  pub invite_id : Text
  pub request_id : Text
  pub minecraft_uuid : Text
  pub session_credential : Text
  pub state : SessionState
  pub issued_at : ℕ
  pub expires_at : Option ℕ

pub record Session : Type 0 where
  pub id : Text
  pub room_id : Text
  pub invite_id : Text
  pub request_id : Text
  pub minecraft_uuid : Text
  pub session_credential_hash : Text
  pub state : SessionState
  pub issued_at : ℕ
  pub expires_at : Option ℕ

-- The events that the service records, before the redaction of their texts.
pub data Event : Type 0 where
  room_created : Text → Text → Text → Text → Event
  invite_created : Text → Text → Text → ℕ → Event
  invite_revoked : Text → Text → Text → Text → ℕ → Event
  invite_regenerated : Text → Text → Text → Text → ℕ → Event
  approval_decided : Text → Text → Text → Text → ApprovalState → ℕ → Event

pub record AuditEvent : Type 0 where
  pub id : Text
  pub occurred_at : ℕ
  pub event : Event

-- `!x.expiresAt || x.expiresAt > now`, where a missing time and 0 are both false.
unfoldable pub is_unexpired : ℕ → Option ℕ → Bool
is_unexpired now none = true
is_unexpired now (some t) = eqb t 0 || ltb now t

abbrev pub is_active : InviteState → Bool
is_active InviteState.active = true
is_active _ = false

abbrev pub is_issued : SessionState → Bool
is_issued SessionState.issued = true
is_issued _ = false
