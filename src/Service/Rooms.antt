-- ===== src/Service/Rooms.antt =====
-- The room service's calls of a host: `createRoom`, `createInvite`, `revokeInvite` and
-- `regenerateInvite`.
use easy_mc_server.Prelude.{ℕ, ◌+◌, ◌*◌, Bool, Option, none, some, Text, str, truthy, or_else}
use easy_mc_server.Protocol.{
  Actor, Action, no_context, can_actor_perform, RoomState, InviteState, ErrorState,
  session_unavailable, invite_unavailable,
}
use easy_mc_server.Service.Records.{
  Failure, known, type_error, Room, plain, hashed, InviteInput, Invite, Event, room_created,
  invite_created, invite_revoked, invite_regenerated,
}
use easy_mc_server.Service.Repository.{Repository}
use easy_mc_server.Service.Steps.{
  M, ◌>>=◌, ◌>>◌, pure, check, reading, HookAnswer, call_hook, audit_with,
}

-- The options of the service. A hook is handed what the source hands it.
pub record Options : Type 0 where
  pub invite_ttl_ms : ℕ
  pub session_ttl_ms : ℕ
  pub join_request_limit : ℕ
  pub join_request_window_ms : ℕ
  pub check_room_quota : Option (Text → ℕ → HookAnswer)
  pub check_session_quota : Option (Text → Text → Text → Text → ℕ → HookAnswer)

abbrev pub default_options : Options
default_options = record {
  invite_ttl_ms = 24 * 60 * 60 * 1000;
  session_ttl_ms = 15 * 60 * 1000;
  join_request_limit = 5;
  join_request_window_ms = 60 * 1000;
  check_room_quota = none;
  check_session_quota = none;
}

-- What a call draws: the id of the record that it makes, a token, and the id of the audit event.
pub record Draw : Type 0 where
  pub id : Text
  pub token : Text
  pub audit_id : Text

pub record PublicRoom : Type 0 where
  pub id : Text
  pub alias : Text
  pub minecraft_version : Text
  pub pack_profile_name : Text
  pub state : RoomState

unfoldable pub public_room : Room → PublicRoom
public_room r = record {
  id = r.id;
  alias = r.alias;
  minecraft_version = r.minecraft_version;
  pack_profile_name = r.pack_profile_name;
  state = r.state;
}

pub record IssuedInvite : Type 0 where
  pub id : Text
  pub token : Text
  pub expires_at : ℕ

abbrev pub fails : ErrorState → Failure
fails e = known e

-- `canActorPerform(Actors.HOST, action, { actorId, roomHostId })`
unfoldable pub host_may : Action → Text → Room → Bool
unfolding can_actor_perform
host_may action actor_id room =
    can_actor_perform Actor.host action
      (record no_context { room_host_id = room.host_id; actor_id = actor_id })

abbrev pub ask_room_hook : Option (Text → ℕ → HookAnswer) → Text → ℕ → Option HookAnswer
ask_room_hook none actor now = none
ask_room_hook (some hook) actor now = some (hook actor now)

unfoldable pub new_room : ℕ → Draw → Text → Text → Text → Text → Room
new_room now draw actor_id alias minecraft_version pack_profile_name = record {
  id = draw.id;
  host_id = actor_id;
  alias = alias;
  minecraft_version = minecraft_version;
  pack_profile_name = pack_profile_name;
  state = RoomState.opened;
  created_at = now;
  updated_at = now;
}

unfoldable pub new_invite : ℕ → ℕ → Draw → Text → InviteInput
new_invite now ttl draw room_id = record {
  id = draw.id;
  room_id = room_id;
  credential = plain draw.token;
  state = InviteState.active;
  created_at = now;
  expires_at = some (now + ttl);
  revoked_at = none;
}

-- `{ ...invite, state: REVOKED, revokedAt: now }`
unfoldable pub revoked_invite : ℕ → Invite → InviteInput
revoked_invite now i = record {
  id = i.id;
  room_id = i.room_id;
  credential = hashed i.token_hash;
  state = InviteState.revoked;
  created_at = i.created_at;
  expires_at = i.expires_at;
  revoked_at = some now;
}

module _ {S : Type 0} (repo : Repository S) where
  unfoldable pub audit : Text → ℕ → Event → M S (Unit {0})
  unfolding audit_with
  audit id now event = audit_with repo.record_audit_event id now event

  unfoldable pub create_room : Options → ℕ → Draw → Text → Text → Text → Text → M S PublicRoom
  unfolding call_hook new_room public_room audit
  create_room options now draw actor_id alias minecraft_version pack_profile_name = do
    check (truthy actor_id) type_error
    call_hook (ask_room_hook options.check_room_quota actor_id now)
    saved ← repo.save_room (new_room now draw actor_id alias minecraft_version pack_profile_name)
    audit draw.audit_id now (room_created actor_id draw.id minecraft_version pack_profile_name)
    pure (public_room saved)

  unfoldable pub create_invite : Options → ℕ → Draw → Text → Text → M S IssuedInvite
  unfolding host_may new_invite audit
  create_invite options now draw actor_id room_id = do
    room ← reading (fails session_unavailable) (repo.read_room room_id)
    check (host_may Action.create_invite actor_id room) (fails session_unavailable)
    saved ← repo.save_invite (new_invite now options.invite_ttl_ms draw room_id)
    audit draw.audit_id now (invite_created actor_id room_id saved.id (now + options.invite_ttl_ms))
    pure (record { id = saved.id; token = draw.token; expires_at = now + options.invite_ttl_ms })

  unfoldable pub read_authorized_invite : Text → Text → Action → M S Invite
  unfolding host_may
  read_authorized_invite actor_id invite_id action = do
    invite ← reading (fails invite_unavailable) (repo.read_invite invite_id)
    room ← reading (fails invite_unavailable) (repo.read_room invite.room_id)
    check (host_may action actor_id room) (fails invite_unavailable)
    pure invite

  -- The answer is the id of the invite, whose state is revoked.
  unfoldable pub revoke_invite : ℕ → Draw → Text → Text → Text → M S Text
  unfolding read_authorized_invite revoked_invite audit
  revoke_invite now draw actor_id invite_id reason = do
    invite ← read_authorized_invite actor_id invite_id Action.revoke_invite
    saved ← repo.save_invite (revoked_invite now invite)
    audit draw.audit_id now
        (invite_revoked actor_id invite.room_id invite_id (or_else reason (str "host_revoked")) now)
    pure invite_id

  -- The answer is the new invite, and the id of the one that is revoked.
  unfoldable pub regenerate_invite : Options → ℕ → Draw → Text → Text → M S (IssuedInvite × Text)
  unfolding read_authorized_invite revoked_invite new_invite audit
  regenerate_invite options now draw actor_id invite_id = do
    invite ← read_authorized_invite actor_id invite_id Action.revoke_invite
    revoked ← repo.save_invite (revoked_invite now invite)
    saved ← repo.save_invite (new_invite now options.invite_ttl_ms draw invite.room_id)
    audit draw.audit_id now (
        invite_regenerated actor_id invite.room_id saved.id invite.id (now + options.invite_ttl_ms))
    pure (
      record { id = saved.id; token = draw.token; expires_at = now + options.invite_ttl_ms },
      invite.id,
    )
