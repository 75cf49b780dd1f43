-- ===== src/Simulation/Invites.antt =====
-- Invites: a token opens a room to friends for a time, and the plane keeps the token's hash only.
use easy_mc_server.Prelude.{
  ℕ, ◌+◌, String, Bool, true, false, ◌&&◌, Option, none, some, Text, str, truthy, ltb, Result, ok,
  if◌then◌else◌,
}
use Prim.Native.String.{◌++◌ as append}
use easy_mc_server.Prelude.Map.{get, put}
use easy_mc_server.Protocol.{
  Action, InviteState, ErrorState, session_unavailable, invite_unavailable, SafeStatus,
  redact_invite_status,
}
use easy_mc_server.Simulation.State.{Plane, Invite, host_may, refuse}

-- The answer to the host, the only place where the token itself appears.
pub record IssuedInvite : Type 0 where
  pub invite_id : Text
  pub handle : Text
  pub token : Text
  pub expires_at : ℕ

unfoldable pub issue_invite :
    ℕ → String → String → Text → Text → Plane → Plane × Result ErrorState IssuedInvite
issue_invite now uuid handle_uuid room_id token p =
    let id = str (append "invite_" uuid) in
    let token_hash = p.config.hash token in
    let invite : Invite = record {
      id = id;
      room_id = room_id;
      token_hash = token_hash;
      state = InviteState.active;
      created_at = now;
      expires_at = now + p.config.invite_ttl_ms;
    } in
    (
      record p { invites = put id invite p.invites; raw_tokens = put token_hash id p.raw_tokens },
      ok (record {
        invite_id = id;
        handle = str (append "invite_handle_" handle_uuid);
        token = token;
        expires_at = invite.expires_at;
      }),
    )

-- `createInviteRecord`; `createInvite` draws the token, which is an argument here.
unfoldable pub create_invite :
    ℕ → String → String → Text → Text → Text → Plane → Plane × Result ErrorState IssuedInvite
create_invite now uuid handle_uuid actor_id room_id token p = elim (get room_id p.rooms) [
  | none ↦ refuse p session_unavailable
  | some room ↦
      if host_may Action.create_invite actor_id room
      then issue_invite now uuid handle_uuid room_id token p
      else refuse p session_unavailable
]

unfoldable pub revoke_invite : Text → Text → Plane → Plane × Result ErrorState (Unit {0})
revoke_invite actor_id invite_id p = elim (get invite_id p.invites) [
  | none ↦ refuse p invite_unavailable
  | some invite ↦ elim (get invite.room_id p.rooms) [
    | none ↦ refuse p invite_unavailable
    | some room ↦
        if host_may Action.revoke_invite actor_id room
        then (
          record p {
            invites = put invite_id (record invite { state = InviteState.revoked }) p.invites;
          },
          ok tt,
        )
        else refuse p invite_unavailable
  ]
]

-- The invite of a token. An id that is the empty string is none.
unfoldable pub resolve_invite_by_token : Text → Plane → Option Invite
resolve_invite_by_token token p =
    if truthy token
    then (elim (get (p.config.hash token) p.raw_tokens) [
      | none ↦ none
      | some id ↦ if truthy id then get id p.invites else none
    ])
    else none

abbrev pub invite_state_is_active : InviteState → Bool
invite_state_is_active InviteState.active = true
invite_state_is_active _ = false

unfoldable pub is_invite_active : ℕ → Invite → Bool
is_invite_active now i = invite_state_is_active i.state && ltb now i.expires_at

unfoldable pub read_safe_invite_status : ℕ → Text → Plane → SafeStatus
unfolding redact_invite_status
read_safe_invite_status now token p = elim (resolve_invite_by_token token p) [
  | none ↦ redact_invite_status none
  | some i ↦
      if is_invite_active now i
      then (elim (get i.room_id p.rooms) [
        | none ↦ redact_invite_status none
        | some room ↦ redact_invite_status (
            some (record {
              state = InviteState.active;
              room_alias = room.alias;
              minecraft_version = room.minecraft_version;
              pack_profile_name = room.pack_profile_name;
              trust_copy = str "No Microsoft or Minecraft password is required.";
            }))
      ])
      else redact_invite_status none
]
