-- ===== src/Simulation/Proofs/Issuing.antt =====
-- When a session is issued, and what is then read of it.
use easy_mc_server.Prelude.{
  ℕ, ◌+◌, ◌-◌, ◌≤◌, ◌<◌, String, ◌≡◌, ◌↔◌, refl, Bool, true, false, some, str, ==_iff, Result, ok,
  err, arith, ltb, if◌then◌else◌,
}
use Prim.Native.String.{◌++◌ as append}
use easy_mc_server.Prelude.Map.{get}
use easy_mc_server.Prelude.Map.Laws.{get-put_self}
use easy_mc_server.Protocol.{ApprovalState, InviteState, RoomState, ErrorState, session_unavailable}
use easy_mc_server.Simulation.State.{Plane, Room, Invite, JoinRequest, is_host_online}
use easy_mc_server.Simulation.Invites.{is_invite_active}
use easy_mc_server.Simulation.Requests.{
  SessionClaim, issue_session, issue_for, grant_session, claim_parts, identity_bound, read_session,
}
use easy_mc_server.Simulation.Proofs.Cases.{issue_session_cases}

abbrev pub is_ok : {A : Type 0} → Result ErrorState A → Bool
is_ok (ok a) = true
is_ok (err e) = false

-- What entitles a claim to a session: a request that was approved for this room, invite and player
-- and has no session yet, an invite that is active, and a host who is online.
pub record Entitled (now : ℕ) (c : SessionClaim) (p : Plane) : Type 0 where
  pub request : JoinRequest
  pub room : Room
  pub invite : Invite
  pub request_at : get c.request_id p.approvals ≡ some request
  pub room_at : get request.room_id p.rooms ≡ some room
  pub invite_at : get request.invite_id p.invites ≡ some invite
  pub approved : request.state ≡ ApprovalState.approved
  pub unissued : request.session_issued ≡ false
  pub same_room : request.room_id ≡ c.room_id
  pub same_invite : request.invite_id ≡ c.invite_id
  pub same_player : request.minecraft_uuid ≡ c.minecraft_uuid
  pub active : invite.state ≡ InviteState.active
  pub unexpired : now < invite.expires_at
  pub open_room : room.state ≡ RoomState.opened
  pub seen : now - room.host_last_seen_at ≤ p.config.presence_ttl_ms

pub claim_parts-at :
    (c : SessionClaim) (p : Plane) (a : JoinRequest) (room : Room) (invite : Invite)
    → (claim_parts c p ≡ some (a, room, invite)) ↔ (
        (get c.request_id p.approvals ≡ some a)
        × (get a.room_id p.rooms ≡ some room)
        × (get a.invite_id p.invites ≡ some invite))
unfolding claim_parts
claim_parts-at c p a room invite = (λ h. ground arith, λ h. ground arith)

pub identity_bound-parts :
    (now : ℕ) (c : SessionClaim) (a : JoinRequest) (i : Invite)
    → (identity_bound now c a i ≡ true) ↔ (
        (a.state ≡ ApprovalState.approved)
        × (a.room_id ≡ c.room_id)
        × (a.invite_id ≡ c.invite_id)
        × (a.minecraft_uuid ≡ c.minecraft_uuid)
        × (a.session_issued ≡ false)
        × (i.state ≡ InviteState.active)
        × (now < i.expires_at))
unfolding identity_bound is_invite_active
identity_bound-parts now c a i = (
  λ h. ground (
    arith,
    ==_iff a.room_id c.room_id,
    ==_iff a.invite_id c.invite_id,
    ==_iff a.minecraft_uuid c.minecraft_uuid,
  ),
  λ h. ground (
    arith,
    ==_iff a.room_id c.room_id,
    ==_iff a.invite_id c.invite_id,
    ==_iff a.minecraft_uuid c.minecraft_uuid,
  ),
)

is_host_online-parts :
    (now : ℕ) (room : Room) (p : Plane)
    → (is_host_online now room p ≡ true) ↔ (
        (room.state ≡ RoomState.opened) × (now - room.host_last_seen_at ≤ p.config.presence_ttl_ms))
unfolding is_host_online
is_host_online-parts now room p = (λ h. ground arith, λ h. ground arith)

issue_session-granted :
    (now : ℕ) (uuid : String) (c : SessionClaim) (a : JoinRequest) (room : Room) (invite : Invite)
    (p : Plane)
    → claim_parts c p ≡ some (a, room, invite)
    → identity_bound now c a invite ≡ true
    → is_host_online now room p ≡ true
    → issue_session now uuid c p ≡ grant_session now uuid c a p
unfolding issue_session issue_for
issue_session-granted now uuid c a room invite p parts bound online =
    rw (parts, issue_session) (rw (bound, online) refl)

-- A session is issued exactly to a claim that is entitled to it.
pub issue_session_iff :
    (now : ℕ) (uuid : String) (c : SessionClaim) (p : Plane)
    → (is_ok (issue_session now uuid c p).1 ≡ true) ↔ Entitled now c p
issue_session_iff now uuid c p = (
  issue_session_cases now uuid c p (λ x. is_ok x.1 ≡ true → Entitled now c p) (λ e b. cc)
      (λ a room invite parts bound online _.
        let at = (claim_parts-at c p a room invite).0 parts in
        let b = (identity_bound-parts now c a invite).0 bound in
        let o = (is_host_online-parts now room p).0 online in
        record {
          request = a;
          room = room;
          invite = invite;
          request_at = at.0;
          room_at = at.1;
          invite_at = at.2;
          approved = b.0;
          unissued = b.4;
          same_room = b.1;
          same_invite = b.2;
          same_player = b.3;
          active = b.5;
          unexpired = b.6;
          open_room = o.0;
          seen = o.1;
        }),
  λ h.
      rw
        (issue_session-granted now uuid c h.request h.room h.invite p
          ((claim_parts-at c p h.request h.room h.invite).1 (h.request_at, h.room_at, h.invite_at))
          ((identity_bound-parts now c h.request h.invite).1 (
            h.approved, h.same_room, h.same_invite, h.same_player, h.unissued, h.active,
            h.unexpired,
          ))
          ((is_host_online-parts now h.room p).1 (h.open_room, h.seen)))
        (unfold grant_session in refl),
)

grant_session-read :
    (now later : ℕ) (uuid : String) (c : SessionClaim) (a : JoinRequest) (p : Plane)
    → read_session later (str (append "session_" uuid)) (grant_session now uuid c a p).0 ≡ (
        if ltb later (now + p.config.session_ttl_ms)
        then ok (record {
          room_id = c.room_id;
          minecraft_uuid = c.minecraft_uuid;
          expires_at = now + p.config.session_ttl_ms;
        })
        else err session_unavailable)
unfolding grant_session read_session
grant_session-read now later uuid c a p =
    rw (get-put_self (str (append "session_" uuid)), read_session) (ground arith)

-- A session that was issued is read back, with the room and the player of its claim, exactly until
-- its time is over.
pub issue_session-read :
    (now later : ℕ) (uuid : String) (c : SessionClaim) (p : Plane)
    → is_ok (issue_session now uuid c p).1 ≡ true
    → read_session later (str (append "session_" uuid)) (issue_session now uuid c p).0 ≡ (
        if ltb later (now + p.config.session_ttl_ms)
        then ok (record {
          room_id = c.room_id;
          minecraft_uuid = c.minecraft_uuid;
          expires_at = now + p.config.session_ttl_ms;
        })
        else err session_unavailable)
issue_session-read now later uuid c p issued =
    issue_session_cases now uuid c p
      (λ x.
        is_ok x.1 ≡ true
        → read_session later (str (append "session_" uuid)) x.0 ≡ (
            if ltb later (now + p.config.session_ttl_ms)
            then ok (record {
              room_id = c.room_id;
              minecraft_uuid = c.minecraft_uuid;
              expires_at = now + p.config.session_ttl_ms;
            })
            else err session_unavailable))
      (λ e b. cc) (λ a room invite _ _ _ _. grant_session-read now later uuid c a p) issued
