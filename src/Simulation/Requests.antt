-- ===== src/Simulation/Requests.antt =====
-- Join requests: a friend asks, the host decides, and the service issues one session for each
-- request that was approved.
use easy_mc_server.Prelude.{
  ℕ, ◌+◌, String, Bool, true, false, not, ◌&&◌, Option, none, some, List, map, Text, ◌==◌, str, ltb,
  filter, Result, ok, err, if◌then◌else◌,
}
use Prim.Native.String.{◌++◌ as append}
use easy_mc_server.Prelude.Map.{get, put, values}
use easy_mc_server.Protocol.{
  Actor, Action, ApprovalState, SessionState, ErrorState, session_unavailable, invite_unavailable,
  room_closed, approval_required, can_actor_perform, no_context,
}
use easy_mc_server.Simulation.State.{
  Plane, Room, Invite, JoinRequest, Session, host_may, is_host_online, refuse,
}
use easy_mc_server.Simulation.Invites.{resolve_invite_by_token, is_invite_active}

abbrev pub is_pending : ApprovalState → Bool
is_pending ApprovalState.pending = true
is_pending _ = false

abbrev pub is_approved : ApprovalState → Bool
is_approved ApprovalState.approved = true
is_approved _ = false

abbrev pub is_issued : SessionState → Bool
is_issued SessionState.issued = true
is_issued _ = false

unfoldable pub new_request : ℕ → String → Text → Text → Text → Invite → Room → JoinRequest
new_request now uuid friend_id minecraft_uuid display_name invite room = record {
  id = str (append "approval_" uuid);
  room_id = room.id;
  invite_id = invite.id;
  friend_id = friend_id;
  minecraft_uuid = minecraft_uuid;
  display_name = display_name;
  state = ApprovalState.pending;
  created_at = now;
  session_issued = false;
}

-- The invite and the room that a token opens now, or why it opens none.
unfoldable pub admission : ℕ → Text → Plane → Result ErrorState (Invite × Room)
unfolding can_actor_perform
admission now token p = elim (resolve_invite_by_token token p) [
  | none ↦ err invite_unavailable
  | some invite ↦
      if is_invite_active now invite
      then (elim (get invite.room_id p.rooms) [
        | none ↦ err room_closed
        | some room ↦
            if is_host_online now room p
            then (if can_actor_perform Actor.friend Action.create_join_request
                  (record no_context { valid_invite = true })
                then ok (invite, room)
                else err approval_required)
            else err room_closed
      ])
      else err invite_unavailable
]

-- The answer is the id of the request, which is pending.
unfoldable pub create_join_request :
    ℕ → String → Text → Text → Text → Text → Plane → Plane × Result ErrorState Text
create_join_request now uuid token friend_id minecraft_uuid display_name p =
    elim (admission now token p) [
      | err e ↦ refuse p e
      | ok (invite, room) ↦
          let request = new_request now uuid friend_id minecraft_uuid display_name invite room in
          (record p { approvals = put request.id request p.approvals }, ok request.id)
    ]

pub record QueueEntry : Type 0 where
  pub id : Text
  pub display_name : Text
  pub minecraft_uuid : Text
  pub state : ApprovalState

unfoldable pub queue_entry : JoinRequest → QueueEntry
queue_entry a = record {
  id = a.id;
  display_name = a.display_name;
  minecraft_uuid = a.minecraft_uuid;
  state = a.state;
}

unfoldable pub read_approval_queue : Text → Text → Plane → Result ErrorState (List QueueEntry)
read_approval_queue actor_id room_id p = elim (get room_id p.rooms) [
  | none ↦ err session_unavailable
  | some room ↦
      if host_may Action.read_approval_queue actor_id room
      then ok (
          map queue_entry
            (filter (λ a. a.room_id == room_id && is_pending a.state) (values p.approvals)))
      else err session_unavailable
]

-- A decision that is no approval state at all is `none`.
unfoldable pub action_for_decision : Option ApprovalState → Action
action_for_decision (some ApprovalState.approved) = Action.approve_join
action_for_decision (some ApprovalState.denied) = Action.deny_join
action_for_decision (some ApprovalState.blocked) = Action.block_join
action_for_decision _ = Action.unknown

-- What is written for a decision; one without an action is refused before it is written.
abbrev pub decided : Option ApprovalState → ApprovalState → ApprovalState
decided none s = s
decided (some d) s = d

unfoldable pub decide_request :
    Text → Option ApprovalState → JoinRequest → Plane → Plane × Result ErrorState ApprovalState
decide_request request_id decision a p =
    if is_pending a.state
    then (
      record p {
        approvals = put request_id (record a { state = decided decision a.state }) p.approvals;
      },
      ok (decided decision a.state),
    )
    else refuse p approval_required

unfoldable pub decide_join_request :
    Text → Text → Option ApprovalState → Plane → Plane × Result ErrorState ApprovalState
decide_join_request actor_id request_id decision p = elim (get request_id p.approvals) [
  | none ↦ refuse p session_unavailable
  | some a ↦ elim (get a.room_id p.rooms) [
    | none ↦ refuse p session_unavailable
    | some room ↦
        if host_may (action_for_decision decision) actor_id room
        then decide_request request_id decision a p
        else refuse p session_unavailable
  ]
]

-- The arguments of `issueSession`.
pub record SessionClaim : Type 0 where
  pub request_id : Text
  pub room_id : Text
  pub invite_id : Text
  pub minecraft_uuid : Text

-- `identityBound`, on the request and its invite.
unfoldable pub identity_bound : ℕ → SessionClaim → JoinRequest → Invite → Bool
identity_bound now c a invite =
    is_approved a.state
    && a.room_id == c.room_id
    && a.invite_id == c.invite_id
    && a.minecraft_uuid == c.minecraft_uuid
    && not a.session_issued
    && is_invite_active now invite

pub record Grant : Type 0 where
  pub session_id : Text
  pub expires_at : ℕ

unfoldable pub new_session : ℕ → String → SessionClaim → Plane → Session
new_session now uuid c p = record {
  id = str (append "session_" uuid);
  room_id = c.room_id;
  invite_id = c.invite_id;
  request_id = c.request_id;
  minecraft_uuid = c.minecraft_uuid;
  state = SessionState.issued;
  issued_at = now;
  expires_at = now + p.config.session_ttl_ms;
}

unfoldable pub grant_session :
    ℕ → String → SessionClaim → JoinRequest → Plane → Plane × Result ErrorState Grant
unfolding new_session
grant_session now uuid c a p =
    let session = new_session now uuid c p in
    (
      record p {
        approvals = put c.request_id (record a { session_issued = true }) p.approvals;
        sessions = put session.id session p.sessions;
      },
      ok (record { session_id = session.id; expires_at = session.expires_at }),
    )

-- The request, its room and its invite, if all three are there.
unfoldable pub claim_parts : SessionClaim → Plane → Option (JoinRequest × Room × Invite)
claim_parts c p = elim (get c.request_id p.approvals) [
  | none ↦ none
  | some a ↦ elim (get a.room_id p.rooms) [
    | none ↦ none
    | some room ↦ elim (get a.invite_id p.invites) [
      | none ↦ none
      | some invite ↦ some (a, room, invite)
    ]
  ]
]

-- The guards on the parts that were found, and the issue.
unfoldable pub issue_for :
    ℕ
    → String
    → SessionClaim
    → JoinRequest
    → Room
    → Invite
    → Plane
    → Plane × Result ErrorState Grant
unfolding can_actor_perform
issue_for now uuid c a room invite p =
    let bound = identity_bound now c a invite in
    if bound && not (is_host_online now room p)
    then refuse p room_closed
    else if can_actor_perform Actor.service Action.issue_session
        (record no_context { authorized_approval = bound && is_host_online now room p })
    then grant_session now uuid c a p
    else refuse p session_unavailable

unfoldable pub issue_session : ℕ → String → SessionClaim → Plane → Plane × Result ErrorState Grant
issue_session now uuid c p = elim (claim_parts c p) [
  | none ↦ refuse p session_unavailable
  | some (a, room, invite) ↦ issue_for now uuid c a room invite p
]

pub record SessionView : Type 0 where
  pub room_id : Text
  pub minecraft_uuid : Text
  pub expires_at : ℕ

unfoldable pub read_session : ℕ → Text → Plane → Result ErrorState SessionView
read_session now session_id p = elim (get session_id p.sessions) [
  | none ↦ err session_unavailable
  | some s ↦
      if ltb now s.expires_at && is_issued s.state
      then ok (record {
        room_id = s.room_id;
        minecraft_uuid = s.minecraft_uuid;
        expires_at = s.expires_at;
      })
      else err session_unavailable
]
