-- ===== src/Simulation/Proofs/Tests.antt =====
-- A control plane at work: host h1 opens a room and an invite, a friend asks, the host approves, and
-- a session is issued. The theorems on the control plane are applied to it.
use easy_mc_server.Prelude.{
  ℕ, ◌+◌, ◌≡◌, ◌≢◌, ◌↔◌, refl, true, false, if◌then◌else◌, ltb, some, List, [], ◌∷◌, Text, str,
  ◌==◌, ==_iff, truthy, ok, err,
}
use easy_mc_server.Prelude.Map.{get, put}
use easy_mc_server.Protocol.{
  Actor, Action, Context, no_context, can_actor_perform, ApprovalState, InviteState, SafeStatus,
  session_unavailable, invite_unavailable, RoomState,
}
use easy_mc_server.Protocol.Permissions.{Permitted, can_actor_perform_iff}
use easy_mc_server.Simulation.State.{
  Plane, Config, Room, Invite, JoinRequest, default_config, init, create_room, host_may,
  is_host_online,
}
use easy_mc_server.Simulation.Invites.{
  create_invite, issue_invite, revoke_invite, resolve_invite_by_token, is_invite_active,
  read_safe_invite_status,
}
use easy_mc_server.Simulation.Requests.{
  SessionClaim, create_join_request, admission, new_request, decide_join_request, decide_request,
  action_for_decision, read_approval_queue, issue_session, issue_for, claim_parts, identity_bound,
  grant_session, read_session,
}
use easy_mc_server.Simulation.Run.{
  Call, creates_room, creates_invite, revokes, asks, decides, issues, step, run, AreFresh,
}
use easy_mc_server.Simulation.Proofs.Sessions.{IsSound, run-IsSound}
use easy_mc_server.Simulation.Proofs.Decisions.{decision_is_final, only_the_host}
use easy_mc_server.Simulation.Proofs.Issuing.{
  is_ok, Entitled, issue_session_iff, issue_session-read,
}
use easy_mc_server.Simulation.Proofs.Revocation.{revoked_for_good}

abbrev context : Context
context = record no_context { room_host_id = str "h1"; actor_id = str "h1" }

can_actor_perform_iff_example :
    (can_actor_perform Actor.host Action.approve_join context ≡ true)
    ↔ Permitted context Actor.host Action.approve_join
can_actor_perform_iff_example = can_actor_perform_iff Actor.host Action.approve_join context

abbrev config : Config
config = default_config (λ t. t)

abbrev room_id : Text
room_id = str "room_1"

abbrev request_id : Text
request_id = str "approval_1"

abbrev invite_id : Text
invite_id = str "invite_1"

abbrev approved_calls : List (ℕ × Call)
approved_calls =
    (1, creates_room "1" (str "h1") (str "cave") (str "1.21") (str "pack"))
    ∷ (2, creates_invite "1" "1" (str "h1") room_id (str "token"))
    ∷ (3, asks "1" (str "token") (str "f1") (str "u1") (str "Fox"))
    ∷ (4, decides (str "h1") request_id (some ApprovalState.approved))
    ∷ []

abbrev claim : SessionClaim
claim = record {
  request_id = request_id;
  room_id = room_id;
  invite_id = invite_id;
  minecraft_uuid = str "u1";
}

abbrev late_calls : List (ℕ × Call)
late_calls =
    (5, issues "1" claim)
    ∷ (6, decides (str "h1") request_id (some ApprovalState.denied))
    ∷ (7, revokes (str "h1") invite_id)
    ∷ []

unfoldable plane : Plane
unfolding run step create_room create_invite issue_invite create_join_request admission
    resolve_invite_by_token is_invite_active is_host_online new_request decide_join_request
    decide_request action_for_decision host_may can_actor_perform get put ◌==◌ truthy
plane = run (init config) approved_calls

approved_calls-AreFresh : AreFresh (init config) approved_calls
unfolding run step create_room create_invite issue_invite create_join_request admission
    resolve_invite_by_token is_invite_active is_host_online new_request decide_join_request
    decide_request action_for_decision host_may can_actor_perform get put ◌==◌ truthy
approved_calls-AreFresh = (refl, (refl, (refl, (tt, tt))))

run-IsSound_example : IsSound (run (init config) approved_calls)
run-IsSound_example = run-IsSound config approved_calls approved_calls-AreFresh

abbrev request : JoinRequest
request = record {
  id = request_id;
  room_id = room_id;
  invite_id = invite_id;
  friend_id = str "f1";
  minecraft_uuid = str "u1";
  display_name = str "Fox";
  state = ApprovalState.approved;
  created_at = 3;
  session_issued = false;
}

late_calls-AreFresh : AreFresh plane late_calls
unfolding plane get
late_calls-AreFresh = (refl, (tt, (tt, tt)))

plane-request : get request_id plane.approvals ≡ some request
unfolding plane get
plane-request = refl

decision_is_final_example :
    (b : JoinRequest) × (get request_id (run plane late_calls).approvals ≡ some b)
    × (b.state ≡ ApprovalState.approved)
decision_is_final_example =
    decision_is_final request_id ApprovalState.approved plane late_calls (λ e. cc e)
      late_calls-AreFresh (request, plane-request, refl)

abbrev cave : Room
cave = record {
  id = room_id;
  host_id = str "h1";
  alias = str "cave";
  minecraft_version = str "1.21";
  pack_profile_name = str "pack";
  state = RoomState.opened;
  created_at = 1;
  host_last_seen_at = 1;
}

abbrev invite : Invite
invite = record {
  id = invite_id;
  room_id = room_id;
  token_hash = str "token";
  state = InviteState.active;
  created_at = 2;
  expires_at = 86400002;
}

plane-room : get room_id plane.rooms ≡ some cave
unfolding plane get
plane-room = refl

plane-invite : get invite_id plane.invites ≡ some invite
unfolding plane get
plane-invite = refl

hosts_differ : str "h1" ≢ str "h2"
unfolding ◌==◌
hosts_differ e = cc ((==_iff (str "h1") (str "h2")).1 e)

only_the_host_example :
    (create_invite 9 "2" "2" (str "h2") room_id (str "t2") plane ≡ (plane, err session_unavailable))
    × (revoke_invite (str "h2") invite_id plane ≡ (plane, err invite_unavailable))
    × (decide_join_request (str "h2") request_id (some ApprovalState.denied) plane
        ≡ (plane, err session_unavailable))
    × (read_approval_queue (str "h2") room_id plane ≡ err session_unavailable)
only_the_host_example =
    only_the_host room_id cave (str "h2") plane invite_id invite request_id request 9 "2" "2"
      (str "t2") (some ApprovalState.denied) plane-room hosts_differ plane-invite refl plane-request
      refl

issue_session_iff_example :
    (is_ok (issue_session 9 "1" claim plane).1 ≡ true) ↔ Entitled 9 claim plane
issue_session_iff_example = issue_session_iff 9 "1" claim plane

issues-claim : is_ok (issue_session 9 "1" claim plane).1 ≡ true
unfolding plane issue_session claim_parts issue_for identity_bound is_invite_active is_host_online
    can_actor_perform grant_session get ◌==◌
issues-claim = refl

issue_session-read_example :
    read_session 10 (str "session_1") (issue_session 9 "1" claim plane).0 ≡ (
      if ltb 10 (9 + plane.config.session_ttl_ms)
      then ok (record {
        room_id = room_id;
        minecraft_uuid = str "u1";
        expires_at = 9 + plane.config.session_ttl_ms;
      })
      else err session_unavailable)
issue_session-read_example = issue_session-read 9 10 "1" claim plane issues-claim

abbrev revoked : Plane
revoked = record plane {
  invites = put invite_id (record invite { state = InviteState.revoked }) plane.invites;
}

abbrev after_revoke : List (ℕ × Call)
after_revoke = (9, asks "2" (str "token") (str "f2") (str "u2") (str "Owl")) ∷ []

after_revoke-AreFresh : AreFresh revoked after_revoke
unfolding plane get
after_revoke-AreFresh = (refl, tt)

after_revoke-token : get (str "token") (run revoked after_revoke).raw_tokens ≡ some invite_id
unfolding plane run step create_join_request admission resolve_invite_by_token is_invite_active get
    put ◌==◌ truthy
after_revoke-token = refl

revoked_for_good_example :
    let p' = run revoked after_revoke in
    (create_join_request 10 "3" (str "token") (str "f2") (str "u2") (str "Owl") p'
      ≡ (p', err invite_unavailable))
    × (read_safe_invite_status 10 (str "token") p' ≡ SafeStatus.unavailable)
    × (is_ok (issue_session 10 "3" claim p').1 ≡ false)
unfolding plane
revoked_for_good_example =
    revoked_for_good invite_id revoked after_revoke 10
      (record invite { state = InviteState.revoked }) (str "token") "3" (str "f2") (str "u2")
      (str "Owl") claim (unfold get put ◌==◌ in refl) refl after_revoke-AreFresh after_revoke-token
      refl
