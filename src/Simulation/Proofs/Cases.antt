-- ===== src/Simulation/Proofs/Cases.antt =====
-- How each call of the control plane can end.
use easy_mc_server.Prelude.{
  ℕ, String, ◌≡◌, true, Option, some, Text, Result, ok, err, inl, inr, Bool-cases, Option-cases,
  Result-cases,
}
use easy_mc_server.Prelude.Map.{get, put}
use easy_mc_server.Protocol.{ApprovalState, ErrorState}
use easy_mc_server.Simulation.State.{Plane, Room, Invite, JoinRequest, host_may, is_host_online}
use easy_mc_server.Simulation.Requests.{
  SessionClaim, Grant, admission, create_join_request, new_request, decide_join_request,
  decide_request, action_for_decision, issue_session, issue_for, claim_parts, grant_session,
  identity_bound,
}

module _ {ℓ} (now : ℕ) (uuid : String) (c : SessionClaim) (p : Plane) where
  pub issue_session_cases :
      (P : Plane × Result ErrorState Grant → Type ℓ)
      → ((e : ErrorState) → P (p, err e))
      → ((a : JoinRequest) (room : Room) (invite : Invite)
          → claim_parts c p ≡ some (a, room, invite)
          → identity_bound now c a invite ≡ true
          → is_host_online now room p ≡ true
          → P (grant_session now uuid c a p))
      → P (issue_session now uuid c p)
  unfolding issue_session issue_for
  issue_session_cases P refused granted = elim (Option-cases (claim_parts c p)) [
    | inl e ↦ rw (e, issue_session) (refused _)
    | inr ((a, room, invite), e) ↦
        rw (e, issue_session)
          (elim (Bool-cases (identity_bound now c a invite)) [
            | inr b ↦ rw b (refused _)
            | inl b ↦ rw b (elim (Bool-cases (is_host_online now room p)) [
              | inr h ↦ rw h (refused _)
              | inl h ↦ rw h (granted a room invite e b h)
            ])
          ])
  ]

module _ {ℓ} (actor request : Text) (decision : Option ApprovalState) (p : Plane) where
  pub decide_join_request_cases :
      (P : Plane × Result ErrorState ApprovalState → Type ℓ)
      → ((e : ErrorState) → P (p, err e))
      → ((a : JoinRequest) (room : Room)
          → get request p.approvals ≡ some a
          → get a.room_id p.rooms ≡ some room
          → host_may (action_for_decision decision) actor room ≡ true
          → P (decide_request request decision a p))
      → P (decide_join_request actor request decision p)
  unfolding decide_join_request
  decide_join_request_cases P refused decided = elim (Option-cases (get request p.approvals)) [
    | inl e ↦ rw (e, decide_join_request) (refused _)
    | inr (a, e) ↦
        rw (e, decide_join_request)
          (elim (Option-cases (get a.room_id p.rooms)) [
            | inl f ↦ rw f (refused _)
            | inr (room, f) ↦
                rw f (elim (Bool-cases (host_may (action_for_decision decision) actor room)) [
                  | inr h ↦ rw h (refused _)
                  | inl h ↦ rw h (decided a room e f h)
                ])
          ])
  ]

module _ {ℓ} (now : ℕ) (uuid : String) (token friend player name : Text) (p : Plane) where
  pub create_join_request_cases :
      (P : Plane × Result ErrorState Text → Type ℓ)
      → ((e : ErrorState) → P (p, err e))
      → ((invite : Invite) (room : Room)
          → admission now token p ≡ ok (invite, room)
          → let a = new_request now uuid friend player name invite room in
            P (record p { approvals = put a.id a p.approvals }, ok a.id))
      → P (create_join_request now uuid token friend player name p)
  unfolding create_join_request
  create_join_request_cases P refused asked = elim (Result-cases (admission now token p)) [
    | inl (e, x) ↦ rw (x, create_join_request) (refused e)
    | inr ((invite, room), x) ↦ rw (x, create_join_request) (asked invite room x)
  ]
