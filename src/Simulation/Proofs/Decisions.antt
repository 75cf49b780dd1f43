-- ===== src/Simulation/Proofs/Decisions.antt =====
-- A decision is final, and only the host of the room makes it.
use easy_mc_server.Prelude.{
  ℕ, String, ◌≡◌, ◌≢◌, refl, ◌∙◌, ap, true, false, Option, some, List, Text, str, ◌==◌, ==_iff, err,
  inl, inr, Bool-cases, arith,
}
use Prim.Native.String.{◌++◌ as append}
use easy_mc_server.Prelude.Map.{Map, get}
use easy_mc_server.Prelude.Map.Laws.{get-put}
use easy_mc_server.Protocol.{Action, session_unavailable, invite_unavailable, ApprovalState}
use easy_mc_server.Simulation.State.{
  Plane, Room, Invite, JoinRequest, create_room, heartbeat_host, host_may,
}
use easy_mc_server.Simulation.Invites.{create_invite, issue_invite, revoke_invite}
use easy_mc_server.Simulation.Requests.{
  SessionClaim, new_request, decide_join_request, decide_request, is_pending, grant_session,
  read_approval_queue, action_for_decision,
}
use easy_mc_server.Simulation.Run.{
  Call, creates_room, heartbeats, creates_invite, revokes, asks, decides, issues, step, run,
  IsFresh, AreFresh, run_induction,
}
use easy_mc_server.Simulation.Proofs.Cases.{
  issue_session_cases, decide_join_request_cases, create_join_request_cases,
}
use easy_mc_server.Simulation.Proofs.Sessions.{claim_parts-request}

-- The request is there, and was decided so.
abbrev pub HasDecision : Text → ApprovalState → Plane → Type 0
HasDecision k d p = (a : JoinRequest) × (get k p.approvals ≡ some a) × (a.state ≡ d)

keep_requests :
    (m m' : Map JoinRequest) (k : Text) (d : ApprovalState)
    → m' ≡ m
    → (a : JoinRequest) × (get k m ≡ some a) × (a.state ≡ d)
    → (a : JoinRequest) × (get k m' ≡ some a) × (a.state ≡ d)
keep_requests m m' k d e (a, at, s) = (a, ap (get k) e ∙ at, s)

decide_request-HasDecision :
    (k request : Text) (d : ApprovalState) (x : Option ApprovalState) (a : JoinRequest) (p : Plane)
    → is_pending d ≡ false
    → get request p.approvals ≡ some a
    → HasDecision k d p
    → HasDecision k d (decide_request request x a p).0
unfolding decide_request
decide_request-HasDecision k request d x a p final found (b, at, s) =
    elim (Bool-cases (is_pending a.state)) [
      | inr c ↦ rw (c, decide_request) (b, at, s)
      | inl c ↦ rw (c, decide_request) (b, rw get-put (ground (arith, ==_iff request k)), s)
    ]

grant_session-HasDecision :
    (now : ℕ) (uuid : String) (c : SessionClaim) (k : Text) (d : ApprovalState) (a : JoinRequest)
    (p : Plane)
    → get c.request_id p.approvals ≡ some a
    → HasDecision k d p
    → HasDecision k d (grant_session now uuid c a p).0
unfolding grant_session
grant_session-HasDecision now uuid c k d a p found (b, at, s) =
    elim (Bool-cases (c.request_id == k)) [
      | inl hit ↦ (
        record b { session_issued = true },
        rw get-put (ground (arith, ==_iff c.request_id k)),
        s,
      )
      | inr miss ↦ (b, rw get-put (ground arith), s)
    ]

step-HasDecision :
    (k : Text) (d : ApprovalState) (p : Plane) (c : ℕ × Call)
    → is_pending d ≡ false
    → IsFresh c p
    → HasDecision k d p
    → HasDecision k d (step p c)
unfolding step create_room heartbeat_host create_invite issue_invite revoke_invite new_request
step-HasDecision k d p (now, creates_room uuid host alias version pack) final fresh h =
    keep_requests p.approvals _ k d refl h
step-HasDecision k d p (now, heartbeats actor room) final fresh h =
    keep_requests p.approvals _ k d (ground arith) h
step-HasDecision k d p (now, creates_invite uuid handle actor room token) final fresh h =
    keep_requests p.approvals _ k d (ground arith) h
step-HasDecision k d p (now, revokes actor invite) final fresh h =
    keep_requests p.approvals _ k d (ground arith) h
step-HasDecision k d p (now, asks uuid token friend player name) final fresh h =
    let id = str (append "approval_" uuid) in
    create_join_request_cases now uuid token friend player name p (λ x. HasDecision k d x.0)
      (λ e. h) (λ invite room _. (h.0, rw get-put (ground (arith, h.1, ==_iff id k)), h.2))
step-HasDecision k d p (now, decides actor request x) final fresh h =
    decide_join_request_cases actor request x p (λ y. HasDecision k d y.0) (λ e. h)
      (λ a room found _ _. decide_request-HasDecision k request d x a p final found h)
step-HasDecision k d p (now, issues uuid c) final fresh h =
    issue_session_cases now uuid c p (λ y. HasDecision k d y.0) (λ e. h)
      (λ a room invite parts _ _.
        grant_session-HasDecision now uuid c k d a p (claim_parts-request c p a room invite parts)
          h)

-- Once a request is decided, its state is the same after any history of calls with fresh uuids.
pub decision_is_final :
    (k : Text) (d : ApprovalState) (p : Plane) (calls : List (ℕ × Call))
    → d ≢ ApprovalState.pending
    → AreFresh p calls
    → (a : JoinRequest) × (get k p.approvals ≡ some a) × (a.state ≡ d)
    → (b : JoinRequest) × (get k (run p calls).approvals ≡ some b) × (b.state ≡ d)
decision_is_final k d p calls final fresh =
    run_induction (HasDecision k d) (λ q c f. step-HasDecision k d q c (ground arith) f) p calls
      fresh

host_may-host :
    (action : Action) (actor : Text) (room : Room)
    → room.host_id ≢ actor
    → host_may action actor room ≡ false
unfolding host_may
host_may-host action actor room h = ground (arith, ==_iff room.host_id actor)

-- On a room of another host, an actor cannot create an invite, revoke one, decide a request or read
-- the queue: each is refused, and nothing changes.
pub only_the_host :
    (room : Text) (r : Room) (actor : Text) (p : Plane) (k : Text) (i : Invite) (q : Text)
    (a : JoinRequest) (now : ℕ) (uuid handle : String) (token : Text) (d : Option ApprovalState)
    → get room p.rooms ≡ some r
    → r.host_id ≢ actor
    → get k p.invites ≡ some i
    → i.room_id ≡ room
    → get q p.approvals ≡ some a
    → a.room_id ≡ room
    → (create_invite now uuid handle actor room token p ≡ (p, err session_unavailable))
      × (revoke_invite actor k p ≡ (p, err invite_unavailable))
      × (decide_join_request actor q d p ≡ (p, err session_unavailable))
      × (read_approval_queue actor room p ≡ err session_unavailable)
unfolding create_invite revoke_invite decide_join_request read_approval_queue
only_the_host room r actor p k i q a now uuid handle token d found other at in_room asked of_room =
    (
      ground (arith, host_may-host Action.create_invite actor r other),
      ground (arith, host_may-host Action.revoke_invite actor r other),
      ground (arith, host_may-host (action_for_decision d) actor r other),
      ground (arith, host_may-host Action.read_approval_queue actor r other),
    )
