-- ===== src/Simulation/Proofs/Sessions.antt =====
-- Every session rests on a request that the host approved, and no request has two.
use easy_mc_server.Prelude.{
  ℕ, ◌≤◌, String, ◌≡◌, refl, sym, subst, ◌∙◌, ap, Bool, true, false, Option, none, some, List, Text,
  ◌==◌, ==_iff, inl, inr, Bool-cases, arith, bit,
}
use easy_mc_server.Prelude.Map.{get, put, count}
use easy_mc_server.Prelude.Map.Laws.{get-put, get-put_self, count-put}
use easy_mc_server.Protocol.{ApprovalState}
use easy_mc_server.Simulation.State.{
  Plane, Config, Room, Invite, JoinRequest, Session, init, create_room, heartbeat_host,
}
use easy_mc_server.Simulation.Invites.{create_invite, issue_invite, revoke_invite}
use easy_mc_server.Simulation.Requests.{
  SessionClaim, create_join_request, new_request, decide_join_request, decide_request, is_pending,
  issue_session, grant_session, claim_parts, identity_bound, new_session,
}
use easy_mc_server.Simulation.Run.{
  Call, creates_room, heartbeats, creates_invite, revokes, asks, decides, issues, step, run,
  IsFresh, AreFresh, run_induction,
}
use easy_mc_server.Simulation.Proofs.Cases.{
  issue_session_cases, decide_join_request_cases, create_join_request_cases,
}

-- A request that holds a session for a player.
pub record Backs (s : Session) (a : JoinRequest) : Type 0 where
  pub approved : a.state ≡ ApprovalState.approved
  pub issued : a.session_issued ≡ true
  pub room : a.room_id ≡ s.room_id
  pub invite : a.invite_id ≡ s.invite_id
  pub player : a.minecraft_uuid ≡ s.minecraft_uuid

abbrev pub IsBacked : Plane → Type 0
IsBacked p =
    (k : Text) (s : Session)
    → get k p.sessions ≡ some s
    → (a : JoinRequest) × (get s.request_id p.approvals ≡ some a) × Backs s a

abbrev pub is_for : Text → Session → Bool
is_for request s = s.request_id == request

abbrev pub has_session : Option JoinRequest → ℕ
has_session none = 0
has_session (some a) = bit a.session_issued

abbrev pub HasSingle : Plane → Type 0
HasSingle p =
    (request : Text) → count (is_for request) p.sessions ≤ has_session (get request p.approvals)

pub record IsSound (p : Plane) : Type 0 where
  pub backed : IsBacked p
  pub single : HasSingle p

-- What a call that issues no session may do to the requests.
record Retains (p p' : Plane) : Type 0 where
  sessions : p'.sessions ≡ p.sessions
  issued :
      (k : Text) (a : JoinRequest)
      → get k p.approvals ≡ some a
      → a.session_issued ≡ true
      → a.state ≡ ApprovalState.approved
      → get k p'.approvals ≡ some a
  counted : (k : Text) → has_session (get k p.approvals) ≤ has_session (get k p'.approvals)

Retains-IsSound : {p p' : Plane} → Retains p p' → IsSound p → IsSound p'
Retains-IsSound {p} {p'} r h = record {
  backed = λ k s found.
      let (a, at, b) = h.backed k s (ap (get k) (sym r.sessions) ∙ found) in
      (a, r.issued s.request_id a at b.issued b.approved, b);
  single = λ k. rw (r.sessions) (omega (arith, h.single k, r.counted k));
}

same_requests :
    {p p' : Plane} → p'.sessions ≡ p.sessions → p'.approvals ≡ p.approvals → Retains p p'
same_requests s a = record {
  sessions = s;
  issued = λ k x e _ _. ap (get k) a ∙ e;
  counted = λ k. rw a (omega arith);
}

-- A new request under an id that is free.
add_request :
    (p : Plane) (id : Text) (a : JoinRequest)
    → get id p.approvals ≡ none
    → Retains p (record p { approvals = put id a p.approvals })
add_request p id a free = record {
  sessions = refl;
  issued = λ k x e i _. rw get-put (ground (arith, ==_iff id k));
  counted = λ k. rw get-put (ground (arith, ==_iff id k));
}

decide_request-Retains :
    (request : Text) (d : Option ApprovalState) (a : JoinRequest) (p : Plane)
    → get request p.approvals ≡ some a
    → Retains p (decide_request request d a p).0
unfolding decide_request
decide_request-Retains request d a p found = elim (Bool-cases (is_pending a.state)) [
  | inr b ↦ rw (b, decide_request) (same_requests refl refl)
  | inl b ↦
      rw (b, decide_request)
        (record {
          sessions = refl;
          issued = λ k x e i s. rw get-put (ground (arith, ==_iff request k));
          counted = λ k. rw get-put (ground (arith, ==_iff request k));
        })
]

-- What `identity_bound` says of a request.
record IsBound (c : SessionClaim) (a : JoinRequest) : Type 0 where
  approved : a.state ≡ ApprovalState.approved
  unissued : a.session_issued ≡ false
  room : a.room_id ≡ c.room_id
  invite : a.invite_id ≡ c.invite_id
  player : a.minecraft_uuid ≡ c.minecraft_uuid

identity_bound-IsBound :
    (now : ℕ) (c : SessionClaim) (a : JoinRequest) (invite : Invite)
    → identity_bound now c a invite ≡ true
    → IsBound c a
unfolding identity_bound
identity_bound-IsBound now c a invite h = record {
  approved = ground arith;
  unissued = ground arith;
  room = ground (arith, ==_iff a.room_id c.room_id);
  invite = ground (arith, ==_iff a.invite_id c.invite_id);
  player = ground (arith, ==_iff a.minecraft_uuid c.minecraft_uuid);
}

module _ (now : ℕ) (uuid : String) (c : SessionClaim) (a : JoinRequest) (p : Plane)
    (found : get c.request_id p.approvals ≡ some a) (bound : IsBound c a) where
  -- The other requests that hold a session stay as they are.
  grant_session-at :
      (k : Text) (b : JoinRequest)
      → get k p.approvals ≡ some b
      → b.session_issued ≡ true
      → get k (put c.request_id (record a { session_issued = true }) p.approvals) ≡ some b
  grant_session-at k b at i = ground (
    arith,
    bound.unissued,
    ==_iff c.request_id k,
    get-put c.request_id k (record a { session_issued = true }) p.approvals,
  )

  grant_session-IsBacked : IsBacked p → IsBacked (grant_session now uuid c a p).0
  unfolding grant_session
  grant_session-IsBacked h k s e =
      let x = new_session now uuid c p in
      let issued = record a { session_issued = true } in
      elim (Bool-cases (x.id == k)) [
        | inl new ↦
            let s-eq : x ≡ s = ground (arith, get-put x.id k x p.sessions) in
            subst
              (λ (y : Session).
                (b : JoinRequest) × (get y.request_id (put c.request_id issued p.approvals)
                  ≡ some b)
                × Backs y b)
              s-eq
              (
                issued,
                get-put_self c.request_id issued p.approvals,
                record {
                  approved = bound.approved;
                  issued = refl;
                  room = bound.room;
                  invite = bound.invite;
                  player = bound.player;
                },
              )
        | inr old ↦
            let (b, at, backs) = h k s (ground (arith, get-put x.id k x p.sessions)) in
            (b, grant_session-at s.request_id b at backs.issued, backs)
      ]

  grant_session-HasSingle : HasSingle p → HasSingle (grant_session now uuid c a p).0
  unfolding grant_session
  grant_session-HasSingle h k =
      let x = new_session now uuid c p in
      let issued = record a { session_issued = true } in
      ground (
        arith,
        h k,
        bound.unissued,
        ==_iff c.request_id k,
        get-put c.request_id k issued p.approvals,
        count-put (is_for k) x.id x p.sessions,
      )

pub claim_parts-request :
    (c : SessionClaim) (p : Plane) (a : JoinRequest) (room : Room) (invite : Invite)
    → claim_parts c p ≡ some (a, room, invite)
    → get c.request_id p.approvals ≡ some a
unfolding claim_parts
claim_parts-request c p a room invite h = ground arith

issue_session-IsSound :
    (now : ℕ) (uuid : String) (c : SessionClaim) (p : Plane)
    → IsSound p
    → IsSound (issue_session now uuid c p).0
issue_session-IsSound now uuid c p h =
    issue_session_cases now uuid c p (λ x. IsSound x.0) (λ e. h)
      (λ a room invite parts bound _.
        let found = claim_parts-request c p a room invite parts in
        let b = identity_bound-IsBound now c a invite bound in
        record {
          backed = grant_session-IsBacked now uuid c a p found b h.backed;
          single = grant_session-HasSingle now uuid c a p found b h.single;
        })

create_room-Retains :
    (now : ℕ) (uuid : String) (host alias version pack : Text) (p : Plane)
    → Retains p (create_room now uuid host alias version pack p).0
unfolding create_room
create_room-Retains now uuid host alias version pack p = same_requests refl refl

heartbeat_host-Retains :
    (now : ℕ) (actor room : Text) (p : Plane) → Retains p (heartbeat_host now actor room p).0
unfolding heartbeat_host
heartbeat_host-Retains now actor room p = same_requests (ground arith) (ground arith)

create_invite-Retains :
    (now : ℕ) (uuid handle : String) (actor room token : Text) (p : Plane)
    → Retains p (create_invite now uuid handle actor room token p).0
unfolding create_invite issue_invite
create_invite-Retains now uuid handle actor room token p =
    same_requests (ground arith) (ground arith)

revoke_invite-Retains :
    (actor invite : Text) (p : Plane) → Retains p (revoke_invite actor invite p).0
unfolding revoke_invite
revoke_invite-Retains actor invite p = same_requests (ground arith) (ground arith)

create_join_request-Retains :
    (now : ℕ) (uuid : String) (token friend player name : Text) (p : Plane)
    → IsFresh (now, asks uuid token friend player name) p
    → Retains p (create_join_request now uuid token friend player name p).0
unfolding new_request
create_join_request-Retains now uuid token friend player name p fresh =
    create_join_request_cases now uuid token friend player name p (λ x. Retains p x.0)
      (λ e. same_requests refl refl)
      (λ invite room _. add_request p _ (new_request now uuid friend player name invite room) fresh)

decide_join_request-Retains :
    (actor request : Text) (d : Option ApprovalState) (p : Plane)
    → Retains p (decide_join_request actor request d p).0
decide_join_request-Retains actor request d p =
    decide_join_request_cases actor request d p (λ x. Retains p x.0) (λ e. same_requests refl refl)
      (λ a room found _ _. decide_request-Retains request d a p found)

step-IsSound : (p : Plane) (c : ℕ × Call) → IsFresh c p → IsSound p → IsSound (step p c)
unfolding step
step-IsSound p (now, creates_room uuid host alias version pack) fresh h =
    Retains-IsSound (create_room-Retains now uuid host alias version pack p) h
step-IsSound p (now, heartbeats actor room) fresh h =
    Retains-IsSound (heartbeat_host-Retains now actor room p) h
step-IsSound p (now, creates_invite uuid handle actor room token) fresh h =
    Retains-IsSound (create_invite-Retains now uuid handle actor room token p) h
step-IsSound p (now, revokes actor invite) fresh h =
    Retains-IsSound (revoke_invite-Retains actor invite p) h
step-IsSound p (now, asks uuid token friend player name) fresh h =
    Retains-IsSound (create_join_request-Retains now uuid token friend player name p fresh) h
step-IsSound p (now, decides actor request d) fresh h =
    Retains-IsSound (decide_join_request-Retains actor request d p) h
step-IsSound p (now, issues uuid c) fresh h = issue_session-IsSound now uuid c p h

-- After any history of calls with fresh uuids on a new plane, every session rests on a request that
-- was approved, is marked as issued, and is for the session's room, invite and player; and a request
-- has at most one session, and none unless it is marked as issued.
pub run-IsSound :
    (config : Config) (calls : List (ℕ × Call))
    → AreFresh (init config) calls
    → IsSound (run (init config) calls)
run-IsSound config calls fresh =
    run_induction IsSound step-IsSound (init config) calls fresh
      (unfold get count in record { backed = λ k s e. cc; single = λ k. omega arith })
