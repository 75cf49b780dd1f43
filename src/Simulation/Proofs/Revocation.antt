-- ===== src/Simulation/Proofs/Revocation.antt =====
-- A revoked invite lets nobody in, whatever happens later.
use easy_mc_server.Prelude.{
  ℕ, String, ◌≡◌, refl, ap, ◌∙◌, false, none, some, List, Text, str, ◌==◌, ==_iff, err, inl, inr,
  Bool-cases, Option-cases, ◌⊎◌, arith,
}
use Prim.Native.String.{◌++◌ as append}
use easy_mc_server.Prelude.Map.{Map, get, put}
use easy_mc_server.Prelude.Map.Laws.{get-put}
use easy_mc_server.Protocol.{
  Action, InviteState, invite_unavailable, SafeStatus, redact_invite_status,
}
use easy_mc_server.Simulation.State.{Plane, Invite, create_room, heartbeat_host, host_may}
use easy_mc_server.Simulation.Invites.{
  create_invite, issue_invite, revoke_invite, resolve_invite_by_token, is_invite_active,
  read_safe_invite_status,
}
use easy_mc_server.Simulation.Requests.{
  SessionClaim, create_join_request, admission, decide_request, issue_session, grant_session,
}
use easy_mc_server.Simulation.Run.{
  Call, creates_room, heartbeats, creates_invite, revokes, asks, decides, issues, step, run,
  IsFresh, AreFresh, run_induction,
}
use easy_mc_server.Simulation.Proofs.Cases.{
  issue_session_cases, decide_join_request_cases, create_join_request_cases,
}
use easy_mc_server.Simulation.Proofs.Issuing.{is_ok, identity_bound-parts, claim_parts-at}

abbrev pub IsRevoked : Text → Plane → Type 0
IsRevoked k p = (i : Invite) × (get k p.invites ≡ some i) × (i.state ≡ InviteState.revoked)

keep_invites :
    (m m' : Map Invite) (k : Text)
    → m' ≡ m
    → (i : Invite) × (get k m ≡ some i) × (i.state ≡ InviteState.revoked)
    → (i : Invite) × (get k m' ≡ some i) × (i.state ≡ InviteState.revoked)
keep_invites m m' k e (i, at, s) = (i, ap (get k) e ∙ at, s)

issue_invite-IsRevoked :
    (k : Text) (now : ℕ) (uuid handle : String) (room token : Text) (p : Plane)
    → get (str (append "invite_" uuid)) p.invites ≡ none
    → IsRevoked k p
    → IsRevoked k (issue_invite now uuid handle room token p).0
unfolding issue_invite
issue_invite-IsRevoked k now uuid handle room token p fresh (i, at, s) =
    let id = str (append "invite_" uuid) in (i, rw get-put (ground (arith, ==_iff id k)), s)

create_invite-IsRevoked :
    (k : Text) (now : ℕ) (uuid handle : String) (actor room token : Text) (p : Plane)
    → get (str (append "invite_" uuid)) p.invites ≡ none
    → IsRevoked k p
    → IsRevoked k (create_invite now uuid handle actor room token p).0
unfolding create_invite
create_invite-IsRevoked k now uuid handle actor room token p fresh h =
    elim (Option-cases (get room p.rooms)) [
      | inl e ↦ rw (e, create_invite) h
      | inr (r, e) ↦
          rw (e, create_invite)
            (elim (Bool-cases (host_may Action.create_invite actor r)) [
              | inr m ↦ rw m h
              | inl m ↦ rw m (issue_invite-IsRevoked k now uuid handle room token p fresh h)
            ])
    ]

put-revoked :
    (k id : Text) (x : Invite) (m : Map Invite)
    → (i : Invite) × (get k m ≡ some i) × (i.state ≡ InviteState.revoked)
    → (i : Invite) × (get k (put id (record x { state = InviteState.revoked }) m) ≡ some i)
      × (i.state ≡ InviteState.revoked)
put-revoked k id x m (i, at, s) = elim (Bool-cases (id == k)) [
  | inl hit ↦ (record x { state = InviteState.revoked }, rw get-put (ground arith), refl)
  | inr miss ↦ (i, rw get-put (ground arith), s)
]

revoke_invite-IsRevoked :
    (k actor invite : Text) (p : Plane)
    → IsRevoked k p
    → IsRevoked k (revoke_invite actor invite p).0
unfolding revoke_invite
revoke_invite-IsRevoked k actor invite p h = elim (Option-cases (get invite p.invites)) [
  | inl e ↦ rw (e, revoke_invite) h
  | inr (x, e) ↦
      rw (e, revoke_invite)
        (elim (Option-cases (get x.room_id p.rooms)) [
          | inl f ↦ rw f h
          | inr (r, f) ↦ rw f (elim (Bool-cases (host_may Action.revoke_invite actor r)) [
            | inr m ↦ rw m h
            | inl m ↦ rw m (put-revoked k invite x p.invites h)
          ])
        ])
]

step-IsRevoked :
    (k : Text) (p : Plane) (c : ℕ × Call) → IsFresh c p → IsRevoked k p → IsRevoked k (step p c)
unfolding step create_room heartbeat_host decide_request grant_session
step-IsRevoked k p (now, creates_room uuid host alias version pack) fresh h = h
step-IsRevoked k p (now, heartbeats actor room) fresh h =
    keep_invites p.invites _ k (ground arith) h
step-IsRevoked k p (now, creates_invite uuid handle actor room token) fresh h =
    create_invite-IsRevoked k now uuid handle actor room token p fresh h
step-IsRevoked k p (now, revokes actor invite) fresh h = revoke_invite-IsRevoked k actor invite p h
step-IsRevoked k p (now, asks uuid token friend player name) fresh h =
    create_join_request_cases now uuid token friend player name p (λ x. IsRevoked k x.0) (λ e. h)
      (λ invite room _. h)
step-IsRevoked k p (now, decides actor request x) fresh h =
    decide_join_request_cases actor request x p (λ y. IsRevoked k y.0) (λ e. h)
      (λ a room found _ _. keep_invites p.invites _ k (ground arith) h)
step-IsRevoked k p (now, issues uuid c) fresh h =
    issue_session_cases now uuid c p (λ y. IsRevoked k y.0) (λ e. h) (λ a room invite parts _ _. h)

IsRevoked-resolve :
    (now : ℕ) (k token : Text) (p : Plane) (i : Invite)
    → get k p.invites ≡ some i
    → i.state ≡ InviteState.revoked
    → get (p.config.hash token) p.raw_tokens ≡ some k
    → (resolve_invite_by_token token p ≡ none)
      ⊎ ((resolve_invite_by_token token p ≡ some i) × (is_invite_active now i ≡ false))
unfolding resolve_invite_by_token is_invite_active
IsRevoked-resolve now k token p i at s e = ground arith

IsRevoked-asking :
    (now : ℕ) (k token : Text) (uuid : String) (friend player name : Text) (p : Plane)
    → IsRevoked k p
    → get (p.config.hash token) p.raw_tokens ≡ some k
    → create_join_request now uuid token friend player name p ≡ (p, err invite_unavailable)
unfolding create_join_request admission
IsRevoked-asking now k token uuid friend player name p (i, at, s) e =
    elim (IsRevoked-resolve now k token p i at s e) [
      | inl n ↦ rw (n, create_join_request) refl
      | inr (x, y) ↦ rw (x, create_join_request) (rw y refl)
    ]

IsRevoked-reading :
    (now : ℕ) (k token : Text) (p : Plane)
    → IsRevoked k p
    → get (p.config.hash token) p.raw_tokens ≡ some k
    → read_safe_invite_status now token p ≡ SafeStatus.unavailable
unfolding read_safe_invite_status redact_invite_status
IsRevoked-reading now k token p (i, at, s) e = elim (IsRevoked-resolve now k token p i at s e) [
  | inl n ↦ rw (n, read_safe_invite_status) refl
  | inr (x, y) ↦ rw (x, read_safe_invite_status) (rw y refl)
]

IsRevoked-issuing :
    (now : ℕ) (k : Text) (uuid : String) (c : SessionClaim) (p : Plane)
    → IsRevoked k p
    → c.invite_id ≡ k
    → is_ok (issue_session now uuid c p).1 ≡ false
IsRevoked-issuing now k uuid c p (i, at, s) e =
    issue_session_cases now uuid c p (λ y. is_ok y.1 ≡ false) (λ x. refl)
      (λ a room invite parts bound _.
        let b = (identity_bound-parts now c a invite).0 bound in
        let found = (claim_parts-at c p a room invite).0 parts in cc (at, s, e, b.2, b.5, found.2))

-- Once an invite is revoked, and after any history of calls with fresh uuids, a join request with a
-- token of it is refused and changes nothing, the token reads as unavailable, and no session is
-- issued for the invite.
pub revoked_for_good :
    (k : Text) (p : Plane) (calls : List (ℕ × Call)) (now : ℕ) (i : Invite) (token : Text)
    (uuid : String) (friend player name : Text) (c : SessionClaim)
    → get k p.invites ≡ some i
    → i.state ≡ InviteState.revoked
    → AreFresh p calls
    → get ((run p calls).config.hash token) (run p calls).raw_tokens ≡ some k
    → c.invite_id ≡ k
    → let p' = run p calls in
      (create_join_request now uuid token friend player name p' ≡ (p', err invite_unavailable))
      × (read_safe_invite_status now token p' ≡ SafeStatus.unavailable)
      × (is_ok (issue_session now uuid c p').1 ≡ false)
revoked_for_good k p calls now i token uuid friend player name c at s fresh t e =
    let r = run_induction (IsRevoked k) (step-IsRevoked k) p calls fresh (i, at, s) in
    (
      IsRevoked-asking now k token uuid friend player name (run p calls) r t,
      IsRevoked-reading now k token (run p calls) r t,
      IsRevoked-issuing now k uuid c (run p calls) r e,
    )
