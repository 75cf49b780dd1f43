-- ===== src/Simulation/Run.antt =====
-- A history of calls on the control plane, each with its time and its uuids.
use easy_mc_server.Prelude.{ℕ, String, ◌≡◌, Option, none, List, [], ◌∷◌, Text, str}
use Prim.Native.String.{◌++◌ as append}
use easy_mc_server.Prelude.Map.{get}
use easy_mc_server.Protocol.{ApprovalState}
use easy_mc_server.Simulation.State.{Plane, create_room, heartbeat_host}
use easy_mc_server.Simulation.Invites.{create_invite, revoke_invite}
use easy_mc_server.Simulation.Requests.{
  SessionClaim, create_join_request, decide_join_request, issue_session,
}

pub data Call : Type 0 where
  creates_room : String → Text → Text → Text → Text → Call
  heartbeats : Text → Text → Call
  creates_invite : String → String → Text → Text → Text → Call
  revokes : Text → Text → Call
  asks : String → Text → Text → Text → Text → Call
  decides : Text → Text → Option ApprovalState → Call
  issues : String → SessionClaim → Call

unfoldable pub step : Plane → ℕ × Call → Plane
step p (now, creates_room uuid host alias version pack) =
    (create_room now uuid host alias version pack p).0
step p (now, heartbeats actor room) = (heartbeat_host now actor room p).0
step p (now, creates_invite uuid handle actor room token) =
    (create_invite now uuid handle actor room token p).0
step p (now, revokes actor invite) = (revoke_invite actor invite p).0
step p (now, asks uuid token friend player name) =
    (create_join_request now uuid token friend player name p).0
step p (now, decides actor request decision) = (decide_join_request actor request decision p).0
step p (now, issues uuid c) = (issue_session now uuid c p).0

unfoldable pub run : Plane → List (ℕ × Call) → Plane
run p [] = p
run p (c ∷ cs) = run (step p c) cs

-- A uuid names nothing that is there already.
abbrev pub IsFresh : ℕ × Call → Plane → Type 0
IsFresh (now, asks uuid token friend player name) p =
    get (str (append "approval_" uuid)) p.approvals ≡ none
IsFresh (now, creates_invite uuid handle actor room token) p =
    get (str (append "invite_" uuid)) p.invites ≡ none
IsFresh (now, creates_room uuid host alias version pack) p =
    get (str (append "room_" uuid)) p.rooms ≡ none
IsFresh (now, heartbeats actor room) p = Unit
IsFresh (now, revokes actor invite) p = Unit
IsFresh (now, decides actor request decision) p = Unit
IsFresh (now, issues uuid c) p = get (str (append "session_" uuid)) p.sessions ≡ none

abbrev pub AreFresh : Plane → List (ℕ × Call) → Type 0
AreFresh p [] = Unit
AreFresh p (c ∷ cs) = IsFresh c p × AreFresh (step p c) cs

-- What every call with fresh uuids keeps holds after every such history.
pub run_induction {ℓ} :
    (P : Plane → Type ℓ)
    → ((p : Plane) (c : ℕ × Call) → IsFresh c p → P p → P (step p c))
    → (p : Plane) (cs : List (ℕ × Call)) → AreFresh p cs
    → P p
    → P (run p cs)
unfolding run
run_induction P keep p [] fresh h = h
run_induction P keep p (c ∷ cs) fresh h =
    run_induction P keep (step p c) cs fresh.1 (keep p c fresh.0 h)
