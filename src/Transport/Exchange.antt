-- ===== src/Transport/Exchange.antt =====
-- The state of `createTransportCandidateExchange`, the candidates that are submitted to it, and the
-- candidates of a room that are alive. The time is an argument.
use easy_mc_server.Prelude.{
  ℕ, suc, ◌+◌, ◌*◌, Bool, true, false, not, ◌&&◌, Option, none, some, List, [], ◌∷◌, ◌++◌, Text,
  undefined, str, ◌==◌, truthy, or_else, get_or, ltb, filter, length, eqb, Result, ok, err,
  if◌then◌else◌,
}
use Prim.Native.String.{◌++◌ as append}
use easy_mc_server.Prelude.Decimal.{decimal}
use easy_mc_server.Prelude.Map.{Map, get, put}

-- `TransportPaths` and `NetworkTypes`
abbrev pub direct : Text
direct = str "direct"

abbrev pub relay : Text
relay = str "relay"

abbrev pub home_network : Text
home_network = str "home_network"

abbrev pub restricted_network : Text
restricted_network = str "restricted_network"

abbrev pub unknown_network : Text
unknown_network = str "unknown"

-- `CandidateRejectReasons` and `SelectionReasons`
pub data RejectReason : Type 0 where
  invalid_candidate candidate_expired cross_room : RejectReason

pub data SelectionReason : Type 0 where
  safe_direct_candidate restricted_network_fallback no_safe_direct_candidate : SelectionReason
  direct_failed_relay_fallback relay_unavailable : SelectionReason

pub record Candidate : Type 0 where
  pub id : Text
  pub room_id : Text
  pub participant_id : Text
  pub path : Text
  pub network_type : Text
  pub direct_allowed : Bool
  pub restricted : Bool
  pub created_at : ℕ
  pub expires_at : ℕ
  pub diagnostics : List Text

-- The candidate as a participant sends it, with times that may be missing. A flag is whether the
-- value is `true`; no list of diagnostics is the empty one.
pub record Submission : Type 0 where
  pub id : Text
  pub room_id : Text
  pub participant_id : Text
  pub path : Text
  pub network_type : Text
  pub direct_allowed : Bool
  pub restricted : Bool
  pub created_at : Option ℕ
  pub expires_at : Option ℕ
  pub diagnostics : List Text

pub record Exchange : Type 0 where
  pub candidate_ttl_ms : ℕ
  pub direct_attempt_timeout_ms : ℕ
  pub candidates_by_room : Map (List Candidate)
  pub next_candidate_id : ℕ

abbrev pub init : ℕ → ℕ → Exchange
init candidate_ttl_ms direct_attempt_timeout_ms = record {
  candidate_ttl_ms = candidate_ttl_ms;
  direct_attempt_timeout_ms = direct_attempt_timeout_ms;
  candidates_by_room = [];
  next_candidate_id = 1;
}

-- The options that are taken if none are given.
abbrev pub default_exchange : Exchange
default_exchange = init (30 * 1000) (2 * 1000)

abbrev pub refuse : {A : Type 0} → Exchange → RejectReason → Exchange × Result RejectReason A
refuse e reason = (e, err reason)

abbrev pub takes_number : Text → Bool
takes_number undefined = true
takes_number (str s) = false

unfoldable pub normalized : ℕ → ℕ → Text → Submission → Exchange → Candidate
normalized created_at expires_at room_id c e = record {
  id = or_else c.id (str (append "candidate_" (decimal e.next_candidate_id)));
  room_id = room_id;
  participant_id = c.participant_id;
  path = c.path;
  network_type = or_else c.network_type unknown_network;
  direct_allowed = c.direct_allowed;
  restricted = c.restricted;
  created_at = created_at;
  expires_at = expires_at;
  diagnostics = c.diagnostics;
}

abbrev pub listed : Text → Exchange → List Candidate
listed room_id e = get_or (get room_id e.candidates_by_room) []

unfoldable pub file_candidate :
    ℕ → ℕ → Text → Submission → Exchange → Exchange × Result RejectReason Candidate
unfolding normalized
file_candidate created_at expires_at room_id c e =
    let n = normalized created_at expires_at room_id c e in
    (
      record e {
        candidates_by_room = put room_id (listed room_id e ++ (n ∷ [])) e.candidates_by_room;
        next_candidate_id =
            if takes_number c.id then suc e.next_candidate_id else e.next_candidate_id;
      },
      ok n,
    )

-- Whether a submission has all that it needs, before its time is looked at.
unfoldable pub is_complete : Text → Submission → Bool
is_complete room_id c =
    truthy room_id && truthy c.room_id && truthy c.participant_id && truthy c.path

-- `submitCandidate`. A candidate that is no object is `none`. The answer is the whole candidate, which
-- `publicCandidate` copies field by field.
unfoldable pub submit_candidate :
    ℕ → Text → Option Submission → Exchange → Exchange × Result RejectReason Candidate
submit_candidate now room_id none e = refuse e RejectReason.invalid_candidate
submit_candidate now room_id (some c) e =
    if not (is_complete room_id c)
    then refuse e RejectReason.invalid_candidate
    else if not (c.room_id == room_id)
    then refuse e RejectReason.cross_room
    else (let created_at = get_or c.created_at now in
        let expires_at = get_or c.expires_at (created_at + e.candidate_ttl_ms) in
        if ltb now expires_at
        then file_candidate created_at expires_at room_id c e
        else refuse e RejectReason.candidate_expired)

abbrev pub is_alive : ℕ → Candidate → Bool
is_alive now c = ltb now c.expires_at

-- `activeCandidatesForRoom`: what has expired is dropped from the state too.
unfoldable pub active_candidates_for_room : ℕ → Text → Exchange → Exchange × List Candidate
active_candidates_for_room now room_id e =
    let candidates = listed room_id e in
    let active = filter (is_alive now) candidates in
    (
      if eqb (length active) (length candidates)
          then e
          else record e { candidates_by_room = put room_id active e.candidates_by_room },
      active,
    )
