-- ===== src/Transport/Selection.antt =====
-- How a room is reached: over a direct candidate that is safe, or else over the relay.
use easy_mc_server.Prelude.{
  ℕ, Bool, false, not, ◌&&◌, ◌||◌, Option, none, some, List, Text, undefined, str, ◌==◌, filter,
  find, any, Result, ok, err, if◌then◌else◌,
}
use easy_mc_server.Transport.Exchange.{
  Candidate, Exchange, SelectionReason, direct, relay, home_network, restricted_network,
  active_candidates_for_room,
}

pub data PrivacyCopy : Type 0 where
  direct_privacy direct_no_fallback_privacy relay_fallback : PrivacyCopy

pub record Selection : Type 0 where
  pub path : Text
  pub reason : SelectionReason
  pub candidate_id : Text
  pub participant_id : Text
  pub direct_attempt_timeout_ms : ℕ
  pub fallback_path : Text
  pub failed_candidate_id : Text
  pub direct_attempt : Text
  pub join_failure : Bool
  pub privacy_copy : PrivacyCopy

unfoldable pub is_direct : Candidate → Bool
is_direct c = c.path == direct

unfoldable pub is_safe_direct_candidate : Candidate → Bool
is_safe_direct_candidate c =
    c.path == direct && c.network_type == home_network && c.direct_allowed && not c.restricted

unfoldable pub is_restricted_direct_candidate : Candidate → Bool
is_restricted_direct_candidate c =
    c.path == direct
    && (c.network_type == restricted_network || c.restricted || not c.direct_allowed)

unfoldable pub relay_selection : SelectionReason → ℕ → Text → Selection
relay_selection reason timeout failed_candidate_id = record {
  path = relay;
  reason = reason;
  candidate_id = undefined;
  participant_id = undefined;
  direct_attempt_timeout_ms = timeout;
  fallback_path = undefined;
  failed_candidate_id = failed_candidate_id;
  direct_attempt = undefined;
  join_failure = false;
  privacy_copy = PrivacyCopy.relay_fallback;
}

unfoldable pub direct_selection : Candidate → Bool → ℕ → Selection
direct_selection c relay_available timeout = record {
  path = direct;
  reason = SelectionReason.safe_direct_candidate;
  candidate_id = c.id;
  participant_id = c.participant_id;
  direct_attempt_timeout_ms = timeout;
  fallback_path = if relay_available then relay else undefined;
  failed_candidate_id = undefined;
  direct_attempt = undefined;
  join_failure = false;
  privacy_copy =
      if relay_available
      then PrivacyCopy.direct_privacy
      else PrivacyCopy.direct_no_fallback_privacy;
}

-- The choice among the candidates of the room that are alive.
unfoldable pub choose : List Candidate → Bool → ℕ → Result SelectionReason Selection
choose candidates relay_available timeout =
    let direct_candidates = filter is_direct candidates in
    elim (find is_safe_direct_candidate direct_candidates) [
      | some c ↦ ok (direct_selection c relay_available timeout)
      | none ↦
          if not relay_available
          then err SelectionReason.relay_unavailable
          else ok (
              relay_selection
                (if any is_restricted_direct_candidate direct_candidates
                  then SelectionReason.restricted_network_fallback
                  else SelectionReason.no_safe_direct_candidate)
                timeout undefined)
    ]

unfoldable pub select_transport :
    ℕ → Text → Bool → Exchange → Exchange × Result SelectionReason Selection
select_transport now room_id relay_available e =
    let (e', candidates) = active_candidates_for_room now room_id e in
    (e', choose candidates relay_available e.direct_attempt_timeout_ms)

-- `resolveDirectAttempt`. The selection is what a caller hands in: none, a refusal, or a selection.
unfoldable pub resolve_direct_attempt :
    Option (Result SelectionReason Selection)
    → Text
    → Bool
    → Exchange
    → Result SelectionReason Selection
resolve_direct_attempt none outcome relay_available e =
    ok (
      relay_selection SelectionReason.no_safe_direct_candidate e.direct_attempt_timeout_ms
        undefined)
resolve_direct_attempt (some (err reason)) outcome relay_available e = err reason
resolve_direct_attempt (some (ok s)) outcome relay_available e =
    if not (s.path == direct)
    then ok s
    else if outcome == str "connected"
    then ok (record s { direct_attempt = str "connected"; join_failure = false })
    else if not relay_available
    then err SelectionReason.relay_unavailable
    else ok (
        relay_selection SelectionReason.direct_failed_relay_fallback e.direct_attempt_timeout_ms
          s.candidate_id)
