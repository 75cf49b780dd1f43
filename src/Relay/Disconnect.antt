-- ===== src/Relay/Disconnect.antt =====
-- `disconnectStream`: a bounded number of attempts, of which the caller says how many fail.
use easy_mc_server.Prelude.{
  ℕ, zero, suc, ◌+◌, Bool, true, false, none, some, List, [], ◌∷◌, ◌++◌, Text, str, leb, max,
  Result, ok, err, if◌then◌else◌,
}
use easy_mc_server.Prelude.Map.{get, put}
use easy_mc_server.Relay.State.{
  Reason, unauthenticated, disconnect_retry_exhausted, Stream, PublicStream, public_stream,
  StreamState, Relay, Journal, record_event, close_stream, friend_stream_disconnected,
  friend_stream_disconnect_failed,
}

pub data AttemptState : Type 0 where
  retrying disconnected : AttemptState

pub record Attempt : Type 0 where
  pub attempt : ℕ
  pub state : AttemptState

pub record Disconnect : Type 0 where
  pub stream : Stream
  pub journal : Journal
  pub attempts : List Attempt
  pub done : Bool

-- A failed attempt is counted and listed.
abbrev pub retry : Journal → Journal
retry j = record j {
  metrics = record j.metrics { disconnect_retries = j.metrics.disconnect_retries + 1 };
}

abbrev pub listed : ℕ → AttemptState → List Attempt → List Attempt
listed attempt state log = log ++ record { attempt = attempt; state = state } ∷ []

-- The loop over the attempts, with the rounds that are left. A round that does not fail closes the
-- stream and ends the loop.
unfoldable pub try_disconnect : ℕ → ℕ → ℕ → ℕ → Text → Stream → Journal → List Attempt → Disconnect
unfolding close_stream
try_disconnect zero attempt failing now key s j log = record {
  stream = s;
  journal = j;
  attempts = log;
  done = false;
}
try_disconnect (suc rounds) attempt failing now key s j log =
    let rest =
      try_disconnect rounds (attempt + 1) failing now key s (retry j)
        (listed attempt retrying log) in
    let (s', j') = close_stream now (str "friend_disconnected") s j in
    if leb attempt failing then rest else record {
      stream = s';
      journal = record_event now (friend_stream_disconnected key attempt) j';
      attempts = listed attempt disconnected log;
      done = true;
    }

-- What follows the loop: a stream that no attempt closed is marked as failed.
unfoldable pub finish_disconnect :
    ℕ → ℕ → Text → Disconnect → Relay → Relay × (Result Reason PublicStream × List Attempt)
unfolding record_event public_stream
finish_disconnect now bound key d r =
    if d.done
    then (
      record r { streams = put key d.stream r.streams; journal = d.journal },
      (ok (public_stream d.stream), d.attempts),
    )
    else (let m = d.journal.metrics in
        let j = record d.journal {
          metrics = record m { disconnect_failures = m.disconnect_failures + 1 };
        } in
        (
          record r {
            streams = put key (record d.stream { state = StreamState.disconnect_failed }) r.streams;
            journal = record_event now (friend_stream_disconnect_failed key bound) j;
          },
          (err disconnect_retry_exhausted, d.attempts),
        ))

unfoldable pub disconnect_stream :
    ℕ → Text → ℕ → ℕ → Relay → Relay × (Result Reason PublicStream × List Attempt)
disconnect_stream now key max_attempts failing r = elim (get key r.streams) [
  | none ↦ (r, (err unauthenticated, []))
  | some s ↦
      let bound = max 1 max_attempts in
      let d = try_disconnect bound 1 failing now key s r.journal [] in
      finish_disconnect now bound key d r
]
