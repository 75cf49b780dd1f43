-- ===== src/Relay/Proofs/Disconnect.antt =====
-- `disconnectStream`: the loop ends within its bound, and what it does to a stream that is closed.
use easy_mc_server.Prelude.{
  ℕ, zero, suc, ◌+◌, ◌≤◌, ◌<◌, ◌≡◌, refl, ap, ◌∙◌, true, false, Text, some, List, [], ◌∷◌, arith,
  ok, inl, inr, max, length, length-append, leb, Bool-cases, bit,
}
use easy_mc_server.Prelude.Map.{get, put}
use easy_mc_server.Prelude.Map.Laws.{get-put_self}
use easy_mc_server.Relay.State.{Relay, Stream, StreamState, Journal, is_closed, public_stream}
use easy_mc_server.Relay.Disconnect.{
  Disconnect, Attempt, try_disconnect, finish_disconnect, disconnect_stream, retry, retrying,
  disconnected, listed,
}
use easy_mc_server.Relay.Proofs.Consumed.{is_refused}

-- The loop from attempt `a` with `n` rounds left: one of them succeeds, or all of them fail.
module _ (failing now : ℕ) (key : Text) (s : Stream) where
  record Succeeds (a : ℕ) (j : Journal) (log : List Attempt) (d : Disconnect) : Type 0 where
    done : d.done ≡ true
    closed : is_closed d.stream.state ≡ true
    attempts : length d.attempts + a ≡ length log + failing + 2
    retries : d.journal.metrics.disconnect_retries + a ≡ j.metrics.disconnect_retries + failing + 1
    counted :
        d.journal.metrics.friend_streams_closed + bit (is_closed s.state)
        ≡ j.metrics.friend_streams_closed + 1

  record Fails (n : ℕ) (j : Journal) (log : List Attempt) (d : Disconnect) : Type 0 where
    undone : d.done ≡ false
    stream : d.stream ≡ s
    attempts : length d.attempts ≡ length log + n
    retries : d.journal.metrics.disconnect_retries ≡ j.metrics.disconnect_retries + n
    counted : d.journal.metrics.friend_streams_closed ≡ j.metrics.friend_streams_closed

  try_disconnect-Succeeds :
      (n a : ℕ) (j : Journal) (log : List Attempt)
      → a ≤ failing + 1
      → failing + 1 < a + n
      → Succeeds a j log (try_disconnect n a failing now key s j log)
  unfolding try_disconnect
  try_disconnect-Succeeds zero a j log lo hi = absurd (omega arith)
  try_disconnect-Succeeds (suc n) a j log lo hi = elim (Bool-cases (leb a failing)) [
    | inl b ↦
        let rest =
          try_disconnect-Succeeds n (a + 1) (retry j) (listed a retrying log) (ground arith)
            (omega arith) in
        let grown = length-append log (record { attempt = a; state = retrying } ∷ []) in
        rw (b, try_disconnect)
          (record {
            done = rest.done;
            closed = rest.closed;
            attempts = omega (arith, rest.attempts, grown);
            retries = omega (arith, rest.retries);
            counted = rest.counted;
          })
    | inr b ↦
        let grown = length-append log (record { attempt = a; state = disconnected } ∷ []) in
        rw (b, try_disconnect)
          (record {
            done = refl;
            closed = ground arith;
            attempts = ground (arith, grown);
            retries = ground arith;
            counted = ground arith;
          })
  ]

  try_disconnect-Fails :
      (n a : ℕ) (j : Journal) (log : List Attempt)
      → a + n ≤ failing + 1
      → Fails n j log (try_disconnect n a failing now key s j log)
  unfolding try_disconnect
  try_disconnect-Fails zero a j log hi = record {
    undone = refl;
    stream = refl;
    attempts = omega arith;
    retries = omega arith;
    counted = refl;
  }
  try_disconnect-Fails (suc n) a j log hi =
      let rest = try_disconnect-Fails n (a + 1) (retry j) (listed a retrying log) (omega arith) in
      let grown = length-append log (record { attempt = a; state = retrying } ∷ []) in
      let b : leb a failing ≡ true = ground arith in
      rw (b, try_disconnect)
        (record {
          undone = rest.undone;
          stream = rest.stream;
          attempts = omega (arith, rest.attempts, grown);
          retries = omega (arith, rest.retries);
          counted = rest.counted;
        })

module _ (now : ℕ) (key : Text) (most failing : ℕ) (s : Stream) (r : Relay)
    (found : get key r.streams ≡ some s) where
  disconnect_stream-eq :
      disconnect_stream now key most failing r
      ≡ finish_disconnect now
          (max 1 most)
          key
          (try_disconnect (max 1 most) 1 failing now key s r.journal [])
          r
  unfolding disconnect_stream
  disconnect_stream-eq = rw (found, disconnect_stream)

  finish_disconnect-done :
      (bound : ℕ) (d : Disconnect)
      → d.done ≡ true
      → finish_disconnect now bound key d r ≡ (
        record r { streams = put key d.stream r.streams; journal = d.journal },
        (ok (public_stream d.stream), d.attempts),
      )
  unfolding finish_disconnect
  finish_disconnect-done bound d h = rw h

  finish_disconnect-undone :
      (bound : ℕ) (d : Disconnect)
      → d.done ≡ false
      → let out = finish_disconnect now bound key d r in
        (out.0.streams
          ≡ put key (record d.stream { state = StreamState.disconnect_failed }) r.streams)
        × (out.0.journal.metrics.friend_streams_closed ≡ d.journal.metrics.friend_streams_closed)
        × (is_refused out.1.0 ≡ true)
        × (out.1.1 ≡ d.attempts)
  unfolding finish_disconnect
  finish_disconnect-undone bound d h = ground arith

  -- If fewer attempts fail than are allowed (at least one is), the disconnect is answered with `ok`,
  -- one attempt more is made than fail, the stream is closed, and the metric of closed streams goes
  -- up by one unless the stream was closed already.
  pub disconnect_stream-closes :
      failing < max 1 most
      → let out = disconnect_stream now key most failing r in
        (is_refused out.1.0 ≡ false)
        × (length out.1.1 ≡ failing + 1)
        × ((x : Stream) × (get key out.0.streams ≡ some x) × (is_closed x.state ≡ true))
        × (out.0.journal.metrics.friend_streams_closed + bit (is_closed s.state)
            ≡ r.journal.metrics.friend_streams_closed + 1)
  disconnect_stream-closes h =
      let d = try_disconnect (max 1 most) 1 failing now key s r.journal [] in
      let ends =
        try_disconnect-Succeeds failing now key s (max 1 most) 1 r.journal [] (omega arith)
          (omega arith) in
      rw disconnect_stream-eq (
        rw (finish_disconnect-done (max 1 most) d ends.done) (
          refl,
          omega (arith, ends.attempts),
          (d.stream, get-put_self key d.stream r.streams, ends.closed),
          ends.counted,
        ))

  -- If every allowed attempt fails, the disconnect is refused after just as many attempts, and the
  -- stream is marked as failed.
  pub disconnect_stream-fails :
      max 1 most ≤ failing
      → let out = disconnect_stream now key most failing r in
        (is_refused out.1.0 ≡ true)
        × (length out.1.1 ≡ max 1 most)
        × (get key out.0.streams ≡ some (record s { state = StreamState.disconnect_failed }))
        × (out.0.journal.metrics.friend_streams_closed ≡ r.journal.metrics.friend_streams_closed)
  disconnect_stream-fails h =
      let d = try_disconnect (max 1 most) 1 failing now key s r.journal [] in
      let ends = try_disconnect-Fails failing now key s (max 1 most) 1 r.journal [] (omega arith) in
      let finish = finish_disconnect-undone (max 1 most) d ends.undone in
      let stream = λ (x : Stream) (e : x ≡ s).
        ap (λ (y : Stream). record y { state = StreamState.disconnect_failed }) e in
      rw disconnect_stream-eq (
        finish.2,
        ap length finish.3 ∙ omega (arith, ends.attempts),
        ap (get key) finish.0
            ∙ get-put_self key _ r.streams
            ∙ ap some (stream d.stream ends.stream),
        finish.1 ∙ ends.counted,
      )

-- A stream that is closed already counts as closed a second time: a disconnect of which every
-- attempt fails marks it as failed, and a later disconnect that succeeds closes and counts it again.
pub closed_stream_counted_again :
    (now later : ℕ) (key : Text) (most failing : ℕ) (s : Stream) (r : Relay)
    → get key r.streams ≡ some s
    → s.state ≡ StreamState.closed
    → max 1 most ≤ failing
    → let failed = (disconnect_stream now key most failing r).0 in
      let again = (disconnect_stream later key 1 0 failed).0 in
      again.journal.metrics.friend_streams_closed ≡ r.journal.metrics.friend_streams_closed + 1
closed_stream_counted_again now later key most failing s r found closed h =
    let failed = (disconnect_stream now key most failing r).0 in
    let first = disconnect_stream-fails now key most failing s r found h in
    let second =
      disconnect_stream-closes later key 1 0 (record s { state = StreamState.disconnect_failed })
        failed first.2 (omega arith) in
    omega (arith, second.3, first.3)
