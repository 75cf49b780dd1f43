-- ===== src/Relay/Proofs/Transfers.antt =====
-- `recordTransfer` exactly: when it lets bytes through, what it then counts, and what a refusal does.
use easy_mc_server.Prelude.{
  ℕ, ◌+◌, ◌-◌, ◌^◌, ◌≤◌, ◌<◌, ◌≡◌, ◌≢◌, ◌↔◌, refl, true, false, Text, ==_iff, none, some, arith,
  inl, inr, Option-cases, get_or,
}
use easy_mc_server.Prelude.Map.{get}
use easy_mc_server.Prelude.Map.Laws.{get-put, get-put_self}
use easy_mc_server.Relay.State.{Relay, Stream, StreamState, is_open, is_closed, close_stream}
use easy_mc_server.Relay.Transfers.{
  Amount, nat, negative, other, record_transfer, transfer_within, stop, commit_transfer,
  positive_safe_integer,
}
use easy_mc_server.Relay.Cases.{transfer_within_cases}
use easy_mc_server.Relay.Proofs.Consumed.{is_refused}

-- The stream is neither too old nor idle, and its room and its host have room for the bytes.
pub record FitsQuotas (now : ℕ) (s : Stream) (n : ℕ) (r : Relay) : Type 0 where
  pub young : now - s.opened_at ≤ r.quotas.max_session_ms
  pub busy : now - s.last_activity_at ≤ r.quotas.idle_timeout_ms
  pub room : get_or (get s.room_id r.room_bytes) 0 + n ≤ r.quotas.max_room_bytes
  pub host : get_or (get s.host_id r.monthly_host_bytes) 0 + n ≤ r.quotas.max_monthly_host_bytes

module _ (now : ℕ) (key : Text) (s : Stream) (n : ℕ) (r : Relay) where
  transfer_within-FitsQuotas :
      (is_refused (transfer_within now key s n r).1 ≡ false) ↔ FitsQuotas now s n r
  unfolding transfer_within stop commit_transfer
  transfer_within-FitsQuotas = (
    λ h. record {
      young = ground arith;
      busy = ground arith;
      room = ground arith;
      host = ground arith;
    },
    λ h. ground arith,
  )

positive_safe_integer_iff :
    (a : Amount) (n : ℕ)
    → (positive_safe_integer a ≡ some n) ↔ ((a ≡ nat n) × (0 < n) × (n < 2 ^ 53))
unfolding positive_safe_integer
positive_safe_integer_iff (nat m) n = (λ h. ground arith, λ h. ground arith)
positive_safe_integer_iff (negative m) n = (λ h. ground arith, λ h. ground arith)
positive_safe_integer_iff other n = (λ h. ground arith, λ h. ground arith)

record_transfer-eq :
    (now : ℕ) (key : Text) (s : Stream) (a : Amount) (n : ℕ) (r : Relay)
    → get key r.streams ≡ some s
    → s.state ≡ StreamState.opened
    → positive_safe_integer a ≡ some n
    → record_transfer now key a r ≡ transfer_within now key s n r
unfolding record_transfer
record_transfer-eq now key s a n r found opened valid =
    let o : is_open s.state ≡ true = ground arith in
    rw (found, record_transfer) (rw (o, valid) refl)

record_transfer-invalid :
    (now : ℕ) (key : Text) (s : Stream) (a : Amount) (r : Relay)
    → get key r.streams ≡ some s
    → positive_safe_integer a ≡ none
    → is_refused (record_transfer now key a r).1 ≡ true
unfolding record_transfer
record_transfer-invalid now key s a r found invalid =
    rw (found, record_transfer) (rw invalid (ground arith))

-- On an open stream a transfer passes exactly when its amount is a positive safe integer that fits
-- the quotas.
pub record_transfer_iff :
    (now : ℕ) (key : Text) (s : Stream) (a : Amount) (r : Relay)
    → get key r.streams ≡ some s
    → s.state ≡ StreamState.opened
    → (is_refused (record_transfer now key a r).1 ≡ false)
      ↔ ((n : ℕ) × (a ≡ nat n) × (0 < n) × (n < 2 ^ 53) × FitsQuotas now s n r)
record_transfer_iff now key s a r found opened = (
  λ h. elim (Option-cases (positive_safe_integer a)) [
    | inl z ↦ absurd (ground (arith, record_transfer-invalid now key s a r found z))
    | inr (n, z) ↦
        let e = record_transfer-eq now key s a n r found opened z in
        let v = (positive_safe_integer_iff a n).0 z in
        (n, v.0, v.1, v.2, (transfer_within-FitsQuotas now key s n r).0 (rw e at h))
  ],
  λ h.
      rw
        (record_transfer-eq now key s a h.0 r found opened
          ((positive_safe_integer_iff a h.0).1 (h.1, h.2, h.3)))
        ((transfer_within-FitsQuotas now key s h.0 r).1 h.4),
)

-- What a transfer of `n` bytes on a stream leaves behind.
pub record Moves (key : Text) (s : Stream) (n now : ℕ) (r r' : Relay) : Type 0 where
  pub stream : get key r'.streams ≡ some (record s { bytes = s.bytes + n; last_activity_at = now })
  pub room : get s.room_id r'.room_bytes ≡ some (get_or (get s.room_id r.room_bytes) 0 + n)
  pub host :
      get s.host_id r'.monthly_host_bytes ≡ some (get_or (get s.host_id r.monthly_host_bytes) 0 + n)
  pub other_rooms : (x : Text) → s.room_id ≢ x → get x r'.room_bytes ≡ get x r.room_bytes
  pub other_hosts :
      (x : Text) → s.host_id ≢ x → get x r'.monthly_host_bytes ≡ get x r.monthly_host_bytes
  pub other_streams : (x : Text) → key ≢ x → get x r'.streams ≡ get x r.streams

commit_transfer-Moves :
    (now : ℕ) (key : Text) (s : Stream) (n : ℕ) (r : Relay)
    → Moves key s n now r
        (commit_transfer now key s n
          (get_or (get s.room_id r.room_bytes) 0 + n)
          (get_or (get s.host_id r.monthly_host_bytes) 0 + n)
          r).0
unfolding commit_transfer
commit_transfer-Moves now key s n r = record {
  stream = get-put_self key _ r.streams;
  room = get-put_self s.room_id _ r.room_bytes;
  host = get-put_self s.host_id _ r.monthly_host_bytes;
  other_rooms = λ x h. rw get-put (ground (arith, ==_iff s.room_id x));
  other_hosts = λ x h. rw get-put (ground (arith, ==_iff s.host_id x));
  other_streams = λ x h. rw get-put (ground (arith, ==_iff key x));
}

transfer_within-Moves :
    (now : ℕ) (key : Text) (s : Stream) (n : ℕ) (r : Relay)
    → is_refused (transfer_within now key s n r).1 ≡ false
    → Moves key s n now r (transfer_within now key s n r).0
unfolding stop
transfer_within-Moves now key s n r =
    transfer_within_cases now key s n r (λ x. is_refused x.1 ≡ false → Moves key s n now r x.0)
      (λ label e b. cc) (λ _ _ _ _ b. commit_transfer-Moves now key s n r)

-- A transfer that passes adds its bytes to its stream, to its room and to its host, sets the time
-- of the last activity, and leaves every other stream, room and host as it was.
pub record_transfer-Moves :
    (now : ℕ) (key : Text) (s : Stream) (n : ℕ) (r : Relay)
    → get key r.streams ≡ some s
    → s.state ≡ StreamState.opened
    → is_refused (record_transfer now key (nat n) r).1 ≡ false
    → Moves key s n now r (record_transfer now key (nat n) r).0
record_transfer-Moves now key s n r found opened passed =
    let h = (record_transfer_iff now key s (nat n) r found opened).0 passed in
    let e =
      record_transfer-eq now key s (nat n) n r found opened
        ((positive_safe_integer_iff (nat n) n).1 (refl, ground arith, ground arith)) in
    rw e (transfer_within-Moves now key s n r (rw e at passed))

-- A valid transfer on an open stream that breaks a quota closes the stream and counts no byte.
pub record_transfer-stops :
    (now : ℕ) (key : Text) (s : Stream) (n : ℕ) (r : Relay)
    → get key r.streams ≡ some s
    → s.state ≡ StreamState.opened
    → 0 < n
    → n < 2 ^ 53
    → ¬ FitsQuotas now s n r
    → let r' = (record_transfer now key (nat n) r).0 in
      (get key r'.streams ≡ some (record s { state = StreamState.closed; closed_at = some now }))
      × (r'.room_bytes ≡ r.room_bytes)
      × (r'.monthly_host_bytes ≡ r.monthly_host_bytes)
      × (r'.journal.metrics.quota_stops ≡ r.journal.metrics.quota_stops + 1)
unfolding stop close_stream
record_transfer-stops now key s n r found opened lo hi unfit =
    let e =
      record_transfer-eq now key s (nat n) n r found opened
        ((positive_safe_integer_iff (nat n) n).1 (refl, lo, hi)) in
    rw e (
      transfer_within_cases now key s n r
        (λ x.
          (get key x.0.streams
            ≡ some (record s { state = StreamState.closed; closed_at = some now }))
          × (x.0.room_bytes ≡ r.room_bytes)
          × (x.0.monthly_host_bytes ≡ r.monthly_host_bytes)
          × (x.0.journal.metrics.quota_stops ≡ r.journal.metrics.quota_stops + 1))
        (λ label reason.
          let o : is_closed s.state ≡ false = ground arith in
          rw o (get-put_self key _ r.streams, refl, refl, refl))
        (λ a b c d. absurd (
          unfit (record {
            young = ground arith;
            busy = ground arith;
            room = ground arith;
            host = ground arith;
          }))))
