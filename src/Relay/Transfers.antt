-- ===== src/Relay/Transfers.antt =====
-- `recordTransfer`, `relayEcho` and `disconnectStream`.
use easy_mc_server.Prelude.{
  ℕ, ◌+◌, ◌-◌, ◌^◌, String, Bool, ◌&&◌, Option, none, some, [], ◌∷◌, ◌++◌, Text, str, ltb, leb,
  get_or, length, Result, ok, err, if◌then◌else◌,
}
use Prim.Native.String.{len}
use easy_mc_server.Prelude.Map.{get, put}
use easy_mc_server.Relay.State.{
  Reason, unauthenticated, invalid_transfer, session_duration_quota, idle_quota,
  room_bandwidth_quota, monthly_host_quota, Stream, PublicStream, public_stream, is_open, Frame,
  Payload, text, bytes, json, friend_to_host, host_to_friend, Relay, record_event, close_stream,
  refuse, relay_transfer_recorded,
}

-- A value given as a number of bytes: a natural number, `-(n + 1)`, or anything else (a fraction,
-- NaN, an infinity, no number at all).
pub data Amount : Type 0 where
  nat negative : ℕ → Amount
  other : Amount

-- `Number.isSafeInteger(bytes) && bytes > 0`, with the number that passes.
unfoldable pub positive_safe_integer : Amount → Option ℕ
positive_safe_integer (nat n) = if ltb 0 n && ltb n (2 ^ 53) then some n else none
positive_safe_integer (negative n) = none
positive_safe_integer other = none

-- A transfer that breaks a quota closes its stream and counts the stop.
unfoldable pub stop :
    {A : Type 0} → ℕ → String → Reason → Text → Stream → Relay → Relay × Result Reason A
unfolding close_stream
stop now label reason key s r =
    let (s', j) = close_stream now (str label) s r.journal in
    let j' = record j { metrics = record j.metrics { quota_stops = j.metrics.quota_stops + 1 } } in
    (record r { streams = put key s' r.streams; journal = j' }, err reason)

pub record Transfer : Type 0 where
  pub stream : PublicStream
  pub warning : Bool

unfoldable pub commit_transfer :
    ℕ → Text → Stream → ℕ → ℕ → ℕ → Relay → Relay × Result Reason Transfer
unfolding record_event public_stream
commit_transfer now key s n next_room next_monthly r =
    let s' = record s { bytes = s.bytes + n; last_activity_at = now } in
    let m = r.journal.metrics in
    let j = record r.journal { metrics = record m { bytes_relayed = m.bytes_relayed + n } } in
    (
      record r {
        streams = put key s' r.streams;
        room_bytes = put s.room_id next_room r.room_bytes;
        monthly_host_bytes = put s.host_id next_monthly r.monthly_host_bytes;
        journal = record_event now (relay_transfer_recorded key s.room_id n) j;
      },
      ok (record {
        stream = public_stream s';
        warning = leb r.quotas.warning_room_bytes next_room;
      }),
    )

-- The quotas, in the order of the source, on an open stream and a valid number of bytes.
unfoldable pub transfer_within : ℕ → Text → Stream → ℕ → Relay → Relay × Result Reason Transfer
transfer_within now key s n r =
    let next_room = get_or (get s.room_id r.room_bytes) 0 + n in
    let next_monthly = get_or (get s.host_id r.monthly_host_bytes) 0 + n in
    if ltb r.quotas.max_session_ms (now - s.opened_at)
    then stop now "session_duration_quota" session_duration_quota key s r
    else if ltb r.quotas.idle_timeout_ms (now - s.last_activity_at)
    then stop now "idle_quota" idle_quota key s r
    else if ltb r.quotas.max_room_bytes next_room
    then stop now "room_bandwidth_quota" room_bandwidth_quota key s r
    else if ltb r.quotas.max_monthly_host_bytes next_monthly
    then stop now "monthly_host_quota" monthly_host_quota key s r
    else commit_transfer now key s n next_room next_monthly r

unfoldable pub record_transfer : ℕ → Text → Amount → Relay → Relay × Result Reason Transfer
record_transfer now key amount r = elim (get key r.streams) [
  | none ↦ refuse r unauthenticated
  | some s ↦
      if is_open s.state
      then (elim (positive_safe_integer amount) [
        | none ↦ refuse r invalid_transfer
        | some n ↦ transfer_within now key s n r
      ])
      else refuse r unauthenticated
]

unfoldable pub byte_length : Payload → ℕ
byte_length (text s) = len s
byte_length (bytes b) = length b
byte_length (json s) = len s

pub record Echo : Type 0 where
  pub host_frame : Frame
  pub friend_frame : Frame
  pub stream : PublicStream

-- The frames reach both inboxes of the stream, an object of the relay's map.
unfoldable pub echo_frames : Text → Payload → Stream → Relay → Relay × Result Reason Echo
unfolding public_stream
echo_frames key payload s r =
    let frame : Frame = record {
      stream_id = key;
      room_id = s.room_id;
      direction = friend_to_host;
      payload = payload;
    } in
    let back = record frame { direction = host_to_friend } in
    let s' = record s {
      host_inbox = s.host_inbox ++ frame ∷ [];
      friend_inbox = s.friend_inbox ++ back ∷ [];
    } in
    (
      record r { streams = put key s' r.streams },
      ok (record { host_frame = frame; friend_frame = back; stream = public_stream s' }),
    )

-- A payload is delivered on both sides once its bytes have been let through.
unfoldable pub relay_echo : ℕ → Text → Payload → Relay → Relay × Result Reason Echo
relay_echo now key payload r = elim (get key r.streams) [
  | none ↦ refuse r unauthenticated
  | some s ↦
      if is_open s.state
      then (let (r', sent) = record_transfer now key (nat (byte_length payload)) r in
          elim sent [
            | err e ↦ (r', err e)
            | ok t ↦ elim (get key r'.streams) [
              | none ↦ refuse r' unauthenticated
              | some s' ↦ echo_frames key payload s' r'
            ]
          ])
      else refuse r unauthenticated
]
