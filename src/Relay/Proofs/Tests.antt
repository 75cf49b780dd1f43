-- ===== src/Relay/Proofs/Tests.antt =====
-- A relay at work: host h1 opens a tunnel in room r1 and a friend a stream, on one session. The
-- theorems on the relay are applied to it.
use easy_mc_server.Prelude.{
  Bool, ℕ, ◌↔◌, show, ◌+◌, ◌≡◌, ◌<◌, ◌^◌, refl, true, false, Text, str, undefined, ◌==◌, truthy,
  or_else, none, some, List, [], ◌∷◌, arith, ok, length,
}
use easy_mc_server.Prelude.Map.{Map, get, put, count}
use easy_mc_server.Relay.State.{
  Relay, Stream, StreamState, Tunnel, TunnelState, Target, Session, Request, init, default_quotas,
  host_tunnel_authorized, close_stream, is_closed,
}
use easy_mc_server.Relay.Tunnels.{
  OpenTunnel, CloseTunnel, ClosedTunnel, open_host_tunnel, close_host_tunnel, install_tunnel,
  open_to, make_room, is_minecraft_loopback_target, tunnel_for_close,
}
use easy_mc_server.Relay.Sessions.{
  ServiceSession, normalize_session, store_service_session, authorize_session, read_session,
  validate_session,
}
use easy_mc_server.Relay.Streams.{
  open_friend_stream, open_friend_stream_later, open_with_session, check_open, check_tunnel, admit,
  new_stream, active_room_member_count, target_matches_tunnel,
}
use easy_mc_server.Relay.Transfers.{
  nat, record_transfer, transfer_within, positive_safe_integer, commit_transfer, stop,
}
use easy_mc_server.Relay.Disconnect.{disconnect_stream}
use easy_mc_server.Relay.Run.{
  Call, opens_tunnel, authorizes, opens_stream, hears, opens_later, transfers, step, run,
}
use easy_mc_server.Prelude.Map.Laws.{get-put_self}
use easy_mc_server.Relay.Proofs.Bytes.{IsAccounted, run-IsAccounted}
use easy_mc_server.Relay.Proofs.RoomSize.{IsWithinRoomSize, run-IsWithinRoomSize}
use easy_mc_server.Relay.Proofs.Loopback.{IsConfined, run-IsConfined}
use easy_mc_server.Relay.Proofs.Admission.{Answers, Serves, check_open_iff}
use easy_mc_server.Relay.Proofs.Consumed.{is_refused}
use easy_mc_server.Relay.Proofs.Replay.{at_once, session_opens_once}
use easy_mc_server.Relay.Proofs.Closing.{Closes, close_host_tunnel-Closes}
use easy_mc_server.Relay.Proofs.Opening.{Opens, open_host_tunnel_iff}
use easy_mc_server.Relay.Proofs.Transfers.{
  FitsQuotas, Moves, record_transfer_iff, record_transfer-Moves, record_transfer-stops,
}
use easy_mc_server.Relay.Proofs.Disconnect.{
  disconnect_stream-closes, disconnect_stream-fails, closed_stream_counted_again,
}

abbrev minecraft : Target
minecraft = record { kind = str "minecraft"; host = str "127.0.0.1"; port = 25565 }

abbrev credentials : Map Text
credentials = (str "r1:h1", str "secret") ∷ []

abbrev open_r1 : OpenTunnel
open_r1 = record {
  host_id = str "h1";
  room_id = str "r1";
  target = some minecraft;
  host_token = str "secret";
}

abbrev session : Session
session = record {
  session_id = str "s1";
  session_token = str "t1";
  room_id = str "r1";
  invite_id = undefined;
  host_id = str "h1";
  friend_id = str "f1";
  minecraft_uuid = str "u1";
  approved = true;
  issued_at = some 0;
  expires_at = some 1000;
  authorized_at = none;
  consumed_at = none;
}

abbrev request : Request
request = record {
  session_id = str "s1";
  session_token = str "t1";
  room_id = str "r1";
  invite_id = undefined;
  friend_id = str "f1";
  minecraft_uuid = str "u1";
  requested_target = none;
}

abbrev prepared : List (ℕ × Call)
prepared = (1, opens_tunnel "a" open_r1) ∷ (2, authorizes session) ∷ []

abbrev joined : List (ℕ × Call)
joined =
    (1, opens_tunnel "a" open_r1)
    ∷ (2, authorizes session)
    ∷ (3, opens_stream "b" none request)
    ∷ (4, transfers (str "relay_stream_b") (nat 100))
    ∷ []

-- Its line opens all that a test computes with.
relay : Relay
unfolding run step open_host_tunnel open_to make_room install_tunnel close_host_tunnel
    is_minecraft_loopback_target authorize_session read_session validate_session open_friend_stream
    open_with_session check_open check_tunnel target_matches_tunnel active_room_member_count admit
    new_stream record_transfer transfer_within positive_safe_integer commit_transfer stop
    disconnect_stream host_tunnel_authorized tunnel_for_close close_stream get put count ◌==◌ truthy
    or_else show
relay = run (init credentials default_quotas) joined

abbrev stream : Stream
stream = record {
  id = str "relay_stream_b";
  room_id = str "r1";
  invite_id = undefined;
  host_id = str "h1";
  friend_id = str "f1";
  minecraft_uuid = str "u1";
  target = minecraft;
  session_id = str "s1";
  tunnel_id = str "relay_tunnel_a";
  opened_at = 3;
  last_activity_at = 4;
  closed_at = none;
  bytes = 100;
  host_inbox = [];
  friend_inbox = [];
  state = StreamState.opened;
}

relay-stream : get (str "relay_stream_b") relay.streams ≡ some stream
unfolding relay
relay-stream = refl

abbrev tunnel : Tunnel
tunnel = record {
  id = str "relay_tunnel_a";
  host_id = str "h1";
  room_id = str "r1";
  target = minecraft;
  opened_at = 1;
  closed_at = none;
  state = TunnelState.opened;
}

abbrev close_r1 : CloseTunnel
close_r1 = record {
  tunnel_id = undefined;
  room_id = str "r1";
  host_id = str "h1";
  host_token = str "secret";
  reason = undefined;
}

run-IsAccounted_example : IsAccounted (run (init credentials default_quotas) joined)
run-IsAccounted_example = run-IsAccounted credentials default_quotas joined

run-IsWithinRoomSize_example : IsWithinRoomSize (run (init credentials default_quotas) joined)
run-IsWithinRoomSize_example = run-IsWithinRoomSize credentials default_quotas joined

run-IsConfined_example : IsConfined (run (init credentials default_quotas) joined)
run-IsConfined_example = run-IsConfined credentials default_quotas joined

check_open_iff_example :
    let r = run (init credentials default_quotas) prepared in
    (check_open 3 request session r ≡ ok tunnel) ↔ (
      Answers 3 r.quotas session request
      × (get (str "r1") r.tunnels ≡ some tunnel)
      × Serves request session tunnel r)
check_open_iff_example =
    check_open_iff 3 request session tunnel (run (init credentials default_quotas) prepared)

session_opens_once_example :
    let past = run (init credentials default_quotas) prepared in
    let r' =
      run (step past (3, opens_stream "b" none request)) ((5, transfers (str "x") (nat 1)) ∷ []) in
    (is_refused (open_friend_stream 9 "c" none request r').1 ≡ true)
    × ((held : Bool)
        → let (r'', found) = read_session none request r' in
          is_refused (open_friend_stream_later held 9 "c" found request (run r'' [])).1 ≡ true)
unfolding relay
session_opens_once_example =
    session_opens_once credentials default_quotas prepared ((5, transfers (str "x") (nat 1)) ∷ [])
      [] (3, opens_stream "b" none request) (str "s1") 9 "c" none request
      (at_once 3 "b" none request refl refl) (tt, tt) refl

-- What a service answers about the session, by a promise.
abbrev told : ServiceSession
told = record {
  session_id = str "s1";
  id = undefined;
  session_token = str "t1";
  session_credential = undefined;
  room_id = str "r1";
  invite_id = undefined;
  host_id = str "h1";
  friend_id = str "f1";
  minecraft_uuid = str "u1";
  approved = some true;
  state = undefined;
  issued_at = some 0;
  expires_at = some 1000;
}

-- Two requests with one session, both answered before either opens: the second answer takes the place
-- of the first in the map, and both open a stream.
abbrev heard : Session
heard = normalize_session told

abbrev twice : List (ℕ × Call)
twice =
    (1, opens_tunnel "a" open_r1)
    ∷ (2, hears (ok told) request)
    ∷ (3, hears (ok told) request)
    ∷ (4, opens_later false "b" (ok heard) request)
    ∷ (5, opens_later true "c" (ok heard) request)
    ∷ []

both_heard :
    let r = run (init credentials default_quotas) ((1, opens_tunnel "a" open_r1) ∷ []) in
    let (r', first) = read_session (some (ok told)) request r in
    (first ≡ ok heard) × ((read_session (some (ok told)) request r').1 ≡ ok heard)
unfolding relay normalize_session store_service_session
both_heard = (refl, refl)

session_opens_twice :
    active_room_member_count (str "r1") (run (init credentials default_quotas) twice) ≡ 2
unfolding relay normalize_session store_service_session open_friend_stream_later
session_opens_twice = refl

close_host_tunnel-Closes_example :
    (x : ClosedTunnel) × ((close_host_tunnel 9 close_r1 relay).1 ≡ ok x)
    × Closes 9 (str "r1") tunnel relay (close_host_tunnel 9 close_r1 relay).0 x
unfolding relay
close_host_tunnel-Closes_example =
    close_host_tunnel-Closes 9 close_r1 (str "r1") tunnel relay refl refl refl refl

open_host_tunnel_iff_example :
    (is_refused (open_host_tunnel 9 "z" open_r1 relay).1 ≡ false) ↔ Opens open_r1 relay
open_host_tunnel_iff_example = open_host_tunnel_iff 9 "z" open_r1 relay

record_transfer_iff_example :
    (is_refused (record_transfer 9 (str "relay_stream_b") (nat 7) relay).1 ≡ false)
    ↔ ((n : ℕ) × (nat 7 ≡ nat n) × (0 < n) × (n < 2 ^ 53) × FitsQuotas 9 stream n relay)
record_transfer_iff_example =
    record_transfer_iff 9 (str "relay_stream_b") stream (nat 7) relay relay-stream refl

record_transfer-Moves_example :
    Moves
      (str "relay_stream_b")
      stream
      7
      9
      relay
      (record_transfer 9 (str "relay_stream_b") (nat 7) relay).0
unfolding relay
record_transfer-Moves_example =
    record_transfer-Moves 9 (str "relay_stream_b") stream 7 relay relay-stream refl refl

record_transfer-stops_example :
    let r' = (record_transfer 2000000 (str "relay_stream_b") (nat 7) relay).0 in
    (get (str "relay_stream_b") r'.streams
      ≡ some (record stream { state = StreamState.closed; closed_at = some 2000000 }))
    × (r'.room_bytes ≡ relay.room_bytes)
    × (r'.monthly_host_bytes ≡ relay.monthly_host_bytes)
    × (r'.journal.metrics.quota_stops ≡ relay.journal.metrics.quota_stops + 1)
unfolding relay
record_transfer-stops_example =
    record_transfer-stops 2000000 (str "relay_stream_b") stream 7 relay relay-stream refl
      (omega arith) (omega arith) (λ h. omega (arith, h.busy))

disconnect_stream-closes_example :
    let out = disconnect_stream 9 (str "relay_stream_b") 3 2 relay in
    (is_refused out.1.0 ≡ false)
    × (length out.1.1 ≡ 3)
    × ((x : Stream) × (get (str "relay_stream_b") out.0.streams ≡ some x)
        × (is_closed x.state ≡ true))
    × (out.0.journal.metrics.friend_streams_closed + 0
        ≡ relay.journal.metrics.friend_streams_closed + 1)
disconnect_stream-closes_example =
    disconnect_stream-closes 9 (str "relay_stream_b") 3 2 stream relay relay-stream (omega arith)

disconnect_stream-fails_example :
    let out = disconnect_stream 9 (str "relay_stream_b") 3 3 relay in
    (is_refused out.1.0 ≡ true)
    × (length out.1.1 ≡ 3)
    × (get (str "relay_stream_b") out.0.streams
        ≡ some (record stream { state = StreamState.disconnect_failed }))
    × (out.0.journal.metrics.friend_streams_closed ≡ relay.journal.metrics.friend_streams_closed)
disconnect_stream-fails_example =
    disconnect_stream-fails 9 (str "relay_stream_b") 3 3 stream relay relay-stream (omega arith)

abbrev closed_stream : Stream
closed_stream = record stream { state = StreamState.closed; closed_at = some 8 }

abbrev after_close : Relay
after_close = record relay { streams = put (str "relay_stream_b") closed_stream relay.streams }

closed_stream_counted_again_example :
    let failed = (disconnect_stream 9 (str "relay_stream_b") 3 3 after_close).0 in
    let again = (disconnect_stream 12 (str "relay_stream_b") 1 0 failed).0 in
    again.journal.metrics.friend_streams_closed ≡ relay.journal.metrics.friend_streams_closed + 1
closed_stream_counted_again_example =
    closed_stream_counted_again 9 12 (str "relay_stream_b") 3 3 closed_stream after_close
      (get-put_self (str "relay_stream_b") closed_stream relay.streams) refl (omega arith)
