-- ===== src/Relay/Proofs/Bytes.antt =====
-- The byte counters: every byte relayed is counted once for its room and once for its host, and no
-- counter passes its quota.
use easy_mc_server.Prelude.{
  Result, true, false, Bool, ◌∙◌, subst, zero, suc, ℕ, ◌+◌, ◌≤◌, ◌≡◌, refl, Text, Option, some,
  List, arith, get_or, String,
}
use easy_mc_server.Prelude.Map.{Map, get, sum, Values}
use easy_mc_server.Prelude.Map.Laws.{sum-put, Values-put}
use easy_mc_server.Relay.State.{
  session_duration_quota, idle_quota, room_bandwidth_quota, monthly_host_quota, Relay, Stream,
  Quotas, init, Reason, Tunnel, Journal, Session, Request, PublicStream, Target, Payload,
}
use easy_mc_server.Relay.Tunnels.{
  OpenTunnel, CloseTunnel, shut_tunnel, close_if_through, make_room, install_tunnel,
  open_host_tunnel, close_host_tunnel,
}
use easy_mc_server.Relay.Transfers.{
  Transfer, Amount, nat, byte_length, echo_frames, record_transfer, relay_echo, transfer_within,
  stop, commit_transfer,
}
use easy_mc_server.Relay.Sessions.{
  ServiceAnswer, read_session, store_service_session, authorize_session,
}
use easy_mc_server.Relay.Streams.{
  open_friend_stream, open_friend_stream_later, fail_open, admit, marked,
}
use easy_mc_server.Relay.Disconnect.{
  Disconnect, disconnect_stream, try_disconnect, finish_disconnect, Attempt, retry, retrying,
  listed,
}
use easy_mc_server.Relay.Cases.{
  record_transfer_cases, relay_echo_cases, close_host_tunnel_cases, make_room_cases,
  open_host_tunnel_cases, open_friend_stream_cases, open_friend_stream_later_cases,
  disconnect_stream_cases,
}
use easy_mc_server.Prelude.Map.Loops.{for_values_state}
use easy_mc_server.Relay.Run.{
  Call, opens_tunnel, closes_tunnel, authorizes, opens_stream, hears, opens_later, transfers,
  echoes, disconnects, step, run, run_induction,
}

pub record IsAccounted (r : Relay) : Type 0 where
  pub by_room : sum (λ n. n) r.room_bytes ≡ r.journal.metrics.bytes_relayed
  pub by_host : sum (λ n. n) r.monthly_host_bytes ≡ r.journal.metrics.bytes_relayed
  pub room_bound : Values (λ n. n ≤ r.quotas.max_room_bytes) r.room_bytes
  pub host_bound : Values (λ n. n ≤ r.quotas.max_monthly_host_bytes) r.monthly_host_bytes

stop-IsAccounted :
    (A : Type 0) (now : ℕ) (label : String) (reason : Reason) (key : Text) (s : Stream) (r : Relay)
    → IsAccounted r
    → IsAccounted (stop {A = A} now label reason key s r).0
unfolding stop
stop-IsAccounted A now label reason key s r h = ground arith

commit-IsAccounted :
    (now : ℕ) (key : Text) (s : Stream) (n : ℕ) (r : Relay)
    → get_or (get s.room_id r.room_bytes) 0 + n ≤ r.quotas.max_room_bytes
    → get_or (get s.host_id r.monthly_host_bytes) 0 + n ≤ r.quotas.max_monthly_host_bytes
    → IsAccounted r
    → IsAccounted
        (commit_transfer now key s n
          (get_or (get s.room_id r.room_bytes) 0 + n)
          (get_or (get s.host_id r.monthly_host_bytes) 0 + n)
          r).0
unfolding commit_transfer
commit-IsAccounted now key s n r room host h = record {
  by_room = ground (
    arith,
    sum-put (λ (k : ℕ). k) s.room_id (get_or (get s.room_id r.room_bytes) 0 + n) r.room_bytes,
  );
  by_host = ground (
    arith,
    sum-put (λ (k : ℕ). k) s.host_id (get_or (get s.host_id r.monthly_host_bytes) 0 + n)
        r.monthly_host_bytes,
  );
  room_bound = Values-put _ _ _ _ room h.room_bound;
  host_bound = Values-put _ _ _ _ host h.host_bound;
}

transfer_within-IsAccounted :
    (now : ℕ) (key : Text) (s : Stream) (n : ℕ) (r : Relay)
    → IsAccounted r
    → IsAccounted (transfer_within now key s n r).0
unfolding transfer_within
transfer_within-IsAccounted now key s n r h = ground (
  arith,
  stop-IsAccounted Transfer now "session_duration_quota" session_duration_quota key s r h,
  stop-IsAccounted Transfer now "idle_quota" idle_quota key s r h,
  stop-IsAccounted Transfer now "room_bandwidth_quota" room_bandwidth_quota key s r h,
  stop-IsAccounted Transfer now "monthly_host_quota" monthly_host_quota key s r h,
  commit-IsAccounted now key s n r,
)

record_transfer-IsAccounted :
    (now : ℕ) (key : Text) (a : Amount) (r : Relay)
    → IsAccounted r
    → IsAccounted (record_transfer now key a r).0
record_transfer-IsAccounted now key a r h =
    record_transfer_cases now key r (λ x. IsAccounted x.0) a (λ e. h)
      (λ s n _ _ _. transfer_within-IsAccounted now key s n r h)

-- Every other call leaves the byte counters and the quotas alone.
record SameBytes (r r' : Relay) : Type 0 where
  quotas : r'.quotas ≡ r.quotas
  room_bytes : r'.room_bytes ≡ r.room_bytes
  monthly_host_bytes : r'.monthly_host_bytes ≡ r.monthly_host_bytes
  bytes_relayed : r'.journal.metrics.bytes_relayed ≡ r.journal.metrics.bytes_relayed

SameBytes-refl : (r : Relay) → SameBytes r r
SameBytes-refl r = ground arith

SameBytes-trans : {a b c : Relay} → SameBytes a b → SameBytes b c → SameBytes a c
SameBytes-trans h k = ground arith

SameBytes-IsAccounted : {r r' : Relay} → SameBytes r r' → IsAccounted r → IsAccounted r'
SameBytes-IsAccounted e h = record {
  by_room = ground arith;
  by_host = ground arith;
  room_bound = rw (e.quotas, e.room_bytes) h.room_bound;
  host_bound = rw (e.quotas, e.monthly_host_bytes) h.host_bound;
}

close_if_through-bytes_relayed :
    (id reason : Text) (now : ℕ) (s : Stream) (x : Journal × ℕ)
    → (close_if_through id reason now s x).1.0.metrics.bytes_relayed ≡ x.0.metrics.bytes_relayed
unfolding close_if_through
close_if_through-bytes_relayed id reason now s x = ground arith

shut_tunnel-SameBytes :
    (now : ℕ) (reason key : Text) (t : Tunnel) (r : Relay)
    → SameBytes r (shut_tunnel now reason key t r).0
unfolding shut_tunnel
shut_tunnel-SameBytes now reason key t r = record {
  quotas = refl;
  room_bytes = refl;
  monthly_host_bytes = refl;
  bytes_relayed =
      for_values_state (close_if_through t.id reason now)
        (λ x. x.0.metrics.bytes_relayed ≡ r.journal.metrics.bytes_relayed)
        (λ s x h. close_if_through-bytes_relayed t.id reason now s x ∙ h) r.streams _ refl;
}

close_host_tunnel-SameBytes :
    (now : ℕ) (c : CloseTunnel) (r : Relay) → SameBytes r (close_host_tunnel now c r).0
close_host_tunnel-SameBytes now c r =
    close_host_tunnel_cases now c r (λ x. SameBytes r x.0) (λ e. SameBytes-refl r)
      (λ t. SameBytes-refl r) (λ key t _ _ _. shut_tunnel-SameBytes now _ key t r)

make_room-SameBytes :
    (now : ℕ) (o : OpenTunnel) (r r' : Relay) → make_room now o r ≡ some r' → SameBytes r r'
make_room-SameBytes now o r r' =
    make_room_cases now o r (λ x. x ≡ some r' → SameBytes r r') (λ e. cc)
      (λ e. subst (SameBytes r) (ground arith) (SameBytes-refl r))
      (λ c e. subst (SameBytes r) (ground arith) (close_host_tunnel-SameBytes now c r))

install_tunnel-SameBytes :
    (now : ℕ) (uuid : String) (o : OpenTunnel) (t : Target) (r : Relay)
    → SameBytes r (install_tunnel now uuid o t r).0
unfolding install_tunnel
install_tunnel-SameBytes now uuid o t r = ground arith

read_session-SameBytes :
    (answer : Option ServiceAnswer) (q : Request) (r : Relay)
    → SameBytes r (read_session answer q r).0
unfolding read_session store_service_session
read_session-SameBytes answer q r = ground arith

fail_open-SameBytes :
    (now : ℕ) (e : Reason) (q : Request) (r : Relay)
    → SameBytes r (fail_open {A = PublicStream} now e q r).0
unfolding fail_open
fail_open-SameBytes now e q r = ground arith

admit-SameBytes : (now : ℕ) (s : Stream) (x : Session) (r : Relay) → SameBytes r (admit now s x r).0
unfolding admit
admit-SameBytes now s x r = ground arith

try_disconnect-bytes_relayed :
    (rounds attempt failing now : ℕ) (key : Text) (s : Stream) (j : Journal) (log : List Attempt)
    → (try_disconnect rounds attempt failing now key s j log).journal.metrics.bytes_relayed
      ≡ j.metrics.bytes_relayed
unfolding try_disconnect
try_disconnect-bytes_relayed zero attempt failing now key s j log = refl
try_disconnect-bytes_relayed (suc rounds) attempt failing now key s j log = ground (
  arith,
  try_disconnect-bytes_relayed rounds (attempt + 1) failing now key s (retry j)
      (listed attempt retrying log),
)

finish_disconnect-SameBytes :
    (now bound : ℕ) (key : Text) (d : Disconnect) (r : Relay)
    → d.journal.metrics.bytes_relayed ≡ r.journal.metrics.bytes_relayed
    → SameBytes r (finish_disconnect now bound key d r).0
unfolding finish_disconnect
finish_disconnect-SameBytes now bound key d r h = ground arith

disconnect_stream-SameBytes :
    (now : ℕ) (key : Text) (most failing : ℕ) (r : Relay)
    → SameBytes r (disconnect_stream now key most failing r).0
disconnect_stream-SameBytes now key most failing r =
    disconnect_stream_cases now key r (λ x. SameBytes r x.0) most failing (λ e. SameBytes-refl r)
      (λ s e.
        finish_disconnect-SameBytes now _ key _ r (try_disconnect-bytes_relayed _ _ _ _ _ _ _ _))

open_host_tunnel-SameBytes :
    (now : ℕ) (uuid : String) (o : OpenTunnel) (r : Relay)
    → SameBytes r (open_host_tunnel now uuid o r).0
open_host_tunnel-SameBytes now uuid o r =
    open_host_tunnel_cases now o r uuid (λ x. SameBytes r x.0) (λ e. SameBytes-refl r)
      (λ t r' _ _ m.
        SameBytes-trans (make_room-SameBytes now o r r' m)
          (install_tunnel-SameBytes now uuid o t r'))

open_friend_stream-SameBytes :
    (now : ℕ) (uuid : String) (answer : Option ServiceAnswer) (q : Request) (r : Relay)
    → SameBytes r (open_friend_stream now uuid answer q r).0
open_friend_stream-SameBytes now uuid answer q r =
    let read = read_session-SameBytes answer q r in
    open_friend_stream_cases now uuid answer q r (λ x. SameBytes r x.0)
      (λ e. SameBytes-trans read (fail_open-SameBytes now e q _))
      (λ s t _ _. SameBytes-trans read (admit-SameBytes now _ s _))

marked-SameBytes : (held : Bool) (r r' : Relay) → SameBytes r r' → SameBytes r (marked held r r')
marked-SameBytes true r r' h = h
marked-SameBytes false r r' h = SameBytes-trans h (ground arith)

open_friend_stream_later-SameBytes :
    (held : Bool) (now : ℕ) (uuid : String) (found : Result Reason Session) (q : Request)
    (r : Relay)
    → SameBytes r (open_friend_stream_later held now uuid found q r).0
open_friend_stream_later-SameBytes held now uuid found q r =
    open_friend_stream_later_cases now uuid found q r (λ x. SameBytes r x.0) held
      (λ e. fail_open-SameBytes now e q r)
      (λ s t _ _. marked-SameBytes held r _ (admit-SameBytes now _ s r))

echo_frames-SameBytes :
    (key : Text) (p : Payload) (s : Stream) (r : Relay) → SameBytes r (echo_frames key p s r).0
unfolding echo_frames
echo_frames-SameBytes key p s r = ground arith

relay_echo-IsAccounted :
    (now : ℕ) (key : Text) (p : Payload) (r : Relay)
    → IsAccounted r
    → IsAccounted (relay_echo now key p r).0
relay_echo-IsAccounted now key p r h =
    let sent = record_transfer-IsAccounted now key (nat (byte_length p)) r h in
    relay_echo_cases now key p r (λ x. IsAccounted x.0) (λ e. h) (λ e. sent)
      (λ s t _ _. SameBytes-IsAccounted (echo_frames-SameBytes key p s _) sent)

step-IsAccounted : (r : Relay) (c : ℕ × Call) → IsAccounted r → IsAccounted (step r c)
unfolding step authorize_session
step-IsAccounted r (now, opens_tunnel uuid o) h =
    SameBytes-IsAccounted (open_host_tunnel-SameBytes now uuid o r) h
step-IsAccounted r (now, closes_tunnel c) h =
    SameBytes-IsAccounted (close_host_tunnel-SameBytes now c r) h
step-IsAccounted r (now, authorizes s) h = ground arith
step-IsAccounted r (now, opens_stream uuid a q) h =
    SameBytes-IsAccounted (open_friend_stream-SameBytes now uuid a q r) h
step-IsAccounted r (now, hears a q) h =
    SameBytes-IsAccounted (read_session-SameBytes (some a) q r) h
step-IsAccounted r (now, opens_later held uuid found q) h =
    SameBytes-IsAccounted (open_friend_stream_later-SameBytes held now uuid found q r) h
step-IsAccounted r (now, transfers key n) h = record_transfer-IsAccounted now key n r h
step-IsAccounted r (now, echoes key p) h = relay_echo-IsAccounted now key p r h
step-IsAccounted r (now, disconnects key most failing) h =
    SameBytes-IsAccounted (disconnect_stream-SameBytes now key most failing r) h

-- After any history of calls on a new relay, the bytes counted over all rooms and the bytes counted
-- over all hosts are each the bytes relayed in total, and no room and no host is past its quota.
pub run-IsAccounted :
    (credentials : Map Text) (quotas : Quotas) (calls : List (ℕ × Call))
    → IsAccounted (run (init credentials quotas) calls)
run-IsAccounted credentials quotas calls =
    run_induction IsAccounted step-IsAccounted (init credentials quotas) calls
      (unfold sum in record { by_room = refl; by_host = refl; room_bound = tt; host_bound = tt })
