-- ===== src/Relay/Proofs/Consumed.antt =====
-- A session that the relay has marked as consumed stays so, until it is authorized anew, and sessions
-- lie under their own ids.
use easy_mc_server.Prelude.{
  ℕ, ◌≡◌, ◌≢◌, refl, Bool, true, false, Text, ==_iff, or_else, Option, none, some, List, [], ◌∷◌,
  arith, String, ok, err, Result, is_some, All,
}
use easy_mc_server.Prelude.Map.{Map, get, put}
use easy_mc_server.Prelude.Map.Laws.{get-put}
use easy_mc_server.Relay.State.{Relay, Quotas, init, Reason, Session, Request, Payload}
use easy_mc_server.Relay.Tunnels.{
  OpenTunnel, CloseTunnel, open_host_tunnel, close_host_tunnel, make_room, install_tunnel,
  shut_tunnel,
}
use easy_mc_server.Relay.Sessions.{
  ServiceAnswer, read_session, store_service_session, normalize_session, authorize_session,
  consumed,
}
use easy_mc_server.Relay.Streams.{open_friend_stream, open_friend_stream_later, fail_open, admit}
use easy_mc_server.Relay.Cases.{
  record_transfer_cases, transfer_within_cases, relay_echo_cases, disconnect_stream_cases,
  close_host_tunnel_cases, make_room_cases, open_host_tunnel_cases, open_friend_stream_cases,
  open_friend_stream_later_cases,
}
use easy_mc_server.Relay.Transfers.{
  Amount, nat, byte_length, record_transfer, relay_echo, stop, commit_transfer, echo_frames,
}
use easy_mc_server.Relay.Disconnect.{disconnect_stream, finish_disconnect, Disconnect}
use easy_mc_server.Relay.Run.{
  Call, opens_tunnel, closes_tunnel, authorizes, opens_stream, transfers, echoes, disconnects,
  hears, opens_later, step, run, run_induction,
}

abbrev pub is_refused : {A : Type 0} → Result Reason A → Bool
is_refused (ok a) = false
is_refused (err e) = true

abbrev pub IsConsumed : Text → Relay → Type 0
IsConsumed k r = is_some (consumed (get k r.sessions)) ≡ true

-- Sessions lie under their own ids.
abbrev pub HasOwnKeys : Map Session → Type 0
HasOwnKeys m = (k : Text) (s : Session) → get k m ≡ some s → s.session_id ≡ k

abbrev pub IsKeyed : Relay → Type 0
IsKeyed r = HasOwnKeys r.sessions

-- The id under which the relay finds the session of a request.
abbrev pub session_of : Option ServiceAnswer → Request → Text
session_of none q = q.session_id
session_of (some (ok a)) q = or_else a.session_id a.id
session_of (some (err e)) q = q.session_id

record_transfer-sessions :
    (now : ℕ) (key : Text) (a : Amount) (r : Relay)
    → (record_transfer now key a r).0.sessions ≡ r.sessions
unfolding stop commit_transfer
record_transfer-sessions now key a r =
    record_transfer_cases now key r (λ x. x.0.sessions ≡ r.sessions) a (λ e. refl)
      (λ s n _ _ _.
        transfer_within_cases now key s n r (λ x. x.0.sessions ≡ r.sessions) (λ label e. refl)
          (λ _ _ _ _. refl))

relay_echo-sessions :
    (now : ℕ) (key : Text) (p : Payload) (r : Relay)
    → (relay_echo now key p r).0.sessions ≡ r.sessions
unfolding echo_frames
relay_echo-sessions now key p r =
    let sent = record_transfer-sessions now key (nat (byte_length p)) r in
    relay_echo_cases now key p r (λ x. x.0.sessions ≡ r.sessions) (λ e. refl) (λ e. sent)
      (λ s t _ _. sent)

finish_disconnect-sessions :
    (now bound : ℕ) (key : Text) (d : Disconnect) (r : Relay)
    → (finish_disconnect now bound key d r).0.sessions ≡ r.sessions
unfolding finish_disconnect
finish_disconnect-sessions now bound key d r = ground arith

disconnect_stream-sessions :
    (now : ℕ) (key : Text) (most failing : ℕ) (r : Relay)
    → (disconnect_stream now key most failing r).0.sessions ≡ r.sessions
disconnect_stream-sessions now key most failing r =
    disconnect_stream_cases now key r (λ x. x.0.sessions ≡ r.sessions) most failing (λ e. refl)
      (λ s e. finish_disconnect-sessions now _ key _ r)

close_host_tunnel-sessions :
    (now : ℕ) (c : CloseTunnel) (r : Relay) → (close_host_tunnel now c r).0.sessions ≡ r.sessions
unfolding shut_tunnel
close_host_tunnel-sessions now c r =
    close_host_tunnel_cases now c r (λ x. x.0.sessions ≡ r.sessions) (λ e. refl) (λ t. refl)
      (λ key t _ _ _. refl)

make_room-sessions :
    (now : ℕ) (o : OpenTunnel) (r r' : Relay)
    → make_room now o r ≡ some r'
    → r'.sessions ≡ r.sessions
make_room-sessions now o r r' =
    make_room_cases now o r (λ x. x ≡ some r' → r'.sessions ≡ r.sessions) (λ e. cc)
      (λ e. ground arith) (λ c e. ground (arith, close_host_tunnel-sessions now c r))

open_host_tunnel-sessions :
    (now : ℕ) (uuid : String) (o : OpenTunnel) (r : Relay)
    → (open_host_tunnel now uuid o r).0.sessions ≡ r.sessions
unfolding install_tunnel
open_host_tunnel-sessions now uuid o r =
    open_host_tunnel_cases now o r uuid (λ x. x.0.sessions ≡ r.sessions) (λ e. refl)
      (λ t r' _ _ m. make_room-sessions now o r r' m)

-- A session that is consumed stays so when a service answers about any session.
read_session-IsConsumed :
    (answer : Option ServiceAnswer) (q : Request) (k : Text) (r : Relay)
    → IsConsumed k r
    → IsConsumed k (read_session answer q r).0
unfolding read_session store_service_session normalize_session
read_session-IsConsumed none q k r h = ground arith
read_session-IsConsumed (some (err e)) q k r h = h
read_session-IsConsumed (some (ok a)) q k r h =
    let id = or_else a.session_id a.id in rw (get-put id k) (ground (arith, ==_iff id k))

open_friend_stream-IsConsumed :
    (now : ℕ) (uuid : String) (answer : Option ServiceAnswer) (q : Request) (k : Text) (r : Relay)
    → IsConsumed k r
    → IsConsumed k (open_friend_stream now uuid answer q r).0
unfolding fail_open admit
open_friend_stream-IsConsumed now uuid answer q k r h =
    let read = read_session-IsConsumed answer q k r h in
    open_friend_stream_cases now uuid answer q r (λ x. IsConsumed k x.0) (λ e. read)
      (λ s t _ _. rw (get-put s.session_id k) (ground arith))

open_friend_stream_later-IsConsumed :
    (held : Bool) (now : ℕ) (uuid : String) (found : Result Reason Session) (q : Request) (k : Text)
    (r : Relay)
    → IsConsumed k r
    → IsConsumed k (open_friend_stream_later held now uuid found q r).0
unfolding fail_open admit
open_friend_stream_later-IsConsumed true now uuid found q k r h =
    open_friend_stream_later_cases now uuid found q r (λ x. IsConsumed k x.0) true (λ e. h)
      (λ s t _ _. rw (get-put s.session_id k) (ground arith))
open_friend_stream_later-IsConsumed false now uuid found q k r h =
    open_friend_stream_later_cases now uuid found q r (λ x. IsConsumed k x.0) false (λ e. h)
      (λ s t _ _. h)

-- No call authorizes the session with this id.
abbrev pub Spares : Text → ℕ × Call → Type 0
Spares k (now, authorizes s) = s.session_id ≢ k
Spares k (now, opens_tunnel uuid o) = Unit
Spares k (now, closes_tunnel c) = Unit
Spares k (now, opens_stream uuid a q) = Unit
Spares k (now, hears a q) = Unit
Spares k (now, opens_later held uuid found q) = Unit
Spares k (now, transfers key n) = Unit
Spares k (now, echoes key p) = Unit
Spares k (now, disconnects key most failing) = Unit

step-IsConsumed :
    (k : Text) (r : Relay) (c : ℕ × Call) → Spares k c → IsConsumed k r → IsConsumed k (step r c)
unfolding step authorize_session
step-IsConsumed k r (now, opens_tunnel uuid o) spares h =
    rw (open_host_tunnel-sessions now uuid o r) h
step-IsConsumed k r (now, closes_tunnel c) spares h = rw (close_host_tunnel-sessions now c r) h
step-IsConsumed k r (now, authorizes s) spares h =
    rw (get-put s.session_id k) (ground (arith, ==_iff s.session_id k))
step-IsConsumed k r (now, opens_stream uuid a q) spares h =
    open_friend_stream-IsConsumed now uuid a q k r h
step-IsConsumed k r (now, hears a q) spares h = read_session-IsConsumed (some a) q k r h
step-IsConsumed k r (now, opens_later held uuid found q) spares h =
    open_friend_stream_later-IsConsumed held now uuid found q k r h
step-IsConsumed k r (now, transfers key n) spares h = rw (record_transfer-sessions now key n r) h
step-IsConsumed k r (now, echoes key p) spares h = rw (relay_echo-sessions now key p r) h
step-IsConsumed k r (now, disconnects key most failing) spares h =
    rw (disconnect_stream-sessions now key most failing r) h

pub run-IsConsumed :
    (k : Text) (r : Relay) (cs : List (ℕ × Call))
    → All (Spares k) cs
    → IsConsumed k r
    → IsConsumed k (run r cs)
unfolding run
run-IsConsumed k r [] spares h = h
run-IsConsumed k r (c ∷ cs) spares h =
    run-IsConsumed k (step r c) cs spares.1 (step-IsConsumed k r c spares.0 h)

put-HasOwnKeys : (s : Session) (m : Map Session) → HasOwnKeys m → HasOwnKeys (put s.session_id s m)
put-HasOwnKeys s m h k x found =
    ground (arith, get-put s.session_id k s m, ==_iff s.session_id k, h k x)

read_session-IsKeyed :
    (answer : Option ServiceAnswer) (q : Request) (r : Relay)
    → IsKeyed r
    → IsKeyed (read_session answer q r).0
unfolding read_session store_service_session normalize_session
read_session-IsKeyed none q r h = λ k s e. h k s (ground arith)
read_session-IsKeyed (some (err x)) q r h = h
read_session-IsKeyed (some (ok a)) q r h = put-HasOwnKeys _ r.sessions h

open_friend_stream-IsKeyed :
    (now : ℕ) (uuid : String) (answer : Option ServiceAnswer) (q : Request) (r : Relay)
    → IsKeyed r
    → IsKeyed (open_friend_stream now uuid answer q r).0
unfolding fail_open admit
open_friend_stream-IsKeyed now uuid answer q r h =
    let read = read_session-IsKeyed answer q r h in
    open_friend_stream_cases now uuid answer q r (λ x. IsKeyed x.0) (λ e. read)
      (λ s t _ _. put-HasOwnKeys (record s { consumed_at = some now }) _ read)

open_friend_stream_later-IsKeyed :
    (held : Bool) (now : ℕ) (uuid : String) (found : Result Reason Session) (q : Request)
    (r : Relay)
    → IsKeyed r
    → IsKeyed (open_friend_stream_later held now uuid found q r).0
unfolding fail_open admit
open_friend_stream_later-IsKeyed true now uuid found q r h =
    open_friend_stream_later_cases now uuid found q r (λ x. IsKeyed x.0) true (λ e. h)
      (λ s t _ _. put-HasOwnKeys (record s { consumed_at = some now }) _ h)
open_friend_stream_later-IsKeyed false now uuid found q r h =
    open_friend_stream_later_cases now uuid found q r (λ x. IsKeyed x.0) false (λ e. h)
      (λ s t _ _. h)

step-IsKeyed : (r : Relay) (c : ℕ × Call) → IsKeyed r → IsKeyed (step r c)
unfolding step authorize_session
step-IsKeyed r (now, opens_tunnel uuid o) h = rw (open_host_tunnel-sessions now uuid o r) h
step-IsKeyed r (now, closes_tunnel c) h = rw (close_host_tunnel-sessions now c r) h
step-IsKeyed r (now, authorizes s) h =
    put-HasOwnKeys (record s { authorized_at = some now }) r.sessions h
step-IsKeyed r (now, opens_stream uuid a q) h = open_friend_stream-IsKeyed now uuid a q r h
step-IsKeyed r (now, hears a q) h = read_session-IsKeyed (some a) q r h
step-IsKeyed r (now, opens_later held uuid found q) h =
    open_friend_stream_later-IsKeyed held now uuid found q r h
step-IsKeyed r (now, transfers key n) h = rw (record_transfer-sessions now key n r) h
step-IsKeyed r (now, echoes key p) h = rw (relay_echo-sessions now key p r) h
step-IsKeyed r (now, disconnects key most failing) h =
    rw (disconnect_stream-sessions now key most failing r) h

pub run-IsKeyed :
    (credentials : Map Text) (quotas : Quotas) (calls : List (ℕ × Call))
    → IsKeyed (run (init credentials quotas) calls)
run-IsKeyed credentials quotas calls =
    run_induction IsKeyed step-IsKeyed (init credentials quotas) calls (λ k s e. unfold get in cc)
