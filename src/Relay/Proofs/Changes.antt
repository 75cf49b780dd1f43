-- ===== src/Relay/Proofs/Changes.antt =====
-- What the calls of the relay do to its streams: but for a stream that is opened, each call revises
-- streams that are there, and a revised stream keeps its identity and is not opened again.
use easy_mc_server.Prelude.{
  ℕ, zero, suc, ◌+◌, ◌≤◌, ◌≡◌, refl, subst, Text, Option, some, List, arith, String, bit,
  Bool-cases, inl, inr,
}
use easy_mc_server.Prelude.Map.{get, put, for_values}
use easy_mc_server.Relay.State.{
  Relay, Stream, PublicStream, is_open, Reason, Tunnel, Target, Journal, Request, Payload,
  close_stream,
}
use easy_mc_server.Relay.Tunnels.{
  OpenTunnel, CloseTunnel, open_host_tunnel, close_host_tunnel, make_room, install_tunnel,
  shut_tunnel, close_if_through,
}
use easy_mc_server.Relay.Sessions.{ServiceAnswer, read_session, store_service_session}
use easy_mc_server.Relay.Streams.{fail_open}
use easy_mc_server.Relay.Transfers.{
  Amount, nat, byte_length, Transfer, record_transfer, relay_echo, stop, commit_transfer,
  echo_frames,
}
use easy_mc_server.Relay.Disconnect.{
  Disconnect, disconnect_stream, try_disconnect, finish_disconnect, Attempt, retry, retrying,
  listed,
}
use easy_mc_server.Relay.Cases.{
  record_transfer_cases, transfer_within_cases, relay_echo_cases, close_host_tunnel_cases,
  make_room_cases, open_host_tunnel_cases, disconnect_stream_cases,
}

pub record Revises (s s' : Stream) : Type 0 where
  pub id : s'.id ≡ s.id
  pub room_id : s'.room_id ≡ s.room_id
  pub host_id : s'.host_id ≡ s.host_id
  pub friend_id : s'.friend_id ≡ s.friend_id
  pub tunnel_id : s'.tunnel_id ≡ s.tunnel_id
  pub target : s'.target ≡ s.target
  pub is_open : bit (is_open s'.state) ≤ bit (is_open s.state)

pub data Change (r r' : Relay) : Type 0 where
  same : r'.streams ≡ r.streams → Change r r'
  one :
      (key : Text) (s s' : Stream)
      → get key r.streams ≡ some s
      → Revises s s'
      → r'.streams ≡ put key s' r.streams
      → Change r r'
  swept :
      (id reason : Text) (now : ℕ) (x : Journal × ℕ)
      → r'.streams ≡ (for_values (close_if_through id reason now) r.streams x).0
      → Change r r'

-- A chain of changes under the same quotas.
pub data Evolves (r : Relay) : Relay → Type 0 where
  here : Evolves r r
  next : {m n : Relay} → Evolves r m → n.quotas ≡ m.quotas → Change m n → Evolves r n

pub Evolves-trans : {a b c : Relay} → Evolves a b → Evolves b c → Evolves a c
Evolves-trans h here = h
Evolves-trans h (next k q c) = next (Evolves-trans h k) q c

pub Revises-refl : (s : Stream) → Revises s s
Revises-refl s = ground arith

pub Revises-trans : {a b c : Stream} → Revises a b → Revises b c → Revises a c
Revises-trans h k = ground arith

pub close_stream-Revises :
    (now : ℕ) (reason : Text) (s : Stream) (j : Journal) → Revises s (close_stream now reason s j).0
unfolding close_stream
close_stream-Revises now reason s j = ground arith

pub close_if_through-Revises :
    (id reason : Text) (now : ℕ) (s : Stream) (x : Journal × ℕ)
    → Revises s (close_if_through id reason now s x).0
unfolding close_if_through
close_if_through-Revises id reason now s x = ground arith

stop-Change :
    (A : Type 0) (now : ℕ) (label : String) (reason : Reason) (key : Text) (s : Stream) (r : Relay)
    → get key r.streams ≡ some s
    → Change r (stop {A = A} now label reason key s r).0
unfolding stop
stop-Change A now label reason key s r e =
    one key s _ e (close_stream-Revises now _ s r.journal) refl

commit-Change :
    (now : ℕ) (key : Text) (s : Stream) (n a b : ℕ) (r : Relay)
    → get key r.streams ≡ some s
    → Change r (commit_transfer now key s n a b r).0
unfolding commit_transfer
commit-Change now key s n a b r e = one key s _ e (ground arith) refl

change : {r r' : Relay} → r'.quotas ≡ r.quotas → Change r r' → Evolves r r'
change q c = next here q c

stop-quotas :
    (A : Type 0) (now : ℕ) (label : String) (reason : Reason) (key : Text) (s : Stream) (r : Relay)
    → (stop {A = A} now label reason key s r).0.quotas ≡ r.quotas
unfolding stop
stop-quotas A now label reason key s r = refl

commit-quotas :
    (now : ℕ) (key : Text) (s : Stream) (n a b : ℕ) (r : Relay)
    → (commit_transfer now key s n a b r).0.quotas ≡ r.quotas
unfolding commit_transfer
commit-quotas now key s n a b r = refl

pub record_transfer-Evolves :
    (now : ℕ) (key : Text) (a : Amount) (r : Relay) → Evolves r (record_transfer now key a r).0
record_transfer-Evolves now key a r =
    record_transfer_cases now key r (λ x. Evolves r x.0) a (λ e. here)
      (λ s n found _ _.
        transfer_within_cases now key s n r (λ x. Evolves r x.0)
          (λ label e.
            change (stop-quotas Transfer now label e key s r)
              (stop-Change Transfer now label e key s r found))
          (λ _ _ _ _.
            change (commit-quotas now key s n _ _ r) (commit-Change now key s n _ _ r found)))

echo_frames-Evolves :
    (key : Text) (p : Payload) (s : Stream) (r : Relay)
    → get key r.streams ≡ some s
    → Evolves r (echo_frames key p s r).0
unfolding echo_frames
echo_frames-Evolves key p s r e = change refl (one key s _ e (ground arith) refl)

pub relay_echo-Evolves :
    (now : ℕ) (key : Text) (p : Payload) (r : Relay) → Evolves r (relay_echo now key p r).0
relay_echo-Evolves now key p r =
    let sent = record_transfer-Evolves now key (nat (byte_length p)) r in
    relay_echo_cases now key p r (λ x. Evolves r x.0) (λ e. here) (λ e. sent)
      (λ s t _ found. Evolves-trans sent (echo_frames-Evolves key p s _ found))

try_disconnect-Revises :
    (rounds attempt failing now : ℕ) (key : Text) (s : Stream) (j : Journal) (log : List Attempt)
    → Revises s (try_disconnect rounds attempt failing now key s j log).stream
unfolding try_disconnect
try_disconnect-Revises zero attempt failing now key s j log = Revises-refl s
try_disconnect-Revises (suc rounds) attempt failing now key s j log = ground (
  arith,
  try_disconnect-Revises rounds (attempt + 1) failing now key s (retry j)
      (listed attempt retrying log),
)

finish_disconnect-Evolves :
    (now bound : ℕ) (key : Text) (s : Stream) (d : Disconnect) (r : Relay)
    → get key r.streams ≡ some s
    → Revises s d.stream
    → Evolves r (finish_disconnect now bound key d r).0
unfolding finish_disconnect
finish_disconnect-Evolves now bound key s d r e v = elim (Bool-cases d.done) [
  | inl h ↦ rw (h, finish_disconnect) (change refl (one key s _ e v refl))
  | inr h ↦ rw (h, finish_disconnect) (change refl (one key s _ e (ground arith) refl))
]

pub disconnect_stream-Evolves :
    (now : ℕ) (key : Text) (most failing : ℕ) (r : Relay)
    → Evolves r (disconnect_stream now key most failing r).0
disconnect_stream-Evolves now key most failing r =
    disconnect_stream_cases now key r (λ x. Evolves r x.0) most failing (λ e. here)
      (λ s e. finish_disconnect-Evolves now _ key s _ r e (try_disconnect-Revises _ _ _ _ _ _ _ _))

shut_tunnel-Evolves :
    (now : ℕ) (reason key : Text) (t : Tunnel) (r : Relay)
    → Evolves r (shut_tunnel now reason key t r).0
unfolding shut_tunnel
shut_tunnel-Evolves now reason key t r = change refl (swept t.id reason now _ refl)

pub close_host_tunnel-Evolves :
    (now : ℕ) (c : CloseTunnel) (r : Relay) → Evolves r (close_host_tunnel now c r).0
close_host_tunnel-Evolves now c r =
    close_host_tunnel_cases now c r (λ x. Evolves r x.0) (λ e. here) (λ t. here)
      (λ key t _ _ _. shut_tunnel-Evolves now _ key t r)

make_room-Evolves :
    (now : ℕ) (o : OpenTunnel) (r r' : Relay) → make_room now o r ≡ some r' → Evolves r r'
make_room-Evolves now o r r' =
    make_room_cases now o r (λ x. x ≡ some r' → Evolves r r') (λ e. cc)
      (λ e. subst (Evolves r) (ground arith) here)
      (λ c e. subst (Evolves r) (ground arith) (close_host_tunnel-Evolves now c r))

install_tunnel-Evolves :
    (now : ℕ) (uuid : String) (o : OpenTunnel) (t : Target) (r : Relay)
    → Evolves r (install_tunnel now uuid o t r).0
unfolding install_tunnel
install_tunnel-Evolves now uuid o t r = change refl (same refl)

pub open_host_tunnel-Evolves :
    (now : ℕ) (uuid : String) (o : OpenTunnel) (r : Relay)
    → Evolves r (open_host_tunnel now uuid o r).0
open_host_tunnel-Evolves now uuid o r =
    open_host_tunnel_cases now o r uuid (λ x. Evolves r x.0) (λ e. here)
      (λ t r' _ _ m.
        Evolves-trans (make_room-Evolves now o r r' m) (install_tunnel-Evolves now uuid o t r'))

pub read_session-Evolves :
    (answer : Option ServiceAnswer) (q : Request) (r : Relay)
    → Evolves r (read_session answer q r).0
unfolding read_session store_service_session
read_session-Evolves answer q r = change (ground arith) (same (ground arith))

pub fail_open-Evolves :
    (now : ℕ) (e : Reason) (q : Request) (r : Relay)
    → Evolves r (fail_open {A = PublicStream} now e q r).0
unfolding fail_open
fail_open-Evolves now e q r = change refl (same refl)
