-- ===== src/Relay/Proofs/Loopback.antt =====
-- The relay is no open proxy: every tunnel and every stream leads to a Minecraft server on the
-- host's own machine.
use easy_mc_server.Prelude.{
  Result, false, Bool, ℕ, ◌↔◌, str, ◌==◌, ==_iff, ◌≡◌, refl, subst, true, Text, truthy, Option,
  some, List, arith, String, inl, inr, Bool-cases,
}
use easy_mc_server.Prelude.Map.{Map, Values}
use easy_mc_server.Prelude.Map.Laws.{Values-put, Values-get, Values-find_entry}
use easy_mc_server.Prelude.Map.Loops.{for_values_inv}
use easy_mc_server.Relay.State.{
  Reason, Session, Relay, Stream, Quotas, init, Tunnel, Target, Request, Payload,
}
use easy_mc_server.Relay.Tunnels.{
  OpenTunnel, CloseTunnel, open_host_tunnel, close_host_tunnel, make_room, install_tunnel,
  shut_tunnel, close_if_through, is_minecraft_loopback_target, tunnel_for_close,
}
use easy_mc_server.Relay.Sessions.{
  ServiceAnswer, read_session, store_service_session, authorize_session,
}
use easy_mc_server.Relay.Streams.{
  open_friend_stream, open_friend_stream_later, fail_open, admit, new_stream, marked,
}
use easy_mc_server.Relay.Cases.{
  record_transfer_cases, transfer_within_cases, relay_echo_cases, disconnect_stream_cases,
  close_host_tunnel_cases, make_room_cases, open_host_tunnel_cases, open_friend_stream_cases,
  open_friend_stream_later_cases,
}
use easy_mc_server.Relay.Transfers.{
  Amount, nat, byte_length, record_transfer, relay_echo, stop, commit_transfer, echo_frames,
}
use easy_mc_server.Relay.Disconnect.{disconnect_stream, finish_disconnect, Disconnect}
use easy_mc_server.Relay.Run.{
  Call, opens_tunnel, closes_tunnel, authorizes, opens_stream, hears, opens_later, transfers,
  echoes, disconnects, step, run, run_induction,
}
use easy_mc_server.Relay.Proofs.Admission.{check_open_iff}
use easy_mc_server.Relay.Proofs.Changes.{
  Revises, Change, same, one, swept, Evolves, here, next, close_if_through-Revises,
  record_transfer-Evolves, relay_echo-Evolves, disconnect_stream-Evolves, close_host_tunnel-Evolves,
  open_host_tunnel-Evolves, read_session-Evolves,
}

abbrev pub IsLoopback : Target → Type 0
IsLoopback t = is_minecraft_loopback_target (some t) ≡ true

abbrev pub AllTunnels : Map Tunnel → Type 0
AllTunnels = Values (λ t. IsLoopback t.target)

abbrev pub AllStreams : Map Stream → Type 0
AllStreams = Values (λ s. IsLoopback s.target)

pub record IsConfined (r : Relay) : Type 0 where
  pub tunnels : AllTunnels r.tunnels
  pub streams : AllStreams r.streams

Revises-IsLoopback : {s s' : Stream} → Revises s s' → IsLoopback s.target → IsLoopback s'.target
Revises-IsLoopback v h = rw (v.target) h

Change-AllStreams : {r r' : Relay} → Change r r' → AllStreams r.streams → AllStreams r'.streams
Change-AllStreams (same e) h = rw e h
Change-AllStreams {r} (one key s s' found v e) h =
    rw e
      (Values-put _ key s' r.streams (Revises-IsLoopback v (Values-get _ key r.streams h found)) h)
Change-AllStreams {r} (swept id reason now x e) h =
    rw e
      (for_values_inv (close_if_through id reason now) (λ s. IsLoopback s.target) (λ _. Unit {0})
        (λ s y k _. (Revises-IsLoopback (close_if_through-Revises id reason now s y) k, tt))
        r.streams x h tt).0

Evolves-AllStreams : {r r' : Relay} → Evolves r r' → AllStreams r.streams → AllStreams r'.streams
Evolves-AllStreams here h = h
Evolves-AllStreams (next e q c) h = Change-AllStreams c (Evolves-AllStreams e h)

-- Only the two calls on tunnels write to the tunnels.
shut_tunnel-AllTunnels :
    (now : ℕ) (reason key : Text) (t : Tunnel) (r : Relay)
    → IsLoopback t.target
    → AllTunnels r.tunnels
    → AllTunnels (shut_tunnel now reason key t r).0.tunnels
unfolding shut_tunnel
shut_tunnel-AllTunnels now reason key t r ht h = Values-put _ key _ r.tunnels ht h

tunnel_for_close-IsLoopback :
    (r : Relay) (c : CloseTunnel) {key : Text} {t : Tunnel}
    → AllTunnels r.tunnels
    → tunnel_for_close r c ≡ some (key, t)
    → IsLoopback t.target
unfolding tunnel_for_close
tunnel_for_close-IsLoopback r c {key = key} {t = t} h e = elim (Bool-cases (truthy c.tunnel_id)) [
  | inl b ↦
      Values-find_entry (λ (u : Tunnel). IsLoopback u.target) (λ (u : Tunnel). u.id == c.tunnel_id)
        r.tunnels {k = key} {v = t} h (ground arith)
  | inr b ↦
      Values-get (λ (u : Tunnel). IsLoopback u.target) c.room_id r.tunnels {v = t} h (ground arith)
]

close_host_tunnel-AllTunnels :
    (now : ℕ) (c : CloseTunnel) (r : Relay)
    → AllTunnels r.tunnels
    → AllTunnels (close_host_tunnel now c r).0.tunnels
close_host_tunnel-AllTunnels now c r h =
    close_host_tunnel_cases now c r (λ x. AllTunnels x.0.tunnels) (λ e. h) (λ t. h)
      (λ key t found _ _.
        shut_tunnel-AllTunnels now _ key t r (tunnel_for_close-IsLoopback r c h found) h)

make_room-AllTunnels :
    (now : ℕ) (o : OpenTunnel) (r r' : Relay)
    → AllTunnels r.tunnels
    → make_room now o r ≡ some r'
    → AllTunnels r'.tunnels
make_room-AllTunnels now o r r' h =
    make_room_cases now o r (λ x. x ≡ some r' → AllTunnels r'.tunnels) (λ e. cc)
      (λ e. let r-eq : r ≡ r' = ground arith in subst (λ (x : Relay). AllTunnels x.tunnels) r-eq h)
      (λ c e.
        let closed-eq : (close_host_tunnel now c r).0 ≡ r' = ground arith in
        subst (λ (x : Relay). AllTunnels x.tunnels) closed-eq
          (close_host_tunnel-AllTunnels now c r h))

install_tunnel-AllTunnels :
    (now : ℕ) (uuid : String) (o : OpenTunnel) (t : Target) (r : Relay)
    → IsLoopback t
    → AllTunnels r.tunnels
    → AllTunnels (install_tunnel now uuid o t r).0.tunnels
unfolding install_tunnel
install_tunnel-AllTunnels now uuid o t r ht h = Values-put _ o.room_id _ r.tunnels ht h

open_host_tunnel-AllTunnels :
    (now : ℕ) (uuid : String) (o : OpenTunnel) (r : Relay)
    → AllTunnels r.tunnels
    → AllTunnels (open_host_tunnel now uuid o r).0.tunnels
open_host_tunnel-AllTunnels now uuid o r h =
    open_host_tunnel_cases now o r uuid (λ x. AllTunnels x.0.tunnels) (λ e. h)
      (λ t r' _ l m.
        install_tunnel-AllTunnels now uuid o t r' l (make_room-AllTunnels now o r r' h m))

-- The other calls leave the tunnels alone.
record_transfer-tunnels :
    (now : ℕ) (key : Text) (a : Amount) (r : Relay)
    → (record_transfer now key a r).0.tunnels ≡ r.tunnels
unfolding stop commit_transfer
record_transfer-tunnels now key a r =
    record_transfer_cases now key r (λ x. x.0.tunnels ≡ r.tunnels) a (λ e. refl)
      (λ s n _ _ _.
        transfer_within_cases now key s n r (λ x. x.0.tunnels ≡ r.tunnels) (λ label e. refl)
          (λ _ _ _ _. refl))

relay_echo-tunnels :
    (now : ℕ) (key : Text) (p : Payload) (r : Relay)
    → (relay_echo now key p r).0.tunnels ≡ r.tunnels
unfolding echo_frames
relay_echo-tunnels now key p r =
    let sent = record_transfer-tunnels now key (nat (byte_length p)) r in
    relay_echo_cases now key p r (λ x. x.0.tunnels ≡ r.tunnels) (λ e. refl) (λ e. sent)
      (λ s t _ _. sent)

finish_disconnect-tunnels :
    (now bound : ℕ) (key : Text) (d : Disconnect) (r : Relay)
    → (finish_disconnect now bound key d r).0.tunnels ≡ r.tunnels
unfolding finish_disconnect
finish_disconnect-tunnels now bound key d r = ground arith

disconnect_stream-tunnels :
    (now : ℕ) (key : Text) (most failing : ℕ) (r : Relay)
    → (disconnect_stream now key most failing r).0.tunnels ≡ r.tunnels
disconnect_stream-tunnels now key most failing r =
    disconnect_stream_cases now key r (λ x. x.0.tunnels ≡ r.tunnels) most failing (λ e. refl)
      (λ s e. finish_disconnect-tunnels now _ key _ r)

read_session-tunnels :
    (answer : Option ServiceAnswer) (q : Request) (r : Relay)
    → (read_session answer q r).0.tunnels ≡ r.tunnels
unfolding read_session store_service_session
read_session-tunnels answer q r = ground arith

-- A stream goes where its tunnel goes.
open_friend_stream-IsConfined :
    (now : ℕ) (uuid : String) (answer : Option ServiceAnswer) (q : Request) (r : Relay)
    → IsConfined r
    → IsConfined (open_friend_stream now uuid answer q r).0
unfolding fail_open admit new_stream
open_friend_stream-IsConfined now uuid answer q r h =
    let tunnels : AllTunnels (read_session answer q r).0.tunnels =
      rw (read_session-tunnels answer q r) h.tunnels in
    let streams = Evolves-AllStreams (read_session-Evolves answer q r) h.streams in
    open_friend_stream_cases now uuid answer q r (λ x. IsConfined x.0)
      (λ e. record { tunnels = tunnels; streams = streams })
      (λ s t _ passed. record {
        tunnels = tunnels;
        streams =
            Values-put _ _ _ _
              (Values-get (λ (u : Tunnel). IsLoopback u.target) q.room_id _ tunnels
                ((check_open_iff now q s t _).0 passed).1)
              streams;
      })

marked-IsConfined : (held : Bool) (r r' : Relay) → IsConfined r' → IsConfined (marked held r r')
marked-IsConfined true r r' h = h
marked-IsConfined false r r' h = record { tunnels = h.tunnels; streams = h.streams }

open_friend_stream_later-IsConfined :
    (held : Bool) (now : ℕ) (uuid : String) (found : Result Reason Session) (q : Request)
    (r : Relay)
    → IsConfined r
    → IsConfined (open_friend_stream_later held now uuid found q r).0
unfolding fail_open admit new_stream
open_friend_stream_later-IsConfined held now uuid found q r h =
    open_friend_stream_later_cases now uuid found q r (λ x. IsConfined x.0) held
      (λ e. record { tunnels = h.tunnels; streams = h.streams })
      (λ s t _ passed. marked-IsConfined held r _ (record {
        tunnels = h.tunnels;
        streams =
            Values-put _ _ _ _
              (Values-get (λ (u : Tunnel). IsLoopback u.target) q.room_id _ h.tunnels
                ((check_open_iff now q s t r).0 passed).1)
              h.streams;
      }))

step-IsConfined : (r : Relay) (c : ℕ × Call) → IsConfined r → IsConfined (step r c)
unfolding step authorize_session
step-IsConfined r (now, opens_tunnel uuid o) h = record {
  tunnels = open_host_tunnel-AllTunnels now uuid o r h.tunnels;
  streams = Evolves-AllStreams (open_host_tunnel-Evolves now uuid o r) h.streams;
}
step-IsConfined r (now, closes_tunnel c) h = record {
  tunnels = close_host_tunnel-AllTunnels now c r h.tunnels;
  streams = Evolves-AllStreams (close_host_tunnel-Evolves now c r) h.streams;
}
step-IsConfined r (now, authorizes s) h = record { tunnels = h.tunnels; streams = h.streams }
step-IsConfined r (now, opens_stream uuid a q) h = open_friend_stream-IsConfined now uuid a q r h
step-IsConfined r (now, hears a q) h = record {
  tunnels = rw (read_session-tunnels (some a) q r) h.tunnels;
  streams = Evolves-AllStreams (read_session-Evolves (some a) q r) h.streams;
}
step-IsConfined r (now, opens_later held uuid found q) h =
    open_friend_stream_later-IsConfined held now uuid found q r h
step-IsConfined r (now, transfers key n) h = record {
  tunnels = rw (record_transfer-tunnels now key n r) h.tunnels;
  streams = Evolves-AllStreams (record_transfer-Evolves now key n r) h.streams;
}
step-IsConfined r (now, echoes key p) h = record {
  tunnels = rw (relay_echo-tunnels now key p r) h.tunnels;
  streams = Evolves-AllStreams (relay_echo-Evolves now key p r) h.streams;
}
step-IsConfined r (now, disconnects key most failing) h = record {
  tunnels = rw (disconnect_stream-tunnels now key most failing r) h.tunnels;
  streams = Evolves-AllStreams (disconnect_stream-Evolves now key most failing r) h.streams;
}

-- After any history of calls on a new relay, every tunnel and every stream has a target that passes
-- the loopback test.
pub run-IsConfined :
    (credentials : Map Text) (quotas : Quotas) (calls : List (ℕ × Call))
    → IsConfined (run (init credentials quotas) calls)
run-IsConfined credentials quotas calls =
    run_induction IsConfined step-IsConfined (init credentials quotas) calls
      (record { tunnels = tt; streams = tt })

-- The loopback test passes exactly the target of kind minecraft at 127.0.0.1, port 25565.
pub IsLoopback-iff :
    (t : Target)
    → IsLoopback t ↔ ((t.kind ≡ str "minecraft") × (t.host ≡ str "127.0.0.1") × (t.port ≡ 25565))
unfolding is_minecraft_loopback_target
IsLoopback-iff t = (
  λ h. ground (arith, ==_iff t.kind (str "minecraft"), ==_iff t.host (str "127.0.0.1")),
  λ h. ground (arith, ==_iff t.kind (str "minecraft"), ==_iff t.host (str "127.0.0.1")),
)
