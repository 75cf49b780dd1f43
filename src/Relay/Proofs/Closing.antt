-- ===== src/Relay/Proofs/Closing.antt =====
-- Closing and opening host tunnels: what a close does to the streams, and what is refused.
use easy_mc_server.Prelude.{
  ℕ, ◌+◌, ◌≡◌, refl, ap, ◌∙◌, Bool, true, ◌&&◌, Text, ◌==◌, ==_iff, or_else, str, some, arith,
  String, ok, Result, bit, if◌then◌else◌,
}
use easy_mc_server.Prelude.Map.{get, count, map_values}
use easy_mc_server.Prelude.Map.Laws.{get-put_self}
use easy_mc_server.Prelude.Map.Loops.{
  for_values-eq-map_values, for_values_tally, count-map_values_zero,
}
use easy_mc_server.Relay.State.{
  Relay, Stream, StreamState, Reason, Tunnel, TunnelState, Journal, is_open, host_tunnel_authorized,
}
use easy_mc_server.Relay.Tunnels.{
  OpenTunnel, CloseTunnel, ClosedTunnel, open_host_tunnel, close_host_tunnel, close_found,
  shut_tunnel, tunnel_for_close, count_close, close_if_through, install_tunnel,
}
use easy_mc_server.Relay.Cases.{close_host_tunnel_cases, open_host_tunnel_cases}
use easy_mc_server.Relay.Proofs.Consumed.{is_refused}

abbrev pub goes_through : Text → Stream → Bool
goes_through id s = s.tunnel_id == id && is_open s.state

-- A stream after its tunnel was closed.
abbrev pub hang_up : Text → ℕ → Stream → Stream
hang_up id now s =
    if goes_through id s then record s { state = StreamState.closed; closed_at = some now } else s

close_if_through-hang_up :
    (id reason : Text) (now : ℕ) (s : Stream) (x : Journal × ℕ)
    → (close_if_through id reason now s x).0 ≡ hang_up id now s
unfolding close_if_through
close_if_through-hang_up id reason now s x = ground arith

close_if_through-count :
    (id reason : Text) (now : ℕ) (s : Stream) (x : Journal × ℕ)
    → (close_if_through id reason now s x).1.1 ≡ x.1 + bit (goes_through id s)
unfolding close_if_through
close_if_through-count id reason now s x = ground arith

close_if_through-closed :
    (id reason : Text) (now : ℕ) (s : Stream) (x : Journal × ℕ)
    → (close_if_through id reason now s x).1.0.metrics.friend_streams_closed
      ≡ x.0.metrics.friend_streams_closed + bit (goes_through id s)
unfolding close_if_through
close_if_through-closed id reason now s x = ground arith

-- What a close of an open tunnel amounts to.
pub record Closes (now : ℕ) (key : Text) (t : Tunnel) (r r' : Relay) (x : ClosedTunnel)
    : Type 0 where
  pub answer : x.tunnel ≡ record t { state = TunnelState.closed; closed_at = some now }
  pub tunnel : get key r'.tunnels ≡ some x.tunnel
  pub streams : r'.streams ≡ map_values (hang_up t.id now) r.streams
  pub none_left : count (goes_through t.id) r'.streams ≡ 0
  pub counted : x.closed_streams ≡ count (goes_through t.id) r.streams
  pub metric :
      r'.journal.metrics.friend_streams_closed
      ≡ r.journal.metrics.friend_streams_closed + x.closed_streams

shut_tunnel-Closes :
    (now : ℕ) (reason key : Text) (t : Tunnel) (r : Relay)
    → let (r', x) = shut_tunnel now reason key t r in Closes now key t r r' x
unfolding shut_tunnel
shut_tunnel-Closes now reason key t r =
    let body = close_if_through t.id reason now in
    let start : Journal × ℕ = (count_close r.journal, 0) in
    let same =
      for_values-eq-map_values body (hang_up t.id now) (close_if_through-hang_up t.id reason now)
        r.streams start in
    let tally =
      for_values_tally body (goes_through t.id) (λ y. y.1) (close_if_through-count t.id reason now)
        r.streams start in
    record {
      answer = refl;
      tunnel = get-put_self key _ r.tunnels;
      streams = same;
      none_left =
          ap (count (goes_through t.id)) same
          ∙ count-map_values_zero (hang_up t.id now) (goes_through t.id) (λ s. ground arith)
              r.streams;
      counted = omega (arith, tally);
      metric = omega (
        arith,
        tally,
        for_values_tally body (goes_through t.id) (λ y. y.0.metrics.friend_streams_closed)
            (close_if_through-closed t.id reason now) r.streams start,
      );
    }

close_host_tunnel-eq :
    (now : ℕ) (c : CloseTunnel) (key : Text) (t : Tunnel) (r : Relay)
    → tunnel_for_close r c ≡ some (key, t)
    → or_else c.host_id t.host_id ≡ t.host_id
    → host_tunnel_authorized r t.host_id t.room_id c.host_token ≡ true
    → t.state ≡ TunnelState.opened
    → let (r', x) = shut_tunnel now (or_else c.reason (str "host_closed")) key t r in
      close_host_tunnel now c r ≡ (r', ok x)
unfolding close_host_tunnel close_found
close_host_tunnel-eq now c key t r found host allowed opened =
    rw (found, close_host_tunnel) (ground (arith, ==_iff (or_else c.host_id t.host_id) t.host_id))

-- A host with its credential closes its open tunnel: the tunnel is marked as closed, exactly the
-- open streams through it are closed with it, none is left, and their number is the answer and is
-- added to the metric of closed streams.
pub close_host_tunnel-Closes :
    (now : ℕ) (c : CloseTunnel) (key : Text) (t : Tunnel) (r : Relay)
    → tunnel_for_close r c ≡ some (key, t)
    → or_else c.host_id t.host_id ≡ t.host_id
    → host_tunnel_authorized r t.host_id t.room_id c.host_token ≡ true
    → t.state ≡ TunnelState.opened
    → (x : ClosedTunnel) × ((close_host_tunnel now c r).1 ≡ ok x)
      × Closes now key t r (close_host_tunnel now c r).0 x
close_host_tunnel-Closes now c key t r found host allowed opened =
    let e = close_host_tunnel-eq now c key t r found host allowed opened in
    let reason = or_else c.reason (str "host_closed") in
    (
      (shut_tunnel now reason key t r).1,
      ap (λ (y : Relay × Result Reason ClosedTunnel). y.1) e,
      rw e (shut_tunnel-Closes now reason key t r),
    )

-- A call on a tunnel that is refused changes nothing, whether it opens or closes one.
tunnel_refusals :
    (now : ℕ) (uuid : String) (o : OpenTunnel) (c : CloseTunnel) (r : Relay)
    → (is_refused (open_host_tunnel now uuid o r).1 ≡ true → (open_host_tunnel now uuid o r).0 ≡ r)
      × (is_refused (close_host_tunnel now c r).1 ≡ true → (close_host_tunnel now c r).0 ≡ r)
unfolding install_tunnel
tunnel_refusals now uuid o c r = (
  open_host_tunnel_cases now o r uuid (λ x. is_refused x.1 ≡ true → x.0 ≡ r) (λ e b. refl)
      (λ t r' _ _ _ b. cc),
  close_host_tunnel_cases now c r (λ x. is_refused x.1 ≡ true → x.0 ≡ r) (λ e b. refl) (λ t b. refl)
      (λ key t _ _ _ b. cc),
)
