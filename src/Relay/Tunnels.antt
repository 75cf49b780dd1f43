-- ===== src/Relay/Tunnels.antt =====
-- `openHostTunnel` and `closeHostTunnel`. The uuid that a call draws and the time are arguments.
use easy_mc_server.Prelude.{
  ℕ, ◌+◌, String, Bool, false, not, ◌&&◌, ◌||◌, Option, none, some, Text, ◌==◌, str, truthy,
  or_else, eqb, Result, ok, if◌then◌else◌,
}
use Prim.Native.String.{◌++◌ as append}
use easy_mc_server.Prelude.Map.{get, put, find_entry, for_values}
use easy_mc_server.Relay.State.{
  Reason, host_tunnel_unauthorized, open_proxy_blocked, host_tunnel_conflict,
  host_tunnel_unavailable, Target, Tunnel, TunnelState, tunnel_is_open, Stream, Journal, Relay,
  is_open, record_event, close_stream, refuse, host_tunnel_authorized, host_tunnel_opened,
  host_tunnel_closed,
}

unfoldable pub is_minecraft_loopback_target : Option Target → Bool
is_minecraft_loopback_target none = false
is_minecraft_loopback_target (some t) =
    t.kind == str "minecraft" && t.host == str "127.0.0.1" && eqb t.port 25565

-- The body of the loop over the streams, with the count of those that it closed.
unfoldable pub close_if_through : Text → Text → ℕ → Stream → Journal × ℕ → Stream × (Journal × ℕ)
unfolding close_stream
close_if_through tunnel_id reason now s (j, n) =
    if s.tunnel_id == tunnel_id && is_open s.state
    then (let (s', j') = close_stream now reason s j in (s', (j', n + 1)))
    else (s, (j, n))

-- The answer of `closeHostTunnel`: the tunnel and the number of streams that were closed with it.
pub record ClosedTunnel : Type 0 where
  pub tunnel : Tunnel
  pub closed_streams : ℕ

abbrev pub count_close : Journal → Journal
count_close j = record j {
  metrics = record j.metrics { host_tunnels_closed = j.metrics.host_tunnels_closed + 1 };
}

-- The part of `closeHostTunnel` behind its guards.
unfoldable pub shut_tunnel : ℕ → Text → Text → Tunnel → Relay → Relay × ClosedTunnel
unfolding record_event
shut_tunnel now reason key t r =
    let t' = record t { state = TunnelState.closed; closed_at = some now } in
    let (streams, (j', n)) =
      for_values (close_if_through t.id reason now) r.streams (count_close r.journal, 0) in
    (
      record r {
        tunnels = put key t' r.tunnels;
        streams = streams;
        journal = record_event now (host_tunnel_closed t.id t.room_id reason n) j';
      },
      record { tunnel = t'; closed_streams = n },
    )

pub record CloseTunnel : Type 0 where
  pub tunnel_id : Text
  pub room_id : Text
  pub host_id : Text
  pub host_token : Text
  pub reason : Text

-- `none` where no tunnel is found, else its key and the tunnel.
unfoldable pub tunnel_for_close : Relay → CloseTunnel → Option (Text × Tunnel)
tunnel_for_close r c =
    if truthy c.tunnel_id
    then find_entry (λ t. t.id == c.tunnel_id) r.tunnels
    else elim (get c.room_id r.tunnels) [ none ↦ none | some t ↦ some (c.room_id, t) ]

-- The guards of `closeHostTunnel`, on the tunnel that was found.
unfoldable pub close_found :
    ℕ → CloseTunnel → Text → Tunnel → Relay → Relay × Result Reason ClosedTunnel
close_found now c key t r =
    if not (or_else c.host_id t.host_id == t.host_id)
      || not (host_tunnel_authorized r t.host_id t.room_id c.host_token)
    then refuse r host_tunnel_unauthorized
    else if tunnel_is_open t.state
    then (let (r', n) = shut_tunnel now (or_else c.reason (str "host_closed")) key t r in
        (r', ok n))
    else (r, ok (record { tunnel = t; closed_streams = 0 }))

unfoldable pub close_host_tunnel : ℕ → CloseTunnel → Relay → Relay × Result Reason ClosedTunnel
close_host_tunnel now c r = elim (tunnel_for_close r c) [
  | none ↦ refuse r host_tunnel_unavailable
  | some (key, t) ↦ close_found now c key t r
]

pub record OpenTunnel : Type 0 where
  pub host_id : Text
  pub room_id : Text
  pub target : Option Target
  pub host_token : Text

-- The tunnel is stored under its room, over the one that was there.
unfoldable pub install_tunnel :
    ℕ → String → OpenTunnel → Target → Relay → Relay × Result Reason Tunnel
unfolding record_event
install_tunnel now uuid o target r =
    let t : Tunnel = record {
      id = str (append "relay_tunnel_" uuid);
      host_id = o.host_id;
      room_id = o.room_id;
      target = target;
      opened_at = now;
      closed_at = none;
      state = TunnelState.opened;
    } in
    let m = r.journal.metrics in
    let j = record r.journal {
      metrics = record m { host_tunnels_opened = m.host_tunnels_opened + 1 };
    } in
    (
      record r {
        tunnels = put o.room_id t r.tunnels;
        journal = record_event now (host_tunnel_opened t.id o.host_id o.room_id target) j;
      },
      ok t,
    )

-- What is done about a tunnel that the room has already: `none` is a conflict.
unfoldable pub make_room : ℕ → OpenTunnel → Relay → Option Relay
make_room now o r = elim (get o.room_id r.tunnels) [
  | none ↦ some r
  | some t ↦
      if tunnel_is_open t.state
      then (if t.host_id == o.host_id
          then some
              (close_host_tunnel now
                (record {
                  tunnel_id = t.id;
                  room_id = Text.undefined;
                  host_id = o.host_id;
                  host_token = o.host_token;
                  reason = str "replaced_by_same_host";
                })
                r).0
          else none)
      else some r
]

-- The guard on the target and what follows it.
unfoldable pub open_to :
    ℕ → String → OpenTunnel → Option Target → Relay → Relay × Result Reason Tunnel
open_to now uuid o none r = refuse r open_proxy_blocked
open_to now uuid o (some target) r =
    if not (is_minecraft_loopback_target (some target))
    then refuse r open_proxy_blocked
    else elim (make_room now o r) [
      | none ↦ refuse r host_tunnel_conflict
      | some r' ↦ install_tunnel now uuid o target r'
    ]

unfoldable pub open_host_tunnel : ℕ → String → OpenTunnel → Relay → Relay × Result Reason Tunnel
unfolding open_to
open_host_tunnel now uuid o r =
    if not (host_tunnel_authorized r o.host_id o.room_id o.host_token)
    then refuse r host_tunnel_unauthorized
    else open_to now uuid o o.target r
