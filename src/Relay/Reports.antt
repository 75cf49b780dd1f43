-- ===== src/Relay/Reports.antt =====
-- `readMetrics`: the counters, and what is computed from the maps. Room hours are given in
-- milliseconds, before the division by those of an hour.
use easy_mc_server.Prelude.{ℕ, ◌-◌, get_or}
use easy_mc_server.Prelude.Map.{Map, count, sum}
use easy_mc_server.Relay.State.{Tunnel, tunnel_is_open, is_open, Relay, Metrics}

-- `Math.max(0, closedAt - openedAt)`
unfoldable pub open_ms : ℕ → Tunnel → ℕ
open_ms now t = get_or t.closed_at now - t.opened_at

pub record Report : Type 0 where
  pub metrics : Metrics
  pub open_host_tunnels : ℕ
  pub open_friend_streams : ℕ
  pub room_ms : ℕ
  pub room_bytes : Map ℕ
  pub monthly_host_bytes : Map ℕ

unfoldable pub read_metrics : ℕ → Relay → Report
unfolding open_ms
read_metrics now r = record {
  metrics = r.journal.metrics;
  open_host_tunnels = count (λ t. tunnel_is_open t.state) r.tunnels;
  open_friend_streams = count (λ s. is_open s.state) r.streams;
  room_ms = sum (open_ms now) r.tunnels;
  room_bytes = r.room_bytes;
  monthly_host_bytes = r.monthly_host_bytes;
}
