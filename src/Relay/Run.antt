-- ===== src/Relay/Run.antt =====
-- A history of calls on the relay. Each call carries the time and the uuid that it meets. Where the
-- session service answers with a promise, a request takes two calls: `hears` when the answer is there,
-- and `opens_later`, with what was read then, and whether the map still holds that object.
use easy_mc_server.Prelude.{ℕ, String, Bool, Option, some, Result, List, [], ◌∷◌, Text}
use easy_mc_server.Relay.State.{Reason, Session, Payload, Request, Relay}
use easy_mc_server.Relay.Tunnels.{OpenTunnel, CloseTunnel, open_host_tunnel, close_host_tunnel}
use easy_mc_server.Relay.Sessions.{ServiceAnswer, read_session, authorize_session}
use easy_mc_server.Relay.Streams.{open_friend_stream, open_friend_stream_later}
use easy_mc_server.Relay.Transfers.{Amount, record_transfer, relay_echo}
use easy_mc_server.Relay.Disconnect.{disconnect_stream}

pub data Call : Type 0 where
  opens_tunnel : String → OpenTunnel → Call
  closes_tunnel : CloseTunnel → Call
  authorizes : Session → Call
  opens_stream : String → Option ServiceAnswer → Request → Call
  hears : ServiceAnswer → Request → Call
  opens_later : Bool → String → Result Reason Session → Request → Call
  transfers : Text → Amount → Call
  echoes : Text → Payload → Call
  disconnects : Text → ℕ → ℕ → Call

unfoldable pub step : Relay → ℕ × Call → Relay
step r (now, opens_tunnel uuid o) = (open_host_tunnel now uuid o r).0
step r (now, closes_tunnel c) = (close_host_tunnel now c r).0
step r (now, authorizes s) = authorize_session now s r
step r (now, opens_stream uuid a q) = (open_friend_stream now uuid a q r).0
step r (now, hears a q) = (read_session (some a) q r).0
step r (now, opens_later held uuid found q) = (open_friend_stream_later held now uuid found q r).0
step r (now, transfers key n) = (record_transfer now key n r).0
step r (now, echoes key p) = (relay_echo now key p r).0
step r (now, disconnects key most failing) = (disconnect_stream now key most failing r).0

unfoldable pub run : Relay → List (ℕ × Call) → Relay
run r [] = r
run r (c ∷ cs) = run (step r c) cs

-- What every call keeps holds after every history.
pub run_induction {ℓ} :
    (P : Relay → Type ℓ)
    → ((r : Relay) (c : ℕ × Call) → P r → P (step r c))
    → (r : Relay) (cs : List (ℕ × Call)) → P r
    → P (run r cs)
unfolding run
run_induction P keep r [] h = h
run_induction P keep r (c ∷ cs) h = run_induction P keep (step r c) cs (keep r c h)
