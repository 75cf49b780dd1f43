-- ===== src/HostTunnel/Proofs.antt =====
-- What the relay makes of the plan of a tunnel.
use easy_mc_server.Prelude.{
  ℕ, String, ◌≡◌, refl, sym, ap, subst, ◌∙◌, Bool, true, false, not, ◌&&◌, ◌||◌, Option, none, some,
  Text, undefined, str, truthy, ◌==◌, ==_iff, ==_refl, get_or, or_else, Result, ok, err, arith,
  Bool-cases, Option-cases, inl, inr, eqb, if◌then◌else◌,
}
use Prim.Native.String.{◌++◌ as append}
use easy_mc_server.Prelude.Map.{get, put}
use easy_mc_server.Prelude.Map.Laws.{get-put_self}
use easy_mc_server.Relay.State.{
  Relay, Target, Tunnel, TunnelState, tunnel_is_open, host_tunnel_authorized, Reason, record_event,
}
use easy_mc_server.Relay.Tunnels.{
  OpenTunnel, CloseTunnel, ClosedTunnel, open_host_tunnel, open_to, make_room, install_tunnel,
  close_host_tunnel, tunnel_for_close, is_minecraft_loopback_target,
}
use easy_mc_server.Relay.Proofs.Closing.{Closes, close_host_tunnel-Closes}
use easy_mc_server.HostTunnel.Plan.{
  TunnelInput, TunnelFailure, TunnelPlan, minecraft_target, is_minecraft_room_target,
  tunnel_plan_of, create_host_tunnel_plan, open_request, close_request, CloseFrame,
}
mod Tests

-- A plan that is made is that of the target, which is the room's.
plan_made :
    (input : TunnelInput) (p : TunnelPlan)
    → create_host_tunnel_plan input ≡ ok p
    → let target = get_or input.local_target minecraft_target in
      (tunnel_plan_of input target ≡ p) × (is_minecraft_loopback_target (some target) ≡ true)
unfolding create_host_tunnel_plan is_minecraft_room_target is_minecraft_loopback_target
plan_made input p e = (ground (arith, e), ground (arith, e))

-- The state of a room at the relay in which no tunnel is open.
abbrev HasNoOpenTunnel : Text → Relay → Type 0
HasNoOpenTunnel room r = (t : Tunnel) → get room r.tunnels ≡ some t → tunnel_is_open t.state ≡ false

make_room-same :
    (now : ℕ) (o : OpenTunnel) (r : Relay)
    → HasNoOpenTunnel o.room_id r
    → make_room now o r ≡ some r
unfolding make_room
make_room-same now o r h = elim (Option-cases (get o.room_id r.tunnels)) [
  | inl e ↦ rw (e, make_room) refl
  | inr (t, e) ↦ rw (e, make_room) (rw (h t e) refl)
]

open_host_tunnel-installs :
    (now : ℕ) (uuid : String) (o : OpenTunnel) (target : Target) (r : Relay)
    → o.target ≡ some target
    → is_minecraft_loopback_target (some target) ≡ true
    → host_tunnel_authorized r o.host_id o.room_id o.host_token ≡ true
    → HasNoOpenTunnel o.room_id r
    → open_host_tunnel now uuid o r ≡ install_tunnel now uuid o target r
unfolding open_host_tunnel make_room install_tunnel
open_host_tunnel-installs now uuid o target r is_target loopback allowed none_open =
    rw (allowed, is_target, open_host_tunnel)
      (rw (loopback, make_room-same now o r none_open, open_to) refl)

or_else_idem : (t : Text) → or_else t t ≡ t
unfolding or_else
or_else_idem undefined = refl
or_else_idem (str s) = refl

tunnel_for_close-frame :
    (f : CloseFrame) (t : Tunnel) (r : Relay)
    → get f.room_id r.tunnels ≡ some t
    → tunnel_for_close r (close_request f) ≡ some (f.room_id, t)
unfolding tunnel_for_close truthy
tunnel_for_close-frame f t r e = rw (e, tunnel_for_close) refl

-- The tunnel that a frame opens.
abbrev new_tunnel : TunnelInput → ℕ → String → Tunnel
new_tunnel input now uuid = record {
  id = str (append "relay_tunnel_" uuid);
  host_id = input.host_id;
  room_id = input.room_id;
  target = get_or input.local_target minecraft_target;
  opened_at = now;
  closed_at = none;
  state = TunnelState.opened;
}

-- The frames of a plan, the one after the other: the first opens a tunnel of the host for the room, to
-- the Minecraft port of this computer, and the second closes it.
abbrev pub OpensAndCloses : TunnelInput → ℕ → ℕ → String → Relay → TunnelPlan → Type 0
OpensAndCloses input now later uuid r p =
    let out = open_host_tunnel now uuid (open_request p.open_frame) r in
    let end = close_host_tunnel later (close_request p.close_frame) out.0 in
    (t : Tunnel) × (out.1 ≡ ok t)
    × (get input.room_id out.0.tunnels ≡ some t)
    × (t.host_id ≡ input.host_id)
    × (t.state ≡ TunnelState.opened)
    × (is_minecraft_loopback_target (some t.target) ≡ true)
    × (x : ClosedTunnel) × (end.1 ≡ ok x)
    × (x.tunnel ≡ record t { state = TunnelState.closed; closed_at = some later })
    × (get input.room_id end.0.tunnels ≡ some x.tunnel)

-- Where the relay knows the credential of the host and the room has no open tunnel, the frame of a plan
-- opens a tunnel of the host for the room to the Minecraft port of this computer, and the frame for
-- closing closes that tunnel.
pub create_host_tunnel_plan-OpensAndCloses :
    (input : TunnelInput) (p : TunnelPlan) (now later : ℕ) (uuid : String) (r : Relay)
    → create_host_tunnel_plan input ≡ ok p
    → host_tunnel_authorized r input.host_id input.room_id input.host_tunnel_token ≡ true
    → ((t : Tunnel) → get input.room_id r.tunnels ≡ some t → tunnel_is_open t.state ≡ false)
    → OpensAndCloses input now later uuid r p
unfolding tunnel_plan_of install_tunnel tunnel_for_close host_tunnel_authorized
create_host_tunnel_plan-OpensAndCloses input p now later uuid r e allowed none_open =
    let target = get_or input.local_target minecraft_target in
    let (is_plan, loopback) = plan_made input p e in
    let o = open_request (tunnel_plan_of input target).open_frame in
    let c = close_request (tunnel_plan_of input target).close_frame in
    let out = install_tunnel now uuid o target r in
    let installs = open_host_tunnel-installs now uuid o target r refl loopback allowed none_open in
    let t = new_tunnel input now uuid in
    let found = get-put_self input.room_id t r.tunnels in
    let (x, done, closes) =
      close_host_tunnel-Closes later c input.room_id t out.0
        (tunnel_for_close-frame (tunnel_plan_of input target).close_frame t out.0 found)
        (or_else_idem input.host_id) allowed refl in
    subst (OpensAndCloses input now later uuid r) is_plan
      (rw installs (t, refl, found, refl, refl, loopback, x, done, closes.answer, closes.tunnel))
