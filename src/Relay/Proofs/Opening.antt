-- ===== src/Relay/Proofs/Opening.antt =====
-- Which calls of a host open a tunnel.
use Prim.Native.String.{◌++◌ as append}
use easy_mc_server.Prelude.{
  ℕ, ◌≡◌, ◌↔◌, refl, ap, ◌∙◌, true, false, not, ◌&&◌, Option, none, some, Text, str, show, String,
  ◌==◌, ==_iff, truthy, is_some, arith, Bool-cases, if◌then◌else◌, Option-cases, inl, inr,
}
use easy_mc_server.Prelude.Map.{get}
use easy_mc_server.Relay.State.{
  Relay, Target, Tunnel, TunnelState, tunnel_is_open, host_tunnel_authorized,
}
use easy_mc_server.Relay.Tunnels.{
  OpenTunnel, open_host_tunnel, open_to, make_room, install_tunnel, close_host_tunnel,
  is_minecraft_loopback_target,
}
use easy_mc_server.Relay.Proofs.Consumed.{is_refused}

-- A call that a relay opens a tunnel for: the host has a token, which is the one that the relay keeps for
-- this host and room, the target is the port of Minecraft on this computer, and a tunnel that is open in
-- the room is the host's own.
pub record Opens (o : OpenTunnel) (r : Relay) : Type 0 where
  pub kept :
      get (str (append (show o.room_id) (append ":" (show o.host_id)))) r.credentials
      ≡ some o.host_token
  pub given : truthy o.host_token ≡ true
  pub minecraft :
      o.target ≡ some (record { kind = str "minecraft"; host = str "127.0.0.1"; port = 25565 })
  pub own :
      (t : Tunnel)
      → get o.room_id r.tunnels ≡ some t
      → t.state ≡ TunnelState.opened
      → t.host_id ≡ o.host_id

host_tunnel_authorized-kept :
    (r : Relay) (host room token : Text)
    → host_tunnel_authorized r host room token ≡ true
    → (get (str (append (show room) (append ":" (show host)))) r.credentials ≡ some token)
      × (truthy token ≡ true)
unfolding host_tunnel_authorized truthy
host_tunnel_authorized-kept r host room token h =
    elim (Option-cases (get (str (append (show room) (append ":" (show host)))) r.credentials)) [
      | inl e ↦ absurd (ground (arith, e, h))
      | inr (kept, e) ↦
          let same : (kept == token) ≡ true = ground (arith, e, h) in
          (e ∙ ap some ((==_iff kept token).0 same), ground (arith, e, h))
    ]

kept-host_tunnel_authorized :
    (r : Relay) (host room token : Text)
    → get (str (append (show room) (append ":" (show host)))) r.credentials ≡ some token
    → truthy token ≡ true
    → host_tunnel_authorized r host room token ≡ true
unfolding host_tunnel_authorized
kept-host_tunnel_authorized r host room token kept given =
    rw (kept, given, (==_iff token token).1 refl, host_tunnel_authorized) refl

loopback-minecraft :
    (o : Option Target)
    → is_minecraft_loopback_target o ≡ true
    → o ≡ some (record { kind = str "minecraft"; host = str "127.0.0.1"; port = 25565 })
unfolding is_minecraft_loopback_target
loopback-minecraft none h = cc h
loopback-minecraft (some t) h =
    let kind = (==_iff t.kind (str "minecraft")).0 (ground arith) in
    let host = (==_iff t.host (str "127.0.0.1")).0 (ground arith) in
    let port : t.port ≡ 25565 = ground arith in
    λ i. some (record { kind = kind i; host = host i; port = port i })

make_room-own :
    (now : ℕ) (o : OpenTunnel) (r : Relay)
    → (is_some (make_room now o r) ≡ true) ↔ (
        (t : Tunnel)
        → get o.room_id r.tunnels ≡ some t
        → t.state ≡ TunnelState.opened
        → t.host_id ≡ o.host_id)
unfolding make_room
make_room-own now o r = (
  λ h t found opened. ground (arith, ==_iff t.host_id o.host_id),
  λ own. elim (Option-cases (get o.room_id r.tunnels)) [
    | inl e ↦ rw (e, make_room) refl
    | inr (t, e) ↦ rw (e, make_room) (allows t (own t e))
  ],
)
  where
    allows :
        (t : Tunnel)
        → (t.state ≡ TunnelState.opened → t.host_id ≡ o.host_id)
        → is_some (
            if tunnel_is_open t.state
            then (if t.host_id == o.host_id
                then some
                    (close_host_tunnel now
                      (record {
                        tunnel_id = t.id;
                        room_id = Text.undefined;
                        host_id = o.host_id;
                        host_token = o.host_token;
                        reason = str "replaced_by_same_host";
                      })
                      r).0
                else none)
            else some r)
          ≡ true
    allows t own = elim (Bool-cases (tunnel_is_open t.state)) [
      | inr e ↦ rw e refl
      | inl e ↦ rw (e, (==_iff t.host_id o.host_id).1 (own (ground (arith, e)))) refl
    ]

open_to-test :
    (now : ℕ) (uuid : String) (o : OpenTunnel) (target : Option Target) (r : Relay)
    → is_refused (open_to now uuid o target r).1
      ≡ not (is_minecraft_loopback_target target && is_some (make_room now o r))
unfolding open_to install_tunnel is_minecraft_loopback_target
open_to-test now uuid o none r = refl
open_to-test now uuid o (some t) r = elim (Bool-cases (is_minecraft_loopback_target (some t))) [
  | inr e ↦ rw (e, open_to) refl
  | inl e ↦ elim (Option-cases (make_room now o r)) [
    | inl m ↦ rw (e, m, open_to) refl
    | inr (r', m) ↦ rw (e, m, open_to) refl
  ]
]

open_host_tunnel-test :
    (now : ℕ) (uuid : String) (o : OpenTunnel) (r : Relay)
    → is_refused (open_host_tunnel now uuid o r).1
      ≡ not (
          host_tunnel_authorized r o.host_id o.room_id o.host_token
          && is_minecraft_loopback_target o.target
          && is_some (make_room now o r))
unfolding open_host_tunnel
open_host_tunnel-test now uuid o r =
    elim (Bool-cases (host_tunnel_authorized r o.host_id o.room_id o.host_token)) [
      | inr e ↦ rw (e, open_host_tunnel) refl
      | inl e ↦ rw (e, open_host_tunnel) (open_to-test now uuid o o.target r)
    ]

-- A tunnel is opened exactly for such a call.
pub open_host_tunnel_iff :
    (now : ℕ) (uuid : String) (o : OpenTunnel) (r : Relay)
    → (is_refused (open_host_tunnel now uuid o r).1 ≡ false) ↔ Opens o r
unfolding is_minecraft_loopback_target ◌==◌
open_host_tunnel_iff now uuid o r = (
  λ h.
      let test = open_host_tunnel-test now uuid o r in
      let authorized : host_tunnel_authorized r o.host_id o.room_id o.host_token ≡ true =
        ground arith in
      let (kept, given) =
        host_tunnel_authorized-kept r o.host_id o.room_id o.host_token authorized in
      record {
        kept = kept;
        given = given;
        minecraft = loopback-minecraft o.target (ground arith);
        own = (make_room-own now o r).0 (ground arith);
      },
  λ p.
      open_host_tunnel-test now uuid o r
      ∙ rw
          (
            kept-host_tunnel_authorized r o.host_id o.room_id o.host_token p.kept p.given,
            (make_room-own now o r).1 p.own,
            p.minecraft,
            is_minecraft_loopback_target,
            ◌==◌,
          )
          refl,
)
