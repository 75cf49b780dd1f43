-- ===== src/HostTunnel/Proofs/Tests.antt =====
-- A host whose room is ready asks the relay for a tunnel. The theorem on its plan is applied to it.
use easy_mc_server.Prelude.{refl, true, undefined, str, show, truthy, ◌==◌, none, [], ◌∷◌}
use easy_mc_server.Prelude.Map.{get}
use easy_mc_server.Relay.State.{Relay, init, default_quotas, host_tunnel_authorized}
use easy_mc_server.HostTunnel.Plan.{
  TunnelInput, TunnelPlan, minecraft_target, is_minecraft_room_target, tunnel_plan_of,
  create_host_tunnel_plan,
}
use easy_mc_server.HostTunnel.Proofs.{OpensAndCloses, create_host_tunnel_plan-OpensAndCloses}

abbrev ready_room : TunnelInput
ready_room = record {
  local_server_ready = true;
  room_id = str "r1";
  host_id = str "h1";
  relay_url = str "https://relay.example/?key=secret";
  host_tunnel_token = str "secret";
  relay_token = undefined;
  local_target = none;
}

abbrev ready_plan : TunnelPlan
ready_plan = tunnel_plan_of ready_room minecraft_target

abbrev quiet_relay : Relay
quiet_relay = init ((str "r1:h1", str "secret") ∷ []) default_quotas

create_host_tunnel_plan-OpensAndCloses_example :
    OpensAndCloses ready_room 5 9 "a" quiet_relay ready_plan
unfolding create_host_tunnel_plan is_minecraft_room_target host_tunnel_authorized get show truthy
    ◌==◌
create_host_tunnel_plan-OpensAndCloses_example =
    create_host_tunnel_plan-OpensAndCloses ready_room ready_plan 5 9 "a" quiet_relay refl refl
      (λ t e. cc e)
