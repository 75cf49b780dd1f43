-- ===== src/Protocol/Permissions.antt =====
-- Who may do what, as a table of rules.
use easy_mc_server.Prelude.{◌≡◌, ◌↔◌, true, ==_iff, truthy, arith}
use easy_mc_server.Protocol.{
  Actor, Action, Context, can_actor_perform, host, friend, service, service_admin,
}

-- The actions of a host on a room.
pub data HostAction : Action → Type 0 where
  create_room : HostAction Action.create_room
  create_invite : HostAction Action.create_invite
  revoke_invite : HostAction Action.revoke_invite
  read_safe_invite : HostAction Action.read_safe_invite
  read_approval_queue : HostAction Action.read_approval_queue
  approve_join : HostAction Action.approve_join
  deny_join : HostAction Action.deny_join
  block_join : HostAction Action.block_join
  read_relay_metrics : HostAction Action.read_relay_metrics

-- The rules: a host acts on a room of its own, a friend with a valid invite, the service on an
-- authorized approval, an administrator by breaking the glass.
pub data Permitted (c : Context) : Actor → Action → Type 0 where
  own_room :
      {a : Action}
      → HostAction a
      → c.room_host_id ≡ c.actor_id
      → truthy c.actor_id ≡ true
      → Permitted c host a
  read_invite : c.valid_invite ≡ true → Permitted c friend Action.read_safe_invite
  join : c.valid_invite ≡ true → Permitted c friend Action.create_join_request
  issue : c.authorized_approval ≡ true → Permitted c service Action.issue_session
  break_glass : c.break_glass ≡ true → Permitted c service_admin Action.break_glass_read

own_room-sound :
    (a : Action) (c : Context)
    → HostAction a
    → can_actor_perform host a c ≡ true
    → Permitted c host a
unfolding can_actor_perform
own_room-sound a c h p =
    own_room h (ground (arith, ==_iff c.room_host_id c.actor_id)) (ground arith)

host-sound : (a : Action) (c : Context) → can_actor_perform host a c ≡ true → Permitted c host a
unfolding can_actor_perform
host-sound Action.create_room c p = own_room-sound _ c create_room p
host-sound Action.create_invite c p = own_room-sound _ c create_invite p
host-sound Action.revoke_invite c p = own_room-sound _ c revoke_invite p
host-sound Action.read_safe_invite c p = own_room-sound _ c read_safe_invite p
host-sound Action.read_approval_queue c p = own_room-sound _ c read_approval_queue p
host-sound Action.approve_join c p = own_room-sound _ c approve_join p
host-sound Action.deny_join c p = own_room-sound _ c deny_join p
host-sound Action.block_join c p = own_room-sound _ c block_join p
host-sound Action.read_relay_metrics c p = own_room-sound _ c read_relay_metrics p
host-sound a c p = cc

sound : (x : Actor) (a : Action) (c : Context) → can_actor_perform x a c ≡ true → Permitted c x a
unfolding can_actor_perform
sound host a c p = host-sound a c p
sound friend Action.read_safe_invite c p = read_invite p
sound friend Action.create_join_request c p = join p
sound service Action.issue_session c p = issue p
sound service_admin Action.break_glass_read c p = break_glass p
sound x a c p = cc

host_complete :
    (a : Action) (c : Context)
    → HostAction a
    → c.room_host_id ≡ c.actor_id
    → truthy c.actor_id ≡ true
    → can_actor_perform host a c ≡ true
unfolding can_actor_perform
host_complete a c create_room e t = ground (arith, ==_iff c.room_host_id c.actor_id)
host_complete a c create_invite e t = ground (arith, ==_iff c.room_host_id c.actor_id)
host_complete a c revoke_invite e t = ground (arith, ==_iff c.room_host_id c.actor_id)
host_complete a c read_safe_invite e t = ground (arith, ==_iff c.room_host_id c.actor_id)
host_complete a c read_approval_queue e t = ground (arith, ==_iff c.room_host_id c.actor_id)
host_complete a c approve_join e t = ground (arith, ==_iff c.room_host_id c.actor_id)
host_complete a c deny_join e t = ground (arith, ==_iff c.room_host_id c.actor_id)
host_complete a c block_join e t = ground (arith, ==_iff c.room_host_id c.actor_id)
host_complete a c read_relay_metrics e t = ground (arith, ==_iff c.room_host_id c.actor_id)

complete : (x : Actor) (a : Action) (c : Context) → Permitted c x a → can_actor_perform x a c ≡ true
unfolding can_actor_perform
complete x a c (own_room h e t) = host_complete a c h e t
complete x a c (read_invite v) = v
complete x a c (join v) = v
complete x a c (issue v) = v
complete x a c (break_glass v) = v

-- The permission check allows exactly what the rules permit: nine actions of a host on its own room,
-- two of a friend with a valid invite, the issue of a session on an authorized approval, and the
-- break-glass read of an administrator.
pub can_actor_perform_iff :
    (x : Actor) (a : Action) (c : Context) → (can_actor_perform x a c ≡ true) ↔ Permitted c x a
can_actor_perform_iff x a c = (sound x a c, complete x a c)
