-- ===== src/Service/Joins.antt =====
-- The room service's join requests: `createJoinRequest` with its rate limits, and
-- `decideJoinRequest`, which prepares a session before it saves an approval.
use easy_mc_server.Prelude.{
  ℕ, ◌+◌, Bool, true, false, ◌&&◌, Option, none, some, List, [], ◌∷◌, Text, str, truthy, show, ◌==◌,
  filter,
}
use Prim.Native.String.{◌++◌ as append}
use easy_mc_server.Protocol.{
  Actor, Action, no_context, can_actor_perform, RoomState, ApprovalState, SessionState,
  session_unavailable, invite_unavailable, room_closed, approval_required, rate_limited,
}
use easy_mc_server.Service.Records.{
  Failure, Room, Invite, Approval, SessionInput, approval_decided, is_active, is_unexpired,
}
use easy_mc_server.Service.Repository.{Repository}
use easy_mc_server.Service.Steps.{M, ◌>>=◌, ◌>>◌, pure, check, reading, HookAnswer, call_hook}
use easy_mc_server.Service.Rooms.{Options, Draw, fails, host_may, audit}

abbrev pub is_opened : RoomState → Bool
is_opened RoomState.opened = true
is_opened _ = false

abbrev pub is_pending : ApprovalState → Bool
is_pending ApprovalState.pending = true
is_pending _ = false

-- `HOST_DECISIONS`. A decision that is no approval state is none.
unfoldable pub is_host_decision : Option ApprovalState → Bool
is_host_decision (some ApprovalState.approved) = true
is_host_decision (some ApprovalState.denied) = true
is_host_decision (some ApprovalState.blocked) = true
is_host_decision _ = false

unfoldable pub action_for_decision : Option ApprovalState → Action
action_for_decision (some ApprovalState.approved) = Action.approve_join
action_for_decision (some ApprovalState.denied) = Action.deny_join
action_for_decision (some ApprovalState.blocked) = Action.block_join
action_for_decision _ = Action.unknown

abbrev pub decided : Option ApprovalState → ApprovalState → ApprovalState
decided none s = s
decided (some d) s = d

abbrev pub is_approval : Option ApprovalState → Bool
is_approval (some ApprovalState.approved) = true
is_approval _ = false

unfoldable pub is_invite_active : ℕ → Invite → Bool
is_invite_active now i = is_active i.state && is_unexpired now i.expires_at

pub record JoinRequest : Type 0 where
  pub invite_token : Text
  pub friend_id : Text
  pub minecraft_uuid : Text
  pub display_name : Text
  pub ip_address : Text
  pub device_signal : Text

-- `[a, b].filter(Boolean).join("|")`
unfoldable pub join_signals : Text → Text → Text
join_signals a b =
    let both = str (append (show a) (append "|" (show b))) in
    elim (truthy a) [
      | true ↦ elim (truthy b) [ true ↦ both | false ↦ a ]
      | false ↦ elim (truthy b) [ true ↦ b | false ↦ str "" ]
    ]

-- The signals of a request that are not empty, each with its scope.
unfoldable pub signals_of : Text → JoinRequest → List (Text × Text)
unfolding join_signals
signals_of invite_id q =
    filter (λ x. truthy x.1)
      ((str "join_request.invite", invite_id)
        ∷ (str "join_request.ip_device", join_signals q.ip_address q.device_signal)
        ∷ (str "join_request.minecraft_identity", q.minecraft_uuid)
        ∷ [])

unfoldable pub new_approval : ℕ → Draw → Invite → JoinRequest → Approval
new_approval now draw invite q = record {
  id = draw.id;
  room_id = invite.room_id;
  invite_id = invite.id;
  friend_id = q.friend_id;
  minecraft_uuid = q.minecraft_uuid;
  display_name = q.display_name;
  state = ApprovalState.pending;
  created_at = now;
  decided_at = none;
}

-- `decideJoinRequest`'s arguments, but for the actor.
pub record Decision : Type 0 where
  pub request_id : Text
  pub decision : Option ApprovalState
  pub minecraft_uuid : Text
  pub session_credential : Text

unfoldable pub decided_approval : ℕ → Decision → Approval → Approval
decided_approval now d a = record a { state = decided d.decision a.state; decided_at = some now }

unfoldable pub new_session : ℕ → ℕ → Text → Decision → Approval → SessionInput
new_session now ttl id d a = record {
  id = id;
  room_id = a.room_id;
  invite_id = a.invite_id;
  request_id = a.id;
  minecraft_uuid = d.minecraft_uuid;
  session_credential = d.session_credential;
  state = SessionState.issued;
  issued_at = now;
  expires_at = some (now + ttl);
}

abbrev pub ask_session_hook :
    Option (Text → Text → Text → Text → ℕ → HookAnswer) → Approval → Text → ℕ → Option HookAnswer
ask_session_hook none a uuid now = none
ask_session_hook (some hook) a uuid now = some (hook a.room_id a.id a.invite_id uuid now)

pub record IssuedSession : Type 0 where
  pub id : Text
  pub expires_at : ℕ

-- The answer to a decision: the request, its state, and the session of an approval.
pub record DecidedRequest : Type 0 where
  pub id : Text
  pub state : ApprovalState
  pub session : Option IssuedSession

module _ {S : Type 0} (repo : Repository S) where
  -- `readPresence`, where the repository has it.
  unfoldable pub is_present : Option (Text → S → Bool) → Text → S → Bool
  is_present none room_id s = true
  is_present (some read_presence) room_id s = read_presence room_id s

  unfoldable pub is_room_available : Room → S → Bool
  unfolding is_present
  is_room_available room s = is_opened room.state && is_present repo.read_presence room.id s

  -- `if (!(await isRoomAvailable(repo, room))) return fail(e)`
  unfoldable pub check_available : Room → Failure → M S (Unit {0})
  unfolding is_room_available
  check_available room e s = check (is_room_available room s) e s

  -- The reason of a refusal is that of the counter, which is `rate_limited`.
  unfoldable pub apply_rate_limits : Options → ℕ → List (Text × Text) → M S (Unit {0})
  apply_rate_limits options now [] = pure tt
  apply_rate_limits options now ((scope, signal) ∷ signals) = do
    answer ← repo.increment_rate_limit_counter now (record {
      scope = scope;
      signal = signal;
      limit = options.join_request_limit;
      window_ms = options.join_request_window_ms;
    })
    check answer.allowed (fails rate_limited)
    apply_rate_limits options now signals

  -- The answer is the id of the request, which is pending.
  unfoldable pub create_join_request : Options → ℕ → Draw → JoinRequest → M S Text
  unfolding check_available apply_rate_limits signals_of new_approval
  create_join_request options now draw q = do
    invite ← reading (fails invite_unavailable) (repo.read_invite_by_token now q.invite_token)
    room ← reading (fails room_closed) (repo.read_room invite.room_id)
    check_available room (fails room_closed)
    apply_rate_limits options now (signals_of invite.id q)
    saved ← repo.save_approval (new_approval now draw invite q)
    pure saved.id

  unfoldable pub prepare_session :
      Options → ℕ → Text → Decision → Approval → Room → M S SessionInput
  unfolding is_invite_active check_available can_actor_perform call_hook new_session
  prepare_session options now session_id d a room = do
    check (a.minecraft_uuid == d.minecraft_uuid) (fails session_unavailable)
    invite ← reading (fails session_unavailable) (repo.read_invite a.invite_id)
    check (is_invite_active now invite) (fails session_unavailable)
    check_available room (fails room_closed)
    check
        (can_actor_perform Actor.service Action.issue_session
          (record no_context { authorized_approval = true }))
        (fails session_unavailable)
    call_hook (ask_session_hook options.check_session_quota a d.minecraft_uuid now)
    pure (new_session now options.session_ttl_ms session_id d a)

  abbrev pub audit_decision : ℕ → Draw → Text → Decision → Approval → M S (Unit {0})
  audit_decision now draw actor_id d a = audit repo draw.audit_id now (
      approval_decided actor_id a.room_id a.invite_id d.request_id (decided d.decision a.state) now)

  -- An approval: the session is prepared first, and saved last.
  unfoldable pub approve :
      Options → ℕ → Draw → Text → Decision → Approval → Room → M S DecidedRequest
  unfolding prepare_session decided_approval audit
  approve options now draw actor_id d a room = do
    session ← prepare_session options now draw.id d (decided_approval now d a) room
    saved_approval ← repo.save_approval (decided_approval now d a)
    audit_decision now draw actor_id d a
    saved ← repo.save_session session
    pure (record {
      id = d.request_id;
      state = ApprovalState.approved;
      session = some (record { id = saved.id; expires_at = now + options.session_ttl_ms });
    })

  unfoldable pub reject : ℕ → Draw → Text → Decision → Approval → M S DecidedRequest
  unfolding decided_approval audit
  reject now draw actor_id d a = do
    saved_approval ← repo.save_approval (decided_approval now d a)
    audit_decision now draw actor_id d a
    pure (record { id = d.request_id; state = decided d.decision a.state; session = none })

  -- What is saved for a decision.
  unfoldable pub settle :
      Options → ℕ → Draw → Text → Decision → Approval → Room → M S DecidedRequest
  unfolding approve reject
  settle options now draw actor_id d a room = elim (is_approval d.decision) [
    | true ↦ approve options now draw actor_id d a room
    | false ↦ reject now draw actor_id d a
  ]

  unfoldable pub decide_join_request : Options → ℕ → Draw → Text → Decision → M S DecidedRequest
  unfolding is_host_decision host_may action_for_decision settle
  decide_join_request options now draw actor_id d = do
    check (is_host_decision d.decision) (fails approval_required)
    a ← reading (fails session_unavailable) (repo.read_approval d.request_id)
    room ← reading (fails session_unavailable) (repo.read_room a.room_id)
    check (host_may (action_for_decision d.decision) actor_id room) (fails session_unavailable)
    check (is_pending a.state) (fails approval_required)
    settle options now draw actor_id d a room
