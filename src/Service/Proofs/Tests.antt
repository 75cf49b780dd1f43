-- ===== src/Service/Proofs/Tests.antt =====
-- A room service at work, over the store in memory: a host opens a room, invites a friend, who asks to
-- join and is let in. The theorems on the service are applied to it.
use easy_mc_server.Prelude.{
  ℕ, ◌+◌, ◌≡◌, ◌≢◌, ◌≤◌, refl, str, undefined, ◌==◌, ==_iff, truthy, filter, show, none, some, List,
  [], ◌∷◌, arith, ok,
}
use easy_mc_server.Prelude.Map.{get, put}
use easy_mc_server.Prelude.Histories.{run_all}
use easy_mc_server.Protocol.{
  RoomState, can_actor_perform, ApprovalState, InviteState, invite_unavailable,
}
use easy_mc_server.Service.Records.{Room, Invite, Session, is_unexpired}
use easy_mc_server.Service.Memory.{
  Store, empty_store, save_room, read_room, sanitize_credential, sanitize_invite, save_invite,
  read_invite, is_invite_usable, indexed_invite, read_invite_by_token, save_approval, read_approval,
  sanitize_session, save_session, counter_id, Increment, current_counter, new_counter,
  increment_rate_limit_counter, record_audit_event, fail,
}
use easy_mc_server.Service.Machine.{Moves, IsSound}
use easy_mc_server.Service.Steps.{after, call_hook, audit_with}
use easy_mc_server.Service.Rooms.{
  default_options, Draw, public_room, host_may, new_room, new_invite, audit, create_room,
  create_invite, regenerate_invite,
}
use easy_mc_server.Service.Joins.{
  is_host_decision, action_for_decision, is_invite_active, JoinRequest, join_signals, signals_of,
  new_approval, Decision, decided_approval, new_session, is_present, is_room_available,
  check_available, apply_rate_limits, create_join_request, prepare_session, approve, settle,
  decide_join_request,
}
use easy_mc_server.Service.Overlap.{read_decision, write_decision}
use easy_mc_server.Service.Run.{
  Stamped, creates_room, creates_invite, asks, decides, caller_of, perform, step,
}
use easy_mc_server.Service.InMemory.{memory, view_of}
use easy_mc_server.Service.Proofs.Memory.{memory-IsLawful}
use easy_mc_server.Service.Proofs.Refines.{perform-Moves, run_all-IsSound}
use easy_mc_server.Service.Proofs.Limits.{allowed_at, allowed_at-le-limit}
use easy_mc_server.Service.Proofs.Tokens.{regenerate_invite-read_invite_by_token}

abbrev nothing_yet : Store
nothing_yet = empty_store (λ t. t)

abbrev draw_1 : Draw
draw_1 = record { id = str "room_1"; token = undefined; audit_id = str "event_1" }

abbrev draw_2 : Draw
draw_2 = record { id = str "invite_1"; token = str "token_1"; audit_id = str "event_2" }

abbrev draw_3 : Draw
draw_3 = record { id = str "request_1"; token = undefined; audit_id = str "event_3" }

abbrev draw_4 : Draw
draw_4 = record { id = str "session_1"; token = undefined; audit_id = str "event_4" }

abbrev draw_5 : Draw
draw_5 = record { id = str "invite_2"; token = str "token_2"; audit_id = str "event_5" }

abbrev join : JoinRequest
join = record {
  invite_token = str "token_1";
  friend_id = str "friend_1";
  minecraft_uuid = str "uuid_1";
  display_name = str "Friend";
  ip_address = undefined;
  device_signal = str "device_1";
}

abbrev yes : Decision
yes = record {
  request_id = str "request_1";
  decision = some ApprovalState.approved;
  minecraft_uuid = str "uuid_1";
  session_credential = str "credential_1";
}

abbrev evening : List Stamped
evening =
    record {
      now = 10;
      draw = draw_1;
      call = creates_room (str "host_1") (str "Home") (str "1.20.1") (str "Vanilla");
    }
    ∷ record { now = 20; draw = draw_2; call = creates_invite (str "host_1") (str "room_1") }
    ∷ record { now = 30; draw = draw_3; call = asks join }
    ∷ record { now = 40; draw = draw_4; call = decides (str "host_1") yes }
    ∷ []

abbrev later : Store
later = run_all (step memory default_options) nothing_yet evening

-- The friend is let in: there is a session.
session_issued : (x : _) × (get (str "session_1") later.sessions ≡ some x)
unfolding run_all perform create_room create_invite create_join_request decide_join_request
    save_room read_room save_invite read_invite sanitize_credential sanitize_invite is_invite_usable
    indexed_invite read_invite_by_token save_approval read_approval sanitize_session save_session
    counter_id current_counter new_counter increment_rate_limit_counter record_audit_event call_hook
    audit_with host_may can_actor_perform new_room public_room new_invite audit is_host_decision
    action_for_decision is_invite_active join_signals signals_of new_approval decided_approval
    new_session is_present is_room_available check_available apply_rate_limits prepare_session
    approve settle is_unexpired get put truthy ◌==◌ filter show
session_issued = (_, refl)

abbrev invited : Store
invited =
    step memory default_options
      (step memory default_options nothing_yet (record {
        now = 10;
        draw = draw_1;
        call = creates_room (str "host_1") (str "Home") (str "1.20.1") (str "Vanilla");
      }))
      (record { now = 20; draw = draw_2; call = creates_invite (str "host_1") (str "room_1") })

abbrev asked : Store
asked = step memory default_options invited (record { now = 30; draw = draw_3; call = asks join })

perform-Moves_example :
    Moves
      (str "host_1")
      (view_of asked)
      (view_of (perform memory default_options 40 draw_4 (decides (str "host_1") yes) asked))
unfolding run_all perform caller_of create_room create_invite create_join_request
    decide_join_request save_room read_room save_invite read_invite sanitize_credential
    sanitize_invite is_invite_usable indexed_invite read_invite_by_token save_approval read_approval
    sanitize_session save_session counter_id current_counter new_counter
    increment_rate_limit_counter record_audit_event call_hook audit_with host_may can_actor_perform
    new_room public_room new_invite audit is_host_decision action_for_decision is_invite_active
    join_signals signals_of new_approval decided_approval new_session is_present is_room_available
    check_available apply_rate_limits prepare_session approve settle is_unexpired get put truthy
    ◌==◌ filter show
perform-Moves_example =
    perform-Moves memory view_of memory-IsLawful default_options 40 draw_4
      (decides (str "host_1") yes) asked tt

run_all-IsSound_example : IsSound (view_of later)
unfolding run_all perform create_room create_invite create_join_request decide_join_request
    save_room read_room save_invite read_invite sanitize_credential sanitize_invite is_invite_usable
    indexed_invite read_invite_by_token save_approval read_approval sanitize_session save_session
    counter_id current_counter new_counter increment_rate_limit_counter record_audit_event call_hook
    audit_with host_may can_actor_perform new_room public_room new_invite audit is_host_decision
    action_for_decision is_invite_active join_signals signals_of new_approval decided_approval
    new_session is_present is_room_available check_available apply_rate_limits prepare_session
    approve settle is_unexpired get put truthy ◌==◌ filter show
run_all-IsSound_example =
    run_all-IsSound memory view_of memory-IsLawful default_options nothing_yet evening refl
      (tt, (tt, (refl, (tt, tt))))

abbrev attempt : Increment
attempt = record {
  scope = str "join_request.invite";
  signal = str "invite_1";
  limit = 2;
  window_ms = 60;
}

abbrev attempts : List (ℕ × Increment)
attempts = (110, attempt) ∷ (120, attempt) ∷ (130, attempt) ∷ []

-- Four attempts, of which two are allowed.
two_allowed :
    allowed_at (str "join_request.invite:invite_1") ((100, attempt) ∷ attempts) nothing_yet ≡ 2
unfolding allowed_at increment_rate_limit_counter current_counter new_counter counter_id get put
    truthy ◌==◌ show
two_allowed = refl

allowed_at-le-limit_example :
    allowed_at
      (counter_id (str "join_request.invite") (str "invite_1"))
      ((100, attempt) ∷ attempts)
      nothing_yet
    ≤ 2
unfolding counter_id get truthy ◌==◌ show
allowed_at-le-limit_example =
    allowed_at-le-limit 100 attempt attempts nothing_yet refl refl
      ((omega arith, refl), ((omega arith, refl), ((omega arith, refl), tt)))

abbrev home : Room
home = record {
  id = str "room_1";
  host_id = str "host_1";
  alias = str "Home";
  minecraft_version = str "1.20.1";
  pack_profile_name = str "Vanilla";
  state = RoomState.opened;
  created_at = 10;
  updated_at = 10;
}

abbrev first_invite : Invite
first_invite = record {
  id = str "invite_1";
  room_id = str "room_1";
  token_hash = str "token_1";
  state = InviteState.active;
  created_at = 20;
  expires_at = some 86400020;
  revoked_at = none;
}

tokens_differ : str "token_2" ≢ str "token_1"
unfolding ◌==◌ show
tokens_differ e = ground (arith, (==_iff (str "token_2") (str "token_1")).1 e)

ids_differ : str "invite_2" ≢ str "invite_1"
unfolding ◌==◌ show
ids_differ e = ground (arith, (==_iff (str "invite_2") (str "invite_1")).1 e)

regenerate_invite-read_invite_by_token_example :
    let (s, answer) =
      regenerate_invite memory default_options 50 draw_5 (str "host_1") (str "invite_1") invited in
    (answer
      ≡ ok (
        record {
          id = str "invite_2";
          token = str "token_2";
          expires_at = 50 + default_options.invite_ttl_ms;
        },
        str "invite_1",
      ))
    × (read_invite_by_token 60 (str "token_2") s
        ≡ ok (record {
          id = str "invite_2";
          room_id = str "room_1";
          token_hash = str "token_2";
          state = InviteState.active;
          created_at = 50;
          expires_at = some (50 + default_options.invite_ttl_ms);
          revoked_at = none;
        }))
    × ((later : ℕ) → read_invite_by_token later (str "token_1") s ≡ fail invite_unavailable)
unfolding run_all perform create_room create_invite create_join_request decide_join_request
    save_room read_room save_invite read_invite sanitize_credential sanitize_invite is_invite_usable
    indexed_invite read_invite_by_token save_approval read_approval sanitize_session save_session
    counter_id current_counter new_counter increment_rate_limit_counter record_audit_event call_hook
    audit_with host_may can_actor_perform new_room public_room new_invite audit is_host_decision
    action_for_decision is_invite_active join_signals signals_of new_approval decided_approval
    new_session is_present is_room_available check_available apply_rate_limits prepare_session
    approve settle is_unexpired get put truthy ◌==◌ filter show
regenerate_invite-read_invite_by_token_example =
    regenerate_invite-read_invite_by_token default_options 50 draw_5 (str "host_1") (str "invite_1")
      (str "token_1") first_invite home invited 60 refl refl refl refl refl refl refl refl refl refl
      tokens_differ ids_differ (omega arith)

abbrev draw_6 : Draw
draw_6 = record draw_4 { id = str "session_2" }

-- The host approves one request twice, and both calls read before either writes.
abbrev overlapped : Store
overlapped =
    let (first, a) = read_decision memory default_options 40 draw_4 (str "host_1") yes asked in
    let (second, b) = read_decision memory default_options 41 draw_6 (str "host_1") yes first in
    let written =
      (after (second, a) (write_decision memory default_options 40 draw_4 (str "host_1") yes)).0 in
    (after (written, b) (write_decision memory default_options 41 draw_6 (str "host_1") yes)).0

-- There are two sessions on that request.
two_sessions :
    (x y : Session) × (get (str "session_1") overlapped.sessions ≡ some x)
    × (get (str "session_2") overlapped.sessions ≡ some y)
    × (x.request_id ≡ y.request_id)
unfolding read_decision write_decision run_all perform create_room create_invite create_join_request
    decide_join_request save_room read_room save_invite read_invite sanitize_credential
    sanitize_invite is_invite_usable indexed_invite read_invite_by_token save_approval read_approval
    sanitize_session save_session counter_id current_counter new_counter
    increment_rate_limit_counter record_audit_event call_hook audit_with host_may can_actor_perform
    new_room public_room new_invite audit is_host_decision action_for_decision is_invite_active
    join_signals signals_of new_approval decided_approval new_session is_present is_room_available
    check_available apply_rate_limits prepare_session approve settle is_unexpired get put truthy
    ◌==◌ filter show
two_sessions = (_, _, refl, refl, refl)
