-- ===== src/Relay/Proofs/RoomSize.antt =====
-- No room ever has more open streams than its quota allows.
use easy_mc_server.Prelude.{
  Result, true, false, Bool, some, ℕ, ◌≤◌, ap, Text, Option, List, arith, String, bit, ==_iff, ◌<◌,
}
use easy_mc_server.Prelude.Map.{Map, count}
use easy_mc_server.Prelude.Map.Laws.{count-put}
use easy_mc_server.Prelude.Map.Loops.{count-for_values-le}
use easy_mc_server.Relay.State.{Reason, Relay, Stream, Quotas, init, Session, Request}
use easy_mc_server.Relay.Tunnels.{close_if_through}
use easy_mc_server.Relay.Sessions.{ServiceAnswer, authorize_session}
use easy_mc_server.Relay.Streams.{
  active_room_member_count, is_active_in, open_friend_stream, open_friend_stream_later, admit,
  new_stream, marked,
}
use easy_mc_server.Relay.Cases.{open_friend_stream_cases, open_friend_stream_later_cases}
use easy_mc_server.Relay.Run.{
  Call, opens_tunnel, closes_tunnel, authorizes, opens_stream, hears, opens_later, transfers,
  echoes, disconnects, step, run, run_induction,
}
use easy_mc_server.Relay.Proofs.Admission.{check_open_iff}
use easy_mc_server.Relay.Proofs.Changes.{
  Revises, Change, same, one, swept, Evolves, here, next, close_if_through-Revises,
  record_transfer-Evolves, relay_echo-Evolves, disconnect_stream-Evolves, close_host_tunnel-Evolves,
  open_host_tunnel-Evolves, read_session-Evolves, fail_open-Evolves,
}

pub record IsWithinRoomSize (r : Relay) : Type 0 where
  pub at : (room : Text) → active_room_member_count room r ≤ r.quotas.max_room_members

is_active_in-Revises :
    (room : Text) {s s' : Stream}
    → Revises s s'
    → bit (is_active_in room s') ≤ bit (is_active_in room s)
is_active_in-Revises room {s} {s'} v = rw (v.room_id) (ground arith)

-- A change of the streams lets no room grow.
Change-count :
    (room : Text) {r r' : Relay}
    → Change r r'
    → active_room_member_count room r' ≤ active_room_member_count room r
unfolding active_room_member_count
Change-count room (same e) = rw e (omega arith)
Change-count room {r} (one key s s' found v e) =
    rw e
      (ground (arith, count-put (is_active_in room) key s' r.streams, is_active_in-Revises room v))
Change-count room {r} (swept id reason now x e) = rw e (
    count-for_values-le (close_if_through id reason now) (is_active_in room)
      (λ s y. is_active_in-Revises room (close_if_through-Revises id reason now s y)) r.streams x)

Evolves-IsWithinRoomSize : {r r' : Relay} → Evolves r r' → IsWithinRoomSize r → IsWithinRoomSize r'
Evolves-IsWithinRoomSize here h = h
Evolves-IsWithinRoomSize (next {m = m} e q c) h =
    let before = Evolves-IsWithinRoomSize e h in
    record {
      at = λ room.
          omega
            (arith, Change-count room c, before.at room, ap (λ (x : Quotas). x.max_room_members) q);
    }

admit-IsWithinRoomSize :
    (now : ℕ) (x : Stream) (s : Session) (r : Relay)
    → active_room_member_count x.room_id r < r.quotas.max_room_members
    → IsWithinRoomSize r
    → IsWithinRoomSize (admit now x s r).0
unfolding admit active_room_member_count
admit-IsWithinRoomSize now x s r free h = record {
  at = λ room.
      ground
        (arith, count-put (is_active_in room) x.id x r.streams, h.at room, ==_iff x.room_id room);
}

open_friend_stream-IsWithinRoomSize :
    (now : ℕ) (uuid : String) (answer : Option ServiceAnswer) (q : Request) (r : Relay)
    → IsWithinRoomSize r
    → IsWithinRoomSize (open_friend_stream now uuid answer q r).0
unfolding new_stream
open_friend_stream-IsWithinRoomSize now uuid answer q r h =
    let read = Evolves-IsWithinRoomSize (read_session-Evolves answer q r) h in
    open_friend_stream_cases now uuid answer q r (λ x. IsWithinRoomSize x.0)
      (λ e. Evolves-IsWithinRoomSize (fail_open-Evolves now e q _) read)
      (λ s t _ passed.
        admit-IsWithinRoomSize now _ s _ ((check_open_iff now q s t _).0 passed).2.free read)

marked-IsWithinRoomSize :
    (held : Bool) (r r' : Relay) → IsWithinRoomSize r' → IsWithinRoomSize (marked held r r')
unfolding active_room_member_count
marked-IsWithinRoomSize true r r' h = h
marked-IsWithinRoomSize false r r' h = record { at = h.at }

open_friend_stream_later-IsWithinRoomSize :
    (held : Bool) (now : ℕ) (uuid : String) (found : Result Reason Session) (q : Request)
    (r : Relay)
    → IsWithinRoomSize r
    → IsWithinRoomSize (open_friend_stream_later held now uuid found q r).0
unfolding new_stream
open_friend_stream_later-IsWithinRoomSize held now uuid found q r h =
    open_friend_stream_later_cases now uuid found q r (λ x. IsWithinRoomSize x.0) held
      (λ e. Evolves-IsWithinRoomSize (fail_open-Evolves now e q r) h)
      (λ s t _ passed.
        marked-IsWithinRoomSize held r _
          (admit-IsWithinRoomSize now _ s r ((check_open_iff now q s t r).0 passed).2.free h))

step-IsWithinRoomSize :
    (r : Relay) (c : ℕ × Call) → IsWithinRoomSize r → IsWithinRoomSize (step r c)
unfolding step authorize_session active_room_member_count
step-IsWithinRoomSize r (now, opens_tunnel uuid o) h =
    Evolves-IsWithinRoomSize (open_host_tunnel-Evolves now uuid o r) h
step-IsWithinRoomSize r (now, closes_tunnel c) h =
    Evolves-IsWithinRoomSize (close_host_tunnel-Evolves now c r) h
step-IsWithinRoomSize r (now, authorizes s) h = record { at = h.at }
step-IsWithinRoomSize r (now, opens_stream uuid a q) h =
    open_friend_stream-IsWithinRoomSize now uuid a q r h
step-IsWithinRoomSize r (now, hears a q) h =
    Evolves-IsWithinRoomSize (read_session-Evolves (some a) q r) h
step-IsWithinRoomSize r (now, opens_later held uuid found q) h =
    open_friend_stream_later-IsWithinRoomSize held now uuid found q r h
step-IsWithinRoomSize r (now, transfers key n) h =
    Evolves-IsWithinRoomSize (record_transfer-Evolves now key n r) h
step-IsWithinRoomSize r (now, echoes key p) h =
    Evolves-IsWithinRoomSize (relay_echo-Evolves now key p r) h
step-IsWithinRoomSize r (now, disconnects key most failing) h =
    Evolves-IsWithinRoomSize (disconnect_stream-Evolves now key most failing r) h

-- After any history of calls on a new relay, no room has more open streams than the quota on the
-- members of a room.
pub run-IsWithinRoomSize :
    (credentials : Map Text) (quotas : Quotas) (calls : List (ℕ × Call))
    → IsWithinRoomSize (run (init credentials quotas) calls)
unfolding active_room_member_count count
run-IsWithinRoomSize credentials quotas calls =
    run_induction IsWithinRoomSize step-IsWithinRoomSize (init credentials quotas) calls
      (record { at = λ room. omega arith })
