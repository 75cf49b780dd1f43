-- ===== src/Relay/Streams.antt =====
-- `openFriendStream`: a session, the tunnel of its room and a free place make a stream.
use easy_mc_server.Prelude.{
  ℕ, ◌+◌, String, Bool, true, false, not, ◌&&◌, Option, none, some, [], Text, ◌==◌, str, truthy,
  or_else, leb, eqb, Result, ok, err, if◌then◌else◌,
}
use Prim.Native.String.{◌++◌ as append}
use easy_mc_server.Prelude.Map.{get, put, count}
use easy_mc_server.Relay.State.{
  Reason, host_tunnel_unavailable, host_tunnel_closed, wrong_host, open_proxy_blocked,
  room_size_quota, Target, Tunnel, tunnel_is_open, Session, Stream, PublicStream, public_stream,
  StreamState, is_open, Request, Relay, record_event, friend_stream_opened,
  friend_stream_open_failed,
}
use easy_mc_server.Relay.Sessions.{ServiceAnswer, read_session, validate_session}

unfoldable pub fail_open : {A : Type 0} → ℕ → Reason → Request → Relay → Relay × Result Reason A
unfolding record_event
fail_open now reason q r =
    let m = r.journal.metrics in
    let j = record r.journal { metrics = record m { failed_opens = m.failed_opens + 1 } } in
    let failure = friend_stream_open_failed (record {
      reason = reason;
      room_id = q.room_id;
      invite_id = q.invite_id;
      friend_id = q.friend_id;
      minecraft_uuid = q.minecraft_uuid;
      requested_target = q.requested_target;
    }) in
    (record r { journal = record_event now failure j }, err reason)

unfoldable pub target_matches_tunnel : Option Target → Target → Bool
target_matches_tunnel none t = true
target_matches_tunnel (some q) t = q.kind == t.kind && q.host == t.host && eqb q.port t.port

abbrev pub is_active_in : Text → Stream → Bool
is_active_in room_id s = s.room_id == room_id && is_open s.state

unfoldable pub active_room_member_count : Text → Relay → ℕ
active_room_member_count room_id r = count (is_active_in room_id) r.streams

-- The guards on the tunnel of the room, in the order of the source.
unfoldable pub check_tunnel : Request → Session → Tunnel → Relay → Option Reason
check_tunnel q s t r =
    if not (tunnel_is_open t.state)
    then some host_tunnel_closed
    else if truthy s.host_id && not (s.host_id == t.host_id)
    then some wrong_host
    else if not (target_matches_tunnel q.requested_target t.target)
    then some open_proxy_blocked
    else if leb r.quotas.max_room_members (active_room_member_count q.room_id r)
    then some room_size_quota
    else none

unfoldable pub new_stream : ℕ → String → Request → Session → Tunnel → Stream
new_stream now uuid q s t = record {
  id = str (append "relay_stream_" uuid);
  room_id = q.room_id;
  invite_id = or_else s.invite_id q.invite_id;
  host_id = t.host_id;
  friend_id = q.friend_id;
  minecraft_uuid = q.minecraft_uuid;
  target = t.target;
  session_id = q.session_id;
  tunnel_id = t.id;
  opened_at = now;
  last_activity_at = now;
  closed_at = none;
  bytes = 0;
  host_inbox = [];
  friend_inbox = [];
  state = StreamState.opened;
}

-- The stream is stored and its session, an object of the relay's map, is marked as consumed.
unfoldable pub admit : ℕ → Stream → Session → Relay → Relay × Result Reason PublicStream
unfolding record_event public_stream
admit now stream s r =
    let m = r.journal.metrics in
    let j = record r.journal {
      metrics = record m { friend_streams_opened = m.friend_streams_opened + 1 };
    } in
    (
      record r {
        streams = put stream.id stream r.streams;
        sessions = put s.session_id (record s { consumed_at = some now }) r.sessions;
        journal = record_event now (friend_stream_opened stream) j;
      },
      ok (public_stream stream),
    )

-- The first reason to refuse a request, or the tunnel that the stream will use.
unfoldable pub check_open : ℕ → Request → Session → Relay → Result Reason Tunnel
check_open now q s r = elim (validate_session now r.quotas s q) [
  | some e ↦ err e
  | none ↦ elim (get q.room_id r.tunnels) [
    | none ↦ err host_tunnel_unavailable
    | some t ↦ elim (check_tunnel q s t r) [ some e ↦ err e | none ↦ ok t ]
  ]
]

unfoldable pub open_with_session :
    ℕ → String → Request → Relay → Result Reason Session → Relay × Result Reason PublicStream
open_with_session now uuid q r (err e) = fail_open now e q r
open_with_session now uuid q r (ok s) = elim (check_open now q s r) [
  | err e ↦ fail_open now e q r
  | ok t ↦ admit now (new_stream now uuid q s t) s r
]

-- Where the service answers at once, nothing comes between the reading of the session and the
-- opening.
unfoldable pub open_friend_stream :
    ℕ → String → Option ServiceAnswer → Request → Relay → Relay × Result Reason PublicStream
open_friend_stream now uuid answer q r =
    let (r', found) = read_session answer q r in open_with_session now uuid q r' found

-- The relay after an opening, where the session that was read may no longer be the object that the
-- map holds: the map then sees nothing of what is marked on it.
abbrev pub marked : Bool → Relay → Relay → Relay
marked true before r = r
marked false before r = record r { sessions = before.sessions }

-- The second step of `openFriendStream` where the service answers with a promise: other calls may
-- have come since the session was read, and `held` says whether the map still holds that object.
unfoldable pub open_friend_stream_later :
    Bool → ℕ → String → Result Reason Session → Request → Relay → Relay × Result Reason PublicStream
open_friend_stream_later held now uuid found q r =
    let (r', out) = open_with_session now uuid q r found in (marked held r r', out)
