-- ===== src/Relay/Sessions.antt =====
-- The sessions of the relay: `authorizeSession`, the answer of a session service, and
-- `validateSession`. The service is not part of the relay; its answer is an argument.
use easy_mc_server.Prelude.{
  ℕ, ◌-◌, Bool, true, false, not, ◌&&◌, ◌||◌, Option, none, some, Text, ◌==◌, str, truthy, or_else,
  ltb, leb, get_or, Result, ok, err, if◌then◌else◌,
}
use easy_mc_server.Prelude.Map.{get, put}
use easy_mc_server.Relay.State.{
  Reason, unauthenticated, session_replayed, session_expired, session_duration_quota, cross_room,
  wrong_invite, wrong_friend, wrong_uuid, Session, Request, Relay, Quotas,
}

-- `session.sessionId` is the key. Authorizing a session again forgets nothing of what it is given.
unfoldable pub authorize_session : ℕ → Session → Relay → Relay
authorize_session now s r = record r {
  sessions = put s.session_id (record s { authorized_at = some now }) r.sessions;
}

-- A session as the service spells it, before `normalizeSession`.
pub record ServiceSession : Type 0 where
  pub session_id : Text
  pub id : Text
  pub session_token : Text
  pub session_credential : Text
  pub room_id : Text
  pub invite_id : Text
  pub host_id : Text
  pub friend_id : Text
  pub minecraft_uuid : Text
  pub approved : Option Bool
  pub state : Text
  pub issued_at : Option ℕ
  pub expires_at : Option ℕ

unfoldable pub normalize_session : ServiceSession → Session
normalize_session s = record {
  session_id = or_else s.session_id s.id;
  session_token = or_else s.session_token s.session_credential;
  room_id = s.room_id;
  invite_id = s.invite_id;
  host_id = s.host_id;
  friend_id = s.friend_id;
  minecraft_uuid = s.minecraft_uuid;
  approved = get_or s.approved (s.state == str "issued");
  issued_at = s.issued_at;
  expires_at = s.expires_at;
  authorized_at = none;
  consumed_at = none;
}

-- The service's answer, at once or by a promise: a session, or a refusal that may carry a reason. A
-- call that throws is a refusal without one.
abbrev pub ServiceAnswer : Type 0
ServiceAnswer = Result (Option Reason) ServiceSession

abbrev pub consumed : Option Session → Option ℕ
consumed none = none
consumed (some s) = s.consumed_at

-- A session that the relay has seen consumed stays consumed, whatever the service says.
unfoldable pub store_service_session : ServiceSession → Relay → Relay × Session
unfolding normalize_session
store_service_session a r =
    let fresh = normalize_session a in
    let s = record fresh { consumed_at = consumed (get fresh.session_id r.sessions) } in
    (record r { sessions = put s.session_id s r.sessions }, s)

-- `readSessionForRequest`: from the service where there is one, else from the relay's own map.
unfoldable pub read_session : Option ServiceAnswer → Request → Relay → Relay × Result Reason Session
read_session (some (err e)) q r = (r, err (get_or e unauthenticated))
read_session (some (ok a)) q r = let (r', s) = store_service_session a r in (r', ok s)
read_session none q r = elim (get q.session_id r.sessions) [
  | none ↦ (r, err unauthenticated)
  | some s ↦ (r, ok s)
]

-- `expiresAt <= now`; no time compares with `undefined`.
abbrev pub is_expired : ℕ → Option ℕ → Bool
is_expired now none = false
is_expired now (some t) = leb t now

abbrev pub is_older_than : ℕ → ℕ → Option ℕ → Bool
is_older_than limit now none = false
is_older_than limit now (some t) = ltb limit (now - t)

abbrev pub is_consumed : Session → Bool
is_consumed s = elim s.consumed_at [ none ↦ false | some t ↦ true ]

-- The first check that fails.
unfoldable pub validate_session : ℕ → Quotas → Session → Request → Option Reason
validate_session now limits s q =
    if not (truthy q.session_token) || not (s.session_token == q.session_token) || not s.approved
    then some unauthenticated
    else if is_consumed s
    then some session_replayed
    else if is_expired now s.expires_at
    then some session_expired
    else if is_older_than limits.max_session_ms now s.issued_at
    then some session_duration_quota
    else if not (s.room_id == q.room_id)
    then some cross_room
    else if truthy s.invite_id && not (s.invite_id == q.invite_id)
    then some wrong_invite
    else if not (s.friend_id == q.friend_id)
    then some wrong_friend
    else if not (s.minecraft_uuid == q.minecraft_uuid)
    then some wrong_uuid
    else none
