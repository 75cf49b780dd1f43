-- ===== src/Service/Memory.antt =====
-- `createMemoryControlPlaneStore`. The SHA-256 of a value is a parameter; the time and the ids that
-- are drawn are arguments. A read gives a copy, which in a model without mutation is the record.
use easy_mc_server.Prelude.{
  ℕ, ◌+◌, ◌-◌, ◌*◌, Bool, not, ◌&&◌, ◌||◌, Option, none, some, List, [], ◌∷◌, ◌++◌, Text, str,
  truthy, show, ◌==◌, ltb, leb, filter, Result, ok, err, if◌then◌else◌,
}
use Prim.Native.String.{◌++◌ as append}
use easy_mc_server.Prelude.Map.{Map, get, put}
use easy_mc_server.Protocol.{ErrorState, session_unavailable, invite_unavailable, rate_limited}
use easy_mc_server.Service.Records.{
  Failure, known, type_error, Room, Credential, plain, hashed, InviteInput, Invite, Approval,
  SessionInput, Session, Event, AuditEvent, room_created, invite_created, invite_revoked,
  invite_regenerated, approval_decided, is_unexpired, is_active, is_issued,
}

pub record Counter : Type 0 where
  pub id : Text
  pub scope : Text
  pub signal_hash : Text
  pub count : ℕ
  pub limit : ℕ
  pub window_ms : ℕ
  pub reset_at : ℕ
  pub updated_at : ℕ

pub record Store : Type 0 where
  pub hash : Text → Text
  pub rooms : Map Room
  pub invites : Map Invite
  pub invite_token_index : Map Text
  pub approvals : Map Approval
  pub sessions : Map Session
  pub rate_limits : Map Counter
  pub audit_events : List AuditEvent

abbrev pub empty_store : (Text → Text) → Store
empty_store hash = record {
  hash = hash;
  rooms = [];
  invites = [];
  invite_token_index = [];
  approvals = [];
  sessions = [];
  rate_limits = [];
  audit_events = [];
}

abbrev pub fail : {A : Type 0} → ErrorState → Result Failure A
fail e = err (known e)

unfoldable pub save_room : Room → Store → Store × Result Failure Room
save_room r s =
    if truthy r.id then (record s { rooms = put r.id r s.rooms }, ok r) else (s, err type_error)

unfoldable pub read_room : Text → Store → Result Failure Room
read_room id s = elim (get id s.rooms) [ none ↦ fail session_unavailable | some r ↦ ok r ]

-- `sanitizeRecord` on an invite: its token becomes the hash of the token.
unfoldable pub sanitize_credential : (Text → Text) → Credential → Text
sanitize_credential hash (plain token) = hash token
sanitize_credential hash (hashed token_hash) = token_hash

unfoldable pub sanitize_invite : (Text → Text) → InviteInput → Invite
unfolding sanitize_credential
sanitize_invite hash i = record {
  id = i.id;
  room_id = i.room_id;
  token_hash = sanitize_credential hash i.credential;
  state = i.state;
  created_at = i.created_at;
  expires_at = i.expires_at;
  revoked_at = i.revoked_at;
}

unfoldable pub save_invite : InviteInput → Store → Store × Result Failure Invite
unfolding sanitize_invite
save_invite input s =
    let stored = sanitize_invite s.hash input in
    if truthy input.id
    then (
      record s {
        invite_token_index =
            if truthy stored.token_hash
            then put stored.token_hash stored.id s.invite_token_index
            else s.invite_token_index;
        invites = put stored.id stored s.invites;
      },
      ok stored,
    )
    else (s, err type_error)

unfoldable pub read_invite : Text → Store → Result Failure Invite
read_invite id s = elim (get id s.invites) [ none ↦ fail invite_unavailable | some i ↦ ok i ]

unfoldable pub is_invite_usable : ℕ → Invite → Bool
is_invite_usable now i = is_active i.state && is_unexpired now i.expires_at

-- The invite that the index has for a token; an id that is the empty string is none.
unfoldable pub indexed_invite : Text → Store → Option Invite
indexed_invite token s = elim (get (s.hash token) s.invite_token_index) [
  | none ↦ none
  | some id ↦ if truthy id then get id s.invites else none
]

unfoldable pub read_invite_by_token : ℕ → Text → Store → Result Failure Invite
read_invite_by_token now token s =
    if truthy token
    then (elim (indexed_invite token s) [
      | none ↦ fail invite_unavailable
      | some i ↦ if is_invite_usable now i then ok i else fail invite_unavailable
    ])
    else fail invite_unavailable

unfoldable pub save_approval : Approval → Store → Store × Result Failure Approval
save_approval a s =
    if truthy a.id
    then (record s { approvals = put a.id a s.approvals }, ok a)
    else (s, err type_error)

unfoldable pub read_approval : Text → Store → Result Failure Approval
read_approval id s = elim (get id s.approvals) [ none ↦ fail session_unavailable | some a ↦ ok a ]

-- `sanitizeRecord` on a session: its credential becomes the hash of the credential.
unfoldable pub sanitize_session : (Text → Text) → SessionInput → Session
sanitize_session hash x = record {
  id = x.id;
  room_id = x.room_id;
  invite_id = x.invite_id;
  request_id = x.request_id;
  minecraft_uuid = x.minecraft_uuid;
  session_credential_hash = hash x.session_credential;
  state = x.state;
  issued_at = x.issued_at;
  expires_at = x.expires_at;
}

unfoldable pub save_session : SessionInput → Store → Store × Result Failure Session
unfolding sanitize_session
save_session x s =
    let stored = sanitize_session s.hash x in
    if truthy x.id
    then (record s { sessions = put stored.id stored s.sessions }, ok stored)
    else (s, err type_error)

unfoldable pub is_session_usable : ℕ → Session → Bool
is_session_usable now x = is_issued x.state && is_unexpired now x.expires_at

unfoldable pub read_session : ℕ → Text → Store → Result Failure Session
read_session now id s = elim (get id s.sessions) [
  | none ↦ fail session_unavailable
  | some x ↦ if is_session_usable now x then ok x else fail session_unavailable
]

-- `${scope}:${signalHash}`
unfoldable pub counter_id : Text → Text → Text
counter_id scope signal_hash = str (append (show scope) (append ":" (show signal_hash)))

pub record Increment : Type 0 where
  pub scope : Text
  pub signal : Text
  pub limit : ℕ
  pub window_ms : ℕ

abbrev pub default_window_ms : ℕ
default_window_ms = 60 * 1000

unfoldable pub new_counter : ℕ → Increment → Text → Counter
new_counter now q signal_hash = record {
  id = counter_id q.scope signal_hash;
  scope = q.scope;
  signal_hash = signal_hash;
  count = 0;
  limit = q.limit;
  window_ms = q.window_ms;
  reset_at = now + q.window_ms;
  updated_at = now;
}

-- The counter that is counted on: the one that is there, unless its time is over.
unfoldable pub current_counter : ℕ → Increment → Text → Option Counter → Counter
unfolding new_counter
current_counter now q signal_hash none = new_counter now q signal_hash
current_counter now q signal_hash (some c) =
    if leb c.reset_at now then new_counter now q signal_hash else c

-- The counts and the time that an answer carries, `ok` or not.
pub record RateAnswer : Type 0 where
  pub allowed : Bool
  pub scope : Text
  pub signal_hash : Text
  pub count : ℕ
  pub limit : ℕ
  pub remaining : ℕ
  pub reset_at : ℕ

unfoldable pub increment_rate_limit_counter :
    ℕ → Increment → Store → Store × Result Failure RateAnswer
unfolding current_counter
increment_rate_limit_counter now q s =
    let signal_hash = s.hash q.signal in
    let id = counter_id q.scope signal_hash in
    let c = current_counter now q signal_hash (get id s.rate_limits) in
    let counted : Counter = record c {
      count = c.count + 1;
      limit = q.limit;
      window_ms = q.window_ms;
      updated_at = now;
    } in
    if truthy q.scope && truthy q.signal && ltb 0 q.limit && ltb 0 q.window_ms
    then (
      record s { rate_limits = put id counted s.rate_limits },
      ok (record {
        allowed = leb counted.count q.limit;
        scope = q.scope;
        signal_hash = signal_hash;
        count = counted.count;
        limit = q.limit;
        remaining = q.limit - counted.count;
        reset_at = counted.reset_at;
      }),
    )
    else (s, err type_error)

unfoldable pub read_rate_limit_counter : Text → Text → Store → Result Failure Counter
read_rate_limit_counter scope signal s =
    if truthy scope && truthy signal
    then (elim (get (counter_id scope (s.hash signal)) s.rate_limits) [
      | none ↦ fail rate_limited
      | some c ↦ ok c
    ])
    else fail rate_limited

unfoldable pub record_audit_event : Text → ℕ → Event → Store → Store
record_audit_event id now event s = record s {
  audit_events = s.audit_events ++ (record { id = id; occurred_at = now; event = event } ∷ []);
}

abbrev pub room_of : Event → Text
room_of (room_created actor room version profile) = room
room_of (invite_created actor room invite expires_at) = room
room_of (invite_revoked actor room invite reason at) = room
room_of (invite_regenerated actor room invite old expires_at) = room
room_of (approval_decided actor room invite request decision at) = room

abbrev pub type_of : Event → Text
type_of (room_created actor room version profile) = str "room_created"
type_of (invite_created actor room invite expires_at) = str "invite_created"
type_of (invite_revoked actor room invite reason at) = str "invite_revoked"
type_of (invite_regenerated actor room invite old expires_at) = str "invite_regenerated"
type_of (approval_decided actor room invite request decision at) = str "approval_decided"

unfoldable pub read_audit_events : Text → Text → Store → List AuditEvent
read_audit_events type room s =
    filter (λ x. not (truthy room) || room_of x.event == room)
      (filter (λ x. not (truthy type) || type_of x.event == type) s.audit_events)
