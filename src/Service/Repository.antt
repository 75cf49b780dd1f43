-- ===== src/Service/Repository.antt =====
-- The repository that the room service is given: its operations, what can be seen of its state, and
-- the laws that relate them.
use easy_mc_server.Prelude.{
  ℕ, Bool, Option, none, some, Text, ◌==◌, ◌≡◌, ◌⊎◌, Result, ok, err, if◌then◌else◌,
}
use easy_mc_server.Service.Records.{
  Failure, Room, InviteInput, Invite, Approval, SessionInput, Session, Event,
}
use easy_mc_server.Service.Memory.{Increment, RateAnswer}

-- An operation that a repository may lack is an option. A transaction is the operation itself: the
-- service throws no error inside one that a repository would roll back. The operations of one call run
-- with none of another call in between.
pub record Repository (S : Type 0) : Type 0 where
  pub save_room : Room → S → S × Result Failure Room
  pub read_room : Text → S → Result Failure Room
  pub save_invite : InviteInput → S → S × Result Failure Invite
  pub read_invite : Text → S → Result Failure Invite
  pub read_invite_by_token : ℕ → Text → S → Result Failure Invite
  pub save_approval : Approval → S → S × Result Failure Approval
  pub read_approval : Text → S → Result Failure Approval
  pub save_session : SessionInput → S → S × Result Failure Session
  pub increment_rate_limit_counter : ℕ → Increment → S → S × Result Failure RateAnswer
  pub record_audit_event : Option (Text → ℕ → Event → S → S)
  pub read_presence : Option (Text → S → Bool)

-- What can be seen: the records under their ids.
pub record View : Type 0 where
  pub rooms : Text → Option Room
  pub invites : Text → Option Invite
  pub approvals : Text → Option Approval
  pub sessions : Text → Option Session

abbrev pub empty_view : View
empty_view = record {
  rooms = λ _. none;
  invites = λ _. none;
  approvals = λ _. none;
  sessions = λ _. none;
}

abbrev pub update : {A : Type 0} → Text → A → (Text → Option A) → Text → Option A
update k a f j = if k == j then some a else f j

abbrev pub put_room : Room → View → View
put_room r v = record v { rooms = update r.id r v.rooms }

abbrev pub put_invite : Invite → View → View
put_invite i v = record v { invites = update i.id i v.invites }

abbrev pub put_approval : Approval → View → View
put_approval a v = record v { approvals = update a.id a v.approvals }

abbrev pub put_session : Session → View → View
put_session x v = record v { sessions = update x.id x v.sessions }

-- A record that is kept has the fields of the one that was handed in, but for secrets.
pub record KeepsInvite (input : InviteInput) (i : Invite) : Type 0 where
  pub id : i.id ≡ input.id
  pub room : i.room_id ≡ input.room_id
  pub state : i.state ≡ input.state
  pub expires : i.expires_at ≡ input.expires_at

pub record KeepsSession (input : SessionInput) (x : Session) : Type 0 where
  pub id : x.id ≡ input.id
  pub room : x.room_id ≡ input.room_id
  pub invite : x.invite_id ≡ input.invite_id
  pub request : x.request_id ≡ input.request_id
  pub player : x.minecraft_uuid ≡ input.minecraft_uuid
  pub state : x.state ≡ input.state

-- A write that fails changes nothing that is seen, and one that succeeds changes one record.
abbrev pub Writes :
    {S A : Type 0}
    → (S → View)
    → (A → Type 0)
    → (A → View → View)
    → S
    → S × Result Failure A
    → Type 0
Writes view P put s out =
    ((e : Failure) × (out.1 ≡ err e) × (view out.0 ≡ view s))
    ⊎ ((a : _) × (out.1 ≡ ok a) × P a × (view out.0 ≡ put a (view s)))

pub record IsLawful {S : Type 0} (repo : Repository S) (view : S → View) : Type 0 where
  pub save_room_law : (r : Room) (s : S) → Writes view (λ x. x ≡ r) put_room s (repo.save_room r s)
  pub read_room_law :
      (k : Text) (s : S) (r : Room) → repo.read_room k s ≡ ok r → (view s).rooms k ≡ some r
  pub save_invite_law :
      (i : InviteInput) (s : S) → Writes view (KeepsInvite i) put_invite s (repo.save_invite i s)
  pub read_invite_law :
      (k : Text) (s : S) (i : Invite) → repo.read_invite k s ≡ ok i → (view s).invites k ≡ some i
  pub read_invite_by_token_law :
      (now : ℕ) (token : Text) (s : S) (i : Invite)
      → repo.read_invite_by_token now token s ≡ ok i
      → (k : Text) × ((view s).invites k ≡ some i)
  pub save_approval_law :
      (a : Approval) (s : S) → Writes view (λ x. x ≡ a) put_approval s (repo.save_approval a s)
  pub read_approval_law :
      (k : Text) (s : S) (a : Approval)
      → repo.read_approval k s ≡ ok a
      → (view s).approvals k ≡ some a
  pub save_session_law :
      (x : SessionInput) (s : S)
      → Writes view (KeepsSession x) put_session s (repo.save_session x s)
  pub increment_law :
      (now : ℕ) (q : Increment) (s : S)
      → view (repo.increment_rate_limit_counter now q s).0 ≡ view s
  pub audit_law :
      (record_event : Text → ℕ → Event → S → S) (id : Text) (now : ℕ) (e : Event) (s : S)
      → repo.record_audit_event ≡ some record_event
      → view (record_event id now e s) ≡ view s
