-- ===== src/Service/Machine.antt =====
-- What the room service promises, without a repository: a machine on what can be seen, whose moves
-- are the changes that a call of an actor may make.
use easy_mc_server.Prelude.{ℕ, ◌≡◌, true, Option, none, some, Text, truthy}
use easy_mc_server.Protocol.{RoomState, InviteState, ApprovalState, SessionState}
use easy_mc_server.Service.Records.{Room, Invite, Approval, Session, is_unexpired}
use easy_mc_server.Service.Repository.{
  View, empty_view, put_room, put_invite, put_approval, put_session,
}

-- The room of a record is that of an actor.
pub record IsHostOf (actor room : Text) (v : View) : Type 0 where
  pub found : Room
  pub at : v.rooms room ≡ some found
  pub hosts : found.host_id ≡ actor
  pub named : truthy actor ≡ true

-- A session that answers to an approval.
pub record Answers (x : Session) (a : Approval) : Type 0 where
  pub request : x.request_id ≡ a.id
  pub room : x.room_id ≡ a.room_id
  pub invite : x.invite_id ≡ a.invite_id
  pub player : x.minecraft_uuid ≡ a.minecraft_uuid

-- A change that a call of the actor may make: a room is opened for the actor, and only the host of a
-- room invites, revokes and decides. Anyone asks.
pub data Move (actor : Text) (v : View) : View → Type 0 where
  opens :
      {v' : View} (r : Room)
      → r.state ≡ RoomState.opened
      → r.host_id ≡ actor
      → truthy actor ≡ true
      → v' ≡ put_room r v
      → Move actor v v'
  invites :
      {v' : View} (i : Invite)
      → IsHostOf actor i.room_id v
      → i.state ≡ InviteState.active
      → v' ≡ put_invite i v
      → Move actor v v'
  revokes :
      {v' : View} (k : Text) (i i' : Invite)
      → v.invites k ≡ some i
      → IsHostOf actor i.room_id v
      → i'.id ≡ i.id
      → i'.state ≡ InviteState.revoked
      → v' ≡ put_invite i' v
      → Move actor v v'
  asks :
      {v' : View} (k : Text) (i : Invite) (r : Room) (a : Approval)
      → v.invites k ≡ some i
      → v.rooms i.room_id ≡ some r
      → r.state ≡ RoomState.opened
      → a.room_id ≡ i.room_id
      → a.invite_id ≡ i.id
      → a.state ≡ ApprovalState.pending
      → v.approvals a.id ≡ none
      → v' ≡ put_approval a v
      → Move actor v v'
  decides :
      {v' : View} (k : Text) (a : Approval) (d : ApprovalState) (at : Option ℕ)
      → v.approvals k ≡ some a
      → a.state ≡ ApprovalState.pending
      → IsHostOf actor a.room_id v
      → v' ≡ put_approval (record a { state = d; decided_at = at }) v
      → Move actor v v'
  admits :
      {v' : View} (k : Text) (now : ℕ) (a : Approval) (at : Option ℕ) (r : Room) (i : Invite)
      (x : Session)
      → v.approvals k ≡ some a
      → a.state ≡ ApprovalState.pending
      → IsHostOf actor a.room_id v
      → v.rooms a.room_id ≡ some r
      → r.state ≡ RoomState.opened
      → v.invites a.invite_id ≡ some i
      → i.state ≡ InviteState.active
      → is_unexpired now i.expires_at ≡ true
      → x.state ≡ SessionState.issued
      → Answers x a
      → v'
        ≡ put_session x
            (put_approval (record a { state = ApprovalState.approved; decided_at = at }) v)
      → Move actor v v'

pub data Moves (actor : Text) (v : View) : View → Type 0 where
  here : {v' : View} → v' ≡ v → Moves actor v v'
  next : {u v' : View} → Moves actor v u → Move actor u v' → Moves actor v v'

-- A session and the approval that it rests on.
abbrev pub HasApproval : Session → View → Type 0
HasApproval x v =
    (a : Approval) × (v.approvals x.request_id ≡ some a)
    × (a.state ≡ ApprovalState.approved)
    × Answers x a

-- Approvals lie under their ids, every session rests on an approval, and no two on the same one.
pub record IsSound (v : View) : Type 0 where
  pub keyed : (k : Text) (a : Approval) → v.approvals k ≡ some a → a.id ≡ k
  pub backed : (k : Text) (x : Session) → v.sessions k ≡ some x → HasApproval x v
  pub single :
      (k j : Text) (x y : Session)
      → v.sessions k ≡ some x
      → v.sessions j ≡ some y
      → x.request_id ≡ y.request_id
      → k ≡ j

pub empty_view-IsSound : IsSound empty_view
empty_view-IsSound = record {
  keyed = λ k a e. cc e;
  backed = λ k x e. cc e;
  single = λ k j x y e f g. cc e;
}
