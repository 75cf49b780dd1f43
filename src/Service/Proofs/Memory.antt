-- ===== src/Service/Proofs/Memory.antt =====
-- The store in memory is a lawful repository.
use easy_mc_server.Prelude.{
  ℕ, ◌≡◌, refl, ap, subst, some, Text, truthy, ok, inl, inr, arith, Option-cases, Bool-cases,
}
use mathlib.Core.Path.{fun_ext}
use mathlib.Core.Option.{some-injective}
use easy_mc_server.Prelude.Map.{Map, get, put}
use easy_mc_server.Prelude.Map.Laws.{get-put}
use easy_mc_server.Service.Records.{
  type_error, Room, InviteInput, Invite, Approval, SessionInput, Event,
}
use easy_mc_server.Service.Memory.{
  Store, Increment, save_room, read_room, sanitize_invite, save_invite, read_invite,
  read_invite_by_token, indexed_invite, save_approval, read_approval, sanitize_session,
  save_session, increment_rate_limit_counter, record_audit_event,
}
use easy_mc_server.Service.Repository.{
  update, put_room, put_invite, put_approval, put_session, KeepsInvite, KeepsSession, Writes,
  IsLawful,
}
use easy_mc_server.Service.InMemory.{memory, view_of}

put-update :
    {V : Type 0} (k : Text) (v : V) (m : Map V)
    → (λ j. get j (put k v m)) ≡ update k v (λ j. get j m)
put-update k v m = fun_ext (λ j. get-put k j v m)

save_room-Writes : (r : Room) (s : Store) → Writes view_of (λ x. x ≡ r) put_room s (save_room r s)
unfolding save_room
save_room-Writes r s = elim (Bool-cases (truthy r.id)) [
  | inr b ↦ rw (b, save_room) (inl (type_error, refl, refl))
  | inl b ↦
      rw (b, save_room)
        (inr
          (r, refl, refl, ap (λ f. record (view_of s) { rooms = f }) (put-update r.id r s.rooms)))
]

save_approval-Writes :
    (a : Approval) (s : Store) → Writes view_of (λ x. x ≡ a) put_approval s (save_approval a s)
unfolding save_approval
save_approval-Writes a s = elim (Bool-cases (truthy a.id)) [
  | inr b ↦ rw (b, save_approval) (inl (type_error, refl, refl))
  | inl b ↦
      rw (b, save_approval)
        (inr (
          a,
          refl,
          refl,
          ap (λ f. record (view_of s) { approvals = f }) (put-update a.id a s.approvals),
        ))
]

save_invite-Writes :
    (i : InviteInput) (s : Store) → Writes view_of (KeepsInvite i) put_invite s (save_invite i s)
unfolding save_invite sanitize_invite
save_invite-Writes i s = elim (Bool-cases (truthy i.id)) [
  | inr b ↦ rw (b, save_invite) (inl (type_error, refl, refl))
  | inl b ↦
      rw (b, save_invite)
        (inr (
          sanitize_invite s.hash i,
          refl,
          record { id = refl; room = refl; state = refl; expires = refl },
          ap (λ f. record (view_of s) { invites = f })
              (put-update i.id (sanitize_invite s.hash i) s.invites),
        ))
]

save_session-Writes :
    (x : SessionInput) (s : Store)
    → Writes view_of (KeepsSession x) put_session s (save_session x s)
unfolding save_session sanitize_session
save_session-Writes x s = elim (Bool-cases (truthy x.id)) [
  | inr b ↦ rw (b, save_session) (inl (type_error, refl, refl))
  | inl b ↦
      rw (b, save_session)
        (inr (
          sanitize_session s.hash x,
          refl,
          record {
            id = refl;
            room = refl;
            invite = refl;
            request = refl;
            player = refl;
            state = refl;
          },
          ap (λ f. record (view_of s) { sessions = f })
              (put-update x.id (sanitize_session s.hash x) s.sessions),
        ))
]

read_invite_by_token-at :
    (now : ℕ) (token : Text) (s : Store) (i : Invite)
    → read_invite_by_token now token s ≡ ok i
    → (k : Text) × (get k s.invites ≡ some i)
unfolding read_invite_by_token indexed_invite
read_invite_by_token-at now token s i h =
    elim (Option-cases (get (s.hash token) s.invite_token_index)) [
      | inl e ↦ absurd (ground (arith, h))
      | inr (k, e) ↦ (k, ground arith)
    ]

increment-view :
    (now : ℕ) (q : Increment) (s : Store)
    → view_of (increment_rate_limit_counter now q s).0 ≡ view_of s
unfolding increment_rate_limit_counter
increment-view now q s = ground arith

-- The store in memory obeys the laws of a repository: a read gives what is seen, a write that fails
-- changes nothing that is seen, and one that succeeds changes one record.
pub memory-IsLawful : IsLawful memory view_of
unfolding read_room read_invite read_approval record_audit_event
memory-IsLawful = record {
  save_room_law = save_room-Writes;
  read_room_law = λ k s r h. ground arith;
  save_invite_law = save_invite-Writes;
  read_invite_law = λ k s i h. ground arith;
  read_invite_by_token_law = read_invite_by_token-at;
  save_approval_law = save_approval-Writes;
  read_approval_law = λ k s a h. ground arith;
  save_session_law = save_session-Writes;
  increment_law = increment-view;
  audit_law = λ f id now e s h.
      subst (λ (g : Text → ℕ → Event → Store → Store). view_of (g id now e s) ≡ view_of s)
        (some-injective _ f h) refl;
}
