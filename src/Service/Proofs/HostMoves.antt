-- ===== src/Service/Proofs/HostMoves.antt =====
-- The calls of a host make moves of the machine.
use easy_mc_server.Prelude.{
  ℕ, ◌≡◌, ◌⊎◌, refl, sym, ap, subst, ◌∙◌, true, some, Text, ==_iff, truthy, ok, err, Result-cases,
  inl, inr, arith, Bool-cases,
}
use easy_mc_server.Protocol.{Action, session_unavailable}
use easy_mc_server.Service.Records.{Failure, type_error, Room, Invite}
use easy_mc_server.Service.Repository.{Repository, View, IsLawful, put_room, put_invite}
use easy_mc_server.Service.Rooms.{
  Options, Draw, fails, host_may, ask_room_hook, new_room, new_invite, revoked_invite, create_room,
  create_invite, read_authorized_invite, revoke_invite, regenerate_invite,
}
use easy_mc_server.Service.Machine.{Move, Moves, here, next, IsHostOf}
use easy_mc_server.Service.Proofs.Rules.{
  Move-Moves, after-reading, after-check, after-hook, after-found, after-save, after-audit,
}

host_may-hosts :
    (action : Action) (actor : Text) (room : Room)
    → host_may action actor room ≡ true
    → (room.host_id ≡ actor) × (truthy actor ≡ true)
unfolding host_may
host_may-hosts action actor room h = ground (arith, ==_iff room.host_id actor)

module _ {S : Type 0} (repo : Repository S) (view : S → View) (law : IsLawful repo view) where
  -- The host of a room that was read and that a check let through.
  pub IsHostOf-read :
      (action : Action) (actor k : Text) (r : Room) (s : S)
      → repo.read_room k s ≡ ok r
      → host_may action actor r ≡ true
      → IsHostOf actor k (view s)
  IsHostOf-read action actor k r s read may =
      let h = host_may-hosts action actor r may in
      record { found = r; at = law.read_room_law k s r read; hosts = h.0; named = h.1 }

  pub create_room-Moves :
      (options : Options) (now : ℕ) (draw : Draw) (actor alias version profile : Text) (s : S)
      → Moves actor
          (view s)
          (view (create_room repo options now draw actor alias version profile s).0)
  unfolding create_room new_room
  create_room-Moves options now draw actor alias version profile s =
      after-check actor view (view s) (truthy actor) type_error s _ (here refl) (λ named.
        after-hook actor view (view s) (ask_room_hook options.check_room_quota actor now) s _
          (here refl)
          (after-save actor view (view s) _ put_room s _ _ (law.save_room_law _ s) (here refl)
            (λ r s' is put_r. after-audit actor view (view s) repo law _ _ _ s' _ (λ s'' same.
              Move-Moves (
                Move.opens r (ap (λ (x : Room). x.state) is) (ap (λ (x : Room). x.host_id) is) named
                  (same ∙ put_r))))))

  pub create_invite-Moves :
      (options : Options) (now : ℕ) (draw : Draw) (actor room : Text) (s : S)
      → Moves actor (view s) (view (create_invite repo options now draw actor room s).0)
  unfolding create_invite new_invite
  create_invite-Moves options now draw actor room s =
      after-reading actor view (view s) (fails session_unavailable) s (repo.read_room room s) _
        (here refl)
        (λ r read.
          after-check actor view (view s) _ (fails session_unavailable) s _ (here refl) (λ may.
            after-save actor view (view s) _ put_invite s _ _ (law.save_invite_law _ s) (here refl)
              (λ i s' kept put_i. after-audit actor view (view s) repo law _ _ _ s' _ (λ s'' same.
                Move-Moves (
                  Move.invites i
                    (subst (λ k. IsHostOf actor k (view s)) (sym kept.room)
                      (IsHostOf-read Action.create_invite actor room r s read may))
                    kept.state (same ∙ put_i))))))

  -- An invite that was read, and whose room is the actor's.
  abbrev Authorized : Text → Text → S → Invite → Type 0
  Authorized actor id s i = ((view s).invites id ≡ some i) × IsHostOf actor i.room_id (view s)

  read_authorized_invite_cases :
      (actor id : Text) (action : Action) (s : S)
      → let out = read_authorized_invite repo actor id action s in
        ((e : Failure) × (out ≡ (s, err e)))
        ⊎ ((i : Invite) × (out ≡ (s, ok i)) × Authorized actor id s i)
  unfolding read_authorized_invite
  read_authorized_invite_cases actor id action s = elim (Result-cases (repo.read_invite id s)) [
    | inl (x, e) ↦ rw (e, read_authorized_invite) (inl (_, refl))
    | inr (i, e) ↦ elim (Result-cases (repo.read_room i.room_id s)) [
      | inl (x, f) ↦ rw (e, f, read_authorized_invite) (inl (_, refl))
      | inr (r, f) ↦ elim (Bool-cases (host_may action actor r)) [
        | inr may ↦ rw (e, f, may, read_authorized_invite) (inl (_, refl))
        | inl may ↦ inr (
          i,
          rw (e, f, may, read_authorized_invite) refl,
          (law.read_invite_law id s i e, IsHostOf-read action actor i.room_id r s f may),
        )
      ]
    ]
  ]

  pub revoke_invite-Moves :
      (now : ℕ) (draw : Draw) (actor invite reason : Text) (s : S)
      → Moves actor (view s) (view (revoke_invite repo now draw actor invite reason s).0)
  unfolding revoke_invite revoked_invite
  revoke_invite-Moves now draw actor invite reason s =
      after-found actor view (view s) (Authorized actor invite s) s _ _
        (read_authorized_invite_cases actor invite Action.revoke_invite s) (here refl)
        (λ i a.
          after-save actor view (view s) _ put_invite s _ _ (law.save_invite_law _ s) (here refl)
            (λ i' s' kept put_i. after-audit actor view (view s) repo law _ _ _ s' _ (λ s'' same.
              Move-Moves (Move.revokes invite i i' a.0 a.1 kept.id kept.state (same ∙ put_i)))))

  IsHostOf-put_invite :
      (actor room : Text) (i : Invite) (v v' : View)
      → v' ≡ put_invite i v
      → IsHostOf actor room v
      → IsHostOf actor room v'
  IsHostOf-put_invite actor room i v v' e h =
      subst (IsHostOf actor room) (sym e)
        (record { found = h.found; at = h.at; hosts = h.hosts; named = h.named })

  pub regenerate_invite-Moves :
      (options : Options) (now : ℕ) (draw : Draw) (actor invite : Text) (s : S)
      → Moves actor (view s) (view (regenerate_invite repo options now draw actor invite s).0)
  unfolding regenerate_invite revoked_invite new_invite
  regenerate_invite-Moves options now draw actor invite s =
      after-found actor view (view s) (Authorized actor invite s) s _ _
        (read_authorized_invite_cases actor invite Action.revoke_invite s) (here refl)
        (λ i a.
          after-save actor view (view s) _ put_invite s _ _ (law.save_invite_law _ s) (here refl)
            (λ i' s' kept put_i.
              let revoked =
                Move-Moves (Move.revokes invite i i' a.0 a.1 kept.id kept.state put_i) in
              after-save actor view (view s) _ put_invite s' _ _ (law.save_invite_law _ s') revoked
                (λ j s'' kept' put_j.
                  after-audit actor view (view s) repo law _ _ _ s'' _ (λ s3 same. next revoked (
                    Move.invites j
                      (IsHostOf-put_invite actor j.room_id i' (view s) (view s') put_i
                        (subst (λ k. IsHostOf actor k (view s)) (sym kept'.room) a.1))
                      kept'.state (same ∙ put_j))))))
