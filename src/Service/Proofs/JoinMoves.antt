-- ===== src/Service/Proofs/JoinMoves.antt =====
-- The calls on join requests make moves of the machine.
use easy_mc_server.Prelude.{
  undefined, ℕ, ◌≡◌, ◌⊎◌, refl, sym, ap, ◌∙◌, true, ◌&&◌, Option, none, some, List, [], ◌∷◌, Text,
  ◌==◌, ==_iff, Result, ok, err, Result-cases, inl, inr, arith, Bool-cases,
}
use easy_mc_server.Protocol.{
  can_actor_perform, RoomState, InviteState, ApprovalState, invite_unavailable, room_closed,
  rate_limited,
}
use easy_mc_server.Service.Records.{
  Failure, Room, Invite, Approval, SessionInput, is_active, is_unexpired,
}
use easy_mc_server.Service.Memory.{Increment, RateAnswer}
use easy_mc_server.Service.Repository.{Repository, View, IsLawful, put_approval, put_session}
use easy_mc_server.Service.Steps.{
  M, after, ◌>>=◌, pure, check, HookAnswer, said_false, refused, allowed, call_hook,
}
use easy_mc_server.Service.Rooms.{Options, Draw, fails, host_may}
use easy_mc_server.Service.Joins.{
  JoinRequest, Decision, is_pending, is_host_decision, action_for_decision, decided, is_approval,
  is_invite_active, signals_of, new_approval, decided_approval, new_session, is_room_available,
  check_available, apply_rate_limits, create_join_request, prepare_session, approve, settle, reject,
  decide_join_request, ask_session_hook,
}
use easy_mc_server.Service.Machine.{Move, Moves, here, IsHostOf}
use easy_mc_server.Service.Proofs.Rules.{
  Move-Moves, after-reading, after-check, after-found, after-quiet, after-save, after-audit,
}
use easy_mc_server.Service.Proofs.HostMoves.{IsHostOf-read}

call_hook-cases :
    {S : Type 0} (o : Option HookAnswer) (s : S)
    → ((e : Failure) × (call_hook o s ≡ (s, err e))) ⊎ (call_hook o s ≡ (s, ok tt))
unfolding call_hook
call_hook-cases none s = inr refl
call_hook-cases (some said_false) s = inl (_, refl)
call_hook-cases (some (refused reason)) s = inl (_, refl)
call_hook-cases (some allowed) s = inr refl

module _ {S : Type 0} (repo : Repository S) (view : S → View) (law : IsLawful repo view) where
  apply_rate_limits-view :
      (options : Options) (now : ℕ) (signals : List (Text × Text)) (s : S)
      → view (apply_rate_limits repo options now signals s).0 ≡ view s
  unfolding apply_rate_limits
  apply_rate_limits-view options now [] s = refl
  apply_rate_limits-view options now ((scope, signal) ∷ signals) s =
      let q : Increment = record {
        scope = scope;
        signal = signal;
        limit = options.join_request_limit;
        window_ms = options.join_request_window_ms;
      } in
      limited (repo.increment_rate_limit_counter now q s) s (law.increment_law now q s)
        (apply_rate_limits repo options now signals) (apply_rate_limits-view options now signals)
    where
      limited :
          (out : S × Result Failure RateAnswer) (s : S)
          → view out.0 ≡ view s
          → (rest : M S (Unit {0})) → ((s' : S) → view (rest s').0 ≡ view s')
          → view (after out (λ answer. check answer.allowed (fails rate_limited) >>= λ _. rest)).0
            ≡ view s
      limited (s', err e) s same rest keep = same
      limited (s', ok answer) s same rest keep = elim (Bool-cases answer.allowed) [
        | inl b ↦ rw b (keep s' ∙ same)
        | inr b ↦ rw b same
      ]

  is_room_available-opened :
      (r : Room) (s : S) → is_room_available repo r s ≡ true → r.state ≡ RoomState.opened
  unfolding is_room_available
  is_room_available-opened r s h = ground arith

  pub create_join_request-Moves :
      (options : Options) (now : ℕ) (draw : Draw) (q : JoinRequest) (s : S)
      → (view s).approvals draw.id ≡ none
      → Moves undefined (view s) (view (create_join_request repo options now draw q s).0)
  unfolding create_join_request check_available new_approval
  create_join_request-Moves options now draw q s fresh =
      after-reading undefined view (view s) (fails invite_unavailable) s
        (repo.read_invite_by_token now q.invite_token s) _ (here refl)
        (λ i read_i.
          after-reading undefined view (view s) (fails room_closed) s (repo.read_room i.room_id s) _
            (here refl)
            (λ r read_r.
              after-check undefined view (view s) _ (fails room_closed) s _ (here refl) (λ is_open.
                after-quiet undefined view (view s) s
                  (apply_rate_limits repo options now (signals_of i.id q) s)
                  (λ _. repo.save_approval (new_approval now draw i q) >>= λ saved. pure saved.id)
                  (apply_rate_limits-view options now (signals_of i.id q) s) (here refl)
                  (λ _ s' same.
                    after-save undefined view (view s) _ put_approval s' _ _
                      (law.save_approval_law _ s') (here same)
                      (λ a s'' is put_a.
                        let (k, at) = law.read_invite_by_token_law now q.invite_token s i read_i in
                        Move-Moves (
                          Move.asks k i r a at (law.read_room_law i.room_id s r read_r)
                            (is_room_available-opened r s is_open)
                            (ap (λ (x : Approval). x.room_id) is)
                            (ap (λ (x : Approval). x.invite_id) is)
                            (ap (λ (x : Approval). x.state) is)
                            (ap (λ (x : Approval). (view s).approvals x.id) is ∙ fresh)
                            (put_a ∙ ap (put_approval a) same)))))))

  reject-Moves :
      (now : ℕ) (draw : Draw) (actor : Text) (d : Decision) (a : Approval) (s : S)
      → (view s).approvals d.request_id ≡ some a
      → a.state ≡ ApprovalState.pending
      → IsHostOf actor a.room_id (view s)
      → Moves actor (view s) (view (reject repo now draw actor d a s).0)
  unfolding reject decided_approval
  reject-Moves now draw actor d a s at pending hosts =
      after-save actor view (view s) _ put_approval s _ _ (law.save_approval_law _ s) (here refl)
        (λ b s' is put_b. after-audit actor view (view s) repo law _ _ _ s' _ (λ s'' same.
          Move-Moves (
            Move.decides d.request_id a (decided d.decision a.state) (some now) at pending hosts
              (same ∙ put_b ∙ ap (λ x. put_approval x (view s)) is))))

  -- A session that was prepared for an approval: the invite is active, the room is open, and the
  -- player is the one of the request.
  record Prepared (options : Options) (now : ℕ) (id : Text) (d : Decision) (a : Approval) (r : Room)
      (s : S) (x : SessionInput) : Type 0 where
    pub invite : Invite
    pub is_new : x ≡ new_session now options.session_ttl_ms id d a
    pub player : a.minecraft_uuid ≡ d.minecraft_uuid
    pub at : (view s).invites a.invite_id ≡ some invite
    pub active : invite.state ≡ InviteState.active
    pub unexpired : is_unexpired now invite.expires_at ≡ true
    pub opened : r.state ≡ RoomState.opened

  prepare_session_cases :
      (options : Options) (now : ℕ) (id : Text) (d : Decision) (a : Approval) (r : Room) (s : S)
      → let out = prepare_session repo options now id d a r s in
        ((e : Failure) × (out ≡ (s, err e)))
        ⊎ ((x : SessionInput) × (out ≡ (s, ok x)) × Prepared options now id d a r s x)
  unfolding prepare_session check_available can_actor_perform is_invite_active
  prepare_session_cases options now id d a r s =
      elim (Bool-cases (a.minecraft_uuid == d.minecraft_uuid)) [
        | inr e ↦ rw (e, prepare_session) (inl (_, refl))
        | inl e ↦ elim (Result-cases (repo.read_invite a.invite_id s)) [
          | inl (x, f) ↦ rw (e, f, prepare_session) (inl (_, refl))
          | inr (i, f) ↦ elim (Bool-cases (is_active i.state && is_unexpired now i.expires_at)) [
            | inr g ↦ rw (e, f, g, prepare_session) (inl (_, refl))
            | inl g ↦ elim (Bool-cases (is_room_available repo r s)) [
              | inr o ↦ rw (e, f, g, o, prepare_session) (inl (_, refl))
              | inl o ↦
                  elim (call_hook-cases
                    (ask_session_hook options.check_session_quota a d.minecraft_uuid now) s) [
                      | inl (x, c) ↦ rw (e, f, g, o, c, prepare_session) (inl (_, refl))
                      | inr c ↦
                          rw (e, f, g, o, c, prepare_session)
                            (inr (
                              new_session now options.session_ttl_ms id d a,
                              refl,
                              record {
                                invite = i;
                                is_new = refl;
                                player = (==_iff a.minecraft_uuid d.minecraft_uuid).0 e;
                                at = law.read_invite_law a.invite_id s i f;
                                active = ground arith;
                                unexpired = ground arith;
                                opened = is_room_available-opened r s o;
                              },
                            ))
                    ]
            ]
          ]
        ]
      ]

  approve-Moves :
      (options : Options) (now : ℕ) (draw : Draw) (actor : Text) (d : Decision) (a : Approval)
      (r : Room) (s : S)
      → (view s).approvals d.request_id ≡ some a
      → a.state ≡ ApprovalState.pending
      → d.decision ≡ some ApprovalState.approved
      → (view s).rooms a.room_id ≡ some r
      → IsHostOf actor a.room_id (view s)
      → Moves actor (view s) (view (approve repo options now draw actor d a r s).0)
  unfolding approve decided_approval new_session
  approve-Moves options now draw actor d a r s at pending is_yes room_at hosts =
      let b = decided_approval now d a in
      let decides_b = λ (v : View) (e : v ≡ put_approval b (view s)).
        Move-Moves (
          Move.decides d.request_id a (decided d.decision a.state) (some now) at pending hosts e) in
      after-found actor view (view s) (Prepared options now draw.id d b r s) s _ _
        (prepare_session_cases options now draw.id d b r s) (here refl)
        (λ x p.
          after-save actor view (view s) _ put_approval s _ _ (law.save_approval_law _ s)
            (here refl)
            (λ b' s' is put_b. after-audit actor view (view s) repo law _ _ _ s' _ (λ s'' same.
              let at_b = same ∙ put_b ∙ ap (λ z. put_approval z (view s)) is in
              after-save actor view (view s) _ put_session s'' _ _ (law.save_session_law x s'')
                (decides_b (view s'') at_b)
                (λ y s3 kept put_y.
                  let approved_b =
                    ap
                      (λ st. put_approval (record a { state = st; decided_at = some now }) (view s))
                      (ap (λ o. decided o a.state) is_yes) in
                  Move-Moves (
                    Move.admits d.request_id now a (some now) r p.invite y at pending hosts room_at
                      p.opened p.at p.active p.unexpired
                      (kept.state ∙ ap (λ (z : SessionInput). z.state) p.is_new)
                      (record {
                        request = kept.request ∙ ap (λ (z : SessionInput). z.request_id) p.is_new;
                        room = kept.room ∙ ap (λ (z : SessionInput). z.room_id) p.is_new;
                        invite = kept.invite ∙ ap (λ (z : SessionInput). z.invite_id) p.is_new;
                        player =
                            kept.player
                            ∙ ap (λ (z : SessionInput). z.minecraft_uuid) p.is_new
                            ∙ sym p.player;
                      })
                      (put_y ∙ ap (put_session y) (at_b ∙ approved_b)))))))

  is_approval-approved :
      (o : Option ApprovalState) → is_approval o ≡ true → o ≡ some ApprovalState.approved
  is_approval-approved o h = ground arith

  settle-Moves :
      (options : Options) (now : ℕ) (draw : Draw) (actor : Text) (d : Decision) (a : Approval)
      (r : Room) (s : S)
      → (view s).approvals d.request_id ≡ some a
      → a.state ≡ ApprovalState.pending
      → (view s).rooms a.room_id ≡ some r
      → IsHostOf actor a.room_id (view s)
      → Moves actor (view s) (view (settle repo options now draw actor d a r s).0)
  unfolding settle
  settle-Moves options now draw actor d a r s at pending room_at hosts =
      elim (Bool-cases (is_approval d.decision)) [
        | inl b ↦
            rw (b, settle)
              (approve-Moves options now draw actor d a r s at pending
                (is_approval-approved d.decision b) room_at hosts)
        | inr b ↦ rw (b, settle) (reject-Moves now draw actor d a s at pending hosts)
      ]

  pub decide_join_request-Moves :
      (options : Options) (now : ℕ) (draw : Draw) (actor : Text) (d : Decision) (s : S)
      → Moves actor (view s) (view (decide_join_request repo options now draw actor d s).0)
  unfolding decide_join_request
  decide_join_request-Moves options now draw actor d s =
      elim (Bool-cases (is_host_decision d.decision)) [
        | inr e ↦ rw (e, decide_join_request) (here refl)
        | inl e ↦ elim (Result-cases (repo.read_approval d.request_id s)) [
          | inl (x, f) ↦ rw (e, f, decide_join_request) (here refl)
          | inr (a, f) ↦ elim (Result-cases (repo.read_room a.room_id s)) [
            | inl (x, g) ↦ rw (e, f, g, decide_join_request) (here refl)
            | inr (r, g) ↦ elim (Bool-cases (host_may (action_for_decision d.decision) actor r)) [
              | inr m ↦ rw (e, f, g, m, decide_join_request) (here refl)
              | inl m ↦ elim (Bool-cases (is_pending a.state)) [
                | inr p ↦ rw (e, f, g, m, p, decide_join_request) (here refl)
                | inl p ↦
                    rw (e, f, g, m, p, decide_join_request)
                      (settle-Moves options now draw actor d a r s
                        (law.read_approval_law d.request_id s a f) (ground (arith, p))
                        (law.read_room_law a.room_id s r g)
                        (IsHostOf-read repo view law (action_for_decision d.decision) actor
                          a.room_id r s g m))
              ]
            ]
          ]
        ]
      ]
