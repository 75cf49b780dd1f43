-- ===== src/Service/Proofs/Sound.antt =====
-- Every move of the machine keeps sessions resting on approvals, one on each.
use easy_mc_server.Prelude.{
  ◌≡◌, ◌≢◌, refl, sym, ap, subst, ◌∙◌, none, some, Text, ◌==◌, ==_iff, ==_refl, arith, Bool-cases,
  inl, inr,
}
use easy_mc_server.Protocol.{ApprovalState}
use easy_mc_server.Service.Records.{Approval, Session}
use easy_mc_server.Service.Repository.{View, put_approval, put_session}
use easy_mc_server.Service.Machine.{
  Move, Moves, opens, invites, revokes, asks, decides, admits, here, next, Answers, HasApproval,
  IsSound,
}

-- A write of an approval that no session rests on.
module _ (v : View) (a : Approval) where
  put_approval-keyed :
      ((k : Text) (b : Approval) → v.approvals k ≡ some b → b.id ≡ k)
      → (k : Text) (b : Approval) → (put_approval a v).approvals k ≡ some b
      → b.id ≡ k
  put_approval-keyed h k b e = elim (Bool-cases (a.id == k)) [
    | inl hit ↦
        let is_a : a ≡ b = ground arith in
        ap (λ (x : Approval). x.id) (sym is_a) ∙ (==_iff a.id k).0 hit
    | inr miss ↦ h k b (ground arith)
  ]

  put_approval-keeps :
      (x : Session) → HasApproval x v → a.id ≢ x.request_id → HasApproval x (put_approval a v)
  put_approval-keeps x (b, at, approved, answers) other =
      (b, ground (arith, ==_iff a.id x.request_id), approved, answers)

  put_approval-IsSound :
      IsSound v
      → ((k : Text) (x : Session) → v.sessions k ≡ some x → a.id ≢ x.request_id)
      → IsSound (put_approval a v)
  put_approval-IsSound h free = record {
    keyed = put_approval-keyed h.keyed;
    backed = λ k x e. put_approval-keeps x (h.backed k x e) (free k x e);
    single = h.single;
  }

-- No session rests on an approval that is pending, or on one that is not there.
pending_free :
    (v : View) (k : Text) (a : Approval)
    → IsSound v
    → v.approvals k ≡ some a
    → a.state ≡ ApprovalState.pending
    → (j : Text) (x : Session) → v.sessions j ≡ some x
    → a.id ≢ x.request_id
pending_free v k a h at pending j x e same =
    let (b, there, approved, _) = h.backed j x e in
    let k_eq = h.keyed k a at in cc (at, pending, there, approved, k_eq, same)

absent_free :
    (v : View) (a : Approval)
    → IsSound v
    → v.approvals a.id ≡ none
    → (j : Text) (x : Session) → v.sessions j ≡ some x
    → a.id ≢ x.request_id
absent_free v a h absent j x e same =
    let (b, there, _, _) = h.backed j x e in cc (absent, there, same)

-- A session that is put for an approval on which none rests.
module _ (v : View) (x : Session) (a : Approval) where
  put_session-IsSound :
      IsSound v
      → v.approvals x.request_id ≡ some a
      → a.state ≡ ApprovalState.approved
      → Answers x a
      → ((j : Text) (y : Session) → v.sessions j ≡ some y → x.request_id ≢ y.request_id)
      → IsSound (put_session x v)
  put_session-IsSound h at approved answers free = record {
    keyed = h.keyed;
    backed = λ k y e. elim (Bool-cases (x.id == k)) [
      | inl hit ↦
          let is_x : x ≡ y = ground arith in
          subst (λ z. HasApproval z v) is_x (a, at, approved, answers)
      | inr miss ↦ h.backed k y (ground arith)
    ];
    single = λ k j y z e f same. elim (Bool-cases (x.id == k)) [
      | inl hit ↦ elim (Bool-cases (x.id == j)) [
        | inl hit' ↦ sym ((==_iff x.id k).0 hit) ∙ (==_iff x.id j).0 hit'
        | inr miss ↦
            let is_x : x ≡ y = ground arith in
            absurd (free j z (ground arith) (ap (λ (w : Session). w.request_id) is_x ∙ same))
      ]
      | inr miss ↦ elim (Bool-cases (x.id == j)) [
        | inl hit ↦
            let is_x : x ≡ z = ground arith in
            absurd (free k y (ground arith) (ap (λ (w : Session). w.request_id) is_x ∙ sym same))
        | inr miss' ↦ h.single k j y z (ground arith) (ground arith) same
      ]
    ];
  }

Move-IsSound : {actor : Text} {v v' : View} → Move actor v v' → IsSound v → IsSound v'
Move-IsSound {v = v} (opens r _ _ _ e) h =
    subst IsSound (sym e) (record { keyed = h.keyed; backed = h.backed; single = h.single })
Move-IsSound {v = v} (invites i _ _ e) h =
    subst IsSound (sym e) (record { keyed = h.keyed; backed = h.backed; single = h.single })
Move-IsSound {v = v} (revokes k i i' _ _ _ _ e) h =
    subst IsSound (sym e) (record { keyed = h.keyed; backed = h.backed; single = h.single })
Move-IsSound {v = v} (asks k i r a _ _ _ _ _ _ absent e) h =
    subst IsSound (sym e) (put_approval-IsSound v a h (absent_free v a h absent))
Move-IsSound {v = v} (decides k a d at found pending _ e) h = subst IsSound (sym e) (
    put_approval-IsSound v (record a { state = d; decided_at = at }) h
      (pending_free v k a h found pending))
Move-IsSound {v = v} (admits k now a at r i x found pending _ _ _ _ _ _ _ answers e) h =
    let a' = record a { state = ApprovalState.approved; decided_at = at } in
    let free = pending_free v k a h found pending in
    subst IsSound (sym e) (
      put_session-IsSound (put_approval a' v) x a' (put_approval-IsSound v a' h free)
        (rw (answers.request, ==_refl a.id) refl) refl
        (record {
          request = answers.request;
          room = answers.room;
          invite = answers.invite;
          player = answers.player;
        })
        (λ j y there same. free j y there (sym answers.request ∙ same)))

-- Every sequence of moves keeps sessions resting on approvals, one on each.
pub Moves-IsSound : {actor : Text} {v v' : View} → Moves actor v v' → IsSound v → IsSound v'
Moves-IsSound (here e) h = subst IsSound (sym e) h
Moves-IsSound (next ms m) h = Move-IsSound m (Moves-IsSound ms h)
