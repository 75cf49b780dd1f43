-- ===== src/HostRuntime/Proofs/Approvals.antt =====
-- When the host may approve a friend.
use easy_mc_server.Prelude.{
  ◌≡◌, ◌⊎◌, ◌↔◌, inl, inr, refl, Bool, true, false, Text, undefined, str, truthy, ◌==◌, ==_iff,
  arith, Bool-cases,
}
use easy_mc_server.HostRuntime.Approvals.{is_mismatch, ApprovalInput, create_approval_ui_state}

-- A request that waits for the host: no error, no decision, a status that is none of those that end it,
-- and a connection whose uuid the server has observed, which is the claimed one where one is claimed.
pub record Awaits (i : ApprovalInput) : Type 0 where
  pub no_error : i.has_error ≡ false
  pub not_approved : (i.decision == str "approved") ≡ false
  pub not_denied : (i.decision == str "denied") ≡ false
  pub not_blocked : (i.decision == str "blocked") ≡ false
  pub not_expired : (i.status == str "expired") ≡ false
  pub host_there : (i.status == str "host_unavailable") ≡ false
  pub not_allowed_yet : (i.status == str "already_allowed") ≡ false
  pub same_identity : (i.status == str "identity_changed") ≡ false
  pub connected : truthy i.connection_id ≡ true
  pub observed : truthy i.server_observed_uuid ≡ true
  pub claim :
      (truthy i.claimed_minecraft_uuid ≡ false)
      ⊎ (i.claimed_minecraft_uuid ≡ i.server_observed_uuid)

-- Whether approval is offered.
abbrev offers : Text → Bool
offers action = action == str "approve"

offers_none :
    (offers undefined ≡ false)
    × (offers (str "request_again") ≡ false)
    × (offers (str "review_again") ≡ false)
unfolding ◌==◌
offers_none = (refl, refl, refl)

create_approval_ui_state-offers :
    (i : ApprovalInput) → offers (create_approval_ui_state i).primary_action ≡ true → Awaits i
unfolding create_approval_ui_state is_mismatch
create_approval_ui_state-offers i h =
    let (nothing, again, review) = offers_none in
    record {
      no_error = ground arith;
      not_approved = ground arith;
      not_denied = ground arith;
      not_blocked = ground arith;
      not_expired = ground arith;
      host_there = ground arith;
      not_allowed_yet = ground arith;
      same_identity = ground arith;
      connected = ground arith;
      observed = ground arith;
      claim = elim (Bool-cases (truthy i.claimed_minecraft_uuid)) [
        | inr absent ↦ inl absent
        | inl there ↦
            inr ((==_iff i.claimed_minecraft_uuid i.server_observed_uuid).0 (ground arith))
      ];
    }

Awaits-approve :
    (i : ApprovalInput) → Awaits i → (create_approval_ui_state i).primary_action ≡ str "approve"
unfolding create_approval_ui_state is_mismatch
Awaits-approve i w =
    let same : is_mismatch i.claimed_minecraft_uuid i.server_observed_uuid ≡ false =
      no_mismatch w.claim in
    rw
      (
        w.no_error, w.not_approved, w.not_denied, w.not_blocked, w.not_expired, w.host_there,
        w.not_allowed_yet, w.same_identity, w.connected, w.observed, same, create_approval_ui_state,
      )
      refl
  where
    no_mismatch :
        (truthy i.claimed_minecraft_uuid ≡ false)
          ⊎ (i.claimed_minecraft_uuid ≡ i.server_observed_uuid)
        → is_mismatch i.claimed_minecraft_uuid i.server_observed_uuid ≡ false
    no_mismatch (inl absent) = rw absent refl
    no_mismatch (inr same) =
        ground (arith, (==_iff i.claimed_minecraft_uuid i.server_observed_uuid).1 same)

-- The host is offered to approve exactly a request that waits for it; so never without a uuid that the
-- server has observed, and never against a claim of another one.
pub create_approval_ui_state-Awaits :
    (i : ApprovalInput) → ((create_approval_ui_state i).primary_action ≡ str "approve") ↔ Awaits i
create_approval_ui_state-Awaits i = (
  λ h.
      create_approval_ui_state-offers i
        ((==_iff (create_approval_ui_state i).primary_action (str "approve")).1 h),
  Awaits-approve i,
)
