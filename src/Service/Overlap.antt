-- ===== src/Service/Overlap.antt =====
-- `decideJoinRequest` in two parts, for calls that overlap: what it reads, up to its first write, and
-- what it writes. Where the repository runs no transactions, as the store in memory, another call may
-- come in between.
use easy_mc_server.Prelude.{ℕ, ◌+◌, true, false, Option, none, some, Text}
use easy_mc_server.Protocol.{ApprovalState, session_unavailable, approval_required}
use easy_mc_server.Service.Records.{Approval, SessionInput}
use easy_mc_server.Service.Repository.{Repository}
use easy_mc_server.Service.Steps.{M, ◌>>=◌, ◌>>◌, pure, check, reading}
use easy_mc_server.Service.Rooms.{Options, Draw, fails, host_may, audit}
use easy_mc_server.Service.Joins.{
  Decision, DecidedRequest, is_host_decision, action_for_decision, is_pending, is_approval, decided,
  decided_approval, prepare_session, audit_decision,
}

module _ {S : Type 0} (repo : Repository S) where
  -- The request that was read, and the session that an approval prepared.
  unfoldable pub read_decision :
      Options → ℕ → Draw → Text → Decision → M S (Approval × Option SessionInput)
  unfolding is_host_decision host_may action_for_decision prepare_session decided_approval
  read_decision options now draw actor_id d = do
    check (is_host_decision d.decision) (fails approval_required)
    a ← reading (fails session_unavailable) (repo.read_approval d.request_id)
    room ← reading (fails session_unavailable) (repo.read_room a.room_id)
    check (host_may (action_for_decision d.decision) actor_id room) (fails session_unavailable)
    check (is_pending a.state) (fails approval_required)
    elim (is_approval d.decision) [
      | true ↦
          prepare_session repo options now draw.id d (decided_approval now d a) room >>= λ session.
          pure (a, some session)
      | false ↦ pure (a, none)
    ]

  unfoldable pub write_decision :
      Options → ℕ → Draw → Text → Decision → Approval × Option SessionInput → M S DecidedRequest
  unfolding decided_approval audit
  write_decision options now draw actor_id d (a, none) = do
    saved_approval ← repo.save_approval (decided_approval now d a)
    audit_decision repo now draw actor_id d a
    pure (record { id = d.request_id; state = decided d.decision a.state; session = none })
  write_decision options now draw actor_id d (a, some session) = do
    saved_approval ← repo.save_approval (decided_approval now d a)
    audit_decision repo now draw actor_id d a
    saved ← repo.save_session session
    pure (record {
      id = d.request_id;
      state = ApprovalState.approved;
      session = some (record { id = saved.id; expires_at = now + options.session_ttl_ms });
    })
