-- ===== src/Service/Proofs/Overlap.antt =====
-- A decision is its reads followed by its writes.
use easy_mc_server.Prelude.{
  ℕ, ◌≡◌, refl, sym, Text, ok, err, Result, Result-cases, inl, inr, Bool-cases,
}
use easy_mc_server.Service.Records.{Failure}
use easy_mc_server.Service.Repository.{Repository}
use easy_mc_server.Service.Steps.{M, after}
use easy_mc_server.Service.Rooms.{Options, Draw, host_may}
use easy_mc_server.Service.Joins.{
  Decision, is_host_decision, action_for_decision, is_pending, is_approval, settle, approve, reject,
  decided_approval, prepare_session, decide_join_request,
}
use easy_mc_server.Service.Overlap.{read_decision, write_decision}

after_assoc :
    {S A B C : Type 0} (out : S × Result Failure A) (f : A → M S B) (g : B → M S C)
    → after (after out f) g ≡ after out (λ a s. after (f a s) g)
after_assoc (s, ok a) f g = refl
after_assoc (s, err e) f g = refl

-- Where no call comes between them, the reads and the writes are the whole call.
pub decide_join_request-split :
    {S : Type 0} (repo : Repository S) (options : Options) (now : ℕ) (draw : Draw) (actor : Text)
    (d : Decision) (s : S)
    → decide_join_request repo options now draw actor d s
      ≡ after
          (read_decision repo options now draw actor d s)
          (write_decision repo options now draw actor d)
unfolding decide_join_request read_decision write_decision settle approve reject
decide_join_request-split repo options now draw actor d s =
    elim (Bool-cases (is_host_decision d.decision)) [
      | inr e ↦ rw (e, decide_join_request, read_decision) refl
      | inl e ↦ elim (Result-cases (repo.read_approval d.request_id s)) [
        | inl (x, f) ↦ rw (e, f, decide_join_request, read_decision) refl
        | inr (a, f) ↦ elim (Result-cases (repo.read_room a.room_id s)) [
          | inl (x, g) ↦ rw (e, f, g, decide_join_request, read_decision) refl
          | inr (r, g) ↦ elim (Bool-cases (host_may (action_for_decision d.decision) actor r)) [
            | inr m ↦ rw (e, f, g, m, decide_join_request, read_decision) refl
            | inl m ↦ elim (Bool-cases (is_pending a.state)) [
              | inr p ↦ rw (e, f, g, m, p, decide_join_request, read_decision) refl
              | inl p ↦ elim (Bool-cases (is_approval d.decision)) [
                | inr y ↦ rw (e, f, g, m, p, y, decide_join_request, read_decision, settle) refl
                | inl y ↦
                    rw (e, f, g, m, p, y, decide_join_request, read_decision, settle)
                      (sym (
                        after_assoc
                          (prepare_session repo options now draw.id d (decided_approval now d a) r
                            s)
                          _ _))
              ]
            ]
          ]
        ]
      ]
    ]
