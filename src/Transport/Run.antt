-- ===== src/Transport/Run.antt =====
-- A history of calls on the exchange that change its state, each with its time.
use easy_mc_server.Prelude.{ℕ, Bool, Option, List, [], ◌∷◌, Text}
use easy_mc_server.Transport.Exchange.{
  Submission, Exchange, submit_candidate, active_candidates_for_room,
}
use easy_mc_server.Transport.Selection.{select_transport}

pub data Call : Type 0 where
  submits : Text → Option Submission → Call
  selects : Text → Bool → Call
  lists : Text → Call

unfoldable pub step : Exchange → ℕ × Call → Exchange
step e (now, submits room_id c) = (submit_candidate now room_id c e).0
step e (now, selects room_id relay_available) = (select_transport now room_id relay_available e).0
step e (now, lists room_id) = (active_candidates_for_room now room_id e).0

unfoldable pub run : Exchange → List (ℕ × Call) → Exchange
run e [] = e
run e (c ∷ cs) = run (step e c) cs

pub run_induction {ℓ} :
    (P : Exchange → Type ℓ)
    → ((e : Exchange) (c : ℕ × Call) → P e → P (step e c))
    → (e : Exchange) (cs : List (ℕ × Call)) → P e
    → P (run e cs)
unfolding run
run_induction P keep e [] h = h
run_induction P keep e (c ∷ cs) h = run_induction P keep (step e c) cs (keep e c h)
