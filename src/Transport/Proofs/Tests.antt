-- ===== src/Transport/Proofs/Tests.antt =====
-- An exchange at work: a home candidate of room r1. The theorems on the exchange are applied to it.
use easy_mc_server.Prelude.{
  ℕ, ◌<◌, ◌≡◌, ◌↔◌, ◌⊎◌, refl, true, false, none, some, List, [], ◌∷◌, undefined, str, ◌==◌, truthy,
  or_else, arith, filter, find, ok,
}
use mathlib.Core.List.{Memᴰ}
use easy_mc_server.Prelude.Map.{get, put}
use easy_mc_server.Transport.Exchange.{
  Candidate, Submission, Exchange, direct, relay, home_network, default_exchange, init,
  submit_candidate, file_candidate, normalized, is_complete, active_candidates_for_room,
}
use easy_mc_server.Transport.Selection.{
  Selection, is_direct, is_safe_direct_candidate, choose, direct_selection, select_transport,
  resolve_direct_attempt,
}
use easy_mc_server.Transport.Run.{Call, submits, selects, step, run}
use easy_mc_server.Transport.Proofs.Choice.{
  Dialable, Dials, goes_direct, is_refusal, select_transport-refused_iff, join_never_fails,
}
use easy_mc_server.Transport.Proofs.Rooms.{WasSubmitted, dialled_in_room, reachable_until_expiry}
use easy_mc_server.Transport.Proofs.Submission.{is_accepted, expiry, submit_candidate_iff}

abbrev home : Submission
home = record {
  id = undefined;
  room_id = str "r1";
  participant_id = str "p1";
  path = direct;
  network_type = home_network;
  direct_allowed = true;
  restricted = false;
  created_at = none;
  expires_at = none;
  diagnostics = [];
}

abbrev calls : List (ℕ × Call)
calls = (5, submits (str "r1") (some home)) ∷ (6, selects (str "r1") true) ∷ []

abbrev exchange : Exchange
exchange = run default_exchange calls

select_transport-refused_iff_example :
    (is_refusal (select_transport 7 (str "r1") false exchange).1 ≡ true)
    ↔ ((false ≡ false) × ((c : Candidate) → ¬ Dialable 7 (str "r1") exchange c))
select_transport-refused_iff_example = select_transport-refused_iff 7 (str "r1") false exchange

join_never_fails_example :
    (s : Selection) × (resolve_direct_attempt
        (some (select_transport 7 (str "r1") true exchange).1)
        (str "timeout")
        true
        exchange
      ≡ ok s)
    × (s.join_failure ≡ false)
    × (((s.path ≡ direct) × (str "timeout" ≡ str "connected")) ⊎ (s.path ≡ relay))
join_never_fails_example = join_never_fails 7 (str "r1") (str "timeout") exchange

goes-direct :
    goes_direct (select_transport 7 (str "r1") true (run (init 30000 2000) calls)).1 ≡ true
unfolding run step submit_candidate file_candidate normalized is_complete active_candidates_for_room
    select_transport choose direct_selection is_direct is_safe_direct_candidate filter find get put
    ◌==◌ truthy or_else
goes-direct = refl

dialled_in_room_example :
    (c : Candidate) × Dialable 7 (str "r1") (run (init 30000 2000) calls) c
    × WasSubmitted calls (str "r1") c
    × Dials (select_transport 7 (str "r1") true (run (init 30000 2000) calls)).1 c
dialled_in_room_example = dialled_in_room 30000 2000 calls 7 (str "r1") true goes-direct

abbrev candidate : Candidate
candidate = record {
  id = str "c7";
  room_id = str "r1";
  participant_id = str "p1";
  path = direct;
  network_type = home_network;
  direct_allowed = true;
  restricted = false;
  created_at = 5;
  expires_at = 30005;
  diagnostics = [];
}

abbrev filed : Exchange
filed = record default_exchange { candidates_by_room = (str "r1", candidate ∷ []) ∷ [] }

candidate-Dialable : Dialable 7 (str "r1") filed candidate
unfolding get ◌==◌
candidate-Dialable = record {
  listed_there = Memᴰ.head refl;
  direct_path = refl;
  at_home = refl;
  allowed = refl;
  unrestricted = refl;
  alive = omega arith;
}

reachable_until_expiry_example :
    goes_direct (select_transport 20000 (str "r1") false (run filed calls)).1 ≡ true
reachable_until_expiry_example =
    reachable_until_expiry 7 20000 (str "r1") filed candidate calls false candidate-Dialable
      (omega arith, (omega arith, tt)) (omega arith)

submit_candidate_iff_example :
    (is_accepted (submit_candidate 5 (str "r1") (some home) default_exchange).1 ≡ true) ↔ (
      (truthy (str "r1") ≡ true)
      × (truthy (str "p1") ≡ true)
      × (truthy direct ≡ true)
      × (str "r1" ≡ str "r1")
      × (5 < expiry 5 home default_exchange))
submit_candidate_iff_example = submit_candidate_iff 5 (str "r1") home default_exchange
