-- ===== src/Transport/Proofs/Rooms.antt =====
-- Candidates stay in their room, and stay there until they expire.
use easy_mc_server.Prelude.{
  ℕ, ◌+◌, ◌<◌, ◌≡◌, refl, sym, subst, Bool, true, Option, none, some, List, [], ◌∷◌, ◌++◌, Text,
  or_else, ◌==◌, ==_iff, inl, inr, get_or, filter, length, eqb, ltb, All, arith, Result, err,
  Bool-cases,
}
use mathlib.Core.List.{Memᴰ}
use mathlib.Core.List.Memᴰ
use easy_mc_server.Prelude.Members.{Memᴰ-filter, filter-Memᴰ}
use easy_mc_server.Prelude.Map.{Map, get, put}
use easy_mc_server.Prelude.Map.Laws.{get-put}
use easy_mc_server.Transport.Exchange.{
  unknown_network, Candidate, Submission, Exchange, RejectReason, listed, is_alive, init,
  normalized, is_complete, submit_candidate, file_candidate, active_candidates_for_room,
}
use easy_mc_server.Transport.Selection.{select_transport}
use easy_mc_server.Transport.Run.{Call, submits, selects, lists, step, run}
use easy_mc_server.Transport.Proofs.Choice.{
  Dialable, goes_direct, Dialable-goes_direct, select_transport-direct_iff, Dials,
}

-- What a write of a room's list changes in the lists of all rooms.
listed-put :
    (P : List Candidate → Type 0) (room other : Text) (xs : List Candidate)
    (m : Map (List Candidate))
    → ((room ≡ other) → P xs)
    → P (get_or (get other m) [])
    → P (get_or (get other (put room xs m)) [])
listed-put P room other xs m same rest = elim (Bool-cases (room == other)) [
  | inl hit ↦ subst P {x = xs} (rw get-put (ground arith)) (same ((==_iff room other).0 hit))
  | inr miss ↦ subst P {x = get_or (get other m) []} (rw get-put (ground arith)) rest
]

-- What holds of every candidate in the list of a room.
abbrev OfListed : (Text → Candidate → Type 0) → Exchange → Type 0
OfListed Q e = (room : Text) (c : Candidate) → Memᴰ c (listed room e) → Q room c

file_candidate-OfListed :
    (Q : Text → Candidate → Type 0) (created_at expires_at : ℕ) (room : Text) (c : Submission)
    (e : Exchange)
    → Q room (normalized created_at expires_at room c e)
    → OfListed Q e
    → OfListed Q (file_candidate created_at expires_at room c e).0
unfolding file_candidate
file_candidate-OfListed Q created_at expires_at room c e filed h other x =
    let n = normalized created_at expires_at room c e in
    listed-put (λ xs. Memᴰ x xs → Q other x) room other (listed room e ++ (n ∷ []))
      e.candidates_by_room
      (λ same m.
        subst (λ r. Q r x) same
          (elim (Memᴰ.append_cases (listed room e) m) [
            | inl old ↦ h room x old
            | inr new ↦ elim (Memᴰ.cases_cons new) [
              | inl is_n ↦ subst (Q room) (sym is_n) filed
              | inr nowhere ↦ elim nowhere [ ]
            ]
          ]))
      (h other x)

submit_candidate-cases {ℓ} :
    (now : ℕ) (room : Text) (c : Option Submission) (e : Exchange)
    (P : Exchange × Result RejectReason Candidate → Type ℓ)
    → ((reason : RejectReason) → P (e, err reason))
    → ((created_at expires_at : ℕ) (s : Submission)
        → c ≡ some s
        → s.room_id ≡ room
        → now < expires_at
        → P (file_candidate created_at expires_at room s e))
    → P (submit_candidate now room c e)
unfolding submit_candidate
submit_candidate-cases now room none e P refused filed = refused _
submit_candidate-cases now room (some s) e P refused filed =
    let created_at = get_or s.created_at now in
    let expires_at = get_or s.expires_at (created_at + e.candidate_ttl_ms) in
    elim (Bool-cases (is_complete room s)) [
      | inr b ↦ rw (b, submit_candidate) (refused _)
      | inl b ↦
          rw (b, submit_candidate)
            (elim (Bool-cases (s.room_id == room)) [
              | inr d ↦ rw d (refused _)
              | inl d ↦ rw d (elim (Bool-cases (ltb now expires_at)) [
                | inr f ↦ rw f (refused _)
                | inl f ↦ rw f (
                    filed created_at expires_at s refl ((==_iff s.room_id room).0 d) (ground arith))
              ])
            ])
    ]

active-OfListed :
    (Q : Text → Candidate → Type 0) (now : ℕ) (room : Text) (e : Exchange)
    → OfListed Q e
    → OfListed Q (active_candidates_for_room now room e).0
unfolding active_candidates_for_room
active-OfListed Q now room e h other x =
    let active = filter (is_alive now) (listed room e) in
    elim (Bool-cases (eqb (length active) (length (listed room e)))) [
      | inl b ↦ rw (b, active_candidates_for_room) (h other x)
      | inr b ↦
          rw (b, active_candidates_for_room)
            (listed-put (λ xs. Memᴰ x xs → Q other x) room other active e.candidates_by_room
              (λ same m.
                subst (λ r. Q r x) same
                  (h room x (Memᴰ-filter (is_alive now) (listed room e) x m).0))
              (h other x))
    ]

-- A submission for a room among the calls that a candidate was made of.
pub record WasSubmitted (calls : List (ℕ × Call)) (room : Text) (c : Candidate) : Type 0 where
  pub at : ℕ
  pub submission : Submission
  pub made : Memᴰ (at, submits room (some submission)) calls
  pub names_room : submission.room_id ≡ room
  pub room_id : c.room_id ≡ room
  pub participant_id : c.participant_id ≡ submission.participant_id
  pub path : c.path ≡ submission.path
  pub network_type : c.network_type ≡ or_else submission.network_type unknown_network
  pub direct_allowed : c.direct_allowed ≡ submission.direct_allowed
  pub restricted : c.restricted ≡ submission.restricted
  pub unexpired : at < c.expires_at

step-WasSubmitted :
    (calls : List (ℕ × Call)) (e : Exchange) (c : ℕ × Call)
    → Memᴰ c calls
    → OfListed (WasSubmitted calls) e
    → OfListed (WasSubmitted calls) (step e c)
unfolding step select_transport normalized
step-WasSubmitted calls e (now, submits room c) m h =
    submit_candidate-cases now room c e (λ x. OfListed (WasSubmitted calls) x.0) (λ reason. h)
      (λ created_at expires_at s is_s names live.
        file_candidate-OfListed (WasSubmitted calls) created_at expires_at room s e
          (record {
            at = now;
            submission = s;
            made = subst (λ o. Memᴰ (now, submits room o) calls) is_s m;
            names_room = names;
            room_id = refl;
            participant_id = refl;
            path = refl;
            network_type = refl;
            direct_allowed = refl;
            restricted = refl;
            unexpired = live;
          })
          h)
step-WasSubmitted calls e (now, selects room relay_available) m h =
    active-OfListed (WasSubmitted calls) now room e h
step-WasSubmitted calls e (now, lists room) m h = active-OfListed (WasSubmitted calls) now room e h

run-WasSubmitted :
    (all_calls calls : List (ℕ × Call)) (e : Exchange)
    → ((c : ℕ × Call) → Memᴰ c calls → Memᴰ c all_calls)
    → OfListed (WasSubmitted all_calls) e
    → OfListed (WasSubmitted all_calls) (run e calls)
unfolding run
run-WasSubmitted all_calls [] e within h = h
run-WasSubmitted all_calls (c ∷ calls) e within h =
    run-WasSubmitted all_calls calls (step e c) (λ d m. within d (Memᴰ.tail m))
      (step-WasSubmitted all_calls e c (within c (Memᴰ.head refl)) h)

-- After any history of calls on a new exchange, what is dialled for a room is a candidate that the room
-- lists and that may be dialled, and it has the participant, the path, the network and the flags of a
-- submission for that room that was made in the history, before it expired.
pub dialled_in_room :
    (candidate_ttl timeout : ℕ) (calls : List (ℕ × Call)) (now : ℕ) (room : Text)
    (relay_available : Bool)
    → let e = run (init candidate_ttl timeout) calls in
      goes_direct (select_transport now room relay_available e).1 ≡ true
      → (c : Candidate) × Dialable now room e c
        × WasSubmitted calls room c
        × Dials (select_transport now room relay_available e).1 c
dialled_in_room candidate_ttl timeout calls now room relay_available direct_way =
    let e = run (init candidate_ttl timeout) calls in
    let filed =
      run-WasSubmitted calls calls (init candidate_ttl timeout) (λ c m. m)
        (λ r c m. unfold get in elim m [ ]) in
    let (c, d, to) = (select_transport-direct_iff now room relay_available e).0 direct_way in
    (c, d, filed room c d.listed_there, to)

-- A candidate that is alive stays listed.
file_candidate-keeps :
    (created_at expires_at : ℕ) (to : Text) (s : Submission) (e : Exchange) (room : Text)
    (c : Candidate)
    → Memᴰ c (listed room e)
    → Memᴰ c (listed room (file_candidate created_at expires_at to s e).0)
unfolding file_candidate
file_candidate-keeps created_at expires_at to s e room c m =
    listed-put (Memᴰ c) to room _ e.candidates_by_room
      (λ same. Memᴰ.append_left _ (subst (λ r. Memᴰ c (listed r e)) (sym same) m)) m

active-keeps :
    (now : ℕ) (of_room : Text) (e : Exchange) (room : Text) (c : Candidate)
    → now < c.expires_at
    → Memᴰ c (listed room e)
    → Memᴰ c (listed room (active_candidates_for_room now of_room e).0)
unfolding active_candidates_for_room
active-keeps now of_room e room c live m =
    let active = filter (is_alive now) (listed of_room e) in
    elim (Bool-cases (eqb (length active) (length (listed of_room e)))) [
      | inl b ↦ rw (b, active_candidates_for_room) m
      | inr b ↦
          rw (b, active_candidates_for_room)
            (listed-put (Memᴰ c) of_room room active e.candidates_by_room
              (λ same.
                filter-Memᴰ (is_alive now) (listed of_room e) c
                  (subst (λ r. Memᴰ c (listed r e)) (sym same) m) (ground (arith, live)))
              m)
    ]

abbrev pub AreBefore : ℕ → List (ℕ × Call) → Type 0
AreBefore t = All (λ c. c.0 < t)

run-keeps :
    (e : Exchange) (calls : List (ℕ × Call)) (room : Text) (c : Candidate)
    → AreBefore c.expires_at calls
    → Memᴰ c (listed room e)
    → Memᴰ c (listed room (run e calls))
unfolding run step select_transport
run-keeps e [] room c before m = m
run-keeps e ((now, submits to s) ∷ calls) room c before m =
    run-keeps (submit_candidate now to s e).0 calls room c before.1 (
      submit_candidate-cases now to s e (λ x. Memᴰ c (listed room x.0)) (λ reason. m)
        (λ created_at expires_at x _ _ _.
          file_candidate-keeps created_at expires_at to x e room c m))
run-keeps e ((now, selects to relay_available) ∷ calls) room c before m =
    run-keeps (active_candidates_for_room now to e).0 calls room c before.1
      (active-keeps now to e room c before.0 m)
run-keeps e ((now, lists to) ∷ calls) room c before m =
    run-keeps (active_candidates_for_room now to e).0 calls room c before.1
      (active-keeps now to e room c before.0 m)

-- A candidate of a room that may be dialled makes the room reachable directly until it expires,
-- whatever calls are made in between.
pub reachable_until_expiry :
    (now later : ℕ) (room : Text) (e : Exchange) (c : Candidate) (calls : List (ℕ × Call))
    (relay_available : Bool)
    → Dialable now room e c
    → AreBefore c.expires_at calls
    → later < c.expires_at
    → goes_direct (select_transport later room relay_available (run e calls)).1 ≡ true
reachable_until_expiry now later room e c calls relay_available d before live =
    Dialable-goes_direct later room relay_available (run e calls) c (record {
      listed_there = run-keeps e calls room c before d.listed_there;
      direct_path = d.direct_path;
      at_home = d.at_home;
      allowed = d.allowed;
      unrestricted = d.unrestricted;
      alive = live;
    })
