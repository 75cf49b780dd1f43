-- ===== src/Transport/Proofs/Choice.antt =====
-- When a room is reached directly, and when not at all.
use easy_mc_server.Prelude.{
  ℕ, ◌<◌, ◌≡◌, ◌↔◌, ◌⊎◌, refl, Bool, true, false, not, Option, none, some, Text, undefined, str,
  ◌==◌, ==_iff, inl, inr, filter, find, arith, Result, ok, err, Option-cases, Bool-cases,
}
use mathlib.Core.List.{Memᴰ}
use easy_mc_server.Prelude.Members.{find-some, find-none, Memᴰ-filter, filter-Memᴰ}
use easy_mc_server.Transport.Exchange.{
  Candidate, Exchange, SelectionReason, direct, relay, home_network, listed, is_alive,
  active_candidates_for_room,
}
use easy_mc_server.Transport.Selection.{
  Selection, is_direct, is_safe_direct_candidate, relay_selection, direct_selection, choose,
  select_transport, resolve_direct_attempt,
}

-- A candidate of the room that may be dialled at a time.
pub record Dialable (now : ℕ) (room : Text) (e : Exchange) (c : Candidate) : Type 0 where
  pub listed_there : Memᴰ c (listed room e)
  pub direct_path : c.path ≡ direct
  pub at_home : c.network_type ≡ home_network
  pub allowed : c.direct_allowed ≡ true
  pub unrestricted : c.restricted ≡ false
  pub alive : now < c.expires_at

is_safe_direct_candidate-parts :
    (c : Candidate)
    → (is_safe_direct_candidate c ≡ true) ↔ (
        (c.path ≡ direct)
        × (c.network_type ≡ home_network)
        × (c.direct_allowed ≡ true)
        × (c.restricted ≡ false))
unfolding is_safe_direct_candidate
is_safe_direct_candidate-parts c = (
  λ h. ground (arith, ==_iff c.path direct, ==_iff c.network_type home_network),
  λ h. ground (arith, ==_iff c.path direct, ==_iff c.network_type home_network),
)

-- The first candidate that is chosen, as `choose` finds it.
abbrev found : ℕ → Text → Exchange → Option Candidate
found now room e =
    find is_safe_direct_candidate (filter is_direct (filter (is_alive now) (listed room e)))

found-Dialable :
    (now : ℕ) (room : Text) (e : Exchange) (c : Candidate)
    → found now room e ≡ some c
    → Dialable now room e c
unfolding is_direct
found-Dialable now room e c h =
    let (m, safe) =
      find-some is_safe_direct_candidate (filter is_direct (filter (is_alive now) (listed room e)))
        c h in
    let (m', d) = Memᴰ-filter is_direct (filter (is_alive now) (listed room e)) c m in
    let (m'', live) = Memᴰ-filter (is_alive now) (listed room e) c m' in
    let parts = (is_safe_direct_candidate-parts c).0 safe in
    record {
      listed_there = m'';
      direct_path = parts.0;
      at_home = parts.1;
      allowed = parts.2;
      unrestricted = parts.3;
      alive = ground arith;
    }

found-none :
    (now : ℕ) (room : Text) (e : Exchange) (c : Candidate)
    → found now room e ≡ none
    → Dialable now room e c
    → is_safe_direct_candidate c ≡ false
unfolding is_direct
found-none now room e c h d =
    find-none is_safe_direct_candidate (filter is_direct (filter (is_alive now) (listed room e))) c
      h
      (filter-Memᴰ is_direct (filter (is_alive now) (listed room e)) c
        (filter-Memᴰ (is_alive now) (listed room e) c d.listed_there (ground (arith, d.alive)))
        (ground (arith, d.direct_path, ==_iff c.path direct)))

Dialable-safe :
    (now : ℕ) (room : Text) (e : Exchange) (c : Candidate)
    → Dialable now room e c
    → is_safe_direct_candidate c ≡ true
Dialable-safe now room e c d =
    (is_safe_direct_candidate-parts c).1 (d.direct_path, d.at_home, d.allowed, d.unrestricted)

-- What is answered: the path is direct, and to whom.
abbrev pub Dials : Result SelectionReason Selection → Candidate → Type 0
Dials r c =
    (s : Selection) × (r ≡ ok s)
    × (s.path ≡ direct)
    × (s.candidate_id ≡ c.id)
    × (s.participant_id ≡ c.participant_id)

abbrev pub goes_direct : Result SelectionReason Selection → Bool
goes_direct (ok s) = s.path == direct
goes_direct (err x) = false

abbrev pub is_refusal : Result SelectionReason Selection → Bool
is_refusal (ok s) = false
is_refusal (err x) = true

select_transport-found :
    (now : ℕ) (room : Text) (relay_available : Bool) (e : Exchange) (c : Candidate)
    → found now room e ≡ some c
    → (select_transport now room relay_available e).1
      ≡ ok (direct_selection c relay_available e.direct_attempt_timeout_ms)
unfolding select_transport active_candidates_for_room choose
select_transport-found now room relay_available e c h = rw (h, choose) refl

select_transport-none :
    (now : ℕ) (room : Text) (relay_available : Bool) (e : Exchange)
    → found now room e ≡ none
    → (is_refusal (select_transport now room relay_available e).1 ≡ not relay_available)
      × (goes_direct (select_transport now room relay_available e).1 ≡ false)
unfolding select_transport active_candidates_for_room choose relay_selection ◌==◌
select_transport-none now room true e h = rw (h, choose, is_refusal, goes_direct) (refl, refl)
select_transport-none now room false e h = rw (h, choose, is_refusal, goes_direct) (refl, refl)

pub Dialable-goes_direct :
    (now : ℕ) (room : Text) (relay_available : Bool) (e : Exchange) (c : Candidate)
    → Dialable now room e c
    → goes_direct (select_transport now room relay_available e).1 ≡ true
unfolding direct_selection ◌==◌
Dialable-goes_direct now room relay_available e c d = elim (Option-cases (found now room e)) [
  | inl none_there ↦ cc (found-none now room e c none_there d, Dialable-safe now room e c d)
  | inr (x, there) ↦ rw (select_transport-found now room relay_available e x there) refl
]

pub select_transport-direct_iff :
    (now : ℕ) (room : Text) (relay_available : Bool) (e : Exchange)
    → (goes_direct (select_transport now room relay_available e).1 ≡ true) ↔ (
        (c : Candidate) × Dialable now room e c
        × Dials (select_transport now room relay_available e).1 c)
unfolding direct_selection ◌==◌
select_transport-direct_iff now room relay_available e = elim (Option-cases (found now room e)) [
  | inl none_there ↦
      let no = (select_transport-none now room relay_available e none_there).1 in
      (λ h. cc (no, h), λ h. Dialable-goes_direct now room relay_available e h.0 h.1)
  | inr (c, there) ↦
      let yes = select_transport-found now room relay_available e c there in
      (
        λ _. (
          c,
          found-Dialable now room e c there,
          (direct_selection c relay_available e.direct_attempt_timeout_ms, yes, refl, refl, refl),
        ),
        λ _. rw yes refl,
      )
]

-- Reaching a room is refused exactly when the relay is not available and no candidate may be dialled.
pub select_transport-refused_iff :
    (now : ℕ) (room : Text) (relay_available : Bool) (e : Exchange)
    → (is_refusal (select_transport now room relay_available e).1 ≡ true)
      ↔ ((relay_available ≡ false) × ((c : Candidate) → ¬ Dialable now room e c))
select_transport-refused_iff now room relay_available e = elim (Option-cases (found now room e)) [
  | inl none_there ↦
      let same = (select_transport-none now room relay_available e none_there).0 in
      (
        λ h. (
          ground arith,
          λ c d. cc (found-none now room e c none_there d, Dialable-safe now room e c d),
        ),
        λ h. ground (arith, h.0),
      )
  | inr (c, there) ↦
      let yes = select_transport-found now room relay_available e c there in
      (λ h. cc (h, yes), λ h. elim (h.1 c (found-Dialable now room e c there)) [ ])
]

select_transport-relay :
    (now : ℕ) (room : Text) (e : Exchange)
    → found now room e ≡ none
    → (reason : SelectionReason) × ((select_transport now room true e).1
        ≡ ok (relay_selection reason e.direct_attempt_timeout_ms undefined))
unfolding select_transport active_candidates_for_room choose
select_transport-relay now room e h = rw (h, choose) (_, refl)

resolve_direct_attempt-lands :
    (c : Candidate) (outcome : Text) (e : Exchange)
    → (s : Selection) × (resolve_direct_attempt
          (some (ok (direct_selection c true e.direct_attempt_timeout_ms)))
          outcome
          true
          e
        ≡ ok s)
      × (s.join_failure ≡ false)
      × (((s.path ≡ direct) × (outcome ≡ str "connected")) ⊎ (s.path ≡ relay))
unfolding resolve_direct_attempt direct_selection relay_selection ◌==◌
resolve_direct_attempt-lands c outcome e = elim (Bool-cases (outcome == str "connected")) [
  | inl b ↦
      rw (b, resolve_direct_attempt)
        (_, refl, refl, inl (refl, (==_iff outcome (str "connected")).0 b))
  | inr b ↦ rw (b, resolve_direct_attempt) (_, refl, refl, inr refl)
]

-- With the relay available, reaching a room and then resolving the attempt never fails, whatever the
-- outcome of the attempt: the way is the direct one after an attempt that connected, and else the
-- relay's.
pub join_never_fails :
    (now : ℕ) (room outcome : Text) (e : Exchange)
    → (s : Selection) × (resolve_direct_attempt
          (some (select_transport now room true e).1)
          outcome
          true
          e
        ≡ ok s)
      × (s.join_failure ≡ false)
      × (((s.path ≡ direct) × (outcome ≡ str "connected")) ⊎ (s.path ≡ relay))
unfolding resolve_direct_attempt relay_selection ◌==◌
join_never_fails now room outcome e = elim (Option-cases (found now room e)) [
  | inl none_there ↦
      let (reason, at) = select_transport-relay now room e none_there in
      rw at (_, refl, refl, inr refl)
  | inr (c, there) ↦
      rw (select_transport-found now room true e c there) (resolve_direct_attempt-lands c outcome e)
]
