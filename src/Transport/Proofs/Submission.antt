-- ===== src/Transport/Proofs/Submission.antt =====
-- Which candidates are accepted, and what they are good for.
use easy_mc_server.Prelude.{
  ℕ, ◌+◌, ◌<◌, ◌≡◌, ◌↔◌, refl, Bool, true, false, some, Text, ==_iff, get_or, or_else, truthy,
  arith, Result, ok, err,
}
use mathlib.Core.List.{Memᴰ}
use mathlib.Core.List.Memᴰ
use easy_mc_server.Prelude.Map.Laws.{get-put_self}
use easy_mc_server.Transport.Exchange.{
  Candidate, Submission, Exchange, RejectReason, direct, home_network, listed, normalized,
  is_complete, submit_candidate, file_candidate,
}
use easy_mc_server.Transport.Proofs.Choice.{Dialable}

abbrev pub is_accepted : Result RejectReason Candidate → Bool
is_accepted (ok c) = true
is_accepted (err reason) = false

-- When a submission expires.
abbrev pub expiry : ℕ → Submission → Exchange → ℕ
expiry now s e = get_or s.expires_at (get_or s.created_at now + e.candidate_ttl_ms)

file_candidate-accepted :
    (created_at expires_at : ℕ) (room : Text) (s : Submission) (e : Exchange)
    → is_accepted (file_candidate created_at expires_at room s e).1 ≡ true
unfolding file_candidate
file_candidate-accepted created_at expires_at room s e = refl

-- A submission for a room is accepted exactly when the room, the participant and the path are given,
-- it names that room, and it has not expired.
pub submit_candidate_iff :
    (now : ℕ) (room : Text) (s : Submission) (e : Exchange)
    → (is_accepted (submit_candidate now room (some s) e).1 ≡ true) ↔ (
        (truthy room ≡ true)
        × (truthy s.participant_id ≡ true)
        × (truthy s.path ≡ true)
        × (s.room_id ≡ room)
        × (now < expiry now s e))
unfolding submit_candidate is_complete
submit_candidate_iff now room s e = (
  λ h. ground (arith, ==_iff s.room_id room),
  λ h. ground (
    arith,
    ==_iff s.room_id room,
    file_candidate-accepted (get_or s.created_at now) (expiry now s e) room s e,
  ),
)

file_candidate-Dialable :
    (now created_at expires_at : ℕ) (room : Text) (s : Submission) (e : Exchange)
    → s.path ≡ direct
    → s.network_type ≡ home_network
    → s.direct_allowed ≡ true
    → s.restricted ≡ false
    → now < expires_at
    → (c : Candidate) × ((file_candidate created_at expires_at room s e).1 ≡ ok c)
      × Dialable now room (file_candidate created_at expires_at room s e).0 c
unfolding file_candidate normalized
file_candidate-Dialable now created_at expires_at room s e path net allowed free live =
    let c = normalized created_at expires_at room s e in
    (
      c,
      refl,
      record {
        listed_there = rw get-put_self (Memᴰ.append_right (listed room e) (Memᴰ.head refl));
        direct_path = path;
        at_home = rw net (unfold or_else in refl);
        allowed = allowed;
        unrestricted = free;
        alive = live;
      },
    )

submit_candidate-files :
    (now : ℕ) (room : Text) (s : Submission) (e : Exchange)
    → is_accepted (submit_candidate now room (some s) e).1 ≡ true
    → submit_candidate now room (some s) e
      ≡ file_candidate (get_or s.created_at now) (expiry now s e) room s e
unfolding submit_candidate
submit_candidate-files now room s e h = ground (arith, h)

-- An accepted candidate that is direct, from a home network, allowed and not restricted may be
-- dialled for its room at once.
submit_candidate-Dialable :
    (now : ℕ) (room : Text) (s : Submission) (e : Exchange)
    → is_accepted (submit_candidate now room (some s) e).1 ≡ true
    → s.path ≡ direct
    → s.network_type ≡ home_network
    → s.direct_allowed ≡ true
    → s.restricted ≡ false
    → (c : Candidate) × ((submit_candidate now room (some s) e).1 ≡ ok c)
      × Dialable now room (submit_candidate now room (some s) e).0 c
submit_candidate-Dialable now room s e h path net allowed free =
    rw (submit_candidate-files now room s e h) (
      file_candidate-Dialable now (get_or s.created_at now) (expiry now s e) room s e path net
        allowed free ((submit_candidate_iff now room s e).0 h).4)
