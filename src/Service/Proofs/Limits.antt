-- ===== src/Service/Proofs/Limits.antt =====
-- The rate limit: within a window no more attempts are allowed than the limit.
use easy_mc_server.Prelude.{
  ℕ, ◌+◌, ◌-◌, ◌≤◌, ◌<◌, ◌≡◌, refl, ◌∙◌, Bool, true, false, ◌&&◌, Option, none, some, List, [], ◌∷◌,
  Text, ◌==◌, ==_iff, ==_refl, truthy, ltb, leb, bit, Result, ok, err, arith, Bool-cases, inl, inr,
  if◌then◌else◌,
}
use easy_mc_server.Prelude.Map.{get}
use easy_mc_server.Prelude.Map.Laws.{get-put}
use easy_mc_server.Service.Records.{Failure}
use easy_mc_server.Service.Memory.{
  Store, Counter, Increment, RateAnswer, counter_id, new_counter, current_counter,
  increment_rate_limit_counter,
}

bit-le : (b : Bool) → bit b ≤ 1
bit-le true = omega arith
bit-le false = omega arith

abbrev pub key_of : Increment → Store → Text
key_of q s = counter_id q.scope (s.hash q.signal)

abbrev pub is_allowed : Result Failure RateAnswer → Bool
is_allowed (ok answer) = answer.allowed
is_allowed (err e) = false

-- How many of the attempts on a counter are allowed.
unfoldable pub allowed_at : Text → List (ℕ × Increment) → Store → ℕ
allowed_at k [] s = 0
allowed_at k ((now, q) ∷ calls) s =
    let out = increment_rate_limit_counter now q s in
    (if key_of q s == k then bit (is_allowed out.1) else 0) + allowed_at k calls out.0

-- The attempts on a counter come before a time, with one limit.
abbrev pub AreWithin : Text → ℕ → ℕ → (Text → Text) → List (ℕ × Increment) → Type 0
AreWithin k end limit hash [] = Unit
AreWithin k end limit hash ((now, q) ∷ calls) =
    (if counter_id q.scope (hash q.signal) == k then (now < end) × (q.limit ≡ limit) else Unit)
    × AreWithin k end limit hash calls

increment-hash :
    (now : ℕ) (q : Increment) (s : Store) → (increment_rate_limit_counter now q s).0.hash ≡ s.hash
unfolding increment_rate_limit_counter
increment-hash now q s = ground arith

-- Another counter stays as it is.
increment-other :
    (now : ℕ) (q : Increment) (s : Store) (k : Text)
    → (key_of q s == k) ≡ false
    → get k (increment_rate_limit_counter now q s).0.rate_limits ≡ get k s.rate_limits
unfolding increment_rate_limit_counter
increment-other now q s k h =
    let c = current_counter now q (s.hash q.signal) (get (key_of q s) s.rate_limits) in
    ground (
      arith,
      get-put (key_of q s) k
          (record c {
            count = c.count + 1;
            limit = q.limit;
            window_ms = q.window_ms;
            updated_at = now;
          })
          s.rate_limits,
    )

-- An attempt on a counter whose window is open counts on it, or is an error and does not.
increment-hit :
    (now : ℕ) (q : Increment) (s : Store) (k : Text) (c : Counter)
    → key_of q s ≡ k
    → get k s.rate_limits ≡ some c
    → now < c.reset_at
    → let out = increment_rate_limit_counter now q s in
      (c' : Counter) × (get k out.0.rate_limits ≡ some c')
      × (c'.reset_at ≡ c.reset_at)
      × (bit (is_allowed out.1) + (q.limit - c'.count) ≤ q.limit - c.count)
unfolding increment_rate_limit_counter current_counter
increment-hit now q s k c is_k at open_still =
    let counted : Counter = record c {
      count = c.count + 1;
      limit = q.limit;
      window_ms = q.window_ms;
      updated_at = now;
    } in
    elim (Bool-cases (truthy q.scope && truthy q.signal && ltb 0 q.limit && ltb 0 q.window_ms)) [
      | inr b ↦ rw (b, increment_rate_limit_counter) (c, at, refl, omega arith)
      | inl b ↦ (
        counted,
        ground
            (arith, b, is_k, get-put (key_of q s) k counted s.rate_limits, ==_iff (key_of q s) k),
        refl,
        ground (arith, b, is_k),
      )
    ]

allowed_at-le :
    (k : Text) (limit : ℕ) (calls : List (ℕ × Increment)) (s : Store) (c : Counter)
    → get k s.rate_limits ≡ some c
    → AreWithin k c.reset_at limit s.hash calls
    → allowed_at k calls s ≤ limit - c.count
unfolding allowed_at
allowed_at-le k limit [] s c at within = omega arith
allowed_at-le k limit ((now, q) ∷ calls) s c at within = elim (Bool-cases (key_of q s == k)) [
  | inr miss ↦
      let s' = (increment_rate_limit_counter now q s).0 in
      rw (miss, allowed_at)
        (omega (
          arith,
          allowed_at-le k limit calls s' c (increment-other now q s k miss ∙ at)
              (rw (increment-hash now q s) within.1),
        ))
  | inl hit ↦
      let s' = (increment_rate_limit_counter now q s).0 in
      let (before, same_limit) : (now < c.reset_at) × (q.limit ≡ limit) = rw hit at within.0 in
      let (c', at', resets, less) = increment-hit now q s k c ((==_iff _ k).0 hit) at before in
      let rest =
        allowed_at-le k limit calls s' c' at' (rw (increment-hash now q s, resets) within.1) in
      rw (hit, allowed_at) (omega (arith, same_limit, less, rest))
]

-- No counter is open for an attempt: there is none, or its window is over.
abbrev pub opens_window : ℕ → Option Counter → Bool
opens_window now none = true
opens_window now (some c) = leb c.reset_at now

increment-opens :
    (now : ℕ) (q : Increment) (s : Store)
    → (truthy q.scope && truthy q.signal && ltb 0 q.limit && ltb 0 q.window_ms) ≡ true
    → opens_window now (get (key_of q s) s.rate_limits) ≡ true
    → (c : Counter) × (get (key_of q s) (increment_rate_limit_counter now q s).0.rate_limits
        ≡ some c)
      × (c.reset_at ≡ now + q.window_ms)
      × (c.count ≡ 1)
unfolding increment_rate_limit_counter current_counter new_counter
increment-opens now q s valid opens =
    let counted : Counter = record (new_counter now q (s.hash q.signal)) {
      count = 1;
      limit = q.limit;
      window_ms = q.window_ms;
      updated_at = now;
    } in
    (
      counted,
      ground (arith, get-put (key_of q s) (key_of q s) counted s.rate_limits, ==_refl (key_of q s)),
      refl,
      refl,
    )

-- From a valid attempt that opens a window, of all attempts on its counter in that window, with
-- attempts on other counters in between, at most as many as the limit are allowed.
pub allowed_at-le-limit :
    (now : ℕ) (q : Increment) (calls : List (ℕ × Increment)) (s : Store)
    → (truthy q.scope && truthy q.signal && ltb 0 q.limit && ltb 0 q.window_ms) ≡ true
    → opens_window now (get (key_of q s) s.rate_limits) ≡ true
    → AreWithin (key_of q s) (now + q.window_ms) q.limit s.hash calls
    → allowed_at (key_of q s) ((now, q) ∷ calls) s ≤ q.limit
unfolding allowed_at
allowed_at-le-limit now q calls s valid opens within =
    let out = increment_rate_limit_counter now q s in
    let (c, at, resets, once) = increment-opens now q s valid opens in
    let rest =
      allowed_at-le (key_of q s) q.limit calls out.0 c at
        (rw (increment-hash now q s, resets) within) in
    let positive : 0 < q.limit = ground (arith, valid) in
    let first = bit-le (is_allowed out.1) in
    rw (==_refl (key_of q s), allowed_at) (omega (arith, once, rest, positive, first))
