-- ===== src/Prelude/Map/Laws.antt =====
-- The laws of `Map`: reading after writing, and how a write changes a sum, a count or a predicate.
use mathlib.Core.Logic.{inl, inr}
use easy_mc_server.Prelude.Tests.{Bool-cases, if◌then◌else◌, bit}
use easy_mc_server.Prelude.Strings.{Text, ◌==◌, ==_iff, ==_refl}
use easy_mc_server.Prelude.Map.{Map, get, put, sum, count, part, find_entry, Values}
use Prim.Native.Nat.{ℕ, ◌+◌, ◌≤◌}
use mathlib.Core.Path.{◌≡◌, refl, subst}
use mathlib.Core.Bool.{Bool, true, false}
use mathlib.Core.List.{[], ◌∷◌}
use mathlib.Core.Option.{some}
use native.Mathlib.Omega.{arith}

module _ {ℓ} {V : Type ℓ} where
  pub get-put :
      (k j : Text) (v : V) (m : Map V) → get j (put k v m) ≡ (if k == j then some v else get j m)
  unfolding get put
  get-put k j v [] = refl
  get-put k j v ((i, w) ∷ m) = ground (arith, ==_iff k j, ==_iff i k, ==_iff i j, get-put k j v m)

  pub get-put_self : (k : Text) (v : V) (m : Map V) → get k (put k v m) ≡ some v
  get-put_self k v m = ground (arith, get-put k k v m, ==_refl k)

  -- A write takes away what the old entry added to a sum, and adds the new one.
  pub sum-put :
      (f : V → ℕ) (k : Text) (v : V) (m : Map V)
      → sum f (put k v m) + part f (get k m) ≡ sum f m + f v
  unfolding get put sum
  sum-put f k v [] = omega arith
  sum-put f k v ((i, w) ∷ m) = ground (arith, sum-put f k v m)

  pub count-put :
      (p : V → Bool) (k : Text) (v : V) (m : Map V)
      → count p (put k v m) + part (λ w. bit (p w)) (get k m) ≡ count p m + bit (p v)
  unfolding get put count
  count-put p k v [] = omega arith
  count-put p k v ((i, w) ∷ m) = ground (arith, count-put p k v m)

  -- An entry that is there is counted.
  pub part-le-sum : (f : V → ℕ) (k : Text) (m : Map V) → part f (get k m) ≤ sum f m
  unfolding get sum
  part-le-sum f k [] = omega arith
  part-le-sum f k ((i, w) ∷ m) = ground (arith, part-le-sum f k m)

  module _ {κ} (P : V → Type κ) where
    pub Values-put : (k : Text) (v : V) (m : Map V) → P v → Values P m → Values P (put k v m)
    unfolding put
    Values-put k v [] h hm = (h, tt)
    Values-put k v ((i, w) ∷ m) h hm = split (i == k) (Values-put k v m h hm.1)
      where
        split :
            (b : Bool)
            → Values P (put k v m)
            → Values P (if b then (k, v) ∷ m else (i, w) ∷ put k v m)
        split true rest = (h, hm.1)
        split false rest = (hm.0, rest)

    pub Values-get : (k : Text) (m : Map V) {v : V} → Values P m → get k m ≡ some v → P v
    unfolding get
    Values-get k [] hm e = cc
    Values-get k ((i, w) ∷ m) {v = v} hm e = elim (Bool-cases (i == k)) [
      | inl hit ↦ subst P (ground arith) hm.0
      | inr miss ↦ Values-get k m hm.1 (ground arith)
    ]

    pub Values-find_entry :
        (p : V → Bool) (m : Map V) {k : Text} {v : V}
        → Values P m
        → find_entry p m ≡ some (k, v)
        → P v
    unfolding find_entry
    Values-find_entry p [] hm e = cc
    Values-find_entry p ((i, w) ∷ m) {k = k} {v = v} hm e = elim (Bool-cases (p w)) [
      | inl hit ↦ subst P (ground arith) hm.0
      | inr miss ↦ Values-find_entry p m {k = k} hm.1 (ground arith)
    ]
