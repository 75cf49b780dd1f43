-- ===== src/Prelude/Map/Loops.antt =====
-- Loops over the values of a map that change them in place.
use Prim.Native.Nat.{ℕ, ◌+◌, ◌≤◌}
use mathlib.Core.Path.{◌≡◌, refl}
use mathlib.Core.Bool.{Bool}
use mathlib.Core.List.{[], ◌∷◌}
use mathlib.Core.Option.{none, some}
use native.Mathlib.Omega.{arith}
use easy_mc_server.Prelude.Tests.{bit}
use easy_mc_server.Prelude.Strings.{Text}
use easy_mc_server.Prelude.Map.{Map, get, count, for_values, map_values, Values}

module _ {ℓ κ} {V : Type ℓ} {S : Type κ} (body : V → S → V × S) where
  -- The invariant rule: one predicate of the values and one of the state.
  pub for_values_inv {ι ο} :
      (P : V → Type ι) (Q : S → Type ο)
      → ((v : V) (s : S) → P v → Q s → P (body v s).0 × Q (body v s).1)
      → (m : Map V) (s : S) → Values P m
      → Q s
      → Values P (for_values body m s).0 × Q (for_values body m s).1
  unfolding for_values
  for_values_inv P Q keep [] s hm hs = (tt, hs)
  for_values_inv P Q keep ((k, v) ∷ m) s hm hs =
      let one = keep v s hm.0 hs in
      let rest = for_values_inv P Q keep m (body v s).1 hm.1 one.1 in ((one.0, rest.0), rest.1)

  -- A property of the state alone.
  pub for_values_state {ο} :
      (Q : S → Type ο)
      → ((v : V) (s : S) → Q s → Q (body v s).1)
      → (m : Map V) (s : S) → Q s
      → Q (for_values body m s).1
  unfolding for_values
  for_values_state Q keep [] s hs = hs
  for_values_state Q keep ((k, v) ∷ m) s hs = for_values_state Q keep m (body v s).1 (keep v s hs)

  -- A count does not grow if no value starts to pass the test.
  pub count-for_values-le :
      (p : V → Bool)
      → ((v : V) (s : S) → bit (p (body v s).0) ≤ bit (p v))
      → (m : Map V) (s : S) → count p (for_values body m s).0 ≤ count p m
  unfolding for_values count
  count-for_values-le p keep [] s = omega arith
  count-for_values-le p keep ((k, v) ∷ m) s =
      omega (arith, keep v s, count-for_values-le p keep m (body v s).1)

  -- Where the state has no say in what becomes of a value, the loop is a map over the values.
  pub for_values-eq-map_values :
      (f : V → V)
      → ((v : V) (s : S) → (body v s).0 ≡ f v)
      → (m : Map V) (s : S) → (for_values body m s).0 ≡ map_values f m
  unfolding for_values map_values
  for_values-eq-map_values f same [] s = refl
  for_values-eq-map_values f same ((k, v) ∷ m) s =
      cc (same v s, for_values-eq-map_values f same m (body v s).1)

  -- A count in the state that grows by the values that pass a test.
  pub for_values_tally :
      (p : V → Bool) (tally : S → ℕ)
      → ((v : V) (s : S) → tally (body v s).1 ≡ tally s + bit (p v))
      → (m : Map V) (s : S) → tally (for_values body m s).1 ≡ tally s + count p m
  unfolding for_values count
  for_values_tally p tally grow [] s = omega arith
  for_values_tally p tally grow ((k, v) ∷ m) s =
      omega (arith, grow v s, for_values_tally p tally grow m (body v s).1)

module _ {ℓ} {V : Type ℓ} (f : V → V) where
  pub count-map_values_zero :
      (p : V → Bool) → ((v : V) → bit (p (f v)) ≡ 0) → (m : Map V) → count p (map_values f m) ≡ 0
  unfolding count map_values
  count-map_values_zero p off [] = refl
  count-map_values_zero p off ((k, v) ∷ m) = omega (arith, off v, count-map_values_zero p off m)

  pub get-map_values :
      (j : Text) (m : Map V)
      → get j (map_values f m) ≡ (elim (get j m) [ none ↦ none | some v ↦ some (f v) ])
  unfolding get map_values
  get-map_values j [] = refl
  get-map_values j ((k, v) ∷ m) = ground (arith, get-map_values j m)
