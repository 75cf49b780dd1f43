-- ===== src/Prelude/Map.antt =====
-- JavaScript's `Map` with ids for keys: entries in the order of insertion, where a write to a key
-- that is there keeps its place.
pub mod Laws
pub mod Loops
use Prim.Native.Nat.{ℕ, ◌+◌, ◌≤◌}
use mathlib.Core.Path.{◌≡◌, refl}
use mathlib.Core.Bool.{Bool, true, false}
use mathlib.Core.List.{List, [], ◌∷◌}
use mathlib.Core.Option.{Option, none, some}
use native.Mathlib.Omega.{arith}
use easy_mc_server.Prelude.Tests.{if◌then◌else◌, bit, get_or}
use easy_mc_server.Prelude.Strings.{Text, ◌==◌, ==_iff}

abbrev pub Map {ℓ} : Type ℓ → Type ℓ
Map V = List (Text × V)

module _ {ℓ} {V : Type ℓ} where
  unfoldable pub get : Text → Map V → Option V
  get k [] = none
  get k ((j, v) ∷ m) = if j == k then some v else get k m

  unfoldable pub put : Text → V → Map V → Map V
  put k v [] = (k, v) ∷ []
  put k v ((j, w) ∷ m) = if j == k then (k, v) ∷ m else (j, w) ∷ put k v m

  unfoldable pub values : Map V → List V
  values [] = []
  values ((k, v) ∷ m) = v ∷ values m

  unfoldable pub keys : Map V → List Text
  keys [] = []
  keys ((k, v) ∷ m) = k ∷ keys m

  -- The sum of a measure over the values, and the number of values that pass a test.
  unfoldable pub sum : (V → ℕ) → Map V → ℕ
  sum f [] = 0
  sum f ((k, v) ∷ m) = f v + sum f m

  unfoldable pub count : (V → Bool) → Map V → ℕ
  count p [] = 0
  count p ((k, v) ∷ m) = bit (p v) + count p m

  -- What the entry under a key adds to a sum or a count.
  abbrev pub part : (V → ℕ) → Option V → ℕ
  part f none = 0
  part f (some v) = f v

  -- `[...m.values()].find(p)`, with the key under which the object lies.
  unfoldable pub find_entry : (V → Bool) → Map V → Option (Text × V)
  find_entry p [] = none
  find_entry p ((k, v) ∷ m) = if p v then some (k, v) else find_entry p m

  -- `for (const v of m.values()) …`, where the body may change `v` in place and a state beside it.
  unfoldable pub for_values {κ} : {S : Type κ} → (V → S → V × S) → Map V → S → Map V × S
  for_values body [] s = ([], s)
  for_values body ((k, v) ∷ m) s =
      let (v', s') = body v s in let (m', s'') = for_values body m s' in ((k, v') ∷ m', s'')

  unfoldable pub map_values : (V → V) → Map V → Map V
  map_values f [] = []
  map_values f ((k, v) ∷ m) = (k, f v) ∷ map_values f m

  -- Every value of the map.
  abbrev pub Values {κ} : (V → Type κ) → Map V → Type κ
  Values P [] = Unit
  Values P ((k, v) ∷ m) = P v × Values P m
