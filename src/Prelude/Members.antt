-- ===== src/Prelude/Members.antt =====
-- Members of a list that pass a test.
use mathlib.Core.Path.{◌≡◌, sym, subst}
use mathlib.Core.Logic.{inl, inr}
use mathlib.Core.Bool.{Bool, true, false}
use mathlib.Core.List.Memᴰ
use mathlib.Core.List.{List, [], ◌∷◌, Memᴰ}
use mathlib.Core.Option.{none, some}
use native.Mathlib.Omega.{arith}
use easy_mc_server.Prelude.Tests.{Bool-cases}
use easy_mc_server.Prelude.Lists.{find, filter}

module _ {ℓ} {A : Type ℓ} (p : A → Bool) where
  pub find-some : (xs : List A) (a : A) → find p xs ≡ some a → Memᴰ a xs × (p a ≡ true)
  unfolding find
  find-some [] a e = cc
  find-some (x ∷ xs) a e = elim (Bool-cases (p x)) [
    | inl b ↦ let x-eq : x ≡ a = ground arith in (Memᴰ.head (sym x-eq), ground arith)
    | inr b ↦ let (m, h) = find-some xs a (ground arith) in (Memᴰ.tail m, h)
  ]

  pub find-none : (xs : List A) (a : A) → find p xs ≡ none → Memᴰ a xs → p a ≡ false
  unfolding find
  find-none [] a e m = elim m [ ]
  find-none (x ∷ xs) a e (Memᴰ.head a-eq) = ground arith
  find-none (x ∷ xs) a e (Memᴰ.tail m) = find-none xs a (ground arith) m

  pub Memᴰ-filter : (xs : List A) (a : A) → Memᴰ a (filter p xs) → Memᴰ a xs × (p a ≡ true)
  unfolding filter
  Memᴰ-filter [] a m = elim m [ ]
  Memᴰ-filter (x ∷ xs) a m = elim (Bool-cases (p x)) [
    | inr b ↦ let (n, h) = Memᴰ-filter xs a (subst (Memᴰ a) (ground arith) m) in (Memᴰ.tail n, h)
    | inl b ↦ elim (Memᴰ.cases_cons (subst (Memᴰ a) {y = x ∷ filter p xs} (ground arith) m)) [
      | inl e ↦ (Memᴰ.head e, ground arith)
      | inr n ↦ let (o, h) = Memᴰ-filter xs a n in (Memᴰ.tail o, h)
    ]
  ]

  pub filter-Memᴰ : (xs : List A) (a : A) → Memᴰ a xs → p a ≡ true → Memᴰ a (filter p xs)
  unfolding filter
  filter-Memᴰ [] a m h = elim m [ ]
  filter-Memᴰ (x ∷ xs) a (Memᴰ.head e) h =
      subst (Memᴰ a) {x = x ∷ filter p xs} (ground arith) (Memᴰ.head e)
  filter-Memᴰ (x ∷ xs) a (Memᴰ.tail m) h = elim (Bool-cases (p x)) [
    | inl b ↦ subst (Memᴰ a) {x = x ∷ filter p xs} (ground arith) (Memᴰ.tail (filter-Memᴰ xs a m h))
    | inr b ↦ subst (Memᴰ a) {x = filter p xs} (ground arith) (filter-Memᴰ xs a m h)
  ]
