-- ===== src/Prelude/Chars.antt =====
-- A string as the list of its characters, for the code that looks into it.
use Prim.Native.Char.{code}
use Prim.Native.String.{String}
use Prim.Native.Nat.{ℕ, zero, suc, compare, Ordering}
use text.Mathlib.TextEquality.{codes_equal}
use native.Mathlib.Omega.{arith}
use mathlib.Core.Path.{◌≡◌, refl, ap}
use mathlib.Core.Bool.{Bool, true, false, ◌&&◌, ◌||◌}
use mathlib.Core.List.{List, [], ◌∷◌}
use easy_mc_server.Prelude.Tests.{eqb}
use easy_mc_server.Prelude.Strings.{Text, undefined, str}

abbrev pub codes : String → List ℕ
codes String.[] = []
codes (String.◌∷◌ c s) = code c ∷ codes s

-- The characters of a value where `undefined` counts as no characters.
abbrev pub chars : Text → List ℕ
chars undefined = []
chars (str s) = codes s

unfoldable pub same_chars : List ℕ → List ℕ → Bool
same_chars [] [] = true
same_chars [] (b ∷ ds) = false
same_chars (a ∷ cs) [] = false
same_chars (a ∷ cs) (b ∷ ds) = eqb a b && same_chars cs ds

-- `s.endsWith(t)`
unfoldable pub ends_with : List ℕ → List ℕ → Bool
unfolding same_chars
ends_with t [] = same_chars t []
ends_with t (c ∷ cs) = same_chars t (c ∷ cs) || ends_with t cs

-- `s.slice(0, n)`
unfoldable pub first_chars : ℕ → List ℕ → List ℕ
first_chars zero cs = []
first_chars (suc n) [] = []
first_chars (suc n) (c ∷ cs) = c ∷ first_chars n cs

jar_ending : ends_with (codes ".jar") (codes "a.jar") ≡ true
unfolding ends_with
jar_ending = refl

head_of : List ℕ → ℕ
head_of [] = 0
head_of (c ∷ cs) = c

tail_of : List ℕ → List ℕ
tail_of [] = []
tail_of (c ∷ cs) = cs

compare-same : (m n : ℕ) → m ≡ n → compare m n ≡ Ordering.eq
compare-same m n e = ground arith

-- Strings with the same characters are equal.
pub codes-equal : (s t : String) → codes s ≡ codes t → s ≡ t
unfolding head_of tail_of
codes-equal String.[] String.[] e = refl
codes-equal String.[] (String.◌∷◌ d t) e = cc e
codes-equal (String.◌∷◌ c s) String.[] e = cc e
codes-equal (String.◌∷◌ c s) (String.◌∷◌ d t) e =
    let heads = codes_equal c d (compare-same (code c) (code d) (ap head_of e)) in
    let tails = codes-equal s t (ap tail_of e) in λ i. String.◌∷◌ (heads i) (tails i)
