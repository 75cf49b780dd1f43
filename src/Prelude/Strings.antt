-- ===== src/Prelude/Strings.antt =====
-- A value of JavaScript that is a string or `undefined`: the ids, tokens and names of requests.
use Prim.Native.String.{String}
use mathlib.Core.Path.{◌≡◌, refl, ap}
use mathlib.Core.Logic.{◌↔◌}
use mathlib.Core.Bool.{Bool, true, false, not}
use native.Mathlib.Omega.{arith}
unfoldable pub use text.Mathlib.Text.{◌==◌ as str_eq}
pub use text.Mathlib.TextEquality.{eq_iff}

pub data Text : Type 0 where
  undefined : Text
  str : String → Text

-- `a === b`
infix 50 ◌==◌
unfoldable pub ◌==◌ : Text → Text → Bool
undefined == undefined = true
undefined == str b = false
str a == undefined = false
str a == str b = str_eq a b

-- `Boolean(a)`: neither `undefined` nor the empty string.
unfoldable pub truthy : Text → Bool
truthy undefined = false
truthy (str s) = not (str_eq s "")

-- `a ?? b`
unfoldable pub or_else : Text → Text → Text
or_else undefined b = b
or_else (str a) b = str a

-- `${a}`, as in a template.
unfoldable pub show : Text → String
show undefined = "undefined"
show (str s) = s

str_of : Text → String → String
str_of undefined s = s
str_of (str a) s = a

pub ==_iff : (a b : Text) → ((a == b) ≡ true) ↔ (a ≡ b)
unfolding ◌==◌ str_of
==_iff undefined undefined = ground arith
==_iff undefined (str b) = ground arith
==_iff (str a) undefined = ground arith
==_iff (str a) (str b) =
    (λ h. ap str ((eq_iff a b).0 h), λ e. (eq_iff a b).1 (ap (λ t. str_of t "") e))

pub ==_refl : (a : Text) → (a == a) ≡ true
==_refl a = (==_iff a a).1 refl
