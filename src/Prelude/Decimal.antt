-- ===== src/Prelude/Decimal.antt =====
-- A number in a template: its decimal digits.
use Prim.Native.Nat.{ℕ, zero, suc, ◌/◌, ◌%◌}
use Prim.Native.String.{String, ◌++◌ as append, slice}
use mathlib.Core.Path.{◌≡◌, refl}
use easy_mc_server.Prelude.Tests.{ltb, if◌then◌else◌}

unfoldable digit : ℕ → String
digit d = slice "0123456789" d (suc d)

-- As many digits as the fuel says, or fewer.
unfoldable digits : ℕ → ℕ → String
unfolding digit
digits zero n = ""
digits (suc fuel) n =
    let rest = digits fuel (n / 10) in if ltb n 10 then digit n else append rest (digit (n % 10))

unfoldable pub decimal : ℕ → String
unfolding digits
decimal n = digits (suc n) n

decimal-digits : decimal 407 ≡ "407"
unfolding decimal
decimal-digits = refl
