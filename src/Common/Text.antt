-- ===== src/Common/Text.antt =====
-- Decimal output of a machine word, as `format!` writes it into the messages.
use Prim.Native.Nat.{ℕ, zero, suc, ◌/◌, ◌%◌}
use Prim.Native.String
use Prim.Native.String.{String}
use mathlib.Core.List.{List, [], ◌∷◌}
use eleel.Common.Tests.{ltb, if◌then◌else◌}

digit_of : List String → ℕ → String
digit_of [] n = ""
digit_of (s ∷ l) zero = s
digit_of (s ∷ l) (suc n) = digit_of l n

digit : ℕ → String
unfolding digit_of
digit n = digit_of ("0" ∷ "1" ∷ "2" ∷ "3" ∷ "4" ∷ "5" ∷ "6" ∷ "7" ∷ "8" ∷ "9" ∷ []) n

infixl 65 ◌+s◌
abbrev pub ◌+s◌ : String → String → String
a +s b = String.◌++◌ a b

-- Twenty digits hold every number below 2 ^ 64.
decimal_from : ℕ → ℕ → String
unfolding digit
decimal_from zero n = ""
decimal_from (suc fuel) n =
    let higher = decimal_from fuel (n / 10) in
    if ltb n 10 then digit n else higher +s digit (n % 10)

unfoldable pub decimal : ℕ → String
unfolding decimal_from
decimal n = decimal_from 20 n
