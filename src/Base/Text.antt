-- ===== src/Base/Text.antt =====
-- `fmt.Sprint` and `%d` of an integer: its decimal digits.
use Prim.Native.Nat.{ℕ, zero, suc, ◌+◌, ◌/◌, ◌%◌, ◌<◌}
use Prim.Native.String.{String, ◌++◌ as ◌<>◌}
use mathlib.Core.List.{List, [], ◌∷◌}
use mathlib.Core.Path.{◌≡◌, refl}
use native.Mathlib.Omega.{arith}
use atomix_operator.Base.Tests.{ltb, if◌then◌else◌}
use atomix_operator.Base.Int.{ℤ, pos, negsuc}

unfoldable pub digit : ℕ → String
digit zero = "0"
digit (suc zero) = "1"
digit (suc (suc zero)) = "2"
digit (suc (suc (suc zero))) = "3"
digit (suc (suc (suc (suc zero)))) = "4"
digit (suc (suc (suc (suc (suc zero))))) = "5"
digit (suc (suc (suc (suc (suc (suc zero)))))) = "6"
digit (suc (suc (suc (suc (suc (suc (suc zero))))))) = "7"
digit (suc (suc (suc (suc (suc (suc (suc (suc zero)))))))) = "8"
digit _ = "9"

-- The digits of `n` before `s`; the fuel bounds their number.
unfoldable pub decimal_from : ℕ → ℕ → String → String
decimal_from zero n s = s
decimal_from (suc f) n s =
    let rest = decimal_from f (n / 10) (digit (n % 10) <> s) in
    if ltb n 10 then digit n <> s else rest

unfoldable pub decimal : ℕ → String
unfolding decimal_from digit
decimal n = decimal_from (suc n) n ""

unfoldable pub sprint : ℤ → String
unfolding decimal
sprint (pos n) = decimal n
sprint (negsuc n) = "-" <> decimal (n + 1)

-- Any fuel above `n` gives the same digits, so `decimal` never runs out of it.
pub decimal_from_fuel :
    (f g n : ℕ) (s : String) → n < f → n < g → decimal_from f n s ≡ decimal_from g n s
unfolding decimal_from
decimal_from_fuel zero g n s h k = elim h [ ]
decimal_from_fuel (suc f) zero n s h k = elim k [ ]
decimal_from_fuel (suc f) (suc g) n s h k =
    ground (arith, decimal_from_fuel f g (n / 10) (digit (n % 10) <> s))

-- A text of several lines, with no newline after the last.
abbrev pub join_lines : List String → String
join_lines [] = ""
join_lines (l ∷ []) = l
join_lines (l ∷ k ∷ ls) = l <> "\n" <> join_lines (k ∷ ls)

sprint_tests : (sprint (pos 5679) ≡ "5679") × (sprint (negsuc 9) ≡ "-10") × (sprint (pos 0) ≡ "0")
unfolding sprint
sprint_tests = (refl, refl, refl)
