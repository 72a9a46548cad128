-- ===== src/Base/Reader/Numbers.antt =====
-- A reader of integers in decimal digits, with a minus sign, and that it reads what `sprint` writes.
use Prim.Native.Nat.{ℕ, zero, suc, ◌+◌, ◌-◌, ◌*◌, ◌/◌, ◌%◌, ◌<◌}
use Prim.Native.Char.{Char, code}
use Prim.Native.String.{String, ◌++◌ as ◌<>◌}
use mathlib.Core.Path.{◌≡◌, refl}
use mathlib.Core.Bool.{Bool, true, ◌&&◌}
use mathlib.Core.Option.{Option, none, some}
use text.Mathlib.TextLemmas.{cons-append, nil-append}
use native.Mathlib.Omega.{arith}
use native.Mathlib.Decide.{dec_lt}
use atomix_operator.Base.Tests.{ltb, if◌then◌else◌}
use atomix_operator.Base.Int.{ℤ, pos, negsuc, neg_ℕ}
use atomix_operator.Base.Text.{digit, decimal_from, decimal, sprint}
use atomix_operator.Base.Reader.{is_line, is_line-append, strip, strip-append}

abbrev is_digit : Char → Bool
is_digit c = ltb b'/' (code c) && ltb (code c) b':'

-- The number that digits spell behind `m`.
unfoldable pub read_digits : ℕ → String → Option ℕ
read_digits m String.[] = some m
read_digits m (String.◌∷◌ c s) =
    let rest = read_digits (m * 10 + (code c - b'0')) s in if is_digit c then rest else none

-- One digit at least.
unfoldable pub read_ℕ : String → Option ℕ
unfolding read_digits
read_ℕ String.[] = none
read_ℕ (String.◌∷◌ c s) = read_digits 0 (String.◌∷◌ c s)

abbrev to_ℤ : (ℕ → ℤ) → Option ℕ → Option ℤ
to_ℤ f none = none
to_ℤ f (some n) = some (f n)

abbrev signed : String → Option String → Option ℤ
signed s none = to_ℤ pos (read_ℕ s)
signed s (some t) = to_ℤ neg_ℕ (read_ℕ t)

unfoldable pub read_ℤ : String → Option ℤ
unfolding strip read_ℕ
read_ℤ s = signed s (strip "-" s)

-- What the readers do to a text that begins with a digit.
pub record StartsWithDigit (d : ℕ) (s : String) : Type 0 where
  pub digits : (m : ℕ) → read_digits m (digit d <> s) ≡ read_digits (m * 10 + d) s
  pub number : read_ℕ (digit d <> s) ≡ read_digits 0 (digit d <> s)
  pub unsigned : strip "-" (digit d <> s) ≡ none

digit-code : (d : ℕ) → d < 10 → (c : Char) × (digit d ≡ String.◌∷◌ c String.[]) × (code c ≡ 48 + d)
unfolding digit
digit-code zero small = ("0", refl, refl)
digit-code (suc zero) small = ("1", refl, refl)
digit-code (suc (suc zero)) small = ("2", refl, refl)
digit-code (suc (suc (suc zero))) small = ("3", refl, refl)
digit-code (suc (suc (suc (suc zero)))) small = ("4", refl, refl)
digit-code (suc (suc (suc (suc (suc zero))))) small = ("5", refl, refl)
digit-code (suc (suc (suc (suc (suc (suc zero)))))) small = ("6", refl, refl)
digit-code (suc (suc (suc (suc (suc (suc (suc zero))))))) small = ("7", refl, refl)
digit-code (suc (suc (suc (suc (suc (suc (suc (suc zero)))))))) small = ("8", refl, refl)
digit-code (suc (suc (suc (suc (suc (suc (suc (suc (suc zero))))))))) small = ("9", refl, refl)
digit-code (suc (suc (suc (suc (suc (suc (suc (suc (suc (suc d)))))))))) small = ground arith

digit-StartsWithDigit : (d : ℕ) (s : String) → d < 10 → StartsWithDigit d s
unfolding read_ℕ strip read_digits
digit-StartsWithDigit d s small =
    let (c, is, number_of) = digit-code d small in
    let e : digit d <> s ≡ String.◌∷◌ c s =
      rw is (rw (cons-append c String.[] s) (rw (nil-append s) refl)) in
    record { digits = λ m. rw e (ground arith); number = rw e refl; unsigned = rw e (ground arith) }

read_digits-decimal_from :
    (f n : ℕ) (s : String) → n < f → read_digits 0 (decimal_from f n s) ≡ read_digits n s
unfolding decimal_from
read_digits-decimal_from zero n s h = elim h [ ]
read_digits-decimal_from (suc f) n s h = elim (dec_lt n 10) [
  | yes small ↦ ground (arith, (digit-StartsWithDigit n s small).digits 0)
  | no large ↦ ground (
    arith,
    read_digits-decimal_from f (n / 10) (digit (n % 10) <> s),
    (digit-StartsWithDigit (n % 10) s (omega arith)).digits (n / 10),
  )
]

-- The text begins with a digit.
decimal_from-begins :
    (f n : ℕ) (s : String)
    → n < f
    → (d : ℕ) × (t : String) × (d < 10) × (decimal_from f n s ≡ digit d <> t)
unfolding decimal_from
decimal_from-begins zero n s h = elim h [ ]
decimal_from-begins (suc f) n s h = elim (dec_lt n 10) [
  | yes small ↦ (n, s, small, ground arith)
  | no large ↦
      let (d, t, small, e) = decimal_from-begins f (n / 10) (digit (n % 10) <> s) (omega arith) in
      (d, t, small, ground arith)
]

decimal-begins : (n : ℕ) → (d : ℕ) × (t : String) × (d < 10) × (decimal n ≡ digit d <> t)
unfolding decimal
decimal-begins n = decimal_from-begins (suc n) n "" (omega arith)

read_ℕ-decimal : (n : ℕ) → read_ℕ (decimal n) ≡ some n
unfolding decimal read_digits
read_ℕ-decimal n =
    let (d, t, small, e) = decimal-begins n in
    let read : read_digits 0 (decimal n) ≡ some n =
      read_digits-decimal_from (suc n) n "" (omega arith) in
    let starts = (digit-StartsWithDigit d t small).number in cc

sprint_pos : (n : ℕ) → sprint (pos n) ≡ decimal n
unfolding sprint
sprint_pos n = refl

sprint_negsuc : (n : ℕ) → sprint (negsuc n) ≡ "-" <> decimal (n + 1)
unfolding sprint
sprint_negsuc n = refl

-- What `sprint` writes is read back.
pub read_ℤ-sprint : (x : ℤ) → read_ℤ (sprint x) ≡ some x
unfolding read_ℤ
read_ℤ-sprint (pos n) =
    let (d, t, small, e) = decimal-begins n in
    let unsigned : strip "-" (decimal n) ≡ none = rw e (digit-StartsWithDigit d t small).unsigned in
    rw (sprint_pos n) (rw unsigned (rw (read_ℕ-decimal n) refl))
read_ℤ-sprint (negsuc n) =
    rw (sprint_negsuc n)
      (rw (strip-append "-" (decimal (n + 1))) (rw (read_ℕ-decimal (n + 1)) (ground arith)))

digit-is_line : (d : ℕ) → d < 10 → is_line (digit d) ≡ true
digit-is_line d small = let (c, is, number_of) = digit-code d small in rw is (ground arith)

decimal_from-is_line :
    (f n : ℕ) (s : String) → is_line s ≡ true → is_line (decimal_from f n s) ≡ true
unfolding decimal_from
decimal_from-is_line zero n s e = e
decimal_from-is_line (suc f) n s e = elim (dec_lt n 10) [
  | yes small ↦ ground (arith, is_line-append (digit n) s (digit-is_line n small) e)
  | no large ↦ ground (
    arith,
    decimal_from-is_line f (n / 10) (digit (n % 10) <> s)
        (is_line-append (digit (n % 10)) s (digit-is_line (n % 10) (omega arith)) e),
  )
]

decimal-is_line : (n : ℕ) → is_line (decimal n) ≡ true
unfolding decimal
decimal-is_line n = decimal_from-is_line (suc n) n "" refl

pub sprint-is_line : (x : ℤ) → is_line (sprint x) ≡ true
sprint-is_line (pos n) = rw (sprint_pos n) (decimal-is_line n)
sprint-is_line (negsuc n) =
    rw (sprint_negsuc n) (is_line-append "-" (decimal (n + 1)) refl (decimal-is_line (n + 1)))
