-- ===== src/Common/Decimal.antt =====
-- Decimal text: `BigInt(text)` and `value.toString()` of the language, on texts as lists of
-- character codes.
use Prim.Native.Nat.{ℕ, zero, suc, ◌+◌, ◌-◌, ◌*◌, ◌/◌, ◌%◌, ◌<◌}
use mathlib.Core.Path.{◌≡◌, refl, ap}
use mathlib.Core.Bool.{Bool, true, ◌&&◌}
use mathlib.Core.Option.{Option, none, some}
use mathlib.Core.List.{List, [], ◌∷◌}
use native.Mathlib.Omega.{arith}
use bc_forge.Common.Tests.{ltb, leb, ◌==◌, if◌then◌else◌}
use bc_forge.Common.Lists.{◌>>=◌}
use bc_forge.Common.Int.{ℤ, pos, negsuc, neg}

abbrev pub Text : Type 0
Text = List ℕ

abbrev pub is_digit : ℕ → Bool
is_digit c = leb b'0' c && leb c b'9'

-- The digits of `n` in front of `out`; the fuel is more than `n`.
unfoldable pub digits : ℕ → ℕ → Text → Text
digits zero n out = out
digits (suc f) n out =
    let rest = digits f (n / 10) ((b'0' + n % 10) ∷ out) in
    if ltb n 10 then (b'0' + n) ∷ out else rest

unfoldable pub format_nat : ℕ → Text
unfolding digits
format_nat n = digits (suc n) n []

unfoldable pub format : ℤ → Text
format (pos n) = format_nat n
format (negsuc n) = b'-' ∷ format_nat (suc n)

unfoldable pub scan : Text → ℕ → Option ℕ
scan [] acc = some acc
scan (c ∷ s) acc = if is_digit c then scan s (acc * 10 + (c - b'0')) else none

unfoldable pub parse_nat : Text → Option ℕ
unfolding scan
parse_nat [] = none
parse_nat (c ∷ s) = scan (c ∷ s) 0

unfoldable pub parse : Text → Option ℤ
unfolding parse_nat neg
parse [] = some (pos 0)
parse (c ∷ s) =
    if c == b'-'
    then (parse_nat s >>= λ n. some (neg (pos n)))
    else if c == b'+'
    then (parse_nat s >>= λ n. some (pos n))
    else (parse_nat (c ∷ s) >>= λ n. some (pos n))

scan-digits : (f n : ℕ) (out : Text) → n < f → scan (digits f n out) 0 ≡ scan out n
unfolding digits scan
scan-digits zero n out h = absurd (omega arith)
scan-digits (suc f) n out h = ground (arith, scan-digits f (n / 10) ((b'0' + n % 10) ∷ out))

-- The first character is a digit.
abbrev pub HasDigit : Text → Type 0
HasDigit [] = ⊥
HasDigit (c ∷ _) = is_digit c ≡ true

digits-HasDigit : (f n : ℕ) (out : Text) → n < f → HasDigit (digits f n out)
unfolding digits
digits-HasDigit zero n out h = absurd (omega arith)
digits-HasDigit (suc f) n out h = ground (arith, digits-HasDigit f (n / 10) ((b'0' + n % 10) ∷ out))

pub parse_of_HasDigit :
    (s : Text)
    → HasDigit s
    → (parse_nat s ≡ scan s 0) × (parse s ≡ (scan s 0 >>= λ n. some (pos n)))
unfolding parse parse_nat
parse_of_HasDigit [] h = absurd h
parse_of_HasDigit (c ∷ s) h = ground arith

pub scan-format_nat : (n : ℕ) → scan (format_nat n) 0 ≡ some n
unfolding format_nat scan
scan-format_nat n = rw (scan-digits (suc n) n [] (omega arith))

pub format_nat-HasDigit : (n : ℕ) → HasDigit (format_nat n)
unfolding format_nat
format_nat-HasDigit n = digits-HasDigit (suc n) n [] (omega arith)

parse-format_nat :
    (n : ℕ) → (parse_nat (format_nat n) ≡ some n) × (parse (format_nat n) ≡ some (pos n))
parse-format_nat n =
    ground (arith, parse_of_HasDigit (format_nat n) (format_nat-HasDigit n), scan-format_nat n)

pub parse_minus : (s : Text) → parse (b'-' ∷ s) ≡ (parse_nat s >>= λ n. some (neg (pos n)))
unfolding parse
parse_minus s = refl

pub neg-suc : (n : ℕ) → neg (pos (suc n)) ≡ negsuc n
unfolding neg
neg-suc n = ground arith

-- A printed integer is read back.
pub parse-format : (v : ℤ) → parse (format v) ≡ some v
unfolding format
parse-format (pos n) = (parse-format_nat n).1
parse-format (negsuc n) = rw (parse_minus, (parse-format_nat (suc n)).0) (ap some (neg-suc n))

tests :
    (parse (format (negsuc 119)) ≡ some (negsuc 119))
    × (format (pos 1050) ≡ b'1' ∷ b'0' ∷ b'5' ∷ b'0' ∷ [])
unfolding parse format format_nat neg
tests = (refl, refl)
