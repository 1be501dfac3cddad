-- ===== src/Sdk/Amounts/Reading.antt =====
-- What is read from the display of an amount (sdk/src/utils.ts, `formatAtomicAmount`).
use bc_forge.Common.{
  ℕ, zero, suc, ◌+◌, ◌-◌, ◌/◌, ◌%◌, ◌≡◌, refl, ap, ◌∙◌, ◌≤◌, true, false, not, some, [], ◌∷◌, ◌++◌,
  arith, if◌then◌else◌, ◌==◌, length, take, drop, keep, all, length-append, length-drop,
  take-append-drop, ◌>>=◌,
}
use bc_forge.Common.Int.{ℤ, pos, negsuc}
use bc_forge.Common.Decimal.{
  Text, is_digit, digits, format_nat, scan, parse, parse_nat, HasDigit, scan-format_nat,
  format_nat-HasDigit, parse_minus, neg-suc, parse_of_HasDigit,
}
use bc_forge.Sdk.Amounts.{zeros, pad_start, absolute, sign, pointed, format_atomic_amount}

-- The text without its point.
abbrev pub without_point : Text → Text
without_point s = keep (λ c. not (c == b'.')) s

-- What follows the point.
abbrev pub fraction : Text → Text
fraction [] = []
fraction (c ∷ s) = if c == b'.' then s else fraction s

digits_only_digits :
    (f n : ℕ) (out : Text) → all is_digit out ≡ true → all is_digit (digits f n out) ≡ true
unfolding digits
digits_only_digits zero n out h = h
digits_only_digits (suc f) n out h =
    ground (arith, digits_only_digits f (n / 10) ((b'0' + n % 10) ∷ out))

digits_only_format : (n : ℕ) → all is_digit (format_nat n) ≡ true
unfolding format_nat
digits_only_format n = digits_only_digits (suc n) n [] refl

digits_only_zeros : (k : ℕ) (s : Text) → all is_digit s ≡ true → all is_digit (zeros k ++ s) ≡ true
digits_only_zeros zero s h = h
digits_only_zeros (suc k) s h = digits_only_zeros k s h

-- Digits have no point.
without_point-append :
    (s t : Text) → all is_digit s ≡ true → without_point (s ++ t) ≡ s ++ without_point t
without_point-append [] t h = refl
without_point-append (c ∷ s) t h =
    let rest = without_point-append s t (ground arith) in
    let other : (c == b'.') ≡ false = ground arith in rw other (ap (λ u. c ∷ u) rest)

fraction-append : (s t : Text) → all is_digit s ≡ true → fraction (s ++ b'.' ∷ t) ≡ t
fraction-append [] t h = refl
fraction-append (c ∷ s) t h =
    let rest = fraction-append s t (ground arith) in
    let other : (c == b'.') ≡ false = ground arith in rw other rest

without_point_digits : (s : Text) → all is_digit s ≡ true → without_point s ≡ s
without_point_digits [] h = refl
without_point_digits (c ∷ s) h =
    let rest = without_point_digits s (ground arith) in
    let other : (c == b'.') ≡ false = ground arith in rw other (ap (λ u. c ∷ u) rest)

digits_only_take : (n : ℕ) (s : Text) → all is_digit s ≡ true → all is_digit (take n s) ≡ true
digits_only_take zero s h = refl
digits_only_take (suc n) [] h = refl
digits_only_take (suc n) (c ∷ s) h = ground (arith, digits_only_take n s)

digits_only_drop : (n : ℕ) (s : Text) → all is_digit s ≡ true → all is_digit (drop n s) ≡ true
digits_only_drop zero s h = h
digits_only_drop (suc n) [] h = refl
digits_only_drop (suc n) (c ∷ s) h = ground (arith, digits_only_drop n s)

without_point-pointed : (d : ℕ) (s : Text) → all is_digit s ≡ true → without_point (pointed d s) ≡ s
without_point-pointed d s h =
    let n = length s - d in
    without_point-append (take n s) (b'.' ∷ drop n s) (digits_only_take n s h)
    ∙ ap (λ t. take n s ++ t) (without_point_digits (drop n s) (digits_only_drop n s h))
    ∙ take-append-drop n s

scan-zeros : (k : ℕ) (s : Text) → scan (zeros k ++ s) 0 ≡ scan s 0
unfolding scan
scan-zeros zero s = refl
scan-zeros (suc k) s = scan-zeros k s

-- Zeros in front do not change what is read.
zeros-HasDigit : (k : ℕ) (s : Text) → HasDigit s → HasDigit (zeros k ++ s)
zeros-HasDigit zero s h = h
zeros-HasDigit (suc k) s h = refl

read_padded :
    (k n : ℕ)
    → (parse_nat (zeros k ++ format_nat n) ≡ some n)
      × (parse (zeros k ++ format_nat n) ≡ some (pos n))
read_padded k n =
    let s = zeros k ++ format_nat n in
    let read = parse_of_HasDigit s (zeros-HasDigit k (format_nat n) (format_nat-HasDigit n)) in
    let scanned : scan s 0 ≡ some n = scan-zeros k (format_nat n) ∙ scan-format_nat n in
    (read.0 ∙ scanned, read.1 ∙ ap (λ o. o >>= λ m. some (pos m)) scanned)

-- The display without its sign.
abbrev unsigned : ℕ → ℕ → Text
unsigned n zero = format_nat n
unsigned n (suc d) = pointed (suc d) (pad_start (suc d + 1) (format_nat n))

format_atomic_amount_signed :
    (amount : ℤ) (d : ℕ)
    → format_atomic_amount amount d ≡ sign amount ++ unsigned (absolute amount) d
unfolding format_atomic_amount
format_atomic_amount_signed amount zero = refl
format_atomic_amount_signed amount (suc d) = refl

-- How many zeros are put in front.
abbrev padding : ℕ → ℕ → ℕ
padding n zero = 0
padding n (suc d) = suc d + 1 - length (format_nat n)

without_point-unsigned :
    (n d : ℕ) → without_point (unsigned n d) ≡ zeros (padding n d) ++ format_nat n
without_point-unsigned n zero = without_point_digits (format_nat n) (digits_only_format n)
without_point-unsigned n (suc d) =
    without_point-pointed (suc d) (pad_start (suc d + 1) (format_nat n))
      (digits_only_zeros (padding n (suc d)) (format_nat n) (digits_only_format n))

parse-format_atomic_amount :
    (amount : ℤ) (d : ℕ) → parse (without_point (format_atomic_amount amount d)) ≡ some amount
parse-format_atomic_amount (pos n) d =
    ap (λ t. parse (without_point t)) (format_atomic_amount_signed (pos n) d)
    ∙ ap parse (without_point-unsigned n d)
    ∙ (read_padded (padding n d) n).1
parse-format_atomic_amount (negsuc n) d =
    ap (λ t. parse (without_point t)) (format_atomic_amount_signed (negsuc n) d)
    ∙ ap (λ t. parse (b'-' ∷ t)) (without_point-unsigned (suc n) d)
    ∙ rw (parse_minus, (read_padded (padding (suc n) d) (suc n)).0) (ap some (neg-suc n))

length-zeros : (k : ℕ) → length (zeros k) ≡ k
length-zeros zero = refl
length-zeros (suc k) = omega (arith, length-zeros k)

length-padded : (n d : ℕ) → suc d + 1 ≤ length (pad_start (suc d + 1) (format_nat n))
length-padded n d = omega (
  arith,
  length-append (zeros (padding n (suc d))) (format_nat n),
  length-zeros (padding n (suc d)),
)

fraction_of_padded : (n d : ℕ) → length (fraction (unsigned n (suc d))) ≡ suc d
fraction_of_padded n d =
    let s = pad_start (suc d + 1) (format_nat n) in
    let k = length s - suc d in
    let digits_only = digits_only_zeros (padding n (suc d)) (format_nat n) (digits_only_format n) in
    ap length (fraction-append (take k s) (drop k s) (digits_only_take k s digits_only))
    ∙ omega (arith, length-drop k s, length-padded n d)

fraction_digits : (s : Text) → all is_digit s ≡ true → fraction s ≡ []
fraction_digits [] h = refl
fraction_digits (c ∷ s) h =
    let rest = fraction_digits s (ground arith) in
    let other : (c == b'.') ≡ false = ground arith in rw other rest

fraction_of_unsigned : (n d : ℕ) → length (fraction (unsigned n d)) ≡ d
fraction_of_unsigned n zero = ap length (fraction_digits (format_nat n) (digits_only_format n))
fraction_of_unsigned n (suc d) = fraction_of_padded n d

length-fraction : (amount : ℤ) (d : ℕ) → length (fraction (format_atomic_amount amount d)) ≡ d
length-fraction (pos n) d =
    ap (λ t. length (fraction t)) (format_atomic_amount_signed (pos n) d) ∙ fraction_of_unsigned n d
length-fraction (negsuc n) d =
    ap (λ t. length (fraction t)) (format_atomic_amount_signed (negsuc n) d)
    ∙ fraction_of_unsigned (suc n) d

-- The display of an amount, read without its point, is the amount, whatever the decimals, and as
-- many digits as there are decimals follow the point.
pub format_atomic_amount_lem :
    (amount : ℤ) (d : ℕ)
    → (parse (without_point (format_atomic_amount amount d)) ≡ some amount)
      × (length (fraction (format_atomic_amount amount d)) ≡ d)
format_atomic_amount_lem amount d = (parse-format_atomic_amount amount d, length-fraction amount d)
