-- ===== src/Sdk/Amounts.antt =====
-- The display of token amounts (sdk/src/utils.ts, `formatAtomicAmount`), on lists of character
-- codes; the number of decimals is a natural number, since any other is refused.
pub mod Reading
use bc_forge.Common.{
  ℕ, zero, suc, ◌+◌, ◌-◌, Bool, true, false, List, [], ◌∷◌, ◌++◌, if◌then◌else◌, ◌==◌, length, take,
  drop, leb,
}
use bc_forge.Common.Int.{ℤ, pos, negsuc}
use bc_forge.Common.Decimal.{Text, format_nat}

abbrev pub zeros : ℕ → Text
zeros zero = []
zeros (suc n) = b'0' ∷ zeros n

-- `text.padStart(n, '0')`
abbrev pub pad_start : ℕ → Text → Text
pad_start n s = zeros (n - length s) ++ s

-- `absolute`, and the sign.
abbrev pub absolute : ℤ → ℕ
absolute (pos n) = n
absolute (negsuc n) = suc n

abbrev pub sign : ℤ → Text
sign (pos n) = []
sign (negsuc n) = b'-' ∷ []

-- `padded.slice(0, -decimals)`, the point and `padded.slice(-decimals)`
abbrev pub pointed : ℕ → Text → Text
pointed decimals padded =
    let whole = length padded - decimals in take whole padded ++ b'.' ∷ drop whole padded

unfoldable pub format_atomic_amount : ℤ → ℕ → Text
format_atomic_amount amount zero = sign amount ++ format_nat (absolute amount)
format_atomic_amount amount (suc d) =
    sign amount ++ pointed (suc d) (pad_start (suc d + 1) (format_nat (absolute amount)))
