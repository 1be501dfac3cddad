-- ===== src/Common/Texts.antt =====
-- Texts as lists of character codes: `includes`, and the pieces of the regular expressions that
-- the program matches against error texts.
use Prim.Native.Nat.{ℕ, ◌+◌, ◌-◌, ◌*◌}
use Prim.Native.Char.{code}
use Prim.Native.String.{String}
use mathlib.Core.Bool.{Bool, ◌&&◌, ◌||◌}
use mathlib.Core.Option.{Option, none, some}
use mathlib.Core.List.{[], ◌∷◌}
use bc_forge.Common.Tests.{leb, ◌==◌, if◌then◌else◌, is_some}
use bc_forge.Common.Lists.{any}
use bc_forge.Common.Decimal.{Text, is_digit}

-- The character codes of a text.
abbrev pub codes : String → Text
codes String.[] = []
codes (String.◌∷◌ c s) = code c ∷ codes s

-- What follows a prefix, if the text has it; `same` compares two characters.
unfoldable pub strip_prefix : (ℕ → ℕ → Bool) → Text → Text → Option Text
strip_prefix same [] s = some s
strip_prefix same (c ∷ p) [] = none
strip_prefix same (c ∷ p) (d ∷ s) = if same c d then strip_prefix same p s else none

-- The first place of a text where `f` answers.
unfoldable pub search_from {ℓ} : {A : Type ℓ} → (Text → Option A) → Text → Option A
search_from f [] = f []
search_from f (c ∷ s) = elim (f (c ∷ s)) [ none ↦ search_from f s | some a ↦ some a ]

abbrev pub same_char : ℕ → ℕ → Bool
same_char c d = c == d

-- `text.includes(part)`
unfoldable pub includes : Text → String → Bool
unfolding strip_prefix search_from
includes s part = is_some (search_from (strip_prefix same_char (codes part)) s)

abbrev pub to_lower : ℕ → ℕ
to_lower c = if leb b'A' c && leb c b'Z' then c + 32 else c

-- Equal up to case, the flag `i`.
abbrev pub same_letter : ℕ → ℕ → Bool
same_letter c d = to_lower c == to_lower d

-- `\s`
abbrev pub is_space : ℕ → Bool
is_space c =
    (leb 9 c && leb c 13)
    || (leb 8192 c && leb c 8202)
    || any (λ d. d == c) (32 ∷ 160 ∷ 5760 ∷ 8232 ∷ 8233 ∷ 8239 ∷ 8287 ∷ 12288 ∷ 65279 ∷ [])

-- `\s*`
unfoldable pub skip_spaces : Text → Text
skip_spaces [] = []
skip_spaces (c ∷ s) = if is_space c then skip_spaces s else c ∷ s

-- `#?`
unfoldable pub skip_hash : Text → Text
skip_hash [] = []
skip_hash (c ∷ s) = if c == b'#' then s else c ∷ s

-- `\d*` after the digits read so far, with their number.
unfoldable pub more_digits : ℕ → Text → ℕ × Text
more_digits n [] = (n, [])
more_digits n (c ∷ s) =
    let rest = more_digits (n * 10 + (c - b'0')) s in if is_digit c then rest else (n, c ∷ s)

-- `(\d+)` and `parseInt`
unfoldable pub take_number : Text → Option (ℕ × Text)
unfolding more_digits
take_number [] = none
take_number (c ∷ s) = if is_digit c then some (more_digits (c - b'0') s) else none
