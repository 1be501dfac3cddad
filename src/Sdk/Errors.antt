-- ===== src/Sdk/Errors.antt =====
-- The typed contract errors of the SDK and how they are read off an error text (sdk/src/errors.ts).
pub mod Token
pub mod Admin
pub mod Codes
use bc_forge.Common.{
  ℕ, Bool, true, false, ◌||◌, Option, none, some, List, [], ◌∷◌, String, if◌then◌else◌, ◌==◌, any,
  ◌>>=◌,
}
use bc_forge.Common.Decimal.{Text}
use bc_forge.Common.Texts.{
  codes, includes, strip_prefix, search_from, same_letter, skip_spaces, skip_hash, take_number,
}
use Token.{TokenError, token_error_map, token_numeric_code}
use Admin.{AdminError, admin_error_map, admin_numeric_code}

-- The class of the error; the raw text is its argument.
pub data ContractError : Type 0 where
  token : TokenError → Text → ContractError
  admin : AdminError → Text → ContractError

-- `numericCode`
abbrev pub numeric_code : ContractError → ℕ
numeric_code (token e raw) = token_numeric_code e
numeric_code (admin e raw) = admin_numeric_code e

-- `MAP[code]`
unfoldable pub lookup_code {ℓ} : {A : Type ℓ} → ℕ → List (ℕ × A) → Option A
lookup_code n [] = none
lookup_code n ((m, a) ∷ es) = if m == n then some a else lookup_code n es

-- `/Error\(Contract,\s*#?(\d+)\)/i` at the start of a text.
unfoldable pub match_contract_error : Text → Option ℕ
unfolding strip_prefix skip_spaces skip_hash take_number
match_contract_error s = do
  rest ← strip_prefix same_letter (codes "Error(Contract,") s
  (n, after) ← take_number (skip_hash (skip_spaces rest))
  closed ← strip_prefix same_letter (codes ")") after
  some n

-- `/contract error #?(\d+)/i` at the start of a text.
unfoldable pub match_error_number : Text → Option ℕ
unfolding strip_prefix skip_hash take_number
match_error_number s = do
  rest ← strip_prefix same_letter (codes "contract error ") s
  (n, after) ← take_number (skip_hash rest)
  some n

-- `match`: the number of the first expression that occurs.
unfoldable pub match_code : Text → Option ℕ
unfolding search_from match_contract_error match_error_number
match_code s = elim (search_from match_contract_error s) [
  | none ↦ search_from match_error_number s
  | some n ↦ some n
]

unfoldable pub is_method_admin : Option Text → Bool
unfolding includes
is_method_admin none = false
is_method_admin (some method) =
    any (includes method) ("role" ∷ "proposal" ∷ "admin" ∷ "upgrade" ∷ "threshold" ∷ [])

abbrev pub token_or_admin : ℕ → Text → Option ContractError
token_or_admin n raw = elim (lookup_code n token_error_map) [
  | some e ↦ some (token e raw)
  | none ↦ elim (lookup_code n admin_error_map) [ some e ↦ some (admin e raw) | none ↦ none ]
]

-- The choice of the class for a code.
unfoldable pub error_of : ℕ → Bool → Text → Option ContractError
unfolding lookup_code token_error_map admin_error_map
error_of n false raw = token_or_admin n raw
error_of n true raw = elim (lookup_code n admin_error_map) [
  | some e ↦ some (admin e raw)
  | none ↦ token_or_admin n raw
]

-- `parseContractError`; an empty text has no match.
unfoldable pub parse_contract_error : Text → Option Text → Option ContractError
unfolding match_code is_method_admin error_of
parse_contract_error [] method = none
parse_contract_error (c ∷ s) method =
    match_code (c ∷ s) >>= λ n. error_of n (is_method_admin method) (c ∷ s)
