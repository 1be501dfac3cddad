-- ===== src/Cli/Names.antt =====
-- The names that the commands accept: networks (cli/src/network.ts), and contract ids, secret keys
-- and aliases by their regular expressions (cli/src/utils/registry.ts, cli/src/utils/address-book.ts).
use Prim.Native.Char.{Char, code}
use bc_forge.Common.{
  ℕ, ◌≡◌, refl, ap, ◌∙◌, Bool, true, false, not, ◌&&◌, ◌||◌, Option, none, some, [], ◌∷◌, String,
  arith, if◌then◌else◌, ◌==◌, ◌===◌, leb, length, all, map, is_nonempty, eq_iff, Bool-cases, inl,
  inr,
}
use bc_forge.Common.Decimal.{Text, is_digit}
use bc_forge.Common.Texts.{codes, is_space, to_lower}

-- `text.trim()`
abbrev trim_start : String → String
trim_start String.[] = ""
trim_start (String.◌∷◌ c s) = if is_space (code c) then trim_start s else String.◌∷◌ c s

abbrev trim_end : String → String
trim_end String.[] = ""
trim_end (String.◌∷◌ c s) =
    let rest = trim_end s in
    if is_space (code c) && not (is_nonempty rest) then "" else String.◌∷◌ c rest

unfoldable pub trim : String → String
trim s = trim_end (trim_start s)

-- `[A-Z2-7]`
abbrev pub is_key_char : ℕ → Bool
is_key_char c = (leb b'A' c && leb c b'Z') || (leb b'2' c && leb c b'7')

-- A letter and 55 characters of a key.
abbrev is_key : ℕ → Text → Bool
is_key first [] = false
is_key first (c ∷ s) = c == first && length s == 55 && all is_key_char s

abbrev is_letter : ℕ → Bool
is_letter c = (leb b'A' c && leb c b'Z') || (leb b'a' c && leb c b'z')

abbrev is_alias_char : ℕ → Bool
is_alias_char c = is_letter c || is_digit c || c == b'_' || c == b'-'

abbrev is_alias_text : Text → Bool
is_alias_text [] = false
is_alias_text (c ∷ s) = is_letter c && leb (length s) 63 && all is_alias_char s

-- `CONTRACT_ID_REGEX`, `SECRET_KEY_REGEX`, `ALIAS_REGEX`
unfoldable pub is_contract_id : String → Bool
is_contract_id s = is_key b'C' (codes s)

unfoldable pub is_secret_key : String → Bool
is_secret_key s = is_key b'S' (codes s)

-- `G_ADDRESS_SHAPE` of cli/src/utils/address-book.ts
unfoldable pub is_public_key : String → Bool
is_public_key s = is_key b'G' (codes s)

-- Also `ACCOUNT_NAME_PATTERN` of cli/src/utils/address-book.ts.
unfoldable pub is_alias : String → Bool
is_alias s = is_alias_text (codes s)

pub data NetworkName : Type 0 where
  testnet : NetworkName
  futurenet : NetworkName
  mainnet : NetworkName
  local : NetworkName

abbrev pub network_text : NetworkName → String
network_text testnet = "testnet"
network_text futurenet = "futurenet"
network_text mainnet = "mainnet"
network_text local = "local"

abbrev same_text : Text → Text → Bool
same_text [] [] = true
same_text (c ∷ s) (d ∷ t) = c == d && same_text s t
same_text s t = false

-- `NETWORK_ALIASES`, by a name in lower case.
abbrev pub network_alias : Text → Option NetworkName
network_alias s =
    if same_text s (codes "testnet")
    then some testnet
    else if same_text s (codes "futurenet")
    then some futurenet
    else if same_text s (codes "mainnet")
        || same_text s (codes "public")
        || same_text s (codes "pubnet")
    then some mainnet
    else if same_text s (codes "local") || same_text s (codes "standalone")
    then some local
    else none

-- `none` is the error of an unknown network. No letter outside ASCII becomes one of these names.
unfoldable pub parse_network_name : String → Option NetworkName
unfolding trim
parse_network_name value = network_alias (map to_lower (codes (trim value)))

no_space : (c : ℕ) → is_key_char c ≡ true → is_space c ≡ false
no_space c h = ground arith

trim_end_key : (s : String) → all is_key_char (codes s) ≡ true → trim_end s ≡ s
trim_end_key String.[] h = refl
trim_end_key (String.◌∷◌ c s) h =
    rw (no_space (code c) (ground arith), trim_end_key s (ground arith)) refl

key_chars :
    (first : ℕ) (s : String)
    → is_key_char first ≡ true
    → is_key first (codes s) ≡ true
    → all is_key_char (codes s) ≡ true
key_chars first String.[] f h = refl
key_chars first (String.◌∷◌ c s) f h =
    let e : code c ≡ first = ground arith in
    let rest : all is_key_char (codes s) ≡ true = ground arith in
    rw (ap is_key_char e ∙ f, rest) refl

trim_start_key : (s : String) → all is_key_char (codes s) ≡ true → trim_start s ≡ s
trim_start_key String.[] h = refl
trim_start_key (String.◌∷◌ c s) h = rw (no_space (code c) (ground arith)) refl

-- A contract id has no spaces to trim, and is no secret key and not empty.
pub trim_contract_id : (s : String) → is_contract_id s ≡ true → trim s ≡ s
unfolding trim is_contract_id
trim_contract_id s h =
    let chars = key_chars b'C' s refl h in
    ap trim_end (trim_start_key s chars) ∙ trim_end_key s chars

nonempty_cons : (c : Char) (s : String) → is_nonempty (String.◌∷◌ c s) ≡ true
nonempty_cons c s =
    let t = String.◌∷◌ c s in
    elim (Bool-cases (t === "")) [
      | inl e ↦ absurd (omega (arith, ap (λ x. length (codes x)) ((eq_iff t "").0 e)))
      | inr e ↦ rw e refl
    ]

pub contract_id_is_no_secret :
    (s : String) → is_contract_id s ≡ true → (is_secret_key s ≡ false) × (is_nonempty s ≡ true)
unfolding is_contract_id is_secret_key
contract_id_is_no_secret String.[] h = absurd (ground arith)
contract_id_is_no_secret (String.◌∷◌ c s) h = (ground arith, nonempty_cons c s)
