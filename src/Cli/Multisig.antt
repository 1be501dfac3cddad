-- ===== src/Cli/Multisig.antt =====
-- The ceremony of an upgrade by several admins (cli/src/utils/multisig.ts): one step of it, on a
-- client, files and a key parser that are parameters. Every call of the client and every file that is
-- written is kept in a list of calls. Proposal ids and hashes are lists of character codes.
pub mod Ceremony
pub mod Settled
use bc_forge.Common.{
  ℕ, Bool, true, false, not, ◌&&◌, ◌||◌, Option, none, some, List, [], ◌∷◌, ◌++◌, String,
  if◌then◌else◌, ◌==◌, leb, length, all, map, is_nonempty,
}
use bc_forge.Common.Int.{ℤ, pos}
use bc_forge.Common.Decimal.{Text, is_digit, parse_nat}
use bc_forge.Common.Texts.{codes, to_lower, strip_prefix, same_char}
use bc_forge.Cli.Names.{trim}

pub data MultisigAction : Type 0 where
  propose : MultisigAction
  approve : MultisigAction
  execute : MultisigAction

-- The value that a transaction returns: an integer, a text, or any other value.
pub data ReturnValue : Type 0 where
  number : ℤ → ReturnValue
  text : String → ReturnValue
  other : ReturnValue

pub record TransactionResult : Type 0 where
  pub success : Bool
  pub hash : String
  pub return_value : ReturnValue

pub data Outcome {ℓ} (A : Type ℓ) : Type ℓ where
  ok : A → Outcome A
  thrown : String → Outcome A

-- What is asked of the contract.
pub data Request : Type 0 where
  create_proposal : String → String → Request
  approve_proposal : String → ℕ → Request
  execute_upgrade : String → ℕ → Text → Request

-- What is broadcast: a request that the client signs, or an envelope that is signed already, by
-- `submitSignedTransaction` or by `execute`.
pub data Broadcast : Type 0 where
  signed_request : Request → Broadcast
  envelope : String → Broadcast
  upgrade_envelope : String → Broadcast

pub data Call : Type 0 where
  broadcast : Broadcast → Outcome TransactionResult → Call
  built : Request → Call
  wrote : String → String → Call

-- The client, the files (a write gives its error, if any) and `Keypair.fromSecret(secret).publicKey()`.
pub record Surroundings : Type 0 where
  pub send : Broadcast → Outcome TransactionResult
  pub build : Request → Outcome String
  pub read_file : String → Outcome String
  pub write_file : String → String → Option String
  pub public_key_of : String → Outcome String

pub record MultisigRunOptions : Type 0 where
  pub action : MultisigAction
  pub description : Option String
  pub proposal_id : Option String
  pub wasm_hash : Option String
  pub offline : Bool
  pub out_file : Option String
  pub signature_file : Option String
  pub public_key : Option String
  pub secret_key : Option String

pub record MultisigRunResult : Type 0 where
  pub submitted : Bool
  pub proposal_id : Option ℤ
  pub hash : Option String
  pub xdr : Option String

-- A run: what it ends with, and the calls it made.
pub record Run : Type 0 where
  pub result : Outcome MultisigRunResult
  pub calls : List Call

abbrev pub text_of : Option String → String
text_of none = ""
text_of (some s) = s

-- An option that JavaScript's truth test accepts.
abbrev pub truthy : Option String → Option String
truthy none = none
truthy (some s) = if is_nonempty s then some s else none

-- `/^(0|[1-9]\d*)$/`
abbrev pub is_natural : Text → Bool
is_natural [] = false
is_natural (c ∷ []) = is_digit c
is_natural (c ∷ d ∷ s) = leb b'1' c && is_digit c && all is_digit (d ∷ s)

abbrev pub to_id : Option ℕ → String → Outcome ℕ
to_id none e = thrown e
to_id (some n) e = ok n

-- `BigInt` of a text of that form, or the error.
unfoldable pub natural_or : String → Text → Outcome ℕ
natural_or e s = if is_natural s then to_id (parse_nat s) e else thrown e

unfoldable pub require_description : Option String → Outcome String
require_description d =
    if is_nonempty (trim (text_of d))
    then ok (trim (text_of d))
    else thrown "--description <text> is required to propose"

unfoldable pub require_proposal_id : Option String → Outcome ℕ
unfolding natural_or
require_proposal_id raw =
    natural_or "--proposal-id <id> is required and must be a non-negative integer"
      (codes (trim (text_of raw)))

abbrev without_0x : Text → Text
without_0x s = elim (strip_prefix same_char (codes "0x") s) [ none ↦ s | some r ↦ r ]

abbrev is_hex : ℕ → Bool
is_hex c = is_digit c || (leb b'a' c && leb c b'f')

abbrev checked_hash : Text → Outcome Text
checked_hash s =
    if length s == 64 && all is_hex s
    then ok s
    else thrown "--wasm-hash <hex> must be 32 bytes (64 hex characters)"

unfoldable pub require_wasm_hash : Option String → Outcome Text
unfolding strip_prefix
require_wasm_hash raw = checked_hash (without_0x (map to_lower (codes (trim (text_of raw)))))

abbrev pub as_bigint : Outcome ℕ → Outcome ℤ
as_bigint (ok n) = ok (pos n)
as_bigint (thrown e) = thrown e

unfoldable pub read_proposal_id : ReturnValue → Outcome ℤ
unfolding natural_or
read_proposal_id (number n) = ok n
read_proposal_id (text s) =
    as_bigint (natural_or "create_proposal succeeded but did not return a proposal id" (codes s))
read_proposal_id other = thrown "create_proposal succeeded but did not return a proposal id"

-- The requests of the steps, by the signer, and the checks of their options in order.
abbrev pub upgrade_of : String → ℕ → Outcome Text → Outcome Request
upgrade_of signer id (ok hash) = ok (execute_upgrade signer id hash)
upgrade_of signer id (thrown e) = thrown e

abbrev pub with_id : (ℕ → Outcome Request) → Outcome ℕ → Outcome Request
with_id f (ok id) = f id
with_id f (thrown e) = thrown e

abbrev pub proposal_of : String → Outcome String → Outcome Request
proposal_of signer (ok d) = ok (create_proposal signer d)
proposal_of signer (thrown e) = thrown e

unfoldable pub request_of : MultisigRunOptions → String → MultisigAction → Outcome Request
unfolding require_description require_proposal_id require_wasm_hash
request_of o signer propose = proposal_of signer (require_description o.description)
request_of o signer approve =
    with_id (λ id. ok (approve_proposal signer id)) (require_proposal_id o.proposal_id)
request_of o signer execute =
    with_id (λ id. upgrade_of signer id (require_wasm_hash o.wasm_hash))
      (require_proposal_id o.proposal_id)
