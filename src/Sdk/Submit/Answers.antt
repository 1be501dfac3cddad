-- ===== src/Sdk/Submit/Answers.antt =====
-- What `submitTransaction` (sdk/src/utils.ts) sends, is answered and throws, its options, and the
-- tests on error texts.
use bc_forge.Common.{
  ℕ, ◌*◌, Bool, Option, none, some, List, [], ◌∷◌, ◌++◌, String, if◌then◌else◌, ◌⊎◌, any, ltb,
}
use bc_forge.Common.Decimal.{Text}
use bc_forge.Common.Texts.{codes, includes}
use bc_forge.Sdk.Errors.{ContractError}

-- The errors that are thrown, with their messages.
pub data SubmitError : Type 0 where
  contract : ContractError → SubmitError
  timeout : SubmitError
  submission : Text → SubmitError
  other : Text → SubmitError

pub data SendStatus : Type 0 where
  error : SendStatus
  accepted : SendStatus

-- `errorResult` and `errorResultXdr` are empty when they are missing.
pub record SendResponse : Type 0 where
  pub status : SendStatus
  pub hash : Text
  pub error_result : Text
  pub error_result_xdr : Text

pub data TransactionStatus : Type 0 where
  success : TransactionStatus
  not_found : TransactionStatus
  failed : TransactionStatus

pub record GetTransactionResponse : Type 0 where
  pub status : TransactionStatus
  pub result_xdr : Option Text

-- What is not part of the loop: reading the fee of a transaction, sending it parsed (which may
-- throw) and raw, asking for it, and building one for a fee.
pub record Rpc (Xdr : Type 0) : Type 0 where
  pub fee_of : Xdr → Option ℕ
  pub send_parsed : ℕ → Xdr → Option SendResponse
  pub send_raw : ℕ → Xdr → SubmitError ⊎ SendResponse
  pub get_transaction : ℕ → ℕ → Text → SubmitError ⊎ GetTransactionResponse
  pub build : ℕ → ℕ → SubmitError ⊎ Xdr

-- A negative cap acts as a cap of 0. `has_context` is that the source, contract, method and
-- arguments are all given.
pub record SubmitTransactionOptions : Type 0 where
  pub max_attempts : Option ℕ
  pub max_fee_cap : Option ℕ
  pub has_context : Bool
  pub method : Option Text

abbrev pub or_default : ℕ → Option ℕ → ℕ
or_default n none = n
or_default n (some m) = m

-- `a || b` of texts
abbrev pub or_text : Text → Text → Text
or_text [] b = b
or_text (c ∷ a) b = c ∷ a

abbrev pub error_str : SendResponse → Text
error_str r = r.error_result ++ 32 ∷ r.error_result_xdr

abbrev pub message_of : SubmitError → Text
message_of (submission m) = m
message_of (other m) = m
message_of (contract e) = []
message_of timeout = []

abbrev pub has_any : List String → Text → Bool
has_any parts s = any (includes s) parts

abbrev pub failure_text : Option Text → Text
failure_text none = codes "Transaction execution failed on ledger"
failure_text (some t) = t

-- What an error text speaks of, in the order of the tests.
pub data ErrorKind : Type 0 where
  contract_failure : ErrorKind
  bad_sequence : ErrorKind
  insufficient_fee : ErrorKind
  unclassified : ErrorKind

-- The tests on the result of a sending.
unfoldable pub kind_of_result : Text → ErrorKind
kind_of_result text =
    if has_any ("txFAILED" ∷ "txfailed" ∷ "ContractError" ∷ "Error(Contract" ∷ []) text
    then contract_failure
    else if has_any ("txBAD_SEQ" ∷ "txbad_seq" ∷ "BAD_SEQ" ∷ "bad_seq" ∷ []) text
    then bad_sequence
    else if has_any
        ("txINSUFFICIENT_FEE" ∷ "txinsufficient_fee" ∷ "INSUFFICIENT_FEE" ∷ "insufficient_fee" ∷ [])
        text
    then insufficient_fee
    else unclassified

-- The tests on the message of a caught error.
unfoldable pub kind_of_message : Text → ErrorKind
kind_of_message text =
    if has_any ("txFAILED" ∷ "ContractError" ∷ "Error(Contract" ∷ []) text
    then contract_failure
    else if has_any ("txBAD_SEQ" ∷ "BAD_SEQ" ∷ "bad sequence" ∷ []) text
    then bad_sequence
    else if has_any ("txINSUFFICIENT_FEE" ∷ "INSUFFICIENT_FEE" ∷ "insufficient_fee" ∷ []) text
    then insufficient_fee
    else unclassified

-- `currentFee * 2n < maxFeeCap ? currentFee * 2n : maxFeeCap`
abbrev pub bumped_fee : ℕ → ℕ → ℕ
bumped_fee cap fee = if ltb (fee * 2) cap then fee * 2 else cap

-- The end of the `try` block: the answer, a transaction to send next with its fee, or an error that
-- is caught, with the fee it finds.
pub data Tried (Xdr : Type 0) : Type 0 where
  responded : GetTransactionResponse → Tried Xdr
  resend : Xdr → ℕ → Tried Xdr
  caught : ℕ → SubmitError → Tried Xdr

-- The end of the `catch` block: thrown on, a transaction to send next, or kept as the last error.
pub data Handled (Xdr : Type 0) : Type 0 where
  raised : SubmitError → Handled Xdr
  resend : Xdr → ℕ → Handled Xdr
  kept : SubmitError → Handled Xdr
