-- ===== src/Sdk/Submit.antt =====
-- The submission of a transaction with retries, `submitTransaction` of sdk/src/utils.ts. The RPC
-- server and the building of a transaction are parameters that answer by the number of the
-- attempt; waiting is left out. A run also gives the fees that transactions were built with.
pub mod Fees
pub mod Retries
pub mod Confirmed
mod Answers
unfoldable pub use Answers.*
use bc_forge.Common.{
  ℕ, zero, suc, ◌+◌, ◌*◌, Bool, true, false, ◌&&◌, ◌||◌, Option, none, some, List, [], ◌∷◌, ◌++◌,
  String, if◌then◌else◌, ◌⊎◌, inl, inr, any, ltb,
}
use bc_forge.Common.Decimal.{Text}
use bc_forge.Common.Texts.{codes, includes}
use bc_forge.Sdk.Errors.{ContractError, parse_contract_error}

module _ {Xdr : Type 0} (rpc : Rpc Xdr) (options : SubmitTransactionOptions) where
  abbrev pub cap : ℕ
  cap = or_default 10000000 options.max_fee_cap

  -- The `do` loop that asks for the transaction, at most `suc more` times.
  unfoldable pub poll : ℕ → ℕ → ℕ → Text → SubmitError ⊎ GetTransactionResponse
  poll attempt zero i hash = rpc.get_transaction attempt i hash
  poll attempt (suc more) i hash =
      let rest = poll attempt more (suc i) hash in
      elim (rpc.get_transaction attempt i hash) [
        | inl e ↦ inl e
        | inr r ↦ elim r.status [ not_found ↦ rest | success ↦ inr r | failed ↦ inr r ]
      ]

  abbrev pub contract_or : Text → SubmitError → SubmitError
  contract_or text e = elim (parse_contract_error text options.method) [
    | none ↦ e
    | some c ↦ contract c
  ]

  -- After the polling.
  unfoldable pub finish : ℕ → GetTransactionResponse → Tried Xdr
  finish fee r = elim r.status [
    | not_found ↦ caught fee timeout
    | success ↦ responded r
    | failed ↦
        let text = failure_text r.result_xdr in
        caught fee (contract_or text (submission (codes "Transaction failed: " ++ text)))
  ]

  -- A rebuild in the `try` block, and the fees it asks for; `buildInvokeTransaction` takes 100 for a
  -- fee of 0.
  abbrev pub rebuild : ℕ → ℕ → Tried Xdr × List ℕ
  rebuild attempt fee = elim (rpc.build attempt fee) [
    | inl e ↦ (caught fee e, fee ∷ [])
    | inr xdr ↦ (resend xdr fee, fee ∷ [])
  ]

  -- The guards of a rebuild with a higher fee.
  abbrev pub can_bump : Bool → ℕ → Bool
  can_bump again fee = again && ltb fee cap && options.has_context && ltb fee (bumped_fee cap fee)

  -- A rebuild if its guards hold, or else the error.
  unfoldable pub rebuild_or : Bool → ℕ → ℕ → ℕ → SubmitError → Tried Xdr × List ℕ
  rebuild_or true attempt new_fee fee e = rebuild attempt new_fee
  rebuild_or false attempt new_fee fee e = (caught fee e, [])

  -- The answer `ERROR` to a sending; `again` is `attempt < maxAttempts`.
  unfoldable pub send_failed_as : ErrorKind → Bool → ℕ → ℕ → Text → Text → Tried Xdr × List ℕ
  unfolding rebuild_or
  send_failed_as contract_failure again attempt fee text detail = (
    caught fee (contract_or text (submission (codes "Transaction submission failed: " ++ detail))),
    [],
  )
  send_failed_as bad_sequence again attempt fee text detail =
      rebuild_or (again && options.has_context) attempt fee fee
        (submission (codes "Transaction submission failed (sequence error): " ++ detail))
  send_failed_as insufficient_fee again attempt fee text detail =
      rebuild_or (can_bump again fee) attempt (bumped_fee cap fee) fee
        (submission (codes "Transaction submission failed (fee error): " ++ detail))
  send_failed_as unclassified again attempt fee text detail =
      (caught fee (submission (codes "Transaction submission failed: " ++ detail)), [])

  unfoldable pub send_failed : Bool → ℕ → ℕ → SendResponse → Tried Xdr × List ℕ
  unfolding send_failed_as
  send_failed again attempt fee r =
      send_failed_as (kind_of_result (error_str r)) again attempt fee (error_str r)
        (or_text r.error_result (error_str r))

  abbrev pub sent : ℕ → Xdr → SubmitError ⊎ SendResponse
  sent attempt xdr = elim (rpc.send_parsed attempt xdr) [
    | some r ↦ inr r
    | none ↦ rpc.send_raw attempt xdr
  ]

  unfoldable pub after_poll : ℕ → SubmitError ⊎ GetTransactionResponse → Tried Xdr × List ℕ
  unfolding finish
  after_poll fee (inl e) = (caught fee e, [])
  after_poll fee (inr r) = (finish fee r, [])

  unfoldable pub after_status : Bool → ℕ → ℕ → SendResponse → SendStatus → Tried Xdr × List ℕ
  unfolding send_failed poll after_poll
  after_status again attempt fee r error = send_failed again attempt fee r
  after_status again attempt fee r accepted = after_poll fee (poll attempt 29 0 r.hash)

  unfoldable pub after_send : Bool → ℕ → ℕ → SubmitError ⊎ SendResponse → Tried Xdr × List ℕ
  unfolding after_status
  after_send again attempt fee (inl e) = (caught fee e, [])
  after_send again attempt fee (inr r) = after_status again attempt fee r r.status

  -- The `try` block of an attempt.
  unfoldable pub try_attempt : Bool → ℕ → Xdr → ℕ → Tried Xdr × List ℕ
  unfolding after_send
  try_attempt again attempt xdr fee = after_send again attempt fee (sent attempt xdr)

  -- A rebuild in the `catch` block.
  abbrev pub rebuild_caught : ℕ → ℕ → Handled Xdr × List ℕ
  rebuild_caught attempt fee = elim (rpc.build attempt fee) [
    | inl e ↦ (raised e, fee ∷ [])
    | inr xdr ↦ (resend xdr fee, fee ∷ [])
  ]

  -- A rebuild in the `catch` block if its guards hold, or else the error is thrown on.
  unfoldable pub rebuild_or_raise : Bool → ℕ → ℕ → SubmitError → Handled Xdr × List ℕ
  rebuild_or_raise true attempt new_fee e = rebuild_caught attempt new_fee
  rebuild_or_raise false attempt new_fee e = (raised e, [])

  unfoldable pub handle_as : ErrorKind → Bool → ℕ → ℕ → SubmitError → Handled Xdr × List ℕ
  unfolding rebuild_or_raise
  handle_as contract_failure again attempt fee e = (raised (contract_or (message_of e) e), [])
  handle_as bad_sequence again attempt fee e =
      rebuild_or_raise (again && options.has_context) attempt fee e
  handle_as insufficient_fee again attempt fee e =
      rebuild_or_raise (can_bump again fee) attempt (bumped_fee cap fee) e
  handle_as unclassified again attempt fee e = (kept e, [])

  -- The `catch` block for an error that is no contract error and no timeout.
  abbrev pub handle_message : Bool → ℕ → ℕ → SubmitError → Handled Xdr × List ℕ
  handle_message again attempt fee e =
      handle_as (kind_of_message (message_of e)) again attempt fee e

  unfoldable pub handle : Bool → ℕ → ℕ → SubmitError → Handled Xdr × List ℕ
  unfolding handle_as
  handle again attempt fee (contract c) = (raised (contract c), [])
  handle again attempt fee timeout = (raised timeout, [])
  handle again attempt fee (submission m) = handle_message again attempt fee (submission m)
  handle again attempt fee (other m) = handle_message again attempt fee (other m)

  -- After the loop.
  abbrev pub exhausted : Option SubmitError → SubmitError
  exhausted none = submission (codes "Transaction submission failed after maximum retry attempts")
  exhausted (some e) = e

  abbrev pub Run : Type 0
  Run = (SubmitError ⊎ GetTransactionResponse) × List ℕ

  -- The fees of this attempt before the ones of the rest.
  abbrev pub after : List ℕ → Run → Run
  after fees run = (run.0, fees ++ run.1)

  -- The `while` loop: `more` attempts are left, `attempt` were made. The rest of the loop is a
  -- function of the transaction, the fee and the last error.
  abbrev pub after_catch :
      (Xdr → ℕ → Option SubmitError → Run)
      → Xdr
      → ℕ
      → Option SubmitError
      → Handled Xdr × List ℕ
      → Run
  after_catch continue xdr fee last_error (h, fees) = elim h [
    | raised e ↦ (inl e, fees)
    | resend xdr' fee' ↦ after fees (continue xdr' fee' last_error)
    | kept e ↦ after fees (continue xdr fee (some e))
  ]

  abbrev pub after_try :
      (Xdr → ℕ → Option SubmitError → Run)
      → Bool
      → ℕ
      → Xdr
      → Option SubmitError
      → Tried Xdr × List ℕ
      → Run
  after_try continue again attempt xdr last_error (t, fees) = elim t [
    | responded r ↦ (inr r, fees)
    | resend xdr' fee' ↦ after fees (continue xdr' fee' last_error)
    | caught fee' e ↦
        after fees (after_catch continue xdr fee' last_error (handle again attempt fee' e))
  ]

  unfoldable pub submit_from : ℕ → ℕ → Xdr → ℕ → Option SubmitError → Run
  unfolding try_attempt handle
  submit_from zero attempt xdr fee last_error = (inl (exhausted last_error), [])
  submit_from (suc more) attempt xdr fee last_error =
      let again = ltb 0 more in
      after_try (submit_from more (suc attempt)) again (suc attempt) xdr last_error
        (try_attempt again (suc attempt) xdr fee)

  -- `currentFee` before the loop.
  abbrev pub first_fee : Xdr → ℕ
  first_fee xdr = or_default 100 (rpc.fee_of xdr)

  -- `submitTransaction`
  unfoldable pub submit_transaction : Xdr → Run
  unfolding submit_from
  submit_transaction xdr =
      submit_from (or_default 3 options.max_attempts) 0 xdr (first_fee xdr) none
