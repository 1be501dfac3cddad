-- ===== src/Sdk/Submit/Retries.antt =====
-- When `submitTransaction` (sdk/src/utils.ts) sends again after an answer `ERROR`.
use bc_forge.Common.{ℕ, suc, ◌≡◌, refl, ap, ◌∙◌, Bool, Option, none, some, [], ◌++◌, inl, inr, ltb}
use bc_forge.Common.Decimal.{Text}
use bc_forge.Common.Texts.{codes}
use bc_forge.Sdk.Errors.{ContractError, parse_contract_error}
use bc_forge.Sdk.Submit.{
  SubmitError, contract, submission, error, SendResponse, Rpc, SubmitTransactionOptions,
  contract_failure, unclassified, kind_of_result, kind_of_message, error_str, or_text, sent,
  submit_from, after_try, after_catch, caught, contract_or, try_attempt, after_send, after_status,
  send_failed, send_failed_as, handle, handle_as,
}

-- The error that is thrown for a contract failure whose text has no known contract error.
abbrev pub submission_failed : SendResponse → Text
submission_failed r =
    codes "Transaction submission failed: " ++ or_text r.error_result (error_str r)

module _ {Xdr : Type 0} (rpc : Rpc Xdr) (options : SubmitTransactionOptions) where
  -- The `try` block after such an answer.
  try_attempt-failed :
      (again : Bool) (attempt : ℕ) (xdr : Xdr) (fee : ℕ) (r : SendResponse)
      → sent rpc options attempt xdr ≡ inr r
      → r.status ≡ error
      → kind_of_result (error_str r) ≡ contract_failure
      → try_attempt rpc options again attempt xdr fee ≡ (
        caught fee (contract_or rpc options (error_str r) (submission (submission_failed r))),
        [],
      )
  unfolding try_attempt after_send after_status send_failed send_failed_as
  try_attempt-failed again attempt xdr fee r e s k =
      let text = error_str r in
      ap (after_send rpc options again attempt fee) e
      ∙ ap (after_status rpc options again attempt fee r) s
      ∙ ap (λ k. send_failed_as rpc options k again attempt fee text (or_text r.error_result text))
          k

  contract_or_known :
      (text : Text) (e : SubmitError) (c : ContractError)
      → parse_contract_error text options.method ≡ some c
      → contract_or rpc options text e ≡ contract c
  contract_or_known text e c p = rw (p, contract_or) refl

  contract_or_unknown :
      (text : Text) (e : SubmitError)
      → parse_contract_error text options.method ≡ none
      → contract_or rpc options text e ≡ e
  contract_or_unknown text e p = rw (p, contract_or) refl

  -- A sending whose answer passes the test for a contract failure and has a known contract error ends
  -- the submission with that error: no transaction is built or sent again.
  pub submit_from-contract :
      (more attempt : ℕ) (xdr : Xdr) (fee : ℕ) (last : Option SubmitError) (r : SendResponse)
      (c : ContractError)
      → sent rpc options (suc attempt) xdr ≡ inr r
      → r.status ≡ error
      → kind_of_result (error_str r) ≡ contract_failure
      → parse_contract_error (error_str r) options.method ≡ some c
      → submit_from rpc options (suc more) attempt xdr fee last ≡ (inl (contract c), [])
  unfolding submit_from handle
  submit_from-contract more attempt xdr fee last r c e s k p =
      let again = ltb 0 more in
      let continue = submit_from rpc options more (suc attempt) in
      ap (after_try rpc options continue again (suc attempt) xdr last)
        (try_attempt-failed again (suc attempt) xdr fee r e s k)
      ∙ ap (λ x. after_try rpc options continue again (suc attempt) xdr last (caught fee x, []))
          (contract_or_known (error_str r) (submission (submission_failed r)) c p)

  -- A sending that fails with a text of a contract failure, but no known contract error, goes on to
  -- the next attempt with the same transaction and fee, if the message of the error that is thrown
  -- for it speaks of nothing that the handler of errors tests for.
  pub submit_from-resent :
      (more attempt : ℕ) (xdr : Xdr) (fee : ℕ) (last : Option SubmitError) (r : SendResponse)
      → sent rpc options (suc attempt) xdr ≡ inr r
      → r.status ≡ error
      → kind_of_result (error_str r) ≡ contract_failure
      → parse_contract_error (error_str r) options.method ≡ none
      → kind_of_message (submission_failed r) ≡ unclassified
      → submit_from rpc options (suc more) attempt xdr fee last
        ≡ submit_from rpc options more
            (suc attempt)
            xdr
            fee
            (some (submission (submission_failed r)))
  unfolding submit_from handle handle_as
  submit_from-resent more attempt xdr fee last r e s k p u =
      let again = ltb 0 more in
      let continue = submit_from rpc options more (suc attempt) in
      let thrown = submission (submission_failed r) in
      ap (after_try rpc options continue again (suc attempt) xdr last)
        (try_attempt-failed again (suc attempt) xdr fee r e s k)
      ∙ ap (λ x. after_try rpc options continue again (suc attempt) xdr last (caught fee x, []))
          (contract_or_unknown (error_str r) thrown p)
      ∙ ap
          (λ k.
            after_catch rpc options continue xdr fee last
              (handle_as rpc options k again (suc attempt) fee thrown))
          u
