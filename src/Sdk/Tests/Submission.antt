-- ===== src/Sdk/Tests/Submission.antt =====
-- Concrete runs of the submission of a transaction, on transactions that are numbers.
use bc_forge.Common.{
  ℕ, ◌≡◌, ◌≤◌, refl, max, true, none, some, [], inl, inr, All, ◌==◌, if◌then◌else◌,
}
use bc_forge.Common.Decimal.{Text}
use bc_forge.Common.Texts.{
  codes, includes, strip_prefix, search_from, skip_spaces, skip_hash, take_number, more_digits,
}
use bc_forge.Sdk.Errors.{
  token, match_code, match_contract_error, match_error_number, is_method_admin, error_of,
  lookup_code, parse_contract_error,
}
use bc_forge.Sdk.Errors.Token.{insufficient_balance, token_error_map}
use bc_forge.Sdk.Submit.{
  accepted, not_found, contract, submission, error, SendResponse, success, Rpc,
  SubmitTransactionOptions, kind_of_result, kind_of_message, error_str, cap, first_fee, submit_from,
  submit_transaction, contract_failure, unclassified,
}
use bc_forge.Sdk.Submit.Fees.{submit_transaction-InBand}
use bc_forge.Sdk.Submit.Retries.{submit_from-contract, submit_from-resent, submission_failed}

abbrev refused : Text → SendResponse
refused xdr = record { status = error; hash = []; error_result = []; error_result_xdr = xdr }

-- A server that refuses every transaction with the text; transactions are their fees.
abbrev refusing : Text → Rpc ℕ
refusing text = record {
  fee_of = λ xdr. some xdr;
  send_parsed = λ attempt xdr. some (refused text);
  send_raw = λ attempt xdr. inr (refused text);
  get_transaction = λ attempt i hash. inr (record { status = success; result_xdr = none });
  build = λ attempt fee. inr fee;
}

abbrev options : SubmitTransactionOptions
options = record {
  max_attempts = some 3;
  max_fee_cap = some 150;
  has_context = true;
  method = none;
}

submit_transaction-InBand_example :
    All
      (λ f.
        (first_fee (refusing (codes "txINSUFFICIENT_FEE")) options 100 ≤ f)
        × (f
            ≤ max
                (first_fee (refusing (codes "txINSUFFICIENT_FEE")) options 100)
                (cap (refusing (codes "txINSUFFICIENT_FEE")) options)))
      (submit_transaction (refusing (codes "txINSUFFICIENT_FEE")) options 100).1
submit_transaction-InBand_example =
    submit_transaction-InBand (refusing (codes "txINSUFFICIENT_FEE")) options 100

abbrev broke : Text
broke = codes "Error(Contract, #4)"

broke_kind : kind_of_result (error_str (refused broke)) ≡ contract_failure
unfolding kind_of_result includes strip_prefix search_from
broke_kind = refl

broke_parsed :
    parse_contract_error (error_str (refused broke)) none
    ≡ some (token insufficient_balance (error_str (refused broke)))
unfolding parse_contract_error match_code match_contract_error match_error_number strip_prefix
    search_from skip_spaces skip_hash take_number more_digits is_method_admin error_of lookup_code
    token_error_map
broke_parsed = refl

known_error_ends :
    submit_from (refusing broke) options 3 0 100 100 none
    ≡ (inl (contract (token insufficient_balance (error_str (refused broke)))), [])
known_error_ends =
    submit_from-contract (refusing broke) options 2 0 100 100 none (refused broke)
      (token insufficient_balance (error_str (refused broke))) refl refl broke_kind broke_parsed

abbrev panicked : Text
panicked = codes "txfailed"

panicked_kind : kind_of_result (error_str (refused panicked)) ≡ contract_failure
unfolding kind_of_result includes strip_prefix search_from
panicked_kind = refl

panicked_parsed : parse_contract_error (error_str (refused panicked)) none ≡ none
unfolding parse_contract_error match_code match_contract_error match_error_number strip_prefix
    search_from
panicked_parsed = refl

panicked_message : kind_of_message (submission_failed (refused panicked)) ≡ unclassified
unfolding kind_of_message includes strip_prefix search_from
panicked_message = refl

unknown_failure_resent :
    submit_from (refusing panicked) options 3 0 100 100 none
    ≡ submit_from
        (refusing panicked)
        options
        2
        1
        100
        100
        (some (submission (submission_failed (refused panicked))))
unknown_failure_resent =
    submit_from-resent (refusing panicked) options 2 0 100 100 none (refused panicked) refl refl
      panicked_kind panicked_parsed panicked_message

-- A server that accepts a transaction and has it on the ledger at the second poll.
abbrev accepting : Rpc ℕ
accepting = record {
  fee_of = λ xdr. some xdr;
  send_parsed = λ attempt xdr. none;
  send_raw = λ attempt xdr.
      inr
        (record { status = accepted; hash = codes "h"; error_result = []; error_result_xdr = [] });
  get_transaction = λ attempt i hash.
      inr (record { status = if i == 0 then not_found else success; result_xdr = none });
  build = λ attempt fee. inr fee;
}
