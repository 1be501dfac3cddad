-- ===== src/Sdk/Errors/Token.antt =====
-- The errors of the token contract (sdk/src/errors.ts): one constructor for each class, the values its
-- constructor passes on, and the map from discriminants to classes.
use bc_forge.Common.{ℕ, List, [], ◌∷◌, String}

-- The error classes of the token contract.
pub data TokenError : Type 0 where
  already_initialized : TokenError
  not_initialized : TokenError
  invalid_amount : TokenError
  insufficient_balance : TokenError
  insufficient_allowance : TokenError
  contract_paused : TokenError
  fee_not_configured : TokenError
  insufficient_fee_balance : TokenError
  fee_exemption_not_found : TokenError
  max_supply_exceeded : TokenError
  already_paused : TokenError
  not_paused : TokenError
  batch_too_large : TokenError
  batch_empty : TokenError
  payload_expired : TokenError
  payload_replayed : TokenError
  unknown_token : TokenError

abbrev pub token_code : TokenError → String
token_code TokenError.already_initialized = "TOKEN_ALREADY_INITIALIZED"
token_code TokenError.not_initialized = "TOKEN_NOT_INITIALIZED"
token_code TokenError.invalid_amount = "TOKEN_INVALID_AMOUNT"
token_code TokenError.insufficient_balance = "TOKEN_INSUFFICIENT_BALANCE"
token_code TokenError.insufficient_allowance = "TOKEN_INSUFFICIENT_ALLOWANCE"
token_code TokenError.contract_paused = "TOKEN_CONTRACT_PAUSED"
token_code TokenError.fee_not_configured = "TOKEN_FEE_NOT_CONFIGURED"
token_code TokenError.insufficient_fee_balance = "TOKEN_INSUFFICIENT_FEE_BALANCE"
token_code TokenError.fee_exemption_not_found = "TOKEN_FEE_EXEMPTION_NOT_FOUND"
token_code TokenError.max_supply_exceeded = "TOKEN_MAX_SUPPLY_EXCEEDED"
token_code TokenError.already_paused = "TOKEN_ALREADY_PAUSED"
token_code TokenError.not_paused = "TOKEN_NOT_PAUSED"
token_code TokenError.batch_too_large = "TOKEN_BATCH_TOO_LARGE"
token_code TokenError.batch_empty = "TOKEN_BATCH_EMPTY"
token_code TokenError.payload_expired = "TOKEN_PAYLOAD_EXPIRED"
token_code TokenError.payload_replayed = "TOKEN_PAYLOAD_REPLAYED"
token_code TokenError.unknown_token = "TOKEN_UNKNOWN_TOKEN"

abbrev pub token_numeric_code : TokenError → ℕ
token_numeric_code TokenError.already_initialized = 1
token_numeric_code TokenError.not_initialized = 2
token_numeric_code TokenError.invalid_amount = 3
token_numeric_code TokenError.insufficient_balance = 4
token_numeric_code TokenError.insufficient_allowance = 5
token_numeric_code TokenError.contract_paused = 6
token_numeric_code TokenError.fee_not_configured = 7
token_numeric_code TokenError.insufficient_fee_balance = 8
token_numeric_code TokenError.fee_exemption_not_found = 9
token_numeric_code TokenError.max_supply_exceeded = 10
token_numeric_code TokenError.already_paused = 11
token_numeric_code TokenError.not_paused = 12
token_numeric_code TokenError.batch_too_large = 13
token_numeric_code TokenError.batch_empty = 14
token_numeric_code TokenError.payload_expired = 15
token_numeric_code TokenError.payload_replayed = 16
token_numeric_code TokenError.unknown_token = 17

abbrev pub token_message : TokenError → String
token_message TokenError.already_initialized =
    "Contract has already been initialized; cannot re-initialize"
token_message TokenError.not_initialized = "Contract has not been initialized yet"
token_message TokenError.invalid_amount = "The amount provided is invalid (e.g. negative or zero)"
token_message TokenError.insufficient_balance =
    "The caller balance is insufficient for the requested operation"
token_message TokenError.insufficient_allowance =
    "The spender allowance is insufficient for the requested operation"
token_message TokenError.contract_paused =
    "The contract is currently paused and operations are rejected"
token_message TokenError.fee_not_configured = "Fee configuration has not been set"
token_message TokenError.insufficient_fee_balance =
    "Treasury balance is insufficient to cover the fee"
token_message TokenError.fee_exemption_not_found =
    "No fee exemption found for the specified address"
token_message TokenError.max_supply_exceeded = "Minting would exceed the configured maximum supply"
token_message TokenError.already_paused = "Contract is already paused"
token_message TokenError.not_paused = "Contract is not paused"
token_message TokenError.batch_too_large = "Batch operations list exceeds maximum allowed cap (8)"
token_message TokenError.batch_empty = "Batch operations list is empty"
token_message TokenError.payload_expired = "Batch payload execution max ledger sequence has expired"
token_message TokenError.payload_replayed =
    "Batch payload nonce has already been used or is invalid"
token_message TokenError.unknown_token = "rescue_tokens was called on this contract own token ID"

abbrev pub token_docs_anchor : TokenError → String
token_docs_anchor TokenError.already_initialized = "token-already-initialized"
token_docs_anchor TokenError.not_initialized = "token-not-initialized"
token_docs_anchor TokenError.invalid_amount = "token-invalid-amount"
token_docs_anchor TokenError.insufficient_balance = "token-insufficient-balance"
token_docs_anchor TokenError.insufficient_allowance = "token-insufficient-allowance"
token_docs_anchor TokenError.contract_paused = "token-contract-paused"
token_docs_anchor TokenError.fee_not_configured = "token-fee-not-configured"
token_docs_anchor TokenError.insufficient_fee_balance = "token-insufficient-fee-balance"
token_docs_anchor TokenError.fee_exemption_not_found = "token-fee-exemption-not-found"
token_docs_anchor TokenError.max_supply_exceeded = "token-max-supply-exceeded"
token_docs_anchor TokenError.already_paused = "token-already-paused"
token_docs_anchor TokenError.not_paused = "token-not-paused"
token_docs_anchor TokenError.batch_too_large = "token-batch-too-large"
token_docs_anchor TokenError.batch_empty = "token-batch-empty"
token_docs_anchor TokenError.payload_expired = "token-payload-expired"
token_docs_anchor TokenError.payload_replayed = "token-payload-replayed"
token_docs_anchor TokenError.unknown_token = "token-unknown-token"

-- `TOKEN_ERROR_MAP`
unfoldable pub token_error_map : List (ℕ × TokenError)
token_error_map =
    (1, TokenError.already_initialized)
    ∷ (2, TokenError.not_initialized)
    ∷ (3, TokenError.invalid_amount)
    ∷ (4, TokenError.insufficient_balance)
    ∷ (5, TokenError.insufficient_allowance)
    ∷ (6, TokenError.contract_paused)
    ∷ (7, TokenError.fee_not_configured)
    ∷ (8, TokenError.insufficient_fee_balance)
    ∷ (9, TokenError.fee_exemption_not_found)
    ∷ (10, TokenError.max_supply_exceeded)
    ∷ (11, TokenError.already_paused)
    ∷ (12, TokenError.not_paused)
    ∷ (13, TokenError.batch_too_large)
    ∷ (14, TokenError.batch_empty)
    ∷ (15, TokenError.payload_expired)
    ∷ (16, TokenError.payload_replayed)
    ∷ (17, TokenError.unknown_token)
    ∷ []
