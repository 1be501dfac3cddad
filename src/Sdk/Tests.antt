-- ===== src/Sdk/Tests.antt =====
-- Concrete runs of the in-memory clients, and the submission of transactions in the child.
mod Submission
mod Listening
mod Display
mod Reads
use bc_forge.Common.{
  ◌≡◌, refl, true, false, none, some, List, [], ◌∷◌, arith, ◌↔◌, if◌then◌else◌, ◌===◌, ◌||◌,
}
use bc_forge.Common.Int.{pos, ◌+ℤ◌, ◌-ℤ◌, ◌*ℤ◌, ◌≤ℤ◌, quotient, leb_ℤ}
use bc_forge.Sdk.Replies.{is_refusal, has_succeeded, done, answered, amount}
use bc_forge.Sdk.MockToken
use bc_forge.Sdk.MockToken.{MockBcForgeClient, has_role}
use bc_forge.Sdk.MockToken.Accounts.{
  balance_of, allowance_of, ensure_account, credit, move_balance, set_allowance, spend_allowance,
}
use bc_forge.Sdk.MockToken.Calls as TokenCalls
use bc_forge.Sdk.MockToken.Calls.{run-IsBacked, CallOutcome, call-CallOutcome}
use bc_forge.Sdk.MockToken.Moves.{moved, transfer_from-moves}
use bc_forge.Sdk.MockToken.Roles.{has_role-grant_role, has_role-revoke_role}
use bc_forge.Sdk.MockVault
use bc_forge.Sdk.MockVault.{MockVaultClient, RateLimitStatus, calculate_rewards}
use bc_forge.Sdk.MockVault.Shares as VaultCalls
use bc_forge.Sdk.MockVault.Shares.{run-IsShared}
use bc_forge.Sdk.MockVault.Pricing.{
  IsNotDiluted, withdraw-deposit, deposit-IsNotDiluted, withdraw-IsNotDiluted,
  calculate_rewards-withdraw,
}
use bc_forge.Common.Decimal.{Text}
use bc_forge.Common.Texts.{
  codes, strip_prefix, search_from, skip_spaces, skip_hash, take_number, more_digits,
}
use bc_forge.Sdk.Errors.{
  token, admin, match_code, match_contract_error, match_error_number, is_method_admin, error_of,
  lookup_code, parse_contract_error,
}
use bc_forge.Sdk.Errors.Token.{not_paused, insufficient_balance, token_error_map}
use bc_forge.Sdk.Errors.Admin.{unauthorized}
use bc_forge.Sdk.Errors.Codes.{numeric_code-parse_contract_error, error_of-numeric_code}

abbrev mock_token : MockBcForgeClient
mock_token = record {
  accounts =
      ("GA", record { balance = pos 70; allowances = ("GS", pos 40) ∷ [] })
      ∷ ("GB", record { balance = pos 30; allowances = [] })
      ∷ [];
  roles = ("GA", "Minter" ∷ []) ∷ [];
  total_supply = pos 100;
  name = "MockToken";
  symbol = "MOCK";
  decimals = 7;
  admin_address = "GADMIN";
  linked_contracts = [];
  contract_id = "C";
}

abbrev token_calls : List TokenCalls.Call
token_calls =
    TokenCalls.mint "GC" (pos 5)
    ∷ TokenCalls.transfer "GA" "GC" (pos 200)
    ∷ TokenCalls.transfer_from "GA" "GS" "GB" (pos 10)
    ∷ TokenCalls.transfer "GX" "GY" (pos 0)
    ∷ []

token-IsBacked : TokenCalls.IsBacked mock_token
unfolding ◌+ℤ◌
token-IsBacked = refl

run-IsBacked_example : TokenCalls.IsBacked (TokenCalls.run mock_token token_calls)
run-IsBacked_example = run-IsBacked mock_token token_calls token-IsBacked

-- A transfer of more than the balance is refused; a transfer of nothing from an address without an
-- account throws.
unsuccessful_calls :
    (is_refusal (TokenCalls.call mock_token (TokenCalls.transfer "GA" "GC" (pos 200))).1 ≡ true)
    × (has_succeeded (TokenCalls.call mock_token (TokenCalls.transfer "GX" "GY" (pos 0))).1 ≡ false)
unfolding TokenCalls.call MockToken.transfer move_balance
unsuccessful_calls = (refl, refl)

call-CallOutcome_example :
    CallOutcome mock_token
      (TokenCalls.call mock_token (TokenCalls.transfer "GX" "GY" (pos 0))).0
      (TokenCalls.call mock_token (TokenCalls.transfer "GX" "GY" (pos 0))).1
call-CallOutcome_example = call-CallOutcome mock_token (TokenCalls.transfer "GX" "GY" (pos 0))

abbrev token_after : MockBcForgeClient
token_after = record mock_token {
  accounts =
      ("GA", record { balance = pos 60; allowances = ("GS", pos 30) ∷ [] })
      ∷ ("GB", record { balance = pos 40; allowances = [] })
      ∷ [];
}

spent : MockToken.transfer_from mock_token "GA" "GS" "GB" (pos 10) ≡ (token_after, done)
unfolding MockToken.transfer_from MockToken.move_allowed move_balance ensure_account credit
    spend_allowance set_allowance ◌+ℤ◌ ◌-ℤ◌
spent = refl

transfer_from-moves_example :
    (pos 10 ≤ℤ allowance_of "GA" "GS" mock_token.accounts)
    × (pos 10 ≤ℤ balance_of "GA" mock_token.accounts)
    × (allowance_of "GA" "GS" token_after.accounts
        ≡ allowance_of "GA" "GS" mock_token.accounts -ℤ pos 10)
    × (balance_of "GB" token_after.accounts ≡ moved "GA" "GB" (pos 10) mock_token.accounts "GB")
transfer_from-moves_example =
    transfer_from-moves mock_token token_after "GA" "GS" "GB" "GB" (pos 10) spent

abbrev vault : MockVaultClient
vault = record {
  share_balances = ("GA", pos 100) ∷ [];
  allowances = [];
  total_shares = pos 100;
  total_assets_amount = pos 150;
  pending_rewards_amount = pos 50;
  underlying_token_address = "CU";
  name = "Mock Vault Share";
  symbol = "mvSHARE";
  decimals = 7;
  mock_account_sequences = [];
  mock_contract_ttl_remaining = 500;
  mock_rate_limits = [];
}

abbrev vault_deposited : MockVaultClient
vault_deposited = record vault {
  share_balances = ("GA", pos 100) ∷ ("GB", pos 6) ∷ [];
  total_shares = pos 106;
  total_assets_amount = pos 160;
}

abbrev vault_withdrawn : MockVaultClient
vault_withdrawn = record vault {
  share_balances = ("GA", pos 100) ∷ ("GB", pos 0) ∷ [];
  total_shares = pos 100;
  total_assets_amount = pos 151;
}

deposited :
    MockVault.deposit vault "GB" (pos 10) (pos 0) ≡ (vault_deposited, answered (amount (pos 6)))
unfolding MockVault.deposit MockVault.shares_out quotient ◌*ℤ◌ ◌+ℤ◌
deposited = refl

withdrawn :
    MockVault.withdraw vault_deposited "GB" (pos 6) (pos 0)
    ≡ (vault_withdrawn, answered (amount (pos 9)))
unfolding MockVault.withdraw quotient ◌*ℤ◌ ◌-ℤ◌
withdrawn = refl

withdraw-deposit_example : pos 9 ≤ℤ pos 10
withdraw-deposit_example =
    withdraw-deposit vault vault_deposited vault_withdrawn "GB" 100 150 (pos 10) (pos 0) (pos 0)
      (pos 6) (pos 9) (omega arith) refl refl deposited withdrawn

deposit-IsNotDiluted_example : IsNotDiluted vault vault_deposited
deposit-IsNotDiluted_example =
    deposit-IsNotDiluted vault vault_deposited "GB" 100 150 (pos 10) (pos 0) (pos 6) (omega arith)
      refl refl deposited

withdraw-IsNotDiluted_example : IsNotDiluted vault_deposited vault_withdrawn
withdraw-IsNotDiluted_example =
    withdraw-IsNotDiluted vault_deposited vault_withdrawn "GB" 106 160 (pos 6) (pos 0) (pos 9)
      (omega arith) refl refl withdrawn

vault-IsShared : VaultCalls.IsShared vault
unfolding ◌+ℤ◌
vault-IsShared = refl

run-IsShared_example : VaultCalls.IsShared (
    VaultCalls.run vault
      (VaultCalls.deposit "GB" (pos 10) (pos 0) ∷ VaultCalls.transfer "GA" "GB" (pos 3) ∷ []))
run-IsShared_example =
    run-IsShared vault
      (VaultCalls.deposit "GB" (pos 10) (pos 0) ∷ VaultCalls.transfer "GA" "GB" (pos 3) ∷ [])
      vault-IsShared

abbrev status : RateLimitStatus
status =
    MockVault.get_rate_limit_status
      (MockVault.set_rate_limit_status vault "GA" (pos 10) (pos 60) (pos 4) none) "GA"

abbrev panic : Text
panic = codes "HostError: Error(Contract, #12)"

parsed : parse_contract_error panic none ≡ some (token not_paused panic)
unfolding parse_contract_error match_code match_contract_error match_error_number strip_prefix
    search_from skip_spaces skip_hash take_number more_digits is_method_admin error_of lookup_code
    token_error_map
parsed = refl

numeric_code-parse_contract_error_example : match_code panic ≡ some 12
numeric_code-parse_contract_error_example =
    numeric_code-parse_contract_error panic none (token not_paused panic) parsed
