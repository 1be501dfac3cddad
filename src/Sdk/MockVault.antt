-- ===== src/Sdk/MockVault.antt =====
-- The in-memory vault client, class `MockVaultClient` of sdk/src/mockClient.ts. Its plain objects
-- are dictionaries; a method takes the client and returns the client it leaves with its answer.
pub mod Shares
pub mod Pricing
pub mod Limits
use bc_forge.Common.{
  ℕ, ◌+◌, Bool, true, false, Option, none, some, List, [], ◌∷◌, String, if◌then◌else◌, ◌>>=◌,
}
use bc_forge.Common.Int.{ℤ, pos, ◌+ℤ◌, ◌-ℤ◌, ◌*ℤ◌, quotient, leb_ℤ, ltb_ℤ, ◌==ℤ◌}
use bc_forge.Common.Dict.{Dict, lookup, insert, get_or}
use bc_forge.Sdk.Replies.{Reply, done, rejected, answered, threw, amount}

pub record RateLimit : Type 0 where
  pub limit : ℤ
  pub window_seconds : ℤ
  pub current_usage : ℤ
  pub cooldown_seconds : ℤ

pub record MockVaultClient : Type 0 where
  pub share_balances : Dict ℤ
  pub allowances : Dict (Dict ℤ)
  pub total_shares : ℤ
  pub total_assets_amount : ℤ
  pub pending_rewards_amount : ℤ
  pub underlying_token_address : String
  pub name : String
  pub symbol : String
  pub decimals : ℕ
  pub mock_account_sequences : Dict ℤ
  pub mock_contract_ttl_remaining : ℕ
  pub mock_rate_limits : Dict RateLimit

-- The initial values of the fields.
unfoldable pub new : MockVaultClient
new = record {
  share_balances = [];
  allowances = [];
  total_shares = pos 0;
  total_assets_amount = pos 0;
  pending_rewards_amount = pos 0;
  underlying_token_address = "CDUMMYUNDERLYINGTOKENADDRESS0000000000000000000000000000";
  name = "Mock Vault Share";
  symbol = "mvSHARE";
  decimals = 7;
  mock_account_sequences = [];
  mock_contract_ttl_remaining = 500;
  mock_rate_limits = [];
}

-- `getShareBalance`, `getBalance`
abbrev pub share_balance : MockVaultClient → String → ℤ
share_balance c a = get_or (pos 0) a c.share_balances

-- `getAllowance`
unfoldable pub get_allowance : MockVaultClient → String → String → ℤ
get_allowance c owner spender = elim (lookup owner c.allowances) [
  | none ↦ pos 0
  | some ns ↦ get_or (pos 0) spender ns
]

-- `calculateSharePrice`; `none` is the error that no shares are outstanding.
unfoldable pub calculate_share_price : MockVaultClient → Option ℤ
calculate_share_price c =
    if c.total_shares ==ℤ pos 0 then none else quotient c.total_assets_amount c.total_shares

unfoldable pub calculate_rewards : MockVaultClient → ℤ → Option ℤ
calculate_rewards c user_shares =
    if ltb_ℤ user_shares (pos 0)
    then none
    else if c.total_shares ==ℤ pos 0
    then none
    else quotient (user_shares *ℤ c.total_assets_amount) c.total_shares

-- `sharesOut`; `none` is a division by zero.
unfoldable pub shares_out : MockVaultClient → ℤ → Option ℤ
shares_out c n =
    if c.total_shares ==ℤ pos 0
    then some n
    else quotient (n *ℤ c.total_shares) c.total_assets_amount

abbrev pub mint_shares : MockVaultClient → String → ℤ → ℤ → MockVaultClient
mint_shares c caller n shares = record c {
  share_balances = insert caller (share_balance c caller +ℤ shares) c.share_balances;
  total_shares = c.total_shares +ℤ shares;
  total_assets_amount = c.total_assets_amount +ℤ n;
}

unfoldable pub deposit : MockVaultClient → String → ℤ → ℤ → MockVaultClient × Reply
deposit c caller n min_shares_out =
    if leb_ℤ n (pos 0)
    then (c, rejected "InvalidAmount: Amount must be positive")
    else elim (shares_out c n) [
      | none ↦ (c, threw)
      | some shares ↦
          if leb_ℤ shares (pos 0)
          then (c, rejected "InvalidAmount: Calculated shares are zero")
          else if ltb_ℤ shares min_shares_out
          then (c, rejected "SlippageExceeded: Minted shares less than minSharesOut")
          else (mint_shares c caller n shares, answered (amount shares))
    ]

abbrev pub burn_shares : MockVaultClient → String → ℤ → ℤ → MockVaultClient
burn_shares c caller shares tokens = record c {
  share_balances = insert caller (share_balance c caller -ℤ shares) c.share_balances;
  total_shares = c.total_shares -ℤ shares;
  total_assets_amount = c.total_assets_amount -ℤ tokens;
}

unfoldable pub withdraw : MockVaultClient → String → ℤ → ℤ → MockVaultClient × Reply
withdraw c caller shares min_tokens_out =
    if leb_ℤ shares (pos 0)
    then (c, rejected "InvalidAmount: Shares must be positive")
    else if ltb_ℤ (share_balance c caller) shares
    then (c, rejected "InsufficientBalance: Not enough shares")
    else if c.total_shares ==ℤ pos 0
    then (c, rejected "ZeroShares: No shares in vault")
    else elim (quotient (shares *ℤ c.total_assets_amount) c.total_shares) [
      | none ↦ (c, threw)
      | some tokens ↦
          if leb_ℤ tokens (pos 0)
          then (c, rejected "InvalidAmount: Payout rounds down to zero")
          else if ltb_ℤ tokens min_tokens_out
          then (c, rejected "SlippageExceeded: Returned tokens less than minTokensOut")
          else (burn_shares c caller shares tokens, answered (amount tokens))
    ]

unfoldable pub distribute_rewards : MockVaultClient → ℤ → MockVaultClient × Reply
distribute_rewards c n =
    if leb_ℤ n (pos 0) then (c, rejected "InvalidAmount: Reward amount must be positive") else (
      record c {
        total_assets_amount = c.total_assets_amount +ℤ n;
        pending_rewards_amount = c.pending_rewards_amount +ℤ n;
      },
      done,
    )

-- `compound` and `compoundFees`
unfoldable pub compound : MockVaultClient → MockVaultClient × Reply
compound c = (record c { pending_rewards_amount = pos 0 }, done)

-- The two writes of `transfer`: the second reads what the first wrote.
abbrev pub move_shares : String → String → ℤ → Dict ℤ → Dict ℤ
move_shares from to n d =
    let debited = insert from (get_or (pos 0) from d -ℤ n) d in
    insert to (get_or (pos 0) to debited +ℤ n) debited

unfoldable pub transfer : MockVaultClient → String → String → ℤ → MockVaultClient × Reply
transfer c from to n =
    if ltb_ℤ (share_balance c from) n
    then (c, rejected "InsufficientBalance")
    else (record c { share_balances = move_shares from to n c.share_balances }, done)

unfoldable pub approve : MockVaultClient → String → String → ℤ → MockVaultClient × Reply
approve c from spender n = (
  record c {
    allowances = insert from (insert spender n (get_or [] from c.allowances)) c.allowances;
  },
  done,
)

unfoldable pub set_account_sequence : MockVaultClient → String → ℤ → MockVaultClient
set_account_sequence c a seq = record c {
  mock_account_sequences = insert a seq c.mock_account_sequences;
}

unfoldable pub set_contract_ttl_remaining : MockVaultClient → ℕ → MockVaultClient
set_contract_ttl_remaining c remaining = record c { mock_contract_ttl_remaining = remaining }

pub record ContractTtl : Type 0 where
  pub current_ledger : ℕ
  pub live_until_ledger_seq : ℕ
  pub ledgers_remaining : ℕ

unfoldable pub get_contract_ttl : MockVaultClient → ContractTtl
get_contract_ttl c = record {
  current_ledger = 1000;
  live_until_ledger_seq = 1000 + c.mock_contract_ttl_remaining;
  ledgers_remaining = c.mock_contract_ttl_remaining;
}

unfoldable pub set_rate_limit_status :
    MockVaultClient → String → ℤ → ℤ → ℤ → Option ℤ → MockVaultClient
set_rate_limit_status c a limit window_seconds current_usage cooldown_seconds = record c {
  mock_rate_limits =
      insert a
        (record {
          limit = limit;
          window_seconds = window_seconds;
          current_usage = current_usage;
          cooldown_seconds = elim cooldown_seconds [ none ↦ pos 0 | some s ↦ s ];
        })
        c.mock_rate_limits;
}

pub record RateLimitStatus : Type 0 where
  pub config : RateLimit
  pub remaining_quota : ℤ
  pub is_throttled : Bool

abbrev pub default_rate_limit : RateLimit
default_rate_limit = record {
  limit = pos 1000;
  window_seconds = pos 3600;
  current_usage = pos 0;
  cooldown_seconds = pos 0;
}

unfoldable pub get_rate_limit_status : MockVaultClient → String → RateLimitStatus
get_rate_limit_status c a =
    let config = get_or default_rate_limit a c.mock_rate_limits in
    record {
      config = config;
      remaining_quota =
          if leb_ℤ config.limit config.current_usage
          then pos 0
          else config.limit -ℤ config.current_usage;
      is_throttled = leb_ℤ config.limit config.current_usage;
    }
