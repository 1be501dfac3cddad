-- ===== src/Sdk/MockToken/Accounts.antt =====
-- The accounts of the in-memory token client (sdk/src/mockClient.ts, `AccountState` and the writes
-- to `this.accounts`).
use bc_forge.Common.{Bool, true, false, none, some, [], String, if◌then◌else◌, is_some}
use bc_forge.Common.Int.{ℤ, pos, ◌+ℤ◌, ◌-ℤ◌}
use bc_forge.Common.Dict.{Dict, lookup, insert, get_or}

pub record AccountState : Type 0 where
  pub balance : ℤ
  pub allowances : Dict ℤ

-- `this.accounts[k]?.balance ?? 0n`
abbrev pub balance_of : String → Dict AccountState → ℤ
balance_of k accounts = elim (lookup k accounts) [ none ↦ pos 0 | some a ↦ a.balance ]

-- `this.accounts[owner]?.allowances[spender] ?? 0n`
abbrev pub allowance_of : String → String → Dict AccountState → ℤ
allowance_of owner spender accounts = elim (lookup owner accounts) [
  | none ↦ pos 0
  | some a ↦ get_or (pos 0) spender a.allowances
]

-- `if (!this.accounts[k]) this.accounts[k] = { balance: 0n, allowances: {} }`
unfoldable pub ensure_account : String → Dict AccountState → Dict AccountState
ensure_account k accounts =
    if is_some (lookup k accounts)
    then accounts
    else insert k (record { balance = pos 0; allowances = [] }) accounts

-- `this.accounts[k].balance += n`, for an account that exists.
unfoldable pub credit : String → ℤ → Dict AccountState → Dict AccountState
credit k n accounts = elim (lookup k accounts) [
  | none ↦ accounts
  | some a ↦ insert k (record a { balance = a.balance +ℤ n }) accounts
]

-- `this.accounts[from].balance -= n; this.accounts[to].balance += n`, where `to` exists after the
-- first line and the second throws without an account of `from`.
unfoldable pub move_balance : String → String → ℤ → Dict AccountState → Dict AccountState × Bool
unfolding ensure_account credit
move_balance from to n accounts =
    let opened = ensure_account to accounts in
    elim (lookup from opened) [
      | none ↦ (opened, false)
      | some a ↦ (credit to n (insert from (record a { balance = a.balance -ℤ n }) opened), true)
    ]

unfoldable pub set_allowance : String → String → ℤ → Dict AccountState → Dict AccountState
set_allowance owner spender n accounts = elim (lookup owner accounts) [
  | none ↦ accounts
  | some a ↦ insert owner (record a { allowances = insert spender n a.allowances }) accounts
]

-- `this.accounts[owner].allowances[spender] -= n`: a missing allowance throws.
unfoldable pub spend_allowance : String → String → ℤ → Dict AccountState → Dict AccountState × Bool
unfolding set_allowance
spend_allowance owner spender n accounts = elim (lookup owner accounts) [
  | none ↦ (accounts, false)
  | some a ↦ elim (lookup spender a.allowances) [
    | none ↦ (accounts, false)
    | some m ↦ (set_allowance owner spender (m -ℤ n) accounts, true)
  ]
]
