-- ===== src/Sdk/MockToken/Backing.antt =====
-- The sum of the balances of the in-memory token client under each write.
use bc_forge.Common.{
  ◌≡◌, ◌∙◌, refl, true, some, [], String, arith, eq_iff, inl, inr, Option-cases, is_some,
}
use bc_forge.Common.Int.{ℤ, pos, ◌+ℤ◌, ◌-ℤ◌, neg, int_laws, +ℤ_zero}
use bc_forge.Common.Dict.{Dict, lookup, insert, lookup-insert}
use bc_forge.Common.Totals.{total, total-insert_by, measured}
use bc_forge.Sdk.MockToken.Accounts.{
  AccountState, ensure_account, credit, move_balance, set_allowance, spend_allowance,
}

abbrev pub balance_in : AccountState → ℤ
balance_in a = a.balance

-- The sum of all balances.
abbrev pub balances : Dict AccountState → ℤ
balances accounts = total balance_in accounts

-- An account that is written in place of another moves the sum by the difference.
balances-insert :
    (k : String) (a b : AccountState) (d : Dict AccountState) (n : ℤ)
    → lookup k d ≡ some a
    → b.balance ≡ a.balance +ℤ n
    → balances (insert k b d) ≡ balances d +ℤ n
balances-insert k a b d n e h = total-insert_by balance_in k b d n (rw (e, measured) h)

is_some-ensure_account :
    (k : String) (d : Dict AccountState) → is_some (lookup k (ensure_account k d)) ≡ true
unfolding ensure_account
is_some-ensure_account k d =
    ground (arith, lookup-insert k k (record { balance = pos 0; allowances = [] }) d, eq_iff k k)

pub balances-ensure_account :
    (k : String) (d : Dict AccountState) → balances (ensure_account k d) ≡ balances d
unfolding ensure_account
balances-ensure_account k d = elim (Option-cases (lookup k d)) [
  | inr (a, e) ↦ rw (e, ensure_account) refl
  | inl e ↦
      let t =
        total-insert_by balance_in k (record { balance = pos 0; allowances = [] }) d (pos 0)
          (rw (e, measured) (omega int_laws)) in
      rw (e, ensure_account) (t ∙ +ℤ_zero (balances d))
]

pub balances-credit :
    (k : String) (n : ℤ) (d : Dict AccountState)
    → is_some (lookup k d) ≡ true
    → balances (credit k n d) ≡ balances d +ℤ n
unfolding credit
balances-credit k n d h = elim (Option-cases (lookup k d)) [
  | inl e ↦ absurd (ground arith)
  | inr (a, e) ↦
      rw (e, credit) (balances-insert k a (record a { balance = a.balance +ℤ n }) d n e refl)
]

pub balances-mint :
    (k : String) (n : ℤ) (d : Dict AccountState)
    → balances (credit k n (ensure_account k d)) ≡ balances d +ℤ n
balances-mint k n d = rw (
  balances-credit k n (ensure_account k d) (is_some-ensure_account k d),
  balances-ensure_account k d,
)

-- After a write at `k` the key `j` is still there.
is_some-insert :
    (k j : String) (a : AccountState) (d : Dict AccountState)
    → is_some (lookup j d) ≡ true
    → is_some (lookup j (insert k a d)) ≡ true
is_some-insert k j a d h = ground (arith, lookup-insert k j a d)

pub balances-move_balance :
    (from to : String) (n : ℤ) (d : Dict AccountState)
    → balances (move_balance from to n d).0 ≡ balances d
unfolding move_balance
balances-move_balance from to n d = elim (Option-cases (lookup from (ensure_account to d))) [
  | inl e ↦ rw (e, move_balance) (balances-ensure_account to d)
  | inr (a, e) ↦
      let opened = ensure_account to d in
      let less = record a { balance = a.balance -ℤ n } in
      let debited = balances-insert from a less opened (neg n) e (omega int_laws) in
      let there = is_some-insert from to less opened (is_some-ensure_account to d) in
      let credited = balances-credit to n (insert from less opened) there in
      rw (e, move_balance) (rw (credited, debited, balances-ensure_account to d) (omega int_laws))
]

pub balances-set_allowance :
    (owner spender : String) (n : ℤ) (d : Dict AccountState)
    → balances (set_allowance owner spender n d) ≡ balances d
unfolding set_allowance
balances-set_allowance owner spender n d = elim (Option-cases (lookup owner d)) [
  | inl e ↦ rw (e, set_allowance) refl
  | inr (a, e) ↦
      let b = record a { allowances = insert spender n a.allowances } in
      rw (e, set_allowance)
        (balances-insert owner a b d (pos 0) e (omega int_laws) ∙ +ℤ_zero (balances d))
]

pub balances-spend_allowance :
    (owner spender : String) (n : ℤ) (d : Dict AccountState)
    → balances (spend_allowance owner spender n d).0 ≡ balances d
unfolding spend_allowance
balances-spend_allowance owner spender n d = elim (Option-cases (lookup owner d)) [
  | inl e ↦ rw (e, spend_allowance) refl
  | inr (a, e) ↦ elim (Option-cases (lookup spender a.allowances)) [
    | inl f ↦ rw (e, f, spend_allowance) refl
    | inr (m, f) ↦ rw (e, f, spend_allowance) (balances-set_allowance owner spender (m -ℤ n) d)
  ]
]
