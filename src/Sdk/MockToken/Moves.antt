-- ===== src/Sdk/MockToken/Moves.antt =====
-- What a transfer that succeeds moves (sdk/src/mockClient.ts, `transfer` and `transferFrom`).
use bc_forge.Common.{
  ◌≡◌, ◌∙◌, refl, ap, true, some, [], String, arith, eq_iff, inl, inr, Option-cases, Bool-cases,
  ◌===◌, if◌then◌else◌, is_some,
}
use bc_forge.Common.Int.{ℤ, pos, ◌+ℤ◌, ◌-ℤ◌, ◌≤ℤ◌, ltb_ℤ, int_laws}
use bc_forge.Common.Dict.{Dict, lookup, insert, lookup-insert}
use bc_forge.Sdk.Replies.{done}
use bc_forge.Sdk.MockToken.{MockBcForgeClient, transfer_from, move_allowed}
use bc_forge.Sdk.MockToken.Accounts.{
  AccountState, balance_of, allowance_of, ensure_account, credit, move_balance, set_allowance,
  spend_allowance,
}

balance_of-ensure_account :
    (k j : String) (d : Dict AccountState) → balance_of j (ensure_account k d) ≡ balance_of j d
unfolding ensure_account
balance_of-ensure_account k j d =
    ground (arith, lookup-insert k j (record { balance = pos 0; allowances = [] }) d, eq_iff k j)

is_some-ensure_account :
    (k : String) (d : Dict AccountState) → is_some (lookup k (ensure_account k d)) ≡ true
unfolding ensure_account
is_some-ensure_account k d =
    ground (arith, lookup-insert k k (record { balance = pos 0; allowances = [] }) d, eq_iff k k)

balance_of-credit :
    (k j : String) (n : ℤ) (d : Dict AccountState)
    → is_some (lookup k d) ≡ true
    → balance_of j (credit k n d) ≡ (if k === j then balance_of k d +ℤ n else balance_of j d)
unfolding credit
balance_of-credit k j n d h = elim (Option-cases (lookup k d)) [
  | inl e ↦ absurd (ground arith)
  | inr (a, e) ↦
      let written = lookup-insert k j (record a { balance = a.balance +ℤ n }) d in
      rw (e, credit) (ground (arith, written))
]

-- The balances after a transfer of `n`, by address.
abbrev pub moved : String → String → ℤ → Dict AccountState → String → ℤ
moved from to n d a =
    if to === a
    then (if from === a then balance_of a d else balance_of a d +ℤ n)
    else if from === a
    then balance_of a d -ℤ n
    else balance_of a d

balance_of-debit :
    (k j : String) (n : ℤ) (a : AccountState) (d : Dict AccountState)
    → lookup k d ≡ some a
    → balance_of j (insert k (record a { balance = a.balance -ℤ n }) d)
      ≡ (if k === j then balance_of k d -ℤ n else balance_of j d)
balance_of-debit k j n a d e =
    ground (arith, lookup-insert k j (record a { balance = a.balance -ℤ n }) d)

is_some-insert :
    (k j : String) (a : AccountState) (d : Dict AccountState)
    → is_some (lookup j d) ≡ true
    → is_some (lookup j (insert k a d)) ≡ true
is_some-insert k j a d h = ground (arith, lookup-insert k j a d)

-ℤ+ℤ : (a n : ℤ) → a -ℤ n +ℤ n ≡ a
-ℤ+ℤ a n = omega int_laws

balance_of-move_balance :
    (from to : String) (n : ℤ) (d d' : Dict AccountState) (j : String)
    → move_balance from to n d ≡ (d', true)
    → balance_of j d' ≡ moved from to n d j
unfolding move_balance
balance_of-move_balance from to n d d' j h =
    elim (Option-cases (lookup from (ensure_account to d))) [
      | inl e ↦ absurd (ground arith)
      | inr (a, e) ↦
          let opened = ensure_account to d in
          let debited = insert from (record a { balance = a.balance -ℤ n }) opened in
          let there =
            is_some-insert from to (record a { balance = a.balance -ℤ n }) opened
              (is_some-ensure_account to d) in
          let result : credit to n debited ≡ d' = ground arith in
          rw (← result) (
            ground (
              arith,
              balance_of-credit to j n debited there,
              balance_of-debit from j n a opened e,
              balance_of-debit from to n a opened e,
              balance_of-ensure_account to j d,
              balance_of-ensure_account to to d,
              balance_of-ensure_account to from d,
              eq_iff to j,
              eq_iff from j,
              eq_iff from to,
              -ℤ+ℤ (balance_of to d) n,
            ))
    ]

allowance_of-ensure_account :
    (k o s : String) (d : Dict AccountState)
    → allowance_of o s (ensure_account k d) ≡ allowance_of o s d
unfolding ensure_account
allowance_of-ensure_account k o s d =
    ground (arith, lookup-insert k o (record { balance = pos 0; allowances = [] }) d, eq_iff k o)

-- Writing a balance leaves the allowances.
allowance_of-insert :
    (k o s : String) (a : AccountState) (n : ℤ) (d : Dict AccountState)
    → lookup k d ≡ some a
    → allowance_of o s (insert k (record a { balance = n }) d) ≡ allowance_of o s d
allowance_of-insert k o s a n d e =
    ground (arith, lookup-insert k o (record a { balance = n }) d, eq_iff k o)

allowance_of-credit :
    (k o s : String) (n : ℤ) (d : Dict AccountState)
    → allowance_of o s (credit k n d) ≡ allowance_of o s d
unfolding credit
allowance_of-credit k o s n d = elim (Option-cases (lookup k d)) [
  | inl e ↦ rw (e, credit) refl
  | inr (a, e) ↦ rw (e, credit) (allowance_of-insert k o s a (a.balance +ℤ n) d e)
]

allowance_of-move_balance :
    (from to o s : String) (n : ℤ) (d : Dict AccountState)
    → allowance_of o s (move_balance from to n d).0 ≡ allowance_of o s d
unfolding move_balance
allowance_of-move_balance from to o s n d =
    elim (Option-cases (lookup from (ensure_account to d))) [
      | inl e ↦ rw (e, move_balance) (allowance_of-ensure_account to o s d)
      | inr (a, e) ↦
          let opened = ensure_account to d in
          let debited = insert from (record a { balance = a.balance -ℤ n }) opened in
          rw (e, move_balance)
            (allowance_of-credit to o s n debited
              ∙ allowance_of-insert from o s a (a.balance -ℤ n) opened e
              ∙ allowance_of-ensure_account to o s d)
    ]

spend_allowance-spends :
    (owner spender j : String) (n : ℤ) (d d' : Dict AccountState)
    → spend_allowance owner spender n d ≡ (d', true)
    → (allowance_of owner spender d' ≡ allowance_of owner spender d -ℤ n)
      × (balance_of j d' ≡ balance_of j d)
unfolding spend_allowance set_allowance
spend_allowance-spends owner spender j n d d' h = elim (Option-cases (lookup owner d)) [
  | inl e ↦ absurd (ground arith)
  | inr (a, e) ↦ elim (Option-cases (lookup spender a.allowances)) [
    | inl f ↦ absurd (ground arith)
    | inr (m, f) ↦
        let b = record a { allowances = insert spender (m -ℤ n) a.allowances } in
        let result : insert owner b d ≡ d' = ground arith in
        rw (← result) (
          ground (
            arith,
            lookup-insert owner owner b d,
            lookup-insert owner j b d,
            lookup-insert spender spender (m -ℤ n) a.allowances,
            eq_iff owner owner,
            eq_iff spender spender,
            eq_iff owner j,
          ))
  ]
]

-- A `transferFrom` that succeeds was covered by the allowance and the balance, takes the amount
-- from the allowance, and leaves every address the balance that the transfer of the amount gives it.
pub transfer_from-moves :
    (c c' : MockBcForgeClient) (owner spender to j : String) (n : ℤ)
    → transfer_from c owner spender to n ≡ (c', done)
    → (n ≤ℤ allowance_of owner spender c.accounts)
      × (n ≤ℤ balance_of owner c.accounts)
      × (allowance_of owner spender c'.accounts ≡ allowance_of owner spender c.accounts -ℤ n)
      × (balance_of j c'.accounts ≡ moved owner to n c.accounts j)
unfolding transfer_from move_allowed
transfer_from-moves c c' owner spender to j n h =
    let d = c.accounts in
    let m = move_balance owner to n d in
    elim (Bool-cases (ltb_ℤ (allowance_of owner spender d) n)) [
      | inl low ↦ absurd (ground arith)
      | inr covered ↦ elim (Bool-cases (ltb_ℤ (balance_of owner d) n)) [
        | inl low ↦ absurd (ground arith)
        | inr funded ↦ elim (Bool-cases m.1) [
          | inl moved_all ↦
              let spent : spend_allowance owner spender n m.0 ≡ (c'.accounts, true) =
                ground arith in
              let after = spend_allowance-spends owner spender j n m.0 c'.accounts spent in
              let paired : m ≡ (m.0, true) = ground arith in
              (
                ground arith,
                ground arith,
                after.0 ∙ ap (λ v. v -ℤ n) (allowance_of-move_balance owner to owner spender n d),
                after.1 ∙ balance_of-move_balance owner to n d m.0 j paired,
              )
          | inr stuck ↦ absurd (ground arith)
        ]
      ]
    ]
