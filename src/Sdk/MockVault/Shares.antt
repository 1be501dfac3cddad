-- ===== src/Sdk/MockVault/Shares.antt =====
-- The shares of the in-memory vault under sequences of calls (sdk/src/mockClient.ts, class
-- `MockVaultClient`).
use bc_forge.Common.{◌≡◌, refl, List, [], ◌∷◌, String, arith, inl, inr, Option-cases}
use bc_forge.Common.Int.{ℤ, pos, ◌+ℤ◌, ◌-ℤ◌, neg, int_laws}
use bc_forge.Common.Dict.{Dict, lookup, insert, get_or}
use bc_forge.Common.Totals.{total, total-insert_by, measured}
use bc_forge.Sdk.Replies.{Reply}
use bc_forge.Sdk.MockVault
use bc_forge.Sdk.MockVault.{MockVaultClient, share_balance, move_shares, shares_out}

pub data Call : Type 0 where
  deposit : String → ℤ → ℤ → Call
  withdraw : String → ℤ → ℤ → Call
  distribute_rewards : ℤ → Call
  compound : Call
  transfer : String → String → ℤ → Call
  approve : String → String → ℤ → Call

unfoldable pub call : MockVaultClient → Call → MockVaultClient × Reply
unfolding MockVault.deposit MockVault.withdraw MockVault.distribute_rewards MockVault.compound
    MockVault.transfer MockVault.approve
call c (deposit a n min) = MockVault.deposit c a n min
call c (withdraw a n min) = MockVault.withdraw c a n min
call c (distribute_rewards n) = MockVault.distribute_rewards c n
call c compound = MockVault.compound c
call c (transfer from to n) = MockVault.transfer c from to n
call c (approve from spender n) = MockVault.approve c from spender n

unfoldable pub run : MockVaultClient → List Call → MockVaultClient
unfolding call
run c [] = c
run c (k ∷ ks) = run (call c k).0 ks

abbrev pub as_is : ℤ → ℤ
as_is n = n

-- The total of the shares is the sum of the share balances.
abbrev pub IsShared : MockVaultClient → Type 0
IsShared c = c.total_shares ≡ total as_is c.share_balances

total-credit :
    (k : String) (n : ℤ) (d : Dict ℤ)
    → total as_is (insert k (get_or (pos 0) k d +ℤ n) d) ≡ total as_is d +ℤ n
total-credit k n d =
    total-insert_by as_is k (get_or (pos 0) k d +ℤ n) d n (elim (Option-cases (lookup k d)) [
      | inl e ↦ rw (e, measured, get_or) refl
      | inr (v, e) ↦ rw (e, measured, get_or) refl
    ])

-ℤ_as : (a n : ℤ) → a -ℤ n ≡ a +ℤ neg n
-ℤ_as a n = omega int_laws

total-debit :
    (k : String) (n : ℤ) (d : Dict ℤ)
    → total as_is (insert k (get_or (pos 0) k d -ℤ n) d) ≡ total as_is d -ℤ n
total-debit k n d =
    rw (-ℤ_as (get_or (pos 0) k d) n, -ℤ_as (total as_is d) n) (total-credit k (neg n) d)

total-move_shares :
    (from to : String) (n : ℤ) (d : Dict ℤ) → total as_is (move_shares from to n d) ≡ total as_is d
total-move_shares from to n d =
    let debited = insert from (get_or (pos 0) from d -ℤ n) d in
    rw (total-credit to n debited, total-debit from n d) (omega int_laws)

call-IsShared : (c : MockVaultClient) (k : Call) → IsShared c → IsShared (call c k).0
unfolding call MockVault.deposit MockVault.withdraw MockVault.distribute_rewards MockVault.transfer
call-IsShared c (deposit a n min) h = elim (Option-cases (shares_out c n)) [
  | inl e ↦ ground arith
  | inr (s, e) ↦ ground (arith, total-credit a s c.share_balances)
]
call-IsShared c (withdraw a n min) h = ground (arith, total-debit a n c.share_balances)
call-IsShared c (distribute_rewards n) h = ground arith
call-IsShared c compound h = h
call-IsShared c (transfer from to n) h =
    ground (arith, total-move_shares from to n c.share_balances)
call-IsShared c (approve from spender n) h = h

-- Whatever calls are made from a vault whose total of shares is the sum of the share balances, it
-- stays that sum.
pub run-IsShared : (c : MockVaultClient) (ks : List Call) → IsShared c → IsShared (run c ks)
unfolding run
run-IsShared c [] h = h
run-IsShared c (k ∷ ks) h = run-IsShared (call c k).0 ks (call-IsShared c k h)
