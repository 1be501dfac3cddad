-- ===== src/Sdk/MockVault/Pricing.antt =====
-- Rounding in the in-memory vault: what deposits and withdrawals do to the price of a share
-- (sdk/src/mockClient.ts, `deposit`, `withdraw`, `calculateRewards`).
use bc_forge.Common.{
  ℕ, zero, suc, ◌+◌, ◌-◌, ◌*◌, ◌/◌, ◌≤◌, ◌<◌, ◌≡◌, ◌∙◌, sym, ap, refl, some, String, arith, inl,
  inr, Option-cases, Bool-cases,
}
use bc_forge.Common.Int.{ℤ, pos, negsuc, pos_part, ◌+ℤ◌, ◌-ℤ◌, ◌*ℤ◌, quotient, ◌≤ℤ◌, ltb_ℤ}
use bc_forge.Sdk.Replies.{answered, amount}
use bc_forge.Sdk.MockVault.{
  MockVaultClient, share_balance, shares_out, deposit, withdraw, mint_shares, burn_shares,
  calculate_rewards,
}
use native.Mathlib.Nat.{div-mul-le_self, div-le_of_le-mul, mul-le-mul_right}

-- Shares bought for `x` are worth at most `x`.
rounds_down : (S A x : ℕ) → x * S / A * (A + x) / (S + x * S / A) ≤ x
rounds_down S A x = div-le_of_le-mul (S + x * S / A) (omega (arith, div-mul-le_self (x * S) A))

pos_*ℤ : (a b : ℕ) → pos a *ℤ pos b ≡ pos (a * b)
unfolding ◌*ℤ◌
pos_*ℤ a b = ground arith

pos_+ℤ : (a b : ℕ) → pos a +ℤ pos b ≡ pos (a + b)
unfolding ◌+ℤ◌
pos_+ℤ a b = ground arith

quotient_pos : (a b : ℕ) (q : ℤ) → quotient (pos a) (pos b) ≡ some q → (q ≡ pos (a / b)) × (0 < b)
unfolding quotient
quotient_pos a zero q h = absurd (ground arith)
quotient_pos a (suc b) q h = (ground arith, ground arith)

-- A deposit that succeeds on a vault with shares.
record Deposited (c c' : MockVaultClient) (S A : ℕ) (n s : ℤ) : Type 0 where
  x : ℕ
  paid : n ≡ pos x
  shares : s ≡ pos (x * S / A)
  total_shares : c'.total_shares ≡ pos (S + x * S / A)
  total_assets : c'.total_assets_amount ≡ pos (A + x)

shares_out_pos :
    (c : MockVaultClient) (S A x : ℕ) (s : ℤ)
    → 0 < S
    → c.total_shares ≡ pos S
    → c.total_assets_amount ≡ pos A
    → shares_out c (pos x) ≡ some s
    → s ≡ pos (x * S / A)
unfolding shares_out
shares_out_pos c S A x s pS eS eA h =
    (quotient_pos (x * S) A s (rw (← pos_*ℤ x S) (ground arith))).0

deposit-Deposited :
    (c c' : MockVaultClient) (caller : String) (S A : ℕ) (n min s : ℤ)
    → 0 < S
    → c.total_shares ≡ pos S
    → c.total_assets_amount ≡ pos A
    → deposit c caller n min ≡ (c', answered (amount s))
    → Deposited c c' S A n s
unfolding deposit
deposit-Deposited c c' caller S A (negsuc m) min s pS eS eA h = absurd (ground arith)
deposit-Deposited c c' caller S A (pos x) min s pS eS eA h =
    elim (Option-cases (shares_out c (pos x))) [
      | inl e ↦ absurd (ground arith)
      | inr (q, e) ↦
          let bought = shares_out_pos c S A x q pS eS eA e in
          let same : q ≡ s = ground arith in
          let result : mint_shares c caller (pos x) q ≡ c' = ground arith in
          record {
            x = x;
            paid = refl;
            shares = sym same ∙ bought;
            total_shares = rw (← result) (rw (eS, bought) (pos_+ℤ S (x * S / A)));
            total_assets = rw (← result) (rw eA (pos_+ℤ A x));
          }
    ]

-- A withdrawal that succeeds on a vault with shares.
record Withdrawn (c c' : MockVaultClient) (S A : ℕ) (n t : ℤ) : Type 0 where
  w : ℕ
  burned : n ≡ pos w
  tokens : t ≡ pos (w * A / S)
  total_shares : c'.total_shares ≡ pos S -ℤ pos w
  total_assets : c'.total_assets_amount ≡ pos A -ℤ pos (w * A / S)

withdraw-Withdrawn :
    (c c' : MockVaultClient) (caller : String) (S A : ℕ) (n min t : ℤ)
    → c.total_shares ≡ pos S
    → c.total_assets_amount ≡ pos A
    → withdraw c caller n min ≡ (c', answered (amount t))
    → Withdrawn c c' S A n t
unfolding withdraw
withdraw-Withdrawn c c' caller S A (negsuc m) min t eS eA h = absurd (ground arith)
withdraw-Withdrawn c c' caller S A (pos w) min t eS eA h =
    elim (Option-cases (quotient (pos w *ℤ c.total_assets_amount) c.total_shares)) [
      | inl e ↦ absurd (ground arith)
      | inr (q, e) ↦
          let paid : q ≡ pos (w * A / S) =
            (quotient_pos (w * A) S q (rw (← pos_*ℤ w A) (ground arith))).0 in
          let same : q ≡ t = ground arith in
          let result : burn_shares c caller (pos w) q ≡ c' = ground arith in
          record {
            w = w;
            burned = refl;
            tokens = sym same ∙ paid;
            total_shares = rw (← result) (rw eS refl);
            total_assets = rw (← result) (rw (eA, paid) refl);
          }
    ]

-- The shares that a deposit buys are never worth more than the deposit: who deposits into a vault
-- that has shares, and withdraws the shares bought, gets at most the amount back.
pub withdraw-deposit :
    (c c' c'' : MockVaultClient) (caller : String) (S A : ℕ) (n min min' s t : ℤ)
    → 0 < S
    → c.total_shares ≡ pos S
    → c.total_assets_amount ≡ pos A
    → deposit c caller n min ≡ (c', answered (amount s))
    → withdraw c' caller s min' ≡ (c'', answered (amount t))
    → t ≤ℤ n
withdraw-deposit c c' c'' caller S A n min min' s t pS eS eA h k =
    let d = deposit-Deposited c c' caller S A n min s pS eS eA h in
    let b = d.x * S / A in
    let w =
      withdraw-Withdrawn c' c'' caller (S + b) (A + d.x) s min' t d.total_shares d.total_assets k in
    let bound = rounds_down S A d.x in
    let same : w.w ≡ b = ap pos_part (sym w.burned ∙ d.shares) in
    rw (w.tokens, d.paid, same) (omega (arith, bound))

-- Assets for each share, compared by cross-multiplication.
abbrev pub IsNotDiluted : MockVaultClient → MockVaultClient → Type 0
IsNotDiluted c c' =
    c.total_assets_amount *ℤ c'.total_shares ≤ℤ c'.total_assets_amount *ℤ c.total_shares

-- A deposit into a vault that has shares does not lower the assets for each share.
pub deposit-IsNotDiluted :
    (c c' : MockVaultClient) (caller : String) (S A : ℕ) (n min s : ℤ)
    → 0 < S
    → c.total_shares ≡ pos S
    → c.total_assets_amount ≡ pos A
    → deposit c caller n min ≡ (c', answered (amount s))
    → IsNotDiluted c c'
deposit-IsNotDiluted c c' caller S A n min s pS eS eA h =
    let d = deposit-Deposited c c' caller S A n min s pS eS eA h in
    let b = d.x * S / A in
    rw (d.total_shares, d.total_assets, eS, eA, pos_*ℤ A (S + b), pos_*ℤ (A + d.x) S)
      (omega (arith, div-mul-le_self (d.x * S) A))

pos_-ℤ : (a b : ℕ) → b ≤ a → pos a -ℤ pos b ≡ pos (a - b)
unfolding ◌-ℤ◌
pos_-ℤ a b h = ground arith

not_diluted : (u v w t S A : ℕ) → S ≡ u + w → A ≡ v + t → t * S ≤ w * A → A * u ≤ v * S
not_diluted u v w t S A eS eA h =
    let paid : t * (u + w) ≤ w * (v + t) = rw (← eS, ← eA) h in rw (eS, eA) (omega (arith, paid))

paid_at_most : (w S A : ℕ) → w ≤ S → w * A / S ≤ A
paid_at_most w S A h = div-le_of_le-mul S (mul-le-mul_right A h)

covered :
    (c c' : MockVaultClient) (caller : String) (S : ℕ) (n min t : ℤ) (w : ℕ)
    → share_balance c caller ≤ℤ c.total_shares
    → c.total_shares ≡ pos S
    → n ≡ pos w
    → withdraw c caller n min ≡ (c', answered (amount t))
    → w ≤ S
unfolding withdraw
covered c c' caller S n min t w held eS en h =
    elim (Bool-cases (ltb_ℤ (share_balance c caller) n)) [
      | inl low ↦ absurd (ground arith)
      | inr enough ↦ ground arith
    ]

-- A withdrawal by a caller who holds at most all shares does not lower the assets for each share
-- that is left.
pub withdraw-IsNotDiluted :
    (c c' : MockVaultClient) (caller : String) (S A : ℕ) (n min t : ℤ)
    → share_balance c caller ≤ℤ c.total_shares
    → c.total_shares ≡ pos S
    → c.total_assets_amount ≡ pos A
    → withdraw c caller n min ≡ (c', answered (amount t))
    → IsNotDiluted c c'
withdraw-IsNotDiluted c c' caller S A n min t held eS eA h =
    let x = withdraw-Withdrawn c c' caller S A n min t eS eA h in
    let at_most : x.w ≤ S = covered c c' caller S n min t x.w held eS x.burned h in
    let p = x.w * A / S in
    let most = paid_at_most x.w S A at_most in
    let shares = x.total_shares ∙ pos_-ℤ S x.w at_most in
    let assets = x.total_assets ∙ pos_-ℤ A p most in
    rw (shares, assets, eS, eA, pos_*ℤ A (S - x.w), pos_*ℤ (A - p) S)
      (omega (
        arith,
        not_diluted (S - x.w) (A - p) x.w p S A (omega arith) (omega (arith, most))
            (div-mul-le_self (x.w * A) S),
      ))

-- What a withdrawal pays out is what `calculateRewards` promises for the shares.
pub calculate_rewards-withdraw :
    (c c' : MockVaultClient) (caller : String) (n min t : ℤ)
    → withdraw c caller n min ≡ (c', answered (amount t))
    → calculate_rewards c n ≡ some t
unfolding withdraw calculate_rewards
calculate_rewards-withdraw c c' caller n min t h =
    elim (Option-cases (quotient (n *ℤ c.total_assets_amount) c.total_shares)) [
      | inl e ↦ absurd (ground arith)
      | inr (q, e) ↦ ground arith
    ]
