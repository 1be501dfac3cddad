-- ===== src/Indexer/Cursor/Chain.antt =====
-- What the parent-chain test of a range of ledgers means.
use bc_forge.Common.{
  ℕ, zero, suc, ◌+◌, ◌≡◌, refl, ◌↔◌, true, Option, none, some, List, [], ◌∷◌, arith, eq_iff,
  Bool-cases, inl, inr,
}
use bc_forge.Indexer.Database.{LedgerCoordinate}
use bc_forge.Indexer.Cursor.{follows, has_continuous_parent_chain}

abbrev pub get_elem? : List LedgerCoordinate → ℕ → Option LedgerCoordinate
get_elem? [] i = none
get_elem? (x ∷ xs) zero = some x
get_elem? (x ∷ xs) (suc i) = get_elem? xs i

-- A ledger is one above its parent and names the parent's hash.
pub record Follows (parent l : LedgerCoordinate) : Type 0 where
  pub next : l.ledger ≡ parent.ledger + 1
  pub linked : l.parent_hash ≡ parent.hash

-- Two neighbours of a range; at its end there is nothing to compare.
abbrev pub LinkedAt : Option LedgerCoordinate → Option LedgerCoordinate → Type 0
LinkedAt (some parent) (some l) = Follows parent l
LinkedAt _ _ = Unit

-- Every two neighbours are linked.
abbrev pub IsLinked : List LedgerCoordinate → Type 0
IsLinked ls = (i : ℕ) → LinkedAt (get_elem? ls i) (get_elem? ls (suc i))

abbrev pub with_previous : Option LedgerCoordinate → List LedgerCoordinate → List LedgerCoordinate
with_previous none ls = ls
with_previous (some p) ls = p ∷ ls

follows_iff : (p l : LedgerCoordinate) → (follows p l ≡ true) ↔ Follows p l
follows_iff p l = ground (arith, eq_iff l.parent_hash p.hash)

IsLinked-step :
    (p l : LedgerCoordinate) (ls : List LedgerCoordinate)
    → Follows p l
    → IsLinked (l ∷ ls)
    → IsLinked (p ∷ l ∷ ls)
IsLinked-step p l ls f h zero = f
IsLinked-step p l ls f h (suc i) = h i

no_second : (p : LedgerCoordinate) → IsLinked (p ∷ [])
no_second p zero = tt
no_second p (suc i) = tt

-- The test accepts a range exactly when every two neighbours of it, the previous ledger put in
-- front where there is one, are linked: numbers rise by one and parent hashes match.
pub has_continuous_parent_chain_iff :
    (ls : List LedgerCoordinate) (previous : Option LedgerCoordinate)
    → (has_continuous_parent_chain ls previous ≡ true) ↔ IsLinked (with_previous previous ls)
unfolding has_continuous_parent_chain
has_continuous_parent_chain_iff [] none = (λ _ i. tt, λ _. refl)
has_continuous_parent_chain_iff [] (some p) = (λ _. no_second p, λ _. refl)
has_continuous_parent_chain_iff (l ∷ ls) none = has_continuous_parent_chain_iff ls (some l)
has_continuous_parent_chain_iff (l ∷ ls) (some p) =
    let (sound, complete) = has_continuous_parent_chain_iff ls (some l) in
    elim (Bool-cases (follows p l)) [
      | inl linked ↦ (
        λ h. IsLinked-step p l ls ((follows_iff p l).0 linked) (sound (rw linked at h)),
        λ h. rw linked (complete (λ i. h (suc i))),
      )
      | inr broken ↦
          (λ h. absurd (ground arith), λ h. absurd (ground (arith, (follows_iff p l).1 (h 0))))
    ]

-- In a linked range the number at each position is the first number plus the position.
pub IsLinked-ledger :
    (ls : List LedgerCoordinate) (i : ℕ) (first l : LedgerCoordinate)
    → IsLinked ls
    → get_elem? ls 0 ≡ some first
    → get_elem? ls i ≡ some l
    → l.ledger ≡ first.ledger + i
IsLinked-ledger [] i first l h e0 e = absurd (ground arith)
IsLinked-ledger (x ∷ xs) zero first l h e0 e = ground arith
IsLinked-ledger (x ∷ []) (suc i) first l h e0 e = absurd (ground arith)
IsLinked-ledger (x ∷ y ∷ ys) (suc i) first l h e0 e =
    let tail = IsLinked-ledger (y ∷ ys) i y l (λ j. h (suc j)) refl e in
    let step : Follows x y = h 0 in
    let same : x ≡ first = cc in rw (← same) (omega (arith, tail, step.next))
