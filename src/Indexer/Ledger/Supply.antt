-- ===== src/Indexer/Ledger/Supply.antt =====
-- The supply of a fold of indexer/src/ledger.ts, and when a fold succeeds.
use bc_forge.Common.{
  ◌≡◌, refl, Bool, some, List, [], ◌∷◌, String, arith, eq_iff, ap, Option-cases, Bool-cases, inl,
  inr, is_some, all,
}
use bc_forge.Common.Int.{ℤ, pos_part, neg_part, pos, ◌+ℤ◌, ◌==ℤ◌, int_laws, ==ℤ_iff}
use bc_forge.Common.Decimal.{Text}
use bc_forge.Common.Dict.{
  Dict, insert, erase, IsUnique, insert-IsUnique, erase-IsUnique, erase_missing,
}
use bc_forge.Indexer.Ledger.{
  LedgerEvent, LedgerState, mint, transfer, burn, to_big_int, deltas_for, supply_delta_for,
  apply_delta, apply_deltas, apply_ledger_event, fold_from, fold_ledger_events, empty_ledger_state,
}
use bc_forge.Indexer.Ledger.Balances.{balance, apply_ledger_event-Applied}

-- The sum of all balances.
abbrev pub total : Dict ℤ → ℤ
total [] = pos 0
total ((_, v) ∷ b) = v +ℤ total b

total-insert :
    (k : String) (v : ℤ) (b : Dict ℤ) → total (insert k v b) +ℤ balance k b ≡ total b +ℤ v
total-insert k v [] = omega int_laws
total-insert k v ((j, w) ∷ b) = grind (int_laws, total-insert k v b)

total-erase : (k : String) (b : Dict ℤ) → IsUnique b → total (erase k b) +ℤ balance k b ≡ total b
total-erase k [] h = omega int_laws
total-erase k ((j, w) ∷ b) h = grind (int_laws, total-erase k b h.1, erase_missing k b, eq_iff j k)

total-apply_delta :
    (k : String) (d : ℤ) (b : Dict ℤ) → IsUnique b → total (apply_delta k d b) ≡ total b +ℤ d
unfolding apply_delta
total-apply_delta k d b h = elim (Bool-cases (balance k b +ℤ d ==ℤ pos 0)) [
  | inl z ↦
      let zero_sum = (==ℤ_iff (balance k b +ℤ d) (pos 0)).0 z in
      let erased = total-erase k b h in
      rw z (
        omega (
          int_laws,
          ap pos_part zero_sum,
          ap neg_part zero_sum,
          ap pos_part erased,
          ap neg_part erased,
        ))
  | inr z ↦
      let written = total-insert k (balance k b +ℤ d) b in
      rw z (omega (int_laws, ap pos_part written, ap neg_part written))
]

apply_delta-IsUnique : (k : String) (d : ℤ) (b : Dict ℤ) → IsUnique b → IsUnique (apply_delta k d b)
unfolding apply_delta
apply_delta-IsUnique k d b h =
    ground (arith, insert-IsUnique k (balance k b +ℤ d) b h, erase-IsUnique k b h)

-- The sum of the changes.
abbrev sum : List (String × ℤ) → ℤ
sum [] = pos 0
sum ((_, d) ∷ ds) = d +ℤ sum ds

total-apply_deltas :
    (ds : List (String × ℤ)) (b : Dict ℤ)
    → IsUnique b
    → (total (apply_deltas ds b) ≡ total b +ℤ sum ds) × IsUnique (apply_deltas ds b)
unfolding apply_deltas
total-apply_deltas [] b h = (omega int_laws, h)
total-apply_deltas ((k, d) ∷ ds) b h =
    let (e, u) = total-apply_deltas ds (apply_delta k d b) (apply_delta-IsUnique k d b h) in
    (rw (e, total-apply_delta k d b h) (omega int_laws), u)

sum-deltas_for :
    (e : LedgerEvent) (ds : List (String × ℤ)) (d : ℤ)
    → deltas_for e ≡ some ds
    → supply_delta_for e ≡ some d
    → sum ds ≡ d
unfolding deltas_for supply_delta_for
sum-deltas_for (mint to n) ds d h k = elim (Option-cases (to_big_int n)) [
  | inl e ↦ ground arith
  | inr (v, e) ↦ grind int_laws
]
sum-deltas_for (burn from n) ds d h k = elim (Option-cases (to_big_int n)) [
  | inl e ↦ ground arith
  | inr (v, e) ↦ grind int_laws
]
sum-deltas_for (transfer from to n) ds d h k = elim (Option-cases (to_big_int n)) [
  | inl e ↦ ground arith
  | inr (v, e) ↦ grind int_laws
]

-- The keys are distinct and the supply is the sum of the balances.
pub record IsBalanced (st : LedgerState) : Type 0 where
  pub unique : IsUnique st.balances
  pub supplied : st.supply ≡ total st.balances

pub apply_ledger_event-IsBalanced :
    (st : LedgerState) (e : LedgerEvent) (st' : LedgerState)
    → apply_ledger_event st e ≡ some st'
    → IsBalanced st
    → IsBalanced st'
apply_ledger_event-IsBalanced st e st' h k =
    let p = apply_ledger_event-Applied st e st' h in
    let (t, u) = total-apply_deltas p.ds st.balances k.unique in
    record {
      unique = rw p.balances u;
      supplied =
          rw (p.supply, p.balances, t, k.supplied, sum-deltas_for e p.ds p.d p.deltas p.supplied);
    }

fold_from-IsBalanced :
    (es : List LedgerEvent) (st st' : LedgerState)
    → fold_from st es ≡ some st'
    → IsBalanced st
    → IsBalanced st'
unfolding fold_from
fold_from-IsBalanced [] st st' h k = let e : st ≡ st' = cc in rw (← e) k
fold_from-IsBalanced (e ∷ es) st st' h k = elim (Option-cases (apply_ledger_event st e)) [
  | inl p ↦ absurd (ground arith)
  | inr (mid, p) ↦
      fold_from-IsBalanced es mid st' (ground arith) (apply_ledger_event-IsBalanced st e mid p k)
]

-- Whatever the events, the derived supply is the sum of the derived balances.
pub fold_ledger_events-IsBalanced :
    (es : List LedgerEvent) (st : LedgerState)
    → fold_ledger_events es ≡ some st
    → st.supply ≡ total st.balances
unfolding fold_ledger_events
fold_ledger_events-IsBalanced es st h =
    (fold_from-IsBalanced es empty_ledger_state st h
      (record { unique = tt; supplied = refl })).supplied

abbrev amount_of : LedgerEvent → Text
amount_of (mint _ n) = n
amount_of (transfer _ _ n) = n
amount_of (burn _ n) = n

-- `BigInt` reads the amount of the event.
abbrev pub is_readable : LedgerEvent → Bool
is_readable e = is_some (to_big_int (amount_of e))

apply_ledger_event_total :
    (st : LedgerState) (e : LedgerEvent) → is_some (apply_ledger_event st e) ≡ is_readable e
unfolding apply_ledger_event deltas_for supply_delta_for
apply_ledger_event_total st (mint to n) = ground arith
apply_ledger_event_total st (burn from n) = ground arith
apply_ledger_event_total st (transfer from to n) = ground arith

fold_from_total :
    (es : List LedgerEvent) (st : LedgerState) → is_some (fold_from st es) ≡ all is_readable es
unfolding fold_from
fold_from_total [] st = refl
fold_from_total (e ∷ es) st = elim (Option-cases (apply_ledger_event st e)) [
  | inl p ↦ ground (arith, apply_ledger_event_total st e)
  | inr (mid, p) ↦ ground (arith, apply_ledger_event_total st e, fold_from_total es mid)
]

-- A fold gives a state exactly when `BigInt` reads every amount.
pub fold_ledger_events_total :
    (es : List LedgerEvent) → is_some (fold_ledger_events es) ≡ all is_readable es
unfolding fold_ledger_events
fold_ledger_events_total es = fold_from_total es empty_ledger_state
