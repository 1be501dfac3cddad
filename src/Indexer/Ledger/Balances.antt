-- ===== src/Indexer/Ledger/Balances.antt =====
-- The balances of a fold of indexer/src/ledger.ts, by what each address received and sent.
use bc_forge.Common.{
  ◌≡◌, refl, Option, none, some, List, [], ◌∷◌, String, arith, eq_iff, if◌then◌else◌, ◌===◌,
  Option-cases, inl, inr, ap, ◌∙◌,
}
use bc_forge.Common.Int.{ℤ, pos_part, neg_part, pos, ◌+ℤ◌, ◌-ℤ◌, ◌==ℤ◌, int_laws, ==ℤ_iff}
use bc_forge.Common.Dict.{Dict, lookup, get_or, lookup-insert, lookup-erase}
use bc_forge.Common.Decimal.{Text}
use bc_forge.Indexer.Ledger.{
  LedgerEvent, LedgerState, mint, transfer, burn, to_big_int, deltas_for, supply_delta_for,
  apply_delta, apply_deltas, apply_ledger_event, fold_from, fold_ledger_events, empty_ledger_state,
}

-- The value of an amount; a fold that succeeds has read them all.
abbrev pub amount_value : Text → ℤ
amount_value amount = elim (to_big_int amount) [ none ↦ pos 0 | some v ↦ v ]

-- What one event credits to an address, and what it debits from it.
abbrev pub credit : String → LedgerEvent → ℤ
credit a (mint to n) = if to === a then amount_value n else pos 0
credit a (burn _ _) = pos 0
credit a (transfer _ to n) = if to === a then amount_value n else pos 0

abbrev pub debit : String → LedgerEvent → ℤ
debit a (mint _ _) = pos 0
debit a (burn from n) = if from === a then amount_value n else pos 0
debit a (transfer from _ n) = if from === a then amount_value n else pos 0

abbrev pub received : String → List LedgerEvent → ℤ
received a [] = pos 0
received a (e ∷ es) = credit a e +ℤ received a es

abbrev pub sent : String → List LedgerEvent → ℤ
sent a [] = pos 0
sent a (e ∷ es) = debit a e +ℤ sent a es

-- The entry of a balance: none for zero.
abbrev pub holding : ℤ → Option ℤ
holding v = if v ==ℤ pos 0 then none else some v

abbrev pub balance : String → Dict ℤ → ℤ
balance a b = get_or (pos 0) a b

pub lookup-apply_delta :
    (address : String) (delta : ℤ) (b : Dict ℤ) (a : String)
    → lookup a (apply_delta address delta b)
      ≡ (if address === a then holding (balance address b +ℤ delta) else lookup a b)
unfolding apply_delta
lookup-apply_delta address delta b a =
    ground (arith, lookup-insert address a (balance address b +ℤ delta) b, lookup-erase address a b)

pub balance_of-holding : (v : ℤ) → elim (holding v) [ none ↦ pos 0 | some w ↦ w ] ≡ v
balance_of-holding v = ground (arith, ==ℤ_iff v (pos 0))

pub balance-apply_delta :
    (address : String) (delta : ℤ) (b : Dict ℤ) (a : String)
    → balance a (apply_delta address delta b)
      ≡ balance a b +ℤ (if address === a then delta else pos 0)
balance-apply_delta address delta b a = grind (
  int_laws,
  lookup-apply_delta address delta b a,
  balance_of-holding (balance address b +ℤ delta),
  eq_iff address a,
)

-- The sum of the changes of one address.
abbrev change : String → List (String × ℤ) → ℤ
change a [] = pos 0
change a ((address, delta) ∷ ds) = (if address === a then delta else pos 0) +ℤ change a ds

balance-apply_deltas :
    (ds : List (String × ℤ)) (b : Dict ℤ) (a : String)
    → balance a (apply_deltas ds b) ≡ balance a b +ℤ change a ds
unfolding apply_deltas
balance-apply_deltas [] b a = omega int_laws
balance-apply_deltas ((address, delta) ∷ ds) b a =
    rw
      (
        balance-apply_deltas ds (apply_delta address delta b) a,
        balance-apply_delta address delta b a,
      )
      (omega int_laws)

change-deltas_for :
    (e : LedgerEvent) (ds : List (String × ℤ)) (a : String)
    → deltas_for e ≡ some ds
    → change a ds +ℤ debit a e ≡ credit a e
unfolding deltas_for
change-deltas_for (mint to n) ds a h = elim (Option-cases (to_big_int n)) [
  | inl e ↦ ground arith
  | inr (v, e) ↦ grind int_laws
]
change-deltas_for (burn from n) ds a h = elim (Option-cases (to_big_int n)) [
  | inl e ↦ ground arith
  | inr (v, e) ↦ grind int_laws
]
change-deltas_for (transfer from to n) ds a h = elim (Option-cases (to_big_int n)) [
  | inl e ↦ ground arith
  | inr (v, e) ↦ grind int_laws
]

-- What a successful event did.
pub record Applied (st : LedgerState) (e : LedgerEvent) (st' : LedgerState) : Type 0 where
  pub ds : List (String × ℤ)
  pub d : ℤ
  pub deltas : deltas_for e ≡ some ds
  pub supplied : supply_delta_for e ≡ some d
  pub balances : st'.balances ≡ apply_deltas ds st.balances
  pub supply : st'.supply ≡ st.supply +ℤ d

pub apply_ledger_event-Applied :
    (st : LedgerState) (e : LedgerEvent) (st' : LedgerState)
    → apply_ledger_event st e ≡ some st'
    → Applied st e st'
unfolding apply_ledger_event
apply_ledger_event-Applied st e st' h = elim (Option-cases (deltas_for e)) [
  | inl p ↦ absurd (ground arith)
  | inr (ds, p) ↦ elim (Option-cases (supply_delta_for e)) [
    | inl q ↦ absurd (ground arith)
    | inr (d, q) ↦ record {
      ds = ds;
      d = d;
      deltas = p;
      supplied = q;
      balances = ground arith;
      supply = ground arith;
    }
  ]
]

-- No entry is zero.
abbrev pub IsNonzero : Dict ℤ → Type 0
IsNonzero b = (a : String) → lookup a b ≡ holding (balance a b)

apply_delta-IsNonzero :
    (address : String) (delta : ℤ) (b : Dict ℤ)
    → IsNonzero b
    → IsNonzero (apply_delta address delta b)
apply_delta-IsNonzero address delta b h a = ground (
  arith,
  h a,
  lookup-apply_delta address delta b a,
  balance_of-holding (balance address b +ℤ delta),
)

apply_deltas-IsNonzero :
    (ds : List (String × ℤ)) (b : Dict ℤ) → IsNonzero b → IsNonzero (apply_deltas ds b)
unfolding apply_deltas
apply_deltas-IsNonzero [] b h = h
apply_deltas-IsNonzero ((address, delta) ∷ ds) b h =
    apply_deltas-IsNonzero ds _ (apply_delta-IsNonzero address delta b h)

-- A successful event moves each balance by its credit less its debit.
pub balance-apply_ledger_event :
    (st : LedgerState) (e : LedgerEvent) (st' : LedgerState) (a : String)
    → apply_ledger_event st e ≡ some st'
    → balance a st'.balances +ℤ debit a e ≡ balance a st.balances +ℤ credit a e
balance-apply_ledger_event st e st' a h =
    let p = apply_ledger_event-Applied st e st' h in
    rw (p.balances, balance-apply_deltas p.ds st.balances a, ← change-deltas_for e p.ds a p.deltas)
      (omega int_laws)

fold_from-balance :
    (es : List LedgerEvent) (st st' : LedgerState) (a : String)
    → fold_from st es ≡ some st'
    → IsNonzero st.balances
    → IsNonzero st'.balances
      × (balance a st'.balances +ℤ sent a es ≡ balance a st.balances +ℤ received a es)
unfolding fold_from
fold_from-balance [] st st' a h k = grind int_laws
fold_from-balance (e ∷ es) st st' a h k = elim (Option-cases (apply_ledger_event st e)) [
  | inl p ↦ absurd (ground arith)
  | inr (mid, p) ↦
      let applied = apply_ledger_event-Applied st e mid p in
      let ih =
        fold_from-balance es mid st' a (ground arith)
          (rw applied.balances (apply_deltas-IsNonzero applied.ds st.balances k)) in
      (
        ih.0,
        omega (
          int_laws,
          ap pos_part ih.1,
          ap neg_part ih.1,
          ap pos_part (balance-apply_ledger_event st e mid a p),
          ap neg_part (balance-apply_ledger_event st e mid a p),
        ),
      )
]

-- After a fold that reads every amount, the entry of an address is what it received less what it
-- sent, and it has no entry exactly when these are equal.
pub lookup-fold_ledger_events :
    (es : List LedgerEvent) (st : LedgerState) (a : String)
    → fold_ledger_events es ≡ some st
    → lookup a st.balances ≡ holding (received a es -ℤ sent a es)
unfolding fold_ledger_events
lookup-fold_ledger_events es st a h =
    let (nonzero, moved) = fold_from-balance es empty_ledger_state st a h (λ b. refl) in
    let e : balance a st.balances ≡ received a es -ℤ sent a es =
      omega (int_laws, ap pos_part moved, ap neg_part moved) in
    nonzero a ∙ ap holding e
