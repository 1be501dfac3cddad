-- ===== src/Indexer/Aggregates/Refinement.antt =====
-- The holder table of indexer/src/aggregates.ts against the in-memory fold of indexer/src/ledger.ts.
use bc_forge.Common.{
  ◌≡◌, refl, true, Option, none, some, List, [], ◌∷◌, String, arith, Option-cases, Bool-cases, inl,
  inr, is_some, map, All, ℕ,
}
use bc_forge.Common.Int.{ℤ, pos, ◌+ℤ◌, ◌==ℤ◌}
use bc_forge.Common.Decimal.{Text, parse-format}
use bc_forge.Common.Dict.{Dict, lookup, lookup-insert, lookup-erase}
use bc_forge.Indexer.Ledger.{
  LedgerEvent, LedgerState, to_big_int, from_big_int, apply_delta, apply_deltas, apply_ledger_event,
  fold_from, fold_ledger_events, empty_ledger_state,
}
use bc_forge.Indexer.Ledger.Balances.{balance, lookup-apply_delta, apply_ledger_event-Applied}
use bc_forge.Indexer.Aggregates.{
  HolderRow, SupplyPoint, AggregateStore, ApplyAggregatesOptions, stored_balance, write_holder,
  supply_point, apply_holder_delta, apply_holder_deltas, find_latest, stored_supply, shifted_supply,
  resolve_supply, append_supply_point, apply_ledger_event_aggregates, apply_stream,
}

-- A row stands for a balance, a missing row for none.
abbrev pub Agrees : Option HolderRow → Option ℤ → Type 0
Agrees none none = Unit
Agrees (some row) (some v) = to_big_int row.balance ≡ some v
Agrees _ _ = ⊥

abbrev pub Represents : Dict HolderRow → Dict ℤ → Type 0
Represents h b = (a : String) → Agrees (lookup a h) (lookup a b)

pub to_big_int-from_big_int : (v : ℤ) → to_big_int (from_big_int v) ≡ some v
unfolding to_big_int from_big_int
to_big_int-from_big_int v = parse-format v

stored_balance-Agrees :
    (r : Option HolderRow) (v : Option ℤ)
    → Agrees r v
    → stored_balance r ≡ some (elim v [ none ↦ pos 0 | some w ↦ w ])
unfolding stored_balance
stored_balance-Agrees none none h = refl
stored_balance-Agrees (some row) (some v) h = h
stored_balance-Agrees none (some v) h = absurd h
stored_balance-Agrees (some row) none h = absurd h

write_holder-Represents :
    (n : ℕ) (address : String) (d : ℤ) (h : Dict HolderRow) (b : Dict ℤ)
    → Represents h b
    → Represents (write_holder n address (balance address b +ℤ d) h) (apply_delta address d b)
unfolding write_holder
write_holder-Represents n address d h b r a =
    let v = balance address b +ℤ d in
    let row : HolderRow = record { balance = from_big_int v; ledger = n } in
    rw (lookup-apply_delta address d b a) (
      ground (
        arith,
        r a,
        lookup-insert address a row h,
        lookup-erase address a h,
        to_big_int-from_big_int v,
      ))

apply_holder_delta-Represents :
    (n : ℕ) (address : String) (d : ℤ) (h : Dict HolderRow) (b : Dict ℤ)
    → Represents h b
    → (h' : Dict HolderRow) × (apply_holder_delta n address d h ≡ some h')
      × Represents h' (apply_delta address d b)
unfolding apply_holder_delta
apply_holder_delta-Represents n address d h b r = (
  write_holder n address (balance address b +ℤ d) h,
  rw (stored_balance-Agrees (lookup address h) (lookup address b) (r address)),
  write_holder-Represents n address d h b r,
)

pub apply_holder_deltas-Represents :
    (n : ℕ) (ds : List (String × ℤ)) (h : Dict HolderRow) (b : Dict ℤ)
    → Represents h b
    → (h' : Dict HolderRow) × (apply_holder_deltas n ds h ≡ some h')
      × Represents h' (apply_deltas ds b)
unfolding apply_holder_deltas apply_deltas
apply_holder_deltas-Represents n [] h b r = (h, refl, r)
apply_holder_deltas-Represents n ((address, d) ∷ ds) h b r =
    let (mid, e, q) = apply_holder_delta-Represents n address d h b r in
    let (h', e', q') = apply_holder_deltas-Represents n ds mid (apply_delta address d b) q in
    (h', rw e e', q')

-- Every stored supply, and every supply that an event brings, is a decimal text.
abbrev pub IsReadable : Text → Type 0
IsReadable s = is_some (to_big_int s) ≡ true

abbrev pub IsReadableIfAny : Option Text → Type 0
IsReadableIfAny none = Unit
IsReadableIfAny (some s) = IsReadable s

abbrev pub HasReadableSupply : ApplyAggregatesOptions → Type 0
HasReadableSupply o = IsReadableIfAny o.new_supply

abbrev pub HasReadablePoints : List SupplyPoint → Type 0
HasReadablePoints ps = All (λ p. IsReadable p.supply) ps

find_latest-IsReadable :
    (ps : List SupplyPoint) (p : SupplyPoint)
    → HasReadablePoints ps
    → find_latest ps ≡ some p
    → IsReadable p.supply
unfolding find_latest
find_latest-IsReadable [] p h e = cc
find_latest-IsReadable (q ∷ ps) p h e = elim (Option-cases (find_latest ps)) [
  | inl missing ↦ let same : q ≡ p = ground arith in rw (← same) h.0
  | inr (l, found) ↦ ground (arith, find_latest-IsReadable ps l h.1 found)
]

-- The latest stored supply is read.
stored_supply_total :
    (ps : List SupplyPoint)
    → HasReadablePoints ps
    → (v : ℤ) × (stored_supply (find_latest ps) ≡ some v)
unfolding stored_supply
stored_supply_total ps h = elim (Option-cases (find_latest ps)) [
  | inl missing ↦ (pos 0, rw missing)
  | inr (p, found) ↦ elim (Option-cases (to_big_int p.supply)) [
    | inl bad ↦ absurd (ground (arith, find_latest-IsReadable ps p h found))
    | inr (v, e) ↦ (v, rw (found, e))
  ]
]

shifted_supply_total :
    (ps : List SupplyPoint) (d : ℤ)
    → HasReadablePoints ps
    → (s : Text) × (shifted_supply ps d ≡ some s) × IsReadable s
unfolding shifted_supply
shifted_supply_total ps d h =
    let (v, e) = stored_supply_total ps h in
    (from_big_int (v +ℤ d), rw e, rw (to_big_int-from_big_int (v +ℤ d)))

resolve_supply_total :
    (ps : List SupplyPoint) (d : ℤ) (new : Option Text)
    → HasReadablePoints ps
    → IsReadableIfAny new
    → (s : Text) × (resolve_supply ps d new ≡ some s) × IsReadable s
unfolding resolve_supply
resolve_supply_total ps d none h k = shifted_supply_total ps d h
resolve_supply_total ps d (some []) h k = shifted_supply_total ps d h
resolve_supply_total ps d (some (c ∷ s)) h k = (c ∷ s, refl, k)

append_supply_point_total :
    (ps : List SupplyPoint) (d : ℤ) (o : ApplyAggregatesOptions)
    → HasReadablePoints ps
    → HasReadableSupply o
    → (ps' : List SupplyPoint) × (append_supply_point ps d o ≡ some ps') × HasReadablePoints ps'
unfolding append_supply_point
append_supply_point_total ps d o h k = elim (Bool-cases (d ==ℤ pos 0)) [
  | inl z ↦ (ps, rw z, h)
  | inr z ↦
      let (s, e, r) = resolve_supply_total ps d o.new_supply h k in
      (supply_point o s ∷ ps, rw (z, e), (r, h))
]

-- The tables stand for the in-memory state, and every stored supply is read.
pub record Refines (store : AggregateStore) (st : LedgerState) : Type 0 where
  pub holders : Represents store.holders st.balances
  pub points : HasReadablePoints store.supply_points

-- One event: where the fold succeeds, so does the transaction, and the tables follow.
pub apply_ledger_event_aggregates-Refines :
    (store : AggregateStore) (st st' : LedgerState) (e : LedgerEvent) (o : ApplyAggregatesOptions)
    → Refines store st
    → HasReadableSupply o
    → apply_ledger_event st e ≡ some st'
    → (store' : AggregateStore) × (apply_ledger_event_aggregates store e o ≡ some store')
      × Refines store' st'
unfolding apply_ledger_event_aggregates
apply_ledger_event_aggregates-Refines store st st' e o r k h =
    let p = apply_ledger_event-Applied st e st' h in
    let (holders, eh, rh) =
      apply_holder_deltas-Represents o.ledger p.ds store.holders st.balances r.holders in
    let (points, ep, rp) = append_supply_point_total store.supply_points p.d o r.points k in
    (
      record { holders = holders; supply_points = points },
      rw (p.deltas, eh, p.supplied, ep),
      record { holders = rw p.balances rh; points = rp },
    )

apply_stream-Refines :
    (es : List (LedgerEvent × ApplyAggregatesOptions)) (store : AggregateStore)
    (st st' : LedgerState)
    → Refines store st
    → All (λ p. HasReadableSupply p.1) es
    → fold_from st (map (λ p. p.0) es) ≡ some st'
    → (store' : AggregateStore) × (apply_stream store es ≡ some store') × Refines store' st'
unfolding fold_from apply_stream
apply_stream-Refines [] store st st' r k h =
    (store, refl, let same : st ≡ st' = cc in rw (← same) r)
apply_stream-Refines ((e, o) ∷ es) store st st' r k h =
    elim (Option-cases (apply_ledger_event st e)) [
      | inl p ↦ absurd (ground arith)
      | inr (mid, p) ↦
          let (store', e', r') = apply_ledger_event_aggregates-Refines store st mid e o r k.0 p in
          let (last, e'', r'') = apply_stream-Refines es store' mid st' r' k.1 (ground arith) in
          (last, rw e' e'', r'')
    ]

abbrev pub empty_store : AggregateStore
empty_store = record { holders = []; supply_points = [] }

-- From empty tables, every stream that `foldLedgerEvents` accepts, with readable supplies, is
-- ingested without an error, and the holder table then has for each address exactly the balance
-- that the fold derives, and no row where the fold has no entry.
pub apply_stream-Represents :
    (es : List (LedgerEvent × ApplyAggregatesOptions)) (st : LedgerState)
    → All (λ p. HasReadableSupply p.1) es
    → fold_ledger_events (map (λ p. p.0) es) ≡ some st
    → (store : AggregateStore) × (apply_stream empty_store es ≡ some store)
      × Represents store.holders st.balances
unfolding fold_ledger_events
apply_stream-Represents es st k h =
    let (store, e, r) =
      apply_stream-Refines es empty_store empty_ledger_state st
        (record { holders = λ a. tt; points = tt }) k h in
    (store, e, r.holders)
