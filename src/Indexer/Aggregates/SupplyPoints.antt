-- ===== src/Indexer/Aggregates/SupplyPoints.antt =====
-- The supply points: which stored point the next derived supply starts from.
use bc_forge.Common.{
  ℕ, ◌≡◌, ◌<◌, none, some, List, [], ◌∷◌, arith, Option-cases, Bool-cases, inl, inr, All,
}
use bc_forge.Common.Int.{ℤ, pos, ◌+ℤ◌, ◌==ℤ◌, ==ℤ_iff, +ℤ_zero}
use bc_forge.Indexer.Ledger.{LedgerEvent, from_big_int, supply_delta_for}
use bc_forge.Indexer.Aggregates.{
  SupplyPoint, AggregateStore, ApplyAggregatesOptions, find_latest, stored_supply, shifted_supply,
  resolve_supply, append_supply_point, apply_ledger_event_aggregates, supply_point,
}
use bc_forge.Indexer.Aggregates.Refinement.{to_big_int-from_big_int}

-- Every stored point is of an earlier ledger.
abbrev pub AreBefore : ℕ → List SupplyPoint → Type 0
AreBefore n ps = All (λ p. p.ledger < n) ps

find_latest-before :
    (n : ℕ) (ps : List SupplyPoint) (p : SupplyPoint)
    → AreBefore n ps
    → find_latest ps ≡ some p
    → p.ledger < n
unfolding find_latest
find_latest-before n [] p h e = cc
find_latest-before n (q ∷ ps) p h e = elim (Option-cases (find_latest ps)) [
  | inl missing ↦ ground arith
  | inr (l, found) ↦ ground (arith, find_latest-before n ps l h.1 found)
]

-- A point of a later ledger than all others is the latest.
find_latest_newest :
    (q : SupplyPoint) (ps : List SupplyPoint)
    → AreBefore q.ledger ps
    → find_latest (q ∷ ps) ≡ some q
unfolding find_latest
find_latest_newest q ps h = elim (Option-cases (find_latest ps)) [
  | inl missing ↦ rw missing
  | inr (l, found) ↦ ground (arith, find_latest-before q.ledger ps l h found)
]

resolve_supply_derived :
    (ps : List SupplyPoint) (d v : ℤ)
    → stored_supply (find_latest ps) ≡ some v
    → resolve_supply ps d none ≡ some (from_big_int (v +ℤ d))
unfolding resolve_supply shifted_supply
resolve_supply_derived ps d v stored = rw stored

stored_supply-append :
    (ps ps' : List SupplyPoint) (d v : ℤ) (o : ApplyAggregatesOptions)
    → AreBefore o.ledger ps
    → o.new_supply ≡ none
    → stored_supply (find_latest ps) ≡ some v
    → append_supply_point ps d o ≡ some ps'
    → stored_supply (find_latest ps') ≡ some (v +ℤ d)
unfolding append_supply_point
stored_supply-append ps ps' d v o h absent stored e = elim (Bool-cases (d ==ℤ pos 0)) [
  | inl z ↦
      let same : ps ≡ ps' = ground arith in rw (← same, (==ℤ_iff d (pos 0)).0 z, +ℤ_zero) stored
  | inr z ↦
      let point = supply_point o (from_big_int (v +ℤ d)) in
      let same : point ∷ ps ≡ ps' = ground (arith, absent, resolve_supply_derived ps d v stored) in
      rw (← same, find_latest_newest point ps h)
        (unfold stored_supply in to_big_int-from_big_int (v +ℤ d))
]

-- The points of a successful call are those that its last part gave.
pub apply-append_supply_point :
    (store store' : AggregateStore) (event : LedgerEvent) (o : ApplyAggregatesOptions) (d : ℤ)
    → supply_delta_for event ≡ some d
    → apply_ledger_event_aggregates store event o ≡ some store'
    → append_supply_point store.supply_points d o ≡ some store'.supply_points
unfolding apply_ledger_event_aggregates
apply-append_supply_point store store' event o d delta e =
    elim (Option-cases (append_supply_point store.supply_points d o)) [
      | inl p ↦ ground arith
      | inr (ps, p) ↦ ground arith
    ]

-- Without an authoritative supply, and while each supply point is of a later ledger than the ones
-- before it, the latest stored supply moves by exactly the supply change of the event.
pub stored_supply-apply :
    (store store' : AggregateStore) (event : LedgerEvent) (o : ApplyAggregatesOptions) (v d : ℤ)
    → AreBefore o.ledger store.supply_points
    → o.new_supply ≡ none
    → stored_supply (find_latest store.supply_points) ≡ some v
    → supply_delta_for event ≡ some d
    → apply_ledger_event_aggregates store event o ≡ some store'
    → stored_supply (find_latest store'.supply_points) ≡ some (v +ℤ d)
stored_supply-apply store store' event o v d h absent stored delta e =
    stored_supply-append store.supply_points store'.supply_points d v o h absent stored
      (apply-append_supply_point store store' event o d delta e)

-- Two supply points of one ledger are ordered by their random ids: while the latest point has the
-- greater id, a further event of that ledger leaves it the latest, whatever it adds or burns.
pub find_latest_same_ledger :
    (ps ps' : List SupplyPoint) (p : SupplyPoint) (d : ℤ) (o : ApplyAggregatesOptions)
    → find_latest ps ≡ some p
    → o.ledger ≡ p.ledger
    → o.id < p.id
    → append_supply_point ps d o ≡ some ps'
    → find_latest ps' ≡ some p
unfolding append_supply_point find_latest
find_latest_same_ledger ps ps' p d o found same lower e =
    elim (Option-cases (resolve_supply ps d o.new_supply)) [
      | inl p ↦ ground arith
      | inr (s, p) ↦ ground arith
    ]
