-- ===== src/Indexer/Aggregates.antt =====
-- The persisted aggregates of indexer/src/aggregates.ts: holder balances and supply points. The
-- database is a state that is passed on; `none` is a throw, after which the caller's transaction
-- rolls back. A row id that the database draws is an argument: the `uuid` of a supply point, as a
-- number in the order in which the database sorts ids.
pub mod Refinement
pub mod SupplyPoints
use bc_forge.Common.{
  ℕ, ◌≡◌, Bool, true, Option, none, some, List, [], ◌∷◌, String, if◌then◌else◌, ◌>>=◌, ◌==◌, ltb,
  ◌&&◌, ◌||◌,
}
use bc_forge.Common.Int.{ℤ, pos, ◌+ℤ◌, ◌==ℤ◌}
use bc_forge.Common.Dict.{Dict, lookup, insert, erase}
use bc_forge.Common.Decimal.{Text}
use bc_forge.Indexer.Ledger.{LedgerEvent, to_big_int, from_big_int, deltas_for, supply_delta_for}

pub record HolderRow : Type 0 where
  pub balance : Text
  pub ledger : ℕ

pub record SupplyPoint : Type 0 where
  pub id : ℕ
  pub timestamp : ℕ
  pub supply : Text
  pub ledger : ℕ
  pub tx_hash : String

-- `AggregateStore`
pub record AggregateStore : Type 0 where
  pub holders : Dict HolderRow
  pub supply_points : List SupplyPoint

-- `ApplyAggregatesOptions`, and the id of the supply point that may be created.
pub record ApplyAggregatesOptions : Type 0 where
  pub ledger : ℕ
  pub tx_hash : String
  pub timestamp : ℕ
  pub new_supply : Option Text
  pub id : ℕ

-- `current ? toBigInt(current.balance) : 0n`
unfoldable pub stored_balance : Option HolderRow → Option ℤ
stored_balance none = some (pos 0)
stored_balance (some row) = to_big_int row.balance

-- The holder's row after a change: deleted at zero, else written with the ledger of the event.
unfoldable pub write_holder : ℕ → String → ℤ → Dict HolderRow → Dict HolderRow
write_holder ledger address balance holders =
    if balance ==ℤ pos 0
    then erase address holders
    else insert address (record { balance = from_big_int balance; ledger = ledger }) holders

-- One round of the loop of `applyLedgerEventAggregates`.
unfoldable pub apply_holder_delta : ℕ → String → ℤ → Dict HolderRow → Option (Dict HolderRow)
apply_holder_delta ledger address delta holders = do
  current ← stored_balance (lookup address holders)
  some (write_holder ledger address (current +ℤ delta) holders)

unfoldable pub apply_holder_deltas :
    ℕ → List (String × ℤ) → Dict HolderRow → Option (Dict HolderRow)
apply_holder_deltas ledger [] holders = some holders
apply_holder_deltas ledger ((address, delta) ∷ ds) holders = do
  next ← apply_holder_delta ledger address delta holders
  apply_holder_deltas ledger ds next

-- `orderBy: [{ ledger: 'desc' }, { id: 'desc' }]`
abbrev pub is_newer : SupplyPoint → SupplyPoint → Bool
is_newer p q = ltb q.ledger p.ledger || (p.ledger == q.ledger && ltb q.id p.id)

-- `supplyPoint.findFirst` in that order.
unfoldable pub find_latest : List SupplyPoint → Option SupplyPoint
find_latest [] = none
find_latest (p ∷ ps) = elim (find_latest ps) [
  | none ↦ some p
  | some q ↦ some (if is_newer q p then q else p)
]

unfoldable pub stored_supply : Option SupplyPoint → Option ℤ
stored_supply none = some (pos 0)
stored_supply (some p) = to_big_int p.supply

-- The latest stored supply shifted by the delta.
unfoldable pub shifted_supply : List SupplyPoint → ℤ → Option Text
unfolding stored_supply
shifted_supply points delta = do
  latest ← stored_supply (find_latest points)
  some (from_big_int (latest +ℤ delta))

-- `resolveSupply`
unfoldable pub resolve_supply : List SupplyPoint → ℤ → Option Text → Option Text
resolve_supply points delta none = shifted_supply points delta
resolve_supply points delta (some []) = shifted_supply points delta
resolve_supply points delta (some (c ∷ s)) = some (c ∷ s)

-- `supplyPoint.create`
abbrev pub supply_point : ApplyAggregatesOptions → Text → SupplyPoint
supply_point o supply = record {
  id = o.id;
  timestamp = o.timestamp;
  supply = supply;
  ledger = o.ledger;
  tx_hash = o.tx_hash;
}

-- The part of `applyLedgerEventAggregates` after the loop.
unfoldable pub append_supply_point :
    List SupplyPoint → ℤ → ApplyAggregatesOptions → Option (List SupplyPoint)
append_supply_point points delta o =
    if delta ==ℤ pos 0
    then some points
    else (resolve_supply points delta o.new_supply >>= λ s. some (supply_point o s ∷ points))

-- `applyLedgerEventAggregates`
unfoldable pub apply_ledger_event_aggregates :
    AggregateStore → LedgerEvent → ApplyAggregatesOptions → Option AggregateStore
apply_ledger_event_aggregates store event o = do
  ds ← deltas_for event
  holders ← apply_holder_deltas o.ledger ds store.holders
  delta ← supply_delta_for event
  points ← append_supply_point store.supply_points delta o
  some (record { holders = holders; supply_points = points })

-- The events of a stream, each with the data of its transaction, in the order of ingestion.
unfoldable pub apply_stream :
    AggregateStore → List (LedgerEvent × ApplyAggregatesOptions) → Option AggregateStore
apply_stream store [] = some store
apply_stream store ((event, o) ∷ es) = do
  next ← apply_ledger_event_aggregates store event o
  apply_stream next es
