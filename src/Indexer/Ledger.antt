-- ===== src/Indexer/Ledger.antt =====
-- The ledger arithmetic of indexer/src/ledger.ts. A `bigint` is ℤ, an amount a decimal text, and a
-- call that throws (an amount that `BigInt` refuses) is `none`. `BigInt` is read for an optional
-- sign and decimal digits, which is what `toString` of a `bigint` stores in events and rows.
pub mod Balances
pub mod Supply
use bc_forge.Common.{
  ℕ, ◌≡◌, Bool, true, false, Option, none, some, List, [], ◌∷◌, String, if◌then◌else◌, ◌>>=◌,
}
use bc_forge.Common.Int.{ℤ, pos, ◌+ℤ◌, neg, ◌==ℤ◌}
use bc_forge.Common.Dict.{Dict, insert, erase, get_or}
use bc_forge.Common.Decimal.{Text, parse, format}

pub data LedgerEvent : Type 0 where
  mint : String → Text → LedgerEvent
  transfer : String → String → Text → LedgerEvent
  burn : String → Text → LedgerEvent

pub record LedgerState : Type 0 where
  pub balances : Dict ℤ
  pub supply : ℤ

-- `toBigInt`
unfoldable pub to_big_int : Text → Option ℤ
to_big_int amount = parse amount

-- `fromBigInt`
unfoldable pub from_big_int : ℤ → Text
from_big_int value = format value

-- `deltasFor`: the signed changes, in the order in which they are applied.
unfoldable pub deltas_for : LedgerEvent → Option (List (String × ℤ))
deltas_for (mint to amount) = do v ← to_big_int amount; some ((to, v) ∷ [])
deltas_for (burn from amount) = do v ← to_big_int amount; some ((from, neg v) ∷ [])
deltas_for (transfer from to amount) = do v ← to_big_int amount; some ((from, neg v) ∷ (to, v) ∷ [])

-- `supplyDeltaFor`
unfoldable pub supply_delta_for : LedgerEvent → Option ℤ
supply_delta_for (mint _ amount) = to_big_int amount
supply_delta_for (burn _ amount) = do v ← to_big_int amount; some (neg v)
supply_delta_for (transfer _ _ _) = some (pos 0)

-- `emptyLedgerState`
abbrev pub empty_ledger_state : LedgerState
empty_ledger_state = record { balances = []; supply = pos 0 }

-- One round of the loop of `applyLedgerEvent`: a balance of zero is removed.
unfoldable pub apply_delta : String → ℤ → Dict ℤ → Dict ℤ
apply_delta address delta balances =
    let next = get_or (pos 0) address balances +ℤ delta in
    if next ==ℤ pos 0 then erase address balances else insert address next balances

unfoldable pub apply_deltas : List (String × ℤ) → Dict ℤ → Dict ℤ
apply_deltas [] balances = balances
apply_deltas ((address, delta) ∷ ds) balances = apply_deltas ds (apply_delta address delta balances)

-- `applyLedgerEvent`: the deltas are computed before the state is touched.
unfoldable pub apply_ledger_event : LedgerState → LedgerEvent → Option LedgerState
apply_ledger_event state event = do
  ds ← deltas_for event
  d ← supply_delta_for event
  some (record state { balances = apply_deltas ds state.balances; supply = state.supply +ℤ d })

-- The loop of `foldLedgerEvents`.
unfoldable pub fold_from : LedgerState → List LedgerEvent → Option LedgerState
fold_from state [] = some state
fold_from state (event ∷ events) = do next ← apply_ledger_event state event; fold_from next events

-- `foldLedgerEvents`
unfoldable pub fold_ledger_events : List LedgerEvent → Option LedgerState
unfolding fold_from
fold_ledger_events events = fold_from empty_ledger_state events
