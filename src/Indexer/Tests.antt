-- ===== src/Indexer/Tests.antt =====
-- Concrete runs of the indexer's ledger arithmetic and aggregates, and the cursor and the loop in
-- the children.
mod Chain
mod Ingest
mod Interface
use bc_forge.Common.{
  ℕ, ◌+◌, ◌≡◌, refl, Option, none, some, List, [], ◌∷◌, String, is_some, all, arith, map, All,
}
use bc_forge.Common.Int.{ℤ, pos, negsuc, ◌+ℤ◌, ◌-ℤ◌, neg}
use bc_forge.Common.Decimal.{Text, parse, parse_nat, scan, digits, format, format_nat}
use bc_forge.Common.Dict.{Dict, lookup}
use bc_forge.Indexer.Ledger.{
  LedgerEvent, LedgerState, mint, transfer, burn, to_big_int, from_big_int, deltas_for,
  supply_delta_for, apply_delta, apply_deltas, apply_ledger_event, fold_from, fold_ledger_events,
}
use bc_forge.Indexer.Ledger.Balances.{holding, received, sent, lookup-fold_ledger_events}
use bc_forge.Indexer.Ledger.Supply.{
  total, is_readable, fold_ledger_events-IsBalanced, fold_ledger_events_total,
}
use bc_forge.Indexer.Aggregates.{
  SupplyPoint, AggregateStore, ApplyAggregatesOptions, find_latest, stored_supply,
  append_supply_point, apply_ledger_event_aggregates, apply_stream, shifted_supply, resolve_supply,
  supply_point, apply_holder_deltas, apply_holder_delta, stored_balance, write_holder,
}
use bc_forge.Indexer.Aggregates.Refinement.{
  Represents, HasReadableSupply, empty_store, apply_stream-Represents, to_big_int-from_big_int,
}
use bc_forge.Indexer.Aggregates.SupplyPoints.{stored_supply-apply, find_latest_same_ledger}

abbrev ten : Text
ten = b'1' ∷ b'0' ∷ []

abbrev four : Text
four = b'4' ∷ []

abbrev history : List LedgerEvent
history = mint "GA" ten ∷ transfer "GA" "GB" four ∷ burn "GB" four ∷ []

abbrev history_state : LedgerState
history_state = record { balances = ("GA", pos 6) ∷ []; supply = pos 6 }

fold_history : fold_ledger_events history ≡ some history_state
unfolding fold_ledger_events apply_ledger_event deltas_for supply_delta_for apply_deltas apply_delta
    to_big_int parse ◌+ℤ◌
fold_history = refl

lookup-fold_ledger_events_example :
    lookup "GB" history_state.balances ≡ holding (received "GB" history -ℤ sent "GB" history)
lookup-fold_ledger_events_example =
    lookup-fold_ledger_events history history_state "GB" fold_history

fold_ledger_events-IsBalanced_example : history_state.supply ≡ total history_state.balances
fold_ledger_events-IsBalanced_example =
    fold_ledger_events-IsBalanced history history_state fold_history

-- A burn from an address that holds nothing leaves a negative entry.
negative_holder :
    fold_ledger_events (burn "GA" four ∷ [])
    ≡ some (record { balances = ("GA", negsuc 3) ∷ []; supply = negsuc 3 })
unfolding fold_ledger_events apply_ledger_event deltas_for supply_delta_for apply_deltas apply_delta
    to_big_int parse ◌+ℤ◌
negative_holder = refl

abbrev options : ℕ → ℕ → ApplyAggregatesOptions
options n id = record { ledger = n; tx_hash = "t"; timestamp = 7; new_supply = none; id = id }

abbrev stream : List (LedgerEvent × ApplyAggregatesOptions)
stream =
    (mint "GA" ten, options 1 50)
    ∷ (transfer "GA" "GB" four, options 2 20)
    ∷ (burn "GB" four, options 3 30)
    ∷ []

apply_stream-Represents_example :
    (store : AggregateStore) × (apply_stream empty_store stream ≡ some store)
    × Represents store.holders history_state.balances
apply_stream-Represents_example =
    apply_stream-Represents stream history_state (tt, (tt, (tt, tt))) fold_history

abbrev first_point : SupplyPoint
first_point = record { id = 50; timestamp = 7; supply = ten; ledger = 1; tx_hash = "t" }

abbrev minted : AggregateStore
minted = record {
  holders = ("GA", record { balance = ten; ledger = 1 }) ∷ [];
  supply_points = first_point ∷ [];
}

abbrev minted_again : AggregateStore
minted_again = record {
  holders = ("GA", record { balance = b'1' ∷ b'4' ∷ []; ledger = 2 }) ∷ [];
  supply_points = supply_point (options 2 9) (b'1' ∷ b'4' ∷ []) ∷ first_point ∷ [];
}

apply_minted :
    apply_ledger_event_aggregates minted (mint "GA" four) (options 2 9) ≡ some minted_again
unfolding apply_ledger_event_aggregates deltas_for supply_delta_for apply_holder_deltas
    apply_holder_delta stored_balance write_holder append_supply_point resolve_supply shifted_supply
    find_latest to_big_int from_big_int parse format format_nat ◌+ℤ◌
apply_minted = refl

mint_delta : supply_delta_for (mint "GA" four) ≡ some (pos 4)
unfolding supply_delta_for to_big_int parse
mint_delta = refl

latest_minted : stored_supply (find_latest minted.supply_points) ≡ some (pos 10)
unfolding stored_supply find_latest to_big_int parse
latest_minted = refl

stored_supply-apply_example :
    stored_supply (find_latest minted_again.supply_points) ≡ some (pos 10 +ℤ pos 4)
stored_supply-apply_example =
    stored_supply-apply minted minted_again (mint "GA" four) (options 2 9) (pos 10) (pos 4)
      (omega arith) refl latest_minted mint_delta apply_minted

abbrev same_ledger_points : List SupplyPoint
same_ledger_points = supply_point (options 1 9) (b'1' ∷ b'4' ∷ []) ∷ first_point ∷ []

append_same_ledger :
    append_supply_point (first_point ∷ []) (pos 4) (options 1 9) ≡ some same_ledger_points
unfolding append_supply_point resolve_supply shifted_supply find_latest to_big_int from_big_int
    parse format format_nat ◌+ℤ◌
append_same_ledger = refl

find_latest_first : find_latest (first_point ∷ []) ≡ some first_point
unfolding find_latest
find_latest_first = refl

find_latest_same_ledger_example : find_latest same_ledger_points ≡ some first_point
find_latest_same_ledger_example =
    find_latest_same_ledger (first_point ∷ []) same_ledger_points first_point (pos 4) (options 1 9)
      find_latest_first refl (omega arith) append_same_ledger
