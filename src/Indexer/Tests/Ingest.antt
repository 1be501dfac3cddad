-- ===== src/Indexer/Tests/Ingest.antt =====
-- A mint that is ingested, rolled back and ingested again, and rounds of the loop.
use bc_forge.Common.{◌≤◌, ◌≤◌, ◌≡◌, refl, none, some, [], ◌∷◌}
use bc_forge.Common.Int.{pos, ◌+ℤ◌}
use bc_forge.Common.Decimal.{parse, format, format_nat}
use bc_forge.Common.Dict.{lookup}
use bc_forge.Indexer.Ledger.{LedgerEvent, to_big_int, from_big_int, deltas_for, supply_delta_for}
use bc_forge.Indexer.Aggregates.{
  stored_balance, write_holder, apply_holder_delta, apply_holder_deltas,
  apply_ledger_event_aggregates, append_supply_point, resolve_supply, shifted_supply, find_latest,
}
use bc_forge.Indexer.Database.{CursorRow, Database, create_many, sort_asc, insert_asc}
use bc_forge.Indexer.Cursor.{
  roll_back, rewound_cursor, reconcile_ledger_cursor, reconcile_with, compare_checkpoints,
  persisted_checkpoints, scan_checkpoints, is_confirmed, find_remote, has_continuous_parent_chain,
}
use bc_forge.Indexer.Events.{
  text, num, EventResponse, native_address, native_string, optional_string, decode_mint,
}
use bc_forge.Indexer.Process.{
  Ingestion, IndexerEventType, stored, process_event, process_topic, read_topic,
  persist_token_event, persist_event_row, create_row, aggregate_options,
}
use bc_forge.Indexer.Process.Unique.{process_event_again}
use bc_forge.Indexer.Process.Reindex.{reindexed_mint_counts_twice}
use bc_forge.Indexer.Loop.{
  recover, LoopState, Server, indexed, failed, run_round, index_up_to, handle_range, index_range,
  is_whole, previous_coordinate, cursor_before, process_events, commit_range,
}
use bc_forge.Indexer.Loop.Progress.{IsIndexed, run_round-IsIndexed}
use bc_forge.Indexer.Tests.Chain.{fifth, sixth, cursor, indexed_db, remote}

abbrev fresh : Database
fresh = record indexed_db { mints = []; indexed_ledgers = fifth ∷ [] }

abbrev mint_event : EventResponse
mint_event = record {
  topic = some "mint";
  decoded = text "GADMIN" ∷ text "GA" ∷ num (pos 4) ∷ num (pos 4) ∷ num (pos 4) ∷ [];
  ledger = 6;
  tx_hash = "t";
  ledger_closed_at = none;
}

abbrev now : Ingestion
now = record { now = 7; id = 1 }

abbrev ingested : Database
ingested = (process_event mint_event now fresh).0

mint_stored : process_event mint_event now fresh ≡ (ingested, stored IndexerEventType.mint)
unfolding process_event process_topic read_topic persist_token_event persist_event_row create_row
    decode_mint native_address native_string optional_string aggregate_options
    apply_ledger_event_aggregates deltas_for supply_delta_for apply_holder_deltas apply_holder_delta
    stored_balance write_holder append_supply_point resolve_supply shifted_supply find_latest
    to_big_int from_big_int parse format format_nat ◌+ℤ◌
mint_stored = refl

process_event_again_example : (process_event mint_event now ingested).0 ≡ ingested
process_event_again_example =
    process_event_again mint_event mint_event now now fresh ingested IndexerEventType.mint refl refl
      mint_stored

abbrev rewound : CursorRow
rewound = record { ledger = 5; hash = some "h5"; parent_hash = some "h4" }

abbrev ingested_twice : Database
ingested_twice = (process_event mint_event now (roll_back rewound ingested)).0

mint_stored_again :
    process_event mint_event now (roll_back rewound ingested)
    ≡ (ingested_twice, stored IndexerEventType.mint)
unfolding process_event process_topic read_topic persist_token_event persist_event_row create_row
    decode_mint native_address native_string optional_string aggregate_options
    apply_ledger_event_aggregates deltas_for supply_delta_for apply_holder_deltas apply_holder_delta
    stored_balance write_holder append_supply_point resolve_supply shifted_supply find_latest
    to_big_int from_big_int parse format format_nat ◌+ℤ◌ roll_back
mint_stored_again = refl

decoded_mint :
    decode_mint mint_event.decoded ≡ some (LedgerEvent.mint "GA" (b'4' ∷ []), some (b'4' ∷ []))
unfolding decode_mint native_address native_string optional_string from_big_int format format_nat
decoded_mint = refl

four_read : to_big_int (b'4' ∷ []) ≡ some (pos 4)
unfolding to_big_int parse
four_read = refl

nothing_held : stored_balance (lookup "GA" fresh.aggregates.holders) ≡ some (pos 0)
unfolding stored_balance
nothing_held = refl

reindexed_mint_counts_twice_example :
    stored_balance (lookup "GA" ingested_twice.aggregates.holders) ≡ some (pos 0 +ℤ pos 4 +ℤ pos 4)
reindexed_mint_counts_twice_example =
    reindexed_mint_counts_twice mint_event now now fresh ingested ingested_twice
      IndexerEventType.mint IndexerEventType.mint rewound "GA" (b'4' ∷ []) (some (b'4' ∷ []))
      (pos 0) (pos 4) refl decoded_mint four_read nothing_held mint_stored mint_stored_again

abbrev at_sixth : LoopState
at_sixth = record {
  last_ledger = some (record { ledger = 5; hash = some "h5"; parent_hash = some "h4" });
  start_ledger = 6;
  db = fresh;
}

abbrev server : Server
server = record {
  get_latest_ledger = some 6;
  get_ledgers = λ from n. some (fifth ∷ sixth ∷ []);
  get_events = λ a b. some [];
}

abbrev after_sixth : LoopState
after_sixth = (run_round server at_sixth).0

round_indexed : run_round server at_sixth ≡ (after_sixth, indexed 6 6)
unfolding run_round index_up_to handle_range index_range is_whole previous_coordinate cursor_before
    process_events commit_range has_continuous_parent_chain create_many
round_indexed = refl

run_round-IsIndexed_example : IsIndexed at_sixth after_sixth 6 6 × (6 ≤ 6)
run_round-IsIndexed_example =
    run_round-IsIndexed server at_sixth after_sixth 6 6 6 refl round_indexed

abbrev replaced_server : Server
replaced_server = record {
  get_latest_ledger = some 7;
  get_ledgers = λ from n. some remote;
  get_events = λ a b. some [];
}

abbrev at_seventh : LoopState
at_seventh = record { last_ledger = some cursor; start_ledger = 7; db = indexed_db }

abbrev rolled_back_db : Database
rolled_back_db = (reconcile_with remote cursor indexed_db).1

-- The database is rolled back to ledger 5, and the loop goes on at ledger 7.
broken_round :
    run_round replaced_server at_seventh ≡ (record at_seventh { db = rolled_back_db }, failed)
unfolding run_round index_up_to handle_range recover is_whole previous_coordinate cursor_before
    has_continuous_parent_chain reconcile_ledger_cursor reconcile_with compare_checkpoints
    persisted_checkpoints scan_checkpoints is_confirmed find_remote rewound_cursor roll_back
    sort_asc insert_asc
broken_round = refl
