-- ===== src/Indexer/Process/Reindex.antt =====
-- What a rollback of the cursor and a second ingestion do to the holder table.
use bc_forge.Common.{ℕ, ◌≡◌, refl, Option, some, String, arith, ===_refl, ap, sym, ◌∙◌}
use bc_forge.Common.Int.{ℤ, pos, ◌+ℤ◌, ==ℤ_iff}
use bc_forge.Common.Decimal.{Text}
use bc_forge.Common.Dict.{Dict, lookup, lookup-insert, lookup-erase}
use bc_forge.Indexer.Ledger.{LedgerEvent, to_big_int, from_big_int, deltas_for}
use bc_forge.Indexer.Aggregates.{
  HolderRow, AggregateStore, ApplyAggregatesOptions, stored_balance, write_holder,
  apply_holder_delta, apply_holder_deltas, apply_ledger_event_aggregates,
}
use bc_forge.Indexer.Aggregates.Refinement.{to_big_int-from_big_int}
use bc_forge.Indexer.Database.{Database, CursorRow}
use bc_forge.Indexer.Cursor.{roll_back}
use bc_forge.Indexer.Events.{EventResponse, decode_mint}
use bc_forge.Indexer.Process.{
  Ingestion, IndexerEventType, stored, persist_event_row, persist_token_event, process_topic,
  read_topic, process_event, aggregate_options, create_row,
}
use bc_forge.Indexer.Process.Unique.{persist_event_row-Written}

stored_balance-write_holder :
    (n : ℕ) (a : String) (v : ℤ) (h : Dict HolderRow)
    → stored_balance (lookup a (write_holder n a v h)) ≡ some v
unfolding stored_balance write_holder
stored_balance-write_holder n a v h =
    let row : HolderRow = record { balance = from_big_int v; ledger = n } in
    ground (
      arith,
      ===_refl a,
      ==ℤ_iff v (pos 0),
      lookup-insert a a row h,
      lookup-erase a a h,
      to_big_int-from_big_int v,
    )

holders-mint :
    (store store' : AggregateStore) (to : String) (n : Text) (o : ApplyAggregatesOptions) (b v : ℤ)
    → apply_ledger_event_aggregates store (LedgerEvent.mint to n) o ≡ some store'
    → to_big_int n ≡ some v
    → stored_balance (lookup to store.holders) ≡ some b
    → store'.holders ≡ write_holder o.ledger to (b +ℤ v) store.holders
unfolding apply_ledger_event_aggregates deltas_for apply_holder_deltas apply_holder_delta
holders-mint store store' to n o b v h amount before = ground arith

balance-mint :
    (store store' : AggregateStore) (to : String) (n : Text) (o : ApplyAggregatesOptions) (b v : ℤ)
    → apply_ledger_event_aggregates store (LedgerEvent.mint to n) o ≡ some store'
    → to_big_int n ≡ some v
    → stored_balance (lookup to store.holders) ≡ some b
    → stored_balance (lookup to store'.holders) ≡ some (b +ℤ v)
balance-mint store store' to n o b v h amount before =
    rw (holders-mint store store' to n o b v h amount before)
      (stored_balance-write_holder o.ledger to (b +ℤ v) store.holders)

process_mint :
    (e : EventResponse) (i : Ingestion) (db : Database) (to : String) (n : Text) (s : Option Text)
    → e.topic ≡ some "mint"
    → decode_mint e.decoded ≡ some (LedgerEvent.mint to n, s)
    → process_event e i db ≡ persist_event_row (LedgerEvent.mint to n) s e i db
unfolding process_event process_topic persist_token_event read_topic
process_mint e i db to n s topic decoded =
    simp (topic, process_event) (ap (λ x. persist_token_event x e i db) decoded)

-- A mint that is stored raises the holder's stored balance by its amount.
stored_mint :
    (e : EventResponse) (i : Ingestion) (db db' : Database) (t : IndexerEventType) (to : String)
    (n : Text) (s : Option Text) (b v : ℤ)
    → e.topic ≡ some "mint"
    → decode_mint e.decoded ≡ some (LedgerEvent.mint to n, s)
    → to_big_int n ≡ some v
    → stored_balance (lookup to db.aggregates.holders) ≡ some b
    → process_event e i db ≡ (db', stored t)
    → stored_balance (lookup to db'.aggregates.holders) ≡ some (b +ℤ v)
unfolding create_row
stored_mint e i db db' t to n s b v topic decoded amount before h =
    let persisted : persist_event_row (LedgerEvent.mint to n) s e i db ≡ (db', stored t) =
      sym (process_mint e i db to n s topic decoded) ∙ h in
    let w = persist_event_row-Written (LedgerEvent.mint to n) s e i db db' t persisted in
    rw w.written (
      balance-mint db.aggregates w.aggregates to n (aggregate_options e i s) b v w.applied amount
        before)

aggregates-roll_back :
    (row : CursorRow) (db : Database) → (roll_back row db).aggregates ≡ db.aggregates
unfolding roll_back
aggregates-roll_back row db = refl

-- A rollback of the cursor leaves the holder table alone: where a mint is stored, its row is rolled
-- back and the event is stored again, the balance of the receiver has grown by the amount twice.
pub reindexed_mint_counts_twice :
    (e : EventResponse) (i i' : Ingestion) (db db1 db2 : Database) (t t' : IndexerEventType)
    (row : CursorRow) (to : String) (n : Text) (s : Option Text) (b v : ℤ)
    → e.topic ≡ some "mint"
    → decode_mint e.decoded ≡ some (LedgerEvent.mint to n, s)
    → to_big_int n ≡ some v
    → stored_balance (lookup to db.aggregates.holders) ≡ some b
    → process_event e i db ≡ (db1, stored t)
    → process_event e i' (roll_back row db1) ≡ (db2, stored t')
    → stored_balance (lookup to db2.aggregates.holders) ≡ some (b +ℤ v +ℤ v)
reindexed_mint_counts_twice e i i' db db1 db2 t t' row to n s b v topic decoded amount before h h' =
    let once = stored_mint e i db db1 t to n s b v topic decoded amount before h in
    stored_mint e i' (roll_back row db1) db2 t' to n s (b +ℤ v) v topic decoded amount
      (rw (aggregates-roll_back row db1) once) h'
