-- ===== src/Indexer/Loop.antt =====
-- The ingestion loop of indexer/src/indexer.ts (`runIndexer`), one round at a time. What the RPC
-- server answers in a round is a parameter; `none` is a failed request, which the round's handler
-- logs. Waiting and logging are left out.
pub mod Progress
pub mod Rounds
use bc_forge.Common.{
  ℕ, ◌+◌, ◌-◌, max, min, Bool, true, false, not, ◌&&◌, ◌||◌, Option, none, some, List, [], ◌∷◌,
  String, if◌then◌else◌, ◌==◌, leb, ltb, ◌>>=◌, keep, find, last?, length,
}
use bc_forge.Indexer.Database.{LedgerCoordinate, CursorRow, Database, create_many}
use bc_forge.Indexer.Cursor.{
  GetLedgers, is_truthy, has_continuous_parent_chain, seed_ledger_checkpoints,
  reconcile_ledger_cursor,
}
use bc_forge.Indexer.Events.{EventResponse}
use bc_forge.Indexer.Process.{Ingestion, process_event}

-- The variables that live across rounds, and the database.
pub record LoopState : Type 0 where
  pub last_ledger : Option CursorRow
  pub start_ledger : ℕ
  pub db : Database

-- What the server answers in one round: `getLatestLedger`, `getLedgers`, `getEvents`.
pub record Server : Type 0 where
  pub get_latest_ledger : Option ℕ
  pub get_ledgers : GetLedgers
  pub get_events : ℕ → ℕ → Option (List (EventResponse × Ingestion))

-- How a round ends: waiting for new ledgers, a range indexed, or an error logged.
pub data Round : Type 0 where
  waiting : Round
  indexed : ℕ → ℕ → Round
  failed : Round

-- The start of `runIndexer`, before the loop.
unfoldable pub start_indexer : GetLedgers → Database → Option LoopState
start_indexer get_ledgers db = elim db.last_indexed_ledger [
  | none ↦ some (record { last_ledger = none; start_ledger = 1; db = db })
  | some row ↦ seed_ledger_checkpoints get_ledgers row db >>= λ seeded.
      some (record { last_ledger = some row; start_ledger = row.ledger + 1; db = seeded })
]

-- `parentHash: lastLedger.parentHash ?? ''`
abbrev pub cursor_coordinate : CursorRow → String → LedgerCoordinate
cursor_coordinate row hash = record {
  ledger = row.ledger;
  hash = hash;
  parent_hash = elim row.parent_hash [ none ↦ "" | some p ↦ p ];
}

-- The cursor as a coordinate, if it is the ledger before `start` and has a hash.
unfoldable pub cursor_before : Option CursorRow → ℕ → Option LedgerCoordinate
cursor_before none start = none
cursor_before (some row) start = elim row.hash [
  | none ↦ none
  | some hash ↦
      if row.ledger == start - 1 && is_truthy (some hash)
      then some (cursor_coordinate row hash)
      else none
]

-- `previousCoordinate`
unfoldable pub previous_coordinate :
    Option CursorRow → ℕ → List LedgerCoordinate → Option LedgerCoordinate
previous_coordinate last_ledger start ledgers = elim (cursor_before last_ledger start) [
  | some c ↦ some c
  | none ↦ find (λ (l : LedgerCoordinate). l.ledger == start - 1) ledgers
]

abbrev pub is_in_range : ℕ → ℕ → LedgerCoordinate → Bool
is_in_range start end l = leb start l.ledger && leb l.ledger end

-- The range came back whole, and linked to what is before it.
unfoldable pub is_whole : Option CursorRow → ℕ → ℕ → List LedgerCoordinate → Bool
is_whole last_ledger start end ledgers =
    let coordinates = keep (is_in_range start end) ledgers in
    length coordinates == end - start + 1
    && has_continuous_parent_chain coordinates (previous_coordinate last_ledger start ledgers)

unfoldable pub process_events : List (EventResponse × Ingestion) → Database → Database
process_events [] db = db
process_events ((e, i) ∷ es) db = process_events es (process_event e i db).0

-- The transaction that ends a round.
unfoldable pub commit_range : List LedgerCoordinate → LedgerCoordinate → Database → Database
commit_range coordinates latest db = record db {
  indexed_ledgers = create_many coordinates db.indexed_ledgers;
  last_indexed_ledger = some (record {
    ledger = latest.ledger;
    hash = some latest.hash;
    parent_hash = some latest.parent_hash;
  });
}

-- The reconciliation after a broken range: whatever it answers, the round fails.
unfoldable pub recover : Server → LoopState → LoopState
recover sv st = elim st.last_ledger [
  | none ↦ st
  | some row ↦ elim (reconcile_ledger_cursor sv.get_ledgers row st.db) [
    | none ↦ st
    | some (n, db) ↦ record st { db = db }
  ]
]

-- The part of a round after the range was found whole.
unfoldable pub index_range :
    ℕ
    → List LedgerCoordinate
    → Option (List (EventResponse × Ingestion))
    → LoopState
    → LoopState × Round
index_range end coordinates none st = (st, failed)
index_range end coordinates (some events) st =
    let db = process_events events st.db in
    elim (last? coordinates) [
      | none ↦ (record st { db = db }, failed)
      | some latest ↦ (
        record st { start_ledger = end + 1; db = commit_range coordinates latest db },
        indexed st.start_ledger end,
      )
    ]

unfoldable pub handle_range : Server → ℕ → List LedgerCoordinate → LoopState → LoopState × Round
handle_range sv end ledgers st =
    if is_whole st.last_ledger st.start_ledger end ledgers
    then index_range end (keep (is_in_range st.start_ledger end) ledgers)
        (sv.get_events st.start_ledger end) st
    else (recover sv st, failed)

-- `Math.max(1, startLedger - 1)`
abbrev pub ledger_start : ℕ → ℕ
ledger_start start = max 1 (start - 1)

abbrev pub end_ledger : ℕ → ℕ → ℕ
end_ledger start current = min (start + 1000) current

-- A round, once the latest ledger is known.
unfoldable pub index_up_to : Server → ℕ → LoopState → LoopState × Round
index_up_to sv current st =
    let end = end_ledger st.start_ledger current in
    let from = ledger_start st.start_ledger in
    if ltb current st.start_ledger
    then (st, waiting)
    else elim (sv.get_ledgers from (end - from + 1)) [
      | none ↦ (st, failed)
      | some ledgers ↦ handle_range sv end ledgers st
    ]

-- One round of `while (true)`.
unfoldable pub run_round : Server → LoopState → LoopState × Round
run_round sv st = elim sv.get_latest_ledger [
  | none ↦ (st, failed)
  | some current ↦ index_up_to sv current st
]
