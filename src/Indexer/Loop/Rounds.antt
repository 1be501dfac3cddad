-- ===== src/Indexer/Loop/Rounds.antt =====
-- How the loop goes on after a round, of whatever outcome (indexer/src/indexer.ts).
use bc_forge.Common.{ℕ, ◌+◌, ◌≡◌, some}
use bc_forge.Indexer.Database.{CursorRow, Database}
use bc_forge.Indexer.Cursor.{reconcile_ledger_cursor}
use bc_forge.Indexer.Loop.{LoopState, Server, Round, waiting, indexed, failed}

-- How a round goes on: after an indexed range with the ledger after it, otherwise with the ledger
-- that it began with.
abbrev pub next_start : LoopState → Round → ℕ
next_start st waiting = st.start_ledger
next_start st failed = st.start_ledger
next_start st (indexed a b) = b + 1

-- A database that nothing was indexed into: as it was, or as the reconciliation of the cursor
-- leaves it.
pub data IsUnindexed (sv : Server) (st : LoopState) (db : Database) : Type 0 where
  as_before : db ≡ st.db → IsUnindexed sv st db
  reconciled :
      (row : CursorRow) (n : ℕ)
      → st.last_ledger ≡ some row
      → reconcile_ledger_cursor sv.get_ledgers row st.db ≡ some (n, db)
      → IsUnindexed sv st db

abbrev pub IsLeftBy : Server → LoopState → LoopState → Round → Type 0
IsLeftBy sv st st' waiting = st'.db ≡ st.db
IsLeftBy sv st st' failed = IsUnindexed sv st st'.db
IsLeftBy sv st st' (indexed a b) = a ≡ st.start_ledger

-- What every round leaves.
pub record GoesOn (sv : Server) (st st' : LoopState) (r : Round) : Type 0 where
  pub start : st'.start_ledger ≡ next_start st r
  pub cursor_kept : st'.last_ledger ≡ st.last_ledger
  pub database : IsLeftBy sv st st' r

abbrev Ends : Server → LoopState → LoopState × Round → Type 0
Ends sv st (st', r) = GoesOn sv st st' r
