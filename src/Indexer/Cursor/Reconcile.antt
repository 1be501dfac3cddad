-- ===== src/Indexer/Cursor/Reconcile.antt =====
-- What a reconciliation of the cursor with the RPC server establishes.
use bc_forge.Common.{
  ℕ, ◌≤◌, ◌≡◌, refl, ◌⊎◌, inl, inr, true, false, Option, none, some, List, arith, Bool-cases, All,
  leb, keep, keep_passes,
}
use bc_forge.Indexer.Database.{LedgerCoordinate, CursorRow, Database}
use bc_forge.Indexer.Database.Checkpoints.{
  Listed, IsKeyed, IsAscending, Listed-keep, keep-Listed, keep-IsKeyed, Listed-sort_asc,
  sort_asc-All, sort_asc-IsAscending,
}
use bc_forge.Indexer.Cursor.{
  is_confirmed, is_in_window, compare_checkpoints, rewound_cursor, roll_back, persisted_checkpoints,
  reconcile_with, scan_start,
}
use bc_forge.Indexer.Cursor.Mismatch.{Mismatch, IsAgreed}
use bc_forge.Indexer.Cursor.Scan.{
  level, AreAbove, IsAnchor, compare_checkpoints-IsAnchor, compare_checkpoints-confirms,
}

persisted-within : (db : Database) (n : ℕ) → All (λ d. d.ledger ≤ n) (persisted_checkpoints n db)
unfolding persisted_checkpoints
persisted-within db n =
    sort_asc-All _ _ (keep_passes _ (is_in_window n) db.indexed_ledgers (λ c h. ground arith))

persisted-IsAscending :
    (db : Database) (n : ℕ) → IsKeyed db.indexed_ledgers → IsAscending (persisted_checkpoints n db)
unfolding persisted_checkpoints
persisted-IsAscending db n h =
    sort_asc-IsAscending _ (keep-IsKeyed (is_in_window n) db.indexed_ledgers h)

persisted-Listed :
    (db : Database) (n : ℕ) (c : LedgerCoordinate)
    → Listed c db.indexed_ledgers
    → scan_start n ≤ c.ledger
    → c.ledger ≤ n
    → Listed c (persisted_checkpoints n db)
unfolding persisted_checkpoints
persisted-Listed db n c l low high =
    Listed-sort_asc c _ (Listed-keep (is_in_window n) c db.indexed_ledgers l (ground arith))

persisted-AreAbove : (db : Database) (n : ℕ) → AreAbove 0 (persisted_checkpoints n db)
unfolding persisted_checkpoints
persisted-AreAbove db n =
    sort_asc-All _ _ (keep_passes _ (is_in_window n) db.indexed_ledgers (λ c h. ground arith))

-- What is kept of the tables that are rolled back, row for row in their order, and what else there
-- is, which stays.
pub record IsCutAt (n : ℕ) (row : CursorRow) (db db' : Database) : Type 0 where
  pub mints : db'.mints ≡ keep (λ m. leb m.ledger n) db.mints
  pub transfers : db'.transfers ≡ keep (λ t. leb t.ledger n) db.transfers
  pub burns : db'.burns ≡ keep (λ b. leb b.ledger n) db.burns
  pub checkpoints : db'.indexed_ledgers ≡ keep (λ c. leb c.ledger n) db.indexed_ledgers
  pub cursor : db'.last_indexed_ledger ≡ some row
  pub others :
      record db' {
        mints = db.mints;
        transfers = db.transfers;
        burns = db.burns;
        indexed_ledgers = db.indexed_ledgers;
        last_indexed_ledger = db.last_indexed_ledger;
      }
      ≡ db

-- What a reconciliation finds, answers and leaves.
pub data Outcome (remote : List LedgerCoordinate) (cursor : CursorRow) (db : Database) (n : ℕ)
    (db' : Database) : Type 0 where
  untouched :
      n ≡ cursor.ledger
      → db' ≡ db
      → All (λ d. is_confirmed remote d ≡ true) (persisted_checkpoints cursor.ledger db)
      → IsAgreed remote (persisted_checkpoints cursor.ledger db) cursor
      → Outcome remote cursor db n db'
  rolled_back :
      (common : Option LedgerCoordinate)
      → Mismatch remote (persisted_checkpoints cursor.ledger db) cursor common
      → IsAnchor remote cursor.ledger common
      → n ≡ level common
      → IsCutAt n (rewound_cursor common) db db'
      → Outcome remote cursor db n db'

rewound_level : (c : Option LedgerCoordinate) → (rewound_cursor c).ledger ≡ level c
unfolding rewound_cursor
rewound_level none = refl
rewound_level (some c) = refl

kept_confirmed :
    (remote : List LedgerCoordinate) (cursor : CursorRow) (db : Database) (c : LedgerCoordinate)
    → IsKeyed db.indexed_ledgers
    → Listed c db.indexed_ledgers
    → scan_start cursor.ledger ≤ c.ledger
    → c.ledger ≤ cursor.ledger
    → let (last, mismatch) =
        compare_checkpoints (persisted_checkpoints cursor.ledger db) remote cursor in
      (mismatch ≡ false) ⊎ (c.ledger ≤ level last) → is_confirmed remote c ≡ true
kept_confirmed remote cursor db c keyed l low high h =
    compare_checkpoints-confirms (persisted_checkpoints cursor.ledger db) remote cursor c
      (persisted-IsAscending db cursor.ledger keyed) (persisted-AreAbove db cursor.ledger)
      (persisted-Listed db cursor.ledger c l low high) h

-- With unique ledger numbers, every checkpoint of the window that is left after a reconciliation,
-- up to the ledger that it answers, has the hash and the parent hash of the remote ledger.
pub reconcile_with-confirms :
    (remote : List LedgerCoordinate) (cursor : CursorRow) (db : Database) (c : LedgerCoordinate)
    → IsKeyed db.indexed_ledgers
    → Listed c (reconcile_with remote cursor db).1.indexed_ledgers
    → scan_start cursor.ledger ≤ c.ledger
    → c.ledger ≤ (reconcile_with remote cursor db).0
    → is_confirmed remote c ≡ true
unfolding reconcile_with roll_back
reconcile_with-confirms remote cursor db c keyed l low high =
    let persisted = persisted_checkpoints cursor.ledger db in
    let found = compare_checkpoints persisted remote cursor in
    elim (Bool-cases found.1) [
      | inl bad ↦
          let (listed, _) = keep-Listed _ c db.indexed_ledgers (rw bad at l) in
          let below : c.ledger ≤ level found.0 = rw (← rewound_level found.0) (rw bad at high) in
          let anchor =
            compare_checkpoints-IsAnchor persisted remote cursor
              (persisted-within db cursor.ledger) in
          kept_confirmed remote cursor db c keyed listed low (omega (arith, anchor.within))
            (inr below)
      | inr ok ↦ kept_confirmed remote cursor db c keyed (rw ok at l) low (rw ok at high) (inl ok)
    ]
