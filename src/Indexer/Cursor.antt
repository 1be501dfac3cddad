-- ===== src/Indexer/Cursor.antt =====
-- The ledger cursor of indexer/src/cursor.ts. The RPC server is a parameter: `getLedgers` by its
-- start and its limit, read as coordinates (`toLedgerCoordinate` decodes XDR by the vendor's
-- library), or `none` for a failed request, which throws out of the caller.
pub mod Chain
pub mod Scan
pub mod Mismatch
pub mod Reconcile
use bc_forge.Common.{
  ℕ, ◌+◌, ◌-◌, max, Bool, true, false, not, ◌&&◌, ◌||◌, Option, none, some, List, [], ◌∷◌, String,
  if◌then◌else◌, ◌===◌, ◌==◌, leb, ltb, ◌>>=◌, keep, find, last?, is_nonempty,
}
use bc_forge.Indexer.Database.{
  MintRow, TransferRow, BurnRow, LedgerCoordinate, CursorRow, Database, create_many, sort_asc,
}

abbrev pub GetLedgers : Type 0
GetLedgers = ℕ → ℕ → Option (List LedgerCoordinate)

-- `REORG_LOOKBACK_LEDGERS`
abbrev pub reorg_lookback_ledgers : ℕ
reorg_lookback_ledgers = 1000

abbrev pub follows : LedgerCoordinate → LedgerCoordinate → Bool
follows parent l = l.ledger == parent.ledger + 1 && l.parent_hash === parent.hash

-- `hasContinuousParentChain`
unfoldable pub has_continuous_parent_chain : List LedgerCoordinate → Option LedgerCoordinate → Bool
has_continuous_parent_chain [] parent = true
has_continuous_parent_chain (l ∷ ls) none = has_continuous_parent_chain ls (some l)
has_continuous_parent_chain (l ∷ ls) (some parent) =
    let rest = has_continuous_parent_chain ls (some l) in if follows parent l then rest else false

-- A text that is present and not empty.
abbrev pub is_truthy : Option String → Bool
is_truthy none = false
is_truthy (some s) = is_nonempty s

-- `Math.max(1, cursor.ledger - REORG_LOOKBACK_LEDGERS + 1)`
abbrev pub scan_start : ℕ → ℕ
scan_start ledger = max 1 (ledger + 1 - reorg_lookback_ledgers)

-- `lastIndexedLedger.update`: throws where the row is missing.
abbrev pub update_cursor_hashes : LedgerCoordinate → Option CursorRow → Option CursorRow
update_cursor_hashes c none = none
update_cursor_hashes c (some row) =
    some (record row { hash = some c.hash; parent_hash = some c.parent_hash })

-- The transaction of `seedLedgerCheckpoints`.
unfoldable pub seed_from : List LedgerCoordinate → ℕ → Database → Option Database
seed_from coordinates ledger db = elim (find (λ c. c.ledger == ledger) coordinates) [
  | none ↦ some db
  | some at_cursor ↦ update_cursor_hashes at_cursor db.last_indexed_ledger >>= λ row.
      some (record db {
        indexed_ledgers = create_many coordinates db.indexed_ledgers;
        last_indexed_ledger = some row;
      })
]

-- `seedLedgerCheckpoints`
unfoldable pub seed_ledger_checkpoints : GetLedgers → CursorRow → Database → Option Database
seed_ledger_checkpoints get_ledgers cursor db =
    if leb cursor.ledger 0 || is_truthy cursor.hash
    then some db
    else (get_ledgers (scan_start cursor.ledger) reorg_lookback_ledgers >>= λ ledgers.
        seed_from (keep (λ l. leb l.ledger cursor.ledger) ledgers) cursor.ledger db)

-- `remoteBySequence.get(n)`: of two ledgers with one sequence the map keeps the later.
unfoldable pub find_remote : ℕ → List LedgerCoordinate → Option LedgerCoordinate
find_remote n [] = none
find_remote n (l ∷ ls) = elim (find_remote n ls) [
  | some c ↦ some c
  | none ↦ if l.ledger == n then some l else none
]

-- The remote ledger is there and has the hashes of the checkpoint.
unfoldable pub is_confirmed : List LedgerCoordinate → LedgerCoordinate → Bool
is_confirmed remote c = elim (find_remote c.ledger remote) [
  | none ↦ false
  | some r ↦ r.hash === c.hash && r.parent_hash === c.parent_hash
]

-- The loop over the persisted checkpoints: the last common one, and whether a mismatch was found.
unfoldable pub scan_checkpoints :
    List LedgerCoordinate
    → Option LedgerCoordinate
    → List LedgerCoordinate
    → Option LedgerCoordinate × Bool
scan_checkpoints remote common [] = (common, false)
scan_checkpoints remote common (c ∷ cs) =
    let rest = scan_checkpoints remote (some c) cs in
    if is_confirmed remote c then rest else (common, true)

abbrev pub is_same : Option String → String → Bool
is_same none s = false
is_same (some t) s = s === t

-- The cursor has a hash that the remote ledger of its number does not have.
unfoldable pub is_cursor_mismatch : List LedgerCoordinate → CursorRow → Bool
is_cursor_mismatch remote cursor =
    is_truthy cursor.hash && elim (find_remote cursor.ledger remote) [
      | none ↦ true
      | some r ↦
          not (is_same cursor.hash r.hash)
          || elim cursor.parent_hash [ none ↦ false | some p ↦ not (r.parent_hash === p) ]
    ]

-- `previous?.hash === cursor.parentHash`, and then the coordinate of `previous`.
unfoldable pub previous_common : List LedgerCoordinate → CursorRow → Option LedgerCoordinate
previous_common remote cursor = elim (find_remote (cursor.ledger - 1) remote) [
  | none ↦ none
  | some p ↦ if is_same cursor.parent_hash p.hash then some p else none
]

-- `persisted[persisted.length - 1]?.ledger === cursor.ledger`
abbrev pub ends_at : ℕ → List LedgerCoordinate → Bool
ends_at n cs = elim (last? cs) [ none ↦ false | some l ↦ l.ledger == n ]

-- The last common checkpoint and whether a mismatch was found, after the three comparisons.
unfoldable pub compare_checkpoints :
    List LedgerCoordinate → List LedgerCoordinate → CursorRow → Option LedgerCoordinate × Bool
compare_checkpoints [] remote cursor =
    if is_cursor_mismatch remote cursor
    then (previous_common remote cursor, true)
    else (none, false)
compare_checkpoints (c ∷ cs) remote cursor =
    let (common, mismatch) = scan_checkpoints remote none (c ∷ cs) in
    (common, mismatch || (not (ends_at cursor.ledger (c ∷ cs)) && is_cursor_mismatch remote cursor))

-- The cursor row after a rollback to the last common ledger.
unfoldable pub rewound_cursor : Option LedgerCoordinate → CursorRow
rewound_cursor none = record { ledger = 0; hash = none; parent_hash = none }
rewound_cursor (some c) = record {
  ledger = c.ledger;
  hash = some c.hash;
  parent_hash = some c.parent_hash;
}

-- The transaction of the rollback: these four tables, and the cursor.
unfoldable pub roll_back : CursorRow → Database → Database
roll_back row db = record db {
  mints = keep (λ (m : MintRow). leb m.ledger row.ledger) db.mints;
  burns = keep (λ (b : BurnRow). leb b.ledger row.ledger) db.burns;
  transfers = keep (λ (t : TransferRow). leb t.ledger row.ledger) db.transfers;
  indexed_ledgers = keep (λ (l : LedgerCoordinate). leb l.ledger row.ledger) db.indexed_ledgers;
  last_indexed_ledger = some row;
}

abbrev pub is_in_window : ℕ → LedgerCoordinate → Bool
is_in_window ledger c = leb (scan_start ledger) c.ledger && leb c.ledger ledger

-- `indexedLedger.findMany` over the window that ends at the cursor.
unfoldable pub persisted_checkpoints : ℕ → Database → List LedgerCoordinate
persisted_checkpoints ledger db = sort_asc (keep (is_in_window ledger) db.indexed_ledgers)

-- `reconcileLedgerCursor` with the remote ledgers at hand: the ledger to go on from.
unfoldable pub reconcile_with : List LedgerCoordinate → CursorRow → Database → ℕ × Database
reconcile_with remote cursor db =
    let (common, mismatch) =
      compare_checkpoints (persisted_checkpoints cursor.ledger db) remote cursor in
    let row = rewound_cursor common in
    if mismatch then (row.ledger, roll_back row db) else (cursor.ledger, db)

-- `reconcileLedgerCursor`
unfoldable pub reconcile_ledger_cursor : GetLedgers → CursorRow → Database → Option (ℕ × Database)
reconcile_ledger_cursor get_ledgers cursor db =
    if leb cursor.ledger 0
    then some (cursor.ledger, db)
    else (get_ledgers (scan_start cursor.ledger) reorg_lookback_ledgers >>= λ remote.
        some (reconcile_with remote cursor db))
