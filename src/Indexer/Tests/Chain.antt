-- ===== src/Indexer/Tests/Chain.antt =====
-- A chain of two ledgers, the second of which was replaced on the server.
use bc_forge.Common.{ℕ, ◌≡◌, ◌↔◌, refl, true, some, List, [], ◌∷◌, arith, inl}
use bc_forge.Indexer.Aggregates.Refinement.{empty_store}
use bc_forge.Indexer.Database.{LedgerCoordinate, CursorRow, Database, MintRow, sort_asc, insert_asc}
use bc_forge.Indexer.Cursor.{
  find_remote, is_confirmed, scan_checkpoints, compare_checkpoints, rewound_cursor, roll_back,
  persisted_checkpoints, reconcile_with, has_continuous_parent_chain,
}
use bc_forge.Indexer.Cursor.Chain.{IsLinked, with_previous, has_continuous_parent_chain_iff}
use bc_forge.Indexer.Cursor.Reconcile.{reconcile_with-confirms}

abbrev pub fifth : LedgerCoordinate
fifth = record { ledger = 5; hash = "h5"; parent_hash = "h4" }

abbrev pub sixth : LedgerCoordinate
sixth = record { ledger = 6; hash = "h6"; parent_hash = "h5" }

abbrev pub replaced : LedgerCoordinate
replaced = record { ledger = 6; hash = "x6"; parent_hash = "h5" }

abbrev pub mint_at : ℕ → MintRow
mint_at n = record { to = "GA"; amount = b'4' ∷ []; ledger = n; tx_hash = "t" }

abbrev pub cursor : CursorRow
cursor = record { ledger = 6; hash = some "h6"; parent_hash = some "h5" }

abbrev pub indexed_db : Database
indexed_db = record {
  mints = mint_at 5 ∷ mint_at 6 ∷ [];
  transfers = [];
  burns = [];
  vault_deposits = [];
  wrapper_updates = [];
  vesting_claims = [];
  split_distributions = [];
  aggregates = empty_store;
  indexed_ledgers = sixth ∷ fifth ∷ [];
  last_indexed_ledger = some cursor;
}

abbrev pub remote : List LedgerCoordinate
remote = fifth ∷ replaced ∷ []

has_continuous_parent_chain_iff_example :
    (has_continuous_parent_chain (sixth ∷ []) (some fifth) ≡ true)
    ↔ IsLinked (with_previous (some fifth) (sixth ∷ []))
has_continuous_parent_chain_iff_example = has_continuous_parent_chain_iff (sixth ∷ []) (some fifth)

pub reconcile_replaced : reconcile_with remote cursor indexed_db ≡ (
  5,
  record indexed_db {
    mints = mint_at 5 ∷ [];
    indexed_ledgers = fifth ∷ [];
    last_indexed_ledger = some (record { ledger = 5; hash = some "h5"; parent_hash = some "h4" });
  },
)
unfolding reconcile_with compare_checkpoints persisted_checkpoints scan_checkpoints is_confirmed
    find_remote rewound_cursor roll_back sort_asc insert_asc
reconcile_replaced = refl

reconcile_with-confirms_example : is_confirmed remote fifth ≡ true
unfolding reconcile_with compare_checkpoints persisted_checkpoints scan_checkpoints is_confirmed
    find_remote rewound_cursor roll_back sort_asc insert_asc
reconcile_with-confirms_example =
    reconcile_with-confirms remote cursor indexed_db fifth (((omega arith), tt), (tt, tt))
      (inl refl) (omega arith) (omega arith)
