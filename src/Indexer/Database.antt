-- ===== src/Indexer/Database.antt =====
-- The tables of the indexer (indexer/prisma/schema.prisma) with the queries that the code makes.
-- Row ids and creation times, which no code reads, are left out.
pub mod Checkpoints
use bc_forge.Common.{
  ℕ, Bool, Option, none, some, List, [], ◌∷◌, String, if◌then◌else◌, ◌===◌, ◌==◌, ◌||◌, any, keep,
  leb, ltb,
}
use bc_forge.Common.Decimal.{Text}
use bc_forge.Indexer.Aggregates.{AggregateStore}

pub record MintRow : Type 0 where
  pub to : String
  pub amount : Text
  pub ledger : ℕ
  pub tx_hash : String

pub record TransferRow : Type 0 where
  pub from : String
  pub to : String
  pub amount : Text
  pub ledger : ℕ
  pub tx_hash : String

pub record BurnRow : Type 0 where
  pub from : String
  pub amount : Text
  pub ledger : ℕ
  pub tx_hash : String

pub record VaultDepositRow : Type 0 where
  pub caller : Text
  pub assets : Text
  pub shares : Text
  pub ledger : ℕ
  pub tx_hash : String

pub record WrapperUpdateRow : Type 0 where
  pub kind : String
  pub caller : Text
  pub amount : Text
  pub result_amount : Text
  pub ledger : ℕ
  pub tx_hash : String

pub record VestingClaimRow : Type 0 where
  pub beneficiary : Text
  pub amount : Text
  pub ledger : ℕ
  pub tx_hash : String

pub record SplitDistributionRow : Type 0 where
  pub invoice_id : Text
  pub recipient : Text
  pub amount : Text
  pub ledger : ℕ
  pub tx_hash : String

-- `LedgerCoordinate`, and a row of `IndexedLedger`.
pub record LedgerCoordinate : Type 0 where
  pub ledger : ℕ
  pub hash : String
  pub parent_hash : String

-- The row of `LastIndexedLedger`.
pub record CursorRow : Type 0 where
  pub ledger : ℕ
  pub hash : Option String
  pub parent_hash : Option String

pub record Database : Type 0 where
  pub mints : List MintRow
  pub transfers : List TransferRow
  pub burns : List BurnRow
  pub vault_deposits : List VaultDepositRow
  pub wrapper_updates : List WrapperUpdateRow
  pub vesting_claims : List VestingClaimRow
  pub split_distributions : List SplitDistributionRow
  pub aggregates : AggregateStore
  pub indexed_ledgers : List LedgerCoordinate
  pub last_indexed_ledger : Option CursorRow

-- `indexedLedger.createMany({ skipDuplicates })`: `ledger` and `hash` are unique.
abbrev pub is_duplicate : LedgerCoordinate → LedgerCoordinate → Bool
is_duplicate c row = row.ledger == c.ledger || row.hash === c.hash

unfoldable pub create_many : List LedgerCoordinate → List LedgerCoordinate → List LedgerCoordinate
create_many [] rows = rows
create_many (c ∷ cs) rows = create_many cs (if any (is_duplicate c) rows then rows else c ∷ rows)

-- `orderBy: { ledger: 'asc' }`
unfoldable pub insert_asc : LedgerCoordinate → List LedgerCoordinate → List LedgerCoordinate
insert_asc c [] = c ∷ []
insert_asc c (d ∷ ds) = if leb c.ledger d.ledger then c ∷ d ∷ ds else d ∷ insert_asc c ds

unfoldable pub sort_asc : List LedgerCoordinate → List LedgerCoordinate
sort_asc [] = []
sort_asc (c ∷ cs) = insert_asc c (sort_asc cs)
