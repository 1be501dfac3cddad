-- ===== src/Indexer/Process.antt =====
-- Event processing of indexer/src/indexer.ts (`processEvent` and what it calls). A database call that violates a unique index, or throws otherwise, leaves the database alone, since
-- a row and its aggregates are written in one transaction.
pub mod Unique
pub mod Reindex
use Prim.Native.Char.{code}
use bc_forge.Common.{
  ℕ, Bool, true, false, Option, none, some, List, [], ◌∷◌, String, if◌then◌else◌, ◌===◌, ◌||◌,
  ◌>>=◌, any,
}
use bc_forge.Common.Int.{ℤ}
use bc_forge.Common.Decimal.{Text}
use bc_forge.Indexer.Ledger.{LedgerEvent, from_big_int}
use bc_forge.Indexer.Aggregates.{
  ApplyAggregatesOptions, AggregateStore, apply_ledger_event_aggregates,
}
use bc_forge.Indexer.Events.{
  EventResponse, at, sc_val_string, decode_mint, decode_burn, decode_xfer, decode_xfer_frm,
}
use bc_forge.Indexer.Database.{
  MintRow, TransferRow, BurnRow, VaultDepositRow, WrapperUpdateRow, VestingClaimRow,
  SplitDistributionRow, Database,
}

-- What the environment supplies: the current time, and the id that the database draws.
pub record Ingestion : Type 0 where
  pub now : ℕ
  pub id : ℕ

-- `IndexerEventType`
pub data IndexerEventType : Type 0 where
  mint transfer burn vault_deposit wrapper_update vesting_claim split_distribution :
      IndexerEventType

-- How a call ends: a row is stored and published, the unique index rejects it (`P2002`), another
-- error is logged, or the event is none that is indexed.
pub data Outcome : Type 0 where
  stored : IndexerEventType → Outcome
  duplicate : Outcome
  failed : Outcome
  ignored : Outcome

-- `ledgerCloseTime`
abbrev pub ledger_close_time : EventResponse → Ingestion → ℕ
ledger_close_time e i = elim e.ledger_closed_at [ none ↦ i.now | some t ↦ t ]

unfoldable pub aggregate_options : EventResponse → Ingestion → Option Text → ApplyAggregatesOptions
aggregate_options e i new_supply = record {
  ledger = e.ledger;
  tx_hash = e.tx_hash;
  timestamp = ledger_close_time e i;
  new_supply = new_supply;
  id = i.id;
}

-- The table that a token event is stored in.
abbrev pub is_stored : LedgerEvent → String → Database → Bool
is_stored (LedgerEvent.mint _ _) h db = any (λ (m : MintRow). m.tx_hash === h) db.mints
is_stored (LedgerEvent.transfer _ _ _) h db =
    any (λ (t : TransferRow). t.tx_hash === h) db.transfers
is_stored (LedgerEvent.burn _ _) h db = any (λ (b : BurnRow). b.tx_hash === h) db.burns

abbrev pub type_of : LedgerEvent → IndexerEventType
type_of (LedgerEvent.mint _ _) = IndexerEventType.mint
type_of (LedgerEvent.transfer _ _ _) = IndexerEventType.transfer
type_of (LedgerEvent.burn _ _) = IndexerEventType.burn

-- `tx[model].create({ data })`
unfoldable pub create_row : LedgerEvent → EventResponse → Database → Database
create_row (LedgerEvent.mint to n) e db = record db {
  mints = record { to = to; amount = n; ledger = e.ledger; tx_hash = e.tx_hash } ∷ db.mints;
}
create_row (LedgerEvent.transfer from to n) e db = record db {
  transfers =
      record { from = from; to = to; amount = n; ledger = e.ledger; tx_hash = e.tx_hash }
      ∷ db.transfers;
}
create_row (LedgerEvent.burn from n) e db = record db {
  burns = record { from = from; amount = n; ledger = e.ledger; tx_hash = e.tx_hash } ∷ db.burns;
}

abbrev pub with_aggregates : Database → AggregateStore → Database
with_aggregates db a = record db { aggregates = a }

-- `persistEventRow`: the row and its aggregates, in one transaction.
unfoldable pub persist_event_row :
    LedgerEvent → Option Text → EventResponse → Ingestion → Database → Database × Outcome
persist_event_row ev new_supply e i db =
    if is_stored ev e.tx_hash db
    then (db, duplicate)
    else elim (apply_ledger_event_aggregates db.aggregates ev (aggregate_options e i new_supply)) [
      | none ↦ (db, failed)
      | some a ↦ (with_aggregates (create_row ev e db) a, stored (type_of ev))
    ]

-- A decoding that throws ends in the handler of the errors.
abbrev pub or_failed {ℓ} :
    {A : Type ℓ} → Option A → Database → (A → Database × Outcome) → Database × Outcome
or_failed none db f = (db, failed)
or_failed (some a) db f = f a

unfoldable pub persist_deposit : EventResponse → Database → Database × Outcome
persist_deposit e db = or_failed (sc_val_string (at e.decoded 0)) db λ caller.
    or_failed (sc_val_string (at e.decoded 1)) db λ assets.
      or_failed (sc_val_string (at e.decoded 2)) db λ shares.
        if any (λ (r : VaultDepositRow). r.tx_hash === e.tx_hash) db.vault_deposits
        then (db, duplicate)
        else (
          record db {
            vault_deposits =
                record {
                  caller = caller;
                  assets = assets;
                  shares = shares;
                  ledger = e.ledger;
                  tx_hash = e.tx_hash;
                }
                ∷ db.vault_deposits;
          },
          stored vault_deposit,
        )

-- The cases `wrap` and `unwrap`, which differ in the kind.
unfoldable pub persist_wrapper_update : String → EventResponse → Database → Database × Outcome
persist_wrapper_update kind e db = or_failed (sc_val_string (at e.decoded 0)) db λ caller.
    or_failed (sc_val_string (at e.decoded 1)) db λ amount.
      or_failed (sc_val_string (at e.decoded 2)) db λ result_amount.
        if any (λ (r : WrapperUpdateRow). r.tx_hash === e.tx_hash) db.wrapper_updates
        then (db, duplicate)
        else (
          record db {
            wrapper_updates =
                record {
                  kind = kind;
                  caller = caller;
                  amount = amount;
                  result_amount = result_amount;
                  ledger = e.ledger;
                  tx_hash = e.tx_hash;
                }
                ∷ db.wrapper_updates;
          },
          stored wrapper_update,
        )

unfoldable pub persist_vesting_claim : EventResponse → Database → Database × Outcome
persist_vesting_claim e db = or_failed (sc_val_string (at e.decoded 0)) db λ beneficiary.
    or_failed (sc_val_string (at e.decoded 1)) db λ amount.
      if any (λ (r : VestingClaimRow). r.tx_hash === e.tx_hash) db.vesting_claims
      then (db, duplicate)
      else (
        record db {
          vesting_claims =
              record {
                beneficiary = beneficiary;
                amount = amount;
                ledger = e.ledger;
                tx_hash = e.tx_hash;
              }
              ∷ db.vesting_claims;
        },
        stored vesting_claim,
      )

unfoldable pub persist_split_distribution : EventResponse → Database → Database × Outcome
persist_split_distribution e db = or_failed (sc_val_string (at e.decoded 0)) db λ invoice_id.
    or_failed (sc_val_string (at e.decoded 1)) db λ recipient.
      or_failed (sc_val_string (at e.decoded 2)) db λ amount.
        if any (λ (r : SplitDistributionRow). r.tx_hash === e.tx_hash) db.split_distributions
        then (db, duplicate)
        else (
          record db {
            split_distributions =
                record {
                  invoice_id = invoice_id;
                  recipient = recipient;
                  amount = amount;
                  ledger = e.ledger;
                  tx_hash = e.tx_hash;
                }
                ∷ db.split_distributions;
          },
          stored split_distribution,
        )

unfoldable pub persist_token_event :
    Option (LedgerEvent × Option Text) → EventResponse → Ingestion → Database → Database × Outcome
persist_token_event none e i db = (db, failed)
persist_token_event (some (ev, new_supply)) e i db = persist_event_row ev new_supply e i db

-- The cases of the `switch` of `processEvent`.
pub data Topic : Type 0 where
  mint burn xfer xfer_frm deposit wrap unwrap v_rel pyo_succ other : Topic

unfoldable pub read_topic : String → Topic
read_topic topic =
    if topic === "mint"
    then Topic.mint
    else if topic === "burn"
    then Topic.burn
    else if topic === "xfer"
    then xfer
    else if topic === "xfer_frm"
    then xfer_frm
    else if topic === "deposit"
    then deposit
    else if topic === "wrap"
    then wrap
    else if topic === "unwrap"
    then unwrap
    else if topic === "v_rel"
    then v_rel
    else if topic === "pyo_succ"
    then pyo_succ
    else other

unfoldable pub process_topic : Topic → EventResponse → Ingestion → Database → Database × Outcome
process_topic Topic.mint e i db = persist_token_event (decode_mint e.decoded) e i db
process_topic Topic.burn e i db = persist_token_event (decode_burn e.decoded) e i db
process_topic xfer e i db = persist_token_event (decode_xfer e.decoded) e i db
process_topic xfer_frm e i db = persist_token_event (decode_xfer_frm e.decoded) e i db
process_topic deposit e i db = persist_deposit e db
process_topic wrap e i db = persist_wrapper_update "wrap" e db
process_topic unwrap e i db = persist_wrapper_update "unwrap" e db
process_topic v_rel e i db = persist_vesting_claim e db
process_topic pyo_succ e i db = persist_split_distribution e db
process_topic other e i db = (db, ignored)

-- `processEvent`
unfoldable pub process_event : EventResponse → Ingestion → Database → Database × Outcome
process_event e i db = elim e.topic [
  | none ↦ (db, ignored)
  | some topic ↦ process_topic (read_topic topic) e i db
]
