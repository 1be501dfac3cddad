-- ===== src/Indexer/Process/Unique.antt =====
-- The unique transaction hashes of the tables that `processEvent` writes (indexer/src/indexer.ts).
use Prim.Native.String.{String}
use bc_forge.Common.{
  ◌≡◌, refl, true, false, Option, none, some, List, arith, Option-cases, Bool-cases, inl, inr,
  ===_refl, ap, subst, sym, ◌∙◌,
}
use bc_forge.Common.Decimal.{Text}
use bc_forge.Indexer.Ledger.{LedgerEvent}
use bc_forge.Indexer.Aggregates.{AggregateStore, apply_ledger_event_aggregates}
use bc_forge.Indexer.Database.{Database}
use bc_forge.Indexer.Events.{
  Native, native_address, native_string, EventResponse, at, decode_mint, decode_burn, decode_xfer,
  decode_xfer_frm,
}
use bc_forge.Indexer.Process.{
  Ingestion, IndexerEventType, stored, duplicate, is_stored, type_of, create_row, with_aggregates,
  aggregate_options, persist_event_row, persist_token_event, persist_deposit,
  persist_wrapper_update, persist_vesting_claim, persist_split_distribution, Topic, xfer, xfer_frm,
  deposit, wrap, unwrap, v_rel, pyo_succ, other, process_topic, read_topic, process_event,
}

-- What a successful transaction wrote.
pub record Written (ev : LedgerEvent) (new_supply : Option Text) (e : EventResponse) (i : Ingestion)
    (db db' : Database) : Type 0 where
  pub aggregates : AggregateStore
  pub applied :
      apply_ledger_event_aggregates db.aggregates ev (aggregate_options e i new_supply)
      ≡ some aggregates
  pub written : db' ≡ with_aggregates (create_row ev e db) aggregates
  pub fresh : is_stored ev e.tx_hash db ≡ false

pub persist_event_row-Written :
    (ev : LedgerEvent) (new_supply : Option Text) (e : EventResponse) (i : Ingestion)
    (db db' : Database) (t : IndexerEventType)
    → persist_event_row ev new_supply e i db ≡ (db', stored t)
    → Written ev new_supply e i db db'
unfolding persist_event_row
persist_event_row-Written ev new_supply e i db db' t h =
    elim (Bool-cases (is_stored ev e.tx_hash db)) [
      | inl old ↦ absurd (ground arith)
      | inr fresh ↦
          let result =
            apply_ledger_event_aggregates db.aggregates ev (aggregate_options e i new_supply) in
          elim (Option-cases result) [
            | inl none_left ↦ absurd (ground arith)
            | inr (a, applied) ↦ record {
              aggregates = a;
              applied = applied;
              written = ground arith;
              fresh = fresh;
            }
          ]
    ]

-- Once a row is stored, its table has its transaction hash.
is_stored-create_row :
    (ev ev' : LedgerEvent) (e : EventResponse) (db : Database) (a : AggregateStore)
    → type_of ev ≡ type_of ev'
    → is_stored ev' e.tx_hash (with_aggregates (create_row ev e db) a) ≡ true
unfolding create_row
is_stored-create_row (LedgerEvent.mint _ _) (LedgerEvent.mint _ _) e db a same =
    rw (===_refl e.tx_hash)
is_stored-create_row (LedgerEvent.transfer _ _ _) (LedgerEvent.transfer _ _ _) e db a same =
    rw (===_refl e.tx_hash)
is_stored-create_row (LedgerEvent.burn _ _) (LedgerEvent.burn _ _) e db a same =
    rw (===_refl e.tx_hash)
is_stored-create_row _ _ e db a same = absurd (ground arith)

persist_event_row_duplicate :
    (ev : LedgerEvent) (new_supply : Option Text) (e : EventResponse) (i : Ingestion)
    (db : Database)
    → is_stored ev e.tx_hash db ≡ true
    → persist_event_row ev new_supply e i db ≡ (db, duplicate)
unfolding persist_event_row
persist_event_row_duplicate ev new_supply e i db h = rw h

persist_event_row_again :
    (ev ev' : LedgerEvent) (new_supply new_supply' : Option Text) (e e' : EventResponse)
    (i i' : Ingestion) (db db' : Database) (t : IndexerEventType)
    → e.tx_hash ≡ e'.tx_hash
    → persist_event_row ev new_supply e i db ≡ (db', stored t)
    → type_of ev ≡ type_of ev'
    → persist_event_row ev' new_supply' e' i' db' ≡ (db', duplicate)
persist_event_row_again ev ev' new_supply new_supply' e e' i i' db db' t hash h same =
    let w = persist_event_row-Written ev new_supply e i db db' t h in
    let row = is_stored-create_row ev ev' e db w.aggregates same in
    persist_event_row_duplicate ev' new_supply' e' i' db' (
      subst (λ d. is_stored ev' e'.tx_hash d ≡ true) (sym w.written)
        (subst (λ k. is_stored ev' k (with_aggregates (create_row ev e db) w.aggregates) ≡ true)
          hash row))

-- Both decodings, where they succeed, give events of one table.
abbrev HasType : IndexerEventType → Option (LedgerEvent × Option Text) → Type 0
HasType t none = Unit
HasType t (some (ev, _)) = type_of ev ≡ t

decode_mint-HasType : (d : List Native) → HasType IndexerEventType.mint (decode_mint d)
unfolding decode_mint
decode_mint-HasType d = elim (Option-cases (native_address (at d 1))) [
  | inl e ↦ rw e tt
  | inr (to, e) ↦ elim (Option-cases (native_string (at d 2))) [
    | inl f ↦ rw (e, f) tt
    | inr (n, f) ↦ rw (e, f)
  ]
]

decode_burn-HasType : (d : List Native) → HasType IndexerEventType.burn (decode_burn d)
unfolding decode_burn
decode_burn-HasType d = elim (Option-cases (native_address (at d 0))) [
  | inl e ↦ rw e tt
  | inr (to, e) ↦ elim (Option-cases (native_string (at d 1))) [
    | inl f ↦ rw (e, f) tt
    | inr (n, f) ↦ rw (e, f)
  ]
]

decode_xfer-HasType : (d : List Native) → HasType IndexerEventType.transfer (decode_xfer d)
unfolding decode_xfer
decode_xfer-HasType d = elim (Option-cases (native_address (at d 0))) [
  | inl e ↦ rw e tt
  | inr (from, e) ↦ elim (Option-cases (native_address (at d 1))) [
    | inl f ↦ rw (e, f) tt
    | inr (to, f) ↦ elim (Option-cases (native_string (at d 2))) [
      | inl g ↦ rw (e, f, g) tt
      | inr (n, g) ↦ rw (e, f, g)
    ]
  ]
]

decode_xfer_frm-HasType : (d : List Native) → HasType IndexerEventType.transfer (decode_xfer_frm d)
unfolding decode_xfer_frm
decode_xfer_frm-HasType d = elim (Option-cases (native_address (at d 1))) [
  | inl e ↦ rw e tt
  | inr (from, e) ↦ elim (Option-cases (native_address (at d 2))) [
    | inl f ↦ rw (e, f) tt
    | inr (to, f) ↦ elim (Option-cases (native_string (at d 3))) [
      | inl g ↦ rw (e, f, g) tt
      | inr (n, g) ↦ rw (e, f, g)
    ]
  ]
]

persist_token_event_again :
    (x x' : Option (LedgerEvent × Option Text)) (type : IndexerEventType) (e e' : EventResponse)
    (i i' : Ingestion) (db db' : Database) (t : IndexerEventType)
    → HasType type x
    → HasType type x'
    → e.tx_hash ≡ e'.tx_hash
    → persist_token_event x e i db ≡ (db', stored t)
    → (persist_token_event x' e' i' db').0 ≡ db'
unfolding persist_token_event
persist_token_event_again none x' type e e' i i' db db' t p q hash h = absurd (ground arith)
persist_token_event_again (some x) none type e e' i i' db db' t p q hash h = refl
persist_token_event_again (some (ev, s)) (some (ev', s')) type e e' i i' db db' t p q hash h =
    ap (λ r. r.0) (persist_event_row_again ev ev' s s' e e' i i' db db' t hash h (p ∙ sym q))

persist_deposit_again :
    (e e' : EventResponse) (db db' : Database) (t : IndexerEventType)
    → e.tx_hash ≡ e'.tx_hash
    → persist_deposit e db ≡ (db', stored t)
    → (persist_deposit e' db').0 ≡ db'
unfolding persist_deposit
persist_deposit_again e e' db db' t hash h = ground (arith, ===_refl e.tx_hash)

persist_wrapper_update_again :
    (k k' : String) (e e' : EventResponse) (db db' : Database) (t : IndexerEventType)
    → e.tx_hash ≡ e'.tx_hash
    → persist_wrapper_update k e db ≡ (db', stored t)
    → (persist_wrapper_update k' e' db').0 ≡ db'
unfolding persist_wrapper_update
persist_wrapper_update_again k k' e e' db db' t hash h = ground (arith, ===_refl e.tx_hash)

persist_vesting_claim_again :
    (e e' : EventResponse) (db db' : Database) (t : IndexerEventType)
    → e.tx_hash ≡ e'.tx_hash
    → persist_vesting_claim e db ≡ (db', stored t)
    → (persist_vesting_claim e' db').0 ≡ db'
unfolding persist_vesting_claim
persist_vesting_claim_again e e' db db' t hash h = ground (arith, ===_refl e.tx_hash)

persist_split_distribution_again :
    (e e' : EventResponse) (db db' : Database) (t : IndexerEventType)
    → e.tx_hash ≡ e'.tx_hash
    → persist_split_distribution e db ≡ (db', stored t)
    → (persist_split_distribution e' db').0 ≡ db'
unfolding persist_split_distribution
persist_split_distribution_again e e' db db' t hash h = ground (arith, ===_refl e.tx_hash)

process_topic_again :
    (topic : Topic) (e e' : EventResponse) (i i' : Ingestion) (db db' : Database)
    (t : IndexerEventType)
    → e.tx_hash ≡ e'.tx_hash
    → process_topic topic e i db ≡ (db', stored t)
    → (process_topic topic e' i' db').0 ≡ db'
unfolding process_topic
process_topic_again Topic.mint e e' i i' db db' t hash h =
    persist_token_event_again _ _ _ e e' i i' db db' t (decode_mint-HasType e.decoded)
      (decode_mint-HasType e'.decoded) hash h
process_topic_again Topic.burn e e' i i' db db' t hash h =
    persist_token_event_again _ _ _ e e' i i' db db' t (decode_burn-HasType e.decoded)
      (decode_burn-HasType e'.decoded) hash h
process_topic_again xfer e e' i i' db db' t hash h =
    persist_token_event_again _ _ _ e e' i i' db db' t (decode_xfer-HasType e.decoded)
      (decode_xfer-HasType e'.decoded) hash h
process_topic_again xfer_frm e e' i i' db db' t hash h =
    persist_token_event_again _ _ _ e e' i i' db db' t (decode_xfer_frm-HasType e.decoded)
      (decode_xfer_frm-HasType e'.decoded) hash h
process_topic_again deposit e e' i i' db db' t hash h = persist_deposit_again e e' db db' t hash h
process_topic_again wrap e e' i i' db db' t hash h =
    persist_wrapper_update_again "wrap" "wrap" e e' db db' t hash h
process_topic_again unwrap e e' i i' db db' t hash h =
    persist_wrapper_update_again "unwrap" "unwrap" e e' db db' t hash h
process_topic_again v_rel e e' i i' db db' t hash h =
    persist_vesting_claim_again e e' db db' t hash h
process_topic_again pyo_succ e e' i i' db db' t hash h =
    persist_split_distribution_again e e' db db' t hash h
process_topic_again other e e' i i' db db' t hash h = refl

-- Once an event is stored, every event of the same topic and transaction hash leaves the database
-- as it is: processing the event again does nothing, and neither does another event of the
-- transaction, whatever it moves.
pub process_event_again :
    (e e' : EventResponse) (i i' : Ingestion) (db db' : Database) (t : IndexerEventType)
    → e.topic ≡ e'.topic
    → e.tx_hash ≡ e'.tx_hash
    → process_event e i db ≡ (db', stored t)
    → (process_event e' i' db').0 ≡ db'
unfolding process_event
process_event_again e e' i i' db db' t topic hash h = elim (Option-cases e.topic) [
  | inl silent ↦ absurd (ground arith)
  | inr (s, spoken) ↦
      let spoken' : e'.topic ≡ some s = sym topic ∙ spoken in
      let again =
        process_topic_again (read_topic s) e e' i i' db db' t hash
          (rw (spoken, process_event) at h) in
      rw (spoken', process_event) again
]
