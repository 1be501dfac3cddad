-- ===== src/Sdk/Events/Reported.antt =====
-- Which transactions the listeners of sdk/src/events.ts report: `onMint`, `onTransfer` and
-- `onVaultDeposit`.
use bc_forge.Common.{
  ℕ, ◌≡◌, refl, ap, ◌∙◌, Bool, true, not, ◌||◌, Option, none, some, List, String, arith, eq_iff,
  ===_refl, if◌then◌else◌, ◌===◌, is_nonempty, Bool-cases, Option-cases, inl, inr, ◌>>=◌,
}
use bc_forge.Common.Int.{ℤ}
use bc_forge.Sdk.Events.Data.{
  Native, MintEventData, DepositEventData, decode_mint_event_data, decode_transfer_event_data,
  decode_transfer_from_event_data, decode_deposit_event_data,
}
use bc_forge.Sdk.Events.Decoding.{
  Values, EventResponse, BcForgeEvent, decode_event, or_else, topic_symbol, find_type,
}
use bc_forge.Sdk.Events.Listeners.{
  Polled, Matched, other, polls, listen, subscribed, first_truthy, with_data, Moved, moved,
  moved_from, hash_of, mint_of_event, transfer_of_event, deposit_event, deposit_of_value,
  match_mint, match_transfer, match_deposit,
}
use bc_forge.Sdk.Events.Transactions.{
  are_of_distinct_transactions, is_tied_match, AreTied, has_hash_of, distinct_hashes,
  on_matched-AreTied, with_data-tied, with_data-has_hash,
}
use bc_forge.Sdk.Events.Once.{polls_keep, polls_distinct}

module _ {ℓ κ} {V : Type ℓ} {N : Type κ} (vs : Values V N) (number : N → Option ℤ) where
  mint_of_event-tied :
      (e : EventResponse V) (o : Option (BcForgeEvent N))
      → is_tied_match (mint_of_event vs number e o) ≡ true
  mint_of_event-tied e none = refl
  mint_of_event-tied e (some d) = elim (Bool-cases (d.type_name === "mint")) [
    | inl k ↦ rw k (
        with_data-tied d.tx_hash (first_truthy e.tx_hash e.id) d
          (decode_mint_event_data number d.data_) refl)
    | inr k ↦ rw k refl
  ]

  transfer_of_event-tied :
      (e : EventResponse V) (o : Option (BcForgeEvent N))
      → is_tied_match (transfer_of_event vs number e o) ≡ true
  transfer_of_event-tied e none = refl
  transfer_of_event-tied e (some d) = elim (Bool-cases (d.type_name === "xfer")) [
    | inl k ↦ rw k (
        with_data-tied d.tx_hash (first_truthy e.tx_hash e.id) d
          (decode_transfer_event_data number d.data_ >>= λ t. some (moved t)) refl)
    | inr k ↦ elim (Bool-cases (d.type_name === "xfer_frm")) [
      | inl j ↦
          rw (k, j)
            (with_data-tied d.tx_hash (first_truthy e.tx_hash e.id) d
              (decode_transfer_from_event_data number d.data_ >>= λ t. some (moved_from t)) refl)
      | inr j ↦ rw (k, j) refl
    ]
  ]

  first_tied :
      (h : String) (contract_id : String) (e : EventResponse V) (value : Native N)
      (o : Option (DepositEventData N))
      → h ≡ first_truthy e.tx_hash e.id
      → is_tied_match (with_data h (deposit_event vs number contract_id e value) o) ≡ true
  first_tied h contract_id e value none s = refl
  first_tied h contract_id e value (some x) s =
      ground (arith, (eq_iff h (first_truthy e.tx_hash e.id)).1 s)

  deposit_of_value-tied :
      (contract_id : String) (e : EventResponse V) (o : Option (Native N))
      → is_tied_match (deposit_of_value vs number contract_id e o) ≡ true
  deposit_of_value-tied contract_id e none = refl
  deposit_of_value-tied contract_id e (some value) =
      first_tied (first_truthy e.tx_hash e.id) contract_id e value
        (decode_deposit_event_data number value) refl

  match_deposit-tied :
      (contract_id : String) (e : EventResponse V)
      → is_tied_match (match_deposit vs number contract_id e) ≡ true
  unfolding match_deposit
  match_deposit-tied contract_id e =
      elim (Bool-cases (or_else (topic_symbol vs e.topic) "" === "deposit")) [
        | inl k ↦ rw k (deposit_of_value-tied contract_id e (vs.sc_val_to_native e.value))
        | inr k ↦ rw k refl
      ]

  -- An event is decoded with the hash of its answer.
  keeps_hash :
      (t : Option String) (y : String)
      → (not (is_nonempty (or_else t "")) || or_else t y === or_else t "") ≡ true
  keeps_hash none y = refl
  keeps_hash (some s) y = ground (arith, ===_refl s)

  keeps_first :
      (t : Option String) (y : String)
      → (not (is_nonempty (or_else t "")) || first_truthy t y === or_else t "") ≡ true
  keeps_first none y = refl
  keeps_first (some s) y = elim (Bool-cases (is_nonempty s)) [
    | inl f ↦ rw f (===_refl s)
    | inr f ↦ rw f refl
  ]

  decode_event-hash :
      (e : EventResponse V) (d : BcForgeEvent N)
      → decode_event vs e ≡ some d
      → (not (is_nonempty (or_else e.tx_hash "")) || or_else d.tx_hash "" === or_else e.tx_hash "")
        ≡ true
  unfolding decode_event
  decode_event-hash e d h = elim (Option-cases (find_type vs (topic_symbol vs e.topic))) [
    | inl k ↦ absurd (ground arith)
    | inr (t, k) ↦ elim (Option-cases (vs.sc_val_to_native e.value)) [
      | inl j ↦ absurd (ground arith)
      | inr (v, j) ↦
          let made : d.tx_hash ≡ some (or_else e.tx_hash e.id) = ground arith in
          ap
            (λ u. not (is_nonempty (or_else e.tx_hash "")) || or_else u "" === or_else e.tx_hash "")
            made
          ∙ keeps_hash e.tx_hash e.id
    ]
  ]

  decoded_hash :
      (e : EventResponse V) (o : Option (BcForgeEvent N))
      → decode_event vs e ≡ o
      → (has_hash_of e.tx_hash (mint_of_event vs number e o) ≡ true)
        × (has_hash_of e.tx_hash (transfer_of_event vs number e o) ≡ true)
  decoded_hash e none h = (refl, refl)
  decoded_hash e (some d) h =
      let kept = decode_event-hash e d h in
      let hash = hash_of vs number d e in (mint_hash kept hash, transfer_hash kept hash)
    where
      mint_hash :
          (not (is_nonempty (or_else e.tx_hash ""))
              || or_else d.tx_hash "" === or_else e.tx_hash "")
            ≡ true
          → (h : String)
          → has_hash_of e.tx_hash (
              if d.type_name === "mint"
              then with_data h d (decode_mint_event_data number d.data_)
              else other)
            ≡ true
      mint_hash kept h = elim (Bool-cases (d.type_name === "mint")) [
        | inl k ↦
            rw k (with_data-has_hash e.tx_hash h d (decode_mint_event_data number d.data_) kept)
        | inr k ↦ rw k refl
      ]

      transfer_hash :
          (not (is_nonempty (or_else e.tx_hash ""))
              || or_else d.tx_hash "" === or_else e.tx_hash "")
            ≡ true
          → (h : String)
          → has_hash_of e.tx_hash (
              if d.type_name === "xfer"
              then with_data h d (decode_transfer_event_data number d.data_ >>= λ t. some (moved t))
              else if d.type_name === "xfer_frm"
              then with_data h d
                  (decode_transfer_from_event_data number d.data_ >>= λ t. some (moved_from t))
              else other)
            ≡ true
      transfer_hash kept h = elim (Bool-cases (d.type_name === "xfer")) [
        | inl k ↦ rw k (
            with_data-has_hash e.tx_hash h d
              (decode_transfer_event_data number d.data_ >>= λ t. some (moved t)) kept)
        | inr k ↦ elim (Bool-cases (d.type_name === "xfer_frm")) [
          | inl j ↦
              rw (k, j)
                (with_data-has_hash e.tx_hash h d
                  (decode_transfer_from_event_data number d.data_ >>= λ t. some (moved_from t))
                  kept)
          | inr j ↦ rw (k, j) refl
        ]
      ]

  deposit_hash :
      (contract_id : String) (e : EventResponse V) (o : Option (Native N))
      → has_hash_of e.tx_hash (deposit_of_value vs number contract_id e o) ≡ true
  deposit_hash contract_id e none = refl
  deposit_hash contract_id e (some value) =
      with_data-has_hash e.tx_hash (first_truthy e.tx_hash e.id)
        (deposit_event vs number contract_id e value) (decode_deposit_event_data number value)
        (keeps_first e.tx_hash e.id)

  match_deposit-hash :
      (contract_id : String) (e : EventResponse V)
      → has_hash_of e.tx_hash (match_deposit vs number contract_id e) ≡ true
  unfolding match_deposit
  match_deposit-hash contract_id e =
      elim (Bool-cases (or_else (topic_symbol vs e.topic) "" === "deposit")) [
        | inl k ↦ rw k (deposit_hash contract_id e (vs.sc_val_to_native e.value))
        | inr k ↦ rw k refl
      ]

  polled_distinct {μ} :
      {X : Type μ} (callback : BcForgeEvent N × X → Bool)
      (match_event : EventResponse V → Matched (BcForgeEvent N × X)) (answers : List (Polled V))
      (ledger : ℕ)
      → ((e : EventResponse V) → is_tied_match (match_event e) ≡ true)
      → are_of_distinct_transactions
          (polls (listen callback match_event) answers (subscribed ledger)).calls
        ≡ true
  unfolding listen
  polled_distinct callback match_event answers ledger tied =
      distinct_hashes (polls (listen callback match_event) answers (subscribed ledger)).calls
        (polls_keep AreTied (listen callback match_event)
          (λ e l. on_matched-AreTied callback e.ledger (match_event e) l (tied e)) answers
          (subscribed ledger) refl)
        (polls_distinct callback match_event answers ledger)

  -- Over all polls of a subscription of `onMint`, `onTransfer` and `onVaultDeposit`, whatever the
  -- server answers and whether or not the callback throws, no two calls of the callback are given
  -- events of one transaction, where the hash of an event is not empty; and an event that a callback
  -- is given has the transaction hash of the server's event, where that is not empty.
  pub polls-are_of_distinct_transactions :
      (contract_id : String) (on_mint : BcForgeEvent N × MintEventData N → Bool)
      (on_transfer : BcForgeEvent N × Moved N → Bool)
      (on_deposit : BcForgeEvent N × DepositEventData N → Bool) (answers : List (Polled V))
      (ledger : ℕ) (e : EventResponse V)
      → ((are_of_distinct_transactions
              (polls (listen on_mint (match_mint vs number)) answers (subscribed ledger)).calls
            ≡ true)
          × (are_of_distinct_transactions
                (polls
                  (listen on_transfer (match_transfer vs number))
                  answers
                  (subscribed ledger)).calls
              ≡ true)
          × (are_of_distinct_transactions
                (polls
                  (listen on_deposit (match_deposit vs number contract_id))
                  answers
                  (subscribed ledger)).calls
              ≡ true))
        × ((has_hash_of e.tx_hash (match_mint vs number e) ≡ true)
            × (has_hash_of e.tx_hash (match_transfer vs number e) ≡ true)
            × (has_hash_of e.tx_hash (match_deposit vs number contract_id e) ≡ true))
  unfolding match_mint match_transfer
  polls-are_of_distinct_transactions contract_id on_mint on_transfer on_deposit answers ledger e = (
    (
      polled_distinct on_mint (match_mint vs number) answers ledger
          (λ f. mint_of_event-tied f (decode_event vs f)),
      polled_distinct on_transfer (match_transfer vs number) answers ledger
          (λ f. transfer_of_event-tied f (decode_event vs f)),
      polled_distinct on_deposit (match_deposit vs number contract_id) answers ledger
          (match_deposit-tied contract_id),
    ),
    (
      (decoded_hash e (decode_event vs e) refl).0,
      (decoded_hash e (decode_event vs e) refl).1,
      match_deposit-hash contract_id e,
    ),
  )
