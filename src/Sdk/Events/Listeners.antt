-- ===== src/Sdk/Events/Listeners.antt =====
-- The polling of sdk/src/events.ts: `subscribeEvents`, `onMint`, `onTransfer` and `onVaultDeposit`
-- as functions of the answers of `getEvents`, one for each poll. A callback is a test that is false
-- where it throws. The timer and the end of the subscription are left out.
use bc_forge.Common.{
  ℕ, suc, Bool, ◌&&◌, Option, none, some, List, [], ◌∷◌, String, if◌then◌else◌, ◌===◌, leb, any,
  is_nonempty, ◌>>=◌,
}
use bc_forge.Common.Int.{ℤ}
use bc_forge.Sdk.Events.Data.{
  Native, MintEventData, TransferEventData, TransferFromEventData, DepositEventData,
  decode_mint_event_data, decode_transfer_event_data, decode_transfer_from_event_data,
  decode_deposit_event_data,
}
use bc_forge.Sdk.Events.Decoding.{
  Values, EventResponse, BcForgeEvent, decode_event, topic_symbol, or_else,
}

-- An answer to `getEvents`: its events, or an error that is caught.
pub data Polled {ℓ} (V : Type ℓ) : Type ℓ where
  failed_poll : Polled V
  got_events : List (EventResponse V) → Polled V

-- A call of the callback, with the hash that the listener remembers for it.
pub record Call {ℓ} (D : Type ℓ) : Type ℓ where
  pub hash : String
  pub ledger : ℕ
  pub payload : D

-- `lastLedger`, `seenTxHashes` and the calls of the callback, the newest first.
pub record Listener {ℓ} (D : Type ℓ) : Type ℓ where
  pub last_ledger : ℕ
  pub seen : List String
  pub calls : List (Call D)

-- What a listener makes of an event before it calls back: no event of its kind; or one, with its
-- hash and, after the hash is remembered, no data, the data, or a throw.
pub data Matched {ℓ} (D : Type ℓ) : Type ℓ where
  other : Matched D
  matched : String → Matched D
  called : String → D → Matched D
  thrown : String → Matched D

-- The state after an event, and whether the rest of the answer is looked at.
pub data After {ℓ} (D : Type ℓ) : Type ℓ where
  going : Listener D → After D
  stopped : Listener D → After D

module _ {ℓ} {D : Type ℓ} where
  -- A subscription from a ledger, the start that is asked for or the latest.
  abbrev pub subscribed : ℕ → Listener D
  subscribed ledger = record { last_ledger = ledger; seen = []; calls = [] }

  -- `if (event.ledger >= lastLedger) lastLedger = event.ledger + 1`
  abbrev pub advance : ℕ → Listener D → Listener D
  advance ledger l = record l {
    last_ledger = if leb l.last_ledger ledger then suc ledger else l.last_ledger;
  }

  -- `txHash && seenTxHashes.has(txHash)`
  abbrev pub is_seen : String → Listener D → Bool
  is_seen hash l = is_nonempty hash && any (λ h. h === hash) l.seen

  -- `if (txHash) seenTxHashes.add(txHash)`
  abbrev pub remember : String → Listener D → Listener D
  remember hash l = record l { seen = if is_nonempty hash then hash ∷ l.seen else l.seen }

  abbrev pub called_with : String → ℕ → D → Listener D → Listener D
  called_with hash ledger d l = record l {
    calls = record { hash = hash; ledger = ledger; payload = d } ∷ l.calls;
  }

  -- The loop's body, in the order of the source: a seen hash is left with `continue`, before the
  -- ledger is advanced.
  unfoldable pub on_matched : (D → Bool) → ℕ → Matched D → Listener D → After D
  on_matched callback ledger other l = going (advance ledger l)
  on_matched callback ledger (matched hash) l =
      if is_seen hash l then going l else going (advance ledger (remember hash l))
  on_matched callback ledger (called hash d) l =
      let made = called_with hash ledger d (remember hash l) in
      if is_seen hash l
      then going l
      else if callback d
      then going (advance ledger made)
      else stopped made
  on_matched callback ledger (thrown hash) l =
      if is_seen hash l then going l else stopped (remember hash l)

module _ {ℓ κ} {V : Type ℓ} {D : Type κ} where
  -- The loop over the events of an answer, by its body.
  unfoldable pub on_events :
      (EventResponse V → Listener D → After D) → List (EventResponse V) → Listener D → Listener D
  on_events step [] l = l
  on_events step (e ∷ es) l = elim (step e l) [ going m ↦ on_events step es m | stopped m ↦ m ]

  -- One `poll`.
  unfoldable pub poll_events :
      (EventResponse V → Listener D → After D) → Polled V → Listener D → Listener D
  unfolding on_events
  poll_events step failed_poll l = l
  poll_events step (got_events es) l = on_events step es l

  -- The polls of a subscription, by their answers.
  unfoldable pub polls :
      (EventResponse V → Listener D → After D) → List (Polled V) → Listener D → Listener D
  unfolding poll_events
  polls step [] l = l
  polls step (p ∷ ps) l = polls step ps (poll_events step p l)

  -- The body of the loop of `onMint`, `onTransfer` and `onVaultDeposit`.
  unfoldable pub listen :
      (D → Bool) → (EventResponse V → Matched D) → EventResponse V → Listener D → After D
  unfolding on_matched
  listen callback match_event e l = on_matched callback e.ledger (match_event e) l

-- `decoded.txHash || eventResponse.txHash || eventResponse.id`
abbrev pub first_truthy : Option String → String → String
first_truthy none y = y
first_truthy (some x) y = if is_nonempty x then x else y

-- A call with an event and its data, if the decoder accepts them.
abbrev pub with_data {ℓ κ} : {E : Type ℓ} {D : Type κ} → String → E → Option D → Matched (E × D)
with_data hash d none = matched hash
with_data hash d (some data_) = called hash (d, data_)

-- The data of `xfer` or of `xfer_frm`.
pub data Moved {ℓ} (N : Type ℓ) : Type ℓ where
  moved : TransferEventData N → Moved N
  moved_from : TransferFromEventData N → Moved N

module _ {ℓ κ} {V : Type ℓ} {N : Type κ} (vs : Values V N) (number : N → Option ℤ) where
  abbrev pub hash_of : BcForgeEvent N → EventResponse V → String
  hash_of d e = first_truthy d.tx_hash (first_truthy e.tx_hash e.id)

  abbrev pub mint_of_event :
      EventResponse V → Option (BcForgeEvent N) → Matched (BcForgeEvent N × MintEventData N)
  mint_of_event e none = other
  mint_of_event e (some d) =
      if d.type_name === "mint"
      then with_data (hash_of d e) d (decode_mint_event_data number d.data_)
      else other

  -- `onMint`
  unfoldable pub match_mint : EventResponse V → Matched (BcForgeEvent N × MintEventData N)
  unfolding decode_event decode_mint_event_data
  match_mint e = mint_of_event e (decode_event vs e)

  abbrev pub transfer_of_event :
      EventResponse V → Option (BcForgeEvent N) → Matched (BcForgeEvent N × Moved N)
  transfer_of_event e none = other
  transfer_of_event e (some d) =
      if d.type_name === "xfer"
      then with_data (hash_of d e) d
          (decode_transfer_event_data number d.data_ >>= λ t. some (moved t))
      else if d.type_name === "xfer_frm"
      then with_data (hash_of d e) d
          (decode_transfer_from_event_data number d.data_ >>= λ t. some (moved_from t))
      else other

  -- `onTransfer`
  unfoldable pub match_transfer : EventResponse V → Matched (BcForgeEvent N × Moved N)
  unfolding decode_event decode_transfer_event_data decode_transfer_from_event_data
  match_transfer e = transfer_of_event e (decode_event vs e)

  -- The event that is made up for a deposit.
  abbrev pub deposit_event : String → EventResponse V → Native N → BcForgeEvent N
  deposit_event contract_id e value = record {
    type_name = "deposit";
    ledger = e.ledger;
    contract_id = or_else e.contract_id contract_id;
    data_ = value;
    tx_hash = some (first_truthy e.tx_hash e.id);
  }

  abbrev pub deposit_of_value :
      String → EventResponse V → Option (Native N) → Matched (BcForgeEvent N × DepositEventData N)
  deposit_of_value contract_id e none = thrown (first_truthy e.tx_hash e.id)
  deposit_of_value contract_id e (some value) =
      with_data (first_truthy e.tx_hash e.id) (deposit_event contract_id e value)
        (decode_deposit_event_data number value)

  -- `onVaultDeposit`
  unfoldable pub match_deposit :
      String → EventResponse V → Matched (BcForgeEvent N × DepositEventData N)
  unfolding decode_deposit_event_data
  match_deposit contract_id e =
      if or_else (topic_symbol vs e.topic) "" === "deposit"
      then deposit_of_value contract_id e (vs.sc_val_to_native e.value)
      else other

module _ {ℓ κ} {V : Type ℓ} {N : Type κ} (vs : Values V N) (callback : BcForgeEvent N → Bool) where
  abbrev pub on_decoded :
      ℕ → Option (BcForgeEvent N) → Listener (BcForgeEvent N) → After (BcForgeEvent N)
  on_decoded ledger none l = going (advance ledger l)
  on_decoded ledger (some d) l =
      let made = called_with (or_else d.tx_hash "") ledger d l in
      if callback d then going (advance ledger made) else stopped made

  -- The body of the loop of `subscribeEvents`, which remembers no hashes.
  unfoldable pub subscribe : EventResponse V → Listener (BcForgeEvent N) → After (BcForgeEvent N)
  unfolding decode_event
  subscribe e l = on_decoded e.ledger (decode_event vs e) l
