-- ===== src/Sdk/Events/Decoding.antt =====
-- The decoding of an event of the RPC server and of a diagnostic event of a simulation
-- (sdk/src/events.ts). `scValToNative`, which may throw, is a parameter, and so is the text of an
-- element that is one.
use bc_forge.Common.{
  ℕ, Option, none, some, List, [], ◌∷◌, String, if◌then◌else◌, ◌===◌, find, ◌>>=◌,
}
use bc_forge.Sdk.Events.Data.{Native, array, single}

pub data BcForgeEventType : Type 0 where
  initialized : BcForgeEventType
  mint : BcForgeEventType
  burn : BcForgeEventType
  transfer : BcForgeEventType
  transfer_from : BcForgeEventType
  approve : BcForgeEventType
  ownership_transferred : BcForgeEventType
  paused : BcForgeEventType
  unpaused : BcForgeEventType
  clawback : BcForgeEventType
  locked : BcForgeEventType
  withdraw_locked : BcForgeEventType

abbrev pub event_type_text : BcForgeEventType → String
event_type_text initialized = "init"
event_type_text mint = "mint"
event_type_text burn = "burn"
event_type_text transfer = "xfer"
event_type_text transfer_from = "xfer_frm"
event_type_text approve = "approve"
event_type_text ownership_transferred = "own_xfer"
event_type_text paused = "paused"
event_type_text unpaused = "unpause"
event_type_text clawback = "clawback"
event_type_text locked = "lock"
event_type_text withdraw_locked = "unlock"

-- `Object.values(bcForgeEventType)`
abbrev pub event_types : List BcForgeEventType
event_types =
    initialized ∷ mint ∷ burn ∷ transfer ∷ transfer_from ∷ approve ∷ ownership_transferred ∷ paused
    ∷ unpaused ∷ clawback ∷ locked ∷ withdraw_locked ∷ []

-- What the vendor library and the runtime give: `none` is a throw in `sc_val_to_native`, and a value
-- that is no text in `text_of`.
pub record Values {ℓ κ} (V : Type ℓ) (N : Type κ) : Type (ℓ ⊔ κ) where
  pub sc_val_to_native : V → Option (Native N)
  pub text_of : N → Option String

-- An event of `getEvents`; a missing topic is the empty one.
pub record EventResponse {ℓ} (V : Type ℓ) : Type ℓ where
  pub id : String
  pub ledger : ℕ
  pub topic : List V
  pub value : V
  pub contract_id : Option String
  pub tx_hash : Option String

pub record BcForgeEvent {ℓ} (N : Type ℓ) : Type ℓ where
  pub type_name : String
  pub ledger : ℕ
  pub contract_id : String
  pub data_ : Native N
  pub tx_hash : Option String

-- A diagnostic event of version 0.
pub record DiagnosticEvent {ℓ} (V : Type ℓ) : Type ℓ where
  pub type_name : String
  pub contract_id : Option String
  pub topics : List V
  pub data_ : V

-- `x ?? y`
abbrev pub or_else {ℓ} : {A : Type ℓ} → Option A → A → A
or_else none y = y
or_else (some x) y = x

module _ {ℓ κ} {V : Type ℓ} {N : Type κ} (vs : Values V N) where
  abbrev text_of_native : Native N → Option String
  text_of_native (array xs) = none
  text_of_native (single n) = vs.text_of n

  -- The text of the first topic.
  abbrev pub topic_symbol : List V → Option String
  topic_symbol [] = none
  topic_symbol (v ∷ topics) = vs.sc_val_to_native v >>= text_of_native

  abbrev pub find_type : Option String → Option BcForgeEventType
  find_type none = none
  find_type (some s) = find (λ t. event_type_text t === s) event_types

  unfoldable pub decode_event : EventResponse V → Option (BcForgeEvent N)
  decode_event e = do
    type_ ← find_type (topic_symbol e.topic)
    value ← vs.sc_val_to_native e.value
    some (record {
      type_name = event_type_text type_;
      ledger = e.ledger;
      contract_id = or_else e.contract_id "";
      data_ = value;
      tx_hash = some (or_else e.tx_hash e.id);
    })

  unfoldable pub decode_diagnostic_event : DiagnosticEvent V → Option (BcForgeEvent N)
  decode_diagnostic_event e =
      if e.type_name === "contract"
      then (do
        type_ ← find_type (topic_symbol e.topics)
        value ← vs.sc_val_to_native e.data_
        some (record {
          type_name = event_type_text type_;
          ledger = 0;
          contract_id = or_else e.contract_id "";
          data_ = value;
          tx_hash = none;
        }))
      else none

  unfoldable pub decode_simulation_events : List (DiagnosticEvent V) → List (BcForgeEvent N)
  unfolding decode_diagnostic_event
  decode_simulation_events [] = []
  decode_simulation_events (e ∷ es) =
      let rest = decode_simulation_events es in
      elim (decode_diagnostic_event e) [ none ↦ rest | some d ↦ d ∷ rest ]
