-- ===== src/Sdk/Events/Data.antt =====
-- The data tuples of the events (sdk/src/events.ts), with and without a version. The elements of a
-- tuple are of any type; `Number` of an element is a parameter.
use bc_forge.Common.{
  ℕ, zero, suc, Option, none, some, List, [], ◌∷◌, if◌then◌else◌, ◌==◌, length, ◌>>=◌,
}
use bc_forge.Common.Int.{ℤ, pos}

-- A JavaScript value that stands for a contract value: an array of elements or an element.
pub data Native {ℓ} (N : Type ℓ) : Type ℓ where
  array : List N → Native N
  single : N → Native N

-- The fields of a tuple, of which `none` as version is a value that is no integer.
pub record Tuple {ℓ} (N : Type ℓ) : Type ℓ where
  pub fields : List N
  pub version : Option ℤ

module _ {ℓ} {N : Type ℓ} where
  -- `data[i]`
  abbrev pub get_elem? : ℕ → List N → Option N
  get_elem? i [] = none
  get_elem? zero (x ∷ xs) = some x
  get_elem? (suc i) (x ∷ xs) = get_elem? i xs

  unfoldable pub decode_versioned_tuple : (N → Option ℤ) → ℕ → Native N → Option (Tuple N)
  decode_versioned_tuple number field_count (single n) = none
  decode_versioned_tuple number field_count (array fields) =
      if length fields == suc field_count
      then some (record { fields = fields; version = get_elem? field_count fields >>= number })
      else if length fields == field_count
      then some (record { fields = fields; version = some (pos 0) })
      else none

pub record MintEventData {ℓ} (N : Type ℓ) : Type ℓ where
  pub version : Option ℤ
  pub admin : N
  pub to : N
  pub amount : N
  pub new_balance : N
  pub new_supply : N

pub record BurnEventData {ℓ} (N : Type ℓ) : Type ℓ where
  pub version : Option ℤ
  pub from : N
  pub amount : N
  pub new_balance : N
  pub new_supply : N

pub record TransferEventData {ℓ} (N : Type ℓ) : Type ℓ where
  pub version : Option ℤ
  pub from : N
  pub to : N
  pub amount : N

pub record TransferFromEventData {ℓ} (N : Type ℓ) : Type ℓ where
  pub version : Option ℤ
  pub spender : N
  pub from : N
  pub to : N
  pub amount : N
  pub remaining_allowance : N

pub record DepositEventData {ℓ} (N : Type ℓ) : Type ℓ where
  pub version : Option ℤ
  pub caller : N
  pub assets : N
  pub shares : N

pub record WithdrawEventData {ℓ} (N : Type ℓ) : Type ℓ where
  pub version : Option ℤ
  pub caller : N
  pub shares : N
  pub underlying_amount : N

module _ {ℓ} {N : Type ℓ} where
  -- The assignments to the names of the fields; a tuple that is decoded has enough of them.
  abbrev pub mint_of : Option ℤ → List N → Option (MintEventData N)
  mint_of v (a ∷ b ∷ c ∷ d ∷ e ∷ rest) =
      some (record { version = v; admin = a; to = b; amount = c; new_balance = d; new_supply = e })
  mint_of v xs = none

  abbrev pub burn_of : Option ℤ → List N → Option (BurnEventData N)
  burn_of v (a ∷ b ∷ c ∷ d ∷ rest) =
      some (record { version = v; from = a; amount = b; new_balance = c; new_supply = d })
  burn_of v xs = none

  abbrev pub transfer_of : Option ℤ → List N → Option (TransferEventData N)
  transfer_of v (a ∷ b ∷ c ∷ rest) = some (record { version = v; from = a; to = b; amount = c })
  transfer_of v xs = none

  abbrev pub transfer_from_of : Option ℤ → List N → Option (TransferFromEventData N)
  transfer_from_of v (a ∷ b ∷ c ∷ d ∷ e ∷ rest) =
      some
        (record { version = v; spender = a; from = b; to = c; amount = d; remaining_allowance = e })
  transfer_from_of v xs = none

  abbrev pub deposit_of : Option ℤ → List N → Option (DepositEventData N)
  deposit_of v (a ∷ b ∷ c ∷ rest) =
      some (record { version = v; caller = a; assets = b; shares = c })
  deposit_of v xs = none

  abbrev pub withdraw_of : Option ℤ → List N → Option (WithdrawEventData N)
  withdraw_of v (a ∷ b ∷ c ∷ rest) =
      some (record { version = v; caller = a; shares = b; underlying_amount = c })
  withdraw_of v xs = none

  unfoldable pub decode_mint_event_data : (N → Option ℤ) → Native N → Option (MintEventData N)
  unfolding decode_versioned_tuple
  decode_mint_event_data number value =
      decode_versioned_tuple number 5 value >>= λ t. mint_of t.version t.fields

  unfoldable pub decode_burn_event_data : (N → Option ℤ) → Native N → Option (BurnEventData N)
  unfolding decode_versioned_tuple
  decode_burn_event_data number value =
      decode_versioned_tuple number 4 value >>= λ t. burn_of t.version t.fields

  unfoldable pub decode_transfer_event_data :
      (N → Option ℤ) → Native N → Option (TransferEventData N)
  unfolding decode_versioned_tuple
  decode_transfer_event_data number value =
      decode_versioned_tuple number 3 value >>= λ t. transfer_of t.version t.fields

  unfoldable pub decode_transfer_from_event_data :
      (N → Option ℤ) → Native N → Option (TransferFromEventData N)
  unfolding decode_versioned_tuple
  decode_transfer_from_event_data number value =
      decode_versioned_tuple number 5 value >>= λ t. transfer_from_of t.version t.fields

  unfoldable pub decode_deposit_event_data : (N → Option ℤ) → Native N → Option (DepositEventData N)
  unfolding decode_versioned_tuple
  decode_deposit_event_data number value =
      decode_versioned_tuple number 3 value >>= λ t. deposit_of t.version t.fields

  unfoldable pub decode_withdraw_event_data :
      (N → Option ℤ) → Native N → Option (WithdrawEventData N)
  unfolding decode_versioned_tuple
  decode_withdraw_event_data number value =
      decode_versioned_tuple number 3 value >>= λ t. withdraw_of t.version t.fields
