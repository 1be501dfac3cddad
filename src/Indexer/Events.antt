-- ===== src/Indexer/Events.antt =====
-- The events that the indexer reads, as the vendor's `scValToNative` has decoded them, and how
-- `processEvent` (indexer/src/indexer.ts) takes the data tuple of each family apart.
use bc_forge.Common.{ℕ, Option, none, some, List, [], ◌∷◌, String, ◌>>=◌}
use bc_forge.Common.Int.{ℤ}
use bc_forge.Common.Decimal.{Text}
use bc_forge.Common.Texts.{codes}
use bc_forge.Indexer.Ledger.{LedgerEvent, from_big_int}

-- A decoded element: an address or symbol, a number, or nothing.
pub data Native : Type 0 where
  text : String → Native
  num : ℤ → Native
  null : Native

-- An event response: the first topic if there is one, the data tuple, where it was confirmed.
pub record EventResponse : Type 0 where
  pub topic : Option String
  pub decoded : List Native
  pub ledger : ℕ
  pub tx_hash : String
  pub ledger_closed_at : Option ℕ

abbrev pub at {ℓ} : {A : Type ℓ} → List A → ℕ → Option A
at [] i = none
at (x ∷ xs) ℕ.zero = some x
at (x ∷ xs) (ℕ.suc i) = at xs i

-- `decoded[i]` where the row wants a text.
unfoldable pub native_address : Option Native → Option String
native_address (some (text s)) = some s
native_address (some (num _)) = none
native_address (some null) = none
native_address none = none

-- `decoded[i].toString()`
unfoldable pub native_string : Option Native → Option Text
native_string (some (text s)) = some (codes s)
native_string (some (num v)) = some (from_big_int v)
native_string (some null) = none
native_string none = none

-- `decoded[i]?.toString()`
unfoldable pub optional_string : Option Native → Option Text
optional_string (some (text s)) = some (codes s)
optional_string (some (num v)) = some (from_big_int v)
optional_string (some null) = none
optional_string none = none

-- `scValString`
unfoldable pub sc_val_string : Option Native → Option Text
sc_val_string (some (text s)) = some (codes s)
sc_val_string (some (num v)) = some (from_big_int v)
sc_val_string (some null) = none
sc_val_string none = none

-- (admin, to, amount, new_balance, new_supply, version)
unfoldable pub decode_mint : List Native → Option (LedgerEvent × Option Text)
decode_mint d = do
  to ← native_address (at d 1)
  n ← native_string (at d 2)
  some (LedgerEvent.mint to n, optional_string (at d 4))

-- (from, amount, new_balance, new_supply, version)
unfoldable pub decode_burn : List Native → Option (LedgerEvent × Option Text)
decode_burn d = do
  from ← native_address (at d 0)
  n ← native_string (at d 1)
  some (LedgerEvent.burn from n, optional_string (at d 3))

-- (from, to, amount, version)
unfoldable pub decode_xfer : List Native → Option (LedgerEvent × Option Text)
decode_xfer d = do
  from ← native_address (at d 0)
  to ← native_address (at d 1)
  n ← native_string (at d 2)
  some (LedgerEvent.transfer from to n, none)

-- (spender, from, to, amount, remaining_allowance, version)
unfoldable pub decode_xfer_frm : List Native → Option (LedgerEvent × Option Text)
decode_xfer_frm d = do
  from ← native_address (at d 1)
  to ← native_address (at d 2)
  n ← native_string (at d 3)
  some (LedgerEvent.transfer from to n, none)
