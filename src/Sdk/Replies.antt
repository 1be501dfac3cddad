-- ===== src/Sdk/Replies.antt =====
-- What a method of the in-memory clients answers (`TransactionResult`, sdk/src/client.ts), or that
-- it throws.
use bc_forge.Common.{Bool, true, false, String, not}
use bc_forge.Common.Int.{ℤ}

pub data ReturnValue : Type 0 where
  null : ReturnValue
  message : String → ReturnValue
  amount : ℤ → ReturnValue

pub record TransactionResult : Type 0 where
  pub success : Bool
  pub hash : String
  pub return_value : ReturnValue

-- `threw`: the promise is rejected; what was written before stays written.
pub data Reply : Type 0 where
  replied : TransactionResult → Reply
  threw : Reply

abbrev pub answered : ReturnValue → Reply
answered v = replied (record { success = true; hash = "mock-hash"; return_value = v })

abbrev pub done : Reply
done = answered null

abbrev pub rejected : String → Reply
rejected text =
    replied (record { success = false; hash = "mock-hash"; return_value = message text })

-- An answer without success; a call that throws gives no answer.
abbrev pub is_refusal : Reply → Bool
is_refusal (replied r) = not r.success
is_refusal threw = false

abbrev pub has_succeeded : Reply → Bool
has_succeeded (replied r) = r.success
has_succeeded threw = false
