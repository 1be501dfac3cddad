-- ===== src/Sdk/Submit/Fees.antt =====
-- The fees that `submitTransaction` (sdk/src/utils.ts) builds transactions with.
use bc_forge.Common.{
  ℕ, zero, suc, ◌≤◌, ◌≡◌, refl, max, Bool, true, false, ◌&&◌, Option, none, some, List, [], ◌∷◌,
  ◌++◌, All, ◌⊎◌, inl, inr, ltb, arith,
}
use bc_forge.Common.Decimal.{Text}
use bc_forge.Common.Texts.{codes}
use bc_forge.Sdk.Submit.{
  SubmitError, contract, timeout, submission, other, SendStatus, error, accepted, SendResponse,
  GetTransactionResponse, Rpc, SubmitTransactionOptions, Tried, responded, caught, Handled, raised,
  kept, cap, bumped_fee, sent, try_attempt, handle, handle_as, send_failed, send_failed_as,
  rebuild_or, rebuild_or_raise, ErrorKind, contract_failure, bad_sequence, insufficient_fee,
  unclassified, kind_of_result, kind_of_message, or_text, finish, poll, rebuild, rebuild_caught,
  submit_from, after_send, after_status, after_poll, can_bump, after_try, after_catch, Run,
  first_fee, submit_transaction, error_str, or_default,
}

All-append {ℓ κ} :
    {A : Type ℓ} (P : A → Type κ) (xs ys : List A) → All P xs → All P ys → All P (xs ++ ys)
All-append P [] ys h k = k
All-append P (x ∷ xs) ys (p, h) k = (p, All-append P xs ys h k)

module _ {Xdr : Type 0} (rpc : Rpc Xdr) (options : SubmitTransactionOptions) (lo hi : ℕ)
    (capped : cap rpc options ≤ hi) where
  abbrev InBand : ℕ → Type 0
  InBand f = (lo ≤ f) × (f ≤ hi)

  abbrev TriedInBand : Tried Xdr → Type 0
  TriedInBand (responded r) = Unit
  TriedInBand (Tried.resend xdr f) = InBand f
  TriedInBand (caught f e) = InBand f

  abbrev HandledInBand : Handled Xdr → Type 0
  HandledInBand (raised e) = Unit
  HandledInBand (Handled.resend xdr f) = InBand f
  HandledInBand (kept e) = Unit

  -- A bumped fee stays in the band.
  bumped-InBand :
      (fee : ℕ)
      → InBand fee
      → ltb fee (cap rpc options) ≡ true
      → InBand (bumped_fee (cap rpc options) fee)
  bumped-InBand fee h below = ground arith

  finish-InBand :
      (fee : ℕ) (r : GetTransactionResponse) → InBand fee → TriedInBand (finish rpc options fee r)
  unfolding finish
  finish-InBand fee r h = ground arith

  record TriedBand (p : Tried Xdr × List ℕ) : Type 0 where
    fee_in : TriedInBand p.0
    fees_in : All InBand p.1

  record HandledBand (p : Handled Xdr × List ℕ) : Type 0 where
    fee_in : HandledInBand p.0
    fees_in : All InBand p.1

  rebuild-InBand : (attempt fee : ℕ) → InBand fee → TriedBand (rebuild rpc options attempt fee)
  rebuild-InBand attempt fee h = record { fee_in = ground arith; fees_in = ground arith }

  rebuild_caught-InBand :
      (attempt fee : ℕ) → InBand fee → HandledBand (rebuild_caught rpc options attempt fee)
  rebuild_caught-InBand attempt fee h = record { fee_in = ground arith; fees_in = ground arith }

  rebuild_or-InBand :
      (b : Bool) (attempt new_fee fee : ℕ) (e : SubmitError)
      → (b ≡ true → InBand new_fee)
      → InBand fee
      → TriedBand (rebuild_or rpc options b attempt new_fee fee e)
  unfolding rebuild_or
  rebuild_or-InBand true attempt new_fee fee e h k = rebuild-InBand attempt new_fee (h refl)
  rebuild_or-InBand false attempt new_fee fee e h k = record { fee_in = k; fees_in = tt }

  can_bump-InBand :
      (again : Bool) (fee : ℕ)
      → InBand fee
      → can_bump rpc options again fee ≡ true
      → InBand (bumped_fee (cap rpc options) fee)
  can_bump-InBand again fee h e = bumped-InBand fee h (ground arith)

  send_failed_as-InBand :
      (k : ErrorKind) (again : Bool) (attempt fee : ℕ) (text detail : Text)
      → InBand fee
      → TriedBand (send_failed_as rpc options k again attempt fee text detail)
  unfolding send_failed_as
  send_failed_as-InBand contract_failure again attempt fee text detail h = record {
    fee_in = h;
    fees_in = tt;
  }
  send_failed_as-InBand bad_sequence again attempt fee text detail h =
      rebuild_or-InBand (again && options.has_context) attempt fee fee
        (submission (codes "Transaction submission failed (sequence error): " ++ detail)) (λ _. h) h
  send_failed_as-InBand insufficient_fee again attempt fee text detail h =
      rebuild_or-InBand (can_bump rpc options again fee) attempt (bumped_fee (cap rpc options) fee)
        fee (submission (codes "Transaction submission failed (fee error): " ++ detail))
        (can_bump-InBand again fee h) h
  send_failed_as-InBand unclassified again attempt fee text detail h = record {
    fee_in = h;
    fees_in = tt;
  }

  after_poll-InBand :
      (fee : ℕ) (g : SubmitError ⊎ GetTransactionResponse)
      → InBand fee
      → TriedBand (after_poll rpc options fee g)
  unfolding after_poll
  after_poll-InBand fee (inl e) h = record { fee_in = h; fees_in = tt }
  after_poll-InBand fee (inr r) h = record { fee_in = finish-InBand fee r h; fees_in = tt }

  after_status-InBand :
      (again : Bool) (attempt fee : ℕ) (r : SendResponse) (s : SendStatus)
      → InBand fee
      → TriedBand (after_status rpc options again attempt fee r s)
  unfolding after_status send_failed
  after_status-InBand again attempt fee r error h =
      send_failed_as-InBand (kind_of_result (error_str r)) again attempt fee (error_str r)
        (or_text r.error_result (error_str r)) h
  after_status-InBand again attempt fee r accepted h =
      after_poll-InBand fee (poll rpc options attempt 29 0 r.hash) h

  after_send-InBand :
      (again : Bool) (attempt fee : ℕ) (r : SubmitError ⊎ SendResponse)
      → InBand fee
      → TriedBand (after_send rpc options again attempt fee r)
  unfolding after_send
  after_send-InBand again attempt fee (inl e) h = record { fee_in = h; fees_in = tt }
  after_send-InBand again attempt fee (inr r) h = after_status-InBand again attempt fee r r.status h

  rebuild_or_raise-InBand :
      (b : Bool) (attempt new_fee : ℕ) (e : SubmitError)
      → (b ≡ true → InBand new_fee)
      → HandledBand (rebuild_or_raise rpc options b attempt new_fee e)
  unfolding rebuild_or_raise
  rebuild_or_raise-InBand true attempt new_fee e h = rebuild_caught-InBand attempt new_fee (h refl)
  rebuild_or_raise-InBand false attempt new_fee e h = record { fee_in = tt; fees_in = tt }

  handle_as-InBand :
      (k : ErrorKind) (again : Bool) (attempt fee : ℕ) (e : SubmitError)
      → InBand fee
      → HandledBand (handle_as rpc options k again attempt fee e)
  unfolding handle_as
  handle_as-InBand contract_failure again attempt fee e h = record { fee_in = tt; fees_in = tt }
  handle_as-InBand bad_sequence again attempt fee e h =
      rebuild_or_raise-InBand (again && options.has_context) attempt fee e (λ _. h)
  handle_as-InBand insufficient_fee again attempt fee e h =
      rebuild_or_raise-InBand (can_bump rpc options again fee) attempt
        (bumped_fee (cap rpc options) fee) e (can_bump-InBand again fee h)
  handle_as-InBand unclassified again attempt fee e h = record { fee_in = tt; fees_in = tt }

  handle-InBand :
      (again : Bool) (attempt fee : ℕ) (e : SubmitError)
      → InBand fee
      → HandledBand (handle rpc options again attempt fee e)
  unfolding handle
  handle-InBand again attempt fee (contract c) h = record { fee_in = tt; fees_in = tt }
  handle-InBand again attempt fee timeout h = record { fee_in = tt; fees_in = tt }
  handle-InBand again attempt fee (submission m) h =
      handle_as-InBand (kind_of_message m) again attempt fee (submission m) h
  handle-InBand again attempt fee (other m) h =
      handle_as-InBand (kind_of_message m) again attempt fee (other m) h

  -- The rest of a loop that stays in the band.
  abbrev StaysInBand : (Xdr → ℕ → Option SubmitError → Run rpc options) → Type 0
  StaysInBand continue =
      (xdr : Xdr) (fee : ℕ) (e : Option SubmitError)
      → InBand fee
      → All InBand (continue xdr fee e).1

  after_catch-InBand :
      (continue : Xdr → ℕ → Option SubmitError → Run rpc options) (xdr : Xdr) (fee : ℕ)
      (last : Option SubmitError) (h : Handled Xdr) (fees : List ℕ)
      → StaysInBand continue
      → InBand fee
      → HandledBand (h, fees)
      → All InBand (after_catch rpc options continue xdr fee last (h, fees)).1
  after_catch-InBand continue xdr fee last (raised e) fees k b hs = hs.fees_in
  after_catch-InBand continue xdr fee last (Handled.resend xdr' fee') fees k b hs =
      All-append InBand fees (continue xdr' fee' last).1 hs.fees_in (k xdr' fee' last hs.fee_in)
  after_catch-InBand continue xdr fee last (kept e) fees k b hs =
      All-append InBand fees (continue xdr fee (some e)).1 hs.fees_in (k xdr fee (some e) b)

  after_try-InBand :
      (continue : Xdr → ℕ → Option SubmitError → Run rpc options) (again : Bool) (attempt : ℕ)
      (xdr : Xdr) (last : Option SubmitError) (t : Tried Xdr) (fees : List ℕ)
      → StaysInBand continue
      → TriedBand (t, fees)
      → All InBand (after_try rpc options continue again attempt xdr last (t, fees)).1
  after_try-InBand continue again attempt xdr last (responded r) fees k hs = hs.fees_in
  after_try-InBand continue again attempt xdr last (Tried.resend xdr' fee') fees k hs =
      All-append InBand fees (continue xdr' fee' last).1 hs.fees_in (k xdr' fee' last hs.fee_in)
  after_try-InBand continue again attempt xdr last (caught fee e) fees k hs =
      let handled = handle rpc options again attempt fee e in
      All-append InBand fees (after_catch rpc options continue xdr fee last handled).1 hs.fees_in (
        after_catch-InBand continue xdr fee last handled.0 handled.1 k hs.fee_in
          (handle-InBand again attempt fee e hs.fee_in))

  submit_from-InBand :
      (more attempt : ℕ) (xdr : Xdr) (fee : ℕ) (last : Option SubmitError)
      → InBand fee
      → All InBand (submit_from rpc options more attempt xdr fee last).1
  unfolding submit_from try_attempt
  submit_from-InBand zero attempt xdr fee last h = tt
  submit_from-InBand (suc more) attempt xdr fee last h =
      let tried =
        after_send rpc options (ltb 0 more) (suc attempt) fee
          (sent rpc options (suc attempt) xdr) in
      after_try-InBand (submit_from rpc options more (suc attempt)) (ltb 0 more) (suc attempt) xdr
        last tried.0 tried.1
        (λ xdr' fee' e h'. submit_from-InBand more (suc attempt) xdr' fee' e h')
        (after_send-InBand (ltb 0 more) (suc attempt) fee (sent rpc options (suc attempt) xdr) h)

-- Every fee that a retry asks a transaction to be built with is at least the fee of the transaction
-- given, and at most the larger of that fee and the cap, whatever the server answers.
pub submit_transaction-InBand :
    {Xdr : Type 0} (rpc : Rpc Xdr) (options : SubmitTransactionOptions) (xdr : Xdr)
    → All
        (λ f.
          (first_fee rpc options xdr ≤ f) × (f ≤ max (first_fee rpc options xdr) (cap rpc options)))
        (submit_transaction rpc options xdr).1
unfolding submit_transaction
submit_transaction-InBand rpc options xdr =
    submit_from-InBand rpc options (first_fee rpc options xdr)
      (max (first_fee rpc options xdr) (cap rpc options)) (omega arith)
      (or_default 3 options.max_attempts) 0 xdr (first_fee rpc options xdr) none
      (omega arith, omega arith)
