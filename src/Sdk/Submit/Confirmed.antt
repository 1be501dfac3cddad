-- ===== src/Sdk/Submit/Confirmed.antt =====
-- What a transaction that `submitTransaction` (sdk/src/utils.ts) answers with is.
use bc_forge.Common.{ℕ, ◌+◌, ◌≤◌, ◌≡◌, Bool, true, false, Option, List, inr}
use bc_forge.Common.Decimal.{Text}
use bc_forge.Sdk.Submit.{
  SubmitError, accepted, SendResponse, success, GetTransactionResponse, Rpc,
  SubmitTransactionOptions, Tried, responded, caught, sent, Run,
}

module _ {Xdr : Type 0} (rpc : Rpc Xdr) (options : SubmitTransactionOptions) where
  -- An answer to a poll, one of 30, for the hash of a sending that the server accepted in one of the
  -- first attempts.
  pub record IsConfirmed (attempts : ℕ) (r : GetTransactionResponse) : Type 0 where
    pub attempt : ℕ
    pub first : 1 ≤ attempt
    pub last : attempt ≤ attempts
    pub xdr : Xdr
    pub sending : SendResponse
    pub sent_as : sent rpc options attempt xdr ≡ inr sending
    pub was_accepted : sending.status ≡ accepted
    pub turn : ℕ
    pub in_time : turn + 1 ≤ 30
    pub polled : rpc.get_transaction attempt turn sending.hash ≡ inr r
    pub succeeded : r.status ≡ success

  -- The turn of the polling that gave its answer.
  record IsPolled (attempt from to : ℕ) (hash : Text) (r : GetTransactionResponse) : Type 0 where
    turn : ℕ
    in_time : turn ≤ to
    polled : rpc.get_transaction attempt turn hash ≡ inr r

  abbrev is_responded : Tried Xdr × List ℕ → Bool
  is_responded (responded r, fees) = true
  is_responded (Tried.resend xdr fee, fees) = false
  is_responded (caught fee e, fees) = false

  abbrev StaysConfirmed : ℕ → (Xdr → ℕ → Option SubmitError → Run rpc options) → Type 0
  StaysConfirmed n continue =
      (xdr : Xdr) (fee : ℕ) (e : Option SubmitError) (r : GetTransactionResponse)
      → (continue xdr fee e).0 ≡ inr r
      → IsConfirmed n r
