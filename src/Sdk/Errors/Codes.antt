-- ===== src/Sdk/Errors/Codes.antt =====
-- The discriminants of the SDK's contract errors and their classes (sdk/src/errors.ts).
use bc_forge.Common.{
  ℕ, ◌≡◌, refl, ◌∙◌, sym, ap, Bool, true, false, Option, some, List, [], ◌∷◌, arith, inl, inr, all,
  Option-cases, Bool-cases, ◌==◌,
}
use bc_forge.Common.Decimal.{Text}
use bc_forge.Sdk.Errors.{
  ContractError, token, admin, numeric_code, lookup_code, match_code, is_method_admin, error_of,
  token_or_admin, parse_contract_error,
}
use bc_forge.Sdk.Errors.Token.{TokenError, token_error_map, token_numeric_code}
use bc_forge.Sdk.Errors.Admin.{AdminError, admin_error_map, admin_numeric_code}

-- What is found under a number has that number, if every entry has.
lookup_code_keyed {ℓ} :
    {A : Type ℓ} (key : A → ℕ) (n : ℕ) (es : List (ℕ × A)) (a : A)
    → all (λ (e : ℕ × A). key e.1 == e.0) es ≡ true
    → lookup_code n es ≡ some a
    → key a ≡ n
unfolding lookup_code
lookup_code_keyed key n [] a h k = absurd (ground arith)
lookup_code_keyed key n ((m, b) ∷ es) a h k = elim (Bool-cases (m == n)) [
  | inl hit ↦ let found : b ≡ a = ground arith in rw (← found) (ground arith)
  | inr missed ↦ lookup_code_keyed key n es a (ground arith) (ground arith)
]

token_error_map_keyed :
    all (λ (e : ℕ × TokenError). token_numeric_code e.1 == e.0) token_error_map ≡ true
unfolding token_error_map
token_error_map_keyed = refl

admin_error_map_keyed :
    all (λ (e : ℕ × AdminError). admin_numeric_code e.1 == e.0) admin_error_map ≡ true
unfolding admin_error_map
admin_error_map_keyed = refl

token_or_admin_code :
    (n : ℕ) (raw : Text) (e : ContractError) → token_or_admin n raw ≡ some e → numeric_code e ≡ n
token_or_admin_code n raw e h = elim (Option-cases (lookup_code n token_error_map)) [
  | inr (t, k) ↦
      let same : token t raw ≡ e = ground arith in
      rw (← same) (lookup_code_keyed token_numeric_code n token_error_map t token_error_map_keyed k)
  | inl k ↦ elim (Option-cases (lookup_code n admin_error_map)) [
    | inr (a, l) ↦
        let same : admin a raw ≡ e = ground arith in
        rw (← same)
          (lookup_code_keyed admin_numeric_code n admin_error_map a admin_error_map_keyed l)
    | inl l ↦ absurd (ground arith)
  ]
]

error_of_code :
    (n : ℕ) (b : Bool) (raw : Text) (e : ContractError)
    → error_of n b raw ≡ some e
    → numeric_code e ≡ n
unfolding error_of
error_of_code n false raw e h = token_or_admin_code n raw e h
error_of_code n true raw e h = elim (Option-cases (lookup_code n admin_error_map)) [
  | inr (a, l) ↦
      let same : admin a raw ≡ e = ground arith in
      rw (← same) (lookup_code_keyed admin_numeric_code n admin_error_map a admin_error_map_keyed l)
  | inl l ↦ token_or_admin_code n raw e (ground arith)
]

-- An error that is parsed from a text carries the number that stands in the text.
pub numeric_code-parse_contract_error :
    (s : Text) (method : Option Text) (e : ContractError)
    → parse_contract_error s method ≡ some e
    → match_code s ≡ some (numeric_code e)
unfolding parse_contract_error
numeric_code-parse_contract_error [] method e h = absurd (ground arith)
numeric_code-parse_contract_error (c ∷ s) method e h = elim (Option-cases (match_code (c ∷ s))) [
  | inl k ↦ absurd (ground arith)
  | inr (n, k) ↦
      k ∙ ap some (sym (error_of_code n (is_method_admin method) (c ∷ s) e (ground arith)))
]

error_of-token :
    (t : TokenError) (raw : Text) → error_of (token_numeric_code t) false raw ≡ some (token t raw)
unfolding error_of lookup_code token_error_map
error_of-token TokenError.already_initialized raw = refl
error_of-token TokenError.not_initialized raw = refl
error_of-token TokenError.invalid_amount raw = refl
error_of-token TokenError.insufficient_balance raw = refl
error_of-token TokenError.insufficient_allowance raw = refl
error_of-token TokenError.contract_paused raw = refl
error_of-token TokenError.fee_not_configured raw = refl
error_of-token TokenError.insufficient_fee_balance raw = refl
error_of-token TokenError.fee_exemption_not_found raw = refl
error_of-token TokenError.max_supply_exceeded raw = refl
error_of-token TokenError.already_paused raw = refl
error_of-token TokenError.not_paused raw = refl
error_of-token TokenError.batch_too_large raw = refl
error_of-token TokenError.batch_empty raw = refl
error_of-token TokenError.payload_expired raw = refl
error_of-token TokenError.payload_replayed raw = refl
error_of-token TokenError.unknown_token raw = refl

error_of-admin :
    (a : AdminError) (raw : Text) → error_of (admin_numeric_code a) true raw ≡ some (admin a raw)
unfolding error_of lookup_code admin_error_map
error_of-admin AdminError.role_not_granted raw = refl
error_of-admin AdminError.role_not_held raw = refl
error_of-admin AdminError.unauthorized_role raw = refl
error_of-admin AdminError.invalid_address raw = refl
error_of-admin AdminError.invalid_role raw = refl
error_of-admin AdminError.already_initialized raw = refl
error_of-admin AdminError.invalid_threshold raw = refl
error_of-admin AdminError.proposal_not_found raw = refl
error_of-admin AdminError.proposal_already_executed raw = refl
error_of-admin AdminError.proposal_already_approved raw = refl
error_of-admin AdminError.threshold_not_met raw = refl
error_of-admin AdminError.quorum_not_met raw = refl
error_of-admin AdminError.timelock_active raw = refl
error_of-admin AdminError.invalid_wasm_hash raw = refl
error_of-admin AdminError.not_proposer raw = refl
error_of-admin AdminError.proposal_not_cancellable raw = refl
error_of-admin AdminError.upgrade_proposal_not_found raw = refl
error_of-admin AdminError.proposal_not_pending raw = refl
error_of-admin AdminError.duplicate_vote raw = refl
error_of-admin AdminError.unauthorized raw = refl
error_of-admin AdminError.batch_length_mismatch raw = refl
error_of-admin AdminError.role_already_granted raw = refl
error_of-admin AdminError.proposal_expired raw = refl
error_of-admin AdminError.proposal_cancelled raw = refl

-- Every class can be reached: a method of the admin contract gives the admin class of a number, any
-- other method the token class.
pub error_of-numeric_code :
    (t : TokenError) (a : AdminError) (raw : Text)
    → (error_of (token_numeric_code t) false raw ≡ some (token t raw))
      × (error_of (admin_numeric_code a) true raw ≡ some (admin a raw))
error_of-numeric_code t a raw = (error_of-token t raw, error_of-admin a raw)
