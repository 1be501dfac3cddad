-- ===== src/Indexer/Api/Access.antt =====
-- Who reaches the interface (indexer/src/api.ts, `requireApiToken`), and the targets of the webhooks
-- that it keeps. Texts are lists of character codes here. `Buffer.from`, `timingSafeEqual` and `URL`
-- are parameters.
use bc_forge.Common.{
  ℕ, ◌≡◌, refl, sym, ap, ◌∙◌, Bool, true, false, not, ◌||◌, Option, none, some, List, [], ◌∷◌, ◌++◌,
  arith, ◌==◌, if◌then◌else◌, Bool-cases, Option-cases, length, all, leb, ◌&&◌, inl, inr, ◌↔◌,
}
use bc_forge.Common.Decimal.{Text}
use bc_forge.Common.Texts.{codes, strip_prefix, same_char}

-- What Node gives: the bytes of a text, and the comparison of two buffers of one length.
pub record Buffers : Type 0 where
  pub bytes : Text → List ℕ
  pub timing_safe_equal : List ℕ → List ℕ → Bool

-- A Unicode scalar value: a code point that is no surrogate.
abbrev pub is_scalar : ℕ → Bool
is_scalar c = leb c 55295 || (leb 57344 c && leb c 1114111)

-- A text without lone surrogates, for each of which UTF-8 has the bytes of U+FFFD.
abbrev pub is_well_formed : Text → Bool
is_well_formed s = all is_scalar s

-- As Node and Unicode document it: well-formed texts with the same bytes in UTF-8 are the same, and
-- the comparison decides equality of buffers of one length.
pub record AreExact (b : Buffers) : Type 0 where
  pub injective :
      (s t : Text)
      → is_well_formed s ≡ true
      → is_well_formed t ≡ true
      → b.bytes s ≡ b.bytes t
      → s ≡ t
  pub compares :
      (xs ys : List ℕ) → length xs ≡ length ys → (b.timing_safe_equal xs ys ≡ true) ↔ (xs ≡ ys)

unfoldable pub tokens_match : Buffers → Text → Text → Bool
tokens_match b presented expected =
    if length (b.bytes presented) == length (b.bytes expected)
    then b.timing_safe_equal (b.bytes presented) (b.bytes expected)
    else false

abbrev pub bearer_prefix : Text
bearer_prefix = codes "Bearer "

abbrev pub text_or_empty : Option Text → Text
text_or_empty none = []
text_or_empty (some s) = s

-- The token of the header `authorization`.
unfoldable pub presented_token : Option Text → Text
unfolding strip_prefix
presented_token header = text_or_empty (strip_prefix same_char bearer_prefix (text_or_empty header))

abbrev pub is_empty_text : Text → Bool
is_empty_text [] = true
is_empty_text (c ∷ s) = false

pub data Access : Type 0 where
  next : Access
  unauthorized : Access

-- The condition of `requireApiToken`.
unfoldable pub is_refused : Buffers → Text → Text → Bool
unfolding tokens_match
is_refused b expected presented =
    is_empty_text expected || is_empty_text presented || not (tokens_match b presented expected)

-- `requireApiToken`, with `INDEXER_API_TOKEN` and the header.
unfoldable pub require_api_token : Buffers → Option Text → Option Text → Access
require_api_token b expected header =
    if is_refused b (text_or_empty expected) (presented_token header) then unauthorized else next

tokens_match_iff :
    (b : Buffers) (presented expected : Text)
    → AreExact b
    → is_well_formed presented ≡ true
    → is_well_formed expected ≡ true
    → (tokens_match b presented expected ≡ true) ↔ (presented ≡ expected)
unfolding tokens_match
tokens_match_iff b s t exact ws wt = elim (Bool-cases (length (b.bytes s) == length (b.bytes t))) [
  | inl same ↦
      let decided = exact.compares (b.bytes s) (b.bytes t) (ground arith) in
      (
        λ h. exact.injective s t ws wt (decided.0 (ground arith)),
        λ e. rw same (decided.1 (ap b.bytes e)),
      )
  | inr other ↦
      (λ h. absurd (ground arith), λ e. absurd (ground (arith, ap (λ u. length (b.bytes u)) e)))
]

strip_prefix_found : (p s rest : Text) → strip_prefix same_char p s ≡ some rest → s ≡ p ++ rest
unfolding strip_prefix
strip_prefix_found [] s rest h = ground arith
strip_prefix_found (c ∷ p) [] rest h = ground arith
strip_prefix_found (c ∷ p) (d ∷ s) rest h = elim (Bool-cases (c == d)) [
  | inl same ↦
      let tail = strip_prefix_found p s rest (ground arith) in
      let e : c ≡ d = ground arith in ap (λ x. x ∷ s) (sym e) ∙ ap (λ t. c ∷ t) tail
  | inr other ↦ absurd (ground arith)
]

strip_prefix_of : (p rest : Text) → strip_prefix same_char p (p ++ rest) ≡ some rest
unfolding strip_prefix
strip_prefix_of [] rest = refl
strip_prefix_of (c ∷ p) rest = ground (arith, strip_prefix_of p rest)

-- The header that carries a token.
abbrev pub bearer : Text → Text
bearer token = bearer_prefix ++ token

presented_found :
    (header : Option Text) (token : Text)
    → presented_token header ≡ token
    → is_empty_text token ≡ false
    → header ≡ some (bearer token)
unfolding presented_token strip_prefix
presented_found none token h filled = absurd (ground arith)
presented_found (some s) token h filled =
    elim (Option-cases (strip_prefix same_char bearer_prefix s)) [
      | inl e ↦ absurd (ground (arith, ap text_or_empty e))
      | inr (rest, e) ↦
          ap some
            (strip_prefix_found bearer_prefix s rest e ∙ ap bearer (sym (ap text_or_empty e) ∙ h))
    ]

presented_token-bearer : (token : Text) → presented_token (some (bearer token)) ≡ token
unfolding presented_token
presented_token-bearer token = ap text_or_empty (strip_prefix_of bearer_prefix token)

-- A request that carries a token for the configured one.
pub record Carries (expected header : Option Text) : Type 0 where
  pub token : Text
  pub filled : is_empty_text token ≡ false
  pub configured : expected ≡ some token
  pub carried : header ≡ some (bearer token)

not_refused_iff :
    (b : Buffers) (expected presented : Text)
    → AreExact b
    → is_well_formed presented ≡ true
    → is_well_formed expected ≡ true
    → (is_refused b expected presented ≡ false)
      ↔ ((presented ≡ expected) × (is_empty_text presented ≡ false))
unfolding is_refused
not_refused_iff b expected presented exact wp we = (
  λ h. ((tokens_match_iff b presented expected exact wp we).0 (ground arith), ground arith),
  λ (e, filled).
      rw (sym e, filled, (tokens_match_iff b presented presented exact wp wp).1 refl) refl,
)

configured_as :
    (expected : Option Text) (token : Text)
    → token ≡ text_or_empty expected
    → is_empty_text token ≡ false
    → expected ≡ some token
configured_as none token e filled = absurd (ground arith)
configured_as (some t) token e filled = ap some (sym e)

well_formed_suffix :
    (p rest : Text) → is_well_formed (p ++ rest) ≡ true → is_well_formed rest ≡ true
well_formed_suffix [] rest h = h
well_formed_suffix (c ∷ p) rest h = well_formed_suffix p rest (ground arith)

presented_well_formed :
    (header : Option Text)
    → is_well_formed (text_or_empty header) ≡ true
    → is_well_formed (presented_token header) ≡ true
unfolding presented_token
presented_well_formed header h =
    let s = text_or_empty header in
    elim (Option-cases (strip_prefix same_char bearer_prefix s)) [
      | inl e ↦ ap (λ o. is_well_formed (text_or_empty o)) e
      | inr (rest, e) ↦
          ap (λ o. is_well_formed (text_or_empty o)) e
          ∙ well_formed_suffix bearer_prefix rest
              (sym (ap is_well_formed (strip_prefix_found bearer_prefix s rest e)) ∙ h)
    ]

-- Where the configured token and the header are texts without lone surrogates, a request passes the
-- check exactly if a token is configured that is not empty and the header `authorization` is
-- `Bearer ` followed by that token.
pub require_api_token-next :
    (b : Buffers) (expected header : Option Text)
    → AreExact b
    → is_well_formed (text_or_empty expected) ≡ true
    → is_well_formed (text_or_empty header) ≡ true
    → (require_api_token b expected header ≡ next) ↔ Carries expected header
unfolding require_api_token
require_api_token-next b expected header exact we wh = (
  λ h.
      let decided =
        (not_refused_iff b (text_or_empty expected) (presented_token header) exact
            (presented_well_formed header wh) we).0
          (ground arith) in
      record {
        token = presented_token header;
        filled = decided.1;
        configured = configured_as expected (presented_token header) decided.0 decided.1;
        carried = presented_found header (presented_token header) refl decided.1;
      },
  λ c.
      let e : presented_token header ≡ c.token =
        ap presented_token c.carried ∙ presented_token-bearer c.token in
      let t : text_or_empty expected ≡ c.token = ap text_or_empty c.configured in
      rw
        ((not_refused_iff b (text_or_empty expected) (presented_token header) exact
            (presented_well_formed header wh) we).1
          (e ∙ sym t, ap is_empty_text e ∙ c.filled))
        refl,
)
