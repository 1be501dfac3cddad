-- ===== src/Sdk/Client/Keys.antt =====
-- The keys of the cache of reads (sdk/src/client.ts, `getCachedRead`): two reads of one client have
-- different keys.
use Prim.Native.String.{◌++◌ as ◌+++◌}
use Prim.Native.String.append
use text.Mathlib.TextLemmas.{append_assoc}
use Prim.Native.Char.{Char, code}
use bc_forge.Common.{
  ℕ, ◌≡◌, refl, sym, ap, ◌∙◌, Bool, true, false, not, ◌&&◌, ◌||◌, List, [], ◌∷◌, String, arith,
  ◌==◌, if◌then◌else◌, is_nonempty, all, Bool-cases, inl, inr,
}
use bc_forge.Sdk.Client.{join, cache_key}

abbrev pub has_colon : String → Bool
has_colon String.[] = false
has_colon (String.◌∷◌ c s) = code c == b':' || has_colon s

-- A text that is not empty and has no colon.
abbrev pub is_plain : String → Bool
is_plain s = is_nonempty s && not (has_colon s)

-- What stands before and after the first colon.
abbrev before_colon : String → String
before_colon String.[] = ""
before_colon (String.◌∷◌ c s) = if code c == b':' then "" else String.◌∷◌ c (before_colon s)

abbrev after_colon : String → String
after_colon String.[] = ""
after_colon (String.◌∷◌ c s) = if code c == b':' then s else after_colon s

abbrev colon : Char
colon = ":"

colon_cons : (t : String) → ":" +++ t ≡ String.◌∷◌ colon t
colon_cons t = append.cons colon "" t ∙ ap (λ u. String.◌∷◌ colon u) (append.nil t)

before_colon-of : (s t : String) → has_colon s ≡ false → before_colon (s +++ ":" +++ t) ≡ s
before_colon-of String.[] t h = ap before_colon (append.nil (":" +++ t) ∙ colon_cons t)
before_colon-of (String.◌∷◌ c s) t h =
    ap before_colon (append.cons c s (":" +++ t)) ∙ elim (Bool-cases (code c == b':')) [
      | inl e ↦ absurd (ground arith)
      | inr e ↦ rw e (ap (λ u. String.◌∷◌ c u) (before_colon-of s t (ground arith)))
    ]

after_colon-of : (s t : String) → has_colon s ≡ false → after_colon (s +++ ":" +++ t) ≡ t
after_colon-of String.[] t h = ap after_colon (append.nil (":" +++ t) ∙ colon_cons t)
after_colon-of (String.◌∷◌ c s) t h =
    ap after_colon (append.cons c s (":" +++ t)) ∙ elim (Bool-cases (code c == b':')) [
      | inl e ↦ absurd (ground arith)
      | inr e ↦ rw e (after_colon-of s t (ground arith))
    ]

has_colon-of : (s t : String) → has_colon (s +++ ":" +++ t) ≡ true
has_colon-of String.[] t = ap has_colon (append.nil (":" +++ t) ∙ colon_cons t)
has_colon-of (String.◌∷◌ c s) t =
    ap has_colon (append.cons c s (":" +++ t)) ∙ ground (arith, has_colon-of s t)

-- What is left of a text after as many characters as another has.
abbrev drop_as : String → String → String
drop_as String.[] t = t
drop_as (String.◌∷◌ c s) String.[] = ""
drop_as (String.◌∷◌ c s) (String.◌∷◌ d t) = drop_as s t

drop_as-of : (s t : String) → drop_as s (s +++ t) ≡ t
drop_as-of String.[] t = append.nil t
drop_as-of (String.◌∷◌ c s) t = ap (drop_as (String.◌∷◌ c s)) (append.cons c s t) ∙ drop_as-of s t

cancel_prefix : (s t u : String) → s +++ t ≡ s +++ u → t ≡ u
cancel_prefix s t u e = sym (drop_as-of s t) ∙ ap (drop_as s) e ∙ drop_as-of s u

-- Of two texts in front of a colon without colons of their own, and what follows.
split_colon :
    (s s' t t' : String)
    → has_colon s ≡ false
    → has_colon s' ≡ false
    → s +++ ":" +++ t ≡ s' +++ ":" +++ t'
    → (s ≡ s') × (t ≡ t')
split_colon s s' t t' h h' e = (
  sym (before_colon-of s t h) ∙ ap before_colon e ∙ before_colon-of s' t' h',
  sym (after_colon-of s t h) ∙ ap after_colon e ∙ after_colon-of s' t' h',
)

-- The text of a number: no colon, and another one for another number.
pub record IsNumeral (show : ℕ → String) : Type 0 where
  pub no_colon : (n : ℕ) → has_colon (show n) ≡ false
  pub injective : (m n : ℕ) → show m ≡ show n → m ≡ n

-- The arguments and the ledger of a key.
abbrev tail_of : List String → String → String
tail_of args n = join args +++ ":" +++ n

longer_tail :
    (s t : String) (args : List String) (n : String)
    → tail_of (s ∷ t ∷ args) n ≡ s +++ ":" +++ tail_of (t ∷ args) n
longer_tail s t args n =
    append_assoc s (":" +++ join (t ∷ args)) (":" +++ n)
    ∙ ap (λ u. s +++ u) (append_assoc ":" (join (t ∷ args)) (":" +++ n))

tail_has_colon :
    (t : String) (args : List String) (n : String) → has_colon (tail_of (t ∷ args) n) ≡ true
tail_has_colon t args n = has_colon-of (join (t ∷ args)) n

-- No list of plain arguments is taken for another one.
tail_injective :
    (args args' : List String) (n n' : String)
    → has_colon n ≡ false
    → has_colon n' ≡ false
    → all is_plain args ≡ true
    → all is_plain args' ≡ true
    → tail_of args n ≡ tail_of args' n'
    → (args ≡ args') × (n ≡ n')
tail_injective [] [] n n' h h' p p' e = (refl, (split_colon "" "" n n' refl refl e).1)
tail_injective [] (t ∷ []) n n' h h' p p' e =
    let s = split_colon "" t n n' refl (ground arith) e in
    absurd (ground (arith, sym (ap is_nonempty s.0)))
tail_injective [] (t ∷ u ∷ args) n n' h h' p p' e =
    let s =
      split_colon "" t n (tail_of (u ∷ args) n') refl (ground arith)
        (e ∙ longer_tail t u args n') in
    absurd (ground (arith, sym (ap is_nonempty s.0)))
tail_injective (s ∷ []) [] n n' h h' p p' e =
    let r = split_colon s "" n n' (ground arith) refl e in
    absurd (ground (arith, ap is_nonempty r.0))
tail_injective (s ∷ t ∷ args) [] n n' h h' p p' e =
    let r =
      split_colon s "" (tail_of (t ∷ args) n) n' (ground arith) refl
        (sym (longer_tail s t args n) ∙ e) in
    absurd (ground (arith, ap is_nonempty r.0))
tail_injective (s ∷ []) (t ∷ []) n n' h h' p p' e =
    let r = split_colon s t n n' (ground arith) (ground arith) e in (ap (λ u. u ∷ []) r.0, r.1)
tail_injective (s ∷ []) (t ∷ u ∷ args) n n' h h' p p' e =
    let r =
      split_colon s t n (tail_of (u ∷ args) n') (ground arith) (ground arith)
        (e ∙ longer_tail t u args n') in
    absurd (ground (arith, sym h ∙ ap has_colon r.1 ∙ tail_has_colon u args n'))
tail_injective (s ∷ t ∷ args) (u ∷ []) n n' h h' p p' e =
    let r =
      split_colon s u (tail_of (t ∷ args) n) n' (ground arith) (ground arith)
        (sym (longer_tail s t args n) ∙ e) in
    absurd (ground (arith, sym h' ∙ sym (ap has_colon r.1) ∙ tail_has_colon t args n))
tail_injective (s ∷ t ∷ args) (u ∷ v ∷ args') n n' h h' p p' e =
    let r =
      split_colon s u (tail_of (t ∷ args) n) (tail_of (v ∷ args') n') (ground arith) (ground arith)
        (sym (longer_tail s t args n) ∙ e ∙ longer_tail u v args' n') in
    let rest = tail_injective (t ∷ args) (v ∷ args') n n' h h' (ground arith) (ground arith) r.1 in
    (ap (λ x. x ∷ t ∷ args) r.0 ∙ ap (λ x. u ∷ x) rest.0, rest.1)

-- Two reads of plain methods with plain arguments have one key only if they are the same read at the
-- same ledger.
pub cache_key_injective :
    (show : ℕ → String) (id method method' : String) (args args' : List String) (n n' : ℕ)
    → IsNumeral show
    → is_plain method ≡ true
    → is_plain method' ≡ true
    → all is_plain args ≡ true
    → all is_plain args' ≡ true
    → cache_key show id method args n ≡ cache_key show id method' args' n'
    → (method ≡ method') × (args ≡ args') × (n ≡ n')
unfolding cache_key
cache_key_injective show id method method' args args' n n' num m m' a a' e =
    let inner = cancel_prefix ":" _ _ (cancel_prefix id _ _ e) in
    let (same_method, rest) =
      split_colon method method' (tail_of args (show n)) (tail_of args' (show n')) (ground arith)
        (ground arith) inner in
    let (same_args, same_number) =
      tail_injective args args' (show n) (show n') (num.no_colon n) (num.no_colon n') a a' rest in
    (same_method, same_args, num.injective n n' same_number)
