-- ===== src/Sdk/Client/Verification.antt =====
-- The check of a contract after its initialisation (sdk/src/client.ts, `verifyInitializedState`), on
-- the answers of the queries, which are a text of an error where they throw.
use Prim.Native.String.{◌++◌ as ◌+++◌}
use bc_forge.Common.{
  ℕ, ◌≡◌, refl, ap, ◌∙◌, Bool, true, false, not, ◌&&◌, ◌||◌, Option, none, some, List, [], ◌∷◌,
  ◌++◌, String, if◌then◌else◌, ◌===◌, ◌==◌, is_nonempty, Bool-cases, inl, inr,
}
use bc_forge.Common.Int.{ℤ}

pub data Queried {ℓ} (A : Type ℓ) : Type ℓ where
  ok : A → Queried A
  thrown : String → Queried A

-- What the queries of the contract answer; `pauser` is asked for the role of an address.
pub record Contract : Type 0 where
  pub admin : Queried String
  pub name : Queried String
  pub symbol : Queried String
  pub decimals : Queried ℕ
  pub total_supply : Queried ℤ
  pub has_pauser_role : String → Queried Bool

pub record Expected : Type 0 where
  pub admin : String
  pub name : String
  pub symbol : String
  pub decimals : ℕ
  pub pauser : Option String

pub record InitVerificationResult : Type 0 where
  pub valid : Bool
  pub admin : Option String
  pub name : Option String
  pub symbol : Option String
  pub decimals : Option ℕ
  pub total_supply : Option ℤ
  pub pauser_granted : Option Bool
  pub errors : List String

-- The field of the result after a query.
abbrev pub value_of {ℓ} : {A : Type ℓ} → Queried A → Option A
value_of (ok a) = some a
value_of (thrown e) = none

-- The errors of a query of a text, by its test, the text of a mismatch and the text of a failure.
abbrev pub errors_of {ℓ} :
    {A : Type ℓ} → (A → Bool) → (A → String) → String → Queried A → List String
errors_of fits mismatch failure (ok a) = if fits a then [] else mismatch a ∷ []
errors_of fits mismatch failure (thrown e) = (failure +++ e) ∷ []

-- A pauser is expected where its text is not empty.
abbrev pub pauser_queried : Contract → Option String → Option (String × Queried Bool)
pauser_queried c none = none
pauser_queried c (some p) = if is_nonempty p then some (p, c.has_pauser_role p) else none

abbrev pub pauser_errors : Option (String × Queried Bool) → List String
pauser_errors none = []
pauser_errors (some (p, q)) =
    errors_of (λ granted. granted) (λ _. "Pauser role not granted to " +++ p)
      "Failed to check Pauser role: " q

abbrev pub pauser_value : Option (String × Queried Bool) → Option Bool
pauser_value none = none
pauser_value (some (p, q)) = value_of q

abbrev pub is_empty : List String → Bool
is_empty [] = true
is_empty (e ∷ es) = false

abbrev pub admin_mismatch : Expected → String → String
admin_mismatch x a = "Admin mismatch: expected " +++ x.admin +++ ", got " +++ a

abbrev pub name_mismatch : Expected → String → String
name_mismatch x a = "Name mismatch: expected \"" +++ x.name +++ "\", got \"" +++ a +++ "\""

abbrev pub symbol_mismatch : Expected → String → String
symbol_mismatch x a = "Symbol mismatch: expected \"" +++ x.symbol +++ "\", got \"" +++ a +++ "\""

-- The decimal text of a number is a parameter.
abbrev pub decimals_mismatch : (ℕ → String) → Expected → ℕ → String
decimals_mismatch show x n =
    "Decimals mismatch: expected " +++ show x.decimals +++ ", got " +++ show n

-- The total supply is not compared.
abbrev pub no_mismatch : ℤ → String
no_mismatch n = ""

abbrev pub any_supply : ℤ → Bool
any_supply n = true

unfoldable pub init_errors : (ℕ → String) → Expected → Contract → List String
init_errors show x c =
    errors_of (λ a. a === x.admin) (admin_mismatch x) "Failed to query admin: " c.admin
    ++ (errors_of (λ a. a === x.name) (name_mismatch x) "Failed to query name: " c.name
        ++ (errors_of (λ a. a === x.symbol) (symbol_mismatch x) "Failed to query symbol: " c.symbol
            ++ (errors_of (λ n. n == x.decimals) (decimals_mismatch show x)
                  "Failed to query decimals: " c.decimals
                ++ (errors_of any_supply no_mismatch "Failed to query total supply: " c.total_supply
                    ++ pauser_errors (pauser_queried c x.pauser)))))

-- `verifyInitializedState`
unfoldable pub verify_initialized_state :
    (ℕ → String) → Expected → Contract → InitVerificationResult
unfolding init_errors
verify_initialized_state show x c = record {
  valid = is_empty (init_errors show x c);
  errors = init_errors show x c;
  admin = value_of c.admin;
  name = value_of c.name;
  symbol = value_of c.symbol;
  decimals = value_of c.decimals;
  total_supply = value_of c.total_supply;
  pauser_granted = pauser_value (pauser_queried c x.pauser);
}

-- The answer is there and passes the test.
abbrev pub fits_with {ℓ} : {A : Type ℓ} → (A → Bool) → Queried A → Bool
fits_with fits (ok a) = fits a
fits_with fits (thrown e) = false

abbrev pub has_pauser : Contract → Option String → Bool
has_pauser c none = true
has_pauser c (some p) = not (is_nonempty p) || fits_with (λ granted. granted) (c.has_pauser_role p)

is_empty-append : (es fs : List String) → is_empty (es ++ fs) ≡ (is_empty es && is_empty fs)
is_empty-append [] fs = refl
is_empty-append (e ∷ es) fs = refl

-- The test of the first errors and of the others.
split :
    (es fs : List String) (first others : Bool)
    → is_empty es ≡ first
    → is_empty fs ≡ others
    → is_empty (es ++ fs) ≡ (first && others)
split es fs first others e f =
    is_empty-append es fs ∙ ap (λ b. b && is_empty fs) e ∙ ap (λ b. first && b) f

is_empty-errors_of {ℓ} :
    {A : Type ℓ} (fits : A → Bool) (mismatch : A → String) (failure : String) (q : Queried A)
    → is_empty (errors_of fits mismatch failure q) ≡ fits_with fits q
is_empty-errors_of fits mismatch failure (thrown e) = refl
is_empty-errors_of fits mismatch failure (ok a) = elim (Bool-cases (fits a)) [
  | inl e ↦ rw e refl
  | inr e ↦ rw e refl
]

is_empty-pauser_errors :
    (c : Contract) (p : Option String)
    → is_empty (pauser_errors (pauser_queried c p)) ≡ has_pauser c p
is_empty-pauser_errors c none = refl
is_empty-pauser_errors c (some p) = elim (Bool-cases (is_nonempty p)) [
  | inl e ↦ rw e (is_empty-errors_of (λ granted. granted) _ _ (c.has_pauser_role p))
  | inr e ↦ rw e refl
]

-- A contract is found valid exactly if all queries are answered, the admin, the name, the symbol and
-- the decimals are the expected ones, and the pauser that is expected, if any, has the role.
pub verify_initialized_state_lem :
    (show : ℕ → String) (x : Expected) (c : Contract)
    → (verify_initialized_state show x c).valid ≡ (
        fits_with (λ a. a === x.admin) c.admin
        && (fits_with (λ a. a === x.name) c.name
            && (fits_with (λ a. a === x.symbol) c.symbol
                && (fits_with (λ n. n == x.decimals) c.decimals
                    && (fits_with any_supply c.total_supply && has_pauser c x.pauser)))))
unfolding verify_initialized_state init_errors
verify_initialized_state_lem show x c =
    split _ _ _ _
      (is_empty-errors_of (λ a. a === x.admin) (admin_mismatch x) "Failed to query admin: " c.admin)
      (split _ _ _ _
        (is_empty-errors_of (λ a. a === x.name) (name_mismatch x) "Failed to query name: " c.name)
        (split _ _ _ _
          (is_empty-errors_of (λ a. a === x.symbol) (symbol_mismatch x) "Failed to query symbol: "
            c.symbol)
          (split _ _ _ _
            (is_empty-errors_of (λ n. n == x.decimals) (decimals_mismatch show x)
              "Failed to query decimals: " c.decimals)
            (split _ _ _ _
              (is_empty-errors_of any_supply no_mismatch "Failed to query total supply: "
                c.total_supply)
              (is_empty-pauser_errors c x.pauser)))))
