-- ===== src/Migration.antt =====
-- The RBAC migration (migrations/rbac-migration.ts): its retries, its queries of a contract, the
-- migration and the dry run, as functions of a server with a state. Every call of the server, with
-- its answer, and every wait is written to a trace. The vendor library's server, the assembly of a
-- simulated transaction and its hash are parameters; texts of errors are kept, the CLI is left out.
pub mod Run
pub mod Trace
pub mod Costs
pub mod Safety
pub mod Confirmed
mod Tests
use Prim.Native.String.{◌++◌ as ◌+++◌}
use bc_forge.Common.{
  ℕ, zero, suc, ◌+◌, ◌*◌, Bool, true, false, Option, none, some, List, [], ◌∷◌, String,
  if◌then◌else◌, ◌===◌, ltb,
}

-- A promise that is fulfilled or rejected.
pub data Answer {ℓ} (A : Type ℓ) : Type ℓ where
  ok : A → Answer A
  thrown : String → Answer A

-- The operations that are simulated.
pub data Operation : Type 0 where
  has_admin : Operation
  has_role : String → String → Operation
  migrate_admin : Operation

-- The answer to a simulation: an error, no result, or the Boolean that is returned.
pub data Simulated : Type 0 where
  simulation_error : String → Simulated
  no_result : Simulated
  result : Bool → Simulated

pub data Sent : Type 0 where
  send_error : String → Sent
  accepted : String → Sent

pub data Status : Type 0 where
  not_found : Status
  success : Status
  other_status : String → Status

pub data Event : Type 0 where
  simulated : Operation → Answer Simulated → Event
  got_account : Answer String → Event
  sent : String → Answer Sent → Event
  polled : String → Answer Status → Event
  slept : ℕ → Event

-- The server, whose answers may depend on a state of its own and change it: an account is its
-- sequence number, a transaction its text. `assemble_transaction` is what the library does with the
-- account and the simulation, up to the signature, and may throw.
pub record Server {ℓ} (S : Type ℓ) : Type ℓ where
  pub simulate_transaction : Operation → S → Answer Simulated × S
  pub get_account : String → S → Answer String × S
  pub assemble_transaction : String → Simulated → Answer String
  pub send_transaction : String → S → Answer Sent × S
  pub get_transaction : String → S → Answer Status × S

-- The state of the server, and the trace with the newest event first.
pub record World {ℓ} (S : Type ℓ) : Type ℓ where
  pub state : S
  pub trace : List Event

pub record MigrationResult : Type 0 where
  pub success : Bool
  pub hash : Option String
  pub error : Option String
  pub already_migrated : Option Bool
  pub admin_address : Option String

abbrev pub max_retries : ℕ
max_retries = 3

abbrev pub retry_delay_ms : ℕ
retry_delay_ms = 1000

abbrev pub Action {ℓ κ} : Type ℓ → Type κ → Type (ℓ ⊔ κ)
Action S A = World S → Answer A × World S

-- The wait after attempt `i`; there is none after the last one.
abbrev pub pause_after : ℕ → ℕ → ℕ
pause_after left i = if ltb 0 left then retry_delay_ms * suc i else 0

module _ {ℓ} {S : Type ℓ} where
  abbrev pub note : Event → World S → World S
  note e w = record w { trace = e ∷ w.trace }

  -- `await sleep(ms)`
  abbrev pub sleep : ℕ → Action S Bool
  sleep ms w = (ok true, note (slept ms) w)

-- After an `await`; a rejected promise leaves the function.
abbrev pub then_with {ℓ κ μ} :
    {S : Type ℓ} {A : Type κ} {B : Type μ}
    → (A → Action S B)
    → Answer A
    → World S
    → Answer B × World S
then_with k (ok a) w = k a w
then_with k (thrown e) w = (thrown e, w)

infixl 5 ◌>>=◌
abbrev pub ◌>>=◌ {ℓ κ μ} :
    {S : Type ℓ} {A : Type κ} {B : Type μ} → Action S A → (A → Action S B) → Action S B
(m >>= k) w = then_with k (m w).0 (m w).1

abbrev pub return {ℓ κ} : {S : Type ℓ} {A : Type κ} → A → Action S A
return a w = (ok a, w)

module _ {ℓ κ} {S : Type ℓ} {A : Type κ} where
  -- A call of the server, written to the trace.
  abbrev pub ask : (Answer A → Event) → (S → Answer A × S) → Action S A
  ask event call w =
      let r = call w.state in (r.0, record { state = r.1; trace = event r.0 ∷ w.trace })

  -- After an attempt: the end, or the other attempts with the error.
  abbrev pub or_again : (String → Action S A) → ℕ → Answer A → World S → Answer A × World S
  or_again others pause (ok a) w = (ok a, w)
  or_again others zero (thrown e) w = others e w
  or_again others (suc ms) (thrown e) w = others e (note (slept (suc ms)) w)

  -- `withRetry` from the attempt `i`, with `left` attempts to come and the last error.
  unfoldable pub retry : Action S A → ℕ → ℕ → String → Action S A
  retry f zero i last w = (thrown last, w)
  retry f (suc left) i last w =
      or_again (λ e. retry f left (suc i) e) (pause_after left i) (f w).0 (f w).1

  unfoldable pub with_retry : Action S A → Action S A
  unfolding retry
  with_retry f w = retry f max_retries 0 "undefined" w

-- The end of `hasAdmin` and of `hasRole`.
abbrev pub returned : String → Answer Simulated → Answer Bool
returned name (thrown e) = thrown e
returned name (ok (simulation_error e)) = thrown ("Simulation failed: " +++ e)
returned name (ok no_result) = thrown name
returned name (ok (result b)) = ok b

module _ {ℓ} {S : Type ℓ} (server : Server S) where
  abbrev pub simulate : Operation → Action S Simulated
  simulate op w = ask (simulated op) (server.simulate_transaction op) w

  unfoldable pub query : Operation → String → Action S Bool
  query op name w = let r = simulate op w in (returned name r.0, r.1)

  -- `hasAdmin`
  unfoldable pub contract_has_admin : Action S Bool
  unfolding query
  contract_has_admin w = query has_admin "has_admin query returned no result" w

  -- `hasRole`
  unfoldable pub contract_has_role : String → String → Action S Bool
  unfolding query
  contract_has_role role address w =
      query (has_role role address) "has_role query returned no result" w
