-- ===== src/Migration/Confirmed.antt =====
-- What a success of the migration rests on (migrations/rbac-migration.ts).
use bc_forge.Common.{
  ℕ, zero, suc, ◌≡◌, refl, Bool, true, false, not, ◌&&◌, ◌||◌, List, ◌∷◌, String, arith, ===_refl,
  ◌===◌,
}
use bc_forge.Migration.{
  Answer, ok, thrown, has_role, migrate_admin, Simulated, simulation_error, no_result, result, Sent,
  send_error, accepted, Status, not_found, success, other_status, Event, simulated, Server, World,
  MigrationResult, Action, then_with, ◌>>=◌, return, or_again, pause_after, retry, with_retry,
  returned, simulate, query, contract_has_admin, contract_has_role,
}
use bc_forge.Migration.Run.{
  caught, account_of, send, assemble, poll_status, verified, finish, follow, submit, migrate_unless,
  migrate_if, migrate_contract,
}

-- The newest event is the server's answer that the address has the role of a super admin.
abbrev pub is_confirmed : String → List Event → Bool
is_confirmed address (simulated (has_role role holder) (ok (result b)) ∷ es) =
    b && (role === "SuperAdmin" && holder === address)
is_confirmed address es = false

abbrev Sat {ℓ κ μ} :
    {S : Type ℓ} {A : Type κ} → (A → World S → Type μ) → Answer A → World S → Type μ
Sat Q (ok a) w = Q a w
Sat Q (thrown e) w = Unit

abbrev Ensures {ℓ κ μ} :
    {S : Type ℓ} {A : Type κ} → (A → World S → Type μ) → Action S A → Type (ℓ ⊔ μ)
Ensures Q m = (w : World _) → Sat Q (m w).0 (m w).1

module _ {ℓ κ} {S : Type ℓ} {A : Type κ} where
  then_with-Sat {ι μ ν} :
      {B : Type ι} (P : A → World S → Type μ) (Q : B → World S → Type ν) (f : A → Action S B)
      (a : Answer A) (w : World S)
      → ((x : A) (v : World S) → P x v → Sat Q (f x v).0 (f x v).1)
      → Sat P a w
      → Sat Q (then_with f a w).0 (then_with f a w).1
  then_with-Sat P Q f (ok x) w c h = c x w h
  then_with-Sat P Q f (thrown e) w c h = tt

  bind-Ensures {ι μ ν} :
      {B : Type ι} (P : A → World S → Type μ) (Q : B → World S → Type ν) (m : Action S A)
      (f : A → Action S B)
      → Ensures P m
      → ((x : A) (v : World S) → P x v → Sat Q (f x v).0 (f x v).1)
      → Ensures Q (m >>= f)
  bind-Ensures P Q m f h c w = then_with-Sat P Q f (m w).0 (m w).1 c (h w)

  or_again-Sat {μ} :
      (Q : A → World S → Type μ) (others : String → Action S A) (pause : ℕ) (a : Answer A)
      (w : World S)
      → ((e : String) → Ensures Q (others e))
      → Sat Q a w
      → Sat Q (or_again others pause a w).0 (or_again others pause a w).1
  or_again-Sat Q others pause (ok a) w c h = h
  or_again-Sat Q others zero (thrown e) w c h = c e w
  or_again-Sat Q others (suc ms) (thrown e) w c h = c e _

  retry-Ensures {μ} :
      (Q : A → World S → Type μ) (f : Action S A) (left i : ℕ) (last : String)
      → Ensures Q f
      → Ensures Q (retry f left i last)
  unfolding retry
  retry-Ensures Q f zero i last h w = tt
  retry-Ensures Q f (suc left) i last h w =
      or_again-Sat Q (λ e. retry f left (suc i) e) (pause_after left i) (f w).0 (f w).1
        (λ e. retry-Ensures Q f left (suc i) e h) (h w)

  -- What an attempt ensures, the attempts ensure.
  with_retry-Ensures {μ} :
      (Q : A → World S → Type μ) (f : Action S A) → Ensures Q f → Ensures Q (with_retry f)
  unfolding with_retry
  with_retry-Ensures Q f h = retry-Ensures Q f 3 0 "undefined" h

  abbrev Anything : A → World S → Type 0
  Anything a w = Unit

  any_outcome : (a : Answer A) (w : World S) → Sat Anything a w
  any_outcome (ok a) w = tt
  any_outcome (thrown e) w = tt

module _ {ℓ} {S : Type ℓ} (server : Server S) (address : String) where
  abbrev Sure : Bool → World S → Type 0
  Sure b w = (not b || is_confirmed address w.trace) ≡ true

  abbrev Founded : MigrationResult → World S → Type 0
  Founded r w = Sure r.success w

  returned-Sure :
      (name : String) (a : Answer Simulated) (s : S) (t : List Event)
      → Sat Sure
          (returned name a)
          (record { state = s; trace = simulated (has_role "SuperAdmin" address) a ∷ t })
  returned-Sure name (thrown e) s t = tt
  returned-Sure name (ok (simulation_error e)) s t = tt
  returned-Sure name (ok no_result) s t = tt
  returned-Sure name (ok (result true)) s t = ground (arith, ===_refl address)
  returned-Sure name (ok (result false)) s t = refl

  has_role-Sure : Ensures Sure (contract_has_role server "SuperAdmin" address)
  unfolding contract_has_role query
  has_role-Sure w =
      returned-Sure _ (server.simulate_transaction (has_role "SuperAdmin" address) w.state).0 _
        w.trace

  verified-Founded :
      (hash : String) (b : Bool) (w : World S)
      → Sure b w
      → Founded (verified server address hash b) w
  unfolding verified
  verified-Founded hash true w h = h
  verified-Founded hash false w h = refl

  finish-Founded : (hash : String) (s : Status) → Ensures Founded (finish server address hash s)
  unfolding finish
  finish-Founded hash not_found w = refl
  finish-Founded hash (other_status t) w = refl
  finish-Founded hash success w =
      bind-Ensures Sure Founded (with_retry (contract_has_role server "SuperAdmin" address))
        (λ b. return (verified server address hash b))
        (with_retry-Ensures Sure (contract_has_role server "SuperAdmin" address) has_role-Sure)
        (verified-Founded hash) w

  -- After an action of which nothing is asked.
  after-Founded {κ} :
      {A : Type κ} (m : Action S A) (f : A → Action S MigrationResult)
      → ((a : A) → Ensures Founded (f a))
      → Ensures Founded (m >>= f)
  after-Founded m f h =
      bind-Ensures Anything Founded m f (λ w. any_outcome (m w).0 (m w).1) (λ a v _. h a v)

  follow-Founded : (r : Sent) → Ensures Founded (follow server address r)
  unfolding follow
  follow-Founded (send_error e) w = refl
  follow-Founded (accepted hash) w =
      after-Founded (poll_status server address hash 29) (finish server address hash)
        (finish-Founded hash) w

  sent-Founded : (tx : String) → Ensures Founded (send server address tx >>= follow server address)
  sent-Founded tx = after-Founded (send server address tx) (follow server address) follow-Founded

  submit-Founded :
      (account : String) (s : Simulated) → Ensures Founded (submit server address account s)
  unfolding submit
  submit-Founded account (simulation_error e) w = refl
  submit-Founded account no_result w =
      after-Founded (assemble server address account no_result)
        (λ tx. send server address tx >>= follow server address) sent-Founded w
  submit-Founded account (result b) w =
      after-Founded (assemble server address account (result b))
        (λ tx. send server address tx >>= follow server address) sent-Founded w

  migrate_unless-Founded :
      (b : Bool) (w : World S)
      → Sure b w
      → Sat Founded (migrate_unless server address b w).0 (migrate_unless server address b w).1
  unfolding migrate_unless
  migrate_unless-Founded true w h = h
  migrate_unless-Founded false w h =
      after-Founded (account_of server address)
        (λ account. simulate server migrate_admin >>= submit server address account)
        (λ account.
          after-Founded (simulate server migrate_admin) (submit server address account)
            (submit-Founded account))
        w

  migrate_if-Founded : (b : Bool) → Ensures Founded (migrate_if server address b)
  unfolding migrate_if
  migrate_if-Founded false w = refl
  migrate_if-Founded true w =
      bind-Ensures Sure Founded (with_retry (contract_has_role server "SuperAdmin" address))
        (migrate_unless server address)
        (with_retry-Ensures Sure (contract_has_role server "SuperAdmin" address) has_role-Sure)
        migrate_unless-Founded w

  caught-Founded :
      (a : Answer MigrationResult) (w : World S)
      → Sat Founded a w
      → Founded (caught (a, w)).0 (caught (a, w)).1
  caught-Founded (ok r) w h = h
  caught-Founded (thrown e) w h = refl

  -- A migration that reports success ends with the server's answer that the address holds the role
  -- SuperAdmin, whether the address held it before or was given it.
  pub migrate_contract-is_confirmed :
      (w : World S)
      → (migrate_contract server address w).0.success ≡ true
      → is_confirmed address (migrate_contract server address w).1.trace ≡ true
  unfolding migrate_contract
  migrate_contract-is_confirmed w h =
      let m = with_retry (contract_has_admin server) >>= migrate_if server address in
      let founded = caught-Founded (m w).0 (m w).1 (
        after-Founded (with_retry (contract_has_admin server)) (migrate_if server address)
          migrate_if-Founded w) in
      ground (arith, founded)
