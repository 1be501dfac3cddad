-- ===== src/Migration/Safety.antt =====
-- How often the migration and the dry run ask the server (migrations/rbac-migration.ts).
use bc_forge.Common.{ℕ, ◌+◌, ◌*◌, ◌≡◌, refl, ◌≤◌, Bool, true, false, [], String, arith}
use bc_forge.Migration.{
  Answer, ok, thrown, Event, simulated, sent, polled, Server, World, MigrationResult, ◌>>=◌,
  with_retry, contract_has_admin,
}
use bc_forge.Migration.Run.{
  caught, migrate_unless, migrate_if, migrate_contract, dry_run_unless, dry_run_if,
  dry_run_migration,
}
use bc_forge.Migration.Trace.{count, Costs, bind-Costs}
use bc_forge.Migration.Costs.{
  Weights, has_admin-Costs, migrate_unless-Costs, dry_run_unless-Costs, queried-Costs,
}

abbrev pub is_sending : Event → Bool
is_sending (sent tx a) = true
is_sending e = false

abbrev pub is_polling : Event → Bool
is_polling (polled hash a) = true
is_polling e = false

abbrev pub is_simulation : Event → Bool
is_simulation (simulated op a) = true
is_simulation e = false

abbrev sending_weights : Weights is_sending
sending_weights = record {
  simulation = 0;
  account = 0;
  sending = 1;
  polling = 0;
  no_sleeps = λ ms. refl;
  simulations = λ op a. omega arith;
  accounts = λ a. omega arith;
  sendings = λ tx a. omega arith;
  pollings = λ hash a. omega arith;
}

abbrev polling_weights : Weights is_polling
polling_weights = record {
  simulation = 0;
  account = 0;
  sending = 0;
  polling = 1;
  no_sleeps = λ ms. refl;
  simulations = λ op a. omega arith;
  accounts = λ a. omega arith;
  sendings = λ tx a. omega arith;
  pollings = λ hash a. omega arith;
}

abbrev simulation_weights : Weights is_simulation
simulation_weights = record {
  simulation = 1;
  account = 0;
  sending = 0;
  polling = 0;
  no_sleeps = λ ms. refl;
  simulations = λ op a. omega arith;
  accounts = λ a. omega arith;
  sendings = λ tx a. omega arith;
  pollings = λ hash a. omega arith;
}

-- The world at the start, with nothing in the trace.
abbrev pub started {ℓ} : {S : Type ℓ} → S → World S
started s = record { state = s; trace = [] }

module _ {ℓ} {S : Type ℓ} (server : Server S) (address : String) where
  caught-count :
      (p : Event → Bool) (n : ℕ) (a : Answer MigrationResult) (w : World S)
      → count p w.trace ≤ n
      → count p (caught (a, w)).1.trace ≤ n
  caught-count p n (ok r) w h = h
  caught-count p n (thrown e) w h = h

  module _ (p : Event → Bool) (k : Weights p) where
    migrate_if-Costs :
        (b : Bool)
        → Costs p
            (3 * k.simulation
              + (k.account + (k.simulation + (k.sending + (30 * k.polling + 3 * k.simulation)))))
            (migrate_if server address b)
    unfolding migrate_if
    migrate_if-Costs false w = omega arith
    migrate_if-Costs true w =
        queried-Costs server address p k _ (migrate_unless server address)
          (migrate_unless-Costs server address p k) w

    migrate_contract-count :
        (s : S)
        → count p (migrate_contract server address (started s)).1.trace
          ≤ 3 * k.simulation
            + (3 * k.simulation
                + (k.account + (k.simulation + (k.sending + (30 * k.polling + 3 * k.simulation)))))
    unfolding migrate_contract
    migrate_contract-count s =
        let m = with_retry (contract_has_admin server) >>= migrate_if server address in
        caught-count p _ (m (started s)).0 (m (started s)).1 (
          omega (
            arith,
            bind-Costs p (3 * k.simulation) _ (with_retry (contract_has_admin server))
                (migrate_if server address) (has_admin-Costs server address p k) migrate_if-Costs
                (started s),
          ))

    dry_run_if-Costs :
        (b : Bool)
        → Costs p (3 * k.simulation + (k.account + k.simulation)) (dry_run_if server address b)
    unfolding dry_run_if
    dry_run_if-Costs false w = omega arith
    dry_run_if-Costs true w =
        queried-Costs server address p k _ (dry_run_unless server address)
          (dry_run_unless-Costs server address p k) w

    dry_run_migration-count :
        (s : S)
        → count p (dry_run_migration server address (started s)).1.trace
          ≤ 3 * k.simulation + (3 * k.simulation + (k.account + k.simulation))
    unfolding dry_run_migration
    dry_run_migration-count s =
        let m = with_retry (contract_has_admin server) >>= dry_run_if server address in
        caught-count p _ (m (started s)).0 (m (started s)).1 (
          omega (
            arith,
            bind-Costs p (3 * k.simulation) _ (with_retry (contract_has_admin server))
                (dry_run_if server address) (has_admin-Costs server address p k) dry_run_if-Costs
                (started s),
          ))

  -- Whatever the server answers or throws, the migration sends at most one transaction, asks for a
  -- transaction at most 30 times and simulates at most 10 times.
  pub migrate_contract-bounds :
      (s : S)
      → let trace = (migrate_contract server address (started s)).1.trace in
        (count is_sending trace ≤ 1)
        × (count is_polling trace ≤ 30)
        × (count is_simulation trace ≤ 10)
  migrate_contract-bounds s = (
    omega (arith, migrate_contract-count is_sending sending_weights s),
    omega (arith, migrate_contract-count is_polling polling_weights s),
    omega (arith, migrate_contract-count is_simulation simulation_weights s),
  )

  -- Whatever the server answers or throws, the dry run sends no transaction and asks for none, and
  -- simulates at most 7 times.
  pub dry_run_migration-bounds :
      (s : S)
      → let trace = (dry_run_migration server address (started s)).1.trace in
        (count is_sending trace ≡ 0)
        × (count is_polling trace ≡ 0)
        × (count is_simulation trace ≤ 7)
  dry_run_migration-bounds s = (
    omega (arith, dry_run_migration-count is_sending sending_weights s),
    omega (arith, dry_run_migration-count is_polling polling_weights s),
    omega (arith, dry_run_migration-count is_simulation simulation_weights s),
  )
