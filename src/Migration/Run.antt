-- ===== src/Migration/Run.antt =====
-- The migration and the dry run (migrations/rbac-migration.ts, `migrateContract` and
-- `dryRunMigration`).
use Prim.Native.String.{◌++◌ as ◌+++◌}
use bc_forge.Common.{ℕ, zero, suc, Bool, true, false, Option, none, some, String}
use bc_forge.Migration.{
  Answer, ok, thrown, migrate_admin, Simulated, simulation_error, no_result, result, Sent,
  send_error, accepted, Status, not_found, success, other_status, got_account, sent, polled, Server,
  World, MigrationResult, Action, sleep, ask, ◌>>=◌, return, with_retry, simulate,
  contract_has_admin, contract_has_role,
}

abbrev pub failed : Option String → String → MigrationResult
failed hash error = record {
  success = false;
  hash = hash;
  error = some error;
  already_migrated = none;
  admin_address = none;
}

abbrev pub no_admin : MigrationResult
no_admin = failed none "Contract has no admin set. Migration requires an initialized contract."

abbrev pub already : String → MigrationResult
already address = record {
  success = true;
  hash = none;
  error = none;
  already_migrated = some true;
  admin_address = some address;
}

-- The end of `catch`.
abbrev pub caught {ℓ} : {S : Type ℓ} → Answer MigrationResult × World S → MigrationResult × World S
caught (ok r, w) = (r, w)
caught (thrown e, w) = (failed none e, w)

-- The loop goes on while there is no transaction.
abbrev pub poll_again {ℓ} : {S : Type ℓ} → Action S Status → Status → Action S Status
poll_again more not_found = more
poll_again more success = return success
poll_again more (other_status t) = return (other_status t)

module _ {ℓ} {S : Type ℓ} (server : Server S) (address : String) where
  abbrev pub get_status : String → Action S Status
  get_status hash = ask (polled hash) (server.get_transaction hash)

  -- The `do` loop, with at most `more` turns after this one: 29, since there are at most 30.
  unfoldable pub poll_status : String → ℕ → Action S Status
  poll_status hash zero = sleep 1000 >>= λ _. get_status hash
  poll_status hash (suc more) =
      sleep 1000 >>= λ _. get_status hash >>= poll_again (poll_status hash more)

  unfoldable pub verified : String → Bool → MigrationResult
  verified hash false =
      failed (some hash)
        "Migration transaction succeeded but verification failed: admin does not have SuperAdmin role"
  verified hash true = record {
    success = true;
    hash = some hash;
    error = none;
    already_migrated = none;
    admin_address = some address;
  }

  -- After the last poll.
  unfoldable pub finish : String → Status → Action S MigrationResult
  unfolding verified
  finish hash not_found =
      return (failed (some hash) "Transaction not found after maximum polling attempts")
  finish hash success =
      with_retry (contract_has_role server "SuperAdmin" address) >>= λ b. return (verified hash b)
  finish hash (other_status t) =
      return (failed (some hash) ("Transaction failed with status: " +++ t))

  -- After the transaction is sent.
  unfoldable pub follow : Sent → Action S MigrationResult
  unfolding finish poll_status
  follow (send_error e) = return (failed none ("Transaction submission failed: " +++ e))
  follow (accepted hash) = poll_status hash 29 >>= finish hash

  abbrev pub send : String → Action S Sent
  send tx = ask (sent tx) (server.send_transaction tx)

  abbrev pub assemble : String → Simulated → Action S String
  assemble account s w = (server.assemble_transaction account s, w)

  -- From the assembly on.
  unfoldable pub submit : String → Simulated → Action S MigrationResult
  unfolding follow
  submit account (simulation_error e) = return (failed none ("Simulation failed: " +++ e))
  submit account no_result = assemble account no_result >>= λ tx. send tx >>= follow
  submit account (result b) = assemble account (result b) >>= λ tx. send tx >>= follow

  abbrev pub account_of : Action S String
  account_of = ask got_account (server.get_account address)

  -- The `try` block of `migrateContract`, from the answer to the second query on.
  unfoldable pub migrate_unless : Bool → Action S MigrationResult
  unfolding submit
  migrate_unless true = return (already address)
  migrate_unless false = account_of >>= λ account. simulate server migrate_admin >>= submit account

  unfoldable pub migrate_if : Bool → Action S MigrationResult
  unfolding migrate_unless
  migrate_if false = return no_admin
  migrate_if true = with_retry (contract_has_role server "SuperAdmin" address) >>= migrate_unless

  unfoldable pub migrate_contract : World S → MigrationResult × World S
  unfolding migrate_if
  migrate_contract w = caught ((with_retry (contract_has_admin server) >>= migrate_if) w)

  -- The end of the dry run.
  abbrev would_succeed : MigrationResult
  would_succeed = record {
    success = true;
    hash = none;
    error = none;
    already_migrated = some false;
    admin_address = some address;
  }

  unfoldable pub simulated_result : Simulated → MigrationResult
  simulated_result (simulation_error e) = failed none ("Dry-run simulation failed: " +++ e)
  simulated_result no_result = would_succeed
  simulated_result (result b) = would_succeed

  unfoldable pub dry_run_unless : Bool → Action S MigrationResult
  unfolding simulated_result
  dry_run_unless true = return (already address)
  dry_run_unless false =
      account_of >>= λ account. simulate server migrate_admin >>= λ s. return (simulated_result s)

  unfoldable pub dry_run_if : Bool → Action S MigrationResult
  unfolding dry_run_unless
  dry_run_if false = return no_admin
  dry_run_if true = with_retry (contract_has_role server "SuperAdmin" address) >>= dry_run_unless

  unfoldable pub dry_run_migration : World S → MigrationResult × World S
  unfolding dry_run_if
  dry_run_migration w = caught ((with_retry (contract_has_admin server) >>= dry_run_if) w)
