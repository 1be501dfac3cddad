-- ===== src/Migration/Tests.antt =====
-- A migration of a contract without and with the role.
use bc_forge.Common.{◌≡◌, refl, ◌≤◌, Bool, true, false, none, some, [], ◌∷◌}
use bc_forge.Migration.{
  ok, thrown, Operation, has_admin, has_role, migrate_admin, result, accepted, success, Server,
  retry, with_retry, query, contract_has_admin, contract_has_role, slept,
}
use bc_forge.Migration.Run.{
  already, poll_status, verified, finish, follow, submit, migrate_unless, migrate_if,
  migrate_contract, dry_run_migration,
}
use bc_forge.Migration.Trace.{count}
use bc_forge.Migration.Safety.{
  is_sending, is_polling, is_simulation, started, migrate_contract-bounds, dry_run_migration-bounds,
}
use bc_forge.Migration.Confirmed.{is_confirmed, migrate_contract-is_confirmed}

-- A server whose state is whether the role is given.
abbrev simulated_op : Operation → Bool → Bool
simulated_op has_admin given = true
simulated_op (has_role role holder) given = given
simulated_op migrate_admin given = true

abbrev plain_server : Server Bool
plain_server = record {
  simulate_transaction = λ op s. (ok (result (simulated_op op s)), s);
  get_account = λ a s. (ok "41", s);
  assemble_transaction = λ account sim. ok "tx";
  send_transaction = λ tx s. (ok (accepted "hash"), true);
  get_transaction = λ hash s. (ok success, s);
}

migrated : (migrate_contract plain_server "GA" (started false)).0 ≡ record {
  success = true;
  hash = some "hash";
  error = none;
  already_migrated = none;
  admin_address = some "GA";
}
unfolding migrate_contract migrate_if migrate_unless submit follow finish poll_status verified
    with_retry retry contract_has_admin contract_has_role query
migrated = refl

migrated_before : (migrate_contract plain_server "GA" (started true)).0 ≡ already "GA"
unfolding migrate_contract migrate_if migrate_unless with_retry retry contract_has_admin
    contract_has_role query
migrated_before = refl

-- Three attempts fail, with waits of one and two seconds between them.
waits :
    (with_retry {A = Bool} (λ w. (thrown "down", w)) (started true)).1.trace
    ≡ slept 2000 ∷ slept 1000 ∷ []
unfolding with_retry retry
waits = refl

has_succeeded : (migrate_contract plain_server "GA" (started false)).0.success ≡ true
unfolding migrate_contract migrate_if migrate_unless submit follow finish poll_status verified
    with_retry retry contract_has_admin contract_has_role query
has_succeeded = refl

migrate_contract-is_confirmed_example :
    is_confirmed "GA" (migrate_contract plain_server "GA" (started false)).1.trace ≡ true
migrate_contract-is_confirmed_example =
    migrate_contract-is_confirmed plain_server "GA" (started false) has_succeeded

migrate_contract-bounds_example :
    let trace = (migrate_contract plain_server "GA" (started false)).1.trace in
    (count is_sending trace ≤ 1) × (count is_polling trace ≤ 30) × (count is_simulation trace ≤ 10)
migrate_contract-bounds_example = migrate_contract-bounds plain_server "GA" false

dry_run_migration-bounds_example :
    let trace = (dry_run_migration plain_server "GA" (started false)).1.trace in
    (count is_sending trace ≡ 0) × (count is_polling trace ≡ 0) × (count is_simulation trace ≤ 7)
dry_run_migration-bounds_example = dry_run_migration-bounds plain_server "GA" false
