-- ===== src/Migration/Costs.antt =====
-- How often the migration and the dry run ask the server (migrations/rbac-migration.ts).
use bc_forge.Common.{
  ℕ, zero, suc, ◌+◌, ◌*◌, ◌≡◌, ◌≤◌, Bool, true, false, String, arith, if◌then◌else◌,
}
use bc_forge.Migration.{
  Answer, Operation, has_admin, has_role, migrate_admin, Simulated, simulation_error, no_result,
  result, Sent, send_error, accepted, Status, not_found, success, other_status, Event, simulated,
  got_account, sent, polled, slept, Server, MigrationResult, Action, sleep, ask, ◌>>=◌, return,
  with_retry, simulate, query, contract_has_admin, contract_has_role,
}
use bc_forge.Migration.Run.{
  poll_status, poll_again, get_status, send, assemble, account_of, finish, follow, submit,
  migrate_unless, dry_run_unless, verified, simulated_result,
}
use bc_forge.Migration.Trace.{
  Costs, return-Costs, ask-Costs, bind-Costs, sleep-Costs, with_retry-Costs,
}

-- How much each kind of event counts.
pub record Weights (p : Event → Bool) : Type 0 where
  pub simulation : ℕ
  pub account : ℕ
  pub sending : ℕ
  pub polling : ℕ
  pub no_sleeps : (ms : ℕ) → p (slept ms) ≡ false
  pub simulations :
      (op : Operation) (a : Answer Simulated) → (if p (simulated op a) then 1 else 0) ≤ simulation
  pub accounts : (a : Answer String) → (if p (got_account a) then 1 else 0) ≤ account
  pub sendings : (tx : String) (a : Answer Sent) → (if p (sent tx a) then 1 else 0) ≤ sending
  pub pollings :
      (hash : String) (a : Answer Status) → (if p (polled hash a) then 1 else 0) ≤ polling

module _ {ℓ} {S : Type ℓ} (server : Server S) (address : String) (p : Event → Bool)
    (k : Weights p) where
  simulate-Costs : (op : Operation) → Costs p k.simulation (simulate server op)
  simulate-Costs op =
      ask-Costs p (simulated op) (server.simulate_transaction op) k.simulation (k.simulations op)

  pub has_admin-Costs : Costs p (3 * k.simulation) (with_retry (contract_has_admin server))
  unfolding contract_has_admin query
  has_admin-Costs =
      with_retry-Costs p k.no_sleeps k.simulation (contract_has_admin server)
        (λ w. simulate-Costs has_admin w)

  has_role-Costs :
      (r a : String) → Costs p (3 * k.simulation) (with_retry (contract_has_role server r a))
  unfolding contract_has_role query
  has_role-Costs r a =
      with_retry-Costs p k.no_sleeps k.simulation (contract_has_role server r a)
        (λ w. simulate-Costs (has_role r a) w)

  get_status-Costs :
      (hash : String) → Costs p k.polling (ask (polled hash) (server.get_transaction hash))
  get_status-Costs hash =
      ask-Costs p (polled hash) (server.get_transaction hash) k.polling (k.pollings hash)

  poll_again-Costs :
      (hash : String) (more : ℕ)
      → Costs p (suc more * k.polling) (poll_status server address hash more)
      → (s : Status)
      → Costs p (suc more * k.polling) (poll_again (poll_status server address hash more) s)
  poll_again-Costs hash more c not_found w = c w
  poll_again-Costs hash more c success w = omega arith
  poll_again-Costs hash more c (other_status t) w = omega arith

  poll_status-Costs :
      (hash : String) (more : ℕ)
      → Costs p (suc more * k.polling) (poll_status server address hash more)
  unfolding poll_status
  poll_status-Costs hash zero w = omega (
    arith,
    bind-Costs p 0 k.polling (sleep 1000) (λ _. get_status server address hash)
        (sleep-Costs p k.no_sleeps 1000 0) (λ _. get_status-Costs hash) w,
  )
  poll_status-Costs hash (suc more) w =
      let again = poll_again (poll_status server address hash more) in
      let turn =
        bind-Costs p k.polling (suc more * k.polling) (get_status server address hash) again
          (get_status-Costs hash) (poll_again-Costs hash more (poll_status-Costs hash more)) in
      omega (
        arith,
        bind-Costs p 0 (k.polling + suc more * k.polling) (sleep 1000)
            (λ _. get_status server address hash >>= again) (sleep-Costs p k.no_sleeps 1000 0)
            (λ _. turn) w,
      )

  finish-Costs :
      (hash : String) (s : Status) → Costs p (3 * k.simulation) (finish server address hash s)
  unfolding finish
  finish-Costs hash not_found w = omega arith
  finish-Costs hash (other_status t) w = omega arith
  finish-Costs hash success w = omega (
    arith,
    bind-Costs p (3 * k.simulation) 0 (with_retry (contract_has_role server "SuperAdmin" address))
        (λ b. return (verified server address hash b)) (has_role-Costs "SuperAdmin" address)
        (λ b. return-Costs p 0 (verified server address hash b)) w,
  )

  follow-Costs : (r : Sent) → Costs p (30 * k.polling + 3 * k.simulation) (follow server address r)
  unfolding follow
  follow-Costs (send_error e) w = omega arith
  follow-Costs (accepted hash) w =
      bind-Costs p (30 * k.polling) (3 * k.simulation) (poll_status server address hash 29)
        (finish server address hash) (poll_status-Costs hash 29) (finish-Costs hash) w

  send-Costs : (tx : String) → Costs p k.sending (send server address tx)
  send-Costs tx = ask-Costs p (sent tx) (server.send_transaction tx) k.sending (k.sendings tx)

  -- From the assembled transaction on.
  sent-Costs :
      (tx : String)
      → Costs p
          (k.sending + (30 * k.polling + 3 * k.simulation))
          (send server address tx >>= follow server address)
  sent-Costs tx =
      bind-Costs p k.sending (30 * k.polling + 3 * k.simulation) (send server address tx)
        (follow server address) (send-Costs tx) follow-Costs

  submit-Costs :
      (account : String) (s : Simulated)
      → Costs p (k.sending + (30 * k.polling + 3 * k.simulation)) (submit server address account s)
  unfolding submit
  submit-Costs account (simulation_error e) w = omega arith
  submit-Costs account no_result w = omega (
    arith,
    bind-Costs p 0 (k.sending + (30 * k.polling + 3 * k.simulation))
        (assemble server address account no_result)
        (λ tx. send server address tx >>= follow server address) (λ v. omega arith) sent-Costs w,
  )
  submit-Costs account (result b) w = omega (
    arith,
    bind-Costs p 0 (k.sending + (30 * k.polling + 3 * k.simulation))
        (assemble server address account (result b))
        (λ tx. send server address tx >>= follow server address) (λ v. omega arith) sent-Costs w,
  )

  account-Costs : Costs p k.account (account_of server address)
  account-Costs = ask-Costs p got_account (server.get_account address) k.account k.accounts

  simulated-Costs : Costs p (k.account + (k.simulation + 0)) (
      account_of server address >>= λ account.
      simulate server migrate_admin >>= λ s. return (simulated_result server address s))
  simulated-Costs =
      bind-Costs p k.account (k.simulation + 0) (account_of server address)
        (λ account.
          simulate server migrate_admin >>= λ s. return (simulated_result server address s))
        account-Costs
        (λ account.
          bind-Costs p k.simulation 0 (simulate server migrate_admin)
            (λ s. return (simulated_result server address s)) (simulate-Costs migrate_admin)
            (λ s. return-Costs p 0 (simulated_result server address s)))

  pub dry_run_unless-Costs :
      (b : Bool) → Costs p (k.account + k.simulation) (dry_run_unless server address b)
  unfolding dry_run_unless
  dry_run_unless-Costs true w = omega arith
  dry_run_unless-Costs false w = omega (arith, simulated-Costs w)

  migrated-Costs :
      Costs p (k.account + (k.simulation + (k.sending + (30 * k.polling + 3 * k.simulation)))) (
        account_of server address >>= λ account.
        simulate server migrate_admin >>= submit server address account)
  migrated-Costs =
      let rest = k.sending + (30 * k.polling + 3 * k.simulation) in
      bind-Costs p k.account (k.simulation + rest) (account_of server address)
        (λ account. simulate server migrate_admin >>= submit server address account) account-Costs
        (λ account.
          bind-Costs p k.simulation rest (simulate server migrate_admin)
            (submit server address account) (simulate-Costs migrate_admin) (submit-Costs account))

  pub migrate_unless-Costs :
      (b : Bool)
      → Costs p
          (k.account + (k.simulation + (k.sending + (30 * k.polling + 3 * k.simulation))))
          (migrate_unless server address b)
  unfolding migrate_unless
  migrate_unless-Costs true w = omega arith
  migrate_unless-Costs false w = migrated-Costs w

  -- After both queries, whatever is done then.
  pub queried-Costs :
      (n : ℕ) (f : Bool → Action S MigrationResult)
      → ((b : Bool) → Costs p n (f b))
      → Costs p
          (3 * k.simulation + n)
          (with_retry (contract_has_role server "SuperAdmin" address) >>= f)
  queried-Costs n f c =
      bind-Costs p (3 * k.simulation) n (with_retry (contract_has_role server "SuperAdmin" address))
        f (has_role-Costs "SuperAdmin" address) c
