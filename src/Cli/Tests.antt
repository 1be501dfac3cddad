-- ===== src/Cli/Tests.antt =====
-- Registrations of an alias, an account of the address book, the approval of a proposal, and three
-- upgrades.
mod Pausing
use bc_forge.Common.{
  ◌≡◌, refl, Bool, true, false, ◌||◌, all, Option, none, some, [], ◌∷◌, String, if◌then◌else◌,
  ◌===◌,
}
use bc_forge.Common.Int.{pos}
use bc_forge.Common.Dict.{Dict, lookup, IsUnique}
use bc_forge.Cli.Names.{
  testnet, parse_network_name, trim, is_alias, is_contract_id, is_secret_key, is_public_key,
}
use bc_forge.Cli.Registry.{
  object, RegistryFile, document, ok, Registered, register_deployment_alias, register_error,
  next_document, networks_of, bucket_of, contract_id_from_alias_value, merge_network_aliases,
  merge_aliases, resolve_contract_reference,
}
use bc_forge.Cli.Registry.Stored.{resolve-register}
use bc_forge.Cli.Addresses.{
  ConfigFile, config, done, failed, unknown_account, text_accounts, accounts_from_unknown, spread,
  load_accounts, save_account, remove_account, resolve_account, resolve_account_reference,
}
use bc_forge.Cli.Addresses.Saved.{resolve_account-save_account}
use bc_forge.Cli.Upgrade.{
  entries_of, UpgradeHistoryFile, UpgradeOptions, with_hash, Server, simulated, confirmed,
  append_upgrade_history, get_last_good_hash, run_upgrade_with_hash, record_upgrade, run_upgrade,
}
use bc_forge.Cli.Upgrade.LastGood.{Extends, get_last_good_hash-run_upgrade}
use bc_forge.Common.Decimal.{parse_nat, scan}
use bc_forge.Cli.Multisig
use bc_forge.Cli.Multisig.{
  truthy, approve, TransactionResult, other, Surroundings, MultisigRunOptions, broadcast,
  signed_request, approve_proposal, require_proposal_id, natural_or, request_of,
}
use bc_forge.Cli.Multisig.Ceremony.{run_multisig_command}
use bc_forge.Cli.Multisig.Settled.{is_true_report, run_multisig_command-is_true_report}

abbrev token_id : String
token_id = "CAAAAAAAAAAAAAAAAAAAAAAAAAAAAAAAAAAAAAAAAAAAAAAAAAAABSC4"

abbrev vault_id : String
vault_id = "CBBBBBBBBBBBBBBBBBBBBBBBBBBBBBBBBBBBBBBBBBBBBBBBBBBBBSC4"

abbrev held : RegistryFile
held = document (record {
  version = none;
  networks = some (("mainnet", some (("token", object vault_id) ∷ [])) ∷ []);
  rest = "{}";
})

abbrev answered : Registered
answered = record { network = testnet; alias = "token"; contract_id = token_id }

abbrev later : RegistryFile
later = (register_deployment_alias true " token " token_id "TestNet" held).1

registered : register_deployment_alias true " token " token_id "TestNet" held ≡ (ok answered, later)
unfolding register_deployment_alias register_error next_document networks_of bucket_of
    contract_id_from_alias_value merge_network_aliases merge_aliases parse_network_name trim
    is_alias is_contract_id is_secret_key
registered = refl

resolve-register_example : resolve_contract_reference " token " "TestNet" later ≡ ok token_id
resolve-register_example =
    resolve-register true " token " token_id "TestNet" held later answered registered

-- The alias of the other network is still there.
other_network : resolve_contract_reference "token" "public" later ≡ ok vault_id
unfolding register_deployment_alias register_error next_document networks_of bucket_of
    resolve_contract_reference contract_id_from_alias_value merge_network_aliases merge_aliases
    parse_network_name trim is_alias is_contract_id is_secret_key
other_network = refl

abbrev valid_key : String → Bool
valid_key s = s === "GA" || s === "GB"

abbrev book : ConfigFile
book = config (record { accounts = some (("ops", some "GB") ∷ ("note", none) ∷ []); rest = "{}" })

abbrev project : Option (Dict (Option String))
project = some (("ops", some "GA") ∷ [])

abbrev next_book : ConfigFile
next_book = (save_account valid_key true " treasury " "GA" book).1

saved_book :
    save_account valid_key true " treasury " "GA" book
    ≡ (done (("ops", "GB") ∷ ("treasury", "GA") ∷ []), next_book)
unfolding save_account text_accounts trim is_alias
saved_book = refl

distinct_names :
    IsUnique (accounts_from_unknown project)
    × (lookup (trim " treasury ") (accounts_from_unknown project) ≡ none)
unfolding text_accounts trim
distinct_names = ((refl, tt), refl)

resolve_account-save_account_example :
    resolve_account valid_key "ops" (load_accounts project next_book) ≡ (
      if trim " treasury " === trim "ops"
      then done (trim "GA")
      else resolve_account valid_key "ops" (load_accounts project book))
resolve_account-save_account_example =
    resolve_account-save_account valid_key true " treasury " "GA" "ops" project book
      (("ops", "GB") ∷ ("treasury", "GA") ∷ []) next_book distinct_names.0 distinct_names.1
      saved_book

-- The project's entry of a name stands for the one of the config file; a removed name is unknown.
resolved_names :
    (resolve_account valid_key "ops" (load_accounts project next_book) ≡ done "GA")
    × (resolve_account valid_key "treasury" (load_accounts project next_book) ≡ done "GA")
    × (resolve_account valid_key "treasury"
          (load_accounts project (remove_account true "treasury" next_book).1)
        ≡ failed (unknown_account "treasury"))
    × (resolve_account_reference valid_key " GX" [] ≡ done "GX")
unfolding save_account remove_account resolve_account resolve_account_reference load_accounts spread
    text_accounts trim is_alias is_public_key
resolved_names = (refl, refl, refl, refl)

abbrev approved : TransactionResult
approved = record { success = true; hash = "h1"; return_value = other }

abbrev desk : Surroundings
desk = record {
  send = λ b. Multisig.ok approved;
  build = λ r. Multisig.ok "AAAA";
  read_file = λ path. Multisig.ok " BBBB ";
  write_file = λ path xdr. none;
  public_key_of = λ secret. Multisig.ok "GA";
}

abbrev approval : MultisigRunOptions
approval = record {
  action = approve;
  description = none;
  proposal_id = some "12";
  wasm_hash = none;
  offline = false;
  out_file = none;
  signature_file = none;
  public_key = none;
  secret_key = some "SA";
}

approval_run : run_multisig_command desk approval ≡ record {
  result =
      Multisig.ok
        (record { submitted = true; proposal_id = some (pos 12); hash = some "h1"; xdr = none });
  calls = broadcast (signed_request (approve_proposal "GA" 12)) (Multisig.ok approved) ∷ [];
}
unfolding run_multisig_command request_of require_proposal_id natural_or trim parse_nat scan
approval_run = refl

run_multisig_command-is_true_report_example :
    is_true_report false
      (run_multisig_command desk approval).result
      (run_multisig_command desk approval).calls
    ≡ true
run_multisig_command-is_true_report_example = run_multisig_command-is_true_report desk approval

abbrev upgrading : String → UpgradeOptions
upgrading wasm = record {
  wasm = with_hash wasm;
  contract_id = "C";
  dry_run = false;
  estimate = false;
  to_last_good = false;
}

abbrev up : Server
up = record { simulate = λ h. simulated 0; submit = λ h. confirmed "t" }

abbrev after_upgrade : String → UpgradeHistoryFile → UpgradeHistoryFile
after_upgrade wasm history = (run_upgrade true "now" up (upgrading wasm) history).1

-- After upgrades to the hashes w1, w2 and w3 the command goes back to w1.
back_to_first :
    get_last_good_hash "C" (after_upgrade "w3" (after_upgrade "w2" (after_upgrade "w1" [])))
    ≡ some "w1"
unfolding run_upgrade run_upgrade_with_hash record_upgrade append_upgrade_history get_last_good_hash
back_to_first = refl

first_upgrade : get_last_good_hash "C" (after_upgrade "w1" []) ≡ some "w1"
unfolding run_upgrade run_upgrade_with_hash record_upgrade append_upgrade_history get_last_good_hash
first_upgrade = refl

-- The upgrade of another contract.
abbrev upgrading_other : UpgradeOptions
upgrading_other = record (upgrading "w2") { contract_id = "D" }

get_last_good_hash-run_upgrade_example :
    let history = after_upgrade "w1" [] in
    let later = (run_upgrade true "now" up upgrading_other history).1 in
    (get_last_good_hash "C" later ≡ some "w1")
    × Extends (entries_of (lookup "C" history)) (entries_of (lookup "C" later))
get_last_good_hash-run_upgrade_example =
    get_last_good_hash-run_upgrade true "now" "C" "w1" up upgrading_other (after_upgrade "w1" [])
      first_upgrade
