-- ===== src/Cli/Upgrade.antt =====
-- The upgrade command (cli/src/commands/upgrade.ts) and the history that it keeps
-- (cli/src/utils/upgrade-history.ts). The history file is its contents, which are empty where it
-- cannot be read; whether a write succeeds, the time, the file of the contract's code and the answers
-- of the server are parameters. The messages of a result are left out.
pub mod LastGood
use bc_forge.Common.{
  ℕ, ◌+◌, Bool, true, false, not, ◌&&◌, ◌||◌, Option, none, some, List, [], ◌∷◌, ◌++◌, String,
  if◌then◌else◌, last?, is_nonempty,
}
use bc_forge.Common.Dict.{Dict, lookup, insert}

pub record UpgradeHistoryEntry : Type 0 where
  pub new_hash : String
  pub previous_hash : String
  pub recorded_at : String
  pub tx_hash : Option String

abbrev pub UpgradeHistoryFile : Type 0
UpgradeHistoryFile = Dict (List UpgradeHistoryEntry)

abbrev pub entries_of : Option (List UpgradeHistoryEntry) → List UpgradeHistoryEntry
entries_of none = []
entries_of (some es) = es

-- `appendUpgradeHistory`, where the file can be written.
unfoldable pub append_upgrade_history :
    String → String → String → Option String → String → UpgradeHistoryFile → UpgradeHistoryFile
append_upgrade_history contract_id previous_hash new_hash tx_hash now history =
    let entry : UpgradeHistoryEntry = record {
      new_hash = new_hash;
      previous_hash = previous_hash;
      recorded_at = now;
      tx_hash = tx_hash;
    } in
    insert contract_id (entries_of (lookup contract_id history) ++ entry ∷ []) history

abbrev pub previous_of : Option UpgradeHistoryEntry → Option String
previous_of none = none
previous_of (some e) = some e.previous_hash

unfoldable pub get_last_good_hash : String → UpgradeHistoryFile → Option String
get_last_good_hash contract_id history =
    previous_of (last? (entries_of (lookup contract_id history)))

-- The file of the new code: no path is given, there is none, it is empty, or the hash of its bytes.
pub data WasmFile : Type 0 where
  no_path : WasmFile
  not_found : WasmFile
  empty_file : WasmFile
  with_hash : String → WasmFile

pub record FeeEstimate : Type 0 where
  pub base_fee : ℕ
  pub resource_fee : ℕ
  pub total_fee : ℕ

pub record UpgradeResult : Type 0 where
  pub success : Bool
  pub tx_hash : Option String
  pub wasm_hash : Option String
  pub estimate : Option FeeEstimate

pub record UpgradeOptions : Type 0 where
  pub wasm : WasmFile
  pub contract_id : String
  pub dry_run : Bool
  pub estimate : Bool
  pub to_last_good : Bool

-- The answer to a simulation: an error, its resource fee, or an error that is thrown.
pub data Simulated : Type 0 where
  simulation_error : Simulated
  simulated : ℕ → Simulated
  simulation_thrown : Simulated

-- The outcome of `prepareSignAndSubmit`.
pub data Submitted : Type 0 where
  simulation_failed : Submitted
  submission_failed : Option String → Submitted
  failed_on_ledger : String → Submitted
  timed_out : String → Submitted
  confirmed : String → Submitted
  submission_thrown : Submitted

-- The server, asked for the code's hash.
pub record Server : Type 0 where
  pub simulate : String → Simulated
  pub submit : String → Submitted

abbrev pub failed : Option String → Option String → UpgradeResult
failed tx wasm = record { success = false; tx_hash = tx; wasm_hash = wasm; estimate = none }

abbrev pub succeeded : Option String → String → UpgradeResult
succeeded tx wasm = record { success = true; tx_hash = tx; wasm_hash = some wasm; estimate = none }

abbrev pub estimated : String → Simulated → UpgradeResult
estimated wasm simulation_error = failed none none
estimated wasm simulation_thrown = failed none none
estimated wasm (simulated fee) = record {
  success = true;
  tx_hash = none;
  wasm_hash = some wasm;
  estimate = some (record { base_fee = 100; resource_fee = fee; total_fee = 100 + fee });
}

abbrev pub dry_run_result : String → Simulated → UpgradeResult
dry_run_result wasm simulation_error = failed none none
dry_run_result wasm simulation_thrown = failed none none
dry_run_result wasm (simulated fee) = succeeded none wasm

abbrev pub submitted : String → Submitted → UpgradeResult
submitted wasm simulation_failed = failed none (some wasm)
submitted wasm (submission_failed tx) = failed tx (some wasm)
submitted wasm (failed_on_ledger tx) = failed (some tx) (some wasm)
submitted wasm (timed_out tx) = failed (some tx) (some wasm)
submitted wasm (confirmed tx) = succeeded (some tx) wasm
submitted wasm submission_thrown = failed none none

-- `runUpgradeWithHash`
unfoldable pub run_upgrade_with_hash : Server → UpgradeOptions → String → UpgradeResult
run_upgrade_with_hash server o wasm =
    if o.estimate
    then estimated wasm (server.simulate wasm)
    else if o.dry_run
    then dry_run_result wasm (server.simulate wasm)
    else submitted wasm (server.submit wasm)

abbrev pub or_hash : Option String → String → String
or_hash none h = h
or_hash (some g) h = g

-- A hash that JavaScript's truth test accepts.
abbrev pub has_text : Option String → Bool
has_text none = false
has_text (some s) = is_nonempty s

-- The end of `runUpgrade`: an upgrade that is confirmed is recorded, if the file can be written.
unfoldable pub record_upgrade :
    Bool
    → String
    → UpgradeOptions
    → String
    → UpgradeResult
    → UpgradeHistoryFile
    → UpgradeHistoryFile
unfolding append_upgrade_history get_last_good_hash
record_upgrade writes now o wasm r history =
    if writes && (r.success && (not o.dry_run && (not o.estimate && has_text r.tx_hash)))
    then append_upgrade_history o.contract_id
        (or_hash (get_last_good_hash o.contract_id history) wasm) wasm r.tx_hash now history
    else history

abbrev pub upgrade_to :
    Bool
    → String
    → Server
    → UpgradeOptions
    → WasmFile
    → UpgradeHistoryFile
    → UpgradeResult × UpgradeHistoryFile
upgrade_to writes now server o no_path history = (failed none none, history)
upgrade_to writes now server o not_found history = (failed none none, history)
upgrade_to writes now server o empty_file history = (failed none none, history)
upgrade_to writes now server o (with_hash wasm) history =
    let r = run_upgrade_with_hash server o wasm in (r, record_upgrade writes now o wasm r history)

abbrev pub roll_back_to : Server → UpgradeOptions → Option String → UpgradeResult
roll_back_to server o none = failed none none
roll_back_to server o (some g) =
    if is_nonempty g then run_upgrade_with_hash server o g else failed none none

-- `runUpgrade`
unfoldable pub run_upgrade :
    Bool
    → String
    → Server
    → UpgradeOptions
    → UpgradeHistoryFile
    → UpgradeResult × UpgradeHistoryFile
unfolding run_upgrade_with_hash record_upgrade get_last_good_hash
run_upgrade writes now server o history =
    if o.to_last_good
    then (roll_back_to server o (get_last_good_hash o.contract_id history), history)
    else upgrade_to writes now server o o.wasm history
