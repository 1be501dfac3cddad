-- ===== src/Cli/Tests/Pausing.antt =====
-- A pause whose transaction is only built, and one whose transaction fails.
use bc_forge.Common.{◌≡◌, refl, true, false, none, some, all}
use bc_forge.Cli.Multisig.{truthy, ok, other}
use bc_forge.Cli.Names.{trim}
use bc_forge.Cli.Pause.{pause, Station, PauseRunOptions, run_pause_command}
use bc_forge.Cli.Pause.Report.{is_report, is_unsigned, is_call_for, run_pause_command-is_report}

abbrev offline_station : Station
offline_station = record {
  send_off = λ b. ok (record { success = true; hash = "h1"; return_value = other });
  build_tx = λ a key. ok "unsigned";
  read_file = λ path. ok " signed ";
  write_file = λ path contents. none;
  from_secret = λ secret. ok "GA";
}

abbrev build_only_pause : PauseRunOptions
build_only_pause = record {
  action = pause;
  signature_file = none;
  build_only = true;
  out_file = some "pause.xdr";
  public_key = some "GA";
  secret_key = some "S";
}

run_pause_command-is_report_example :
    (is_report
        (is_unsigned (truthy build_only_pause.signature_file) true)
        (run_pause_command offline_station build_only_pause).0
        (run_pause_command offline_station build_only_pause).1
      ≡ true)
    × (all (is_call_for pause) (run_pause_command offline_station build_only_pause).1 ≡ true)
run_pause_command-is_report_example = run_pause_command-is_report offline_station build_only_pause

abbrev failing_station : Station
failing_station = record {
  send_off = λ b. ok (record { success = false; hash = "h2"; return_value = other });
  build_tx = λ a key. ok "unsigned";
  read_file = λ path. ok " signed ";
  write_file = λ path contents. none;
  from_secret = λ secret. ok "GA";
}

abbrev signed_pause : PauseRunOptions
signed_pause = record {
  action = pause;
  signature_file = some "signed.xdr";
  build_only = false;
  out_file = none;
  public_key = none;
  secret_key = none;
}

-- The success that the client answers is not looked at: the run reports a broadcast.
failed_pause :
    (run_pause_command failing_station signed_pause).0
    ≡ ok (record { action = pause; submitted = true; hash = some "h2"; xdr = none })
unfolding run_pause_command trim
failed_pause = refl
