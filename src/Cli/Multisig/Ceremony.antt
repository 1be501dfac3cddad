-- ===== src/Cli/Multisig/Ceremony.antt =====
-- One step of the ceremony (cli/src/utils/multisig.ts, `runMultisigCommand`).
use Prim.Native.String.{◌++◌ as ◌+++◌}
use bc_forge.Common.{
  Bool, true, false, Option, none, some, List, [], ◌∷◌, String, if◌then◌else◌, is_nonempty,
}
use bc_forge.Common.Int.{ℤ, pos}
use bc_forge.Cli.Names.{trim}
use bc_forge.Cli.Multisig.{
  MultisigAction, propose, approve, execute, TransactionResult, Outcome, ok, thrown, Request,
  create_proposal, approve_proposal, execute_upgrade, Broadcast, signed_request, envelope,
  upgrade_envelope, Call, broadcast, built, wrote, Surroundings, MultisigRunOptions,
  MultisigRunResult, Run, truthy, read_proposal_id, request_of,
}

abbrev pub failed : String → List Call → Run
failed e calls = record { result = thrown e; calls = calls }

abbrev pub submitted_as : String → Option ℤ → MultisigRunResult
submitted_as hash id = record { submitted = true; proposal_id = id; hash = some hash; xdr = none }

abbrev pub with_proposal : String → Outcome ℤ → Outcome MultisigRunResult
with_proposal hash (ok id) = ok (submitted_as hash (some id))
with_proposal hash (thrown e) = thrown e

-- The result of a broadcast that succeeded: a proposal's id is the value returned, an id that was
-- given is kept.
abbrev pub settled : MultisigAction → Option ℤ → TransactionResult → Outcome MultisigRunResult
settled propose given t = with_proposal t.hash (read_proposal_id t.return_value)
settled approve given t = ok (submitted_as t.hash given)
settled execute given t = ok (submitted_as t.hash given)

abbrev pub label : MultisigAction → String
label propose = "create_proposal"
label approve = "approve_proposal"
label execute = "execute_upgrade"

-- `assertSuccess` and what follows it.
abbrev pub failure : MultisigAction → TransactionResult → String
failure action t = label action +++ " failed (tx " +++ t.hash +++ ")"

abbrev pub checked : MultisigAction → Option ℤ → TransactionResult → Outcome MultisigRunResult
checked action given t = if t.success then settled action given t else thrown (failure action t)

abbrev pub after_broadcast : MultisigAction → Option ℤ → Broadcast → Outcome TransactionResult → Run
after_broadcast action given b (ok t) = record {
  result = checked action given t;
  calls = broadcast b (ok t) ∷ [];
}
after_broadcast action given b (thrown e) = failed e (broadcast b (thrown e) ∷ [])

abbrev pub envelope_of : MultisigAction → String → Broadcast
envelope_of propose xdr = envelope xdr
envelope_of approve xdr = envelope xdr
envelope_of execute xdr = upgrade_envelope xdr

module _ (s : Surroundings) (o : MultisigRunOptions) where
  abbrev send_as : Option ℤ → Broadcast → Run
  send_as given b = after_broadcast o.action given b (s.send b)

  -- With a signature file, and with what stands in it.
  abbrev pub run_envelope : String → Outcome String → Run
  run_envelope file (thrown e) = failed e []
  run_envelope file (ok xdr) =
      if is_nonempty (trim xdr)
      then send_as none (envelope_of o.action (trim xdr))
      else failed ("Signature file " +++ file +++ " is empty") []

  abbrev pub written_to : String → Request → String → Option String → Run
  written_to path r xdr none = record {
    result = ok (record { submitted = false; proposal_id = none; hash = none; xdr = some xdr });
    calls = built r ∷ wrote path xdr ∷ [];
  }
  written_to path r xdr (some e) = failed e (built r ∷ [])

  abbrev pub after_build : String → Request → Outcome String → Run
  after_build path r (ok xdr) = written_to path r xdr (s.write_file path xdr)
  after_build path r (thrown e) = failed e (built r ∷ [])

  abbrev pub run_unsigned : String → Outcome Request → Run
  run_unsigned path (ok r) = after_build path r (s.build r)
  run_unsigned path (thrown e) = failed e []

  -- With `offline`.
  abbrev pub run_offline : Option String → Option String → Run
  run_offline none out = failed "--public-key is required with --offline" []
  run_offline (some key) none = failed "--out <file> is required with --offline" []
  run_offline (some key) (some path) = run_unsigned path (request_of o key o.action)

  abbrev pub given_id : Request → Option ℤ
  given_id (create_proposal signer d) = none
  given_id (approve_proposal signer id) = some (pos id)
  given_id (execute_upgrade signer id hash) = some (pos id)

  abbrev pub run_request : Outcome Request → Run
  run_request (ok r) = send_as (given_id r) (signed_request r)
  run_request (thrown e) = failed e []

  abbrev pub run_signer : Outcome String → Run
  run_signer (ok signer) = run_request (request_of o signer o.action)
  run_signer (thrown e) = failed e []

  -- With a secret key.
  abbrev pub run_hot : Option String → Run
  run_hot none =
      failed
        "No signing source: pass --signature-file <signed.xdr>, --offline, or --source <secret>." []
  run_hot (some secret) = run_signer (s.public_key_of secret)

  abbrev pub run_from : Option String → Bool → Run
  run_from (some file) true = failed "Pass either --offline or --signature-file, not both." []
  run_from (some file) false = run_envelope file (s.read_file file)
  run_from none true = run_offline (truthy o.public_key) (truthy o.out_file)
  run_from none false = run_hot (truthy o.secret_key)

  -- `runMultisigCommand`
  unfoldable pub run_multisig_command : Run
  unfolding request_of read_proposal_id trim
  run_multisig_command = run_from (truthy o.signature_file) o.offline
