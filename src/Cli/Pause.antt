-- ===== src/Cli/Pause.antt =====
-- The pause and unpause commands (cli/src/utils/pause.ts, `runPauseCommand`), on a client, files and
-- a key parser that are parameters. Every call of the client that broadcasts or builds, and every
-- text that is put out, is kept in a list of calls.
pub mod Report
use Prim.Native.String.{◌++◌ as ◌+++◌}
use bc_forge.Common.{
  ◌≡◌, refl, Bool, true, false, not, ◌&&◌, Option, none, some, List, [], ◌∷◌, String, arith,
  ===_refl, ◌===◌, if◌then◌else◌, any, is_nonempty, Bool-cases, inl, inr,
}
use bc_forge.Cli.Names.{trim}
use bc_forge.Cli.Multisig.{TransactionResult, Outcome, ok, thrown, truthy}

pub data PauseAction : Type 0 where
  pause : PauseAction
  unpause : PauseAction

-- What is broadcast: an action that a key signs, or an envelope that is signed already.
pub data Sending : Type 0 where
  signed_by : PauseAction → String → Sending
  signed_xdr : String → Sending

pub data PauseCall : Type 0 where
  broadcast_of : Sending → Outcome TransactionResult → PauseCall
  built_for : PauseAction → String → PauseCall
  put : Option String → String → PauseCall

-- `PauseCapableClient`, the files (a write gives its error, if any) and `Keypair.fromSecret`, which
-- gives the name of the pair.
pub record Station : Type 0 where
  pub send_off : Sending → Outcome TransactionResult
  pub build_tx : PauseAction → String → Outcome String
  pub read_file : String → Outcome String
  pub write_file : String → String → Option String
  pub from_secret : String → Outcome String

pub record PauseRunOptions : Type 0 where
  pub action : PauseAction
  pub signature_file : Option String
  pub build_only : Bool
  pub out_file : Option String
  pub public_key : Option String
  pub secret_key : Option String

pub record PauseRunResult : Type 0 where
  pub action : PauseAction
  pub submitted : Bool
  pub hash : Option String
  pub xdr : Option String

abbrev pub PauseRun : Type 0
PauseRun = Outcome PauseRunResult × List PauseCall

module _ (s : Station) (o : PauseRunOptions) where
  abbrev pub after_sending : Sending → Outcome TransactionResult → PauseRun
  after_sending b (ok t) = (
    ok (record { action = o.action; submitted = true; hash = some t.hash; xdr = none }),
    broadcast_of b (ok t) ∷ [],
  )
  after_sending b (thrown e) = (thrown e, broadcast_of b (thrown e) ∷ [])

  -- With a signature file, on what stands in it.
  abbrev pub pause_envelope : String → Outcome String → PauseRun
  pause_envelope file (thrown e) = (thrown e, [])
  pause_envelope file (ok xdr) =
      if is_nonempty (trim xdr)
      then after_sending (signed_xdr (trim xdr)) (s.send_off (signed_xdr (trim xdr)))
      else (thrown ("Signature file " +++ file +++ " is empty"), [])

  abbrev unsigned_result : String → Outcome PauseRunResult
  unsigned_result xdr =
      ok (record { action = o.action; submitted = false; hash = none; xdr = some xdr })

  abbrev pub put_out : String → String → Option String → Option String → PauseRun
  put_out key xdr none e = (unsigned_result xdr, built_for o.action key ∷ put none xdr ∷ [])
  put_out key xdr (some path) none =
      (unsigned_result xdr, built_for o.action key ∷ put (some path) xdr ∷ [])
  put_out key xdr (some path) (some e) = (thrown e, built_for o.action key ∷ [])

  abbrev pub write_error : String → Option String → Option String
  write_error xdr none = none
  write_error xdr (some path) = s.write_file path xdr

  abbrev pub after_build_tx : String → Outcome String → PauseRun
  after_build_tx key (thrown e) = (thrown e, built_for o.action key ∷ [])
  after_build_tx key (ok xdr) =
      put_out key xdr (truthy o.out_file) (write_error xdr (truthy o.out_file))

  abbrev pub pause_unsigned : Option String → PauseRun
  pause_unsigned none = (thrown "--public-key is required with --build-only", [])
  pause_unsigned (some key) = after_build_tx key (s.build_tx o.action key)

  abbrev pub signed_with : Outcome String → PauseRun
  signed_with (thrown e) = (thrown e, [])
  signed_with (ok pair) =
      after_sending (signed_by o.action pair) (s.send_off (signed_by o.action pair))

  abbrev pub pause_hot : Option String → PauseRun
  pause_hot none = (
    thrown "No signing source: pass --signature <signed.xdr>, --build-only, or --source <secret>.",
    [],
  )
  pause_hot (some secret) = signed_with (s.from_secret secret)

  abbrev pub pause_from : Option String → Bool → PauseRun
  pause_from (some file) build_only = pause_envelope file (s.read_file file)
  pause_from none true = pause_unsigned (truthy o.public_key)
  pause_from none false = pause_hot (truthy o.secret_key)

  -- `runPauseCommand`
  unfoldable pub run_pause_command : PauseRun
  unfolding trim
  run_pause_command = pause_from (truthy o.signature_file) o.build_only
