-- ===== src/Cli/Pause/Report.antt =====
-- What a run of the pause or unpause command did, by what it reports (cli/src/utils/pause.ts).
use bc_forge.Common.{
  ◌≡◌, refl, Bool, true, false, not, ◌&&◌, ◌||◌, Option, none, some, List, [], ◌∷◌, String, arith,
  ===_refl, ◌===◌, if◌then◌else◌, any, all, is_nonempty, Bool-cases, inl, inr,
}
use bc_forge.Cli.Names.{trim}
use bc_forge.Cli.Multisig.{TransactionResult, Outcome, ok, thrown, truthy}
use bc_forge.Cli.Pause.{
  PauseAction, pause, unpause, Sending, signed_by, signed_xdr, PauseCall, broadcast_of, built_for,
  put, Station, PauseRunOptions, PauseRunResult, PauseRun, after_sending, pause_envelope, put_out,
  after_build_tx, write_error, pause_unsigned, signed_with, pause_hot, pause_from,
  run_pause_command,
}

abbrev pub is_same : PauseAction → PauseAction → Bool
is_same pause pause = true
is_same unpause unpause = true
is_same pause unpause = false
is_same unpause pause = false

is_same_refl : (a : PauseAction) → is_same a a ≡ true
is_same_refl pause = refl
is_same_refl unpause = refl

abbrev pub is_broadcast_of : PauseCall → Bool
is_broadcast_of (broadcast_of b r) = true
is_broadcast_of (built_for a key) = false
is_broadcast_of (put path xdr) = false

-- A call for the action; an envelope that is signed already may hold any.
abbrev pub is_sending_for : PauseAction → Sending → Bool
is_sending_for a (signed_by b pair) = is_same a b
is_sending_for a (signed_xdr xdr) = true

abbrev pub is_call_for : PauseAction → PauseCall → Bool
is_call_for a (broadcast_of b r) = is_sending_for a b
is_call_for a (built_for b key) = is_same a b
is_call_for a (put path xdr) = true

-- A single broadcast, that was answered with the hash.
abbrev pub is_only_answered : Option String → List PauseCall → Bool
is_only_answered (some hash) (broadcast_of b (ok t) ∷ []) = t.hash === hash
is_only_answered hash calls = false

abbrev pub is_report : Bool → Outcome PauseRunResult → List PauseCall → Bool
is_report unsigned (ok r) calls =
    if unsigned
    then not r.submitted && not (any is_broadcast_of calls)
    else r.submitted && is_only_answered r.hash calls
is_report unsigned (thrown e) calls = not unsigned || not (any is_broadcast_of calls)

-- An unsigned transaction is built with `build_only` and no signature file.
abbrev pub is_unsigned : Option String → Bool → Bool
is_unsigned (some file) build_only = false
is_unsigned none build_only = build_only

abbrev IsReport : PauseAction → Bool → PauseRun → Type 0
IsReport a unsigned run =
    (is_report unsigned run.0 run.1 ≡ true) × (all (is_call_for a) run.1 ≡ true)

module _ (s : Station) (o : PauseRunOptions) where
  after_sending-IsReport :
      (b : Sending) (r : Outcome TransactionResult)
      → is_sending_for o.action b ≡ true
      → IsReport o.action false (after_sending s o b r)
  after_sending-IsReport b (ok t) h = (===_refl t.hash, ground (arith, h))
  after_sending-IsReport b (thrown e) h = (refl, ground (arith, h))

  pause_envelope-IsReport :
      (file : String) (r : Outcome String) → IsReport o.action false (pause_envelope s o file r)
  pause_envelope-IsReport file (thrown e) = (refl, refl)
  pause_envelope-IsReport file (ok xdr) = elim (Bool-cases (is_nonempty (trim xdr))) [
    | inl h ↦
        rw h
          (after_sending-IsReport (signed_xdr (trim xdr)) (s.send_off (signed_xdr (trim xdr))) refl)
    | inr h ↦ rw h (refl, refl)
  ]

  put_out-IsReport :
      (key xdr : String) (path e : Option String)
      → IsReport o.action true (put_out s o key xdr path e)
  put_out-IsReport key xdr none e = (refl, ground (arith, is_same_refl o.action))
  put_out-IsReport key xdr (some path) none = (refl, ground (arith, is_same_refl o.action))
  put_out-IsReport key xdr (some path) (some e) = (refl, ground (arith, is_same_refl o.action))

  after_build_tx-IsReport :
      (key : String) (r : Outcome String) → IsReport o.action true (after_build_tx s o key r)
  after_build_tx-IsReport key (thrown e) = (refl, ground (arith, is_same_refl o.action))
  after_build_tx-IsReport key (ok xdr) =
      put_out-IsReport key xdr (truthy o.out_file) (write_error s o xdr (truthy o.out_file))

  pause_unsigned-IsReport : (key : Option String) → IsReport o.action true (pause_unsigned s o key)
  pause_unsigned-IsReport none = (refl, refl)
  pause_unsigned-IsReport (some key) = after_build_tx-IsReport key (s.build_tx o.action key)

  signed_with-IsReport : (r : Outcome String) → IsReport o.action false (signed_with s o r)
  signed_with-IsReport (thrown e) = (refl, refl)
  signed_with-IsReport (ok pair) =
      after_sending-IsReport (signed_by o.action pair) (s.send_off (signed_by o.action pair))
        (is_same_refl o.action)

  pause_hot-IsReport : (secret : Option String) → IsReport o.action false (pause_hot s o secret)
  pause_hot-IsReport none = (refl, refl)
  pause_hot-IsReport (some secret) = signed_with-IsReport (s.from_secret secret)

  pause_from-IsReport :
      (file : Option String) (build_only : Bool)
      → IsReport o.action (is_unsigned file build_only) (pause_from s o file build_only)
  pause_from-IsReport (some file) build_only = pause_envelope-IsReport file (s.read_file file)
  pause_from-IsReport none true = pause_unsigned-IsReport (truthy o.public_key)
  pause_from-IsReport none false = pause_hot-IsReport (truthy o.secret_key)

  -- A run that builds an unsigned transaction broadcasts nothing and says so; any other run that ends
  -- with a result made one broadcast, that was answered with the hash of the result, and no other
  -- call. What is built, or signed with a key, is the action that was asked for.
  pub run_pause_command-is_report :
      (is_report
          (is_unsigned (truthy o.signature_file) o.build_only)
          (run_pause_command s o).0
          (run_pause_command s o).1
        ≡ true)
      × (all (is_call_for o.action) (run_pause_command s o).1 ≡ true)
  unfolding run_pause_command
  run_pause_command-is_report = pause_from-IsReport (truthy o.signature_file) o.build_only
