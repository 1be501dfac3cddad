-- ===== src/Cli/Multisig/Settled.antt =====
-- Which calls a step of the ceremony makes (cli/src/utils/multisig.ts).
use bc_forge.Common.{
  ◌≡◌, refl, ap, ◌∙◌, Bool, true, false, not, ◌&&◌, ◌||◌, Option, none, some, List, [], ◌∷◌, String,
  arith, ===_refl, ◌===◌, if◌then◌else◌, any, is_nonempty, Bool-cases, inl, inr,
}
use bc_forge.Common.Int.{ℤ}
use bc_forge.Cli.Names.{trim}
use bc_forge.Cli.Multisig.{
  MultisigAction, propose, approve, execute, TransactionResult, Outcome, ok, thrown, Request,
  Broadcast, signed_request, Call, broadcast, built, wrote, Surroundings, MultisigRunOptions,
  MultisigRunResult, Run, truthy, read_proposal_id, request_of,
}
use bc_forge.Cli.Multisig.Ceremony.{
  failure, with_proposal, settled, after_broadcast, envelope_of, run_envelope, written_to,
  after_build, run_unsigned, run_offline, run_request, run_signer, run_hot, run_from,
  run_multisig_command,
}

abbrev pub is_broadcast : Call → Bool
is_broadcast (broadcast b r) = true
is_broadcast (built r) = false
is_broadcast (wrote path xdr) = false

-- A single broadcast, that succeeded with the hash.
abbrev pub is_only_success : Option String → List Call → Bool
is_only_success (some hash) (broadcast b (ok t) ∷ []) = t.success && t.hash === hash
is_only_success hash calls = false

-- What a run that ends with a result did: nothing was broadcast, or one transaction was and
-- succeeded, and the result tells which.
abbrev pub is_true_report : Bool → Outcome MultisigRunResult → List Call → Bool
is_true_report offline (ok r) calls =
    if offline
    then not r.submitted && not (any is_broadcast calls)
    else r.submitted && is_only_success r.hash calls
is_true_report offline (thrown e) calls = not offline || not (any is_broadcast calls)

abbrev IsTrue : Bool → Run → Type 0
IsTrue offline run = is_true_report offline run.result run.calls ≡ true

with_proposal-IsTrue :
    (t : TransactionResult) (b : Broadcast) (id : Outcome ℤ)
    → t.success ≡ true
    → is_true_report false (with_proposal t.hash id) (broadcast b (ok t) ∷ []) ≡ true
with_proposal-IsTrue t b (ok id) h = ground (arith, ===_refl t.hash)
with_proposal-IsTrue t b (thrown e) h = refl

settled-IsTrue :
    (a : MultisigAction) (given : Option ℤ) (t : TransactionResult) (b : Broadcast)
    → t.success ≡ true
    → is_true_report false (settled a given t) (broadcast b (ok t) ∷ []) ≡ true
settled-IsTrue propose given t b h = with_proposal-IsTrue t b (read_proposal_id t.return_value) h
settled-IsTrue approve given t b h = ground (arith, ===_refl t.hash)
settled-IsTrue execute given t b h = ground (arith, ===_refl t.hash)

after_broadcast-IsTrue :
    (a : MultisigAction) (given : Option ℤ) (b : Broadcast) (r : Outcome TransactionResult)
    → IsTrue false (after_broadcast a given b r)
after_broadcast-IsTrue a given b (thrown e) = refl
after_broadcast-IsTrue a given b (ok t) = elim (Bool-cases t.success) [
  | inl h ↦
      ap
        (λ x.
          is_true_report false (if x then settled a given t else thrown (failure a t))
            (broadcast b (ok t) ∷ []))
        h
      ∙ settled-IsTrue a given t b h
  | inr h ↦
      ap
        (λ x.
          is_true_report false (if x then settled a given t else thrown (failure a t))
            (broadcast b (ok t) ∷ []))
        h
]

module _ (s : Surroundings) (o : MultisigRunOptions) where
  run_envelope-IsTrue :
      (file : String) (r : Outcome String) → IsTrue false (run_envelope s o file r)
  run_envelope-IsTrue file (thrown e) = refl
  run_envelope-IsTrue file (ok xdr) = elim (Bool-cases (is_nonempty (trim xdr))) [
    | inl e ↦
        let b = envelope_of o.action (trim xdr) in
        rw (e, IsTrue) (after_broadcast-IsTrue o.action none b (s.send b))
    | inr e ↦ rw (e, IsTrue) refl
  ]

  written-IsTrue :
      (path : String) (r : Request) (xdr : String) (w : Option String)
      → IsTrue true (written_to s o path r xdr w)
  written-IsTrue path r xdr none = refl
  written-IsTrue path r xdr (some e) = refl

  built-IsTrue :
      (path : String) (r : Request) (x : Outcome String) → IsTrue true (after_build s o path r x)
  built-IsTrue path r (thrown e) = refl
  built-IsTrue path r (ok xdr) = written-IsTrue path r xdr (s.write_file path xdr)

  unsigned-IsTrue : (path : String) (r : Outcome Request) → IsTrue true (run_unsigned s o path r)
  unsigned-IsTrue path (thrown e) = refl
  unsigned-IsTrue path (ok r) = built-IsTrue path r (s.build r)

  run_offline-IsTrue : (key out : Option String) → IsTrue true (run_offline s o key out)
  run_offline-IsTrue none out = refl
  run_offline-IsTrue (some key) none = refl
  run_offline-IsTrue (some key) (some path) = unsigned-IsTrue path (request_of o key o.action)

  run_request-IsTrue : (r : Outcome Request) → IsTrue false (run_request s o r)
  run_request-IsTrue (thrown e) = refl
  run_request-IsTrue (ok r) =
      after_broadcast-IsTrue o.action _ (signed_request r) (s.send (signed_request r))

  run_signer-IsTrue : (r : Outcome String) → IsTrue false (run_signer s o r)
  run_signer-IsTrue (thrown e) = refl
  run_signer-IsTrue (ok signer) = run_request-IsTrue (request_of o signer o.action)

  run_hot-IsTrue : (secret : Option String) → IsTrue false (run_hot s o secret)
  run_hot-IsTrue none = refl
  run_hot-IsTrue (some secret) = run_signer-IsTrue (s.public_key_of secret)

  run_from-IsTrue :
      (file : Option String) (offline : Bool) → IsTrue offline (run_from s o file offline)
  run_from-IsTrue (some file) true = refl
  run_from-IsTrue (some file) false = run_envelope-IsTrue file (s.read_file file)
  run_from-IsTrue none true = run_offline-IsTrue (truthy o.public_key) (truthy o.out_file)
  run_from-IsTrue none false = run_hot-IsTrue (truthy o.secret_key)

  -- A step with `offline` broadcasts nothing, whatever its other options, and says so. A step without
  -- it that ends with a result made one broadcast and no other call, which succeeded, and the result
  -- carries its hash.
  pub run_multisig_command-is_true_report :
      is_true_report o.offline (run_multisig_command s o).result (run_multisig_command s o).calls
      ≡ true
  unfolding run_multisig_command
  run_multisig_command-is_true_report = run_from-IsTrue (truthy o.signature_file) o.offline
