-- ===== src/Cli/Registry/Stored.antt =====
-- What a registration leaves in the registry (cli/src/utils/registry.ts): the alias under its
-- network, and everything else as it was.
use bc_forge.Common.{
  ◌≡◌, refl, sym, ap, ◌∙◌, Bool, true, false, Option, none, some, [], ◌∷◌, String, arith, ===_refl,
  ◌===◌, ◌>>=◌, Bool-cases, Option-cases, inl, inr,
}
use bc_forge.Common.Dict.{Dict, lookup, insert, lookup-insert}
use bc_forge.Cli.Names.{
  trim, is_contract_id, is_alias, NetworkName, network_text, parse_network_name, trim_contract_id,
  contract_id_is_no_secret,
}
use bc_forge.Cli.Registry.{
  Document, RegistryFile, document, NetworkAliasMap, Outcome, ok, thrown, read_document, trimmed_id,
  contract_id_from_alias_value, public_id, with_alias, bucket_of, networks_of,
  networks_from_document, merge_aliases, or_empty, bucket_at, with_bucket, merge_network_aliases,
  register_error, plain_values, network_values, next_document, Registered, write_alias,
  register_checked, register_at, register_deployment_alias, found_id, resolve_in, resolve_at,
  resolve_contract_reference,
}

-- What is given out of a text that was written.
abbrev given : Option String → Option String
given none = none
given (some s) = public_id (trimmed_id s)

other_alias :
    (a alias : String) (o : Option String) (rest : Dict String)
    → (a === alias) ≡ false
    → lookup alias (with_alias a o rest) ≡ lookup alias rest
other_alias a alias none rest s = refl
other_alias a alias (some id) rest s = rw s refl

lookup-bucket_of :
    (alias id : String) (bucket : Dict String) (out : String)
    → lookup alias bucket ≡ some id
    → given (some id) ≡ some out
    → lookup alias (bucket_of (plain_values bucket)) ≡ some out
unfolding bucket_of contract_id_from_alias_value
lookup-bucket_of alias id [] out h e = ground arith
lookup-bucket_of alias id ((a, v) ∷ bucket) out h e = elim (Bool-cases (a === alias)) [
  | inl s ↦
      let same : some v ≡ some id = sym (rw (s, lookup) refl) ∙ h in
      let rest = bucket_of (plain_values bucket) in
      ap (λ o. lookup alias (with_alias a o rest)) (ap given same ∙ e) ∙ rw s refl
  | inr s ↦
      let later : lookup alias bucket ≡ some id = sym (rw (s, lookup) refl) ∙ h in
      other_alias a alias (given (some v)) (bucket_of (plain_values bucket)) s
      ∙ lookup-bucket_of alias id bucket out later e
]

lookup-networks_of :
    (name : String) (networks : NetworkAliasMap) (bucket : Dict String)
    → lookup name networks ≡ some bucket
    → lookup name (networks_of (network_values networks)) ≡ some (bucket_of (plain_values bucket))
unfolding networks_of
lookup-networks_of name [] bucket h = ground arith
lookup-networks_of name ((n, b) ∷ networks) bucket h = elim (Bool-cases (n === name)) [
  | inl s ↦
      let same : some b ≡ some bucket = sym (rw (s, lookup) refl) ∙ h in
      rw s (ap (λ o. o >>= λ x. some (bucket_of (plain_values x))) same)
  | inr s ↦
      let later : lookup name networks ≡ some bucket = sym (rw (s, lookup) refl) ∙ h in
      rw s (lookup-networks_of name networks bucket later)
]

lookup-inserted : {V : Type 0} (k : String) (v : V) (d : Dict V) → lookup k (insert k v d) ≡ some v
lookup-inserted k v d = lookup-insert k k v d ∙ rw (===_refl k) refl

lookup-with_bucket :
    (name alias id : String) (bucket : Dict String) (networks : NetworkAliasMap)
    → lookup alias bucket ≡ some id
    → lookup name (with_bucket name bucket networks) ≡ some bucket
lookup-with_bucket name alias id [] networks h = ground arith
lookup-with_bucket name alias id (a ∷ bucket) networks h =
    lookup-inserted name (a ∷ bucket) networks

given_contract_id : (id : String) → is_contract_id id ≡ true → given (some id) ≡ some id
given_contract_id id h =
    let (public, filled) = contract_id_is_no_secret id h in
    rw (trim_contract_id id h, filled, public) refl

merged_alias :
    (alias id : String) (bucket : Dict String)
    → is_alias alias ≡ true
    → is_contract_id id ≡ true
    → merge_aliases ((alias, some id) ∷ []) bucket ≡ insert alias id bucket
unfolding merge_aliases
merged_alias alias id bucket a h =
    let (public, filled) = contract_id_is_no_secret id h in
    rw (trim_contract_id id h, filled, public, a) refl

-- In the document that is written the alias is found under its network.
lookup-next_document :
    (existing : Option Document) (network : NetworkName) (alias id : String)
    → is_alias alias ≡ true
    → is_contract_id id ≡ true
    → resolve_in alias network (ok (some (next_document existing network alias id))) ≡ ok id
unfolding next_document merge_network_aliases
lookup-next_document existing network alias id a h =
    let name = network_text network in
    let old = bucket_at name (networks_from_document existing) in
    let bucket = merge_aliases ((alias, some id) ∷ []) old in
    let networks = with_bucket name bucket (networks_from_document existing) in
    let stored : lookup alias bucket ≡ some id =
      ap (lookup alias) (merged_alias alias id old a h) ∙ lookup-inserted alias id old in
    let under =
      lookup-networks_of name networks bucket
        (lookup-with_bucket name alias id bucket (networks_from_document existing) stored) in
    let (public, filled) = contract_id_is_no_secret id h in
    ap (λ b. found_id alias name (lookup alias (or_empty b))) under
    ∙ ap (found_id alias name) (lookup-bucket_of alias id bucket id stored (given_contract_id id h))
    ∙ rw filled refl

abbrev id_or : String → Outcome Registered → String
id_or id (ok r) = r.contract_id
id_or id (thrown e) = id

written :
    (writes : Bool) (file later : RegistryFile) (network : NetworkName) (alias id : String)
    (o : Outcome (Option Document)) (r : Registered)
    → write_alias writes file network alias id o ≡ (ok r, later)
    → (existing : Option Document) × (later ≡ document (next_document existing network alias id))
      × (r.contract_id ≡ id)
written writes file later network alias id (thrown e) r h = absurd (ground arith)
written false file later network alias id (ok d) r h = absurd (ground arith)
written true file later network alias id (ok d) r h =
    (d, sym (ap (λ p. p.1) h), sym (ap (λ p. id_or id p.0) h))

-- What a registration that succeeds has checked, read and written.
record Success (alias id network : String) (later : RegistryFile) (r : Registered) : Type 0 where
  name : NetworkName
  existing : Option Document
  parsed : parse_network_name network ≡ some name
  valid_alias : is_alias (trim alias) ≡ true
  no_id : is_contract_id (trim alias) ≡ false
  valid_id : is_contract_id (trim id) ≡ true
  left : later ≡ document (next_document existing name (trim alias) (trim id))
  answered : r.contract_id ≡ trim id

accepted :
    (alias id : String)
    → register_error alias id ≡ none
    → (is_alias alias ≡ true) × (is_contract_id alias ≡ false) × (is_contract_id id ≡ true)
unfolding register_error
accepted alias id h = ground arith

register_checked-Success :
    (writes : Bool) (alias id network : String) (name : NetworkName) (file later : RegistryFile)
    (r : Registered)
    → parse_network_name network ≡ some name
    → register_checked writes file name
        (trim alias)
        (trim id)
        (register_error (trim alias) (trim id))
      ≡ (ok r, later)
    → Success alias id network later r
register_checked-Success writes alias id network name file later r parsed h =
    let run = register_checked writes file name (trim alias) (trim id) in
    elim (Option-cases (register_error (trim alias) (trim id))) [
      | inr (x, e) ↦ absurd (ground (arith, sym (ap run e) ∙ h))
      | inl e ↦
          let fine = accepted (trim alias) (trim id) e in
          let (existing, left, answered) =
            written writes file later name (trim alias) (trim id) (read_document file) r
              (sym (ap run e) ∙ h) in
          record {
            name = name;
            existing = existing;
            parsed = parsed;
            valid_alias = fine.0;
            no_id = fine.1;
            valid_id = fine.2;
            left = left;
            answered = answered;
          }
    ]

register-Success :
    (writes : Bool) (alias id network : String) (file later : RegistryFile) (r : Registered)
    → register_deployment_alias writes alias id network file ≡ (ok r, later)
    → Success alias id network later r
unfolding register_deployment_alias
register-Success writes alias id network file later r h =
    elim (Option-cases (parse_network_name network)) [
      | inl e ↦ absurd (ground (arith, sym (ap (register_at writes file alias id) e) ∙ h))
      | inr (name, e) ↦
          register_checked-Success writes alias id network name file later r e
            (sym (ap (register_at writes file alias id) e) ∙ h)
    ]

-- After a registration that succeeds, the alias that was given resolves under the network that was
-- given to the contract id that the registration answers with, whatever the file held before.
pub resolve-register :
    (writes : Bool) (alias id network : String) (file later : RegistryFile) (r : Registered)
    → register_deployment_alias writes alias id network file ≡ (ok r, later)
    → resolve_contract_reference alias network later ≡ ok r.contract_id
unfolding resolve_contract_reference
resolve-register writes alias id network file later r h =
    let s = register-Success writes alias id network file later r h in
    let found =
      lookup-next_document s.existing s.name (trim alias) (trim id) s.valid_alias s.valid_id in
    rw s.no_id (
      ap (resolve_at (trim alias) later) s.parsed
      ∙ ap (λ f. resolve_in (trim alias) s.name (read_document f)) s.left
      ∙ found
      ∙ ap ok (sym s.answered))
