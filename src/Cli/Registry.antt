-- ===== src/Cli/Registry.antt =====
-- The registry of contract ids by network and alias (cli/src/utils/registry.ts). A registry file is
-- missing, a text that is no JSON object, or a document; a document is its version, its networks and
-- the rest of it, which is kept. Whether a write succeeds is a parameter.
pub mod Stored
pub mod Kept
use bc_forge.Common.{
  Bool, true, false, not, ◌&&◌, ◌||◌, Option, none, some, List, [], ◌∷◌, String, if◌then◌else◌,
  is_nonempty, ◌>>=◌,
}
use bc_forge.Common.Dict.{Dict, lookup, insert, erase}
use bc_forge.Cli.Names.{
  trim, is_contract_id, is_secret_key, is_alias, NetworkName, network_text, parse_network_name,
}

-- The value of an alias: a text, an object with the text of its `contractId`, or any other value.
pub data AliasValue : Type 0 where
  plain : String → AliasValue
  object : String → AliasValue
  no_id : AliasValue

-- `none` stands for a value that is no object.
abbrev pub NetworkValues : Type 0
NetworkValues = Dict (Option (Dict AliasValue))

pub record Document : Type 0 where
  pub version : Option String
  pub networks : Option NetworkValues
  pub rest : String

pub data RegistryFile : Type 0 where
  missing : RegistryFile
  corrupt : RegistryFile
  document : Document → RegistryFile

abbrev pub NetworkAliasMap : Type 0
NetworkAliasMap = Dict (Dict String)

pub data RegistryError : Type 0 where
  unknown_network : RegistryError
  unknown_alias : String → String → RegistryError
  invalid_alias : RegistryError
  alias_is_id : RegistryError
  is_secret : RegistryError
  invalid_id : RegistryError
  bad_file : RegistryError
  write_failed : RegistryError

pub data Outcome {ℓ} (A : Type ℓ) : Type ℓ where
  ok : A → Outcome A
  thrown : RegistryError → Outcome A

-- `readDeploymentsDocument` with `strict`
abbrev pub read_document : RegistryFile → Outcome (Option Document)
read_document missing = ok none
read_document corrupt = thrown bad_file
read_document (document d) = ok (some d)

abbrev pub trimmed_id : String → Option String
trimmed_id s = if is_nonempty (trim s) then some (trim s) else none

unfoldable pub contract_id_from_alias_value : AliasValue → Option String
contract_id_from_alias_value (plain s) = trimmed_id s
contract_id_from_alias_value (object s) = trimmed_id s
contract_id_from_alias_value no_id = none

-- An id that may be given out.
abbrev pub public_id : Option String → Option String
public_id none = none
public_id (some id) = if is_secret_key id then none else some id

abbrev pub with_alias : String → Option String → Dict String → Dict String
with_alias alias none bucket = bucket
with_alias alias (some id) bucket = (alias, id) ∷ bucket

unfoldable pub bucket_of : Dict AliasValue → Dict String
unfolding contract_id_from_alias_value
bucket_of [] = []
bucket_of ((alias, value) ∷ aliases) =
    with_alias alias (public_id (contract_id_from_alias_value value)) (bucket_of aliases)

-- `networksFromDocument`, the loop and the whole.
unfoldable pub networks_of : NetworkValues → NetworkAliasMap
unfolding bucket_of
networks_of [] = []
networks_of ((network, none) ∷ networks) = networks_of networks
networks_of ((network, some aliases) ∷ networks) =
    (network, bucket_of aliases) ∷ networks_of networks

abbrev pub networks_from_document : Option Document → NetworkAliasMap
networks_from_document none = []
networks_from_document (some d) = elim d.networks [ none ↦ [] | some ns ↦ networks_of ns ]

-- The loop of `mergeNetworkAliases`; `none` is an id that is undefined.
unfoldable pub merge_aliases : Dict (Option String) → Dict String → Dict String
merge_aliases [] bucket = bucket
merge_aliases ((alias, none) ∷ aliases) bucket = merge_aliases aliases bucket
merge_aliases ((alias, some id) ∷ aliases) bucket = merge_aliases aliases (
    if not (is_nonempty (trim id)) || is_secret_key (trim id) || not (is_alias alias)
    then bucket
    else insert alias (trim id) bucket)

-- `bucket ?? {}`
abbrev pub or_empty : Option (Dict String) → Dict String
or_empty none = []
or_empty (some b) = b

abbrev pub bucket_at : String → NetworkAliasMap → Dict String
bucket_at network networks = or_empty (lookup network networks)

abbrev pub with_bucket : String → Dict String → NetworkAliasMap → NetworkAliasMap
with_bucket network [] networks = erase network networks
with_bucket network (a ∷ bucket) networks = insert network (a ∷ bucket) networks

-- `mergeNetworkAliases`, by the network that its name is parsed to.
unfoldable pub merge_network_aliases :
    NetworkAliasMap → NetworkName → Dict (Option String) → NetworkAliasMap
unfolding merge_aliases
merge_network_aliases networks network aliases =
    let name = network_text network in
    with_bucket name (merge_aliases aliases (bucket_at name networks)) networks

-- `assertRegisterInput`, on what is trimmed.
unfoldable pub register_error : String → String → Option RegistryError
register_error alias id =
    if not (is_alias alias)
    then some invalid_alias
    else if is_contract_id alias
    then some alias_is_id
    else if is_secret_key id
    then some is_secret
    else if not (is_contract_id id)
    then some invalid_id
    else none

-- The networks as they are written.
abbrev pub plain_values : Dict String → Dict AliasValue
plain_values [] = []
plain_values ((alias, id) ∷ bucket) = (alias, plain id) ∷ plain_values bucket

abbrev pub network_values : NetworkAliasMap → NetworkValues
network_values [] = []
network_values ((network, bucket) ∷ networks) =
    (network, some (plain_values bucket)) ∷ network_values networks

abbrev pub version_of : Option Document → String
version_of none = "1.0.0"
version_of (some d) = elim d.version [ none ↦ "1.0.0" | some v ↦ v ]

abbrev pub rest_of : Option Document → String
rest_of none = "{}"
rest_of (some d) = d.rest

unfoldable pub next_document : Option Document → NetworkName → String → String → Document
unfolding networks_of merge_network_aliases
next_document existing network alias id = record {
  version = some (version_of existing);
  networks = some (
      network_values
        (merge_network_aliases (networks_from_document existing) network ((alias, some id) ∷ [])));
  rest = rest_of existing;
}

pub record Registered : Type 0 where
  pub network : NetworkName
  pub alias : String
  pub contract_id : String

-- What is left of `registerDeploymentAlias` once the file is read; `writes` tells whether the write
-- succeeds, and a write that fails leaves the file as it was.
abbrev pub write_alias :
    Bool
    → RegistryFile
    → NetworkName
    → String
    → String
    → Outcome (Option Document)
    → Outcome Registered × RegistryFile
write_alias writes file network alias id (thrown e) = (thrown e, file)
write_alias false file network alias id (ok existing) = (thrown write_failed, file)
write_alias true file network alias id (ok existing) = (
  ok (record { network = network; alias = alias; contract_id = id }),
  document (next_document existing network alias id),
)

abbrev pub register_checked :
    Bool
    → RegistryFile
    → NetworkName
    → String
    → String
    → Option RegistryError
    → Outcome Registered × RegistryFile
register_checked writes file network alias id (some e) = (thrown e, file)
register_checked writes file network alias id none =
    write_alias writes file network alias id (read_document file)

abbrev pub register_at :
    Bool → RegistryFile → String → String → Option NetworkName → Outcome Registered × RegistryFile
register_at writes file alias id none = (thrown unknown_network, file)
register_at writes file alias id (some network) =
    register_checked writes file network (trim alias) (trim id)
      (register_error (trim alias) (trim id))

-- `registerDeploymentAlias`
unfoldable pub register_deployment_alias :
    Bool → String → String → String → RegistryFile → Outcome Registered × RegistryFile
unfolding register_error next_document parse_network_name trim
register_deployment_alias writes alias id network file =
    register_at writes file alias id (parse_network_name network)

-- The end of `resolveContractReference`; an empty text is no id.
abbrev pub found_id : String → String → Option String → Outcome String
found_id alias network none = thrown (unknown_alias alias network)
found_id alias network (some id) =
    if is_nonempty id then ok id else thrown (unknown_alias alias network)

abbrev pub resolve_in : String → NetworkName → Outcome (Option Document) → Outcome String
resolve_in alias network (thrown e) = thrown e
resolve_in alias network (ok doc) =
    let name = network_text network in
    found_id alias name (lookup alias (bucket_at name (networks_from_document doc)))

abbrev pub resolve_at : String → RegistryFile → Option NetworkName → Outcome String
resolve_at alias file none = thrown unknown_network
resolve_at alias file (some network) = resolve_in alias network (read_document file)

-- `resolveContractReference`
unfoldable pub resolve_contract_reference : String → String → RegistryFile → Outcome String
unfolding trim is_contract_id parse_network_name networks_of
resolve_contract_reference value network file =
    if is_contract_id (trim value)
    then ok (trim value)
    else resolve_at (trim value) file (parse_network_name network)
