-- ===== src/Cli/Addresses.antt =====
-- The address book (cli/src/utils/address-book.ts): the accounts of the CLI config file and those of
-- the project. A config file is missing, a text that is no JSON object, or a config, which is its
-- accounts and the rest of it. The checksum test of the vendor's library, and whether a write
-- succeeds, are parameters.
pub mod Saved
use bc_forge.Common.{Bool, true, false, Option, none, some, List, [], ◌∷◌, String, if◌then◌else◌}
use bc_forge.Common.Dict.{Dict, lookup, insert, erase}
use bc_forge.Common.Texts.{codes}
use bc_forge.Cli.Names.{trim, is_alias, is_public_key}

-- `accounts` is `none` for a value that is no object, and an account for one that is no text.
pub record Config : Type 0 where
  pub accounts : Option (Dict (Option String))
  pub rest : String

pub data ConfigFile : Type 0 where
  absent : ConfigFile
  malformed : ConfigFile
  config : Config → ConfigFile

pub data AccountError : Type 0 where
  invalid_key : String → AccountError
  invalid_name : String → AccountError
  unknown_account : String → AccountError
  bad_config : AccountError
  not_written : AccountError

pub data Answer {ℓ} (A : Type ℓ) : Type ℓ where
  done : A → Answer A
  failed : AccountError → Answer A

-- `readConfigObject`
abbrev pub read_config_object : ConfigFile → Answer Config
read_config_object absent = done (record { accounts = none; rest = "" })
read_config_object malformed = failed bad_config
read_config_object (config c) = done c

abbrev pub with_account : String → Option String → Dict String → Dict String
with_account name none accounts = accounts
with_account name (some key) accounts = (name, key) ∷ accounts

-- `accountsFromUnknown`, the loop and the whole; the names of an object are distinct.
unfoldable pub text_accounts : Dict (Option String) → Dict String
text_accounts [] = []
text_accounts ((name, key) ∷ entries) = with_account name key (text_accounts entries)

abbrev pub accounts_from_unknown : Option (Dict (Option String)) → Dict String
accounts_from_unknown none = []
accounts_from_unknown (some entries) = text_accounts entries

abbrev pub accounts_or_empty : Answer Config → Dict String
accounts_or_empty (done c) = accounts_from_unknown c.accounts
accounts_or_empty (failed e) = []

-- `readStoredAccounts`
abbrev pub read_stored_accounts : ConfigFile → Dict String
read_stored_accounts file = accounts_or_empty (read_config_object file)

-- `{ ...stored, ...project }`
unfoldable pub spread : Dict String → Dict String → Dict String
spread stored [] = stored
spread stored ((name, key) ∷ project) = spread (insert name key stored) project

-- `loadAccounts`, on the accounts of the project's file.
unfoldable pub load_accounts : Option (Dict (Option String)) → ConfigFile → Dict String
unfolding spread
load_accounts project file = spread (read_stored_accounts file) (accounts_from_unknown project)

abbrev pub as_values : Dict String → Dict (Option String)
as_values [] = []
as_values ((name, key) ∷ accounts) = (name, some key) ∷ as_values accounts

-- `config.accounts = accounts` and the write of the file
abbrev pub write_accounts :
    Bool → ConfigFile → Dict String → Config → Answer (Dict String) × ConfigFile
write_accounts false file accounts c = (failed not_written, file)
write_accounts true file accounts c =
    (done accounts, config (record { accounts = some (as_values accounts); rest = c.rest }))

abbrev pub save_read :
    Bool → ConfigFile → String → String → Answer Config → Answer (Dict String) × ConfigFile
save_read writable file name key (failed e) = (failed e, file)
save_read writable file name key (done c) =
    write_accounts writable file (insert name key (accounts_from_unknown c.accounts)) c

-- `saveAccount`, on the trimmed texts and on the given ones.
abbrev pub save_trimmed :
    (String → Bool) → Bool → String → String → ConfigFile → Answer (Dict String) × ConfigFile
save_trimmed is_valid writable name key file =
    if is_alias name
    then if is_valid key
      then save_read writable file name key (read_config_object file)
      else (failed (invalid_key key), file)
    else (failed (invalid_name name), file)

unfoldable pub save_account :
    (String → Bool) → Bool → String → String → ConfigFile → Answer (Dict String) × ConfigFile
save_account is_valid writable name key file =
    save_trimmed is_valid writable (trim name) (trim key) file

abbrev pub remove_found :
    Bool → ConfigFile → String → Config → Option String → Answer (Dict String) × ConfigFile
remove_found writable file name c none = (failed (unknown_account name), file)
remove_found writable file name c (some key) =
    write_accounts writable file (erase name (accounts_from_unknown c.accounts)) c

abbrev pub remove_read :
    Bool → ConfigFile → String → Answer Config → Answer (Dict String) × ConfigFile
remove_read writable file name (failed e) = (failed e, file)
remove_read writable file name (done c) =
    remove_found writable file name c (lookup name (accounts_from_unknown c.accounts))

-- `removeAccount`, with the accounts that are left as its answer.
unfoldable pub remove_account : Bool → String → ConfigFile → Answer (Dict String) × ConfigFile
remove_account writable name file = remove_read writable file (trim name) (read_config_object file)

-- `assertEd25519PublicKey`, and the key where it passes.
abbrev pub assert_ed25519_public_key : (String → Bool) → String → Answer String
assert_ed25519_public_key is_valid key = if is_valid key then done key else failed (invalid_key key)

abbrev pub resolve_raw : (String → Bool) → String → Answer String
resolve_raw is_valid value =
    if is_valid value
    then done value
    else if is_public_key value
    then failed (invalid_key value)
    else failed (unknown_account value)

abbrev pub resolve_found : (String → Bool) → String → Option String → Answer String
resolve_found is_valid value none = resolve_raw is_valid value
resolve_found is_valid value (some key) = assert_ed25519_public_key is_valid key

abbrev pub refer_found : (String → Bool) → String → Option String → Answer String
refer_found is_valid value none = done value
refer_found is_valid value (some key) = assert_ed25519_public_key is_valid key

-- `resolveAccountReference`
unfoldable pub resolve_account_reference : (String → Bool) → String → Dict String → Answer String
resolve_account_reference is_valid ref accounts =
    refer_found is_valid (trim ref) (lookup (trim ref) accounts)

-- `resolveAccount`
unfoldable pub resolve_account : (String → Bool) → String → Dict String → Answer String
resolve_account is_valid ref accounts =
    resolve_found is_valid (trim ref) (lookup (trim ref) accounts)
