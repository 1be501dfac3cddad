-- ===== src/Cli/Addresses/Saved.antt =====
-- What a saved account changes in the address book (cli/src/utils/address-book.ts).
use bc_forge.Common.{
  ◌≡◌, refl, sym, ap, ◌∙◌, Bool, true, false, Option, none, some, [], ◌∷◌, String, arith,
  if◌then◌else◌, ◌===◌, eq_iff, Bool-cases, inl, inr,
}
use bc_forge.Common.Dict.{Dict, lookup, insert, IsUnique, lookup-insert}
use bc_forge.Cli.Names.{trim, is_alias}
use bc_forge.Cli.Addresses.{
  Config, ConfigFile, absent, malformed, config, done, read_config_object, text_accounts,
  accounts_from_unknown, read_stored_accounts, spread, load_accounts, as_values, write_accounts,
  save_read, save_trimmed, save_account, resolve_found, resolve_account,
}

abbrev or_else : Option String → Option String → Option String
or_else none b = b
or_else (some a) b = some a

lookup-spread :
    (k : String) (stored project : Dict String)
    → IsUnique project
    → lookup k (spread stored project) ≡ or_else (lookup k project) (lookup k stored)
unfolding spread
lookup-spread k stored [] h = refl
lookup-spread k stored ((j, v) ∷ project) h =
    lookup-spread k (insert j v stored) project h.1
    ∙ ground (arith, eq_iff j k, lookup-insert j k v stored)

text_accounts-as_values : (accounts : Dict String) → text_accounts (as_values accounts) ≡ accounts
unfolding text_accounts
text_accounts-as_values [] = refl
text_accounts-as_values ((name, key) ∷ accounts) =
    ap (λ d. (name, key) ∷ d) (text_accounts-as_values accounts)

-- A write that succeeds leaves the new account among the others of the file.
write_accounts-stored :
    (writable : Bool) (file : ConfigFile) (left accounts : Dict String) (c : Config)
    (later : ConfigFile)
    → write_accounts writable file left c ≡ (done accounts, later)
    → read_stored_accounts later ≡ left
write_accounts-stored false file left accounts c later e = absurd (ground arith)
write_accounts-stored true file left accounts c later e =
    ap read_stored_accounts (sym (ap (λ p. p.1) e)) ∙ text_accounts-as_values left

save_read-stored :
    (writable : Bool) (file : ConfigFile) (name key : String) (accounts : Dict String)
    (later : ConfigFile)
    → save_read writable file name key (read_config_object file) ≡ (done accounts, later)
    → read_stored_accounts later ≡ insert name key (read_stored_accounts file)
save_read-stored writable malformed name key accounts later e = absurd (ground arith)
save_read-stored writable absent name key accounts later e =
    write_accounts-stored writable absent (insert name key []) accounts
      (record { accounts = none; rest = "" }) later e
save_read-stored writable (config c) name key accounts later e =
    write_accounts-stored writable (config c) (insert name key (accounts_from_unknown c.accounts))
      accounts c later e

save_trimmed-stored :
    (is_valid : String → Bool) (writable : Bool) (name key : String) (file : ConfigFile)
    (accounts : Dict String) (later : ConfigFile)
    → save_trimmed is_valid writable name key file ≡ (done accounts, later)
    → (is_valid key ≡ true)
      × (read_stored_accounts later ≡ insert name key (read_stored_accounts file))
save_trimmed-stored is_valid writable name key file accounts later e =
    elim (Bool-cases (is_alias name)) [
      | inr a ↦ absurd (ground arith)
      | inl a ↦ elim (Bool-cases (is_valid key)) [
        | inr v ↦ absurd (ground arith)
        | inl v ↦ (
          v,
          save_read-stored writable file name key accounts later
              (sym (rw (a, v, save_trimmed) refl) ∙ e),
        )
      ]
    ]

-- What a name of the address book stands for after a save of an account.
lookup-saved :
    (name key ref : String) (project file later : Dict String)
    → IsUnique project
    → lookup name project ≡ none
    → later ≡ insert name key file
    → lookup ref (spread later project)
      ≡ (if name === ref then some key else lookup ref (spread file project))
lookup-saved name key ref project file later u free e = elim (Bool-cases (name === ref)) [
  | inl s ↦
      lookup-spread ref later project u
      ∙ ap (λ o. or_else o (lookup ref later))
          (sym (ap (λ n. lookup n project) ((eq_iff name ref).0 s)) ∙ free)
      ∙ ap (lookup ref) e
      ∙ lookup-insert name ref key file
      ∙ rw s refl
  | inr s ↦
      lookup-spread ref later project u
      ∙ ap (or_else (lookup ref project))
          (ap (lookup ref) e ∙ lookup-insert name ref key file ∙ rw s refl)
      ∙ sym (lookup-spread ref file project u)
      ∙ rw s refl
]

-- After an account is saved, in an address book whose project does not define its name, that name
-- resolves to the saved key, and every other reference resolves as it did before.
pub resolve_account-save_account :
    (is_valid : String → Bool) (writable : Bool) (name key ref : String)
    (project : Option (Dict (Option String))) (file : ConfigFile) (accounts : Dict String)
    (later : ConfigFile)
    → IsUnique (accounts_from_unknown project)
    → lookup (trim name) (accounts_from_unknown project) ≡ none
    → save_account is_valid writable name key file ≡ (done accounts, later)
    → resolve_account is_valid ref (load_accounts project later) ≡ (
        if trim name === trim ref
        then done (trim key)
        else resolve_account is_valid ref (load_accounts project file))
unfolding save_account resolve_account load_accounts
resolve_account-save_account is_valid writable name key ref project file accounts later u free e =
    let saved =
      save_trimmed-stored is_valid writable (trim name) (trim key) file accounts later e in
    let found =
      lookup-saved (trim name) (trim key) (trim ref) (accounts_from_unknown project)
        (read_stored_accounts file) (read_stored_accounts later) u free saved.1 in
    ap (resolve_found is_valid (trim ref)) found ∙ elim (Bool-cases (trim name === trim ref)) [
      | inl s ↦ rw (s, saved.0) refl
      | inr s ↦ rw s refl
    ]
