-- ===== src/Cli/Upgrade/LastGood.antt =====
-- The hash that `--to-last-good` goes back to (cli/src/commands/upgrade.ts,
-- cli/src/utils/upgrade-history.ts).
use bc_forge.Common.{
  ◌≡◌, refl, sym, ap, ◌∙◌, Bool, not, ◌&&◌, Option, some, List, [], ◌∷◌, ◌++◌, String, ===_refl,
  last?, Bool-cases, inl, inr, eq_iff, ◌===◌, false, append_nil,
}
use bc_forge.Common.Dict.{lookup, insert, lookup-insert}
use bc_forge.Cli.Upgrade.{
  UpgradeHistoryEntry, UpgradeHistoryFile, entries_of, append_upgrade_history, previous_of,
  get_last_good_hash, WasmFile, no_path, not_found, empty_file, with_hash, UpgradeOptions,
  UpgradeResult, Server, run_upgrade_with_hash, or_hash, has_text, record_upgrade, upgrade_to,
  run_upgrade,
}

-- The second list goes on where the first ends.
abbrev pub Extends {ℓ} : {A : Type ℓ} → List A → List A → Type ℓ
Extends {A = A} xs ys = (more : List A) × (ys ≡ xs ++ more)

last?-append : {A : Type 0} (xs : List A) (x : A) → last? (xs ++ x ∷ []) ≡ some x
last?-append [] x = refl
last?-append (y ∷ []) x = refl
last?-append (y ∷ z ∷ xs) x = last?-append (z ∷ xs) x

-- The last good hash after an append is the previous hash of the entry.
get-append :
    (contract_id previous new now : String) (tx : Option String) (history : UpgradeHistoryFile)
    → get_last_good_hash contract_id
        (append_upgrade_history contract_id previous new tx now history)
      ≡ some previous
unfolding get_last_good_hash append_upgrade_history
get-append contract_id previous new now tx history =
    let entry : UpgradeHistoryEntry = record {
      new_hash = new;
      previous_hash = previous;
      recorded_at = now;
      tx_hash = tx;
    } in
    let entries = entries_of (lookup contract_id history) ++ entry ∷ [] in
    let there : lookup contract_id (insert contract_id entries history) ≡ some entries =
      lookup-insert contract_id contract_id entries history ∙ rw (===_refl contract_id) refl in
    ap (λ o. previous_of (last? (entries_of o))) there
    ∙ ap previous_of (last?-append (entries_of (lookup contract_id history)) entry)

-- The entries after an append: those of the contract with one more, those of the others as before.
entries-append :
    (id c previous new now : String) (tx : Option String) (history : UpgradeHistoryFile)
    → (id ≡ c
        → Extends
            (entries_of (lookup c history))
            (entries_of (lookup c (append_upgrade_history id previous new tx now history))))
      × ((id === c) ≡ false
          → lookup c (append_upgrade_history id previous new tx now history) ≡ lookup c history)
unfolding append_upgrade_history
entries-append id c previous new now tx history =
    let entry : UpgradeHistoryEntry = record {
      new_hash = new;
      previous_hash = previous;
      recorded_at = now;
      tx_hash = tx;
    } in
    let entries = entries_of (lookup id history) ++ entry ∷ [] in
    let found = lookup-insert id c entries history in
    (
      λ e.
          let there : lookup c (insert id entries history) ≡ some entries =
            found ∙ rw ((eq_iff id c).1 e) refl in
          let same : entries ≡ entries_of (lookup c history) ++ entry ∷ [] =
            ap (λ k. entries_of (lookup k history) ++ entry ∷ []) e in
          (entry ∷ [], ap entries_of there ∙ same),
      λ e. found ∙ rw e refl,
    )

-- The last good hash of a contract is kept, and so are its entries.
abbrev IsKept : String → String → UpgradeHistoryFile → UpgradeHistoryFile → Type 0
IsKept c good history later =
    (get_last_good_hash c later ≡ some good)
    × Extends (entries_of (lookup c history)) (entries_of (lookup c later))

unchanged-IsKept :
    (c good : String) (history : UpgradeHistoryFile)
    → get_last_good_hash c history ≡ some good
    → IsKept c good history history
unchanged-IsKept c good history h = (h, ([], sym (append_nil (entries_of (lookup c history)))))

append-IsKept :
    (id c good new wasm now : String) (tx : Option String) (history : UpgradeHistoryFile)
    → get_last_good_hash c history ≡ some good
    → IsKept c good history (
        append_upgrade_history id (or_hash (get_last_good_hash id history) wasm) new tx now history)
unfolding get_last_good_hash
append-IsKept id c good new wasm now tx history h =
    let previous = or_hash (get_last_good_hash id history) wasm in
    let (own, others) = entries-append id c previous new now tx history in
    elim (Bool-cases (id === c)) [
      | inl s ↦
          let e : id ≡ c = (eq_iff id c).0 s in
          (
            ap (λ k. get_last_good_hash k (append_upgrade_history id previous new tx now history))
                  (sym e)
                ∙ get-append id previous new now tx history
                ∙ ap (λ g. some (or_hash g wasm)) (ap (λ k. get_last_good_hash k history) e ∙ h),
            own e,
          )
      | inr s ↦
          let same = others s in
          (
            ap (λ l. previous_of (last? (entries_of l))) same ∙ h,
            ([], ap entries_of same ∙ sym (append_nil (entries_of (lookup c history)))),
          )
    ]

record_keeps :
    (writes : Bool) (now wasm c good : String) (o : UpgradeOptions) (r : UpgradeResult)
    (history : UpgradeHistoryFile)
    → get_last_good_hash c history ≡ some good
    → IsKept c good history (record_upgrade writes now o wasm r history)
unfolding record_upgrade
record_keeps writes now wasm c good o r history h =
    elim (Bool-cases
      (writes && (r.success && (not o.dry_run && (not o.estimate && has_text r.tx_hash))))) [
        | inl e ↦ rw e (append-IsKept o.contract_id c good wasm wasm now r.tx_hash history h)
        | inr e ↦ rw e (unchanged-IsKept c good history h)
      ]

upgrade_keeps :
    (writes : Bool) (now c good : String) (server : Server) (o : UpgradeOptions) (w : WasmFile)
    (history : UpgradeHistoryFile)
    → get_last_good_hash c history ≡ some good
    → IsKept c good history (upgrade_to writes now server o w history).1
upgrade_keeps writes now c good server o no_path history h = unchanged-IsKept c good history h
upgrade_keeps writes now c good server o not_found history h = unchanged-IsKept c good history h
upgrade_keeps writes now c good server o empty_file history h = unchanged-IsKept c good history h
upgrade_keeps writes now c good server o (with_hash wasm) history h =
    record_keeps writes now wasm c good o (run_upgrade_with_hash server o wasm) history h

-- Once a contract has a last good hash, no run of the command for that or any other contract
-- changes it, whatever the options and the answers of the server, not a confirmed upgrade either;
-- and every entry of the contract's history stays in its place.
pub get_last_good_hash-run_upgrade :
    (writes : Bool) (now c good : String) (server : Server) (o : UpgradeOptions)
    (history : UpgradeHistoryFile)
    → get_last_good_hash c history ≡ some good
    → let later = (run_upgrade writes now server o history).1 in
      (get_last_good_hash c later ≡ some good)
      × Extends (entries_of (lookup c history)) (entries_of (lookup c later))
unfolding run_upgrade
get_last_good_hash-run_upgrade writes now c good server o history h =
    elim (Bool-cases o.to_last_good) [
      | inl e ↦ rw e (unchanged-IsKept c good history h)
      | inr e ↦ rw e (upgrade_keeps writes now c good server o o.wasm history h)
    ]
