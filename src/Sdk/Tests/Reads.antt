-- ===== src/Sdk/Tests/Reads.antt =====
-- Reads of two balances at one ledger, a batch of three items by two, and a contract whose pauser
-- is not granted.
use bc_forge.Common.{
  ℕ, zero, suc, false, sym, ap, ◌∙◌, List, ◌≡◌, ◌*◌, refl, ◌==◌, Option, none, some, [], ◌∷◌,
  String, arith, if◌then◌else◌, ◌===◌, ◌&&◌,
}
use bc_forge.Sdk.Client.{
  ReadCache, cache_key, get_latest_ledger_sequence, get_cached_read, endless, results,
  execute_batch,
}
use bc_forge.Sdk.Client.Keys.{has_colon, IsNumeral}
use bc_forge.Sdk.Client.Cache.{AreReads, get_cached_read-AreReads}
use bc_forge.Sdk.Client.Batches.{execute_batch_lem}
use bc_forge.Sdk.Client.Verification.{
  Contract, Expected, ok, thrown, fits_with, any_supply, has_pauser, init_errors,
  verify_initialized_state, verify_initialized_state_lem,
}

abbrev shown : ℕ → String
shown n = if n == 7 then "7" else "0"

-- A numeral of as many strokes.
abbrev tally : ℕ → String
tally zero = ""
tally (suc n) = String.◌∷◌ "1" (tally n)

abbrev strokes : String → ℕ
strokes String.[] = 0
strokes (String.◌∷◌ c s) = suc (strokes s)

strokes-tally : (n : ℕ) → strokes (tally n) ≡ n
strokes-tally zero = refl
strokes-tally (suc n) = ap (λ m. suc m) (strokes-tally n)

tally_plain : (n : ℕ) → has_colon (tally n) ≡ false
tally_plain zero = refl
tally_plain (suc n) = tally_plain n

tally-IsNumeral : IsNumeral tally
tally-IsNumeral = record {
  no_colon = tally_plain;
  injective = λ m n e. sym (strokes-tally m) ∙ ap strokes e ∙ strokes-tally n;
}

-- The balances of the contract at each ledger: of GA the number of the ledger, of others 6.
abbrev balances_at : ℕ → String → List String → Option ℕ
balances_at n method [] = none
balances_at n method (a ∷ args) = some (if a === "GA" then n else 6)

abbrev no_reads : ReadCache ℕ
no_reads = record { cached_ledger_sequence = 0; entries = [] }

abbrev after_read : ReadCache ℕ
after_read = (get_cached_read tally "C" "balance" ("GA" ∷ []) (some 7) (some 7) no_reads).1

holds_one : AreReads tally "C" balances_at after_read.entries
unfolding get_latest_ledger_sequence
holds_one =
    (get_cached_read-AreReads tally "C" balances_at "balance" ("GA" ∷ []) (some 7) (some 7) no_reads
      tally-IsNumeral refl refl refl tt).1

fetched_other :
    some 6 ≡ balances_at (get_latest_ledger_sequence (some 7) after_read) "balance" ("GB" ∷ [])
fetched_other = refl

get_cached_read-AreReads_example :
    ((get_cached_read tally "C" "balance" ("GB" ∷ []) (some 7) (some 6) after_read).0
      ≡ balances_at (get_latest_ledger_sequence (some 7) after_read) "balance" ("GB" ∷ []))
    × AreReads tally "C" balances_at
        (get_cached_read tally "C" "balance" ("GB" ∷ []) (some 7) (some 6) after_read).1.entries
get_cached_read-AreReads_example =
    get_cached_read-AreReads tally "C" balances_at "balance" ("GB" ∷ []) (some 7) (some 6)
      after_read tally-IsNumeral refl refl fetched_other holds_one

-- The read of GA again is answered from the cache, whatever the query would give now.
read_again : (get_cached_read tally "C" "balance" ("GA" ∷ []) (some 7) none after_read).0 ≡ some 7
unfolding get_cached_read cache_key get_latest_ledger_sequence
read_again = refl

abbrev doubled : ℕ → Option ℕ
doubled n = if n == 9 then none else some (2 * n)

execute_batch_lem_example : execute_batch 3 (1 ∷ 2 ∷ 3 ∷ []) doubled 2 ≡ results (2 ∷ 4 ∷ 6 ∷ [])
execute_batch_lem_example = execute_batch_lem doubled 1 3 (1 ∷ 2 ∷ 3 ∷ []) (omega arith)

-- A batch size of 0 comes to no end.
endless_batch : execute_batch 100 (1 ∷ []) doubled 0 ≡ endless
unfolding execute_batch
endless_batch = refl

abbrev forge_expected : Expected
forge_expected = record {
  admin = "GA";
  name = "Forge";
  symbol = "FRG";
  decimals = 7;
  pauser = some "GP";
}

abbrev forge_contract : Contract
forge_contract = record {
  admin = ok "GA";
  name = ok "Forge";
  symbol = thrown "offline";
  decimals = ok 7;
  total_supply = thrown "offline";
  has_pauser_role = λ a. ok (a === "GA");
}

-- Each query that throws and the role that is not granted has its error.
forge_errors :
    (verify_initialized_state shown forge_expected forge_contract).errors
    ≡ "Failed to query symbol: offline" ∷ "Failed to query total supply: offline"
      ∷ "Pauser role not granted to GP" ∷ []
unfolding verify_initialized_state init_errors
forge_errors = refl

verify_initialized_state_lem_example :
    (verify_initialized_state shown forge_expected forge_contract).valid ≡ (
      fits_with (λ a. a === "GA") forge_contract.admin
      && (fits_with (λ a. a === "Forge") forge_contract.name
          && (fits_with (λ a. a === "FRG") forge_contract.symbol
              && (fits_with (λ n. n == 7) forge_contract.decimals
                  && (fits_with any_supply forge_contract.total_supply
                      && has_pauser forge_contract (some "GP"))))))
verify_initialized_state_lem_example =
    verify_initialized_state_lem shown forge_expected forge_contract
