-- ===== src/Sdk/Client.antt =====
-- The token client's reads (sdk/src/client.ts, class `bcForgeClient`): the cache of reads by ledger,
-- and the batches of a query of many balances. The server's latest ledger, the query of the contract
-- and the decimal text of a number are parameters.
pub mod Keys
pub mod Cache
pub mod Batches
pub mod Verification
use Prim.Native.String.{◌++◌ as ◌+++◌}
use bc_forge.Common.{
  ℕ, zero, suc, Bool, true, false, not, ◌&&◌, Option, none, some, List, [], ◌∷◌, ◌++◌, String,
  if◌then◌else◌, ◌==◌, ltb, take, drop,
}
use bc_forge.Common.Dict.{Dict, lookup, insert}

pub record CacheEntry {ℓ} (V : Type ℓ) : Type ℓ where
  pub value : V
  pub ledger : ℕ

-- `cachedLedgerSequence` and `readCache`
pub record ReadCache {ℓ} (V : Type ℓ) : Type ℓ where
  pub cached_ledger_sequence : ℕ
  pub entries : Dict (CacheEntry V)

-- `args.join(':')`
abbrev pub join : List String → String
join [] = ""
join (s ∷ []) = s
join (s ∷ t ∷ args) = s +++ ":" +++ join (t ∷ args)

unfoldable pub cache_key : (ℕ → String) → String → String → List String → ℕ → String
cache_key show contract_id method args ledger =
    contract_id +++ ":" +++ method +++ ":" +++ join args +++ ":" +++ show ledger

module _ {ℓ} {V : Type ℓ} where
  -- `getLatestLedgerSequence`, where the server's answer is missing if it throws.
  unfoldable pub get_latest_ledger_sequence : Option ℕ → ReadCache V → ℕ
  get_latest_ledger_sequence none c = c.cached_ledger_sequence
  get_latest_ledger_sequence (some latest) c =
      if ltb 0 c.cached_ledger_sequence then c.cached_ledger_sequence else latest

  unfoldable pub set_ledger_sequence : ℕ → ReadCache V → ReadCache V
  set_ledger_sequence n c = record c { cached_ledger_sequence = n }

  unfoldable pub clear_cache : ReadCache V → ReadCache V
  clear_cache c = record c { entries = [] }

  -- The value that is cached for the ledger.
  abbrev pub cached : ℕ → Option (CacheEntry V) → Option V
  cached ledger none = none
  cached ledger (some e) = if e.ledger == ledger then some e.value else none

  -- The entries of the ledger, which a miss keeps.
  abbrev pub of_ledger : ℕ → Dict (CacheEntry V) → Dict (CacheEntry V)
  of_ledger ledger [] = []
  of_ledger ledger ((k, e) ∷ d) =
      let rest = of_ledger ledger d in if e.ledger == ledger then (k, e) ∷ rest else rest

  abbrev pub keep_fetched : String → ℕ → Option V → ReadCache V → Option V × ReadCache V
  keep_fetched key ledger none c = (none, record c { entries = of_ledger ledger c.entries })
  keep_fetched key ledger (some v) c = (
    some v,
    record c {
      entries = insert key (record { value = v; ledger = ledger }) (of_ledger ledger c.entries);
    },
  )

  abbrev pub read_or : Option V → String → ℕ → Option V → ReadCache V → Option V × ReadCache V
  read_or (some v) key ledger fetched c = (some v, c)
  read_or none key ledger fetched c = keep_fetched key ledger fetched c

  -- `getCachedRead`, with what the fetcher gives at this call; `none` is a throw.
  unfoldable pub get_cached_read :
      (ℕ → String)
      → String
      → String
      → List String
      → Option ℕ
      → Option V
      → ReadCache V
      → Option V × ReadCache V
  unfolding get_latest_ledger_sequence cache_key
  get_cached_read show contract_id method args latest fetched c =
      let ledger = get_latest_ledger_sequence latest c in
      let key = cache_key show contract_id method args ledger in
      read_or (cached ledger (lookup key c.entries)) key ledger fetched c

abbrev pub both {ℓ} : {R : Type ℓ} → Option R → Option (List R) → Option (List R)
both none rs = none
both (some r) none = none
both (some r) (some rs) = some (r ∷ rs)

-- `Promise.all` of the tasks of a chunk; one that is rejected rejects all.
abbrev pub all_settled {ℓ κ} : {A : Type ℓ} {R : Type κ} → (A → Option R) → List A → Option (List R)
all_settled task [] = some []
all_settled task (x ∷ xs) = both (task x) (all_settled task xs)

-- A loop that comes to no end, is rejected, or gives its results.
pub data Batched {ℓ} (R : Type ℓ) : Type ℓ where
  endless : Batched R
  rejected : Batched R
  results : List R → Batched R

abbrev pub prepend {ℓ} : {R : Type ℓ} → Option (List R) → Batched R → Batched R
prepend none rest = rejected
prepend (some rs) endless = endless
prepend (some rs) rejected = rejected
prepend (some rs) (results more) = results (rs ++ more)

-- `executeBatch`, on the items from the index on; with no turns left the loop would go on.
unfoldable pub execute_batch {ℓ κ} :
    {A : Type ℓ} {R : Type κ} → ℕ → List A → (A → Option R) → ℕ → Batched R
execute_batch turns [] task batch_size = results []
execute_batch zero (x ∷ xs) task batch_size = endless
execute_batch (suc turns) (x ∷ xs) task batch_size =
    prepend (all_settled task (take batch_size (x ∷ xs)))
      (execute_batch turns (drop batch_size (x ∷ xs)) task batch_size)
