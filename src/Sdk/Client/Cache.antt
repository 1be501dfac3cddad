-- ===== src/Sdk/Client/Cache.antt =====
-- What a cached read gives (sdk/src/client.ts, `getCachedRead`).
use bc_forge.Common.{
  ℕ, ◌≡◌, refl, sym, ap, subst, ◌∙◌, true, Option, none, some, List, [], ◌∷◌, String, arith, eq_iff,
  ◌===◌, ◌==◌, Bool-cases, inl, inr, all,
}
use bc_forge.Common.Dict.{Dict, lookup, insert}
use bc_forge.Sdk.Client.{
  CacheEntry, ReadCache, cache_key, get_latest_ledger_sequence, cached, of_ledger, keep_fetched,
  read_or, get_cached_read,
}
use bc_forge.Sdk.Client.Keys.{is_plain, IsNumeral, cache_key_injective}

module _ {ℓ} {V : Type ℓ} (show : ℕ → String) (contract_id : String)
    (state : ℕ → String → List String → Option V) where
  -- A cached value is what a read gives at the ledger of the entry, under the key of that read.
  pub record IsRead (key : String) (e : CacheEntry V) : Type ℓ where
    pub method : String
    pub args : List String
    pub plain_method : is_plain method ≡ true
    pub plain_args : all is_plain args ≡ true
    pub keyed : key ≡ cache_key show contract_id method args e.ledger
    pub value : state e.ledger method args ≡ some e.value

  abbrev pub AreReads : Dict (CacheEntry V) → Type ℓ
  AreReads [] = Unit
  AreReads ((k, e) ∷ d) = IsRead k e × AreReads d

  lookup-AreReads :
      (key : String) (d : Dict (CacheEntry V)) (e : CacheEntry V)
      → AreReads d
      → lookup key d ≡ some e
      → IsRead key e
  lookup-AreReads key [] e h found = absurd (ground arith)
  lookup-AreReads key ((k, x) ∷ d) e h found = elim (Bool-cases (k === key)) [
    | inl s ↦
        let same : some x ≡ some e = sym (rw (s, lookup) refl) ∙ found in
        moved ((eq_iff k key).0 s) (some_injective same) h.0
    | inr s ↦
        let later : lookup key d ≡ some e = sym (rw (s, lookup) refl) ∙ found in
        lookup-AreReads key d e h.1 later
  ]
    where
      moved : k ≡ key → x ≡ e → IsRead k x → IsRead key e
      moved a b r = subst (λ y. IsRead key y) b (subst (λ i. IsRead i x) a r)

      some_injective : some x ≡ some e → x ≡ e
      some_injective p = ap (λ o. elim o [ none ↦ x | some y ↦ y ]) p

  of_ledger-AreReads : (n : ℕ) (d : Dict (CacheEntry V)) → AreReads d → AreReads (of_ledger n d)
  of_ledger-AreReads n [] h = tt
  of_ledger-AreReads n ((k, e) ∷ d) h = elim (Bool-cases (e.ledger == n)) [
    | inl s ↦ rw (s, of_ledger) (h.0, of_ledger-AreReads n d h.1)
    | inr s ↦ rw (s, of_ledger) (of_ledger-AreReads n d h.1)
  ]

  insert-AreReads :
      (key : String) (e : CacheEntry V) (d : Dict (CacheEntry V))
      → IsRead key e
      → AreReads d
      → AreReads (insert key e d)
  insert-AreReads key e [] r h = (r, tt)
  insert-AreReads key e ((k, x) ∷ d) r h = elim (Bool-cases (k === key)) [
    | inl s ↦ rw (s, insert) (r, h.1)
    | inr s ↦ rw (s, insert) (h.0, insert-AreReads key e d r h.1)
  ]

  cached_found :
      (ledger : ℕ) (o : Option (CacheEntry V)) (v : V)
      → cached ledger o ≡ some v
      → (e : CacheEntry V) × (o ≡ some e) × (e.ledger ≡ ledger) × (some e.value ≡ some v)
  cached_found ledger none v h = absurd (ground arith)
  cached_found ledger (some e) v h = elim (Bool-cases (e.ledger == ledger)) [
    | inl s ↦ (e, refl, ground arith, sym (rw (s, cached) refl) ∙ h)
    | inr s ↦ absurd (ground arith)
  ]

  module _ (numeral : IsNumeral show) (method : String) (args : List String)
      (plain_method : is_plain method ≡ true) (plain_args : all is_plain args ≡ true)
      (ledger : ℕ) where
    abbrev key : String
    key = cache_key show contract_id method args ledger

    -- What is cached for the key of the read is the value of the read.
    cached_is :
        (d : Dict (CacheEntry V)) (v : V)
        → AreReads d
        → cached ledger (lookup key d) ≡ some v
        → state ledger method args ≡ some v
    cached_is d v h found =
        let (e, there, at, same) = cached_found ledger (lookup key d) v found in
        let r = lookup-AreReads key d e h there in
        let (same_method, same_args, same_ledger) =
          cache_key_injective show contract_id method r.method args r.args ledger e.ledger numeral
            plain_method r.plain_method plain_args r.plain_args r.keyed in
        ap (λ n. state n method args) same_ledger
        ∙ ap (λ m. state e.ledger m args) same_method
        ∙ ap (state e.ledger r.method) same_args
        ∙ r.value
        ∙ same

    abbrev IsGood : Option V × ReadCache V → Type ℓ
    IsGood r = (r.0 ≡ state ledger method args) × AreReads r.1.entries

    keep_fetched-IsGood :
        (o : Option V) (c : ReadCache V)
        → o ≡ state ledger method args
        → AreReads c.entries
        → IsGood (keep_fetched key ledger o c)
    keep_fetched-IsGood none c f h = (f, of_ledger-AreReads ledger c.entries h)
    keep_fetched-IsGood (some v) c f h =
        let e : CacheEntry V = record { value = v; ledger = ledger } in
        let r : IsRead key e = record {
          method = method;
          args = args;
          plain_method = plain_method;
          plain_args = plain_args;
          keyed = refl;
          value = sym f;
        } in
        (
          f,
          insert-AreReads key e (of_ledger ledger c.entries) r
              (of_ledger-AreReads ledger c.entries h),
        )

    read_or-IsGood :
        (o fetched : Option V) (c : ReadCache V)
        → cached ledger (lookup key c.entries) ≡ o
        → fetched ≡ state ledger method args
        → AreReads c.entries
        → IsGood (read_or o key ledger fetched c)
    read_or-IsGood none fetched c e f h = keep_fetched-IsGood fetched c f h
    read_or-IsGood (some v) fetched c e f h = (sym (cached_is c.entries v h e), h)

  -- Let a read of the contract at a ledger give what its state gives, let the methods and arguments
  -- that are read be texts that are not empty and have no colon, and let the texts of numbers have no
  -- colon and differ. Then, as long as every cached value is the one of its read at its ledger, a read
  -- through the cache gives the value at the client's ledger for just this method and these arguments,
  -- and leaves a cache of which this holds again.
  pub get_cached_read-AreReads :
      (method : String) (args : List String) (latest : Option ℕ) (fetched : Option V)
      (c : ReadCache V)
      → IsNumeral show
      → is_plain method ≡ true
      → all is_plain args ≡ true
      → fetched ≡ state (get_latest_ledger_sequence latest c) method args
      → AreReads c.entries
      → ((get_cached_read show contract_id method args latest fetched c).0
          ≡ state (get_latest_ledger_sequence latest c) method args)
        × AreReads (get_cached_read show contract_id method args latest fetched c).1.entries
  unfolding get_cached_read
  get_cached_read-AreReads method args latest fetched c numeral m a f h =
      let ledger = get_latest_ledger_sequence latest c in
      read_or-IsGood numeral method args m a ledger
        (cached ledger (lookup (cache_key show contract_id method args ledger) c.entries)) fetched c
        refl f h
