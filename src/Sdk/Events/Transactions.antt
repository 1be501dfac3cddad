-- ===== src/Sdk/Events/Transactions.antt =====
-- The transactions of the events that a listener of sdk/src/events.ts gives its callback, and the
-- hashes that it remembers for them.
use bc_forge.Common.{
  ℕ, ◌≡◌, refl, sym, ap, ◌∙◌, Bool, true, false, not, ◌&&◌, ◌||◌, Option, none, some, List, [], ◌∷◌,
  String, arith, eq_iff, ===_refl, ◌===◌, any, all, is_nonempty, Bool-cases, inl, inr,
}
use bc_forge.Sdk.Events.Decoding.{BcForgeEvent, or_else}
use bc_forge.Sdk.Events.Listeners.{
  Call, Listener, Matched, other, matched, called, thrown, is_seen, on_matched, first_truthy,
  with_data,
}
use bc_forge.Sdk.Events.Once.{Then, are_distinct}

module _ {ℓ κ} {N : Type ℓ} {X : Type κ} where
  -- The transaction hash of the event that a callback is given, empty if there is none.
  abbrev pub transaction : BcForgeEvent N × X → String
  transaction d = or_else d.0.tx_hash ""

  abbrev of_transaction : String → Call (BcForgeEvent N × X) → Bool
  of_transaction t c = transaction c.payload === t

  -- No two calls are given events of the same transaction.
  abbrev pub are_of_distinct_transactions : List (Call (BcForgeEvent N × X)) → Bool
  are_of_distinct_transactions [] = true
  are_of_distinct_transactions (c ∷ cs) =
      not (is_nonempty (transaction c.payload) && any (of_transaction (transaction c.payload)) cs)
      && are_of_distinct_transactions cs

  -- The hash that is remembered is the one of the transaction.
  abbrev pub is_tied : String → BcForgeEvent N × X → Bool
  is_tied h d = not (is_nonempty (transaction d)) || h === transaction d

  abbrev pub is_tied_call : Call (BcForgeEvent N × X) → Bool
  is_tied_call c = is_tied c.hash c.payload

  abbrev pub is_tied_match : Matched (BcForgeEvent N × X) → Bool
  is_tied_match other = true
  is_tied_match (matched h) = true
  is_tied_match (called h d) = is_tied h d
  is_tied_match (thrown h) = true

  tied_hash :
      (h t : String) (d : BcForgeEvent N × X)
      → is_tied h d ≡ true
      → is_nonempty t ≡ true
      → transaction d ≡ t
      → (h === t) ≡ true
  tied_hash h t d tied n e =
      let filled : is_nonempty (transaction d) ≡ true = ap is_nonempty e ∙ n in
      let same : (h === transaction d) ≡ true = ground arith in sym (ap (λ u. h === u) e) ∙ same

  no_call :
      (t : String) (cs : List (Call (BcForgeEvent N × X)))
      → is_nonempty t ≡ true
      → all is_tied_call cs ≡ true
      → any (λ d. d.hash === t) cs ≡ false
      → any (of_transaction t) cs ≡ false
  no_call t [] n ts u = refl
  no_call t (d ∷ cs) n ts u = elim (Bool-cases (transaction d.payload === t)) [
    | inl s ↦
        let clash =
          tied_hash d.hash t d.payload (ground arith) n ((eq_iff (transaction d.payload) t).0 s) in
        absurd (ground arith)
    | inr s ↦ ground (arith, no_call t cs)
  ]

  no_other :
      (c : Call (BcForgeEvent N × X)) (cs : List (Call (BcForgeEvent N × X)))
      → is_tied_call c ≡ true
      → all is_tied_call cs ≡ true
      → (is_nonempty c.hash && any (λ d. d.hash === c.hash) cs) ≡ false
      → (is_nonempty (transaction c.payload) && any (of_transaction (transaction c.payload)) cs)
        ≡ false
  no_other c cs t ts u = elim (Bool-cases (is_nonempty (transaction c.payload))) [
    | inr e ↦ rw e refl
    | inl e ↦
        let same : c.hash ≡ transaction c.payload =
          (eq_iff c.hash (transaction c.payload)).0
            (tied_hash c.hash (transaction c.payload) c.payload t e refl) in
        let unseen : any (λ d. d.hash === transaction c.payload) cs ≡ false =
          sym (ap (λ h. any (λ d. d.hash === h) cs) same) ∙ seen_nowhere same e u in
        rw e (no_call (transaction c.payload) cs e ts unseen)
  ]
    where
      seen_nowhere :
          c.hash ≡ transaction c.payload
          → is_nonempty (transaction c.payload) ≡ true
          → (is_nonempty c.hash && any (λ d. d.hash === c.hash) cs) ≡ false
          → any (λ d. d.hash === c.hash) cs ≡ false
      seen_nowhere same e u =
          let n : is_nonempty c.hash ≡ true = ap is_nonempty same ∙ e in ground arith

  pub distinct_hashes :
      (cs : List (Call (BcForgeEvent N × X)))
      → all is_tied_call cs ≡ true
      → are_distinct cs ≡ true
      → are_of_distinct_transactions cs ≡ true
  distinct_hashes [] ts h = refl
  distinct_hashes (c ∷ cs) ts h =
      let apart = no_other c cs (ground arith) (ground arith) (ground arith) in
      rw apart (distinct_hashes cs (ground arith) (ground arith))

  abbrev pub AreTied : Listener (BcForgeEvent N × X) → Type 0
  AreTied l = all is_tied_call l.calls ≡ true

  pub on_matched-AreTied :
      (callback : BcForgeEvent N × X → Bool) (ledger : ℕ) (m : Matched (BcForgeEvent N × X))
      (l : Listener (BcForgeEvent N × X))
      → is_tied_match m ≡ true
      → AreTied l
      → Then AreTied (on_matched callback ledger m l)
  unfolding on_matched
  on_matched-AreTied callback ledger other l t h = h
  on_matched-AreTied callback ledger (matched k) l t h = elim (Bool-cases (is_seen k l)) [
    | inl e ↦ rw (e, Then) h
    | inr e ↦ rw (e, Then) h
  ]
  on_matched-AreTied callback ledger (thrown k) l t h = elim (Bool-cases (is_seen k l)) [
    | inl e ↦ rw (e, Then) h
    | inr e ↦ rw (e, Then) h
  ]
  on_matched-AreTied callback ledger (called k d) l t h = elim (Bool-cases (is_seen k l)) [
    | inl e ↦ rw (e, Then) h
    | inr e ↦ elim (Bool-cases (callback d)) [
      | inl f ↦ rw (e, f, Then, t) h
      | inr f ↦ rw (e, f, Then, t) h
    ]
  ]

  -- An event with the transaction hash of the answer that it was decoded from, if that has one.
  abbrev pub has_hash_of : Option String → Matched (BcForgeEvent N × X) → Bool
  has_hash_of t other = true
  has_hash_of t (matched h) = true
  has_hash_of t (called h d) = not (is_nonempty (or_else t "")) || transaction d === or_else t ""
  has_hash_of t (thrown h) = true

  pub with_data-tied :
      (t : Option String) (y : String) (d : BcForgeEvent N) (o : Option X)
      → d.tx_hash ≡ t
      → is_tied_match (with_data (first_truthy t y) d o) ≡ true
  with_data-tied t y d none e = refl
  with_data-tied none y d (some x) e = rw (ap (λ u. is_nonempty (or_else u "")) e) refl
  with_data-tied (some s) y d (some x) e = elim (Bool-cases (is_nonempty s)) [
    | inl f ↦
        let same : transaction (d, x) ≡ s = ap (λ u. or_else u "") e in
        rw (f, same, ===_refl s) (ground arith)
    | inr f ↦
        let empty_hash : is_nonempty (transaction (d, x)) ≡ false =
          ap (λ u. is_nonempty (or_else u "")) e ∙ f in
        rw empty_hash refl
  ]

  pub with_data-has_hash :
      (t : Option String) (h : String) (d : BcForgeEvent N) (o : Option X)
      → (not (is_nonempty (or_else t "")) || or_else d.tx_hash "" === or_else t "") ≡ true
      → has_hash_of t (with_data h d o) ≡ true
  with_data-has_hash t h d none e = refl
  with_data-has_hash t h d (some x) e = e
