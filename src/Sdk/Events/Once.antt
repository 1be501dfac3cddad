-- ===== src/Sdk/Events/Once.antt =====
-- What the subscriber of a listener is called with over all polls (sdk/src/events.ts): no
-- transaction twice, and the ledger from which the next poll asks.
use bc_forge.Common.{
  ℕ, ◌≡◌, refl, sym, ap, subst, ◌∙◌, Bool, true, false, not, ◌&&◌, ◌||◌, List, [], ◌∷◌, String,
  arith, eq_iff, ===_refl, if◌then◌else◌, ◌===◌, any, all, is_nonempty, Bool-cases, inl, inr,
}
use bc_forge.Sdk.Events.Decoding.{EventResponse}
use bc_forge.Sdk.Events.Listeners.{
  Polled, failed_poll, got_events, Call, Listener, Matched, other, matched, called, thrown, After,
  going, stopped, advance, is_seen, remember, called_with, on_matched, on_events, poll_events,
  polls, listen, subscribed,
}

-- A predicate of the state after an event.
abbrev pub Then {ℓ κ} : {D : Type ℓ} → (Listener D → Type κ) → After D → Type κ
Then P (going l) = P l
Then P (stopped l) = P l

module _ {ℓ κ μ} {V : Type ℓ} {D : Type κ} (P : Listener D → Type μ)
    (step : EventResponse V → Listener D → After D)
    (keeps : (e : EventResponse V) (l : Listener D) → P l → Then P (step e l)) where
  after_event :
      (es : List (EventResponse V)) (a : After D)
      → ((m : Listener D) → P m → P (on_events step es m))
      → Then P a
      → P (elim a [ going m ↦ on_events step es m | stopped m ↦ m ])
  after_event es (going m) rest h = rest m h
  after_event es (stopped m) rest h = h

  on_events_keep : (es : List (EventResponse V)) (l : Listener D) → P l → P (on_events step es l)
  unfolding on_events
  on_events_keep [] l h = h
  on_events_keep (e ∷ es) l h = after_event es (step e l) (on_events_keep es) (keeps e l h)

  poll_keeps : (p : Polled V) (l : Listener D) → P l → P (poll_events step p l)
  unfolding poll_events
  poll_keeps failed_poll l h = h
  poll_keeps (got_events es) l h = on_events_keep es l h

  -- What every event of a subscription preserves, all its polls preserve.
  pub polls_keep : (ps : List (Polled V)) (l : Listener D) → P l → P (polls step ps l)
  unfolding polls
  polls_keep [] l h = h
  polls_keep (p ∷ ps) l h = polls_keep ps (poll_events step p l) (poll_keeps p l h)

module _ {ℓ} {D : Type ℓ} where
  abbrev same_hash : String → Call D → Bool
  same_hash h c = c.hash === h

  -- No two calls have the same hash, unless it is empty.
  abbrev pub are_distinct : List (Call D) → Bool
  are_distinct [] = true
  are_distinct (c ∷ cs) = not (is_nonempty c.hash && any (same_hash c.hash) cs) && are_distinct cs

  -- The hash of a call is remembered, unless it is empty.
  abbrev is_remembered : List String → Call D → Bool
  is_remembered hs c = not (is_nonempty c.hash) || any (λ h. h === c.hash) hs

  record IsOnce (l : Listener D) : Type 0 where
    distinct : are_distinct l.calls ≡ true
    remembered : all (is_remembered l.seen) l.calls ≡ true

  remembered_more :
      (h : String) (hs : List String) (cs : List (Call D))
      → all (is_remembered hs) cs ≡ true
      → all (is_remembered (h ∷ hs)) cs ≡ true
  remembered_more h hs [] e = refl
  remembered_more h hs (c ∷ cs) e = ground (arith, remembered_more h hs cs)

  fresh_hash :
      (h : String) (hs : List String) (cs : List (Call D))
      → all (is_remembered hs) cs ≡ true
      → (is_nonempty h && any (λ g. g === h) hs) ≡ false
      → (is_nonempty h && any (same_hash h) cs) ≡ false
  fresh_hash h hs [] e f = ground arith
  fresh_hash h hs (c ∷ cs) e f = elim (Bool-cases (c.hash === h)) [
    | inl s ↦
        let same : c.hash ≡ h = (eq_iff c.hash h).0 s in
        let unseen = subst (λ x. (is_nonempty x && any (λ g. g === x) hs) ≡ false) (sym same) f in
        let empty_hash : is_nonempty c.hash ≡ false = ground arith in
        rw (sym (ap is_nonempty same) ∙ empty_hash) refl
    | inr s ↦ ground (arith, fresh_hash h hs cs)
  ]

  remember-IsOnce : (h : String) (l : Listener D) → IsOnce l → IsOnce (remember h l)
  remember-IsOnce h l once = elim (Bool-cases (is_nonempty h)) [
    | inl e ↦ record {
      distinct = once.distinct;
      remembered =
          ap (λ b. all (is_remembered (if b then h ∷ l.seen else l.seen)) l.calls) e
          ∙ remembered_more h l.seen l.calls once.remembered;
    }
    | inr e ↦ record {
      distinct = once.distinct;
      remembered =
          ap (λ b. all (is_remembered (if b then h ∷ l.seen else l.seen)) l.calls) e
          ∙ once.remembered;
    }
  ]

  head_remembered :
      (h : String) (ledger : ℕ) (d : D) (l : Listener D)
      → is_remembered (remember h l).seen (record { hash = h; ledger = ledger; payload = d }) ≡ true
  head_remembered h ledger d l = ground (arith, ===_refl h)

  called-IsOnce :
      (h : String) (ledger : ℕ) (d : D) (l : Listener D)
      → IsOnce l
      → is_seen h l ≡ false
      → IsOnce (called_with h ledger d (remember h l))
  called-IsOnce h ledger d l once unseen = record {
    distinct = rw (fresh_hash h l.seen l.calls once.remembered unseen) once.distinct;
    remembered = rw (head_remembered h ledger d l) (remember-IsOnce h l once).remembered;
  }

  advance-IsOnce : (n : ℕ) (l : Listener D) → IsOnce l → IsOnce (advance n l)
  advance-IsOnce n l once = record { distinct = once.distinct; remembered = once.remembered }

  on_matched-IsOnce :
      (callback : D → Bool) (ledger : ℕ) (m : Matched D) (l : Listener D)
      → IsOnce l
      → Then IsOnce (on_matched callback ledger m l)
  unfolding on_matched
  on_matched-IsOnce callback ledger other l once = advance-IsOnce ledger l once
  on_matched-IsOnce callback ledger (matched h) l once = elim (Bool-cases (is_seen h l)) [
    | inl e ↦ rw (e, Then) once
    | inr e ↦ rw (e, Then) (advance-IsOnce ledger (remember h l) (remember-IsOnce h l once))
  ]
  on_matched-IsOnce callback ledger (thrown h) l once = elim (Bool-cases (is_seen h l)) [
    | inl e ↦ rw (e, Then) once
    | inr e ↦ rw (e, Then) (remember-IsOnce h l once)
  ]
  on_matched-IsOnce callback ledger (called h d) l once = elim (Bool-cases (is_seen h l)) [
    | inl e ↦ rw (e, Then) once
    | inr e ↦
        let made = called-IsOnce h ledger d l once e in
        elim (Bool-cases (callback d)) [
          | inl f ↦
              rw (e, f, Then) (advance-IsOnce ledger (called_with h ledger d (remember h l)) made)
          | inr f ↦ rw (e, f, Then) made
        ]
  ]

  no_calls-IsOnce : (ledger : ℕ) → IsOnce (subscribed ledger)
  no_calls-IsOnce ledger = record { distinct = refl; remembered = refl }

-- Over all polls of a subscription of `onMint`, `onTransfer` or `onVaultDeposit`, whatever the
-- server answers and whether or not the callback throws, the callback is called at most once for a
-- transaction hash.
pub polls_distinct {ℓ κ} :
    {V : Type ℓ} {D : Type κ} (callback : D → Bool) (match_event : EventResponse V → Matched D)
    (answers : List (Polled V)) (ledger : ℕ)
    → are_distinct (polls (listen callback match_event) answers (subscribed ledger)).calls ≡ true
unfolding listen
polls_distinct callback match_event answers ledger =
    (polls_keep IsOnce (listen callback match_event)
      (λ e l. on_matched-IsOnce callback e.ledger (match_event e) l) answers (subscribed ledger)
      (no_calls-IsOnce ledger)).distinct
