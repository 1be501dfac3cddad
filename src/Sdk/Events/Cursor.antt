-- ===== src/Sdk/Events/Cursor.antt =====
-- The ledger from which the next poll asks (sdk/src/events.ts, `lastLedger`).
use bc_forge.Common.{
  ℕ, ◌≡◌, refl, ◌≤◌, Bool, true, false, not, ◌||◌, List, [], ◌∷◌, String, arith, ltb, all,
  Bool-cases, inl, inr, Option, none, some,
}
use bc_forge.Sdk.Events.Decoding.{Values, EventResponse, BcForgeEvent, decode_event, or_else}
use bc_forge.Sdk.Events.Listeners.{
  Polled, Call, Listener, Matched, other, matched, called, thrown, advance, is_seen, remember,
  called_with, on_matched, polls, listen, subscribed, on_decoded, subscribe,
}
use bc_forge.Sdk.Events.Once.{Then, polls_keep}

module _ {ℓ} {D : Type ℓ} (callback : D → Bool) where
  -- The call threw, or its ledger lies below the given one.
  abbrev is_behind : ℕ → Call D → Bool
  is_behind last c = ltb c.ledger last || not (callback c.payload)

  -- The ledger has not fallen below the start, and is above all calls that did not throw.
  pub record IsAhead (start : ℕ) (l : Listener D) : Type 0 where
    pub not_before : start ≤ l.last_ledger
    pub above : all (is_behind l.last_ledger) l.calls ≡ true

  behind_more :
      (last next_ : ℕ) (cs : List (Call D))
      → last ≤ next_
      → all (is_behind last) cs ≡ true
      → all (is_behind next_) cs ≡ true
  behind_more last next_ [] h e = refl
  behind_more last next_ (c ∷ cs) h e = ground (arith, behind_more last next_ cs h)

  advance-IsAhead : (start n : ℕ) (l : Listener D) → IsAhead start l → IsAhead start (advance n l)
  advance-IsAhead start n l a = record {
    not_before = ground (arith, a.not_before);
    above = behind_more l.last_ledger (advance n l).last_ledger l.calls (ground arith) a.above;
  }

  remember-IsAhead :
      (start : ℕ) (h : String) (l : Listener D) → IsAhead start l → IsAhead start (remember h l)
  remember-IsAhead start h l a = record { not_before = a.not_before; above = a.above }

  advanced : (n : ℕ) (l : Listener D) → ltb n (advance n l).last_ledger ≡ true
  advanced n l = ground arith

  -- After a call that did not throw.
  done-IsAhead :
      (start ledger : ℕ) (h : String) (d : D) (l : Listener D)
      → IsAhead start l
      → IsAhead start (advance ledger (called_with h ledger d l))
  done-IsAhead start ledger h d l a =
      let next_ = advance-IsAhead start ledger l a in
      record { not_before = next_.not_before; above = rw (advanced ledger l) next_.above }

  failed-IsAhead :
      (start ledger : ℕ) (h : String) (d : D) (l : Listener D)
      → callback d ≡ false
      → IsAhead start l
      → IsAhead start (called_with h ledger d l)
  failed-IsAhead start ledger h d l e a = record {
    not_before = a.not_before;
    above = ground (arith, a.above);
  }

  on_matched-IsAhead :
      (start ledger : ℕ) (m : Matched D) (l : Listener D)
      → IsAhead start l
      → Then (IsAhead start) (on_matched callback ledger m l)
  unfolding on_matched
  on_matched-IsAhead start ledger other l a = advance-IsAhead start ledger l a
  on_matched-IsAhead start ledger (matched h) l a = elim (Bool-cases (is_seen h l)) [
    | inl e ↦ rw (e, Then) a
    | inr e ↦
        rw (e, Then) (advance-IsAhead start ledger (remember h l) (remember-IsAhead start h l a))
  ]
  on_matched-IsAhead start ledger (thrown h) l a = elim (Bool-cases (is_seen h l)) [
    | inl e ↦ rw (e, Then) a
    | inr e ↦ rw (e, Then) (remember-IsAhead start h l a)
  ]
  on_matched-IsAhead start ledger (called h d) l a =
      let r = remember-IsAhead start h l a in
      elim (Bool-cases (is_seen h l)) [
        | inl e ↦ rw (e, Then) a
        | inr e ↦ elim (Bool-cases (callback d)) [
          | inl f ↦ rw (e, f, Then) (done-IsAhead start ledger h d (remember h l) r)
          | inr f ↦ rw (e, f, Then) (failed-IsAhead start ledger h d (remember h l) f r)
        ]
      ]

  subscribed-IsAhead : (start : ℕ) → IsAhead start (subscribed start)
  subscribed-IsAhead start = record { not_before = omega arith; above = refl }

  -- Over all polls of a subscription of `onMint`, `onTransfer` or `onVaultDeposit`, whatever the
  -- server answers, the ledger from which the next poll asks is at least the start and lies above
  -- the ledger of every event whose callback did not throw.
  pub polls-IsAhead {κ} :
      {V : Type κ} (match_event : EventResponse V → Matched D) (answers : List (Polled V))
      (start : ℕ)
      → IsAhead start (polls (listen callback match_event) answers (subscribed start))
  unfolding listen
  polls-IsAhead match_event answers start =
      polls_keep (IsAhead start) (listen callback match_event)
        (λ e l. on_matched-IsAhead start e.ledger (match_event e) l) answers (subscribed start)
        (subscribed-IsAhead start)

module _ {ℓ κ} {V : Type ℓ} {N : Type κ} (vs : Values V N) (callback : BcForgeEvent N → Bool) where
  on_decoded-IsAhead :
      (start ledger : ℕ) (o : Option (BcForgeEvent N)) (l : Listener (BcForgeEvent N))
      → IsAhead callback start l
      → Then (IsAhead callback start) (on_decoded vs callback ledger o l)
  on_decoded-IsAhead start ledger none l a = advance-IsAhead callback start ledger l a
  on_decoded-IsAhead start ledger (some d) l a = elim (Bool-cases (callback d)) [
    | inl f ↦ rw (f, Then) (done-IsAhead callback start ledger (or_else d.tx_hash "") d l a)
    | inr f ↦ rw (f, Then) (failed-IsAhead callback start ledger (or_else d.tx_hash "") d l f a)
  ]

  -- The same of `subscribeEvents`.
  pub polls-subscribe-IsAhead :
      (answers : List (Polled V)) (start : ℕ)
      → IsAhead callback start (polls (subscribe vs callback) answers (subscribed start))
  unfolding subscribe
  polls-subscribe-IsAhead answers start =
      polls_keep (IsAhead callback start) (subscribe vs callback)
        (λ e l. on_decoded-IsAhead start e.ledger (decode_event vs e) l) answers (subscribed start)
        (subscribed-IsAhead callback start)
