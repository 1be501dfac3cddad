-- ===== src/Migration/Trace.antt =====
-- How much an action may add to the trace (migrations/rbac-migration.ts): the numbers of the
-- transactions sent, of the polls and of the simulations.
use bc_forge.Common.{
  ℕ, zero, suc, ◌+◌, ◌*◌, ◌≡◌, ◌≤◌, Bool, false, List, [], ◌∷◌, String, arith, if◌then◌else◌,
}
use bc_forge.Migration.{
  Answer, ok, thrown, Event, slept, World, Action, note, sleep, ask, then_with, ◌>>=◌, return,
  or_again, pause_after, retry, with_retry,
}

abbrev pub count : (Event → Bool) → List Event → ℕ
count p [] = 0
count p (e ∷ es) = (if p e then 1 else 0) + count p es

-- The action adds at most `n` events that pass the test.
abbrev pub Costs {ℓ κ} : {S : Type ℓ} {A : Type κ} → (Event → Bool) → ℕ → Action S A → Type ℓ
Costs p n m = (w : World _) → count p (m w).1.trace ≤ count p w.trace + n

module _ {ℓ κ} {S : Type ℓ} {A : Type κ} (p : Event → Bool) where
  pub return-Costs : (n : ℕ) (a : A) → Costs {S = S} p n (return a)
  return-Costs n a w = omega arith

  pub more-Costs : (n k : ℕ) (m : Action S A) → n ≤ k → Costs p n m → Costs p k m
  more-Costs n k m h c w = omega (arith, c w)

  pub ask-Costs :
      (event : Answer A → Event) (call : S → Answer A × S) (n : ℕ)
      → ((a : Answer A) → (if p (event a) then 1 else 0) ≤ n)
      → Costs p n (ask event call)
  ask-Costs event call n h w = omega (arith, h (call w.state).0)

module _ {ℓ κ μ} {S : Type ℓ} {A : Type κ} {B : Type μ} (p : Event → Bool) where
  then_with-count :
      (n k t : ℕ) (f : A → Action S B) (a : Answer A) (v : World S)
      → ((x : A) → Costs p k (f x))
      → count p v.trace ≤ t + n
      → count p (then_with f a v).1.trace ≤ t + (n + k)
  then_with-count n k t f (ok x) v c h = omega (arith, c x v)
  then_with-count n k t f (thrown e) v c h = omega arith

  pub bind-Costs :
      (n k : ℕ) (m : Action S A) (f : A → Action S B)
      → Costs p n m
      → ((a : A) → Costs p k (f a))
      → Costs p (n + k) (m >>= f)
  bind-Costs n k m f c d w = then_with-count n k (count p w.trace) f (m w).0 (m w).1 d (c w)

module _ {ℓ} {S : Type ℓ} (p : Event → Bool) (no_sleeps : (ms : ℕ) → p (slept ms) ≡ false) where
  pub sleep-Costs : (ms n : ℕ) → Costs {S = S} p n (sleep ms)
  sleep-Costs ms n w = rw (no_sleeps ms) (omega arith)

  or_again-count {κ} :
      {A : Type κ} (n k t pause : ℕ) (f : String → Action S A) (a : Answer A) (v : World S)
      → ((e : String) → Costs p k (f e))
      → count p v.trace ≤ t + n
      → count p (or_again f pause a v).1.trace ≤ t + (n + k)
  or_again-count n k t pause f (ok x) v c h = omega arith
  or_again-count n k t zero f (thrown e) v c h = omega (arith, c e v)
  or_again-count n k t (suc ms) f (thrown e) v c h =
      let w = note (slept (suc ms)) v in
      let same : count p w.trace ≡ count p v.trace = rw (no_sleeps (suc ms)) (omega arith) in
      omega (arith, c e w)

  retry-Costs {κ} :
      {A : Type κ} (n left i : ℕ) (last : String) (f : Action S A)
      → Costs p n f
      → Costs p (left * n) (retry f left i last)
  unfolding retry
  retry-Costs n zero i last f c w = omega arith
  retry-Costs n (suc left) i last f c w = omega (
    arith,
    or_again-count n (left * n) (count p w.trace) (pause_after left i) (λ e. retry f left (suc i) e)
        (f w).0 (f w).1 (λ e. retry-Costs n left (suc i) e f c) (c w),
  )

  -- An action is tried at most three times.
  pub with_retry-Costs {κ} :
      {A : Type κ} (n : ℕ) (f : Action S A) → Costs p n f → Costs p (3 * n) (with_retry f)
  unfolding with_retry
  with_retry-Costs n f c = retry-Costs n 3 0 "undefined" f c
