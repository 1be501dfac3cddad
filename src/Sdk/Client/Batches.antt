-- ===== src/Sdk/Client/Batches.antt =====
-- The batches of the token client (sdk/src/client.ts, `executeBatch`).
use bc_forge.Common.{
  ℕ, zero, suc, ◌≡◌, refl, ap, ◌∙◌, ◌≤◌, Option, none, some, List, [], ◌∷◌, arith, length, take,
  drop, length-drop,
}
use bc_forge.Sdk.Client.{
  both, all_settled, Batched, endless, rejected, results, prepend, execute_batch,
}

abbrev pub outcome {ℓ} : {R : Type ℓ} → Option (List R) → Batched R
outcome none = rejected
outcome (some rs) = results rs

module _ {ℓ} {R : Type ℓ} where
  abbrev results_or : List R → Batched R → List R
  results_or d endless = d
  results_or d rejected = d
  results_or d (results rs) = rs

  prepend_nothing : (o : Option (List R)) → prepend (some []) (outcome o) ≡ outcome o
  prepend_nothing none = refl
  prepend_nothing (some rs) = refl

  prepend_one :
      (o : Option R) (head : Option (List R)) (rest : Batched R) (whole : Option (List R))
      → prepend head rest ≡ outcome whole
      → prepend (both o head) rest ≡ outcome (both o whole)
  prepend_one none head rest whole h = refl
  prepend_one (some r) none rest none h = refl
  prepend_one (some r) none rest (some w) h = absurd (ground arith)
  prepend_one (some r) (some hs) endless none h = absurd (ground arith)
  prepend_one (some r) (some hs) endless (some w) h = absurd (ground arith)
  prepend_one (some r) (some hs) rejected none h = refl
  prepend_one (some r) (some hs) rejected (some w) h = absurd (ground arith)
  prepend_one (some r) (some hs) (results more) none h = absurd (ground arith)
  prepend_one (some r) (some hs) (results more) (some w) h =
      ap (λ b. results (r ∷ results_or w b)) h

module _ {ℓ κ} {A : Type ℓ} {R : Type κ} (task : A → Option R) where
  chunk_and_rest :
      (n : ℕ) (xs : List A)
      → prepend (all_settled task (take n xs)) (outcome (all_settled task (drop n xs)))
        ≡ outcome (all_settled task xs)
  chunk_and_rest zero xs = prepend_nothing (all_settled task xs)
  chunk_and_rest (suc n) [] = refl
  chunk_and_rest (suc n) (x ∷ xs) =
      prepend_one (task x) (all_settled task (take n xs)) (outcome (all_settled task (drop n xs)))
        (all_settled task xs) (chunk_and_rest n xs)

  -- With a batch size of at least one, the loop comes to an end after at most as many turns as there
  -- are items, with the results of all tasks in the order of the items, or rejected if one is.
  pub execute_batch_lem :
      (batch_size turns : ℕ) (items : List A)
      → length items ≤ turns
      → execute_batch turns items task (suc batch_size) ≡ outcome (all_settled task items)
  unfolding execute_batch
  execute_batch_lem b turns [] h = refl
  execute_batch_lem b zero (x ∷ xs) h = absurd (omega arith)
  execute_batch_lem b (suc turns) (x ∷ xs) h =
      ap (prepend (all_settled task (take (suc b) (x ∷ xs))))
        (execute_batch_lem b turns (drop (suc b) (x ∷ xs)) (omega (arith, length-drop b xs)))
      ∙ chunk_and_rest (suc b) (x ∷ xs)
