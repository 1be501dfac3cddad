-- ===== src/Indexer/Tests/Interface.antt =====
-- Requests to the read interface: the pages of a list of two rows, a filter, and a token.
use bc_forge.Common.{
  drop, ℕ, ◌≡◌, refl, ap, subst, ◌∙◌, Bool, true, false, Option, none, some, List, [], ◌∷◌, ◌++◌,
  String, arith, if◌then◌else◌, ◌===◌, ◌==◌, ◌&&◌, take, length, ◌↔◌, any, is_nonempty, ◌≤◌,
}
use bc_forge.Common.Int.{ℤ, pos}
use bc_forge.Common.Texts.{codes}
use bc_forge.Indexer.Api.{
  absent, text, Query, everything, found, Delegate, page, parse_limit, parse_cursor, answer,
  handle_paginated_list,
}
use bc_forge.Indexer.Api.Pages.{IsPaginated, fetch_all, fetch_all_complete}
use bc_forge.Indexer.Api.Access.{
  Buffers, AreExact, require_api_token, next, Carries, bearer, require_api_token-next,
}
use bc_forge.Indexer.Webhooks.{
  Url, WebhookTarget, created, register_webhook, Fetched, status, rejected,
  deliver_indexer_event_to_webhooks, delete_webhook, removed,
}
use bc_forge.Indexer.Webhooks.Attempts.{
  is_posted, register_webhook_again, register_webhook-delivers,
}

abbrev numbers : String → Option ℤ
numbers s = if s === "1" then some (pos 1) else none

abbrev one_by_one : Query
one_by_one = record { limit = text "1"; cursor = absent; address = absent; from_ledger = absent }

abbrev two_rows : List Bool
two_rows = true ∷ false ∷ []

abbrev row_id : Bool → String
row_id true = "b"
row_id false = "a"

abbrev rest_from : Option String → List Bool
rest_from none = two_rows
rest_from (some c) = if c === "b" then two_rows else false ∷ []

abbrev two_delegate : Delegate Bool
two_delegate = record {
  id = row_id;
  find_many = λ a. found (take a.take_ (drop a.skip (rest_from a.cursor)));
}

row_id_named : (r : Bool) → is_nonempty (row_id r) ≡ true
row_id_named true = refl
row_id_named false = refl

length_end : (before : List Bool) (r : Bool) (rest : List Bool) → 1 ≤ length (before ++ r ∷ rest)
length_end [] r rest = omega arith
length_end (x ∷ before) r rest = omega arith

from_in_two :
    (before : List Bool) (r : Bool) (rest : List Bool)
    → two_rows ≡ before ++ r ∷ rest
    → rest_from (some (row_id r)) ≡ r ∷ rest
from_in_two [] true rest e = ground arith
from_in_two [] false rest e = ground arith
from_in_two (x ∷ []) true rest e = ground arith
from_in_two (x ∷ []) false rest e = ground arith
from_in_two (x ∷ y ∷ before) r rest e =
    absurd (omega (arith, ap length e, length_end before r rest))

two_delegate-IsPaginated : IsPaginated two_delegate everything two_rows
two_delegate-IsPaginated = record {
  first = λ n skip. refl;
  after = λ before r rest n skip e.
      ap (λ rs. found (take n (drop skip rs))) (from_in_two before r rest e);
}

one_by_one_limit : parse_limit numbers (text "1") ≡ some 1
unfolding parse_limit
one_by_one_limit = refl

fetch_all_complete_example :
    fetch_all numbers one_by_one two_delegate everything 3 none ≡ some two_rows
fetch_all_complete_example =
    fetch_all_complete numbers one_by_one two_delegate everything two_rows 1 one_by_one_limit
      two_delegate-IsPaginated row_id_named

first_page :
    handle_paginated_list numbers one_by_one two_delegate everything ≡ page (true ∷ []) (some "b")
unfolding handle_paginated_list parse_limit parse_cursor answer
first_page = refl

abbrev same_bytes : List ℕ → List ℕ → Bool
same_bytes [] [] = true
same_bytes (x ∷ xs) (y ∷ ys) = x == y && same_bytes xs ys
same_bytes xs ys = false

abbrev plain_buffers : Buffers
plain_buffers = record { bytes = λ s. s; timing_safe_equal = same_bytes }

same_bytes_refl : (xs : List ℕ) → same_bytes xs xs ≡ true
same_bytes_refl [] = refl
same_bytes_refl (x ∷ xs) = ground (arith, same_bytes_refl xs)

same_bytes_eq : (xs ys : List ℕ) → same_bytes xs ys ≡ true → xs ≡ ys
same_bytes_eq [] [] h = refl
same_bytes_eq [] (y ∷ ys) h = ground arith
same_bytes_eq (x ∷ xs) [] h = ground arith
same_bytes_eq (x ∷ xs) (y ∷ ys) h =
    let e : x ≡ y = ground arith in
    ap (λ z. z ∷ xs) e ∙ ap (λ zs. y ∷ zs) (same_bytes_eq xs ys (ground arith))

plain_buffers-AreExact : AreExact plain_buffers
plain_buffers-AreExact = record {
  injective = λ s t ws wt e. e;
  compares = λ xs ys e.
      (same_bytes_eq xs ys, λ p. subst (λ zs. same_bytes xs zs ≡ true) p (same_bytes_refl xs));
}

require_api_token-next_example :
    (require_api_token plain_buffers (some (codes "key")) (some (bearer (codes "key"))) ≡ next)
    ↔ Carries (some (codes "key")) (some (bearer (codes "key")))
require_api_token-next_example =
    require_api_token-next plain_buffers (some (codes "key")) (some (bearer (codes "key")))
      plain_buffers-AreExact refl refl

abbrev hook_url : String → Option Url
hook_url s = some (record { protocol = "https:"; username = ""; password = ""; href = s })

-- The first request fails, the second one does not.
abbrev flaky : String → String → ℕ → Fetched
flaky url event attempt = if attempt == 1 then rejected "timeout" else status 204

abbrev hook : WebhookTarget
hook = record { id = "w1"; url = "https://a/" }

register_webhook_again_example :
    register_webhook hook_url "w2"
      (some "https://a/")
      (register_webhook hook_url "w1" (some "https://a/") []).1
    ≡ register_webhook hook_url "w1" (some "https://a/") []
register_webhook_again_example = register_webhook_again hook_url "w1" "w2" (some "https://a/") []

registered_hook : (register_webhook hook_url "w1" (some "https://a/") []).0 ≡ created hook
unfolding register_webhook
registered_hook = refl

register_webhook-delivers_example :
    any (is_posted "https://a/" "{}") (
      deliver_indexer_event_to_webhooks flaky
        (register_webhook hook_url "w1" (some "https://a/") []).1
        "{}")
    ≡ true
register_webhook-delivers_example =
    register_webhook-delivers hook_url "w1" (some "https://a/") [] hook flaky "{}" registered_hook

removed_hook : delete_webhook "w1" (hook ∷ []) ≡ (removed, [])
unfolding delete_webhook
removed_hook = refl
