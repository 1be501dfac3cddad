-- ===== src/Indexer/Api/Pages.antt =====
-- The pages of a list (indexer/src/api.ts, `handlePaginatedList`), and what a client gets that
-- follows `nextCursor` from page to page.
use bc_forge.Common.{
  ℕ, zero, suc, ◌≤◌, ◌<◌, ◌≡◌, refl, sym, ap, ◌∙◌, true, Option, none, some, List, [], ◌∷◌, ◌++◌,
  String, arith, ltb, length, take, drop, last?, take-append-drop, take-take, length-take, take_all,
  length-drop, append_assoc, inl, inr, Bool-cases, Option-cases, is_nonempty,
}
use bc_forge.Common.Int.{ℤ}
use bc_forge.Indexer.Api.{
  Param, text, Query, Where, Found, found, not_found, failed, Delegate, newest_first, page_args,
  Response, page, bad_request, internal_error, parse_limit, parse_cursor, answer,
  handle_paginated_list,
}

-- The query for the page after the cursor.
abbrev pub with_cursor : Query → Option String → Query
with_cursor q none = record q { cursor = Param.absent }
with_cursor q (some c) = record q { cursor = text c }

-- A limit that is read is at least 1 and at most 100.
parse_limit_bounds :
    (number : String → Option ℤ) (p : Param) (l : ℕ)
    → parse_limit number p ≡ some l
    → (0 < l) × (l ≤ 100)
unfolding parse_limit
parse_limit_bounds number p l h = ground arith

no_cursor : parse_cursor Param.absent ≡ none
unfolding parse_cursor
no_cursor = refl

module _ {ℓ} {R : Type ℓ} where
  -- With the cursor, `findMany` gives the first rows of the list.
  abbrev pub Answers : Delegate R → Where → Option String → List R → Type ℓ
  Answers d w cursor rows = (n : ℕ) → d.find_many (page_args n cursor w) ≡ found (take n rows)

  -- Prisma's pagination by a cursor, over the rows of the condition in the order asked for: without
  -- a cursor from the first row, with the id of a row from that row, less as many as are skipped.
  pub record IsPaginated (d : Delegate R) (w : Where) (rows : List R) : Type ℓ where
    pub first :
        (n skip : ℕ)
        → d.find_many
            (record { take_ = n; skip = skip; cursor = none; where_ = w; order_by = newest_first })
          ≡ found (take n (drop skip rows))
    pub after :
        (before : List R) (r : R) (rest : List R) (n skip : ℕ)
        → rows ≡ before ++ r ∷ rest
        → d.find_many (record {
          take_ = n;
          skip = skip;
          cursor = some (d.id r);
          where_ = w;
          order_by = newest_first;
        })
          ≡ found (take n (drop skip (r ∷ rest)))

  abbrev pub and_then : List R → Option (List R) → Option (List R)
  and_then rows none = none
  and_then rows (some more) = some (rows ++ more)

  abbrev pub collect : Response R → (String → Option (List R)) → Option (List R)
  collect (page rows none) next = some rows
  collect (page rows (some c)) next = and_then rows (next c)
  collect (bad_request m) next = none
  collect internal_error next = none

  -- A client that asks for pages until there is no next one; `none` is an error, or that the number
  -- of requests is used up.
  unfoldable pub fetch_all :
      (String → Option ℤ) → Query → Delegate R → Where → ℕ → Option String → Option (List R)
  unfolding handle_paginated_list
  fetch_all number q d w zero cursor = none
  fetch_all number q d w (suc more) cursor =
      collect (handle_paginated_list number (with_cursor q cursor) d w)
        (λ c. fetch_all number q d w more (some c))

  -- A prefix that is not empty, taken apart at its last row.
  record LastOf (l : ℕ) (rows : List R) : Type ℓ where
    init : List R
    final : R
    taken : take (suc l) rows ≡ init ++ final ∷ []
    whole : rows ≡ init ++ final ∷ drop (suc l) rows
    is_last : last? (take (suc l) rows) ≡ some final

  last_of : (l : ℕ) (rows : List R) → suc l ≤ length rows → LastOf l rows
  last_of l [] h = absurd (omega arith)
  last_of zero (x ∷ xs) h = record {
    init = [];
    final = x;
    taken = refl;
    whole = refl;
    is_last = refl;
  }
  last_of (suc l) (x ∷ []) h = absurd (omega arith)
  last_of (suc l) (x ∷ y ∷ xs) h =
      let p = last_of l (y ∷ xs) (omega arith) in
      record {
        init = x ∷ p.init;
        final = p.final;
        taken = ap (λ ys. x ∷ ys) p.taken;
        whole = ap (λ ys. x ∷ ys) p.whole;
        is_last = p.is_last;
      }

  -- The first page of what is left is all of it.
  answer_whole :
      (d : Delegate R) (l : ℕ) (rest : List R)
      → length rest ≤ l
      → answer d l (found (take (suc l) rest)) ≡ page rest none
  unfolding answer
  answer_whole d l rest h =
      rw (take_all (suc l) rest (omega arith)) (elim (Bool-cases (ltb l (length rest))) [
        | inl more ↦ absurd (ground arith)
        | inr done ↦ rw done refl
      ])

  -- The first page of what is left is a part of it, with the id of its last row.
  answer_part :
      (d : Delegate R) (l : ℕ) (rest : List R) (p : LastOf l rest)
      → suc l < length rest
      → answer d (suc l) (found (take (suc (suc l)) rest))
        ≡ page (take (suc l) rest) (some (d.id p.final))
  unfolding answer
  answer_part d l rest p h =
      let more : ltb (suc l) (length (take (suc (suc l)) rest)) ≡ true =
        rw (length-take (suc (suc l)) rest) (ground arith) in
      rw (more, take-take (suc l) rest, p.is_last) refl

  page_at :
      (number : String → Option ℤ) (q : Query) (d : Delegate R) (w : Where) (l : ℕ)
      → parse_limit number q.limit ≡ some l
      → handle_paginated_list number q d w
        ≡ answer d l (d.find_many (page_args (suc l) (parse_cursor q.cursor) w))
  unfolding handle_paginated_list
  page_at number q d w l limited = rw (limited, handle_paginated_list) refl

  -- The page of a query whose limit and cursor are read.
  page_of :
      (number : String → Option ℤ) (q : Query) (d : Delegate R) (w : Where) (l : ℕ)
      (cursor : Option String) (rest : List R)
      → parse_limit number q.limit ≡ some l
      → parse_cursor q.cursor ≡ cursor
      → Answers d w cursor rest
      → handle_paginated_list number q d w ≡ answer d l (found (take (suc l) rest))
  unfolding handle_paginated_list
  page_of number q d w l cursor rest limited e a =
      rw (limited, e, handle_paginated_list) (ap (answer d l) (a (suc l)))

  module _ (number : String → Option ℤ) (q : Query) (d : Delegate R) (w : Where) (rows : List R)
      (l : ℕ) (limited : parse_limit number q.limit ≡ some (suc l))
      (paginated : IsPaginated d w rows) (named : (r : R) → is_nonempty (d.id r) ≡ true) where
    limited_with :
        (cursor : Option String) → parse_limit number (with_cursor q cursor).limit ≡ some (suc l)
    limited_with none = limited
    limited_with (some c) = limited

    parse_cursor-id : (r : R) → parse_cursor (text (d.id r)) ≡ some (d.id r)
    unfolding parse_cursor
    parse_cursor-id r = rw (named r) refl

    fetch_rest :
        (more : ℕ) (before rest : List R) (cursor : Option String)
        → rows ≡ before ++ rest
        → Answers d w cursor rest
        → parse_cursor (with_cursor q cursor).cursor ≡ cursor
        → length rest < more
        → fetch_all number q d w more cursor ≡ some rest
    unfolding fetch_all
    fetch_rest zero before rest cursor e a read h = absurd (omega arith)
    fetch_rest (suc more) before rest cursor e a read h =
        let next = λ (c : String). fetch_all number q d w more (some c) in
        let got =
          page_of number (with_cursor q cursor) d w (suc l) cursor rest (limited_with cursor) read
            a in
        elim (Bool-cases (ltb (suc l) (length rest))) [
          | inr small ↦ ap (λ r. collect r next) (got ∙ answer_whole d (suc l) rest (ground arith))
          | inl large ↦
              let p = last_of l rest (ground arith) in
              let left = drop (suc l) rest in
              let split =
                e
                ∙ ap (λ ys. before ++ ys) p.whole
                ∙ sym (append_assoc before p.init (p.final ∷ left)) in
              let after = λ (n : ℕ). paginated.after (before ++ p.init) p.final left n 1 split in
              let tail =
                fetch_rest more ((before ++ p.init) ++ p.final ∷ []) left (some (d.id p.final))
                  (split ∙ sym (append_assoc (before ++ p.init) (p.final ∷ []) left)) after
                  (parse_cursor-id p.final) (ground (arith, length-drop (suc l) rest)) in
              ap (λ r. collect r next) (got ∙ answer_part d l rest p (ground arith))
              ∙ ap (and_then (take (suc l) rest)) tail
              ∙ ap some (take-append-drop (suc l) rest)
        ]

  -- A client that starts without a cursor and follows `nextCursor` gets every row of the list once,
  -- in order, and its requests come to an end: one more than there are rows are enough, for every
  -- limit that is accepted.
  pub fetch_all_complete :
      (number : String → Option ℤ) (q : Query) (d : Delegate R) (w : Where) (rows : List R) (l : ℕ)
      → parse_limit number q.limit ≡ some l
      → IsPaginated d w rows
      → ((r : R) → is_nonempty (d.id r) ≡ true)
      → fetch_all number q d w (suc (length rows)) none ≡ some rows
  fetch_all_complete number q d w rows zero limited p named =
      absurd (omega (arith, (parse_limit_bounds number q.limit zero limited).0))
  fetch_all_complete number q d w rows (suc l) limited p named =
      fetch_rest number q d w rows l limited p named (suc (length rows)) [] rows none refl
        (λ n. p.first n 0) no_cursor (omega arith)

  length-answer :
      (d : Delegate R) (l : ℕ) (f : Found R) (rows : List R) (next : Option String)
      → answer d l f ≡ page rows next
      → length rows ≤ l
  unfolding answer
  length-answer d l (found all_rows) rows next h = elim (Bool-cases (ltb l (length all_rows))) [
    | inl more ↦ ground (arith, length-take l all_rows)
    | inr done ↦ ground arith
  ]
  length-answer d l not_found rows next h = ground arith
  length-answer d l failed rows next h = ground arith

  -- A page has at most 100 rows, and at most as many as the limit of the query, whatever the
  -- database answers.
  pub length-page :
      (number : String → Option ℤ) (q : Query) (d : Delegate R) (w : Where) (rows : List R)
      (next : Option String)
      → handle_paginated_list number q d w ≡ page rows next
      → (l : ℕ) × (parse_limit number q.limit ≡ some l) × (length rows ≤ l) × (l ≤ 100)
  unfolding handle_paginated_list
  length-page number q d w rows next h = elim (Option-cases (parse_limit number q.limit)) [
    | inl e ↦ ground arith
    | inr (l, e) ↦ (
      l,
      e,
      length-answer d l (d.find_many (page_args (suc l) (parse_cursor q.cursor) w)) rows next
          (sym (page_at number q d w l e) ∙ h),
      (parse_limit_bounds number q.limit l e).1,
    )
  ]
