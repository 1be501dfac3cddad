-- ===== src/Indexer/Api.antt =====
-- The read interface of the indexer, indexer/src/api.ts: its query parameters, filters, pages and
-- routes. Prisma's `findMany` is a parameter, and so is `Number` of a text, which gives an integer
-- or `none`.
pub mod Filters
pub mod Pages
pub mod Access
use bc_forge.Common.{
  ℕ, suc, min, Bool, true, false, ◌&&◌, ◌||◌, Option, none, some, List, [], ◌∷◌, String,
  if◌then◌else◌, ◌===◌, ltb, leb, length, take, last?, all, is_nonempty,
}
use bc_forge.Common.Int.{ℤ, pos, pos_part, ltb_ℤ}

-- A query parameter: absent, a text, a list of which `none` stands for what is no text, or an
-- object.
pub data Param : Type 0 where
  absent : Param
  text : String → Param
  items : List (Option String) → Param
  nested : Param

pub record Query : Type 0 where
  pub limit : Param
  pub cursor : Param
  pub address : Param
  pub from_ledger : Param

-- `Array.isArray(raw) ? raw[0] : raw`, if it is a text.
abbrev pub first_text : Param → Option String
first_text absent = none
first_text (text s) = some s
first_text (items []) = none
first_text (items (v ∷ vs)) = v
first_text nested = none

abbrev pub default_limit : ℕ
default_limit = 50

abbrev pub max_limit : ℕ
max_limit = 100

abbrev pub is_absent : Param → Bool
is_absent absent = true
is_absent (text s) = false
is_absent (items vs) = false
is_absent nested = false

-- The limit that an integer asks for.
abbrev pub capped_limit : Option ℤ → Option ℕ
capped_limit none = none
capped_limit (some n) = if ltb_ℤ n (pos 1) then none else some (min (pos_part n) max_limit)

-- `Number(value)` as an integer.
abbrev pub number_of_text : (String → Option ℤ) → Option String → Option ℤ
number_of_text number none = none
number_of_text number (some s) = number s

unfoldable pub parse_limit : (String → Option ℤ) → Param → Option ℕ
parse_limit number p =
    if is_absent p then some default_limit else capped_limit (number_of_text number (first_text p))

-- `parseCursor` and `parseAddress`: no value, a value that is no text and an empty text are alike.
abbrev pub nonempty_text : Option String → Option String
nonempty_text none = none
nonempty_text (some s) = if is_nonempty s then some s else none

unfoldable pub parse_cursor : Param → Option String
parse_cursor p = nonempty_text (first_text p)

unfoldable pub parse_address : Param → Option String
parse_address p = nonempty_text (first_text p)

abbrev pub natural_of : Option ℤ → Option (Option ℕ)
natural_of none = none
natural_of (some n) = if ltb_ℤ n (pos 0) then none else some (some (pos_part n))

-- `none` is an invalid value, `some none` an absent one.
unfoldable pub parse_from_ledger : (String → Option ℤ) → Param → Option (Option ℕ)
parse_from_ledger number p =
    if is_absent p then some none else natural_of (number_of_text number (first_text p))

-- The conditions of the filters: a column is the text, one of two columns is, the ledger is at
-- least the number.
pub data Condition : Type 0 where
  is : String → String → Condition
  either : String → String → String → Condition
  since : ℕ → Condition

pub data Where : Type 0 where
  everything : Where
  one : Condition → Where
  all_of : List Condition → Where

-- The end of each `build…Where`.
abbrev pub where_of : List Condition → Where
where_of [] = everything
where_of (c ∷ []) = one c
where_of (c ∷ d ∷ cs) = all_of (c ∷ d ∷ cs)

abbrev pub since_if : Option ℕ → List Condition
since_if none = []
since_if (some n) = since n ∷ []

unfoldable pub build_address_field_where : String → Option String → Option ℕ → Where
build_address_field_where field none ledger = where_of (since_if ledger)
build_address_field_where field (some a) ledger = where_of (is field a ∷ since_if ledger)

unfoldable pub build_mint_where : Option String → Option ℕ → Where
build_mint_where none ledger = where_of (since_if ledger)
build_mint_where (some a) ledger = where_of (is "to" a ∷ since_if ledger)

unfoldable pub build_transfer_where : Option String → Option ℕ → Where
build_transfer_where none ledger = where_of (since_if ledger)
build_transfer_where (some a) ledger = where_of (either "from" "to" a ∷ since_if ledger)

unfoldable pub build_burn_where : Option String → Option ℕ → Where
build_burn_where none ledger = where_of (since_if ledger)
build_burn_where (some a) ledger = where_of (is "from" a ∷ since_if ledger)

unfoldable pub build_holder_where : Option String → Option ℕ → Where
build_holder_where none ledger = where_of (since_if ledger)
build_holder_where (some a) ledger = where_of (is "address" a ∷ since_if ledger)

unfoldable pub build_supply_point_where : Option ℕ → Where
build_supply_point_where none = everything
build_supply_point_where (some n) = one (since n)

-- The answer of `findMany`; `not_found` is the error P2025, `failed` any other.
pub data Found {ℓ} (R : Type ℓ) : Type ℓ where
  found : List R → Found R
  not_found : Found R
  failed : Found R

pub data Direction : Type 0 where
  asc : Direction
  desc : Direction

-- The arguments of `findMany`; `skip` is 0 where it is not given.
pub record FindManyArgs : Type 0 where
  pub take_ : ℕ
  pub skip : ℕ
  pub cursor : Option String
  pub where_ : Where
  pub order_by : List (String × Direction)

-- A model of Prisma.
pub record Delegate {ℓ} (R : Type ℓ) : Type ℓ where
  pub id : R → String
  pub find_many : FindManyArgs → Found R

abbrev pub newest_first : List (String × Direction)
newest_first = ("createdAt", desc) ∷ ("id", desc) ∷ []

-- The arguments of a page, by the number of rows and the cursor.
abbrev pub page_args : ℕ → Option String → Where → FindManyArgs
page_args n none w = record {
  take_ = n;
  skip = 0;
  cursor = none;
  where_ = w;
  order_by = newest_first;
}
page_args n (some c) w = record {
  take_ = n;
  skip = 1;
  cursor = some c;
  where_ = w;
  order_by = newest_first;
}

pub data Response {ℓ} (R : Type ℓ) : Type ℓ where
  bad_request : String → Response R
  page : List R → Option String → Response R
  internal_error : Response R

module _ {ℓ} {R : Type ℓ} where
  abbrev pub id_of_last : Delegate R → Option R → Option String
  id_of_last d none = none
  id_of_last d (some r) = some (d.id r)

  -- The answer to `limit + 1` rows.
  unfoldable pub answer : Delegate R → ℕ → Found R → Response R
  answer d limit (found rows) =
      if ltb limit (length rows)
      then page (take limit rows) (id_of_last d (last? (take limit rows)))
      else page rows none
  answer d limit not_found = bad_request "Invalid cursor"
  answer d limit failed = internal_error

  -- `handlePaginatedList`
  unfoldable pub handle_paginated_list :
      (String → Option ℤ) → Query → Delegate R → Where → Response R
  unfolding parse_limit parse_cursor answer
  handle_paginated_list number q d w = elim (parse_limit number q.limit) [
    | none ↦ bad_request "Invalid limit: must be an integer >= 1"
    | some limit ↦ answer d limit (d.find_many (page_args (suc limit) (parse_cursor q.cursor) w))
  ]

-- The lists of the interface.
pub data Route : Type 0 where
  mints : Route
  transfers : Route
  burns : Route
  vault_deposits : Route
  wrapper_updates : Route
  vesting_claims : Route
  split_distributions : Route
  holders : Route
  supply_history : Route

unfoldable pub where_for : Route → Option String → Option ℕ → Where
unfolding build_mint_where build_transfer_where build_burn_where build_address_field_where
    build_holder_where build_supply_point_where
where_for mints a n = build_mint_where a n
where_for transfers a n = build_transfer_where a n
where_for burns a n = build_burn_where a n
where_for vault_deposits a n = build_address_field_where "caller" a n
where_for wrapper_updates a n = build_address_field_where "caller" a n
where_for vesting_claims a n = build_address_field_where "beneficiary" a n
where_for split_distributions a n = build_address_field_where "recipient" a n
where_for holders a n = build_holder_where a n
where_for supply_history a n = build_supply_point_where n

-- The handler of a list.
unfoldable pub handle_route {ℓ} :
    {R : Type ℓ} → (String → Option ℤ) → Route → Query → Delegate R → Response R
unfolding parse_from_ledger parse_address where_for handle_paginated_list
handle_route number route q d = elim (parse_from_ledger number q.from_ledger) [
  | none ↦ bad_request "Invalid from_ledger: must be a non-negative integer"
  | some n ↦ handle_paginated_list number q d (where_for route (parse_address q.address) n)
]
