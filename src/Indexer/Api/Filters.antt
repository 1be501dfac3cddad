-- ===== src/Indexer/Api/Filters.antt =====
-- Which rows the filters of the lists accept (indexer/src/api.ts, `buildMintWhere` and the others),
-- by Prisma's reading of `AND`, `OR`, equality and `gte`.
use bc_forge.Common.{
  ℕ, ◌≡◌, Bool, true, ◌&&◌, ◌||◌, Option, none, some, List, [], ◌∷◌, String, ◌===◌, leb, all, any,
  arith,
}
use bc_forge.Indexer.Api.{
  Condition, is, either, since, Where, everything, one, all_of, Route, mints, transfers, burns,
  vault_deposits, wrapper_updates, vesting_claims, split_distributions, holders, supply_history,
  where_for, build_mint_where, build_transfer_where, build_burn_where, build_address_field_where,
  build_holder_where, build_supply_point_where,
}

-- What the filters read of a row.
pub record RowView : Type 0 where
  pub column : String → String
  pub ledger : ℕ

abbrev pub holds : RowView → Condition → Bool
holds r (is c a) = r.column c === a
holds r (either c d a) = r.column c === a || r.column d === a
holds r (since n) = leb n r.ledger

abbrev pub accepts : Where → RowView → Bool
accepts everything r = true
accepts (one c) r = holds r c
accepts (all_of cs) r = all (holds r) cs

-- The columns that hold addresses, by list.
abbrev pub address_columns : Route → List String
address_columns mints = "to" ∷ []
address_columns transfers = "from" ∷ "to" ∷ []
address_columns burns = "from" ∷ []
address_columns vault_deposits = "caller" ∷ []
address_columns wrapper_updates = "caller" ∷ []
address_columns vesting_claims = "beneficiary" ∷ []
address_columns split_distributions = "recipient" ∷ []
address_columns holders = "address" ∷ []
address_columns supply_history = []

-- The address stands in one of the columns; a list without address columns takes all rows.
abbrev pub has_address : List String → Option String → RowView → Bool
has_address [] address r = true
has_address (c ∷ cs) none r = true
has_address (c ∷ cs) (some a) r = any (λ c. r.column c === a) (c ∷ cs)

abbrev pub is_since : Option ℕ → RowView → Bool
is_since none r = true
is_since (some n) r = leb n r.ledger

-- The filter of each list accepts a row exactly if the address that is asked for, if any, stands in
-- one of the list's address columns, and the ledger is at least the one asked for, if any.
pub accepts-where_for :
    (route : Route) (address : Option String) (from_ledger : Option ℕ) (r : RowView)
    → accepts (where_for route address from_ledger) r
      ≡ (has_address (address_columns route) address r && is_since from_ledger r)
unfolding where_for build_mint_where build_transfer_where build_burn_where build_address_field_where
    build_holder_where build_supply_point_where
accepts-where_for mints none none r = ground arith
accepts-where_for mints none (some n) r = ground arith
accepts-where_for mints (some a) none r = ground arith
accepts-where_for mints (some a) (some n) r = ground arith
accepts-where_for transfers none none r = ground arith
accepts-where_for transfers none (some n) r = ground arith
accepts-where_for transfers (some a) none r = ground arith
accepts-where_for transfers (some a) (some n) r = ground arith
accepts-where_for supply_history none none r = ground arith
accepts-where_for supply_history none (some n) r = ground arith
accepts-where_for supply_history (some a) none r = ground arith
accepts-where_for supply_history (some a) (some n) r = ground arith
accepts-where_for route none none r = ground arith
accepts-where_for route none (some n) r = ground arith
accepts-where_for route (some a) none r = ground arith
accepts-where_for route (some a) (some n) r = ground arith
