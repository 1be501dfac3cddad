-- ===== src/Sdk/MockToken.antt =====
-- The in-memory token client, class `MockBcForgeClient` of sdk/src/mockClient.ts. Its plain
-- objects are dictionaries; a `Set` of roles is a list without repetition. A method takes the
-- client and returns the client it leaves behind with its answer.
pub mod Accounts
pub mod Backing
pub mod Calls
pub mod Display
pub mod Moves
pub mod Roles
use bc_forge.Common.{
  ℕ, Bool, true, false, Option, none, some, List, [], ◌∷◌, String, if◌then◌else◌, ◌===◌, ◌||◌, not,
  any, keep, is_some,
}
use bc_forge.Common.Int.{ℤ, pos, ◌+ℤ◌, leb_ℤ, ltb_ℤ}
use bc_forge.Common.Dict.{Dict, lookup, insert}
use bc_forge.Sdk.Replies.{Reply, done, rejected, threw}
use Accounts.{
  AccountState, balance_of, allowance_of, ensure_account, credit, move_balance, set_allowance,
  spend_allowance,
}

pub record MockBcForgeClient : Type 0 where
  pub accounts : Dict AccountState
  pub roles : Dict (List String)
  pub total_supply : ℤ
  pub name : String
  pub symbol : String
  pub decimals : ℕ
  pub admin_address : String
  pub linked_contracts : Dict String
  pub contract_id : String

-- The constructor and the initial values of the fields.
unfoldable pub new : Option String → MockBcForgeClient
new contract_id = record {
  accounts = [];
  roles = [];
  total_supply = pos 0;
  name = "MockToken";
  symbol = "MOCK";
  decimals = 7;
  admin_address = "GADMIN0000000000000000000000000000000000000000000000000000";
  linked_contracts = [];
  contract_id = elim contract_id [
    | none ↦ "CMOCK000000000000000000000000000000000000000000000000000"
    | some id ↦ id
  ];
}

abbrev pub roles_of : MockBcForgeClient → String → List String
roles_of c a = elim (lookup a c.roles) [ none ↦ [] | some rs ↦ rs ]

abbrev pub holds : String → List String → Bool
holds role rs = any (λ r. r === role) rs

unfoldable pub has_role : MockBcForgeClient → String → String → Bool
has_role c role a = if c.admin_address === a then true else holds role (roles_of c a)

unfoldable pub set_admin : MockBcForgeClient → String → MockBcForgeClient × Reply
set_admin c admin = (record c { admin_address = admin }, done)

unfoldable pub grant_role : MockBcForgeClient → String → String → MockBcForgeClient × Reply
grant_role c role a =
    let rs = roles_of c a in
    (record c { roles = insert a (if holds role rs then rs else role ∷ rs) c.roles }, done)

-- `this.roles[address]?.delete(role)`
abbrev pub delete_role : String → String → Dict (List String) → Dict (List String)
delete_role role a roles = elim (lookup a roles) [
  | none ↦ roles
  | some rs ↦ insert a (keep (λ r. not (r === role)) rs) roles
]

unfoldable pub revoke_role : MockBcForgeClient → String → String → MockBcForgeClient × Reply
revoke_role c role a = (record c { roles = delete_role role a c.roles }, done)

unfoldable pub grant_super_admin : MockBcForgeClient → String → MockBcForgeClient × Reply
unfolding grant_role
grant_super_admin c a = grant_role c "SuperAdmin" a

unfoldable pub revoke_super_admin : MockBcForgeClient → String → MockBcForgeClient × Reply
unfolding revoke_role
revoke_super_admin c a =
    if holds "SuperAdmin" (roles_of c a)
    then revoke_role c "SuperAdmin" a
    else (c, rejected "SuperAdmin role not held")

unfoldable pub mint : MockBcForgeClient → String → ℤ → MockBcForgeClient × Reply
mint c to n = (
  record c {
    accounts = credit to n (ensure_account to c.accounts);
    total_supply = c.total_supply +ℤ n;
  },
  done,
)

-- The loop of `batchMint`.
unfoldable pub mint_all : MockBcForgeClient → List (String × ℤ) → MockBcForgeClient
unfolding mint
mint_all c [] = c
mint_all c ((to, n) ∷ rs) = mint_all (mint c to n).0 rs

unfoldable pub batch_mint : MockBcForgeClient → List (String × ℤ) → MockBcForgeClient × Reply
batch_mint c [] = (c, rejected "Recipients list cannot be empty")
batch_mint c (r ∷ rs) =
    if any (λ (p : String × ℤ). leb_ℤ p.1 (pos 0)) (r ∷ rs)
    then (c, rejected "Mint amount must be positive")
    else (mint_all c (r ∷ rs), done)

-- `Map` and flag: false is a write to an account that does not exist.
abbrev pub with_accounts : MockBcForgeClient → Dict AccountState × Bool → MockBcForgeClient × Reply
with_accounts c (accounts, written) =
    (record c { accounts = accounts }, if written then done else threw)

unfoldable pub transfer : MockBcForgeClient → String → String → ℤ → MockBcForgeClient × Reply
transfer c from to n =
    if ltb_ℤ (balance_of from c.accounts) n
    then (c, rejected "Insufficient balance")
    else with_accounts c (move_balance from to n c.accounts)

unfoldable pub approve : MockBcForgeClient → String → String → ℤ → MockBcForgeClient × Reply
approve c owner spender n =
    (record c { accounts = set_allowance owner spender n (ensure_account owner c.accounts) }, done)

-- The loop of `batchTransfer`; it stops at the write that throws.
unfoldable pub move_all : String → List (String × ℤ) → Dict AccountState → Dict AccountState × Bool
unfolding move_balance
move_all from [] accounts = (accounts, true)
move_all from ((to, n) ∷ rs) accounts =
    let moved = move_balance from to n accounts in
    let rest = move_all from rs moved.0 in if moved.1 then rest else moved

abbrev pub sum_of : List (String × ℤ) → ℤ
sum_of [] = pos 0
sum_of ((_, n) ∷ rs) = n +ℤ sum_of rs

unfoldable pub batch_transfer :
    MockBcForgeClient → String → List (String × ℤ) → MockBcForgeClient × Reply
batch_transfer c from rs =
    if ltb_ℤ (balance_of from c.accounts) (sum_of rs)
    then (c, rejected "Insufficient balance")
    else with_accounts c (move_all from rs c.accounts)

-- The writes of `transferFrom`: the balances first, then the allowance.
unfoldable pub move_allowed :
    String → String → String → ℤ → Dict AccountState → Dict AccountState × Bool
unfolding move_balance spend_allowance
move_allowed owner spender to n accounts =
    let moved = move_balance owner to n accounts in
    if moved.1 then spend_allowance owner spender n moved.0 else moved

unfoldable pub transfer_from :
    MockBcForgeClient → String → String → String → ℤ → MockBcForgeClient × Reply
transfer_from c owner spender to n =
    if ltb_ℤ (allowance_of owner spender c.accounts) n
    then (c, rejected "Insufficient allowance")
    else if ltb_ℤ (balance_of owner c.accounts) n
    then (c, rejected "Insufficient balance")
    else with_accounts c (move_allowed owner spender to n c.accounts)

unfoldable pub update_name : MockBcForgeClient → String → MockBcForgeClient × Reply
update_name c name = (record c { name = name }, done)

unfoldable pub update_symbol : MockBcForgeClient → String → MockBcForgeClient × Reply
update_symbol c symbol = (record c { symbol = symbol }, done)

unfoldable pub set_admin_contract : MockBcForgeClient → String → MockBcForgeClient × Reply
set_admin_contract c id =
    (record c { linked_contracts = insert "admin" id c.linked_contracts }, done)

unfoldable pub set_dependent_token : MockBcForgeClient → String → MockBcForgeClient × Reply
set_dependent_token c id =
    (record c { linked_contracts = insert "token" id c.linked_contracts }, done)

unfoldable pub grant_minter : MockBcForgeClient → String → MockBcForgeClient × Reply
unfolding grant_role
grant_minter c a = grant_role c "Minter" a

unfoldable pub revoke_minter : MockBcForgeClient → String → MockBcForgeClient × Reply
unfolding revoke_role
revoke_minter c a = revoke_role c "Minter" a

-- `initRbac`: the answers `migrate` and `grant`.
unfoldable pub init_rbac : MockBcForgeClient → String → MockBcForgeClient × (Reply × Reply)
unfolding grant_super_admin
init_rbac c a = let granted = grant_super_admin c a in (granted.0, (done, granted.1))
