-- ===== src/Sdk/MockToken/Calls.antt =====
-- Sequences of calls of the in-memory token client (class `MockBcForgeClient` of
-- sdk/src/mockClient.ts).
use bc_forge.Common.{
  ◌≡◌, ◌∙◌, sym, refl, true, false, List, [], ◌∷◌, String, arith, inl, inr, Bool-cases,
}
use bc_forge.Common.Int.{ℤ}
use bc_forge.Common.Dict.{Dict}
use bc_forge.Sdk.Replies.{Reply, replied, threw, is_refusal, has_succeeded}
use bc_forge.Sdk.MockToken
use bc_forge.Sdk.MockToken.{
  MockBcForgeClient, mint_all, move_all, move_allowed, holds, roles_of, sum_of,
}
use bc_forge.Sdk.MockToken.Accounts.{AccountState, move_balance, ensure_account}
use bc_forge.Sdk.MockToken.Backing.{
  balances, balances-mint, balances-move_balance, balances-set_allowance, balances-spend_allowance,
  balances-ensure_account,
}

-- The calls that change the client.
pub data Call : Type 0 where
  set_admin : String → Call
  grant_role : String → String → Call
  revoke_role : String → String → Call
  revoke_super_admin : String → Call
  mint : String → ℤ → Call
  batch_mint : List (String × ℤ) → Call
  transfer : String → String → ℤ → Call
  approve : String → String → ℤ → Call
  batch_transfer : String → List (String × ℤ) → Call
  transfer_from : String → String → String → ℤ → Call
  update_name : String → Call
  update_symbol : String → Call
  set_admin_contract : String → Call
  set_dependent_token : String → Call

unfoldable pub call : MockBcForgeClient → Call → MockBcForgeClient × Reply
unfolding MockToken.set_admin MockToken.grant_role MockToken.revoke_role
    MockToken.revoke_super_admin MockToken.mint MockToken.batch_mint MockToken.transfer
    MockToken.approve MockToken.batch_transfer MockToken.transfer_from MockToken.update_name
    MockToken.update_symbol MockToken.set_admin_contract MockToken.set_dependent_token
call c (set_admin a) = MockToken.set_admin c a
call c (grant_role r a) = MockToken.grant_role c r a
call c (revoke_role r a) = MockToken.revoke_role c r a
call c (revoke_super_admin a) = MockToken.revoke_super_admin c a
call c (mint to n) = MockToken.mint c to n
call c (batch_mint rs) = MockToken.batch_mint c rs
call c (transfer from to n) = MockToken.transfer c from to n
call c (approve owner spender n) = MockToken.approve c owner spender n
call c (batch_transfer from rs) = MockToken.batch_transfer c from rs
call c (transfer_from owner spender to n) = MockToken.transfer_from c owner spender to n
call c (update_name s) = MockToken.update_name c s
call c (update_symbol s) = MockToken.update_symbol c s
call c (set_admin_contract id) = MockToken.set_admin_contract c id
call c (set_dependent_token id) = MockToken.set_dependent_token c id

-- The client after the calls, whatever they answered.
unfoldable pub run : MockBcForgeClient → List Call → MockBcForgeClient
unfolding call
run c [] = c
run c (k ∷ ks) = run (call c k).0 ks

-- The supply is the sum of the balances.
abbrev pub IsBacked : MockBcForgeClient → Type 0
IsBacked c = c.total_supply ≡ balances c.accounts

mint_all-IsBacked :
    (c : MockBcForgeClient) (rs : List (String × ℤ)) → IsBacked c → IsBacked (mint_all c rs)
unfolding mint_all MockToken.mint
mint_all-IsBacked c [] h = h
mint_all-IsBacked c ((to, n) ∷ rs) h =
    mint_all-IsBacked (MockToken.mint c to n).0 rs (rw (balances-mint to n c.accounts, h) refl)

balances-move_all :
    (from : String) (rs : List (String × ℤ)) (d : Dict AccountState)
    → balances (move_all from rs d).0 ≡ balances d
unfolding move_all
balances-move_all from [] d = refl
balances-move_all from ((to, n) ∷ rs) d =
    let moved = move_balance from to n d in
    let kept = balances-move_balance from to n d in
    elim (Bool-cases moved.1) [
      | inl e ↦ rw (e, move_all) (balances-move_all from rs moved.0 ∙ kept)
      | inr e ↦ rw (e, move_all) kept
    ]

balances-move_allowed :
    (owner spender to : String) (n : ℤ) (d : Dict AccountState)
    → balances (move_allowed owner spender to n d).0 ≡ balances d
unfolding move_allowed
balances-move_allowed owner spender to n d =
    let moved = move_balance owner to n d in
    let kept = balances-move_balance owner to n d in
    elim (Bool-cases moved.1) [
      | inl e ↦ rw (e, move_allowed) (balances-spend_allowance owner spender n moved.0 ∙ kept)
      | inr e ↦ rw (e, move_allowed) kept
    ]

call-IsBacked : (c : MockBcForgeClient) (k : Call) → IsBacked c → IsBacked (call c k).0
unfolding call MockToken.revoke_super_admin MockToken.mint MockToken.batch_mint MockToken.transfer
    MockToken.approve MockToken.batch_transfer MockToken.transfer_from
call-IsBacked c (set_admin a) h = h
call-IsBacked c (grant_role r a) h = h
call-IsBacked c (revoke_role r a) h = h
call-IsBacked c (revoke_super_admin a) h = ground arith
call-IsBacked c (mint to n) h = rw (balances-mint to n c.accounts, h) refl
call-IsBacked c (batch_mint []) h = h
call-IsBacked c (batch_mint (r ∷ rs)) h = ground (arith, mint_all-IsBacked c (r ∷ rs) h)
call-IsBacked c (transfer from to n) h = ground (arith, balances-move_balance from to n c.accounts)
call-IsBacked c (approve owner spender n) h =
    h
    ∙ sym (balances-ensure_account owner c.accounts)
    ∙ sym (balances-set_allowance owner spender n (ensure_account owner c.accounts))
call-IsBacked c (batch_transfer from rs) h = ground (arith, balances-move_all from rs c.accounts)
call-IsBacked c (transfer_from owner spender to n) h =
    ground (arith, balances-move_allowed owner spender to n c.accounts)
call-IsBacked c (update_name s) h = h
call-IsBacked c (update_symbol s) h = h
call-IsBacked c (set_admin_contract id) h = h
call-IsBacked c (set_dependent_token id) h = h

-- Whatever calls are made from a client whose supply is the sum of its balances, rejected calls and
-- calls that throw half way among them, the supply stays the sum of the balances.
pub run-IsBacked : (c : MockBcForgeClient) (ks : List Call) → IsBacked c → IsBacked (run c ks)
unfolding run
run-IsBacked c [] h = h
run-IsBacked c (k ∷ ks) h = run-IsBacked (call c k).0 ks (call-IsBacked c k h)

-- How a call ends, by its answer: with success; refused, with the client as it was; or thrown, with
-- at most other accounts, of which a part may be written.
pub data CallOutcome (c c' : MockBcForgeClient) (r : Reply) : Type 0 where
  succeeded : has_succeeded r ≡ true → CallOutcome c c' r
  refused : is_refusal r ≡ true → c' ≡ c → CallOutcome c c' r
  thrown : r ≡ threw → c' ≡ record c { accounts = c'.accounts } → CallOutcome c c' r

call-refused :
    (c : MockBcForgeClient) (k : Call) → is_refusal (call c k).1 ≡ true → (call c k).0 ≡ c
unfolding call MockToken.set_admin MockToken.grant_role MockToken.revoke_role
    MockToken.revoke_super_admin MockToken.mint MockToken.batch_mint MockToken.transfer
    MockToken.approve MockToken.batch_transfer MockToken.transfer_from MockToken.update_name
    MockToken.update_symbol MockToken.set_admin_contract MockToken.set_dependent_token
call-refused c (set_admin a) h = ground arith
call-refused c (grant_role r a) h = ground arith
call-refused c (revoke_role r a) h = ground arith
call-refused c (revoke_super_admin a) h = ground arith
call-refused c (mint to n) h = ground arith
call-refused c (batch_mint []) h = refl
call-refused c (batch_mint (r ∷ rs)) h = ground arith
call-refused c (transfer from to n) h = ground arith
call-refused c (approve owner spender n) h = ground arith
call-refused c (batch_transfer from rs) h = ground arith
call-refused c (transfer_from owner spender to n) h = ground arith
call-refused c (update_name s) h = ground arith
call-refused c (update_symbol s) h = ground arith
call-refused c (set_admin_contract id) h = ground arith
call-refused c (set_dependent_token id) h = ground arith

call-failed :
    (c : MockBcForgeClient) (k : Call)
    → has_succeeded (call c k).1 ≡ false
    → (call c k).0 ≡ record c { accounts = (call c k).0.accounts }
unfolding call MockToken.set_admin MockToken.grant_role MockToken.revoke_role
    MockToken.revoke_super_admin MockToken.mint MockToken.batch_mint MockToken.transfer
    MockToken.approve MockToken.batch_transfer MockToken.transfer_from MockToken.update_name
    MockToken.update_symbol MockToken.set_admin_contract MockToken.set_dependent_token
call-failed c (set_admin a) h = ground arith
call-failed c (grant_role r a) h = ground arith
call-failed c (revoke_role r a) h = ground arith
call-failed c (revoke_super_admin a) h = ground arith
call-failed c (mint to n) h = ground arith
call-failed c (batch_mint []) h = refl
call-failed c (batch_mint (r ∷ rs)) h = ground arith
call-failed c (transfer from to n) h = ground arith
call-failed c (approve owner spender n) h = ground arith
call-failed c (batch_transfer from rs) h = ground arith
call-failed c (transfer_from owner spender to n) h = ground arith
call-failed c (update_name s) h = ground arith
call-failed c (update_symbol s) h = ground arith
call-failed c (set_admin_contract id) h = ground arith
call-failed c (set_dependent_token id) h = ground arith

ends :
    (c c' : MockBcForgeClient) (r : Reply)
    → (is_refusal r ≡ true → c' ≡ c)
    → (has_succeeded r ≡ false → c' ≡ record c { accounts = c'.accounts })
    → CallOutcome c c' r
ends c c' threw refusal failure = thrown refl (failure refl)
ends c c' (replied t) refusal failure = elim (Bool-cases t.success) [
  | inl e ↦ succeeded e
  | inr e ↦ let no : is_refusal (replied t) ≡ true = ground arith in refused no (refusal no)
]

-- A call that is answered without success leaves the client as it was; one that throws writes
-- nothing but accounts: the supply, the roles, the names and the links are as they were.
pub call-CallOutcome : (c : MockBcForgeClient) (k : Call) → CallOutcome c (call c k).0 (call c k).1
call-CallOutcome c k = ends c (call c k).0 (call c k).1 (call-refused c k) (call-failed c k)
