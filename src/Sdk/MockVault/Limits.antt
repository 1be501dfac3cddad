-- ===== src/Sdk/MockVault/Limits.antt =====
-- What the in-memory vault reports of a rate limit that was set (sdk/src/mockClient.ts,
-- `setRateLimitStatus` and `getRateLimitStatus`).
use bc_forge.Common.{◌≡◌, ap, ◌↔◌, true, Option, none, some, String, arith, eq_iff, if◌then◌else◌}
use bc_forge.Common.Int.{ℤ, pos, pos_part, neg_part, ◌-ℤ◌, ◌+ℤ◌, ◌≤ℤ◌, leb_ℤ, int_laws}
use bc_forge.Common.Dict.{lookup-insert}
use bc_forge.Sdk.MockVault.{
  MockVaultClient, RateLimit, RateLimitStatus, set_rate_limit_status, get_rate_limit_status,
}

abbrev limit_of : ℤ → ℤ → ℤ → Option ℤ → RateLimit
limit_of limit window usage cooldown = record {
  limit = limit;
  window_seconds = window;
  current_usage = usage;
  cooldown_seconds = elim cooldown [ none ↦ pos 0 | some s ↦ s ];
}

-- A difference that is not positive, and the difference as the missing part.
-ℤ_zero : (a b : ℤ) → ((a -ℤ b ≡ pos 0) → a ≤ℤ b) × (a -ℤ b +ℤ b ≡ a) × (pos 0 +ℤ b ≡ b)
-ℤ_zero a b = (λ e. omega (int_laws, ap pos_part e, ap neg_part e), omega int_laws, omega int_laws)

-- After `setRateLimitStatus`, an address is throttled exactly if its usage has reached the limit,
-- exactly if no quota remains, and the remaining quota and the usage add up to the limit, or to the
-- usage once it is over the limit.
pub get-set_rate_limit_status :
    (c : MockVaultClient) (a : String) (limit window usage : ℤ) (cooldown : Option ℤ)
    (s : RateLimitStatus)
    → get_rate_limit_status (set_rate_limit_status c a limit window usage cooldown) a ≡ s
    → ((s.is_throttled ≡ true) ↔ (limit ≤ℤ usage))
      × ((s.is_throttled ≡ true) ↔ (s.remaining_quota ≡ pos 0))
      × (s.remaining_quota +ℤ usage ≡ (if leb_ℤ limit usage then usage else limit))
unfolding get_rate_limit_status set_rate_limit_status
get-set_rate_limit_status c a limit window usage cooldown s h = ground (
  arith,
  lookup-insert a a (limit_of limit window usage cooldown) c.mock_rate_limits,
  eq_iff a a,
  -ℤ_zero limit usage,
)
