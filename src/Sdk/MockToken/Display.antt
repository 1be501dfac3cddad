-- ===== src/Sdk/MockToken/Display.antt =====
-- The balance that the in-memory token client displays (sdk/src/mockClient.ts, `getBalance`).
use bc_forge.Common.{String}
use bc_forge.Common.Decimal.{Text}
use bc_forge.Sdk.Amounts.{format_atomic_amount}
use bc_forge.Sdk.MockToken.{MockBcForgeClient}
use bc_forge.Sdk.MockToken.Accounts.{balance_of}

-- `getBalance`
unfoldable pub get_balance : MockBcForgeClient → String → Text
unfolding format_atomic_amount
get_balance c address = format_atomic_amount (balance_of address c.accounts) c.decimals
