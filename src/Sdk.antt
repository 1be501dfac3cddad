-- ===== src/Sdk.antt =====
-- The SDK (sdk/src): the in-memory clients of sdk/src/mockClient.ts, the contract errors of
-- sdk/src/errors.ts and the submission of transactions of sdk/src/utils.ts.
pub mod Replies
pub mod MockToken
pub mod MockVault
pub mod Errors
pub mod Submit
pub mod Amounts
pub mod Client
pub mod Events
mod Tests
