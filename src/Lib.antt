-- ===== src/Lib.antt =====
-- bc-forge: a development beside the TypeScript code of the repository.
--
-- The program has an indexer (indexer/src) that follows a Soroban contract's events from a Stellar
-- RPC node into a database, an SDK (sdk/src) through which clients read and change the contracts,
-- a command line interface (cli/src) and a React client. Parts modelled:
--
--   Common          Boolean tests, lists, bigint, JavaScript maps and their sums, BigInt(text) and
--                   toString, text search.
--   Indexer.Ledger  indexer/src/ledger.ts: toBigInt, fromBigInt, deltasFor, supplyDeltaFor,
--                   applyLedgerEvent, foldLedgerEvents, on an association list of balances.
--   Indexer.Aggregates
--                   indexer/src/aggregates.ts: applyLedgerEventAggregates and resolveSupply, on the
--                   Holder and SupplyPoint tables.
--   Indexer.Database
--                   the tables of indexer/prisma/schema.prisma as a record of lists of rows.
--   Indexer.Cursor  indexer/src/cursor.ts: hasContinuousParentChain, seedLedgerCheckpoints,
--                   reconcileLedgerCursor.
--   Indexer.Events, Indexer.Process
--                   indexer/src/indexer.ts: processEvent, all topics, persistEventRow,
--                   persistIndexedRow; the vendor's scValToNative is not read: an event carries the
--                   decoded data tuple.
--   Indexer.Loop    indexer/src/indexer.ts: runIndexer as a step from round to round; what the RPC
--                   node answers is a parameter of the step.
--
--   Indexer.Api     indexer/src/api.ts: the token check, the query parameters, the filters, the pages
--                   and the nine lists. Prisma's findMany, Number of a text, Buffer and timingSafeEqual
--                   are parameters.
--   Indexer.Webhooks
--                   indexer/src/api.ts and indexer/src/events.ts: registration and removal of webhooks,
--                   delivery of an event. URL, fetch and the ids of new rows are parameters.
--
--   Sdk.MockToken, Sdk.MockVault
--                   sdk/src/mockClient.ts: the in-memory clients MockBcForgeClient and
--                   MockVaultClient. A method gives the client it leaves and its answer; a write to
--                   an object that does not exist throws, and what was written before it stays.
--   Sdk.Errors      sdk/src/errors.ts: the contract errors, their maps, parseContractError.
--   Sdk.Submit      sdk/src/utils.ts: submitTransaction, with the server's answers and the building
--                   of transactions as parameters that answer by the number of the attempt.
--   Sdk.Amounts     sdk/src/utils.ts: formatAtomicAmount.
--   Sdk.Client      sdk/src/client.ts: the ledger cache of the reads (getCachedRead), executeBatch,
--                   verifyInitializedState on the answers of its queries.
--   Sdk.Events      sdk/src/events.ts: the tuple decoders, decodeEvent, decodeSimulationEvents, and
--                   subscribeEvents, onMint, onTransfer, onVaultDeposit as functions of the answers of
--                   getEvents. A callback is a test that is false where it throws.
--   Cli.Names, Cli.Registry
--                   cli/src/network.ts and cli/src/utils/registry.ts: the network names, the registry
--                   of contract ids; a file is missing, no JSON object, or a document.
--   Cli.Multisig    cli/src/utils/multisig.ts: runMultisigCommand on a client, files and a key parser
--                   that are parameters.
--   Cli.Upgrade     cli/src/commands/upgrade.ts and cli/src/utils/upgrade-history.ts: runUpgrade and the
--                   history file; the server's answers are a parameter, messages are left out.
--   Cli.Addresses   cli/src/utils/address-book.ts: the accounts of the config file and of the project,
--                   saveAccount, removeAccount, resolveAccount, resolveAccountReference.
--   Cli.Pause       cli/src/utils/pause.ts: runPauseCommand, on a client and files that are parameters.
--   Migration       migrations/rbac-migration.ts: withRetry, the queries, migrateContract and
--                   dryRunMigration, on a server with a state of its own and a trace of its calls.
--
-- Calls that throw return `none` or an error of the model's own. Amounts are unbounded integers, as
-- bigint is; ledger numbers are natural numbers, since the code keeps them far below 2 ^ 53. The
-- database's generated ids and the close time of a ledger are inputs of the step that uses them.
-- The loop of the indexer never ends, so it is one round at a time. The attempts of a submission are
-- counted down from the largest number that the options allow, and the polling from the 30 of the
-- code, so no fuel is added; the retries and polls of the migration and the attempts of a delivery
-- are counted down from the numbers of the code in the same way. A client of the lists that follows
-- nextCursor is given a number of requests, and one more than there are rows is enough; the batches of
-- a client are given a number of turns, and one for each item is enough. Every other
-- loop runs over a list. Keys of JavaScript objects are
-- addresses and role names, never names that every object has.
--
-- A vault share price and a payout are quotients that drop the fraction; a division by zero throws.
--
-- Not modelled: logging, metrics, health and rate limits of the indexer, its event stream and /stats;
-- what else of the SDK clients calls the vendor's RPC library, and the APY calculation; the rest of
-- the command line interface (cli/src); the generated bindings (sdk/src/generated), the user
-- interface (react), the Rust contracts (contracts), and the scripts.
pub mod Cli
pub mod Common
pub mod Indexer
pub mod Migration
pub mod Sdk
