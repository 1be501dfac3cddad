-- ===== src/Indexer.antt =====
-- The event indexer (indexer/src): ledger arithmetic, persisted aggregates, the database, the
-- ledger cursor with its reorganisation handling, event processing and the ingestion loop.
pub mod Ledger
pub mod Aggregates
pub mod Database
pub mod Cursor
pub mod Events
pub mod Process
pub mod Loop
pub mod Api
pub mod Webhooks
mod Tests
