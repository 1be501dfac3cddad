-- ===== src/Sdk/Events.antt =====
-- The events of the contracts as the SDK reads them (sdk/src/events.ts): the data tuples, the
-- decoding of events, the polling listeners.
pub mod Data
pub mod Decoding
pub mod Listeners
pub mod Once
pub mod Transactions
pub mod Reported
pub mod Cursor
