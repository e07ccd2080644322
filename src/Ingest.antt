-- ===== src/Ingest.antt =====
-- crates/ingest/src/raw: what is decoded of the raw messages of a node.
pub mod Json
pub mod Events
pub mod Log
pub mod Calls
pub mod Swap
pub mod Transaction
mod Tests
