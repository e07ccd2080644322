-- ===== src/Types.antt =====
-- The data of crates/types: what ingest, decision and execution exchange.
pub mod Ingest
pub mod Decision
pub mod Execution
pub use Ingest.*
pub use Decision.*
pub use Execution.*
