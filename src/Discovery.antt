-- ===== src/Discovery.antt =====
-- crates/discovery/src: from the factories' logs to pools in the book.
pub mod Factory
pub mod Reader
pub mod Hydrate
pub mod Aligned
pub mod Service
pub mod Chunks
pub mod Soundness
mod Tests
