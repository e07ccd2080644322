-- ===== src/Markets.antt =====
-- crates/markets: pool state, quote math and the pool book.
pub mod Error
pub mod V2
pub mod V3
pub mod Book
