-- ===== src/App.antt =====
-- crates/app/src/main.rs: from an ingest event to the end of an execution attempt.
pub mod Steps
pub mod Drive
pub mod Pipeline
pub mod Bootstrap
pub mod Start
pub mod Ends
pub mod Breaker
pub mod Ensures
pub mod Due
pub mod Settled
pub mod Justified
pub mod Kept
pub mod Sends
pub mod Grows
pub mod Delivery
mod Fixture
mod Tests
