-- ===== src/App/Tests.antt =====
-- Runs of the engine, and the witnesses of what is proved of it.
mod Started
mod Driven
mod Sent
