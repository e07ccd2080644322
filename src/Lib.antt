-- ===== src/Lib.antt =====
-- Verification library of the Base execution engine, the Rust workspace under crates/.
--
-- The engine decodes the raw logs and transactions of a node (crates/ingest, with the tables of
-- crates/registry), keeps a book of pools that it updates from the logs (crates/markets), looks in it for
-- two-leg loops, simulates them and passes them through a risk engine (crates/decision), and turns an
-- accepted one into a transaction whose attempt it follows to the end (crates/execution). At the start
-- the book holds the pools of a file and those that a scan of factories finds (crates/discovery). The
-- files:
--
--   Base            Result and Option, words, texts, maps, sorting: what every other file shares
--   Types           crates/types: the data that the crates exchange
--   Registry        crates/registry/src: the tables of known contracts, signatures and selectors
--   Ingest/Log      crates/ingest/src/raw/log.rs, with its events in Ingest/Events; Ingest/Json is mod.rs
--   Ingest/Transaction  crates/ingest/src/raw/transaction.rs; Ingest/Calls holds the calls that it
--                   decodes, Ingest/Swap the swap that is made of each
--   Markets/V2      crates/markets/src/lib.rs: V2PoolState, its Sync logs and its quote
--   Markets/V3      crates/markets/src/v3.rs: V3PoolState, its Swap logs and its in-range quote
--   Markets/Book    crates/markets/src/lib.rs: PoolState and PoolBook, with reorganisations
--   Risk            crates/decision/src/risk.rs: RiskPolicy, RiskState and RiskEngine; Policy
--                   reads the policy from its configuration
--   Decision        crates/decision/src/lib.rs: detection, simulation and the execution request
--   Execution       crates/execution/src/lib.rs: preparation and the life cycle of an attempt; Payload
--                   is the router plan, Run is execute_with_transport
--   Execution/Gas   crates/execution/src/gas.rs
--   Execution/Nonce crates/execution/src/nonce.rs
--   Execution/Submit  crates/execution/src/submit.rs: submit_inner; Execution/Receipt is its polling
--                   of receipts and its simulation
--   Discovery       crates/discovery/src: Factory is factory.rs, Reader the scans of reader.rs and
--                   Hydrate its multicalls, Service is service.rs with v2.rs and v3.rs
--   App             crates/app/src/main.rs: Bootstrap and Start are the start, Pipeline the
--                   handling of an event, Drive the life of an attempt; Steps is how the steps of a
--                   handler are chained, Ensures, Ends, Kept and Sends are the rules to reason about
--                   them; Due says when a transaction is due, Justified that no other one is sent,
--                   Delivery that each one is
--   Samples         data for the tests, which stand in the modules called Tests
--
-- A method on `&mut self` is a function that returns the new state beside its result, also when it
-- fails; a lock is held for the whole of each call, so calls come in a sequence. Errors are values:
-- a data type where the source has one, else the outermost message. Numbers are natural numbers; the
-- checked, saturating and wrapping operations of the source are written out at their width. A hash map
-- is an association list whose order stands for the unspecified one. Logging and metrics are left out.
--
-- Parameters stand for code outside the repository: the parser of 256-bit texts, the file system, the
-- SHA-256 digest, addresses and the ABI encoder, the provider's answers, the signer and the transport.
-- The clock is an argument. The answers
-- to the loop of the application belong to one turn of it, and may differ from turn to turn. Loops are structural recursion but for two on fuel: the printing of
-- the digits of a number, where 80 digits are more than a number of 256 bits has, and the scan of a
-- range of blocks in chunks, where the fuel is the number of blocks and each turn takes one at least.
--
-- Not modelled: the streams of crates/ingest, crates/config, crates/rpc, crates/storage and
-- crates/observability; in crates/app the wiring of main and the choice of the
-- transport; the tick table of V3.
pub mod Base
pub mod Types
pub mod Registry
pub mod Ingest
pub mod Markets
pub mod Risk
pub mod Decision
pub mod Execution
pub mod Discovery
pub mod App
pub mod Samples
