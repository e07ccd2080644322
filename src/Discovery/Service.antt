-- ===== src/Discovery/Service.antt =====
-- `ingest_v2` and `ingest_v3` of crates/discovery/src/v2.rs and v3.rs, `run_factory` of
-- crates/discovery/src/service.rs, and the loop over the factories in crates/app/src/main.rs.
use base_execution_engine.Base.{
  List, Option, Result, [], err, if◌then◌else◌, length, ltb, none, ok, some, to_option, ℕ, ◌+◌,
  ◌==◌, ◌>>=◌, ◌||◌, ◌∷◌,
}
use base_execution_engine.Base.Text.{Text}
use base_execution_engine.Types.{Address, BlockNumber}
use base_execution_engine.Markets.Error.{MarketError}
use base_execution_engine.Markets.V2
use base_execution_engine.Markets.V2.{V2PoolState}
use base_execution_engine.Markets.V3
use base_execution_engine.Markets.V3.{V3PoolState}
use base_execution_engine.Markets.Book.{PoolBook, insert_v2_pool, insert_v3_pool}
use base_execution_engine.Discovery.Factory.{
  FactoryKind, v2_factory, v3_factory, FactoryConfig, validate,
}
use base_execution_engine.Discovery.Reader.{DiscoveredV2Pool, DiscoveredV3Pool, FactoryReader}

pub data DiscoveryError : Type 0 where
  invalid_factory : Text → DiscoveryError
  transport : Text → DiscoveryError
  invalid_pool : MarketError → DiscoveryError
  missing_multicall3 : DiscoveryError

pub record DiscoveryReport : Type 0 where
  pub factory_address : Address
  pub kind : FactoryKind
  pub from_block : BlockNumber
  pub to_block : BlockNumber
  pub pools_scanned : ℕ
  pub pools_inserted : ℕ

-- `V2PoolState::new` of a hydrated pool.
unfoldable pub v2_state : FactoryConfig → DiscoveredV2Pool → Result MarketError V2PoolState
v2_state factory pool =
    V2.new_pool pool.address factory.protocol factory.exchange pool.token0 pool.token1 pool.reserve0
      pool.reserve1 pool.fee_bps

-- The body of the loop: the pool to insert, or `none` where it is skipped.
unfoldable pub v2_candidate : FactoryConfig → DiscoveredV2Pool → Option V2PoolState
unfolding v2_state
v2_candidate factory pool =
    if (pool.reserve0 == 0) || (pool.reserve1 == 0) then none else to_option (v2_state factory pool)

-- The loop, with the count so far.
unfoldable pub ingest_v2 : PoolBook → FactoryConfig → List DiscoveredV2Pool → ℕ → ℕ × PoolBook
ingest_v2 book factory [] inserted = (inserted, book)
ingest_v2 book factory (pool ∷ pools) inserted = elim (v2_candidate factory pool) [
  | none ↦ ingest_v2 book factory pools inserted
  | some state ↦ ingest_v2 (insert_v2_pool book state) factory pools (inserted + 1)
]

unfoldable pub v3_state : FactoryConfig → DiscoveredV3Pool → Result MarketError V3PoolState
v3_state factory pool =
    V3.new_pool pool.address factory.protocol factory.exchange pool.token0 pool.token1 pool.fee_pips
      pool.tick_spacing pool.sqrt_price_x96 pool.liquidity pool.tick

unfoldable pub v3_candidate : FactoryConfig → DiscoveredV3Pool → Option V3PoolState
unfolding v3_state
v3_candidate factory pool =
    if (pool.liquidity == 0) || (pool.sqrt_price_x96 == 0)
    then none
    else to_option (v3_state factory pool)

unfoldable pub ingest_v3 : PoolBook → FactoryConfig → List DiscoveredV3Pool → ℕ → ℕ × PoolBook
ingest_v3 book factory [] inserted = (inserted, book)
ingest_v3 book factory (pool ∷ pools) inserted = elim (v3_candidate factory pool) [
  | none ↦ ingest_v3 book factory pools inserted
  | some state ↦ ingest_v3 (insert_v3_pool book state) factory pools (inserted + 1)
]

-- `?` on an answer of the reader
abbrev pub from_reader {ℓ} : {A : Type ℓ} → Result Text A → Result DiscoveryError A
from_reader (ok a) = ok a
from_reader (err e) = err (transport e)

module _ {AlloyAddress : Type 0} (reader : FactoryReader AlloyAddress) (multicall3 : AlloyAddress)
    (pinned_head : Option BlockNumber) where
  unfoldable pub report : FactoryConfig → BlockNumber → ℕ → ℕ → DiscoveryReport
  report factory head scanned inserted = record {
    factory_address = factory.address;
    kind = factory.kind;
    from_block = factory.deployment_block;
    to_block = head;
    pools_scanned = scanned;
    pools_inserted = inserted;
  }

  -- The pools that are read for a factory, hydrated, with the number scanned.
  unfoldable pub read_v2 :
      FactoryConfig → BlockNumber → Result DiscoveryError (ℕ × List DiscoveredV2Pool)
  read_v2 factory head = do
    pools ← from_reader (reader.fetch_v2_pair_created factory factory.deployment_block head)
    hydrated ← from_reader (reader.hydrate_v2_reserves multicall3 pools)
    ok (length pools, hydrated)

  unfoldable pub read_v3 :
      FactoryConfig → BlockNumber → Result DiscoveryError (ℕ × List DiscoveredV3Pool)
  read_v3 factory head = do
    pools ← from_reader (reader.fetch_v3_pool_created factory factory.deployment_block head)
    hydrated ← from_reader (reader.hydrate_v3_state multicall3 pools)
    ok (length pools, hydrated)

  -- The `match` on the kind of the factory.
  unfoldable pub scan_factory :
      FactoryKind
      → FactoryConfig
      → BlockNumber
      → PoolBook
      → Result DiscoveryError DiscoveryReport × PoolBook
  scan_factory v2_factory factory head book = elim (read_v2 factory head) [
    | err e ↦ (err e, book)
    | ok (scanned, hydrated) ↦
        let (inserted, after) = ingest_v2 book factory hydrated 0 in
        (ok (report factory head scanned inserted), after)
  ]
  scan_factory v3_factory factory head book = elim (read_v3 factory head) [
    | err e ↦ (err e, book)
    | ok (scanned, hydrated) ↦
        let (inserted, after) = ingest_v3 book factory hydrated 0 in
        (ok (report factory head scanned inserted), after)
  ]

  -- The head of the scan: pinned, or the latest block.
  unfoldable pub scan_head : FactoryConfig → Result DiscoveryError BlockNumber
  scan_head factory = elim (validate factory) [
    | err reason ↦ err (invalid_factory reason)
    | ok u ↦ elim pinned_head [ some h ↦ ok h | none ↦ from_reader reader.latest_block ]
  ]

  unfoldable pub run_factory :
      FactoryConfig → PoolBook → Result DiscoveryError DiscoveryReport × PoolBook
  run_factory factory book = elim (scan_head factory) [
    | err e ↦ (err e, book)
    | ok head ↦
        if ltb head factory.deployment_block
        then (ok (report factory head 0 0), book)
        else scan_factory factory.kind factory head book
  ]

  -- The loop of `run_pool_discovery`: an error of one factory is logged and the next one is run.
  unfoldable pub run_factories : List FactoryConfig → PoolBook → PoolBook
  run_factories [] book = book
  run_factories (factory ∷ factories) book = run_factories factories (run_factory factory book).1
