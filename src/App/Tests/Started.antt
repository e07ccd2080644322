-- ===== src/App/Tests/Started.antt =====
-- The engine that starts with a pool of the bootstrap file and one that is discovered.
use base_execution_engine.Base.{[], none, some, ok, true, refl, List, Result, ◌∷◌, All}
use base_execution_engine.Base.Text.{Text, text, text_eq, trim, trim_start, is_whitespace}
use base_execution_engine.Samples.{pool1, pool2}
use base_execution_engine.Markets.V2.{new_pool, validate}
use base_execution_engine.Markets.Book.Invariant.{IsSound}
use base_execution_engine.App.Pipeline.{run_events}
use base_execution_engine.App.Bootstrap.{
  BootstrapV2Pool, load_pool_book, insert_entries, bootstrap_pool,
}
use base_execution_engine.App.Justified.{started, IsJustified}
use base_execution_engine.App.Justified.Events.{run_events-IsJustified}
use base_execution_engine.App.Due.{InSome, IsWellDue}
use base_execution_engine.App.Fixture.{turns, app_config, scan, entry_of, decision_config, book}
use base_execution_engine.Types.{Amount, uniswap_v2}
use base_execution_engine.Discovery.Factory
use base_execution_engine.Discovery.Factory.{FactoryConfig, v2_factory, needs_fee}
use base_execution_engine.Discovery.Reader.{DiscoveredV2Pool, FactoryReader}
use base_execution_engine.Discovery.Service.{
  run_factories, run_factory, scan_factory, scan_head, report, read_v2, ingest_v2, v2_candidate,
  v2_state,
}
use base_execution_engine.App.Start.{
  DiscoveryConfig, Surroundings, start_book, run_pool_discovery, new_service,
}

-- The first pool is in the bootstrap file.
abbrev pub parse_entries : Text → Result Text (List BootstrapV2Pool)
parse_entries contents = ok (entry_of pool1 ∷ [])

-- The second one is found by the scan of a factory.
abbrev pub factory : FactoryConfig
factory = record {
  address = b'f' ∷ [];
  kind = v2_factory;
  protocol = uniswap_v2;
  exchange = none;
  deployment_block = 1;
  default_v2_fee_bps = some 30;
  log_chunk_size = none;
}

abbrev pub discovered : Amount → Amount → DiscoveredV2Pool
discovered reserve0 reserve1 = record {
  address = pool2.address;
  token0 = pool2.token0;
  token1 = pool2.token1;
  reserve0 = reserve0;
  reserve1 = reserve1;
  fee_bps = 30;
}

abbrev pub reader : FactoryReader Text
reader = record {
  latest_block = ok 9;
  fetch_v2_pair_created = λ f first last. ok (discovered 0 0 ∷ []);
  fetch_v3_pool_created = λ f first last. ok [];
  hydrate_v2_reserves = λ multicall3 pools. ok (discovered pool2.reserve0 pool2.reserve1 ∷ []);
  hydrate_v3_state = λ multicall3 pools. ok pools;
}

abbrev pub surroundings : Surroundings Text (Unit {0})
surroundings = record {
  read_to_string = λ path. ok [];
  parse_entries = parse_entries;
  parse_factories = λ contents. ok (factory ∷ []);
  from_str = some;
  connect_http = ok tt;
  verify_chain_id = λ provider. ok tt;
  reader_of = λ provider. reader;
  market_message = λ e. [];
}

abbrev pub discovery_config : DiscoveryConfig
discovery_config = record {
  enabled = true;
  factories_path = some [];
  multicall3_address = some (b'm' ∷ []);
  pinned_head_block = none;
}

run_events-IsJustified_example :
    All
      (IsJustified (InSome IsWellDue app_config (some scan) turns (started book)))
      (run_events app_config (some scan) turns (started book)).1.journal
    × IsSound (run_events app_config (some scan) turns (started book)).1.book
unfolding start_book run_pool_discovery new_service run_factories run_factory scan_factory scan_head
    report read_v2 ingest_v2 v2_candidate v2_state needs_fee Factory.validate load_pool_book
    insert_entries bootstrap_pool new_pool validate text_eq text trim trim_start is_whitespace
run_events-IsJustified_example =
    run_events-IsJustified app_config (some scan) surroundings decision_config discovery_config book
      turns refl
