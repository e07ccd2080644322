-- ===== src/App/Start.antt =====
-- The book that the engine starts with: `run_pool_discovery` of crates/app/src/main.rs, and the start
-- of `main` that calls it. The file system, the JSON parsers, the node and the reading of an address
-- are parameters.
use base_execution_engine.Base.{
  >>=-eq-ok, Bool, List, Option, Result, err, false, if◌then◌else◌, ok, ok-injective, ok_or, true,
  ◌++◌, ◌>>=◌, ◌≡◌,
}
use base_execution_engine.Base.Text.{Text, text, trim}
use base_execution_engine.Types.{BlockNumber}
use base_execution_engine.Markets.Error.{MarketError}
use base_execution_engine.Markets.Book.{PoolBook}
use base_execution_engine.Markets.Book.Invariant.{IsSound}
use base_execution_engine.Decision.{DecisionConfig}
use base_execution_engine.Discovery.Factory.{FactoryConfig}
use base_execution_engine.Discovery.Reader.{FactoryReader}
use base_execution_engine.Discovery.Service.{run_factories}
use base_execution_engine.Discovery.Soundness.{run_factories-IsSound}
use mathlib.Core.Path.{subst}
use base_execution_engine.App.Steps.{with_context}
use base_execution_engine.App.Bootstrap.{BootstrapV2Pool, load_pool_book, load_pool_book-IsSound}

pub record DiscoveryConfig : Type 0 where
  pub enabled : Bool
  pub factories_path : Option Text
  pub multicall3_address : Option Text
  pub pinned_head_block : Option BlockNumber

-- What the start reads from outside.
pub record Surroundings (AlloyAddress Provider : Type 0) : Type 1 where
  pub read_to_string : Text → Result Text Text
  pub parse_entries : Text → Result Text (List BootstrapV2Pool)
  pub parse_factories : Text → Result Text (List FactoryConfig)
  pub from_str : Text → Option AlloyAddress
  pub connect_http : Result Text Provider
  pub verify_chain_id : Provider → Result Text (Unit {0})
  pub reader_of : Provider → FactoryReader AlloyAddress
  -- the text of a market's error
  pub market_message : MarketError → Text

with_context-eq-ok :
    {A : Type 0} (r : Result Text A) (message : Text) {a : A}
    → with_context r message ≡ ok a
    → r ≡ ok a
with_context-eq-ok (ok b) message h = h
with_context-eq-ok (err e) message h = cc

module _ {AlloyAddress Provider : Type 0} (s : Surroundings AlloyAddress Provider) where
  -- `DiscoveryService::new`, of the address of the multicall
  unfoldable pub new_service : Text → Result Text AlloyAddress
  new_service multicall3 =
      ok_or (s.from_str (trim multicall3))
        (text "factory misconfigured: multicall3 address is not valid hex")

  unfoldable pub run_pool_discovery : DiscoveryConfig → PoolBook → Result Text PoolBook
  run_pool_discovery config book = do
    factories_path ←
        ok_or config.factories_path
          (text "DISCOVERY_FACTORIES_PATH must be set when discovery is enabled")
    multicall3 ←
        ok_or config.multicall3_address
          (text "DISCOVERY_MULTICALL3_ADDRESS must be set when discovery is enabled")
    raw ←
        with_context (s.read_to_string factories_path)
          (text "failed to read factories file `" ++ (factories_path ++ text "`"))
    factories ←
        with_context (s.parse_factories raw)
          (text "failed to parse factories file `" ++ (factories_path ++ text "`"))
    provider ←
        with_context s.connect_http (text "failed to connect HTTP rpc provider for discovery")
    verified ←
        with_context (s.verify_chain_id provider)
          (text "rpc chain_id mismatch during discovery bootstrap")
    service ← with_context (new_service multicall3) (text "failed to construct DiscoveryService")
    ok (run_factories (s.reader_of provider) service config.pinned_head_block factories book)

  unfoldable pub start_book : DecisionConfig → DiscoveryConfig → Result Text PoolBook
  start_book decision discovery = do
    book ←
        with_context (load_pool_book s.market_message s.read_to_string s.parse_entries decision)
          (text "failed to bootstrap pool book")
    if discovery.enabled
        then with_context (run_pool_discovery discovery book) (text "failed to run pool discovery")
        else ok book

  run_pool_discovery-IsSound :
      (config : DiscoveryConfig) (book after : PoolBook)
      → IsSound book
      → run_pool_discovery config book ≡ ok after
      → IsSound after
  unfolding run_pool_discovery
  run_pool_discovery-IsSound config book after sound h =
      let (_, _, h1) = >>=-eq-ok (ok_or config.factories_path _) _ h in
      let (_, _, h2) = >>=-eq-ok (ok_or config.multicall3_address _) _ h1 in
      let (_, _, h3) = >>=-eq-ok (with_context (s.read_to_string _) _) _ h2 in
      let (_, _, h4) = >>=-eq-ok (with_context (s.parse_factories _) _) _ h3 in
      let (_, _, h5) = >>=-eq-ok (with_context s.connect_http _) _ h4 in
      let (_, _, h6) = >>=-eq-ok (with_context (s.verify_chain_id _) _) _ h5 in
      let (_, _, h7) = >>=-eq-ok (with_context (new_service _) _) _ h6 in
      subst IsSound (ok-injective h7)
        (run_factories-IsSound (s.reader_of _) _ config.pinned_head_block _ book sound)

  discovered-IsSound :
      (enabled : Bool) (config : DiscoveryConfig) (book after : PoolBook)
      → IsSound book
      → (if enabled
          then with_context (run_pool_discovery config book) (text "failed to run pool discovery")
          else ok book)
        ≡ ok after
      → IsSound after
  discovered-IsSound true config book after sound h =
      run_pool_discovery-IsSound config book after sound (with_context-eq-ok _ _ h)
  discovered-IsSound false config book after sound h = subst IsSound (ok-injective h) sound

  pub start_book-IsSound :
      (decision : DecisionConfig) (discovery : DiscoveryConfig) (book : PoolBook)
      → start_book decision discovery ≡ ok book
      → IsSound book
  unfolding start_book
  start_book-IsSound decision discovery book h =
      let (loaded, e, h1) =
        >>=-eq-ok
          (with_context (load_pool_book s.market_message s.read_to_string s.parse_entries decision)
            _)
          _ h in
      let sound : IsSound loaded =
        load_pool_book-IsSound s.market_message s.read_to_string s.parse_entries decision loaded
          (with_context-eq-ok _ _ e) in
      discovered-IsSound discovery.enabled discovery loaded book sound h1
