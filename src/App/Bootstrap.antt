-- ===== src/App/Bootstrap.antt =====
-- The start of the engine in crates/app/src/main.rs: `load_pool_book` and `runtime_scan_config`. The
-- file system and the JSON parser are parameters.
use base_execution_engine.Base.{
  >>=-eq-ok, List, Option, Option-cases, Result, Result-cases, [], arith, err, inl, inr, none, ok,
  ok-injective, ok_or, some, ℕ, ◌++◌, ◌>>=◌, ◌∷◌, ◌≡◌,
}
use base_execution_engine.Base.Text.{Text, parse_uint, text}
use base_execution_engine.Base.Words.{u128_max}
use base_execution_engine.Types.{Address, Amount, Exchange, Protocol}
use base_execution_engine.Markets.Error.{MarketError}
use base_execution_engine.Markets.V2.{V2PoolState, new_pool, validate}
use base_execution_engine.Markets.V2.Quote.{IsValid, validate-IsValid_iff}
use mathlib.Core.Path.{subst}
use base_execution_engine.Markets.Book.{PoolBook, new_book, insert_v2_pool}
use base_execution_engine.Markets.Book.Invariant.{IsSound, new_book-IsSound, insert_v2_pool-IsSound}
use base_execution_engine.Decision.{DecisionConfig, from_config}
use base_execution_engine.App.Steps.{with_context}
use base_execution_engine.App.Pipeline.{RuntimeScanConfig}

pub record BootstrapV2Pool : Type 0 where
  pub address : Address
  pub protocol : Protocol
  pub exchange : Option Exchange
  pub token0 : Address
  pub token1 : Address
  pub reserve0 : Amount
  pub reserve1 : Amount
  pub fee_bps : ℕ

unfoldable pub runtime_scan_config : DecisionConfig → Result Text (Option RuntimeScanConfig)
runtime_scan_config config = scan config.settlement_token config.scan_trade_amount_wei
  where
    scan : Option Text → Option Text → Result Text (Option RuntimeScanConfig)
    scan (some settlement_token) (some amount) = do
      amount_in ←
          ok_or (parse_uint u128_max amount) (text "failed to parse DECISION_SCAN_TRADE_AMOUNT_WEI")
      simulation ← from_config config
      ok (
          some (record {
            settlement_token = settlement_token;
            amount_in = amount_in;
            simulation = simulation;
          }))
    scan _ _ = ok none

module _ (market_message : MarketError → Text) where
  -- `V2PoolState::new` of an entry.
  unfoldable pub bootstrap_pool : BootstrapV2Pool → Result MarketError V2PoolState
  bootstrap_pool entry =
      new_pool entry.address entry.protocol entry.exchange entry.token0 entry.token1 entry.reserve0
        entry.reserve1 entry.fee_bps

  -- The loop over the entries.
  unfoldable pub insert_entries : PoolBook → List BootstrapV2Pool → Result Text PoolBook
  insert_entries book [] = ok book
  insert_entries book (entry ∷ entries) = elim (bootstrap_pool entry) [
    | err e ↦ err (market_message e)
    | ok pool ↦ insert_entries (insert_v2_pool book pool) entries
  ]

  module _ (read_to_string : Text → Result Text Text)
      (parse_entries : Text → Result Text (List BootstrapV2Pool)) where
    unfoldable pub load_pool_book : DecisionConfig → Result Text PoolBook
    load_pool_book config = elim config.v2_bootstrap_path [
      | none ↦ ok new_book
      | some path ↦
          with_context (read_to_string path)
            (text "failed to read bootstrap pool file `" ++ (path ++ text "`"))
          >>= λ contents.
              with_context (parse_entries contents)
                (text "failed to parse bootstrap pool file `" ++ (path ++ text "`"))
              >>= λ entries. insert_entries new_book entries
    ]

  insert_entries-IsSound :
      (book after : PoolBook) (entries : List BootstrapV2Pool)
      → IsSound book
      → insert_entries book entries ≡ ok after
      → IsSound after
  unfolding insert_entries bootstrap_pool new_pool
  insert_entries-IsSound book after [] s h = subst IsSound (ok-injective h) s
  insert_entries-IsSound book after (entry ∷ entries) s h =
      elim (Result-cases (bootstrap_pool entry)) [
        | inl (pool, ep) ↦
            let (_, ev, made) = >>=-eq-ok (validate _) _ ep in
            insert_entries-IsSound (insert_v2_pool book pool) after entries
              (insert_v2_pool-IsSound book pool
                (subst IsValid (ok-injective made) ((validate-IsValid_iff _).0 ev)) s)
              (rw (ep, insert_entries) at h)
        | inr (e, ep) ↦ ground arith
      ]

  -- The book that the engine starts with is sound, whatever the file holds.
  pub load_pool_book-IsSound :
      (read_to_string : Text → Result Text Text)
      (parse_entries : Text → Result Text (List BootstrapV2Pool)) (config : DecisionConfig)
      (book : PoolBook)
      → load_pool_book read_to_string parse_entries config ≡ ok book
      → IsSound book
  unfolding load_pool_book
  load_pool_book-IsSound read_to_string parse_entries config book h =
      elim (Option-cases config.v2_bootstrap_path) [
        | inl e ↦ subst IsSound (ok-injective (rw e at h)) new_book-IsSound
        | inr (path, e) ↦
            let (contents, ec, h1) =
              >>=-eq-ok (with_context (read_to_string path) _) _ (rw e at h) in
            let (entries, ee, h2) = >>=-eq-ok (with_context (parse_entries contents) _) _ h1 in
            insert_entries-IsSound new_book book entries new_book-IsSound h2
      ]
