-- ===== src/Discovery/Soundness.antt =====
-- What discovery puts in the book is valid, whatever the node answers.
use base_execution_engine.Types.{BlockNumber}
use base_execution_engine.Base.{
  >>=-eq-ok, Bool-cases, List, Option, Option-cases, Result-cases, [], arith, inl, inr, ltb,
  ok-injective, some, ℕ, ◌+◌, ◌==◌, ◌||◌, ◌∙◌, ◌∷◌, ◌≡◌,
}
use base_execution_engine.Markets.V2
use base_execution_engine.Markets.V2.{V2PoolState}
use base_execution_engine.Markets.V3
use base_execution_engine.Markets.V3.{V3PoolState}
use base_execution_engine.Markets.V3.Swap.{IsSane, IsValid-IsSane}
use mathlib.Core.Path.{subst}
use base_execution_engine.Markets.Book.{PoolBook, insert_v2_pool, insert_v3_pool}
use base_execution_engine.Markets.Book.Invariant.{
  IsSound, insert_v2_pool-IsSound, insert_v3_pool-IsSound,
}
use base_execution_engine.Discovery.Factory.{FactoryKind, v2_factory, v3_factory, FactoryConfig}
use base_execution_engine.Discovery.Reader.{DiscoveredV2Pool, DiscoveredV3Pool, FactoryReader}
use base_execution_engine.Discovery.Service.{
  v2_state, v2_candidate, ingest_v2, v3_state, v3_candidate, ingest_v3, scan_factory, read_v2,
  read_v3, scan_head, run_factory, run_factories,
}

v2_candidate-IsValid :
    (factory : FactoryConfig) (pool : DiscoveredV2Pool) (state : V2PoolState)
    → v2_candidate factory pool ≡ some state
    → V2.Quote.IsValid state
unfolding v2_candidate v2_state V2.new_pool
v2_candidate-IsValid factory pool state h =
    elim (Bool-cases ((pool.reserve0 == 0) || (pool.reserve1 == 0))) [
      | inl skipped ↦ ground arith
      | inr seeded ↦ elim (Result-cases (v2_state factory pool)) [
        | inr (reason, e) ↦ ground arith
        | inl (made, e) ↦
            let (_, valid, same) = >>=-eq-ok (V2.validate _) _ e in
            let chosen : made ≡ state = ground arith in
            subst (λ p. V2.Quote.IsValid p) (ok-injective same ∙ chosen)
              ((V2.Quote.validate-IsValid_iff _).0 valid)
      ]
    ]

v3_candidate-IsSane :
    (factory : FactoryConfig) (pool : DiscoveredV3Pool) (state : V3PoolState)
    → v3_candidate factory pool ≡ some state
    → IsSane state
unfolding v3_candidate v3_state V3.new_pool
v3_candidate-IsSane factory pool state h =
    elim (Bool-cases ((pool.liquidity == 0) || (pool.sqrt_price_x96 == 0))) [
      | inl skipped ↦ ground arith
      | inr seeded ↦ elim (Result-cases (v3_state factory pool)) [
        | inr (reason, e) ↦ ground arith
        | inl (made, e) ↦
            let (_, valid, same) = >>=-eq-ok (V3.validate _) _ e in
            let chosen : made ≡ state = ground arith in
            subst IsSane (ok-injective same ∙ chosen)
              (IsValid-IsSane ((V3.Quote.validate-IsValid_iff _).0 valid))
      ]
    ]

ingest_v2-IsSound :
    (book : PoolBook) (factory : FactoryConfig) (pools : List DiscoveredV2Pool) (inserted : ℕ)
    → IsSound book
    → IsSound (ingest_v2 book factory pools inserted).1
unfolding ingest_v2
ingest_v2-IsSound book factory [] inserted s = s
ingest_v2-IsSound book factory (pool ∷ pools) inserted s =
    elim (Option-cases (v2_candidate factory pool)) [
      | inl skipped ↦ rw (ingest_v2, skipped) (ingest_v2-IsSound book factory pools inserted s)
      | inr (state, e) ↦
          rw (ingest_v2, e)
            (ingest_v2-IsSound (insert_v2_pool book state) factory pools (inserted + 1)
              (insert_v2_pool-IsSound book state (v2_candidate-IsValid factory pool state e) s))
    ]

ingest_v3-IsSound :
    (book : PoolBook) (factory : FactoryConfig) (pools : List DiscoveredV3Pool) (inserted : ℕ)
    → IsSound book
    → IsSound (ingest_v3 book factory pools inserted).1
unfolding ingest_v3
ingest_v3-IsSound book factory [] inserted s = s
ingest_v3-IsSound book factory (pool ∷ pools) inserted s =
    elim (Option-cases (v3_candidate factory pool)) [
      | inl skipped ↦ rw (ingest_v3, skipped) (ingest_v3-IsSound book factory pools inserted s)
      | inr (state, e) ↦
          rw (ingest_v3, e)
            (ingest_v3-IsSound (insert_v3_pool book state) factory pools (inserted + 1)
              (insert_v3_pool-IsSound book state (v3_candidate-IsSane factory pool state e) s))
    ]

module _ {AlloyAddress : Type 0} (reader : FactoryReader AlloyAddress) (multicall3 : AlloyAddress)
    (pinned_head : Option BlockNumber) where
  scan_factory-IsSound :
      (kind : FactoryKind) (factory : FactoryConfig) (head : BlockNumber) (book : PoolBook)
      → IsSound book
      → IsSound (scan_factory reader multicall3 pinned_head kind factory head book).1
  unfolding scan_factory
  scan_factory-IsSound v2_factory factory head book s =
      elim (Result-cases (read_v2 reader multicall3 pinned_head factory head)) [
        | inl ((scanned, hydrated), e) ↦
            rw (scan_factory, e) (ingest_v2-IsSound book factory hydrated 0 s)
        | inr (reason, e) ↦ rw (scan_factory, e) s
      ]
  scan_factory-IsSound v3_factory factory head book s =
      elim (Result-cases (read_v3 reader multicall3 pinned_head factory head)) [
        | inl ((scanned, hydrated), e) ↦
            rw (scan_factory, e) (ingest_v3-IsSound book factory hydrated 0 s)
        | inr (reason, e) ↦ rw (scan_factory, e) s
      ]

  run_factory-IsSound :
      (factory : FactoryConfig) (book : PoolBook)
      → IsSound book
      → IsSound (run_factory reader multicall3 pinned_head factory book).1
  unfolding run_factory
  run_factory-IsSound factory book s =
      elim (Result-cases (scan_head reader multicall3 pinned_head factory)) [
        | inr (reason, e) ↦ rw (run_factory, e) s
        | inl (head, e) ↦ elim (Bool-cases (ltb head factory.deployment_block)) [
          | inl behind ↦ rw (run_factory, e) rw behind s
          | inr reached ↦
              rw (run_factory, e) rw reached (scan_factory-IsSound factory.kind factory head book s)
        ]
      ]

  -- A sound book stays sound when every factory is scanned, whatever the reader answers.
  pub run_factories-IsSound :
      (factories : List FactoryConfig) (book : PoolBook)
      → IsSound book
      → IsSound (run_factories reader multicall3 pinned_head factories book)
  unfolding run_factories
  run_factories-IsSound [] book s = s
  run_factories-IsSound (factory ∷ factories) book s =
      run_factories-IsSound factories (run_factory reader multicall3 pinned_head factory book).1
        (run_factory-IsSound factory book s)
