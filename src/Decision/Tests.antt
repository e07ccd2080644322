-- ===== src/Decision/Tests.antt =====
-- The theorems on loops at two concrete pools.
use base_execution_engine.Base.{
  All, [], arith, inl, inr, none, refl, some, true, ◌+◌, ◌∷◌, ◌≡◌, ◌≤◌,
}
use base_execution_engine.Base.Text.{
  ascii_lower, digits_from, eq_ignore_ascii_case, show_uint, text, text_eq, text_leb,
  to_ascii_lowercase,
}
use base_execution_engine.Base.Words.{checked_sub, fit, saturating_add, saturating_mul}
use base_execution_engine.Base.Maps.{text_Eq}
use base_execution_engine.Base.Sort.{sort_by, dedup_by, place, dedup_after}
use base_execution_engine.Samples.{
  weth, pool1, pool2, loop, found, costs, simulated, policy, no_path, digest,
}
use base_execution_engine.Types.{ExecutionRequest, SimulationResult, pending}
use base_execution_engine.Markets.V2
use base_execution_engine.Markets.Book.{PoolBook, v2, v2_pools, v2_values}
use base_execution_engine.Risk.{
  initial_state, assess, assess_stateful, assess_daily, stateless_reject, kill_switch_gate,
  bps_gate, trade_gate, tokens_gate, token_gate, slippage_gate, opportunity_tokens, leg_tokens,
  contains, block_used, block_bucket, prune_daily_entries, prune_from, decide, deny,
}
use base_execution_engine.Decision.{
  detect_two_leg_loop, loop_input, loop_id, loop_leg, loop_opportunity,
  detect_two_leg_loops_from_book, simulate_two_leg_opportunity, simulation_result,
  build_execution_request,
}
use base_execution_engine.Decision.Loop.{Pays, detect_two_leg_loop-Pays}
use base_execution_engine.Decision.Scan.{
  FoundIn, Descending, has_id, detect_two_leg_loops_from_book-FoundIn,
  has_id-detect_two_leg_loops_from_book,
}
use base_execution_engine.Decision.Request.{
  Costed, simulate_total, Covers, build-Covers, accepted_loop-Covers,
}

loop_found : detect_two_leg_loop loop ≡ some found
unfolding detect_two_leg_loop loop_opportunity loop_leg loop_id V2.quote_exact_in V2.sides
    V2.swap_output V2.estimate_price_impact_bps fit checked_sub eq_ignore_ascii_case
    to_ascii_lowercase ascii_lower text_eq text show_uint digits_from
loop_found = refl

detect_two_leg_loop-Pays_example : Pays loop found
detect_two_leg_loop-Pays_example = detect_two_leg_loop-Pays loop found loop_found

-- The book of the two pools.
abbrev book : PoolBook
book = record {
  pools = (pool1.address, v2 pool1) ∷ (pool2.address, v2 pool2) ∷ [];
  applied_sync_history = [];
}

detect_two_leg_loops_from_book-FoundIn_example :
    All
      (FoundIn pending weth 1000000 none (v2_pools book))
      (detect_two_leg_loops_from_book pending weth 1000000 none book)
    × Descending (detect_two_leg_loops_from_book pending weth 1000000 none book)
detect_two_leg_loops_from_book-FoundIn_example =
    detect_two_leg_loops_from_book-FoundIn pending weth 1000000 none book

book-FoundIn : FoundIn pending weth 1000000 none (v2_pools book) found
unfolding v2_pools v2_values eq_ignore_ascii_case to_ascii_lowercase ascii_lower text_eq loop_input
book-FoundIn = (pool1, pool2, inl refl, inr (inl refl), refl, loop_found)

has_id-detect_two_leg_loops_from_book_example :
    has_id found.id (detect_two_leg_loops_from_book pending weth 1000000 none book) ≡ true
has_id-detect_two_leg_loops_from_book_example =
    has_id-detect_two_leg_loops_from_book pending weth 1000000 none book found book-FoundIn

simulate_total_example :
    (r : SimulationResult) × (simulate_two_leg_opportunity found costs ≡ some r)
    × Costed found costs r
    × (r.accepted ≡ true)
simulate_total_example = simulate_total loop found costs loop_found (omega arith)

simulated_found :
    simulate_two_leg_opportunity found costs ≡ some (simulation_result found costs 487681 487674)
unfolding simulate_two_leg_opportunity checked_sub
simulated_found = refl

build-Covers_example :
    (q : ExecutionRequest) × (build_execution_request found
        (decide no_path digest true none policy found simulated)
      ≡ some q)
    × Covers loop found (decide no_path digest true none policy found simulated) q
unfolding decide
build-Covers_example =
    build-Covers loop found (decide no_path digest true none policy found simulated) loop_found refl

accepts :
    (assess no_path digest policy 100000 found
      (simulation_result found costs 487681 487674)
      initial_state).0.accepted
    ≡ true
unfolding assess assess_stateful assess_daily stateless_reject kill_switch_gate bps_gate trade_gate
    tokens_gate token_gate slippage_gate opportunity_tokens leg_tokens contains block_used
    block_bucket prune_daily_entries prune_from decide deny saturating_add saturating_mul sort_by
    place dedup_by dedup_after text_eq text_leb to_ascii_lowercase ascii_lower simulation_result
accepts = refl

accepted_loop-Covers_example :
    (q : ExecutionRequest) × (build_execution_request found
        (assess no_path digest policy 100000 found
          (simulation_result found costs 487681 487674)
          initial_state).0
      ≡ some q)
    × (k : Covers loop found
        (assess no_path digest policy 100000 found
          (simulation_result found costs 487681 487674)
          initial_state).0
        q)
    × (q.min_repay + q.min_surplus + 5 + 2 ≤ k.second.min_amount_out)
accepted_loop-Covers_example =
    accepted_loop-Covers no_path digest loop found costs
      (simulation_result found costs 487681 487674) policy 100000 initial_state loop_found
      simulated_found accepts
