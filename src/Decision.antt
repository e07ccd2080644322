-- ===== src/Decision.antt =====
-- crates/decision/src/lib.rs: finding two-leg loops in a pool book, the cost model of a simulation,
-- the stateless risk check and the request that execution takes. Logging is left out.
pub mod Loop
pub mod Scan
pub mod Request
mod Tests
use base_execution_engine.Base.{
  Bool, List, Option, Result, [], false, if◌then◌else◌, leb, length, ltb, none, not, ok, ok_or,
  some, to_option, true, ℕ, ◌&&◌, ◌++◌, ◌==◌, ◌>>=?◌, ◌>>=◌, ◌>>◌, ◌||◌, ◌∷◌,
}
use base_execution_engine.Base.Text.{
  Text, eq_ignore_ascii_case, parse_uint, show_uint, text, text_eq, text_leb,
}
use base_execution_engine.Base.Words.{checked_sub, u128_max}
use base_execution_engine.Base.Sort.{sort_by, dedup_by}
use base_execution_engine.Types.{
  Address, Amount, BlockContext, ExecutionRequest, ExecutionStep, Opportunity, OpportunityKind,
  RiskDecision, RouteLeg, SimulationResult, two_leg_loop,
}
use base_execution_engine.Markets.V2
use base_execution_engine.Markets.V2.{V2PoolState}
use base_execution_engine.Markets.Error.{PoolQuote}
use base_execution_engine.Markets.Book.{PoolBook, v2_pools}
use base_execution_engine.Risk.{risk_hash}

pub record TwoLegLoopInput : Type 0 where
  pub block_context : BlockContext
  pub settlement_token : Address
  pub amount_in : Amount
  pub first_pool : V2PoolState
  pub second_pool : V2PoolState
  pub trigger_tx_hash : Option Text

pub record SimulationConfig : Type 0 where
  pub gas_estimate : ℕ
  pub gas_cost_wei : Amount
  pub l1_data_fee_wei : Amount

-- The fields of `DecisionConfig` that this code reads.
pub record DecisionConfig : Type 0 where
  pub min_net_profit_wei : Text
  pub simulation_gas_estimate : ℕ
  pub simulation_gas_cost_wei : Text
  pub simulation_l1_data_fee_wei : Text
  pub v2_bootstrap_path : Option Text
  pub settlement_token : Option Address
  pub scan_trade_amount_wei : Option Text

-- `SimulationConfig::from_config`; an `anyhow` error is its message.
unfoldable pub from_config : DecisionConfig → Result Text SimulationConfig
from_config config = do
  gas_cost ←
      ok_or (parse_uint u128_max config.simulation_gas_cost_wei)
        (text "failed to parse DECISION_SIMULATION_GAS_COST_WEI")
  l1_data_fee ←
      ok_or (parse_uint u128_max config.simulation_l1_data_fee_wei)
        (text "failed to parse DECISION_SIMULATION_L1_DATA_FEE_WEI")
  ok (record {
    gas_estimate = config.simulation_gas_estimate;
    gas_cost_wei = gas_cost;
    l1_data_fee_wei = l1_data_fee;
  })

unfoldable pub loop_id : TwoLegLoopInput → Text
loop_id input =
    text "loop:"
    ++ (input.settlement_token
        ++ (text ":"
            ++ (input.first_pool.address
                ++ (text ":"
                    ++ (input.second_pool.address ++ (text ":" ++ show_uint input.amount_in))))))

unfoldable pub loop_leg : V2PoolState → Address → PoolQuote → RouteLeg
loop_leg pool token_in quote = record {
  venue = pool.exchange;
  protocol = some pool.protocol;
  target = pool.address;
  pool_address = some pool.address;
  token_in = token_in;
  token_out = quote.token_out;
  amount_in = some quote.amount_in;
  min_amount_out = some quote.amount_out;
}

unfoldable pub loop_opportunity : TwoLegLoopInput → PoolQuote → PoolQuote → ℕ → Opportunity
loop_opportunity input first_quote second_quote expected_net_profit = record {
  id = loop_id input;
  kind = two_leg_loop;
  block_context = input.block_context;
  settlement_token = input.settlement_token;
  input_amount = input.amount_in;
  expected_output_amount = second_quote.amount_out;
  expected_net_profit = expected_net_profit;
  route =
      loop_leg input.first_pool first_quote.token_in first_quote
      ∷ loop_leg input.second_pool first_quote.token_out second_quote
      ∷ [];
  trigger_tx_hash = input.trigger_tx_hash;
}

-- `return None` when the test holds.
abbrev pub none_if {ℓ} : {A : Type ℓ} → Bool → Option A → Option A
none_if true rest = none
none_if false rest = rest

unfoldable pub detect_two_leg_loop : TwoLegLoopInput → Option Opportunity
detect_two_leg_loop input = none_if (input.amount_in == 0) (
    to_option (V2.quote_exact_in input.first_pool input.settlement_token input.amount_in)
    >>=? (λ first_quote.
        to_option (V2.quote_exact_in input.second_pool first_quote.token_out first_quote.amount_out)
        >>=? (λ second_quote.
            none_if (not (text_eq second_quote.token_out input.settlement_token)) (
              checked_sub second_quote.amount_out input.amount_in >>=? (λ expected_net_profit.
                none_if (expected_net_profit == 0)
                  (some (loop_opportunity input first_quote second_quote expected_net_profit)))))))

-- More profit first, then the smaller identifier.
unfoldable pub goes_before : Opportunity → Opportunity → Bool
goes_before left right =
    ltb right.expected_net_profit left.expected_net_profit
    || ((right.expected_net_profit == left.expected_net_profit) && text_leb left.id right.id)

module _ (block_context : BlockContext) (settlement_token : Address) (amount_in : Amount)
    (trigger_tx_hash : Option Text) where
  unfoldable pub loop_input : V2PoolState → V2PoolState → TwoLegLoopInput
  loop_input first_pool second_pool = record {
    block_context = block_context;
    settlement_token = settlement_token;
    amount_in = amount_in;
    first_pool = first_pool;
    second_pool = second_pool;
    trigger_tx_hash = trigger_tx_hash;
  }

  -- The body of the inner loop.
  unfoldable pub scan_pair : V2PoolState → Address → V2PoolState → Option Opportunity
  scan_pair first_pool intermediate second_pool =
      none_if (eq_ignore_ascii_case first_pool.address second_pool.address) (
        none_if
          (not (V2.contains_token second_pool intermediate)
            || not (V2.contains_token second_pool settlement_token))
          (detect_two_leg_loop (loop_input first_pool second_pool)))

  unfoldable pub scan_second : V2PoolState → Address → List V2PoolState → List Opportunity
  scan_second first_pool intermediate [] = []
  scan_second first_pool intermediate (second_pool ∷ pools) =
      let rest = scan_second first_pool intermediate pools in
      elim (scan_pair first_pool intermediate second_pool) [ none ↦ rest | some o ↦ o ∷ rest ]

  -- The body of the outer loop, on all the pools.
  unfoldable pub scan_first_pool : List V2PoolState → V2PoolState → List Opportunity
  scan_first_pool pools first_pool =
      if V2.contains_token first_pool settlement_token
      then elim (V2.other_token first_pool settlement_token) [
        | none ↦ []
        | some intermediate ↦ scan_second first_pool intermediate pools
      ]
      else []

  unfoldable pub scan_first : List V2PoolState → List V2PoolState → List Opportunity
  scan_first pools [] = []
  scan_first pools (first_pool ∷ rest) = scan_first_pool pools first_pool ++ scan_first pools rest

  unfoldable pub detect_two_leg_loops_from_book : PoolBook → List Opportunity
  detect_two_leg_loops_from_book book =
      dedup_by (λ left right. text_eq left.id right.id)
        (sort_by goes_before (scan_first (v2_pools book) (v2_pools book)))

abbrev pub is_two_leg_loop : OpportunityKind → Bool
is_two_leg_loop two_leg_loop = true
is_two_leg_loop _ = false

unfoldable pub simulation_result : Opportunity → SimulationConfig → ℕ → ℕ → SimulationResult
simulation_result opportunity simulation expected_gross_profit expected_net_profit = record {
  opportunity_id = opportunity.id;
  accepted = ltb 0 expected_net_profit;
  expected_gross_profit = expected_gross_profit;
  expected_net_profit = expected_net_profit;
  gas_estimate = simulation.gas_estimate;
  gas_cost_wei = simulation.gas_cost_wei;
  l1_data_fee = simulation.l1_data_fee_wei;
  notes =
      text "simulation path uses deterministic local V2 quotes"
      ∷ text "gas and L1 data fee are config-driven cost baselines"
      ∷ [];
}

unfoldable pub simulate_two_leg_opportunity :
    Opportunity → SimulationConfig → Option SimulationResult
simulate_two_leg_opportunity opportunity simulation =
    none_if (not (is_two_leg_loop opportunity.kind) || not (length opportunity.route == 2)) (
      checked_sub opportunity.expected_output_amount opportunity.input_amount
      >>=? (λ expected_gross_profit.
          checked_sub expected_gross_profit simulation.gas_cost_wei >>=? (λ after_gas.
            checked_sub after_gas simulation.l1_data_fee_wei >>=? (λ expected_net_profit. some (
              simulation_result opportunity simulation expected_gross_profit
                expected_net_profit)))))

module _ (path_exists : Text → Bool) (sha256_hex : List ℕ → Text) where
  unfoldable pub assess_risk : Opportunity → SimulationResult → DecisionConfig → Option RiskDecision
  assess_risk opportunity simulation config =
      parse_uint u128_max config.min_net_profit_wei >>=? (λ min_surplus.
        let accepted = simulation.accepted && leb min_surplus simulation.expected_net_profit in
        some (record {
          opportunity_id = opportunity.id;
          accepted = accepted;
          reason =
              if accepted
              then none
              else some (text "expected net profit is below the configured minimum surplus");
          risk_hash = risk_hash path_exists sha256_hex opportunity simulation min_surplus;
          min_surplus = min_surplus;
        }))

unfoldable pub execution_step : RouteLeg → Amount → ExecutionStep
execution_step leg min_amount_out = record {
  venue = leg.venue;
  protocol = leg.protocol;
  target = leg.target;
  token_in = leg.token_in;
  token_out = leg.token_out;
  pool_fee = none;
  amount_in = leg.amount_in;
  min_amount_out = min_amount_out;
  calldata_hint = some (text "v2_exact_input");
  aux_address = none;
}

-- The loop of `build_execution_request`.
unfoldable pub execution_steps : List RouteLeg → Option (List ExecutionStep)
execution_steps [] = some []
execution_steps (leg ∷ route) = leg.min_amount_out >>=? (λ min_amount_out.
    execution_steps route >>=? (λ steps. some (execution_step leg min_amount_out ∷ steps)))

unfoldable pub build_execution_request : Opportunity → RiskDecision → Option ExecutionRequest
build_execution_request opportunity risk = none_if (not risk.accepted) (
    execution_steps opportunity.route >>=? (λ steps. some (record {
      opportunity_id = opportunity.id;
      steps = steps;
      min_repay = opportunity.input_amount;
      min_surplus = risk.min_surplus;
      flashloan_asset = some opportunity.settlement_token;
      flashloan_amount = some opportunity.input_amount;
      risk_hash = risk.risk_hash;
    })))
