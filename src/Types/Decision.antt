-- ===== src/Types/Decision.antt =====
-- crates/types/src/decision.rs.
use base_execution_engine.Base.{ℕ, Option, List, Bool}
use base_execution_engine.Base.Text.{Text}
use base_execution_engine.Types.Ingest.{Amount, Address, BlockContext, Protocol, Exchange}

pub data OpportunityKind : Type 0 where
  two_leg_loop triangle backrun jit_liquidity : OpportunityKind

pub record RouteLeg : Type 0 where
  pub venue : Option Exchange
  pub protocol : Option Protocol
  pub target : Address
  pub pool_address : Option Address
  pub token_in : Address
  pub token_out : Address
  pub amount_in : Option Amount
  pub min_amount_out : Option Amount

pub record Opportunity : Type 0 where
  pub id : Text
  pub kind : OpportunityKind
  pub block_context : BlockContext
  pub settlement_token : Address
  pub input_amount : Amount
  pub expected_output_amount : Amount
  pub expected_net_profit : Amount
  pub route : List RouteLeg
  pub trigger_tx_hash : Option Text

pub record SimulationResult : Type 0 where
  pub opportunity_id : Text
  pub accepted : Bool
  pub expected_gross_profit : Amount
  pub expected_net_profit : Amount
  pub gas_estimate : ℕ
  pub gas_cost_wei : Amount
  pub l1_data_fee : Amount
  pub notes : List Text

pub record RiskDecision : Type 0 where
  pub opportunity_id : Text
  pub accepted : Bool
  pub reason : Option Text
  pub risk_hash : Text
  pub min_surplus : Amount
