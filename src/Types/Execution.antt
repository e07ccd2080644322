-- ===== src/Types/Execution.antt =====
-- crates/types/src/execution.rs.
use base_execution_engine.Base.{ℕ, Option, List, Bool}
use base_execution_engine.Base.Text.{Text}
use base_execution_engine.Types.Ingest.{Amount, Address, BlockNumber, Protocol, Exchange}

pub data ExecutionStatus : Type 0 where
  built submitted included reverted dropped replaced profit_realized : ExecutionStatus

pub record ExecutionStep : Type 0 where
  pub venue : Option Exchange
  pub protocol : Option Protocol
  pub target : Address
  pub token_in : Address
  pub token_out : Address
  pub pool_fee : Option ℕ
  pub amount_in : Option Amount
  pub min_amount_out : Amount
  pub calldata_hint : Option Text
  pub aux_address : Option Address

pub record ExecutionRequest : Type 0 where
  pub opportunity_id : Text
  pub steps : List ExecutionStep
  pub min_repay : Amount
  pub min_surplus : Amount
  pub flashloan_asset : Option Address
  pub flashloan_amount : Option Amount
  pub risk_hash : Text

pub record ExecutionAttempt : Type 0 where
  pub request_id : Text
  pub tx_hash : Option Text
  pub status : ExecutionStatus
  pub execution_mode : Text
  pub submission_allowed : Bool
  pub blocked_reason : Option Text
  pub requested_notional : Amount
  pub gas_limit : Option ℕ
  pub max_fee_per_gas : Option Amount
  pub max_priority_fee_per_gas : Option Amount

pub record ExecutionReceipt : Type 0 where
  pub request_id : Text
  pub tx_hash : Text
  pub block_number : Option BlockNumber
  pub success : Bool
  pub gas_used : Option ℕ
  pub effective_gas_price : Option Amount
  pub l1_fee_paid : Option Amount
  pub revert_reason : Option Text

pub record ExecutionOutcome : Type 0 where
  pub request_id : Text
  pub final_status : ExecutionStatus
  pub tx_hash : Text
  pub block_number : Option BlockNumber
  pub total_fee_paid : Option Amount
  pub realized_surplus : Option Amount
  pub reason : Option Text
