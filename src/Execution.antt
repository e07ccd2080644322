-- ===== src/Execution.antt =====
-- crates/execution/src/lib.rs: preparing an attempt, its life cycle, and the fee of a receipt. An
-- `anyhow` error is its outermost message. `ExecutionConfig` is from crates/config/src/lib.rs.
pub mod Prepare
pub mod Lifecycle
pub mod Reach
pub mod Settlement
pub mod Payload
pub mod Run
pub mod Gas
pub mod Nonce
pub mod Submit
pub mod Receipt
mod Tests
use base_execution_engine.Base.{
  Bool, Option, Result, fail_if, false, if◌then◌else◌, leb, ltb, none, not, ok, ok_or, some, true,
  unwrap_or, ℕ, ◌++◌, ◌/◌, ◌==◌, ◌>>=◌, ◌>>◌,
}
use base_execution_engine.Base.Text.{Text, is_empty, parse_uint, show_uint, text, text_eq, trim}
use base_execution_engine.Base.Words.{checked_add, checked_mul, fit, u128_max, u64_max}
use base_execution_engine.Types.{
  Amount, ExecutionAttempt, ExecutionOutcome, ExecutionReceipt, ExecutionRequest, ExecutionStatus,
  SimulationResult, built, dropped, included, profit_realized, reverted, submitted,
}

pub data ExecutionMode : Type 0 where
  shadow canary live : ExecutionMode

-- The fields that the execution crate reads.
pub record ExecutionConfig : Type 0 where
  pub mode : ExecutionMode
  pub submit_timeout_secs : ℕ
  pub receipt_timeout_secs : ℕ
  pub router_address : Option Text
  pub canary_max_trade_wei : Option Text
  pub canary_max_daily_wei : Option Text
  pub gas_limit_multiplier_bps : ℕ
  pub max_fee_per_gas_wei : Option Text
  pub max_priority_fee_per_gas_wei : Option Text
  pub plan_deadline_secs : ℕ
  pub use_flashloan : Bool

pub record PreparedExecution : Type 0 where
  pub attempt : ExecutionAttempt
  pub should_submit : Bool

pub record FinalizedExecution : Type 0 where
  pub attempt : ExecutionAttempt
  pub outcome : ExecutionOutcome

unfoldable pub padded_gas_limit : ℕ → ℕ → Result Text ℕ
padded_gas_limit gas_estimate multiplier_bps = do
  numerator ←
      ok_or (checked_mul u128_max gas_estimate multiplier_bps) (text "gas limit padding overflow")
  sum ← ok_or (checked_add u128_max numerator 9999) (text "gas limit padding overflow")
  ok_or (fit u64_max (sum / 10000)) (text "padded gas limit does not fit into u64")

unfoldable pub parse_optional_amount : Text → Option Text → Result Text (Option Amount)
parse_optional_amount key none = ok none
parse_optional_amount key (some raw) = do
  amount ← ok_or (parse_uint u128_max raw) (text "failed to parse " ++ key)
  ok (some amount)

unfoldable pub parse_required_amount : Text → Option Text → Result Text Amount
parse_required_amount key value = do
  raw ← ok_or value (key ++ text " is required for this execution mode")
  ok_or (parse_uint u128_max raw) (text "failed to parse " ++ key)

unfoldable pub execution_mode_label : ExecutionMode → Text
execution_mode_label shadow = text "shadow"
execution_mode_label canary = text "canary"
execution_mode_label live = text "live"

-- `submission_policy` in canary mode, after the two limits are read.
unfoldable pub canary_limits : Amount → Amount → Amount → Amount → Result Text (Bool × Option Text)
canary_limits max_trade max_daily requested_notional current_daily =
    if ltb max_trade requested_notional
    then ok (false, some (text "request exceeds canary per-trade notional limit"))
    else (do
      projected_daily ←
          ok_or (checked_add u128_max current_daily requested_notional)
            (text "canary daily requested notional overflow")
      if ltb max_daily projected_daily
          then ok (false, some (text "request exceeds canary daily notional limit"))
          else ok (true, none))

unfoldable pub canary_policy : ExecutionConfig → Amount → Amount → Result Text (Bool × Option Text)
canary_policy config requested_notional current_daily = do
  max_trade ←
      parse_required_amount (text "EXECUTION_CANARY_MAX_TRADE_WEI") config.canary_max_trade_wei
  max_daily ←
      parse_required_amount (text "EXECUTION_CANARY_MAX_DAILY_WEI") config.canary_max_daily_wei
  canary_limits max_trade max_daily requested_notional current_daily

unfoldable pub submission_policy :
    ExecutionMode → ExecutionConfig → Amount → Amount → Result Text (Bool × Option Text)
submission_policy shadow config requested_notional current_daily =
    ok (false, some (text "execution mode is configured for build-only operation"))
submission_policy canary config requested_notional current_daily =
    canary_policy config requested_notional current_daily
submission_policy live config requested_notional current_daily = ok (true, none)

unfoldable pub built_attempt :
    ExecutionConfig
    → ExecutionRequest
    → Amount
    → ℕ
    → Option Amount
    → Option Amount
    → Bool × Option Text
    → ExecutionAttempt
built_attempt config request requested_notional gas_limit max_fee max_priority_fee policy = record {
  request_id = request.opportunity_id;
  tx_hash = none;
  status = built;
  execution_mode = execution_mode_label config.mode;
  submission_allowed = policy.0;
  blocked_reason = policy.1;
  requested_notional = requested_notional;
  gas_limit = some gas_limit;
  max_fee_per_gas = max_fee;
  max_priority_fee_per_gas = max_priority_fee;
}

unfoldable pub prepare_execution :
    ExecutionConfig → ExecutionRequest → SimulationResult → Amount → Result Text PreparedExecution
prepare_execution config request simulation current_daily_requested_wei = do
  fail_if (is_empty request.steps) (text "execution request must contain at least one step")
  fail_if (unwrap_or request.flashloan_amount request.min_repay == 0)
      (text "execution request notional must be greater than zero")
  gas_limit ← padded_gas_limit simulation.gas_estimate config.gas_limit_multiplier_bps
  max_fee ← parse_optional_amount (text "EXECUTION_MAX_FEE_PER_GAS_WEI") config.max_fee_per_gas_wei
  max_priority_fee ←
      parse_optional_amount (text "EXECUTION_MAX_PRIORITY_FEE_PER_GAS_WEI")
        config.max_priority_fee_per_gas_wei
  policy ←
      submission_policy config.mode config (unwrap_or request.flashloan_amount request.min_repay)
        current_daily_requested_wei
  ok (record {
    attempt =
        built_attempt config request (unwrap_or request.flashloan_amount request.min_repay)
          gas_limit max_fee max_priority_fee policy;
    should_submit = policy.0;
  })

abbrev pub is_built : ExecutionStatus → Bool
is_built built = true
is_built _ = false

abbrev pub is_submitted : ExecutionStatus → Bool
is_submitted submitted = true
is_submitted _ = false

abbrev pub is_pending : ExecutionStatus → Bool
is_pending submitted = true
is_pending included = true
is_pending _ = false

unfoldable pub mark_submitted : ExecutionAttempt → Text → Result Text ExecutionAttempt
mark_submitted attempt tx_hash = do
  fail_if (not (is_built attempt.status))
      (text "only built execution attempts can transition to submitted")
  fail_if (not attempt.submission_allowed)
      (text "execution attempt is blocked and cannot transition to submitted")
  fail_if (is_empty (trim tx_hash)) (text "submitted transaction hash must not be empty")
  ok (record attempt { status = submitted; tx_hash = some tx_hash })

unfoldable pub total_fee_paid : ExecutionReceipt → Result Text (Option Amount)
total_fee_paid receipt = fee receipt.gas_used receipt.effective_gas_price
  where
    fee : Option ℕ → Option Amount → Result Text (Option Amount)
    fee (some gas_used) (some price) = do
      execution_fee ← ok_or (checked_mul u128_max gas_used price) (text "execution fee overflow")
      total ←
          ok_or (checked_add u128_max execution_fee (unwrap_or receipt.l1_fee_paid 0))
            (text "total fee overflow")
      ok (some total)
    fee none price = ok receipt.l1_fee_paid
    fee (some gas_used) none = ok receipt.l1_fee_paid

unfoldable pub classify_success : Option Amount → Amount → ExecutionStatus × Option Text
classify_success (some realized_surplus) min_surplus =
    if leb min_surplus realized_surplus then (profit_realized, none) else (
      included,
      some (
          text "transaction included but realized surplus "
          ++ (show_uint realized_surplus
              ++ (text " is below minimum required " ++ show_uint min_surplus))),
    )
classify_success none min_surplus =
    (included, some (text "transaction included but realized surplus is not yet known"))

-- The final status and its reason, from a receipt.
unfoldable pub classify_receipt :
    ExecutionReceipt → Option Amount → Amount → ExecutionStatus × Option Text
classify_receipt receipt realized_surplus min_surplus =
    if receipt.success
    then classify_success realized_surplus min_surplus
    else (reverted, some (unwrap_or receipt.revert_reason (text "transaction reverted on-chain")))

abbrev pub mismatches : Option Text → Text → Bool
mismatches none hash = false
mismatches (some tx_hash) hash = not (text_eq tx_hash hash)

unfoldable pub finalize_from_receipt :
    ExecutionAttempt → ExecutionReceipt → Option Amount → Amount → Result Text FinalizedExecution
finalize_from_receipt attempt receipt realized_surplus min_surplus = do
  fail_if (not (is_pending attempt.status))
      (text "only submitted or included attempts can be finalized from a receipt")
  fail_if (mismatches attempt.tx_hash receipt.tx_hash)
      (text "receipt transaction hash does not match the attempt")
  fee ← total_fee_paid receipt
  ok (record {
    attempt = record attempt {
      tx_hash = some receipt.tx_hash;
      status = (classify_receipt receipt realized_surplus min_surplus).0;
    };
    outcome = record {
      request_id = attempt.request_id;
      final_status = (classify_receipt receipt realized_surplus min_surplus).0;
      tx_hash = receipt.tx_hash;
      block_number = receipt.block_number;
      total_fee_paid = fee;
      realized_surplus = realized_surplus;
      reason = (classify_receipt receipt realized_surplus min_surplus).1;
    };
  })

unfoldable pub mark_dropped : ExecutionAttempt → Text → Result Text FinalizedExecution
mark_dropped attempt reason = do
  fail_if (not (is_submitted attempt.status))
      (text "only submitted execution attempts can transition to dropped")
  fail_if (is_empty (trim reason)) (text "dropped execution attempts must record a reason")
  tx_hash ←
      ok_or attempt.tx_hash (text "submitted execution attempt is missing its transaction hash")
  ok (record {
    attempt = record attempt { status = dropped };
    outcome = record {
      request_id = attempt.request_id;
      final_status = dropped;
      tx_hash = tx_hash;
      block_number = none;
      total_fee_paid = none;
      realized_surplus = none;
      reason = some reason;
    };
  })
