-- ===== src/Execution/Tests.antt =====
-- The theorems on execution at a concrete configuration, request and receipt.
use base_execution_engine.Base.{
  [], arith, err, false, none, ok, refl, some, true, ℕ, ◌*◌, ◌+◌, ◌<◌, ◌↔◌, ◌∷◌, ◌≡◌, ◌≤◌,
}
use base_execution_engine.Base.Text.{
  Text, is_whitespace, parse_digits, parse_uint, text, text_eq, trim, trim_start,
}
use base_execution_engine.Base.Words.{fit, u64_max}
use base_execution_engine.Types.{
  ExecutionAttempt, ExecutionReceipt, ExecutionRequest, built, submitted,
}
use base_execution_engine.Samples.{weth, asset, pool1, simulated}
use base_execution_engine.Execution.{
  ExecutionConfig, canary, FinalizedExecution, padded_gas_limit, parse_required_amount,
  parse_optional_amount, submission_policy, canary_policy, canary_limits, built_attempt,
  prepare_execution, execution_mode_label, mark_submitted, finalize_from_receipt,
}
use base_execution_engine.Execution.Prepare.{
  Preparation, Within, notional, padded_gas_limit_iff, prepare-Within,
}
use base_execution_engine.Execution.Reach.{
  prepared, submits, IsTracked, Advance, KeepsHash, is_final, Reachable-Advance,
}
use base_execution_engine.Execution.Settlement.{Verdict, fee_of, finalize_total}
use base_execution_engine.Execution.Gas.{
  GasPricing, GasCaps, estimate_fees, Greatest, Under, estimate_fees-Greatest,
}
use base_execution_engine.Execution.Nonce.{
  NonceState, default_state, sync_from_chain, next_nonce, release, release-next_nonce, Run, synced,
  reserved, AllDistinct, held_distinct,
}
use base_execution_engine.Execution.Payload.{
  SubmissionPayload, Carries, read_hint, route_arm, build_route_step, build_steps, parse_risk_hash,
  starts_with_0x, build_submission_payload_at, build_submission_payload-Carries,
}
use base_execution_engine.Execution.Run.{
  submitted_pending, execute_with_transport, submit_and_settle, submit_in_time, settle, Traced,
  execute-Traced,
}
use base_execution_engine.Execution.Submit.{Accounted, submit_inner, submit_inner-Accounted}

abbrev config : ExecutionConfig
config = record {
  mode = canary;
  submit_timeout_secs = 5;
  receipt_timeout_secs = 30;
  router_address = some (b'r' ∷ []);
  canary_max_trade_wei = some (b'9' ∷ b'0' ∷ b'0' ∷ []);
  canary_max_daily_wei = some (b'9' ∷ b'5' ∷ b'0' ∷ []);
  gas_limit_multiplier_bps = 12000;
  max_fee_per_gas_wei = some (b'7' ∷ []);
  max_priority_fee_per_gas_wei = none;
  plan_deadline_secs = 60;
  use_flashloan = true;
}

-- A request of one step of the V2 kind.
abbrev request : ExecutionRequest
request = record {
  opportunity_id = b'i' ∷ [];
  steps =
      record {
        venue = none;
        protocol = none;
        target = pool1.address;
        token_in = weth;
        token_out = asset;
        pool_fee = none;
        amount_in = some 800;
        min_amount_out = 900;
        calldata_hint = some (text "v2_exact_input");
        aux_address = none;
      }
      ∷ [];
  min_repay = 800;
  min_surplus = 10;
  flashloan_asset = some weth;
  flashloan_amount = some 800;
  risk_hash = b'h' ∷ [];
}

abbrev attempt : ExecutionAttempt
attempt = record {
  request_id = b'i' ∷ [];
  tx_hash = none;
  status = built;
  execution_mode = text "canary";
  submission_allowed = true;
  blocked_reason = none;
  requested_notional = 800;
  gas_limit = some 216000;
  max_fee_per_gas = some 7;
  max_priority_fee_per_gas = none;
}

prepares :
    prepare_execution config request simulated 100
    ≡ ok (record { attempt = attempt; should_submit = true })
unfolding prepare_execution padded_gas_limit parse_required_amount parse_optional_amount
    submission_policy canary_policy canary_limits built_attempt execution_mode_label fit parse_uint
    parse_digits text
prepares = refl

padded_gas_limit_iff_example : (padded_gas_limit 180000 12000 ≡ ok 216000) ↔ (
    (216000 ≤ u64_max)
    × (180000 * 12000 ≤ 10000 * 216000)
    × (10000 * 216000 < 180000 * 12000 + 10000))
padded_gas_limit_iff_example = padded_gas_limit_iff 180000 12000 216000 (omega arith) (omega arith)

prepare-Within_example :
    Preparation config request simulated 100 (record { attempt = attempt; should_submit = true })
    × Within config.mode config (notional request) 100
prepare-Within_example = prepare-Within config request simulated 100 _ prepares refl

-- The attempt with a hash.
abbrev pending_attempt : ExecutionAttempt
pending_attempt = record attempt { status = submitted; tx_hash = some (b't' ∷ []) }

Reachable-Advance_example :
    IsTracked attempt
    × Advance attempt pending_attempt
    × KeepsHash attempt pending_attempt
    × (is_final attempt.status ≡ false)
    × (attempt.submission_allowed ≡ true)
unfolding mark_submitted trim trim_start is_whitespace
Reachable-Advance_example =
    Reachable-Advance attempt pending_attempt (prepared config request simulated 100 _ prepares)
      (submits attempt pending_attempt (b't' ∷ []) refl)

abbrev receipt : ExecutionReceipt
receipt = record {
  request_id = b'i' ∷ [];
  tx_hash = b't' ∷ [];
  block_number = some 9;
  success = true;
  gas_used = some 150000;
  effective_gas_price = some 6;
  l1_fee_paid = some 11;
  revert_reason = none;
}

finalize_total_example :
    (f : FinalizedExecution) × (finalize_from_receipt pending_attempt receipt (some 25) 10 ≡ ok f)
    × (f.outcome.total_fee_paid ≡ fee_of (some 150000) (some 6) (some 11))
    × (f.attempt.status ≡ f.outcome.final_status)
    × Verdict true (some 25) 10 f.outcome.final_status
unfolding text_eq
finalize_total_example = finalize_total pending_attempt receipt (some 25) 10 refl refl (omega arith)

abbrev caps : GasCaps
caps = record { max_fee_cap = some 7; max_priority_fee_cap = none }

estimate_fees-Greatest_example :
    (p : GasPricing) × (estimate_fees (ok (12, 9)) caps ≡ ok p)
    × Greatest (λ (n : ℕ). (n ≤ 12) × Under (some 7) n) p.max_fee_per_gas
    × Greatest
        (λ (n : ℕ). (n ≤ 9) × Under none n × (n ≤ p.max_fee_per_gas))
        p.max_priority_fee_per_gas
estimate_fees-Greatest_example = estimate_fees-Greatest 12 9 caps

-- A manager that was synchronised at 7 and has handed out one nonce.
abbrev manager : NonceState
manager = record { next = 8; initialised = true }

one_held : Run (7 ∷ []) manager
unfolding sync_from_chain next_nonce fit
one_held =
    reserved [] (record { next = 7; initialised = true }) manager 7
      (synced default_state 7 (omega arith)) refl

held_distinct_example : AllDistinct (8 ∷ 7 ∷ [])
unfolding next_nonce fit
held_distinct_example =
    held_distinct (7 ∷ []) manager (record { next = 9; initialised = true }) 8 one_held refl

release-next_nonce_example : release 8 (record { next = 9; initialised = true }) ≡ manager
unfolding next_nonce fit
release-next_nonce_example =
    release-next_nonce manager (record { next = 9; initialised = true }) 8 refl

-- Addresses and hashes are texts here, and the encoder keeps nothing.
abbrev payload : SubmissionPayload
payload = record { router_address = b'r' ∷ []; calldata = []; value = 0 }

build_submission_payload-Carries_example :
    Carries Text Text some (λ a. a) (λ a. a) some (λ loan plan. []) config request 1000 payload
unfolding build_submission_payload_at build_steps build_route_step route_arm read_hint
    parse_risk_hash starts_with_0x text text_eq fit
build_submission_payload-Carries_example =
    build_submission_payload-Carries Text Text some (λ a. a) (λ a. a) some (λ loan plan. []) config
      request 1000 payload refl

submit_inner-Accounted_example :
    Accounted Text Text some
      (ok (12, 9))
      (λ to input gas value. ok tt)
      (λ tx. ok (b's' ∷ []))
      (λ raw. ok (b't' ∷ []))
      8453
      caps
      payload
      attempt
      manager
      (submit_inner Text Text some
        (ok (12, 9))
        (λ to input gas value. ok tt)
        (λ tx. ok (b's' ∷ []))
        (λ raw. ok (b't' ∷ []))
        8453
        caps
        payload
        attempt
        manager)
submit_inner-Accounted_example =
    submit_inner-Accounted Text Text some (ok (12, 9)) (λ to input gas value. ok tt)
      (λ tx. ok (b's' ∷ [])) (λ raw. ok (b't' ∷ [])) 8453 caps payload attempt manager

execute-Traced_example :
    Traced
      (λ c r. ok payload)
      (λ p a. some (ok (b't' ∷ [])))
      (λ r a t. err [])
      config
      request
      simulated
      100
      (submitted_pending pending_attempt)
unfolding execute_with_transport submit_and_settle submit_in_time settle mark_submitted trim
    trim_start is_whitespace prepare_execution padded_gas_limit parse_required_amount
    parse_optional_amount submission_policy canary_policy canary_limits built_attempt
    execution_mode_label fit parse_uint parse_digits text
execute-Traced_example =
    execute-Traced (λ c r. ok payload) (λ p a. some (ok (b't' ∷ []))) (λ r a t. err []) config
      request simulated 100 (submitted_pending pending_attempt) refl
