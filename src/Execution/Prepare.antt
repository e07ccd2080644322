-- ===== src/Execution/Prepare.antt =====
-- `prepare_execution`: the gas limit, and when an attempt may be submitted.
use base_execution_engine.Base.Text.{Text, is_empty, text}
use base_execution_engine.Base.Words.{fit, u32_max, u64_max}
use base_execution_engine.Base.{
  >>=-eq-ok, Bool, Option, arith, fail_if_ok, false, ok, ok-injective, refl, true, unwrap_or, ℕ,
  ◌*◌, ◌+◌, ◌<◌, ◌==◌, ◌↔◌, ◌∙◌, ◌≡◌, ◌≤◌,
}
use base_execution_engine.Types.{ExecutionRequest, SimulationResult}
use mathlib.Core.Path.{subst}
use base_execution_engine.Execution.{
  ExecutionConfig, ExecutionMode, shadow, canary, live, PreparedExecution, built_attempt,
  prepare_execution, padded_gas_limit, parse_optional_amount, parse_required_amount,
  submission_policy, canary_policy, canary_limits,
}

-- The notional of a request.
abbrev pub notional : ExecutionRequest → ℕ
notional request = unwrap_or request.flashloan_amount request.min_repay

-- For an estimate of 64 bits and a multiplier of 32, a limit is returned exactly when it fits 64
-- bits and is the least number of gas units that is at least the estimate times the multiplier in
-- basis points.
pub padded_gas_limit_iff :
    (estimate multiplier limit : ℕ)
    → estimate ≤ u64_max
    → multiplier ≤ u32_max
    → (padded_gas_limit estimate multiplier ≡ ok limit) ↔ (
        (limit ≤ u64_max)
        × (estimate * multiplier ≤ 10000 * limit)
        × (10000 * limit < estimate * multiplier + 10000))
unfolding padded_gas_limit fit
padded_gas_limit_iff estimate multiplier limit he hm = (λ h. ground arith, λ k. ground arith)

-- What a successful preparation went through.
pub record Preparation (config : ExecutionConfig) (request : ExecutionRequest)
    (simulation : SimulationResult) (daily : ℕ) (p : PreparedExecution) : Type 0 where
  pub has_steps : is_empty request.steps ≡ false
  pub positive : 0 < notional request
  pub gas_limit : ℕ
  pub gas : padded_gas_limit simulation.gas_estimate config.gas_limit_multiplier_bps ≡ ok gas_limit
  pub max_fee : Option ℕ
  pub max_priority_fee : Option ℕ
  pub policy : Bool × Option Text
  pub decided : submission_policy config.mode config (notional request) daily ≡ ok policy
  pub attempt :
      p.attempt
      ≡ built_attempt config request (notional request) gas_limit max_fee max_priority_fee policy
  pub should_submit : p.should_submit ≡ policy.0

pub prepare-Preparation :
    (config : ExecutionConfig) (request : ExecutionRequest) (simulation : SimulationResult)
    (daily : ℕ) (p : PreparedExecution)
    → prepare_execution config request simulation daily ≡ ok p
    → Preparation config request simulation daily p
unfolding prepare_execution
prepare-Preparation config request simulation daily p h =
    let (e1, h1) = fail_if_ok (is_empty request.steps) _ _ h in
    let (e2, h2) = fail_if_ok (notional request == 0) _ _ h1 in
    let (gas, e3, h3) =
      >>=-eq-ok (padded_gas_limit simulation.gas_estimate config.gas_limit_multiplier_bps) _ h2 in
    let (fee, e4, h4) = >>=-eq-ok (parse_optional_amount _ config.max_fee_per_gas_wei) _ h3 in
    let (tip, e5, h5) =
      >>=-eq-ok (parse_optional_amount _ config.max_priority_fee_per_gas_wei) _ h4 in
    let (policy, e6, h6) =
      >>=-eq-ok (submission_policy config.mode config (notional request) daily) _ h5 in
    subst (Preparation config request simulation daily) (ok-injective h6) (record {
      has_steps = e1;
      positive = ground arith;
      gas_limit = gas;
      gas = e3;
      max_fee = fee;
      max_priority_fee = tip;
      policy = policy;
      decided = e6;
      attempt = refl;
      should_submit = refl;
    })

-- What each mode asks of a request that may be submitted.
abbrev pub Within : ExecutionMode → ExecutionConfig → ℕ → ℕ → Type 0
Within shadow config amount daily = ⊥
Within live config amount daily = Unit
Within canary config amount daily =
    (max_trade : ℕ) × (max_daily : ℕ) × (parse_required_amount
        (text "EXECUTION_CANARY_MAX_TRADE_WEI") config.canary_max_trade_wei
      ≡ ok max_trade)
    × (parse_required_amount (text "EXECUTION_CANARY_MAX_DAILY_WEI") config.canary_max_daily_wei
        ≡ ok max_daily)
    × (amount ≤ max_trade)
    × (daily + amount ≤ max_daily)

canary_limits-within :
    (max_trade max_daily amount daily : ℕ) (reason : Option Text)
    → canary_limits max_trade max_daily amount daily ≡ ok (true, reason)
    → (amount ≤ max_trade) × (daily + amount ≤ max_daily)
unfolding canary_limits fit
canary_limits-within max_trade max_daily amount daily reason h = ground arith

canary-Within :
    (config : ExecutionConfig) (amount daily : ℕ) (reason : Option Text)
    → canary_policy config amount daily ≡ ok (true, reason)
    → Within canary config amount daily
unfolding canary_policy
canary-Within config amount daily reason h =
    let (max_trade, e1, h1) = >>=-eq-ok (parse_required_amount _ config.canary_max_trade_wei) _ h in
    let (max_daily, e2, h2) =
      >>=-eq-ok (parse_required_amount _ config.canary_max_daily_wei) _ h1 in
    let (t, d) = canary_limits-within max_trade max_daily amount daily reason h2 in
    (max_trade, max_daily, e1, e2, t, d)

policy-Within :
    (mode : ExecutionMode) (config : ExecutionConfig) (amount daily : ℕ) (reason : Option Text)
    → submission_policy mode config amount daily ≡ ok (true, reason)
    → Within mode config amount daily
unfolding submission_policy
policy-Within shadow config amount daily reason h = cc
policy-Within canary config amount daily reason h = canary-Within config amount daily reason h
policy-Within live config amount daily reason h = tt

-- An attempt that may be submitted comes from a request with steps and a positive notional; it is
-- never prepared in shadow mode, and in canary mode its notional and the day's total with it are
-- within the two configured limits.
pub prepare-Within :
    (config : ExecutionConfig) (request : ExecutionRequest) (simulation : SimulationResult)
    (daily : ℕ) (p : PreparedExecution)
    → prepare_execution config request simulation daily ≡ ok p
    → p.should_submit ≡ true
    → Preparation config request simulation daily p
      × Within config.mode config (notional request) daily
prepare-Within config request simulation daily p h s =
    let k = prepare-Preparation config request simulation daily p h in
    (
      k,
      policy-Within config.mode config (notional request) daily k.policy.1
          (k.decided ∙ (let e = k.should_submit in cc)),
    )
