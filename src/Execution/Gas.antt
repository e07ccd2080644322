-- ===== src/Execution/Gas.antt =====
-- crates/execution/src/gas.rs: the pricing policy. The provider's estimate is a parameter.
use base_execution_engine.Base.Text.{Text, text}
use base_execution_engine.Base.{
  Option, Result, arith, err, if◌then◌else◌, ltb, none, ok, refl, some, ℕ, ◌>>=◌, ◌≡◌, ◌≤◌,
}
use base_execution_engine.Types.{Amount}
use base_execution_engine.Execution.{ExecutionConfig, parse_optional_amount}

pub record GasPricing : Type 0 where
  pub max_fee_per_gas : Amount
  pub max_priority_fee_per_gas : Amount

pub record GasCaps : Type 0 where
  pub max_fee_cap : Option Amount
  pub max_priority_fee_cap : Option Amount

-- `GasCaps::from_config`
unfoldable pub caps_from_config : ExecutionConfig → Result Text GasCaps
caps_from_config config = do
  max_fee_cap ←
      parse_optional_amount (text "EXECUTION_MAX_FEE_PER_GAS_WEI") config.max_fee_per_gas_wei
  max_priority_fee_cap ←
      parse_optional_amount (text "EXECUTION_MAX_PRIORITY_FEE_PER_GAS_WEI")
        config.max_priority_fee_per_gas_wei
  ok (record { max_fee_cap = max_fee_cap; max_priority_fee_cap = max_priority_fee_cap })

unfoldable pub clamp : Option Amount → Amount → Amount
clamp none observed = observed
clamp (some cap) observed = if ltb cap observed then cap else observed

-- `estimate_fees`, on the provider's answer: the maximal fee and the priority fee, or its error.
unfoldable pub estimate_fees : Result Text (Amount × Amount) → GasCaps → Result Text GasPricing
estimate_fees (err e) caps = err (text "failed to estimate EIP-1559 fees from provider")
estimate_fees (ok (fee, tip)) caps =
    let max_fee = clamp caps.max_fee_cap fee in
    let max_tip = clamp caps.max_priority_fee_cap tip in
    ok (record {
      max_fee_per_gas = max_fee;
      max_priority_fee_per_gas = if ltb max_fee max_tip then max_fee else max_tip;
    })

abbrev pub Under : Option ℕ → ℕ → Type 0
Under none n = Unit
Under (some cap) n = n ≤ cap

-- A fee is the greatest number with the bounds it has to keep.
abbrev pub Greatest : (ℕ → Type 0) → ℕ → Type 0
Greatest P n = P n × ((m : ℕ) → P m → m ≤ n)

clamp-Greatest :
    (cap : Option ℕ) (observed : ℕ)
    → Greatest (λ (n : ℕ). (n ≤ observed) × Under cap n) (clamp cap observed)
unfolding clamp
clamp-Greatest none observed = ((omega arith, tt), λ m h. h.0)
clamp-Greatest (some cap) observed = (ground arith, λ m h. ground arith)

-- Every estimate of the provider is priced: the fee is the greatest number that is at most the
-- observed one and the cap, the priority fee the greatest that is at most the observed one, its own
-- cap and the fee.
pub estimate_fees-Greatest :
    (fee tip : ℕ) (caps : GasCaps)
    → (p : GasPricing) × (estimate_fees (ok (fee, tip)) caps ≡ ok p)
      × Greatest (λ (n : ℕ). (n ≤ fee) × Under caps.max_fee_cap n) p.max_fee_per_gas
      × Greatest
          (λ (n : ℕ). (n ≤ tip) × Under caps.max_priority_fee_cap n × (n ≤ p.max_fee_per_gas))
          p.max_priority_fee_per_gas
unfolding estimate_fees
estimate_fees-Greatest fee tip caps =
    let g = clamp-Greatest caps.max_fee_cap fee in
    let t = clamp-Greatest caps.max_priority_fee_cap tip in
    (
      _,
      refl,
      g,
      lower (clamp caps.max_fee_cap fee) (clamp caps.max_priority_fee_cap tip)
          caps.max_priority_fee_cap t,
    )
  where
    lower :
        (max_fee max_tip : ℕ) (cap : Option ℕ)
        → Greatest (λ (n : ℕ). (n ≤ tip) × Under cap n) max_tip
        → Greatest
            (λ (n : ℕ). (n ≤ tip) × Under cap n × (n ≤ max_fee))
            (if ltb max_fee max_tip then max_fee else max_tip)
    lower max_fee max_tip none t =
        let u = t.0.0 in
        (ground arith, λ m h. let c = t.1 m (h.0, tt) in let d = h.2 in ground arith)
    lower max_fee max_tip (some cap) t =
        let u = t.0.0 in
        let v = t.0.1 in
        (ground arith, λ m h. let c = t.1 m (h.0, h.1) in let d = h.2 in ground arith)
