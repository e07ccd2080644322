-- ===== src/Risk/Policy.antt =====
-- crates/decision/src/risk.rs: the policy that is read from the configuration. The text of the error of
-- a number that is not read is a parameter.
use base_execution_engine.Base.{
  >>=-eq-ok, List, Option, Result, map, none, ok, ok-injective, ok_or, ok_or-eq-ok, some, ℕ, ◌++◌,
  ◌>>=◌, ◌≡◌, ◌≤◌,
}
use base_execution_engine.Base.Words.{u128_max}
use base_execution_engine.Base.Text.{Text, parse_uint, parse_uint-le, text, to_ascii_lowercase}
use base_execution_engine.Types.{Amount}
use base_execution_engine.Risk.{RiskPolicy}
use mathlib.Core.Path.{subst}

pub record RiskConfig : Type 0 where
  pub min_net_profit_wei : Text
  pub min_profit_bps : ℕ
  pub max_trade_notional_wei : Option Text
  pub max_per_block_notional_wei : Option Text
  pub max_daily_notional_wei : Option Text
  pub max_slippage_bps : ℕ
  pub token_allowlist : List Text
  pub token_denylist : List Text
  pub max_consecutive_reverts : ℕ
  pub kill_switch_path : Option Text

module _ (parse_error : Text → Text) where
  unfoldable pub parse_amount : Text → Result Text Amount
  parse_amount raw =
      ok_or (parse_uint u128_max raw)
        (text "invalid amount `" ++ (raw ++ (text "`: " ++ parse_error raw)))

  -- `map` and `transpose`
  unfoldable pub parse_cap : Option Text → Result Text (Option Amount)
  parse_cap none = ok none
  parse_cap (some raw) = do amount ← parse_amount raw; ok (some amount)

  unfoldable pub from_config : RiskConfig → Result Text RiskPolicy
  from_config config = do
    least ←
        ok_or (parse_uint u128_max config.min_net_profit_wei)
          (text "invalid RISK_MIN_NET_PROFIT_WEI: " ++ parse_error config.min_net_profit_wei)
    trade ← parse_cap config.max_trade_notional_wei
    per_block ← parse_cap config.max_per_block_notional_wei
    daily ← parse_cap config.max_daily_notional_wei
    ok (record {
      min_net_profit_wei = least;
      min_profit_bps = config.min_profit_bps;
      max_trade_notional_wei = trade;
      max_per_block_notional_wei = per_block;
      max_daily_notional_wei = daily;
      max_slippage_bps = config.max_slippage_bps;
      token_allowlist = map to_ascii_lowercase config.token_allowlist;
      token_denylist = map to_ascii_lowercase config.token_denylist;
      max_consecutive_reverts = config.max_consecutive_reverts;
      kill_switch_path = config.kill_switch_path;
    })

  -- A cap that is read fits 128 bits.
  abbrev IsCap : Option Amount → Type 0
  IsCap none = Unit {0}
  IsCap (some cap) = cap ≤ u128_max

  parse_cap-IsCap : (raw : Option Text) (cap : Option Amount) → parse_cap raw ≡ ok cap → IsCap cap
  unfolding parse_cap parse_amount
  parse_cap-IsCap none cap h = subst IsCap (ok-injective h) tt
  parse_cap-IsCap (some raw) cap h =
      let (amount, e, h1) = >>=-eq-ok (parse_amount raw) _ h in
      subst IsCap (ok-injective h1) (parse_uint-le u128_max raw amount (ok_or-eq-ok _ _ e))

  -- The numbers of a policy that is read fit 128 bits.
  from_config-IsCap :
      (config : RiskConfig) (policy : RiskPolicy)
      → from_config config ≡ ok policy
      → (policy.min_net_profit_wei ≤ u128_max)
        × IsCap policy.max_trade_notional_wei
        × IsCap policy.max_per_block_notional_wei
        × IsCap policy.max_daily_notional_wei
  unfolding from_config
  from_config-IsCap config policy h =
      let (least, e, h1) =
        >>=-eq-ok (ok_or (parse_uint u128_max config.min_net_profit_wei) _) _ h in
      let (trade, et, h2) = >>=-eq-ok (parse_cap config.max_trade_notional_wei) _ h1 in
      let (per_block, eb, h3) = >>=-eq-ok (parse_cap config.max_per_block_notional_wei) _ h2 in
      let (daily, ed, h4) = >>=-eq-ok (parse_cap config.max_daily_notional_wei) _ h3 in
      subst
        (λ (p : RiskPolicy).
          (p.min_net_profit_wei ≤ u128_max)
          × IsCap p.max_trade_notional_wei
          × IsCap p.max_per_block_notional_wei
          × IsCap p.max_daily_notional_wei)
        (ok-injective h4)
        (
          parse_uint-le u128_max _ least (ok_or-eq-ok _ _ e),
          parse_cap-IsCap _ trade et,
          parse_cap-IsCap _ per_block eb,
          parse_cap-IsCap _ daily ed,
        )
