-- ===== src/Markets/V3/Tests.antt =====
-- The theorems on V3 pools at a concrete pool and log.
use base_execution_engine.Base.{refl, ◌^◌, ◌≡◌}
use base_execution_engine.Base.Text.{ascii_lower, eq_ignore_ascii_case, text_eq, to_ascii_lowercase}
use base_execution_engine.Base.Words.{checked_sub, fit}
use base_execution_engine.Base.Int.{is_nonpositive, pos}
use base_execution_engine.Samples.{weth, asset, pool3, swap_log, parse_price}
use base_execution_engine.Markets.Error.{PoolQuote, applied, block_number}
use base_execution_engine.Markets.V3.{
  validate, direction, next_sqrt_price, output_amount, less_fee, mul_u256, div_round_up,
  u256_to_u128, price_impact_bps, quote_exact_in, apply_v3_swap_event, apply_decoded, apply_log,
}
use base_execution_engine.Markets.V3.Quote.{
  IsValid, validate-IsValid_iff, InRange, quote_exact_in-InRange,
}
use base_execution_engine.Markets.V3.Swap.{swapped, IsSane, IsValid-IsSane, apply_log-IsSane}

abbrev quote3 : PoolQuote
quote3 = record {
  pool_address = pool3.address;
  token_in = weth;
  token_out = asset;
  amount_in = 1000000000000000;
  amount_out = 996990060009101;
  fee_bps = 30;
  price_impact_bps = 0;
}

pool3-IsValid : IsValid pool3
unfolding validate text_eq is_nonpositive
pool3-IsValid = (validate-IsValid_iff pool3).0 refl

quote_exact_in-InRange_example : InRange pool3 weth 1000000000000000 quote3
unfolding quote_exact_in direction less_fee next_sqrt_price output_amount mul_u256 div_round_up
    u256_to_u128 price_impact_bps fit checked_sub eq_ignore_ascii_case to_ascii_lowercase
    ascii_lower text_eq
quote_exact_in-InRange_example =
    quote_exact_in-InRange pool3 weth 1000000000000000 quote3 pool3-IsValid refl

apply_log-IsSane_example :
    IsSane (swapped parse_price pool3 swap_log (2 ^ 98) 500 (pos 13863))
    × (pool3.address ≡ pool3.address)
unfolding apply_log apply_decoded apply_v3_swap_event eq_ignore_ascii_case to_ascii_lowercase
    ascii_lower text_eq block_number
apply_log-IsSane_example =
    apply_log-IsSane parse_price pool3 swap_log applied _ (IsValid-IsSane pool3-IsValid) refl
