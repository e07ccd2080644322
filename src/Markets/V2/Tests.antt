-- ===== src/Markets/V2/Tests.antt =====
-- The theorems on V2 pools at concrete pools and logs.
use base_execution_engine.Base.{arith, refl, true, ◌*◌, ◌+◌, ◌-◌, ◌↔◌, ◌≡◌, ◌≤◌}
use base_execution_engine.Base.Text.{ascii_lower, eq_ignore_ascii_case, text_eq, to_ascii_lowercase}
use base_execution_engine.Base.Words.{checked_sub, fit}
use base_execution_engine.Samples.{weth, asset, pool1, sync_log}
use base_execution_engine.Markets.Error.{PoolQuote, applied, block_number}
use base_execution_engine.Markets.V2.{
  validate, sides, swap_output, estimate_price_impact_bps, quote_exact_in, contains_token,
  apply_sync, apply_sync_event, apply_decoded, apply_log,
}
use base_execution_engine.Markets.V2.Product.{swap_output_back, le-swap_output_iff}
use base_execution_engine.Markets.V2.Quote.{
  IsValid, validate-IsValid_iff, Sound, quote_exact_in-Sound,
}
use base_execution_engine.Markets.V2.Total.{reserve_in, reserve_out, Answer, quote_exact_in_total}
use base_execution_engine.Markets.V2.Sync.{Outcome, apply_log-Outcome, synced}

abbrev quote1 : PoolQuote
quote1 = record {
  pool_address = pool1.address;
  token_in = weth;
  token_out = asset;
  amount_in = 1000000;
  amount_out = 2490017;
  fee_bps = 30;
  price_impact_bps = 40;
}

le-swap_output_iff_example : (2000 ≤ 2490017) ↔ (
    1000000000 * 10000 * 2500000000 ≤ (1000000000 * 10000 + 1000000 * 9970) * (2500000000 - 2000))
unfolding swap_output fit checked_sub
le-swap_output_iff_example =
    le-swap_output_iff 1000000000 2500000000 30 1000000 2490017 2000 refl (omega arith)
      (omega arith)

swap_output_back_example : 994014 ≤ 1000000
unfolding swap_output fit checked_sub
swap_output_back_example =
    swap_output_back 1000000000 2500000000 30 1000000 2490017 994014 refl refl (omega arith)
      (omega arith)

quote_exact_in-Sound_example : Sound pool1 weth 1000000 quote1
unfolding quote_exact_in sides swap_output estimate_price_impact_bps fit checked_sub
    eq_ignore_ascii_case to_ascii_lowercase ascii_lower text_eq
quote_exact_in-Sound_example = quote_exact_in-Sound pool1 weth 1000000 quote1 refl

apply_log-Outcome_example :
    Outcome pool1 sync_log applied (synced pool1 sync_log 1100000000 2300000000)
unfolding apply_log apply_decoded apply_sync_event apply_sync eq_ignore_ascii_case
    to_ascii_lowercase ascii_lower text_eq block_number
apply_log-Outcome_example = apply_log-Outcome pool1 sync_log applied _ refl

pool1_holds : contains_token pool1 weth ≡ true
unfolding contains_token eq_ignore_ascii_case to_ascii_lowercase ascii_lower text_eq
pool1_holds = refl

pool1-IsValid : IsValid pool1
unfolding validate text_eq
pool1-IsValid = (validate-IsValid_iff pool1).0 refl

quote_exact_in_total_example :
    Answer pool1 weth 1000000 (reserve_in pool1 weth) (reserve_out pool1 weth)
unfolding eq_ignore_ascii_case text_eq to_ascii_lowercase ascii_lower
quote_exact_in_total_example =
    quote_exact_in_total pool1 weth 1000000 pool1-IsValid pool1_holds (omega arith) (record {
      numerator = omega arith;
      denominator = omega arith;
      price = omega arith;
      impact = omega arith;
    })
