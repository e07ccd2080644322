-- ===== src/Markets/V3.antt =====
-- crates/markets/src/v3.rs: the state of a concentrated-liquidity pool, its in-range quote, and the
-- update from a `Swap` log. A `U256` is a number up to `u256_max`; `checked_mul` and `checked_add`
-- fail above it and the plain operators wrap. `U256::from_str_radix(_, 10)` belongs to the package
-- alloy_primitives and is the parameter `parse_u256`.
pub mod Bounds
pub mod Quote
pub mod Swap
mod Tests
use Prim.Native.Nat.{min}
use base_execution_engine.Base.{
  Bool, Option, Result, err, fail_if, false, if◌then◌else◌, leb, ltb, none, ok, ok_or, some, true,
  ℕ, ◌%◌, ◌*◌, ◌+◌, ◌-◌, ◌/◌, ◌==◌, ◌>>=◌, ◌>>◌, ◌^◌, ◌||◌,
}
use base_execution_engine.Base.Words.{
  checked_add, checked_mul, checked_sub, u128_max, u256_max, u32_max,
}
use base_execution_engine.Base.Text.{Text, eq_ignore_ascii_case, text, text_eq}
use base_execution_engine.Base.Int.{is_nonpositive, ℤ}
use base_execution_engine.Types.{
  Address, Amount, BlockNumber, DecodedLogEvent, DecodedLogKind, Exchange, Log, Protocol, v3_swap,
}
use base_execution_engine.Markets.Error.{
  MarketError, invalid_pool, unknown_token, insufficient_input, insufficient_liquidity,
  missing_decoded_field, arithmetic_overflow, MarketEventOutcome, applied, ignored, PoolQuote,
  block_number, or_overflow,
}

abbrev pub fee_pips_denominator : ℕ
fee_pips_denominator = 1000000

abbrev pub max_in_range_impact_bps : ℕ
max_in_range_impact_bps = 500

abbrev pub q96 : ℕ
q96 = 2 ^ 96

abbrev pub max_sqrt_price : ℕ
max_sqrt_price = 1461446703485210103287273052203988822378723970342

abbrev pub min_sqrt_price : ℕ
min_sqrt_price = 4295128739

pub record V3PoolState : Type 0 where
  pub address : Address
  pub protocol : Protocol
  pub exchange : Option Exchange
  pub token0 : Address
  pub token1 : Address
  pub fee_pips : ℕ
  pub tick_spacing : ℤ
  pub sqrt_price_x96 : ℕ
  pub liquidity : ℕ
  pub tick : ℤ
  pub last_updated_block : Option BlockNumber

abbrev pub out_of_range : ℕ → Bool
out_of_range price = ltb price min_sqrt_price || ltb max_sqrt_price price

unfoldable pub validate : V3PoolState → Result MarketError (Unit {0})
validate p = do
  fail_if (text_eq p.token0 p.token1)
      (invalid_pool (text "v3 pool tokens must be distinct addresses"))
  fail_if (leb fee_pips_denominator p.fee_pips)
      (invalid_pool (text "v3 fee_pips must be lower than 1_000_000"))
  fail_if (is_nonpositive p.tick_spacing) (invalid_pool (text "v3 tick_spacing must be positive"))
  fail_if (out_of_range p.sqrt_price_x96)
      (invalid_pool (text "v3 sqrt_price_x96 outside the protocol-defined range"))
  fail_if (p.liquidity == 0) insufficient_liquidity

-- `V3PoolState::new`
unfoldable pub new_pool :
    Address
    → Protocol
    → Option Exchange
    → Address
    → Address
    → ℕ
    → ℤ
    → ℕ
    → ℕ
    → ℤ
    → Result MarketError V3PoolState
new_pool address protocol exchange token0 token1 fee_pips tick_spacing price liquidity tick =
    let state : V3PoolState = record {
      address = address;
      protocol = protocol;
      exchange = exchange;
      token0 = token0;
      token1 = token1;
      fee_pips = fee_pips;
      tick_spacing = tick_spacing;
      sqrt_price_x96 = price;
      liquidity = liquidity;
      tick = tick;
      last_updated_block = none;
    } in
    validate state >> ok state

unfoldable pub contains_token : V3PoolState → Address → Bool
contains_token p token = eq_ignore_ascii_case p.token0 token || eq_ignore_ascii_case p.token1 token

unfoldable pub other_token : V3PoolState → Address → Option Address
other_token p token =
    if eq_ignore_ascii_case p.token0 token
    then some p.token1
    else if eq_ignore_ascii_case p.token1 token
    then some p.token0
    else none

unfoldable pub mul_u256 : ℕ → ℕ → Result MarketError ℕ
mul_u256 a b = or_overflow (checked_mul u256_max a b)

unfoldable pub div_round_up : ℕ → ℕ → Result MarketError ℕ
div_round_up n d = do
  fail_if (d == 0) arithmetic_overflow
  if n % d == 0 then ok (n / d) else or_overflow (checked_add u256_max (n / d) 1)

-- The two upper limbs must be zero.
unfoldable pub u256_to_u128 : ℕ → Result MarketError ℕ
u256_to_u128 v = if v / 2 ^ 128 == 0 then ok v else err arithmetic_overflow

-- The subtractions do not underflow behind their tests; the product wraps at 2 ^ 256.
unfoldable pub price_impact_bps : ℕ → ℕ → Bool → ℕ
price_impact_bps before after true =
    if leb before after then 0 else min (((before - after) * 20000) % 2 ^ 256 / before) u32_max
price_impact_bps before after false =
    if leb after before then 0 else min (((after - before) * 20000) % 2 ^ 256 / before) u32_max

-- Whether token0 is sold.
unfoldable pub direction : V3PoolState → Address → Result MarketError Bool
direction p token_in =
    if eq_ignore_ascii_case token_in p.token0
    then ok true
    else if eq_ignore_ascii_case token_in p.token1
    then ok false
    else err (unknown_token p.address token_in)

-- Step 2 of the quote: the price after the swap. The first argument is `zero_for_one`.
unfoldable pub next_sqrt_price : Bool → ℕ → ℕ → ℕ → Result MarketError ℕ
next_sqrt_price true liquidity price amount = do
  numerator1 ← mul_u256 liquidity q96
  divisor ← or_overflow (checked_add u256_max (numerator1 / price) amount)
  div_round_up numerator1 divisor
next_sqrt_price false liquidity price amount = do
  numerator1 ← mul_u256 liquidity q96
  scaled ← mul_u256 amount q96
  or_overflow (checked_add u256_max price (scaled / liquidity))

-- Step 4 of the quote: the amount out from the change of the price.
unfoldable pub output_amount : Bool → ℕ → ℕ → ℕ → Result MarketError ℕ
output_amount true liquidity price next = do
  diff ← or_overflow (checked_sub price next)
  product ← mul_u256 liquidity diff
  ok (product / q96)
output_amount false liquidity price next = do
  diff ← or_overflow (checked_sub next price)
  product ← mul_u256 liquidity diff
  numerator ← mul_u256 product q96
  denominator ← mul_u256 price next
  ok (numerator / denominator)

-- `1_000_000 - fee_pips` is unchecked: it wraps for a fee that `validate` refuses.
unfoldable pub less_fee : ℕ → Amount → Result MarketError ℕ
less_fee fee_pips amount_in = do
  scaled ←
      or_overflow
        (checked_mul u128_max amount_in ((fee_pips_denominator + 2 ^ 128 - fee_pips) % 2 ^ 128))
  ok (scaled / fee_pips_denominator)

unfoldable pub quote_exact_in : V3PoolState → Address → Amount → Result MarketError PoolQuote
quote_exact_in p token_in amount_in = do
  fail_if (amount_in == 0) insufficient_input
  fail_if (p.liquidity == 0) insufficient_liquidity
  zero_for_one ← direction p token_in
  amount ← less_fee p.fee_pips amount_in
  fail_if (amount == 0) insufficient_input
  next ← next_sqrt_price zero_for_one p.liquidity p.sqrt_price_x96 amount
  fail_if (ltb max_in_range_impact_bps (price_impact_bps p.sqrt_price_x96 next zero_for_one))
      insufficient_liquidity
  out_u256 ← output_amount zero_for_one p.liquidity p.sqrt_price_x96 next
  amount_out ← u256_to_u128 out_u256
  fail_if (amount_out == 0) insufficient_liquidity
  ok (record {
    pool_address = p.address;
    token_in = token_in;
    token_out = if zero_for_one then p.token1 else p.token0;
    amount_in = amount_in;
    amount_out = amount_out;
    fee_bps = (p.fee_pips + 99) / 100;
    price_impact_bps = price_impact_bps p.sqrt_price_x96 next zero_for_one;
  })

module _ (parse_u256 : Text → Option ℕ) where
  unfoldable pub apply_v3_swap_event :
      V3PoolState → DecodedLogEvent → Result MarketError V3PoolState
  apply_v3_swap_event p decoded = do
    raw ← ok_or decoded.sqrt_price_x96 (missing_decoded_field (text "sqrt_price_x96"))
    price ← ok_or (parse_u256 raw) (missing_decoded_field (text "sqrt_price_x96"))
    liquidity ← ok_or decoded.liquidity (missing_decoded_field (text "liquidity"))
    tick ← ok_or decoded.tick (missing_decoded_field (text "tick"))
    fail_if (out_of_range price)
        (invalid_pool (text "v3 swap event sqrt_price_x96 outside the protocol-defined range"))
    ok (record p { sqrt_price_x96 = price; liquidity = liquidity; tick = tick })

  unfoldable pub apply_decoded :
      DecodedLogKind
      → V3PoolState
      → DecodedLogEvent
      → Option BlockNumber
      → Result MarketError (MarketEventOutcome × V3PoolState)
  apply_decoded v3_swap p decoded number = do
    updated ← apply_v3_swap_event p decoded
    ok (applied, record updated { last_updated_block = number })
  apply_decoded _ p decoded number = ok (ignored, p)

  -- `V3PoolState::apply_log`. On an error the pool is unchanged.
  unfoldable pub apply_log :
      V3PoolState → Log → Result MarketError (MarketEventOutcome × V3PoolState)
  apply_log p log = elim log.address [
    | none ↦ ok (ignored, p)
    | some address ↦
        if eq_ignore_ascii_case address p.address
        then (elim log.decoded_event [
          | none ↦ ok (ignored, p)
          | some decoded ↦
              apply_decoded decoded.kind p decoded (block_number log.metadata.block_context)
        ])
        else ok (ignored, p)
  ]
