-- ===== src/Markets/V2.antt =====
-- `V2PoolState` of crates/markets/src/lib.rs: validation, `Sync` updates and the constant-product
-- quote.
pub mod Quote
pub mod Product
pub mod Sync
pub mod Total
mod Tests
use Prim.Native.Nat.{min, max}
use base_execution_engine.Base.{
  ℕ, ◌-◌, ◌/◌, Option, none, some, Bool, true, false, ◌||◌, Result, ok, err, ◌>>=◌, ◌>>◌, fail_if,
  ok_or, leb, ltb, ◌==◌, if◌then◌else◌,
}
use base_execution_engine.Base.Words.{u32_max, u128_max, checked_add, checked_mul, checked_sub}
use base_execution_engine.Base.Text.{Text, text, text_eq, eq_ignore_ascii_case}
use base_execution_engine.Types.{
  Amount, Address, BlockNumber, Protocol, Exchange, Log, DecodedLogEvent, DecodedLogKind, v2_sync,
}
use base_execution_engine.Markets.Error.{
  MarketError, invalid_pool, unknown_token, insufficient_input, insufficient_liquidity,
  missing_decoded_field, MarketEventOutcome, applied, ignored, PoolQuote, block_number, or_overflow,
}

abbrev pub bps_denominator : ℕ
bps_denominator = 10000

pub record V2PoolState : Type 0 where
  pub address : Address
  pub protocol : Protocol
  pub exchange : Option Exchange
  pub token0 : Address
  pub token1 : Address
  pub reserve0 : Amount
  pub reserve1 : Amount
  pub fee_bps : ℕ
  pub last_updated_block : Option BlockNumber

pub record V2SyncSnapshot : Type 0 where
  pub reserve0 : Amount
  pub reserve1 : Amount
  pub last_updated_block : Option BlockNumber

unfoldable pub validate : V2PoolState → Result MarketError (Unit {0})
validate p = do
  fail_if (text_eq p.token0 p.token1) (invalid_pool (text "pool tokens must be distinct addresses"))
  fail_if ((p.reserve0 == 0) || (p.reserve1 == 0))
      (invalid_pool (text "pool reserves must be greater than zero"))
  fail_if (leb bps_denominator p.fee_bps) (invalid_pool (text "fee_bps must be lower than 10_000"))

-- `V2PoolState::new`
unfoldable pub new_pool :
    Address
    → Protocol
    → Option Exchange
    → Address
    → Address
    → Amount
    → Amount
    → ℕ
    → Result MarketError V2PoolState
new_pool address protocol exchange token0 token1 reserve0 reserve1 fee_bps =
    let state : V2PoolState = record {
      address = address;
      protocol = protocol;
      exchange = exchange;
      token0 = token0;
      token1 = token1;
      reserve0 = reserve0;
      reserve1 = reserve1;
      fee_bps = fee_bps;
      last_updated_block = none;
    } in
    validate state >> ok state

unfoldable pub apply_sync :
    V2PoolState → Amount → Amount → Option BlockNumber → Result MarketError V2PoolState
apply_sync p reserve0 reserve1 number = do
  fail_if ((reserve0 == 0) || (reserve1 == 0))
      (invalid_pool (text "sync reserves must be greater than zero"))
  ok (record p { reserve0 = reserve0; reserve1 = reserve1; last_updated_block = number })

unfoldable pub estimate_price_impact_bps : Amount → Amount → Amount → Amount → Result MarketError ℕ
estimate_price_impact_bps reserve_in reserve_out amount_in amount_out = do
  quoted_price_numerator ← or_overflow (checked_mul u128_max reserve_out bps_denominator)
  let quoted_price = quoted_price_numerator / reserve_in
  realized_price_numerator ← or_overflow (checked_mul u128_max amount_out bps_denominator)
  let realized_price = realized_price_numerator / max amount_in 1
  let falls : Result MarketError ℕ = do
    scaled ← or_overflow (checked_mul u128_max (quoted_price - realized_price) bps_denominator)
    ok (min (scaled / quoted_price) u32_max)
  if (quoted_price == 0) || leb quoted_price realized_price then ok 0 else falls

-- The reserves on the two sides of a swap, and the token that comes out.
unfoldable pub sides : V2PoolState → Address → Result MarketError (Amount × Amount × Address)
sides p token_in =
    if eq_ignore_ascii_case token_in p.token0
    then ok (p.reserve0, p.reserve1, p.token1)
    else if eq_ignore_ascii_case token_in p.token1
    then ok (p.reserve1, p.reserve0, p.token0)
    else err (unknown_token p.address token_in)

-- The amount that a swap pays: the arithmetic of `quote_exact_in`, each product checked.
unfoldable pub swap_output : Amount → Amount → ℕ → Amount → Result MarketError Amount
swap_output reserve_in reserve_out fee_bps amount_in = do
  fee_multiplier ← or_overflow (checked_sub bps_denominator fee_bps)
  amount_in_with_fee ← or_overflow (checked_mul u128_max amount_in fee_multiplier)
  numerator ← or_overflow (checked_mul u128_max amount_in_with_fee reserve_out)
  scaled_in ← or_overflow (checked_mul u128_max reserve_in bps_denominator)
  denominator ← or_overflow (checked_add u128_max scaled_in amount_in_with_fee)
  ok (numerator / denominator)

unfoldable pub quote_exact_in : V2PoolState → Address → Amount → Result MarketError PoolQuote
quote_exact_in p token_in amount_in = do
  fail_if (amount_in == 0) insufficient_input
  (reserve_in, reserve_out, token_out) ← sides p token_in
  amount_out ← swap_output reserve_in reserve_out p.fee_bps amount_in
  fail_if (amount_out == 0) insufficient_liquidity
  price_impact_bps ← estimate_price_impact_bps reserve_in reserve_out amount_in amount_out
  ok (record {
    pool_address = p.address;
    token_in = token_in;
    token_out = token_out;
    amount_in = amount_in;
    amount_out = amount_out;
    fee_bps = p.fee_bps;
    price_impact_bps = price_impact_bps;
  })

unfoldable pub contains_token : V2PoolState → Address → Bool
contains_token p token = eq_ignore_ascii_case p.token0 token || eq_ignore_ascii_case p.token1 token

unfoldable pub other_token : V2PoolState → Address → Option Address
other_token p token =
    if eq_ignore_ascii_case p.token0 token
    then some p.token1
    else if eq_ignore_ascii_case p.token1 token
    then some p.token0
    else none

-- The arm of `apply_log` for a decoded `Sync` event.
unfoldable pub apply_sync_event :
    V2PoolState
    → DecodedLogEvent
    → Option BlockNumber
    → Result MarketError (MarketEventOutcome × V2PoolState)
apply_sync_event p decoded number = do
  reserve0 ← ok_or decoded.reserve0 (missing_decoded_field (text "reserve0"))
  reserve1 ← ok_or decoded.reserve1 (missing_decoded_field (text "reserve1"))
  updated ← apply_sync p reserve0 reserve1 number
  ok (applied, updated)

unfoldable pub apply_decoded :
    DecodedLogKind
    → V2PoolState
    → DecodedLogEvent
    → Option BlockNumber
    → Result MarketError (MarketEventOutcome × V2PoolState)
apply_decoded v2_sync p decoded number = apply_sync_event p decoded number
apply_decoded _ p decoded number = ok (ignored, p)

-- `V2PoolState::apply_log`. On an error the pool is unchanged.
unfoldable pub apply_log : V2PoolState → Log → Result MarketError (MarketEventOutcome × V2PoolState)
apply_log p log = elim log.address [
  | none ↦ ok (ignored, p)
  | some address ↦
      if eq_ignore_ascii_case address p.address
      then (elim log.decoded_event [
        | none ↦ ok (ignored, p)
        | some decoded ↦
            apply_decoded decoded.kind p decoded (block_number log.metadata.block_context)
      ])
      else ok (ignored, p)
]

unfoldable pub snapshot : V2PoolState → V2SyncSnapshot
snapshot p = record {
  reserve0 = p.reserve0;
  reserve1 = p.reserve1;
  last_updated_block = p.last_updated_block;
}

unfoldable pub restore : V2PoolState → V2SyncSnapshot → V2PoolState
restore p s = record p {
  reserve0 = s.reserve0;
  reserve1 = s.reserve1;
  last_updated_block = s.last_updated_block;
}
