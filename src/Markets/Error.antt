-- ===== src/Markets/Error.antt =====
-- `MarketError`, `MarketEventOutcome`, `PoolQuote` and `block_number` of crates/markets/src/lib.rs.
use base_execution_engine.Base.{ℕ, Option, none, some, ok_or, Result}
use base_execution_engine.Base.Text.{Text}
use base_execution_engine.Types.{Amount, Address, BlockNumber, TxHash, BlockContext, pending, block}

pub data MarketError : Type 0 where
  invalid_pool : Text → MarketError
  unknown_token : Address → Address → MarketError
  insufficient_input : MarketError
  insufficient_liquidity : MarketError
  arithmetic_overflow : MarketError
  missing_decoded_field : Text → MarketError
  missing_log_identity : MarketError
  missing_revert_snapshot : TxHash → ℕ → MarketError

pub data MarketEventOutcome : Type 0 where
  applied ignored reverted : MarketEventOutcome

pub record PoolQuote : Type 0 where
  pub pool_address : Address
  pub token_in : Address
  pub token_out : Address
  pub amount_in : Amount
  pub amount_out : Amount
  pub fee_bps : ℕ
  pub price_impact_bps : ℕ

unfoldable pub block_number : BlockContext → Option BlockNumber
block_number pending = none
block_number (block number hash) = some number

-- `.ok_or(MarketError::ArithmeticOverflow)`
abbrev pub or_overflow : Option ℕ → Result MarketError ℕ
or_overflow o = ok_or o arithmetic_overflow
