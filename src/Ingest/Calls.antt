-- ===== src/Ingest/Calls.antt =====
-- The calls of crates/ingest/src/raw/transaction.rs. The decoders that `sol!` generates, the
-- hexadecimal decoder and the printer of addresses are parameters, in `CallAbi`. An address is its 20
-- bytes, as in alloy.
use base_execution_engine.Base.{List, Option, ℕ}
use base_execution_engine.Base.Text.{Text}

abbrev pub AlloyAddress : Type 0
AlloyAddress = List ℕ

-- The four shapes of a call of the V2 router.
pub record ExactInputCall : Type 0 where
  pub amount_in : ℕ
  pub amount_out_min : ℕ
  pub path : List AlloyAddress
  pub to : AlloyAddress

pub record ExactEthInputCall : Type 0 where
  pub amount_out_min : ℕ
  pub path : List AlloyAddress
  pub to : AlloyAddress

pub record ExactOutputCall : Type 0 where
  pub amount_out : ℕ
  pub amount_in_max : ℕ
  pub path : List AlloyAddress
  pub to : AlloyAddress

pub record ExactEthOutputCall : Type 0 where
  pub amount_out : ℕ
  pub path : List AlloyAddress
  pub to : AlloyAddress

pub record ExactInputSingleParams : Type 0 where
  pub token_in : AlloyAddress
  pub token_out : AlloyAddress
  pub fee : ℕ
  pub recipient : AlloyAddress
  pub deadline : ℕ
  pub amount_in : ℕ
  pub amount_out_minimum : ℕ
  pub sqrt_price_limit_x96 : ℕ

pub record ExactInputParams : Type 0 where
  pub path : List ℕ
  pub recipient : AlloyAddress
  pub deadline : ℕ
  pub amount_in : ℕ
  pub amount_out_minimum : ℕ

pub record ExactOutputSingleParams : Type 0 where
  pub token_in : AlloyAddress
  pub token_out : AlloyAddress
  pub fee : ℕ
  pub recipient : AlloyAddress
  pub deadline : ℕ
  pub amount_out : ℕ
  pub amount_in_maximum : ℕ
  pub sqrt_price_limit_x96 : ℕ

pub record ExactOutputParams : Type 0 where
  pub path : List ℕ
  pub recipient : AlloyAddress
  pub deadline : ℕ
  pub amount_out : ℕ
  pub amount_in_maximum : ℕ

pub record CallAbi : Type 0 where
  pub hex_decode : Text → Option (List ℕ)
  pub format_address : AlloyAddress → Text
  pub swap_exact_tokens_for_tokens : List ℕ → Option ExactInputCall
  pub swap_exact_tokens_for_tokens_supporting_fee : List ℕ → Option ExactInputCall
  pub swap_exact_tokens_for_eth : List ℕ → Option ExactInputCall
  pub swap_exact_tokens_for_eth_supporting_fee : List ℕ → Option ExactInputCall
  pub swap_exact_eth_for_tokens : List ℕ → Option ExactEthInputCall
  pub swap_exact_eth_for_tokens_supporting_fee : List ℕ → Option ExactEthInputCall
  pub swap_tokens_for_exact_tokens : List ℕ → Option ExactOutputCall
  pub swap_tokens_for_exact_eth : List ℕ → Option ExactOutputCall
  pub swap_eth_for_exact_tokens : List ℕ → Option ExactEthOutputCall
  pub exact_input_single : List ℕ → Option ExactInputSingleParams
  pub exact_input : List ℕ → Option ExactInputParams
  pub exact_output_single : List ℕ → Option ExactOutputSingleParams
  pub exact_output : List ℕ → Option ExactOutputParams
