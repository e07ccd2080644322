-- ===== src/Ingest/Swap/Shape.antt =====
-- What the decoded swaps have in common.
use base_execution_engine.Base.{
  List, Option, arith, false, inl, inr, is_some, none, some, true, ℕ, ◌≡◌, ◌⊎◌,
}
use base_execution_engine.Base.Text.{Text}
use base_execution_engine.Types.{Address, DecodedSwap, Exchange, Protocol}
use base_execution_engine.Ingest.Calls.{
  AlloyAddress, ExactInputSingleParams, ExactInputParams, ExactOutputSingleParams,
  ExactOutputParams,
}
use base_execution_engine.Ingest.Swap.{
  decode_v2_exact_input, decode_v2_exact_eth_input, decode_v2_exact_output,
  decode_v2_exact_eth_output, decode_v3_exact_input_single, decode_v3_exact_input,
  decode_v3_exact_output_single, decode_v3_exact_output,
}

-- The amounts that go with the direction: an exact input has a floor and nothing of an output, an
-- exact output has its amount and no floor.
abbrev pub Directed : DecodedSwap → Type 0
Directed s =
    ((s.exact_input ≡ some true)
      × (is_some s.amount_out_minimum ≡ true)
      × (s.amount_out ≡ none)
      × (s.amount_in_maximum ≡ none))
    ⊎ ((s.exact_input ≡ some false)
        × (is_some s.amount_out ≡ true)
        × (s.amount_in ≡ none)
        × (s.amount_out_minimum ≡ none))

-- What holds of a swap that is decoded for the given router, protocol and exchange.
pub record IsShaped (router : Option Address) (protocol : Option Protocol)
    (exchange : Option Exchange) (s : DecodedSwap) : Type 0 where
  pub directed : Directed s
  pub router_eq : s.router ≡ router
  pub protocol_eq : s.protocol ≡ protocol
  pub exchange_eq : s.exchange ≡ exchange
  pub has_token_in : is_some s.token_in ≡ true
  pub has_token_out : is_some s.token_out ≡ true
  pub has_recipient : is_some s.recipient ≡ true

module _ (f : AlloyAddress → Text) (router : Option Address) (protocol : Option Protocol)
    (exchange : Option Exchange) (s : DecodedSwap) where
  pub decode_v2_exact_input-IsShaped :
      (call : Option (ℕ × ℕ × List AlloyAddress × AlloyAddress))
      → decode_v2_exact_input f router protocol exchange call ≡ some s
      → IsShaped router protocol exchange s
  unfolding decode_v2_exact_input
  decode_v2_exact_input-IsShaped call h = record {
    directed = inl (ground arith, ground arith, ground arith, ground arith);
    router_eq = ground arith;
    protocol_eq = ground arith;
    exchange_eq = ground arith;
    has_token_in = ground arith;
    has_token_out = ground arith;
    has_recipient = ground arith;
  }

  pub decode_v2_exact_eth_input-IsShaped :
      (tx_value : Option ℕ) (call : Option (ℕ × List AlloyAddress × AlloyAddress))
      → decode_v2_exact_eth_input f router protocol exchange tx_value call ≡ some s
      → IsShaped router protocol exchange s
  unfolding decode_v2_exact_eth_input
  decode_v2_exact_eth_input-IsShaped tx_value call h = record {
    directed = inl (ground arith, ground arith, ground arith, ground arith);
    router_eq = ground arith;
    protocol_eq = ground arith;
    exchange_eq = ground arith;
    has_token_in = ground arith;
    has_token_out = ground arith;
    has_recipient = ground arith;
  }

  pub decode_v2_exact_output-IsShaped :
      (call : Option (ℕ × ℕ × List AlloyAddress × AlloyAddress))
      → decode_v2_exact_output f router protocol exchange call ≡ some s
      → IsShaped router protocol exchange s
  unfolding decode_v2_exact_output
  decode_v2_exact_output-IsShaped call h = record {
    directed = inr (ground arith, ground arith, ground arith, ground arith);
    router_eq = ground arith;
    protocol_eq = ground arith;
    exchange_eq = ground arith;
    has_token_in = ground arith;
    has_token_out = ground arith;
    has_recipient = ground arith;
  }

  pub decode_v2_exact_eth_output-IsShaped :
      (tx_value : Option ℕ) (call : Option (ℕ × List AlloyAddress × AlloyAddress))
      → decode_v2_exact_eth_output f router protocol exchange tx_value call ≡ some s
      → IsShaped router protocol exchange s
  unfolding decode_v2_exact_eth_output
  decode_v2_exact_eth_output-IsShaped tx_value call h = record {
    directed = inr (ground arith, ground arith, ground arith, ground arith);
    router_eq = ground arith;
    protocol_eq = ground arith;
    exchange_eq = ground arith;
    has_token_in = ground arith;
    has_token_out = ground arith;
    has_recipient = ground arith;
  }

  pub decode_v3_exact_input_single-IsShaped :
      (call : Option ExactInputSingleParams)
      → decode_v3_exact_input_single f router protocol exchange call ≡ some s
      → IsShaped router protocol exchange s
  unfolding decode_v3_exact_input_single
  decode_v3_exact_input_single-IsShaped call h = record {
    directed = inl (ground arith, ground arith, ground arith, ground arith);
    router_eq = ground arith;
    protocol_eq = ground arith;
    exchange_eq = ground arith;
    has_token_in = ground arith;
    has_token_out = ground arith;
    has_recipient = ground arith;
  }

  pub decode_v3_exact_input-IsShaped :
      (call : Option ExactInputParams)
      → decode_v3_exact_input f router protocol exchange call ≡ some s
      → IsShaped router protocol exchange s
  unfolding decode_v3_exact_input
  decode_v3_exact_input-IsShaped call h = record {
    directed = inl (ground arith, ground arith, ground arith, ground arith);
    router_eq = ground arith;
    protocol_eq = ground arith;
    exchange_eq = ground arith;
    has_token_in = ground arith;
    has_token_out = ground arith;
    has_recipient = ground arith;
  }

  pub decode_v3_exact_output_single-IsShaped :
      (call : Option ExactOutputSingleParams)
      → decode_v3_exact_output_single f router protocol exchange call ≡ some s
      → IsShaped router protocol exchange s
  unfolding decode_v3_exact_output_single
  decode_v3_exact_output_single-IsShaped call h = record {
    directed = inr (ground arith, ground arith, ground arith, ground arith);
    router_eq = ground arith;
    protocol_eq = ground arith;
    exchange_eq = ground arith;
    has_token_in = ground arith;
    has_token_out = ground arith;
    has_recipient = ground arith;
  }

  pub decode_v3_exact_output-IsShaped :
      (call : Option ExactOutputParams)
      → decode_v3_exact_output f router protocol exchange call ≡ some s
      → IsShaped router protocol exchange s
  unfolding decode_v3_exact_output
  decode_v3_exact_output-IsShaped call h = record {
    directed = inr (ground arith, ground arith, ground arith, ground arith);
    router_eq = ground arith;
    protocol_eq = ground arith;
    exchange_eq = ground arith;
    has_token_in = ground arith;
    has_token_out = ground arith;
    has_recipient = ground arith;
  }
