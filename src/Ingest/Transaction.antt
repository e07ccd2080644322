-- ===== src/Ingest/Transaction.antt =====
-- crates/ingest/src/raw/transaction.rs: a raw transaction, its selector and the swap decoded of it.
use base_execution_engine.Base.{
  List, Option, Result, if◌then◌else◌, length, ltb, none, ok, ok_or, some, ℕ, ◌>>=?◌, ◌>>=◌, ◌∷◌,
}
use base_execution_engine.Base.Text.{
  Text, parse_uint, strip_0x, text, text_eq, to_ascii_lowercase, trim,
}
use base_execution_engine.Base.Words.{u128_max}
use base_execution_engine.Base.Hex.{strip_prefix_0x, parse_hex, byte_prefix}
use base_execution_engine.Base.Bytes.{as_bytes}
use base_execution_engine.Types.{
  Address, BlockContext, DecodedSwap, Exchange, Metadata, Protocol, Transaction, TxHash, block,
  pending,
}
use base_execution_engine.Registry.{RegistryMatch, all_hexdigits, resolve_transaction}
use base_execution_engine.Ingest.Json.{Json, string_field, u64_field}
use base_execution_engine.Ingest.Calls.{CallAbi}
use base_execution_engine.Ingest.Swap.{
  exact_input_call, exact_eth_input_call, exact_output_call, exact_eth_output_call,
  decode_v2_exact_input, decode_v2_exact_eth_input, decode_v2_exact_output,
  decode_v2_exact_eth_output, decode_v3_exact_input_single, decode_v3_exact_input,
  decode_v3_exact_output_single, decode_v3_exact_output,
}
pub mod Selector
pub mod Listed

pub record RawTransactionMessage : Type 0 where
  pub tx_hash : Option TxHash
  pub from : Option Address
  pub to : Option Address
  pub value : Option Text
  pub input : Option Text
  pub block_hash : Option Text
  pub block_number : Option ℕ

pub record TransactionDecode : Type 0 where
  pub selector : Option Text
  pub protocol : Option Protocol
  pub exchange : Option Exchange
  pub decoded_swap : Option DecodedSwap

-- A slice of a text that ends inside a character panics.
pub data Panic : Type 0 where
  not_char_boundary : Panic

-- `from_value` of a raw transaction
unfoldable pub from_value : (j : Json) → j.Value → Option RawTransactionMessage
unfolding string_field u64_field
from_value j value = j.as_object value >>=? λ object. some (record {
  tx_hash = string_field j object (text "hash");
  from = string_field j object (text "from");
  to = string_field j object (text "to");
  value = string_field j object (text "value");
  input = string_field j object (text "input");
  block_hash = string_field j object (text "blockHash");
  block_number = u64_field j object (text "blockNumber");
})

unfoldable pub block_context : RawTransactionMessage → BlockContext
block_context m = elim m.block_number [ none ↦ pending | some number ↦ block number m.block_hash ]

-- The selector of calldata, normalized.
unfoldable pub selector_of_input : Text → Result Panic (Option Text)
selector_of_input input =
    let hex = strip_0x (trim input) in
    if ltb (length (as_bytes hex)) 8
    then ok none
    else (ok_or (byte_prefix 8 hex) not_char_boundary >>= λ selector.
        ok (
          if all_hexdigits selector
          then some (b'0' ∷ b'x' ∷ to_ascii_lowercase selector)
          else none))

unfoldable pub selector : RawTransactionMessage → Result Panic (Option Text)
unfolding selector_of_input
selector m = elim m.input [ none ↦ ok none | some input ↦ selector_of_input input ]

unfoldable pub parse_amount_string : Text → Option ℕ
parse_amount_string raw = elim (strip_prefix_0x raw) [
  | some hex ↦ parse_hex u128_max hex
  | none ↦ parse_uint u128_max raw
]

module _ (abi : CallAbi) where
  unfoldable pub decode_calldata : Text → Option (List ℕ)
  decode_calldata input = abi.hex_decode (strip_0x (trim input))

  -- The arms of the `match` on the selector, in order.
  unfoldable pub decode_call :
      Text
      → List ℕ
      → Option ℕ
      → Option Address
      → Option Protocol
      → Option Exchange
      → Option DecodedSwap
  decode_call selector calldata tx_value router protocol exchange =
      let f = abi.format_address in
      if text_eq selector (text "0x38ed1739")
      then decode_v2_exact_input f router protocol exchange
          (abi.swap_exact_tokens_for_tokens calldata >>=? λ call. exact_input_call call)
      else if text_eq selector (text "0x5c11d795")
      then decode_v2_exact_input f router protocol exchange (
          abi.swap_exact_tokens_for_tokens_supporting_fee calldata >>=? λ call.
          exact_input_call call)
      else if text_eq selector (text "0x18cbafe5")
      then decode_v2_exact_input f router protocol exchange
          (abi.swap_exact_tokens_for_eth calldata >>=? λ call. exact_input_call call)
      else if text_eq selector (text "0x791ac947")
      then decode_v2_exact_input f router protocol exchange
          (abi.swap_exact_tokens_for_eth_supporting_fee calldata >>=? λ call. exact_input_call call)
      else if text_eq selector (text "0x7ff36ab5")
      then decode_v2_exact_eth_input f router protocol exchange tx_value
          (abi.swap_exact_eth_for_tokens calldata >>=? λ call. exact_eth_input_call call)
      else if text_eq selector (text "0xb6f9de95")
      then decode_v2_exact_eth_input f router protocol exchange tx_value (
          abi.swap_exact_eth_for_tokens_supporting_fee calldata >>=? λ call.
          exact_eth_input_call call)
      else if text_eq selector (text "0x8803dbee")
      then decode_v2_exact_output f router protocol exchange
          (abi.swap_tokens_for_exact_tokens calldata >>=? λ call. exact_output_call call)
      else if text_eq selector (text "0x4a25d94a")
      then decode_v2_exact_output f router protocol exchange
          (abi.swap_tokens_for_exact_eth calldata >>=? λ call. exact_output_call call)
      else if text_eq selector (text "0xfb3bdb41")
      then decode_v2_exact_eth_output f router protocol exchange tx_value
          (abi.swap_eth_for_exact_tokens calldata >>=? λ call. exact_eth_output_call call)
      else if text_eq selector (text "0x414bf389")
      then decode_v3_exact_input_single f router protocol exchange (abi.exact_input_single calldata)
      else if text_eq selector (text "0xc04b8d59")
      then decode_v3_exact_input f router protocol exchange (abi.exact_input calldata)
      else if text_eq selector (text "0xdb3e2198")
      then decode_v3_exact_output_single f router protocol exchange
          (abi.exact_output_single calldata)
      else if text_eq selector (text "0xf28c0498")
      then decode_v3_exact_output f router protocol exchange (abi.exact_output calldata)
      else none

  unfoldable pub decode_swap :
      RawTransactionMessage → Option Text → Option Protocol → Option Exchange → Option DecodedSwap
  unfolding decode_calldata decode_call parse_amount_string
  decode_swap m selector protocol exchange = selector >>=? λ s. m.input >>=? λ input.
      decode_calldata input >>=? λ calldata.
      decode_call s calldata (m.value >>=? λ raw. parse_amount_string raw) m.to protocol exchange

  unfoldable pub decode : RawTransactionMessage → Result Panic TransactionDecode
  unfolding decode_swap selector
  decode m = selector m >>= λ s.
      let resolution = resolve_transaction s m.to in
      ok (record {
        selector = s;
        protocol = resolution.protocol;
        exchange = resolution.exchange;
        decoded_swap = decode_swap m s resolution.protocol resolution.exchange;
      })

  unfoldable pub to_transaction : RawTransactionMessage → Metadata → Result Panic Transaction
  unfolding decode
  to_transaction m metadata = decode m >>= λ d. ok (record {
    metadata = metadata;
    from = m.from;
    to = m.to;
    value = m.value;
    input = m.input;
    selector = d.selector;
    decoded_swap = d.decoded_swap;
    protocol = d.protocol;
    exchange = d.exchange;
  })
