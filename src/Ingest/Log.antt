-- ===== src/Ingest/Log.antt =====
-- crates/ingest/src/raw/log.rs: a raw log, what is decoded of it, and the `Log` made of it.
use base_execution_engine.Base.{
  Bool, List, Option, [], if◌then◌else◌, leb, none, some, unwrap_or, ℕ, ◌>>=?◌, ◌∷◌,
}
use base_execution_engine.Base.Text.{Text, text, text_eq}
use base_execution_engine.Base.Words.{fit, u128_max}
use base_execution_engine.Base.Int.{negsuc, pos, ℤ}
use base_execution_engine.Types.{
  Address, BlockContext, DecodedLogEvent, DecodedLogKind, Exchange, Log, Metadata, Protocol, TxHash,
  block, pending, v2_burn, v2_mint, v2_swap, v2_sync, v3_burn, v3_mint, v3_swap,
}
use base_execution_engine.Registry.{RegistryMatch, first_of, resolve_log}
use base_execution_engine.Base.Hex.{strip_prefix_0x}
use base_execution_engine.Ingest.Json.{Json, string_field, bool_field, u64_field, strings}
use base_execution_engine.Ingest.Events.{
  EventAbi, V2SwapEvent, SyncEvent, V2MintEvent, V2BurnEvent, V3SwapEvent, V3MintEvent, V3BurnEvent,
  v2_swap_signature, sync_signature, v2_mint_signature, v2_burn_signature, v3_swap_signature,
}
mod Decoded
pub mod Applies

pub record RawLogMessage : Type 0 where
  pub address : Option Address
  pub topics : List Text
  pub payload : Option Text
  pub tx_hash : Option TxHash
  pub block_hash : Option Text
  pub block_number : Option ℕ
  pub event_signature : Option Text
  pub protocol : Option Protocol
  pub exchange : Option Exchange
  pub log_index : Option ℕ
  pub removed : Option Bool

pub record DecodedLogFields : Type 0 where
  pub event_signature : Option Text
  pub protocol : Option Protocol
  pub exchange : Option Exchange
  pub decoded_event : Option DecodedLogEvent

-- `from_value` of a raw log
unfoldable pub from_value : (j : Json) → j.Value → Option RawLogMessage
unfolding string_field bool_field u64_field strings
from_value j value = j.as_object value >>=? λ object. some (record {
  address = string_field j object (text "address");
  topics =
      unwrap_or
        (j.get object (text "topics") >>=? λ v.
          j.as_array v >>=? λ entries. some (strings j entries))
        [];
  payload = string_field j object (text "data");
  tx_hash = string_field j object (text "transactionHash");
  block_hash = string_field j object (text "blockHash");
  block_number = u64_field j object (text "blockNumber");
  event_signature = string_field j object (text "eventSignature");
  protocol = none;
  exchange = none;
  log_index = u64_field j object (text "logIndex");
  removed = bool_field j object (text "removed");
})

unfoldable pub block_context : RawLogMessage → BlockContext
block_context m = elim m.block_number [ none ↦ pending | some number ↦ block number m.block_hash ]

-- The field if it is there, else the first topic.
unfoldable pub event_signature : RawLogMessage → Option Text
event_signature m =
    first_of m.event_signature (elim m.topics [ [] ↦ none | topic ∷ _ ↦ some topic ])

-- `i32::try_from`
unfoldable pub i24_to_i32 : ℤ → Option ℤ
i24_to_i32 (pos n) = if leb n 2147483647 then some (pos n) else none
i24_to_i32 (negsuc n) = if leb n 2147483647 then some (negsuc n) else none

unfoldable pub u256_to_u128 : ℕ → Option ℕ
u256_to_u128 value = fit u128_max value

-- The fields that no arm sets are `None`.
unfoldable pub empty_event :
    DecodedLogKind → Option Address → Option Protocol → Option Exchange → DecodedLogEvent
empty_event kind pool protocol exchange = record {
  kind = kind;
  pool = pool;
  sender = none;
  recipient = none;
  owner = none;
  reserve0 = none;
  reserve1 = none;
  amount0_in = none;
  amount1_in = none;
  amount0_out = none;
  amount1_out = none;
  amount0 = none;
  amount1 = none;
  liquidity = none;
  sqrt_price_x96 = none;
  tick = none;
  tick_lower = none;
  tick_upper = none;
  protocol = protocol;
  exchange = exchange;
}

module _ (abi : EventAbi) where
  -- `collect::<Option<Vec<_>>>`
  unfoldable pub decode_topics : List Text → Option (List abi.B256)
  decode_topics [] = some []
  decode_topics (topic ∷ topics) =
      abi.parse_b256 topic >>=? λ t. decode_topics topics >>=? λ ts. some (t ∷ ts)

  unfoldable pub decode_data : Text → Option (List ℕ)
  decode_data payload = abi.hex_decode (unwrap_or (strip_prefix_0x payload) payload)

  module _ (pool : Option Address) (protocol : Option Protocol) (exchange : Option Exchange) where
    unfoldable pub v2_swap_event : V2SwapEvent abi.AlloyAddress → Option DecodedLogEvent
    unfolding empty_event u256_to_u128
    v2_swap_event event = u256_to_u128 event.amount0_in >>=? λ amount0_in.
        u256_to_u128 event.amount1_in >>=? λ amount1_in.
        u256_to_u128 event.amount0_out >>=? λ amount0_out.
        u256_to_u128 event.amount1_out >>=? λ amount1_out.
        some (record (empty_event v2_swap pool protocol exchange) {
          sender = some (abi.format_address event.sender);
          recipient = some (abi.format_address event.to);
          amount0_in = some amount0_in;
          amount1_in = some amount1_in;
          amount0_out = some amount0_out;
          amount1_out = some amount1_out;
        })

    -- Every `uint112` fits `u128`.
    unfoldable pub sync_event : SyncEvent → Option DecodedLogEvent
    unfolding empty_event
    sync_event event = some (record (empty_event v2_sync pool protocol exchange) {
      reserve0 = some event.reserve0;
      reserve1 = some event.reserve1;
    })

    unfoldable pub v2_mint_event : V2MintEvent abi.AlloyAddress → Option DecodedLogEvent
    unfolding empty_event
    v2_mint_event event = some (record (empty_event v2_mint pool protocol exchange) {
      sender = some (abi.format_address event.sender);
      amount0 = some (abi.u256_to_string event.amount0);
      amount1 = some (abi.u256_to_string event.amount1);
    })

    unfoldable pub v2_burn_event : V2BurnEvent abi.AlloyAddress → Option DecodedLogEvent
    unfolding empty_event
    v2_burn_event event = some (record (empty_event v2_burn pool protocol exchange) {
      sender = some (abi.format_address event.sender);
      recipient = some (abi.format_address event.to);
      amount0 = some (abi.u256_to_string event.amount0);
      amount1 = some (abi.u256_to_string event.amount1);
    })

    unfoldable pub v3_swap_event : V3SwapEvent abi.AlloyAddress → Option DecodedLogEvent
    unfolding empty_event i24_to_i32
    v3_swap_event event = i24_to_i32 event.tick >>=? λ tick.
        some (record (empty_event v3_swap pool protocol exchange) {
          sender = some (abi.format_address event.sender);
          recipient = some (abi.format_address event.recipient);
          amount0 = some (abi.i256_to_string event.amount0);
          amount1 = some (abi.i256_to_string event.amount1);
          liquidity = some event.liquidity;
          sqrt_price_x96 = some (abi.u160_to_string event.sqrt_price_x96);
          tick = some tick;
        })

    unfoldable pub v3_mint_event : V3MintEvent abi.AlloyAddress → Option DecodedLogEvent
    unfolding empty_event i24_to_i32
    v3_mint_event event = i24_to_i32 event.tick_lower >>=? λ tick_lower.
        i24_to_i32 event.tick_upper >>=? λ tick_upper.
        some (record (empty_event v3_mint pool protocol exchange) {
          sender = some (abi.format_address event.sender);
          owner = some (abi.format_address event.owner);
          amount0 = some (abi.u256_to_string event.amount0);
          amount1 = some (abi.u256_to_string event.amount1);
          liquidity = some event.amount;
          tick_lower = some tick_lower;
          tick_upper = some tick_upper;
        })

    unfoldable pub v3_burn_event : V3BurnEvent abi.AlloyAddress → Option DecodedLogEvent
    unfolding empty_event i24_to_i32
    v3_burn_event event = i24_to_i32 event.tick_lower >>=? λ tick_lower.
        i24_to_i32 event.tick_upper >>=? λ tick_upper.
        some (record (empty_event v3_burn pool protocol exchange) {
          owner = some (abi.format_address event.owner);
          amount0 = some (abi.u256_to_string event.amount0);
          amount1 = some (abi.u256_to_string event.amount1);
          liquidity = some event.amount;
          tick_lower = some tick_lower;
          tick_upper = some tick_upper;
        })

    -- The arms of the `match` on the signature, in order.
    unfoldable pub decode_event : Text → List abi.B256 → List ℕ → Option DecodedLogEvent
    unfolding v2_swap_event sync_event v2_mint_event v2_burn_event v3_swap_event v3_mint_event
        v3_burn_event
    decode_event signature topics bytes =
        if text_eq signature v2_swap_signature
        then (abi.v2_swap_log topics bytes >>=? λ event. v2_swap_event event)
        else if text_eq signature sync_signature
        then (abi.sync_log topics bytes >>=? λ event. sync_event event)
        else if text_eq signature v2_mint_signature
        then (abi.v2_mint_log topics bytes >>=? λ event. v2_mint_event event)
        else if text_eq signature v2_burn_signature
        then (abi.v2_burn_log topics bytes >>=? λ event. v2_burn_event event)
        else if text_eq signature v3_swap_signature
        then (abi.v3_swap_log topics bytes >>=? λ event. v3_swap_event event)
        else if text_eq signature abi.v3_mint_signature
        then (abi.v3_mint_log topics bytes >>=? λ event. v3_mint_event event)
        else if text_eq signature abi.v3_burn_signature
        then (abi.v3_burn_log topics bytes >>=? λ event. v3_burn_event event)
        else none

  unfoldable pub decode_structured_event :
      RawLogMessage → Option Text → Option Protocol → Option Exchange → Option DecodedLogEvent
  unfolding decode_topics decode_data decode_event
  decode_structured_event m signature protocol exchange = signature >>=? λ sig.
      decode_topics m.topics >>=? λ topics.
      decode_data (unwrap_or m.payload (text "0x")) >>=? λ bytes.
      decode_event m.address protocol exchange sig topics bytes

  unfoldable pub decode : RawLogMessage → DecodedLogFields
  unfolding decode_structured_event event_signature
  decode m =
      let signature = event_signature m in
      let resolution = resolve_log signature m.address in
      record {
        event_signature = signature;
        protocol = first_of resolution.protocol m.protocol;
        exchange = first_of resolution.exchange m.exchange;
        decoded_event = decode_structured_event m signature resolution.protocol resolution.exchange;
      }

  unfoldable pub to_log : RawLogMessage → Metadata → Log
  unfolding decode
  to_log m metadata =
      let fields = decode m in
      record {
        metadata = metadata;
        address = m.address;
        topics = m.topics;
        payload = m.payload;
        event_signature = fields.event_signature;
        decoded_event = fields.decoded_event;
        protocol = fields.protocol;
        exchange = fields.exchange;
        log_index = m.log_index;
        removed = m.removed;
      }
