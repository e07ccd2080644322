-- ===== src/Types/Ingest.antt =====
-- crates/types/src/ingest.rs and the aliases of crates/types/src/lib.rs. `Amount` is `u128`,
-- `BlockNumber` is `u64`, and addresses and hashes are texts.
use base_execution_engine.Base.{Bool, List, Option, ℕ}
use base_execution_engine.Base.Text.{Text}
use base_execution_engine.Base.Int.{ℤ}

abbrev pub Amount : Type 0
Amount = ℕ

abbrev pub BlockNumber : Type 0
BlockNumber = ℕ

abbrev pub Address : Type 0
Address = Text

abbrev pub TxHash : Type 0
TxHash = Text

pub data BlockContext : Type 0 where
  pending : BlockContext
  block : BlockNumber → Option Text → BlockContext

pub data Channel : Type 0 where
  ipc ws flashblocks_ws : Channel

pub data DecodeStatus : Type 0 where
  decoded partial unsupported failed : DecodeStatus

pub data Protocol : Type 0 where
  unknown uniswap_v2 uniswap_v3 uniswap_v4 aerodrome virtuals : Protocol

pub data Exchange : Type 0 where
  unknown pancake_swap base_swap alien_base aerodrome virtuals : Exchange

pub data RawMessageType : Type 0 where
  transaction log block flashblock heartbeat status unknown : RawMessageType

pub record RawPayloadSummary : Type 0 where
  pub message_type : RawMessageType
  pub payload_size_bytes : ℕ
  pub fingerprint : Option Text
  pub subscription : Option Text

pub record Metadata : Type 0 where
  pub block_context : BlockContext
  pub channel : Channel
  pub observed_at_ms : ℕ
  pub chain_id : ℕ
  pub tx_hash : Option TxHash
  pub decode_status : DecodeStatus
  pub raw : RawPayloadSummary

pub data DecodedLogKind : Type 0 where
  v2_swap v2_sync v2_mint v2_burn v3_swap v3_mint v3_burn : DecodedLogKind

pub record DecodedLogEvent : Type 0 where
  pub kind : DecodedLogKind
  pub pool : Option Address
  pub sender : Option Address
  pub recipient : Option Address
  pub owner : Option Address
  pub reserve0 : Option Amount
  pub reserve1 : Option Amount
  pub amount0_in : Option Amount
  pub amount1_in : Option Amount
  pub amount0_out : Option Amount
  pub amount1_out : Option Amount
  pub amount0 : Option Text
  pub amount1 : Option Text
  pub liquidity : Option Amount
  pub sqrt_price_x96 : Option Text
  pub tick : Option ℤ
  pub tick_lower : Option ℤ
  pub tick_upper : Option ℤ
  pub protocol : Option Protocol
  pub exchange : Option Exchange

pub record DecodedSwap : Type 0 where
  pub pool : Option Address
  pub router : Option Address
  pub token_in : Option Address
  pub token_out : Option Address
  pub amount_in : Option Amount
  pub amount_out : Option Amount
  pub amount_in_maximum : Option Amount
  pub amount_out_minimum : Option Amount
  pub exact_input : Option Bool
  pub recipient : Option Address
  pub protocol : Option Protocol
  pub exchange : Option Exchange

pub record Transaction : Type 0 where
  pub metadata : Metadata
  pub from : Option Address
  pub to : Option Address
  pub value : Option Text
  pub input : Option Text
  pub selector : Option Text
  pub decoded_swap : Option DecodedSwap
  pub protocol : Option Protocol
  pub exchange : Option Exchange

pub record Log : Type 0 where
  pub metadata : Metadata
  pub address : Option Address
  pub topics : List Text
  pub payload : Option Text
  pub event_signature : Option Text
  pub decoded_event : Option DecodedLogEvent
  pub protocol : Option Protocol
  pub exchange : Option Exchange
  pub log_index : Option ℕ
  pub removed : Option Bool

pub record Block : Type 0 where
  pub metadata : Metadata
  pub block_hash : Option Text
  pub parent_hash : Option Text
  pub timestamp_secs : Option ℕ

pub record Flashblock : Type 0 where
  pub metadata : Metadata
  pub payload_id : Option Text
  pub index : ℕ
  pub parent_block_number : Option BlockNumber
  pub parent_hash : Option Text
  pub block_hash : Option Text
  pub state_root : Option Text
  pub gas_used : Option ℕ
  pub tx_hashes : List TxHash
  pub log_count : ℕ

pub data Event : Type 0 where
  transaction : Transaction → Event
  log : Log → Event
  block : Block → Event
  flashblock : Flashblock → Event
