-- ===== src/Ingest/Tests.antt =====
-- The ingest theorems at concrete inputs, with decoders that read one byte for each number.
use base_execution_engine.Base.Words.{fit}
use base_execution_engine.Types.{DecodedSwap, uniswap_v2}
use base_execution_engine.Base.{
  List, Option, [], arith, false, is_some, length, none, ok, refl, some, true, ℕ, ◌↔◌, ◌∷◌, ◌≡◌,
}
use base_execution_engine.Base.Text.{
  Text, ascii_lower, eq_ignore_ascii_case, is_whitespace, strip_0x, text, text_eq,
  to_ascii_lowercase, trim, trim_start,
}
use base_execution_engine.Base.Hex.{byte_prefix, strip_prefix_0x}
use base_execution_engine.Base.Bytes.{as_bytes, encode_char}
use base_execution_engine.Registry.Tables.{address_book, selector_entries}
use base_execution_engine.Registry.{
  is_ascii_hexdigit, all_hexdigits, normalize_hex, find_by_key, merge, resolve_transaction,
  selector_entry, protocol_from_selector, exchange_from_selector, protocol_from_address,
  exchange_from_address, address_metadata,
}
use base_execution_engine.Ingest.Events.{EventAbi, SyncEvent, sync_signature}
use base_execution_engine.Ingest.Log.{
  RawLogMessage, to_log, decode_topics, decode_data, event_signature,
}
use base_execution_engine.Ingest.Log.Applies.{IsRawSync, apply_log-to_log_iff}
use base_execution_engine.Ingest.Calls.{CallAbi, ExactInputCall}
use base_execution_engine.Ingest.Swap.{
  decode_v3_path, exact_input_call, decode_v2_exact_input, decode_v2_path, last, u256_to_u128,
}
use base_execution_engine.Ingest.Swap.Path.{encode_path, decode_v3_path-encode_path}
use base_execution_engine.Ingest.Swap.Shape.{IsShaped}
use base_execution_engine.Ingest.Transaction.{
  RawTransactionMessage, TransactionDecode, decode, decode_swap, decode_call, decode_calldata,
  selector, selector_of_input,
}
use base_execution_engine.Ingest.Transaction.Listed.{decode-IsShaped}
use base_execution_engine.Ingest.Transaction.Selector.{selector-IsNormal}
use base_execution_engine.Markets.Error.{applied}
use base_execution_engine.Markets.V2.{V2PoolState, apply_log}
use base_execution_engine.Markets.V2.Sync.{synced}
use base_execution_engine.Samples.{pool1, sync_log}

abbrev read_sync : List Text → List ℕ → Option SyncEvent
read_sync topics (a ∷ b ∷ []) = some (record { reserve0 = a; reserve1 = b })
read_sync topics _ = none

abbrev event_abi : EventAbi
event_abi = record {
  AlloyAddress = ℕ;
  B256 = Text;
  parse_b256 = λ t. some t;
  hex_decode = λ s. some s;
  format_address = λ a. a ∷ [];
  u256_to_string = λ n. n ∷ [];
  i256_to_string = λ n. [];
  u160_to_string = λ n. n ∷ [];
  v3_mint_signature = text "0x01";
  v3_burn_signature = text "0x02";
  v2_swap_log = λ topics bytes. none;
  sync_log = read_sync;
  v2_mint_log = λ topics bytes. none;
  v2_burn_log = λ topics bytes. none;
  v3_swap_log = λ topics bytes. none;
  v3_mint_log = λ topics bytes. none;
  v3_burn_log = λ topics bytes. none;
}

abbrev raw_sync : RawLogMessage
raw_sync = record {
  address = some pool1.address;
  topics = sync_signature ∷ [];
  payload = some (b'0' ∷ b'x' ∷ 42 ∷ 84 ∷ []);
  tx_hash = none;
  block_hash = none;
  block_number = some 7;
  event_signature = none;
  protocol = none;
  exchange = none;
  log_index = none;
  removed = none;
}

abbrev pool1_after : V2PoolState
pool1_after = synced pool1 (to_log event_abi raw_sync sync_log.metadata) 42 84

apply_log-to_log_iff_example :
    (apply_log pool1 (to_log event_abi raw_sync sync_log.metadata) ≡ ok (applied, pool1_after)) ↔ (
      (r0 : ℕ) × (r1 : ℕ) × IsRawSync event_abi raw_sync pool1 r0 r1
      × (pool1_after ≡ synced pool1 (to_log event_abi raw_sync sync_log.metadata) r0 r1))
apply_log-to_log_iff_example =
    apply_log-to_log_iff event_abi raw_sync sync_log.metadata pool1 pool1_after

-- The right-hand side holds here.
raw_sync-IsRawSync : IsRawSync event_abi raw_sync pool1 42 84
unfolding event_signature decode_topics decode_data strip_prefix_0x eq_ignore_ascii_case text
    ascii_lower text_eq to_ascii_lowercase
raw_sync-IsRawSync = record {
  signed = refl;
  topics = sync_signature ∷ [];
  topics_eq = refl;
  bytes = 42 ∷ 84 ∷ [];
  bytes_eq = refl;
  event = record { reserve0 = 42; reserve1 = 84 };
  event_eq = refl;
  reserve0_eq = refl;
  reserve1_eq = refl;
  emitter = pool1.address;
  address_eq = refl;
  same_pool = refl;
  pos0 = omega arith;
  pos1 = omega arith;
}

abbrev bytes20 : ℕ → List ℕ
bytes20 n = n ∷ n ∷ n ∷ n ∷ n ∷ n ∷ n ∷ n ∷ n ∷ n ∷ n ∷ n ∷ n ∷ n ∷ n ∷ n ∷ n ∷ n ∷ n ∷ n ∷ []

abbrev fee3 : List ℕ
fee3 = 0 ∷ 11 ∷ 184 ∷ []

decode_v3_path-encode_path_example :
    (decode_v3_path
        (λ a. a)
        (encode_path (bytes20 1) ((fee3, bytes20 2) ∷ (fee3, bytes20 3) ∷ []))
        false
      ≡ some (bytes20 1, bytes20 3))
    × (decode_v3_path
          (λ a. a)
          (encode_path (bytes20 1) ((fee3, bytes20 2) ∷ (fee3, bytes20 3) ∷ []))
          true
        ≡ some (bytes20 3, bytes20 1))
decode_v3_path-encode_path_example =
    decode_v3_path-encode_path (λ a. a) (bytes20 1) fee3 (bytes20 2) ((fee3, bytes20 3) ∷ []) refl
      ((refl, refl), ((refl, refl), tt))

abbrev read_exact_input : List ℕ → Option ExactInputCall
read_exact_input calldata = some (record {
  amount_in = 5;
  amount_out_min = 4;
  path = bytes20 1 ∷ bytes20 2 ∷ [];
  to = bytes20 9;
})

abbrev call_abi : CallAbi
call_abi = record {
  hex_decode = λ s. some s;
  format_address = λ a. a;
  swap_exact_tokens_for_tokens = read_exact_input;
  swap_exact_tokens_for_tokens_supporting_fee = λ c. none;
  swap_exact_tokens_for_eth = λ c. none;
  swap_exact_tokens_for_eth_supporting_fee = λ c. none;
  swap_exact_eth_for_tokens = λ c. none;
  swap_exact_eth_for_tokens_supporting_fee = λ c. none;
  swap_tokens_for_exact_tokens = λ c. none;
  swap_tokens_for_exact_eth = λ c. none;
  swap_eth_for_exact_tokens = λ c. none;
  exact_input_single = λ c. none;
  exact_input = λ c. none;
  exact_output_single = λ c. none;
  exact_output = λ c. none;
}

abbrev raw_swap : RawTransactionMessage
raw_swap = record {
  tx_hash = none;
  from = none;
  to = some (text "0xrouter");
  value = none;
  input = some (text "0x38ED173900");
  block_hash = none;
  block_number = none;
}

selector-IsNormal_example :
    (normalize_hex (text "0x38ed1739") ≡ some (text "0x38ed1739"))
    × (length (text "0x38ed1739") ≡ 10)
unfolding text selector selector_of_input trim trim_start is_whitespace strip_0x as_bytes
    encode_char byte_prefix all_hexdigits is_ascii_hexdigit to_ascii_lowercase ascii_lower
selector-IsNormal_example = selector-IsNormal raw_swap (text "0x38ed1739") refl

abbrev swap : DecodedSwap
swap = record {
  pool = none;
  router = some (text "0xrouter");
  token_in = some (bytes20 1);
  token_out = some (bytes20 2);
  amount_in = some 5;
  amount_out = none;
  amount_in_maximum = none;
  amount_out_minimum = some 4;
  exact_input = some true;
  recipient = some (bytes20 9);
  protocol = some uniswap_v2;
  exchange = none;
}

abbrev raw_swap_decode : TransactionDecode
raw_swap_decode = record {
  selector = some (text "0x38ed1739");
  protocol = some uniswap_v2;
  exchange = none;
  decoded_swap = some swap;
}

decode-IsShaped_example :
    IsShaped (some (text "0xrouter")) (some uniswap_v2) none swap
    × (is_some (some uniswap_v2) ≡ true)
unfolding text decode selector selector_of_input trim trim_start is_whitespace strip_0x as_bytes
    encode_char byte_prefix all_hexdigits is_ascii_hexdigit to_ascii_lowercase ascii_lower
    resolve_transaction merge protocol_from_address exchange_from_address address_metadata
    normalize_hex find_by_key address_book selector_entry selector_entries protocol_from_selector
    exchange_from_selector text_eq decode_swap decode_calldata decode_call decode_v2_exact_input
    decode_v2_path last exact_input_call u256_to_u128 fit
decode-IsShaped_example = decode-IsShaped call_abi raw_swap raw_swap_decode swap refl refl
