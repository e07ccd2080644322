-- ===== src/Discovery/Reader.antt =====
-- crates/discovery/src/reader.rs: the interface of a reader, and the scans of AlloyFactoryReader. The
-- node, the decoders that `sol!` generates and the reading of an address are parameters.
use Prim.Native.Nat.{min}
use base_execution_engine.Base.{
  err, ok_or, List, Option, Result, [], if◌then◌else◌, ltb, none, ok, some, suc, unwrap_or, zero, ℕ,
  ◌%◌, ◌++◌, ◌+◌, ◌-◌, ◌>>=?◌, ◌>>=◌, ◌^◌, ◌∷◌,
}
use base_execution_engine.Base.Text.{Text, show_uint, text, trim}
use base_execution_engine.Base.Int.{pos, ℤ}
use base_execution_engine.Types.{Address, Amount, BlockNumber}
use base_execution_engine.Discovery.Factory.{FactoryConfig, log_chunk_size_or_default}
use base_execution_engine.App.Steps.{with_context}

pub record DiscoveredV2Pool : Type 0 where
  pub address : Address
  pub token0 : Address
  pub token1 : Address
  pub reserve0 : Amount
  pub reserve1 : Amount
  pub fee_bps : ℕ

pub record DiscoveredV3Pool : Type 0 where
  pub address : Address
  pub token0 : Address
  pub token1 : Address
  pub fee_pips : ℕ
  pub tick_spacing : ℤ
  pub sqrt_price_x96 : ℕ
  pub tick : ℤ
  pub liquidity : Amount

-- `FactoryReader`, over the type of parsed addresses.
pub record FactoryReader (AlloyAddress : Type 0) : Type 0 where
  pub latest_block : Result Text BlockNumber
  pub fetch_v2_pair_created :
      FactoryConfig → BlockNumber → BlockNumber → Result Text (List DiscoveredV2Pool)
  pub fetch_v3_pool_created :
      FactoryConfig → BlockNumber → BlockNumber → Result Text (List DiscoveredV3Pool)
  pub hydrate_v2_reserves :
      AlloyAddress → List DiscoveredV2Pool → Result Text (List DiscoveredV2Pool)
  pub hydrate_v3_state : AlloyAddress → List DiscoveredV3Pool → Result Text (List DiscoveredV3Pool)

pub record PairCreated (AlloyAddress : Type 0) : Type 0 where
  pub token0 : AlloyAddress
  pub token1 : AlloyAddress
  pub pair : AlloyAddress

pub record PoolCreated (AlloyAddress : Type 0) : Type 0 where
  pub token0 : AlloyAddress
  pub token1 : AlloyAddress
  pub fee : ℕ
  pub tick_spacing : ℤ
  pub pool : AlloyAddress

abbrev pub parse_address {ℓ} :
    {AlloyAddress : Type ℓ} → (Text → Option AlloyAddress) → Text → Result Text AlloyAddress
parse_address from_str input =
    ok_or (from_str (trim input)) (text "invalid hex address `" ++ (input ++ text "`"))

-- `filter_map` over the logs of a chunk.
unfoldable pub decode_all {ℓ} : {A B : Type ℓ} → (A → Option B) → List A → List B
decode_all decode [] = []
decode_all decode (l ∷ ls) = elim (decode l) [
  | none ↦ decode_all decode ls
  | some pool ↦ pool ∷ decode_all decode ls
]

module _ {Log Pool : Type 0} (get_logs : BlockNumber → BlockNumber → Result Text (List Log))
    (decode : Log → Option Pool) (message : Text) (chunk to_block : ℕ) where
  -- `(cursor + chunk - 1).min(to_block)`, on 64 bits.
  unfoldable pub chunk_end : BlockNumber → BlockNumber
  chunk_end cursor = min ((cursor + chunk - 1) % 2 ^ 64) to_block

  -- The loop over the chunks: `cursor = chunk_end.saturating_add(1)`. A turn takes one unit of fuel;
  -- `none` is a loop that has not ended when the fuel is used up.
  unfoldable pub scan_chunks : ℕ → BlockNumber → Option (Result Text (List Pool))
  unfolding chunk_end
  scan_chunks zero cursor = if ltb to_block cursor then some (ok []) else none
  scan_chunks (suc fuel) cursor =
      let rest = scan_chunks fuel (min (suc (chunk_end cursor)) (2 ^ 64 - 1)) in
      if ltb to_block cursor
      then some (ok [])
      else elim (with_context (get_logs cursor (chunk_end cursor)) (
          message
          ++ (text " factory chunk "
              ++ (show_uint cursor ++ (text "-" ++ show_uint (chunk_end cursor)))))) [
                | err reason ↦ some (err reason)
                | ok logs ↦ rest >>=? λ answer.
                    some (answer >>= λ pools. ok (decode_all decode logs ++ pools))
              ]

module _ {AlloyAddress Log : Type 0} (from_str : Text → Option AlloyAddress)
    (format_address : AlloyAddress → Text) where
  module _ (get_pairs : AlloyAddress → BlockNumber → BlockNumber → Result Text (List Log))
      (pair_created : Log → Option (PairCreated AlloyAddress)) where
    unfoldable pub decode_v2_pair_created : FactoryConfig → Log → Option DiscoveredV2Pool
    decode_v2_pair_created factory entry = pair_created entry >>=? λ evt. some (record {
      address = format_address evt.pair;
      token0 = format_address evt.token0;
      token1 = format_address evt.token1;
      reserve0 = 0;
      reserve1 = 0;
      fee_bps = unwrap_or factory.default_v2_fee_bps 30;
    })

    unfoldable pub fetch_v2_pair_created :
        FactoryConfig → BlockNumber → BlockNumber → Option (Result Text (List DiscoveredV2Pool))
    fetch_v2_pair_created factory from_block to_block =
        elim (with_context (parse_address from_str factory.address)
          (text "v2 factory address must be valid hex")) [
            | err reason ↦ some (err reason)
            | ok address ↦
                scan_chunks (get_pairs address) (decode_v2_pair_created factory)
                  (text "eth_getLogs failed for v2") (log_chunk_size_or_default factory) to_block
                  (suc to_block - from_block) from_block
          ]

  module _ (get_pools : AlloyAddress → BlockNumber → BlockNumber → Result Text (List Log))
      (pool_created : Log → Option (PoolCreated AlloyAddress)) where
    unfoldable pub decode_v3_pool_created : Log → Option DiscoveredV3Pool
    decode_v3_pool_created entry = pool_created entry >>=? λ evt. some (record {
      address = format_address evt.pool;
      token0 = format_address evt.token0;
      token1 = format_address evt.token1;
      fee_pips = evt.fee;
      tick_spacing = evt.tick_spacing;
      sqrt_price_x96 = 0;
      tick = pos 0;
      liquidity = 0;
    })

    unfoldable pub fetch_v3_pool_created :
        FactoryConfig → BlockNumber → BlockNumber → Option (Result Text (List DiscoveredV3Pool))
    fetch_v3_pool_created factory from_block to_block =
        elim (with_context (parse_address from_str factory.address)
          (text "v3 factory address must be valid hex")) [
            | err reason ↦ some (err reason)
            | ok address ↦
                scan_chunks (get_pools address) decode_v3_pool_created
                  (text "eth_getLogs failed for v3") (log_chunk_size_or_default factory) to_block
                  (suc to_block - from_block) from_block
          ]
