-- ===== src/Discovery/Hydrate.antt =====
-- crates/discovery/src/reader.rs: the hydration of the pools that a scan found, by one multicall. The
-- node, the reading of an address and the codecs that `sol!` generates are parameters.
use base_execution_engine.Base.{
  Bool, List, Option, Result, [], err, if◌then◌else◌, none, not, ok, some, to_option, true,
  unwrap_or, ℕ, ◌>>=?◌, ◌>>=◌, ◌||◌, ◌∷◌,
}
use base_execution_engine.Base.Text.{Text, text}
use base_execution_engine.Base.Int.{ℤ}
use base_execution_engine.Types.{Amount}
use base_execution_engine.Discovery.Reader.{parse_address, DiscoveredV2Pool, DiscoveredV3Pool}
use base_execution_engine.App.Steps.{with_context}

pub record Call3 (AlloyAddress Bytes : Type 0) : Type 0 where
  pub target : AlloyAddress
  pub allow_failure : Bool
  pub call_data : Bytes

-- `Result` of the multicall
pub record CallResult (Bytes : Type 0) : Type 0 where
  pub success : Bool
  pub return_data : Bytes

module _ {Bytes : Type 0} (decode_reserves : Bytes → Option (Amount × Amount)) where
  -- The body of the loop over the slots.
  unfoldable pub hydrate_v2_slot : DiscoveredV2Pool → CallResult Bytes → DiscoveredV2Pool
  hydrate_v2_slot slot res =
      if not res.success then slot else elim (decode_reserves res.return_data) [
        | none ↦ slot
        | some (reserve0, reserve1) ↦ record slot { reserve0 = reserve0; reserve1 = reserve1 }
      ]

  -- `zip`: the slots past the last result stay as they are.
  unfoldable pub hydrate_v2_slots :
      List DiscoveredV2Pool → List (CallResult Bytes) → List DiscoveredV2Pool
  hydrate_v2_slots (slot ∷ slots) (res ∷ results) =
      hydrate_v2_slot slot res ∷ hydrate_v2_slots slots results
  hydrate_v2_slots slots _ = slots

module _ {Bytes : Type 0} (decode_slot0 : Bytes → Option (ℕ × ℤ))
    (decode_liquidity : Bytes → Option Amount) where
  unfoldable pub with_slot0 : DiscoveredV3Pool → Option (ℕ × ℤ) → DiscoveredV3Pool
  with_slot0 slot none = slot
  with_slot0 slot (some (sqrt_price_x96, tick)) = record slot {
    sqrt_price_x96 = sqrt_price_x96;
    tick = tick;
  }

  unfoldable pub with_liquidity : DiscoveredV3Pool → Option Amount → DiscoveredV3Pool
  with_liquidity slot none = slot
  with_liquidity slot (some amount) = record slot { liquidity = amount }

  unfoldable pub hydrate_v3_slot :
      DiscoveredV3Pool → CallResult Bytes → CallResult Bytes → DiscoveredV3Pool
  hydrate_v3_slot slot slot0_res liq_res =
      if not slot0_res.success || not liq_res.success
      then slot
      else with_liquidity (with_slot0 slot (decode_slot0 slot0_res.return_data))
          (decode_liquidity liq_res.return_data)

  -- The loop over the slots: `none` is the panic of `results[2 * k]` out of range.
  unfoldable pub hydrate_v3_slots :
      List DiscoveredV3Pool → List (CallResult Bytes) → Option (List DiscoveredV3Pool)
  hydrate_v3_slots [] _ = some []
  hydrate_v3_slots (slot ∷ slots) (slot0_res ∷ liq_res ∷ results) =
      hydrate_v3_slots slots results >>=? λ rest.
      some (hydrate_v3_slot slot slot0_res liq_res ∷ rest)
  hydrate_v3_slots (slot ∷ slots) _ = none

module _ {AlloyAddress Bytes : Type 0} (from_str : Text → Option AlloyAddress)
    (zero_address : AlloyAddress) (call : AlloyAddress → Bytes → Result Text Bytes)
    (encode_calls : List (Call3 AlloyAddress Bytes) → Bytes)
    (decode_results : Bytes → Result Text (List (CallResult Bytes))) where
  unfoldable pub multicall_aggregate3 :
      AlloyAddress → List (Call3 AlloyAddress Bytes) → Result Text (List (CallResult Bytes))
  multicall_aggregate3 multicall3 calls = do
    raw ←
        with_context (call multicall3 (encode_calls calls))
          (text "eth_call to multicall3.aggregate3 failed")
    with_context (decode_results raw) (text "failed to decode multicall3 aggregate3 returns")

  -- A call that may fail, of a pool whose address may not parse.
  unfoldable pub pool_call : Bytes → Text → Call3 AlloyAddress Bytes
  pool_call payload address = record {
    target = unwrap_or (to_option (parse_address from_str address)) zero_address;
    allow_failure = true;
    call_data = payload;
  }

  module _ (get_reserves : Bytes) (decode_reserves : Bytes → Option (Amount × Amount)) where
    unfoldable pub v2_calls : List DiscoveredV2Pool → List (Call3 AlloyAddress Bytes)
    v2_calls [] = []
    v2_calls (pool ∷ pools) = pool_call get_reserves pool.address ∷ v2_calls pools

    unfoldable pub hydrate_v2_reserves :
        AlloyAddress → List DiscoveredV2Pool → Result Text (List DiscoveredV2Pool)
    hydrate_v2_reserves multicall3 [] = ok []
    hydrate_v2_reserves multicall3 (pool ∷ pools) = do
      results ←
          with_context (multicall_aggregate3 multicall3 (v2_calls (pool ∷ pools)))
            (text "v2 multicall hydration failed")
      ok (hydrate_v2_slots decode_reserves (pool ∷ pools) results)

  module _ (slot0 liquidity : Bytes) (decode_slot0 : Bytes → Option (ℕ × ℤ))
      (decode_liquidity : Bytes → Option Amount) where
    -- Two calls for each pool, the price before the liquidity.
    unfoldable pub v3_calls : List DiscoveredV3Pool → List (Call3 AlloyAddress Bytes)
    v3_calls [] = []
    v3_calls (pool ∷ pools) =
        pool_call slot0 pool.address ∷ pool_call liquidity pool.address ∷ v3_calls pools

    unfoldable pub hydrate_v3_state :
        AlloyAddress → List DiscoveredV3Pool → Option (Result Text (List DiscoveredV3Pool))
    hydrate_v3_state multicall3 [] = some (ok [])
    hydrate_v3_state multicall3 (pool ∷ pools) =
        elim (with_context (multicall_aggregate3 multicall3 (v3_calls (pool ∷ pools)))
          (text "v3 multicall hydration failed")) [
            | err reason ↦ some (err reason)
            | ok results ↦
                hydrate_v3_slots decode_slot0 decode_liquidity (pool ∷ pools) results
                >>=? λ hydrated. some (ok hydrated)
          ]
