-- ===== src/Samples.antt =====
-- Concrete data for the tests: two pools, a log and the loop of the repository's own decision tests.
use base_execution_engine.Base.{
  Bool, List, Option, [], false, none, some, true, ℕ, ◌*◌, ◌-◌, ◌^◌, ◌∷◌,
}
use base_execution_engine.Base.Text.{Text}
use base_execution_engine.Types.{
  DecodedLogEvent, Log, Opportunity, RawMessageType, SimulationResult, block, decoded, pending,
  two_leg_loop, uniswap_v2, uniswap_v3, v2_sync, v3_swap, ws,
}
use base_execution_engine.Base.Int.{pos}
use base_execution_engine.Markets.V2.{V2PoolState}
use base_execution_engine.Markets.V3.{V3PoolState}
use base_execution_engine.Risk.{RiskPolicy}
use base_execution_engine.Decision.{TwoLegLoopInput, SimulationConfig}

abbrev pub weth : Text
weth = b'w' ∷ []

abbrev pub asset : Text
asset = b'a' ∷ []

abbrev pub pool1 : V2PoolState
pool1 = record {
  address = b'p' ∷ b'1' ∷ [];
  protocol = uniswap_v2;
  exchange = none;
  token0 = weth;
  token1 = asset;
  reserve0 = 1000000000;
  reserve1 = 2500000000;
  fee_bps = 30;
  last_updated_block = none;
}

abbrev pub pool2 : V2PoolState
pool2 = record {
  address = b'p' ∷ b'2' ∷ [];
  protocol = uniswap_v2;
  exchange = none;
  token0 = asset;
  token1 = weth;
  reserve0 = 2000000000;
  reserve1 = 1200000000;
  fee_bps = 30;
  last_updated_block = none;
}

-- The event of a `Sync` with the given reserves.
abbrev pub sync_event : ℕ → ℕ → DecodedLogEvent
sync_event r0 r1 = record {
  kind = v2_sync;
  pool = none;
  sender = none;
  recipient = none;
  owner = none;
  reserve0 = some r0;
  reserve1 = some r1;
  amount0_in = none;
  amount1_in = none;
  amount0_out = none;
  amount1_out = none;
  amount0 = none;
  amount1 = none;
  liquidity = none;
  sqrt_price_x96 = none;
  tick = none;
  tick_lower = none;
  tick_upper = none;
  protocol = none;
  exchange = none;
}

-- A log of the first pool in block 7.
abbrev pub log_of : DecodedLogEvent → Log
log_of event = record {
  metadata = record {
    block_context = block 7 none;
    channel = ws;
    observed_at_ms = 0;
    chain_id = 8453;
    tx_hash = some (b't' ∷ []);
    decode_status = decoded;
    raw = record {
      message_type = RawMessageType.log;
      payload_size_bytes = 0;
      fingerprint = none;
      subscription = none;
    };
  };
  address = some (b'P' ∷ b'1' ∷ []);
  topics = [];
  payload = none;
  event_signature = none;
  decoded_event = some event;
  protocol = none;
  exchange = none;
  log_index = some 3;
  removed = some false;
}

abbrev pub sync_log : Log
sync_log = log_of (sync_event 1100000000 2300000000)

-- A V3 pool at the price 1 with a fee of 0.3%.
abbrev pub pool3 : V3PoolState
pool3 = record {
  address = b'p' ∷ b'1' ∷ [];
  protocol = uniswap_v3;
  exchange = none;
  token0 = weth;
  token1 = asset;
  fee_pips = 3000;
  tick_spacing = pos 60;
  sqrt_price_x96 = 2 ^ 96;
  liquidity = 100000000000000000000;
  tick = pos 0;
  last_updated_block = none;
}

-- A `Swap` of that pool to the price 4, with a parser that reads one decimal digit.
abbrev pub swap_log : Log
swap_log = log_of (record (sync_event 1 1) {
  kind = v3_swap;
  liquidity = some 500;
  sqrt_price_x96 = some (b'4' ∷ []);
  tick = some (pos 13863);
})

abbrev pub parse_price : Text → Option ℕ
parse_price [] = none
parse_price (c ∷ s) = some (2 ^ 96 * (c - b'0'))

-- The loop over the two pools.
abbrev pub loop : TwoLegLoopInput
loop = record {
  block_context = pending;
  settlement_token = weth;
  amount_in = 1000000;
  first_pool = pool1;
  second_pool = pool2;
  trigger_tx_hash = none;
}

-- What it earns.
abbrev pub found : Opportunity
found = record {
  id =
      b'l' ∷ b'o' ∷ b'o' ∷ b'p' ∷ b':' ∷ b'w' ∷ b':' ∷ b'p' ∷ b'1' ∷ b':' ∷ b'p' ∷ b'2' ∷ b':'
      ∷ b'1' ∷ b'0' ∷ b'0' ∷ b'0' ∷ b'0' ∷ b'0' ∷ b'0' ∷ [];
  kind = two_leg_loop;
  block_context = pending;
  settlement_token = weth;
  input_amount = 1000000;
  expected_output_amount = 1487681;
  expected_net_profit = 487681;
  route =
      record {
        venue = none;
        protocol = some uniswap_v2;
        target = pool1.address;
        pool_address = some pool1.address;
        token_in = weth;
        token_out = asset;
        amount_in = some 1000000;
        min_amount_out = some 2490017;
      }
      ∷ record {
        venue = none;
        protocol = some uniswap_v2;
        target = pool2.address;
        pool_address = some pool2.address;
        token_in = asset;
        token_out = weth;
        amount_in = some 2490017;
        min_amount_out = some 1487681;
      }
      ∷ [];
  trigger_tx_hash = none;
}

abbrev pub costs : SimulationConfig
costs = record { gas_estimate = 180000; gas_cost_wei = 5; l1_data_fee_wei = 2 }

-- A policy with a cap for each block and for each day.
abbrev pub policy : RiskPolicy
policy = record {
  min_net_profit_wei = 10;
  min_profit_bps = 1;
  max_trade_notional_wei = some 2000000;
  max_per_block_notional_wei = some 1500000;
  max_daily_notional_wei = some 2500000;
  max_slippage_bps = 50;
  token_allowlist = [];
  token_denylist = [];
  max_consecutive_reverts = 2;
  kill_switch_path = none;
}

abbrev pub no_path : Text → Bool
no_path path = false

abbrev pub digest : List ℕ → Text
digest bytes = bytes

abbrev pub simulated : SimulationResult
simulated = record {
  opportunity_id = found.id;
  accepted = true;
  expected_gross_profit = 487681;
  expected_net_profit = 487674;
  gas_estimate = 180000;
  gas_cost_wei = 5;
  l1_data_fee = 2;
  notes = [];
}
