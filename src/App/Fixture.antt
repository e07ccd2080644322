-- ===== src/App/Fixture.antt =====
-- An engine in live mode between two pools, and what answers it, for the runs of App/Tests.
use base_execution_engine.Base.{[], none, some, ok, true, false, List, ◌∷◌}
use base_execution_engine.Base.Text.{Text}
use base_execution_engine.Base.Int.{pos}
use base_execution_engine.Types.{built, log, ExecutionAttempt, ExecutionReceipt, ExecutionRequest}
use base_execution_engine.Samples.{
  pool1, pool2, sync_event, log_of, costs, policy, no_path, digest, weth, parse_price,
}
use base_execution_engine.Execution.{ExecutionConfig, live}
use base_execution_engine.Execution.Payload.{SubmissionPayload}
use base_execution_engine.Markets.V2.{V2PoolState}
use base_execution_engine.Markets.Book.{PoolBook, new_book, insert_v2_pool}
use base_execution_engine.Decision.{DecisionConfig}
use base_execution_engine.App.Drive.{Transport, passed}
use base_execution_engine.App.Pipeline.{Turn, AppConfig, Outside, RuntimeScanConfig}
use base_execution_engine.App.Bootstrap.{BootstrapV2Pool}

abbrev pub execution : ExecutionConfig
execution = record {
  mode = live;
  submit_timeout_secs = 5;
  receipt_timeout_secs = 30;
  router_address = some (b'r' ∷ []);
  canary_max_trade_wei = none;
  canary_max_daily_wei = none;
  gas_limit_multiplier_bps = 12000;
  max_fee_per_gas_wei = none;
  max_priority_fee_per_gas_wei = none;
  plan_deadline_secs = 60;
  use_flashloan = true;
}

abbrev pub app_config : AppConfig
app_config = record {
  execution = execution;
  policy = policy;
  ethcall_timeout_secs = 3;
  ethcall_preflight_required = true;
}

abbrev pub payload : SubmissionPayload
payload = record { router_address = b'r' ∷ []; calldata = []; value = 0 }

abbrev pub hash : Text
hash = b'h' ∷ []

abbrev pub receipt : ExecutionReceipt
receipt = record {
  request_id = [];
  tx_hash = hash;
  block_number = some 8;
  success = false;
  gas_used = some 100;
  effective_gas_price = some 2;
  l1_fee_paid = none;
  revert_reason = none;
}

abbrev pub transport : Transport
transport = record {
  submit = λ p a. some (ok hash);
  simulate = λ p a. some (ok (passed none));
  await_receipt = λ r a t. ok (some receipt);
}

abbrev pub outside : Outside
outside = record {
  parse_u256 = parse_price;
  path_exists = no_path;
  sha256_hex = digest;
  market_message = λ e. [];
  abi = record {
    AlloyAddress = Text;
    Bytes32 = Text;
    parse_address = some;
    show_address = λ a. a;
    address_bytes = λ a. a;
    parse_bytes32 = some;
    abi_encode = λ loan plan. [];
  };
  simulation_clock = ok 99;
  submission_clock = ok 100;
  transport = transport;
  elapsed = [];
  storage = λ a. ok tt;
  persist_observed_log = λ l. ok (some (pos 1));
  todays_submittable_notional_wei = ok 0;
  persist_decision_run = λ r. ok (some (pos 2));
  persist_execution_attempt = λ run a r. ok (some (pos 3));
}

abbrev pub scan : RuntimeScanConfig
scan = record { settlement_token = weth; amount_in = 1000000; simulation = costs }

abbrev pub entry_of : V2PoolState → BootstrapV2Pool
entry_of p = record {
  address = p.address;
  protocol = p.protocol;
  exchange = p.exchange;
  token0 = p.token0;
  token1 = p.token1;
  reserve0 = p.reserve0;
  reserve1 = p.reserve1;
  fee_bps = p.fee_bps;
}

abbrev pub decision_config : DecisionConfig
decision_config = record {
  min_net_profit_wei = [];
  simulation_gas_estimate = 180000;
  simulation_gas_cost_wei = [];
  simulation_l1_data_fee_wei = [];
  v2_bootstrap_path = some [];
  settlement_token = some weth;
  scan_trade_amount_wei = none;
}

abbrev pub book : PoolBook
book = insert_v2_pool (insert_v2_pool new_book pool1) pool2

abbrev pub turns : List Turn
turns =
    record { outside = outside; now = 100; event = log (log_of (sync_event 1000000000 2500000000)) }
    ∷ []

abbrev pub attempt : ExecutionAttempt
attempt = record {
  request_id = [];
  tx_hash = none;
  status = built;
  execution_mode = [];
  submission_allowed = true;
  blocked_reason = none;
  requested_notional = 1000000;
  gas_limit = none;
  max_fee_per_gas = none;
  max_priority_fee_per_gas = none;
}

abbrev pub request : ExecutionRequest
request = record {
  opportunity_id = [];
  steps = [];
  min_repay = 1000000;
  min_surplus = 10;
  flashloan_asset = none;
  flashloan_amount = none;
  risk_hash = [];
}
