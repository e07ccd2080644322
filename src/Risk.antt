-- ===== src/Risk.antt =====
-- crates/decision/src/risk.rs: the risk engine. The engine's state is locked for each call, so a
-- method is a function from the state before it to the state after it; `now` is the clock's answer.
-- Parameters: `path_exists` is the file system, `sha256_hex` the digest of the package sha2.
pub mod Policy
pub mod Gates
pub mod Runs
pub mod Window
pub mod Blocks
pub mod Breaker
mod Tests
use base_execution_engine.Base.{
  Bool, List, Option, [], false, if◌then◌else◌, leb, ltb, none, not, some, true, ℕ, ◌&&◌, ◌*◌, ◌++◌,
  ◌-◌, ◌/◌, ◌==◌, ◌||◌, ◌∷◌,
}
use base_execution_engine.Base.Words.{saturating_add, saturating_mul, u128_max, u32_max, u64_max}
use base_execution_engine.Base.Text.{
  Text, is_empty, show_uint, text, text_eq, text_leb, to_ascii_lowercase,
}
use base_execution_engine.Base.Sort.{sort_by, dedup_by}
use base_execution_engine.Base.Bytes.{as_bytes, to_le_bytes}
use base_execution_engine.Types.{
  Amount, BlockContext, BlockNumber, Opportunity, RiskDecision, RouteLeg, SimulationResult, block,
  pending,
}

abbrev pub seconds_per_day : ℕ
seconds_per_day = 24 * 60 * 60

-- The two token sets hold lower-case addresses.
pub record RiskPolicy : Type 0 where
  pub min_net_profit_wei : Amount
  pub min_profit_bps : ℕ
  pub max_trade_notional_wei : Option Amount
  pub max_per_block_notional_wei : Option Amount
  pub max_daily_notional_wei : Option Amount
  pub max_slippage_bps : ℕ
  pub token_allowlist : List Text
  pub token_denylist : List Text
  pub max_consecutive_reverts : ℕ
  pub kill_switch_path : Option Text

-- The front of `daily_entries` is the head of the list.
pub record RiskState : Type 0 where
  pub block_notional : Option (BlockNumber × Amount)
  pub daily_entries : List (ℕ × Amount)
  pub daily_total : Amount
  pub consecutive_reverts : ℕ
  pub operator_killed : Bool

abbrev pub initial_state : RiskState
initial_state = record {
  block_notional = none;
  daily_entries = [];
  daily_total = 0;
  consecutive_reverts = 0;
  operator_killed = false;
}

unfoldable pub trigger_kill_switch : RiskState → RiskState
trigger_kill_switch st = record st { operator_killed = true }

unfoldable pub record_outcome : Bool → RiskState → RiskState
record_outcome true st = record st { consecutive_reverts = 0 }
record_outcome false st = record st {
  consecutive_reverts = saturating_add u32_max st.consecutive_reverts 1;
}

-- The loop of `prune_daily_entries` on the entries and the total.
unfoldable pub prune_from : ℕ → List (ℕ × Amount) → Amount → List (ℕ × Amount) × Amount
prune_from horizon [] total = ([], total)
prune_from horizon ((ts, amount) ∷ rest) total =
    if ltb ts horizon
    then prune_from horizon rest (total - amount)
    else ((ts, amount) ∷ rest, total)

unfoldable pub prune_daily_entries : RiskState → ℕ → RiskState
prune_daily_entries st now =
    let (entries, total) = prune_from (now - seconds_per_day) st.daily_entries st.daily_total in
    record st { daily_entries = entries; daily_total = total }

unfoldable pub leg_tokens : List RouteLeg → List Text
leg_tokens [] = []
leg_tokens (leg ∷ route) = leg.token_in ∷ leg.token_out ∷ leg_tokens route

unfoldable pub opportunity_tokens : Opportunity → List Text
opportunity_tokens opp =
    dedup_by text_eq (sort_by text_leb (opp.settlement_token ∷ leg_tokens opp.route))

unfoldable pub contains : List Text → Text → Bool
contains [] t = false
contains (s ∷ set) t = text_eq s t || contains set t

-- An early `return Some(reason)`, and the rest of the function.
infixr 20 ◌or_else◌
abbrev pub ◌or_else◌ : Option Text → Option Text → Option Text
some reason or_else rest = some reason
none or_else rest = rest

abbrev pub reject_if : Bool → Text → Option Text
reject_if true reason = some reason
reject_if false reason = none

unfoldable pub kill_switch_gate : (Text → Bool) → RiskPolicy → Option Text
kill_switch_gate path_exists policy = elim policy.kill_switch_path [
  | none ↦ none
  | some path ↦ reject_if (path_exists path) (text "kill switch file is present at " ++ path)
]

unfoldable pub bps_gate : RiskPolicy → Opportunity → SimulationResult → Option Text
bps_gate policy opp sim =
    let threshold = saturating_mul u128_max opp.input_amount policy.min_profit_bps / 10000 in
    reject_if
      (ltb 0 policy.min_profit_bps
        && ltb 0 opp.input_amount
        && ltb sim.expected_net_profit threshold)
      (text "expected net profit "
        ++ (show_uint sim.expected_net_profit
            ++ (text " is below "
                ++ (show_uint policy.min_profit_bps
                    ++ (text " bps of notional (" ++ (show_uint threshold ++ text ")"))))))

unfoldable pub trade_gate : RiskPolicy → Opportunity → Option Text
trade_gate policy opp = elim policy.max_trade_notional_wei [
  | none ↦ none
  | some cap ↦ reject_if (ltb cap opp.input_amount) (
      text "trade notional "
      ++ (show_uint opp.input_amount ++ (text " exceeds per-trade cap " ++ show_uint cap)))
]

-- The two tests on one token.
unfoldable pub token_gate : RiskPolicy → Text → Option Text
token_gate policy token =
    reject_if (contains policy.token_denylist (to_ascii_lowercase token))
      (text "token " ++ (token ++ text " is on the denylist"))
    or_else reject_if
        (not (is_empty policy.token_allowlist)
          && not (contains policy.token_allowlist (to_ascii_lowercase token)))
        (text "token " ++ (token ++ text " is not on the allowlist"))

unfoldable pub tokens_gate : RiskPolicy → List Text → Option Text
tokens_gate policy [] = none
tokens_gate policy (token ∷ tokens) = token_gate policy token or_else tokens_gate policy tokens

-- `input_amount.saturating_sub(expected_output_amount)` does not saturate behind its test.
unfoldable pub slippage_gate : RiskPolicy → Opportunity → Option Text
slippage_gate policy opp =
    let shortfall = opp.input_amount - opp.expected_output_amount in
    let cap_value = saturating_mul u128_max opp.input_amount policy.max_slippage_bps / 10000 in
    reject_if
      (ltb policy.max_slippage_bps 10000
        && ltb opp.expected_output_amount opp.input_amount
        && ltb cap_value shortfall)
      (text "path shortfall "
        ++ (show_uint shortfall
            ++ (text " exceeds "
                ++ (show_uint policy.max_slippage_bps ++ text " bps of notional"))))

unfoldable pub stateless_reject :
    (Text → Bool) → RiskPolicy → Opportunity → SimulationResult → Option Text
stateless_reject path_exists policy opp sim =
    kill_switch_gate path_exists policy
    or_else reject_if (not sim.accepted) (text "simulation rejected the opportunity")
    or_else reject_if (ltb sim.expected_net_profit policy.min_net_profit_wei) (
        text "expected net profit "
        ++ (show_uint sim.expected_net_profit
            ++ (text " is below the minimum " ++ show_uint policy.min_net_profit_wei)))
    or_else bps_gate policy opp sim
    or_else trade_gate policy opp
    or_else tokens_gate policy (opportunity_tokens opp)
    or_else slippage_gate policy opp

-- The bytes that are hashed, in order.
unfoldable pub risk_preimage : Opportunity → SimulationResult → Amount → List ℕ
risk_preimage opp sim min_surplus =
    as_bytes opp.id
    ++ (to_le_bytes 16 opp.expected_output_amount
        ++ (to_le_bytes 16 sim.expected_net_profit
            ++ (to_le_bytes 16 sim.gas_cost_wei
                ++ (to_le_bytes 16 sim.l1_data_fee ++ to_le_bytes 16 min_surplus))))

unfoldable pub block_bucket : BlockContext → BlockNumber
block_bucket (block number hash) = number
block_bucket pending = u64_max

unfoldable pub block_used : RiskState → BlockNumber → Amount
block_used st number = elim st.block_notional [
  | none ↦ 0
  | some (current, used) ↦ if current == number then used else 0
]

-- A cap is exceeded by the amount used and a new one.
abbrev pub exceeds : Option Amount → Amount → Amount → Bool
exceeds none used amount = false
exceeds (some cap) used amount = ltb cap (saturating_add u128_max used amount)

abbrev pub is_tripped : RiskPolicy → RiskState → Bool
is_tripped policy st =
    leb policy.max_consecutive_reverts st.consecutive_reverts
    && ltb 0 policy.max_consecutive_reverts

unfoldable pub cap_reason : Text → Option Amount → Amount → Amount → Text
cap_reason label none used amount = label
cap_reason label (some cap) used amount =
    label
    ++ (show_uint (saturating_add u128_max used amount)
        ++ (text " would exceed cap " ++ show_uint cap))

-- The commit of the notional, after the last gate.
unfoldable pub commit : BlockNumber → ℕ → Amount → RiskState → RiskState
commit number now amount st = record st {
  block_notional = some (number, saturating_add u128_max (block_used st number) amount);
  daily_entries = st.daily_entries ++ (now, amount) ∷ [];
  daily_total = saturating_add u128_max st.daily_total amount;
}

module _ (path_exists : Text → Bool) (sha256_hex : List ℕ → Text) where
  unfoldable pub risk_hash : Opportunity → SimulationResult → Amount → Text
  risk_hash opp sim min_surplus = sha256_hex (risk_preimage opp sim min_surplus)

  unfoldable pub decide :
      Bool → Option Text → RiskPolicy → Opportunity → SimulationResult → RiskDecision
  decide accepted reason policy opp sim = record {
    opportunity_id = opp.id;
    accepted = accepted;
    reason = reason;
    risk_hash = risk_hash opp sim policy.min_net_profit_wei;
    min_surplus = policy.min_net_profit_wei;
  }

  unfoldable pub deny : RiskPolicy → Opportunity → Text → SimulationResult → RiskDecision
  deny policy opp reason sim = decide false (some reason) policy opp sim

  -- The daily cap, on the pruned state, and the acceptance.
  unfoldable pub assess_daily :
      RiskPolicy → ℕ → Opportunity → SimulationResult → RiskState → RiskDecision × RiskState
  assess_daily policy now opp sim st =
      if exceeds policy.max_daily_notional_wei st.daily_total opp.input_amount
      then (
        deny policy opp
            (cap_reason (text "daily notional ") policy.max_daily_notional_wei st.daily_total
              opp.input_amount)
            sim,
        st,
      )
      else (
        decide true none policy opp sim,
        commit (block_bucket opp.block_context) now opp.input_amount st,
      )

  unfoldable pub assess_stateful :
      RiskPolicy → ℕ → Opportunity → SimulationResult → RiskState → RiskDecision × RiskState
  assess_stateful policy now opp sim st =
      let used = block_used st (block_bucket opp.block_context) in
      let rest = assess_daily policy now opp sim (prune_daily_entries st now) in
      if st.operator_killed
      then (deny policy opp (text "operator kill switch is engaged") sim, st)
      else if is_tripped policy st
      then (
        deny policy opp
            (text "circuit breaker tripped after "
              ++ (show_uint st.consecutive_reverts ++ text " consecutive reverts"))
            sim,
        st,
      )
      else if exceeds policy.max_per_block_notional_wei used opp.input_amount
      then (
        deny policy opp
            (cap_reason (text "per-block notional ") policy.max_per_block_notional_wei used
              opp.input_amount)
            sim,
        st,
      )
      else rest

  -- `RiskEngine::assess`
  unfoldable pub assess :
      RiskPolicy → ℕ → Opportunity → SimulationResult → RiskState → RiskDecision × RiskState
  assess policy now opp sim st = elim (stateless_reject path_exists policy opp sim) [
    | some reason ↦ (deny policy opp reason sim, st)
    | none ↦ assess_stateful policy now opp sim st
  ]
