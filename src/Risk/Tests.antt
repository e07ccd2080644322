-- ===== src/Risk/Tests.antt =====
-- The theorems on the risk engine at a concrete policy and sequence of calls.
use base_execution_engine.Base.{List, [], arith, false, inl, refl, true, ◌-◌, ◌↔◌, ◌∷◌, ◌≡◌, ◌≤◌}
use base_execution_engine.Base.Text.{ascii_lower, text_eq, text_leb, to_ascii_lowercase}
use base_execution_engine.Base.Words.{saturating_add, saturating_mul, u64_max}
use base_execution_engine.Base.Sort.{sort_by, dedup_by, place, dedup_after}
use base_execution_engine.Samples.{found, simulated, policy, no_path, digest}
use base_execution_engine.Risk.{
  initial_state, seconds_per_day, assess, assess_stateful, assess_daily, stateless_reject,
  kill_switch_gate, bps_gate, trade_gate, tokens_gate, token_gate, slippage_gate,
  opportunity_tokens, leg_tokens, contains, block_used, block_bucket, prune_daily_entries,
  prune_from, decide, deny,
}
use base_execution_engine.Risk.Gates.{Passes, Admits, assess_accepted_iff}
use base_execution_engine.Risk.Runs.{Call, assessed, outcome, after, accepted_log}
use base_execution_engine.Risk.Window.{accepted_since, daily_cap_holds}
use base_execution_engine.Risk.Blocks.{accepted_in, InBlockOrder, block_cap_holds}
use base_execution_engine.Risk.Breaker.{breaker_denies}

abbrev calls : List Call
calls = assessed 100000 found simulated ∷ []

-- The call is accepted.
accepted_calls : accepted_log no_path digest policy calls ≡ (100000, u64_max, 1000000) ∷ []
unfolding assess assess_stateful assess_daily stateless_reject kill_switch_gate bps_gate trade_gate
    tokens_gate token_gate slippage_gate opportunity_tokens leg_tokens contains block_used
    block_bucket prune_daily_entries prune_from decide deny saturating_add saturating_mul sort_by
    place dedup_by dedup_after text_eq text_leb to_ascii_lowercase ascii_lower
accepted_calls = refl

assess_accepted_iff_example :
    ((assess no_path digest policy 100000 found simulated initial_state).0.accepted ≡ true)
    ↔ (Passes no_path policy found simulated × Admits policy 100000 found initial_state)
assess_accepted_iff_example =
    assess_accepted_iff no_path digest policy 100000 found simulated initial_state

daily_cap_holds_example :
    accepted_since (150000 - seconds_per_day) (accepted_log no_path digest policy calls) ≤ 2500000
daily_cap_holds_example =
    daily_cap_holds no_path digest policy 2500000 150000 calls refl (omega arith) (omega arith, tt)

in_order : InBlockOrder (accepted_log no_path digest policy calls)
in_order = rw accepted_calls (tt, tt)

block_cap_holds_example : accepted_in u64_max (accepted_log no_path digest policy calls) ≤ 1500000
block_cap_holds_example =
    block_cap_holds no_path digest policy 1500000 u64_max calls refl (omega arith) in_order

breaker_denies_example :
    (assess no_path digest policy 100000 found simulated
      (after no_path digest policy (outcome false ∷ outcome false ∷ outcome true ∷ []))).0.accepted
    ≡ false
breaker_denies_example =
    breaker_denies no_path digest policy (outcome false ∷ outcome false ∷ outcome true ∷ []) 100000
      found simulated (inl (omega arith, omega arith, omega arith))
