-- ===== src/App/Tests/Sent.antt =====
-- One log, after which a loop between two pools pays: its transaction is sent.
use base_execution_engine.Base.{
  to_option, unwrap_or, inr, [], none, some, false, refl, List, ◌∷◌, ◌≡◌, length,
}
use base_execution_engine.Base.Text.{text, text_eq, trim, strip_0x, to_ascii_lowercase, ascii_lower}
use base_execution_engine.Base.Words.{fit, saturating_add}
use base_execution_engine.Base.Int.{pos}
use base_execution_engine.Types.{
  Log, Opportunity, SimulationResult, RiskDecision, log, ExecutionRequest,
}
use base_execution_engine.Samples.{
  found, simulated, sync_event, log_of, costs, policy, no_path, digest, parse_price,
}
use base_execution_engine.Execution.{
  PreparedExecution, mark_submitted, finalize_from_receipt, total_fee_paid,
}
use base_execution_engine.Markets.V2.{V2PoolState}
use base_execution_engine.Markets.Book.{
  PoolBook, insert_v2_pool, normalize_address_key, apply_log, apply_state, put_back, v2_pools,
  v2_values,
}
use base_execution_engine.Risk.{initial_state, RiskState, assess, assess_stateful, stateless_reject}
use base_execution_engine.App.Steps.{count_outcome, act, write}
use base_execution_engine.App.Drive.{passed, drive_execution_attempt}
use base_execution_engine.App.Pipeline.{run_events, payload_at}
use base_execution_engine.App.Pipeline.{
  apply_to_book, best_output, opportunities, scan_book, handle_event, assess_opportunity,
  prepare_request, drive, after_simulation, submit_prepared, execute_prepared,
  maybe_log_decision_output, process_event,
}
use base_execution_engine.App.Drive.{run_ethcall_simulation}
use base_execution_engine.Markets.Book.{applied_log_key, commit_sync, apply_v2_event, apply_v2_log}
use base_execution_engine.Markets.V2.{
  apply_sync, estimate_price_impact_bps, sides, swap_output, contains_token, other_token,
  apply_sync_event, apply_decoded, snapshot, restore,
}
use base_execution_engine.Decision.{
  loop_leg, loop_opportunity, detect_two_leg_loop, loop_input, scan_pair, scan_second,
  scan_first_pool, scan_first, detect_two_leg_loops_from_book, simulation_result,
  simulate_two_leg_opportunity, execution_step, execution_steps, build_execution_request,
}
use base_execution_engine.Risk.{
  prune_from, prune_daily_entries, leg_tokens, opportunity_tokens, contains, kill_switch_gate,
  bps_gate, trade_gate, token_gate, tokens_gate, slippage_gate, block_used, decide, assess_daily,
}
use base_execution_engine.Execution.{
  padded_gas_limit, parse_optional_amount, submission_policy, built_attempt, prepare_execution,
}
use base_execution_engine.Base.Maps.{lookup, insert, remove}
use base_execution_engine.Base.Text.{eq_ignore_ascii_case, text_leb}
use base_execution_engine.Base.Words.{checked_sub, saturating_mul}
use base_execution_engine.Base.Sort.{place, sort_by, dedup_after, dedup_by}
use base_execution_engine.Markets.V2
use base_execution_engine.App.Due.{IsDue}
use base_execution_engine.Markets.Error.{applied}
use base_execution_engine.Execution.Payload.{
  build_submission_payload, build_submission_payload_at, build_steps, build_route_step, route_arm,
  read_hint, parse_risk_hash, starts_with_0x,
}
use base_execution_engine.Discovery.Factory
use base_execution_engine.App.Justified.{started}
use base_execution_engine.App.Fixture.{
  turns, execution, app_config, payload, outside, scan, book, attempt, request,
}

-- The log moves the book, the loop is found, and the transaction is sent, stored and settled.
engine_sends : length (run_events app_config (some scan) turns (started book)).1.journal ≡ 3
unfolding payload_at build_submission_payload build_submission_payload_at build_steps
    build_route_step route_arm read_hint parse_risk_hash starts_with_0x apply_to_book best_output
    opportunities scan_book handle_event assess_opportunity prepare_request drive after_simulation
    submit_prepared execute_prepared maybe_log_decision_output process_event run_events
    run_ethcall_simulation drive_execution_attempt count_outcome act write normalize_address_key
    applied_log_key insert_v2_pool v2_values v2_pools commit_sync apply_v2_event apply_v2_log
    apply_state put_back apply_log apply_sync estimate_price_impact_bps sides swap_output
    contains_token other_token apply_sync_event apply_decoded loop_leg loop_opportunity
    detect_two_leg_loop loop_input scan_pair scan_second scan_first_pool scan_first
    detect_two_leg_loops_from_book simulation_result simulate_two_leg_opportunity execution_steps
    build_execution_request prune_from prune_daily_entries leg_tokens opportunity_tokens contains
    kill_switch_gate bps_gate trade_gate token_gate tokens_gate slippage_gate stateless_reject
    block_used decide assess_daily assess_stateful assess padded_gas_limit parse_optional_amount
    submission_policy built_attempt prepare_execution mark_submitted total_fee_paid
    finalize_from_receipt lookup insert remove text text_eq ascii_lower to_ascii_lowercase
    eq_ignore_ascii_case trim strip_0x text_leb fit checked_sub saturating_add saturating_mul place
    sort_by dedup_after dedup_by execution_step V2.apply_log V2.quote_exact_in
engine_sends = refl

abbrev entry : Log
entry = log_of (sync_event 1000000000 2500000000)

abbrev moved_book : PoolBook
moved_book = (apply_log parse_price book entry).1

abbrev first_of : List Opportunity → Opportunity
first_of [] = found
first_of (best ∷ others) = best

abbrev best : Opportunity
best = first_of (opportunities outside scan entry moved_book)

abbrev simulation : SimulationResult
simulation = unwrap_or (simulate_two_leg_opportunity best costs) simulated

abbrev assessed : RiskDecision × RiskState
assessed = assess no_path digest policy 100 best simulation initial_state

abbrev best_request : ExecutionRequest
best_request = unwrap_or (build_execution_request best assessed.0) request

abbrev plan : PreparedExecution
plan =
    unwrap_or (to_option (prepare_execution execution best_request simulation 0))
      (record { attempt = attempt; should_submit = false })

-- The transaction of that loop is due in the turn.
due :
    IsDue app_config
      (some scan)
      (record { outside = outside; now = 100; event = log entry })
      (started book)
      payload
      plan.attempt
unfolding payload_at build_submission_payload build_submission_payload_at build_steps
    build_route_step route_arm read_hint parse_risk_hash starts_with_0x apply_to_book best_output
    opportunities scan_book handle_event assess_opportunity prepare_request drive after_simulation
    submit_prepared execute_prepared maybe_log_decision_output process_event run_events
    run_ethcall_simulation drive_execution_attempt count_outcome act write normalize_address_key
    applied_log_key insert_v2_pool v2_values v2_pools commit_sync apply_v2_event apply_v2_log
    apply_state put_back apply_log apply_sync estimate_price_impact_bps sides swap_output
    contains_token other_token apply_sync_event apply_decoded loop_leg loop_opportunity
    detect_two_leg_loop loop_input scan_pair scan_second scan_first_pool scan_first
    detect_two_leg_loops_from_book simulation_result simulate_two_leg_opportunity execution_steps
    build_execution_request prune_from prune_daily_entries leg_tokens opportunity_tokens contains
    kill_switch_gate bps_gate trade_gate token_gate tokens_gate slippage_gate stateless_reject
    block_used decide assess_daily assess_stateful assess padded_gas_limit parse_optional_amount
    submission_policy built_attempt prepare_execution mark_submitted total_fee_paid
    finalize_from_receipt lookup insert remove text text_eq ascii_lower to_ascii_lowercase
    eq_ignore_ascii_case trim strip_0x text_leb fit checked_sub saturating_add saturating_mul place
    sort_by dedup_after dedup_by execution_step V2.apply_log V2.quote_exact_in
due = record {
  output = record { observed_log_id = some (pos 1); opportunity = best; simulation = simulation };
  book = moved_book;
  detected = record {
    settings = scan;
    settings_eq = refl;
    entry = entry;
    event_eq = refl;
    observed = refl;
    outcome = applied;
    moved = refl;
    scanned = cc;
    others = [];
    found = refl;
    simulated = refl;
  };
  request = best_request;
  accepted = refl;
  requested = refl;
  daily = 0;
  exposure = refl;
  plan = plan;
  planned = refl;
  run_id = some (pos 2);
  run_stored = refl;
  sendable = record {
    attempt_id = some (pos 3);
    stored = refl;
    to_submit = refl;
    simulated_payload = payload;
    simulation_built = refl;
    preflight = inr (passed none, refl);
    built = refl;
  };
  attempt_eq = refl;
}
