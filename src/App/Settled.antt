-- ===== src/App/Settled.antt =====
-- What a turn leaves in the risk state when a transaction is due in it: what the risk engine left, and
-- the outcomes that are recorded after it.
use base_execution_engine.Base.{◌≢◌, List, Option, ok, some, refl, ◌∷◌, ◌≡◌}
use base_execution_engine.Types.{log, Log, Opportunity, ExecutionAttempt}
use base_execution_engine.Markets.Book.{PoolBook, apply_log}
use base_execution_engine.Markets.Error.{MarketEventOutcome, applied, reverted, ignored}
use base_execution_engine.Decision.{simulate_two_leg_opportunity, build_execution_request}
use base_execution_engine.Execution.Payload.{SubmissionPayload}
use base_execution_engine.App.Steps.{World}
use base_execution_engine.App.Pipeline.{
  Turn, AppConfig, RuntimeScanConfig, DecisionPipelineOutput, apply_to_book, opportunities,
  best_output, scan_book, handle_event, assess_opportunity, maybe_log_decision_output,
  process_event,
}
use base_execution_engine.App.Due.{IsDetected, IsDue, decision_at}
use base_execution_engine.App.Kept.{Outcomes, risk_kept, chain-Keeping, lift-Keeping}
use base_execution_engine.App.Grows.{prepare-Keeping, execute-Keeping}
use base_execution_engine.App.Due.{state_at}

module _ (config : AppConfig) (scan : Option RuntimeScanConfig) (turn : Turn) (w : World) where
  pub handle_at :
      (book : PoolBook) (output : DecisionPipelineOutput)
      (d : IsDetected turn.outside scan turn.event w book output)
      → handle_event turn.outside scan turn.event w ≡ (ok (some output), record w { book = book })
  unfolding handle_event apply_to_book scan_book best_output
  handle_at book output d = rw d.event_eq rw d.settings_eq (
      by_outcome d.outcome d.settings d.entry d.others d.observed d.moved d.scanned d.found
        d.simulated)
    where
      by_outcome :
          (outcome : MarketEventOutcome) (settings : RuntimeScanConfig) (entry : Log)
          (others : List Opportunity)
          → turn.outside.persist_observed_log entry ≡ ok output.observed_log_id
          → apply_log turn.outside.parse_u256 w.book entry ≡ (ok outcome, book)
          → outcome ≢ ignored
          → opportunities turn.outside settings entry book ≡ output.opportunity ∷ others
          → simulate_two_leg_opportunity output.opportunity settings.simulation
            ≡ some output.simulation
          → handle_event turn.outside (some settings) (log entry) w
            ≡ (ok (some output), record w { book = book })
      by_outcome applied settings entry others eo em ei ef es = rw eo rw em rw ef rw es refl
      by_outcome reverted settings entry others eo em ei ef es = rw eo rw em rw ef rw es refl
      by_outcome ignored settings entry others eo em ei ef es = absurd (ei refl)

  decide-Outcomes :
      (output : DecisionPipelineOutput) (book : PoolBook)
      → Outcomes
          (state_at config turn w output)
          (maybe_log_decision_output turn.outside config turn.now
            (some output)
            (record w { book = book })).1.risk
  unfolding maybe_log_decision_output assess_opportunity
  decide-Outcomes output book =
      (chain-Keeping risk_kept
          (prepare-Keeping risk_kept turn.outside config
            (build_execution_request output.opportunity (decision_at config turn w output))
            output.simulation)
          (λ plan.
            chain-Keeping risk_kept (lift-Keeping risk_kept _)
              (λ run_id. execute-Keeping risk_kept turn.outside config plan run_id))).from
        (record w { book = book; risk = state_at config turn w output })

  pub process-Outcomes :
      (payload : SubmissionPayload) (attempt : ExecutionAttempt)
      (d : IsDue config scan turn w payload attempt)
      → Outcomes (state_at config turn w d.output) (process_event config scan turn w).1.risk
  unfolding process_event
  process-Outcomes payload attempt d =
      rw (process_event, handle_at d.book d.output d.detected) (decide-Outcomes d.output d.book)
