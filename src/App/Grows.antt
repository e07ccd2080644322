-- ===== src/App/Grows.antt =====
-- What the steps of an attempt keep of the world, and that no handler takes an action out of the
-- journal.
use base_execution_engine.Base.{[], List, Option, Result, ok, err, none, some, ℕ, ◌∷◌}
use base_execution_engine.Base.Text.{Text, text}
use base_execution_engine.Base.Int.{ℤ}
use base_execution_engine.Types.{
  log, transaction, block, flashblock, Event, Log, Opportunity, SimulationResult, ExecutionAttempt,
  ExecutionReceipt, ExecutionRequest,
}
use base_execution_engine.Markets.Error.{MarketEventOutcome, applied, reverted, ignored}
use base_execution_engine.Execution.{PreparedExecution, prepare_execution}
use base_execution_engine.Execution.Payload.{SubmissionPayload}
use base_execution_engine.App.Steps.{◌>>◌, wrote_error, App, sent, with_context, act}
use base_execution_engine.App.Drive.{
  if_stored, EthCallSimulation, settle_attempt, after_submit, drive_execution_attempt,
}
use base_execution_engine.App.Pipeline.{
  payload_at, Turn, run_events, AppConfig, Outside, RuntimeScanConfig, DecisionPipelineOutput,
  apply_to_book, scan_book, handle_event, assess_opportunity, prepare_request, drive,
  after_simulation, submit_prepared, execute_prepared, maybe_log_decision_output, process_event,
}
use base_execution_engine.App.Kept.{
  Kept, Keeping, journal_kept, chain-Keeping, pure-Keeping, act-Keeping, branch-Keeping,
  in_context-Keeping, lift-Keeping, count_outcome-Keeping, if_stored-Keeping,
}

module _ (K : Kept) (o : Outside) where
  settle-Keeping :
      (request : ExecutionRequest) (attempt : ExecutionAttempt) (id : Option ℤ)
      (answer : Result Text (Option ExecutionReceipt))
      → Keeping K (
          settle_attempt
            (payload_at o o.submission_clock)
            o.storage
            o.transport
            o.elapsed
            request
            attempt
            id
            answer)
  unfolding settle_attempt
  settle-Keeping request attempt id (ok (some receipt)) =
      chain-Keeping K (lift-Keeping K _)
        (λ f. chain-Keeping K (count_outcome-Keeping K _) (λ u. if_stored-Keeping K o.storage id _))
  settle-Keeping request attempt id (ok none) =
      chain-Keeping K (lift-Keeping K _)
        (λ f. chain-Keeping K (count_outcome-Keeping K _) (λ u. if_stored-Keeping K o.storage id _))
  settle-Keeping request attempt id (err e) = if_stored-Keeping K o.storage id _

  module _ (config : AppConfig) where
    pub after_submit-Keeping :
        (request : ExecutionRequest) (attempt : ExecutionAttempt) (id : Option ℤ)
        (answer : Option (Result Text Text))
        → Keeping K (
            after_submit
              (payload_at o o.submission_clock)
              o.storage
              o.transport
              o.elapsed
              config.execution
              request
              attempt
              id
              answer)
    unfolding after_submit
    after_submit-Keeping request attempt id (some (ok hash)) =
        chain-Keeping K (lift-Keeping K _) (λ marked.
          chain-Keeping K (if_stored-Keeping K o.storage id _)
            (λ u. settle-Keeping request marked id _))
    after_submit-Keeping request attempt id (some (err e)) =
        chain-Keeping K (count_outcome-Keeping K _) (λ u. if_stored-Keeping K o.storage id _)
    after_submit-Keeping request attempt id none =
        chain-Keeping K (count_outcome-Keeping K _) (λ u. if_stored-Keeping K o.storage id _)

    pub drive-Keeping :
        (request : ExecutionRequest) (attempt : ExecutionAttempt) (id : Option ℤ)
        → Keeping K (drive o config request attempt id)
    unfolding drive drive_execution_attempt
    drive-Keeping request attempt id =
        in_context-Keeping K _
          (by_payload (payload_at o o.submission_clock config.execution request))
      where
        by_payload :
            (r : Result Text SubmissionPayload)
            → Keeping K (elim r as (λ _. App (Unit {0})) [
              | err e ↦ if_stored o.storage id (λ i. wrote_error i (text "build") e)
              | ok payload ↦
                  act (sent payload attempt)
                  >> after_submit
                      (payload_at o o.submission_clock)
                      o.storage
                      o.transport
                      o.elapsed
                      config.execution
                      request
                      attempt
                      id
                      (o.transport.submit payload attempt)
            ])
        by_payload (err e) = if_stored-Keeping K o.storage id _
        by_payload (ok payload) =
            chain-Keeping K (act-Keeping K _) (λ u. after_submit-Keeping request attempt id _)

    after_simulation-Keeping :
        (request : ExecutionRequest) (attempt : ExecutionAttempt) (id : Option ℤ)
        (answer : Result Text EthCallSimulation)
        → Keeping K (after_simulation o config request attempt id answer)
    unfolding after_simulation
    after_simulation-Keeping request attempt id (ok s) = drive-Keeping request attempt id
    after_simulation-Keeping request attempt id (err e) =
        branch-Keeping K config.ethcall_preflight_required
          (chain-Keeping K (count_outcome-Keeping K _) (λ u. if_stored-Keeping K o.storage id _))
          (drive-Keeping request attempt id)

    pub execute-Keeping :
        (p : Option (ExecutionRequest × PreparedExecution)) (run_id : Option ℤ)
        → Keeping K (execute_prepared o config p run_id)
    unfolding execute_prepared submit_prepared
    execute-Keeping none run_id = pure-Keeping K tt
    execute-Keeping (some (request, plan)) run_id = chain-Keeping K (lift-Keeping K _) (λ id.
        branch-Keeping K plan.should_submit
          (chain-Keeping K (lift-Keeping K _)
            (λ payload. after_simulation-Keeping request plan.attempt id _))
          (pure-Keeping K tt))

    pub prepare-Keeping :
        (r : Option ExecutionRequest) (simulation : SimulationResult)
        → Keeping K (prepare_request o config r simulation)
    unfolding prepare_request
    prepare-Keeping none simulation = pure-Keeping K none
    prepare-Keeping (some request) simulation =
        chain-Keeping K (lift-Keeping K (with_context o.todays_submittable_notional_wei _))
          (λ daily.
            chain-Keeping K
              (lift-Keeping K
                (with_context (prepare_execution config.execution request simulation daily) _))
              (λ plan. pure-Keeping K (some (request, plan))))

module _ (o : Outside) where
  module _ (config : AppConfig) where
    assess-Keeping :
        (now : ℕ) (opportunity : Opportunity) (simulation : SimulationResult)
        → Keeping journal_kept (assess_opportunity o config now opportunity simulation)
    unfolding assess_opportunity
    assess-Keeping now opportunity simulation = record { from = λ w a k. k }

    maybe_log-Keeping :
        (now : ℕ) (output : Option DecisionPipelineOutput)
        → Keeping journal_kept (maybe_log_decision_output o config now output)
    unfolding maybe_log_decision_output
    maybe_log-Keeping now none = pure-Keeping journal_kept tt
    maybe_log-Keeping now (some output) =
        chain-Keeping journal_kept (assess-Keeping now output.opportunity output.simulation)
          (λ risk.
            chain-Keeping journal_kept (prepare-Keeping journal_kept o config _ output.simulation)
              (λ plan.
                chain-Keeping journal_kept (lift-Keeping journal_kept _)
                  (λ run_id. execute-Keeping journal_kept o config plan run_id)))

  scan-Keeping :
      (scan : Option RuntimeScanConfig) (entry : Log) (id : Option ℤ) (outcome : MarketEventOutcome)
      → Keeping journal_kept (scan_book o scan entry id outcome)
  unfolding scan_book
  scan-Keeping scan entry id ignored = record { from = λ w a k. k }
  scan-Keeping scan entry id applied = record { from = λ w a k. k }
  scan-Keeping scan entry id reverted = record { from = λ w a k. k }

  apply-Keeping : (entry : Log) → Keeping journal_kept (apply_to_book o entry)
  unfolding apply_to_book
  apply-Keeping entry = record { from = λ w a k. k }

  handle-Keeping :
      (scan : Option RuntimeScanConfig) (event : Event)
      → Keeping journal_kept (handle_event o scan event)
  unfolding handle_event
  handle-Keeping scan (log entry) = chain-Keeping journal_kept (lift-Keeping journal_kept _) (λ id.
      chain-Keeping journal_kept (apply-Keeping entry)
        (λ outcome. scan-Keeping scan entry id outcome))
  handle-Keeping scan (transaction t) = pure-Keeping journal_kept none
  handle-Keeping scan (block b) = pure-Keeping journal_kept none
  handle-Keeping scan (flashblock b) = pure-Keeping journal_kept none

module _ (config : AppConfig) (scan : Option RuntimeScanConfig) where
  process-Keeping : (turn : Turn) → Keeping journal_kept (process_event config scan turn)
  unfolding process_event
  process-Keeping turn =
      chain-Keeping journal_kept
        (in_context-Keeping journal_kept _ (handle-Keeping turn.outside scan turn.event))
        (λ output.
          in_context-Keeping journal_kept _ (maybe_log-Keeping turn.outside config turn.now output))

  pub run-Keeping : (turns : List Turn) → Keeping journal_kept (run_events config scan turns)
  unfolding run_events
  run-Keeping [] = pure-Keeping journal_kept tt
  run-Keeping (turn ∷ turns) =
      chain-Keeping journal_kept (process-Keeping turn) (λ u. run-Keeping turns)
