-- ===== src/App/Pipeline.antt =====
-- `handle_event`, `maybe_log_decision_output` and the loop of `main` of crates/app/src/main.rs.
-- Parameters: what is outside the repository, in `Outside`, whose answers differ from turn to turn.
use base_execution_engine.Base.{
  Bool, List, Option, Result, [], err, false, if◌then◌else◌, none, ok, some, ℕ, ◌>>=?◌, ◌∷◌,
}
use base_execution_engine.Base.Text.{Text, text}
use base_execution_engine.Base.Int.{ℤ}
use base_execution_engine.Types.{
  Address, Amount, Event, ExecutionAttempt, ExecutionRequest, Log, Opportunity, RiskDecision,
  SimulationResult, log,
}
use base_execution_engine.Markets.Error.{MarketError, MarketEventOutcome, ignored}
use base_execution_engine.Markets.Book.{PoolBook, apply_log}
use base_execution_engine.Risk.{RiskPolicy, assess}
use base_execution_engine.Decision.{
  SimulationConfig, detect_two_leg_loops_from_book, simulate_two_leg_opportunity,
  build_execution_request,
}
use base_execution_engine.Execution.{ExecutionConfig, PreparedExecution, prepare_execution}
use base_execution_engine.Execution.Payload.{
  RouterExecutionPlan, SubmissionPayload, build_submission_payload,
}
use base_execution_engine.App.Steps.{
  App, Action, wrote_error, pure, ◌>>=◌, ◌>>◌, lift, with_context, in_context, count_outcome,
}
use base_execution_engine.App.Drive.{
  EthCallSimulation, Transport, run_ethcall_simulation, if_stored, drive_execution_attempt,
}

pub record RuntimeScanConfig : Type 0 where
  pub settlement_token : Address
  pub amount_in : Amount
  pub simulation : SimulationConfig

pub record DecisionPipelineOutput : Type 0 where
  pub observed_log_id : Option ℤ
  pub opportunity : Opportunity
  pub simulation : SimulationResult

pub record DecisionRunRecord : Type 0 where
  pub observed_log_id : Option ℤ
  pub trigger_tx_hash : Option Text
  pub opportunity : Opportunity
  pub simulation : SimulationResult
  pub risk : RiskDecision
  pub execution_request : Option ExecutionRequest

-- The part of the configuration that these functions read.
pub record AppConfig : Type 0 where
  pub execution : ExecutionConfig
  pub policy : RiskPolicy
  pub ethcall_timeout_secs : ℕ
  pub ethcall_preflight_required : Bool

-- The packages that the payload is built with.
pub record PayloadAbi : Type 1 where
  pub AlloyAddress : Type 0
  pub Bytes32 : Type 0
  pub parse_address : Text → Option AlloyAddress
  pub show_address : AlloyAddress → Text
  pub address_bytes : AlloyAddress → List ℕ
  pub parse_bytes32 : Text → Option Bytes32
  pub abi_encode : Bool → RouterExecutionPlan AlloyAddress Bytes32 → List ℕ

-- The answers from outside in one turn of the loop. The payload is built twice in a turn, for the
-- slow-path simulation and for the submission, and the clock is read each time.
pub record Outside : Type 1 where
  pub parse_u256 : Text → Option ℕ
  pub path_exists : Text → Bool
  pub sha256_hex : List ℕ → Text
  pub market_message : MarketError → Text
  pub abi : PayloadAbi
  pub simulation_clock : Result Text ℕ
  pub submission_clock : Result Text ℕ
  pub transport : Transport
  pub elapsed : Text
  pub storage : Action → Result Text (Unit {0})
  pub persist_observed_log : Log → Result Text (Option ℤ)
  pub todays_submittable_notional_wei : Result Text Amount
  pub persist_decision_run : DecisionRunRecord → Result Text (Option ℤ)
  pub persist_execution_attempt :
      Option ℤ → ExecutionAttempt → ExecutionRequest → Result Text (Option ℤ)

-- What one turn of the loop takes in: the event, the time of the risk engine's clock, the answers.
pub record Turn : Type 1 where
  pub outside : Outside
  pub now : ℕ
  pub event : Event

module _ (o : Outside) where
  -- `build_submission_payload`, at a reading of the clock
  unfoldable pub payload_at :
      Result Text ℕ → ExecutionConfig → ExecutionRequest → Result Text SubmissionPayload
  payload_at clock config request =
      build_submission_payload o.abi.AlloyAddress o.abi.Bytes32 o.abi.parse_address
        o.abi.show_address o.abi.address_bytes o.abi.parse_bytes32 o.abi.abi_encode config request
        clock

  -- `pool_book.apply_log(log)?`, which changes the book also when it fails.
  unfoldable pub apply_to_book : Log → App MarketEventOutcome
  apply_to_book entry w =
      let (answer, after) = apply_log o.parse_u256 w.book entry in
      (
        elim answer [ ok outcome ↦ ok outcome | err e ↦ err (o.market_message e) ],
        record w { book = after },
      )

  -- The first of the opportunities, simulated.
  unfoldable pub best_output :
      RuntimeScanConfig → Option ℤ → List Opportunity → Option DecisionPipelineOutput
  best_output scan id [] = none
  best_output scan id (best ∷ _) =
      simulate_two_leg_opportunity best scan.simulation >>=? λ simulation.
      some (record { observed_log_id = id; opportunity = best; simulation = simulation })

  unfoldable pub opportunities : RuntimeScanConfig → Log → PoolBook → List Opportunity
  opportunities scan entry book =
      detect_two_leg_loops_from_book entry.metadata.block_context scan.settlement_token
        scan.amount_in entry.metadata.tx_hash book

  unfoldable pub scan_book :
      Option RuntimeScanConfig
      → Log
      → Option ℤ
      → MarketEventOutcome
      → App (Option DecisionPipelineOutput)
  scan_book scan entry id ignored w = pure none w
  scan_book scan entry id _ w =
      pure (scan >>=? λ s. best_output s id (opportunities s entry w.book)) w

  unfoldable pub handle_event :
      Option RuntimeScanConfig → Event → App (Option DecisionPipelineOutput)
  handle_event scan (log entry) = do
    id ← lift (with_context (o.persist_observed_log entry) (text "failed to persist observed log"))
    outcome ← apply_to_book entry
    scan_book scan entry id outcome
  handle_event scan _ = pure none

  module _ (config : AppConfig) where
    -- `risk_engine.assess`
    unfoldable pub assess_opportunity : ℕ → Opportunity → SimulationResult → App RiskDecision
    assess_opportunity now opportunity simulation w =
        let (decision, after) =
          assess o.path_exists o.sha256_hex config.policy now opportunity simulation w.risk in
        (ok decision, record w { risk = after })

    unfoldable pub prepare_request :
        Option ExecutionRequest
        → SimulationResult
        → App (Option (ExecutionRequest × PreparedExecution))
    prepare_request none simulation = pure none
    prepare_request (some request) simulation = do
      daily ← lift (
          with_context o.todays_submittable_notional_wei
            (text "failed to load current daily execution exposure"))
      prepared ← lift (
          with_context (prepare_execution config.execution request simulation daily)
            (text "failed to prepare execution attempt"))
      pure (some (request, prepared))

    unfoldable pub drive : ExecutionRequest → ExecutionAttempt → Option ℤ → App (Unit {0})
    drive request attempt id =
        in_context
          (drive_execution_attempt (payload_at o.submission_clock) o.storage o.transport o.elapsed
            config.execution request attempt id)
          (text "failed to drive execution attempt lifecycle")

    -- After the slow-path simulation: a failure ends the attempt where it is required to pass.
    unfoldable pub after_simulation :
        ExecutionRequest
        → ExecutionAttempt
        → Option ℤ
        → Result Text EthCallSimulation
        → App (Unit {0})
    after_simulation request attempt id (ok simulation) = drive request attempt id
    after_simulation request attempt id (err e) =
        if config.ethcall_preflight_required
        then (count_outcome false
            >> if_stored o.storage id (λ i. wrote_error i (text "ethcall_simulate") e))
        else drive request attempt id

    unfoldable pub submit_prepared : ExecutionRequest → ExecutionAttempt → Option ℤ → App (Unit {0})
    submit_prepared request attempt id = do
      payload ← lift (
          with_context (payload_at o.simulation_clock config.execution request)
            (text "failed to build submission payload for eth_call simulation"))
      after_simulation request attempt id
          (run_ethcall_simulation o.transport config.ethcall_timeout_secs payload attempt)

    unfoldable pub execute_prepared :
        Option (ExecutionRequest × PreparedExecution) → Option ℤ → App (Unit {0})
    execute_prepared none run_id = pure tt
    execute_prepared (some (request, prepared)) run_id = do
      id ← lift (o.persist_execution_attempt run_id prepared.attempt request)
      if prepared.should_submit then submit_prepared request prepared.attempt id else pure tt

    unfoldable pub maybe_log_decision_output : ℕ → Option DecisionPipelineOutput → App (Unit {0})
    maybe_log_decision_output now none = pure tt
    maybe_log_decision_output now (some output) = do
      risk ← assess_opportunity now output.opportunity output.simulation
      let request = build_execution_request output.opportunity risk
      prepared ← prepare_request request output.simulation
      run_id ← lift (
          o.persist_decision_run (record {
            observed_log_id = output.observed_log_id;
            trigger_tx_hash = output.opportunity.trigger_tx_hash;
            opportunity = output.opportunity;
            simulation = output.simulation;
            risk = risk;
            execution_request = request;
          }))
      execute_prepared prepared run_id

module _ (config : AppConfig) (scan : Option RuntimeScanConfig) where
  -- One turn of the loop of `main` on an ingest event.
  unfoldable pub process_event : Turn → App (Unit {0})
  process_event turn = do
    output ←
        in_context (handle_event turn.outside scan turn.event)
          (text "failed to handle ingest event")
    in_context (maybe_log_decision_output turn.outside config turn.now output)
        (text "failed to persist decision output")

  -- The loop, until the channel closes or an error ends the engine.
  unfoldable pub run_events : List Turn → App (Unit {0})
  run_events [] = pure tt
  run_events (turn ∷ turns) = process_event turn >> run_events turns
