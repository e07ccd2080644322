-- ===== src/App/Due.antt =====
-- When a transaction is due: what a turn of the loop of crates/app/src/main.rs has to find, with the
-- engine's own book and risk state as they stand before it.
use base_execution_engine.Base.{
  inl, inr, ◌+◌, ◌≤◌, List, Option, [], false, ok, some, true, ℕ, ◌∷◌, ◌≡◌, ◌≢◌, ◌⊎◌,
}
use base_execution_engine.Base.Int.{ℤ}
use base_execution_engine.Types.{
  Event, ExecutionAttempt, ExecutionRequest, ExecutionStep, Log, Opportunity, RiskDecision, log,
}
use base_execution_engine.Markets.Book.{PoolBook, apply_log, v2_pools}
use base_execution_engine.Markets.Book.Invariant.{IsSound}
use base_execution_engine.Markets.Error.{MarketEventOutcome, ignored}
use base_execution_engine.Risk.{RiskState, assess}
use base_execution_engine.Decision.{simulate_two_leg_opportunity, build_execution_request}
use base_execution_engine.Execution.{PreparedExecution, prepare_execution}
use base_execution_engine.Execution.Payload.{SubmissionPayload}
use base_execution_engine.Risk.Gates.{Passes, Admits}
use base_execution_engine.Decision.Scan.{FoundIn}
use base_execution_engine.Execution.Prepare.{Within, notional}
use base_execution_engine.Execution.Payload.{Carries}
use base_execution_engine.App.Kept.{Outcomes}
use base_execution_engine.App.Steps.{World}
use base_execution_engine.App.Drive.{EthCallSimulation, run_ethcall_simulation}
use base_execution_engine.App.Pipeline.{
  AppConfig, Outside, RuntimeScanConfig, DecisionPipelineOutput, Turn, payload_at, opportunities,
  process_event,
}

-- A log that the book did not ignore, after which the best opportunity of the book is simulated.
pub record IsDetected (o : Outside) (scan : Option RuntimeScanConfig) (event : Event) (w : World)
    (book : PoolBook) (output : DecisionPipelineOutput) : Type 0 where
  pub settings : RuntimeScanConfig
  pub settings_eq : scan ≡ some settings
  pub entry : Log
  pub event_eq : event ≡ log entry
  pub observed : o.persist_observed_log entry ≡ ok output.observed_log_id
  pub outcome : MarketEventOutcome
  pub moved : apply_log o.parse_u256 w.book entry ≡ (ok outcome, book)
  pub scanned : outcome ≢ ignored
  pub others : List Opportunity
  pub found : opportunities o settings entry book ≡ output.opportunity ∷ others
  pub simulated :
      simulate_two_leg_opportunity output.opportunity settings.simulation ≡ some output.simulation

-- A plan that is to be submitted, is stored, passes the slow-path simulation or does not need it, and
-- has its payload built.
pub record IsSendable (o : Outside) (config : AppConfig) (request : ExecutionRequest)
    (plan : PreparedExecution) (run_id : Option ℤ) (payload : SubmissionPayload) : Type 0 where
  pub attempt_id : Option ℤ
  pub stored : o.persist_execution_attempt run_id plan.attempt request ≡ ok attempt_id
  pub to_submit : plan.should_submit ≡ true
  pub simulated_payload : SubmissionPayload
  pub simulation_built :
      payload_at o o.simulation_clock config.execution request ≡ ok simulated_payload
  pub preflight :
      (config.ethcall_preflight_required ≡ false)
      ⊎ ((s : EthCallSimulation) × (run_ethcall_simulation o.transport config.ethcall_timeout_secs
              simulated_payload plan.attempt
            ≡ ok s))
  pub built : payload_at o o.submission_clock config.execution request ≡ ok payload

-- What the risk engine decides in the state that the engine has.
abbrev pub decision_at : AppConfig → Turn → World → DecisionPipelineOutput → RiskDecision
decision_at config turn w output =
    (assess turn.outside.path_exists turn.outside.sha256_hex config.policy turn.now
      output.opportunity output.simulation w.risk).0

-- The state that it leaves.
abbrev pub state_at : AppConfig → Turn → World → DecisionPipelineOutput → RiskState
state_at config turn w output =
    (assess turn.outside.path_exists turn.outside.sha256_hex config.policy turn.now
      output.opportunity output.simulation w.risk).1

pub record IsDue (config : AppConfig) (scan : Option RuntimeScanConfig) (turn : Turn) (w : World)
    (payload : SubmissionPayload) (attempt : ExecutionAttempt) : Type 0 where
  pub output : DecisionPipelineOutput
  pub book : PoolBook
  pub detected : IsDetected turn.outside scan turn.event w book output
  pub request : ExecutionRequest
  pub accepted : (decision_at config turn w output).accepted ≡ true
  pub requested :
      build_execution_request output.opportunity (decision_at config turn w output) ≡ some request
  pub daily : ℕ
  pub exposure : turn.outside.todays_submittable_notional_wei ≡ ok daily
  pub plan : PreparedExecution
  pub planned : prepare_execution config.execution request output.simulation daily ≡ ok plan
  pub run_id : Option ℤ
  pub run_stored :
      turn.outside.persist_decision_run (record {
        observed_log_id = output.observed_log_id;
        trigger_tx_hash = output.opportunity.trigger_tx_hash;
        opportunity = output.opportunity;
        simulation = output.simulation;
        risk = decision_at config turn w output;
        execution_request = some request;
      })
      ≡ ok run_id
  pub sendable : IsSendable turn.outside config request plan run_id payload
  pub attempt_eq : plan.attempt ≡ attempt

-- What the engine's promises say of a transaction that is due: it stands for a loop between two pools
-- of a sound book; it passes every gate of the risk engine, in the state that the engine has, which
-- keeps what the risk engine counted and the outcomes recorded after it; it is within the limits of the mode; its last step insists on the repayment, the surplus and both costs;
-- and the payload says of the request what it says.
pub record IsGuarded (config : AppConfig) (scan : Option RuntimeScanConfig) (turn : Turn)
    (w : World) (payload : SubmissionPayload) (attempt : ExecutionAttempt)
    (due : IsDue config scan turn w payload attempt) : Type 0 where
  pub book_sound : IsSound due.book
  pub found :
      FoundIn due.detected.entry.metadata.block_context due.detected.settings.settlement_token
        due.detected.settings.amount_in due.detected.entry.metadata.tx_hash
        (v2_pools due.book)
        due.output.opportunity
  pub passes :
      Passes turn.outside.path_exists config.policy due.output.opportunity due.output.simulation
  pub admits : Admits config.policy turn.now due.output.opportunity w.risk
  pub counted :
      Outcomes (state_at config turn w due.output) (process_event config scan turn w).1.risk
  pub within : Within config.execution.mode config.execution (notional due.request) due.daily
  pub first : ExecutionStep
  pub second : ExecutionStep
  pub steps : due.request.steps ≡ first ∷ second ∷ []
  pub covers :
      due.request.min_repay + due.request.min_surplus
        + due.detected.settings.simulation.gas_cost_wei
        + due.detected.settings.simulation.l1_data_fee_wei
      ≤ second.min_amount_out
  pub time : ℕ
  pub clock : turn.outside.submission_clock ≡ ok time
  pub carries :
      Carries turn.outside.abi.AlloyAddress turn.outside.abi.Bytes32 turn.outside.abi.parse_address
        turn.outside.abi.show_address turn.outside.abi.address_bytes turn.outside.abi.parse_bytes32
        turn.outside.abi.abi_encode config.execution due.request time payload

-- A transaction that is due in the turn, and guarded.
pub record IsWellDue (config : AppConfig) (scan : Option RuntimeScanConfig) (turn : Turn)
    (w : World) (payload : SubmissionPayload) (attempt : ExecutionAttempt) : Type 0 where
  pub due : IsDue config scan turn w payload attempt
  pub guarded : IsGuarded config scan turn w payload attempt due

-- What holds of a transaction in a turn, from a world.
abbrev pub InTurn : Type 1
InTurn =
    AppConfig
    → Option RuntimeScanConfig
    → Turn
    → World
    → SubmissionPayload
    → ExecutionAttempt
    → Type 0

-- It holds in one of the turns, from the world that the turns before it leave without an error.
abbrev pub InSome :
    InTurn
    → AppConfig
    → Option RuntimeScanConfig
    → List Turn
    → World
    → SubmissionPayload
    → ExecutionAttempt
    → Type 0
InSome T config scan [] w payload attempt = ⊥
InSome T config scan (turn ∷ turns) w payload attempt =
    T config scan turn w payload attempt
    ⊎ (((process_event config scan turn w).0 ≡ ok tt)
        × InSome T config scan turns (process_event config scan turn w).1 payload attempt)

pub InSome-IsDue :
    (config : AppConfig) (scan : Option RuntimeScanConfig) (turns : List Turn) (w : World)
    (payload : SubmissionPayload) (attempt : ExecutionAttempt)
    → InSome IsWellDue config scan turns w payload attempt
    → InSome IsDue config scan turns w payload attempt
InSome-IsDue config scan [] w payload attempt h = h
InSome-IsDue config scan (turn ∷ turns) w payload attempt (inl d) = inl d.due
InSome-IsDue config scan (turn ∷ turns) w payload attempt (inr (e, h)) =
    inr (e, InSome-IsDue config scan turns (process_event config scan turn w).1 payload attempt h)
