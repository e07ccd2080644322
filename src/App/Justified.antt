-- ===== src/App/Justified.antt =====
-- What stands behind each action of the engine: whatever the events and the answers from outside, a
-- transaction goes out only for an opportunity that passed every stage, and what is stored of an
-- attempt is a state that its life cycle reaches.
pub mod Attempt
pub mod Guarded
pub mod Turns
pub mod Events
use mathlib.Core.Path.{subst}
use base_execution_engine.Base.{
  All, Bool, List, Option, Result, Result-cases, [], ap, err, false, if◌then◌else◌, inl, inr, none,
  ok, refl, some, true, ℕ, ◌>>=?◌, ◌∙◌, ◌∷◌, ◌≡◌,
}
use base_execution_engine.Base.Text.{Text, text}
use base_execution_engine.Base.Int.{ℤ}
use base_execution_engine.Types.{
  transaction, log, block, flashblock, Event, ExecutionAttempt, ExecutionReceipt, ExecutionRequest,
  Log, Opportunity, SimulationResult,
}
use base_execution_engine.Markets.Book.{PoolBook, apply_log}
use base_execution_engine.Markets.Book.Invariant.{IsSound, apply_log-IsSound}
use base_execution_engine.Markets.Error.{
  MarketError, MarketEventOutcome, applied, reverted, ignored,
}
use base_execution_engine.Risk.{RiskState, initial_state, assess}
use base_execution_engine.Decision.{
  DecisionConfig, detect_two_leg_loops_from_book, simulate_two_leg_opportunity,
  build_execution_request,
}
use base_execution_engine.Execution.{
  PreparedExecution, prepare_execution, mark_submitted, mark_dropped, finalize_from_receipt,
}
use base_execution_engine.Execution.Payload.{SubmissionPayload}
use base_execution_engine.Execution.Reach.{Reachable, prepared, stepped, submits, finalizes, drops}
use base_execution_engine.App.Steps.{
  World, App, Action, sent, wrote_error, wrote_submitted, wrote_final, wrote_dropped, ◌>>=◌, lift,
  with_context, count_outcome,
}
use base_execution_engine.App.Drive.{
  EthCallSimulation, is_outcome_success, if_stored, settle_attempt, after_submit,
  drive_execution_attempt,
}
use base_execution_engine.App.Pipeline.{
  opportunities, AppConfig, Outside, RuntimeScanConfig, DecisionPipelineOutput, apply_to_book,
  best_output, scan_book, handle_event, assess_opportunity, prepare_request, drive,
  after_simulation, submit_prepared, execute_prepared, maybe_log_decision_output, process_event,
  run_events,
}
use base_execution_engine.App.Bootstrap.{BootstrapV2Pool, load_pool_book, load_pool_book-IsSound}
use base_execution_engine.App.Ensures.{
  Ensures, OfOk, chain-Ensures, lift-Ensures, lift_context-Ensures, in_context-Ensures,
  count_outcome-Ensures, act-Ensures, if_stored-Ensures, pure-Ensures,
}

-- The engine as it enters its loop.
abbrev pub started : PoolBook → World
started book = record { book = book; risk = initial_state; journal = [] }

abbrev pub Done : Unit {0} → Type 0
Done u = Unit

-- The transactions for which something holds.
abbrev pub Sending : Type 1
Sending = SubmissionPayload → ExecutionAttempt → Type 0

-- What stands behind an action: a transaction that is sent is as `D` says, and what is stored of an
-- attempt is a state that its life cycle reaches.
abbrev pub IsJustified : Sending → Action → Type 0
IsJustified D (sent payload attempt) = D payload attempt
IsJustified D (wrote_error id stage message) = Unit
IsJustified D (wrote_submitted id attempt) = Reachable attempt
IsJustified D (wrote_final id attempt receipt outcome) = Reachable attempt
IsJustified D (wrote_dropped id attempt outcome) = Reachable attempt

pub IsJustified-imp :
    {D E : Sending}
    → ((payload : SubmissionPayload) (attempt : ExecutionAttempt)
        → D payload attempt
        → E payload attempt)
    → (a : Action) → IsJustified D a
    → IsJustified E a
IsJustified-imp f (sent payload attempt) h = f payload attempt h
IsJustified-imp f (wrote_error id stage message) h = tt
IsJustified-imp f (wrote_submitted id attempt) h = h
IsJustified-imp f (wrote_final id attempt receipt outcome) h = h
IsJustified-imp f (wrote_dropped id attempt outcome) h = h

module _ (S : PoolBook → Type 0) (D : Sending) where
  abbrev pub Good : {A : Type 0} → App A → (A → Type 0) → Type 0
  Good m Q = Ensures S (IsJustified D) m Q

  -- The rules of `Ensures` at this invariant.
  pub chain :
      {A B : Type 0} {m : App A} {f : A → App B} {Q : A → Type 0} {R : B → Type 0}
      → Good m Q
      → ((a : A) → Q a → Good (f a) R)
      → Good (m >>= f) R
  chain first rest = chain-Ensures S (IsJustified D) _ _ _ _ first rest

  pub answered :
      {A : Type 0} (r : Result Text A) (message : Text)
      → Good (lift (with_context r message)) (λ a. r ≡ ok a)
  answered r message = lift_context-Ensures S (IsJustified D) r message

  pub counted : (success : Bool) → Good (count_outcome success) Done
  counted success = count_outcome-Ensures S (IsJustified D) success

  pub stored :
      (storage : Action → Result Text (Unit {0})) (id : Option ℤ) (make : ℤ → Action)
      → ((i : ℤ) → IsJustified D (make i))
      → Good (if_stored storage id make) Done
  stored storage id make p = if_stored-Ensures S (IsJustified D) storage id make p

  pub branch :
      {A : Type 0} {m n : App A} {Q : A → Type 0} (b : Bool)
      → (b ≡ true → Good m Q)
      → (b ≡ false → Good n Q)
      → Good (if b then m else n) Q
  branch true f g = f refl
  branch false f g = g refl
