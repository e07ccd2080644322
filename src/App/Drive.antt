-- ===== src/App/Drive.antt =====
-- `drive_execution_attempt` and `run_ethcall_simulation` of crates/app/src/main.rs. Parameters: the
-- payload builder (which reads the clock), the storage's answers, the transport, whose calls give
-- `none` when they do not end in time, and the text of tokio's timeout error.
use base_execution_engine.Base.{Bool, Option, Result, err, false, none, ok, some, true, ℕ, ◌++◌}
use base_execution_engine.Base.Text.{Text, show_uint, text}
use base_execution_engine.Base.Int.{ℤ}
use base_execution_engine.Types.{
  ExecutionAttempt, ExecutionReceipt, ExecutionRequest, ExecutionStatus, built, dropped, included,
  profit_realized, replaced, reverted, submitted,
}
use base_execution_engine.Execution.{
  ExecutionConfig, mark_submitted, mark_dropped, finalize_from_receipt,
}
use base_execution_engine.Execution.Payload.{SubmissionPayload}
use base_execution_engine.App.Steps.{
  App, Action, sent, wrote_error, wrote_submitted, wrote_final, wrote_dropped, pure, ◌>>=◌, ◌>>◌,
  lift, with_context, count_outcome, act, write,
}

pub data EthCallSimulation : Type 0 where
  passed : Option ℕ → EthCallSimulation
  skipped : Text → EthCallSimulation

unfoldable pub is_passed : EthCallSimulation → Bool
is_passed (passed gas_used) = true
is_passed (skipped reason) = false

unfoldable pub execution_status_label : ExecutionStatus → Text
execution_status_label built = text "built"
execution_status_label submitted = text "submitted"
execution_status_label included = text "included"
execution_status_label reverted = text "reverted"
execution_status_label dropped = text "dropped"
execution_status_label replaced = text "replaced"
execution_status_label profit_realized = text "profit_realized"

-- The statuses that the breaker counts as a success.
unfoldable pub is_outcome_success : ExecutionStatus → Bool
is_outcome_success included = true
is_outcome_success profit_realized = true
is_outcome_success _ = false

pub record Transport : Type 0 where
  pub submit : SubmissionPayload → ExecutionAttempt → Option (Result Text Text)
  pub simulate : SubmissionPayload → ExecutionAttempt → Option (Result Text EthCallSimulation)
  pub await_receipt :
      ExecutionRequest → ExecutionAttempt → ℕ → Result Text (Option ExecutionReceipt)

module _ (transport : Transport) (ethcall_timeout_secs : ℕ) where
  unfoldable pub run_ethcall_simulation :
      SubmissionPayload → ExecutionAttempt → Result Text EthCallSimulation
  run_ethcall_simulation payload attempt = elim (transport.simulate payload attempt) [
    | none ↦ err (
        text "eth_call simulation timed out after " ++ (show_uint ethcall_timeout_secs ++ text "s"))
    | some answer ↦ answer
  ]

module _ (storage : Action → Result Text (Unit {0})) where
  -- `if let Some(execution_attempt_id)`: the attempt is stored.
  unfoldable pub if_stored : Option ℤ → (ℤ → Action) → App (Unit {0})
  if_stored none make = pure tt
  if_stored (some id) make = write storage (make id)

module _
    (build_submission_payload : ExecutionConfig → ExecutionRequest → Result Text SubmissionPayload)
    (storage : Action → Result Text (Unit {0})) (transport : Transport) (elapsed : Text) where
  -- The `match` on the answer of `await_receipt`.
  unfoldable pub settle_attempt :
      ExecutionRequest
      → ExecutionAttempt
      → Option ℤ
      → Result Text (Option ExecutionReceipt)
      → App (Unit {0})
  unfolding if_stored is_outcome_success
  settle_attempt request attempt id (ok (some receipt)) = do
    finalized ← lift (
        with_context (finalize_from_receipt attempt receipt none request.min_surplus)
          (text "failed to finalize execution receipt"))
    count_outcome (is_outcome_success finalized.outcome.final_status)
    if_stored storage id (λ i. wrote_final i finalized.attempt receipt finalized.outcome)
  settle_attempt request attempt id (ok none) = do
    gone ← lift (
        with_context (mark_dropped attempt (text "timed out while waiting for execution receipt"))
          (text "failed to mark execution attempt as dropped"))
    count_outcome false
    if_stored storage id (λ i. wrote_dropped i gone.attempt gone.outcome)
  settle_attempt request attempt id (err e) =
      if_stored storage id (λ i. wrote_error i (text "receipt_wait") e)

  -- The `match` on the answer of `submit`, and what follows a hash.
  unfoldable pub after_submit :
      ExecutionConfig
      → ExecutionRequest
      → ExecutionAttempt
      → Option ℤ
      → Option (Result Text Text)
      → App (Unit {0})
  unfolding if_stored settle_attempt
  after_submit config request attempt id (some (ok tx_hash)) = do
    marked ← lift (with_context (mark_submitted attempt tx_hash) (text "invalid submitted attempt"))
    if_stored storage id (λ i. wrote_submitted i marked)
    settle_attempt request marked id
        (transport.await_receipt request marked config.receipt_timeout_secs)
  after_submit config request attempt id (some (err e)) = do
    count_outcome false
    if_stored storage id (λ i. wrote_error i (text "submit") e)
  after_submit config request attempt id none = do
    count_outcome false
    if_stored storage id (λ i. wrote_error i (text "submit_timeout") elapsed)

  unfoldable pub drive_execution_attempt :
      ExecutionConfig → ExecutionRequest → ExecutionAttempt → Option ℤ → App (Unit {0})
  unfolding if_stored after_submit
  drive_execution_attempt config request attempt id =
      elim (build_submission_payload config request) [
        | err e ↦ if_stored storage id (λ i. wrote_error i (text "build") e)
        | ok payload ↦
            act (sent payload attempt)
            >> after_submit config request attempt id (transport.submit payload attempt)
      ]
