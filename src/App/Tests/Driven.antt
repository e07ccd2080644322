-- ===== src/App/Tests/Driven.antt =====
-- An attempt that is driven to a receipt of a failed transaction.
use base_execution_engine.Base.{[], some, refl, ◌≡◌}
use base_execution_engine.Base.Text.{text, text_eq, trim, trim_start, is_whitespace}
use base_execution_engine.Base.Words.{fit, saturating_add}
use base_execution_engine.Base.Int.{pos}
use base_execution_engine.Execution.{
  mark_submitted, finalize_from_receipt, total_fee_paid, classify_receipt,
}
use base_execution_engine.Risk.{record_outcome}
use base_execution_engine.App.Steps.{World, count_outcome, act, write}
use base_execution_engine.App.Drive.{
  is_outcome_success, if_stored, settle_attempt, after_submit, drive_execution_attempt,
}
use base_execution_engine.App.Breaker.{Ending, drive-Ending}
use base_execution_engine.App.Justified.{started}
use base_execution_engine.App.Fixture.{
  payload, execution, transport, outside, book, attempt, request,
}
use base_execution_engine.Execution.{ExecutionConfig}
use base_execution_engine.Types.{ExecutionRequest}
use base_execution_engine.Base.{Result, ok}
use base_execution_engine.Base.Text.{Text}
use base_execution_engine.Execution.Payload.{SubmissionPayload}

abbrev build_payload : ExecutionConfig → ExecutionRequest → Result Text SubmissionPayload
build_payload _ _ = ok payload

abbrev driven : World
driven =
    (drive_execution_attempt build_payload outside.storage transport [] execution request attempt
      (some (pos 3)) (started book)).1

drive-Ending_example :
    Ending build_payload outside.storage transport [] execution request attempt
      (started book).risk
      driven.risk
unfolding drive_execution_attempt act after_submit if_stored write settle_attempt count_outcome
    mark_submitted finalize_from_receipt total_fee_paid classify_receipt trim trim_start
    is_whitespace text text_eq fit
drive-Ending_example =
    drive-Ending build_payload outside.storage transport [] execution request attempt (some (pos 3))
      (started book) driven refl

-- The transaction failed on chain, which counts as one more revert.
driven_reverts : driven.risk.consecutive_reverts ≡ 1
unfolding drive_execution_attempt act after_submit if_stored write settle_attempt count_outcome
    mark_submitted finalize_from_receipt total_fee_paid classify_receipt trim trim_start
    is_whitespace text text_eq fit is_outcome_success record_outcome saturating_add
driven_reverts = refl
