-- ===== src/App/Breaker.antt =====
-- How an attempt that is driven to its end counts for the circuit breaker.
use mathlib.Core.Path.{subst}
use base_execution_engine.Base.Text.{Text, text, text_eq_iff}
use base_execution_engine.Types.{
  ExecutionAttempt, ExecutionReceipt, ExecutionRequest, reverted, submitted,
}
use base_execution_engine.Base.Int.{ℤ}
use base_execution_engine.Base.{
  Bool, Option, Result, Result-cases, ap, arith, err, false, if◌then◌else◌, inl, inr, none, ok,
  refl, some, sym, true, unwrap_or, ℕ, ◌∙◌, ◌∷◌, ◌≡◌,
}
use base_execution_engine.Risk.{RiskState, record_outcome}
use base_execution_engine.Execution.{
  ExecutionConfig, mark_submitted, mark_dropped, finalize_from_receipt, classify_receipt,
  classify_success,
}
use base_execution_engine.Execution.Lifecycle.{mark_submitted-Submission, finalize-Finalization}
use base_execution_engine.Execution.Payload.{SubmissionPayload}
use base_execution_engine.App.Steps.{sent, wrote_submitted, World, App, Action, count_outcome, act}
use base_execution_engine.App.Ends.{chain_ends, lift_ends, if_stored_ends}
use base_execution_engine.App.Drive.{
  Transport, is_outcome_success, if_stored, settle_attempt, after_submit, drive_execution_attempt,
}

-- The attempt after a submission with the hash.
abbrev pub as_submitted : ExecutionAttempt → Text → ExecutionAttempt
as_submitted attempt hash = record attempt { status = submitted; tx_hash = some hash }

module _
    (build_submission_payload : ExecutionConfig → ExecutionRequest → Result Text SubmissionPayload)
    (storage : Action → Result Text (Unit {0})) (transport : Transport) (elapsed : Text) where
  -- How an attempt ends that is driven without an error, and the risk state that this leaves.
  pub data Ending (config : ExecutionConfig) (request : ExecutionRequest)
      (attempt : ExecutionAttempt) (before after : RiskState) : Type 0 where
    not_built :
        (e : Text)
        → build_submission_payload config request ≡ err e
        → after ≡ before
        → Ending config request attempt before after
    not_submitted :
        (payload : SubmissionPayload)
        → build_submission_payload config request ≡ ok payload
        → ((hash : Text) → transport.submit payload attempt ≡ some (ok hash) → ⊥)
        → after ≡ record_outcome false before
        → Ending config request attempt before after
    receipt_unknown :
        (payload : SubmissionPayload) (hash e : Text)
        → transport.submit payload attempt ≡ some (ok hash)
        → transport.await_receipt request (as_submitted attempt hash) config.receipt_timeout_secs
          ≡ err e
        → after ≡ before
        → Ending config request attempt before after
    receipt_late :
        (payload : SubmissionPayload) (hash : Text)
        → transport.submit payload attempt ≡ some (ok hash)
        → transport.await_receipt request (as_submitted attempt hash) config.receipt_timeout_secs
          ≡ ok none
        → after ≡ record_outcome false before
        → Ending config request attempt before after
    receipt_came :
        (payload : SubmissionPayload) (hash : Text) (receipt : ExecutionReceipt)
        → transport.submit payload attempt ≡ some (ok hash)
        → transport.await_receipt request (as_submitted attempt hash) config.receipt_timeout_secs
          ≡ ok (some receipt)
        → receipt.tx_hash ≡ hash
        → after ≡ record_outcome receipt.success before
        → Ending config request attempt before after

  success-status :
      (receipt : ExecutionReceipt) (min_surplus : ℕ)
      → is_outcome_success (classify_receipt receipt none min_surplus).0 ≡ receipt.success
  unfolding is_outcome_success classify_receipt classify_success
  success-status receipt min_surplus = by_success receipt.success
    where
      by_success :
          (b : Bool)
          → is_outcome_success (
              (if b then classify_success none min_surplus else (
                reverted,
                some (unwrap_or receipt.revert_reason (text "transaction reverted on-chain")),
              )).0)
            ≡ b
      by_success true = refl
      by_success false = refl

  settle-Ending :
      (config : ExecutionConfig) (request : ExecutionRequest) (attempt : ExecutionAttempt)
      (payload : SubmissionPayload) (hash : Text) (id : Option ℤ) (w v : World)
      (answer : Result Text (Option ExecutionReceipt))
      → transport.submit payload attempt ≡ some (ok hash)
      → transport.await_receipt request (as_submitted attempt hash) config.receipt_timeout_secs
        ≡ answer
      → settle_attempt build_submission_payload storage transport elapsed request
          (as_submitted attempt hash)
          id
          answer
          w
        ≡ (ok tt, v)
      → Ending config request attempt w.risk v.risk
  unfolding settle_attempt count_outcome
  settle-Ending config request attempt payload hash id w v (err e) es ea h =
      receipt_unknown payload hash e es ea (if_stored_ends storage id _ w v (ok tt) h).0
  settle-Ending config request attempt payload hash id w v (ok none) es ea h =
      let (gone, eg, h1) = lift_ends (mark_dropped _ _) _ _ w h in
      receipt_late payload hash es ea
        (if_stored_ends storage id _ (record w { risk = record_outcome false w.risk }) v (ok tt)
          h1).0
  settle-Ending config request attempt payload hash id w v (ok (some receipt)) es ea h =
      let (f, ef, h1) =
        lift_ends (finalize_from_receipt _ receipt none request.min_surplus) _ _ w h in
      let k =
        finalize-Finalization (as_submitted attempt hash) receipt none request.min_surplus f ef in
      let status : is_outcome_success f.outcome.final_status ≡ receipt.success =
        ap is_outcome_success (k.final_status ∙ ap (λ (a : ExecutionAttempt). a.status) k.attempt)
        ∙ success-status receipt request.min_surplus in
      receipt_came payload hash receipt es ea
        (sym ((text_eq_iff hash receipt.tx_hash).0 (ground (arith, k.matches))))
        ((if_stored_ends storage id _
            (record w { risk = record_outcome (is_outcome_success f.outcome.final_status) w.risk })
            v (ok tt) h1).0
          ∙ ap (λ (b : Bool). record_outcome b w.risk) status)

  answer-Ending :
      (config : ExecutionConfig) (request : ExecutionRequest) (attempt : ExecutionAttempt)
      (payload : SubmissionPayload) (id : Option ℤ) (w v : World)
      (answer : Option (Result Text Text))
      → build_submission_payload config request ≡ ok payload
      → transport.submit payload attempt ≡ answer
      → after_submit build_submission_payload storage transport elapsed config request attempt id
          answer w
        ≡ (ok tt, v)
      → Ending config request attempt w.risk v.risk
  unfolding after_submit count_outcome
  answer-Ending config request attempt payload id w v none eb es h =
      not_submitted payload eb (λ hash e. ground arith)
        (if_stored_ends storage id _ (record w { risk = record_outcome false w.risk }) v (ok tt)
          h).0
  answer-Ending config request attempt payload id w v (some (err e0)) eb es h =
      not_submitted payload eb (λ hash e. ground arith)
        (if_stored_ends storage id _ (record w { risk = record_outcome false w.risk }) v (ok tt)
          h).0
  answer-Ending config request attempt payload id w v (some (ok hash)) eb es h =
      let (m, em, h1) = lift_ends (mark_submitted attempt hash) _ _ w h in
      let k = mark_submitted-Submission attempt hash m em in
      let settle : ExecutionAttempt → App (Unit {0}) = λ a.
        settle_attempt build_submission_payload storage transport elapsed request a id
          (transport.await_receipt request a config.receipt_timeout_secs) in
      let (_, u, e1, h2) =
        chain_ends (if_stored storage id (λ i. wrote_submitted i m)) (λ _. settle m) w h1 in
      let same = (if_stored_ends storage id _ w u (ok tt) e1).0 in
      subst (λ (r : RiskState). Ending config request attempt r v.risk) same
        (settle-Ending config request attempt payload hash id u v _ es refl
          (subst (λ (a : ExecutionAttempt). settle a u ≡ (ok tt, v)) k.result h2))

  -- An attempt that is driven to its end without an error counts for the circuit breaker as it
  -- ended: not at all when the payload was not built or the lookup of the receipt failed; as a
  -- revert when no hash came back in time or no receipt did; and with a receipt, which carries the
  -- hash of the submission, as its own success says.
  pub drive-Ending :
      (config : ExecutionConfig) (request : ExecutionRequest) (attempt : ExecutionAttempt)
      (id : Option ℤ) (w v : World)
      → drive_execution_attempt build_submission_payload storage transport elapsed config request
          attempt id w
        ≡ (ok tt, v)
      → Ending config request attempt w.risk v.risk
  unfolding drive_execution_attempt act
  drive-Ending config request attempt id w v h =
      elim (Result-cases (build_submission_payload config request)) [
        | inl (payload, eb) ↦
            answer-Ending config request attempt payload id
              (record w { journal = sent payload attempt ∷ w.journal }) v _ eb refl
              (rw (eb, drive_execution_attempt) at h)
        | inr (e, eb) ↦
            not_built e eb
              (if_stored_ends storage id _ w v (ok tt) (rw (eb, drive_execution_attempt) at h)).0
      ]
