-- ===== src/Execution/Run.antt =====
-- `execute_with_transport` of crates/execution/src/lib.rs. Parameters: the builder of the payload
-- (which reads the clock), and the transport: `submit` gives `none` when it does not end in time.
use base_execution_engine.Base.Text.{Text, text}
use base_execution_engine.Base.{
  >>=-eq-ok, Bool, Bool-cases, Option, Result, ap, arith, err, false, if◌then◌else◌, inl, inr, none,
  ok, ok-injective, some, true, ℕ, ◌>>=◌, ◌≡◌, ◌⊎◌,
}
use base_execution_engine.Types.{
  Amount, ExecutionAttempt, ExecutionReceipt, ExecutionRequest, SimulationResult,
}
use mathlib.Core.Path.{subst}
use base_execution_engine.Execution.{
  ExecutionConfig, PreparedExecution, FinalizedExecution, prepare_execution, mark_submitted,
  mark_dropped, finalize_from_receipt,
}
use base_execution_engine.Execution.Payload.{SubmissionPayload}
use base_execution_engine.Execution.Reach.{
  Reachable, prepared, stepped, Step, submits, finalizes, drops, Reachable-Advance,
}
use base_execution_engine.Execution.Lifecycle.{mark_submitted-Submission}

pub data ExecutionRunResult : Type 0 where
  blocked : ExecutionAttempt → ExecutionRunResult
  submitted_pending : ExecutionAttempt → ExecutionRunResult
  finalized : FinalizedExecution → ExecutionRunResult

if_true {ℓ} :
    {A : Type ℓ} (b : Bool) (x y : A) {r : A} → b ≡ true → (if b then x else y) ≡ r → x ≡ r
if_true b x y e k = rw e at k

if_false {ℓ} :
    {A : Type ℓ} (b : Bool) (x y : A) {r : A} → b ≡ false → (if b then x else y) ≡ r → y ≡ r
if_false b x y e k = rw e at k

module _
    (build_submission_payload : ExecutionConfig → ExecutionRequest → Result Text SubmissionPayload)
    (submit : SubmissionPayload → ExecutionAttempt → Option (Result Text Text))
    (await_receipt : ExecutionRequest
      → ExecutionAttempt
      → ℕ
      → Result Text (Option ExecutionReceipt)) where
  -- The end of the function, on the answer of `await_receipt`.
  unfoldable pub settle :
      ExecutionRequest
      → ExecutionAttempt
      → Result Text (Option ExecutionReceipt)
      → Result Text ExecutionRunResult
  settle request attempt (err e) = ok (submitted_pending attempt)
  settle request attempt (ok none) = do
    f ← mark_dropped attempt (text "timed out while waiting for execution receipt")
    ok (finalized f)
  settle request attempt (ok (some receipt)) = do
    f ← finalize_from_receipt attempt receipt none request.min_surplus
    ok (finalized f)

  -- The submission within its time.
  unfoldable pub submit_in_time : SubmissionPayload → ExecutionAttempt → Result Text Text
  submit_in_time payload attempt = elim (submit payload attempt) [
    | none ↦ err (text "timed out while submitting execution attempt")
    | some answer ↦ answer
  ]

  unfoldable pub submit_and_settle :
      ExecutionConfig → ExecutionRequest → ExecutionAttempt → Result Text ExecutionRunResult
  submit_and_settle config request attempt = do
    payload ← build_submission_payload config request
    tx_hash ← submit_in_time payload attempt
    marked ← mark_submitted attempt tx_hash
    settle request marked (await_receipt request marked config.receipt_timeout_secs)

  unfoldable pub execute_with_transport :
      ExecutionConfig
      → ExecutionRequest
      → SimulationResult
      → Amount
      → Result Text ExecutionRunResult
  execute_with_transport config request simulation current_daily_requested_wei = do
    p ← prepare_execution config request simulation current_daily_requested_wei
    if p.should_submit then submit_and_settle config request p.attempt else ok (blocked p.attempt)

  -- Where a result comes from.
  pub data Traced (config : ExecutionConfig) (request : ExecutionRequest)
      (simulation : SimulationResult) (daily : ℕ) : ExecutionRunResult → Type 0 where
    traced_blocked :
        (p : PreparedExecution)
        → prepare_execution config request simulation daily ≡ ok p
        → p.should_submit ≡ false
        → Traced config request simulation daily (blocked p.attempt)
    traced_pending :
        (p : PreparedExecution) (payload : SubmissionPayload) (hash : Text) (a : ExecutionAttempt)
        → prepare_execution config request simulation daily ≡ ok p
        → p.should_submit ≡ true
        → submit payload p.attempt ≡ some (ok hash)
        → a.tx_hash ≡ some hash
        → Reachable a
        → Traced config request simulation daily (submitted_pending a)
    traced_final :
        (p : PreparedExecution) (payload : SubmissionPayload) (hash : Text) (f : FinalizedExecution)
        → prepare_execution config request simulation daily ≡ ok p
        → p.should_submit ≡ true
        → submit payload p.attempt ≡ some (ok hash)
        → f.attempt.tx_hash ≡ some hash
        → Reachable f.attempt
        → Traced config request simulation daily (finalized f)

  submit_in_time-ok :
      (payload : SubmissionPayload) (a : ExecutionAttempt) (hash : Text)
      → submit_in_time payload a ≡ ok hash
      → submit payload a ≡ some (ok hash)
  unfolding submit_in_time
  submit_in_time-ok payload a hash h = ground arith

  Step-hash :
      (m b : ExecutionAttempt) (hash : Text)
      → Reachable m
      → m.tx_hash ≡ some hash
      → Step m b
      → Reachable b × (b.tx_hash ≡ some hash)
  Step-hash m b hash r t s = (stepped m b r s, (Reachable-Advance m b r s).2 hash t)

  settle-Traced :
      (config : ExecutionConfig) (request : ExecutionRequest) (simulation : SimulationResult)
      (daily : ℕ) (p : PreparedExecution) (payload : SubmissionPayload) (hash : Text)
      (m : ExecutionAttempt) (answer : Result Text (Option ExecutionReceipt))
      (result : ExecutionRunResult)
      → prepare_execution config request simulation daily ≡ ok p
      → p.should_submit ≡ true
      → submit payload p.attempt ≡ some (ok hash)
      → m.tx_hash ≡ some hash
      → Reachable m
      → settle request m answer ≡ ok result
      → Traced config request simulation daily result
  unfolding settle
  settle-Traced config request simulation daily p payload hash m (err e) result ep es eh t r h =
      subst (Traced config request simulation daily) (ok-injective h)
        (traced_pending p payload hash m ep es eh t r)
  settle-Traced config request simulation daily p payload hash m (ok none) result ep es eh t r h =
      let (f, ef, h1) =
        >>=-eq-ok (mark_dropped m (text "timed out while waiting for execution receipt")) _ h in
      let k = Step-hash m f.attempt hash r t (drops m f _ ef) in
      subst (Traced config request simulation daily) (ok-injective h1)
        (traced_final p payload hash f ep es eh k.1 k.0)
  settle-Traced config request simulation daily p payload hash m (ok (some receipt)) result ep es eh
        t r h =
      let (f, ef, h1) = >>=-eq-ok (finalize_from_receipt m receipt none request.min_surplus) _ h in
      let k = Step-hash m f.attempt hash r t (finalizes m f receipt none request.min_surplus ef) in
      subst (Traced config request simulation daily) (ok-injective h1)
        (traced_final p payload hash f ep es eh k.1 k.0)

  submit_and_settle-Traced :
      (config : ExecutionConfig) (request : ExecutionRequest) (simulation : SimulationResult)
      (daily : ℕ) (p : PreparedExecution) (result : ExecutionRunResult)
      → prepare_execution config request simulation daily ≡ ok p
      → p.should_submit ≡ true
      → submit_and_settle config request p.attempt ≡ ok result
      → Traced config request simulation daily result
  unfolding submit_and_settle
  submit_and_settle-Traced config request simulation daily p result ep es h =
      let (payload, e0, h0) = >>=-eq-ok (build_submission_payload config request) _ h in
      let (hash, e1, h1) = >>=-eq-ok (submit_in_time payload p.attempt) _ h0 in
      let (m, e2, h2) = >>=-eq-ok (mark_submitted p.attempt hash) _ h1 in
      let t =
        ap (λ (a : ExecutionAttempt). a.tx_hash)
          (mark_submitted-Submission p.attempt hash m e2).result in
      settle-Traced config request simulation daily p payload hash m
        (await_receipt request m config.receipt_timeout_secs) result ep es
        (submit_in_time-ok payload p.attempt hash e1) t
        (stepped p.attempt m (prepared config request simulation daily p ep)
          (submits p.attempt m hash e2))
        h2

  -- Whatever the transport answers, a result that is returned is traced: a blocked one is the
  -- prepared attempt, which was not to be submitted; a pending or a final one was prepared as to be
  -- submitted, the transport gave a hash for it, and the attempt is reachable in the life cycle and
  -- carries that hash.
  pub execute-Traced :
      (config : ExecutionConfig) (request : ExecutionRequest) (simulation : SimulationResult)
      (daily : ℕ) (result : ExecutionRunResult)
      → execute_with_transport config request simulation daily ≡ ok result
      → Traced config request simulation daily result
  unfolding execute_with_transport
  execute-Traced config request simulation daily result h =
      let (p, ep, h0) = >>=-eq-ok (prepare_execution config request simulation daily) _ h in
      by_policy p ep (Bool-cases p.should_submit) h0
    where
      by_policy :
          (p : PreparedExecution)
          → prepare_execution config request simulation daily ≡ ok p
          → (p.should_submit ≡ true) ⊎ (p.should_submit ≡ false)
          → (if p.should_submit
              then submit_and_settle config request p.attempt
              else ok (blocked p.attempt))
            ≡ ok result
          → Traced config request simulation daily result
      by_policy p ep (inl e) k =
          submit_and_settle-Traced config request simulation daily p result ep e
            (if_true p.should_submit _ _ e k)
      by_policy p ep (inr e) k =
          subst (Traced config request simulation daily)
            (ok-injective (if_false p.should_submit _ _ e k)) (traced_blocked p ep e)
