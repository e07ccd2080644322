-- ===== src/App/Justified/Attempt.antt =====
-- The actions of one attempt, from its preparation to its end.
use base_execution_engine.Base.{
  ◌⊎◌, Option, Result, Result-cases, err, false, inl, inr, none, ok, refl, some, ℕ, ◌≡◌,
}
use base_execution_engine.Base.Text.{Text, text}
use base_execution_engine.Base.Int.{ℤ}
use base_execution_engine.Types.{
  ExecutionAttempt, ExecutionReceipt, ExecutionRequest, SimulationResult,
}
use base_execution_engine.Execution.{
  PreparedExecution, prepare_execution, mark_submitted, mark_dropped, finalize_from_receipt,
}
use base_execution_engine.Execution.Reach.{prepared, Reachable, stepped, submits, finalizes, drops}
use base_execution_engine.App.Steps.{sent}
use base_execution_engine.App.Drive.{
  EthCallSimulation, is_outcome_success, settle_attempt, after_submit, drive_execution_attempt,
}
use base_execution_engine.App.Pipeline.{
  payload_at, prepare_request, AppConfig, Outside, drive, after_simulation, submit_prepared,
  execute_prepared,
}
use base_execution_engine.App.Ensures.{lift-Ensures, in_context-Ensures, act-Ensures, pure-Ensures}
use base_execution_engine.Markets.Book.{PoolBook}
use base_execution_engine.Execution.Payload.{SubmissionPayload}
use base_execution_engine.App.Due.{IsSendable}
use base_execution_engine.App.Justified.{
  Sending, Done, Good, chain, answered, counted, stored, branch, IsJustified,
}

module _ (S : PoolBook → Type 0) (D : Sending) (o : Outside) (config : AppConfig) where
  settle-Good :
      (request : ExecutionRequest) (attempt : ExecutionAttempt) (id : Option ℤ)
      (answer : Result Text (Option ExecutionReceipt))
      → Reachable attempt
      → Good S D
          (settle_attempt
            (payload_at o o.submission_clock)
            o.storage
            o.transport
            o.elapsed
            request
            attempt
            id
            answer)
          Done
  unfolding settle_attempt
  settle-Good request attempt id (ok (some receipt)) r =
      chain S D (answered S D (finalize_from_receipt attempt receipt none request.min_surplus) _)
        (λ f ef. chain S D (counted S D (is_outcome_success f.outcome.final_status)) (λ u t.
          stored S D o.storage id _ (λ i.
            stepped attempt f.attempt r (finalizes attempt f receipt none request.min_surplus ef))))
  settle-Good request attempt id (ok none) r =
      chain S D
        (answered S D (mark_dropped attempt (text "timed out while waiting for execution receipt"))
          _)
        (λ f ef. chain S D (counted S D false) (λ u t.
          stored S D o.storage id _ (λ i. stepped attempt f.attempt r (drops attempt f _ ef))))
  settle-Good request attempt id (err e) r = stored S D o.storage id _ (λ i. tt)

  after_submit-Good :
      (request : ExecutionRequest) (attempt : ExecutionAttempt) (id : Option ℤ)
      (answer : Option (Result Text Text))
      → Reachable attempt
      → Good S D
          (after_submit
            (payload_at o o.submission_clock)
            o.storage
            o.transport
            o.elapsed
            config.execution
            request
            attempt
            id
            answer)
          Done
  unfolding after_submit
  after_submit-Good request attempt id (some (ok hash)) r =
      chain S D (answered S D (mark_submitted attempt hash) _) (λ marked em.
        let r1 = stepped attempt marked r (submits attempt marked hash em) in
        chain S D (stored S D o.storage id _ (λ i. r1)) (λ u t.
          settle-Good request marked id
            (o.transport.await_receipt request marked config.execution.receipt_timeout_secs) r1))
  after_submit-Good request attempt id (some (err e)) r =
      chain S D (counted S D false) (λ u t. stored S D o.storage id _ (λ i. tt))
  after_submit-Good request attempt id none r =
      chain S D (counted S D false) (λ u t. stored S D o.storage id _ (λ i. tt))

  drive_execution_attempt-Good :
      (request : ExecutionRequest) (attempt : ExecutionAttempt) (id : Option ℤ)
      → Reachable attempt
      → ((payload : SubmissionPayload)
          → payload_at o o.submission_clock config.execution request ≡ ok payload
          → D payload attempt)
      → Good S D
          (drive_execution_attempt
            (payload_at o o.submission_clock)
            o.storage
            o.transport
            o.elapsed
            config.execution
            request
            attempt
            id)
          Done
  unfolding drive_execution_attempt
  drive_execution_attempt-Good request attempt id r send =
      elim (Result-cases (payload_at o o.submission_clock config.execution request)) [
        | inl (payload, e) ↦
            rw (e, drive_execution_attempt)
              (chain S D (act-Ensures S (IsJustified D) (sent payload attempt) (send payload e))
                (λ u t.
                  after_submit-Good request attempt id (o.transport.submit payload attempt) r))
        | inr (message, e) ↦ rw (e, drive_execution_attempt) (stored S D o.storage id _ (λ i. tt))
      ]

  drive-Good :
      (request : ExecutionRequest) (attempt : ExecutionAttempt) (id : Option ℤ)
      → Reachable attempt
      → ((payload : SubmissionPayload)
          → payload_at o o.submission_clock config.execution request ≡ ok payload
          → D payload attempt)
      → Good S D (drive o config request attempt id) Done
  unfolding drive
  drive-Good request attempt id r send =
      in_context-Ensures S (IsJustified D) _ _ Done
        (drive_execution_attempt-Good request attempt id r send)

  after_simulation-Good :
      (request : ExecutionRequest) (attempt : ExecutionAttempt) (id : Option ℤ)
      (answer : Result Text EthCallSimulation)
      → Reachable attempt
      → ((config.ethcall_preflight_required ≡ false) ⊎ ((s : EthCallSimulation) × (answer ≡ ok s))
          → (payload : SubmissionPayload)
          → payload_at o o.submission_clock config.execution request ≡ ok payload
          → D payload attempt)
      → Good S D (after_simulation o config request attempt id answer) Done
  unfolding after_simulation
  after_simulation-Good request attempt id (ok simulation) r send =
      drive-Good request attempt id r (send (inr (simulation, refl)))
  after_simulation-Good request attempt id (err e) r send =
      branch S D config.ethcall_preflight_required
        (λ required. chain S D (counted S D false) (λ u t. stored S D o.storage id _ (λ i. tt)))
        (λ advisory. drive-Good request attempt id r (send (inl advisory)))

  execute_prepared-Good :
      (request : ExecutionRequest) (plan : PreparedExecution) (run_id : Option ℤ)
      → Reachable plan.attempt
      → ((payload : SubmissionPayload)
          → IsSendable o config request plan run_id payload
          → D payload plan.attempt)
      → Good S D (execute_prepared o config (some (request, plan)) run_id) Done
  unfolding execute_prepared submit_prepared
  execute_prepared-Good request plan run_id r send =
      chain S D
        (lift-Ensures S (IsJustified D) (o.persist_execution_attempt run_id plan.attempt request))
        (λ id ei.
          branch S D plan.should_submit
            (λ submits_it.
              chain S D (answered S D (payload_at o o.simulation_clock config.execution request) _)
                (λ first ep. after_simulation-Good request plan.attempt id _ r (λ passes payload eb.
                  send payload (record {
                    attempt_id = id;
                    stored = ei;
                    to_submit = submits_it;
                    simulated_payload = first;
                    simulation_built = ep;
                    preflight = passes;
                    built = eb;
                  }))))
            (λ denied. pure-Ensures S (IsJustified D) tt Done tt))

  -- What `prepare_request` gives: nothing, or a plan for the request.
  abbrev pub Planned :
      Option ExecutionRequest
      → SimulationResult
      → Option (ExecutionRequest × PreparedExecution)
      → Type 0
  Planned r simulation none = Unit
  Planned r simulation (some (request, plan)) =
      (r ≡ some request)
      × ((daily : ℕ) × (o.todays_submittable_notional_wei ≡ ok daily)
          × (prepare_execution config.execution request simulation daily ≡ ok plan))

  pub execute-Good :
      (r : Option ExecutionRequest) (simulation : SimulationResult)
      (p : Option (ExecutionRequest × PreparedExecution)) (run_id : Option ℤ)
      → Planned r simulation p
      → ((request : ExecutionRequest) (plan : PreparedExecution) (payload : SubmissionPayload)
          → Planned r simulation (some (request, plan))
          → IsSendable o config request plan run_id payload
          → D payload plan.attempt)
      → Good S D (execute_prepared o config p run_id) Done
  unfolding execute_prepared
  execute-Good r simulation none run_id h send = pure-Ensures S (IsJustified D) tt Done tt
  execute-Good r simulation (some (request, plan)) run_id h send =
      execute_prepared-Good request plan run_id
        (prepared config.execution request simulation h.1.0 plan h.1.2)
        (λ payload s. send request plan payload h s)

  pub prepare-Good :
      (simulation : SimulationResult) (r : Option ExecutionRequest)
      → Good S D (prepare_request o config r simulation) (Planned r simulation)
  unfolding prepare_request
  prepare-Good simulation none = pure-Ensures S (IsJustified D) none (Planned none simulation) tt
  prepare-Good simulation (some request) =
      chain S D (answered S D o.todays_submittable_notional_wei _) (λ daily ed.
        chain S D (answered S D (prepare_execution config.execution request simulation daily) _)
          (λ plan ep.
            pure-Ensures S (IsJustified D) (some (request, plan))
              (Planned (some request) simulation) (refl, (daily, ed, ep))))
