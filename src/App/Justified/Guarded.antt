-- ===== src/App/Justified/Guarded.antt =====
-- A transaction that is due from a sound book is guarded.
use base_execution_engine.Base.{>>=-eq-ok, Option, some, sym, ◌∙◌, ◌≡◌}
use base_execution_engine.Types.{ExecutionAttempt, ExecutionRequest}
use mathlib.Core.Path.{subst}
use base_execution_engine.Markets.Book.{PoolBook, v2_pools}
use base_execution_engine.Markets.Book.Invariant.{IsSound, apply_log-IsSound}
use base_execution_engine.Execution.Payload.{
  SubmissionPayload, build_submission_payload, build_submission_payload-Carries,
}
use base_execution_engine.Execution.Prepare.{prepare-Within}
use base_execution_engine.Risk.Gates.{assess_accepted_iff}
use base_execution_engine.Base.{All}
use base_execution_engine.Decision.Scan.{FoundIn, detect_two_leg_loops_from_book-FoundIn}
use base_execution_engine.Decision.Request.{accepted_loop-Covers}
use base_execution_engine.App.Steps.{World}
use base_execution_engine.App.Pipeline.{
  AppConfig, RuntimeScanConfig, Turn, opportunities, payload_at,
}
use base_execution_engine.App.Settled.{process-Outcomes}
use base_execution_engine.App.Due.{IsDue, IsWellDue}

same_request : (q r : ExecutionRequest) → some q ≡ some r → q ≡ r
same_request q r e = cc

module _ (config : AppConfig) (scan : Option RuntimeScanConfig) (turn : Turn) (w : World)
    (payload : SubmissionPayload) (attempt : ExecutionAttempt)
    (due : IsDue config scan turn w payload attempt) where
  book-IsSound : IsSound w.book → IsSound due.book
  book-IsSound k =
      subst (λ (p : _ × PoolBook). IsSound p.1) due.detected.moved
        (apply_log-IsSound turn.outside.parse_u256 w.book due.detected.entry k)

  best-FoundIn :
      FoundIn due.detected.entry.metadata.block_context due.detected.settings.settlement_token
        due.detected.settings.amount_in due.detected.entry.metadata.tx_hash
        (v2_pools due.book)
        due.output.opportunity
  unfolding opportunities
  best-FoundIn =
      let entry = due.detected.entry in
      let settings = due.detected.settings in
      (subst
        (All (
          FoundIn entry.metadata.block_context settings.settlement_token settings.amount_in
            entry.metadata.tx_hash (v2_pools due.book)))
        due.detected.found
        (detect_two_leg_loops_from_book-FoundIn entry.metadata.block_context
          settings.settlement_token settings.amount_in entry.metadata.tx_hash due.book).0).0

  pub due-IsWellDue : IsSound w.book → IsWellDue config scan turn w payload attempt
  unfolding payload_at build_submission_payload
  due-IsWellDue k =
      let o = turn.outside in
      let found = best-FoundIn in
      let (first_pool, second_pool, in_first, in_second, apart, detected) = found in
      let gates =
        (assess_accepted_iff o.path_exists o.sha256_hex config.policy turn.now
            due.output.opportunity due.output.simulation w.risk).0
          due.accepted in
      let (q, eq, covers, floor) =
        accepted_loop-Covers o.path_exists o.sha256_hex _ due.output.opportunity
          due.detected.settings.simulation due.output.simulation config.policy turn.now w.risk
          detected due.detected.simulated due.accepted in
      let same : q ≡ due.request = same_request q due.request (sym eq ∙ due.requested) in
      let (time, clock, built) = >>=-eq-ok o.submission_clock _ due.sendable.built in
      record {
        due = due;
        guarded = record {
          book_sound = book-IsSound k;
          found = found;
          passes = gates.0;
          admits = gates.1;
          counted = process-Outcomes config scan turn w payload attempt due;
          within =
              (prepare-Within config.execution due.request due.output.simulation due.daily due.plan
                due.planned due.sendable.to_submit).1;
          first = covers.first;
          second = covers.second;
          steps = rw (← same) covers.steps;
          covers = rw (← same) floor;
          time = time;
          clock = clock;
          carries =
              build_submission_payload-Carries o.abi.AlloyAddress o.abi.Bytes32 o.abi.parse_address
                o.abi.show_address o.abi.address_bytes o.abi.parse_bytes32 o.abi.abi_encode
                config.execution due.request time payload built;
        };
      }
