-- ===== src/App/Justified/Turns.antt =====
-- What a turn of the loop sends: only what is due in it.
use base_execution_engine.Base.{
  All, List, Option, Result, [], arith, err, none, ok, refl, some, true, ◌>>=?◌, ◌∷◌, ◌≡◌, ◌≢◌,
}
use base_execution_engine.Base.Text.{Text, text}
use base_execution_engine.Base.Int.{ℤ}
use base_execution_engine.Types.{
  Event, ExecutionAttempt, ExecutionRequest, Log, Opportunity, RiskDecision, SimulationResult,
  block, flashblock, log, transaction,
}
use base_execution_engine.Markets.Book.{PoolBook, apply_log}
use base_execution_engine.Markets.Error.{
  MarketError, MarketEventOutcome, applied, reverted, ignored,
}
use base_execution_engine.Decision.{simulate_two_leg_opportunity, build_execution_request}
use base_execution_engine.Execution.Payload.{SubmissionPayload}
use base_execution_engine.App.Steps.{◌>>=◌, lift, World}
use base_execution_engine.App.Ensures.{Keeps, OfOk, lift-Ensures}
use base_execution_engine.App.Pipeline.{
  opportunities, AppConfig, Outside, RuntimeScanConfig, DecisionPipelineOutput, Turn, apply_to_book,
  best_output, prepare_request, execute_prepared, scan_book, handle_event, assess_opportunity,
  maybe_log_decision_output, process_event,
}
use base_execution_engine.App.Due.{IsDetected, IsDue, decision_at}
use base_execution_engine.App.Justified.{Sending, Done, Good, chain, IsJustified}
use base_execution_engine.App.Justified.Attempt.{prepare-Good, execute-Good}

accepted_of_requested :
    (opportunity : Opportunity) (decision : RiskDecision) (request : ExecutionRequest)
    → build_execution_request opportunity decision ≡ some request
    → decision.accepted ≡ true
unfolding build_execution_request
accepted_of_requested opportunity decision request h = ground arith

-- What a handler of the event leaves: the world with another book, and an output that is detected.
abbrev Detected :
    Outside
    → Option RuntimeScanConfig
    → Event
    → World
    → PoolBook
    → Option DecisionPipelineOutput
    → Type 0
Detected o scan event w book none = Unit
Detected o scan event w book (some output) = IsDetected o scan event w book output

record Handled (S : PoolBook → Type 0) (o : Outside) (scan : Option RuntimeScanConfig)
    (event : Event) (w : World) : Type 0 where
  answer : Result Text (Option DecisionPipelineOutput)
  book : PoolBook
  left : handle_event o scan event w ≡ (answer, record w { book = book })
  kept : S book
  detected : OfOk (Detected o scan event w book) answer

module _ (S : PoolBook → Type 0) (o : Outside) (scan : Option RuntimeScanConfig)
    (keeps : (entry : Log) (b : PoolBook) → S b → S (apply_log o.parse_u256 b entry).1) where
  best-Detected :
      (entry : Log) (id : Option ℤ) (w : World) (outcome : MarketEventOutcome) (book : PoolBook)
      (settings : RuntimeScanConfig)
      → scan ≡ some settings
      → o.persist_observed_log entry ≡ ok id
      → apply_log o.parse_u256 w.book entry ≡ (ok outcome, book)
      → outcome ≢ ignored
      → (found : List Opportunity) → opportunities o settings entry book ≡ found
      → Detected o scan (log entry) w book (best_output o settings id found)
  unfolding best_output
  best-Detected entry id w outcome book settings es ei em eo [] ef = tt
  best-Detected entry id w outcome book settings es ei em eo (best ∷ others) ef =
      by_simulation (simulate_two_leg_opportunity best settings.simulation) refl
    where
      by_simulation :
          (r : Option SimulationResult)
          → simulate_two_leg_opportunity best settings.simulation ≡ r
          → Detected o scan (log entry) w book (
              r >>=? λ simulation.
              some (record { observed_log_id = id; opportunity = best; simulation = simulation }))
      by_simulation none e = tt
      by_simulation (some simulation) e = record {
        settings = settings;
        settings_eq = es;
        entry = entry;
        event_eq = refl;
        observed = ei;
        outcome = outcome;
        moved = em;
        scanned = eo;
        others = others;
        found = ef;
        simulated = e;
      }

  by_scan :
      (entry : Log) (id : Option ℤ) (w : World) (outcome : MarketEventOutcome) (book : PoolBook)
      (s : Option RuntimeScanConfig)
      → scan ≡ s
      → o.persist_observed_log entry ≡ ok id
      → apply_log o.parse_u256 w.book entry ≡ (ok outcome, book)
      → outcome ≢ ignored
      → Detected o scan
          (log entry)
          w
          book
          (s >>=? λ settings. best_output o settings id (opportunities o settings entry book))
  by_scan entry id w outcome book none es ei em eo = tt
  by_scan entry id w outcome book (some settings) es ei em eo =
      best-Detected entry id w outcome book settings es ei em eo _ refl

  -- The end of the handler, on the answer of the book.
  applied-Handled :
      (entry : Log) (id : Option ℤ) (w : World) (r : Result MarketError MarketEventOutcome)
      (book : PoolBook)
      → S book
      → o.persist_observed_log entry ≡ ok id
      → apply_log o.parse_u256 w.book entry ≡ (r, book)
      → Handled S o scan (log entry) w
  unfolding handle_event apply_to_book scan_book
  applied-Handled entry id w (err e) book k ei em = record {
    answer = err (o.market_message e);
    book = book;
    left = rw ei rw em refl;
    kept = k;
    detected = tt;
  }
  applied-Handled entry id w (ok ignored) book k ei em = record {
    answer = ok none;
    book = book;
    left = rw ei rw em refl;
    kept = k;
    detected = tt;
  }
  applied-Handled entry id w (ok applied) book k ei em = record {
    answer =
        ok (scan >>=? λ settings. best_output o settings id (opportunities o settings entry book));
    book = book;
    left = rw ei rw em refl;
    kept = k;
    detected = by_scan entry id w applied book scan refl ei em cc;
  }
  applied-Handled entry id w (ok reverted) book k ei em = record {
    answer =
        ok (scan >>=? λ settings. best_output o settings id (opportunities o settings entry book));
    book = book;
    left = rw ei rw em refl;
    kept = k;
    detected = by_scan entry id w reverted book scan refl ei em cc;
  }

  left_alone :
      (event : Event) (w : World) (answer : Result Text (Option DecisionPipelineOutput))
      → S w.book
      → handle_event o scan event w ≡ (answer, w)
      → OfOk (Detected o scan event w w.book) answer
      → Handled S o scan event w
  left_alone event w answer k e d = record {
    answer = answer;
    book = w.book;
    left = e;
    kept = k;
    detected = d;
  }

  handled : (event : Event) (w : World) → S w.book → Handled S o scan event w
  unfolding handle_event
  handled (log entry) w k = by_storage (o.persist_observed_log entry) refl
    where
      by_storage :
          (r : Result Text (Option ℤ))
          → o.persist_observed_log entry ≡ r
          → Handled S o scan (log entry) w
      by_storage (ok id) ei =
          applied-Handled entry id w (apply_log o.parse_u256 w.book entry).0 _
            (keeps entry w.book k) ei refl
      by_storage (err e) ei =
          left_alone (log entry) w (err (text "failed to persist observed log")) k
            (rw (handle_event, ei) refl) tt
  handled (transaction t) w k = left_alone (transaction t) w (ok none) k refl tt
  handled (block b) w k = left_alone (block b) w (ok none) k refl tt
  handled (flashblock b) w k = left_alone (flashblock b) w (ok none) k refl tt

module _ (S : PoolBook → Type 0) (D : Sending) (config : AppConfig)
    (scan : Option RuntimeScanConfig) (turn : Turn) (w : World)
    (send : (payload : SubmissionPayload) (attempt : ExecutionAttempt)
      → IsDue config scan turn w payload attempt
      → D payload attempt) where
  -- After the decision of the risk engine.
  decided-Good :
      (output : DecisionPipelineOutput) (book : PoolBook)
      → IsDetected turn.outside scan turn.event w book output
      → Good S D
          (prepare_request turn.outside config
              (build_execution_request output.opportunity (decision_at config turn w output))
              output.simulation
            >>= λ plan.
                lift (
                  turn.outside.persist_decision_run (record {
                    observed_log_id = output.observed_log_id;
                    trigger_tx_hash = output.opportunity.trigger_tx_hash;
                    opportunity = output.opportunity;
                    simulation = output.simulation;
                    risk = decision_at config turn w output;
                    execution_request =
                        build_execution_request output.opportunity
                          (decision_at config turn w output);
                  }))
                >>= λ run_id. execute_prepared turn.outside config plan run_id)
          Done
  decided-Good output book d =
      let decision = decision_at config turn w output in
      let r = build_execution_request output.opportunity decision in
      chain S D (prepare-Good S D turn.outside config output.simulation r) (λ plan hp.
        chain S D (lift-Ensures S (IsJustified D) _) (λ run_id er.
          execute-Good S D turn.outside config r output.simulation plan run_id hp
            (λ request chosen payload hc hs. send payload chosen.attempt (record {
              output = output;
              book = book;
              detected = d;
              request = request;
              accepted = accepted_of_requested output.opportunity decision request hc.0;
              requested = hc.0;
              daily = hc.1.0;
              exposure = hc.1.1;
              plan = chosen;
              planned = hc.1.2;
              run_id = run_id;
              run_stored = rw (← hc.0) er;
              sendable = hs;
              attempt_eq = refl;
            }))))

  maybe_log-Keeps :
      (output : Option DecisionPipelineOutput) (book : PoolBook)
      → S book
      → All (IsJustified D) w.journal
      → Detected turn.outside scan turn.event w book output
      → Keeps S
          (IsJustified D)
          (maybe_log_decision_output turn.outside config turn.now output
            (record w { book = book })).1
  unfolding maybe_log_decision_output assess_opportunity
  maybe_log-Keeps none book k js d = (k, js)
  maybe_log-Keeps (some output) book k js d = ((decided-Good output book d).from _ (k, js)).0

  -- A turn sends only what is due in it.
  pub process-Keeps :
      (keeps : (entry : Log) (b : PoolBook) → S b → S (apply_log turn.outside.parse_u256 b entry).1)
      → S w.book
      → All (IsJustified D) w.journal
      → Keeps S (IsJustified D) (process_event config scan turn w).1
  unfolding process_event
  process-Keeps keeps k js =
      let h = handled S turn.outside scan keeps turn.event w k in
      by_answer h.answer h.book h.left h.kept h.detected
    where
      by_answer :
          (answer : Result Text (Option DecisionPipelineOutput)) (book : PoolBook)
          → handle_event turn.outside scan turn.event w ≡ (answer, record w { book = book })
          → S book
          → OfOk (Detected turn.outside scan turn.event w book) answer
          → Keeps S (IsJustified D) (process_event config scan turn w).1
      by_answer (ok output) book e kb d =
          rw (process_event, e) (maybe_log-Keeps output book kb js d)
      by_answer (err message) book e kb d = rw (process_event, e) (kb, js)
