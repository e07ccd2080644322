-- ===== src/App/Steps.antt =====
-- What a handler of crates/app/src/main.rs reads and writes, and how its steps are chained. A handler
-- maps the world to its result and the world after; at the first error the rest is left out. The
-- journal holds what was asked of the transport and of the storage, the last first.
use base_execution_engine.Base.{Bool, List, Result, err, ok, ◌∷◌}
use base_execution_engine.Base.Text.{Text}
use base_execution_engine.Base.Int.{ℤ}
use base_execution_engine.Types.{ExecutionAttempt, ExecutionOutcome, ExecutionReceipt}
use base_execution_engine.Execution.Payload.{SubmissionPayload}
use base_execution_engine.Risk.{RiskState, record_outcome}
use base_execution_engine.Markets.Book.{PoolBook}

pub data Action : Type 0 where
  sent : SubmissionPayload → ExecutionAttempt → Action
  wrote_error : ℤ → Text → Text → Action
  wrote_submitted : ℤ → ExecutionAttempt → Action
  wrote_final : ℤ → ExecutionAttempt → ExecutionReceipt → ExecutionOutcome → Action
  wrote_dropped : ℤ → ExecutionAttempt → ExecutionOutcome → Action

pub record World : Type 0 where
  pub book : PoolBook
  pub risk : RiskState
  pub journal : List Action

abbrev pub App : Type 0 → Type 0
App A = World → Result Text A × World

abbrev pub pure : {A : Type 0} → A → App A
pure a w = (ok a, w)

abbrev pub continue : {A B : Type 0} → (A → App B) → Result Text A × World → Result Text B × World
continue f (ok a, w) = f a w
continue f (err e, w) = (err e, w)

infixl 5 ◌>>=◌
abbrev pub ◌>>=◌ : {A B : Type 0} → App A → (A → App B) → App B
(m >>= f) w = continue f (m w)

infixl 5 ◌>>◌
abbrev pub ◌>>◌ : {B : Type 0} → App (Unit {0}) → App B → App B
m >> n = m >>= λ u. n

-- A step that only answers.
abbrev pub lift : {A : Type 0} → Result Text A → App A
lift r w = (r, w)

-- `anyhow::Context`: the outermost message replaces the others.
abbrev pub with_context : {A : Type 0} → Result Text A → Text → Result Text A
with_context (ok a) message = ok a
with_context (err e) message = err message

abbrev pub in_context : {A : Type 0} → App A → Text → App A
in_context m message w = let (r, w1) = m w in (with_context r message, w1)

-- `risk_engine.record_outcome`
unfoldable pub count_outcome : Bool → App (Unit {0})
count_outcome success w = (ok tt, record w { risk = record_outcome success w.risk })

-- An action that cannot fail here.
unfoldable pub act : Action → App (Unit {0})
act a w = (ok tt, record w { journal = a ∷ w.journal })

-- An action on the storage, with its answer.
unfoldable pub write : (Action → Result Text (Unit {0})) → Action → App (Unit {0})
write storage a w = (storage a, record w { journal = a ∷ w.journal })
