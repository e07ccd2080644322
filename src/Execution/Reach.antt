-- ===== src/Execution/Reach.antt =====
-- The life cycle of an attempt as a step relation: what `prepare_execution`, `mark_submitted`,
-- `finalize_from_receipt` and `mark_dropped` can do to it, in any order.
use base_execution_engine.Base.Text.{Text, text_eq_iff}
use base_execution_engine.Base.{
  Bool, Option, ap, arith, false, inl, inr, none, ok, refl, some, sym, true, ℕ, ◌∙◌, ◌≡◌, ◌⊎◌,
}
use base_execution_engine.Types.{
  ExecutionAttempt, ExecutionReceipt, ExecutionRequest, ExecutionStatus, SimulationResult, built,
  dropped, included, profit_realized, replaced, reverted, submitted,
}
use mathlib.Core.Path.{subst}
use base_execution_engine.Execution.{
  ExecutionConfig, PreparedExecution, FinalizedExecution, built_attempt, prepare_execution,
  is_built, is_pending, mismatches, mark_submitted, finalize_from_receipt, mark_dropped,
}
use base_execution_engine.Execution.Prepare.{prepare-Preparation}
use base_execution_engine.Execution.Lifecycle.{
  Submission, mark_submitted-Submission, Finalization, finalize-Finalization, Drop,
  mark_dropped-Drop, moves, is_settled, classify_receipt_settled, pending_moves,
}

pub data Step : ExecutionAttempt → ExecutionAttempt → Type 0 where
  submits : (a b : ExecutionAttempt) (tx_hash : Text) → mark_submitted a tx_hash ≡ ok b → Step a b
  finalizes :
      (a : ExecutionAttempt) (f : FinalizedExecution) (receipt : ExecutionReceipt)
      (realized : Option ℕ) (min_surplus : ℕ)
      → finalize_from_receipt a receipt realized min_surplus ≡ ok f
      → Step a f.attempt
  drops :
      (a : ExecutionAttempt) (f : FinalizedExecution) (reason : Text)
      → mark_dropped a reason ≡ ok f
      → Step a f.attempt

-- An attempt that was prepared and went through any number of steps.
pub data Reachable : ExecutionAttempt → Type 0 where
  prepared :
      (config : ExecutionConfig) (request : ExecutionRequest) (simulation : SimulationResult)
      (daily : ℕ) (p : PreparedExecution)
      → prepare_execution config request simulation daily ≡ ok p
      → Reachable p.attempt
  stepped : (a b : ExecutionAttempt) → Reachable a → Step a b → Reachable b

-- A built attempt has no hash; one past that was allowed, and has the hash of its transaction.
abbrev pub IsTracked : ExecutionAttempt → Type 0
IsTracked a =
    ((a.status ≡ built) × (a.tx_hash ≡ none))
    ⊎ ((is_built a.status ≡ false)
        × (a.submission_allowed ≡ true)
        × (h : Text) × (a.tx_hash ≡ some h))

abbrev pub KeepsHash : ExecutionAttempt → ExecutionAttempt → Type 0
KeepsHash a b = (h : Text) → a.tx_hash ≡ some h → b.tx_hash ≡ some h

-- What every step keeps and does.
pub record Advance (a b : ExecutionAttempt) : Type 0 where
  pub move : moves a.status b.status ≡ true
  pub same_request : b.request_id ≡ a.request_id
  pub same_notional : b.requested_notional ≡ a.requested_notional
  pub same_permission : b.submission_allowed ≡ a.submission_allowed
  pub was_allowed : a.status ≡ built → a.submission_allowed ≡ true
  pub keeps_hash : IsTracked a → KeepsHash a b
  pub tracked : IsTracked a → IsTracked b

not_built : (s : ExecutionStatus) → is_settled s ≡ true → is_built s ≡ false
not_built built e = cc
not_built submitted e = refl
not_built included e = refl
not_built reverted e = refl
not_built dropped e = refl
not_built replaced e = refl
not_built profit_realized e = refl

pending-built : (s : ExecutionStatus) → is_pending s ≡ true → s ≡ built → ⊥
pending-built s e f = let k : is_pending built ≡ true = (rw f at e) in cc

-- Past the first step an attempt was allowed and has its hash.
tracked_past :
    (a : ExecutionAttempt)
    → IsTracked a
    → (a.status ≡ built → ⊥)
    → (a.submission_allowed ≡ true) × (h : Text) × (a.tx_hash ≡ some h)
tracked_past a (inl t) n = absurd (n t.0)
tracked_past a (inr t) n = (t.1, t.2, t.3)

-- A built attempt has no hash to keep.
unbuilt_hash :
    {x : Option Text} (a : ExecutionAttempt)
    → IsTracked a
    → a.status ≡ built
    → (h : Text) → a.tx_hash ≡ some h
    → x ≡ some h
unbuilt_hash a (inl t) w h e = let n = t.1 in cc
unbuilt_hash a (inr t) w h e = let n = t.0 in cc

same_hash :
    (o : Option Text) (h k : Text)
    → o ≡ some h
    → mismatches o k ≡ false
    → ◌≡◌ {A = Option Text} (some k) (some h)
same_hash none h k e m = cc
same_hash (some g) h k e m =
    let j : g ≡ h = (let i = e in cc) in
    let i = (text_eq_iff g k).0 (ground arith) in ap some (sym i ∙ j)

submits-Advance : (a b : ExecutionAttempt) (tx_hash : Text) → Submission a tx_hash b → Advance a b
submits-Advance a b tx_hash s = subst (Advance a) (sym s.result) (record {
  move = subst (λ (t : ExecutionStatus). moves t submitted ≡ true) (sym s.was_built) refl;
  same_request = refl;
  same_notional = refl;
  same_permission = refl;
  was_allowed = (λ e. s.allowed);
  keeps_hash = (λ t h e. unbuilt_hash a t s.was_built h e);
  tracked = (λ t. inr (refl, s.allowed, tx_hash, refl));
})

finalizes-Advance :
    (a : ExecutionAttempt) (r : ExecutionReceipt) (realized : Option ℕ) (min_surplus : ℕ)
    (f : FinalizedExecution)
    → Finalization a r realized min_surplus f
    → Advance a f.attempt
finalizes-Advance a r realized min_surplus f k =
    let settled = classify_receipt_settled r realized min_surplus in
    let past = pending-built a.status k.was_pending in
    subst (Advance a) (sym k.attempt) (record {
      move = pending_moves a.status _ k.was_pending settled;
      same_request = refl;
      same_notional = refl;
      same_permission = refl;
      was_allowed = (λ e. absurd (past e));
      keeps_hash = (λ t h e. same_hash a.tx_hash h r.tx_hash e k.matches);
      tracked = (λ t. inr (not_built _ settled, (tracked_past a t past).0, r.tx_hash, refl));
    })

drops-Advance :
    (a : ExecutionAttempt) (reason : Text) (f : FinalizedExecution)
    → Drop a reason f
    → Advance a f.attempt
drops-Advance a reason f k = subst (Advance a) (sym k.attempt) (record {
  move = subst (λ (t : ExecutionStatus). moves t dropped ≡ true) (sym k.was_submitted) refl;
  same_request = refl;
  same_notional = refl;
  same_permission = refl;
  was_allowed = (λ e. let w = k.was_submitted in cc);
  keeps_hash = (λ t h e. e);
  tracked = (λ t.
      inr (
        refl,
        (tracked_past a t (λ e. let w = k.was_submitted in cc)).0,
        f.outcome.tx_hash,
        k.hash,
      ));
})

pub Step-Advance : (a b : ExecutionAttempt) → Step a b → Advance a b
Step-Advance _ _ (submits a b h e) = submits-Advance a b h (mark_submitted-Submission a h b e)
Step-Advance _ _ (finalizes a f r realized min_surplus e) =
    finalizes-Advance a r realized min_surplus f
      (finalize-Finalization a r realized min_surplus f e)
Step-Advance _ _ (drops a f reason e) = drops-Advance a reason f (mark_dropped-Drop a reason f e)

pub prepare-IsTracked :
    (config : ExecutionConfig) (request : ExecutionRequest) (simulation : SimulationResult)
    (daily : ℕ) (p : PreparedExecution)
    → prepare_execution config request simulation daily ≡ ok p
    → (p.attempt.status ≡ built) × (p.attempt.tx_hash ≡ none)
unfolding built_attempt
prepare-IsTracked config request simulation daily p h =
    let k = (prepare-Preparation config request simulation daily p h).attempt in
    (ap (λ (a : ExecutionAttempt). a.status) k, ap (λ (a : ExecutionAttempt). a.tx_hash) k)

Reachable-IsTracked : (a : ExecutionAttempt) → Reachable a → IsTracked a
Reachable-IsTracked _ (prepared config request simulation daily p e) =
    inl (prepare-IsTracked config request simulation daily p e)
Reachable-IsTracked _ (stepped a b r s) = (Step-Advance a b s).tracked (Reachable-IsTracked a r)

-- A status that no transition leaves.
abbrev pub is_final : ExecutionStatus → Bool
is_final built = false
is_final submitted = false
is_final included = false
is_final reverted = true
is_final dropped = true
is_final replaced = true
is_final profit_realized = true

not_final : (s t : ExecutionStatus) → moves s t ≡ true → is_final s ≡ false
not_final built t m = refl
not_final submitted t m = refl
not_final included t m = refl
not_final reverted t m = cc
not_final dropped t m = cc
not_final replaced t m = cc
not_final profit_realized t m = cc

-- In every order of calls, a reachable attempt is built without a hash, or it was allowed and has
-- the hash of its transaction; a step from it starts at a status that is not final and at an
-- attempt that is allowed, follows the table of transitions, changes neither the request, the
-- notional nor the permission, and keeps a hash that is there.
pub Reachable-Advance :
    (a b : ExecutionAttempt)
    → Reachable a
    → Step a b
    → IsTracked a
      × Advance a b
      × KeepsHash a b
      × (is_final a.status ≡ false)
      × (a.submission_allowed ≡ true)
Reachable-Advance a b r s =
    let t = Reachable-IsTracked a r in
    let k = Step-Advance a b s in
    (t, k, k.keeps_hash t, not_final a.status b.status k.move, allowed t k.was_allowed)
  where
    allowed :
        IsTracked a → (a.status ≡ built → a.submission_allowed ≡ true) → a.submission_allowed ≡ true
    allowed (inl t) f = f t.0
    allowed (inr t) f = t.1
