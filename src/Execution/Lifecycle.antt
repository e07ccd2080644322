-- ===== src/Execution/Lifecycle.antt =====
-- What `mark_submitted`, `finalize_from_receipt` and `mark_dropped` ask for and do, and the table of
-- the transitions of the status.
use base_execution_engine.Base.Text.{Text, is_empty, trim}
use base_execution_engine.Base.{
  >>=-eq-ok, Bool, Option, arith, fail_if_ok, false, none, not, ok, ok-injective, ok_or_ok, refl,
  some, sym, true, ℕ, ◌≡◌,
}
use base_execution_engine.Types.{
  ExecutionAttempt, ExecutionReceipt, ExecutionStatus, built, dropped, included, profit_realized,
  replaced, reverted, submitted,
}
use mathlib.Core.Path.{subst}
use base_execution_engine.Execution.{
  FinalizedExecution, is_built, is_submitted, is_pending, mismatches, mark_submitted,
  total_fee_paid, classify_success, classify_receipt, finalize_from_receipt, mark_dropped,
}

-- What submission asks for and does.
pub record Submission (a : ExecutionAttempt) (tx_hash : Text) (b : ExecutionAttempt) : Type 0 where
  pub was_built : a.status ≡ built
  pub allowed : a.submission_allowed ≡ true
  pub nonempty : is_empty (trim tx_hash) ≡ false
  pub result : b ≡ record a { status = submitted; tx_hash = some tx_hash }

pub is_built-eq : (s : ExecutionStatus) → is_built s ≡ true → s ≡ built
is_built-eq built h = refl
is_built-eq submitted h = cc
is_built-eq included h = cc
is_built-eq reverted h = cc
is_built-eq dropped h = cc
is_built-eq replaced h = cc
is_built-eq profit_realized h = cc

pub mark_submitted-Submission :
    (a : ExecutionAttempt) (tx_hash : Text) (b : ExecutionAttempt)
    → mark_submitted a tx_hash ≡ ok b
    → Submission a tx_hash b
unfolding mark_submitted
mark_submitted-Submission a tx_hash b h =
    let (e1, h1) = fail_if_ok (not (is_built a.status)) _ _ h in
    let (e2, h2) = fail_if_ok (not a.submission_allowed) _ _ h1 in
    let (e3, h3) = fail_if_ok (is_empty (trim tx_hash)) _ _ h2 in
    record {
      was_built = is_built-eq a.status (ground arith);
      allowed = ground arith;
      nonempty = e3;
      result = sym (ok-injective h3);
    }

-- What finalizing asks for and does.
pub record Finalization (a : ExecutionAttempt) (r : ExecutionReceipt) (realized : Option ℕ)
    (min_surplus : ℕ) (f : FinalizedExecution) : Type 0 where
  pub was_pending : is_pending a.status ≡ true
  pub matches : mismatches a.tx_hash r.tx_hash ≡ false
  pub fee : total_fee_paid r ≡ ok f.outcome.total_fee_paid
  pub attempt :
      f.attempt
      ≡ record a { tx_hash = some r.tx_hash; status = (classify_receipt r realized min_surplus).0 }
  pub final_status : f.outcome.final_status ≡ f.attempt.status

pub finalize-Finalization :
    (a : ExecutionAttempt) (r : ExecutionReceipt) (realized : Option ℕ) (min_surplus : ℕ)
    (f : FinalizedExecution)
    → finalize_from_receipt a r realized min_surplus ≡ ok f
    → Finalization a r realized min_surplus f
unfolding finalize_from_receipt
finalize-Finalization a r realized min_surplus f h =
    let (e1, h1) = fail_if_ok (not (is_pending a.status)) _ _ h in
    let (e2, h2) = fail_if_ok (mismatches a.tx_hash r.tx_hash) _ _ h1 in
    let (fee, e3, h3) = >>=-eq-ok (total_fee_paid r) _ h2 in
    subst (Finalization a r realized min_surplus) (ok-injective h3) (record {
      was_pending = ground arith;
      matches = e2;
      fee = e3;
      attempt = refl;
      final_status = refl;
    })

pub is_submitted-eq : (s : ExecutionStatus) → is_submitted s ≡ true → s ≡ submitted
is_submitted-eq submitted h = refl
is_submitted-eq built h = cc
is_submitted-eq included h = cc
is_submitted-eq reverted h = cc
is_submitted-eq dropped h = cc
is_submitted-eq replaced h = cc
is_submitted-eq profit_realized h = cc

-- What dropping asks for and does.
pub record Drop (a : ExecutionAttempt) (reason : Text) (f : FinalizedExecution) : Type 0 where
  pub was_submitted : a.status ≡ submitted
  pub attempt : f.attempt ≡ record a { status = dropped }
  pub hash : a.tx_hash ≡ some f.outcome.tx_hash
  pub final_status : f.outcome.final_status ≡ f.attempt.status

pub mark_dropped-Drop :
    (a : ExecutionAttempt) (reason : Text) (f : FinalizedExecution)
    → mark_dropped a reason ≡ ok f
    → Drop a reason f
unfolding mark_dropped
mark_dropped-Drop a reason f h =
    let (e1, h1) = fail_if_ok (not (is_submitted a.status)) _ _ h in
    let (e2, h2) = fail_if_ok (is_empty (trim reason)) _ _ h1 in
    let (hash, e3, h3) = ok_or_ok a.tx_hash _ _ h2 in
    subst (Drop a reason) (ok-injective h3) (record {
      was_submitted = is_submitted-eq a.status (ground arith);
      attempt = refl;
      hash = e3;
      final_status = refl;
    })

-- The transitions of the status, as a table.
abbrev pub moves : ExecutionStatus → ExecutionStatus → Bool
moves built submitted = true
moves submitted included = true
moves submitted reverted = true
moves submitted profit_realized = true
moves submitted dropped = true
moves included included = true
moves included reverted = true
moves included profit_realized = true
moves _ _ = false

-- A receipt leaves one of three statuses.
abbrev pub is_settled : ExecutionStatus → Bool
is_settled included = true
is_settled reverted = true
is_settled profit_realized = true
is_settled _ = false

pub classify_receipt_settled :
    (r : ExecutionReceipt) (realized : Option ℕ) (min_surplus : ℕ)
    → is_settled (classify_receipt r realized min_surplus).0 ≡ true
unfolding classify_receipt classify_success
classify_receipt_settled r none min_surplus = ground arith
classify_receipt_settled r (some n) min_surplus = ground arith

pub pending_moves :
    (s t : ExecutionStatus) → is_pending s ≡ true → is_settled t ≡ true → moves s t ≡ true
pending_moves submitted built e s = cc
pending_moves submitted submitted e s = cc
pending_moves submitted included e s = refl
pending_moves submitted reverted e s = refl
pending_moves submitted dropped e s = cc
pending_moves submitted replaced e s = cc
pending_moves submitted profit_realized e s = refl
pending_moves included built e s = cc
pending_moves included submitted e s = cc
pending_moves included included e s = refl
pending_moves included reverted e s = refl
pending_moves included dropped e s = cc
pending_moves included replaced e s = cc
pending_moves included profit_realized e s = refl
pending_moves built t e s = cc
pending_moves reverted t e s = cc
pending_moves dropped t e s = cc
pending_moves replaced t e s = cc
pending_moves profit_realized t e s = cc
