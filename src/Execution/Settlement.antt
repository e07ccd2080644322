-- ===== src/Execution/Settlement.antt =====
-- What a receipt settles: the fee it names and the status it leaves.
use base_execution_engine.Base.Text.{Text, text}
use base_execution_engine.Base.Words.{fit, u128_max}
use base_execution_engine.Base.{
  Bool, Option, arith, false, if◌then◌else◌, leb, none, ok, refl, some, true, unwrap_or, ℕ, ◌*◌,
  ◌+◌, ◌↔◌, ◌≡◌, ◌≤◌,
}
use base_execution_engine.Types.{
  ExecutionAttempt, ExecutionReceipt, ExecutionStatus, included, profit_realized, reverted,
}
use base_execution_engine.Execution.{
  FinalizedExecution, is_pending, mismatches, total_fee_paid, classify_success, classify_receipt,
  finalize_from_receipt,
}

-- The fee of the execution and of the data layer, where the receipt says enough.
abbrev pub fee_of : Option ℕ → Option ℕ → Option ℕ → Option ℕ
fee_of (some gas) (some price) l1 = some (gas * price + unwrap_or l1 0)
fee_of (some gas) none l1 = l1
fee_of none price l1 = l1

abbrev pub FeeFits : Option ℕ → Option ℕ → Option ℕ → Type 0
FeeFits (some gas) (some price) l1 = gas * price + unwrap_or l1 0 ≤ u128_max
FeeFits (some gas) none l1 = Unit
FeeFits none price l1 = Unit

total_fee_paid_total :
    (r : ExecutionReceipt)
    → FeeFits r.gas_used r.effective_gas_price r.l1_fee_paid
    → total_fee_paid r ≡ ok (fee_of r.gas_used r.effective_gas_price r.l1_fee_paid)
unfolding total_fee_paid fit
total_fee_paid_total r f = ground arith

-- What the final status says of the receipt and of the surplus.
pub record Verdict (success : Bool) (realized : Option ℕ) (min_surplus : ℕ) (s : ExecutionStatus)
    : Type 0 where
  pub reverted_iff : (s ≡ reverted) ↔ (success ≡ false)
  pub realized_iff :
      (s ≡ profit_realized) ↔ ((success ≡ true) × (n : ℕ) × (realized ≡ some n) × (min_surplus ≤ n))

classify_success-Verdict :
    (realized : Option ℕ) (min_surplus : ℕ)
    → Verdict true realized min_surplus (classify_success realized min_surplus).0
unfolding classify_success
classify_success-Verdict none min_surplus = record {
  reverted_iff = (λ e. cc, λ e. cc);
  realized_iff = (λ e. cc, λ h. let k = h.2 in cc);
}
classify_success-Verdict (some n) min_surplus =
    by_order (leb min_surplus n) (λ e. ground arith) (λ h. ground arith) _ refl
  where
    by_order :
        (b : Bool)
        → (b ≡ true → min_surplus ≤ n)
        → (min_surplus ≤ n → b ≡ true)
        → (w : ExecutionStatus × Option Text) → w.0 ≡ included
        → Verdict true (some n) min_surplus (if b then (profit_realized, none) else w).0
    by_order true f g w k = record {
      reverted_iff = (λ e. cc, λ e. cc);
      realized_iff = (λ e. (refl, n, refl, f refl), λ h. refl);
    }
    by_order false f g w k = record {
      reverted_iff = (λ e. cc, λ e. cc);
      realized_iff = (
        λ e. cc,
        λ h. let same : n ≡ h.1 = (let e = h.2 in cc) in let e = g (omega (arith, same, h.3)) in cc,
      );
    }

classify_receipt-Verdict :
    (r : ExecutionReceipt) (realized : Option ℕ) (min_surplus : ℕ)
    → Verdict r.success realized min_surplus (classify_receipt r realized min_surplus).0
unfolding classify_receipt
classify_receipt-Verdict r realized min_surplus = by_success r.success
  where
    by_success :
        (b : Bool)
        → Verdict b realized min_surplus (
            let w : ExecutionStatus × Option Text =
              (reverted, some (unwrap_or r.revert_reason (text "transaction reverted on-chain"))) in
            (if b then classify_success realized min_surplus else w).0)
    by_success true = classify_success-Verdict realized min_surplus
    by_success false = record {
      reverted_iff = (λ e. refl, λ e. refl);
      realized_iff = (λ e. cc, λ h. let k = h.0 in cc);
    }

-- A receipt that does not contradict the hash of a submitted or included attempt is always settled,
-- if its fee fits 128 bits: the outcome carries exactly that fee, its status is the attempt's, it
-- is reverted exactly when the transaction failed, and realized exactly when it succeeded and the
-- surplus is known to reach the minimum.
pub finalize_total :
    (a : ExecutionAttempt) (r : ExecutionReceipt) (realized : Option ℕ) (min_surplus : ℕ)
    → is_pending a.status ≡ true
    → mismatches a.tx_hash r.tx_hash ≡ false
    → FeeFits r.gas_used r.effective_gas_price r.l1_fee_paid
    → (f : FinalizedExecution) × (finalize_from_receipt a r realized min_surplus ≡ ok f)
      × (f.outcome.total_fee_paid ≡ fee_of r.gas_used r.effective_gas_price r.l1_fee_paid)
      × (f.attempt.status ≡ f.outcome.final_status)
      × Verdict r.success realized min_surplus f.outcome.final_status
unfolding finalize_from_receipt
finalize_total a r realized min_surplus p m f =
    let t = total_fee_paid_total r f in
    let s = classify_receipt r realized min_surplus in
    (
      record {
        attempt = record a { tx_hash = some r.tx_hash; status = s.0 };
        outcome = record {
          request_id = a.request_id;
          final_status = s.0;
          tx_hash = r.tx_hash;
          block_number = r.block_number;
          total_fee_paid = fee_of r.gas_used r.effective_gas_price r.l1_fee_paid;
          realized_surplus = realized;
          reason = s.1;
        };
      },
      ground (arith, p, m, t),
      refl,
      refl,
      classify_receipt-Verdict r realized min_surplus,
    )
