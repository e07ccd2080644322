-- ===== src/Risk/Breaker.antt =====
-- The circuit breaker and the kill switch, over a sequence of calls.
use base_execution_engine.Base.Text.{Text}
use base_execution_engine.Base.Words.{saturating_add, u32_max}
use base_execution_engine.Types.{Opportunity, RiskDecision, SimulationResult}
use base_execution_engine.Base.{
  Bool, Bool-cases, List, [], arith, false, inl, inr, refl, sym, true, ℕ, ◌+◌, ◌<◌, ◌∷◌, ◌≡◌, ◌≤◌,
  ◌⊎◌,
}
use Prim.Native.Nat.{min}
use mathlib.Core.Path.{subst}
use base_execution_engine.Risk.{
  RiskPolicy, RiskState, prune_daily_entries, commit, assess, record_outcome, trigger_kill_switch,
}
use base_execution_engine.Risk.Gates.{Admits, assess_accepted_iff}
use base_execution_engine.Risk.Runs.{Call, assessed, outcome, killed, after, Step, assess-Step}

-- The failed executions since the last one that succeeded.
abbrev pub reverts_in_a_row : List Call → ℕ
reverts_in_a_row [] = 0
reverts_in_a_row (outcome true ∷ l) = 0
reverts_in_a_row (outcome false ∷ l) = reverts_in_a_row l + 1
reverts_in_a_row (assessed now opp sim ∷ l) = reverts_in_a_row l
reverts_in_a_row (killed ∷ l) = reverts_in_a_row l

abbrev pub was_killed : List Call → Bool
was_killed [] = false
was_killed (killed ∷ l) = true
was_killed (outcome success ∷ l) = was_killed l
was_killed (assessed now opp sim ∷ l) = was_killed l

-- The counter and the switch, apart from the rest of the state.
abbrev Latches : ℕ → Bool → RiskState → Type 0
Latches reverts switch st =
    (st.consecutive_reverts ≡ min reverts u32_max) × (st.operator_killed ≡ switch)

module _ (path_exists : Text → Bool) (sha256_hex : List ℕ → Text) (policy : RiskPolicy) where
  Step-Latches :
      (reverts : ℕ) (switch : Bool) (now : ℕ) (opp : Opportunity) (st : RiskState)
      (p : RiskDecision × RiskState)
      → Step path_exists sha256_hex policy now opp st p
      → Latches reverts switch st
      → Latches reverts switch p.1
  unfolding prune_daily_entries commit
  Step-Latches reverts switch now opp st (d, st') (inl (denied, inl e)) t =
      subst (Latches reverts switch) (sym e) t
  Step-Latches reverts switch now opp st (d, st') (inl (denied, inr e)) t =
      subst (Latches reverts switch) (sym e) t
  Step-Latches reverts switch now opp st (d, st') (inr (accepted, a, e)) t =
      subst (Latches reverts switch) (sym e) t

  after-Latches :
      (calls : List Call)
      → Latches
          (reverts_in_a_row calls)
          (was_killed calls)
          (after path_exists sha256_hex policy calls)
  unfolding record_outcome trigger_kill_switch saturating_add
  after-Latches [] = (refl, refl)
  after-Latches (outcome true ∷ calls) = (refl, (after-Latches calls).1)
  after-Latches (outcome false ∷ calls) =
      let k = after-Latches calls in (let e = k.0 in omega arith, k.1)
  after-Latches (killed ∷ calls) = ((after-Latches calls).0, refl)
  after-Latches (assessed now opp sim ∷ calls) =
      let st = after path_exists sha256_hex policy calls in
      Step-Latches _ _ now opp st (assess path_exists sha256_hex policy now opp sim st)
        (assess-Step path_exists sha256_hex policy now opp sim st) (after-Latches calls)

  -- After any calls: if the last executions reverted at least as often in a row as the limit, which
  -- is not 0 and fits 32 bits, or if the kill switch was ever thrown, every opportunity is denied.
  pub breaker_denies :
      (calls : List Call) (now : ℕ) (opp : Opportunity) (sim : SimulationResult)
      → ((0 < policy.max_consecutive_reverts)
          × (policy.max_consecutive_reverts ≤ u32_max)
          × (policy.max_consecutive_reverts ≤ reverts_in_a_row calls))
        ⊎ (was_killed calls ≡ true)
      → (assess path_exists sha256_hex policy now opp sim
          (after path_exists sha256_hex policy calls)).0.accepted
        ≡ false
  breaker_denies calls now opp sim h =
      let st = after path_exists sha256_hex policy calls in
      let t = after-Latches calls in
      let a = (assess_accepted_iff path_exists sha256_hex policy now opp sim st).0 in
      elim (Bool-cases (assess path_exists sha256_hex policy now opp sim st).0.accepted) [
        | inl e ↦ absurd (by_latch (a e).1 t h)
        | inr e ↦ e
      ]
    where
      by_latch :
          Admits policy now opp (after path_exists sha256_hex policy calls)
          → Latches
              (reverts_in_a_row calls)
              (was_killed calls)
              (after path_exists sha256_hex policy calls)
          → ((0 < policy.max_consecutive_reverts)
              × (policy.max_consecutive_reverts ≤ u32_max)
              × (policy.max_consecutive_reverts ≤ reverts_in_a_row calls))
            ⊎ (was_killed calls ≡ true)
          → ⊥
      by_latch a t (inl (positive, small, many)) =
          let l = a.not_tripped positive in let e = t.0 in omega arith
      by_latch a t (inr k) = let l = a.not_killed in let e = t.1 in cc
