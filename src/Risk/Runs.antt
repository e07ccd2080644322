-- ===== src/Risk/Runs.antt =====
-- Sequences of calls of the risk engine, the newest first, and what one call does to the state.
use base_execution_engine.Base.Text.{Text, text}
use base_execution_engine.Types.{Opportunity, RiskDecision, SimulationResult}
use base_execution_engine.Base.{
  Bool, List, Option, [], false, if◌then◌else◌, inl, inr, none, refl, some, true, ℕ, ◌∷◌, ◌≡◌, ◌⊎◌,
}
use base_execution_engine.Risk.{
  RiskPolicy, RiskState, initial_state, trigger_kill_switch, record_outcome, stateless_reject,
  block_bucket, block_used, exceeds, is_tripped, prune_daily_entries, decide, deny, commit,
  cap_reason, assess_daily, assess_stateful, assess,
}
use base_execution_engine.Risk.Gates.{Admits, assess_accepted_iff}

pub data Call : Type 0 where
  assessed : ℕ → Opportunity → SimulationResult → Call
  outcome : Bool → Call
  killed : Call

-- A call that denies and at most prunes, or that accepts and commits.
data Moved (now : ℕ) (opp : Opportunity) (st : RiskState) (p : RiskDecision × RiskState)
    : Type 0 where
  denies :
      p.0.accepted ≡ false → (p.1 ≡ st) ⊎ (p.1 ≡ prune_daily_entries st now) → Moved now opp st p
  accepts :
      p.0.accepted ≡ true
      → p.1
        ≡ commit (block_bucket opp.block_context) now opp.input_amount (prune_daily_entries st now)
      → Moved now opp st p

module _ (path_exists : Text → Bool) (sha256_hex : List ℕ → Text) (policy : RiskPolicy) where
  abbrev pub after : List Call → RiskState
  after [] = initial_state
  after (assessed now opp sim ∷ l) = (assess path_exists sha256_hex policy now opp sim (after l)).1
  after (outcome success ∷ l) = record_outcome success (after l)
  after (killed ∷ l) = trigger_kill_switch (after l)

  -- The time, the block bucket and the amount of each accepted opportunity.
  abbrev pub accepted_log : List Call → List (ℕ × ℕ × ℕ)
  accepted_log [] = []
  accepted_log (assessed now opp sim ∷ l) =
      if (assess path_exists sha256_hex policy now opp sim (after l)).0.accepted
      then (now, block_bucket opp.block_context, opp.input_amount) ∷ accepted_log l
      else accepted_log l
  accepted_log (outcome success ∷ l) = accepted_log l
  accepted_log (killed ∷ l) = accepted_log l

  -- A call of `assess` denies and at most prunes, or accepts and commits.
  abbrev pub Step : ℕ → Opportunity → RiskState → RiskDecision × RiskState → Type 0
  Step now opp st (d, st') =
      ((d.accepted ≡ false) × ((st' ≡ st) ⊎ (st' ≡ prune_daily_entries st now)))
      ⊎ ((d.accepted ≡ true)
          × Admits policy now opp st
          × (st'
              ≡ commit (block_bucket opp.block_context) now opp.input_amount
                  (prune_daily_entries st now)))

  Moved-if :
      (now : ℕ) (opp : Opportunity) (st : RiskState) (b : Bool) (p q : RiskDecision × RiskState)
      → Moved now opp st p
      → Moved now opp st q
      → Moved now opp st (if b then p else q)
  Moved-if now opp st true p q h k = h
  Moved-if now opp st false p q h k = k

  assess_stateful-Moved :
      (now : ℕ) (opp : Opportunity) (sim : SimulationResult) (st : RiskState)
      → Moved now opp st (assess_stateful path_exists sha256_hex policy now opp sim st)
  unfolding assess_stateful assess_daily decide deny
  assess_stateful-Moved now opp sim st =
      let rest = prune_daily_entries st now in
      let daily =
        Moved-if now opp st
          (exceeds policy.max_daily_notional_wei rest.daily_total opp.input_amount)
          (
            deny path_exists sha256_hex policy opp
                (cap_reason (text "daily notional ") policy.max_daily_notional_wei rest.daily_total
                  opp.input_amount)
                sim,
            rest,
          )
          (
            decide path_exists sha256_hex true none policy opp sim,
            commit (block_bucket opp.block_context) now opp.input_amount rest,
          )
          (denies refl (inr refl)) (accepts refl refl) in
      let denial = λ (r : Text). deny path_exists sha256_hex policy opp r sim in
      Moved-if now opp st st.operator_killed (denial _, st) _ (denies refl (inl refl))
        (Moved-if now opp st (is_tripped policy st) (denial _, st) _ (denies refl (inl refl))
          (Moved-if now opp st
            (exceeds policy.max_per_block_notional_wei
              (block_used st (block_bucket opp.block_context)) opp.input_amount)
            (denial _, st) _ (denies refl (inl refl)) daily))

  assess-Moved :
      (now : ℕ) (opp : Opportunity) (sim : SimulationResult) (st : RiskState)
      → Moved now opp st (assess path_exists sha256_hex policy now opp sim st)
  unfolding assess decide deny
  assess-Moved now opp sim st =
      by_reason (stateless_reject path_exists policy opp sim) (assess_stateful-Moved now opp sim st)
    where
      by_reason :
          (o : Option Text)
          → Moved now opp st (assess_stateful path_exists sha256_hex policy now opp sim st)
          → Moved now opp st (elim o as (λ x. RiskDecision × RiskState) [
            | some reason ↦ (deny path_exists sha256_hex policy opp reason sim, st)
            | none ↦ assess_stateful path_exists sha256_hex policy now opp sim st
          ])
      by_reason none m = m
      by_reason (some reason) m = denies refl (inl refl)

  -- Every call of `assess` denies and changes the state at most by pruning, or accepts what the
  -- state admits and commits its amount to the block and to the day.
  pub assess-Step :
      (now : ℕ) (opp : Opportunity) (sim : SimulationResult) (st : RiskState)
      → Step now opp st (assess path_exists sha256_hex policy now opp sim st)
  assess-Step now opp sim st = elim (assess-Moved now opp sim st) [
    | denies d e ↦ inl (d, e)
    | accepts a e ↦
        inr (a, ((assess_accepted_iff path_exists sha256_hex policy now opp sim st).0 a).1, e)
  ]
