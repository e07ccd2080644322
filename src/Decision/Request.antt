-- ===== src/Decision/Request.antt =====
-- From an opportunity to the request: the cost model, and what the request asks of the router.
use base_execution_engine.Base.Text.{Text}
use base_execution_engine.Base.Words.{checked_sub, checked_sub-eq-some, checked_sub-some}
use base_execution_engine.Base.{
  >>=?-eq-some, Bool, List, Option, [], ap, arith, false, length, ltb, none, not, refl, some, true,
  ℕ, ◌+◌, ◌-◌, ◌<◌, ◌==◌, ◌>>=?◌, ◌||◌, ◌∙◌, ◌∷◌, ◌≡◌, ◌≤◌,
}
use base_execution_engine.Types.{
  ExecutionRequest, ExecutionStep, Opportunity, OpportunityKind, RiskDecision, RouteLeg,
  SimulationResult, two_leg_loop,
}
use mathlib.Core.Path.{subst}
use base_execution_engine.Risk.{
  RiskPolicy, RiskState, stateless_reject, assess, assess_stateful, assess_daily, deny, decide,
}
use base_execution_engine.Risk.Gates.{assess_accepted_iff}
use base_execution_engine.Decision.{
  TwoLegLoopInput, SimulationConfig, is_two_leg_loop, simulation_result, none_if,
  detect_two_leg_loop, simulate_two_leg_opportunity, execution_step, execution_steps,
  build_execution_request,
}
use base_execution_engine.Decision.Loop.{none_if-some, detect_two_leg_loop-Pays}

-- What a simulation says: the gross profit is output over input, the net profit is what the costs
-- leave of it, and only a positive net profit is accepted.
pub record Costed (o : Opportunity) (c : SimulationConfig) (r : SimulationResult) : Type 0 where
  pub same : r.opportunity_id ≡ o.id
  pub gross : r.expected_gross_profit + o.input_amount ≡ o.expected_output_amount
  pub net : r.expected_net_profit + c.gas_cost_wei + c.l1_data_fee_wei ≡ r.expected_gross_profit
  pub accepts : r.accepted ≡ ltb 0 r.expected_net_profit
  pub gas : r.gas_estimate ≡ c.gas_estimate

simulation_result-Costed :
    (o : Opportunity) (c : SimulationConfig) (gross rest net : ℕ)
    → gross + o.input_amount ≡ o.expected_output_amount
    → rest + c.gas_cost_wei ≡ gross
    → net + c.l1_data_fee_wei ≡ rest
    → Costed o c (simulation_result o c gross net)
unfolding simulation_result
simulation_result-Costed o c gross rest net e f g = record {
  same = refl;
  gross = e;
  net = omega arith;
  accepts = refl;
  gas = refl;
}

none_if-false {ℓ} : {A : Type ℓ} (c : Bool) (o : Option A) → c ≡ false → none_if c o ≡ o
none_if-false c o e = rw e refl

bind_some {ℓ κ} :
    {A : Type ℓ} {B : Type κ} (m : Option A) (f : A → Option B) {a : A}
    → m ≡ some a
    → (m >>=? f) ≡ f a
bind_some m f e = rw e refl

two_legs :
    (k : OpportunityKind) (route : List RouteLeg) (a b : RouteLeg)
    → k ≡ two_leg_loop
    → route ≡ a ∷ b ∷ []
    → (not (is_two_leg_loop k) || not (length route == 2)) ≡ false
two_legs k route a b e f = rw (e, f) refl

ltb-true : (n : ℕ) → 0 < n → ltb 0 n ≡ true
ltb-true n h = ground arith

pub simulate-Costed :
    (o : Opportunity) (c : SimulationConfig) (r : SimulationResult)
    → simulate_two_leg_opportunity o c ≡ some r
    → Costed o c r
unfolding simulate_two_leg_opportunity
simulate-Costed o c r h =
    let (guard, h0) =
      none_if-some (not (is_two_leg_loop o.kind) || not (length o.route == 2)) _ h in
    let (gross, e1, h1) = >>=?-eq-some (checked_sub o.expected_output_amount o.input_amount) _ h0 in
    let (rest, e2, h2) = >>=?-eq-some (checked_sub gross c.gas_cost_wei) _ h1 in
    let (net, e3, h3) = >>=?-eq-some (checked_sub rest c.l1_data_fee_wei) _ h2 in
    let same : simulation_result o c gross net ≡ r = (let e = h3 in cc) in
    subst (Costed o c) same (
      simulation_result-Costed o c gross rest net
        (checked_sub-eq-some o.expected_output_amount o.input_amount e1)
        (checked_sub-eq-some gross c.gas_cost_wei e2)
        (checked_sub-eq-some rest c.l1_data_fee_wei e3))

-- A loop that was found and earns more than the two costs is simulated, the result says the gross
-- and the net profit exactly, and it is accepted.
pub simulate_total :
    (input : TwoLegLoopInput) (o : Opportunity) (c : SimulationConfig)
    → detect_two_leg_loop input ≡ some o
    → c.gas_cost_wei + c.l1_data_fee_wei < o.expected_net_profit
    → (r : SimulationResult) × (simulate_two_leg_opportunity o c ≡ some r)
      × Costed o c r
      × (r.accepted ≡ true)
unfolding simulate_two_leg_opportunity simulation_result
simulate_total input o c h earns =
    let p = detect_two_leg_loop-Pays input o h in
    let gross = o.expected_output_amount - o.input_amount in
    let rest = gross - c.gas_cost_wei in
    let net = rest - c.l1_data_fee_wei in
    let out = p.output in
    let inn = p.amount in
    let e0 : (not (is_two_leg_loop o.kind) || not (length o.route == 2)) ≡ false =
      two_legs o.kind o.route p.first p.second p.kind p.route in
    let e1 = checked_sub-some o.expected_output_amount o.input_amount (omega (arith, out, inn)) in
    let e2 = checked_sub-some gross c.gas_cost_wei (omega (arith, out, inn)) in
    let e3 = checked_sub-some rest c.l1_data_fee_wei (omega (arith, out, inn)) in
    (
      simulation_result o c gross net,
      none_if-false _ _ e0 ∙ (bind_some _ _ e1 ∙ (bind_some _ _ e2 ∙ bind_some _ _ e3)),
      simulation_result-Costed o c gross rest net (omega (arith, out, inn))
          (omega (arith, out, inn)) (omega (arith, out, inn)),
      ltb-true net (omega (arith, out, inn)),
    )

-- What a request asks of the router: to borrow the input, swap it through the two pools back to the
-- settlement token, and to end with at least what the loop promised.
pub record Covers (input : TwoLegLoopInput) (o : Opportunity) (d : RiskDecision)
    (q : ExecutionRequest) : Type 0 where
  pub first : ExecutionStep
  pub second : ExecutionStep
  pub steps : q.steps ≡ first ∷ second ∷ []
  pub starts : first.token_in ≡ input.settlement_token
  pub chains : second.token_in ≡ first.token_out
  pub ends : second.token_out ≡ input.settlement_token
  pub borrows : q.flashloan_amount ≡ some input.amount_in
  pub asset : q.flashloan_asset ≡ some input.settlement_token
  pub repays : q.min_repay ≡ input.amount_in
  pub surplus : q.min_surplus ≡ d.min_surplus
  pub floor : second.min_amount_out ≡ o.expected_output_amount

execution_steps_two :
    (a b : RouteLeg) (x y : ℕ)
    → a.min_amount_out ≡ some x
    → b.min_amount_out ≡ some y
    → execution_steps (a ∷ b ∷ []) ≡ some (execution_step a x ∷ execution_step b y ∷ [])
unfolding execution_steps
execution_steps_two a b x y e f = ground (arith, e, f)

-- For a loop that was found and an accepted decision a request is always built: two steps that
-- chain from the settlement token back to it, the whole input borrowed and repaid, the decision's
-- surplus, and a last output floor that is the expected output.
pub build-Covers :
    (input : TwoLegLoopInput) (o : Opportunity) (d : RiskDecision)
    → detect_two_leg_loop input ≡ some o
    → d.accepted ≡ true
    → (q : ExecutionRequest) × (build_execution_request o d ≡ some q) × Covers input o d q
unfolding build_execution_request execution_step
build-Covers input o d h a =
    let p = detect_two_leg_loop-Pays input o h in
    let e : execution_steps o.route
        ≡ some (
            execution_step p.first p.middle
            ∷ execution_step p.second o.expected_output_amount
            ∷ []) =
      ap execution_steps p.route
      ∙ execution_steps_two p.first p.second p.middle o.expected_output_amount
          p.first_swap.min_amount_out p.second_swap.min_amount_out in
    (
      record {
        opportunity_id = o.id;
        steps =
            execution_step p.first p.middle ∷ execution_step p.second o.expected_output_amount ∷ [];
        min_repay = o.input_amount;
        min_surplus = d.min_surplus;
        flashloan_asset = some o.settlement_token;
        flashloan_amount = some o.input_amount;
        risk_hash = d.risk_hash;
      },
      none_if-false (not d.accepted) _ (rw a refl) ∙ bind_some (execution_steps o.route) _ e,
      record {
        first = execution_step p.first p.middle;
        second = execution_step p.second o.expected_output_amount;
        steps = refl;
        starts = p.starts;
        chains = p.chains;
        ends = p.ends;
        borrows = ap some p.amount;
        asset = ap some p.settlement;
        repays = p.amount;
        surplus = refl;
        floor = refl;
      },
    )

module _ (path_exists : Text → Bool) (sha256_hex : List ℕ → Text) where
  assess_surplus :
      (policy : RiskPolicy) (now : ℕ) (o : Opportunity) (r : SimulationResult) (st : RiskState)
      → (assess path_exists sha256_hex policy now o r st).0.min_surplus ≡ policy.min_net_profit_wei
  unfolding assess assess_stateful assess_daily deny decide
  assess_surplus policy now o r st = by_reason (stateless_reject path_exists policy o r)
    where
      by_reason :
          (w : Option Text)
          → (elim w as (λ x. RiskDecision × RiskState) [
            | some reason ↦ (deny path_exists sha256_hex policy o reason r, st)
            | none ↦ assess_stateful path_exists sha256_hex policy now o r st
          ]).0.min_surplus
            ≡ policy.min_net_profit_wei
      by_reason (some reason) = refl
      by_reason none = ground arith

  -- When a loop is found, simulated and accepted by the risk engine in any state, a request is
  -- built for it, and the output that its last step insists on covers the repayment, the minimum
  -- surplus and both costs of the simulation.
  pub accepted_loop-Covers :
      (input : TwoLegLoopInput) (o : Opportunity) (c : SimulationConfig) (r : SimulationResult)
      (policy : RiskPolicy) (now : ℕ) (st : RiskState)
      → detect_two_leg_loop input ≡ some o
      → simulate_two_leg_opportunity o c ≡ some r
      → (assess path_exists sha256_hex policy now o r st).0.accepted ≡ true
      → (q : ExecutionRequest) × (build_execution_request o
            (assess path_exists sha256_hex policy now o r st).0
          ≡ some q)
        × (k : Covers input o (assess path_exists sha256_hex policy now o r st).0 q) × (q.min_repay
              + q.min_surplus + c.gas_cost_wei + c.l1_data_fee_wei
            ≤ k.second.min_amount_out)
  accepted_loop-Covers input o c r policy now st h s a =
      let d = (assess path_exists sha256_hex policy now o r st).0 in
      let (q, e, k) = build-Covers input o d h a in
      let costs = simulate-Costed o c r s in
      let passes = ((assess_accepted_iff path_exists sha256_hex policy now o r st).0 a).0 in
      let p = detect_two_leg_loop-Pays input o h in
      (
        q,
        e,
        k,
        omega (
          arith,
          k.repays,
          k.surplus,
          assess_surplus policy now o r st,
          k.floor,
          costs.net,
          costs.gross,
          passes.profit,
          p.amount,
        ),
      )
