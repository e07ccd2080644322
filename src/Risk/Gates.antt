-- ===== src/Risk/Gates.antt =====
-- The stateless gates, and the whole of `assess`: exactly when an opportunity is accepted.
use base_execution_engine.Base.Text.{
  Text, is_empty, show_uint, text, text_eq, text_eq_iff, text_leb, to_ascii_lowercase,
}
use base_execution_engine.Base.Words.{saturating_add, saturating_mul, u128_max}
use Prim.Native.Nat.{min}
use mathlib.Core.Path.{subst}
use base_execution_engine.Base.{
  All, Bool, Bool-cases, List, Option, [], arith, false, inl, inr, leb, ltb, none, not, refl, some,
  suc, sym, true, zero, ℕ, ◌&&◌, ◌*◌, ◌++◌, ◌+◌, ◌-◌, ◌/◌, ◌<◌, ◌↔◌, ◌∙◌, ◌∷◌, ◌≡◌, ◌≤◌, ◌⊎◌,
}
use base_execution_engine.Base.Sort.{sort_by, sort_by-All, dedup_by-All, All-sort_by, All-dedup_by}
use base_execution_engine.Types.{Opportunity, RiskDecision, RouteLeg, SimulationResult}
use base_execution_engine.Risk.{
  RiskPolicy, RiskState, leg_tokens, opportunity_tokens, contains, ◌or_else◌, reject_if,
  kill_switch_gate, bps_gate, trade_gate, token_gate, tokens_gate, slippage_gate, stateless_reject,
  block_bucket, block_used, exceeds, is_tripped, prune_daily_entries, decide, deny, assess_daily,
  assess_stateful, assess,
}

-- A token that the policy lets through.
pub record Allowed (policy : RiskPolicy) (token : Text) : Type 0 where
  pub not_denied : contains policy.token_denylist (to_ascii_lowercase token) ≡ false
  pub listed :
      (is_empty policy.token_allowlist ≡ true)
      ⊎ (contains policy.token_allowlist (to_ascii_lowercase token) ≡ true)

-- A cap on a number, where one is set.
abbrev pub Capped : Option ℕ → ℕ → Type 0
Capped none n = Unit
Capped (some cap) n = n ≤ cap

-- The kill-switch file is not there.
abbrev pub SwitchOff : (Text → Bool) → Option Text → Type 0
SwitchOff path_exists none = Unit
SwitchOff path_exists (some path) = path_exists path ≡ false

-- What the stateless gates ask of an opportunity. The products saturate as the code's do.
pub record Passes (path_exists : Text → Bool) (policy : RiskPolicy) (opp : Opportunity)
    (sim : SimulationResult) : Type 0 where
  pub switch_off : SwitchOff path_exists policy.kill_switch_path
  pub simulated : sim.accepted ≡ true
  pub profit : policy.min_net_profit_wei ≤ sim.expected_net_profit
  pub profit_bps :
      0 < policy.min_profit_bps
      → 0 < opp.input_amount
      → min (opp.input_amount * policy.min_profit_bps) u128_max / 10000 ≤ sim.expected_net_profit
  pub trade : Capped policy.max_trade_notional_wei opp.input_amount
  pub settlement : Allowed policy opp.settlement_token
  pub tokens :
      All (λ (leg : RouteLeg). Allowed policy leg.token_in × Allowed policy leg.token_out) opp.route
  pub slippage :
      policy.max_slippage_bps < 10000
      → opp.input_amount
        ≤ opp.expected_output_amount
          + min (opp.input_amount * policy.max_slippage_bps) u128_max / 10000

or_else_none_iff : (o p : Option Text) → ((o or_else p) ≡ none) ↔ ((o ≡ none) × (p ≡ none))
or_else_none_iff none p = (λ h. (refl, h), λ h. h.1)
or_else_none_iff (some r) p = (λ h. cc, λ h. cc)

reject_if-none_iff : (b : Bool) (r : Text) → (reject_if b r ≡ none) ↔ (b ≡ false)
reject_if-none_iff true r = (λ h. cc, λ h. cc)
reject_if-none_iff false r = (λ h. refl, λ h. refl)

token_gate_iff : (policy : RiskPolicy) (t : Text) → (token_gate policy t ≡ none) ↔ Allowed policy t
unfolding token_gate
token_gate_iff policy t = (λ h. ground arith, λ a. ground arith)

tokens_gate_iff :
    (policy : RiskPolicy) (l : List Text) → (tokens_gate policy l ≡ none) ↔ All (Allowed policy) l
unfolding tokens_gate
tokens_gate_iff policy [] = (λ h. tt, λ h. refl)
tokens_gate_iff policy (t ∷ l) =
    let k = or_else_none_iff (token_gate policy t) (tokens_gate policy l) in
    let g = token_gate_iff policy t in
    let r = tokens_gate_iff policy l in
    (λ h. (g.0 (k.0 h).0, r.0 (k.0 h).1), λ a. k.1 (g.1 a.0, r.1 a.1))

legs_iff :
    (policy : RiskPolicy) (route : List RouteLeg)
    → All (Allowed policy) (leg_tokens route)
      ↔ All (λ (leg : RouteLeg). Allowed policy leg.token_in × Allowed policy leg.token_out) route
unfolding leg_tokens
legs_iff policy [] = (λ h. tt, λ h. tt)
legs_iff policy (leg ∷ route) =
    let r = legs_iff policy route in
    (λ h. ((h.0, h.1.0), r.0 h.1.1), λ h. (h.0.0, (h.0.1, r.1 h.1)))

-- Sorting and removing repeats lose no token and add none.
opportunity_tokens_iff :
    (policy : RiskPolicy) (opp : Opportunity)
    → All (Allowed policy) (opportunity_tokens opp)
      ↔ All (Allowed policy) (opp.settlement_token ∷ leg_tokens opp.route)
unfolding opportunity_tokens
opportunity_tokens_iff policy opp =
    let l = opp.settlement_token ∷ leg_tokens opp.route in
    let move = λ (a b : Text) (e : text_eq a b ≡ true) (p : Allowed policy b).
      subst (Allowed policy) (sym ((text_eq_iff a b).0 e)) p in
    (
      λ h.
          All-sort_by (Allowed policy) text_leb l
            (All-dedup_by (Allowed policy) text_eq move (sort_by text_leb l) h),
      λ h.
          dedup_by-All (Allowed policy) text_eq (sort_by text_leb l)
            (sort_by-All (Allowed policy) text_leb l h),
    )

kill_switch_gate_iff :
    (path_exists : Text → Bool) (policy : RiskPolicy)
    → (kill_switch_gate path_exists policy ≡ none) ↔ SwitchOff path_exists policy.kill_switch_path
unfolding kill_switch_gate
kill_switch_gate_iff path_exists policy = by_path policy.kill_switch_path
  where
    by_path :
        (o : Option Text)
        → (elim o [
          | none ↦ none
          | some path ↦
              reject_if (path_exists path) (text "kill switch file is present at " ++ path)
        ]
            ≡ none)
          ↔ SwitchOff path_exists o
    by_path none = (λ h. tt, λ h. refl)
    by_path (some path) = reject_if-none_iff (path_exists path) _

trade_gate_iff :
    (policy : RiskPolicy) (opp : Opportunity)
    → (trade_gate policy opp ≡ none) ↔ Capped policy.max_trade_notional_wei opp.input_amount
unfolding trade_gate
trade_gate_iff policy opp = by_cap policy.max_trade_notional_wei
  where
    by_cap :
        (o : Option ℕ)
        → (elim o [
          | none ↦ none
          | some cap ↦ reject_if (ltb cap opp.input_amount) (
              text "trade notional "
              ++ (show_uint opp.input_amount ++ (text " exceeds per-trade cap " ++ show_uint cap)))
        ]
            ≡ none)
          ↔ Capped o opp.input_amount
    by_cap none = (λ h. tt, λ h. refl)
    by_cap (some cap) = (λ h. ground arith, λ h. ground arith)

-- A test of two guards and a comparison fails exactly when the guards give the order.
guarded_iff :
    (p q n m : ℕ) (r : Text) (a b : Bool)
    → (a ≡ true → p < q)
    → (p < q → a ≡ true)
    → (reject_if (a && b && ltb n m) r ≡ none) ↔ (p < q → b ≡ true → m ≤ n)
guarded_iff p q n m r true true f g =
    (λ h. λ u v. ground arith, λ h. let k = h (f refl) refl in ground arith)
guarded_iff p q n m r true false f g = (λ h. λ u v. cc, λ h. refl)
guarded_iff p q n m r false b f g = (λ h. λ u v. (let e = g u in cc), λ h. refl)

bps_gate_iff :
    (policy : RiskPolicy) (opp : Opportunity) (sim : SimulationResult)
    → (bps_gate policy opp sim ≡ none) ↔ (
        0 < policy.min_profit_bps
        → 0 < opp.input_amount
        → min (opp.input_amount * policy.min_profit_bps) u128_max / 10000 ≤ sim.expected_net_profit)
unfolding bps_gate saturating_mul
bps_gate_iff policy opp sim =
    let k =
      guarded_iff 0 policy.min_profit_bps sim.expected_net_profit _ _ (ltb 0 policy.min_profit_bps)
        (ltb 0 opp.input_amount) (λ e. ground arith) (λ e. ground arith) in
    (λ h. λ u v. k.0 h u (ground arith), λ h. k.1 (λ u v. h u (ground arith)))

slippage_gate_iff :
    (policy : RiskPolicy) (opp : Opportunity)
    → (slippage_gate policy opp ≡ none) ↔ (
        policy.max_slippage_bps < 10000
        → opp.input_amount
          ≤ opp.expected_output_amount
            + min (opp.input_amount * policy.max_slippage_bps) u128_max / 10000)
unfolding slippage_gate saturating_mul
slippage_gate_iff policy opp =
    let k =
      guarded_iff policy.max_slippage_bps 10000 _ (opp.input_amount - opp.expected_output_amount) _
        (ltb policy.max_slippage_bps 10000) (ltb opp.expected_output_amount opp.input_amount)
        (λ e. ground arith) (λ e. ground arith) in
    (
      λ h. λ u. by_order _ opp.input_amount opp.expected_output_amount (k.0 h u),
      λ h. k.1 (λ u v. let b = h u in ground arith),
    )
  where
    by_order : (bound i e : ℕ) → (ltb e i ≡ true → i - e ≤ bound) → i ≤ e + bound
    by_order bound i e f = elim (Bool-cases (ltb e i)) [
      | inl t ↦ let b = f t in omega arith
      | inr t ↦ ground arith
    ]

-- The stateless part of `assess` lets an opportunity through exactly when it passes every gate.
pub stateless_reject_iff :
    (path_exists : Text → Bool) (policy : RiskPolicy) (opp : Opportunity) (sim : SimulationResult)
    → (stateless_reject path_exists policy opp sim ≡ none) ↔ Passes path_exists policy opp sim
unfolding stateless_reject
stateless_reject_iff path_exists policy opp sim =
    let c1 = or_else_none_iff (kill_switch_gate path_exists policy) _ in
    let c2 = or_else_none_iff (reject_if (not sim.accepted) _) _ in
    let c3 =
      or_else_none_iff (reject_if (ltb sim.expected_net_profit policy.min_net_profit_wei) _) _ in
    let c4 = or_else_none_iff (bps_gate policy opp sim) _ in
    let c5 = or_else_none_iff (trade_gate policy opp) _ in
    let c6 =
      or_else_none_iff (tokens_gate policy (opportunity_tokens opp)) (slippage_gate policy opp) in
    let k = kill_switch_gate_iff path_exists policy in
    let b = bps_gate_iff policy opp sim in
    let t = trade_gate_iff policy opp in
    let s = slippage_gate_iff policy opp in
    let g = tokens_gate_iff policy (opportunity_tokens opp) in
    let o = opportunity_tokens_iff policy opp in
    let l = legs_iff policy opp.route in
    (
      λ h.
          let h1 = c1.0 h in
          let h2 = c2.0 h1.1 in
          let h3 = c3.0 h2.1 in
          let h4 = c4.0 h3.1 in
          let h5 = c5.0 h4.1 in
          let h6 = c6.0 h5.1 in
          let a = o.0 (g.0 h6.0) in
          record {
            switch_off = k.0 h1.0;
            simulated = (let e = h2.0 in ground arith);
            profit = (let e = h3.0 in ground arith);
            profit_bps = b.0 h4.0;
            trade = t.0 h5.0;
            settlement = a.0;
            tokens = l.0 a.1;
            slippage = s.0 h6.1;
          },
      λ p.
          let e2 : not sim.accepted ≡ false = (let e = p.simulated in ground arith) in
          let e3 : ltb sim.expected_net_profit policy.min_net_profit_wei ≡ false =
            (let e = p.profit in ground arith) in
          c1.1 (
            k.1 p.switch_off,
            c2.1 (
              (reject_if-none_iff _ _).1 e2,
              c3.1 (
                (reject_if-none_iff _ _).1 e3,
                c4.1 (
                  b.1 p.profit_bps,
                  c5.1 (t.1 p.trade, c6.1 (g.1 (o.1 (p.settlement, l.1 p.tokens)), s.1 p.slippage)),
                ),
              ),
            ),
          ),
    )

-- The stateful part of an acceptance, at the state before the call and the clock `now`.
pub record Admits (policy : RiskPolicy) (now : ℕ) (opp : Opportunity) (st : RiskState)
    : Type 0 where
  pub not_killed : st.operator_killed ≡ false
  pub not_tripped :
      0 < policy.max_consecutive_reverts → st.consecutive_reverts < policy.max_consecutive_reverts
  pub block_cap :
      Capped policy.max_per_block_notional_wei
        (min (block_used st (block_bucket opp.block_context) + opp.input_amount) u128_max)
  pub daily_cap :
      Capped policy.max_daily_notional_wei
        (min ((prune_daily_entries st now).daily_total + opp.input_amount) u128_max)

exceeds_iff :
    (cap : Option ℕ) (used amount : ℕ)
    → (exceeds cap used amount ≡ false) ↔ Capped cap (min (used + amount) u128_max)
unfolding saturating_add
exceeds_iff none used amount = (λ h. tt, λ h. refl)
exceeds_iff (some cap) used amount = (λ h. ground arith, λ h. ground arith)

-- The four stateful tests together.
stateful_iff :
    (policy : RiskPolicy) (now : ℕ) (opp : Opportunity) (st : RiskState)
    → ((not st.operator_killed
          && not (is_tripped policy st)
          && not (
              exceeds policy.max_per_block_notional_wei
                (block_used st (block_bucket opp.block_context))
                opp.input_amount)
          && not (
              exceeds policy.max_daily_notional_wei
                (prune_daily_entries st now).daily_total
                opp.input_amount))
        ≡ true)
      ↔ Admits policy now opp st
stateful_iff policy now opp st =
    let b =
      exceeds_iff policy.max_per_block_notional_wei (block_used st (block_bucket opp.block_context))
        opp.input_amount in
    let d =
      exceeds_iff policy.max_daily_notional_wei (prune_daily_entries st now).daily_total
        opp.input_amount in
    (
      λ h. record {
        not_killed = ground arith;
        not_tripped = (λ u. ground arith);
        block_cap = b.0 (ground arith);
        daily_cap = d.0 (ground arith);
      },
      λ a.
          let e1 = a.not_killed in
          let e2 : is_tripped policy st ≡ false =
            by_guard policy.max_consecutive_reverts st.consecutive_reverts a.not_tripped in
          let e3 = b.1 a.block_cap in let e4 = d.1 a.daily_cap in by_tests _ _ _ _ e1 e2 e3 e4,
    )
  where
    by_tests :
        (a b c d : Bool)
        → a ≡ false
        → b ≡ false
        → c ≡ false
        → d ≡ false
        → (not a && not b && not c && not d) ≡ true
    by_tests a b c d e1 e2 e3 e4 = ground arith

    by_guard : (m c : ℕ) → (0 < m → c < m) → (leb m c && ltb 0 m) ≡ false
    by_guard zero c f = ground arith
    by_guard (suc m) c f = let k = f (omega arith) in ground arith

module _ (path_exists : Text → Bool) (sha256_hex : List ℕ → Text) where
  assess_daily_accepted :
      (policy : RiskPolicy) (now : ℕ) (opp : Opportunity) (sim : SimulationResult) (st : RiskState)
      → (assess_daily path_exists sha256_hex policy now opp sim st).0.accepted
        ≡ not (exceeds policy.max_daily_notional_wei st.daily_total opp.input_amount)
  unfolding assess_daily decide deny
  assess_daily_accepted policy now opp sim st = ground arith

  assess_stateful_accepted :
      (policy : RiskPolicy) (now : ℕ) (opp : Opportunity) (sim : SimulationResult) (st : RiskState)
      → (assess_stateful path_exists sha256_hex policy now opp sim st).0.accepted ≡ (
          not st.operator_killed
          && not (is_tripped policy st)
          && not (
              exceeds policy.max_per_block_notional_wei
                (block_used st (block_bucket opp.block_context))
                opp.input_amount)
          && not (
              exceeds policy.max_daily_notional_wei
                (prune_daily_entries st now).daily_total
                opp.input_amount))
  unfolding assess_stateful decide deny
  assess_stateful_accepted policy now opp sim st =
      ground (arith, assess_daily_accepted policy now opp sim (prune_daily_entries st now))

  assess_accepted :
      (policy : RiskPolicy) (now : ℕ) (opp : Opportunity) (sim : SimulationResult) (st : RiskState)
      → ((assess path_exists sha256_hex policy now opp sim st).0.accepted ≡ true) ↔ (
          (stateless_reject path_exists policy opp sim ≡ none)
          × ((assess_stateful path_exists sha256_hex policy now opp sim st).0.accepted ≡ true))
  unfolding assess deny decide
  assess_accepted policy now opp sim st = by_reason (stateless_reject path_exists policy opp sim)
    where
      by_reason :
          (o : Option Text)
          → ((elim o as (λ p. RiskDecision × RiskState) [
            | some reason ↦ (deny path_exists sha256_hex policy opp reason sim, st)
            | none ↦ assess_stateful path_exists sha256_hex policy now opp sim st
          ]).0.accepted
              ≡ true)
            ↔ ((o ≡ none)
                × ((assess_stateful path_exists sha256_hex policy now opp sim st).0.accepted
                    ≡ true))
      by_reason none = (λ h. (refl, h), λ h. h.1)
      by_reason (some reason) = (λ h. cc, λ h. cc)

  -- In any state, an opportunity is accepted exactly when it passes every stateless gate
  -- (kill-switch file, simulation, profit floors, trade cap, token lists for the settlement token
  -- and each leg, slippage) and the state admits it (not killed, breaker not tripped, block and
  -- daily caps).
  pub assess_accepted_iff :
      (policy : RiskPolicy) (now : ℕ) (opp : Opportunity) (sim : SimulationResult) (st : RiskState)
      → ((assess path_exists sha256_hex policy now opp sim st).0.accepted ≡ true)
        ↔ (Passes path_exists policy opp sim × Admits policy now opp st)
  assess_accepted_iff policy now opp sim st =
      let s = stateless_reject_iff path_exists policy opp sim in
      let c = assess_accepted policy now opp sim st in
      let a = assess_stateful_accepted policy now opp sim st in
      let i = stateful_iff policy now opp st in
      (λ h. let k = c.0 h in (s.0 k.0, i.0 (sym a ∙ k.1)), λ p. c.1 (s.1 p.0, a ∙ i.1 p.1))
