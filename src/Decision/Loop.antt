-- ===== src/Decision/Loop.antt =====
-- One two-leg loop: what an opportunity that `detect_two_leg_loop` finds promises.
use base_execution_engine.Base.Text.{text_eq, text_eq_iff}
use base_execution_engine.Base.Words.{checked_sub, checked_sub-eq-some}
use base_execution_engine.Base.{
  >>=?-eq-some, Bool, Option, [], ap, arith, false, not, ok, refl, some, sym, to_option,
  to_option-eq-some, true, ℕ, ◌+◌, ◌<◌, ◌==◌, ◌∷◌, ◌≡◌,
}
use base_execution_engine.Types.{Address, Opportunity, RouteLeg, two_leg_loop}
use mathlib.Core.Path.{subst}
use base_execution_engine.Markets.V2
use base_execution_engine.Markets.V2.{V2PoolState, swap_output, other_token}
use base_execution_engine.Markets.Error.{PoolQuote}
use base_execution_engine.Markets.V2.Quote.{Oriented, Sound, quote_exact_in-Sound}
use base_execution_engine.Decision.{
  TwoLegLoopInput, loop_id, loop_leg, loop_opportunity, none_if, detect_two_leg_loop,
}

pub none_if-some {ℓ} :
    {A : Type ℓ} (c : Bool) (o : Option A) {a : A}
    → none_if c o ≡ some a
    → (c ≡ false) × (o ≡ some a)
none_if-some true o h = cc
none_if-some false o h = (refl, h)

-- A leg that swaps `paid` of a token for `got` in a pool at the pool's own price.
pub record Swaps (pool : V2PoolState) (leg : RouteLeg) (paid got : ℕ) : Type 0 where
  pub target : leg.target ≡ pool.address
  pub out : other_token pool leg.token_in ≡ some leg.token_out
  pub amount_in : leg.amount_in ≡ some paid
  pub min_amount_out : leg.min_amount_out ≡ some got
  pub ri : ℕ
  pub ro : ℕ
  pub oriented : Oriented pool leg.token_in ri ro leg.token_out
  pub price : swap_output ri ro pool.fee_bps paid ≡ ok got

-- A loop that pays: it starts and ends in the settlement token, the second leg takes all that the
-- first gives, and the output is the input with a profit.
pub record Pays (input : TwoLegLoopInput) (o : Opportunity) : Type 0 where
  pub id : o.id ≡ loop_id input
  pub kind : o.kind ≡ two_leg_loop
  pub settlement : o.settlement_token ≡ input.settlement_token
  pub amount : o.input_amount ≡ input.amount_in
  pub positive : 0 < input.amount_in
  pub gains : 0 < o.expected_net_profit
  pub output : o.expected_output_amount ≡ input.amount_in + o.expected_net_profit
  pub first : RouteLeg
  pub second : RouteLeg
  pub route : o.route ≡ first ∷ second ∷ []
  pub middle : ℕ
  pub starts : first.token_in ≡ input.settlement_token
  pub chains : second.token_in ≡ first.token_out
  pub ends : second.token_out ≡ input.settlement_token
  pub first_swap : Swaps input.first_pool first input.amount_in middle
  pub second_swap : Swaps input.second_pool second middle o.expected_output_amount

loop_leg-Swaps :
    (pool : V2PoolState) (token : Address) (a : ℕ) (q : PoolQuote)
    → Sound pool token a q
    → Swaps pool (loop_leg pool token q) a q.amount_out
unfolding loop_leg
loop_leg-Swaps pool token a q s = record {
  target = refl;
  out = s.oriented.other;
  amount_in = ap some s.amount_eq;
  min_amount_out = refl;
  ri = s.ri;
  ro = s.ro;
  oriented = s.oriented;
  price = s.swapped;
}

loop_opportunity-Pays :
    (input : TwoLegLoopInput) (q1 q2 : PoolQuote) (profit : ℕ)
    → 0 < input.amount_in
    → 0 < profit
    → profit + input.amount_in ≡ q2.amount_out
    → q2.token_out ≡ input.settlement_token
    → Sound input.first_pool input.settlement_token input.amount_in q1
    → Sound input.second_pool q1.token_out q1.amount_out q2
    → Pays input (loop_opportunity input q1 q2 profit)
unfolding loop_opportunity loop_leg
loop_opportunity-Pays input q1 q2 profit positive gains e back s1 s2 = record {
  id = refl;
  kind = refl;
  settlement = refl;
  amount = refl;
  positive = positive;
  gains = gains;
  output = omega arith;
  first = loop_leg input.first_pool q1.token_in q1;
  second = loop_leg input.second_pool q1.token_out q2;
  route = refl;
  middle = q1.amount_out;
  starts = s1.in_eq;
  chains = refl;
  ends = back;
  first_swap =
      subst
        (λ (t : Address).
          Swaps input.first_pool (loop_leg input.first_pool t q1) input.amount_in q1.amount_out)
        (sym s1.in_eq)
        (loop_leg-Swaps input.first_pool input.settlement_token input.amount_in q1 s1);
  second_swap = loop_leg-Swaps input.second_pool q1.token_out q1.amount_out q2 s2;
}

-- Whatever the pools, an opportunity that is found starts and ends in the settlement token; each
-- leg is priced by its pool's own swap formula, the second takes what the first gives, and the
-- expected output is the input and a positive profit.
pub detect_two_leg_loop-Pays :
    (input : TwoLegLoopInput) (o : Opportunity) → detect_two_leg_loop input ≡ some o → Pays input o
unfolding detect_two_leg_loop
detect_two_leg_loop-Pays input o h =
    let (positive, h0) = none_if-some (input.amount_in == 0) _ h in
    let (q1, e1, h1) =
      >>=?-eq-some
        (to_option (V2.quote_exact_in input.first_pool input.settlement_token input.amount_in)) _
        h0 in
    let (q2, e2, h2) =
      >>=?-eq-some (to_option (V2.quote_exact_in input.second_pool q1.token_out q1.amount_out)) _
        h1 in
    let (back, h3) = none_if-some (not (text_eq q2.token_out input.settlement_token)) _ h2 in
    let (profit, e3, h4) = >>=?-eq-some (checked_sub q2.amount_out input.amount_in) _ h3 in
    let (gains, h5) = none_if-some (profit == 0) _ h4 in
    let found : loop_opportunity input q1 q2 profit ≡ o = (let e = h5 in cc) in
    subst (Pays input) found (
      loop_opportunity-Pays input q1 q2 profit (ground arith) (ground arith)
        (checked_sub-eq-some q2.amount_out input.amount_in e3)
        ((text_eq_iff q2.token_out input.settlement_token).0 (ground arith))
        (quote_exact_in-Sound input.first_pool input.settlement_token input.amount_in q1 (
          to_option-eq-some
            (V2.quote_exact_in input.first_pool input.settlement_token input.amount_in) e1))
        (quote_exact_in-Sound input.second_pool q1.token_out q1.amount_out q2
          (to_option-eq-some (V2.quote_exact_in input.second_pool q1.token_out q1.amount_out) e2)))
