-- ===== src/Markets/V3/Quote.antt =====
-- Validation of a V3 pool, and what its quote says when it succeeds.
use base_execution_engine.Base.Text.{eq_ignore_ascii_case, eq_ignore_ascii_case_comm, text_eq_iff}
use base_execution_engine.Base.Words.{u128_max}
use mathlib.Core.Path.{subst}
use base_execution_engine.Base.{
  >>=-eq-ok, Bool, arith, fail_if_ok, false, fit_ok, if◌then◌else◌, ltb, ok, ok-injective, refl,
  some, true, ℕ, ◌%◌, ◌*◌, ◌+◌, ◌-◌, ◌/◌, ◌<◌, ◌==◌, ◌^◌, ◌↔◌, ◌≡◌, ◌≢◌, ◌≤◌,
}
use base_execution_engine.Base.Int.{is_nonpositive}
use base_execution_engine.Types.{Address}
use base_execution_engine.Markets.Error.{
  MarketError, PoolQuote, insufficient_input, insufficient_liquidity, arithmetic_overflow,
}
use base_execution_engine.Markets.V3.{
  V3PoolState, q96, min_sqrt_price, max_sqrt_price, validate, other_token, direction, less_fee,
  next_sqrt_price, output_amount, price_impact_bps, u256_to_u128, quote_exact_in,
}
use base_execution_engine.Markets.V3.Bounds.{output_amount_down, output_amount_up}

-- What `validate` accepts.
pub record IsValid (p : V3PoolState) : Type 0 where
  pub distinct : p.token0 ≢ p.token1
  pub fee_lt : p.fee_pips < 1000000
  pub spacing_pos : is_nonpositive p.tick_spacing ≡ false
  pub price_ge : min_sqrt_price ≤ p.sqrt_price_x96
  pub price_le : p.sqrt_price_x96 ≤ max_sqrt_price
  pub liquid : 0 < p.liquidity

pub validate-IsValid_iff : (p : V3PoolState) → (validate p ≡ ok tt) ↔ IsValid p
unfolding validate
validate-IsValid_iff p = (
  λ h. ground (arith, text_eq_iff p.token0 p.token1),
  λ v. ground (arith, v.distinct, text_eq_iff p.token0 p.token1),
)

-- The exact amount out of the in-range curve, for an input `a` after the fee, bounds `out`. The
-- first argument is whether token0 is sold.
abbrev pub WithinCurve : Bool → ℕ → ℕ → ℕ → ℕ → Type 0
WithinCurve true l p a out = out * q96 * (l * q96 + a * p) ≤ l * a * p * p
WithinCurve false l p a out = out * p * (p * l + a * q96) ≤ l * q96 * (a * q96)

pub output_amount-WithinCurve :
    (z : Bool) (l p a next out : ℕ)
    → 0 < p
    → next_sqrt_price z l p a ≡ ok next
    → output_amount z l p next ≡ ok out
    → WithinCurve z l p a out
output_amount-WithinCurve true l p a next out pp h k = output_amount_down l p a next out h k
output_amount-WithinCurve false l p a next out pp h k = output_amount_up l p a next out pp h k

pub other_token-direction :
    (p : V3PoolState) (token : Address) (z : Bool)
    → direction p token ≡ ok z
    → other_token p token ≡ some (if z then p.token1 else p.token0)
unfolding direction other_token
other_token-direction p token z h =
    ground
      (arith, eq_ignore_ascii_case_comm token p.token0, eq_ignore_ascii_case_comm token p.token1)

u256_to_u128_ok : (w out : ℕ) → u256_to_u128 w ≡ ok out → (out ≡ w) × (out ≤ u128_max)
unfolding u256_to_u128
u256_to_u128_ok w out h = ground arith

-- The direction that a token sets: token0 is sold exactly when it is the token that goes in.
direction_eq :
    (p : V3PoolState) (token : Address) (z : Bool)
    → direction p token ≡ ok z
    → eq_ignore_ascii_case token p.token0 ≡ z
unfolding direction
direction_eq p token z h = ground arith

less_fee_eq :
    (fee a b : ℕ) → fee ≤ 1000000 → less_fee fee a ≡ ok b → a * (1000000 - fee) / 1000000 ≡ b
unfolding less_fee
less_fee_eq fee a b le h =
    let m : (1000000 + 2 ^ 128 - fee) % 2 ^ 128 ≡ 1000000 - fee = omega arith in
    let (fits, h0) =
      fit_ok u128_max (a * ((1000000 + 2 ^ 128 - fee) % 2 ^ 128)) arithmetic_overflow _ h in
    rw (← m) (ok-injective {E = MarketError} h0)

-- The amount that is swapped: what goes in, less the fee.
abbrev pub net_amount : V3PoolState → ℕ → ℕ
net_amount p amount_in = amount_in * (1000000 - p.fee_pips) / 1000000

-- Everything that a caller may rely on in a quote.
pub record InRange (p : V3PoolState) (token : Address) (amount_in : ℕ) (q : PoolQuote)
    : Type 0 where
  pub pool_eq : q.pool_address ≡ p.address
  pub in_eq : q.token_in ≡ token
  pub out_eq : other_token p token ≡ some q.token_out
  pub amount_eq : q.amount_in ≡ amount_in
  pub output_pos : 0 < q.amount_out
  pub output_le : q.amount_out ≤ u128_max
  pub impact_le : q.price_impact_bps ≤ 500
  pub within :
      WithinCurve
        (eq_ignore_ascii_case token p.token0)
        p.liquidity
        p.sqrt_price_x96
        (net_amount p amount_in)
        q.amount_out

-- A quote on a valid V3 pool names the pool, the token and the amount that were asked and the
-- pool's other token; its output is positive, fits 128 bits and is at most what the exact curve
-- pays, in the direction that the token sets, for the amount less the fee; and its price impact is
-- at most 500 basis points.
pub quote_exact_in-InRange :
    (p : V3PoolState) (token : Address) (a : ℕ) (q : PoolQuote)
    → IsValid p
    → quote_exact_in p token a ≡ ok q
    → InRange p token a q
unfolding quote_exact_in
quote_exact_in-InRange p token a q v h =
    let (given, h0) = fail_if_ok (a == 0) insufficient_input _ h in
    let (liquid, h1) = fail_if_ok (p.liquidity == 0) insufficient_liquidity _ h0 in
    let (z, ez, h2) = >>=-eq-ok (direction p token) _ h1 in
    let (b, eb, h3) = >>=-eq-ok (less_fee p.fee_pips a) _ h2 in
    let (nz, h4) = fail_if_ok (b == 0) insufficient_input _ h3 in
    let (next, en, h5) = >>=-eq-ok (next_sqrt_price z p.liquidity p.sqrt_price_x96 b) _ h4 in
    let (small, h6) =
      fail_if_ok (ltb 500 (price_impact_bps p.sqrt_price_x96 next z)) insufficient_liquidity _ h5 in
    let (w, ew, h7) = >>=-eq-ok (output_amount z p.liquidity p.sqrt_price_x96 next) _ h6 in
    let (out, eo, h8) = >>=-eq-ok (u256_to_u128 w) _ h7 in
    let (paid, h9) = fail_if_ok (out == 0) insufficient_liquidity _ h8 in
    let narrow = u256_to_u128_ok w out eo in
    let curve =
      output_amount-WithinCurve z p.liquidity p.sqrt_price_x96 b next w (omega (arith, v.price_ge))
        en ew in
    subst (InRange p token a) (ok-injective h9) (record {
      pool_eq = refl;
      in_eq = refl;
      out_eq = other_token-direction p token z ez;
      amount_eq = refl;
      output_pos = ground arith;
      output_le = narrow.1;
      impact_le = ground arith;
      within =
          rw (direction_eq p token z ez) rw
            (less_fee_eq p.fee_pips a b (omega (arith, v.fee_lt)) eb) rw narrow.0 curve;
    })
