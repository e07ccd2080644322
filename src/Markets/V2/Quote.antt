-- ===== src/Markets/V2/Quote.antt =====
-- Validation, and `quote_exact_in` as a whole: what a quote that succeeds says, and when it fails.
use mathlib.Core.Path.{subst}
use base_execution_engine.Base.{
  >>=-eq-ok, arith, fail_if_ok, ok, ok-injective, refl, some, ℕ, ◌<◌, ◌==◌, ◌↔◌, ◌≡◌, ◌≢◌, ◌⊎◌,
}
use base_execution_engine.Base.Text.{eq_ignore_ascii_case_comm, text_eq_iff}
use base_execution_engine.Types.{Address}
use base_execution_engine.Markets.Error.{PoolQuote, insufficient_input, insufficient_liquidity}
use base_execution_engine.Markets.V2.{
  V2PoolState, validate, sides, swap_output, estimate_price_impact_bps, quote_exact_in, other_token,
}

-- What `validate` accepts.
pub record IsValid (p : V2PoolState) : Type 0 where
  pub distinct : p.token0 ≢ p.token1
  pub pos0 : 0 < p.reserve0
  pub pos1 : 0 < p.reserve1
  pub fee_lt : p.fee_bps < 10000

pub validate-IsValid_iff : (p : V2PoolState) → (validate p ≡ ok tt) ↔ IsValid p
unfolding validate
validate-IsValid_iff p = (
  λ h. ground (arith, text_eq_iff p.token0 p.token1),
  λ v. ground (arith, v.distinct, text_eq_iff p.token0 p.token1),
)

-- The sides of a quote are the pool's reserves in the order that the token sets.
pub record Oriented (p : V2PoolState) (token : Address) (ri ro : ℕ) (out : Address) : Type 0 where
  pub other : other_token p token ≡ some out
  pub reserves :
      ((ri ≡ p.reserve0) × (ro ≡ p.reserve1) × (out ≡ p.token1))
      ⊎ ((ri ≡ p.reserve1) × (ro ≡ p.reserve0) × (out ≡ p.token0))

pub sides-Oriented :
    (p : V2PoolState) (token : Address) (ri ro : ℕ) (out : Address)
    → sides p token ≡ ok (ri, ro, out)
    → Oriented p token ri ro out
unfolding sides other_token
sides-Oriented p token ri ro out h =
    ground
      (arith, eq_ignore_ascii_case_comm token p.token0, eq_ignore_ascii_case_comm token p.token1)

-- Everything that a caller may rely on in a quote.
pub record Sound (p : V2PoolState) (token : Address) (a : ℕ) (q : PoolQuote) : Type 0 where
  pub pool_eq : q.pool_address ≡ p.address
  pub in_eq : q.token_in ≡ token
  pub amount_eq : q.amount_in ≡ a
  pub fee_eq : q.fee_bps ≡ p.fee_bps
  pub input_pos : 0 < a
  pub output_pos : 0 < q.amount_out
  pub ri : ℕ
  pub ro : ℕ
  pub oriented : Oriented p token ri ro q.token_out
  pub swapped : swap_output ri ro p.fee_bps a ≡ ok q.amount_out

-- A quote of a V2 pool names the pool, the token and the amount that were asked and the pool's
-- other token, and its output is positive and is what the swap formula pays from the reserves of
-- that direction.
pub quote_exact_in-Sound :
    (p : V2PoolState) (token : Address) (a : ℕ) (q : PoolQuote)
    → quote_exact_in p token a ≡ ok q
    → Sound p token a q
unfolding quote_exact_in
quote_exact_in-Sound p token a q h =
    let (pos, h0) = fail_if_ok (a == 0) insufficient_input _ h in
    let ((ri, ro, out), es, h1) = >>=-eq-ok (sides p token) _ h0 in
    let (paid, ep, h2) = >>=-eq-ok (swap_output ri ro p.fee_bps a) _ h1 in
    let (some_out, h3) = fail_if_ok (paid == 0) insufficient_liquidity _ h2 in
    let (impact, ei, h4) = >>=-eq-ok (estimate_price_impact_bps ri ro a paid) _ h3 in
    finish ri ro out paid impact es ep (ground arith) (ground arith) (ok-injective h4)
  where
    finish :
        (ri ro : ℕ) (out : Address) (paid impact : ℕ)
        → sides p token ≡ ok (ri, ro, out)
        → swap_output ri ro p.fee_bps a ≡ ok paid
        → 0 < a
        → 0 < paid
        → record {
          pool_address = p.address;
          token_in = token;
          token_out = out;
          amount_in = a;
          amount_out = paid;
          fee_bps = p.fee_bps;
          price_impact_bps = impact;
        }
          ≡ q
        → Sound p token a q
    finish ri ro out paid impact es ep pa pp e = subst (Sound p token a) e (record {
      pool_eq = refl;
      in_eq = refl;
      amount_eq = refl;
      fee_eq = refl;
      input_pos = pa;
      output_pos = pp;
      ri = ri;
      ro = ro;
      oriented = sides-Oriented p token ri ro out es;
      swapped = ep;
    })
