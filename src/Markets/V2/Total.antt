-- ===== src/Markets/V2/Total.antt =====
-- When `quote_exact_in` succeeds: amounts small enough that no product overflows a `u128`.
use base_execution_engine.Base.Text.{eq_ignore_ascii_case, eq_ignore_ascii_case_comm}
use Prim.Native.Nat.{min, max}
use base_execution_engine.Base.{
  Bool-cases, arith, err, false, if◌then◌else◌, inl, inr, leb, ok, refl, true, ℕ, ◌*◌, ◌+◌, ◌-◌,
  ◌/◌, ◌<◌, ◌==◌, ◌||◌, ◌≡◌, ◌≤◌,
}
use base_execution_engine.Base.Words.{checked_sub, fit-some, u128_max, u32_max}
use base_execution_engine.Types.{Address}
use base_execution_engine.Markets.Error.{PoolQuote, insufficient_liquidity}
use base_execution_engine.Markets.V2.{
  V2PoolState, sides, swap_output, estimate_price_impact_bps, quote_exact_in, contains_token,
}
use base_execution_engine.Markets.V2.Quote.{IsValid}
use base_execution_engine.Markets.V2.Product.{swap_output-lt-reserve}

-- The formula of the amount out.
abbrev pub exact_output : ℕ → ℕ → ℕ → ℕ → ℕ
exact_output ri ro fee a = (a * (10000 - fee) * ro) / (ri * 10000 + a * (10000 - fee))

-- The quoted and the realized price, in basis points, of the estimate of the impact.
abbrev pub quoted_bps : ℕ → ℕ → ℕ
quoted_bps ri ro = (ro * 10000) / ri

abbrev pub realized_bps : ℕ → ℕ → ℕ
realized_bps out a = (out * 10000) / max a 1

-- The products that a quote forms fit 128 bits: two for the amount out, two for the price impact.
pub record Fits (ri ro fee a : ℕ) : Type 0 where
  pub numerator : a * (10000 - fee) * ro ≤ u128_max
  pub denominator : ri * 10000 + a * (10000 - fee) ≤ u128_max
  pub price : ro * 10000 ≤ u128_max
  pub impact : (quoted_bps ri ro - realized_bps (exact_output ri ro fee a) a) * 10000 ≤ u128_max

pub swap_output_total :
    (ri ro fee a : ℕ)
    → Fits ri ro fee a
    → 0 < ro
    → fee ≤ 10000
    → swap_output ri ro fee a ≡ ok (exact_output ri ro fee a)
unfolding swap_output checked_sub
swap_output_total ri ro fee a b po le = ground (
  arith,
  b,
  fit-some u128_max (a * (10000 - fee)) (omega (arith, b.denominator)),
  fit-some u128_max (a * (10000 - fee) * ro) b.numerator,
  fit-some u128_max (ri * 10000) (omega (arith, b.denominator)),
  fit-some u128_max (ri * 10000 + a * (10000 - fee)) b.denominator,
)

impact_total :
    (ri ro a out : ℕ)
    → ro * 10000 ≤ u128_max
    → (quoted_bps ri ro - realized_bps out a) * 10000 ≤ u128_max
    → out ≤ ro
    → (i : ℕ) × (estimate_price_impact_bps ri ro a out ≡ ok i)
unfolding estimate_price_impact_bps
impact_total ri ro a out price impact le =
    let q = quoted_bps ri ro in
    let r = realized_bps out a in
    (
      (if (q == 0) || leb q r then 0 else min ((q - r) * 10000 / q) u32_max),
      ground (
        arith,
        fit-some u128_max (ro * 10000) price,
        fit-some u128_max (out * 10000) (omega (arith, price, le)),
        fit-some u128_max ((q - r) * 10000) impact,
      ),
    )

-- The reserves on the two sides of a swap of a token.
abbrev pub reserve_in : V2PoolState → Address → ℕ
reserve_in p token = if eq_ignore_ascii_case token p.token0 then p.reserve0 else p.reserve1

abbrev pub reserve_out : V2PoolState → Address → ℕ
reserve_out p token = if eq_ignore_ascii_case token p.token0 then p.reserve1 else p.reserve0

neither_side :
    (p : V2PoolState) (token : Address)
    → eq_ignore_ascii_case token p.token0 ≡ false
    → eq_ignore_ascii_case token p.token1 ≡ false
    → contains_token p token ≡ true
    → ⊥
unfolding contains_token
neither_side p token e f h =
    ground
      (arith, eq_ignore_ascii_case_comm token p.token0, eq_ignore_ascii_case_comm token p.token1)

sides_total :
    (p : V2PoolState) (token : Address)
    → contains_token p token ≡ true
    → (out : Address) × (sides p token ≡ ok (reserve_in p token, reserve_out p token, out))
unfolding sides contains_token
sides_total p token h = elim (Bool-cases (eq_ignore_ascii_case token p.token0)) [
  | inl e ↦ (p.token1, rw e refl)
  | inr e ↦ elim (Bool-cases (eq_ignore_ascii_case token p.token1)) [
    | inl f ↦ (p.token0, rw (e, f) refl)
    | inr f ↦ absurd (neither_side p token e f h)
  ]
]

-- How a quote on a valid pool that holds the token ends.
pub data Answer (p : V2PoolState) (token : Address) (a : ℕ) (ri ro : ℕ) : Type 0 where
  too_small :
      exact_output ri ro p.fee_bps a ≡ 0
      → quote_exact_in p token a ≡ err insufficient_liquidity
      → Answer p token a ri ro
  quoted :
      (q : PoolQuote)
      → q.amount_out ≡ exact_output ri ro p.fee_bps a
      → quote_exact_in p token a ≡ ok q
      → Answer p token a ri ro

oriented-Answer :
    (p : V2PoolState) (token out : Address) (a ri ro : ℕ)
    → p.fee_bps < 10000
    → 0 < a
    → 0 < ri
    → 0 < ro
    → Fits ri ro p.fee_bps a
    → sides p token ≡ ok (ri, ro, out)
    → Answer p token a ri ro
unfolding quote_exact_in
oriented-Answer p token out a ri ro fee pa pi po b es =
    let paid = exact_output ri ro p.fee_bps a in
    let ep = swap_output_total ri ro p.fee_bps a b po (omega arith) in
    let lt = swap_output-lt-reserve ri ro p.fee_bps a paid ep pi po in
    let (impact, ei) = impact_total ri ro a paid b.price b.impact (omega arith) in
    elim (Bool-cases (paid == 0)) [
      | inl z ↦ too_small (ground arith) (ground (arith, es, ep))
      | inr z ↦
          quoted
            (record {
              pool_address = p.address;
              token_in = token;
              token_out = out;
              amount_in = a;
              amount_out = paid;
              fee_bps = p.fee_bps;
              price_impact_bps = impact;
            })
            refl (ground (arith, es, ep, ei))
    ]

reserves_pos :
    (p : V2PoolState) (token : Address)
    → IsValid p
    → (0 < reserve_in p token) × (0 < reserve_out p token)
reserves_pos p token v = elim (Bool-cases (eq_ignore_ascii_case token p.token0)) [
  | inl e ↦ rw e (v.pos0, v.pos1)
  | inr e ↦ rw e (v.pos1, v.pos0)
]

-- On a valid pool that holds the token, a positive amount for which the products that the quote
-- forms in the direction of the token fit 128 bits is quoted at the exact formula, or refused as
-- too small because the formula gives 0; no other error is possible.
pub quote_exact_in_total :
    (p : V2PoolState) (token : Address) (a : ℕ)
    → IsValid p
    → contains_token p token ≡ true
    → 0 < a
    → Fits (reserve_in p token) (reserve_out p token) p.fee_bps a
    → Answer p token a (reserve_in p token) (reserve_out p token)
quote_exact_in_total p token a v h pa b =
    let (out, es) = sides_total p token h in
    let (pi, po) = reserves_pos p token v in
    oriented-Answer p token out a (reserve_in p token) (reserve_out p token) v.fee_lt pa pi po b es
