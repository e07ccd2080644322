-- ===== src/Markets/V3/Bounds.antt =====
-- The in-range step never pays more than the exact concentrated-liquidity curve.
use native.Mathlib.Nat.{
  mul-le-mul_left, mul-le-mul_right, div-mul-le_self, le_of_mul-le-mul_left, div-add-mod',
  lt-div-mul-add,
}
use base_execution_engine.Base.{
  Bool-cases, ap, arith, checked_sub_ok, fail_if_ok, false, fit_ok, inl, inr, ok, ok-injective,
  ok_or-eq-ok, refl, true, ℕ, ◌%◌, ◌*◌, ◌+◌, ◌-◌, ◌/◌, ◌<◌, ◌==◌, ◌≡◌, ◌≤◌,
}
use base_execution_engine.Base.Words.{fit-eq-some, u256_max}
use base_execution_engine.Markets.Error.{MarketError, arithmetic_overflow}
use base_execution_engine.Markets.V3.{q96, mul_u256, div_round_up, next_sqrt_price, output_amount}

covers_up : (n d : ℕ) → 0 < d → n ≤ (n / d + 1) * d
covers_up n d p = omega (arith, lt-div-mul-add {a = n} p)

covers_exact : (n d : ℕ) → n % d ≡ 0 → n ≤ n / d * d
covers_exact n d e = omega (arith, div-add-mod' n d)

-- A quotient rounded up covers its numerator.
pub div_round_up-le : (n d q : ℕ) → div_round_up n d ≡ ok q → (0 < d) × (n ≤ q * d)
unfolding div_round_up
div_round_up-le n d q h =
    let (nz, h0) = fail_if_ok (d == 0) arithmetic_overflow _ h in
    let pos : 0 < d = ground arith in
    elim (Bool-cases (n % d == 0)) [
      | inl z ↦
          let e : n / d ≡ q = ok-injective {E = MarketError} (rw z at h0) in
          (pos, rw (← e) (covers_exact n d (ground arith)))
      | inr z ↦
          let e =
            fit-eq-some u256_max (n / d + 1) (ok_or-eq-ok _ arithmetic_overflow (rw z at h0)) in
          (pos, rw (e.0) (covers_up n d pos))
    ]

scale_step : (n p a next k : ℕ) → n ≤ next * (k + a) → k * p ≤ n → n * p ≤ next * (n + a * p)
scale_step n p a next k h c = omega (arith, mul-le-mul_right p h, mul-le-mul_left next c)

-- Selling token0: the new price is at least the exact one.
pub next_sqrt_price_down :
    (l p a next : ℕ) → next_sqrt_price true l p a ≡ ok next → l * q96 * p ≤ next * (l * q96 + a * p)
unfolding next_sqrt_price mul_u256
next_sqrt_price_down l p a next h =
    let (b0, h0) = fit_ok u256_max (l * q96) arithmetic_overflow _ h in
    let (b1, h1) = fit_ok u256_max (l * q96 / p + a) arithmetic_overflow _ h0 in
    let (pos, up) = div_round_up-le (l * q96) (l * q96 / p + a) next h1 in
    scale_step (l * q96) p a next (l * q96 / p) up (div-mul-le_self (l * q96) p)

-- Buying token0: the new price is at most the exact one.
pub next_sqrt_price_up :
    (l p a next : ℕ)
    → next_sqrt_price false l p a ≡ ok next
    → (p ≤ next) × ((next - p) * l ≤ a * q96)
unfolding next_sqrt_price mul_u256
next_sqrt_price_up l p a next h =
    let (b0, h0) = fit_ok u256_max (l * q96) arithmetic_overflow _ h in
    let (b1, h1) = fit_ok u256_max (a * q96) arithmetic_overflow _ h0 in
    let e = fit-eq-some u256_max (p + a * q96 / l) (ok_or-eq-ok _ arithmetic_overflow h1) in
    let d : next - p ≡ a * q96 / l = omega (arith, e.0) in
    (omega (arith, e.0), rw d (div-mul-le_self (a * q96) l))

down_curve :
    (l q n a p next d out D : ℕ)
    → out * q ≤ l * d
    → n * p ≤ next * D
    → D ≡ n + a * p
    → p ≡ next + d
    → out * q * D ≤ l * a * p * p
down_curve l q n a p next d out D h1 h2 eD ep = omega (
  arith,
  mul-le-mul_right D h1,
  mul-le-mul_left l h2,
  ap (λ (t : ℕ). l * p * t) eD,
  ap (λ (t : ℕ). l * t * D) ep,
)

up_curve :
    (l q a p d out : ℕ)
    → 0 < p + d
    → out * (p * (p + d)) ≤ l * d * q
    → d * l ≤ a
    → out * p * (p * l + a) ≤ l * q * a
up_curve l q a p d out pos h1 h2 =
    let m1 = mul-le-mul_right (p * l + a) h1 in
    let m2 = mul-le-mul_left (l * q * p) h2 in
    le_of_mul-le-mul_left {k = p + d} (omega (arith, m1, m2)) pos

-- Selling token0 never pays more than the curve: `a * l * p² / (q96 * (l * q96 + a * p))`.
pub output_amount_down :
    (l p a next out : ℕ)
    → next_sqrt_price true l p a ≡ ok next
    → output_amount true l p next ≡ ok out
    → out * q96 * (l * q96 + a * p) ≤ l * a * p * p
unfolding output_amount mul_u256
output_amount_down l p a next out h k =
    let (le, k0) = checked_sub_ok p next arithmetic_overflow _ k in
    let (b, k1) = fit_ok u256_max (l * (p - next)) arithmetic_overflow _ k0 in
    let e : l * (p - next) / q96 ≡ out = ok-injective {E = MarketError} k1 in
    let f : out * q96 ≤ l * (p - next) = omega (arith, e) in
    down_curve l q96 (l * q96) a p next (p - next) out (l * q96 + a * p) f
      (next_sqrt_price_down l p a next h) refl (omega arith)

-- Selling token1 never pays more than the curve: `l * q96² * a / (p * (p * l + a * q96))`.
pub output_amount_up :
    (l p a next out : ℕ)
    → 0 < p
    → next_sqrt_price false l p a ≡ ok next
    → output_amount false l p next ≡ ok out
    → out * p * (p * l + a * q96) ≤ l * q96 * (a * q96)
unfolding output_amount mul_u256
output_amount_up l p a next out pos h k =
    let (le, up) = next_sqrt_price_up l p a next h in
    let (le', k0) = checked_sub_ok next p arithmetic_overflow _ k in
    let (b, k1) = fit_ok u256_max (l * (next - p)) arithmetic_overflow _ k0 in
    let (b', k2) = fit_ok u256_max (l * (next - p) * q96) arithmetic_overflow _ k1 in
    let (b'', k3) = fit_ok u256_max (p * next) arithmetic_overflow _ k2 in
    let e : l * (next - p) * q96 / (p * next) ≡ out = ok-injective {E = MarketError} k3 in
    let f : out * (p * next) ≤ l * (next - p) * q96 =
      rw (← e) (div-mul-le_self (l * (next - p) * q96) (p * next)) in
    let s : p + (next - p) ≡ next = omega arith in
    up_curve l q96 (a * q96) p (next - p) out (omega arith) (rw s f) up
