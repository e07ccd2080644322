-- ===== src/Markets/V2/Product.antt =====
-- The arithmetic of a V2 swap (`swap_output`): the exact amount and the constant product.
use native.Mathlib.Nat.{
  mul-le-mul_left, mul-le-mul_right, le-div_iff_mul-le, le_of_mul-le-mul_left, div-lt_iff_lt-mul,
  mul-le-mul,
}
use base_execution_engine.Base.{
  ℕ, ◌+◌, ◌-◌, ◌*◌, ◌/◌, ◌≤◌, ◌<◌, ◌≡◌, ◌↔◌, ok, fit_ok, checked_sub_ok, arith,
}
use base_execution_engine.Base.Words.{u128_max}
use base_execution_engine.Markets.Error.{arithmetic_overflow}
use base_execution_engine.Markets.V2.{swap_output, bps_denominator}

-- What a swap that succeeds has computed.
pub record Swapped (ri ro fee a out : ℕ) : Type 0 where
  pub fee_le : fee ≤ 10000
  pub out_eq : out ≡ (a * (10000 - fee) * ro) / (ri * 10000 + a * (10000 - fee))

pub swap_output-Swapped :
    (ri ro fee a out : ℕ) → swap_output ri ro fee a ≡ ok out → Swapped ri ro fee a out
unfolding swap_output
swap_output-Swapped ri ro fee a out h =
    let (h0, k0) = checked_sub_ok bps_denominator fee arithmetic_overflow _ h in
    let (h1, k1) = fit_ok u128_max (a * (10000 - fee)) arithmetic_overflow _ k0 in
    let (h2, k2) = fit_ok u128_max (a * (10000 - fee) * ro) arithmetic_overflow _ k1 in
    let (h3, k3) = fit_ok u128_max (ri * 10000) arithmetic_overflow _ k2 in
    let (h4, k4) = fit_ok u128_max (ri * 10000 + a * (10000 - fee)) arithmetic_overflow _ k3 in
    record { fee_le = h0; out_eq = cc }

-- Paying `y` of `y + z` against a weight `w` on a side of `x`.
payment_iff : (x w y z : ℕ) → (y * (x + w) ≤ w * (y + z)) ↔ (x * (y + z) ≤ (x + w) * z)
payment_iff x w y z = (λ h. omega arith, λ h. omega arith)

payment_iff_sub : (x w y ro : ℕ) → y ≤ ro → (y * (x + w) ≤ w * ro) ↔ (x * ro ≤ (x + w) * (ro - y))
payment_iff_sub x w y ro le =
    let e : y + (ro - y) ≡ ro = omega arith in rw e at (payment_iff x w y (ro - y))

-- For a swap that succeeds at a positive reserve in, an amount up to the reserve out is at most
-- what is paid exactly when paying it keeps the constant product, with the fee taken from the
-- input.
pub le-swap_output_iff :
    (ri ro fee a out y : ℕ)
    → swap_output ri ro fee a ≡ ok out
    → 0 < ri
    → y ≤ ro
    → (y ≤ out) ↔ (ri * 10000 * ro ≤ (ri * 10000 + a * (10000 - fee)) * (ro - y))
le-swap_output_iff ri ro fee a out y h pos le =
    let s = swap_output-Swapped ri ro fee a out h in
    let w : ℕ = a * (10000 - fee) in
    let k : (y ≤ (w * ro) / (ri * 10000 + w)) ↔ (y * (ri * 10000 + w) ≤ w * ro) =
      le-div_iff_mul-le (omega arith) in
    let m = payment_iff_sub (ri * 10000) w y ro le in
    (λ p. m.0 (k.0 (omega (arith, s.out_eq))), λ q. omega (arith, s.out_eq, k.1 (m.1 q)))

below_of_weight : (r w ro : ℕ) → 0 < r → 0 < ro → (w * ro) / (r + w) < ro
below_of_weight r w ro p q =
    (div-lt_iff_lt-mul {k = r + w} {x = w * ro} {y = ro} (omega arith)).1
      (omega (arith, mul-le-mul p q))

-- A swap pays less than the whole reserve.
pub swap_output-lt-reserve :
    (ri ro fee a out : ℕ) → swap_output ri ro fee a ≡ ok out → 0 < ri → 0 < ro → out < ro
swap_output-lt-reserve ri ro fee a out h pi po =
    let s = swap_output-Swapped ri ro fee a out h in
    omega (arith, s.out_eq, below_of_weight (ri * 10000) (a * (10000 - fee)) ro (omega arith) po)

-- The constant product does not fall: the fee stays in the pool.
pub swap_output-product :
    (ri ro fee a out : ℕ)
    → swap_output ri ro fee a ≡ ok out
    → 0 < ri
    → 0 < ro
    → ri * ro ≤ (ri + a) * (ro - out)
swap_output-product ri ro fee a out h pi po =
    let lt = swap_output-lt-reserve ri ro fee a out h pi po in
    let k = (le-swap_output_iff ri ro fee a out out h pi (omega arith)).0 (omega arith) in
    let m : a * (10000 - fee) * (ro - out) ≤ a * 10000 * (ro - out) =
      mul-le-mul_right (ro - out) (mul-le-mul_left a (omega arith)) in
    le_of_mul-le-mul_left {k = 10000} (omega (arith, k, m)) (omega arith)

-- A larger input pays at least as much.
pub swap_output_mono :
    (ri ro fee a b out out' : ℕ)
    → swap_output ri ro fee a ≡ ok out
    → swap_output ri ro fee b ≡ ok out'
    → 0 < ri
    → 0 < ro
    → a ≤ b
    → out ≤ out'
swap_output_mono ri ro fee a b out out' h h' pi po le =
    let lt = swap_output-lt-reserve ri ro fee a out h pi po in
    let k = (le-swap_output_iff ri ro fee a out out h pi (omega arith)).0 (omega arith) in
    let m : a * (10000 - fee) * (ro - out) ≤ b * (10000 - fee) * (ro - out) =
      mul-le-mul_right (ro - out) (mul-le-mul_right (10000 - fee) le) in
    (le-swap_output_iff ri ro fee b out' out h' pi (omega arith)).1 (omega (arith, k, m))

cancel_factor : (x k y : ℕ) → 0 < k → x * k ≤ k * y → x ≤ y
cancel_factor x k y p h = le_of_mul-le-mul_left {k = k} (omega (arith, h)) p

-- Selling what a swap has paid, at the reserves that it left and at the same fee, returns no more
-- than was put in, when both swaps succeed at positive reserves.
pub swap_output_back :
    (ri ro fee a out back : ℕ)
    → swap_output ri ro fee a ≡ ok out
    → swap_output (ro - out) (ri + a) fee out ≡ ok back
    → 0 < ri
    → 0 < ro
    → back ≤ a
swap_output_back ri ro fee a out back h h' pi po =
    let lt = swap_output-lt-reserve ri ro fee a out h pi po in
    let less =
      swap_output-lt-reserve (ro - out) (ri + a) fee out back h' (omega arith) (omega arith) in
    let one = swap_output-product ri ro fee a out h pi po in
    let two = swap_output-product (ro - out) (ri + a) fee out back h' (omega arith) (omega arith) in
    let e : ro - out + out ≡ ro = omega arith in
    let two' : (ro - out) * (ri + a) ≤ ro * (ri + a - back) = rw e at two in
    let c = cancel_factor ri ro (ri + a - back) po (omega (arith, one, two')) in omega arith
