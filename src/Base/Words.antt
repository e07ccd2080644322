-- ===== src/Base/Words.antt =====
-- Rust's machine-width arithmetic on the native numbers: the checked and the saturating operations.
-- A value of a w-bit type is a number below 2 ^ w; where a theorem needs the range it says so.
use Prim.Native.Nat.{ℕ, ◌+◌, ◌-◌, ◌*◌, ◌^◌, ◌≤◌, ◌<◌, min}
use mathlib.Core.Path.{◌≡◌}
use mathlib.Core.Option.{Option, none, some}
use native.Mathlib.Omega.{arith}
use base_execution_engine.Base.Tests.{ltb, leb, if◌then◌else◌}

abbrev pub u32_max : ℕ
u32_max = 2 ^ 32 - 1

abbrev pub u64_max : ℕ
u64_max = 2 ^ 64 - 1

abbrev pub u128_max : ℕ
u128_max = 2 ^ 128 - 1

abbrev pub u256_max : ℕ
u256_max = 2 ^ 256 - 1

-- `checked_add`, `checked_mul`, `try_from`: `none` above the largest value `top`.
unfoldable pub fit : ℕ → ℕ → Option ℕ
fit top n = if leb n top then some n else none

abbrev pub checked_add : ℕ → ℕ → ℕ → Option ℕ
checked_add top a b = fit top (a + b)

abbrev pub checked_mul : ℕ → ℕ → ℕ → Option ℕ
checked_mul top a b = fit top (a * b)

-- `checked_sub`: the same at every width.
unfoldable pub checked_sub : ℕ → ℕ → Option ℕ
checked_sub a b = if ltb a b then none else some (a - b)

unfoldable pub saturating_add : ℕ → ℕ → ℕ → ℕ
saturating_add top a b = min (a + b) top

unfoldable pub saturating_mul : ℕ → ℕ → ℕ → ℕ
saturating_mul top a b = min (a * b) top

pub fit-eq-some : (top n : ℕ) {m : ℕ} → fit top n ≡ some m → (m ≡ n) × (n ≤ top)
unfolding fit
fit-eq-some top n h = ground arith

pub fit-some : (top n : ℕ) → n ≤ top → fit top n ≡ some n
unfolding fit
fit-some top n h = ground arith

pub fit-none : (top n : ℕ) → top < n → fit top n ≡ none
unfolding fit
fit-none top n h = ground arith

pub checked_sub-eq-some : (a b : ℕ) {c : ℕ} → checked_sub a b ≡ some c → (c + b ≡ a)
unfolding checked_sub
checked_sub-eq-some a b h = ground arith

pub checked_sub-some : (a b : ℕ) → b ≤ a → checked_sub a b ≡ some (a - b)
unfolding checked_sub
checked_sub-some a b h = ground arith

pub saturating_add_lem : (top a b : ℕ) → saturating_add top a b ≡ min (a + b) top
unfolding saturating_add
saturating_add_lem top a b = omega arith
