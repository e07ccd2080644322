-- ===== src/Base/Chains.antt =====
-- Inversion of one step of a chain of fallible steps: what holds when the whole chain succeeds.
use Prim.Native.Nat.{ℕ, ◌-◌, ◌≤◌}
use mathlib.Core.Path.{◌≡◌, refl}
use mathlib.Core.Bool.{Bool, true, false}
use mathlib.Core.Option.{Option, none, some}
use native.Mathlib.Omega.{arith}
use base_execution_engine.Base.Results.{Result, ok, ◌>>=◌, ok_or, fail_if}
use base_execution_engine.Base.Words.{fit, checked_sub}

module _ {ℓ κ} {E : Type ℓ} {B : Type κ} where
  pub fail_if_ok :
      (c : Bool) (e : E) (f : Unit {0} → Result E B) {b : B}
      → (fail_if c e >>= f) ≡ ok b
      → (c ≡ false) × (f tt ≡ ok b)
  fail_if_ok true e f h = cc
  fail_if_ok false e f h = (refl, h)

  pub fit_ok :
      (top n : ℕ) (e : E) (f : ℕ → Result E B) {b : B}
      → (ok_or (fit top n) e >>= f) ≡ ok b
      → (n ≤ top) × (f n ≡ ok b)
  unfolding fit
  fit_ok top n e f h = ground arith

  pub checked_sub_ok :
      (n m : ℕ) (e : E) (f : ℕ → Result E B) {b : B}
      → (ok_or (checked_sub n m) e >>= f) ≡ ok b
      → (m ≤ n) × (f (n - m) ≡ ok b)
  unfolding checked_sub
  checked_sub_ok n m e f h = ground arith

  pub ok_or_ok {μ} :
      {A : Type μ} (o : Option A) (e : E) (f : A → Result E B) {b : B}
      → (ok_or o e >>= f) ≡ ok b
      → (a : A) × (o ≡ some a) × (f a ≡ ok b)
  ok_or_ok none e f h = cc
  ok_or_ok (some a) e f h = (a, refl, h)
