-- ===== src/App/Ends.antt =====
-- What a chain of steps that succeeds says of each of them.
use base_execution_engine.Base.{Option, Result, ap, err, none, ok, refl, some, sym, ◌≡◌}
use base_execution_engine.Base.Text.{Text}
use base_execution_engine.Base.Int.{ℤ}
use base_execution_engine.App.Steps.{World, App, Action, ◌>>=◌, lift, with_context, write, continue}
use base_execution_engine.App.Drive.{if_stored}

module _ {A B : Type 0} where
  continue_ends :
      (f : A → App B) (r : Result Text A × World) {b : B} {v : World}
      → continue f r ≡ (ok b, v)
      → (a : A) × (u : World) × (r ≡ (ok a, u)) × (f a u ≡ (ok b, v))
  continue_ends f (ok a, u) h = (a, u, refl, h)
  continue_ends f (err e, u) h = let j = ap (λ (p : Result Text B × World). p.0) h in cc

  -- Where a chain succeeds, so did its first step, and the rest from the world that it left.
  pub chain_ends :
      (m : App A) (f : A → App B) (w : World) {b : B} {v : World}
      → (m >>= f) w ≡ (ok b, v)
      → (a : A) × (u : World) × (m w ≡ (ok a, u)) × (f a u ≡ (ok b, v))
  chain_ends m f w h = continue_ends f (m w) h

  pub lift_ends :
      (r : Result Text A) (message : Text) (f : A → App B) (w : World) {b : B} {v : World}
      → (lift (with_context r message) >>= f) w ≡ (ok b, v)
      → (a : A) × (r ≡ ok a) × (f a w ≡ (ok b, v))
  lift_ends (ok a) message f w h = (a, refl, h)
  lift_ends (err e) message f w h = let j = ap (λ (p : Result Text B × World). p.0) h in cc

-- Storing changes neither the book nor the risk state.
pub if_stored_ends :
    (storage : Action → Result Text (Unit {0})) (id : Option ℤ) (make : ℤ → Action) (w v : World)
    (r : Result Text (Unit {0}))
    → if_stored storage id make w ≡ (r, v)
    → (v.risk ≡ w.risk) × (v.book ≡ w.book)
unfolding if_stored write
if_stored_ends storage none make w v r h =
    let e = ap (λ (p : Result Text (Unit {0}) × World). p.1) h in
    (ap (λ (u : World). u.risk) (sym e), ap (λ (u : World). u.book) (sym e))
if_stored_ends storage (some id) make w v r h =
    let e = ap (λ (p : Result Text (Unit {0}) × World). p.1) h in
    (ap (λ (u : World). u.risk) (sym e), ap (λ (u : World). u.book) (sym e))
