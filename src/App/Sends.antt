-- ===== src/App/Sends.antt =====
-- Rules for a handler after which an action is in the journal.
use mathlib.Core.Path.{subst}
use base_execution_engine.Base.{ap, sym, Bool, Result, Member, ok, true, false, ◌≡◌, if◌then◌else◌}
use base_execution_engine.Base.Text.{Text}
use base_execution_engine.App.Steps.{
  World, App, Action, ◌>>=◌, lift, with_context, in_context, continue,
}

-- A handler after which the action is in the journal.
pub record Sends {A : Type 0} (m : App A) (w : World) (a : Action) : Type 0 where
  pub from : Member a (m w).1.journal

module _ {A B : Type 0} where
  -- A step whose end is known is done, and the rest goes on from there.
  pub after-Sends :
      (m : App A) (f : A → App B) {w u : World} {x : A} {a : Action}
      → m w ≡ (ok x, u)
      → Sends (f x) u a
      → Sends (m >>= f) w a
  after-Sends m f {a = a} e s = record {
    from = subst (λ (p : Result Text A × World). Member a (continue f p).1.journal) (sym e) s.from;
  }

  pub answered-Sends :
      (f : A → App B) {w : World} {x : A} {a : Action} (r : Result Text A) (message : Text)
      → r ≡ ok x
      → Sends (f x) w a
      → Sends (lift (with_context r message) >>= f) w a
  answered-Sends f {w = w} r message e s =
      after-Sends (lift (with_context r message)) f
        (ap (λ (r0 : Result Text A). (with_context r0 message, w)) e) s

  pub asked-Sends :
      (f : A → App B) {w : World} {x : A} {a : Action} (r : Result Text A)
      → r ≡ ok x
      → Sends (f x) w a
      → Sends (lift r >>= f) w a
  asked-Sends f {w = w} r e s = after-Sends (lift r) f (ap (λ (r0 : Result Text A). (r0, w)) e) s

module _ {A : Type 0} where
  pub branch-Sends :
      (m n : App A) {w : World} {a : Action} (b : Bool)
      → b ≡ true
      → Sends m w a
      → Sends (if b then m else n) w a
  branch-Sends m n true e s = s
  branch-Sends m n false e s = cc

  pub in_context-Sends :
      {m : App A} {w : World} {a : Action} (message : Text)
      → Sends m w a
      → Sends (in_context m message) w a
  in_context-Sends message s = record { from = s.from }
