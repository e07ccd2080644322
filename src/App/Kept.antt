-- ===== src/App/Kept.antt =====
-- Rules for what a handler keeps of the world: a relation between the worlds before and after it that
-- every step of an attempt respects.
use base_execution_engine.Base.{
  Bool, Member, Option, Result, err, false, if◌then◌else◌, inr, none, ok, some, true, ◌∷◌,
}
use base_execution_engine.Base.Text.{Text}
use base_execution_engine.Base.Int.{ℤ}
use base_execution_engine.Risk.{RiskState, record_outcome}
use base_execution_engine.App.Steps.{
  pure, act, World, App, Action, ◌>>=◌, lift, in_context, count_outcome, write, continue,
}
use base_execution_engine.App.Drive.{if_stored}

pub record Kept : Type 1 where
  pub holds : World → World → Type 0
  pub same : (w : World) → holds w w
  pub trans : (u v w : World) → holds u v → holds v w → holds u w
  pub counted :
      (success : Bool) (w : World) → holds w (record w { risk = record_outcome success w.risk })
  pub logged : (a : Action) (w : World) → holds w (record w { journal = a ∷ w.journal })

-- Nothing is taken out of the journal.
abbrev pub journal_kept : Kept
journal_kept = record {
  holds = λ v w. (a : Action) → Member a v.journal → Member a w.journal;
  same = λ w a k. k;
  trans = λ u v w f g a k. g a (f a k);
  counted = λ success w a k. k;
  logged = λ b w a k. inr k;
}

-- The risk state after some executions are recorded.
pub data Outcomes (before : RiskState) : RiskState → Type 0 where
  unchanged : Outcomes before before
  recorded :
      (success : Bool) (after : RiskState)
      → Outcomes before after
      → Outcomes before (record_outcome success after)

pub Outcomes-trans : (r s t : RiskState) → Outcomes r s → Outcomes s t → Outcomes r t
Outcomes-trans r s _ f unchanged = f
Outcomes-trans r s _ f (recorded success t g) = recorded success t (Outcomes-trans r s t f g)

-- Nothing but the outcomes of executions is recorded in the risk state.
abbrev pub risk_kept : Kept
risk_kept = record {
  holds = λ v w. Outcomes v.risk w.risk;
  same = λ w. unchanged;
  trans = λ u v w f g. Outcomes-trans u.risk v.risk w.risk f g;
  counted = λ success w. recorded success w.risk unchanged;
  logged = λ b w. unchanged;
}

module _ (K : Kept) where
  pub record Keeping {A : Type 0} (m : App A) : Type 0 where
    pub from : (w : World) → K.holds w (m w).1

  module _ {A B : Type 0} where
    continue-Keeping :
        (f : A → App B) (w : World) (p : Result Text A × World)
        → ((x : A) → Keeping (f x))
        → K.holds w p.1
        → K.holds w (continue f p).1
    continue-Keeping f w (ok x, v) rest k = K.trans w v _ k ((rest x).from v)
    continue-Keeping f w (err e, v) rest k = k

    pub chain-Keeping :
        {m : App A} {f : A → App B} → Keeping m → ((x : A) → Keeping (f x)) → Keeping (m >>= f)
    chain-Keeping {m = m} {f = f} first rest = record {
      from = λ w. continue-Keeping f w (m w) rest (first.from w);
    }

  module _ {A : Type 0} where
    pub lift-Keeping : (r : Result Text A) → Keeping (lift r)
    lift-Keeping r = record { from = λ w. K.same w }

    pub pure-Keeping : (x : A) → Keeping (pure x)
    pure-Keeping x = record { from = λ w. K.same w }

    pub branch-Keeping :
        {m n : App A} (b : Bool) → Keeping m → Keeping n → Keeping (if b then m else n)
    branch-Keeping true g h = g
    branch-Keeping false g h = h

    pub in_context-Keeping :
        {m : App A} (message : Text) → Keeping m → Keeping (in_context m message)
    in_context-Keeping message g = record { from = g.from }

  pub count_outcome-Keeping : (success : Bool) → Keeping (count_outcome success)
  unfolding count_outcome
  count_outcome-Keeping success = record { from = λ w. K.counted success w }

  pub if_stored-Keeping :
      (storage : Action → Result Text (Unit {0})) (id : Option ℤ) (make : ℤ → Action)
      → Keeping (if_stored storage id make)
  unfolding if_stored write
  if_stored-Keeping storage none make = record { from = λ w. K.same w }
  if_stored-Keeping storage (some id) make = record { from = λ w. K.logged (make id) w }

  pub act-Keeping : (a : Action) → Keeping (act a)
  unfolding act
  act-Keeping a = record { from = λ w. K.logged a w }
