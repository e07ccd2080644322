-- ===== src/App/Ensures.antt =====
-- Postconditions of handlers that keep an invariant of the book and of the journal.
use base_execution_engine.Base.{All, Bool, Option, Result, err, none, ok, refl, some, ◌≡◌}
use base_execution_engine.Base.Text.{Text}
use base_execution_engine.Base.Int.{ℤ}
use base_execution_engine.Markets.Book.{PoolBook}
use base_execution_engine.App.Steps.{
  World, App, Action, ◌>>=◌, pure, lift, with_context, in_context, count_outcome, act, write,
  continue,
}
use base_execution_engine.App.Drive.{if_stored}

-- What holds of a result, where it is one.
abbrev pub OfOk : {A : Type 0} → (A → Type 0) → Result Text A → Type 0
OfOk Q (ok a) = Q a
OfOk Q (err e) = Unit

module _ (S : PoolBook → Type 0) (P : Action → Type 0) where
  -- The invariant: the book is as `S` says, and so is each action of the journal as `P` says.
  abbrev pub Keeps : World → Type 0
  Keeps w = S w.book × All P w.journal

  -- From a world with the invariant, the handler leaves one, and its result satisfies `Q`.
  pub record Ensures {A : Type 0} (m : App A) (Q : A → Type 0) : Type 0 where
    pub from : (w : World) → Keeps w → Keeps (m w).1 × OfOk Q (m w).0

  module _ {A B : Type 0} where
    continue-Ensures :
        (f : A → App B) (Q : A → Type 0) (R : B → Type 0) (p : Result Text A × World)
        → Keeps p.1
        → OfOk Q p.0
        → ((a : A) → Q a → Ensures (f a) R)
        → Keeps (continue f p).1 × OfOk R (continue f p).0
    continue-Ensures f Q R (ok a, w) k q rest = (rest a q).from w k
    continue-Ensures f Q R (err e, w) k q rest = (k, tt)

    pub chain-Ensures :
        (m : App A) (f : A → App B) (Q : A → Type 0) (R : B → Type 0)
        → Ensures m Q
        → ((a : A) → Q a → Ensures (f a) R)
        → Ensures (m >>= f) R
    chain-Ensures m f Q R first rest = record {
      from = λ w k. let (k1, q) = first.from w k in continue-Ensures f Q R (m w) k1 q rest;
    }

  module _ {A : Type 0} where
    pub lift-Ensures : (r : Result Text A) → Ensures (lift r) (λ a. r ≡ ok a)
    lift-Ensures r = record { from = λ w k. (k, answer r) }
      where
        answer : (s : Result Text A) → OfOk (λ a. s ≡ ok a) s
        answer (ok a) = refl
        answer (err e) = tt

    pub lift_context-Ensures :
        (r : Result Text A) (message : Text)
        → Ensures (lift (with_context r message)) (λ a. r ≡ ok a)
    lift_context-Ensures r message = record { from = λ w k. (k, answer r) }
      where
        answer : (s : Result Text A) → OfOk (λ a. s ≡ ok a) (with_context s message)
        answer (ok a) = refl
        answer (err e) = tt

    pub pure-Ensures : (a : A) (Q : A → Type 0) → Q a → Ensures (pure a) Q
    pure-Ensures a Q q = record { from = λ w k. (k, q) }

    with_context-OfOk :
        (r : Result Text A) (message : Text) (Q : A → Type 0)
        → OfOk Q r
        → OfOk Q (with_context r message)
    with_context-OfOk (ok a) message Q h = h
    with_context-OfOk (err e) message Q h = tt

    pub in_context-Ensures :
        (m : App A) (message : Text) (Q : A → Type 0)
        → Ensures m Q
        → Ensures (in_context m message) Q
    in_context-Ensures m message Q h = record {
      from = λ w k. let (k1, q) = h.from w k in (k1, with_context-OfOk (m w).0 message Q q);
    }

  OfOk-trivial : (r : Result Text (Unit {0})) → OfOk (λ u. Unit {0}) r
  OfOk-trivial (ok u) = tt
  OfOk-trivial (err e) = tt

  pub count_outcome-Ensures : (success : Bool) → Ensures (count_outcome success) (λ u. Unit)
  unfolding count_outcome
  count_outcome-Ensures success = record { from = λ w k. (k, tt) }

  pub act-Ensures : (a : Action) → P a → Ensures (act a) (λ u. Unit)
  unfolding act
  act-Ensures a p = record { from = λ w k. ((k.0, (p, k.1)), tt) }

  pub write-Ensures :
      (storage : Action → Result Text (Unit {0})) (a : Action)
      → P a
      → Ensures (write storage a) (λ u. Unit)
  unfolding write
  write-Ensures storage a p = record { from = λ w k. ((k.0, (p, k.1)), OfOk-trivial (storage a)) }

  pub if_stored-Ensures :
      (storage : Action → Result Text (Unit {0})) (id : Option ℤ) (make : ℤ → Action)
      → ((i : ℤ) → P (make i))
      → Ensures (if_stored storage id make) (λ u. Unit)
  unfolding if_stored
  if_stored-Ensures storage none make p = pure-Ensures tt (λ u. Unit) tt
  if_stored-Ensures storage (some id) make p = write-Ensures storage (make id) (p id)
