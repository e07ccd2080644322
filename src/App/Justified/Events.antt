-- ===== src/App/Justified/Events.antt =====
-- What the engine sends on a sequence of turns: only what is due in one of them.
use base_execution_engine.Base.{
  All, All-imp, List, Option, Result, [], err, inl, inr, ok, refl, ◌∷◌, ◌≡◌, ◌⊎◌,
}
use base_execution_engine.Base.Text.{Text}
use base_execution_engine.Markets.Book.{PoolBook}
use base_execution_engine.Markets.Book.Invariant.{IsSound, apply_log-IsSound}
use base_execution_engine.Decision.{DecisionConfig}
use base_execution_engine.App.Steps.{World, continue}
use base_execution_engine.App.Ensures.{Keeps}
use base_execution_engine.App.Pipeline.{
  AppConfig, RuntimeScanConfig, Turn, process_event, run_events,
}
use base_execution_engine.App.Start.{DiscoveryConfig, Surroundings, start_book, start_book-IsSound}
use base_execution_engine.App.Due.{IsWellDue, InSome}
use base_execution_engine.App.Justified.{started, Sending, IsJustified, IsJustified-imp}
use base_execution_engine.App.Justified.Guarded.{due-IsWellDue}
use base_execution_engine.App.Justified.Turns.{process-Keeps}

first : {A B C : Type 0} → A ⊎ B → A ⊎ (B ⊎ C)
first (inl a) = inl a
first (inr b) = inr (inl b)

later : {A B C P : Type 0} → P → (A ⊎ B) ⊎ C → A ⊎ (B ⊎ (P × C))
later e (inl (inl a)) = inl a
later e (inl (inr b)) = inr (inl b)
later e (inr c) = inr (inr (e, c))

module _ (config : AppConfig) (scan : Option RuntimeScanConfig) where
  turn-Keeps :
      (turn : Turn) (w : World) (D : Sending)
      → IsSound w.book
      → All (IsJustified D) w.journal
      → Keeps IsSound
          (IsJustified (λ p a. D p a ⊎ IsWellDue config scan turn w p a))
          (process_event config scan turn w).1
  turn-Keeps turn w D k js =
      process-Keeps IsSound (λ p a. D p a ⊎ IsWellDue config scan turn w p a) config scan turn w
        (λ payload attempt d. inr (due-IsWellDue config scan turn w payload attempt d k))
        (λ entry b kb. apply_log-IsSound turn.outside.parse_u256 b entry kb) k
        (All-imp (IsJustified-imp (λ p a. inl)) w.journal js)

  -- The turns after one, from what it leaves.
  abbrev RunKeeps : List Turn → Type 1
  RunKeeps turns =
      (w : World) (D : Sending)
      → IsSound w.book
      → All (IsJustified D) w.journal
      → Keeps IsSound (IsJustified (λ p a. D p a ⊎ InSome IsWellDue config scan turns w p a))
          (run_events config scan turns w).1

  after_turn :
      (turn : Turn) (turns : List Turn) (w : World) (D : Sending)
      (left : Result Text (Unit {0}) × World)
      → RunKeeps turns
      → Keeps IsSound (IsJustified (λ p a. D p a ⊎ IsWellDue config scan turn w p a)) left.1
      → Keeps IsSound
          (IsJustified (λ p a.
            D p a
            ⊎ (IsWellDue config scan turn w p a
                ⊎ ((left.0 ≡ ok tt) × InSome IsWellDue config scan turns left.1 p a))))
          (continue (λ u. run_events config scan turns) left).1
  after_turn turn turns w D (err e, v) rest h =
      (h.0, All-imp (IsJustified-imp (λ p a. first)) v.journal h.1)
  after_turn turn turns w D (ok u, v) rest h =
      let (k, js) = rest v (λ p a. D p a ⊎ IsWellDue config scan turn w p a) h.0 h.1 in
      (k, All-imp (IsJustified-imp (λ p a. later refl)) _ js)

  run-Keeps : (turns : List Turn) → RunKeeps turns
  unfolding run_events
  run-Keeps [] w D k js = (k, All-imp (IsJustified-imp (λ p a. inl)) w.journal js)
  run-Keeps (turn ∷ turns) w D k js =
      after_turn turn turns w D (process_event config scan turn w) (run-Keeps turns)
        (turn-Keeps turn w D k js)

  -- From the book that the start gives, with the pools of the bootstrap file and those that
  -- discovery finds when it is enabled, and for any sequence of turns, each with its own event,
  -- time and answers from outside: every transaction that the engine hands to its transport is due
  -- in a turn, in the book and the risk state that the turns before it left; it stands for a loop
  -- between two pools of a sound book, passes every gate of the risk engine in that risk state,
  -- which after the turn is what the risk engine left with the outcomes recorded since, is within
  -- the limits of the execution mode, insists at its last step on an output that covers the
  -- repayment, the surplus and both costs, and has a payload that carries the request; every state
  -- of an attempt that is stored is reachable in the life cycle; and the book stays sound.
  pub run_events-IsJustified :
      {AlloyAddress Provider : Type 0} (s : Surroundings AlloyAddress Provider)
      (decision : DecisionConfig) (discovery : DiscoveryConfig) (book : PoolBook)
      (turns : List Turn)
      → start_book s decision discovery ≡ ok book
      → All
          (IsJustified (InSome IsWellDue config scan turns (started book)))
          (run_events config scan turns (started book)).1.journal
        × IsSound (run_events config scan turns (started book)).1.book
  run_events-IsJustified s decision discovery book turns started_with =
      let sound = start_book-IsSound s decision discovery book started_with in
      let (after, actions) = run-Keeps turns (started book) (λ p a. ⊥) sound tt in
      (All-imp (IsJustified-imp (λ p a. from_none)) _ actions, after)
    where
      from_none : {A : Type 0} → ⊥ ⊎ A → A
      from_none (inl nothing) = absurd nothing
      from_none (inr a) = a
