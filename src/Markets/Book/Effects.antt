-- ===== src/Markets/Book/Effects.antt =====
-- What `PoolBook::apply_log` does to the pools, on every branch.
use base_execution_engine.Base.{
  List, Option, Option-cases, Result, arith, err, if◌then◌else◌, inl, inr, none, ok, refl, some, ℕ,
  ◌≡◌, ◌≢◌,
}
use base_execution_engine.Base.Text.{Text, text_eq, text_eq_iff}
use base_execution_engine.Base.Maps.{lookup, lookup-insert, lookup-remove, remove, text_Eq}
use base_execution_engine.Types.{Address, Log}
use base_execution_engine.Markets.Error.{MarketError, MarketEventOutcome, ignored}
use base_execution_engine.Markets.Book.{
  PoolState, PoolBook, History, normalize_address_key, apply_state, put_back, apply_log,
}

-- The pool that is put back: the updated one, or none after an error.
abbrev pub kept : Result MarketError (MarketEventOutcome × PoolState × History) → Option PoolState
kept (ok (o, s, h)) = some s
kept (err e) = none

-- The outcome of the attempt.
abbrev pub outcome_of :
    Result MarketError (MarketEventOutcome × PoolState × History)
    → Result MarketError MarketEventOutcome
outcome_of (ok (o, s, h)) = ok o
outcome_of (err e) = err e

lookup-put_back :
    (parse_u256 : Text → Option ℕ) (j key : Text) (m : List (Text × PoolState)) (h : History)
    (r : Result MarketError (MarketEventOutcome × PoolState × History))
    → lookup j (put_back parse_u256 key (remove key m) h r).1.pools
      ≡ (if text_eq key j then kept r else lookup j m)
unfolding put_back
lookup-put_back parse_u256 j key m h (ok (o, s, h')) =
    ground (arith, lookup-insert j key s (remove key m), lookup-remove j key m)
lookup-put_back parse_u256 j key m h (err e) = ground (arith, lookup-remove j key m)

outcome-put_back :
    (parse_u256 : Text → Option ℕ) (key : Text) (m : List (Text × PoolState)) (h : History)
    (r : Result MarketError (MarketEventOutcome × PoolState × History))
    → (put_back parse_u256 key m h r).0 ≡ outcome_of r
unfolding put_back
outcome-put_back parse_u256 key m h (ok (o, s, h')) = refl
outcome-put_back parse_u256 key m h (err e) = refl

module _ (parse_u256 : Text → Option ℕ) (b : PoolBook) (log : Log) where
  -- One log of a known pool.
  pub apply_log_known :
      (a : Address) (s : PoolState)
      → log.address ≡ some a
      → lookup (normalize_address_key a) b.pools ≡ some s
      → apply_log parse_u256 b log
        ≡ put_back parse_u256
            (normalize_address_key a)
            (remove (normalize_address_key a) b.pools)
            b.applied_sync_history
            (apply_state parse_u256 b.applied_sync_history s log)
  unfolding apply_log
  apply_log_known a s ea es = ground arith

  -- Every pool after a log of a known pool: its own is what `apply_state` leaves, or is gone after
  -- an error; the others stay.
  pub lookup-apply_log :
      (a : Address) (s : PoolState) (j : Text)
      → log.address ≡ some a
      → lookup (normalize_address_key a) b.pools ≡ some s
      → lookup j (apply_log parse_u256 b log).1.pools ≡ (
          if text_eq (normalize_address_key a) j
          then kept (apply_state parse_u256 b.applied_sync_history s log)
          else lookup j b.pools)
  lookup-apply_log a s j ea es = rw (apply_log_known a s ea es) (
      lookup-put_back parse_u256 j (normalize_address_key a) b.pools b.applied_sync_history
        (apply_state parse_u256 b.applied_sync_history s log))

  pub outcome-apply_log :
      (a : Address) (s : PoolState)
      → log.address ≡ some a
      → lookup (normalize_address_key a) b.pools ≡ some s
      → (apply_log parse_u256 b log).0
        ≡ outcome_of (apply_state parse_u256 b.applied_sync_history s log)
  outcome-apply_log a s ea es = rw (apply_log_known a s ea es) (
      outcome-put_back parse_u256 (normalize_address_key a) _ b.applied_sync_history
        (apply_state parse_u256 b.applied_sync_history s log))

  -- A log with no address, or of a pool that the book does not hold, changes nothing.
  pub apply_log_unknown :
      ((a : Address) → log.address ≡ some a → lookup (normalize_address_key a) b.pools ≡ none)
      → apply_log parse_u256 b log ≡ (ok ignored, b)
  unfolding apply_log
  apply_log_unknown h = elim (Option-cases log.address) [
    | inl ea ↦ ground arith
    | inr (a, ea) ↦ ground (arith, h a ea)
  ]

  -- A log touches no pool but the one at its address.
  pub apply_log_frame :
      (j : Text)
      → ((a : Address) → log.address ≡ some a → normalize_address_key a ≢ j)
      → lookup j (apply_log parse_u256 b log).1.pools ≡ lookup j b.pools
  apply_log_frame j h = elim (Option-cases log.address) [
    | inl ea ↦ rw (apply_log_unknown (λ a e. cc))
    | inr (a, ea) ↦ elim (Option-cases (lookup (normalize_address_key a) b.pools)) [
      | inl el ↦ rw (apply_log_unknown (λ a' e. let same : a' ≡ a = cc in rw same el))
      | inr (s, es) ↦
          ground
            (arith, lookup-apply_log a s j ea es, text_eq_iff (normalize_address_key a) j, h a ea)
    ]
  ]
