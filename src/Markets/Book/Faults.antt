-- ===== src/Markets/Book/Faults.antt =====
-- Two consequences of how `PoolBook::apply_log` keeps its state: an error loses the pool, and a log
-- that is delivered twice can no longer be reverted.
use base_execution_engine.Base.{
  Option, Result, arith, err, if◌then◌else◌, is_some, ok, refl, some, to_option, ℕ, ◌≡◌,
}
use base_execution_engine.Base.Text.{Text, text_eq, text_eq_refl}
use base_execution_engine.Base.Maps.{beq_refl, lookup, lookup-insert, remove, text_Eq}
use base_execution_engine.Types.{Address, Log}
use base_execution_engine.Markets.Error.{MarketError, MarketEventOutcome}
use base_execution_engine.Markets.V2
use base_execution_engine.Markets.V2.{V2PoolState}
use base_execution_engine.Markets.V2.Sync
use base_execution_engine.Markets.Book.{
  PoolState, v2, PoolBook, History, key_Eq, normalize_address_key, apply_state, apply_log,
}
use base_execution_engine.Markets.Book.Effects.{
  kept, outcome_of, lookup-apply_log, outcome-apply_log,
}
use base_execution_engine.Markets.Book.Reorg.{
  CanCommit, undo, apply_log_reverts, commit_pools, commit_history,
}

module _ (parse_u256 : Text → Option ℕ) where
  -- After a log for the address of a pool of the book, the pool is still in the book exactly when
  -- the log was answered without an error.
  pub apply_log_error_drops :
      (b : PoolBook) (log : Log) (a : Address) (s : PoolState)
      → log.address ≡ some a
      → lookup (normalize_address_key a) b.pools ≡ some s
      → is_some (lookup (normalize_address_key a) (apply_log parse_u256 b log).1.pools)
        ≡ is_some (to_option (apply_log parse_u256 b log).0)
  apply_log_error_drops b log a s ea es =
      by_result (apply_state parse_u256 b.applied_sync_history s log)
        (lookup-apply_log parse_u256 b log a s (normalize_address_key a) ea es)
        (outcome-apply_log parse_u256 b log a s ea es)
    where
      by_result :
          (r : Result MarketError (MarketEventOutcome × PoolState × History))
          → lookup (normalize_address_key a) (apply_log parse_u256 b log).1.pools ≡ (
              if text_eq (normalize_address_key a) (normalize_address_key a)
              then kept r
              else lookup (normalize_address_key a) b.pools)
          → (apply_log parse_u256 b log).0 ≡ outcome_of r
          → is_some (lookup (normalize_address_key a) (apply_log parse_u256 b log).1.pools)
            ≡ is_some (to_option (apply_log parse_u256 b log).0)
      by_result (ok (o, t, h)) e f = ground (arith, e, f, text_eq_refl (normalize_address_key a))
      by_result (err x) e f = ground (arith, e, f, text_eq_refl (normalize_address_key a))

  -- The same log can be applied once more.
  commit_again :
      (b : PoolBook) (log : Log) (c : CanCommit b log)
      → (d : CanCommit (apply_log parse_u256 b log).1 log) × (d.emitter ≡ c.emitter)
        × (d.key ≡ c.key)
        × (d.before ≡ Sync.synced c.before log c.r0 c.r1)
  commit_again b log c =
      let k = normalize_address_key c.emitter in
      (
        record {
          emitter = c.emitter;
          address_eq = c.address_eq;
          before = Sync.synced c.before log c.r0 c.r1;
          found = ground (arith, commit_pools parse_u256 b log c k, text_eq_refl k);
          key = c.key;
          key_ok = c.key_ok;
          live = c.live;
          r0 = c.r0;
          r1 = c.r1;
          sync = record {
            emitter = c.sync.emitter;
            address_eq = c.sync.address_eq;
            same_pool = c.sync.same_pool;
            decoded = c.sync.decoded;
            decoded_eq = c.sync.decoded_eq;
            kind_eq = c.sync.kind_eq;
            reserve0_eq = c.sync.reserve0_eq;
            reserve1_eq = c.sync.reserve1_eq;
            pos0 = c.sync.pos0;
            pos1 = c.sync.pos1;
          };
        },
        refl,
        refl,
        refl,
      )

  -- Reverting the second of two commits gives the pool from before the second.
  revert_second :
      (b : PoolBook) (log : Log) (d : CanCommit b log)
      → lookup
          (normalize_address_key d.emitter)
          (apply_log parse_u256 (apply_log parse_u256 b log).1 (undo log)).1.pools
        ≡ some (v2 d.before)
  revert_second b log d =
      let k = normalize_address_key d.emitter in
      let q = Sync.synced d.before log d.r0 d.r1 in
      let s = V2.snapshot d.before in
      let after = (apply_log parse_u256 b log).1 in
      let dp : lookup k after.pools ≡ some (v2 q) =
        ground (arith, commit_pools parse_u256 b log d k, text_eq_refl k) in
      let dh : lookup d.key after.applied_sync_history ≡ some s =
        ground (arith, commit_history parse_u256 b log d d.key, beq_refl d.key) in
      rw (apply_log_reverts parse_u256 b after log d q s dp dh) (
        ground (
          arith,
          lookup-insert k k (v2 (V2.restore q s)) (remove k after.pools),
          text_eq_refl k,
          Sync.restore-synced d.before log d.r0 d.r1,
        ))

  -- When a Sync that the book can commit is delivered twice and then removed, the pool keeps the
  -- reserves of the log, and not those from before it.
  pub redelivered_sync_stays :
      (b : PoolBook) (log : Log) (c : CanCommit b log)
      → let once = (apply_log parse_u256 b log).1 in
        let twice = (apply_log parse_u256 once log).1 in
        lookup (normalize_address_key c.emitter) (apply_log parse_u256 twice (undo log)).1.pools
        ≡ some (v2 (Sync.synced c.before log c.r0 c.r1))
  redelivered_sync_stays b log c =
      let (d, ee, ek, eb) = commit_again b log c in
      let r = revert_second (apply_log parse_u256 b log).1 log d in rw (ee, eb) at r
