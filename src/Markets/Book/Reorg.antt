-- ===== src/Markets/Book/Reorg.antt =====
-- A chain reorganisation: `Sync` logs that were applied come back as removed, the last one first.
use base_execution_engine.Base.{
  List, Option, [], arith, false, if◌then◌else◌, none, ok, refl, some, true, unwrap_or, ℕ, ◌∷◌, ◌≡◌,
}
use base_execution_engine.Base.Text.{Text, text_eq, text_eq_iff, text_eq_refl}
use base_execution_engine.Base.Maps.{
  beq_refl, insert, lookup, lookup-insert, lookup-remove, remove, text_Eq,
}
use base_execution_engine.Types.{Address, Log}
use base_execution_engine.Markets.Error.{applied, reverted}
use base_execution_engine.Markets.V2
use base_execution_engine.Markets.V2.{V2PoolState, V2SyncSnapshot}
use base_execution_engine.Markets.V2.Sync
use base_execution_engine.Markets.Book.{
  v2, PoolBook, AppliedLogKey, key_eq, key_Eq, key_eq_iff, normalize_address_key, applied_log_key,
  revert_sync, commit_sync, apply_v2_event, apply_v2_log, apply_state, put_back, apply_log,
}
use base_execution_engine.Markets.Book.Effects.{apply_log_known}

-- The log is a new `Sync` that the book can apply: of a V2 pool that it holds, with an identity.
pub record CanCommit (b : PoolBook) (log : Log) : Type 0 where
  pub emitter : Address
  pub address_eq : log.address ≡ some emitter
  pub before : V2PoolState
  pub found : lookup (normalize_address_key emitter) b.pools ≡ some (v2 before)
  pub key : AppliedLogKey
  pub key_ok : applied_log_key log ≡ ok key
  pub live : unwrap_or log.removed false ≡ false
  pub r0 : ℕ
  pub r1 : ℕ
  pub sync : Sync.IsSync before log r0 r1

-- The same log, delivered as removed.
abbrev pub undo : Log → Log
undo log = record log { removed = some true }

module _ (parse_u256 : Text → Option ℕ) where
  commit_state :
      (b : PoolBook) (log : Log) (c : CanCommit b log)
      → apply_state parse_u256 b.applied_sync_history (v2 c.before) log
        ≡ ok (
          applied,
          v2 (Sync.synced c.before log c.r0 c.r1),
          insert c.key (V2.snapshot c.before) b.applied_sync_history,
        )
  unfolding apply_state apply_v2_log apply_v2_event commit_sync
  commit_state b log c = ground (
    arith,
    c.sync.decoded_eq,
    c.sync.kind_eq,
    c.key_ok,
    c.live,
    Sync.apply_log-synced c.before log c.r0 c.r1 c.sync,
  )

  pub apply_log_commits :
      (b : PoolBook) (log : Log) (c : CanCommit b log)
      → apply_log parse_u256 b log ≡ (
        ok applied,
        record {
          pools =
              insert
                (normalize_address_key c.emitter)
                (v2 (Sync.synced c.before log c.r0 c.r1))
                (remove (normalize_address_key c.emitter) b.pools);
          applied_sync_history = insert c.key (V2.snapshot c.before) b.applied_sync_history;
        },
      )
  unfolding put_back
  apply_log_commits b log c =
      rw (apply_log_known parse_u256 b log c.emitter (v2 c.before) c.address_eq c.found)
        (rw (commit_state b log c, put_back))

  revert_state :
      (b d : PoolBook) (log : Log) (c : CanCommit b log) (q : V2PoolState) (s : V2SyncSnapshot)
      → lookup c.key d.applied_sync_history ≡ some s
      → apply_state parse_u256 d.applied_sync_history (v2 q) (undo log)
        ≡ ok (reverted, v2 (V2.restore q s), remove c.key d.applied_sync_history)
  unfolding apply_state apply_v2_log apply_v2_event revert_sync applied_log_key
  revert_state b d log c q s e = ground (arith, c.sync.decoded_eq, c.sync.kind_eq, c.key_ok)

  -- A removed log restores the snapshot that is kept under its identity.
  pub apply_log_reverts :
      (b d : PoolBook) (log : Log) (c : CanCommit b log) (q : V2PoolState) (s : V2SyncSnapshot)
      → lookup (normalize_address_key c.emitter) d.pools ≡ some (v2 q)
      → lookup c.key d.applied_sync_history ≡ some s
      → apply_log parse_u256 d (undo log) ≡ (
        ok reverted,
        record {
          pools =
              insert
                (normalize_address_key c.emitter)
                (v2 (V2.restore q s))
                (remove (normalize_address_key c.emitter) d.pools);
          applied_sync_history = remove c.key d.applied_sync_history;
        },
      )
  unfolding put_back
  apply_log_reverts b d log c q s ep es =
      rw (apply_log_known parse_u256 d (undo log) c.emitter (v2 q) c.address_eq ep)
        (rw (revert_state b d log c q s es, put_back))

-- Two books that no lookup tells apart.
pub record Same (b d : PoolBook) : Type 0 where
  pub pools : (j : Text) → lookup j b.pools ≡ lookup j d.pools
  pub history :
      (k : AppliedLogKey) → lookup k b.applied_sync_history ≡ lookup k d.applied_sync_history

pub Same-refl : (b : PoolBook) → Same b b
Same-refl b = record { pools = λ j. refl; history = λ k. refl }

module _ (parse_u256 : Text → Option ℕ) where
  -- The pools after a commit.
  pub commit_pools :
      (b : PoolBook) (log : Log) (c : CanCommit b log) (j : Text)
      → lookup j (apply_log parse_u256 b log).1.pools ≡ (
          if text_eq (normalize_address_key c.emitter) j
          then some (v2 (Sync.synced c.before log c.r0 c.r1))
          else lookup j b.pools)
  commit_pools b log c j =
      let k = normalize_address_key c.emitter in
      let q = v2 (Sync.synced c.before log c.r0 c.r1) in
      rw (apply_log_commits parse_u256 b log c)
        (ground (arith, lookup-insert j k q (remove k b.pools), lookup-remove j k b.pools))

  pub commit_history :
      (b : PoolBook) (log : Log) (c : CanCommit b log) (k : AppliedLogKey)
      → lookup k (apply_log parse_u256 b log).1.applied_sync_history
        ≡ (if key_eq c.key k then some (V2.snapshot c.before) else lookup k b.applied_sync_history)
  commit_history b log c k =
      rw (apply_log_commits parse_u256 b log c)
        (lookup-insert k c.key (V2.snapshot c.before) b.applied_sync_history)

  -- Undoing one log in a book that cannot be told from the one that it left.
  pub undo_one :
      (b d : PoolBook) (log : Log) (c : CanCommit b log)
      → lookup c.key b.applied_sync_history ≡ none
      → Same (apply_log parse_u256 b log).1 d
      → Same b (apply_log parse_u256 d (undo log)).1
  undo_one b d log c fresh same =
      let k = normalize_address_key c.emitter in
      let q = Sync.synced c.before log c.r0 c.r1 in
      let s = V2.snapshot c.before in
      let dp : lookup k d.pools ≡ some (v2 q) =
        ground (arith, same.pools k, commit_pools b log c k, text_eq_refl k) in
      let dh : lookup c.key d.applied_sync_history ≡ some s =
        ground (arith, same.history c.key, commit_history b log c c.key, beq_refl c.key) in
      rw (apply_log_reverts parse_u256 b d log c q s dp dh) (record {
        pools = λ j. ground (
          arith,
          lookup-insert j k (v2 (V2.restore q s)) (remove k d.pools),
          lookup-remove j k d.pools,
          same.pools j,
          commit_pools b log c j,
          Sync.restore-synced c.before log c.r0 c.r1,
          text_eq_iff k j,
          c.found,
        );
        history = λ h. ground (
          arith,
          lookup-remove h c.key d.applied_sync_history,
          same.history h,
          commit_history b log c h,
          key_eq_iff c.key h,
          fresh,
        );
      })

  -- A run of new `Sync` logs, each with an identity that the book does not hold yet.
  pub data Run : PoolBook → List Log → PoolBook → Type 0 where
    done : (b : PoolBook) → Run b [] b
    then_log :
        (b : PoolBook) (log : Log) (rest : List Log) (d : PoolBook) (c : CanCommit b log)
        → lookup c.key b.applied_sync_history ≡ none
        → Run (apply_log parse_u256 b log).1 rest d
        → Run b (log ∷ rest) d

  -- The logs come back as removed, the last one first.
  unfoldable pub undo_all : List Log → PoolBook → PoolBook
  undo_all [] d = d
  undo_all (log ∷ rest) d = (apply_log parse_u256 (undo_all rest d) (undo log)).1

  undo-Same :
      {b d : PoolBook} {logs : List Log} (e : PoolBook)
      → Run b logs d
      → Same d e
      → Same b (undo_all logs e)
  unfolding undo_all
  undo-Same e (done b) same = same
  undo-Same e (then_log b log rest d c fresh run) same =
      undo_one b (undo_all rest e) log c fresh (undo-Same e run same)

  -- For a run of new Sync logs of V2 pools of the book, each with an identity that the book's
  -- history does not hold yet, delivering the same logs as removed, the last one first, gives a
  -- book whose lookups of pools and of snapshots are those from before the run.
  pub reorg_restores : (b d : PoolBook) (logs : List Log) → Run b logs d → Same b (undo_all logs d)
  reorg_restores b d logs run = undo-Same d run (Same-refl d)
