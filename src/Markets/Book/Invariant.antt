-- ===== src/Markets/Book/Invariant.antt =====
-- The invariant of a book, kept by every operation, also by one that fails.
use base_execution_engine.Base.{
  All, Bool-cases, List, Option, Option-cases, Result, Result-cases, ap, arith, err, false, inl,
  inr, none, ok, refl, some, unwrap_or, ℕ, ◌<◌, ◌>>=◌, ◌∙◌, ◌≡◌,
}
use base_execution_engine.Base.Text.{Text}
use base_execution_engine.Base.Maps.{
  Distinct, insert-All, insert-Distinct, lookup, lookup-All, remove, remove-All, remove-Distinct,
  text_Eq,
}
use base_execution_engine.Types.{DecodedLogEvent, DecodedLogKind, Log, v2_sync}
use base_execution_engine.Markets.Error.{MarketError, MarketEventOutcome, ignored}
use base_execution_engine.Markets.V2
use base_execution_engine.Markets.V2.{V2PoolState, V2SyncSnapshot}
use base_execution_engine.Markets.V2.Quote
use base_execution_engine.Markets.V2.Sync
use base_execution_engine.Markets.V3
use base_execution_engine.Markets.V3.{V3PoolState}
use base_execution_engine.Markets.V3.Swap
use base_execution_engine.Markets.Book.{
  PoolState, v2, v3, PoolBook, History, AppliedLogKey, key_Eq, address, normalize_address_key,
  applied_log_key, revert_sync, commit_sync, is_applied, apply_v2_event, apply_v2_log, apply_state,
  put_back, apply_log, insert_v2_pool, insert_v3_pool, new_book,
}
use base_execution_engine.Markets.Book.Effects.{apply_log_known, apply_log_unknown}

abbrev pub IsGood : PoolState → Type 0
IsGood (v2 p) = Quote.IsValid p
IsGood (v3 p) = Swap.IsSane p

-- A pool stands under the key of its own address, and is fit for quoting.
abbrev pub EntryGood : Text × PoolState → Type 0
EntryGood (k, s) = (normalize_address_key (address s) ≡ k) × IsGood s

abbrev pub SnapshotGood : AppliedLogKey × V2SyncSnapshot → Type 0
SnapshotGood (k, s) = (0 < s.reserve0) × (0 < s.reserve1)

pub record IsSound (b : PoolBook) : Type 0 where
  pub distinct : Distinct b.pools
  pub entries : All EntryGood b.pools
  pub snapshots : All SnapshotGood b.applied_sync_history

pub new_book-IsSound : IsSound new_book
new_book-IsSound = record { distinct = tt; entries = tt; snapshots = tt }

-- What one attempt on a V2 pool leaves.
abbrev V2Good :
    V2PoolState → Result MarketError (MarketEventOutcome × V2PoolState × History) → Type 0
V2Good p (ok (o, q, h)) = Quote.IsValid q × (q.address ≡ p.address) × All SnapshotGood h
V2Good p (err e) = Unit

restore-IsValid :
    (p : V2PoolState) (s : V2SyncSnapshot)
    → Quote.IsValid p
    → 0 < s.reserve0
    → 0 < s.reserve1
    → Quote.IsValid (V2.restore p s) × ((V2.restore p s).address ≡ p.address)
unfolding V2.restore
restore-IsValid p s v p0 p1 =
    (record { distinct = v.distinct; pos0 = p0; pos1 = p1; fee_lt = v.fee_lt }, refl)

revert_sync-V2Good :
    (key : AppliedLogKey) (h : History) (p : V2PoolState)
    → Quote.IsValid p
    → All SnapshotGood h
    → V2Good p (revert_sync key h p)
unfolding revert_sync
revert_sync-V2Good key h p v hs = elim (Option-cases (lookup key h)) [
  | inl e ↦ rw (e, V2Good) tt
  | inr (s, e) ↦
      let good = lookup-All SnapshotGood key s h hs e in
      let r = restore-IsValid p s v good.0 good.1 in
      rw (e, V2Good) (r.0, r.1, remove-All SnapshotGood key h hs)
]

commit_sync-V2Good :
    (key : AppliedLogKey) (h : History) (p : V2PoolState) (log : Log)
    → Quote.IsValid p
    → All SnapshotGood h
    → V2Good p (commit_sync key h p log)
unfolding commit_sync V2.snapshot
commit_sync-V2Good key h p log v hs = elim (Result-cases (V2.apply_log p log)) [
  | inl ((o, q), e) ↦
      let kept = Sync.apply_log-IsValid p log o q v e in
      let ins = insert-All SnapshotGood key (V2.snapshot p) h hs (v.pos0, v.pos1) in
      rw (e, V2Good)
        (elim (Bool-cases (is_applied o)) [
          | inl yes_applied ↦ rw yes_applied (kept.0, kept.1, ins)
          | inr not_applied ↦ rw not_applied (kept.0, kept.1, hs)
        ])
  | inr (x, e) ↦ rw (e, V2Good) tt
]

apply_v2_event-V2Good :
    (k : DecodedLogKind) (h : History) (p : V2PoolState) (log : Log)
    → Quote.IsValid p
    → All SnapshotGood h
    → V2Good p (apply_v2_event k h p log)
unfolding apply_v2_event
apply_v2_event-V2Good v2_sync h p log v hs = elim (Result-cases (applied_log_key log)) [
  | inl (key, e) ↦
      rw (e, V2Good)
        (elim (Bool-cases (unwrap_or log.removed false)) [
          | inl gone ↦ rw (gone, V2Good) (revert_sync-V2Good key h p v hs)
          | inr live ↦ rw (live, V2Good) (commit_sync-V2Good key h p log v hs)
        ])
  | inr (x, e) ↦ rw (e, V2Good) tt
]
apply_v2_event-V2Good _ h p log v hs = (v, refl, hs)

apply_v2_log-V2Good :
    (h : History) (p : V2PoolState) (log : Log)
    → Quote.IsValid p
    → All SnapshotGood h
    → V2Good p (apply_v2_log h p log)
unfolding apply_v2_log
apply_v2_log-V2Good h p log v hs = by_event log.decoded_event
  where
    by_event :
        (d : Option DecodedLogEvent)
        → V2Good p (elim d [ none ↦ ok (ignored, p, h) | some d' ↦ apply_v2_event d'.kind h p log ])
    by_event none = (v, refl, hs)
    by_event (some d) = apply_v2_event-V2Good d.kind h p log v hs

-- What one attempt on a pool leaves.
abbrev StateGood :
    PoolState → Result MarketError (MarketEventOutcome × PoolState × History) → Type 0
StateGood s (ok (o, t, h)) = IsGood t × (address t ≡ address s) × All SnapshotGood h
StateGood s (err e) = Unit

apply_state-StateGood :
    (parse_u256 : Text → Option ℕ) (h : History) (s : PoolState) (log : Log)
    → IsGood s
    → All SnapshotGood h
    → StateGood s (apply_state parse_u256 h s log)
unfolding apply_state address
apply_state-StateGood parse_u256 h (v2 p) log g hs =
    by_result (apply_v2_log h p log) (apply_v2_log-V2Good h p log g hs)
  where
    by_result :
        (r : Result MarketError (MarketEventOutcome × V2PoolState × History))
        → V2Good p r
        → StateGood (v2 p) (r >>= λ x. ok (x.0, v2 x.1, x.2))
    by_result (ok (o, q, h')) k = k
    by_result (err e) k = tt
apply_state-StateGood parse_u256 h (v3 p) log g hs = by_result (V3.apply_log parse_u256 p log) refl
  where
    by_result :
        (r : Result MarketError (MarketEventOutcome × V3PoolState))
        → V3.apply_log parse_u256 p log ≡ r
        → StateGood (v3 p) (r >>= λ x. ok (x.0, v3 x.1, h))
    by_result (ok (o, q)) e =
        let k = Swap.apply_log-IsSane parse_u256 p log o q g e in (k.0, k.1, hs)
    by_result (err e) k = tt

put_back-IsSound :
    (parse_u256 : Text → Option ℕ) (key : Text) (m : List (Text × PoolState)) (h : History)
    (s : PoolState) (r : Result MarketError (MarketEventOutcome × PoolState × History))
    → Distinct m
    → All EntryGood m
    → All SnapshotGood h
    → EntryGood (key, s)
    → StateGood s r
    → IsSound (put_back parse_u256 key m h r).1
unfolding put_back
put_back-IsSound parse_u256 key m h s (ok (o, t, h')) d a hs g k = record {
  distinct = insert-Distinct key t m d;
  entries = insert-All EntryGood key t m a (ap normalize_address_key k.1 ∙ g.0, k.0);
  snapshots = k.2;
}
put_back-IsSound parse_u256 key m h s (err e) d a hs g k = record {
  distinct = d;
  entries = a;
  snapshots = hs;
}

-- Applying any log to a sound book, with success or with an error, leaves a sound book: no key
-- stands twice, each pool stands under the key of its own address, a V2 pool is valid, a V3 pool
-- has its price in the range and its tokens, fee and spacing valid, and every snapshot has positive
-- reserves.
pub apply_log-IsSound :
    (parse_u256 : Text → Option ℕ) (b : PoolBook) (log : Log)
    → IsSound b
    → IsSound (apply_log parse_u256 b log).1
apply_log-IsSound parse_u256 b log v = elim (Option-cases log.address) [
  | inl ea ↦ rw (apply_log_unknown parse_u256 b log (λ a e. cc)) v
  | inr (a, ea) ↦ elim (Option-cases (lookup (normalize_address_key a) b.pools)) [
    | inl el ↦ rw (apply_log_unknown parse_u256 b log (λ a' e. ground (arith, e, ea, el))) v
    | inr (s, es) ↦
        let key = normalize_address_key a in
        let good = lookup-All EntryGood key s b.pools v.entries es in
        rw (apply_log_known parse_u256 b log a s ea es) (
          put_back-IsSound parse_u256 key (remove key b.pools) b.applied_sync_history s
            (apply_state parse_u256 b.applied_sync_history s log)
            (remove-Distinct key b.pools v.distinct) (remove-All EntryGood key b.pools v.entries)
            v.snapshots good
            (apply_state-StateGood parse_u256 b.applied_sync_history s log good.1 v.snapshots))
  ]
]

-- So do the two insertions of a pool that passed validation.
pub insert_v2_pool-IsSound :
    (b : PoolBook) (p : V2PoolState) → Quote.IsValid p → IsSound b → IsSound (insert_v2_pool b p)
unfolding insert_v2_pool address
insert_v2_pool-IsSound b p v h = record {
  distinct = insert-Distinct (normalize_address_key p.address) (v2 p) b.pools h.distinct;
  entries =
      insert-All EntryGood (normalize_address_key p.address) (v2 p) b.pools h.entries (refl, v);
  snapshots = h.snapshots;
}

pub insert_v3_pool-IsSound :
    (b : PoolBook) (p : V3PoolState) → Swap.IsSane p → IsSound b → IsSound (insert_v3_pool b p)
unfolding insert_v3_pool address
insert_v3_pool-IsSound b p v h = record {
  distinct = insert-Distinct (normalize_address_key p.address) (v3 p) b.pools h.distinct;
  entries =
      insert-All EntryGood (normalize_address_key p.address) (v3 p) b.pools h.entries (refl, v);
  snapshots = h.snapshots;
}
