-- ===== src/Markets/V2/Sync.antt =====
-- `apply_log` on a V2 pool: when it applies, what it writes, and what undoes it.
use base_execution_engine.Base.{
  >>=-eq-ok, Bool-cases, Option-cases, arith, fail_if_ok, inl, inr, ok, ok_or_ok, refl, some, true,
  ℕ, ◌<◌, ◌==◌, ◌||◌, ◌≡◌,
}
use base_execution_engine.Base.Text.{Text, eq_ignore_ascii_case, text}
use base_execution_engine.Types.{DecodedLogEvent, DecodedLogKind, Log, v2_sync}
use base_execution_engine.Markets.Error.{
  missing_decoded_field, MarketEventOutcome, applied, ignored, block_number,
}
use base_execution_engine.Markets.V2.{
  V2PoolState, apply_sync, apply_sync_event, apply_decoded, apply_log, snapshot, restore,
}
use base_execution_engine.Markets.V2.Quote.{IsValid}

-- The log is a `Sync` of this pool that carries two positive reserves.
pub record IsSync (p : V2PoolState) (log : Log) (r0 r1 : ℕ) : Type 0 where
  pub emitter : Text
  pub address_eq : log.address ≡ some emitter
  pub same_pool : eq_ignore_ascii_case emitter p.address ≡ true
  pub decoded : DecodedLogEvent
  pub decoded_eq : log.decoded_event ≡ some decoded
  pub kind_eq : decoded.kind ≡ v2_sync
  pub reserve0_eq : decoded.reserve0 ≡ some r0
  pub reserve1_eq : decoded.reserve1 ≡ some r1
  pub pos0 : 0 < r0
  pub pos1 : 0 < r1

-- The pool after such a log.
abbrev pub synced : V2PoolState → Log → ℕ → ℕ → V2PoolState
synced p log r0 r1 = record p {
  reserve0 = r0;
  reserve1 = r1;
  last_updated_block = block_number log.metadata.block_context;
}

-- A `Sync` of this pool writes both reserves and the block, and nothing else.
pub apply_log-synced :
    (p : V2PoolState) (log : Log) (r0 r1 : ℕ)
    → IsSync p log r0 r1
    → apply_log p log ≡ ok (applied, synced p log r0 r1)
unfolding apply_log apply_decoded apply_sync_event apply_sync
apply_log-synced p log r0 r1 s = ground arith

pub restore-synced :
    (p : V2PoolState) (log : Log) (r0 r1 : ℕ) → restore (synced p log r0 r1) (snapshot p) ≡ p
unfolding restore snapshot
restore-synced p log r0 r1 = refl

restore_self : (p : V2PoolState) → restore p (snapshot p) ≡ p
unfolding restore snapshot
restore_self p = refl

-- What a successful `apply_log` on a V2 pool has done.
pub data Outcome (p : V2PoolState) (log : Log) (o : MarketEventOutcome) (q : V2PoolState)
    : Type 0 where
  sync_applied :
      (r0 r1 : ℕ) → IsSync p log r0 r1 → o ≡ applied → q ≡ synced p log r0 r1 → Outcome p log o q
  log_ignored : o ≡ ignored → q ≡ p → Outcome p log o q

event-Outcome :
    (p : V2PoolState) (log : Log) (emitter : Text) (d : DecodedLogEvent) (k : DecodedLogKind)
    (o : MarketEventOutcome) (q : V2PoolState)
    → log.address ≡ some emitter
    → eq_ignore_ascii_case emitter p.address ≡ true
    → log.decoded_event ≡ some d
    → d.kind ≡ k
    → apply_decoded k p d (block_number log.metadata.block_context) ≡ ok (o, q)
    → Outcome p log o q
unfolding apply_decoded apply_sync_event apply_sync
event-Outcome p log emitter d v2_sync o q ea em ed ek h =
    let (r0, e0, h0) = ok_or_ok d.reserve0 (missing_decoded_field (text "reserve0")) _ h in
    let (r1, e1, h1) = ok_or_ok d.reserve1 (missing_decoded_field (text "reserve1")) _ h0 in
    let (u, eu, h2) =
      >>=-eq-ok (apply_sync p r0 r1 (block_number log.metadata.block_context)) _ h1 in
    let (nz, h3) = fail_if_ok ((r0 == 0) || (r1 == 0)) _ _ eu in
    sync_applied r0 r1
      (record {
        emitter = emitter;
        address_eq = ea;
        same_pool = em;
        decoded = d;
        decoded_eq = ed;
        kind_eq = ek;
        reserve0_eq = e0;
        reserve1_eq = e1;
        pos0 = ground arith;
        pos1 = ground arith;
      })
      (ground arith) (ground arith)
event-Outcome p log emitter d _ o q ea em ed ek h = log_ignored (ground arith) (ground arith)

-- A V2 pool that answers a log without an error either applied a Sync of its own address with two
-- positive reserves, and then only the reserves and the block are written, or ignored the log and
-- is unchanged.
pub apply_log-Outcome :
    (p : V2PoolState) (log : Log) (o : MarketEventOutcome) (q : V2PoolState)
    → apply_log p log ≡ ok (o, q)
    → Outcome p log o q
unfolding apply_log
apply_log-Outcome p log o q h = elim (Option-cases log.address) [
  | inl ea ↦ log_ignored (ground arith) (ground arith)
  | inr (emitter, ea) ↦ elim (Bool-cases (eq_ignore_ascii_case emitter p.address)) [
    | inl em ↦ elim (Option-cases log.decoded_event) [
      | inl ed ↦ log_ignored (ground arith) (ground arith)
      | inr (d, ed) ↦ event-Outcome p log emitter d d.kind o q ea em ed refl (ground arith)
    ]
    | inr em ↦ log_ignored (ground arith) (ground arith)
  ]
]

-- A pool stays valid, and keeps its address.
pub apply_log-IsValid :
    (p : V2PoolState) (log : Log) (o : MarketEventOutcome) (q : V2PoolState)
    → IsValid p
    → apply_log p log ≡ ok (o, q)
    → IsValid q × (q.address ≡ p.address)
apply_log-IsValid p log o q v h = by_outcome (apply_log-Outcome p log o q h)
  where
    by_outcome : Outcome p log o q → IsValid q × (q.address ≡ p.address)
    by_outcome (sync_applied r0 r1 s eo eq) =
        rw eq
          (record { distinct = v.distinct; pos0 = s.pos0; pos1 = s.pos1; fee_lt = v.fee_lt }, refl)
    by_outcome (log_ignored eo eq) = rw eq (v, refl)

-- Restoring the snapshot taken before an update gives the pool back.
pub restore-apply_log :
    (p : V2PoolState) (log : Log) (o : MarketEventOutcome) (q : V2PoolState)
    → apply_log p log ≡ ok (o, q)
    → restore q (snapshot p) ≡ p
restore-apply_log p log o q h = by_outcome (apply_log-Outcome p log o q h)
  where
    by_outcome : Outcome p log o q → restore q (snapshot p) ≡ p
    by_outcome (sync_applied r0 r1 s eo eq) = rw eq (restore-synced p log r0 r1)
    by_outcome (log_ignored eo eq) = rw eq (restore_self p)
