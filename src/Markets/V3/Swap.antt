-- ===== src/Markets/V3/Swap.antt =====
-- `apply_log` on a V3 pool: it adopts the state that a `Swap` log publishes, or changes nothing.
use base_execution_engine.Base.Text.{Text, eq_ignore_ascii_case, text}
use base_execution_engine.Base.{
  >>=-eq-ok, Bool-cases, Option, Option-cases, arith, fail_if_ok, false, inl, inr, ok, ok_or_ok,
  refl, some, true, ℕ, ◌<◌, ◌≡◌, ◌≢◌, ◌≤◌,
}
use base_execution_engine.Base.Int.{is_nonpositive, ℤ}
use base_execution_engine.Types.{DecodedLogEvent, DecodedLogKind, Log, v3_swap}
use base_execution_engine.Markets.Error.{
  MarketEventOutcome, applied, ignored, missing_decoded_field, block_number,
}
use base_execution_engine.Markets.V3.{
  V3PoolState, min_sqrt_price, max_sqrt_price, out_of_range, apply_v3_swap_event, apply_decoded,
  apply_log,
}
use base_execution_engine.Markets.V3.Quote.{IsValid}

module _ (parse_u256 : Text → Option ℕ) where
  -- The log is a `Swap` of this pool that carries a price in range, a liquidity and a tick.
  pub record IsSwap (p : V3PoolState) (log : Log) (price liquidity : ℕ) (tick : ℤ) : Type 0 where
    pub emitter : Text
    pub address_eq : log.address ≡ some emitter
    pub same_pool : eq_ignore_ascii_case emitter p.address ≡ true
    pub decoded : DecodedLogEvent
    pub decoded_eq : log.decoded_event ≡ some decoded
    pub kind_eq : decoded.kind ≡ v3_swap
    pub raw : Text
    pub raw_eq : decoded.sqrt_price_x96 ≡ some raw
    pub price_eq : parse_u256 raw ≡ some price
    pub liquidity_eq : decoded.liquidity ≡ some liquidity
    pub tick_eq : decoded.tick ≡ some tick
    pub price_ge : min_sqrt_price ≤ price
    pub price_le : price ≤ max_sqrt_price

  -- The pool after such a log.
  abbrev pub swapped : V3PoolState → Log → ℕ → ℕ → ℤ → V3PoolState
  swapped p log price liquidity tick = record p {
    sqrt_price_x96 = price;
    liquidity = liquidity;
    tick = tick;
    last_updated_block = block_number log.metadata.block_context;
  }

  -- What a successful `apply_log` has done.
  pub data Outcome (p : V3PoolState) (log : Log) (o : MarketEventOutcome) (q : V3PoolState)
      : Type 0 where
    swap_applied :
        (price liquidity : ℕ) (tick : ℤ)
        → IsSwap p log price liquidity tick
        → o ≡ applied
        → q ≡ swapped p log price liquidity tick
        → Outcome p log o q
    log_ignored : o ≡ ignored → q ≡ p → Outcome p log o q

  event-Outcome :
      (p : V3PoolState) (log : Log) (emitter : Text) (d : DecodedLogEvent) (k : DecodedLogKind)
      (o : MarketEventOutcome) (q : V3PoolState)
      → log.address ≡ some emitter
      → eq_ignore_ascii_case emitter p.address ≡ true
      → log.decoded_event ≡ some d
      → d.kind ≡ k
      → apply_decoded parse_u256 k p d (block_number log.metadata.block_context) ≡ ok (o, q)
      → Outcome p log o q
  unfolding apply_decoded apply_v3_swap_event
  event-Outcome p log emitter d v3_swap o q ea em ed ek h =
      let (u, eu, h0) = >>=-eq-ok (apply_v3_swap_event parse_u256 p d) _ h in
      let missing = missing_decoded_field (text "sqrt_price_x96") in
      let (raw, er, h1) = ok_or_ok d.sqrt_price_x96 missing _ eu in
      let (price, ep, h2) = ok_or_ok (parse_u256 raw) missing _ h1 in
      let (liq, el, h3) = ok_or_ok d.liquidity (missing_decoded_field (text "liquidity")) _ h2 in
      let (tick, et, h4) = ok_or_ok d.tick (missing_decoded_field (text "tick")) _ h3 in
      let (inside, h5) = fail_if_ok (out_of_range price) _ _ h4 in
      swap_applied price liq tick
        (record {
          emitter = emitter;
          address_eq = ea;
          same_pool = em;
          decoded = d;
          decoded_eq = ed;
          kind_eq = ek;
          raw = raw;
          raw_eq = er;
          price_eq = ep;
          liquidity_eq = el;
          tick_eq = et;
          price_ge = ground arith;
          price_le = ground arith;
        })
        (ground arith) (ground arith)
  event-Outcome p log emitter d _ o q ea em ed ek h = log_ignored (ground arith) (ground arith)

  pub apply_log-Outcome :
      (p : V3PoolState) (log : Log) (o : MarketEventOutcome) (q : V3PoolState)
      → apply_log parse_u256 p log ≡ ok (o, q)
      → Outcome p log o q
  unfolding apply_log
  apply_log-Outcome p log o q h = elim (Option-cases log.address) [
    | inl ea ↦ log_ignored (ground arith) (ground arith)
    | inr (emitter, ea) ↦ elim (Bool-cases (eq_ignore_ascii_case emitter p.address)) [
      | inl em ↦ elim (Option-cases log.decoded_event) [
        | inl ed ↦ log_ignored (ground arith) (ground arith)
        | inr (d, ed) ↦ event-Outcome p log emitter d d.kind o q ea em ed refl (ground arith)
      ]
      | inr em ↦ log_ignored (ground arith) (ground arith)
    ]
  ]

  -- A `Swap` of this pool writes price, liquidity, tick and block, and nothing else.
  pub apply_log_swapped :
      (p : V3PoolState) (log : Log) (price liquidity : ℕ) (tick : ℤ)
      → IsSwap p log price liquidity tick
      → apply_log parse_u256 p log ≡ ok (applied, swapped p log price liquidity tick)
  unfolding apply_log apply_decoded apply_v3_swap_event
  apply_log_swapped p log price liquidity tick s = ground arith

-- What `apply_log` preserves: all of `IsValid` but the positive liquidity, since a swap may leave
-- the active range empty.
pub record IsSane (p : V3PoolState) : Type 0 where
  pub distinct : p.token0 ≢ p.token1
  pub fee_lt : p.fee_pips < 1000000
  pub spacing_pos : is_nonpositive p.tick_spacing ≡ false
  pub price_ge : min_sqrt_price ≤ p.sqrt_price_x96
  pub price_le : p.sqrt_price_x96 ≤ max_sqrt_price

pub IsValid-IsSane : {p : V3PoolState} → IsValid p → IsSane p
IsValid-IsSane v = record {
  distinct = v.distinct;
  fee_lt = v.fee_lt;
  spacing_pos = v.spacing_pos;
  price_ge = v.price_ge;
  price_le = v.price_le;
}

-- A log that is applied or ignored by a V3 pool within the price range leaves its price in the
-- range, its tokens distinct, its fee and its spacing valid, and its address as it was.
pub apply_log-IsSane :
    (parse_u256 : Text → Option ℕ) (p : V3PoolState) (log : Log) (o : MarketEventOutcome)
    (q : V3PoolState)
    → IsSane p
    → apply_log parse_u256 p log ≡ ok (o, q)
    → IsSane q × (q.address ≡ p.address)
apply_log-IsSane parse_u256 p log o q v h = by_outcome (apply_log-Outcome parse_u256 p log o q h)
  where
    by_outcome : Outcome parse_u256 p log o q → IsSane q × (q.address ≡ p.address)
    by_outcome (swap_applied price liquidity tick s eo eq) = rw eq (
      record {
        distinct = v.distinct;
        fee_lt = v.fee_lt;
        spacing_pos = v.spacing_pos;
        price_ge = s.price_ge;
        price_le = s.price_le;
      },
      refl,
    )
    by_outcome (log_ignored eo eq) = rw eq (v, refl)
