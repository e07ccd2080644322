-- ===== src/Ingest/Log/Applies.antt =====
-- A raw log, decoded and given to a V2 pool: what makes the pool change, and how.
use base_execution_engine.Base.{
  >>=?-eq-some, List, Option, ap, arith, ok, refl, some, true, unwrap_or, ℕ, ◌<◌, ◌↔◌, ◌∙◌, ◌≡◌,
}
use base_execution_engine.Base.Text.{Text, eq_ignore_ascii_case, text, text_eq}
use base_execution_engine.Types.{Address, Exchange, Metadata, Protocol, v2_sync}
use base_execution_engine.Registry.{resolve_log}
use base_execution_engine.Ingest.Events.{EventAbi, SyncEvent, sync_signature}
use base_execution_engine.Ingest.Log.{
  RawLogMessage, empty_event, sync_event, decode_structured_event, decode_topics, decode_data,
  decode, to_log, event_signature,
}
use base_execution_engine.Ingest.Log.Decoded.{decode_event-sync}
use base_execution_engine.Markets.Error.{applied}
use base_execution_engine.Markets.V2.{V2PoolState, apply_log}
use base_execution_engine.Markets.V2.Sync.{
  IsSync, synced, Outcome, sync_applied, log_ignored, apply_log-synced, apply_log-Outcome,
}

-- The raw log is a `Sync` of the pool, of which the decoder reads two positive reserves.
pub record IsRawSync (abi : EventAbi) (m : RawLogMessage) (p : V2PoolState) (r0 r1 : ℕ)
    : Type 0 where
  pub signed : event_signature m ≡ some sync_signature
  pub topics : List abi.B256
  pub topics_eq : decode_topics abi m.topics ≡ some topics
  pub bytes : List ℕ
  pub bytes_eq : decode_data abi (unwrap_or m.payload (text "0x")) ≡ some bytes
  pub event : SyncEvent
  pub event_eq : abi.sync_log topics bytes ≡ some event
  pub reserve0_eq : event.reserve0 ≡ r0
  pub reserve1_eq : event.reserve1 ≡ r1
  pub emitter : Address
  pub address_eq : m.address ≡ some emitter
  pub same_pool : eq_ignore_ascii_case emitter p.address ≡ true
  pub pos0 : 0 < r0
  pub pos1 : 0 < r1

module _ (abi : EventAbi) (m : RawLogMessage) where
  -- The event that is decoded of such a log.
  decode_structured_event-sync :
      (p : V2PoolState) (r0 r1 : ℕ) (protocol : Option Protocol) (exchange : Option Exchange)
      (s : IsRawSync abi m p r0 r1)
      → decode_structured_event abi m (event_signature m) protocol exchange
        ≡ sync_event abi m.address protocol exchange s.event
  unfolding decode_structured_event sync_event text_eq text
  decode_structured_event-sync p r0 r1 protocol exchange s =
      rw s.signed rw s.topics_eq rw s.bytes_eq rw s.event_eq refl

module _ (abi : EventAbi) (m : RawLogMessage) (metadata : Metadata) (p : V2PoolState) where
  to_log-IsSync : (r0 r1 : ℕ) → IsRawSync abi m p r0 r1 → IsSync p (to_log abi m metadata) r0 r1
  unfolding to_log decode decode_structured_event sync_event empty_event
  to_log-IsSync r0 r1 s =
      let resolution = resolve_log (event_signature m) m.address in
      record {
        emitter = s.emitter;
        address_eq = s.address_eq;
        same_pool = s.same_pool;
        decoded = record (empty_event v2_sync m.address resolution.protocol resolution.exchange) {
          reserve0 = some s.event.reserve0;
          reserve1 = some s.event.reserve1;
        };
        decoded_eq =
            decode_structured_event-sync abi m p r0 r1 resolution.protocol resolution.exchange s;
        kind_eq = refl;
        reserve0_eq = ap (λ (r : ℕ). some r) s.reserve0_eq;
        reserve1_eq = ap (λ (r : ℕ). some r) s.reserve1_eq;
        pos0 = s.pos0;
        pos1 = s.pos1;
      }

  IsSync-raw : (r0 r1 : ℕ) → IsSync p (to_log abi m metadata) r0 r1 → IsRawSync abi m p r0 r1
  unfolding to_log decode decode_structured_event sync_event empty_event
  IsSync-raw r0 r1 s =
      let resolution = resolve_log (event_signature m) m.address in
      let (sig, signed, h0) = >>=?-eq-some (event_signature m) _ s.decoded_eq in
      let (topics, topics_eq, h1) = >>=?-eq-some (decode_topics abi m.topics) _ h0 in
      let (bytes, bytes_eq, h2) =
        >>=?-eq-some (decode_data abi (unwrap_or m.payload (text "0x"))) _ h1 in
      let (same, (event, event_eq, made)) =
        decode_event-sync abi m.address resolution.protocol resolution.exchange s.decoded sig topics
          bytes h2 s.kind_eq in
      record {
        signed = signed ∙ ap (λ (t : Text). some t) same;
        topics = topics;
        topics_eq = topics_eq;
        bytes = bytes;
        bytes_eq = bytes_eq;
        event = event;
        event_eq = event_eq;
        reserve0_eq = ground (arith, s.reserve0_eq);
        reserve1_eq = ground (arith, s.reserve1_eq);
        emitter = s.emitter;
        address_eq = s.address_eq;
        same_pool = s.same_pool;
        pos0 = s.pos0;
        pos1 = s.pos1;
      }

  -- A log that was decoded from a raw message changes a V2 pool to a given state exactly when the
  -- message has the signature of Sync and the address of the pool, its topics and data are decoded
  -- to two positive reserves, and the state is the pool with these reserves and the block of the
  -- log.
  pub apply_log-to_log_iff :
      (q : V2PoolState)
      → (apply_log p (to_log abi m metadata) ≡ ok (applied, q)) ↔ (
          (r0 : ℕ) × (r1 : ℕ) × IsRawSync abi m p r0 r1
          × (q ≡ synced p (to_log abi m metadata) r0 r1))
  apply_log-to_log_iff q = (
    λ h. changed (apply_log-Outcome p (to_log abi m metadata) applied q h),
    λ (r0, r1, s, e).
        rw e (apply_log-synced p (to_log abi m metadata) r0 r1 (to_log-IsSync r0 r1 s)),
  )
    where
      changed :
          Outcome p (to_log abi m metadata) applied q
          → (r0 : ℕ) × (r1 : ℕ) × IsRawSync abi m p r0 r1
            × (q ≡ synced p (to_log abi m metadata) r0 r1)
      changed (sync_applied r0 r1 s o e) = (r0, r1, IsSync-raw r0 r1 s, e)
      changed (log_ignored o e) = ground arith
