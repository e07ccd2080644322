-- ===== src/Markets/Book/Tests.antt =====
-- The theorems on pool books at a concrete book and log.
use base_execution_engine.Base.{[], arith, is_some, none, refl, some, to_option, ◌∷◌, ◌≡◌}
use base_execution_engine.Base.Text.{
  ascii_lower, eq_ignore_ascii_case, is_whitespace, strip_0x, text, text_eq, to_ascii_lowercase,
  trim, trim_start,
}
use base_execution_engine.Base.Maps.{lookup, text_Eq}
use base_execution_engine.Samples.{pool1, sync_log, parse_price}
use base_execution_engine.Types.{Log}
use base_execution_engine.Markets.V2
use base_execution_engine.Markets.V2.Quote
use base_execution_engine.Markets.V2.Sync
use base_execution_engine.Markets.Book.{
  v2, PoolBook, key_Eq, normalize_address_key, applied_log_key, new_book, insert_v2_pool, apply_log,
}
use base_execution_engine.Markets.Book.Invariant.{
  IsSound, new_book-IsSound, insert_v2_pool-IsSound, apply_log-IsSound,
}
use base_execution_engine.Markets.Book.Reorg.{
  CanCommit, undo, undo_all, done, then_log, Same, reorg_restores,
}
use base_execution_engine.Markets.Book.Faults.{apply_log_error_drops, redelivered_sync_stays}

-- A book that holds one pool.
abbrev book1 : PoolBook
book1 = record {
  pools = ((b'0' ∷ b'x' ∷ b'p' ∷ b'1' ∷ []), v2 pool1) ∷ [];
  applied_sync_history = [];
}

can_commit : CanCommit book1 sync_log
unfolding normalize_address_key trim trim_start is_whitespace strip_0x to_ascii_lowercase
    ascii_lower lookup text_eq text applied_log_key eq_ignore_ascii_case
can_commit = record {
  emitter = b'P' ∷ b'1' ∷ [];
  address_eq = refl;
  before = pool1;
  found = refl;
  key = record { tx_hash = b't' ∷ []; log_index = 3 };
  key_ok = refl;
  live = refl;
  r0 = 1100000000;
  r1 = 2300000000;
  sync = record {
    emitter = b'P' ∷ b'1' ∷ [];
    address_eq = refl;
    same_pool = refl;
    decoded = _;
    decoded_eq = refl;
    kind_eq = refl;
    reserve0_eq = refl;
    reserve1_eq = refl;
    pos0 = omega arith;
    pos1 = omega arith;
  };
}

reorg_restores_example :
    Same book1 (undo_all parse_price (sync_log ∷ []) (apply_log parse_price book1 sync_log).1)
unfolding lookup
reorg_restores_example =
    reorg_restores parse_price book1 (apply_log parse_price book1 sync_log).1 (sync_log ∷ [])
      (then_log book1 sync_log [] _ can_commit refl (done _))

redelivered_sync_stays_example :
    lookup
      (normalize_address_key can_commit.emitter)
      (apply_log parse_price
        (apply_log parse_price (apply_log parse_price book1 sync_log).1 sync_log).1
        (undo sync_log)).1.pools
    ≡ some (v2 (Sync.synced can_commit.before sync_log can_commit.r0 can_commit.r1))
redelivered_sync_stays_example = redelivered_sync_stays parse_price book1 sync_log can_commit

-- Without its index a log of a V2 pool is an error.
abbrev bad_log : Log
bad_log = record sync_log { log_index = none }

apply_log_error_drops_example :
    is_some (
      lookup
        (normalize_address_key (b'P' ∷ b'1' ∷ []))
        (apply_log parse_price book1 bad_log).1.pools)
    ≡ is_some (to_option (apply_log parse_price book1 bad_log).0)
unfolding normalize_address_key trim trim_start is_whitespace strip_0x to_ascii_lowercase
    ascii_lower lookup text_eq text
apply_log_error_drops_example =
    apply_log_error_drops parse_price book1 bad_log (b'P' ∷ b'1' ∷ []) (v2 pool1) refl refl

pool1-IsValid : Quote.IsValid pool1
unfolding V2.validate text_eq
pool1-IsValid = (Quote.validate-IsValid_iff pool1).0 refl

apply_log-IsSound_example :
    IsSound (apply_log parse_price (insert_v2_pool new_book pool1) sync_log).1
apply_log-IsSound_example =
    apply_log-IsSound parse_price (insert_v2_pool new_book pool1) sync_log
      (insert_v2_pool-IsSound new_book pool1 pool1-IsValid new_book-IsSound)
