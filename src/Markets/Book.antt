-- ===== src/Markets/Book.antt =====
-- `PoolState` and `PoolBook` of crates/markets/src/lib.rs. An operation on `&mut self` returns the
-- new book beside its result, also when it fails.
pub mod Effects
pub mod Invariant
pub mod Reorg
pub mod Faults
mod Tests
use base_execution_engine.Base.{
  Bool, List, Option, Result, [], arith, err, false, if◌then◌else◌, none, ok, ok_or, some, true,
  unwrap_or, ℕ, ◌&&◌, ◌++◌, ◌==◌, ◌>>=◌, ◌>>◌, ◌↔◌, ◌∷◌, ◌≡◌,
}
use base_execution_engine.Base.Text.{
  Text, strip_0x, text, text_eq, text_eq_iff, to_ascii_lowercase, trim,
}
use base_execution_engine.Base.Maps.{Eq, insert, lookup, remove, text_Eq}
use base_execution_engine.Types.{Address, Amount, DecodedLogKind, Log, TxHash, v2_sync}
use base_execution_engine.Markets.Error.{
  MarketError, MarketEventOutcome, applied, ignored, reverted, PoolQuote, missing_log_identity,
  missing_revert_snapshot,
}
use base_execution_engine.Markets.V2
use base_execution_engine.Markets.V2.{V2PoolState, V2SyncSnapshot}
use base_execution_engine.Markets.V3
use base_execution_engine.Markets.V3.{V3PoolState}

pub data PoolKind : Type 0 where
  constant_product concentrated_liquidity : PoolKind

pub data PoolState : Type 0 where
  v2 : V2PoolState → PoolState
  v3 : V3PoolState → PoolState

unfoldable pub kind : PoolState → PoolKind
kind (v2 p) = constant_product
kind (v3 p) = concentrated_liquidity

unfoldable pub address : PoolState → Address
address (v2 p) = p.address
address (v3 p) = p.address

unfoldable pub quote_exact_in : PoolState → Address → Amount → Result MarketError PoolQuote
quote_exact_in (v2 p) token_in amount_in = V2.quote_exact_in p token_in amount_in
quote_exact_in (v3 p) token_in amount_in = V3.quote_exact_in p token_in amount_in

pub record AppliedLogKey : Type 0 where
  pub tx_hash : TxHash
  pub log_index : ℕ

unfoldable pub key_eq : AppliedLogKey → AppliedLogKey → Bool
key_eq a b = text_eq a.tx_hash b.tx_hash && (a.log_index == b.log_index)

pub key_eq_iff : (a b : AppliedLogKey) → (key_eq a b ≡ true) ↔ (a ≡ b)
unfolding key_eq
key_eq_iff a b = ground (arith, text_eq_iff a.tx_hash b.tx_hash)

instance abbrev pub key_Eq : Eq AppliedLogKey
key_Eq = record { beq = key_eq; beq_iff = key_eq_iff }

abbrev pub History : Type 0
History = List (AppliedLogKey × V2SyncSnapshot)

pub record PoolBook : Type 0 where
  pub pools : List (Text × PoolState)
  pub applied_sync_history : History

-- `PoolBook::new`
abbrev pub new_book : PoolBook
new_book = record { pools = []; applied_sync_history = [] }

unfoldable pub normalize_address_key : Address → Text
normalize_address_key a = text "0x" ++ to_ascii_lowercase (strip_0x (trim a))

unfoldable pub applied_log_key : Log → Result MarketError AppliedLogKey
applied_log_key log = do
  tx_hash ← ok_or log.metadata.tx_hash missing_log_identity
  log_index ← ok_or log.log_index missing_log_identity
  ok (record { tx_hash = tx_hash; log_index = log_index })

unfoldable pub insert_v2_pool : PoolBook → V2PoolState → PoolBook
insert_v2_pool b p = record b { pools = insert (normalize_address_key p.address) (v2 p) b.pools }

unfoldable pub insert_v3_pool : PoolBook → V3PoolState → PoolBook
insert_v3_pool b p = record b { pools = insert (normalize_address_key p.address) (v3 p) b.pools }

unfoldable pub pool : PoolBook → Address → Option PoolState
pool b a = lookup (normalize_address_key a) b.pools

unfoldable pub v2_pool : PoolBook → Address → Option V2PoolState
v2_pool b a = elim (pool b a) [ some s ↦ elim s [ v2 p ↦ some p | v3 p ↦ none ] | none ↦ none ]

unfoldable pub v3_pool : PoolBook → Address → Option V3PoolState
v3_pool b a = elim (pool b a) [ some s ↦ elim s [ v2 p ↦ none | v3 p ↦ some p ] | none ↦ none ]

unfoldable pub v2_values : List (Text × PoolState) → List V2PoolState
v2_values [] = []
v2_values ((k, v2 p) ∷ m) = p ∷ v2_values m
v2_values ((k, v3 p) ∷ m) = v2_values m

unfoldable pub v2_pools : PoolBook → List V2PoolState
v2_pools b = v2_values b.pools

unfoldable pub v3_values : List (Text × PoolState) → List V3PoolState
v3_values [] = []
v3_values ((k, v2 p) ∷ m) = v3_values m
v3_values ((k, v3 p) ∷ m) = p ∷ v3_values m

unfoldable pub v3_pools : PoolBook → List V3PoolState
v3_pools b = v3_values b.pools

-- A removed log takes its snapshot out of the history and restores it.
unfoldable pub revert_sync :
    AppliedLogKey
    → History
    → V2PoolState
    → Result MarketError (MarketEventOutcome × V2PoolState × History)
revert_sync key history p = elim (lookup key history) [
  | none ↦ err (missing_revert_snapshot key.tx_hash key.log_index)
  | some previous ↦ ok (reverted, V2.restore p previous, remove key history)
]

abbrev pub is_applied : MarketEventOutcome → Bool
is_applied applied = true
is_applied _ = false

-- Any other log is applied, and the state before it is kept under its identity.
unfoldable pub commit_sync :
    AppliedLogKey
    → History
    → V2PoolState
    → Log
    → Result MarketError (MarketEventOutcome × V2PoolState × History)
commit_sync key history p log = do
  (outcome, updated) ← V2.apply_log p log
  ok (
    outcome,
    updated,
    (if is_applied outcome then insert key (V2.snapshot p) history else history),
  )

unfoldable pub apply_v2_event :
    DecodedLogKind
    → History
    → V2PoolState
    → Log
    → Result MarketError (MarketEventOutcome × V2PoolState × History)
apply_v2_event v2_sync history p log = do
  key ← applied_log_key log
  if unwrap_or log.removed false then revert_sync key history p else commit_sync key history p log
apply_v2_event _ history p log = ok (ignored, p, history)

unfoldable pub apply_v2_log :
    History → V2PoolState → Log → Result MarketError (MarketEventOutcome × V2PoolState × History)
apply_v2_log history p log = elim log.decoded_event [
  | none ↦ ok (ignored, p, history)
  | some decoded ↦ apply_v2_event decoded.kind history p log
]

module _ (parse_u256 : Text → Option ℕ) where
  unfoldable pub apply_state :
      History → PoolState → Log → Result MarketError (MarketEventOutcome × PoolState × History)
  apply_state history (v2 p) log = do
    (outcome, updated, history') ← apply_v2_log history p log
    ok (outcome, v2 updated, history')
  apply_state history (v3 p) log = do
    (outcome, updated) ← V3.apply_log parse_u256 p log
    ok (outcome, v3 updated, history)

  -- `apply_log` takes the pool out of the book, and puts it back unless the `?` has returned.
  unfoldable pub put_back :
      Text
      → List (Text × PoolState)
      → History
      → Result MarketError (MarketEventOutcome × PoolState × History)
      → Result MarketError MarketEventOutcome × PoolBook
  put_back key rest history (ok (outcome, updated, history')) =
      (ok outcome, record { pools = insert key updated rest; applied_sync_history = history' })
  put_back key rest history (err e) =
      (err e, record { pools = rest; applied_sync_history = history })

  -- `PoolBook::apply_log`
  unfoldable pub apply_log : PoolBook → Log → Result MarketError MarketEventOutcome × PoolBook
  apply_log b log = elim log.address [
    | none ↦ (ok ignored, b)
    | some a ↦ elim (lookup (normalize_address_key a) b.pools) [
      | none ↦ (ok ignored, b)
      | some state ↦
          put_back (normalize_address_key a) (remove (normalize_address_key a) b.pools)
            b.applied_sync_history (apply_state b.applied_sync_history state log)
    ]
  ]
