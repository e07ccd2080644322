-- ===== src/Discovery/Factory.antt =====
-- crates/discovery/src/factory.rs.
use Prim.Native.Nat.{max}
use base_execution_engine.Base.{
  Bool, Option, Result, fail_if, false, none, true, unwrap_or, ℕ, ◌>>◌,
}
use base_execution_engine.Base.Text.{Text, is_empty, text, trim}
use base_execution_engine.Types.{Address, BlockNumber, Exchange, Protocol}

pub data FactoryKind : Type 0 where
  v2_factory v3_factory : FactoryKind

pub record FactoryConfig : Type 0 where
  pub address : Address
  pub kind : FactoryKind
  pub protocol : Protocol
  pub exchange : Option Exchange
  pub deployment_block : BlockNumber
  pub default_v2_fee_bps : Option ℕ
  pub log_chunk_size : Option ℕ

unfoldable pub needs_fee : FactoryKind → Option ℕ → Bool
needs_fee v2_factory none = true
needs_fee _ _ = false

unfoldable pub validate : FactoryConfig → Result Text (Unit {0})
validate factory = do
  fail_if (is_empty (trim factory.address)) (text "factory address must not be empty")
  fail_if (needs_fee factory.kind factory.default_v2_fee_bps)
      (text "v2 factory requires default_v2_fee_bps")

unfoldable pub log_chunk_size_or_default : FactoryConfig → ℕ
log_chunk_size_or_default factory = max (unwrap_or factory.log_chunk_size 5000) 1
