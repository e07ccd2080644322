-- ===== src/Ingest/Events.antt =====
-- The events of crates/ingest/src/raw/log.rs. The decoders that `sol!` generates, the hexadecimal
-- decoder and the printers of alloy's numbers and addresses are parameters, in `EventAbi`.
use base_execution_engine.Base.{List, Option, ℕ}
use base_execution_engine.Base.Text.{Text, text}
use base_execution_engine.Base.Int.{ℤ}

-- The events of the `sol!` blocks, over alloy's type of addresses.
pub record V2SwapEvent (A : Type 0) : Type 0 where
  pub sender : A
  pub amount0_in : ℕ
  pub amount1_in : ℕ
  pub amount0_out : ℕ
  pub amount1_out : ℕ
  pub to : A

pub record SyncEvent : Type 0 where
  pub reserve0 : ℕ
  pub reserve1 : ℕ

pub record V2MintEvent (A : Type 0) : Type 0 where
  pub sender : A
  pub amount0 : ℕ
  pub amount1 : ℕ

pub record V2BurnEvent (A : Type 0) : Type 0 where
  pub sender : A
  pub amount0 : ℕ
  pub amount1 : ℕ
  pub to : A

pub record V3SwapEvent (A : Type 0) : Type 0 where
  pub sender : A
  pub recipient : A
  pub amount0 : ℤ
  pub amount1 : ℤ
  pub sqrt_price_x96 : ℕ
  pub liquidity : ℕ
  pub tick : ℤ

pub record V3MintEvent (A : Type 0) : Type 0 where
  pub sender : A
  pub owner : A
  pub tick_lower : ℤ
  pub tick_upper : ℤ
  pub amount : ℕ
  pub amount0 : ℕ
  pub amount1 : ℕ

pub record V3BurnEvent (A : Type 0) : Type 0 where
  pub owner : A
  pub tick_lower : ℤ
  pub tick_upper : ℤ
  pub amount : ℕ
  pub amount0 : ℕ
  pub amount1 : ℕ

pub record EventAbi : Type 1 where
  pub AlloyAddress : Type 0
  pub B256 : Type 0
  pub parse_b256 : Text → Option B256
  pub hex_decode : Text → Option (List ℕ)
  pub format_address : AlloyAddress → Text
  pub u256_to_string : ℕ → Text
  pub i256_to_string : ℤ → Text
  pub u160_to_string : ℕ → Text
  pub v3_mint_signature : Text
  pub v3_burn_signature : Text
  pub v2_swap_log : List B256 → List ℕ → Option (V2SwapEvent AlloyAddress)
  pub sync_log : List B256 → List ℕ → Option SyncEvent
  pub v2_mint_log : List B256 → List ℕ → Option (V2MintEvent AlloyAddress)
  pub v2_burn_log : List B256 → List ℕ → Option (V2BurnEvent AlloyAddress)
  pub v3_swap_log : List B256 → List ℕ → Option (V3SwapEvent AlloyAddress)
  pub v3_mint_log : List B256 → List ℕ → Option (V3MintEvent AlloyAddress)
  pub v3_burn_log : List B256 → List ℕ → Option (V3BurnEvent AlloyAddress)

abbrev pub v2_swap_signature : Text
v2_swap_signature = text "0xd78ad95fa46c994b6551d0da85fc275fe613ce37657fb8d5e3d130840159d822"

abbrev pub sync_signature : Text
sync_signature = text "0x1c411e9a96e071241c2f21f7726b17ae89e3cab4c78be50e062b03a9fffbbad1"

abbrev pub v2_mint_signature : Text
v2_mint_signature = text "0x4c209b5fc8ad50758f13e2e108bdbdff36c9b4a5d2f30f6a7c2a25d13f0f5e6d"

abbrev pub v2_burn_signature : Text
v2_burn_signature = text "0xdccd412f0b1252819a70d2cd3248e4723d18f7e41ee2b5f7f8ef4e3d5be2f4d8"

abbrev pub v3_swap_signature : Text
v3_swap_signature = text "0xc42079f94a6350d7e6235f29174924f928cc2ac818eb64fed8004e115fbcca67"
