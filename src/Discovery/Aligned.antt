-- ===== src/Discovery/Aligned.antt =====
-- What hydration keeps of the pools that a scan found.
use base_execution_engine.Base.{
  >>=-eq-ok, Bool-cases, List, Option, Option-cases, Result, [], ap, arith, inl, inr, length, map,
  none, not, ok, ok-injective, refl, some, sym, ℕ, ◌*◌, ◌||◌, ◌∙◌, ◌∷◌, ◌≡◌,
}
use base_execution_engine.Base.Text.{Text}
use base_execution_engine.Base.Int.{pos, ℤ}
use base_execution_engine.Types.{Amount}
use base_execution_engine.Discovery.Reader.{DiscoveredV2Pool, DiscoveredV3Pool}
use base_execution_engine.App.Steps.{with_context}
use base_execution_engine.Discovery.Hydrate.{
  with_slot0, with_liquidity, Call3, CallResult, multicall_aggregate3, hydrate_v2_slot,
  hydrate_v2_slots, hydrate_v2_reserves, with_slot0, with_liquidity, hydrate_v3_slot,
  hydrate_v3_slots,
}

-- A pool without what hydration reads.
abbrev pub bare_v2 : DiscoveredV2Pool → DiscoveredV2Pool
bare_v2 pool = record pool { reserve0 = 0; reserve1 = 0 }

abbrev pub bare_v3 : DiscoveredV3Pool → DiscoveredV3Pool
bare_v3 pool = record pool { sqrt_price_x96 = 0; tick = pos 0; liquidity = 0 }

module _ {Bytes : Type 0} (decode_reserves : Bytes → Option (Amount × Amount)) where
  bare-hydrate_v2_slot :
      (slot : DiscoveredV2Pool) (res : CallResult Bytes)
      → bare_v2 (hydrate_v2_slot decode_reserves slot res) ≡ bare_v2 slot
  unfolding hydrate_v2_slot
  bare-hydrate_v2_slot slot res = elim (Bool-cases res.success) [
    | inl on ↦ elim (Option-cases (decode_reserves res.return_data)) [
      | inl e ↦ rw on rw e refl
      | inr (reserves, e) ↦ rw on rw e refl
    ]
    | inr off ↦ rw off refl
  ]

  bare-hydrate_v2_slots :
      (slots : List DiscoveredV2Pool) (results : List (CallResult Bytes))
      → map bare_v2 (hydrate_v2_slots decode_reserves slots results) ≡ map bare_v2 slots
  unfolding hydrate_v2_slots
  bare-hydrate_v2_slots [] results = refl
  bare-hydrate_v2_slots (slot ∷ slots) [] = refl
  bare-hydrate_v2_slots (slot ∷ slots) (res ∷ results) =
      rw (bare-hydrate_v2_slot slot res) rw (bare-hydrate_v2_slots slots results) refl

module _ {Bytes : Type 0} (decode_slot0 : Bytes → Option (ℕ × ℤ))
    (decode_liquidity : Bytes → Option Amount) where
  bare-with_slot0 :
      (slot : DiscoveredV3Pool) (read : Option (ℕ × ℤ))
      → bare_v3 (with_slot0 decode_slot0 decode_liquidity slot read) ≡ bare_v3 slot
  unfolding with_slot0
  bare-with_slot0 slot none = refl
  bare-with_slot0 slot (some price) = refl

  bare-with_liquidity :
      (slot : DiscoveredV3Pool) (read : Option Amount)
      → bare_v3 (with_liquidity decode_slot0 decode_liquidity slot read) ≡ bare_v3 slot
  unfolding with_liquidity
  bare-with_liquidity slot none = refl
  bare-with_liquidity slot (some amount) = refl

  bare-hydrate_v3_slot :
      (slot : DiscoveredV3Pool) (r0 r1 : CallResult Bytes)
      → bare_v3 (hydrate_v3_slot decode_slot0 decode_liquidity slot r0 r1) ≡ bare_v3 slot
  unfolding hydrate_v3_slot
  bare-hydrate_v3_slot slot r0 r1 = elim (Bool-cases (not r0.success || not r1.success)) [
    | inl failed ↦ rw failed refl
    | inr answered ↦ rw answered (
        bare-with_liquidity _ (decode_liquidity r1.return_data)
        ∙ bare-with_slot0 slot (decode_slot0 r0.return_data))
  ]

  -- With one answer for each call, the loop over the slots never reads past the answers, and it
  -- changes nothing of a pool but its price, its tick and its liquidity.
  pub bare-hydrate_v3_slots :
      (slots : List DiscoveredV3Pool) (results : List (CallResult Bytes))
      → length results ≡ 2 * length slots
      → (hydrated : List DiscoveredV3Pool) × (hydrate_v3_slots decode_slot0 decode_liquidity slots
            results
          ≡ some hydrated)
        × (map bare_v3 hydrated ≡ map bare_v3 slots)
  unfolding hydrate_v3_slots
  bare-hydrate_v3_slots [] results h = ([], refl, refl)
  bare-hydrate_v3_slots (slot ∷ slots) [] h = ground (arith, h)
  bare-hydrate_v3_slots (slot ∷ slots) (res ∷ []) h = ground (arith, h)
  bare-hydrate_v3_slots (slot ∷ slots) (r0 ∷ r1 ∷ results) h =
      let (rest, e, same) = bare-hydrate_v3_slots slots results (omega (arith, h)) in
      (
        hydrate_v3_slot decode_slot0 decode_liquidity slot r0 r1 ∷ rest,
        rw e refl,
        rw (bare-hydrate_v3_slot slot r0 r1) rw same refl,
      )

module _ {AlloyAddress Bytes : Type 0} (from_str : Text → Option AlloyAddress)
    (zero_address : AlloyAddress) (call : AlloyAddress → Bytes → Result Text Bytes)
    (encode_calls : List (Call3 AlloyAddress Bytes) → Bytes)
    (decode_results : Bytes → Result Text (List (CallResult Bytes)))
    (decode_reserves : Bytes → Option (Amount × Amount)) where
  -- Hydration keeps the pools in place: an answer of the multicall, whatever it holds, changes
  -- nothing of a pool but its reserves.
  pub bare-hydrate_v2_reserves :
      (get_reserves : Bytes) (multicall3 : AlloyAddress) (pools hydrated : List DiscoveredV2Pool)
      → hydrate_v2_reserves from_str zero_address call encode_calls decode_results get_reserves
          decode_reserves multicall3 pools
        ≡ ok hydrated
      → map bare_v2 hydrated ≡ map bare_v2 pools
  unfolding hydrate_v2_reserves
  bare-hydrate_v2_reserves get_reserves multicall3 [] hydrated h =
      ap (map bare_v2) (sym (ok-injective h))
  bare-hydrate_v2_reserves get_reserves multicall3 (pool ∷ pools) hydrated h =
      let (results, e, h1) =
        >>=-eq-ok
          (with_context
            (multicall_aggregate3 from_str zero_address call encode_calls decode_results multicall3
              _)
            _)
          _ h in
      ap (map bare_v2) (sym (ok-injective h1))
      ∙ bare-hydrate_v2_slots decode_reserves (pool ∷ pools) results
