-- ===== src/Ingest/Log/Decoded.antt =====
-- Which arm of the decoder an event comes from.
use base_execution_engine.Base.{
  >>=?-eq-some, Bool-cases, List, Option, arith, inl, inr, some, ℕ, ◌≡◌,
}
use base_execution_engine.Base.Text.{Text, text_eq, text_eq_iff}
use base_execution_engine.Types.{
  Address, DecodedLogEvent, Exchange, Protocol, v2_burn, v2_mint, v2_swap, v2_sync, v3_burn,
  v3_mint, v3_swap,
}
use base_execution_engine.Ingest.Events.{
  EventAbi, SyncEvent, v2_swap_signature, sync_signature, v2_mint_signature, v2_burn_signature,
  v3_swap_signature, V2SwapEvent, V2MintEvent, V2BurnEvent, V3SwapEvent, V3MintEvent, V3BurnEvent,
}
use base_execution_engine.Ingest.Log.{
  empty_event, v2_swap_event, sync_event, v2_mint_event, v2_burn_event, v3_swap_event,
  v3_mint_event, v3_burn_event, decode_event,
}

module _ (abi : EventAbi) (pool : Option Address) (protocol : Option Protocol)
    (exchange : Option Exchange) (d : DecodedLogEvent) where
  v2_swap_event-kind :
      (ev : V2SwapEvent abi.AlloyAddress)
      → v2_swap_event abi pool protocol exchange ev ≡ some d
      → d.kind ≡ v2_swap
  unfolding v2_swap_event empty_event
  v2_swap_event-kind ev h = ground arith

  v3_swap_event-kind :
      (ev : V3SwapEvent abi.AlloyAddress)
      → v3_swap_event abi pool protocol exchange ev ≡ some d
      → d.kind ≡ v3_swap
  unfolding v3_swap_event empty_event
  v3_swap_event-kind ev h = ground arith

  v3_mint_event-kind :
      (ev : V3MintEvent abi.AlloyAddress)
      → v3_mint_event abi pool protocol exchange ev ≡ some d
      → d.kind ≡ v3_mint
  unfolding v3_mint_event empty_event
  v3_mint_event-kind ev h = ground arith

  v3_burn_event-kind :
      (ev : V3BurnEvent abi.AlloyAddress)
      → v3_burn_event abi pool protocol exchange ev ≡ some d
      → d.kind ≡ v3_burn
  unfolding v3_burn_event empty_event
  v3_burn_event-kind ev h = ground arith

  v2_mint_event-kind :
      (ev : V2MintEvent abi.AlloyAddress)
      → v2_mint_event abi pool protocol exchange ev ≡ some d
      → d.kind ≡ v2_mint
  unfolding v2_mint_event empty_event
  v2_mint_event-kind ev h = ground arith

  v2_burn_event-kind :
      (ev : V2BurnEvent abi.AlloyAddress)
      → v2_burn_event abi pool protocol exchange ev ≡ some d
      → d.kind ≡ v2_burn
  unfolding v2_burn_event empty_event
  v2_burn_event-kind ev h = ground arith

  -- A `Sync` comes from its own signature, with the reserves that the decoder read.
  pub decode_event-sync :
      (signature : Text) (topics : List abi.B256) (bytes : List ℕ)
      → decode_event abi pool protocol exchange signature topics bytes ≡ some d
      → d.kind ≡ v2_sync
      → (signature ≡ sync_signature)
        × ((ev : SyncEvent) × (abi.sync_log topics bytes ≡ some ev)
            × (sync_event abi pool protocol exchange ev ≡ some d))
  unfolding decode_event
  decode_event-sync signature topics bytes h k =
      elim (Bool-cases (text_eq signature v2_swap_signature)) [
        | inl e ↦
            let (ev, _, made) = >>=?-eq-some (abi.v2_swap_log topics bytes) _ (rw e at h) in
            ground (arith, v2_swap_event-kind ev made)
        | inr n0 ↦
            let h0 = rw n0 at h in
            elim (Bool-cases (text_eq signature sync_signature)) [
              | inl e ↦ (
                (text_eq_iff signature sync_signature).0 e,
                >>=?-eq-some (abi.sync_log topics bytes) _ (rw e at h0),
              )
              | inr n1 ↦
                  let h1 = rw n1 at h0 in
                  elim (Bool-cases (text_eq signature v2_mint_signature)) [
                    | inl e ↦
                        let (ev, _, made) =
                          >>=?-eq-some (abi.v2_mint_log topics bytes) _ (rw e at h1) in
                        ground (arith, v2_mint_event-kind ev made)
                    | inr n2 ↦
                        let h2 = rw n2 at h1 in
                        elim (Bool-cases (text_eq signature v2_burn_signature)) [
                          | inl e ↦
                              let (ev, _, made) =
                                >>=?-eq-some (abi.v2_burn_log topics bytes) _ (rw e at h2) in
                              ground (arith, v2_burn_event-kind ev made)
                          | inr n3 ↦
                              let h3 = rw n3 at h2 in
                              elim (Bool-cases (text_eq signature v3_swap_signature)) [
                                | inl e ↦
                                    let (ev, _, made) =
                                      >>=?-eq-some (abi.v3_swap_log topics bytes) _ (rw e at h3) in
                                    ground (arith, v3_swap_event-kind ev made)
                                | inr n4 ↦
                                    let h4 = rw n4 at h3 in
                                    elim (Bool-cases (text_eq signature abi.v3_mint_signature)) [
                                      | inl e ↦
                                          let (ev, _, made) =
                                            >>=?-eq-some (abi.v3_mint_log topics bytes) _
                                              (rw e at h4) in
                                          ground (arith, v3_mint_event-kind ev made)
                                      | inr n5 ↦
                                          let h5 = rw n5 at h4 in
                                          elim (Bool-cases
                                            (text_eq signature abi.v3_burn_signature)) [
                                              | inl e ↦
                                                  let (ev, _, made) =
                                                    >>=?-eq-some (abi.v3_burn_log topics bytes) _
                                                      (rw e at h5) in
                                                  ground (arith, v3_burn_event-kind ev made)
                                              | inr n6 ↦ let h6 = rw n6 at h5 in ground arith
                                            ]
                                    ]
                              ]
                        ]
                  ]
            ]
      ]
