-- ===== src/Ingest/Transaction/Listed.antt =====
-- A swap is decoded only for selectors that the registry lists.
use mathlib.Core.Path.{subst}
use base_execution_engine.Base.{
  >>=-eq-ok, >>=?-eq-some, Bool-cases, List, Option, ap, arith, if◌then◌else◌, inl, inr, is_some,
  ok, ok-injective, refl, some, true, ℕ, ◌>>=?◌, ◌∙◌, ◌≡◌,
}
use base_execution_engine.Base.Text.{
  Text, ascii_lower, is_whitespace, strip_0x, text, text_eq, text_eq_iff, to_ascii_lowercase, trim,
  trim_start,
}
use base_execution_engine.Types.{Address, DecodedSwap, Exchange, Protocol, uniswap_v2, uniswap_v3}
use base_execution_engine.Registry.Tables.{selector_entries}
use base_execution_engine.Registry.{
  is_ascii_hexdigit, all_hexdigits, normalize_hex, find_by_key, merge, resolve_transaction,
  selector_entry, protocol_from_selector,
}
use base_execution_engine.Ingest.Calls.{CallAbi}
use base_execution_engine.Ingest.Swap.Shape.{
  IsShaped, decode_v2_exact_input-IsShaped, decode_v2_exact_eth_input-IsShaped,
  decode_v2_exact_output-IsShaped, decode_v2_exact_eth_output-IsShaped,
  decode_v3_exact_input_single-IsShaped, decode_v3_exact_input-IsShaped,
  decode_v3_exact_output_single-IsShaped, decode_v3_exact_output-IsShaped,
}
use base_execution_engine.Ingest.Transaction.{
  RawTransactionMessage, TransactionDecode, parse_amount_string, decode_calldata, decode_call,
  decode_swap, decode, selector,
}

-- The selector is in the registry's table, with a protocol.
abbrev IsListed : Text → Type 0
IsListed s = (p : Protocol) × (protocol_from_selector s ≡ some p)

listed_texts :
    (protocol_from_selector (text "0x38ed1739") ≡ some uniswap_v2)
    × (protocol_from_selector (text "0x5c11d795") ≡ some uniswap_v2)
    × (protocol_from_selector (text "0x18cbafe5") ≡ some uniswap_v2)
    × (protocol_from_selector (text "0x791ac947") ≡ some uniswap_v2)
    × (protocol_from_selector (text "0x7ff36ab5") ≡ some uniswap_v2)
    × (protocol_from_selector (text "0xb6f9de95") ≡ some uniswap_v2)
    × (protocol_from_selector (text "0x8803dbee") ≡ some uniswap_v2)
    × (protocol_from_selector (text "0x4a25d94a") ≡ some uniswap_v2)
    × (protocol_from_selector (text "0xfb3bdb41") ≡ some uniswap_v2)
    × (protocol_from_selector (text "0x414bf389") ≡ some uniswap_v3)
    × (protocol_from_selector (text "0xc04b8d59") ≡ some uniswap_v3)
    × (protocol_from_selector (text "0xdb3e2198") ≡ some uniswap_v3)
    × (protocol_from_selector (text "0xf28c0498") ≡ some uniswap_v3)
unfolding text protocol_from_selector selector_entry selector_entries find_by_key normalize_hex trim
    trim_start is_whitespace strip_0x to_ascii_lowercase ascii_lower all_hexdigits is_ascii_hexdigit
    text_eq
listed_texts = (refl, refl, refl, refl, refl, refl, refl, refl, refl, refl, refl, refl, refl)

protocol_at :
    (s t : Text) (p : Protocol)
    → text_eq s t ≡ true
    → protocol_from_selector t ≡ some p
    → IsListed s
protocol_at s t p same e = (p, ap protocol_from_selector ((text_eq_iff s t).0 same) ∙ e)

-- One arm of the match: its own selector is listed, or the rest of the arms decide.
pick :
    (s : Text) {swap : DecodedSwap} {router : Option Address} {protocol : Option Protocol}
    {exchange : Option Exchange} {x y : Option DecodedSwap} (t : Text) (p : Protocol)
    → protocol_from_selector t ≡ some p
    → (x ≡ some swap → IsShaped router protocol exchange swap)
    → (y ≡ some swap → IsShaped router protocol exchange swap × IsListed s)
    → (if text_eq s t then x else y) ≡ some swap
    → IsShaped router protocol exchange swap × IsListed s
pick s t p listed here rest h = elim (Bool-cases (text_eq s t)) [
  | inl e ↦ (here (rw e at h), protocol_at s t p e listed)
  | inr e ↦ rest (rw e at h)
]

module _ (abi : CallAbi) where
  decode_call-IsShaped :
      (s : Text) (calldata : List ℕ) (tx_value : Option ℕ) (router : Option Address)
      (protocol : Option Protocol) (exchange : Option Exchange) (swap : DecodedSwap)
      → decode_call abi s calldata tx_value router protocol exchange ≡ some swap
      → IsShaped router protocol exchange swap × IsListed s
  unfolding decode_call
  decode_call-IsShaped s calldata tx_value router protocol exchange swap h =
      let f = abi.format_address in
      let listed = listed_texts in
      pick s (text "0x38ed1739") uniswap_v2 listed.0
        (decode_v2_exact_input-IsShaped f router protocol exchange swap _)
        (pick s (text "0x5c11d795") uniswap_v2 listed.1
          (decode_v2_exact_input-IsShaped f router protocol exchange swap _)
          (pick s (text "0x18cbafe5") uniswap_v2 listed.2
            (decode_v2_exact_input-IsShaped f router protocol exchange swap _)
            (pick s (text "0x791ac947") uniswap_v2 listed.3
              (decode_v2_exact_input-IsShaped f router protocol exchange swap _)
              (pick s (text "0x7ff36ab5") uniswap_v2 listed.4
                (decode_v2_exact_eth_input-IsShaped f router protocol exchange swap tx_value _)
                (pick s (text "0xb6f9de95") uniswap_v2 listed.5
                  (decode_v2_exact_eth_input-IsShaped f router protocol exchange swap tx_value _)
                  (pick s (text "0x8803dbee") uniswap_v2 listed.6
                    (decode_v2_exact_output-IsShaped f router protocol exchange swap _)
                    (pick s (text "0x4a25d94a") uniswap_v2 listed.7
                      (decode_v2_exact_output-IsShaped f router protocol exchange swap _)
                      (pick s (text "0xfb3bdb41") uniswap_v2 listed.8
                        (decode_v2_exact_eth_output-IsShaped f router protocol exchange swap
                          tx_value _)
                        (pick s (text "0x414bf389") uniswap_v3 listed.9
                          (decode_v3_exact_input_single-IsShaped f router protocol exchange swap _)
                          (pick s (text "0xc04b8d59") uniswap_v3 listed.10
                            (decode_v3_exact_input-IsShaped f router protocol exchange swap _)
                            (pick s (text "0xdb3e2198") uniswap_v3 listed.11
                              (decode_v3_exact_output_single-IsShaped f router protocol exchange
                                swap _)
                              (pick s (text "0xf28c0498") uniswap_v3 listed.12
                                (decode_v3_exact_output-IsShaped f router protocol exchange swap _)
                                (λ h0. ground arith)))))))))))))
        h

  resolve-listed :
      (s : Text) (p : Protocol) (to : Option Address)
      → protocol_from_selector s ≡ some p
      → is_some (resolve_transaction (some s) to).protocol ≡ true
  unfolding resolve_transaction merge
  resolve-listed s p to listed = ground arith

  -- Whatever the decoders of calls answer, a swap that is decoded from a transaction names the
  -- router, the protocol and the exchange of the transaction, both tokens and the recipient; it has
  -- a floor for the output and nothing of an exact output, or an exact output and no floor; and the
  -- protocol is known.
  pub decode-IsShaped :
      (m : RawTransactionMessage) (d : TransactionDecode) (swap : DecodedSwap)
      → decode abi m ≡ ok d
      → d.decoded_swap ≡ some swap
      → IsShaped m.to d.protocol d.exchange swap × (is_some d.protocol ≡ true)
  unfolding decode decode_swap
  decode-IsShaped m d swap h e =
      let (s, es, h0) = >>=-eq-ok (selector m) _ h in
      let made = ok-injective h0 in
      let (sel, esel, h1) =
        >>=?-eq-some s _ (ap (λ (r : TransactionDecode). r.decoded_swap) made ∙ e) in
      let (input, _, h2) = >>=?-eq-some m.input _ h1 in
      let (calldata, _, h3) = >>=?-eq-some (decode_calldata abi input) _ h2 in
      let (shaped, (p, listed)) =
        decode_call-IsShaped sel calldata (m.value >>=? λ raw. parse_amount_string raw) m.to _ _
          swap h3 in
      subst
        (λ (r : TransactionDecode).
          IsShaped m.to r.protocol r.exchange swap × (is_some r.protocol ≡ true))
        made (shaped, rw esel (resolve-listed sel p m.to listed))
