-- ===== src/Ingest/Transaction/Selector.antt =====
-- The selector of a transaction is in the normal form of the registry's keys.
use mathlib.Core.Path.{subst}
use base_execution_engine.Base.{
  Bool-cases, Option-cases, [], ap, arith, false, inl, inr, length, ltb, ok, ok_or_ok, refl, some,
  true, ℕ, ◌-◌, ◌==◌, ◌∙◌, ◌∷◌, ◌≡◌,
}
use base_execution_engine.Base.Text.{Text, is_empty, strip_0x, to_ascii_lowercase, trim}
use base_execution_engine.Base.Hex.{byte_prefix}
use base_execution_engine.Base.Bytes.{as_bytes, encode_char}
use base_execution_engine.Registry.{is_ascii_hexdigit, all_hexdigits, normalize_hex}
use base_execution_engine.Registry.Spelling.{normalize_hex-key}
use base_execution_engine.Ingest.Transaction.{RawTransactionMessage, selector_of_input, selector}

hexdigit-byte : (c : ℕ) → is_ascii_hexdigit c ≡ true → length (encode_char c) ≡ 1
unfolding is_ascii_hexdigit encode_char
hexdigit-byte c h = ground arith

-- A prefix of n bytes that holds hexadecimal digits only has n characters.
byte_prefix-hexdigits :
    (n : ℕ) (s t : Text) → byte_prefix n s ≡ some t → all_hexdigits t ≡ true → length t ≡ n
unfolding byte_prefix all_hexdigits
byte_prefix-hexdigits n [] t e h = ground arith
byte_prefix-hexdigits n (c ∷ s) t e h = elim (Bool-cases (n == 0)) [
  | inl none_left ↦ ground arith
  | inr some_left ↦ elim (Bool-cases (ltb n (length (encode_char c)))) [
    | inl inside ↦ ground arith
    | inr whole ↦ elim (Option-cases (byte_prefix (n - length (encode_char c)) s)) [
      | inl er ↦ ground arith
      | inr (r, er) ↦
          let made : c ∷ r ≡ t = ground arith in
          let digits : all_hexdigits (c ∷ r) ≡ true = ap all_hexdigits made ∙ h in
          let size = byte_prefix-hexdigits (n - length (encode_char c)) s r er (ground arith) in
          ground (arith, hexdigit-byte c)
    ]
  ]
]

lower-length : (s : Text) → length (to_ascii_lowercase s) ≡ length s
unfolding to_ascii_lowercase
lower-length [] = refl
lower-length (c ∷ s) = omega (arith, lower-length s)

nonempty : (s : Text) → length s ≡ 8 → is_empty s ≡ false
nonempty [] h = ground arith
nonempty (c ∷ s) h = refl

selector_of_input-IsNormal :
    (input s : Text)
    → selector_of_input input ≡ ok (some s)
    → (normalize_hex s ≡ some s) × (length s ≡ 10)
unfolding selector_of_input
selector_of_input-IsNormal input s h =
    elim (Bool-cases (ltb (length (as_bytes (strip_0x (trim input)))) 8)) [
      | inl short ↦ ground arith
      | inr long ↦
          let h0 = rw long at h in
          let (t, et, h1) = ok_or_ok (byte_prefix 8 (strip_0x (trim input))) _ _ h0 in
          elim (Bool-cases (all_hexdigits t)) [
            | inl digits ↦
                let made : b'0' ∷ b'x' ∷ to_ascii_lowercase t ≡ s = ground arith in
                let size = byte_prefix-hexdigits 8 (strip_0x (trim input)) t et digits in
                subst (λ (r : Text). (normalize_hex r ≡ some r) × (length r ≡ 10)) made
                  (
                    normalize_hex-key t digits (nonempty t size),
                    omega (arith, lower-length t, size),
                  )
            | inr other ↦ ground arith
          ]
    ]

-- A selector that is read from the input of a transaction has ten characters and is in the normal
-- form of the keys of the registry.
pub selector-IsNormal :
    (m : RawTransactionMessage) (s : Text)
    → selector m ≡ ok (some s)
    → (normalize_hex s ≡ some s) × (length s ≡ 10)
unfolding selector
selector-IsNormal m s h = elim (Option-cases m.input) [
  | inl e ↦ ground arith
  | inr (input, e) ↦ selector_of_input-IsNormal input s (rw e at h)
]
