-- ===== src/Registry/Laws.antt =====
-- The tables are looked up by key: an entry is found by exactly the spellings of its key.
use base_execution_engine.Base.{
  >>=?-eq-some, Bool, Bool-cases, List, Member, [], ap, arith, false, inl, inr, not, refl, some,
  sym, true, ◌&&◌, ◌++◌, ◌||◌, ◌↔◌, ◌∙◌, ◌∷◌, ◌≡◌,
}
use base_execution_engine.Base.Text.{
  Text, is_empty, text, text_eq, text_eq_iff, text_eq_refl, to_ascii_lowercase,
}
use base_execution_engine.Registry.Tables.{AddressMetadata, address_book}
use base_execution_engine.Registry.{all_hexdigits, normalize_hex, find_by_key, address_metadata}
use base_execution_engine.Registry.Spelling.{IsBlank, normalize_hex-padded, normalize_hex-key}

module _ {A : Type 0} (key : A → Text) where
  abbrev has_key : Text → List A → Bool
  has_key k [] = false
  has_key k (e ∷ es) = text_eq (key e) k || has_key k es

  abbrev distinct_keys : List A → Bool
  distinct_keys [] = true
  distinct_keys (e ∷ es) = not (has_key (key e) es) && distinct_keys es

  find-Member :
      (k : Text) (es : List A) (a : A) → find_by_key key k es ≡ some a → Member a es × (key a ≡ k)
  unfolding find_by_key
  find-Member k [] a h = cc
  find-Member k (e ∷ es) a h = elim (Bool-cases (text_eq (key e) k)) [
    | inl same ↦
        let found : a ≡ e = ground arith in
        (inl found, ap key found ∙ (text_eq_iff (key e) k).0 same)
    | inr other ↦ let (m, ek) = find-Member k es a (ground arith) in (inr m, ek)
  ]

  Member-has_key : (a : A) (es : List A) → Member a es → has_key (key a) es ≡ true
  Member-has_key a [] m = absurd m
  Member-has_key a (e ∷ es) (inl same) = ground (arith, text_eq_refl (key a), ap key same)
  Member-has_key a (e ∷ es) (inr m) = ground (arith, Member-has_key a es m)

  find-key :
      (a : A) (es : List A)
      → distinct_keys es ≡ true
      → Member a es
      → find_by_key key (key a) es ≡ some a
  unfolding find_by_key
  find-key a [] d m = absurd m
  find-key a (e ∷ es) d (inl same) = ground (arith, text_eq_refl (key a), ap key same)
  find-key a (e ∷ es) d (inr m) = elim (Bool-cases (text_eq (key e) (key a))) [
    | inl same ↦ ground (arith, Member-has_key a es m, (text_eq_iff (key e) (key a)).0 same)
    | inr other ↦ ground (arith, find-key a es (ground arith) m)
  ]

address_book-distinct : distinct_keys (λ (e : AddressMetadata). e.address) address_book ≡ true
unfolding text_eq address_book text
address_book-distinct = refl

-- An address is found in the table of known contracts with a given entry exactly when the entry is
-- in the table and its key is the normal form of the address.
pub address_metadata_iff :
    (value : Text) (e : AddressMetadata)
    → (address_metadata value ≡ some e)
      ↔ (Member e address_book × (normalize_hex value ≡ some e.address))
unfolding address_metadata
address_metadata_iff value e = (
  λ h.
      let (k, ek, hk) = >>=?-eq-some (normalize_hex value) _ h in
      let (m, same) = find-Member (λ (a : AddressMetadata). a.address) k address_book e hk in
      (m, ek ∙ ap (λ (t : Text). some t) (sym same)),
  λ h.
      rw h.1
        (find-key (λ (a : AddressMetadata). a.address) e address_book address_book-distinct h.0),
)

-- White space around an address of hexadecimal digits, the prefix 0x and the case of the digits
-- make no difference to what the table of known contracts says of it.
pub address_metadata_spelled :
    (w h v : Text)
    → IsBlank w
    → IsBlank v
    → all_hexdigits h ≡ true
    → is_empty h ≡ false
    → (address_metadata (w ++ (h ++ v)) ≡ address_metadata (b'0' ∷ b'x' ∷ to_ascii_lowercase h))
      × (address_metadata (w ++ ((b'0' ∷ b'x' ∷ h) ++ v))
          ≡ address_metadata (b'0' ∷ b'x' ∷ to_ascii_lowercase h))
unfolding address_metadata
address_metadata_spelled w h v hw hv hh he =
    let (bare, prefixed) = normalize_hex-padded w h v hw hv hh he in
    rw bare rw prefixed rw (normalize_hex-key h hh he) (refl, refl)
