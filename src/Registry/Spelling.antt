-- ===== src/Registry/Spelling.antt =====
-- How `normalize_hex` reads the spellings of one hexadecimal key.
use base_execution_engine.Base.{
  All, All-append, List, [], ap, arith, false, refl, some, sym, true, ℕ, ◌++◌, ◌∙◌, ◌∷◌, ◌≡◌,
}
use base_execution_engine.Base.Text.{
  Text, ascii_lower, is_empty, is_whitespace, strip_0x, to_ascii_lowercase, trim, trim_start,
}
use base_execution_engine.Registry.{is_ascii_hexdigit, all_hexdigits, normalize_hex}
use mathlib.Core.List.{
  append-nil, reverse, reverse-cons, reverse-append, reverse-reverse, append-nil,
}

-- A text of white space only.
abbrev pub IsBlank : Text → Type 0
IsBlank s = All (λ (c : ℕ). is_whitespace c ≡ true) s

-- A text without white space.
abbrev pub IsSolid : Text → Type 0
IsSolid s = All (λ (c : ℕ). is_whitespace c ≡ false) s

module _ {κ} {A : Type 0} (P : A → Type κ) where
  All-reverse : (xs : List A) → All P xs → All P (reverse xs)
  All-reverse [] h = tt
  All-reverse (x ∷ xs) h =
      rw (reverse-cons x xs) (All-append P (reverse xs) (x ∷ []) (All-reverse xs h.1) (h.0, tt))

trim_start-blank : (w s : Text) → IsBlank w → trim_start (w ++ s) ≡ trim_start s
unfolding trim_start
trim_start-blank [] s h = refl
trim_start-blank (c ∷ w) s h = ground (arith, trim_start-blank w s h.1)

trim_start-solid : (s t : Text) → IsSolid s → is_empty s ≡ false → trim_start (s ++ t) ≡ s ++ t
unfolding trim_start
trim_start-solid [] t h e = cc
trim_start-solid (c ∷ s) t h e = ground arith

is_empty-reverse : (s : Text) → is_empty s ≡ false → is_empty (reverse s) ≡ false
is_empty-reverse [] e = cc
is_empty-reverse (c ∷ s) e = rw (reverse-cons c s) (cons_end (reverse s))
  where
    cons_end : (t : Text) → is_empty (t ++ (c ∷ [])) ≡ false
    cons_end [] = refl
    cons_end (d ∷ t) = refl

trim_start-alone : (s : Text) → IsSolid s → is_empty s ≡ false → trim_start s ≡ s
unfolding trim_start
trim_start-alone [] h e = cc
trim_start-alone (c ∷ s) h e = ground arith

-- White space on both sides is what `trim` takes away.
trim-padded :
    (w s v : Text)
    → IsBlank w
    → IsSolid s
    → is_empty s ≡ false
    → IsBlank v
    → trim (w ++ (s ++ v)) ≡ s
unfolding trim
trim-padded w s v hw hs e hv =
    rw (trim_start-blank w (s ++ v) hw) rw (trim_start-solid s v hs e) rw (reverse-append s v) rw
      (trim_start-blank (reverse v) (reverse s)
        (All-reverse (λ (c : ℕ). is_whitespace c ≡ true) v hv))
      rw
      (trim_start-alone (reverse s) (All-reverse (λ (c : ℕ). is_whitespace c ≡ false) s hs)
        (is_empty-reverse s e))
      (reverse-reverse s)

hexdigit-visible : (c : ℕ) → is_ascii_hexdigit c ≡ true → is_whitespace c ≡ false
unfolding is_ascii_hexdigit is_whitespace
hexdigit-visible c h = ground arith

hexdigits-IsSolid : (s : Text) → all_hexdigits s ≡ true → IsSolid s
unfolding all_hexdigits
hexdigits-IsSolid [] h = tt
hexdigits-IsSolid (c ∷ s) h =
    (hexdigit-visible c (ground arith), hexdigits-IsSolid s (ground arith))

strip_0x-hexdigits : (s : Text) → all_hexdigits s ≡ true → strip_0x s ≡ s
unfolding strip_0x all_hexdigits is_ascii_hexdigit
strip_0x-hexdigits [] h = refl
strip_0x-hexdigits (c ∷ []) h = refl
strip_0x-hexdigits (c ∷ d ∷ s) h = ground arith

ascii_lower-hexdigit :
    (c : ℕ) → is_ascii_hexdigit c ≡ true → is_ascii_hexdigit (ascii_lower c) ≡ true
unfolding is_ascii_hexdigit ascii_lower
ascii_lower-hexdigit c h = ground arith

ascii_lower_twice : (c : ℕ) → ascii_lower (ascii_lower c) ≡ ascii_lower c
unfolding ascii_lower
ascii_lower_twice c = ground arith

pub lower-hexdigits :
    (s : Text) → all_hexdigits s ≡ true → all_hexdigits (to_ascii_lowercase s) ≡ true
unfolding all_hexdigits to_ascii_lowercase
lower-hexdigits [] h = refl
lower-hexdigits (c ∷ s) h = ground (arith, ascii_lower-hexdigit c, lower-hexdigits s)

lower_twice : (s : Text) → to_ascii_lowercase (to_ascii_lowercase s) ≡ to_ascii_lowercase s
unfolding to_ascii_lowercase
lower_twice [] = refl
lower_twice (c ∷ s) = ground (arith, ascii_lower_twice c, lower_twice s)

lower-nonempty : (s : Text) → is_empty s ≡ false → is_empty (to_ascii_lowercase s) ≡ false
unfolding to_ascii_lowercase
lower-nonempty [] h = cc
lower-nonempty (c ∷ s) h = refl

-- The key of a text whose trimmed form is known.
normalize-trimmed :
    (value s h : Text)
    → trim value ≡ s
    → strip_0x s ≡ h
    → all_hexdigits h ≡ true
    → is_empty h ≡ false
    → normalize_hex value ≡ some (b'0' ∷ b'x' ∷ to_ascii_lowercase h)
unfolding normalize_hex
normalize-trimmed value s h et es eh ee = rw et rw es rw eh rw ee refl

-- White space around it, the prefix and the case make no difference to the key.
pub normalize_hex-padded :
    (w h v : Text)
    → IsBlank w
    → IsBlank v
    → all_hexdigits h ≡ true
    → is_empty h ≡ false
    → (normalize_hex (w ++ (h ++ v)) ≡ some (b'0' ∷ b'x' ∷ to_ascii_lowercase h))
      × (normalize_hex (w ++ ((b'0' ∷ b'x' ∷ h) ++ v)) ≡ some (b'0' ∷ b'x' ∷ to_ascii_lowercase h))
unfolding strip_0x is_whitespace
normalize_hex-padded w h v hw hv hh he =
    let solid = hexdigits-IsSolid h hh in
    (
      normalize-trimmed (w ++ (h ++ v)) h h (trim-padded w h v hw solid he hv)
          (strip_0x-hexdigits h hh) hh he,
      normalize-trimmed (w ++ ((b'0' ∷ b'x' ∷ h) ++ v)) (b'0' ∷ b'x' ∷ h) h
          (trim-padded w (b'0' ∷ b'x' ∷ h) v hw (refl, (refl, solid)) refl hv) refl hh he,
    )

-- The key itself is read as it is.
pub normalize_hex-key :
    (h : Text)
    → all_hexdigits h ≡ true
    → is_empty h ≡ false
    → normalize_hex (b'0' ∷ b'x' ∷ to_ascii_lowercase h) ≡ some (b'0' ∷ b'x' ∷ to_ascii_lowercase h)
normalize_hex-key h hh he =
    let (_, e) =
      normalize_hex-padded [] (to_ascii_lowercase h) [] tt tt (lower-hexdigits h hh)
        (lower-nonempty h he) in
    sym (ap (λ (t : Text). normalize_hex (b'0' ∷ b'x' ∷ t)) (append-nil (to_ascii_lowercase h)))
    ∙ e
    ∙ ap (λ (t : Text). some (b'0' ∷ b'x' ∷ t)) (lower_twice h)
