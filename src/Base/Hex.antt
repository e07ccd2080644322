-- ===== src/Base/Hex.antt =====
-- `from_str_radix(_, 16)` of an unsigned type, and slices of a text by its UTF-8 bytes.
use Prim.Native.Nat.{ℕ, ◌+◌, ◌-◌, ◌*◌}
use mathlib.Core.Bool.{◌&&◌}
use mathlib.Core.Option.{Option, none, some}
use mathlib.Core.List.{[], ◌∷◌}
use base_execution_engine.Base.Tests.{ltb, leb, ◌==◌, if◌then◌else◌}
use base_execution_engine.Base.Words.{fit}
use base_execution_engine.Base.Text.{Text}
use base_execution_engine.Base.Lists.{length}
use base_execution_engine.Base.Bytes.{encode_char}

-- `char::to_digit(16)`
unfoldable pub hex_digit : ℕ → Option ℕ
hex_digit c =
    if leb b'0' c && leb c b'9'
    then some (c - b'0')
    else if leb b'a' c && leb c b'f'
    then some (c - b'a' + 10)
    else if leb b'A' c && leb c b'F'
    then some (c - b'A' + 10)
    else none

unfoldable pub parse_hex_digits : ℕ → ℕ → Text → Option ℕ
parse_hex_digits top acc [] = some acc
parse_hex_digits top acc (c ∷ s) = elim (hex_digit c) [
  | none ↦ none
  | some d ↦ elim (fit top (acc * 16 + d)) [ none ↦ none | some n ↦ parse_hex_digits top n s ]
]

-- An optional `+`, then at least one digit, and no overflow above `top`.
unfoldable pub parse_hex : ℕ → Text → Option ℕ
parse_hex top [] = none
parse_hex top (c ∷ []) = if c == b'+' then none else parse_hex_digits top 0 (c ∷ [])
parse_hex top (c ∷ d ∷ s) =
    if c == b'+' then parse_hex_digits top 0 (d ∷ s) else parse_hex_digits top 0 (c ∷ d ∷ s)

-- The part after a leading `0x`.
unfoldable pub strip_prefix_0x : Text → Option Text
strip_prefix_0x [] = none
strip_prefix_0x (c ∷ []) = none
strip_prefix_0x (c ∷ d ∷ s) = if (c == b'0') && (d == b'x') then some s else none

-- `&s[..n]`: `none` where the slice panics, past the end or inside a character.
unfoldable pub byte_prefix : ℕ → Text → Option Text
byte_prefix n [] = if n == 0 then some [] else none
byte_prefix n (c ∷ s) =
    let width = length (encode_char c) in
    let rest = byte_prefix (n - width) s in
    if n == 0
    then some []
    else if ltb n width
    then none
    else elim rest [ none ↦ none | some t ↦ some (c ∷ t) ]
