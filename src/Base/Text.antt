-- ===== src/Base/Text.antt =====
-- Rust's `String`: a text is the list of its code points. Their order is the order of the UTF-8
-- bytes, and the ASCII operations read the same on code points and on bytes.
use Prim.Native.Nat.{ℕ, zero, suc, ◌+◌, ◌-◌, ◌*◌, ◌/◌, ◌%◌, ◌≤◌, compare, Ordering}
use Prim.Native.Char.{code}
use Prim.Native.String.{String}
use mathlib.Core.Path.{◌≡◌, refl}
use mathlib.Core.Logic.{◌↔◌}
use mathlib.Core.Bool.{Bool, true, false, ◌&&◌, ◌||◌}
use mathlib.Core.Option.{Option, none, some}
use mathlib.Core.List.{List, [], ◌∷◌, reverse}
use native.Mathlib.Omega.{arith}
use base_execution_engine.Base.Tests.{ltb, leb, ◌==◌, if◌then◌else◌}
use base_execution_engine.Base.Words.{fit}

abbrev pub Text : Type 0
Text = List ℕ

-- A literal of the source.
unfoldable pub text : String → Text
text String.[] = []
text (String.◌∷◌ c s) = code c ∷ text s

unfoldable pub text_eq : Text → Text → Bool
text_eq [] [] = true
text_eq [] (d ∷ t) = false
text_eq (c ∷ s) [] = false
text_eq (c ∷ s) (d ∷ t) = (c == d) && text_eq s t

pub text_eq_iff : (s t : Text) → (text_eq s t ≡ true) ↔ (s ≡ t)
unfolding text_eq
text_eq_iff [] [] = ground arith
text_eq_iff [] (d ∷ t) = ground arith
text_eq_iff (c ∷ s) [] = ground arith
text_eq_iff (c ∷ s) (d ∷ t) = ground (arith, text_eq_iff s t)

pub text_eq_refl : (s : Text) → text_eq s s ≡ true
text_eq_refl s = (text_eq_iff s s).1 refl

-- `char::to_ascii_lowercase`
unfoldable pub ascii_lower : ℕ → ℕ
ascii_lower c = if leb b'A' c && leb c b'Z' then c + 32 else c

unfoldable pub to_ascii_lowercase : Text → Text
to_ascii_lowercase [] = []
to_ascii_lowercase (c ∷ s) = ascii_lower c ∷ to_ascii_lowercase s

unfoldable pub eq_ignore_ascii_case : Text → Text → Bool
eq_ignore_ascii_case s t = text_eq (to_ascii_lowercase s) (to_ascii_lowercase t)

pub eq_ignore_ascii_case_iff :
    (s t : Text) → (eq_ignore_ascii_case s t ≡ true) ↔ (to_ascii_lowercase s ≡ to_ascii_lowercase t)
unfolding eq_ignore_ascii_case
eq_ignore_ascii_case_iff s t = text_eq_iff (to_ascii_lowercase s) (to_ascii_lowercase t)

pub eq_ignore_ascii_case_refl : (s : Text) → eq_ignore_ascii_case s s ≡ true
eq_ignore_ascii_case_refl s = (eq_ignore_ascii_case_iff s s).1 refl

pub eq_ignore_ascii_case_comm : (s t : Text) → eq_ignore_ascii_case s t ≡ eq_ignore_ascii_case t s
eq_ignore_ascii_case_comm s t =
    ground (arith, eq_ignore_ascii_case_iff s t, eq_ignore_ascii_case_iff t s)

-- Unicode's White_Space, which `str::trim` strips.
unfoldable pub is_whitespace : ℕ → Bool
is_whitespace c =
    (leb 9 c && leb c 13)
    || (c == 32)
    || (c == 0x85)
    || (c == 0xa0)
    || (c == 0x1680)
    || (leb 0x2000 c && leb c 0x200a)
    || (c == 0x2028)
    || (c == 0x2029)
    || (c == 0x202f)
    || (c == 0x205f)
    || (c == 0x3000)

unfoldable pub trim_start : Text → Text
trim_start [] = []
trim_start (c ∷ s) = elim (is_whitespace c) [ true ↦ trim_start s | false ↦ c ∷ s ]

unfoldable pub trim : Text → Text
unfolding trim_start is_whitespace
trim s = reverse (trim_start (reverse (trim_start s)))

abbrev pub is_empty {ℓ} : {A : Type ℓ} → List A → Bool
is_empty [] = true
is_empty (c ∷ s) = false

-- `strip_prefix("0x").unwrap_or(s)`
unfoldable pub strip_0x : Text → Text
strip_0x [] = []
strip_0x (c ∷ []) = c ∷ []
strip_0x (c ∷ d ∷ s) = if (c == b'0') && (d == b'x') then s else c ∷ d ∷ s

-- `str::cmp`
unfoldable pub text_leb : Text → Text → Bool
text_leb [] t = true
text_leb (c ∷ s) [] = false
text_leb (c ∷ s) (d ∷ t) = elim (compare c d) [
  | Ordering.lt ↦ true
  | Ordering.eq ↦ text_leb s t
  | Ordering.gt ↦ false
]

-- The digits of `str::parse::<u128>` after the sign, most significant first.
unfoldable pub parse_digits : ℕ → ℕ → Text → Option ℕ
parse_digits top acc [] = some acc
parse_digits top acc (c ∷ s) =
    if leb b'0' c && leb c b'9'
    then elim (fit top (acc * 10 + (c - b'0'))) [ none ↦ none | some n ↦ parse_digits top n s ]
    else none

-- `str::parse` at an unsigned type whose largest value is `top`: an optional `+`, then at least
-- one digit, and no overflow.
unfoldable pub parse_uint : ℕ → Text → Option ℕ
unfolding parse_digits fit
parse_uint top [] = none
parse_uint top (c ∷ []) = if c == b'+' then none else parse_digits top 0 (c ∷ [])
parse_uint top (c ∷ d ∷ s) =
    if c == b'+' then parse_digits top 0 (d ∷ s) else parse_digits top 0 (c ∷ d ∷ s)

-- `Display` of an unsigned integer. A number of a machine type has fewer than 80 digits.
unfoldable pub digits_from : ℕ → ℕ → Text → Text
digits_from zero n rest = rest
digits_from (suc fuel) n rest =
    let more = digits_from fuel (n / 10) ((b'0' + n % 10) ∷ rest) in
    if ltb n 10 then (b'0' + n) ∷ rest else more

unfoldable pub show_uint : ℕ → Text
unfolding digits_from
show_uint n = digits_from 80 n []

pub parse_digits-le :
    (top acc : ℕ) (s : Text) (n : ℕ) → acc ≤ top → parse_digits top acc s ≡ some n → n ≤ top
unfolding parse_digits fit
parse_digits-le top acc [] n h e = ground arith
parse_digits-le top acc (c ∷ s) n h e =
    ground (arith, parse_digits-le top (acc * 10 + (c - b'0')) s n)

pub parse_uint-le : (top : ℕ) (s : Text) (n : ℕ) → parse_uint top s ≡ some n → n ≤ top
unfolding parse_uint
parse_uint-le top [] n e = cc
parse_uint-le top (c ∷ []) n e = ground (arith, parse_digits-le top 0 (c ∷ []) n)
parse_uint-le top (c ∷ d ∷ s) n e =
    ground (arith, parse_digits-le top 0 (d ∷ s) n, parse_digits-le top 0 (c ∷ d ∷ s) n)
