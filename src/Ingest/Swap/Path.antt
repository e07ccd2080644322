-- ===== src/Ingest/Swap/Path.antt =====
-- A packed V3 path and the ends that are read out of it.
use base_execution_engine.Base.{
  All, List, [], ap, arith, false, length, length-append, ltb, refl, some, suc, true, zero, ℕ, ◌%◌,
  ◌*◌, ◌++◌, ◌+◌, ◌-◌, ◌==◌, ◌∙◌, ◌∷◌, ◌≡◌,
}
use base_execution_engine.Base.Text.{Text}
use base_execution_engine.Ingest.Calls.{AlloyAddress}
use base_execution_engine.Ingest.Swap.{take, drop, decode_v3_path}

-- The packed form of a path: the first token, then for each hop its fee and its token.
abbrev pub encode_path : AlloyAddress → List (List ℕ × AlloyAddress) → List ℕ
encode_path token [] = token
encode_path token ((fee, next) ∷ hops) = token ++ (fee ++ encode_path next hops)

abbrev pub last_token : AlloyAddress → List (List ℕ × AlloyAddress) → AlloyAddress
last_token token [] = token
last_token token ((fee, next) ∷ hops) = last_token next hops

-- Fees of 3 bytes and tokens of 20.
abbrev pub IsPacked : List (List ℕ × AlloyAddress) → Type 0
IsPacked hops = All (λ (hop : List ℕ × AlloyAddress). (length hop.0 ≡ 3) × (length hop.1 ≡ 20)) hops

take-prefix : {A : Type 0} (n : ℕ) (xs ys : List A) → length xs ≡ n → take n (xs ++ ys) ≡ xs
unfolding take
take-prefix zero [] ys h = refl
take-prefix zero (x ∷ xs) ys h = ground arith
take-prefix (suc n) [] ys h = ground arith
take-prefix (suc n) (x ∷ xs) ys h = ap (λ (t : List _). x ∷ t) (take-prefix n xs ys (omega arith))

drop-prefix : {A : Type 0} (m : ℕ) (xs ys : List A) → drop (length xs + m) (xs ++ ys) ≡ drop m ys
unfolding drop
drop-prefix m [] ys = let e : 0 + m ≡ m = omega arith in rw e refl
drop-prefix m (x ∷ xs) ys =
    let e : suc (length xs) + m ≡ suc (length xs + m) = omega arith in rw e (drop-prefix m xs ys)

encode-length :
    (token : AlloyAddress) (hops : List (List ℕ × AlloyAddress))
    → length token ≡ 20
    → IsPacked hops
    → length (encode_path token hops) ≡ 20 + 23 * length hops
encode-length token [] h p = omega (arith, h)
encode-length token ((fee, next) ∷ hops) h p = omega (
  arith,
  length-append token (fee ++ encode_path next hops),
  length-append fee (encode_path next hops),
  encode-length next hops p.0.1 p.1,
  h,
  p.0.0,
)

drop-encode :
    (token : AlloyAddress) (hops : List (List ℕ × AlloyAddress))
    → length token ≡ 20
    → IsPacked hops
    → drop (23 * length hops) (encode_path token hops) ≡ last_token token hops
unfolding drop
drop-encode token [] h p = refl
drop-encode token ((fee, next) ∷ hops) h p =
    let rest = encode_path next hops in
    let split : 23 * suc (length hops) ≡ length token + (length fee + 23 * length hops) =
      omega (arith, h, p.0.0) in
    rw split (
      drop-prefix (length fee + 23 * length hops) token (fee ++ rest)
      ∙ drop-prefix (23 * length hops) fee rest
      ∙ drop-encode next hops p.0.1 p.1)

sized_ends :
    (f : AlloyAddress → Text) (path : List ℕ) (k : ℕ)
    → length path ≡ 20 + 23 * suc k
    → (decode_v3_path f path false ≡ some (f (take 20 path), f (drop (23 * suc k) path)))
      × (decode_v3_path f path true ≡ some (f (drop (23 * suc k) path), f (take 20 path)))
unfolding decode_v3_path
sized_ends f path k h =
    let start : length path - 20 ≡ 23 * suc k = omega (arith, h) in
    let long : ltb (length path) 43 ≡ false = ground arith in
    let whole : (((23 * suc k) % 23) == 0) ≡ true = ground arith in
    rw long rw start rw whole (refl, refl)

-- For a path of tokens of 20 bytes with a fee of 3 bytes between each and the next, and at least
-- one hop, the ends that are read of its packed form are the first and the last token, in this
-- order or, for an exact output, the other way round.
pub decode_v3_path-encode_path :
    (format_address : AlloyAddress → Text) (token : AlloyAddress) (fee : List ℕ)
    (next : AlloyAddress) (hops : List (List ℕ × AlloyAddress))
    → length token ≡ 20
    → IsPacked ((fee, next) ∷ hops)
    → (decode_v3_path format_address (encode_path token ((fee, next) ∷ hops)) false
        ≡ some (format_address token, format_address (last_token next hops)))
      × (decode_v3_path format_address (encode_path token ((fee, next) ∷ hops)) true
          ≡ some (format_address (last_token next hops), format_address token))
decode_v3_path-encode_path f token fee next hops h p =
    let path = encode_path token ((fee, next) ∷ hops) in
    let (forth, back) =
      sized_ends f path (length hops) (encode-length token ((fee, next) ∷ hops) h p) in
    let start = take-prefix 20 token (fee ++ encode_path next hops) h in
    let end = drop-encode token ((fee, next) ∷ hops) h p in
    (forth ∙ (rw start rw end refl), back ∙ (rw start rw end refl))
