-- ===== src/Discovery/Chunks.antt =====
-- The chunked scan reads every block of the range once, whatever the size of the chunks.
use Prim.Native.Nat.{min}
use mathlib.Core.List.{append_assoc}
use base_execution_engine.Base.{
  some, true, ap, ◌∙◌, sym, Bool-cases, List, Option, Result, [], arith, inl, inr, ltb, ok, refl,
  suc, zero, ℕ, ◌++◌, ◌+◌, ◌-◌, ◌<◌, ◌^◌, ◌∷◌, ◌≡◌, ◌≤◌,
}
use base_execution_engine.Base.Text.{Text}
use base_execution_engine.Types.{BlockNumber}
use base_execution_engine.Discovery.Factory.{FactoryConfig, log_chunk_size_or_default}
use base_execution_engine.Discovery.Reader.{
  parse_address, PairCreated, decode_all, chunk_end, scan_chunks, decode_v2_pair_created,
  fetch_v2_pair_created,
}

log_chunk_size_or_default-pos : (factory : FactoryConfig) → 1 ≤ log_chunk_size_or_default factory
unfolding log_chunk_size_or_default
log_chunk_size_or_default-pos factory = ground arith

module _ {Log : Type 0} (logs_at : BlockNumber → List Log) where
  -- The logs of `count` blocks, from a first one.
  abbrev pub logs_in : BlockNumber → ℕ → List Log
  logs_in start zero = []
  logs_in start (suc count) = logs_at start ++ logs_in (suc start) count

  logs_in-append :
      (start m n : ℕ) → logs_in start (m + n) ≡ logs_in start m ++ logs_in (start + m) n
  logs_in-append start zero n =
      let left : 0 + n ≡ n = omega arith in
      let same : start + 0 ≡ start = omega arith in rw left rw same refl
  logs_in-append start (suc m) n =
      let left : suc m + n ≡ suc (m + n) = omega arith in
      let next : start + suc m ≡ suc start + m = omega arith in
      rw left rw next (
        ap (logs_at start ++◌) (logs_in-append (suc start) m n)
        ∙ sym (append_assoc (logs_at start) (logs_in (suc start) m) (logs_in (suc start + m) n)))

decode_all-append :
    {A B : Type 0} (decode : A → Option B) (xs ys : List A)
    → decode_all decode (xs ++ ys) ≡ decode_all decode xs ++ decode_all decode ys
unfolding decode_all
decode_all-append decode [] ys = refl
decode_all-append decode (x ∷ xs) ys = ground (arith, decode_all-append decode xs ys)

module _ {Log Pool : Type 0} (logs_at : BlockNumber → List Log) (decode : Log → Option Pool) where
  decode_all-logs_in :
      (start last to_block : ℕ)
      → start ≤ last
      → last ≤ to_block
      → decode_all decode (logs_in logs_at start (suc last - start))
          ++ decode_all decode (logs_in logs_at (suc last) (suc to_block - suc last))
        ≡ decode_all decode (logs_in logs_at start (suc to_block - start))
  decode_all-logs_in start last to_block low high =
      let m = suc last - start in
      let n = suc to_block - suc last in
      let reached : start + m ≡ suc last = omega (arith, low) in
      let whole : m + n ≡ suc to_block - start = omega (arith, low, high) in
      sym (decode_all-append decode (logs_in logs_at start m) (logs_in logs_at (suc last) n))
      ∙ ap (decode_all decode) (
          ap (λ at. logs_in logs_at start m ++ logs_in logs_at at n) (sym reached)
          ∙ sym (logs_in-append logs_at start m n)
          ∙ ap (logs_in logs_at start) whole)

module _ {Log Pool : Type 0} (get_logs : BlockNumber → BlockNumber → Result Text (List Log))
    (decode : Log → Option Pool) (message : Text) (chunk to_block : ℕ)
    (logs_at : BlockNumber → List Log)
    (answers : (a b : BlockNumber) → a ≤ b → get_logs a b ≡ ok (logs_in logs_at a (suc b - a)))
    (some_blocks : 1 ≤ chunk) (in_range : to_block + chunk < 2 ^ 64) where
  chunk_end_range :
      (cursor : ℕ)
      → cursor ≤ to_block
      → (cursor ≤ chunk_end get_logs decode message chunk to_block cursor)
        × (chunk_end get_logs decode message chunk to_block cursor ≤ to_block)
  unfolding chunk_end
  chunk_end_range cursor h = ground (arith, h, some_blocks, in_range)

  next_cursor : (e : ℕ) → e ≤ to_block → min (suc e) (2 ^ 64 - 1) ≡ suc e
  next_cursor e h = ground arith

  scan_chunks-logs_in :
      (fuel cursor : ℕ)
      → suc to_block - cursor ≤ fuel
      → scan_chunks get_logs decode message chunk to_block fuel cursor
        ≡ some (ok (decode_all decode (logs_in logs_at cursor (suc to_block - cursor))))
  unfolding scan_chunks decode_all
  scan_chunks-logs_in zero cursor h =
      let none_left : suc to_block - cursor ≡ 0 = omega (arith, h) in
      let past : ltb to_block cursor ≡ true = ground (arith, h) in rw past rw none_left refl
  scan_chunks-logs_in (suc fuel) cursor h = elim (Bool-cases (ltb to_block cursor)) [
    | inl past ↦
        let none_left : suc to_block - cursor ≡ 0 = ground arith in rw past rw none_left refl
    | inr within ↦
        let (low, high) = chunk_end_range cursor (ground arith) in
        let e = chunk_end get_logs decode message chunk to_block cursor in
        let ih = scan_chunks-logs_in fuel (suc e) (omega (arith, h, low)) in
        rw within rw (answers cursor e low) rw (next_cursor e high) rw ih (
          ap (λ (pools : List Pool). some (ok pools))
            (decode_all-logs_in logs_at decode cursor e to_block low high))
  ]

module _ {AlloyAddress Log : Type 0} (from_str : Text → Option AlloyAddress)
    (format_address : AlloyAddress → Text)
    (get_pairs : AlloyAddress → BlockNumber → BlockNumber → Result Text (List Log))
    (pair_created : Log → Option (PairCreated AlloyAddress)) where
  -- Where the address of the factory is read, the node answers every range with the logs of its
  -- blocks in order, and the last block plus the size of a chunk fits 64 bits, the scan in chunks
  -- ends and gives the pools that are decoded from the logs of all the blocks of the range, each
  -- block once and in order, whatever the size of the chunks.
  pub fetch_v2_pair_created-logs_in :
      (logs_at : AlloyAddress → BlockNumber → List Log) (factory : FactoryConfig)
      (address : AlloyAddress) (from_block to_block : BlockNumber)
      (parses : parse_address from_str factory.address ≡ ok address)
      (answers : (a b : BlockNumber)
        → a ≤ b
        → get_pairs address a b ≡ ok (logs_in (logs_at address) a (suc b - a)))
      (in_range : to_block + log_chunk_size_or_default factory < 2 ^ 64)
      → fetch_v2_pair_created from_str format_address get_pairs pair_created factory from_block
          to_block
        ≡ some (
            ok (
              decode_all
                (decode_v2_pair_created from_str format_address get_pairs pair_created factory)
                (logs_in (logs_at address) from_block (suc to_block - from_block))))
  unfolding fetch_v2_pair_created
  fetch_v2_pair_created-logs_in logs_at factory address from_block to_block parses answers
        in_range =
      rw (fetch_v2_pair_created, parses)
        (scan_chunks-logs_in (get_pairs address) _ _ (log_chunk_size_or_default factory) to_block
          (logs_at address) answers (log_chunk_size_or_default-pos factory) in_range _ from_block
          (omega arith))
