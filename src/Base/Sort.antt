-- ===== src/Base/Sort.antt =====
-- `slice::sort_by` and `Vec::dedup_by`: a stable sort by a Boolean order, and the removal of
-- neighbours that are equal to the last one kept.
use mathlib.Core.Path.{◌≡◌}
use mathlib.Core.Logic.{inl, inr}
use mathlib.Core.Bool.{Bool, true, false}
use mathlib.Core.List.{List, [], ◌∷◌}
use base_execution_engine.Base.Tests.{if◌then◌else◌, Bool-cases}
use base_execution_engine.Base.Lists.{All}

module _ {ℓ} {A : Type ℓ} where
  -- An element goes before the first one that is not below it.
  unfoldable pub place : (A → A → Bool) → A → List A → List A
  place le a [] = a ∷ []
  place le a (b ∷ l) = if le a b then a ∷ b ∷ l else b ∷ place le a l

  unfoldable pub sort_by : (A → A → Bool) → List A → List A
  sort_by le [] = []
  sort_by le (a ∷ l) = place le a (sort_by le l)

  -- Drops the head of the list while it equals `last`.
  unfoldable pub dedup_after : (A → A → Bool) → A → List A → List A
  dedup_after same last [] = []
  dedup_after same last (b ∷ l) = elim (same b last) [
    | true ↦ dedup_after same last l
    | false ↦ b ∷ dedup_after same b l
  ]

  unfoldable pub dedup_by : (A → A → Bool) → List A → List A
  dedup_by same [] = []
  dedup_by same (a ∷ l) = a ∷ dedup_after same a l

  -- Every element is at most its successor.
  abbrev pub IsSorted : (A → A → Bool) → List A → Type 0
  IsSorted le [] = Unit
  IsSorted le (a ∷ []) = Unit
  IsSorted le (a ∷ b ∷ l) = (le a b ≡ true) × IsSorted le (b ∷ l)

  pub place-All {κ} :
      (P : A → Type κ) (le : A → A → Bool) (a : A) (l : List A)
      → P a
      → All P l
      → All P (place le a l)
  unfolding place
  place-All P le a [] p h = (p, tt)
  place-All P le a (b ∷ l) p h = elim (Bool-cases (le a b)) [
    | inl e ↦ rw e (p, h)
    | inr e ↦ rw e (h.0, place-All P le a l p h.1)
  ]

  pub sort_by-All {κ} :
      (P : A → Type κ) (le : A → A → Bool) (l : List A) → All P l → All P (sort_by le l)
  unfolding sort_by
  sort_by-All P le [] h = tt
  sort_by-All P le (a ∷ l) h = place-All P le a (sort_by le l) h.0 (sort_by-All P le l h.1)

  pub All-place {κ} :
      (P : A → Type κ) (le : A → A → Bool) (a : A) (l : List A)
      → All P (place le a l)
      → P a × All P l
  unfolding place
  All-place P le a [] h = (h.0, tt)
  All-place P le a (b ∷ l) h = by_test (le a b) (All-place P le a l) h
    where
      by_test :
          (t : Bool)
          → (All P (place le a l) → P a × All P l)
          → All P (if t then a ∷ b ∷ l else b ∷ place le a l)
          → P a × All P (b ∷ l)
      by_test true ih h = h
      by_test false ih h = let k = ih h.1 in (k.0, (h.0, k.1))

  pub All-sort_by {κ} :
      (P : A → Type κ) (le : A → A → Bool) (l : List A) → All P (sort_by le l) → All P l
  unfolding sort_by
  All-sort_by P le [] h = tt
  All-sort_by P le (a ∷ l) h =
      let k = All-place P le a (sort_by le l) h in (k.0, All-sort_by P le l k.1)

  pub dedup_after-All {κ} :
      (P : A → Type κ) (same : A → A → Bool) (last : A) (l : List A)
      → All P l
      → All P (dedup_after same last l)
  unfolding dedup_after
  dedup_after-All P same last [] h = tt
  dedup_after-All P same last (b ∷ l) h = elim (Bool-cases (same b last)) [
    | inl e ↦ rw (e, dedup_after) (dedup_after-All P same last l h.1)
    | inr e ↦ rw (e, dedup_after) (h.0, dedup_after-All P same b l h.1)
  ]

  pub dedup_by-All {κ} :
      (P : A → Type κ) (same : A → A → Bool) (l : List A) → All P l → All P (dedup_by same l)
  unfolding dedup_by
  dedup_by-All P same [] h = tt
  dedup_by-All P same (a ∷ l) h = (h.0, dedup_after-All P same a l h.1)

  -- Where equal elements share a property, the list has it if the shortened list has.
  pub All-dedup_after {κ} :
      (P : A → Type κ) (same : A → A → Bool)
      → ((a b : A) → same a b ≡ true → P b → P a)
      → (last : A) (l : List A) → P last
      → All P (dedup_after same last l)
      → All P l
  unfolding dedup_after
  All-dedup_after P same move last [] p h = tt
  All-dedup_after P same move last (b ∷ l) p h = elim (Bool-cases (same b last)) [
    | inl e ↦
        let k : All P (dedup_after same last l) = rw (e, dedup_after) at h in
        (move b last e p, All-dedup_after P same move last l p k)
    | inr e ↦
        let k : P b × All P (dedup_after same b l) = rw (e, dedup_after) at h in
        (k.0, All-dedup_after P same move b l k.0 k.1)
  ]

  pub All-dedup_by {κ} :
      (P : A → Type κ) (same : A → A → Bool)
      → ((a b : A) → same a b ≡ true → P b → P a)
      → (l : List A) → All P (dedup_by same l)
      → All P l
  unfolding dedup_by
  All-dedup_by P same move [] h = tt
  All-dedup_by P same move (a ∷ l) h = (h.0, All-dedup_after P same move a l h.0 h.1)
