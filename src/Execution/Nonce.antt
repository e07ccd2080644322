-- ===== src/Execution/Nonce.antt =====
-- crates/execution/src/nonce.rs: the nonce manager. Its state is locked for each call, so a method is
-- a function from the state before it to the state after it. The chain's answer is a parameter.
use base_execution_engine.Base.Text.{Text, text}
use base_execution_engine.Base.Words.{checked_add, fit, saturating_add, u64_max}
use Prim.Native.Nat.{min}
use mathlib.Core.Path.{subst}
use base_execution_engine.Base.{
  All, All-imp, Bool, Bool-cases, List, Member, Result, [], arith, err, false, if◌then◌else◌, inl,
  inr, none, not, ok, some, true, ℕ, ◌+◌, ◌<◌, ◌==◌, ◌∷◌, ◌≡◌, ◌≢◌, ◌≤◌, ◌⊎◌,
}

pub record NonceState : Type 0 where
  pub next : ℕ
  pub initialised : Bool

abbrev pub default_state : NonceState
default_state = record { next = 0; initialised = false }

unfoldable pub sync_from_chain : Result Text ℕ → NonceState → Result Text ℕ × NonceState
sync_from_chain (err e) st =
    (err (text "failed to fetch pending transaction count from provider"), st)
sync_from_chain (ok count) st = (ok count, record { next = count; initialised = true })

unfoldable pub next_nonce : NonceState → Result Text ℕ × NonceState
next_nonce st =
    if not st.initialised
    then (err (text "nonce manager has not been initialised; call sync_from_chain first"), st)
    else elim (checked_add u64_max st.next 1) [
      | none ↦ (err (text "nonce counter overflow"), st)
      | some n ↦ (ok st.next, record st { next = n })
    ]

unfoldable pub release : ℕ → NonceState → NonceState
release expected st =
    if st.next == saturating_add u64_max expected 1 then record st { next = expected } else st

-- A reservation hands out the counter and moves it on by one.
pub next_nonce-ok :
    (st st' : NonceState) (n : ℕ)
    → next_nonce st ≡ (ok n, st')
    → (n ≡ st.next) × (n < u64_max) × (st' ≡ record st { next = n + 1 })
unfolding next_nonce fit
next_nonce-ok st st' n h = ground arith

-- A reservation that fails leaves the state as it was.
pub next_nonce-err : (st st' : NonceState) (e : Text) → next_nonce st ≡ (err e, st') → st' ≡ st
unfolding next_nonce fit
next_nonce-err st st' e h = ground arith

release_back :
    (st : NonceState) → st.next < u64_max → release st.next (record st { next = st.next + 1 }) ≡ st
unfolding release saturating_add
release_back st h = ground arith

-- A reservation that succeeds and is released at once leaves the state as it was.
pub release-next_nonce :
    (st st' : NonceState) (n : ℕ) → next_nonce st ≡ (ok n, st') → release n st' ≡ st
unfolding release saturating_add
release-next_nonce st st' n h =
    let k = next_nonce-ok st st' n h in
    rw (k.2, k.0) (release_back st (let e = k.0 in let b = k.1 in omega arith))

abbrev drop : ℕ → List ℕ → List ℕ
drop n [] = []
drop n (m ∷ l) = let rest = drop n l in if m == n then rest else m ∷ rest

-- The manager after a synchronisation and any reservations and releases, with the nonces that are
-- reserved and not released. Only a nonce that is held is released.
pub data Run : List ℕ → NonceState → Type 0 where
  synced : (st : NonceState) (n : ℕ) → n ≤ u64_max → Run [] (sync_from_chain (ok n) st).1
  reserved :
      (held : List ℕ) (st st' : NonceState) (n : ℕ)
      → Run held st
      → next_nonce st ≡ (ok n, st')
      → Run (n ∷ held) st'
  released :
      (held : List ℕ) (st : NonceState) (n : ℕ)
      → Run held st
      → Member n held
      → Run (drop n held) (release n st)

abbrev pub AllDistinct : List ℕ → Type 0
AllDistinct [] = Unit
AllDistinct (n ∷ l) = All (λ (m : ℕ). m ≢ n) l × AllDistinct l

drop-All : (P : ℕ → Type 0) (n : ℕ) (l : List ℕ) → All P l → All P (drop n l)
drop-All P n [] h = tt
drop-All P n (m ∷ l) h = elim (Bool-cases (m == n)) [
  | inl e ↦ rw e (drop-All P n l h.1)
  | inr e ↦ rw e (h.0, drop-All P n l h.1)
]

drop-AllDistinct : (n : ℕ) (l : List ℕ) → AllDistinct l → AllDistinct (drop n l)
drop-AllDistinct n [] h = tt
drop-AllDistinct n (m ∷ l) h = elim (Bool-cases (m == n)) [
  | inl e ↦ rw e (drop-AllDistinct n l h.1)
  | inr e ↦ rw e (drop-All (λ (k : ℕ). k ≢ m) n l h.0, drop-AllDistinct n l h.1)
]

-- Without the largest, all are below it.
drop-below : (n : ℕ) (l : List ℕ) → All (λ (m : ℕ). m < n + 1) l → All (λ (m : ℕ). m < n) (drop n l)
drop-below n [] h = tt
drop-below n (m ∷ l) h = elim (Bool-cases (m == n)) [
  | inl e ↦ rw e (drop-below n l h.1)
  | inr e ↦ rw e (below m n h.0 e, drop-below n l h.1)
]
  where
    below : (m n : ℕ) → m < n + 1 → (m == n) ≡ false → m < n
    below m n h e = ground arith

release-below :
    (held : List ℕ) (st : NonceState) (n : ℕ)
    → All (λ (m : ℕ). m < st.next) held
    → st.next ≤ u64_max
    → n < st.next
    → All (λ (m : ℕ). m < (release n st).next) (drop n held) × ((release n st).next ≤ u64_max)
unfolding release saturating_add
release-below held st n h b lt = by_test (Bool-cases (st.next == min (n + 1) u64_max))
  where
    by_test :
        ((st.next == min (n + 1) u64_max) ≡ true) ⊎ ((st.next == min (n + 1) u64_max) ≡ false)
        → All
            (λ (m : ℕ).
              m < (if st.next == min (n + 1) u64_max then record st { next = n } else st).next)
            (drop n held)
          × ((if st.next == min (n + 1) u64_max then record st { next = n } else st).next ≤ u64_max)
    by_test (inl e) =
        let one : st.next ≡ n + 1 = ground arith in
        rw e (drop-below n held (subst (λ (k : ℕ). All (λ (m : ℕ). m < k) held) one h), omega arith)
    by_test (inr e) = rw e (drop-All (λ (m : ℕ). m < st.next) n held h, b)

record Held (held : List ℕ) (st : NonceState) : Type 0 where
  distinct : AllDistinct held
  below : All (λ (m : ℕ). m < st.next) held
  fits : st.next ≤ u64_max

Member-below : (n top : ℕ) (l : List ℕ) → Member n l → All (λ (m : ℕ). m < top) l → n < top
Member-below n top [] m h = absurd m
Member-below n top (x ∷ l) (inl e) h = omega (arith, e, h.0)
Member-below n top (x ∷ l) (inr m) h = Member-below n top l m h.1

reserved-Held :
    (held : List ℕ) (st st' : NonceState) (n : ℕ)
    → Held held st
    → next_nonce st ≡ (ok n, st')
    → Held (n ∷ held) st'
reserved-Held held st st' n k e =
    let (same, lt, moved) = next_nonce-ok st st' n e in
    rw moved (record {
      distinct = (All-imp (λ (m : ℕ) (h : m < st.next). apart m h same) held k.below, k.distinct);
      below = (omega arith, All-imp (λ (m : ℕ) (h : m < st.next). up m h same) held k.below);
      fits = omega arith;
    })
  where
    apart : (m : ℕ) → m < st.next → n ≡ st.next → m ≢ n
    apart m h e = λ f. omega (arith, h, e, f)

    up : (m : ℕ) → m < st.next → n ≡ st.next → m < n + 1
    up m h e = omega (arith, h, e)

run-Held : (held : List ℕ) (st : NonceState) → Run held st → Held held st
unfolding sync_from_chain
run-Held _ _ (synced st n b) = record { distinct = tt; below = tt; fits = b }
run-Held _ _ (reserved held st st' n r e) = reserved-Held held st st' n (run-Held held st r) e
run-Held _ _ (released held st n r m) =
    let k = run-Held held st r in
    let b = release-below held st n k.below k.fits (Member-below n st.next held m k.below) in
    record { distinct = drop-AllDistinct n held k.distinct; below = b.0; fits = b.1 }

-- From a synchronisation on, whatever the order of the reservations and of the releases of held
-- nonces, a further reservation gives a nonce that is not held, and no two held nonces are equal.
pub held_distinct :
    (held : List ℕ) (st st' : NonceState) (n : ℕ)
    → Run held st
    → next_nonce st ≡ (ok n, st')
    → AllDistinct (n ∷ held)
held_distinct held st st' n r e = (reserved-Held held st st' n (run-Held held st r) e).distinct
