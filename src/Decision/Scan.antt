-- ===== src/Decision/Scan.antt =====
-- The scan of a whole book: `detect_two_leg_loops_from_book`.
use base_execution_engine.Base.Text.{
  Text, eq_ignore_ascii_case, eq_ignore_ascii_case_refl, text_eq, text_eq_iff, text_eq_refl,
}
use base_execution_engine.Base.{
  All, All-append, All-imp, Bool, Bool-cases, List, Member, Member-append_left, Member-append_right,
  Option, [], arith, false, if◌then◌else◌, inl, inr, none, not, refl, some, sym, true, ◌||◌, ◌∷◌,
  ◌≡◌, ◌≤◌,
}
use base_execution_engine.Base.Sort.{
  sort_by, place, dedup_by, dedup_after, sort_by-All, place-All, dedup_by-All, dedup_after-All,
  All-sort_by, All-dedup_by,
}
use base_execution_engine.Types.{Address, Amount, BlockContext, Opportunity}
use mathlib.Core.Path.{subst}
use base_execution_engine.Markets.V2.{V2PoolState, contains_token, other_token}
use base_execution_engine.Markets.Book.{PoolBook, v2_pools}
use base_execution_engine.Decision.{
  TwoLegLoopInput, none_if, detect_two_leg_loop, loop_input, scan_pair, scan_second,
  scan_first_pool, scan_first, goes_before, detect_two_leg_loops_from_book,
}
use base_execution_engine.Decision.Loop.{none_if-some, detect_two_leg_loop-Pays}

-- No later opportunity has more profit.
abbrev pub Descending : List Opportunity → Type 0
Descending [] = Unit
Descending (o ∷ l) =
    All (λ (p : Opportunity). p.expected_net_profit ≤ o.expected_net_profit) l × Descending l

abbrev pub has_id : Text → List Opportunity → Bool
has_id id [] = false
has_id id (o ∷ l) = text_eq o.id id || has_id id l

has_id-All :
    (id : Text) (l : List Opportunity)
    → has_id id l ≡ false
    → All (λ (o : Opportunity). text_eq o.id id ≡ false) l
has_id-All id [] h = tt
has_id-All id (o ∷ l) h = (ground arith, has_id-All id l (ground arith))

Member-All :
    (P : Opportunity → Type 0) (o : Opportunity) (l : List Opportunity) → Member o l → All P l → P o
Member-All P o [] m a = absurd m
Member-All P o (x ∷ l) (inl e) a = subst P (sym e) a.0
Member-All P o (x ∷ l) (inr m) a = Member-All P o l m a.1

goes_before-profit :
    (o p : Opportunity) → goes_before o p ≡ true → p.expected_net_profit ≤ o.expected_net_profit
unfolding goes_before
goes_before-profit o p e = ground arith

goes_after-profit :
    (o p : Opportunity) → goes_before o p ≡ false → o.expected_net_profit ≤ p.expected_net_profit
unfolding goes_before
goes_after-profit o p e = ground arith

place-Descending :
    (o : Opportunity) (l : List Opportunity) → Descending l → Descending (place goes_before o l)
unfolding place
place-Descending o [] h = (tt, tt)
place-Descending o (p ∷ l) h = elim (Bool-cases (goes_before o p)) [
  | inl e ↦
      let le : p.expected_net_profit ≤ o.expected_net_profit = goes_before-profit o p e in
      let later =
        All-imp
          (λ (q : Opportunity) (b : q.expected_net_profit ≤ p.expected_net_profit).
            below q p o b le)
          l h.0 in
      rw e ((le, later), h)
  | inr e ↦ rw e (
    place-All (λ (q : Opportunity). q.expected_net_profit ≤ p.expected_net_profit) goes_before o l
        (goes_after-profit o p e) h.0,
    place-Descending o l h.1,
  )
]
  where
    below :
        (q p o : Opportunity)
        → q.expected_net_profit ≤ p.expected_net_profit
        → p.expected_net_profit ≤ o.expected_net_profit
        → q.expected_net_profit ≤ o.expected_net_profit
    below q p o b c = omega arith

sort_by-Descending : (l : List Opportunity) → Descending (sort_by goes_before l)
unfolding sort_by
sort_by-Descending [] = tt
sort_by-Descending (o ∷ l) = place-Descending o (sort_by goes_before l) (sort_by-Descending l)

dedup_after-Descending :
    (same : Opportunity → Opportunity → Bool) (last : Opportunity) (l : List Opportunity)
    → Descending l
    → Descending (dedup_after same last l)
unfolding dedup_after
dedup_after-Descending same last [] h = tt
dedup_after-Descending same last (o ∷ l) h = elim (Bool-cases (same o last)) [
  | inl e ↦ rw (e, dedup_after) (dedup_after-Descending same last l h.1)
  | inr e ↦
      rw (e, dedup_after)
        (
          dedup_after-All (λ (q : Opportunity). q.expected_net_profit ≤ o.expected_net_profit) same
              o l h.0,
          dedup_after-Descending same o l h.1,
        )
]

dedup_by-Descending :
    (same : Opportunity → Opportunity → Bool) (l : List Opportunity)
    → Descending l
    → Descending (dedup_by same l)
unfolding dedup_by
dedup_by-Descending same [] h = tt
dedup_by-Descending same (o ∷ l) h = (
  dedup_after-All (λ (q : Opportunity). q.expected_net_profit ≤ o.expected_net_profit) same o l h.0,
  dedup_after-Descending same o l h.1,
)

-- Where the other token stands, both tokens are the pool's.
other_token-contains :
    (p : V2PoolState) (token out : Address)
    → other_token p token ≡ some out
    → (contains_token p token ≡ true) × (contains_token p out ≡ true)
unfolding other_token contains_token
other_token-contains p token out h =
    ground (arith, eq_ignore_ascii_case_refl p.token0, eq_ignore_ascii_case_refl p.token1)

head_found :
    (o : Opportunity) (r : Option Opportunity) (rest : List Opportunity)
    → r ≡ some o
    → Member o (elim r as (λ x. List Opportunity) [ none ↦ rest | some p ↦ p ∷ rest ])
head_found o none rest k = cc
head_found o (some p) rest k = inl (let j = k in cc)

module _ (block_context : BlockContext) (settlement_token : Address) (amount_in : Amount)
    (trigger_tx_hash : Option Text) where
  abbrev input : V2PoolState → V2PoolState → TwoLegLoopInput
  input = loop_input block_context settlement_token amount_in trigger_tx_hash

  -- An opportunity that the loop over two different pools of the list gives.
  abbrev pub FoundIn : List V2PoolState → Opportunity → Type 0
  FoundIn pools o =
      (first : V2PoolState) × (second : V2PoolState) × Member first pools
      × Member second pools
      × (eq_ignore_ascii_case first.address second.address ≡ false)
      × (detect_two_leg_loop
            (loop_input block_context settlement_token amount_in trigger_tx_hash first second)
          ≡ some o)

  pair_found :
      (pools : List V2PoolState) (first second : V2PoolState) (mid : Address) (o : Opportunity)
      → Member first pools
      → Member second pools
      → scan_pair block_context settlement_token amount_in trigger_tx_hash first mid second ≡ some o
      → FoundIn pools o
  unfolding scan_pair
  pair_found pools first second mid o m n e =
      let (apart, h0) = none_if-some (eq_ignore_ascii_case first.address second.address) _ e in
      let (held, h1) =
        none_if-some
          (not (contains_token second mid) || not (contains_token second settlement_token)) _ h0 in
      (first, second, m, n, apart, h1)

  scan_second-FoundIn :
      (pools : List V2PoolState) (first : V2PoolState) (mid : Address) (l : List V2PoolState)
      → Member first pools
      → ((q : V2PoolState) → Member q l → Member q pools)
      → All
          (FoundIn pools)
          (scan_second block_context settlement_token amount_in trigger_tx_hash first mid l)
  unfolding scan_second
  scan_second-FoundIn pools first mid [] m sub = tt
  scan_second-FoundIn pools first mid (second ∷ l) m sub =
      by_pair (scan_pair block_context settlement_token amount_in trigger_tx_hash first mid second)
        (scan_second block_context settlement_token amount_in trigger_tx_hash first mid l)
        (λ o e. pair_found pools first second mid o m (sub second (inl refl)) e)
        (scan_second-FoundIn pools first mid l m (λ q n. sub q (inr n)))
    where
      by_pair :
          (r : Option Opportunity) (rest : List Opportunity)
          → ((o : Opportunity) → r ≡ some o → FoundIn pools o)
          → All (FoundIn pools) rest
          → All
              (FoundIn pools)
              (elim r as (λ x. List Opportunity) [ none ↦ rest | some o ↦ o ∷ rest ])
      by_pair none rest f a = a
      by_pair (some o) rest f a = (f o refl, a)

  scan_first_pool-FoundIn :
      (pools : List V2PoolState) (first : V2PoolState)
      → Member first pools
      → All
          (FoundIn pools)
          (scan_first_pool block_context settlement_token amount_in trigger_tx_hash pools first)
  unfolding scan_first_pool
  scan_first_pool-FoundIn pools first m =
      by_token (contains_token first settlement_token) (other_token first settlement_token)
    where
      by_token :
          (b : Bool) (mid : Option Address)
          → All (FoundIn pools) (
              if b
              then elim mid as (λ x. List Opportunity) [
                | none ↦ []
                | some mid ↦
                    scan_second block_context settlement_token amount_in trigger_tx_hash first mid
                      pools
              ]
              else [])
      by_token false mid = tt
      by_token true none = tt
      by_token true (some mid) = scan_second-FoundIn pools first mid pools m (λ q n. n)

  scan_first-FoundIn :
      (pools l : List V2PoolState)
      → ((q : V2PoolState) → Member q l → Member q pools)
      → All
          (FoundIn pools)
          (scan_first block_context settlement_token amount_in trigger_tx_hash pools l)
  unfolding scan_first
  scan_first-FoundIn pools [] sub = tt
  scan_first-FoundIn pools (first ∷ l) sub =
      All-append (FoundIn pools)
        (scan_first_pool block_context settlement_token amount_in trigger_tx_hash pools first)
        (scan_first block_context settlement_token amount_in trigger_tx_hash pools l)
        (scan_first_pool-FoundIn pools first (sub first (inl refl)))
        (scan_first-FoundIn pools l (λ q n. sub q (inr n)))

  Member-scan_second :
      (first second : V2PoolState) (mid : Address) (o : Opportunity) (l : List V2PoolState)
      → scan_pair block_context settlement_token amount_in trigger_tx_hash first mid second ≡ some o
      → Member second l
      → Member o (scan_second block_context settlement_token amount_in trigger_tx_hash first mid l)
  unfolding scan_second
  Member-scan_second first second mid o [] e m = absurd m
  Member-scan_second first second mid o (x ∷ l) e (inl same) =
      let f : scan_pair block_context settlement_token amount_in trigger_tx_hash first mid x
          ≡ some o =
        rw same at e in
      head_found o (scan_pair block_context settlement_token amount_in trigger_tx_hash first mid x)
        (scan_second block_context settlement_token amount_in trigger_tx_hash first mid l) f
  Member-scan_second first second mid o (x ∷ l) e (inr m) =
      by_pair (scan_pair block_context settlement_token amount_in trigger_tx_hash first mid x)
        (scan_second block_context settlement_token amount_in trigger_tx_hash first mid l)
        (Member-scan_second first second mid o l e m)
    where
      by_pair :
          (r : Option Opportunity) (rest : List Opportunity)
          → Member o rest
          → Member o (elim r as (λ x. List Opportunity) [ none ↦ rest | some p ↦ p ∷ rest ])
      by_pair none rest k = k
      by_pair (some p) rest k = inr k

  Member-scan_first :
      (pools : List V2PoolState) (first : V2PoolState) (o : Opportunity) (l : List V2PoolState)
      → Member o
          (scan_first_pool block_context settlement_token amount_in trigger_tx_hash pools first)
      → Member first l
      → Member o (scan_first block_context settlement_token amount_in trigger_tx_hash pools l)
  unfolding scan_first
  Member-scan_first pools first o [] e m = absurd m
  Member-scan_first pools first o (x ∷ l) e (inl same) =
      Member-append_left o
        (scan_first_pool block_context settlement_token amount_in trigger_tx_hash pools x)
        (scan_first block_context settlement_token amount_in trigger_tx_hash pools l)
        (subst
          (λ (q : V2PoolState).
            Member o
              (scan_first_pool block_context settlement_token amount_in trigger_tx_hash pools q))
          same e)
  Member-scan_first pools first o (x ∷ l) e (inr m) =
      Member-append_right o
        (scan_first_pool block_context settlement_token amount_in trigger_tx_hash pools x)
        (scan_first block_context settlement_token amount_in trigger_tx_hash pools l)
        (Member-scan_first pools first o l e m)

  -- The tests before the call of the detector turn down nothing that it would find.
  Member-scan_first_pool :
      (pools : List V2PoolState) (first second : V2PoolState) (o : Opportunity)
      → Member second pools
      → eq_ignore_ascii_case first.address second.address ≡ false
      → detect_two_leg_loop
          (loop_input block_context settlement_token amount_in trigger_tx_hash first second)
        ≡ some o
      → Member o
          (scan_first_pool block_context settlement_token amount_in trigger_tx_hash pools first)
  unfolding scan_first_pool scan_pair loop_input
  Member-scan_first_pool pools first second o m apart e =
      let p = detect_two_leg_loop-Pays (input first second) o e in
      let other : other_token first settlement_token ≡ some p.first.token_out =
        subst (λ (t : Address). other_token first t ≡ some p.first.token_out) p.starts
          p.first_swap.out in
      let in_second : other_token second p.first.token_out ≡ some p.second.token_out =
        subst (λ (t : Address). other_token second t ≡ some p.second.token_out) p.chains
          p.second_swap.out in
      let ends : contains_token second settlement_token ≡ true =
        subst (λ (t : Address). contains_token second t ≡ true) p.ends
          (other_token-contains second p.first.token_out p.second.token_out in_second).1 in
      by_token (contains_token first settlement_token) (other_token first settlement_token)
        p.first.token_out (other_token-contains first settlement_token p.first.token_out other).0
        other
        (Member-scan_second first second p.first.token_out o pools
          (by_tests _ _ _ _ apart
            (other_token-contains second p.first.token_out p.second.token_out in_second).0 ends e)
          m)
    where
      by_tests :
          (a b c : Bool) (r : Option Opportunity)
          → a ≡ false
          → b ≡ true
          → c ≡ true
          → r ≡ some o
          → none_if a (none_if (not b || not c) r) ≡ some o
      by_tests a b c r ea eb ec er = ground arith

      by_token :
          (b : Bool) (r : Option Address) (mid : Address)
          → b ≡ true
          → r ≡ some mid
          → Member o
              (scan_second block_context settlement_token amount_in trigger_tx_hash first mid pools)
          → Member o (
              if b
              then elim r as (λ x. List Opportunity) [
                | none ↦ []
                | some mid ↦
                    scan_second block_context settlement_token amount_in trigger_tx_hash first mid
                      pools
              ]
              else [])
      by_token b r mid eb er k = rw (eb, er) k

  -- Every opportunity that the scan of a book returns is what the detector finds for two V2 pools
  -- of the book with different addresses, and none comes before one with more profit.
  pub detect_two_leg_loops_from_book-FoundIn :
      (book : PoolBook)
      → All (FoundIn (v2_pools book)) (
          detect_two_leg_loops_from_book block_context settlement_token amount_in trigger_tx_hash
            book)
        × Descending (
            detect_two_leg_loops_from_book block_context settlement_token amount_in trigger_tx_hash
              book)
  unfolding detect_two_leg_loops_from_book
  detect_two_leg_loops_from_book-FoundIn book =
      let pools = v2_pools book in
      let raw = scan_first block_context settlement_token amount_in trigger_tx_hash pools pools in
      let same = λ (l r : Opportunity). text_eq l.id r.id in
      (
        dedup_by-All (FoundIn pools) same (sort_by goes_before raw) (
            sort_by-All (FoundIn pools) goes_before raw
              (scan_first-FoundIn pools pools (λ q n. n))),
        dedup_by-Descending same (sort_by goes_before raw) (sort_by-Descending raw),
      )

  -- Whatever the detector finds for two V2 pools of the book with different addresses is returned
  -- by the scan of the book, at least under its identifier.
  pub has_id-detect_two_leg_loops_from_book :
      (book : PoolBook) (o : Opportunity)
      → FoundIn (v2_pools book) o
      → has_id o.id (
          detect_two_leg_loops_from_book block_context settlement_token amount_in trigger_tx_hash
            book)
        ≡ true
  unfolding detect_two_leg_loops_from_book
  has_id-detect_two_leg_loops_from_book book o f =
      let pools = v2_pools book in
      let raw = scan_first block_context settlement_token amount_in trigger_tx_hash pools pools in
      let same = λ (l r : Opportunity). text_eq l.id r.id in
      kept o (dedup_by same (sort_by goes_before raw))
        (Member-scan_first pools f.0 o pools (Member-scan_first_pool pools f.0 f.1 o f.3 f.4 f.5)
          f.2)
        (λ a.
          All-sort_by (λ (p : Opportunity). text_eq p.id o.id ≡ false) goes_before raw
            (All-dedup_by (λ (p : Opportunity). text_eq p.id o.id ≡ false) same
              (λ x y e n. let i = (text_eq_iff x.id y.id).0 e in rw i n) (sort_by goes_before raw)
              a))
    where
      kept :
          (o : Opportunity) (found : List Opportunity)
          → Member o (
              scan_first block_context settlement_token amount_in trigger_tx_hash
                (v2_pools book)
                (v2_pools book))
          → (All (λ (p : Opportunity). text_eq p.id o.id ≡ false) found
              → All
                  (λ (p : Opportunity). text_eq p.id o.id ≡ false)
                  (scan_first block_context settlement_token amount_in trigger_tx_hash
                    (v2_pools book)
                    (v2_pools book)))
          → has_id o.id found ≡ true
      kept o found m back = elim (Bool-cases (has_id o.id found)) [
        | inl e ↦ e
        | inr e ↦
            let n =
              Member-All (λ (p : Opportunity). text_eq p.id o.id ≡ false) o _ m
                (back (has_id-All o.id found e)) in
            let y = text_eq_refl o.id in cc
      ]
