-- ===== src/Risk/Blocks.antt =====
-- The per-block cap: the counter holds what was accepted in the latest run of one block.
use base_execution_engine.Base.Text.{Text}
use base_execution_engine.Types.{Opportunity, RiskDecision}
use base_execution_engine.Base.Words.{saturating_add, u128_max}
use base_execution_engine.Base.{
  All, Bool, Bool-cases, List, [], ap, arith, false, if◌then◌else◌, inl, inr, refl, some, sym, true,
  ℕ, ◌+◌, ◌<◌, ◌==◌, ◌∙◌, ◌∷◌, ◌≡◌, ◌≤◌,
}
use Prim.Native.Nat.{min}
use mathlib.Core.Path.{subst}
use base_execution_engine.Risk.{
  RiskPolicy, RiskState, prune_daily_entries, block_bucket, block_used, commit, assess,
  record_outcome, trigger_kill_switch,
}
use base_execution_engine.Risk.Runs.{
  Call, assessed, outcome, killed, after, accepted_log, Step, assess-Step,
}

-- What was accepted in a block since another block was last accepted in.
abbrev latest_run : ℕ → List (ℕ × ℕ × ℕ) → ℕ
latest_run number [] = 0
latest_run number ((ts, bucket, amount) ∷ l) =
    let rest = latest_run number l in if bucket == number then amount + rest else 0

-- All that was accepted in a block.
abbrev pub accepted_in : ℕ → List (ℕ × ℕ × ℕ) → ℕ
accepted_in number [] = 0
accepted_in number ((ts, bucket, amount) ∷ l) =
    let rest = accepted_in number l in if bucket == number then amount + rest else rest

-- The newest entry first, no block number goes back.
abbrev pub InBlockOrder : List (ℕ × ℕ × ℕ) → Type 0
InBlockOrder [] = Unit
InBlockOrder ((ts, bucket, amount) ∷ l) = All (λ (e : ℕ × ℕ × ℕ). e.1 ≤ bucket) l × InBlockOrder l

accepted_in-none :
    (number bucket : ℕ) (l : List (ℕ × ℕ × ℕ))
    → bucket < number
    → All (λ (e : ℕ × ℕ × ℕ). e.1 ≤ bucket) l
    → accepted_in number l ≡ 0
accepted_in-none number bucket [] h a = refl
accepted_in-none number bucket ((ts, b, amount) ∷ l) h a =
    ground (arith, accepted_in-none number bucket l h a.1)

-- In block order the latest block's run is all of it.
accepted_in-latest_run :
    (number : ℕ) (l : List (ℕ × ℕ × ℕ))
    → InBlockOrder l
    → All (λ (e : ℕ × ℕ × ℕ). e.1 ≤ number) l
    → accepted_in number l ≡ latest_run number l
accepted_in-latest_run number [] o a = refl
accepted_in-latest_run number ((ts, b, amount) ∷ l) o a =
    let ih = accepted_in-latest_run number l o.1 a.1 in
    let later = accepted_in-none number b l in
    let first = a.0 in
    let below = o.0 in
    elim (Bool-cases (b == number)) [
      | inl e ↦ ground arith
      | inr e ↦ rw e (later (ground arith) below)
    ]

record Counts (cap : ℕ) (log : List (ℕ × ℕ × ℕ)) (st : RiskState) : Type 0 where
  used : (number : ℕ) → block_used st number ≡ latest_run number log
  bounded : (number : ℕ) → block_used st number ≤ cap

same-Counts :
    (cap : ℕ) (log : List (ℕ × ℕ × ℕ)) (st st' : RiskState)
    → st'.block_notional ≡ st.block_notional
    → Counts cap log st
    → Counts cap log st'
unfolding block_used
same-Counts cap log st st' e t = record {
  used = (λ n. rw e (t.used n));
  bounded = (λ n. rw e (t.bounded n));
}

commit-Counts :
    (cap number now amount : ℕ) (log : List (ℕ × ℕ × ℕ)) (st : RiskState)
    → cap < u128_max
    → min (block_used st number + amount) u128_max ≤ cap
    → Counts cap log st
    → Counts cap ((now, number, amount) ∷ log) (commit number now amount st)
unfolding commit saturating_add block_used
commit-Counts cap number now amount log st small fits t = record {
  used = (λ n. elim (Bool-cases (number == n)) [
    | inl e ↦ rw e (
        let same : number ≡ n = ground arith in
        let k = t.used number ∙ ap (λ (m : ℕ). latest_run m log) same in omega (arith, k))
    | inr e ↦ rw e refl
  ]);
  bounded = (λ n. ground arith);
}

-- Each run in the log was at most the cap when it was the latest.
abbrev RunsBounded : ℕ → List (ℕ × ℕ × ℕ) → Type 0
RunsBounded cap [] = Unit
RunsBounded cap (e ∷ l) = ((number : ℕ) → latest_run number (e ∷ l) ≤ cap) × RunsBounded cap l

accepted_in-le :
    (cap number : ℕ) (l : List (ℕ × ℕ × ℕ))
    → InBlockOrder l
    → RunsBounded cap l
    → accepted_in number l ≤ cap
accepted_in-le cap number [] o r = omega arith
accepted_in-le cap number ((ts, b, amount) ∷ l) o r =
    let rest = accepted_in-le cap number l o.1 r.1 in
    let run = r.0 number in
    let whole = accepted_in-latest_run number l o.1 in
    elim (Bool-cases (b == number)) [
      | inl e ↦
          let same : b ≡ number = ground arith in
          let k = whole (subst (λ (m : ℕ). All (λ (e : ℕ × ℕ × ℕ). e.1 ≤ m) l) same o.0) in
          ground arith
      | inr e ↦ rw e rest
    ]

module _ (path_exists : Text → Bool) (sha256_hex : List ℕ → Text) (policy : RiskPolicy) where
  Step-Counts :
      (cap now : ℕ) (opp : Opportunity) (log : List (ℕ × ℕ × ℕ)) (st : RiskState)
      (p : RiskDecision × RiskState)
      → policy.max_per_block_notional_wei ≡ some cap
      → cap < u128_max
      → Step path_exists sha256_hex policy now opp st p
      → Counts cap log st
      → RunsBounded cap log
      → let log' =
          if p.0.accepted
          then (now, block_bucket opp.block_context, opp.input_amount) ∷ log
          else log in
        Counts cap log' p.1 × RunsBounded cap log'
  unfolding prune_daily_entries block_used
  Step-Counts cap now opp log st (d, st') c small (inl (denied, inl e)) t r =
      rw denied (subst (Counts cap log) (sym e) t, r)
  Step-Counts cap now opp log st (d, st') c small (inl (denied, inr e)) t r = rw denied (
    subst (Counts cap log) (sym e) (same-Counts cap log st (prune_daily_entries st now) refl t),
    r,
  )
  Step-Counts cap now opp log st (d, st') c small (inr (accepted, a, e)) t r =
      let number = block_bucket opp.block_context in
      let fits : min (block_used st number + opp.input_amount) u128_max ≤ cap =
        rw c at a.block_cap in
      let new =
        commit-Counts cap number now opp.input_amount log (prune_daily_entries st now) small fits
          (same-Counts cap log st (prune_daily_entries st now) refl t) in
      rw accepted (
        subst (Counts cap ((now, number, opp.input_amount) ∷ log)) (sym e) new,
        ((λ n. let k = new.used n in let m = new.bounded n in omega (arith, k, m)), r),
      )

  after-Counts :
      (cap : ℕ) (calls : List Call)
      → policy.max_per_block_notional_wei ≡ some cap
      → cap < u128_max
      → Counts cap
          (accepted_log path_exists sha256_hex policy calls)
          (after path_exists sha256_hex policy calls)
        × RunsBounded cap (accepted_log path_exists sha256_hex policy calls)
  unfolding record_outcome trigger_kill_switch block_used
  after-Counts cap [] c small = (record { used = (λ n. refl); bounded = (λ n. omega arith) }, tt)
  after-Counts cap (outcome true ∷ calls) c small =
      let k = after-Counts cap calls c small in
      (same-Counts cap _ (after path_exists sha256_hex policy calls) _ refl k.0, k.1)
  after-Counts cap (outcome false ∷ calls) c small =
      let k = after-Counts cap calls c small in
      (same-Counts cap _ (after path_exists sha256_hex policy calls) _ refl k.0, k.1)
  after-Counts cap (killed ∷ calls) c small =
      let k = after-Counts cap calls c small in
      (same-Counts cap _ (after path_exists sha256_hex policy calls) _ refl k.0, k.1)
  after-Counts cap (assessed now opp sim ∷ calls) c small =
      let st = after path_exists sha256_hex policy calls in
      let k = after-Counts cap calls c small in
      Step-Counts cap now opp _ st (assess path_exists sha256_hex policy now opp sim st) c small
        (assess-Step path_exists sha256_hex policy now opp sim st) k.0 k.1

  -- Under a per-block cap below the largest 128-bit number, whatever the calls of the engine, if
  -- the opportunities were accepted in the order of their blocks, the amounts accepted in any one
  -- block sum to at most the cap.
  pub block_cap_holds :
      (cap number : ℕ) (calls : List Call)
      → policy.max_per_block_notional_wei ≡ some cap
      → cap < u128_max
      → InBlockOrder (accepted_log path_exists sha256_hex policy calls)
      → accepted_in number (accepted_log path_exists sha256_hex policy calls) ≤ cap
  block_cap_holds cap number calls c small o =
      accepted_in-le cap number _ o (after-Counts cap calls c small).1
