-- ===== src/Risk/Window.antt =====
-- The rolling daily cap: what the queue of entries and its total say about the calls so far.
use base_execution_engine.Types.{Opportunity, RiskDecision}
use base_execution_engine.Base.Text.{Text}
use base_execution_engine.Base.Words.{saturating_add, u128_max}
use base_execution_engine.Base.{
  Bool, List, [], arith, false, if◌then◌else◌, inl, inr, leb, ltb, refl, some, sym, true, ℕ, ◌++◌,
  ◌+◌, ◌-◌, ◌<◌, ◌∙◌, ◌∷◌, ◌≡◌, ◌≤◌,
}
use Prim.Native.Nat.{min}
use mathlib.Core.Path.{subst}
use base_execution_engine.Risk.{
  RiskPolicy, RiskState, seconds_per_day, prune_from, prune_daily_entries, block_bucket, commit,
  assess, record_outcome, trigger_kill_switch,
}
use base_execution_engine.Risk.Runs.{
  Call, assessed, outcome, killed, after, accepted_log, Step, assess-Step,
}

abbrev sum : List (ℕ × ℕ) → ℕ
sum [] = 0
sum ((ts, amount) ∷ l) = amount + sum l

-- The amounts stamped `since` or later.
abbrev sum_since : ℕ → List (ℕ × ℕ) → ℕ
sum_since since [] = 0
sum_since since ((ts, amount) ∷ l) =
    if leb since ts then amount + sum_since since l else sum_since since l

sum_since-le : (since : ℕ) (l : List (ℕ × ℕ)) → sum_since since l ≤ sum l
sum_since-le since [] = omega arith
sum_since-le since ((ts, amount) ∷ l) = ground (arith, sum_since-le since l)

sum_since-append :
    (since : ℕ) (l : List (ℕ × ℕ)) (ts amount : ℕ)
    → sum_since since (l ++ (ts, amount) ∷ []) ≡ sum_since since ((ts, amount) ∷ l)
sum_since-append since [] ts amount = refl
sum_since-append since ((t, a) ∷ l) ts amount = ground (arith, sum_since-append since l ts amount)

sum-append : (l : List (ℕ × ℕ)) (ts amount : ℕ) → sum (l ++ (ts, amount) ∷ []) ≡ amount + sum l
sum-append [] ts amount = refl
sum-append ((t, a) ∷ l) ts amount = omega (arith, sum-append l ts amount)

-- What pruning promises: the total stays right, and so does every sum from its horizon on.
abbrev Pruned : ℕ → List (ℕ × ℕ) → ℕ → List (ℕ × ℕ) × ℕ → Type 0
Pruned horizon l total (rest, left) =
    (left ≡ sum rest)
    × (left ≤ total)
    × ((since : ℕ) → horizon ≤ since → sum_since since rest ≡ sum_since since l)

prune_from-Pruned :
    (horizon : ℕ) (l : List (ℕ × ℕ)) (total : ℕ)
    → total ≡ sum l
    → Pruned horizon l total (prune_from horizon l total)
unfolding prune_from
prune_from-Pruned horizon [] total e = (e, omega arith, λ since h. refl)
prune_from-Pruned horizon ((ts, amount) ∷ l) total e =
    by_test (ltb ts horizon) (λ t. ground arith)
      (prune_from-Pruned horizon l (total - amount) (omega arith))
  where
    by_test :
        (b : Bool)
        → (b ≡ true → ts < horizon)
        → Pruned horizon l (total - amount) (prune_from horizon l (total - amount))
        → Pruned horizon
            ((ts, amount) ∷ l)
            total
            (if b then prune_from horizon l (total - amount) else ((ts, amount) ∷ l, total))
    by_test false f k = (e, omega arith, λ since h. refl)
    by_test true f k =
        let old = f refl in
        (k.0, omega (arith, k.1), λ since h. let same = k.2 since h in ground arith)

-- The amounts accepted `since` or later.
abbrev pub accepted_since : ℕ → List (ℕ × ℕ × ℕ) → ℕ
accepted_since since [] = 0
accepted_since since ((ts, bucket, amount) ∷ l) =
    if leb since ts then amount + accepted_since since l else accepted_since since l

-- The state of the day after the accepted amounts `log`, under a cap, for sums from `from` on.
record Tracks (cap from : ℕ) (log : List (ℕ × ℕ × ℕ)) (st : RiskState) : Type 0 where
  total : st.daily_total ≡ sum st.daily_entries
  bounded : st.daily_total ≤ cap
  same : (since : ℕ) → from ≤ since → sum_since since st.daily_entries ≡ accepted_since since log

prune-Tracks :
    (cap from now : ℕ) (log : List (ℕ × ℕ × ℕ)) (st : RiskState)
    → now - seconds_per_day ≤ from
    → Tracks cap from log st
    → Tracks cap from log (prune_daily_entries st now)
unfolding prune_daily_entries
prune-Tracks cap from now log st h t =
    let p = prune_from-Pruned (now - seconds_per_day) st.daily_entries st.daily_total t.total in
    record {
      total = p.0;
      bounded = omega (arith, p.1, t.bounded);
      same = (λ since k. p.2 since (omega arith) ∙ t.same since k);
    }

commit-Tracks :
    (cap from number now amount : ℕ) (log : List (ℕ × ℕ × ℕ)) (st : RiskState)
    → cap < u128_max
    → min (st.daily_total + amount) u128_max ≤ cap
    → Tracks cap from log st
    → Tracks cap from ((now, number, amount) ∷ log) (commit number now amount st)
unfolding commit saturating_add
commit-Tracks cap from number now amount log st small fits t = record {
  total = (let e = sum-append st.daily_entries now amount in let k = t.total in omega arith);
  bounded = omega arith;
  same = (λ since k.
      let e = t.same since k in
      sum_since-append since st.daily_entries now amount ∙ (ground arith));
}

outcome-Tracks :
    (cap from : ℕ) (log : List (ℕ × ℕ × ℕ)) (st : RiskState) (success : Bool)
    → Tracks cap from log st
    → Tracks cap from log (record_outcome success st)
unfolding record_outcome
outcome-Tracks cap from log st true t = record {
  total = t.total;
  bounded = t.bounded;
  same = t.same;
}
outcome-Tracks cap from log st false t = record {
  total = t.total;
  bounded = t.bounded;
  same = t.same;
}

kill-Tracks :
    (cap from : ℕ) (log : List (ℕ × ℕ × ℕ)) (st : RiskState)
    → Tracks cap from log st
    → Tracks cap from log (trigger_kill_switch st)
unfolding trigger_kill_switch
kill-Tracks cap from log st t = record { total = t.total; bounded = t.bounded; same = t.same }

module _ (path_exists : Text → Bool) (sha256_hex : List ℕ → Text) (policy : RiskPolicy) where
  -- The clock of every call is at most `t`.
  abbrev pub ClockedBy : ℕ → List Call → Type 0
  ClockedBy t [] = Unit
  ClockedBy t (assessed now opp sim ∷ l) = (now ≤ t) × ClockedBy t l
  ClockedBy t (outcome success ∷ l) = ClockedBy t l
  ClockedBy t (killed ∷ l) = ClockedBy t l

  Step-Tracks :
      (cap from now : ℕ) (opp : Opportunity) (log : List (ℕ × ℕ × ℕ)) (st : RiskState)
      (p : RiskDecision × RiskState)
      → policy.max_daily_notional_wei ≡ some cap
      → cap < u128_max
      → now - seconds_per_day ≤ from
      → Step path_exists sha256_hex policy now opp st p
      → Tracks cap from log st
      → Tracks cap from
          (if p.0.accepted
            then (now, block_bucket opp.block_context, opp.input_amount) ∷ log
            else log)
          p.1
  Step-Tracks cap from now opp log st (d, st') c small h (inl (denied, inl e)) t =
      rw denied (subst (Tracks cap from log) (sym e) t)
  Step-Tracks cap from now opp log st (d, st') c small h (inl (denied, inr e)) t =
      rw denied (subst (Tracks cap from log) (sym e) (prune-Tracks cap from now log st h t))
  Step-Tracks cap from now opp log st (d, st') c small h (inr (accepted, a, e)) t =
      let fits : min ((prune_daily_entries st now).daily_total + opp.input_amount) u128_max ≤ cap =
        rw c at a.daily_cap in
      let number = block_bucket opp.block_context in
      rw accepted (
        subst (Tracks cap from ((now, number, opp.input_amount) ∷ log)) (sym e) (
          commit-Tracks cap from number now opp.input_amount log (prune_daily_entries st now) small
            fits (prune-Tracks cap from now log st h t)))

  after-Tracks :
      (cap t : ℕ) (calls : List Call)
      → policy.max_daily_notional_wei ≡ some cap
      → cap < u128_max
      → ClockedBy t calls
      → Tracks cap
          (t - seconds_per_day)
          (accepted_log path_exists sha256_hex policy calls)
          (after path_exists sha256_hex policy calls)
  after-Tracks cap t [] c small k = record {
    total = refl;
    bounded = omega arith;
    same = (λ since h. refl);
  }
  after-Tracks cap t (outcome success ∷ calls) c small k =
      outcome-Tracks cap (t - seconds_per_day) _ (after path_exists sha256_hex policy calls) success
        (after-Tracks cap t calls c small k)
  after-Tracks cap t (killed ∷ calls) c small k =
      let r = after-Tracks cap t calls c small k in
      kill-Tracks cap (t - seconds_per_day) _ (after path_exists sha256_hex policy calls) r
  after-Tracks cap t (assessed now opp sim ∷ calls) c small k =
      let st = after path_exists sha256_hex policy calls in
      Step-Tracks cap (t - seconds_per_day) now opp _ st
        (assess path_exists sha256_hex policy now opp sim st) c small (omega (arith, k.0))
        (assess-Step path_exists sha256_hex policy now opp sim st)
        (after-Tracks cap t calls c small k.1)

  -- Under a daily cap below the largest 128-bit number, whatever the calls of the engine and their
  -- order, if the clock never read more than t, the amounts accepted in the day that ends at t sum
  -- to at most the cap.
  pub daily_cap_holds :
      (cap t : ℕ) (calls : List Call)
      → policy.max_daily_notional_wei ≡ some cap
      → cap < u128_max
      → ClockedBy t calls
      → accepted_since (t - seconds_per_day) (accepted_log path_exists sha256_hex policy calls)
        ≤ cap
  daily_cap_holds cap t calls c small k =
      let r = after-Tracks cap t calls c small k in
      let st = after path_exists sha256_hex policy calls in
      let same = r.same (t - seconds_per_day) (omega arith) in
      let part = sum_since-le (t - seconds_per_day) st.daily_entries in
      let all = r.total in let most = r.bounded in omega (arith, same, part, all, most)
