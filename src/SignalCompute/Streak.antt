-- ===== src/SignalCompute/Streak.antt =====
-- computeFinalStreak of internal/sync/engine.go: the failures that end the calls.
use mathlib.Core.List.{reverse, reverse-cons, reverse-append, reverse-reverse}
use ca_session_source.Base.{
  ℕ, suc, ◌+◌, ◌≤◌, ◌≡◌, ◌⊎◌, refl, sym, ap, ◌∙◌, inl, inr, false, List, [], ◌∷◌, ◌++◌, arith,
  length, length-append, All, All-reverse, Bool-cases, append-nil,
}
use ca_session_source.Base.Counting.{count, count-append}
use ca_session_source.Signals.ToolFailure.{ToolCallRow, is_failure}
use ca_session_source.Signals.ToolHealth.{count_failures}
use ca_session_source.Signals.ToolHealth.Failures.{Failed, count_failures_lem}
use ca_session_source.SignalCompute.{streak_loop, compute_final_streak}

-- The list is empty, or its last call did not fail.
abbrev pub EndsWell : List ToolCallRow → Type 0
EndsWell calls =
    (calls ≡ [])
    ⊎ ((init : List ToolCallRow) × (c : ToolCallRow) × (calls ≡ init ++ c ∷ [])
        × (is_failure c ≡ false))

-- The calls end with exactly `n` failures.
pub record EndsWithRun (n : ℕ) (calls : List ToolCallRow) : Type 0 where
  pub before : List ToolCallRow
  pub run : List ToolCallRow
  pub split : calls ≡ before ++ run
  pub failed : All Failed run
  pub long : length run ≡ n
  pub maximal : EndsWell before

length-reverse : (xs : List ToolCallRow) → length (reverse xs) ≡ length xs
length-reverse [] = refl
length-reverse (x ∷ xs) =
    omega
      (arith, ap length (reverse-cons x xs), length-append (reverse xs) (x ∷ []), length-reverse xs)

-- The loop over the reversed calls: it stops at the first call that did not fail.
streak_loop-lead :
    (s : ℕ) (xs : List ToolCallRow)
    → (lead : List ToolCallRow) × (rest : List ToolCallRow) × (xs ≡ lead ++ rest)
      × All Failed lead
      × (streak_loop s xs ≡ s + length lead)
      × EndsWell (reverse rest)
unfolding streak_loop
streak_loop-lead s [] = ([], [], refl, tt, omega arith, inl refl)
streak_loop-lead s (c ∷ cs) = elim (Bool-cases (is_failure c)) [
  | inl e ↦
      let (lead, rest, split, failed, long, well) = streak_loop-lead (suc s) cs in
      (c ∷ lead, rest, ap (◌∷◌ c) split, (e, failed), rw e (omega (arith, long)), well)
  | inr e ↦ ([], c ∷ cs, refl, tt, rw e (omega arith), inr (reverse cs, c, reverse-cons c cs, e))
]

-- computeFinalStreak returns the number of failures that end the calls: the call before them, if
-- there is one, did not fail.
pub compute_final_streak_lem :
    (calls : List ToolCallRow) → EndsWithRun (compute_final_streak calls) calls
unfolding compute_final_streak
compute_final_streak_lem calls =
    let (lead, rest, split, failed, long, well) = streak_loop-lead 0 (reverse calls) in
    record {
      before = reverse rest;
      run = reverse lead;
      split = sym (reverse-reverse calls) ∙ ap reverse split ∙ reverse-append lead rest;
      failed = All-reverse Failed lead failed;
      long = omega (arith, long, length-reverse lead);
      maximal = well;
    }

-- It is no longer than the longest run of failures.
pub final_streak-le :
    (calls : List ToolCallRow) → compute_final_streak calls ≤ (count_failures calls).1
final_streak-le calls =
    let e = compute_final_streak_lem calls in
    (count_failures_lem calls).2 (compute_final_streak calls) (record {
      before = e.before;
      run = e.run;
      after = [];
      split = e.split ∙ ap (◌++◌ e.before) (sym (append-nil e.run));
      failed = e.failed;
      long = e.long;
    })

count-Failed : (run : List ToolCallRow) → All Failed run → count is_failure run ≡ length run
count-Failed [] a = refl
count-Failed (c ∷ run) a = rw (a.0) (omega (arith, count-Failed run a.1))

-- The failures of the longest run are among all failures.
pub max_streak-le : (calls : List ToolCallRow) → (count_failures calls).1 ≤ (count_failures calls).0
max_streak-le calls =
    let (total, run, longest) = count_failures_lem calls in
    let there : count is_failure calls ≡ count is_failure (run.before ++ (run.run ++ run.after)) =
      ap (count is_failure) run.split in
    omega (
      arith,
      total,
      there,
      count-append is_failure run.before (run.run ++ run.after),
      count-append is_failure run.run run.after,
      count-Failed run.run run.failed,
      run.long,
    )
