-- ===== src/Signals/Score/Total.antt =====
-- internal/signals/score.go: the score and the points of the table of penalties.
use mathlib.Core.List.{Perm}
use ca_session_source.Base.{
  ℕ, ◌+◌, ◌-◌, ◌*◌, ◌≡◌, refl, ap, ◌∙◌, String, Bool, true, false, List, [], ◌∷◌, none, arith, ◌==◌,
  string_equality, leb, if◌then◌else◌, sum_by, min,
}
use ca_session_source.Base.Counting.{sum_by-Perm}
use ca_session_source.Base.Int.{ℤ, pos, ◌-ℤ◌, -ℤ-pos_add}
use ca_session_source.GoMap.{Map, get, put}
use ca_session_source.GoMap.Laws.{get-put}
use ca_session_source.Signals.Score.{
  ScoreInput, cap_penalty, apply_capped, apply_if, apply_outcome_penalty, apply_tool_penalties,
  pressure_is_high, apply_compactions, apply_mid_task, apply_context_penalties, compute_penalties,
  subtract_all, score_from,
}

abbrev amount : Map String ℕ → ℕ
amount = sum_by (λ e. e.1)

amount-put :
    (k : String) (v : ℕ) (m : Map String ℕ) → get k m ≡ none → amount (put k v m) ≡ amount m + v
unfolding get put
amount-put k v [] h = omega arith
amount-put k v ((j, w) ∷ m) h = ground (arith, amount-put k v m)

get-put_other :
    (k j : String) (v : ℕ) (m : Map String ℕ)
    → (k == j) ≡ false
    → get j m ≡ none
    → get j (put k v m) ≡ none
get-put_other k j v m ne h = get-put k j v m ∙ rw ne h

-- An operation that adds `v` to the amount of a map without the key `k`, and touches no other key.
record Adds (k : String) (v : ℕ) (f : Map String ℕ → Map String ℕ) : Type 0 where
  total : (m : Map String ℕ) → get k m ≡ none → amount (f m) ≡ amount m + v
  others : (j : String) (m : Map String ℕ) → (k == j) ≡ false → get j m ≡ none → get j (f m) ≡ none

apply_if-Adds : (b : Bool) (k : String) (v : ℕ) → Adds k (if b then v else 0) (apply_if b k v)
unfolding apply_if
apply_if-Adds true k v = record {
  total = λ m h. amount-put k v m h;
  others = λ j m ne h. get-put_other k j v m ne h;
}
apply_if-Adds false k v = record { total = λ m h. omega arith; others = λ j m ne h. h }

apply_capped-Adds : (k : String) (raw max : ℕ) → Adds k (min raw max) (apply_capped k raw max)
unfolding apply_capped
apply_capped-Adds k raw max = record {
  total = λ m h. ground (arith, amount-put k (cap_penalty raw max) m h);
  others = λ j m ne h. ground (arith, get-put_other k j (cap_penalty raw max) m ne h);
}

apply_compactions-Adds : (n : ℕ) → Adds "compactions" (min (5 * (n - 1)) 15) (apply_compactions n)
unfolding apply_compactions
apply_compactions-Adds n =
    let a = apply_capped-Adds "compactions" ((n - 1) * 5) 15 in
    record {
      total = λ m h. ground (arith, a.total m h);
      others = λ j m ne h. ground (arith, a.others j m ne h);
    }

apply_mid_task-Adds : (n : ℕ) → Adds "mid_task_compactions" (min (8 * n) 18) (apply_mid_task n)
unfolding apply_mid_task
apply_mid_task-Adds n =
    let a = apply_capped-Adds "mid_task_compactions" (n * 8) 18 in
    record {
      total = λ m h. ground (arith, a.total m h);
      others = λ j m ne h. ground (arith, a.others j m ne h);
    }

-- What the outcome costs.
unfoldable pub outcome_points : String → ℕ
outcome_points outcome =
    if outcome == "errored" then 30 else if outcome == "abandoned" then 15 else 0

unfoldable pub tool_points : ScoreInput → ℕ
tool_points input =
    min (3 * input.failure_signal_count) 30
    + min (5 * input.retry_count) 25
    + min (4 * input.edit_churn_count) 20
    + (if leb 3 input.consecutive_fail_max then 10 else 0)

unfoldable pub context_points : ScoreInput → ℕ
context_points input =
    min (5 * (input.compaction_count - 1)) 15
    + min (8 * input.mid_task_compaction_count) 18
    + (if pressure_is_high input.pressure_max then 10 else 0)

-- The points that the signals cost together.
unfoldable pub points : ScoreInput → ℕ
points input = outcome_points input.outcome + tool_points input + context_points input

amount-outcome :
    (outcome : String) → amount (apply_outcome_penalty outcome []) ≡ outcome_points outcome
unfolding apply_outcome_penalty outcome_points put
amount-outcome outcome = ground arith

get-outcome :
    (outcome k : String)
    → ("outcome_errored" == k) ≡ false
    → ("outcome_abandoned" == k) ≡ false
    → get k (apply_outcome_penalty outcome []) ≡ none
unfolding apply_outcome_penalty put get
get-outcome outcome k e a = ground arith

amount-tools :
    (input : ScoreInput) (m : Map String ℕ)
    → get "tool_failure_signals" m ≡ none
    → get "tool_retries" m ≡ none
    → get "edit_churn" m ≡ none
    → get "consecutive_failures" m ≡ none
    → amount (apply_tool_penalties input m) ≡ amount m + tool_points input
unfolding apply_tool_penalties tool_points
amount-tools input m h₁ h₂ h₃ h₄ =
    let a₁ = apply_capped-Adds "tool_failure_signals" (input.failure_signal_count * 3) 30 in
    let a₂ = apply_capped-Adds "tool_retries" (input.retry_count * 5) 25 in
    let a₃ = apply_capped-Adds "edit_churn" (input.edit_churn_count * 4) 20 in
    let a₄ = apply_if-Adds (leb 3 input.consecutive_fail_max) "consecutive_failures" 10 in
    let m₁ = apply_capped "tool_failure_signals" (input.failure_signal_count * 3) 30 m in
    let m₂ = apply_capped "tool_retries" (input.retry_count * 5) 25 m₁ in
    let m₃ = apply_capped "edit_churn" (input.edit_churn_count * 4) 20 m₂ in
    omega (
      arith,
      a₁.total m h₁,
      a₂.total m₁ (a₁.others "tool_retries" m refl h₂),
      a₃.total m₂ (a₂.others "edit_churn" m₁ refl (a₁.others "edit_churn" m refl h₃)),
      a₄.total m₃ (
          a₃.others "consecutive_failures" m₂ refl (
            a₂.others "consecutive_failures" m₁ refl (a₁.others "consecutive_failures" m refl h₄))),
    )

get-tools :
    (input : ScoreInput) (m : Map String ℕ) (j : String)
    → ("tool_failure_signals" == j) ≡ false
    → ("tool_retries" == j) ≡ false
    → ("edit_churn" == j) ≡ false
    → ("consecutive_failures" == j) ≡ false
    → get j m ≡ none
    → get j (apply_tool_penalties input m) ≡ none
unfolding apply_tool_penalties
get-tools input m j n₁ n₂ n₃ n₄ h =
    (apply_if-Adds (leb 3 input.consecutive_fail_max) "consecutive_failures" 10).others j _ n₄ (
      (apply_capped-Adds "edit_churn" (input.edit_churn_count * 4) 20).others j _ n₃ (
        (apply_capped-Adds "tool_retries" (input.retry_count * 5) 25).others j _ n₂ (
          (apply_capped-Adds "tool_failure_signals" (input.failure_signal_count * 3) 30).others j m
            n₁ h)))

amount-context :
    (input : ScoreInput) (m : Map String ℕ)
    → get "compactions" m ≡ none
    → get "mid_task_compactions" m ≡ none
    → get "context_pressure_high" m ≡ none
    → amount (apply_context_penalties input m) ≡ amount m + context_points input
unfolding apply_context_penalties context_points
amount-context input m h₁ h₂ h₃ =
    let a₁ = apply_compactions-Adds input.compaction_count in
    let a₂ = apply_mid_task-Adds input.mid_task_compaction_count in
    let a₃ = apply_if-Adds (pressure_is_high input.pressure_max) "context_pressure_high" 10 in
    let m₁ = apply_compactions input.compaction_count m in
    let m₂ = apply_mid_task input.mid_task_compaction_count m₁ in
    omega (
      arith,
      a₁.total m h₁,
      a₂.total m₁ (a₁.others "mid_task_compactions" m refl h₂),
      a₃.total m₂
          (a₂.others "context_pressure_high" m₁ refl (a₁.others "context_pressure_high" m refl h₃)),
    )

amount-penalties : (input : ScoreInput) → amount (compute_penalties input) ≡ points input
unfolding compute_penalties points
amount-penalties input =
    let outcome = apply_outcome_penalty input.outcome [] in
    let free : (k : String)
        → ("outcome_errored" == k) ≡ false
        → ("outcome_abandoned" == k) ≡ false
        → get k outcome ≡ none =
      get-outcome input.outcome in
    let later : (k : String)
        → ("outcome_errored" == k) ≡ false
        → ("outcome_abandoned" == k) ≡ false
        → ("tool_failure_signals" == k) ≡ false
        → ("tool_retries" == k) ≡ false
        → ("edit_churn" == k) ≡ false
        → ("consecutive_failures" == k) ≡ false
        → get k (apply_tool_penalties input outcome) ≡ none =
      λ k e a n₁ n₂ n₃ n₄. get-tools input outcome k n₁ n₂ n₃ n₄ (free k e a) in
    omega (
      arith,
      amount-outcome input.outcome,
      amount-tools input outcome (free "tool_failure_signals" refl refl)
          (free "tool_retries" refl refl) (free "edit_churn" refl refl)
          (free "consecutive_failures" refl refl),
      amount-context input (apply_tool_penalties input outcome)
          (later "compactions" refl refl refl refl refl refl)
          (later "mid_task_compactions" refl refl refl refl refl refl)
          (later "context_pressure_high" refl refl refl refl refl refl),
    )

subtract_all-sum :
    (a : ℤ) (visited : List (String × ℕ)) (n : ℕ)
    → subtract_all (a -ℤ pos n) visited ≡ a -ℤ pos (n + amount visited)
unfolding subtract_all
subtract_all-sum a [] n = ap (λ k. a -ℤ pos k) (omega arith)
subtract_all-sum a ((name, p) ∷ visited) n =
    ap (λ s. subtract_all s visited) (-ℤ-pos_add a n p)
    ∙ subtract_all-sum a visited (n + p)
    ∙ ap (λ k. a -ℤ pos k) (omega arith)

score_from-amount : (visited : List (String × ℕ)) → score_from visited ≡ pos (100 - amount visited)
unfolding score_from ◌-ℤ◌
score_from-amount visited =
    let e : subtract_all (pos 100) visited ≡ pos 100 -ℤ pos (0 + amount visited) =
      subtract_all-sum (pos 100) visited 0 in
    ground (arith, e)

-- In whatever order Go visits the entries of the penalties, the score is 100 less the points, and 0
-- where the points exceed 100. The points are those of the table of penalties, each capped.
pub score_from-penalties :
    (input : ScoreInput) (visited : List (String × ℕ))
    → Perm visited (compute_penalties input)
    → score_from visited ≡ pos (100 - points input)
score_from-penalties input visited p =
    score_from-amount visited
    ∙ ap (λ n. pos (100 - n)) (sum_by-Perm (λ e. e.1) p ∙ amount-penalties input)
