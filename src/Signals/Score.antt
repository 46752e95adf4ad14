-- ===== src/Signals/Score.antt =====
-- internal/signals/score.go: the health score of a session. The counts are numbers from 0 on, as
-- their callers count them. A context pressure is the exact quotient that the float64 stands for.
pub mod Total
pub mod Grade
use ca_session_source.Base.{
  ℕ, zero, ◌+◌, ◌-◌, ◌*◌, String, Bool, true, false, not, ◌&&◌, ◌||◌, List, [], ◌∷◌, ◌++◌, Option,
  none, some, ◌==◌, string_equality, ltb, leb, if◌then◌else◌, length, min,
}
use ca_session_source.Base.Int.{ℤ, pos, ◌-ℤ◌, ltb_ℤ}
use ca_session_source.GoMap.{Map, put}

-- A float64 that was computed as the quotient of two integers, the second above 0.
pub record Quotient : Type 0 where
  pub top : ℕ
  pub bottom : ℕ

-- `q > 0.9`.
pub above_nine_tenths : Quotient → Bool
above_nine_tenths q = ltb (9 * q.bottom) (10 * q.top)

pub record ScoreInput : Type 0 where
  pub outcome : String
  pub outcome_confidence : String
  pub has_tool_calls : Bool
  pub failure_signal_count : ℕ
  pub retry_count : ℕ
  pub edit_churn_count : ℕ
  pub consecutive_fail_max : ℕ
  pub has_context_data : Bool
  pub compaction_count : ℕ
  pub mid_task_compaction_count : ℕ
  pub pressure_max : Option Quotient

-- `score` is `none` and `grade` empty where the session is not scored; `penalties` is `none` where
-- the source leaves the map nil.
pub record ScoreResult : Type 0 where
  pub score : Option ℤ
  pub grade : String
  pub basis : List String
  pub penalties : Option (Map String ℕ)

pub build_basis : ScoreInput → List String
build_basis input =
    let basis = "outcome" ∷ [] in
    let with_tools = if input.has_tool_calls then basis ++ "tool_health" ∷ [] else basis in
    if input.has_context_data then with_tools ++ "context_pressure" ∷ [] else with_tools

pub can_score : ScoreInput → List String → Bool
can_score input basis =
    if not (input.outcome == "unknown") || not (input.outcome_confidence == "low")
    then true
    else ltb 1 (length basis)

pub cap_penalty : ℕ → ℕ → ℕ
cap_penalty raw max = if ltb max raw then max else raw

-- `if p := capPenalty(raw, max); p > 0 { penalties[name] = p }`
pub apply_capped : String → ℕ → ℕ → Map String ℕ → Map String ℕ
unfolding cap_penalty
apply_capped name raw max penalties =
    let p = cap_penalty raw max in if ltb 0 p then put name p penalties else penalties

pub apply_if : Bool → String → ℕ → Map String ℕ → Map String ℕ
apply_if test name p penalties = if test then put name p penalties else penalties

pub apply_outcome_penalty : String → Map String ℕ → Map String ℕ
apply_outcome_penalty outcome penalties =
    if outcome == "errored"
    then put "outcome_errored" 30 penalties
    else if outcome == "abandoned"
    then put "outcome_abandoned" 15 penalties
    else penalties

pub apply_tool_penalties : ScoreInput → Map String ℕ → Map String ℕ
unfolding apply_capped apply_if
apply_tool_penalties input penalties =
    let with_failures =
      apply_capped "tool_failure_signals" (input.failure_signal_count * 3) 30 penalties in
    let with_retries = apply_capped "tool_retries" (input.retry_count * 5) 25 with_failures in
    let with_churn = apply_capped "edit_churn" (input.edit_churn_count * 4) 20 with_retries in
    apply_if (leb 3 input.consecutive_fail_max) "consecutive_failures" 10 with_churn

pub pressure_is_high : Option Quotient → Bool
unfolding above_nine_tenths
pressure_is_high none = false
pressure_is_high (some q) = above_nine_tenths q

pub apply_compactions : ℕ → Map String ℕ → Map String ℕ
unfolding apply_capped
apply_compactions count penalties =
    if leb 2 count
    then (let extra = count - 1 in apply_capped "compactions" (extra * 5) 15 penalties)
    else penalties

pub apply_mid_task : ℕ → Map String ℕ → Map String ℕ
unfolding apply_capped
apply_mid_task count penalties =
    if ltb 0 count then apply_capped "mid_task_compactions" (count * 8) 18 penalties else penalties

pub apply_context_penalties : ScoreInput → Map String ℕ → Map String ℕ
unfolding apply_compactions apply_mid_task apply_if pressure_is_high
apply_context_penalties input penalties =
    let with_compactions = apply_compactions input.compaction_count penalties in
    let with_mid_task = apply_mid_task input.mid_task_compaction_count with_compactions in
    apply_if (pressure_is_high input.pressure_max) "context_pressure_high" 10 with_mid_task

unfoldable pub compute_penalties : ScoreInput → Map String ℕ
unfolding apply_outcome_penalty apply_tool_penalties apply_context_penalties
compute_penalties input =
    let with_outcome = apply_outcome_penalty input.outcome [] in
    let with_tools = apply_tool_penalties input with_outcome in
    apply_context_penalties input with_tools

-- `for _, p := range penalties { score -= p }`, over the entries in the order they are visited.
pub subtract_all : ℤ → List (String × ℕ) → ℤ
subtract_all score [] = score
subtract_all score ((name, p) ∷ visited) = subtract_all (score -ℤ pos p) visited

-- The score from the entries in the order they are visited, no lower than 0.
pub score_from : List (String × ℕ) → ℤ
unfolding subtract_all
score_from visited =
    let score = subtract_all (pos 100) visited in if ltb_ℤ score (pos 0) then pos 0 else score

pub grade_from_score : ℤ → String
grade_from_score score =
    if not (ltb_ℤ score (pos 90))
    then "A"
    else if not (ltb_ℤ score (pos 75))
    then "B"
    else if not (ltb_ℤ score (pos 60))
    then "C"
    else if not (ltb_ℤ score (pos 40))
    then "D"
    else "F"

unfoldable pub compute_health_score : ScoreInput → ScoreResult
unfolding build_basis can_score compute_penalties score_from grade_from_score
compute_health_score input =
    let basis = build_basis input in
    let penalties = compute_penalties input in
    let score = score_from penalties in
    if not (can_score input basis)
    then record { score = none; grade = ""; basis = []; penalties = none }
    else record {
      score = some score;
      grade = grade_from_score score;
      basis = basis;
      penalties = if ltb 0 (length penalties) then some penalties else none;
    }
