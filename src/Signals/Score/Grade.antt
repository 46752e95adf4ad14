-- ===== src/Signals/Score/Grade.antt =====
-- internal/signals/score.go: whether a session is scored, its grade, and the order of scores.
use mathlib.Core.List.Perm
use ca_session_source.Base.{
  ℕ, ◌-◌, ◌≤◌, ◌<◌, ◌≡◌, inl, inr, String, Bool, true, false, not, ◌&&◌, [], none, some, arith,
  ◌==◌, string_equality, Bool-cases, ltb, if◌then◌else◌, length,
}
use ca_session_source.Base.Int.{pos}
use ca_session_source.Signals.Score.{
  ScoreInput, ScoreResult, build_basis, can_score, pressure_is_high, compute_penalties,
  grade_from_score, compute_health_score,
}
use ca_session_source.Signals.Score.Total.{
  outcome_points, tool_points, context_points, points, score_from-penalties,
}

-- The grade of a score.
pub data HasGrade (n : ℕ) (grade : String) : Type 0 where
  grade_a : 90 ≤ n → grade ≡ "A" → HasGrade n grade
  grade_b : 75 ≤ n → n < 90 → grade ≡ "B" → HasGrade n grade
  grade_c : 60 ≤ n → n < 75 → grade ≡ "C" → HasGrade n grade
  grade_d : 40 ≤ n → n < 60 → grade ≡ "D" → HasGrade n grade
  grade_f : n < 40 → grade ≡ "F" → HasGrade n grade

ruleset grades = (grade_a, grade_b, grade_c, grade_d, grade_f)

grade_from_score-HasGrade : (n : ℕ) → HasGrade n (grade_from_score (pos n))
unfolding grade_from_score
grade_from_score-HasGrade n = grind (arith, grades)

-- Nothing is known of the session: an unknown outcome of low confidence, and no other signal.
pub is_unknown : ScoreInput → Bool
is_unknown input =
    input.outcome == "unknown"
    && input.outcome_confidence == "low"
    && not input.has_tool_calls
    && not input.has_context_data

can_score-is_unknown :
    (input : ScoreInput) → can_score input (build_basis input) ≡ not (is_unknown input)
unfolding can_score build_basis is_unknown
can_score-is_unknown input = ground arith

abbrev no_result : ScoreResult
no_result = record { score = none; grade = ""; basis = []; penalties = none }

pub compute_health_score_lem :
    (input : ScoreInput)
    → (is_unknown input ≡ true → compute_health_score input ≡ no_result)
      × (is_unknown input ≡ false
          → ((compute_health_score input).score ≡ some (pos (100 - points input)))
            × HasGrade (100 - points input) (compute_health_score input).grade)
unfolding compute_health_score
compute_health_score_lem input =
    let scored = score_from-penalties input (compute_penalties input) (Perm.refl _) in
    let test = can_score-is_unknown input in
    let grade = grade_from_score-HasGrade (100 - points input) in
    (λ h. ground arith, λ h. (ground arith, rw (test, h, compute_health_score) (rw scored grade)))

-- What a session's signals give it.
pub data IsResult (input : ScoreInput) (r : ScoreResult) : Type 0 where
  unscored : is_unknown input ≡ true → r ≡ no_result → IsResult input r
  scored :
      is_unknown input ≡ false
      → r.score ≡ some (pos (100 - points input))
      → HasGrade (100 - points input) r.grade
      → r.basis ≡ build_basis input
      → (let found = compute_penalties input in
          r.penalties ≡ (if ltb 0 (length found) then some found else none))
      → IsResult input r

-- A session of which nothing is known gets no score, no grade, no basis and no penalties. Any other
-- gets 100 less its points as its score, not below 0, the grade of the band that holds the score,
-- the basis, and the penalties of its signals, or no map of them where there is none.
pub compute_health_score-IsResult :
    (input : ScoreInput) → IsResult input (compute_health_score input)
unfolding compute_health_score
compute_health_score-IsResult input = elim (Bool-cases (is_unknown input)) [
  | inl unknown ↦ unscored unknown ((compute_health_score_lem input).0 unknown)
  | inr known ↦
      let (score, grade) = (compute_health_score_lem input).1 known in
      let test = can_score-is_unknown input in
      scored known score grade (rw (test, known, compute_health_score))
        (rw (test, known, compute_health_score))
]

-- The second session has at least the trouble of the first.
pub record IsWorse (a b : ScoreInput) : Type 0 where
  pub outcome : outcome_points a.outcome ≤ outcome_points b.outcome
  pub failures : a.failure_signal_count ≤ b.failure_signal_count
  pub retries : a.retry_count ≤ b.retry_count
  pub churn : a.edit_churn_count ≤ b.edit_churn_count
  pub streak : a.consecutive_fail_max ≤ b.consecutive_fail_max
  pub compactions : a.compaction_count ≤ b.compaction_count
  pub mid_task : a.mid_task_compaction_count ≤ b.mid_task_compaction_count
  pub pressure : pressure_is_high a.pressure_max ≡ true → pressure_is_high b.pressure_max ≡ true

tool_points_mono : (a b : ScoreInput) → IsWorse a b → tool_points a ≤ tool_points b
unfolding tool_points
tool_points_mono a b w = ground arith

context_points_mono : (a b : ScoreInput) → IsWorse a b → context_points a ≤ context_points b
unfolding context_points
context_points_mono a b w = ground arith

-- Of two scored sessions, the one with at least the trouble of the other in every signal has no
-- higher score.
pub compute_health_score_mono :
    (a b : ScoreInput) (m n : ℕ)
    → IsWorse a b
    → (compute_health_score a).score ≡ some (pos m)
    → (compute_health_score b).score ≡ some (pos n)
    → n ≤ m
unfolding points
compute_health_score_mono a b m n w p q =
    let less : points a ≤ points b =
      omega (arith, w.outcome, tool_points_mono a b w, context_points_mono a b w) in
    let score_of : (c : ScoreInput) (k : ℕ)
        → (compute_health_score c).score ≡ some (pos k)
        → k ≡ 100 - points c =
      scored_points in
    omega (arith, score_of a m p, score_of b n q)
  where
    scored_points :
        (c : ScoreInput) (k : ℕ)
        → (compute_health_score c).score ≡ some (pos k)
        → k ≡ 100 - points c
    scored_points c k h = elim (Bool-cases (is_unknown c)) [
      | inl unknown ↦ ground (arith, (compute_health_score_lem c).0 unknown)
      | inr known ↦ ground (arith, ((compute_health_score_lem c).1 known).0)
    ]
