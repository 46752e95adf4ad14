-- ===== src/SignalCompute/Bounds.antt =====
-- internal/sync/signal_compute.go: how the signals of one session hang together.
use ca_session_source.Base.{
  ℕ, ◌-◌, ◌≤◌, ◌≡◌, ◌≢◌, ◌⊎◌, refl, inl, inr, String, false, not, List, [], ◌∷◌, Option, none, some,
  arith, ◌==◌, string_equality, ltb, leb, if◌then◌else◌, length, Bool-cases,
}
use ca_session_source.Base.Counting.{count-le-length}
use ca_session_source.Base.Int.{ℤ, pos}
use ca_session_source.GoText.{Text}
use ca_session_source.MessageRows.{Message}
use ca_session_source.Signals.ToolFailure.{is_failure}
use ca_session_source.Signals.ToolHealth.{compute_tool_health}
use ca_session_source.Signals.ToolHealth.Failures.{count_failures_lem}
use ca_session_source.Signals.ToolHealth.Retries.{count_retries-le-length}
use ca_session_source.Signals.Context.{ToolCallOrdinal, is_mid_task, count_mid_task_compactions}
use ca_session_source.Signals.Context.MidTask.{count_mid_task_compactions-count}
use ca_session_source.Signals.Outcome.{OutcomeInput, classify_outcome}
use ca_session_source.Signals.Outcome.Cases.{classify_outcome_lem, recent_unknown}
use ca_session_source.Signals.Score.{ScoreInput, compute_health_score}
use ca_session_source.Signals.Score.Total.{points}
use ca_session_source.Signals.Score.Grade.{
  HasGrade, grade_a, grade_b, grade_c, grade_d, grade_f, is_unknown, compute_health_score_lem,
}
use ca_session_source.SignalCompute.Streak.{final_streak-le, max_streak-le}
use ca_session_source.SignalCompute.{
  SessionRow, SessionSignalUpdate, Clock, extract_tool_call_rows, extract_compact_boundary_ordinals,
  compute_signals_from_messages,
}

-- A grade goes with a score from 0 to 100.
abbrev pub GradeOfScore : Option ℤ → Option String → Type 0
GradeOfScore none grade = grade ≡ none
GradeOfScore (some score) grade =
    (n : ℕ) × (g : String) × (score ≡ pos n) × (n ≤ 100) × (grade ≡ some g) × HasGrade n g

pub record IsConsistent (calls : ℕ) (u : SessionSignalUpdate) : Type 0 where
  pub final_le_max : u.final_failure_streak ≤ u.consecutive_failure_max
  pub max_le_total : u.consecutive_failure_max ≤ u.tool_failure_signal_count
  pub total_le_calls : u.tool_failure_signal_count ≤ calls
  pub retries_le_calls : u.tool_retry_count ≤ calls
  pub mid_task_le : u.mid_task_compaction_count ≤ u.compaction_count
  pub graded : GradeOfScore u.health_score u.health_grade
  pub errored : (u.outcome ≢ "errored") ⊎ (3 ≤ u.consecutive_failure_max)
  pub pending : (u.signals_pending_since ≡ none) ⊎ (u.outcome ≡ "unknown")

HasGrade-ne : {n : ℕ} {g : String} → HasGrade n g → (g == "") ≡ false
HasGrade-ne (grade_a _ e) = rw e
HasGrade-ne (grade_b _ _ e) = rw e
HasGrade-ne (grade_c _ _ e) = rw e
HasGrade-ne (grade_d _ _ e) = rw e
HasGrade-ne (grade_f _ e) = rw e

graded_score :
    (input : ScoreInput)
    → let r = compute_health_score input in
      GradeOfScore r.score (if not (r.grade == "") then some r.grade else none)
graded_score input = elim (Bool-cases (is_unknown input)) [
  | inl unknown ↦ rw ((compute_health_score_lem input).0 unknown) refl
  | inr known ↦
      let (scored, grade) = (compute_health_score_lem input).1 known in
      rw scored (
        100 - points input,
        (compute_health_score input).grade,
        refl,
        omega arith,
        rw (HasGrade-ne grade) refl,
        grade,
      )
]

pending_unknown :
    (now : ℕ) (input : OutcomeInput) (time : Text)
    → ((if (classify_outcome now input).is_recent then some time else none) ≡ none)
      ⊎ ((classify_outcome now input).outcome ≡ "unknown")
pending_unknown now input time = elim (Bool-cases (classify_outcome now input).is_recent) [
  | inl recent ↦ inr (recent_unknown now input recent)
  | inr old ↦ inl (rw old refl)
]

errored_run :
    (now longest : ℕ) (input : OutcomeInput)
    → input.final_failure_streak ≤ longest
    → ((classify_outcome now input).outcome ≢ "errored") ⊎ (3 ≤ longest)
errored_run now longest input h = elim (Bool-cases (leb 3 longest)) [
  | inl long ↦ inr (ground arith)
  | inr short ↦ inl (λ e. absurd (ground (arith, ((classify_outcome_lem now input).1.0 e).2)))
]

-- The compactions of a session: those in mid-task are among them.
mid_task-le :
    (boundaries : List ℕ) (calls : List ToolCallOrdinal) (fallback : ℕ)
    → count_mid_task_compactions boundaries calls
      ≤ (if ltb 0 (length boundaries) then length boundaries else fallback)
mid_task-le [] calls fallback = omega (arith, count_mid_task_compactions-count [] calls)
mid_task-le (b ∷ bs) calls fallback = ground (
  arith,
  count_mid_task_compactions-count (b ∷ bs) calls,
  count-le-length (is_mid_task calls) (b ∷ bs),
)

-- Of the signals of a session: the final streak of failures is no longer than the longest, that no
-- longer than the number of failures, and failures and retries are no more than the tool calls. The
-- compactions in mid-task are among the compactions. A score lies between 0 and 100 and comes with
-- the grade of its band, and no score with no grade. An outcome "errored" had three failures in a
-- row, and a session that is still pending has the outcome "unknown".
pub compute_signals-IsConsistent :
    (clock : Clock) (prefixes : List Text) (sess : SessionRow) (msgs : List Message)
    → IsConsistent
        (length (extract_tool_call_rows msgs))
        (compute_signals_from_messages clock prefixes sess msgs)
unfolding compute_signals_from_messages compute_tool_health
compute_signals-IsConsistent clock prefixes sess msgs =
    let rows = extract_tool_call_rows msgs in
    record {
      final_le_max = final_streak-le rows;
      max_le_total = max_streak-le rows;
      total_le_calls = omega (arith, (count_failures_lem rows).0, count-le-length is_failure rows);
      retries_le_calls = count_retries-le-length rows;
      mid_task_le = mid_task-le (extract_compact_boundary_ordinals msgs) _ _;
      graded = graded_score _;
      errored = errored_run clock.now _ _ (final_streak-le rows);
      pending = pending_unknown clock.now _ _;
    }
