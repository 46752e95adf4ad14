-- ===== src/Signals/Tests.antt =====
-- Runs of internal/signals on small sessions.
use mathlib.Core.List.{Perm}
use mathlib.Core.List.Perm
use ca_session_source.Base.{
  ℕ, ◌-◌, ◌≤◌, ◌≡◌, ◌≢◌, ◌↔◌, ◌⊎◌, refl, sym, inl, inr, String, true, false, List, [], ◌∷◌, none,
  some, ◌==◌, list_equality, nat_equality, if◌then◌else◌, arith, sum_by, list_beq, is_some,
  Bool-cases, ==_iff,
}
use ca_session_source.Base.Counting.{count, any}
use ca_session_source.Base.Int.{pos, ◌-ℤ◌}
use ca_session_source.GoMap.{Map, get, put}
use ca_session_source.GoText.Laws.{In}
use ca_session_source.GoText.{Text, codes}
use ca_session_source.Signals.ToolFailure.{ToolCallRow, is_failure}
use ca_session_source.Signals.EditChurn.{extract_file_path, has_churn_window, count_edit_churn}
use ca_session_source.Signals.EditChurn.Windows.{HasWindow, has_churn_window_iff}
use ca_session_source.Signals.EditChurn.Paths.{PathAt, extract_file_path_iff}
use ca_session_source.Signals.EditChurn.Files.{
  NoRepeat, edits_file, edited_files, is_churned, count_edit_churn-files,
}
use ca_session_source.Signals.ToolHealth.{is_repeat, count_failures, count_retries}
use ca_session_source.Signals.ToolHealth.Failures.{HasRun, count_failures_lem}
use ca_session_source.Signals.ToolHealth.Retries.{run_retries, runs, count_retries-runs}
use ca_session_source.Signals.Score.{
  ScoreInput, compute_penalties, score_from, compute_health_score,
}
use ca_session_source.Signals.Score.Total.{points, score_from-penalties}
use ca_session_source.Signals.Score.Grade.{
  IsResult, IsWorse, compute_health_score-IsResult, compute_health_score_mono,
}
use ca_session_source.Signals.Context.{
  ContextTokenRow, ToolCallOrdinal, is_mid_task, count_compactions, lookup_window_size,
}
use ca_session_source.Signals.Context.Window.{
  LongestFirst, AreKeys, IsWindowSize, lookup_window_size_iff,
}
use ca_session_source.Signals.Context.MidTask.{SharesTwo, last_before, first_after, is_mid_task_iff}
use ca_session_source.Signals.Context.Compactions.{
  measured, neighbours, is_drop, count_compactions-neighbours,
}
use ca_session_source.Signals.Outcome.{OutcomeInput, classify_outcome}
use ca_session_source.Signals.Outcome.Cases.{
  IsSettled, IsCompleted, IsErrored, IsUnknown, IsMedium, IsLow, ActiveSince, classify_outcome_lem,
}

abbrev edit : ℕ → ToolCallRow
edit ordinal = record {
  tool_name = "Edit";
  category = "Edit";
  input_json = codes "{\"file_path\":\"a.go\"}";
  result_content = codes "ok";
  message_ordinal = ordinal;
  call_index = 0;
  event_status = "";
}

abbrev bash : String → ToolCallRow
bash status = record {
  tool_name = "Bash";
  category = "Bash";
  input_json = codes "{}";
  result_content = codes "exit status 1\nls: command not found";
  message_ordinal = 9;
  call_index = 0;
  event_status = status;
}

abbrev session : List ToolCallRow
session = edit 1 ∷ edit 3 ∷ edit 8 ∷ bash "" ∷ bash "cancelled" ∷ bash "done" ∷ []

session_failures :
    count_failures (bash "errored" ∷ bash "cancelled" ∷ bash "done" ∷ bash "errored" ∷ []) ≡ (3, 2)
unfolding count_failures is_failure
session_failures = refl

session_retries : count_retries (edit 1 ∷ edit 3 ∷ edit 8 ∷ bash "" ∷ bash "" ∷ []) ≡ 2
unfolding count_retries is_repeat list_beq
session_retries = refl

count_failures_lem_example :
    ((count_failures session).0 ≡ count is_failure session)
    × HasRun (count_failures session).1 session
    × ((n : ℕ) → HasRun n session → n ≤ (count_failures session).1)
count_failures_lem_example = count_failures_lem session

count_retries-runs_example : count_retries session ≡ sum_by run_retries (runs session)
count_retries-runs_example = count_retries-runs session

count_edit_churn-files_example :
    (count_edit_churn session ≡ count (is_churned session) (edited_files session))
    × NoRepeat (edited_files session)
    × ((path : Text)
        → any (λ q. q == path) (edited_files session)
          ≡ (if path == [] then false else any (edits_file path) session))
count_edit_churn-files_example = count_edit_churn-files session

has_churn_window_iff_example :
    (has_churn_window (1 ∷ 3 ∷ 20 ∷ 22 ∷ 28 ∷ []) 3 10 ≡ true)
    ↔ HasWindow (1 ∷ 3 ∷ 20 ∷ 22 ∷ 28 ∷ []) 3 10
has_churn_window_iff_example = has_churn_window_iff (1 ∷ 3 ∷ 20 ∷ 22 ∷ 28 ∷ []) 3 10 (omega arith)

abbrev edit_json : Text
edit_json = codes "{\"file_path\":\"a.go\",\"x\":1}"

some_path : codes "a.go" ≢ []
some_path = λ e. cc

extract_file_path_iff_example :
    (extract_file_path edit_json ≡ codes "a.go") ↔ PathAt edit_json (codes "a.go")
extract_file_path_iff_example = extract_file_path_iff edit_json (codes "a.go") some_path

abbrev trouble : ℕ → ScoreInput
trouble failures = record {
  outcome = "errored";
  outcome_confidence = "medium";
  has_tool_calls = true;
  failure_signal_count = failures;
  retry_count = 1;
  edit_churn_count = 0;
  consecutive_fail_max = 3;
  has_context_data = true;
  compaction_count = 2;
  mid_task_compaction_count = 1;
  pressure_max = some (record { top = 95; bottom = 100 });
}

abbrev mild : ScoreInput
mild = record {
  outcome = "abandoned";
  outcome_confidence = "high";
  has_tool_calls = true;
  failure_signal_count = 0;
  retry_count = 1;
  edit_churn_count = 0;
  consecutive_fail_max = 0;
  has_context_data = false;
  compaction_count = 0;
  mid_task_compaction_count = 0;
  pressure_max = none;
}

-- The two penalties of `mild`, visited from the later one on.
abbrev mild_penalties : List (String × ℕ)
mild_penalties = ("tool_retries", 5) ∷ ("outcome_abandoned", 15) ∷ []

mild_visited : Perm mild_penalties (compute_penalties mild)
unfolding compute_penalties put
mild_visited = Perm.swap _ _ []

score_from-penalties_example : score_from mild_penalties ≡ pos (100 - points mild)
score_from-penalties_example = score_from-penalties mild mild_penalties mild_visited

compute_health_score-IsResult_example : IsResult (trouble 2) (compute_health_score (trouble 2))
compute_health_score-IsResult_example = compute_health_score-IsResult (trouble 2)

trouble-IsWorse : IsWorse (trouble 2) (trouble 4)
trouble-IsWorse = record {
  outcome = omega arith;
  failures = omega arith;
  retries = omega arith;
  churn = omega arith;
  streak = omega arith;
  compactions = omega arith;
  mid_task = omega arith;
  pressure = λ h. h;
}

trouble_scores :
    ((compute_health_score (trouble 2)).score ≡ some (pos 26))
    × ((compute_health_score (trouble 4)).score ≡ some (pos 20))
unfolding compute_health_score put ◌-ℤ◌
trouble_scores = (refl, refl)

compute_health_score_mono_example : 20 ≤ 26
compute_health_score_mono_example =
    compute_health_score_mono (trouble 2) (trouble 4) 26 20 trouble-IsWorse trouble_scores.0
      trouble_scores.1

abbrev calls : List ToolCallOrdinal
calls =
    record { message_ordinal = 1; tool_name = "Read" }
    ∷ record { message_ordinal = 2; tool_name = "Edit" }
    ∷ record { message_ordinal = 5; tool_name = "Edit" }
    ∷ record { message_ordinal = 6; tool_name = "Read" }
    ∷ []

is_mid_task_iff_example :
    (is_mid_task calls 3 ≡ true) ↔ SharesTwo (last_before calls 3) (first_after calls 3)
is_mid_task_iff_example = is_mid_task_iff calls 3

abbrev token_rows : List ContextTokenRow
token_rows =
    record { context_tokens = 1000; has_context_tokens = true }
    ∷ record { context_tokens = 0; has_context_tokens = false }
    ∷ record { context_tokens = 699; has_context_tokens = true }
    ∷ []

count_compactions-neighbours_example :
    count_compactions token_rows ≡ count is_drop (neighbours (measured token_rows))
count_compactions-neighbours_example = count_compactions-neighbours token_rows

abbrev sizes : Map Text ℕ
sizes = (codes "gpt-4o-mini", 128) ∷ (codes "gpt-4o", 64) ∷ []

abbrev prefixes : List Text
prefixes = codes "gpt-4o-mini" ∷ codes "gpt-4o" ∷ []

prefixes-AreKeys : AreKeys sizes prefixes
unfolding get list_beq
prefixes-AreKeys p = (
  λ i. elim i [
    | inl e ↦ rw e refl
    | inr later ↦ elim later [ inl e ↦ rw e refl | inr gone ↦ absurd gone ]
  ],
  λ h. listed h (Bool-cases (codes "gpt-4o-mini" == p)) (Bool-cases (codes "gpt-4o" == p)),
)
  where
    listed :
        is_some (get p sizes) ≡ true
        → ((codes "gpt-4o-mini" == p) ≡ true) ⊎ ((codes "gpt-4o-mini" == p) ≡ false)
        → ((codes "gpt-4o" == p) ≡ true) ⊎ ((codes "gpt-4o" == p) ≡ false)
        → In p prefixes
    listed h (inl e) _ = inl (sym ((==_iff (codes "gpt-4o-mini") p).0 e))
    listed h (inr _) (inl e) = inr (inl (sym ((==_iff (codes "gpt-4o") p).0 e)))
    listed h (inr mini) (inr other) = absurd (let e = rw (mini, other) at h in cc)

prefixes-LongestFirst : LongestFirst prefixes
prefixes-LongestFirst = ((omega arith, tt), (tt, tt))

lookup_window_size_iff_example :
    (lookup_window_size sizes prefixes (codes "gpt-4o-2024") ≡ 64)
    ↔ IsWindowSize sizes prefixes (codes "gpt-4o-2024") 64
lookup_window_size_iff_example =
    lookup_window_size_iff sizes prefixes (codes "gpt-4o-2024") 64 prefixes-LongestFirst
      prefixes-AreKeys

abbrev quiet : OutcomeInput
quiet = record {
  is_automated = false;
  message_count = 12;
  ended_with_role = "user";
  final_failure_streak = 0;
  last_assistant_text = [];
  last_activity = some 5;
}

classify_outcome_lem_example :
    let r = classify_outcome 1_000_000_000_000 quiet in
    ((r.outcome ≡ "abandoned")
      ↔ (IsSettled 1_000_000_000_000 quiet × (quiet.ended_with_role ≡ "user")))
    × ((r.outcome ≡ "errored") ↔ IsErrored 1_000_000_000_000 quiet)
    × ((r.outcome ≡ "completed") ↔ IsCompleted 1_000_000_000_000 quiet)
    × ((r.outcome ≡ "unknown") ↔ IsUnknown 1_000_000_000_000 quiet)
    × ((r.is_recent ≡ true) ↔ (
        (quiet.is_automated ≡ false)
        × (3 ≤ quiet.message_count)
        × ActiveSince 1_000_000_000_000 quiet.last_activity))
    × ((r.confidence ≡ "high") ↔ (
        IsSettled 1_000_000_000_000 quiet
        × (quiet.ended_with_role ≡ "user")
        × (10 ≤ quiet.message_count)))
    × ((r.confidence ≡ "medium") ↔ IsMedium 1_000_000_000_000 quiet)
    × ((r.confidence ≡ "low") ↔ IsLow 1_000_000_000_000 quiet)
classify_outcome_lem_example = classify_outcome_lem 1_000_000_000_000 quiet
