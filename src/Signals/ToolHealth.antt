-- ===== src/Signals/ToolHealth.antt =====
-- internal/signals/toolhealth.go: failures, retries and edit churn of a session's tool calls.
pub mod Failures
pub mod Retries
use ca_session_source.Base.{
  ℕ, zero, suc, ◌+◌, ◌-◌, String, Bool, true, false, not, ◌&&◌, ◌||◌, List, [], ◌∷◌, ◌++◌, Option,
  none, some, ◌==◌, nat_equality, string_equality, list_equality, ltb, leb, if◌then◌else◌, length,
  take, drop,
}
use ca_session_source.Signals.ToolFailure.{ToolCallRow, is_failure}
use ca_session_source.Signals.EditChurn.{count_edit_churn}

pub record ToolHealthSignals : Type 0 where
  pub failure_signal_count : ℕ
  pub retry_count : ℕ
  pub edit_churn_count : ℕ
  pub consecutive_failure_max : ℕ

-- The loop of countFailures over `failures`, `maxStreak` and `streak`.
pub failures_loop : ℕ → ℕ → ℕ → List ToolCallRow → ℕ × ℕ
failures_loop failures max_streak streak [] = (failures, max_streak)
failures_loop failures max_streak streak (c ∷ cs) =
    let next = suc streak in
    let failed =
      failures_loop (suc failures) (if ltb max_streak next then next else max_streak) next cs in
    let passed = failures_loop failures max_streak 0 cs in if is_failure c then failed else passed

unfoldable pub count_failures : List ToolCallRow → ℕ × ℕ
unfolding failures_loop
count_failures calls = failures_loop 0 0 0 calls

-- What countRetries adds to `total` at the end of a run.
pub add_run : ℕ → ℕ → ℕ
add_run total run_len = if leb 3 run_len then total + (run_len - 1) else total

unfoldable pub is_repeat : ToolCallRow → ToolCallRow → Bool
is_repeat prev c = c.tool_name == prev.tool_name && c.input_json == prev.input_json

-- The loop of countRetries: the call before, `total` and `runLen`.
pub retries_loop : ToolCallRow → ℕ → ℕ → List ToolCallRow → ℕ
unfolding add_run
retries_loop prev total run_len [] = add_run total run_len
retries_loop prev total run_len (c ∷ cs) =
    let same = retries_loop c total (suc run_len) cs in
    let broken = retries_loop c (add_run total run_len) 1 cs in
    if is_repeat prev c then same else broken

unfoldable pub count_retries : List ToolCallRow → ℕ
unfolding retries_loop
count_retries [] = 0
count_retries (c ∷ cs) = if ltb (length (c ∷ cs)) 3 then 0 else retries_loop c 0 1 cs

unfoldable pub compute_tool_health : List ToolCallRow → ToolHealthSignals
compute_tool_health calls = record {
  failure_signal_count = (count_failures calls).0;
  retry_count = count_retries calls;
  edit_churn_count = count_edit_churn calls;
  consecutive_failure_max = (count_failures calls).1;
}
