-- ===== src/SignalCompute.antt =====
-- internal/sync/signal_compute.go and computeFinalStreak of internal/sync/engine.go: the signals of
-- a session from its messages. The clock, and the parser and printer of timestamps (package
-- `time`), are arguments.
pub mod Streak
pub mod CommonModel
pub mod Bounds
pub mod Tests
use ca_session_source.Base.{
  ℕ, zero, suc, ◌+◌, String, Bool, true, false, not, ◌&&◌, ◌||◌, List, [], ◌∷◌, ◌++◌, map, Option,
  none, some, ◌==◌, string_equality, nat_equality, list_equality, ltb, if◌then◌else◌, length,
  is_some,
}
use mathlib.Core.List.{reverse}
use ca_session_source.Base.Int.{ℤ}
use ca_session_source.GoMap.{Map, get, put, get_or}
use ca_session_source.GoText.{Text}
use ca_session_source.MessageRows.{ToolResultEvent, ToolCall, Message}
use ca_session_source.Signals.ToolFailure.{ToolCallRow, is_failure}
use ca_session_source.Signals.ToolHealth.{ToolHealthSignals, compute_tool_health}
use ca_session_source.Signals.Context.{
  ContextTokenRow, ToolCallOrdinal, ContextPressureResult, compute_context_pressure,
  count_mid_task_compactions,
}
use ca_session_source.Signals.Outcome.{OutcomeInput, OutcomeResult, classify_outcome}
use ca_session_source.Signals.Score.{Quotient, ScoreInput, ScoreResult, compute_health_score}

-- The fields of db.Session that the code reads.
pub record SessionRow : Type 0 where
  pub is_automated : Bool
  pub message_count : ℕ
  pub peak_context_tokens : ℕ
  pub has_peak_context_tokens : Bool
  pub ended_at : Option Text

pub record SessionSignalUpdate : Type 0 where
  pub tool_failure_signal_count : ℕ
  pub tool_retry_count : ℕ
  pub edit_churn_count : ℕ
  pub consecutive_failure_max : ℕ
  pub outcome : String
  pub outcome_confidence : String
  pub ended_with_role : String
  pub final_failure_streak : ℕ
  pub signals_pending_since : Option Text
  pub compaction_count : ℕ
  pub mid_task_compaction_count : ℕ
  pub context_pressure_max : Option Quotient
  pub health_score : Option ℤ
  pub health_grade : Option String
  pub has_tool_calls : Bool
  pub has_context_data : Bool

-- `tc.ResultEvents[n-1].Status`, and the empty string where there are no events.
pub last_status : List ToolResultEvent → String
last_status [] = ""
last_status (e ∷ []) = e.status
last_status (e ∷ f ∷ es) = last_status (f ∷ es)

-- The inner loop of extractToolCallRows, from call index `call_idx` on.
pub message_rows : ℕ → ℕ → List ToolCall → List ToolCallRow
unfolding last_status
message_rows ordinal call_idx [] = []
message_rows ordinal call_idx (tc ∷ tcs) =
    record {
      tool_name = tc.tool_name;
      category = tc.category;
      input_json = tc.input_json;
      result_content = tc.result_content;
      message_ordinal = ordinal;
      call_index = call_idx;
      event_status = last_status tc.result_events;
    }
    ∷ message_rows ordinal (suc call_idx) tcs

pub extract_tool_call_rows : List Message → List ToolCallRow
unfolding message_rows
extract_tool_call_rows [] = []
extract_tool_call_rows (m ∷ msgs) =
    message_rows m.ordinal 0 m.tool_calls ++ extract_tool_call_rows msgs

pub extract_context_tokens : List Message → List ContextTokenRow
extract_context_tokens [] = []
extract_context_tokens (m ∷ msgs) =
    let rest = extract_context_tokens msgs in
    if not (m.role == "assistant")
    then rest
    else record { context_tokens = m.context_tokens; has_context_tokens = m.has_context_tokens }
      ∷ rest

pub extract_compact_boundary_ordinals : List Message → List ℕ
extract_compact_boundary_ordinals [] = []
extract_compact_boundary_ordinals (m ∷ msgs) =
    let rest = extract_compact_boundary_ordinals msgs in
    if m.is_compact_boundary then m.ordinal ∷ rest else rest

-- The message has a role and a model that extractMostCommonModel counts.
pub has_model : Message → Bool
has_model m = not (not (m.role == "assistant") || m.model == [])

-- The maps `counts` and `firstSeen`.
pub record ModelCounts : Type 0 where
  pub counts : Map Text ℕ
  pub first_seen : Map Text ℕ

pub count_model : ℕ → Text → ModelCounts → ModelCounts
count_model i model s = record {
  counts = put model (get_or 0 model s.counts + 1) s.counts;
  first_seen = if is_some (get model s.first_seen) then s.first_seen else put model i s.first_seen;
}

-- The loop that fills the maps, from message index `i` on.
unfoldable pub count_models : ℕ → ModelCounts → List Message → ModelCounts
unfolding has_model count_model
count_models i s [] = s
count_models i s (m ∷ msgs) =
    count_models (suc i) (if has_model m then count_model i m.model s else s) msgs

-- `best` and `bestCount`; -1 is `none`.
pub record Best : Type 0 where
  pub model : Text
  pub count : Option ℕ

-- The body of the loop over `counts`.
pub better : Map Text ℕ → Best → Text → ℕ → Best
better first_seen best model n = elim best.count [
  | none ↦ record { model = model; count = some n }
  | some best_count ↦
      if ltb best_count n
      then record { model = model; count = some n }
      else if n == best_count && ltb (get_or 0 model first_seen) (get_or 0 best.model first_seen)
      then record { model = model; count = some best_count }
      else best
]

-- The loop over the entries of `counts`, in the order they are visited.
pub best_model : Map Text ℕ → Best → List (Text × ℕ) → Text
unfolding better
best_model first_seen best [] = best.model
best_model first_seen best ((model, n) ∷ visited) =
    best_model first_seen (better first_seen best model n) visited

abbrev pub no_best : Best
no_best = record { model = []; count = none }

abbrev pub no_counts : ModelCounts
no_counts = record { counts = []; first_seen = [] }

pub extract_most_common_model : List Message → Text
unfolding count_models best_model
extract_most_common_model msgs =
    let s = count_models 0 no_counts msgs in best_model s.first_seen no_best s.counts

-- The loop runs from the last message down: the last message that is not the system's, if any.
pub last_non_system : List Message → Option Message
last_non_system [] = none
last_non_system (m ∷ msgs) = elim (last_non_system msgs) [
  | some later ↦ some later
  | none ↦ if not m.is_system then some m else none
]

pub extract_last_message_role : List Message → String × Text
unfolding last_non_system
extract_last_message_role msgs = elim (last_non_system msgs) [
  | none ↦ ("", [])
  | some m ↦ (m.role, m.content)
]

-- The loop of computeFinalStreak, over the calls from the last down.
pub streak_loop : ℕ → List ToolCallRow → ℕ
streak_loop streak [] = streak
streak_loop streak (c ∷ cs) =
    let go_on = streak_loop (suc streak) cs in if is_failure c then go_on else streak

pub any_context_tokens : List ContextTokenRow → Bool
any_context_tokens [] = false
any_context_tokens (t ∷ ts) =
    let rest = any_context_tokens ts in if t.has_context_tokens then true else rest

pub compute_final_streak : List ToolCallRow → ℕ
unfolding streak_loop
compute_final_streak calls = streak_loop 0 (reverse calls)

-- What the code takes from the package `time`, and its two readings of the clock. The parser
-- answers `none` where the source has the zero time: for a text that does not parse, too.
pub record Clock : Type 0 where
  pub now : ℕ
  pub pending_now : ℕ
  pub parse_rfc3339_nano : Text → Option ℕ
  pub format_rfc3339 : ℕ → Text

-- The zero time where there is no end, or where its text does not parse.
last_activity : Clock → Option Text → Option ℕ
last_activity clock none = none
last_activity clock (some ended_at) = clock.parse_rfc3339_nano ended_at

mid_task_call : ToolCallRow → ToolCallOrdinal
mid_task_call t = record { message_ordinal = t.message_ordinal; tool_name = t.tool_name }

pub compute_signals_from_messages :
    Clock → List Text → SessionRow → List Message → SessionSignalUpdate
compute_signals_from_messages clock sorted_prefixes sess msgs =
    let tool_rows = extract_tool_call_rows msgs in
    let ctx_tokens = extract_context_tokens msgs in
    let boundaries = extract_compact_boundary_ordinals msgs in
    let model = extract_most_common_model msgs in
    let (last_role, last_content) = extract_last_message_role msgs in
    let tool_health = compute_tool_health tool_rows in
    let ctx_pressure =
      compute_context_pressure sorted_prefixes ctx_tokens sess.peak_context_tokens model in
    let compaction_count =
      if ltb 0 (length boundaries) then length boundaries else ctx_pressure.compaction_count in
    let mid_task_count = count_mid_task_compactions boundaries (map mid_task_call tool_rows) in
    let final_streak = compute_final_streak tool_rows in
    let outcome_result = classify_outcome clock.now (record {
      is_automated = sess.is_automated;
      message_count = sess.message_count;
      ended_with_role = last_role;
      final_failure_streak = final_streak;
      last_assistant_text = last_content;
      last_activity = last_activity clock sess.ended_at;
    }) in
    let has_context_data =
      if not sess.has_peak_context_tokens then any_context_tokens ctx_tokens else true in
    let score_result = compute_health_score (record {
      outcome = outcome_result.outcome;
      outcome_confidence = outcome_result.confidence;
      has_tool_calls = ltb 0 (length tool_rows);
      failure_signal_count = tool_health.failure_signal_count;
      retry_count = tool_health.retry_count;
      edit_churn_count = tool_health.edit_churn_count;
      consecutive_fail_max = tool_health.consecutive_failure_max;
      has_context_data = has_context_data;
      compaction_count = compaction_count;
      mid_task_compaction_count = mid_task_count;
      pressure_max = ctx_pressure.pressure_max;
    }) in
    record {
      tool_failure_signal_count = tool_health.failure_signal_count;
      tool_retry_count = tool_health.retry_count;
      edit_churn_count = tool_health.edit_churn_count;
      consecutive_failure_max = tool_health.consecutive_failure_max;
      outcome = outcome_result.outcome;
      outcome_confidence = outcome_result.confidence;
      ended_with_role = last_role;
      final_failure_streak = final_streak;
      signals_pending_since =
          if outcome_result.is_recent then some (clock.format_rfc3339 clock.pending_now) else none;
      compaction_count = compaction_count;
      mid_task_compaction_count = mid_task_count;
      context_pressure_max = ctx_pressure.pressure_max;
      health_score = score_result.score;
      health_grade = if not (score_result.grade == "") then some score_result.grade else none;
      has_tool_calls = ltb 0 (length tool_rows);
      has_context_data = has_context_data;
    }
