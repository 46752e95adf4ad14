-- ===== src/SessionTiming/Tests.antt =====
-- The timing of a session with a turn of three calls and one of a sub-agent.
use ca_session_source.Base.{
  ℕ, ◌≡◌, refl, String, true, List, [], ◌∷◌, Option, none, some, map, string_equality,
  list_equality, nat_equality, list_beq,
}
use ca_session_source.Base.Int.{ℤ, pos, ◌-ℤ◌, ◌+ℤ◌}
use ca_session_source.GoMap.{Map, get, put, get_or}
use ca_session_source.GoText.{Text, codes}
use ca_session_source.SessionTiming.Subagents.{others}
use ca_session_source.SessionTiming.Primary.{IsPrimary, attribute_turn_go-IsPrimary}
use ca_session_source.SessionTiming.VisitOrder.{count_categories-Visits}
use ca_session_source.SessionTiming.Slowest.{IsSlowest, all_calls, assemble_timing-IsSlowest}
use ca_session_source.SessionTiming.{
  CallTiming, CallRow, TurnRow, CategoryTotal, SessionTiming, TimedSession, attribute_turn_go,
  assemble_timing,
}

abbrev row : ℕ → String → Option String → Option ℤ → CallRow
row message_id category subagent duration = record {
  message_id = message_id;
  tool_use_id = "id";
  tool_name = "tool";
  category = codes category;
  skill_name = none;
  subagent_session_id = subagent;
  input_json = [];
  duration_ms = duration;
}

abbrev turn : ℕ → ℕ → TurnRow
turn message_id duration = record {
  message_id = message_id;
  ordinal = message_id;
  timestamp = "t";
  has_tool_use = true;
  duration_ms = some (pos duration);
}

abbrev session : TimedSession
session = record { id = "s"; started_at = some "a"; ended_at = none }

abbrev turns : List TurnRow
turns = turn 1 30 ∷ turn 2 10 ∷ []

abbrev rows : List CallRow
rows =
    row 1 "Read" none none
    ∷ row 2 "Task" (some "agent") (some (pos 6))
    ∷ row 1 "Bash" none none
    ∷ row 1 "Read" none none
    ∷ []

abbrev preview : Text → String → Text → Text
preview category tool_name input_json = []

abbrev parse_time : String → Option ℕ
parse_time s = some 0

abbrev millis : ℕ → ℕ → ℤ
millis a b = pos 40

abbrev by_count : Map Text ℕ → List (Text × ℕ)
by_count m = m

abbrev totals : Map Text CategoryTotal → List CategoryTotal
totals m = map (λ p. p.1) m

abbrev timing : SessionTiming
timing = assemble_timing preview parse_time millis by_count totals (λ l. l) session turns rows "now"

-- The one call of the sub-agent is counted twice under its category.
timing_by_category :
    timing.by_category
    ≡ record { category = codes "Read"; duration_ms = pos 30; call_count = 3 }
      ∷ record { category = codes "Task"; duration_ms = pos 10; call_count = 2 }
      ∷ []
unfolding assemble_timing attribute_turn_go get get_or put list_beq ◌-ℤ◌ ◌+ℤ◌
timing_by_category = refl

timing_tool_call_count : timing.tool_call_count ≡ 4
unfolding assemble_timing attribute_turn_go get get_or put list_beq ◌-ℤ◌ ◌+ℤ◌
timing_tool_call_count = refl

assemble_timing-IsSlowest_example : IsSlowest (all_calls timing.turns) timing.slowest_call
assemble_timing-IsSlowest_example =
    assemble_timing-IsSlowest preview parse_time millis by_count totals (λ l. l) session turns rows
      "now"

abbrev call : String → Option String → Option ℤ → CallTiming
call category subagent duration = record {
  tool_use_id = "id";
  tool_name = "tool";
  category = codes category;
  skill_name = none;
  subagent_session_id = subagent;
  duration_ms = duration;
  is_parallel = true;
  input_preview = [];
}

abbrev calls : List CallTiming
calls =
    call "Read" none none
    ∷ call "Task" (some "agent") (some (pos 6))
    ∷ call "Bash" none none
    ∷ call "Read" none none
    ∷ []

attribute_turn_go-IsPrimary_example :
    IsPrimary calls
      (some (pos 20))
      (attribute_turn_go by_count (some (pos 20)) calls).primary_category
attribute_turn_go-IsPrimary_example =
    attribute_turn_go-IsPrimary by_count (some (pos 20)) calls
      (count_categories-Visits (others calls))

mostly_read : (attribute_turn_go by_count (some (pos 20)) calls).primary_category ≡ codes "Read"
unfolding attribute_turn_go get get_or put list_beq ◌-ℤ◌
mostly_read = refl
