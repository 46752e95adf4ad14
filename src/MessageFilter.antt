-- ===== src/MessageFilter.antt =====
-- internal/sync/engine.go: pairAndFilter, and the summaries of the calls' result events.
pub mod Kept
pub mod Tests
use ca_session_source.Base.{
  ℕ, String, Bool, true, false, not, ◌&&◌, List, [], ◌∷◌, map, ◌==◌, string_equality, nat_equality,
  list_equality, if◌then◌else◌, ltb, length,
}
use ca_session_source.GoMap.{Map, get_or}
use ca_session_source.GoText.{Text}
use ca_session_source.GoText.Space.{trim_space}
use ca_session_source.MessageRows.{ToolResultEvent, ToolCall, Message}
use ca_session_source.ToolEvents.{summarize_tool_result_events}
use ca_session_source.ToolResults.{pair_tool_results}

-- The body of the loops of pairToolResultEventSummaries.
pub summarize_call : Map String Bool → ToolCall → ToolCall
summarize_call blocked tc =
    let summary = summarize_tool_result_events tc.result_events in
    if length tc.result_events == 0
    then tc
    else if get_or false tc.category blocked
    then record tc {
      result_content_length = length summary;
      result_content = [];
      result_events = [];
    }
    else record tc { result_content_length = length summary; result_content = summary }

pub pair_tool_result_event_summaries : Map String Bool → List Message → List Message
unfolding summarize_call
pair_tool_result_event_summaries blocked [] = []
pair_tool_result_event_summaries blocked (m ∷ msgs) =
    record m { tool_calls = map (summarize_call blocked) m.tool_calls }
    ∷ pair_tool_result_event_summaries blocked msgs

-- The loop of pairAndFilter, which keeps a message in place or skips it.
pub filter_messages : List Message → List Message
filter_messages [] = []
filter_messages (m ∷ msgs) =
    let rest = filter_messages msgs in
    if m.role == "user" && ltb 0 (length m.tool_results) && trim_space m.content == []
    then rest
    else m ∷ rest

pub pair_and_filter : (Text → Text) → Map String Bool → List Message → List Message
unfolding pair_tool_result_event_summaries filter_messages
pair_and_filter decode_content blocked msgs =
    filter_messages
      (pair_tool_result_event_summaries blocked (pair_tool_results decode_content blocked msgs))
