-- ===== src/ToolEvents/Tests.antt =====
-- Two agents and a nameless event.
use ca_session_source.Base.{◌≡◌, refl, String, List, [], ◌∷◌, list_beq}
use ca_session_source.GoMap.{get, put, get_or}
use ca_session_source.GoText.{join, codes, has_prefix}
use ca_session_source.GoText.Space.{trim_space}
use ca_session_source.MessageRows.{ToolResultEvent}
use ca_session_source.ToolEvents.Summary.{event_parts, summarize_tool_result_events_lem}
use ca_session_source.ToolEvents.{blank_line, summarize_tool_result_events}

abbrev event : String → String → ToolResultEvent
event agent content = record {
  agent_id = codes agent;
  status = "completed";
  content = codes content;
}

abbrev events : List ToolResultEvent
events =
    event " b" "one" ∷ event "a" "two" ∷ event "" "three" ∷ event "b " "four" ∷ event "a" " " ∷ []

events_summary : summarize_tool_result_events events ≡ codes "b:\nfour\n\na:\ntwo\n\nthree"
unfolding summarize_tool_result_events get put get_or list_beq has_prefix trim_space
events_summary = refl

summarize_tool_result_events_lem_example :
    summarize_tool_result_events events ≡ join blank_line (event_parts events)
summarize_tool_result_events_lem_example = summarize_tool_result_events_lem events
