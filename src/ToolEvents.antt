-- ===== src/ToolEvents.antt =====
-- internal/sync/engine.go: the summary of a tool call's result events.
pub mod Events
pub mod Summary
pub mod Tests
use ca_session_source.Base.{
  ℕ, Bool, true, false, not, ◌&&◌, List, [], ◌∷◌, ◌++◌, map, Option, none, some, ◌==◌, nat_equality,
  list_equality, if◌then◌else◌, leb, length, is_some,
}
use ca_session_source.GoMap.{Map, get, put, get_or}
use ca_session_source.GoText.{join, Text, codes}
use ca_session_source.GoText.Space.{trim_space}
use ca_session_source.MessageRows.{ToolResultEvent}

-- The variables of the loop. Of an agentSummary only the content is kept: its order is not read.
pub record AgentSummaries : Type 0 where
  pub latest_by_agent : Map Text Text
  pub ordered_agents : List Text
  pub last_anon : Text
  pub all_have_agent_id : Bool

abbrev pub no_summaries : AgentSummaries
no_summaries = record {
  latest_by_agent = [];
  ordered_agents = [];
  last_anon = [];
  all_have_agent_id = true;
}

-- The body of the loop.
pub add_event : ToolResultEvent → AgentSummaries → AgentSummaries
add_event ev s =
    let agent_id = trim_space ev.agent_id in
    if trim_space ev.content == []
    then s
    else if agent_id == []
    then record s { all_have_agent_id = false; last_anon = ev.content }
    else record s {
      latest_by_agent = put agent_id ev.content s.latest_by_agent;
      ordered_agents =
          if is_some (get agent_id s.latest_by_agent)
          then s.ordered_agents
          else s.ordered_agents ++ agent_id ∷ [];
    }

pub add_events : AgentSummaries → List ToolResultEvent → AgentSummaries
unfolding add_event
add_events s [] = s
add_events s (ev ∷ events) = add_events (add_event ev s) events

abbrev pub blank_line : Text
blank_line = codes "\n\n"

-- `agentID + ":\n" + latestByAgent[agentID].content`.
pub labelled : Map Text Text → Text → Text
labelled latest agent_id = agent_id ++ (codes ":\n" ++ get_or [] agent_id latest)

-- `orderedAgents[0]`, where there is one.
pub first_summary : AgentSummaries → Text
first_summary s = elim s.ordered_agents [
  | [] ↦ []
  | agent_id ∷ _ ↦ get_or [] agent_id s.latest_by_agent
]

pub summarize_tool_result_events : List ToolResultEvent → Text
unfolding add_events join labelled first_summary
summarize_tool_result_events events =
    let s = add_events no_summaries events in
    let agents = length s.latest_by_agent in
    let summary = first_summary s in
    let parts = map (labelled s.latest_by_agent) s.ordered_agents in
    if leb agents 1
    then (if agents == 1
        then (if not (s.last_anon == []) then summary ++ (blank_line ++ s.last_anon) else summary)
        else s.last_anon)
    else if not s.all_have_agent_id && not (s.last_anon == [])
    then join blank_line (parts ++ s.last_anon ∷ [])
    else join blank_line parts
