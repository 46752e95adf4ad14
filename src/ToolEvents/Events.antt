-- ===== src/ToolEvents/Events.antt =====
-- summarizeToolResultEvents of internal/sync/engine.go: what its loop notes of each agent.
use ca_session_source.Base.{
  ◌≡◌, ◌≢◌, refl, sym, ap, ◌∙◌, Bool, true, not, ◌&&◌, ◌||◌, All, List, [], ◌∷◌, ◌++◌, append-nil,
  append_assoc, arith, ◌==◌, ==_iff, nat_equality, list_equality, if◌then◌else◌, is_some,
}
use ca_session_source.Base.Counting.{any}
use ca_session_source.GoMap.{Map, get, put, get_or}
use ca_session_source.GoMap.Laws.{get_or-put, keys, any-keys}
use ca_session_source.GoText.{Text}
use ca_session_source.GoText.Space.{trim_space}
use ca_session_source.MessageRows.{ToolResultEvent}
use ca_session_source.ToolEvents.{AgentSummaries, add_event, add_events}

-- An event that has content, and the agent that it names, if it has.
abbrev pub has_content : ToolResultEvent → Bool
has_content ev = not (trim_space ev.content == [])

abbrev pub speaks : Text → ToolResultEvent → Bool
speaks agent ev = has_content ev && trim_space ev.agent_id == agent

-- What the agent said last; the empty text where it did not speak.
abbrev pub last_words : Text → List ToolResultEvent → Text → Text
last_words agent [] before = before
last_words agent (ev ∷ events) before =
    last_words agent events (if speaks agent ev then ev.content else before)

-- The agents that speak and are not among those seen, in the order in which they first speak.
abbrev pub speakers : List Text → List ToolResultEvent → List Text
speakers seen [] = []
speakers seen (ev ∷ events) =
    let agent = trim_space ev.agent_id in
    let new = agent ∷ speakers (seen ++ agent ∷ []) events in
    let old = speakers seen events in
    if not (has_content ev)
    then old
    else if agent == []
    then old
    else if any (λ a. a == agent) seen
    then old
    else new

pub put-keys :
    (agent content : Text) (m : Map Text Text)
    → keys (put agent content m) ≡ (if is_some (get agent m) then keys m else keys m ++ agent ∷ [])
unfolding get put
put-keys agent content [] = refl
put-keys agent content ((a, c) ∷ m) = ground (arith, ==_iff a agent, put-keys agent content m)

-- The agents in order are the keys of the map.
abbrev pub IsInStep : AgentSummaries → Type 0
IsInStep s = s.ordered_agents ≡ keys s.latest_by_agent

pub add_event-IsInStep :
    (ev : ToolResultEvent) (s : AgentSummaries) → IsInStep s → IsInStep (add_event ev s)
unfolding add_event
add_event-IsInStep ev s o = ground (
  arith,
  put-keys (trim_space ev.agent_id) ev.content s.latest_by_agent,
  ap (λ l. l ++ trim_space ev.agent_id ∷ []) o,
)

pub add_event-ordered :
    (ev : ToolResultEvent) (s : AgentSummaries) (events : List ToolResultEvent)
    → IsInStep s
    → (add_event ev s).ordered_agents ++ speakers (add_event ev s).ordered_agents events
      ≡ s.ordered_agents ++ speakers s.ordered_agents (ev ∷ events)
unfolding add_event
add_event-ordered ev s events o =
    let agent = trim_space ev.agent_id in
    let seen : any (λ a. a == agent) s.ordered_agents ≡ is_some (get agent s.latest_by_agent) =
      ap (any (λ a. a == agent)) o ∙ any-keys agent s.latest_by_agent in
    ground (
      arith,
      append_assoc s.ordered_agents (agent ∷ []) (speakers (s.ordered_agents ++ agent ∷ []) events),
    )

pub add_events-IsInStep :
    (s : AgentSummaries) (events : List ToolResultEvent)
    → IsInStep s
    → IsInStep (add_events s events)
unfolding add_events
add_events-IsInStep s [] o = o
add_events-IsInStep s (ev ∷ events) o =
    add_events-IsInStep (add_event ev s) events (add_event-IsInStep ev s o)

pub add_events-ordered :
    (s : AgentSummaries) (events : List ToolResultEvent)
    → IsInStep s
    → (add_events s events).ordered_agents ≡ s.ordered_agents ++ speakers s.ordered_agents events
unfolding add_events
add_events-ordered s [] o = sym (append-nil s.ordered_agents)
add_events-ordered s (ev ∷ events) o =
    add_events-ordered (add_event ev s) events (add_event-IsInStep ev s o)
    ∙ add_event-ordered ev s events o

pub add_event-latest :
    (ev : ToolResultEvent) (s : AgentSummaries) (agent : Text)
    → agent ≢ []
    → get_or [] agent (add_event ev s).latest_by_agent
      ≡ (if speaks agent ev then ev.content else get_or [] agent s.latest_by_agent)
unfolding add_event
add_event-latest ev s agent ne = ground (
  arith,
  get_or-put [] (trim_space ev.agent_id) agent ev.content s.latest_by_agent,
  ==_iff (trim_space ev.agent_id) agent,
  ==_iff (trim_space ev.agent_id) [],
)

pub add_events-latest :
    (s : AgentSummaries) (events : List ToolResultEvent) (agent : Text)
    → agent ≢ []
    → get_or [] agent (add_events s events).latest_by_agent
      ≡ last_words agent events (get_or [] agent s.latest_by_agent)
unfolding add_events
add_events-latest s [] agent ne = refl
add_events-latest s (ev ∷ events) agent ne =
    add_events-latest (add_event ev s) events agent ne
    ∙ ap (last_words agent events) (add_event-latest ev s agent ne)

pub add_event-anon :
    (ev : ToolResultEvent) (s : AgentSummaries)
    → (add_event ev s).last_anon ≡ (if speaks [] ev then ev.content else s.last_anon)
unfolding add_event
add_event-anon ev s = ground arith

pub add_events-anon :
    (s : AgentSummaries) (events : List ToolResultEvent)
    → (add_events s events).last_anon ≡ last_words [] events s.last_anon
unfolding add_events
add_events-anon s [] = refl
add_events-anon s (ev ∷ events) =
    add_events-anon (add_event ev s) events ∙ ap (last_words [] events) (add_event-anon ev s)

-- Words of no agent are noted as such.
abbrev pub Noted : AgentSummaries → Type 0
Noted s = (s.last_anon == [] || not s.all_have_agent_id) ≡ true

pub add_events-Noted :
    (s : AgentSummaries) (events : List ToolResultEvent) → Noted s → Noted (add_events s events)
unfolding add_events add_event
add_events-Noted s [] n = n
add_events-Noted s (ev ∷ events) n = add_events-Noted (add_event ev s) events (ground arith)

pub speakers-All :
    (seen : List Text) (events : List ToolResultEvent) → All (λ a. a ≢ []) (speakers seen events)
speakers-All seen [] = tt
speakers-All seen (ev ∷ events) =
    let agent = trim_space ev.agent_id in
    ground
      (arith, speakers-All seen events, speakers-All (seen ++ agent ∷ []) events, ==_iff agent [])
