-- ===== src/ToolEvents/Summary.antt =====
-- summarizeToolResultEvents of internal/sync/engine.go: the text that the events come to.
use ca_session_source.Base.{
  suc, ◌≡◌, ◌≢◌, refl, sym, ap, ◌∙◌, inl, inr, Bool, true, false, not, ◌&&◌, ◌||◌, All, List, [],
  ◌∷◌, ◌++◌, map, append-nil, arith, ◌==◌, ==_iff, list_beq, nat_equality, list_equality,
  if◌then◌else◌, leb, length, Bool-cases,
}
use ca_session_source.GoMap.{Map, get_or}
use ca_session_source.GoMap.Laws.{keys}
use ca_session_source.GoText.{join, Text, codes}
use ca_session_source.MessageRows.{ToolResultEvent}
use ca_session_source.ToolEvents.{
  AgentSummaries, no_summaries, add_events, blank_line, labelled, first_summary,
  summarize_tool_result_events,
}
use ca_session_source.ToolEvents.Events.{
  last_words, speakers, add_events-IsInStep, add_events-ordered, add_events-latest, add_events-anon,
  Noted, add_events-Noted, speakers-All,
}

-- The words that no agent's id comes with, as a list of at most one.
abbrev pub said : Text → List Text
said anon = if anon == [] then [] else anon ∷ []

-- One agent's words stand alone; the words of several are labelled with the agents.
abbrev pub agent_parts : (Text → Text) → List Text → List Text
agent_parts words agents =
    if leb (length agents) 1
    then map words agents
    else map (λ a. a ++ (codes ":\n" ++ words a)) agents

map-labelled :
    (latest : Map Text Text) (words : Text → Text) (agents : List Text)
    → All (λ a. get_or [] a latest ≡ words a) agents
    → map (labelled latest) agents ≡ map (λ a. a ++ (codes ":\n" ++ words a)) agents
unfolding labelled
map-labelled latest words [] h = refl
map-labelled latest words (a ∷ agents) h =
    ap (λ w. (a ++ (codes ":\n" ++ w)) ∷ map (labelled latest) agents) h.0
    ∙ ap (λ l. (a ++ (codes ":\n" ++ words a)) ∷ l) (map-labelled latest words agents h.1)

join-snoc_nil : (ps : List Text) → join blank_line (ps ++ []) ≡ join blank_line ps
join-snoc_nil ps = ap (join blank_line) (append-nil ps)

several_shape :
    (anon : Text) (all : Bool) (parts labels : List Text)
    → parts ≡ labels
    → (anon == [] || not all) ≡ true
    → (if not all && not (anon == [])
        then join blank_line (parts ++ anon ∷ [])
        else join blank_line parts)
      ≡ join blank_line (labels ++ said anon)
several_shape anon all parts labels same noted =
    ap
      (λ (l : List Text).
        if not all && not (anon == []) then join blank_line (l ++ anon ∷ []) else join blank_line l)
      same
    ∙ elim (Bool-cases (anon == [])) [
      | inl silent ↦ rw silent (ground (arith, ap (join blank_line) (append-nil labels)))
      | inr spoken ↦
          let some_anonymous : not all ≡ true = ground arith in rw (spoken, some_anonymous) refl
    ]

-- The texts that summarizeToolResultEvents returns, by the number of its agents.
summary_shape :
    (s : AgentSummaries) (agents : List Text) (words : Text → Text)
    → s.ordered_agents ≡ agents
    → length s.latest_by_agent ≡ length agents
    → All (λ a. get_or [] a s.latest_by_agent ≡ words a) agents
    → Noted s
    → (let n = length s.latest_by_agent in
        let parts = map (labelled s.latest_by_agent) s.ordered_agents in
        if leb n 1
        then (if n == 1
            then (if not (s.last_anon == [])
                then first_summary s ++ (blank_line ++ s.last_anon)
                else first_summary s)
            else s.last_anon)
        else if not s.all_have_agent_id && not (s.last_anon == [])
        then join blank_line (parts ++ s.last_anon ∷ [])
        else join blank_line parts)
      ≡ join blank_line (agent_parts words agents ++ said s.last_anon)
unfolding first_summary join
summary_shape s [] words o n h noted = rw n (ground (arith, ==_iff s.last_anon []))
summary_shape s (a ∷ []) words o n h noted = rw (n, o) (ground (arith, h.0))
summary_shape s (a ∷ b ∷ rest) words o n h noted =
    let same = map-labelled s.latest_by_agent words (a ∷ b ∷ rest) h in
    let many : leb (length (a ∷ b ∷ rest)) 1 ≡ false = ground arith in
    rw (n, o, many) (several_shape s.last_anon s.all_have_agent_id _ _ same noted)

-- The text that the events come to: what each agent said last, by the agents' first words, then what
-- was said last without an agent.
abbrev pub event_parts : List ToolResultEvent → List Text
event_parts events =
    agent_parts (λ a. last_words a events []) (speakers [] events) ++ said (last_words [] events [])

length-keys : (m : Map Text Text) → length m ≡ length (keys m)
length-keys [] = refl
length-keys (e ∷ m) = ap suc (length-keys m)

spoken-All :
    (events : List ToolResultEvent) (agents : List Text)
    → All (λ a. a ≢ []) agents
    → All
        (λ a. get_or [] a (add_events no_summaries events).latest_by_agent ≡ last_words a events [])
        agents
unfolding get_or
spoken-All events [] h = tt
spoken-All events (a ∷ agents) h =
    (add_events-latest no_summaries events a h.0, spoken-All events agents h.1)

-- An event without content plays no part. The summary is the last words of each agent, the agents in
-- the order of their first words and labelled with their names where there are several, and then the
-- last words that no agent's name comes with, if any, all with a blank line between them.
pub summarize_tool_result_events_lem :
    (events : List ToolResultEvent)
    → summarize_tool_result_events events ≡ join blank_line (event_parts events)
unfolding summarize_tool_result_events get_or list_beq
summarize_tool_result_events_lem events =
    let s = add_events no_summaries events in
    let agents : s.ordered_agents ≡ speakers [] events =
      add_events-ordered no_summaries events refl in
    let many : length s.latest_by_agent ≡ length (speakers [] events) =
      length-keys s.latest_by_agent
      ∙ ap length (sym (add_events-IsInStep no_summaries events refl) ∙ agents) in
    summary_shape s (speakers [] events) (λ a. last_words a events []) agents many
      (spoken-All events (speakers [] events) (speakers-All [] events))
      (add_events-Noted no_summaries events refl)
    ∙ ap
        (λ anon.
          join blank_line
            (agent_parts (λ a. last_words a events []) (speakers [] events) ++ said anon))
        (add_events-anon no_summaries events)
