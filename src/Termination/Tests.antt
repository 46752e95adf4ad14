-- ===== src/Termination/Tests.antt =====
-- A transcript of which the last call has no result.
use ca_session_source.Base.{list_equality, nat_equality, list_beq}
use ca_session_source.Base.{◌≡◌, ◌≢◌, ◌↔◌, refl, String, true, false, List, [], ◌∷◌}
use ca_session_source.GoText.{codes}
use ca_session_source.GoMap.{get, get_or, put}
use ca_session_source.Termination.Orphans.{HasOrphan, has_orphaned_tool_call_iff}
use ca_session_source.Termination.Statuses.{IsAwaiting, classify_lem}
use ca_session_source.Termination.{ParsedToolCall, ParsedMessage, has_orphaned_tool_call, classify}

abbrev calls : List ParsedToolCall
calls = record { tool_use_id = "t1" } ∷ record { tool_use_id = "t2" } ∷ []

abbrev answer : String → ParsedMessage
answer id = record {
  role = codes "user";
  tool_calls = [];
  tool_results = record { tool_use_id = id } ∷ [];
}

abbrev transcript : List ParsedMessage
transcript =
    answer "t2"
    ∷ record { role = codes "assistant"; tool_calls = calls; tool_results = [] }
    ∷ answer "t1"
    ∷ []

has_orphaned_tool_call_iff_example :
    (has_orphaned_tool_call transcript ≡ true) ↔ HasOrphan transcript
has_orphaned_tool_call_iff_example = has_orphaned_tool_call_iff transcript

transcript_pending : classify transcript (codes "tool_use") false ≡ "tool_call_pending"
unfolding classify get get_or put list_beq
transcript_pending = refl

classify_lem_example :
    let status = classify transcript (codes "end_turn") false in
    ((status ≡ "truncated") ↔ (false ≡ true))
    × ((status ≡ "") ↔ ((false ≡ false) × (transcript ≡ [])))
    × ((status ≡ "tool_call_pending") ↔ ((false ≡ false) × HasOrphan transcript))
    × ((status ≡ "awaiting_user")
        ↔ ((false ≡ false) × (¬ HasOrphan transcript) × IsAwaiting transcript (codes "end_turn")))
    × ((status ≡ "clean") ↔ (
        (false ≡ false)
        × (transcript ≢ [])
        × (¬ HasOrphan transcript)
        × (¬ IsAwaiting transcript (codes "end_turn"))))
classify_lem_example = classify_lem transcript (codes "end_turn") false
