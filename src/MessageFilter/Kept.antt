-- ===== src/MessageFilter/Kept.antt =====
-- pairAndFilter of internal/sync/engine.go: the messages that it keeps.
use ca_session_source.Base.{
  ◌≡◌, refl, ap, ◌∙◌, String, Bool, not, ◌&&◌, List, [], ◌∷◌, map, arith, ◌==◌, string_equality,
  nat_equality, list_equality, ltb, length,
}
use ca_session_source.Base.Counting.{select}
use ca_session_source.GoMap.{Map}
use ca_session_source.GoText.{Text}
use ca_session_source.GoText.Space.{trim_space}
use ca_session_source.MessageRows.{Message}
use ca_session_source.ToolResults.{pair_tool_results}
use ca_session_source.ToolResults.Places.{without_calls}
use ca_session_source.ToolResults.Pairing.{pair_tool_results_lem}
use ca_session_source.MessageFilter.{
  pair_tool_result_event_summaries, filter_messages, pair_and_filter,
}

-- The message is not a user's that holds tool results and no text but white space.
abbrev pub is_kept : Message → Bool
is_kept m = not (m.role == "user" && ltb 0 (length m.tool_results) && trim_space m.content == [])

filter_messages-select :
    (msgs : List Message)
    → map without_calls (filter_messages msgs) ≡ select is_kept (map without_calls msgs)
unfolding filter_messages
filter_messages-select [] = refl
filter_messages-select (m ∷ msgs) = ground (arith, filter_messages-select msgs)

summaries-without_calls :
    (blocked : Map String Bool) (msgs : List Message)
    → map without_calls (pair_tool_result_event_summaries blocked msgs) ≡ map without_calls msgs
unfolding pair_tool_result_event_summaries
summaries-without_calls blocked [] = refl
summaries-without_calls blocked (m ∷ msgs) =
    ap (λ l. without_calls m ∷ l) (summaries-without_calls blocked msgs)

-- pairAndFilter keeps, in their order and but for their calls unchanged, exactly the messages that
-- are not a user's with tool results and no text but white space.
pub pair_and_filter-select :
    (decode_content : Text → Text) (blocked : Map String Bool) (msgs : List Message)
    → map without_calls (pair_and_filter decode_content blocked msgs)
      ≡ select is_kept (map without_calls msgs)
unfolding pair_and_filter
pair_and_filter-select decode_content blocked msgs =
    filter_messages-select
      (pair_tool_result_event_summaries blocked (pair_tool_results decode_content blocked msgs))
    ∙ ap (select is_kept) (
        summaries-without_calls blocked (pair_tool_results decode_content blocked msgs)
        ∙ (pair_tool_results_lem decode_content blocked msgs).0)
