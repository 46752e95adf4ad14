-- ===== src/ToolResults/Tests.antt =====
-- Two messages of calls and a message of results; the id t1 is used twice.
use ca_session_source.Base.{ℕ, ◌≡◌, refl, String, Bool, false, List, [], ◌∷◌, some, map}
use ca_session_source.GoMap.{Map, get, get_or, put}
use ca_session_source.GoText.{Text, codes}
use ca_session_source.MessageRows.{ToolResult, ToolCall, Message}
use ca_session_source.ToolResults.Places.{call_at, on_some, without_calls}
use ca_session_source.ToolResults.Pairing.{paired, pair_tool_results_lem}
use ca_session_source.ToolResults.{pair_tool_results}

abbrev call : String → ToolCall
call id = record {
  tool_name = "Bash";
  category = "Bash";
  tool_use_id = id;
  input_json = [];
  result_content_length = 0;
  result_content = [];
  result_events = [];
}

abbrev message : String → List ToolCall → List ToolResult → Message
message role calls results = record {
  ordinal = 0;
  role = role;
  content = [];
  model = [];
  context_tokens = 0;
  has_context_tokens = false;
  tool_calls = calls;
  tool_results = results;
  is_system = false;
  is_compact_boundary = false;
}

abbrev result : String → String → ToolResult
result id content = record { tool_use_id = id; content_length = 2; content_raw = codes content }

abbrev messages : List Message
messages =
    message "assistant" (call "t1" ∷ call "t2" ∷ []) []
    ∷ message "assistant" (call "t1" ∷ []) []
    ∷ message "user" [] (result "t1" "no" ∷ result "t1" "ok" ∷ [])
    ∷ []

-- A decoder that returns its text, and no blocked category.
abbrev decode : Text → Text
decode raw = raw

abbrev blocked : Map String Bool
blocked = []

second_use_written :
    call_at 1 0 (pair_tool_results decode blocked messages)
    ≡ some (record (call "t1") { result_content_length = 2; result_content = codes "ok" })
unfolding pair_tool_results get get_or put
second_use_written = refl

pair_tool_results_lem_example :
    (map without_calls (pair_tool_results decode blocked messages) ≡ map without_calls messages)
    × ((i j : ℕ)
        → call_at i j (pair_tool_results decode blocked messages)
          ≡ on_some (paired decode blocked messages i j) (call_at i j messages))
pair_tool_results_lem_example = pair_tool_results_lem decode blocked messages
