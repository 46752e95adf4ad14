-- ===== src/MessageFilter/Tests.antt =====
-- A message of results alone, and one with text.
use ca_session_source.Base.{◌≡◌, false, List, [], ◌∷◌, map}
use ca_session_source.Base.Counting.{select}
use ca_session_source.GoText.{Text, codes}
use ca_session_source.MessageRows.{Message}
use ca_session_source.ToolResults.Places.{without_calls}
use ca_session_source.MessageFilter.Kept.{is_kept, pair_and_filter-select}
use ca_session_source.MessageFilter.{pair_and_filter}

abbrev message : Text → Message
message content = record {
  ordinal = 0;
  role = "user";
  content = content;
  model = [];
  context_tokens = 0;
  has_context_tokens = false;
  tool_calls = [];
  tool_results = record { tool_use_id = "t1"; content_length = 2; content_raw = codes "ok" } ∷ [];
  is_system = false;
  is_compact_boundary = false;
}

abbrev messages : List Message
messages = message (codes " \n") ∷ message (codes "go on") ∷ []

pair_and_filter-select_example :
    map without_calls (pair_and_filter (λ raw. raw) [] messages)
    ≡ select is_kept (map without_calls messages)
pair_and_filter-select_example = pair_and_filter-select (λ raw. raw) [] messages
