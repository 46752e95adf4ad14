-- ===== src/MessageRows.antt =====
-- internal/db/messages.go: a stored message with its tool calls and results, as far as the modelled
-- code reads and writes it. Strings that are only compared are `String`, the others `Text`.
use ca_session_source.Base.{ℕ, String, Bool, List}
use ca_session_source.GoText.{Text}

pub record ToolResultEvent : Type 0 where
  pub agent_id : Text
  pub status : String
  pub content : Text

-- `content_raw` is JSON.
pub record ToolResult : Type 0 where
  pub tool_use_id : String
  pub content_length : ℕ
  pub content_raw : Text

pub record ToolCall : Type 0 where
  pub tool_name : String
  pub category : String
  pub tool_use_id : String
  pub input_json : Text
  pub result_content_length : ℕ
  pub result_content : Text
  pub result_events : List ToolResultEvent

pub record Message : Type 0 where
  pub ordinal : ℕ
  pub role : String
  pub content : Text
  pub model : Text
  pub context_tokens : ℕ
  pub has_context_tokens : Bool
  pub tool_calls : List ToolCall
  pub tool_results : List ToolResult
  pub is_system : Bool
  pub is_compact_boundary : Bool
