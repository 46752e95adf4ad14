-- ===== src/ClaudeMessages.antt =====
-- internal/parser/claude.go: the messages of a Claude session, out of its entries. The record of a
-- message holds the fields that the code reads or decides. What looks into JSON and into XML tags is
-- an argument, as package time is.
pub mod Incremental
use ca_session_source.Base.{
  ℕ, zero, suc, ◌+◌, String, Bool, true, false, not, ◌&&◌, ◌||◌, List, [], ◌∷◌, ◌++◌, Option, none,
  some, ◌==◌, list_equality, nat_equality, if◌then◌else◌, length,
}
use ca_session_source.GoText.{Text, codes}
use ca_session_source.GoText.Space.{trim_space}
use ca_session_source.Termination.{ParsedToolCall, ParsedToolResult, ParsedMessage}
use ca_session_source.ClaudeDag.{DagEntry}

pub record ClaudeMessage (T : Type 0) : Type 0 where
  pub ordinal : ℕ
  pub role : Text
  pub content : Text
  pub timestamp : T
  pub is_system : Bool
  pub content_length : ℕ
  pub tool_calls : List ParsedToolCall
  pub tool_results : List ParsedToolResult
  pub source_type : Text
  pub source_subtype : Text
  pub source_uuid : Text
  pub stop_reason : Text

-- The fields of a message that Classify reads.
abbrev pub parsed : {T : Type 0} → ClaudeMessage T → ParsedMessage
parsed m = record { role = m.role; tool_calls = m.tool_calls; tool_results = m.tool_results }

-- What ExtractTextContent returns.
pub record TextContent : Type 0 where
  pub text : Text
  pub tool_calls : List ParsedToolCall
  pub tool_results : List ParsedToolResult

-- What the code calls. `zero_time` is the zero value of time.Time; `str` and `bool` are gjson.Get of
-- a line by a path, as a string and as a Boolean; `text_content` is ExtractTextContent of the line's
-- message.content.
pub record Calls (T : Type 0) : Type 0 where
  pub zero_time : T
  pub is_zero : T → Bool
  pub before : T → T → Bool
  pub str : Text → String → Text
  pub bool : Text → String → Bool
  pub text_content : Text → TextContent
  pub compact_summary : Text → Text
  pub command_text : Text → Option Text
  pub is_command_envelope : Text → Bool
  pub system_subtype : Text → Text
  pub is_system_message : Text → Bool
  pub annotate : List (ClaudeMessage T) → List (ClaudeMessage T)
  pub is_skippable : Text → Bool
  pub preview : Text → Text

module _ {T : Type 0} (calls : Calls T) where
  abbrev pub is_user : DagEntry T → Bool
  is_user e = e.entry_type == codes "user"

  pub compact_message : DagEntry T → ℕ → ClaudeMessage T
  compact_message e ordinal =
      let summary = calls.compact_summary e.line in
      record {
        ordinal = ordinal;
        role = codes "assistant";
        content = summary;
        timestamp = e.timestamp;
        is_system = true;
        content_length = length summary;
        tool_calls = [];
        tool_results = [];
        source_type = codes "system";
        source_subtype = codes "compact_boundary";
        source_uuid = e.uuid;
        stop_reason = [];
      }

  pub system_message : DagEntry T → Text → Text → ℕ → ClaudeMessage T
  system_message e text subtype ordinal = record {
    ordinal = ordinal;
    role = codes "user";
    content = text;
    timestamp = e.timestamp;
    is_system = true;
    content_length = length text;
    tool_calls = [];
    tool_results = [];
    source_type = codes "system";
    source_subtype = subtype;
    source_uuid = e.uuid;
    stop_reason = [];
  }

  pub plain_message : DagEntry T → Text → TextContent → ℕ → ClaudeMessage T
  plain_message e text parts ordinal = record {
    ordinal = ordinal;
    role = e.entry_type;
    content = text;
    timestamp = e.timestamp;
    is_system = false;
    content_length = length text;
    tool_calls = parts.tool_calls;
    tool_results = parts.tool_results;
    source_type = e.entry_type;
    source_subtype = [];
    source_uuid = e.uuid;
    stop_reason =
        if e.entry_type == codes "assistant" then calls.str e.line "message.stop_reason" else [];
  }

  -- A command in a user's text; `none` for an envelope that is skipped.
  pub shown_text : DagEntry T → Text → Option Text
  shown_text e text =
      if is_user e
      then elim (calls.command_text text) as (λ _. Option Text) [
        | some cmd_text ↦ some cmd_text
        | none ↦ if calls.is_command_envelope text then none else some text
      ]
      else some text

  -- The message for a text that is shown, if it is not skipped.
  pub text_message : DagEntry T → TextContent → ℕ → Text → Option (ClaudeMessage T)
  unfolding system_message plain_message
  text_message e parts ordinal text =
      let subtype = calls.system_subtype text in
      if trim_space text == [] && length parts.tool_results == 0
      then none
      else if is_user e && not (subtype == [])
      then some (system_message e text subtype ordinal)
      else if is_user e && calls.is_system_message text
      then none
      else some (plain_message e text parts ordinal)

  -- The body of the loops of extractMessages and extractMessagesFrom, but for the bounds: the message
  -- of an entry, if it has one.
  pub read_entry : DagEntry T → ℕ → Option (ClaudeMessage T)
  unfolding compact_message shown_text text_message
  read_entry e ordinal =
      let parts = calls.text_content e.line in
      if calls.bool e.line "isCompactSummary"
      then some (compact_message e ordinal)
      else if is_user e && calls.bool e.line "isMeta"
      then none
      else elim (shown_text e parts.text) [
        | none ↦ none
        | some text ↦ text_message e parts ordinal text
      ]

  -- The variables of the loop; the ordinal is that of the next message.
  pub extract_loop :
      List (DagEntry T) → List (ClaudeMessage T) → T → T → ℕ → List (ClaudeMessage T) × T × T
  unfolding read_entry
  extract_loop [] messages started_at ended_at ordinal = (messages, started_at, ended_at)
  extract_loop (e ∷ entries) messages started_at ended_at ordinal =
      let timed = not (calls.is_zero e.timestamp) in
      let started = if timed && calls.is_zero started_at then e.timestamp else started_at in
      let ended = if timed then e.timestamp else ended_at in
      elim (read_entry e ordinal) [
        | none ↦ extract_loop entries messages started ended ordinal
        | some m ↦ extract_loop entries (messages ++ m ∷ []) started ended (suc ordinal)
      ]

  pub extract_messages : List (DagEntry T) → List (ClaudeMessage T) × T × T
  unfolding extract_loop
  extract_messages entries = extract_loop entries [] calls.zero_time calls.zero_time 0

  pub extract_messages_from : List (DagEntry T) → ℕ → List (ClaudeMessage T) × T × T
  unfolding extract_loop
  extract_messages_from entries start_ordinal =
      extract_loop entries [] calls.zero_time calls.zero_time start_ordinal
