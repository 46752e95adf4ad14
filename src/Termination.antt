-- ===== src/Termination.antt =====
-- internal/parser/termination.go: how a parsed session appears to have ended. The records hold the
-- fields of internal/parser/types.go that the code reads.
pub mod Orphans
pub mod Statuses
pub mod Tests
use ca_session_source.Base.{
  String, Bool, true, false, not, ◌&&◌, ◌||◌, List, [], ◌∷◌, Option, none, some, ◌==◌,
  string_equality, list_equality, nat_equality, if◌then◌else◌,
}
use ca_session_source.GoText.{Text, codes}
use ca_session_source.GoMap.{Map, put, get_or}

pub record ParsedToolCall : Type 0 where
  pub tool_use_id : String

pub record ParsedToolResult : Type 0 where
  pub tool_use_id : String

pub record ParsedMessage : Type 0 where
  pub role : Text
  pub tool_calls : List ParsedToolCall
  pub tool_results : List ParsedToolResult

pub is_awaiting_user_stop_reason : Text → Bool
is_awaiting_user_stop_reason stop_reason =
    stop_reason == codes "end_turn" || stop_reason == codes "task_complete"

-- `messages[lastAssistantIdx]` and `messages[lastAssistantIdx+1:]`; none where the index is -1.
pub last_assistant : List ParsedMessage → Option (ParsedMessage × List ParsedMessage)
last_assistant [] = none
last_assistant (m ∷ messages) = elim (last_assistant messages) [
  | some later ↦ some later
  | none ↦ if m.role == codes "assistant" then some (m, messages) else none
]

-- The inner loop that fills `resolved`.
pub resolve_results : Map String Bool → List ParsedToolResult → Map String Bool
resolve_results resolved [] = resolved
resolve_results resolved (tr ∷ results) =
    resolve_results
      (if not (tr.tool_use_id == "") then put tr.tool_use_id true resolved else resolved) results

pub resolve_messages : Map String Bool → List ParsedMessage → Map String Bool
unfolding resolve_results
resolve_messages resolved [] = resolved
resolve_messages resolved (m ∷ messages) =
    resolve_messages (resolve_results resolved m.tool_results) messages

pub has_unresolved : Map String Bool → List ParsedToolCall → Bool
has_unresolved resolved [] = false
has_unresolved resolved (tc ∷ calls) =
    let rest = has_unresolved resolved calls in
    if not (tc.tool_use_id == "") && not (get_or false tc.tool_use_id resolved) then true else rest

-- A message without calls leaves nothing unresolved; the source returns before its loops then.
pub has_orphaned_tool_call : List ParsedMessage → Bool
unfolding last_assistant resolve_messages has_unresolved
has_orphaned_tool_call messages = elim (last_assistant messages) [
  | none ↦ false
  | some (m, later) ↦ has_unresolved (resolve_messages [] later) m.tool_calls
]

-- `messages[len(messages)-1].Role == RoleAssistant`, where there are messages.
pub ends_with_assistant : List ParsedMessage → Bool
ends_with_assistant [] = false
ends_with_assistant (m ∷ []) = m.role == codes "assistant"
ends_with_assistant (m ∷ n ∷ messages) = ends_with_assistant (n ∷ messages)

abbrev pub no_messages : List ParsedMessage → Bool
no_messages [] = true
no_messages (m ∷ messages) = false

pub classify : List ParsedMessage → Text → Bool → String
unfolding has_orphaned_tool_call ends_with_assistant is_awaiting_user_stop_reason
classify messages stop_reason file_truncated =
    if file_truncated
    then "truncated"
    else if no_messages messages
    then ""
    else if has_orphaned_tool_call messages
    then "tool_call_pending"
    else if ends_with_assistant messages && is_awaiting_user_stop_reason stop_reason
    then "awaiting_user"
    else "clean"
