-- ===== src/ClaudeSession/Queued.antt =====
-- mergeQueuedCommands and applyQueuedCommands of internal/parser/claude.go: prompts that were typed
-- during a tool call are merged into the messages by their timestamps.
pub mod Merge
pub mod Order
use ca_session_source.Base.{
  ℕ, zero, suc, ◌+◌, ◌≡◌, refl, sym, ap, ◌∙◌, inl, inr, String, Bool, true, false, not, ◌&&◌, ◌||◌,
  List, [], ◌∷◌, arith, if◌then◌else◌, length, map, Bool-cases, All,
}
use ca_session_source.GoText.{Text, codes}
use ca_session_source.ClaudeMessages.{ClaudeMessage, Calls}
use ca_session_source.ClaudeSession.{
  ParseResult, ParsedSession, QueuedCommand, first_message_and_user_count,
}

pub queued_command_message : {T : Type 0} → QueuedCommand T → ClaudeMessage T
queued_command_message q = record {
  ordinal = 0;
  role = codes "user";
  content = q.prompt;
  timestamp = q.timestamp;
  is_system = false;
  content_length = length q.prompt;
  tool_calls = [];
  tool_results = [];
  source_type = codes "user";
  source_subtype = codes "queued_command";
  source_uuid = [];
  stop_reason = [];
}

-- The last loop of mergeQueuedCommands.
pub renumber : {T : Type 0} → ℕ → List (ClaudeMessage T) → List (ClaudeMessage T)
renumber k [] = []
renumber k (m ∷ out) = record m { ordinal = k } ∷ renumber (suc k) out

module _ {T : Type 0} (calls : Calls T) where
  pub queued_before : QueuedCommand T → ClaudeMessage T → Bool
  queued_before q m =
      if calls.is_zero q.timestamp
      then false
      else if calls.is_zero m.timestamp
      then false
      else calls.before q.timestamp m.timestamp

  -- The loops of mergeQueuedCommands that fill `out`.
  pub merge_loops : List (ClaudeMessage T) → List (QueuedCommand T) → List (ClaudeMessage T)
  unfolding queued_command_message queued_before
  merge_loops [] queued = map queued_command_message queued
  merge_loops (m ∷ messages) [] = m ∷ messages
  merge_loops (m ∷ messages) (q ∷ queued) =
      let queued_first = merge_loops (m ∷ messages) queued in
      let message_first = merge_loops messages (q ∷ queued) in
      if queued_before q m then queued_command_message q ∷ queued_first else m ∷ message_first

  pub merge_queued_commands :
      List (ClaudeMessage T) → List (QueuedCommand T) → ℕ → List (ClaudeMessage T)
  unfolding merge_loops renumber
  merge_queued_commands messages queued start_ordinal =
      renumber start_ordinal (merge_loops messages queued)

  -- The loop of applyQueuedCommands over the bounds of the session.
  pub widen : List (QueuedCommand T) → T → T → T × T
  widen [] started_at ended_at = (started_at, ended_at)
  widen (qc ∷ queued) started_at ended_at =
      widen queued
        (if not (calls.is_zero qc.timestamp)
            && (calls.is_zero started_at || calls.before qc.timestamp started_at)
          then qc.timestamp
          else started_at)
        (if calls.before ended_at qc.timestamp then qc.timestamp else ended_at)

  pub apply_queued_commands : ParseResult T → List (QueuedCommand T) → ParseResult T
  unfolding merge_queued_commands widen first_message_and_user_count
  apply_queued_commands r queued =
      let merged = merge_queued_commands r.messages queued 0 in
      let heading = first_message_and_user_count calls merged in
      let bounds = widen queued r.session.started_at r.session.ended_at in
      record {
        session = record r.session {
          first_message = heading.0;
          user_message_count = heading.1;
          message_count = length merged;
          started_at = bounds.0;
          ended_at = bounds.1;
        };
        messages = merged;
      }
