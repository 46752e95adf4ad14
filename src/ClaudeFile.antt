-- ===== src/ClaudeFile.antt =====
-- ParseClaudeSessionFrom of internal/parser/claude.go: the lines that were appended to a Claude file
-- are parsed on their own where they allow it. extractTimestamp is an argument.
pub mod Appended
pub mod Outcomes
pub mod Tests
use ca_session_source.Base.{
  ℕ, zero, suc, String, Bool, true, false, not, ◌&&◌, ◌||◌, ◌⊎◌, inl, inr, List, [], ◌∷◌, ◌++◌,
  Option, none, some, ◌==◌, list_equality, nat_equality, if◌then◌else◌, length,
}
use ca_session_source.Base.Int.{ℤ}
use ca_session_source.GoText.{Text, codes}
use ca_session_source.GoText.Space.{trim_space}
use ca_session_source.LineReader.{Chunk, ReadError, FileError, read_jsonl_from}
use ca_session_source.ClaudeDag.{DagEntry, has_dag_fork}
use ca_session_source.ClaudeMessages.{ClaudeMessage, Calls, extract_messages_from}
use ca_session_source.ClaudeSession.{QueuedCommand}
use ca_session_source.ClaudeSession.Queued.{merge_queued_commands}

pub data IncrementalError : Type 0 where
  reading : FileError → IncrementalError
  dag_detected : IncrementalError
  needs_full_parse : IncrementalError

-- The variables that the callback of readJSONLFrom writes.
pub record NewLines (T : Type 0) : Type 0 where
  pub entries : List (DagEntry T)
  pub queued_commands : List (QueuedCommand T)
  pub next_index : ℕ
  pub latest_ts : T

module _ {T : Type 0} (calls : Calls T) where
  pub later_stamp : T → T → T
  later_stamp ts latest_ts =
      if not (calls.is_zero ts) && calls.before latest_ts ts then ts else latest_ts

  -- The loop of needsClaudeFullParse.
  pub needs_full_after : Text → List (DagEntry T) → Bool
  needs_full_after prev_assistant_mid [] = false
  needs_full_after prev_assistant_mid (e ∷ entries) =
      let mid = calls.str e.line "message.id" in
      let after_assistant = needs_full_after mid entries in
      let after_other = needs_full_after [] entries in
      if e.entry_type == codes "user" && not (calls.str e.line "toolUseResult.agentId" == [])
      then true
      else if e.entry_type == codes "assistant"
      then if not (mid == []) && mid == prev_assistant_mid then true else after_assistant
      else after_other

  pub needs_claude_full_parse : List (DagEntry T) → Bool
  unfolding needs_full_after
  needs_claude_full_parse entries = needs_full_after [] entries

  -- The loop over the queued commands that moves `endedAt`.
  pub end_with_queued : List (QueuedCommand T) → T → T
  end_with_queued [] ended_at = ended_at
  end_with_queued (qc ∷ queued) ended_at =
      end_with_queued queued (if calls.before ended_at qc.timestamp then qc.timestamp else ended_at)

  -- What follows the reading of the lines.
  pub parse_appended : NewLines T → ℕ → ℤ → IncrementalError ⊎ (List (ClaudeMessage T) × T × ℤ)
  unfolding needs_claude_full_parse end_with_queued
  parse_appended a start_ordinal consumed =
      if length a.entries == 0 && length a.queued_commands == 0
      then inr ([], a.latest_ts, consumed)
      else if has_dag_fork a.entries
      then inl dag_detected
      else if needs_claude_full_parse a.entries
      then inl needs_full_parse
      else let extracted = extract_messages_from calls a.entries start_ordinal in
        let msgs =
          if not (length a.queued_commands == 0)
          then merge_queued_commands calls extracted.0 a.queued_commands start_ordinal
          else extracted.0 in
        let ended_at = end_with_queued a.queued_commands extracted.2 in
        inr (msgs, (if calls.before ended_at a.latest_ts then a.latest_ts else ended_at), consumed)

module _ {T : Type 0} (calls : Calls T) (extract_timestamp : Text → T) where
  pub extract_queued_command : Text → Option (QueuedCommand T)
  extract_queued_command line =
      let prompt = calls.str line "attachment.prompt" in
      if not (calls.str line "attachment.type" == codes "queued_command")
      then none
      else if trim_space prompt == []
      then none
      else some (record { prompt = prompt; timestamp = extract_timestamp line })

  pub line_entry : Text → ℕ → DagEntry T
  line_entry line line_index = record {
    uuid = calls.str line "uuid";
    parent_uuid = calls.str line "parentUuid";
    entry_type = calls.str line "type";
    line_index = line_index;
    line = line;
    timestamp = extract_timestamp line;
  }

  -- The callback.
  pub add_line : NewLines T → Text → NewLines T
  unfolding extract_queued_command line_entry later_stamp
  add_line a line =
      let entry_type = calls.str line "type" in
      let b = record a { latest_ts = later_stamp calls (extract_timestamp line) a.latest_ts } in
      if entry_type == codes "attachment"
      then elim (extract_queued_command line) as (λ _. NewLines T) [
        | none ↦ b
        | some qc ↦ record b { queued_commands = b.queued_commands ++ qc ∷ [] }
      ]
      else if not (entry_type == codes "user") && not (entry_type == codes "assistant")
      then b
      else record b {
        entries = b.entries ++ line_entry line b.next_index ∷ [];
        next_index = suc b.next_index;
      }

  -- On fuel for the lines of the file.
  pub parse_claude_session_from {κ} :
      {F : Type κ} (valid : Text → Bool) (open_file : String → String ⊎ F)
      (seek : F → ℕ → String ⊎ (List Chunk × ReadError))
      → ℕ
      → String
      → ℕ
      → ℕ
      → Option (IncrementalError ⊎ (List (ClaudeMessage T) × T × ℤ))
  unfolding add_line parse_appended
  parse_claude_session_from valid open_file seek fuel path offset start_ordinal =
      let nothing : NewLines T = record {
        entries = [];
        queued_commands = [];
        next_index = start_ordinal;
        latest_ts = calls.zero_time;
      } in
      elim (read_jsonl_from valid add_line open_file seek fuel path offset nothing) [
        | none ↦ none
        | some (a, consumed, some err) ↦ some (inl (reading err))
        | some (a, consumed, none) ↦ some (parse_appended calls a start_ordinal consumed)
      ]
