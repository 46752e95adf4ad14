-- ===== src/ClaudeFile/Tests.antt =====
-- A file to which two lines were appended: an answer of the assistant, and a prompt that was queued.
use ca_session_source.Base.{
  ℕ, ◌≡◌, ◌⊎◌, refl, inr, Bool, true, false, String, List, [], ◌∷◌, none, some, arith, ◌==◌,
  string_equality, list_equality, nat_equality, if◌then◌else◌,
}
use ca_session_source.Base.Int.{ℤ, pos}
use ca_session_source.GoText.{Text, codes}
use ca_session_source.LineReader.{Chunk, ReadError, eof}
use ca_session_source.LineReader.JsonLines.{json_lines, last_place}
use ca_session_source.LineReader.Reading.{final_err}
use ca_session_source.ClaudeDag.Tests.{chain}
use ca_session_source.ClaudeMessages.{ClaudeMessage, Calls}
use ca_session_source.ClaudeSession.Tests.{number_calls}
use ca_session_source.ClaudeFile.{IncrementalError, parse_claude_session_from}
use ca_session_source.ClaudeFile.Appended.{file_entries, file_commands}
use ca_session_source.ClaudeFile.Outcomes.{
  stored_count, IsOutcome, parse_claude_session_from-IsOutcome,
}

-- A line "d" is the assistant's, a line "q" an attachment.
abbrev field : Text → String → Text
field line path =
    if line == codes "d"
    then if path == "type"
      then codes "assistant"
      else if path == "uuid"
      then codes "d"
      else if path == "parentUuid"
      then codes "c"
      else []
    else if path == "type"
    then codes "attachment"
    else if path == "attachment.type"
    then codes "queued_command"
    else codes "wait"

abbrev line_calls : Calls ℕ
line_calls = record number_calls { str = field }

abbrev appended : List Chunk
appended =
    record { bytes = codes "d"; is_prefix = false; n = 4; buffered = 2 }
    ∷ record { bytes = codes "q"; is_prefix = false; n = 4; buffered = 0 }
    ∷ []

abbrev every : Text → Bool
every line = true

abbrev stamp : Text → ℕ
stamp line = 8

abbrev open_it : String → String ⊎ String
open_it path = inr path

abbrev seek_it : String → ℕ → String ⊎ (List Chunk × ReadError)
seek_it path offset = inr (appended, eof)

parse_claude_session_from-IsOutcome_example :
    (answer : IncrementalError ⊎ (List (ClaudeMessage ℕ) × ℕ × ℤ)) × (parse_claude_session_from
        line_calls stamp every open_it seek_it 9 "s.jsonl" 70
        (stored_count line_calls chain)
      ≡ some answer)
    × IsOutcome line_calls chain
        (file_entries line_calls stamp
          (stored_count line_calls chain)
          (json_lines every appended eof))
        (file_commands line_calls stamp (json_lines every appended eof))
        (last_place (pos 0) (json_lines every appended eof))
        (final_err eof none)
        answer
parse_claude_session_from-IsOutcome_example =
    parse_claude_session_from-IsOutcome line_calls stamp every open_it seek_it chain 9 "s.jsonl" 70
      "s.jsonl" appended eof refl refl (omega arith)
