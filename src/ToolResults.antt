-- ===== src/ToolResults.antt =====
-- internal/sync/engine.go: tool results are written into the calls that they answer, and messages
-- that held nothing else are dropped. `decode_content`, which takes the text out of a result's JSON
-- (parser.DecodeContent), is an argument.
pub mod Places
pub mod Writes
pub mod Pairing
pub mod Tests
use ca_session_source.Base.{
  ℕ, zero, suc, String, Bool, true, false, not, ◌&&◌, List, [], ◌∷◌, ◌++◌, Option, none, some, ◌==◌,
  string_equality, nat_equality, list_equality, if◌then◌else◌, ltb, length,
}
use ca_session_source.GoMap.{Map, get, put, get_or}
use ca_session_source.GoText.{Text, codes}
use ca_session_source.GoText.Space.{trim_space}
use ca_session_source.MessageRows.{ToolResultEvent, ToolResult, ToolCall, Message}

-- The inner loop that fills `idx`: a pointer to a call is the place of its message and its own place
-- in it.
pub index_calls : ℕ → ℕ → Map String (ℕ × ℕ) → List ToolCall → Map String (ℕ × ℕ)
index_calls i j idx [] = idx
index_calls i j idx (tc ∷ calls) =
    index_calls i (suc j)
      (if not (tc.tool_use_id == "") then put tc.tool_use_id (i, j) idx else idx) calls

pub index_messages : ℕ → Map String (ℕ × ℕ) → List Message → Map String (ℕ × ℕ)
unfolding index_calls
index_messages i idx [] = idx
index_messages i idx (m ∷ msgs) = index_messages (suc i) (index_calls i 0 idx m.tool_calls) msgs

-- A write through a pointer.
pub update_call : ℕ → (ToolCall → ToolCall) → List ToolCall → List ToolCall
update_call j f [] = []
update_call zero f (tc ∷ calls) = f tc ∷ calls
update_call (suc j) f (tc ∷ calls) = tc ∷ update_call j f calls

pub update_message : ℕ → ℕ → (ToolCall → ToolCall) → List Message → List Message
unfolding update_call
update_message i j f [] = []
update_message zero j f (m ∷ msgs) = record m { tool_calls = update_call j f m.tool_calls } ∷ msgs
update_message (suc i) j f (m ∷ msgs) = m ∷ update_message i j f msgs

module _ (decode_content : Text → Text) (blocked : Map String Bool) where
  pub set_result : ToolResult → ToolCall → ToolCall
  set_result tr tc = record tc {
    result_content_length = tr.content_length;
    result_content =
        if not (get_or false tc.category blocked)
        then decode_content tr.content_raw
        else tc.result_content;
  }

  -- The inner loop over a message's results; `msgs` is what the pointers point into.
  pub pair_results : Map String (ℕ × ℕ) → List ToolResult → List Message → List Message
  unfolding set_result update_message
  pair_results idx [] msgs = msgs
  pair_results idx (tr ∷ results) msgs = pair_results idx results (elim (get tr.tool_use_id idx) [
    | none ↦ msgs
    | some p ↦ update_message p.0 p.1 (set_result tr) msgs
  ])

  -- The outer loop; the results that it reads are not written by it.
  pub pair_messages : Map String (ℕ × ℕ) → List Message → List Message → List Message
  unfolding pair_results
  pair_messages idx [] msgs = msgs
  pair_messages idx (m ∷ rest) msgs = pair_messages idx rest (pair_results idx m.tool_results msgs)

  pub pair_tool_results : List Message → List Message
  unfolding index_messages pair_messages
  pair_tool_results msgs =
      let idx = index_messages 0 [] msgs in
      if length idx == 0 then msgs else pair_messages idx msgs msgs
