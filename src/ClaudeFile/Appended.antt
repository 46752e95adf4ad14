-- ===== src/ClaudeFile/Appended.antt =====
-- ParseClaudeSessionFrom of internal/parser/claude.go: what it takes from the appended lines.
use mathlib.Core.List.{append_assoc, append-nil}
use mathlib.Core.Path.{ap₂}
use ca_session_source.Base.{
  ℕ, suc, ◌≡◌, refl, sym, ap, ◌∙◌, inl, inr, Bool, true, false, ◌||◌, List, [], ◌∷◌, ◌++◌, Option,
  none, some, ◌==◌, ==_iff, list_equality, nat_equality, list_beq, if◌then◌else◌, Option-cases,
  Bool-cases,
}
use ca_session_source.Base.Int.{ℤ}
use ca_session_source.GoText.{Text, codes}
use ca_session_source.ClaudeDag.{DagEntry}
use ca_session_source.ClaudeMessages.{Calls}
use ca_session_source.ClaudeSession.{QueuedCommand}
use ca_session_source.LineReader.JsonLines.{handle_all}
use ca_session_source.ClaudeFile.{NewLines, line_entry, extract_queued_command, add_line}

module _ {T : Type 0} (calls : Calls T) (extract_timestamp : Text → T) where
  abbrev is_message_line : Text → Bool
  is_message_line line =
      calls.str line "type" == codes "user" || calls.str line "type" == codes "assistant"

  -- The entries of the lines of users and assistants, numbered from `k` on.
  abbrev pub file_entries : ℕ → List (Text × ℤ) → List (DagEntry T)
  file_entries k [] = []
  file_entries k (l ∷ lines) =
      if is_message_line l.0
      then line_entry calls extract_timestamp l.0 k ∷ file_entries (suc k) lines
      else file_entries k lines

  abbrev found_command : Text → Option (QueuedCommand T)
  found_command line =
      if calls.str line "type" == codes "attachment"
      then extract_queued_command calls extract_timestamp line
      else none

  -- The queued commands of the attachments.
  abbrev pub file_commands : List (Text × ℤ) → List (QueuedCommand T)
  file_commands [] = []
  file_commands (l ∷ lines) = elim (found_command l.0) [
    | none ↦ file_commands lines
    | some qc ↦ qc ∷ file_commands lines
  ]

  no_message :
      (line : Text)
      → (calls.str line "type" == codes "attachment") ≡ true
      → is_message_line line ≡ false
  unfolding list_beq
  no_message line h =
      let e : calls.str line "type" ≡ codes "attachment" =
        (==_iff (calls.str line "type") (codes "attachment")).0 h in
      rw e refl

  abbrev entry_of : Text → ℕ → List (DagEntry T)
  entry_of line k =
      if is_message_line line then line_entry calls extract_timestamp line k ∷ [] else []

  abbrev index_after : Text → ℕ → ℕ
  index_after line k = if is_message_line line then suc k else k

  abbrev as_list {ℓ} : {A : Type ℓ} → Option A → List A
  as_list none = []
  as_list (some x) = x ∷ []

  -- What the callback adds for one line.
  add_line-found :
      (a : NewLines T) (line : Text)
      → let b = add_line calls extract_timestamp a line in
        (b.entries ≡ a.entries ++ entry_of line a.next_index)
        × (b.next_index ≡ index_after line a.next_index)
        × (b.queued_commands ≡ a.queued_commands ++ as_list (found_command line))
  unfolding add_line
  add_line-found a line = elim (Bool-cases (calls.str line "type" == codes "attachment")) [
    | inl attached ↦
        let dropped = no_message line attached in
        elim (Option-cases (extract_queued_command calls extract_timestamp line)) [
          | inl nothing ↦
              rw (attached, dropped, nothing, add_line)
                (sym (append-nil _), refl, sym (append-nil _))
          | inr (qc, found) ↦
              rw (attached, dropped, found, add_line) (sym (append-nil _), refl, refl)
        ]
    | inr other ↦ elim (Bool-cases (calls.str line "type" == codes "user")) [
      | inl user ↦ rw (other, user, add_line) (refl, refl, sym (append-nil _))
      | inr no_user ↦ elim (Bool-cases (calls.str line "type" == codes "assistant")) [
        | inl assistant ↦ rw (other, no_user, assistant, add_line) (refl, refl, sym (append-nil _))
        | inr no_assistant ↦
            rw (other, no_user, no_assistant, add_line)
              (sym (append-nil _), refl, sym (append-nil _))
      ]
    ]
  ]

  file_entries-line :
      (l : Text × ℤ) (lines : List (Text × ℤ)) (k : ℕ)
      → file_entries k (l ∷ lines) ≡ entry_of l.0 k ++ file_entries (index_after l.0 k) lines
  file_entries-line l lines k = elim (Bool-cases (is_message_line l.0)) [
    | inl kept ↦ rw kept refl
    | inr dropped ↦ rw dropped refl
  ]

  file_commands-line :
      (o : Option (QueuedCommand T)) (rest : List (QueuedCommand T))
      → (elim o as (λ _. List (QueuedCommand T)) [ none ↦ rest | some qc ↦ qc ∷ rest ])
        ≡ as_list o ++ rest
  file_commands-line none rest = refl
  file_commands-line (some qc) rest = refl

  pub add_lines-found :
      (valid : Text → Bool) (lines : List (Text × ℤ)) (a : NewLines T)
      → let b = handle_all valid (add_line calls extract_timestamp) a lines in
        (b.entries ≡ a.entries ++ file_entries a.next_index lines)
        × (b.queued_commands ≡ a.queued_commands ++ file_commands lines)
  add_lines-found valid [] a = (sym (append-nil _), sym (append-nil _))
  add_lines-found valid (l ∷ lines) a =
      let step = add_line calls extract_timestamp a l.0 in
      let (entries, index, queued) = add_line-found a l.0 in
      let rest = add_lines-found valid lines step in
      (
        rest.0
            ∙ ap₂ (λ es k. es ++ file_entries k lines) entries index
            ∙ append_assoc a.entries _ _
            ∙ ap (◌++◌ a.entries) (sym (file_entries-line l lines a.next_index)),
        rest.1
            ∙ ap (λ qs. qs ++ file_commands lines) queued
            ∙ append_assoc a.queued_commands _ _
            ∙ ap (◌++◌ a.queued_commands)
                (sym (file_commands-line (found_command l.0) (file_commands lines))),
      )
