-- ===== src/ClaudeFile/Outcomes.antt =====
-- ParseClaudeSessionFrom of internal/parser/claude.go: what it answers for the appended lines.
use ca_session_source.Base.{
  ℕ, suc, ◌+◌, ◌≤◌, ◌≡◌, refl, sym, ap, subst, ◌∙◌, inl, inr, ◌⊎◌, String, Bool, true, false, not,
  ◌&&◌, List, [], ◌∷◌, ◌++◌, Option, none, some, ◌==◌, nat_equality, arith, if◌then◌else◌, length,
  append-nil, Bool-cases, Option-cases,
}
use ca_session_source.Base.Int.{ℤ, pos}
use ca_session_source.GoText.{Text}
use ca_session_source.LineReader.{
  Chunk, ReadError, FileError, read_failed, read_error, read_jsonl_from,
}
use ca_session_source.LineReader.JsonLines.{
  json_lines, json_fuel, json_outcome, handle_all, last_place, read_jsonl_from_lem,
}
use ca_session_source.LineReader.Reading.{final_err}
use ca_session_source.ClaudeDag.{DagEntry, has_dag_fork}
use ca_session_source.ClaudeDag.Linear.{has_dag_fork-nil}
use ca_session_source.ClaudeMessages.{ClaudeMessage, Calls, extract_messages, extract_messages_from}
use ca_session_source.ClaudeMessages.Incremental.{
  extract_messages_from-append, extract_messages_from-ordinals, extract_messages-from_zero,
}
use ca_session_source.ClaudeSession.{QueuedCommand}
use ca_session_source.ClaudeSession.Queued.{merge_queued_commands}
use ca_session_source.ClaudeSession.Queued.Merge.{merge_queued_commands-none}
use ca_session_source.ClaudeFile.{
  IncrementalError, reading, dag_detected, needs_full_parse, NewLines, add_line, parse_appended,
  needs_claude_full_parse, end_with_queued, parse_claude_session_from,
}
use ca_session_source.ClaudeFile.Appended.{file_entries, file_commands, add_lines-found}

module _ {T : Type 0} (calls : Calls T) (stored : List (DagEntry T)) where
  -- The number of messages that the stored entries have.
  abbrev pub stored_count : ℕ
  stored_count = length (extract_messages calls stored).0

  -- An answer for the new entries, the queued commands, the place behind the last line and the error
  -- that ended the lines.
  pub data IsOutcome (entries : List (DagEntry T)) (queued : List (QueuedCommand T)) (place : ℤ)
      (err : Option String) : IncrementalError ⊎ (List (ClaudeMessage T) × T × ℤ) → Type 0 where
    unreadable :
        (e : String)
        → err ≡ some e
        → IsOutcome entries queued place err (inl (reading (read_failed e)))
    forked :
        err ≡ none
        → has_dag_fork entries ≡ true
        → IsOutcome entries queued place err (inl dag_detected)
    full_needed :
        err ≡ none
        → has_dag_fork entries ≡ false
        → needs_claude_full_parse calls entries ≡ true
        → IsOutcome entries queued place err (inl needs_full_parse)
    parsed :
        (fresh : List (ClaudeMessage T)) (ended_at : T)
        → err ≡ none
        → has_dag_fork entries ≡ false
        → needs_claude_full_parse calls entries ≡ false
        → (extract_messages calls (stored ++ entries)).0
          ≡ (extract_messages calls stored).0 ++ fresh
        → IsOutcome entries queued place err
            (inr (merge_queued_commands calls fresh queued stored_count, ended_at, place))

  -- The messages of the new entries come after those of the stored ones.
  extract_messages-stored :
      (entries : List (DagEntry T))
      → (extract_messages calls (stored ++ entries)).0
        ≡ (extract_messages calls stored).0 ++ (extract_messages_from calls entries stored_count).0
  extract_messages-stored entries =
      let whole = extract_messages-from_zero calls in
      ap (λ r. r.0) (whole (stored ++ entries))
      ∙ extract_messages_from-append calls stored entries 0
      ∙ (let count : 0 + length (extract_messages_from calls stored 0).0
              ≡ length (extract_messages_from calls stored 0).0 =
            omega arith in
          rw (whole stored, count) refl)

  -- Messages are merged with queued commands only where there are some; it makes no difference.
  merged_always :
      (entries : List (DagEntry T)) (queued : List (QueuedCommand T))
      → merge_queued_commands calls
          (extract_messages_from calls entries stored_count).0
          queued
          stored_count
        ≡ (if not (length queued == 0)
            then merge_queued_commands calls
                (extract_messages_from calls entries stored_count).0
                queued
                stored_count
            else (extract_messages_from calls entries stored_count).0)
  merged_always entries [] =
      merge_queued_commands-none calls (extract_messages_from calls entries stored_count).0
        stored_count (extract_messages_from-ordinals calls entries stored_count)
  merged_always entries (q ∷ queued) =
      let some_queued : (length (q ∷ queued) == 0) ≡ false = ground arith in rw some_queued refl

  nothing_new :
      (entries : List (DagEntry T)) (queued : List (QueuedCommand T)) (place : ℤ) (latest_ts : T)
      → length entries ≡ 0
      → length queued ≡ 0
      → IsOutcome entries queued place none (inr ([], latest_ts, place))
  unfolding needs_claude_full_parse
  nothing_new (e ∷ entries) queued place latest_ts h k = absurd (omega arith)
  nothing_new [] (q ∷ queued) place latest_ts h k = absurd (omega arith)
  nothing_new [] [] place latest_ts h k =
      let old =
        ap (λ l. (extract_messages calls l).0) (append-nil stored)
        ∙ sym (append-nil (extract_messages calls stored).0) in
      subst (λ l. IsOutcome [] [] place none (inr (l, latest_ts, place)))
        (merge_queued_commands-none calls [] stored_count refl)
        (parsed [] latest_ts refl (has_dag_fork-nil T) refl old)

  parse_appended-IsOutcome :
      (a : NewLines T) (place : ℤ)
      → IsOutcome a.entries a.queued_commands place none (parse_appended calls a stored_count place)
  unfolding parse_appended
  parse_appended-IsOutcome a place =
      let last =
        end_with_queued calls a.queued_commands
          (extract_messages_from calls a.entries stored_count).2 in
      let ended_at = if calls.before last a.latest_ts then a.latest_ts else last in
      elim (Bool-cases (length a.entries == 0 && length a.queued_commands == 0)) [
        | inl empty ↦ rw empty (
            nothing_new a.entries a.queued_commands place a.latest_ts (ground arith) (ground arith))
        | inr some_lines ↦ elim (Bool-cases (has_dag_fork a.entries)) [
          | inl fork ↦ rw (some_lines, fork) (forked refl fork)
          | inr no_fork ↦ elim (Bool-cases (needs_claude_full_parse calls a.entries)) [
            | inl needed ↦ rw (some_lines, no_fork, needed) (full_needed refl no_fork needed)
            | inr not_needed ↦
                rw (some_lines, no_fork, not_needed)
                  (subst
                    (λ l.
                      IsOutcome a.entries a.queued_commands place none (inr (l, ended_at, place)))
                    (merged_always a.entries a.queued_commands)
                    (parsed _ ended_at refl no_fork not_needed (extract_messages-stored a.entries)))
          ]
        ]
      ]

  same-IsOutcome :
      {es es' : List (DagEntry T)} {qs qs' : List (QueuedCommand T)} (place : ℤ)
      {err err' : Option String} (answer : IncrementalError ⊎ (List (ClaudeMessage T) × T × ℤ))
      → es ≡ es'
      → qs ≡ qs'
      → err ≡ err'
      → IsOutcome es qs place err answer
      → IsOutcome es' qs' place err' answer
  same-IsOutcome {es = es} {es' = es'} {qs = qs} {qs' = qs'} place {err = err} {err' = err'} answer
        e q h o =
      subst (λ l. IsOutcome l qs' place err' answer) e
        (subst (λ l. IsOutcome es l place err' answer) q
          (subst (λ r. IsOutcome es qs place r answer) h o))

module _ {κ} {T : Type 0} {F : Type κ} (calls : Calls T) (extract_timestamp : Text → T)
    (valid : Text → Bool) (open_file : String → String ⊎ F)
    (seek : F → ℕ → String ⊎ (List Chunk × ReadError)) where
  abbrev no_lines : ℕ → NewLines T
  no_lines start = record {
    entries = [];
    queued_commands = [];
    next_index = start;
    latest_ts = calls.zero_time;
  }

  read_appended :
      (fuel : ℕ) (path : String) (offset start : ℕ) (f : F) (chunks : List Chunk)
      (ending : ReadError)
      → open_file path ≡ inr f
      → seek f offset ≡ inr (chunks, ending)
      → suc (suc (length chunks)) ≤ fuel
      → let good = json_lines valid chunks ending in
        read_jsonl_from valid
          (add_line calls extract_timestamp)
          open_file
          seek
          fuel
          path
          offset
          (no_lines start)
        ≡ some (
          handle_all valid (add_line calls extract_timestamp) (no_lines start) good,
          last_place (pos 0) good,
          read_error (final_err ending none),
        )
  read_appended fuel path offset start f chunks ending opened sought enough =
      let add = add_line calls extract_timestamp in
      let enough' : json_fuel valid add open_file seek path offset ≤ fuel =
        rw (json_fuel, opened, sought) enough in
      read_jsonl_from_lem valid add open_file seek fuel path offset (no_lines start) enough'
      ∙ rw (json_outcome, opened, sought) refl

  abbrev after_reading :
      ℕ
      → Option (NewLines T × ℤ × Option FileError)
      → Option (IncrementalError ⊎ (List (ClaudeMessage T) × T × ℤ))
  after_reading start read = elim read [
    | none ↦ none
    | some (a, consumed, some err) ↦ some (inl (reading err))
    | some (a, consumed, none) ↦ some (parse_appended calls a start consumed)
  ]

  parse_claude_session_from-after_reading :
      (fuel : ℕ) (path : String) (offset start : ℕ)
      → parse_claude_session_from calls extract_timestamp valid open_file seek fuel path offset
          start
        ≡ after_reading start (
            read_jsonl_from valid
              (add_line calls extract_timestamp)
              open_file
              seek
              fuel
              path
              offset
              (no_lines start))
  unfolding parse_claude_session_from
  parse_claude_session_from-after_reading fuel path offset start = refl

  -- ParseClaudeSessionFrom, with the number of messages of the stored entries as its start ordinal
  -- and enough fuel, answers for the entries and the queued commands of the appended lines, if the
  -- file is opened and the offset sought: the error of reading, or that the entries fork, or that
  -- they need a full parse, each exactly then. Otherwise its messages, but for the queued commands
  -- merged into them, are what a full extraction of the stored and the new entries adds to that of
  -- the stored ones, and the bytes it counts end with the last line that was read.
  pub parse_claude_session_from-IsOutcome :
      (stored : List (DagEntry T)) (fuel : ℕ) (path : String) (offset : ℕ) (f : F)
      (chunks : List Chunk) (ending : ReadError)
      → open_file path ≡ inr f
      → seek f offset ≡ inr (chunks, ending)
      → suc (suc (length chunks)) ≤ fuel
      → let good = json_lines valid chunks ending in
        (answer : IncrementalError ⊎ (List (ClaudeMessage T) × T × ℤ)) × (parse_claude_session_from
            calls extract_timestamp valid open_file seek fuel path offset
            (stored_count calls stored)
          ≡ some answer)
        × IsOutcome calls stored
            (file_entries calls extract_timestamp (stored_count calls stored) good)
            (file_commands calls extract_timestamp good)
            (last_place (pos 0) good)
            (final_err ending none)
            answer
  parse_claude_session_from-IsOutcome stored fuel path offset f chunks ending opened sought enough =
      let start = stored_count calls stored in
      let good = json_lines valid chunks ending in
      let place = last_place (pos 0) good in
      let a = handle_all valid (add_line calls extract_timestamp) (no_lines start) good in
      let read = read_appended fuel path offset start f chunks ending opened sought enough in
      let step = parse_claude_session_from-after_reading fuel path offset start in
      let (entries, queued) = add_lines-found calls extract_timestamp valid good (no_lines start) in
      elim (Option-cases (final_err ending none)) [
        | inr (e, failed) ↦
            let read_err = read ∙ ap (λ e. some (a, place, read_error e)) failed in
            (
              inl (reading (read_failed e)),
              step ∙ ap (after_reading start) read_err,
              unreadable e failed,
            )
        | inl fine ↦
            let read_all = read ∙ ap (λ e. some (a, place, read_error e)) fine in
            let answer = parse_appended calls a start place in
            (
              answer,
              step ∙ ap (after_reading start) read_all,
              same-IsOutcome calls stored place answer entries queued (sym fine)
                  (parse_appended-IsOutcome calls stored a place),
            )
      ]
