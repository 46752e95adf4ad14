-- ===== src/ClaudeSession.antt =====
-- internal/parser/claude.go: the sessions that come out of the entries of a Claude file. The records
-- hold the fields that the code below reads or decides; those that it only copies, such as the
-- project, are left out.
pub mod Queued
pub mod Linear
pub mod Branches
pub mod Tests
use ca_session_source.Base.{
  ℕ, zero, suc, ◌+◌, String, Bool, true, false, not, ◌&&◌, ◌||◌, List, [], ◌∷◌, ◌++◌, Option, none,
  some, ◌==◌, string_equality, list_equality, nat_equality, if◌then◌else◌, length, get_elem?,
}
use ca_session_source.GoText.{Text, codes}
use ca_session_source.GoText.Space.{trim_space}
use ca_session_source.ClaudeMessages.{ClaudeMessage, Calls, extract_messages}
use ca_session_source.ClaudeDag.{
  DagEntry, Branch, Dag, no_entries, add_entries, parents_known, walk_branch, has_dag_fork,
}

pub record ParsedSession (T : Type 0) : Type 0 where
  pub id : Text
  pub parent_session_id : Text
  pub relationship_type : String
  pub first_message : Text
  pub started_at : T
  pub ended_at : T
  pub message_count : ℕ
  pub user_message_count : ℕ
  pub termination_status : String

pub record ParseResult (T : Type 0) : Type 0 where
  pub session : ParsedSession T
  pub messages : List (ClaudeMessage T)

pub record QueuedCommand (T : Type 0) : Type 0 where
  pub prompt : Text
  pub timestamp : T

-- `entries[b.indices[0]].uuid`; a branch has a first entry.
abbrev pub first_uuid : {T : Type 0} → List (DagEntry T) → Text
first_uuid [] = []
first_uuid (e ∷ entries) = e.uuid

-- The entries at the places; a place out of range, where Go panics, is passed over.
pub entries_at : {T : Type 0} → List (DagEntry T) → List ℕ → List (DagEntry T)
entries_at entries [] = []
entries_at entries (idx ∷ indices) = elim (get_elem? entries idx) [
  | none ↦ entries_at entries indices
  | some e ↦ e ∷ entries_at entries indices
]

module _ {T : Type 0} (calls : Calls T) where
  pub earlier_time : T → T → T
  earlier_time a b =
      if calls.is_zero a
      then b
      else if calls.is_zero b
      then a
      else if calls.before a b
      then a
      else b

  -- `a.After(b)` is `b.Before(a)`.
  pub later_time : T → T → T
  later_time a b =
      if calls.is_zero a
      then b
      else if calls.is_zero b
      then a
      else if calls.before b a
      then a
      else b

  -- The loop of firstMessageAndUserCount.
  pub count_users : Text → ℕ → List (ClaudeMessage T) → Text × ℕ
  count_users first_msg user_count [] = (first_msg, user_count)
  count_users first_msg user_count (m ∷ messages) =
      if m.is_system || (not (m.role == codes "user") || m.content == [])
      then count_users first_msg user_count messages
      else count_users
          (if first_msg == [] && not (calls.is_skippable m.content)
            then calls.preview m.content
            else first_msg)
          (suc user_count) messages

  pub first_message_and_user_count : List (ClaudeMessage T) → Text × ℕ
  unfolding count_users
  first_message_and_user_count messages = count_users [] 0 messages

  -- A session with its messages: what parseLinear and the loop of parseDAG build alike.
  pub build_session : Text → Text → String → T → T → List (ClaudeMessage T) → ParseResult T
  unfolding first_message_and_user_count
  build_session sid parent rel started_at ended_at messages =
      let annotated = calls.annotate messages in
      let heading = first_message_and_user_count annotated in
      record {
        session = record {
          id = sid;
          parent_session_id = parent;
          relationship_type = rel;
          first_message = heading.0;
          started_at = started_at;
          ended_at = ended_at;
          message_count = length annotated;
          user_message_count = heading.1;
          termination_status = "";
        };
        messages = annotated;
      }

  module _ (session_id parent_session_id : Text) (global_start global_end : T) where
    pub parse_linear : List (DagEntry T) → List (ParseResult T)
    unfolding build_session earlier_time later_time
    parse_linear entries =
        let extracted = extract_messages calls entries in
        build_session session_id parent_session_id "" (earlier_time global_start extracted.1)
          (later_time global_end extracted.2) extracted.0
        ∷ []

    -- The results loop of parseDAG for `i > 0`.
    pub fork_result : List (DagEntry T) → Branch → ParseResult T
    unfolding build_session entries_at
    fork_result entries b =
        let branch_entries = entries_at entries b.indices in
        let extracted = extract_messages calls branch_entries in
        build_session (session_id ++ codes "-" ++ first_uuid branch_entries) b.parent_id "fork"
          extracted.1 extracted.2 extracted.0

    pub fork_results : List (DagEntry T) → List Branch → List (ParseResult T)
    unfolding fork_result
    fork_results entries [] = []
    fork_results entries (b ∷ branches) = fork_result entries b ∷ fork_results entries branches

    -- The results loop for `i == 0`, the main branch.
    pub main_result : List (DagEntry T) → List ℕ → ParseResult T
    unfolding build_session earlier_time later_time entries_at
    main_result entries indices =
        let extracted = extract_messages calls (entries_at entries indices) in
        build_session session_id parent_session_id "" (earlier_time global_start extracted.1)
          (later_time global_end extracted.2) extracted.0

    -- parseDAG, on fuel for its walks.
    pub parse_dag : ℕ → ℕ → List (DagEntry T) → Option (List (ParseResult T))
    unfolding parse_linear main_result fork_results
    parse_dag turn_fuel fuel entries =
        let d = add_entries 0 entries no_entries in
        elim d.roots [
          | root ∷ [] ↦
              if parents_known d.uuid_set entries
              then elim (walk_branch entries d.children session_id turn_fuel fuel root session_id
                  []) [
                    | none ↦ none
                    | some (main_path, forks) ↦
                        some (main_result entries main_path ∷ fork_results entries forks)
                  ]
              else some (parse_linear entries)
          | _ ↦ some (parse_linear entries)
        ]
