-- ===== src/ClaudeDag.antt =====
-- internal/parser/claude.go: the entries of a Claude session form a graph by their uuids, and parseDAG
-- walks it into a main branch and forks. The type of instants is an argument.
pub mod Children
pub mod Turns
pub mod Walk
pub mod Linear
pub mod Parents
pub mod Tests
use ca_session_source.Base.{
  ℕ, zero, suc, ◌*◌, ◌≤◌, String, Bool, true, false, not, ◌&&◌, ◌||◌, List, [], ◌∷◌, ◌++◌, Option,
  none, some, ◌==◌, string_equality, list_equality, nat_equality, if◌then◌else◌, leb, length,
  get_elem?,
}
use mathlib.Core.List.{reverse}
use ca_session_source.GoMap.{Map, get, put, get_or}
use ca_session_source.GoText.{Text, codes}

pub record DagEntry (T : Type 0) : Type 0 where
  pub uuid : Text
  pub parent_uuid : Text
  pub entry_type : Text
  pub line_index : ℕ
  pub line : Text
  pub timestamp : T

abbrev pub fork_threshold : ℕ
fork_threshold = 3

pub record Branch : Type 0 where
  pub indices : List ℕ
  pub parent_id : Text

-- The variables that the first loop of parseDAG fills.
pub record Dag : Type 0 where
  pub children : Map Text (List ℕ)
  pub uuid_set : Map Text Bool
  pub roots : List ℕ

abbrev pub no_entries : Dag
no_entries = record { children = []; uuid_set = []; roots = [] }

-- Appends to the path before the rest of a walk does.
abbrev pub onto : ℕ → Option (List ℕ × List Branch) → Option (List ℕ × List Branch)
onto current none = none
onto current (some (path, forks)) = some (current ∷ path, forks)

-- `kids[len(kids)-1]`
abbrev pub last_of : ℕ → List ℕ → ℕ
last_of kid [] = kid
last_of kid (next ∷ kids) = last_of next kids

module _ {T : Type 0} where
  -- The loop of hasDAGFork; `last_uuid` is "" where no entry with a uuid came before.
  pub fork_after : Text → List (DagEntry T) → Bool
  fork_after last_uuid [] = false
  fork_after last_uuid (e ∷ entries) =
      let unnamed = fork_after last_uuid entries in
      let named = fork_after e.uuid entries in
      if e.uuid == []
      then unnamed
      else if not (last_uuid == []) && not (e.parent_uuid == last_uuid)
      then true
      else named

  pub has_dag_fork : List (DagEntry T) → Bool
  unfolding fork_after
  has_dag_fork entries = fork_after [] entries

  -- The body of the first loop of parseDAG, for the entry at place `i`.
  pub add_entry : ℕ → DagEntry T → Dag → Dag
  add_entry i e d = record {
    uuid_set = if not (e.uuid == []) then put e.uuid true d.uuid_set else d.uuid_set;
    roots = if e.parent_uuid == [] then d.roots ++ i ∷ [] else d.roots;
    children =
        if e.parent_uuid == []
        then d.children
        else put e.parent_uuid (get_or [] e.parent_uuid d.children ++ i ∷ []) d.children;
  }

  pub add_entries : ℕ → List (DagEntry T) → Dag → Dag
  unfolding add_entry
  add_entries i [] d = d
  add_entries i (e ∷ entries) d = add_entries (suc i) entries (add_entry i e d)

  -- Every parent that an entry names is the uuid of an entry.
  pub parents_known : Map Text Bool → List (DagEntry T) → Bool
  parents_known uuid_set [] = true
  parents_known uuid_set (e ∷ entries) =
      let rest = parents_known uuid_set entries in
      if not (e.parent_uuid == []) && not (get_or false e.parent_uuid uuid_set) then false else rest

  module _ (entries : List (DagEntry T)) (children : Map Text (List ℕ)) where
    -- The loop of countUserTurns, on fuel; the stack's top comes first. A place that is out of range,
    -- where Go panics, answers as running out of fuel does.
    pub count_turns : ℕ → ℕ → List ℕ → Option ℕ
    count_turns fuel count [] = some count
    count_turns zero count (current ∷ stack) = none
    count_turns (suc fuel) count (current ∷ stack) = elim (get_elem? entries current) [
      | none ↦ none
      | some e ↦
          count_turns fuel (if e.entry_type == codes "user" then suc count else count)
            (reverse (get_or [] e.uuid children) ++ stack)
    ]

    pub count_user_turns : ℕ → ℕ → Option ℕ
    unfolding count_turns
    count_user_turns fuel start_idx = count_turns fuel 0 (start_idx ∷ [])

    module _ (session_id : Text) where
      -- The loop over the children that become forks; `walk` is walkBranch.
      pub walk_forks :
          (ℕ → Text → List Branch → Option (List ℕ × List Branch))
          → Text
          → List ℕ
          → List Branch
          → Option (List Branch)
      walk_forks walk owner_id [] forks = some forks
      walk_forks walk owner_id (kid ∷ kids) forks = elim (get_elem? entries kid) [
        | none ↦ none
        | some e ↦ elim (walk kid (session_id ++ codes "-" ++ e.uuid) forks) [
          | none ↦ none
          | some (path, forks') ↦
              walk_forks walk owner_id kids
                (forks' ++ record { indices = path; parent_id = owner_id } ∷ [])
        ]
      ]

      -- walkBranch from `current` on, with the forks found so far: the path, and the forks. Each
      -- turn of its loop is a call.
      pub walk_branch : ℕ → ℕ → ℕ → Text → List Branch → Option (List ℕ × List Branch)
      unfolding count_user_turns walk_forks
      walk_branch turn_fuel zero current owner_id forks = none
      walk_branch turn_fuel (suc fuel) current owner_id forks = elim (get_elem? entries current) [
        | none ↦ none
        | some e ↦ elim (get_or [] e.uuid children) [
          | [] ↦ some (current ∷ [], forks)
          | (kid ∷ []) ↦ onto current (walk_branch turn_fuel fuel kid owner_id forks)
          | (kid ∷ next ∷ kids) ↦ elim (count_user_turns turn_fuel kid) [
            | none ↦ none
            | some first_child_turns ↦
                if leb first_child_turns fork_threshold
                then onto current (walk_branch turn_fuel fuel (last_of next kids) owner_id forks)
                else elim (walk_forks (walk_branch turn_fuel fuel) owner_id (next ∷ kids) forks) [
                  | none ↦ none
                  | some forks' ↦ onto current (walk_branch turn_fuel fuel kid owner_id forks')
                ]
          ]
        ]
      ]
