-- ===== src/ClaudeDag/Tests.antt =====
-- parseDAG's walk on a small file: a first answer is retried once, and the retry is followed; later a
-- long branch is forked.
use ca_session_source.Base.{none}
use ca_session_source.Base.{
  ℕ, zero, suc, ap, ◌≡◌, ◌≢◌, refl, arith, false, ◌==◌, ==_iff, All, String, List, [], ◌∷◌, some,
  list_equality, nat_equality, list_beq,
}
use ca_session_source.GoMap.{get, get_or, put}
use ca_session_source.GoText.{Text, codes}
use ca_session_source.ClaudeDag.{Branch, onto}
use ca_session_source.ClaudeDag.{DagEntry, has_dag_fork, count_user_turns, walk_branch, add_entries}
use ca_session_source.ClaudeDag.Children.{dag, ParentsFirst}
use ca_session_source.ClaudeDag.Linear.{IsNamed, IsDistinct}
use ca_session_source.ClaudeDag.Parents.{parents_first-ParentsFirst}

abbrev pub entry : String → String → String → DagEntry ℕ
entry uuid parent_uuid entry_type = record {
  uuid = codes uuid;
  parent_uuid = codes parent_uuid;
  entry_type = codes entry_type;
  line_index = 0;
  line = codes uuid;
  timestamp = 0;
}

-- `a` has the children `b` and `c`, `d` the children `e` and `i`.
abbrev pub tree : List (DagEntry ℕ)
tree =
    entry "a" "" "user"
    ∷ entry "b" "a" "user"
    ∷ entry "c" "a" "assistant"
    ∷ entry "d" "c" "user"
    ∷ entry "e" "d" "user"
    ∷ entry "f" "e" "user"
    ∷ entry "g" "f" "user"
    ∷ entry "h" "g" "user"
    ∷ entry "i" "d" "user"
    ∷ []

abbrev pub chain : List (DagEntry ℕ)
chain = entry "a" "" "user" ∷ entry "b" "a" "assistant" ∷ entry "c" "b" "user" ∷ []

turns_below_e : count_user_turns tree (dag tree).children 9 4 ≡ some 4
unfolding count_user_turns add_entries get get_or put list_beq
turns_below_e = refl

tree_walk :
    walk_branch tree (dag tree).children (codes "s") 12 9 0 (codes "s") []
    ≡ some (0 ∷ 2 ∷ 3 ∷ 4 ∷ 5 ∷ 6 ∷ 7 ∷ [], record { indices = 8 ∷ []; parent_id = codes "s" } ∷ [])
unfolding walk_branch add_entries get get_or put list_beq
tree_walk = refl

pub tree-ParentsFirst : ParentsFirst tree
unfolding list_beq
tree-ParentsFirst = parents_first-ParentsFirst tree refl

pub chain_no_fork : has_dag_fork chain ≡ false
unfolding has_dag_fork list_beq
chain_no_fork = refl

text_ne : (a b : Text) → (a == b) ≡ false → a ≢ b
text_ne a b h e = ground (arith, ==_iff a b)

pub chain-IsNamed : All IsNamed chain
unfolding list_beq
chain-IsNamed = (text_ne _ _ refl, (text_ne _ _ refl, (text_ne _ _ refl, tt)))

pub chain-IsDistinct : IsDistinct chain
unfolding list_beq
chain-IsDistinct = ((text_ne _ _ refl, (text_ne _ _ refl, tt)), ((text_ne _ _ refl, tt), (tt, tt)))

-- The third entry has the uuid of the first again, and names the second as its parent.
abbrev ring : List (DagEntry ℕ)
ring = entry "a" "" "user" ∷ entry "b" "a" "assistant" ∷ entry "a" "b" "user" ∷ []

-- The walk goes from the second to the third and back: no fuel is enough.
ring_walk :
    (turn_fuel fuel : ℕ) (owner : Text) (forks : List Branch)
    → let walk = walk_branch ring (dag ring).children (codes "s") turn_fuel fuel in
      (walk 1 owner forks ≡ none) × (walk 2 owner forks ≡ none)
unfolding walk_branch add_entries get get_or put list_beq
ring_walk turn_fuel zero owner forks = (refl, refl)
ring_walk turn_fuel (suc fuel) owner forks =
    let (from_second, from_third) = ring_walk turn_fuel fuel owner forks in
    (ap (onto 1) from_third, ap (onto 2) from_second)
