-- ===== src/ClaudeSession/Branches.antt =====
-- parseDAG of internal/parser/claude.go on a file where parents come first: its branches.
use ca_session_source.Base.{
  ℕ, zero, suc, ◌≤◌, ◌<◌, ◌≡◌, ◌⊎◌, refl, sym, subst, ◌∙◌, inl, inr, true, List, [], ◌∷◌, some,
  arith, length, get_elem?, Bool-cases, All,
}
use ca_session_source.GoText.{Text}
use ca_session_source.ClaudeDag.{DagEntry, Branch, walk_branch, parents_known}
use ca_session_source.ClaudeDag.Children.{ParentsFirst, IsRoot, root_places-IsRoot, dag, dag-roots}
use ca_session_source.ClaudeDag.Turns.{two_pow}
use ca_session_source.ClaudeDag.Walk.{IsPath, IsFork, walk_branch-some}
use ca_session_source.ClaudeMessages.{Calls}
use ca_session_source.ClaudeSession.{
  ParseResult, parse_linear, parse_dag, main_result, fork_results,
}

get_elem?-lt {ℓ} :
    {A : Type ℓ} (xs : List A) (i : ℕ) (x : A) → get_elem? xs i ≡ some x → i < length xs
get_elem?-lt [] i x h = absurd (cc)
get_elem?-lt (y ∷ xs) zero x h = omega arith
get_elem?-lt (y ∷ xs) (suc i) x h = omega (arith, get_elem?-lt xs i x h)

module _ {T : Type 0} (calls : Calls T) (session_id parent_session_id : Text)
    (global_start global_end : T) (entries : List (DagEntry T)) where
  abbrev linear : List (ParseResult T)
  linear = parse_linear calls session_id parent_session_id global_start global_end entries

  -- The results for a walk.
  abbrev pub walked_results : List ℕ → List Branch → List (ParseResult T)
  walked_results path forks =
      main_result calls session_id parent_session_id global_start global_end entries path
      ∷ fork_results calls session_id parent_session_id global_start global_end entries forks

  pub parse_dag-walked :
      (turn_fuel fuel root : ℕ) (path : List ℕ) (forks : List Branch)
      → (dag entries).roots ≡ root ∷ []
      → parents_known (dag entries).uuid_set entries ≡ true
      → walk_branch entries (dag entries).children session_id turn_fuel fuel root session_id []
        ≡ some (path, forks)
      → parse_dag calls session_id parent_session_id global_start global_end turn_fuel fuel entries
        ≡ some (walked_results path forks)
  unfolding parse_dag
  parse_dag-walked turn_fuel fuel root path forks e known walked =
      rw (e, known, walked, parse_dag) refl

  -- The results are those of a main path that begins at an entry without a parent, and of forks.
  abbrev pub AreBranches : List (ParseResult T) → Type 0
  AreBranches results =
      (root : ℕ) × (path : List ℕ) × (forks : List Branch) × IsRoot 0 entries root
      × IsPath entries root path
      × All (IsFork entries) forks
      × (results ≡ walked_results path forks)

  -- If no entry stands before an entry whose uuid it names as its parent, parseDAG comes to an end:
  -- fuel of the number of entries for the walk, and of 2 to that power for each count of user
  -- turns, is enough. It answers what parseLinear does, or a result for a main path and one for
  -- each fork. The main path begins with the entry without a parent, a fork with an entry that has
  -- one in the file, and in both each further entry names the one before it as its parent.
  pub parse_dag-some :
      ParentsFirst entries
      → (turn_fuel fuel : ℕ) → two_pow (length entries) ≤ turn_fuel
      → length entries ≤ fuel
      → (results : List (ParseResult T)) × (parse_dag calls session_id parent_session_id
            global_start global_end turn_fuel fuel entries
          ≡ some results)
        × ((results ≡ linear) ⊎ AreBranches results)
  unfolding parse_dag
  parse_dag-some first turn_fuel fuel turns_enough enough = at_roots (dag entries).roots refl
    where
      Answered : Type 0
      Answered =
          (results : List (ParseResult T)) × (parse_dag calls session_id parent_session_id
              global_start global_end turn_fuel fuel entries
            ≡ some results)
          × ((results ≡ linear) ⊎ AreBranches results)

      at_roots : (roots : List ℕ) → (dag entries).roots ≡ roots → Answered
      at_roots [] e = (linear, rw (e, parse_dag) refl, inl refl)
      at_roots (root ∷ next ∷ roots) e = (linear, rw (e, parse_dag) refl, inl refl)
      at_roots (root ∷ []) e = elim (Bool-cases (parents_known (dag entries).uuid_set entries)) [
        | inr unknown ↦ (linear, rw (e, unknown, parse_dag) refl, inl refl)
        | inl known ↦
            let only = sym (dag-roots entries) ∙ e in
            let is_root = (subst (All (IsRoot 0 entries)) only (root_places-IsRoot 0 entries)).0 in
            let place : root ≡ is_root.0 = omega (arith, is_root.2) in
            let below : root < length entries =
              omega (arith, place, get_elem?-lt entries is_root.0 is_root.1 is_root.3) in
            let (path, forks, chain, good, walked) =
              walk_branch-some entries first session_id turn_fuel turns_enough fuel root below
                (omega arith) session_id [] tt in
            let found = parse_dag-walked turn_fuel fuel root (root ∷ path) forks e known walked in
            (
              walked_results (root ∷ path) forks,
              found,
              inr (root, root ∷ path, forks, is_root, (refl, chain), good, refl),
            )
      ]
