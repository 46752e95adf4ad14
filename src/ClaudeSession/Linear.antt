-- ===== src/ClaudeSession/Linear.antt =====
-- parseDAG and parseLinear of internal/parser/claude.go on a file that is one chain of uuids.
use mathlib.Core.List.{append_assoc}
use ca_session_source.Base.{
  ℕ, suc, ◌≤◌, ◌≡◌, refl, sym, ap, ◌∙◌, inl, List, [], ◌∷◌, ◌++◌, some, arith, length,
  length-append, get_elem?, All, false,
}
use ca_session_source.GoText.{Text}
use ca_session_source.ClaudeDag.{DagEntry, has_dag_fork}
use ca_session_source.ClaudeDag.Linear.{
  IsNamed, IsDistinct, IsLinked, no_fork-IsLinked, places, get_elem?-place, walk_branch-places,
  parents_known-suffix, chain_roots,
}
use ca_session_source.ClaudeMessages.{Calls}
use ca_session_source.ClaudeSession.{parse_linear, parse_dag, entries_at, main_result, fork_results}
use ca_session_source.ClaudeSession.Branches.{walked_results, parse_dag-walked}

entries_at-places :
    {T : Type 0} (entries pre post : List (DagEntry T))
    → entries ≡ pre ++ post
    → entries_at entries (places (length pre) post) ≡ post
unfolding entries_at
entries_at-places entries pre [] split = refl
entries_at-places entries pre (e ∷ post) split =
    let here = ap (λ l. get_elem? l (length pre)) split ∙ get_elem?-place pre e post in
    let place : length (pre ++ e ∷ []) ≡ suc (length pre) =
      omega (arith, length-append pre (e ∷ [])) in
    let rest =
      entries_at-places entries (pre ++ e ∷ []) post
        (split ∙ sym (append_assoc pre (e ∷ []) post)) in
    rw (here, entries_at) (ap (◌∷◌ e) (rw place at rest))

module _ {T : Type 0} (calls : Calls T) (session_id parent_session_id : Text)
    (global_start global_end : T) where
  all_entries-parse_linear :
      (entries : List (DagEntry T)) (path : List ℕ)
      → entries_at entries path ≡ entries
      → walked_results calls session_id parent_session_id global_start global_end entries path []
        ≡ parse_linear calls session_id parent_session_id global_start global_end entries
  unfolding main_result fork_results parse_linear
  all_entries-parse_linear entries path all = rw (all, main_result) refl

  -- Where every entry has a uuid of its own, the first names no parent and hasDAGFork is false,
  -- parseDAG answers what parseLinear does: one session with all entries in the file's order.
  pub parse_dag-parse_linear :
      (e : DagEntry T) (entries : List (DagEntry T))
      → All IsNamed (e ∷ entries)
      → IsDistinct (e ∷ entries)
      → e.parent_uuid ≡ []
      → has_dag_fork (e ∷ entries) ≡ false
      → (turn_fuel fuel : ℕ) → length (e ∷ entries) ≤ fuel
      → parse_dag calls session_id parent_session_id global_start global_end turn_fuel fuel
          (e ∷ entries)
        ≡ some
            (parse_linear calls session_id parent_session_id global_start global_end (e ∷ entries))
  parse_dag-parse_linear e entries named distinct root no_fork turn_fuel fuel enough =
      let linked : IsLinked [] (e ∷ entries) = (root, no_fork-IsLinked e entries named no_fork) in
      let walked =
        walk_branch-places (e ∷ entries) named distinct linked session_id turn_fuel fuel [] e
          entries refl (omega arith) session_id [] in
      let known =
        parents_known-suffix (e ∷ entries) [] [] (e ∷ entries) refl (inl refl) named linked in
      parse_dag-walked calls session_id parent_session_id global_start global_end (e ∷ entries)
        turn_fuel fuel 0 _ [] (chain_roots e entries named linked) known walked
      ∙ ap some
          (all_entries-parse_linear (e ∷ entries) _ (entries_at-places (e ∷ entries) [] _ refl))
