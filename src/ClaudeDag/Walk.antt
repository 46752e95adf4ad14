-- ===== src/ClaudeDag/Walk.antt =====
-- walkBranch of internal/parser/claude.go on a file where parents come first.
use ca_session_source.Base.{
  ℕ, zero, suc, ◌+◌, ◌≤◌, ◌<◌, ◌≡◌, refl, inl, inr, List, [], ◌∷◌, ◌++◌, Option, some, arith,
  list_equality, nat_equality, leb, length, get_elem?, Bool-cases, All, All-append,
}
use ca_session_source.GoText.{Text, codes}
use ca_session_source.ClaudeDag.{DagEntry, Branch, walk_forks, walk_branch, last_of, fork_threshold}
use ca_session_source.ClaudeDag.Children.{Ascends, IsChild, ParentsFirst, dag}
use ca_session_source.ClaudeDag.Turns.{
  two_pow, get_elem?-some, Below, Ascends-Below, kids_of, kids_of-Ascends, kids_of-IsChild,
  count_user_turns-some,
}

module _ {T : Type 0} (entries : List (DagEntry T)) where
  -- A path from `i` on: each entry names the one before it as its parent.
  abbrev pub IsChain : ℕ → List ℕ → Type 0
  IsChain i [] = Unit
  IsChain i (j ∷ path) = IsChild entries i j × IsChain j path

  -- A path that begins at `i`.
  abbrev pub IsPath : ℕ → List ℕ → Type 0
  IsPath i [] = ⊥
  IsPath i (j ∷ path) = (j ≡ i) × IsChain i path

  -- The branch is a path, and begins with an entry that has a parent among the entries.
  abbrev pub IsFork : Branch → Type 0
  IsFork b = (i : ℕ) × (j : ℕ) × IsChild entries i j × IsPath j b.indices

  last_of-All {κ} : (P : ℕ → Type κ) (k : ℕ) (ks : List ℕ) → All P (k ∷ ks) → P (last_of k ks)
  last_of-All P k [] a = a.0
  last_of-All P k (next ∷ ks) a = last_of-All P next ks a.1

  module _ (first : ParentsFirst entries) (session_id : Text) (turn_fuel : ℕ)
      (turns_enough : two_pow (length entries) ≤ turn_fuel) where
    abbrev walk_from : ℕ → ℕ → Text → List Branch → Option (List ℕ × List Branch)
    walk_from = walk_branch entries (dag entries).children session_id turn_fuel

    -- What a walk from `i` answers.
    abbrev Walked : ℕ → ℕ → Type 0
    Walked fuel i =
        (owner : Text) (forks : List Branch)
        → All IsFork forks
        → (path : List ℕ) × (forks' : List Branch) × IsChain i path
          × All IsFork forks'
          × (walk_from fuel i owner forks ≡ some (i ∷ path, forks'))

    walk_forks-some :
        (fuel i : ℕ) (owner : Text) (kids : List ℕ) (forks : List Branch)
        → All (λ k. IsChild entries i k × (k < length entries) × Walked fuel k) kids
        → All IsFork forks
        → (forks' : List Branch) × All IsFork forks'
          × (walk_forks entries (dag entries).children session_id (walk_from fuel) owner kids forks
              ≡ some forks')
    unfolding walk_forks
    walk_forks-some fuel i owner [] forks each good = (forks, good, refl)
    walk_forks-some fuel i owner (kid ∷ kids) forks each good =
        let (e, here) = get_elem?-some entries kid each.0.1 in
        let (path, forks', chain, good', walked) =
          each.0.2 (session_id ++ codes "-" ++ e.uuid) forks good in
        let b : Branch = record { indices = kid ∷ path; parent_id = owner } in
        let all = All-append IsFork forks' (b ∷ []) good' ((i, kid, each.0.0, (refl, chain)), tt) in
        let (forks'', good'', rest) =
          walk_forks-some fuel i owner kids (forks' ++ b ∷ []) each.1 all in
        (forks'', good'', rw (here, walked, walk_forks) rest)

    ready_kids :
        (fuel i : ℕ) (ks : List ℕ)
        → ((k : ℕ) → i < k → k < length entries → Walked fuel k)
        → All (IsChild entries i) ks
        → All (Below (length entries)) ks
        → All (λ k. IsChild entries i k × (k < length entries) × Walked fuel k) ks
    ready_kids fuel i [] later each below = tt
    ready_kids fuel i (k ∷ ks) later each below = (
      (each.0, below.0, later k (first i k each.0) below.0),
      ready_kids fuel i ks later each.1 below.1,
    )

    -- What the loop does with the children of the entry at `i`.
    at_kids :
        (fuel i : ℕ) (e : DagEntry T)
        → get_elem? entries i ≡ some e
        → ((k : ℕ) → i < k → k < length entries → Walked fuel k)
        → (ks : List ℕ) → kids_of entries first e ≡ ks
        → Ascends (suc i) (length entries) ks
        → All (IsChild entries i) ks
        → Walked (suc fuel) i
    unfolding walk_branch
    at_kids fuel i e here later [] known up each owner forks good =
        ([], forks, tt, good, rw (here, known, walk_branch) refl)
    at_kids fuel i e here later (kid ∷ []) known up each owner forks good =
        let (path, forks', chain, good', walked) = later kid up.0 up.1 owner forks good in
        (kid ∷ path, forks', (each.0, chain), good', rw (here, known, walk_branch, walked) refl)
    at_kids fuel i e here later (kid ∷ next ∷ kids) known up each owner forks good =
        let (turns, counted) =
          count_user_turns-some entries first turn_fuel kid up.1 turns_enough in
        elim (Bool-cases (leb turns fork_threshold)) [
          | inl small ↦
              let child = last_of-All (IsChild entries i) next kids each.1 in
              let below =
                last_of-All (Below (length entries)) next kids
                  (Ascends-Below _ (length entries) (next ∷ kids) up.2) in
              let last = last_of next kids in
              let (path, forks', chain, good', walked) =
                later last (first i last child) below owner forks good in
              (
                last ∷ path,
                forks',
                (child, chain),
                good',
                rw (here, known, walk_branch, counted, small, walked) refl,
              )
          | inr large ↦
              let ready =
                ready_kids fuel i (next ∷ kids) later each.1
                  (Ascends-Below _ (length entries) (next ∷ kids) up.2) in
              let (forked, good_forked, forks_found) =
                walk_forks-some fuel i owner (next ∷ kids) forks ready good in
              let (path, forks', chain, good', walked) =
                later kid (first i kid each.0) up.1 owner forked good_forked in
              (
                kid ∷ path,
                forks',
                (each.0, chain),
                good',
                rw (here, known, walk_branch, counted, large, forks_found, walked) refl,
              )
        ]

    pub walk_branch-some :
        (fuel i : ℕ) → i < length entries → length entries ≤ i + fuel → Walked fuel i
    walk_branch-some zero i below enough = absurd (omega arith)
    walk_branch-some (suc fuel) i below enough =
        let (e, here) = get_elem?-some entries i below in
        at_kids fuel i e here (λ k above under. walk_branch-some fuel k under (omega arith))
          (kids_of entries first e) refl (kids_of-Ascends entries first i e here)
          (kids_of-IsChild entries first i e here)
