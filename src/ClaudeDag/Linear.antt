-- ===== src/ClaudeDag/Linear.antt =====
-- hasDAGFork and walkBranch of internal/parser/claude.go on a file that is one chain of uuids.
use mathlib.Core.List.{append_assoc}
use ca_session_source.Base.{
  ℕ, zero, suc, ◌+◌, ◌<◌, ◌≡◌, ◌≢◌, refl, sym, ap, subst, ◌∙◌, inl, inr, true, false, ◌||◌, ◌⊎◌,
  List, [], ◌∷◌, ◌++◌, some, arith, ◌==◌, ==_iff, ==-ne, ==_refl, list_beq, list_equality,
  nat_equality, length, length-append, get_elem?, Bool-cases, All, All-append_right,
}
use ca_session_source.GoMap.{get_or}
use ca_session_source.GoText.{Text}
use ca_session_source.ClaudeDag.{
  DagEntry, Branch, has_dag_fork, fork_after, walk_branch, parents_known,
}
use ca_session_source.ClaudeDag.Children.{
  child_places, root_places, has_uuid, dag, dag-children, dag-roots, dag-uuid_set,
}

module _ {T : Type 0} where
  abbrev pub IsNamed : DagEntry T → Type 0
  IsNamed e = e.uuid ≢ []

  -- The entry has another uuid, or another parent.
  abbrev pub Differs : Text → DagEntry T → Type 0
  Differs u e = e.uuid ≢ u

  abbrev NoChild : Text → DagEntry T → Type 0
  NoChild u e = e.parent_uuid ≢ u

  -- No uuid stands twice.
  abbrev pub IsDistinct : List (DagEntry T) → Type 0
  IsDistinct [] = Unit
  IsDistinct (e ∷ entries) = All (Differs e.uuid) entries × IsDistinct entries

  -- Each entry names the one before it as its parent, the first `u`.
  abbrev pub IsLinked : Text → List (DagEntry T) → Type 0
  IsLinked u [] = Unit
  IsLinked u (e ∷ entries) = (e.parent_uuid ≡ u) × IsLinked e.uuid entries

  fork_after-IsLinked :
      (u : Text) (entries : List (DagEntry T))
      → u ≢ []
      → All IsNamed entries
      → fork_after u entries ≡ false
      → IsLinked u entries
  unfolding fork_after
  fork_after-IsLinked u [] ne named h = tt
  fork_after-IsLinked u (e ∷ entries) ne named h = elim (Bool-cases (e.parent_uuid == u)) [
    | inl linked ↦ (
      (==_iff e.parent_uuid u).0 linked,
      fork_after-IsLinked e.uuid entries named.0 named.1
          (rw (==-ne e.uuid [] named.0, linked) at (rw (==-ne u [] ne) at h)),
    )
    | inr forked ↦ absurd (let f = rw (==-ne e.uuid [] named.0, ==-ne u [] ne, forked) at h in cc)
  ]

  -- Where hasDAGFork is false, the entries after the first form a chain.
  pub no_fork-IsLinked :
      (e : DagEntry T) (entries : List (DagEntry T))
      → All IsNamed (e ∷ entries)
      → has_dag_fork (e ∷ entries) ≡ false
      → IsLinked e.uuid entries
  unfolding has_dag_fork fork_after list_beq
  no_fork-IsLinked e entries named h =
      fork_after-IsLinked e.uuid entries named.0 named.1 (rw (==-ne e.uuid [] named.0) at h)

  child_places-NoChild :
      (u : Text) (i : ℕ) (entries : List (DagEntry T))
      → All (NoChild u) entries
      → child_places u i entries ≡ []
  child_places-NoChild u i [] none_here = refl
  child_places-NoChild u i (e ∷ entries) none_here =
      ground (arith, ==_iff e.parent_uuid u, child_places-NoChild u (suc i) entries none_here.1)

  root_places-NoChild :
      (i : ℕ) (entries : List (DagEntry T)) → All (NoChild []) entries → root_places i entries ≡ []
  root_places-NoChild i [] none_here = refl
  root_places-NoChild i (e ∷ entries) none_here =
      ground (arith, ==_iff e.parent_uuid [], root_places-NoChild (suc i) entries none_here.1)

  child_places-append :
      (u : Text) (i : ℕ) (xs ys : List (DagEntry T))
      → child_places u i (xs ++ ys) ≡ child_places u i xs ++ child_places u (i + length xs) ys
  child_places-append u i [] ys = let e : i + 0 ≡ i = omega arith in rw e refl
  child_places-append u i (x ∷ xs) ys =
      let e : i + suc (length xs) ≡ suc i + length xs = omega arith in
      rw e (ground (arith, child_places-append u (suc i) xs ys))

  -- In a chain after `v`, the parents are `v` and the uuids that have a successor.
  IsLinked-NoChild :
      (u v : Text) (pre : List (DagEntry T)) (e : DagEntry T) (post : List (DagEntry T))
      → v ≢ u
      → All (Differs u) pre
      → IsLinked v (pre ++ e ∷ post)
      → All (NoChild u) (pre ++ e ∷ [])
  IsLinked-NoChild u v [] e post ne other l = (λ h. ne (sym l.0 ∙ h), tt)
  IsLinked-NoChild u v (x ∷ pre) e post ne other l =
      (λ h. ne (sym l.0 ∙ h), IsLinked-NoChild u x.uuid pre e post other.0 other.1 l.1)

  IsLinked-NoChild_all :
      (u v : Text) (entries : List (DagEntry T))
      → v ≢ u
      → All (Differs u) entries
      → IsLinked v entries
      → All (NoChild u) entries
  IsLinked-NoChild_all u v [] ne other l = tt
  IsLinked-NoChild_all u v (e ∷ entries) ne other l =
      (λ h. ne (sym l.0 ∙ h), IsLinked-NoChild_all u e.uuid entries other.0 other.1 l.1)

  IsLinked-later :
      (v : Text) (pre : List (DagEntry T)) (e : DagEntry T) (post : List (DagEntry T))
      → IsLinked v (pre ++ e ∷ post)
      → IsLinked e.uuid post
  IsLinked-later v [] e post l = l.1
  IsLinked-later v (x ∷ pre) e post l = IsLinked-later x.uuid pre e post l.1

  IsDistinct-before :
      (pre : List (DagEntry T)) (e : DagEntry T) (post : List (DagEntry T))
      → IsDistinct (pre ++ e ∷ post)
      → All (Differs e.uuid) pre
  IsDistinct-before [] e post d = tt
  IsDistinct-before (x ∷ pre) e post d = (
    (λ h. (All-append_right (Differs x.uuid) pre (e ∷ post) d.0).0 (sym h)),
    IsDistinct-before pre e post d.1,
  )

  IsDistinct-after :
      (pre : List (DagEntry T)) (e : DagEntry T) (post : List (DagEntry T))
      → IsDistinct (pre ++ e ∷ post)
      → All (Differs e.uuid) post
  IsDistinct-after [] e post d = d.0
  IsDistinct-after (x ∷ pre) e post d = IsDistinct-after pre e post d.1

  -- The place after `k`, if an entry stands there.
  abbrev pub next_place : ℕ → List (DagEntry T) → List ℕ
  next_place k [] = []
  next_place k (e ∷ post) = suc k ∷ []

  child_places-next :
      (u : Text) (i : ℕ) (post : List (DagEntry T))
      → u ≢ []
      → All IsNamed post
      → All (Differs u) post
      → IsLinked u post
      → child_places u (suc i) post ≡ next_place i post
  child_places-next u i [] ne named other l = refl
  child_places-next u i (e ∷ post) ne named other l =
      let rest : child_places u (suc (suc i)) post ≡ [] =
        child_places-NoChild u (suc (suc i)) post
          (IsLinked-NoChild_all u e.uuid post other.0 other.1 l.1) in
      rw (==-ne e.parent_uuid [] (λ h. ne (sym l.0 ∙ h)), l.0, ==_refl u, rest) refl

  pub chain_kids :
      (pre : List (DagEntry T)) (e : DagEntry T) (post : List (DagEntry T))
      → All IsNamed (pre ++ e ∷ post)
      → IsDistinct (pre ++ e ∷ post)
      → IsLinked [] (pre ++ e ∷ post)
      → child_places e.uuid 0 (pre ++ e ∷ post) ≡ next_place (length pre) post
  chain_kids pre e post named d l =
      let here = All-append_right IsNamed pre (e ∷ post) named in
      let before : child_places e.uuid 0 (pre ++ e ∷ []) ≡ [] =
        child_places-NoChild e.uuid 0 (pre ++ e ∷ []) (
          IsLinked-NoChild e.uuid [] pre e post (λ h. here.0 (sym h))
            (IsDistinct-before pre e post d) l) in
      let place : 0 + length (pre ++ e ∷ []) ≡ suc (length pre) =
        omega (arith, length-append pre (e ∷ [])) in
      ap (child_places e.uuid 0) (sym (append_assoc pre (e ∷ []) post))
      ∙ child_places-append e.uuid 0 (pre ++ e ∷ []) post
      ∙ rw (before, place)
          (child_places-next e.uuid (length pre) post here.0 here.1 (IsDistinct-after pre e post d)
            (IsLinked-later [] pre e post l))

  pub get_elem?-place :
      (pre : List (DagEntry T)) (e : DagEntry T) (post : List (DagEntry T))
      → get_elem? (pre ++ e ∷ post) (length pre) ≡ some e
  get_elem?-place [] e post = refl
  get_elem?-place (x ∷ pre) e post = get_elem?-place pre e post

  -- The places from `k` on, one for each entry.
  abbrev pub places : ℕ → List (DagEntry T) → List ℕ
  places k [] = []
  places k (e ∷ entries) = k ∷ places (suc k) entries

  module _ (entries : List (DagEntry T)) (named : All IsNamed entries)
      (distinct : IsDistinct entries) (linked : IsLinked [] entries) (session_id : Text)
      (turn_fuel : ℕ) where
    chain_children :
        (pre : List (DagEntry T)) (e : DagEntry T) (post : List (DagEntry T))
        → entries ≡ pre ++ e ∷ post
        → get_or [] e.uuid (dag entries).children ≡ next_place (length pre) post
    chain_children pre e post split =
        dag-children entries e.uuid
        ∙ ap (child_places e.uuid 0) split
        ∙ chain_kids pre e post (subst (All IsNamed) split named) (subst IsDistinct split distinct)
            (subst (IsLinked []) split linked)

    -- The walk takes every entry from its place on.
    pub walk_branch-places :
        (fuel : ℕ) (pre : List (DagEntry T)) (e : DagEntry T) (post : List (DagEntry T))
        → entries ≡ pre ++ e ∷ post
        → length post < fuel
        → (owner : Text) (forks : List Branch)
        → walk_branch entries
            (dag entries).children
            session_id
            turn_fuel
            fuel
            (length pre)
            owner
            forks
          ≡ some (places (length pre) (e ∷ post), forks)
    unfolding walk_branch
    walk_branch-places zero pre e post split enough owner forks = absurd (omega arith)
    walk_branch-places (suc fuel) pre e [] split enough owner forks =
        let here = ap (λ l. get_elem? l (length pre)) split ∙ get_elem?-place pre e [] in
        rw (here, chain_children pre e [] split, walk_branch) refl
    walk_branch-places (suc fuel) pre e (x ∷ post) split enough owner forks =
        let here = ap (λ l. get_elem? l (length pre)) split ∙ get_elem?-place pre e (x ∷ post) in
        let place : length (pre ++ e ∷ []) ≡ suc (length pre) =
          omega (arith, length-append pre (e ∷ [])) in
        let rest =
          walk_branch-places fuel (pre ++ e ∷ []) x post
            (split ∙ sym (append_assoc pre (e ∷ []) (x ∷ post))) (omega arith) owner forks in
        rw (here, chain_children pre e (x ∷ post) split, walk_branch, rw place at rest) refl

  has_uuid-append :
      (u : Text) (xs ys : List (DagEntry T))
      → has_uuid u (xs ++ ys) ≡ has_uuid u xs || has_uuid u ys
  has_uuid-append u [] ys = refl
  has_uuid-append u (x ∷ xs) ys = ground (arith, has_uuid-append u xs ys)

  -- In a chain all parents are known: what a suffix names stands before it.
  pub parents_known-suffix :
      (entries pre : List (DagEntry T)) (v : Text) (post : List (DagEntry T))
      → entries ≡ pre ++ post
      → (v ≡ []) ⊎ (has_uuid v pre ≡ true)
      → All IsNamed post
      → IsLinked v post
      → parents_known (dag entries).uuid_set post ≡ true
  unfolding parents_known list_beq
  parents_known-suffix entries pre v [] split known named l = refl
  parents_known-suffix entries pre v (e ∷ post) split known named l =
      let rest =
        parents_known-suffix entries (pre ++ e ∷ []) e.uuid post
          (split ∙ sym (append_assoc pre (e ∷ []) post))
          (inr (
            has_uuid-append e.uuid pre (e ∷ [])
            ∙ rw (==-ne e.uuid [] named.0, ==_refl e.uuid) (ground arith)))
          named.1 l.1 in
      let found =
        dag-uuid_set entries e.parent_uuid
        ∙ ap (has_uuid e.parent_uuid) split
        ∙ has_uuid-append e.parent_uuid pre (e ∷ post) in
      elim known [
        | inl root ↦ rw (rest, l.0, root) refl
        | inr before ↦ rw (rest, found, l.0, before) (ground arith)
      ]

  pub chain_roots :
      (e : DagEntry T) (entries : List (DagEntry T))
      → All IsNamed (e ∷ entries)
      → IsLinked [] (e ∷ entries)
      → (dag (e ∷ entries)).roots ≡ 0 ∷ []
  unfolding list_beq
  chain_roots e entries named l =
      let rest =
        root_places-NoChild 1 entries
          (IsLinked-NoChild_all [] e.uuid entries named.0 named.1 l.1) in
      dag-roots (e ∷ entries) ∙ rw (l.0, rest) refl

pub has_dag_fork-nil : (T : Type 0) → has_dag_fork {T = T} [] ≡ false
unfolding has_dag_fork fork_after
has_dag_fork-nil T = refl
