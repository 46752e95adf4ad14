-- ===== src/ClaudeDag/Children.antt =====
-- The first loop of parseDAG of internal/parser/claude.go: the children and the roots it collects.
use mathlib.Core.List.{append_assoc, append-nil}
use ca_session_source.Base.{
  ℕ, suc, ◌+◌, ◌≤◌, ◌<◌, ◌≡◌, ◌≢◌, refl, sym, ap, subst, ◌∙◌, inl, inr, Bool, true, false, not,
  ◌&&◌, ◌||◌, List, [], ◌∷◌, ◌++◌, some, arith, ◌==◌, ==_iff, list_equality, nat_equality,
  if◌then◌else◌, length, get_elem?, Bool-cases, All, All-imp,
}
use ca_session_source.GoMap.{get, get_or}
use ca_session_source.GoMap.Laws.{get_or-put}
use ca_session_source.GoText.{Text}
use ca_session_source.ClaudeDag.{DagEntry, Dag, add_entry, add_entries, no_entries}

-- Places in ascending order, from `lo` on and below `n`.
abbrev pub Ascends : ℕ → ℕ → List ℕ → Type 0
Ascends lo n [] = Unit
Ascends lo n (k ∷ ks) = (lo ≤ k) × (k < n) × Ascends (suc k) n ks

pub Ascends-le : (lo lo' n : ℕ) (ks : List ℕ) → lo ≤ lo' → Ascends lo' n ks → Ascends lo n ks
Ascends-le lo lo' n [] h a = tt
Ascends-le lo lo' n (k ∷ ks) h a = (omega arith, a.1, a.2)

put_in_front {ℓ} :
    {A : Type ℓ} (b : Bool) (x : A) (xs : List A)
    → (if b then x ∷ [] else []) ++ xs ≡ (if b then x ∷ xs else xs)
put_in_front true x xs = refl
put_in_front false x xs = refl

or_else : (a b c : Bool) → b || (if a then true else c) ≡ (a || b) || c
or_else a b c = ground arith

module _ {T : Type 0} where
  -- The places of the entries whose parent is `u`, counted from `i` on.
  abbrev pub child_places : Text → ℕ → List (DagEntry T) → List ℕ
  child_places u i [] = []
  child_places u i (e ∷ entries) =
      if not (e.parent_uuid == []) && e.parent_uuid == u
      then i ∷ child_places u (suc i) entries
      else child_places u (suc i) entries

  -- The places of the entries without a parent.
  abbrev pub root_places : ℕ → List (DagEntry T) → List ℕ
  root_places i [] = []
  root_places i (e ∷ entries) =
      if e.parent_uuid == [] then i ∷ root_places (suc i) entries else root_places (suc i) entries

  children-add_entry :
      (u : Text) (i : ℕ) (e : DagEntry T) (d : Dag)
      → get_or [] u (add_entry i e d).children
        ≡ get_or [] u d.children
          ++ (if not (e.parent_uuid == []) && e.parent_uuid == u then i ∷ [] else [])
  unfolding add_entry
  children-add_entry u i e d = elim (Bool-cases (e.parent_uuid == [])) [
    | inl root ↦ rw root (sym (append-nil _))
    | inr child ↦ elim (Bool-cases (e.parent_uuid == u)) [
      | inl mine ↦
          let same : e.parent_uuid ≡ u = (==_iff e.parent_uuid u).0 mine in
          rw (child, mine) (get_or-put [] e.parent_uuid u _ d.children ∙ rw (mine, same) refl)
      | inr other ↦
          rw (child, other)
            (get_or-put [] e.parent_uuid u _ d.children ∙ rw other (sym (append-nil _)))
    ]
  ]

  children-add_entries :
      (u : Text) (i : ℕ) (entries : List (DagEntry T)) (d : Dag)
      → get_or [] u (add_entries i entries d).children
        ≡ get_or [] u d.children ++ child_places u i entries
  unfolding add_entries
  children-add_entries u i [] d = sym (append-nil _)
  children-add_entries u i (e ∷ entries) d =
      children-add_entries u (suc i) entries (add_entry i e d)
      ∙ ap (λ l. l ++ child_places u (suc i) entries) (children-add_entry u i e d)
      ∙ append_assoc (get_or [] u d.children) _ (child_places u (suc i) entries)
      ∙ ap (◌++◌ (get_or [] u d.children)) (put_in_front _ i (child_places u (suc i) entries))

  roots-add_entry :
      (i : ℕ) (e : DagEntry T) (d : Dag)
      → (add_entry i e d).roots ≡ d.roots ++ (if e.parent_uuid == [] then i ∷ [] else [])
  unfolding add_entry
  roots-add_entry i e d = elim (Bool-cases (e.parent_uuid == [])) [
    | inl root ↦ rw root refl
    | inr child ↦ rw child (sym (append-nil _))
  ]

  roots-add_entries :
      (i : ℕ) (entries : List (DagEntry T)) (d : Dag)
      → (add_entries i entries d).roots ≡ d.roots ++ root_places i entries
  unfolding add_entries
  roots-add_entries i [] d = sym (append-nil _)
  roots-add_entries i (e ∷ entries) d =
      roots-add_entries (suc i) entries (add_entry i e d)
      ∙ ap (λ l. l ++ root_places (suc i) entries) (roots-add_entry i e d)
      ∙ append_assoc d.roots _ (root_places (suc i) entries)
      ∙ ap (◌++◌ d.roots) (put_in_front _ i (root_places (suc i) entries))

  child_places-Ascends :
      (u : Text) (i : ℕ) (entries : List (DagEntry T))
      → Ascends i (i + length entries) (child_places u i entries)
  child_places-Ascends u i [] = tt
  child_places-Ascends u i (e ∷ entries) =
      let shift : suc i + length entries ≡ i + suc (length entries) = omega arith in
      let later =
        subst (λ n. Ascends (suc i) n (child_places u (suc i) entries)) shift
          (child_places-Ascends u (suc i) entries) in
      elim (Bool-cases (not (e.parent_uuid == []) && e.parent_uuid == u)) [
        | inl mine ↦ rw mine (omega arith, omega arith, later)
        | inr other ↦ rw other (Ascends-le i (suc i) _ _ (omega arith) later)
      ]

  -- The entry at `k`, counted from `i` on, names `u` as its parent.
  abbrev Names : Text → ℕ → List (DagEntry T) → ℕ → Type 0
  Names u i entries k =
      (d : ℕ) × (e : DagEntry T) × (k ≡ i + d)
      × (get_elem? entries d ≡ some e)
      × (e.parent_uuid ≢ [])
      × (e.parent_uuid ≡ u)

  child_places-Names :
      (u : Text) (i : ℕ) (entries : List (DagEntry T))
      → All (Names u i entries) (child_places u i entries)
  child_places-Names u i [] = tt
  child_places-Names u i (e ∷ entries) =
      let later : All (Names u i (e ∷ entries)) (child_places u (suc i) entries) =
        All-imp (λ k n. (suc n.0, n.1, omega (arith, n.2), n.3, n.4, n.5)) _
          (child_places-Names u (suc i) entries) in
      elim (Bool-cases (not (e.parent_uuid == []) && e.parent_uuid == u)) [
        | inl mine ↦ rw mine (
          (
            0,
            e,
            omega arith,
            refl,
            λ root. ground (arith, ==_iff e.parent_uuid []),
            ground (arith, ==_iff e.parent_uuid u),
          ),
          later,
        )
        | inr other ↦ rw other later
      ]

  -- The entry at `k`, counted from `i` on, names no parent.
  abbrev pub IsRoot : ℕ → List (DagEntry T) → ℕ → Type 0
  IsRoot i entries k =
      (d : ℕ) × (e : DagEntry T) × (k ≡ i + d)
      × (get_elem? entries d ≡ some e)
      × (e.parent_uuid ≡ [])

  pub root_places-IsRoot :
      (i : ℕ) (entries : List (DagEntry T)) → All (IsRoot i entries) (root_places i entries)
  root_places-IsRoot i [] = tt
  root_places-IsRoot i (e ∷ entries) =
      let later : All (IsRoot i (e ∷ entries)) (root_places (suc i) entries) =
        All-imp (λ k n. (suc n.0, n.1, omega (arith, n.2), n.3, n.4)) _
          (root_places-IsRoot (suc i) entries) in
      elim (Bool-cases (e.parent_uuid == [])) [
        | inl root ↦
            rw root ((0, e, omega arith, refl, ground (arith, ==_iff e.parent_uuid [])), later)
        | inr child ↦ rw child later
      ]

  -- A uuid is in the set when an entry has it.
  abbrev pub has_uuid : Text → List (DagEntry T) → Bool
  has_uuid u [] = false
  has_uuid u (e ∷ entries) = not (e.uuid == []) && e.uuid == u || has_uuid u entries

  uuid_set-add_entry :
      (u : Text) (i : ℕ) (e : DagEntry T) (d : Dag)
      → get_or false u (add_entry i e d).uuid_set
        ≡ (if not (e.uuid == []) && e.uuid == u then true else get_or false u d.uuid_set)
  unfolding add_entry
  uuid_set-add_entry u i e d = elim (Bool-cases (e.uuid == [])) [
    | inl unnamed ↦ rw unnamed refl
    | inr named ↦ rw named (get_or-put false e.uuid u true d.uuid_set)
  ]

  pub uuid_set-add_entries :
      (u : Text) (i : ℕ) (entries : List (DagEntry T)) (d : Dag)
      → get_or false u (add_entries i entries d).uuid_set
        ≡ has_uuid u entries || get_or false u d.uuid_set
  unfolding add_entries
  uuid_set-add_entries u i [] d = refl
  uuid_set-add_entries u i (e ∷ entries) d =
      uuid_set-add_entries u (suc i) entries (add_entry i e d)
      ∙ ap (λ b. has_uuid u entries || b) (uuid_set-add_entry u i e d)
      ∙ or_else _ (has_uuid u entries) (get_or false u d.uuid_set)

  module _ (entries : List (DagEntry T)) where
    -- The entry at `j` names the entry at `i` as its parent.
    abbrev pub IsChild : ℕ → ℕ → Type 0
    IsChild i j =
        (a : DagEntry T) × (b : DagEntry T) × (get_elem? entries i ≡ some a)
        × (get_elem? entries j ≡ some b)
        × (b.parent_uuid ≢ [])
        × (b.parent_uuid ≡ a.uuid)

    -- An entry comes after every entry whose uuid it names as its parent.
    abbrev pub ParentsFirst : Type 0
    ParentsFirst = (i j : ℕ) → IsChild i j → i < j

    abbrev pub dag : Dag
    dag = add_entries 0 entries no_entries

    pub dag-roots : dag.roots ≡ root_places 0 entries
    dag-roots = roots-add_entries 0 entries no_entries

    pub dag-uuid_set : (u : Text) → get_or false u dag.uuid_set ≡ has_uuid u entries
    unfolding get_or get
    dag-uuid_set u = uuid_set-add_entries u 0 entries no_entries ∙ or_false (has_uuid u entries)
      where
        or_false : (b : Bool) → b || false ≡ b
        or_false b = ground arith

    pub dag-children : (u : Text) → get_or [] u dag.children ≡ child_places u 0 entries
    unfolding get_or get
    dag-children u = children-add_entries u 0 entries no_entries

    pub kids-IsChild :
        (i : ℕ) (a : DagEntry T)
        → get_elem? entries i ≡ some a
        → All (IsChild i) (child_places a.uuid 0 entries)
    kids-IsChild i a here =
        All-imp
          (λ k n.
            let place : k ≡ n.0 = omega (arith, n.2) in
            (a, n.1, here, ap (get_elem? entries) place ∙ n.3, n.4, n.5))
          _ (child_places-Names a.uuid 0 entries)

    pub kids-Ascends :
        ParentsFirst
        → (i : ℕ) (a : DagEntry T) → get_elem? entries i ≡ some a
        → Ascends (suc i) (length entries) (child_places a.uuid 0 entries)
    kids-Ascends first i a here =
        let count : 0 + length entries ≡ length entries = omega arith in
        raise _ (kids-IsChild i a here) (
          subst (λ n. Ascends 0 n (child_places a.uuid 0 entries)) count
            (child_places-Ascends a.uuid 0 entries))
      where
        raise :
            (ks : List ℕ)
            → All (IsChild i) ks
            → Ascends 0 (length entries) ks
            → Ascends (suc i) (length entries) ks
        raise [] c a = tt
        raise (k ∷ ks) c a = (first i k c.0, a.1, a.2)
