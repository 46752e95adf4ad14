-- ===== src/ClaudeDag/Parents.antt =====
-- A test whether the entries of a file come after those that they name as their parents.
use ca_session_source.Base.{
  ℕ, zero, suc, ◌<◌, ◌≡◌, ◌≢◌, sym, ap, ◌∙◌, Bool, true, false, not, ◌&&◌, ◌||◌, List, [], ◌∷◌,
  some, arith, ◌==◌, ==_iff, ==-ne, list_equality, nat_equality, get_elem?,
}
use ca_session_source.GoText.{Text}
use ca_session_source.ClaudeDag.{DagEntry}
use ca_session_source.ClaudeDag.Children.{ParentsFirst}

module _ {T : Type 0} where
  abbrev pub is_no_uuid : Text → List (DagEntry T) → Bool
  is_no_uuid u [] = true
  is_no_uuid u (e ∷ entries) = not (e.uuid == u) && is_no_uuid u entries

  abbrev pub parents_first : List (DagEntry T) → Bool
  parents_first [] = true
  parents_first (e ∷ entries) =
      (e.parent_uuid == [] || is_no_uuid e.parent_uuid (e ∷ entries)) && parents_first entries

  is_no_uuid-ne :
      (u : Text) (entries : List (DagEntry T)) (i : ℕ) (a : DagEntry T)
      → is_no_uuid u entries ≡ true
      → get_elem? entries i ≡ some a
      → a.uuid ≢ u
  is_no_uuid-ne u [] i a h here e = absurd (cc)
  is_no_uuid-ne u (x ∷ entries) zero a h here e = ground (arith, ==_iff x.uuid u)
  is_no_uuid-ne u (x ∷ entries) (suc i) a h here e =
      is_no_uuid-ne u entries i a (ground arith) here e

  pub parents_first-ParentsFirst :
      (entries : List (DagEntry T)) → parents_first entries ≡ true → ParentsFirst entries
  parents_first-ParentsFirst [] h i j (a, b, at_i, at_j, named, child) = absurd (cc)
  parents_first-ParentsFirst (x ∷ entries) h zero (suc j) c = omega arith
  parents_first-ParentsFirst (x ∷ entries) h (suc i) (suc j) c =
      let less : i < j = parents_first-ParentsFirst entries (ground arith) i j c in omega arith
  parents_first-ParentsFirst (x ∷ entries) h i zero (a, b, at_i, at_j, named, child) =
      let same : x.parent_uuid ≡ b.parent_uuid = let e : x ≡ b = cc in ap (λ d. d.parent_uuid) e in
      let not_empty : (x.parent_uuid == []) ≡ false =
        ==-ne x.parent_uuid [] (λ e. named (sym same ∙ e)) in
      let fresh : is_no_uuid x.parent_uuid (x ∷ entries) ≡ true = ground arith in
      absurd (is_no_uuid-ne x.parent_uuid (x ∷ entries) i a fresh at_i (sym child ∙ sym same))
