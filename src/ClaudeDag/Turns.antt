-- ===== src/ClaudeDag/Turns.antt =====
-- countUserTurns of internal/parser/claude.go on a file where parents come first.
use mathlib.Core.List.{reverse, reverse-cons}
use ca_session_source.Base.{
  ℕ, zero, suc, ◌+◌, ◌-◌, ◌*◌, ◌≤◌, ◌<◌, ◌≡◌, refl, ap, List, [], ◌∷◌, ◌++◌, some, arith, ◌==◌,
  string_equality, list_equality, nat_equality, if◌then◌else◌, length, get_elem?, All, All-append,
  All-reverse, sum_by,
}
use ca_session_source.GoMap.{get_or}
use ca_session_source.GoText.{codes}
use ca_session_source.ClaudeDag.{DagEntry, count_turns, count_user_turns}
use ca_session_source.ClaudeDag.Children.{
  Ascends, IsChild, ParentsFirst, dag, dag-children, kids-IsChild, kids-Ascends,
}

-- 2 to the power `n`.
abbrev pub two_pow : ℕ → ℕ
two_pow zero = 1
two_pow (suc n) = 2 * two_pow n

two_pow_pos : (n : ℕ) → 0 < two_pow n
two_pow_pos zero = omega arith
two_pow_pos (suc n) = omega (arith, two_pow_pos n)

two_pow_le_add : (m d : ℕ) → two_pow m ≤ two_pow (m + d)
two_pow_le_add m zero = let e : m + 0 ≡ m = omega arith in rw e (omega arith)
two_pow_le_add m (suc d) =
    let e : m + suc d ≡ suc (m + d) = omega arith in rw e (omega (arith, two_pow_le_add m d))

two_pow_le : (m n : ℕ) → m ≤ n → two_pow m ≤ two_pow n
two_pow_le m n h = let e : m + (n - m) ≡ n = omega arith in rw (← e) (two_pow_le_add m (n - m))

-- The visits that a place below `n` on the stack can cause.
abbrev weight : ℕ → ℕ → ℕ
weight n k = two_pow (n - suc k)

kids_weigh_less :
    (lo n : ℕ) (ks : List ℕ) → lo ≤ n → Ascends lo n ks → sum_by (weight n) ks < two_pow (n - lo)
kids_weigh_less lo n [] h a = omega (arith, two_pow_pos (n - lo))
kids_weigh_less lo n (k ∷ ks) h a =
    let rest = kids_weigh_less (suc k) n ks (omega arith) a.2 in
    let e : suc (n - suc k) ≡ n - k = omega arith in
    let twice : 2 * two_pow (n - suc k) ≡ two_pow (n - k) = ap two_pow e in
    omega (arith, rest, twice, two_pow_le (n - k) (n - lo) (omega arith))

sum_by-append {ℓ} :
    {A : Type ℓ} (f : A → ℕ) (xs ys : List A) → sum_by f (xs ++ ys) ≡ sum_by f xs + sum_by f ys
sum_by-append f [] ys = omega arith
sum_by-append f (x ∷ xs) ys = omega (arith, sum_by-append f xs ys)

sum_by-reverse {ℓ} : {A : Type ℓ} (f : A → ℕ) (xs : List A) → sum_by f (reverse xs) ≡ sum_by f xs
sum_by-reverse f [] = refl
sum_by-reverse f (x ∷ xs) = omega (
  arith,
  ap (sum_by f) (reverse-cons x xs),
  sum_by-append f (reverse xs) (x ∷ []),
  sum_by-reverse f xs,
)

pub get_elem?-some {ℓ} :
    {A : Type ℓ} (xs : List A) (i : ℕ) → i < length xs → (x : A) × (get_elem? xs i ≡ some x)
get_elem?-some [] i h = absurd (omega arith)
get_elem?-some (x ∷ xs) zero h = (x, refl)
get_elem?-some (x ∷ xs) (suc i) h = get_elem?-some xs i (omega arith)

abbrev pub Below : ℕ → ℕ → Type 0
Below n k = k < n

pub Ascends-Below : (lo n : ℕ) (ks : List ℕ) → Ascends lo n ks → All (Below n) ks
Ascends-Below lo n [] a = tt
Ascends-Below lo n (k ∷ ks) a = (a.1, Ascends-Below (suc k) n ks a.2)

module _ {T : Type 0} (entries : List (DagEntry T)) (first : ParentsFirst entries) where
  -- The children that the loops read.
  abbrev pub kids_of : DagEntry T → List ℕ
  kids_of e = get_or [] e.uuid (dag entries).children

  pub kids_of-Ascends :
      (i : ℕ) (a : DagEntry T)
      → get_elem? entries i ≡ some a
      → Ascends (suc i) (length entries) (kids_of a)
  kids_of-Ascends i a here = rw (dag-children entries a.uuid) (kids-Ascends entries first i a here)

  pub kids_of-IsChild :
      (i : ℕ) (a : DagEntry T) → get_elem? entries i ≡ some a → All (IsChild entries i) (kids_of a)
  kids_of-IsChild i a here = rw (dag-children entries a.uuid) (kids-IsChild entries i a here)

  count_turns-some :
      (fuel count : ℕ) (stack : List ℕ)
      → All (Below (length entries)) stack
      → sum_by (weight (length entries)) stack ≤ fuel
      → (turns : ℕ) × (count_turns entries (dag entries).children fuel count stack ≡ some turns)
  unfolding count_turns
  count_turns-some fuel count [] below enough = (count, refl)
  count_turns-some zero count (k ∷ stack) below enough =
      absurd (omega (arith, two_pow_pos (length entries - suc k)))
  count_turns-some (suc fuel) count (k ∷ stack) below enough =
      let (e, here) = get_elem?-some entries k below.0 in
      let ascends = kids_of-Ascends k e here in
      let lighter : sum_by (weight (length entries)) (reverse (kids_of e) ++ stack) ≤ fuel = omega (
        arith,
        sum_by-append (weight (length entries)) (reverse (kids_of e)) stack,
        sum_by-reverse (weight (length entries)) (kids_of e),
        kids_weigh_less (suc k) (length entries) (kids_of e) below.0 ascends,
      ) in
      let inside =
        All-append _ (reverse (kids_of e)) stack
          (All-reverse _ (kids_of e) (Ascends-Below (suc k) _ _ ascends)) below.1 in
      let counted = if e.entry_type == codes "user" then suc count else count in
      let (turns, found) =
        count_turns-some fuel counted (reverse (kids_of e) ++ stack) inside lighter in
      (turns, rw (here, count_turns) found)

  -- countUserTurns ends.
  pub count_user_turns-some :
      (fuel start : ℕ)
      → start < length entries
      → two_pow (length entries) ≤ fuel
      → (turns : ℕ) × (count_user_turns entries (dag entries).children fuel start ≡ some turns)
  unfolding count_user_turns
  count_user_turns-some fuel start below enough =
      let less = two_pow_le (length entries - suc start) (length entries) (omega arith) in
      count_turns-some fuel 0 (start ∷ []) (below, tt) (omega arith)
