-- ===== src/GoText/Laws.antt =====
-- Searching a text: what a hit and a miss say about the text.
use ca_session_source.Base.{
  ℕ, zero, suc, ◌+◌, ◌≤◌, ◌<◌, ◌≡◌, refl, ap, sym, ◌∙◌, ◌↔◌, inl, inr, true, false, [], ◌∷◌, ◌++◌,
  none, some, nat_equality, arith, Option-cases, take, drop, length, take-append-drop, drop-add,
  drop-append_left, List, ◌⊎◌, false,
}
use ca_session_source.GoText.{Text, has_prefix, index, contains}

pub has_prefix_sound : (p s : Text) → has_prefix p s ≡ true → s ≡ p ++ drop (length p) s
unfolding has_prefix
has_prefix_sound [] s h = refl
has_prefix_sound (p ∷ ps) [] h = cc
has_prefix_sound (p ∷ ps) (c ∷ s) h = ground (arith, has_prefix_sound ps s)

pub has_prefix-append : (p r : Text) → has_prefix p (p ++ r) ≡ true
unfolding has_prefix
has_prefix-append [] r = refl
has_prefix-append (p ∷ ps) r = ground (arith, has_prefix-append ps r)

pub has_prefix_iff : (p s : Text) → (has_prefix p s ≡ true) ↔ ((r : Text) × (s ≡ p ++ r))
has_prefix_iff p s = (λ h. (drop (length p) s, has_prefix_sound p s h), λ f. subst_prefix f.0 f.1)
  where
    subst_prefix : (r : Text) → s ≡ p ++ r → has_prefix p s ≡ true
    subst_prefix r e = rw e (has_prefix-append p r)

-- A hit is an occurrence, and no earlier place has one.
pub index_sound : (p s : Text) (i : ℕ) → index p s ≡ some i → has_prefix p (drop i s) ≡ true
unfolding index
index_sound p [] i h = ground arith
index_sound p (c ∷ s) i h = elim (Option-cases (index p s)) [
  | inl miss ↦ ground arith
  | inr (j, hit) ↦ ground (arith, index_sound p s j hit)
]

pub index_first :
    (p s : Text) (i j : ℕ) → index p s ≡ some i → j < i → has_prefix p (drop j s) ≡ false
unfolding index
index_first p [] i j h lt = ground arith
index_first p (c ∷ s) i zero h lt = ground arith
index_first p (c ∷ s) i (suc j) h lt = elim (Option-cases (index p s)) [
  | inl miss ↦ ground arith
  | inr (k, hit) ↦ ground (arith, index_first p s k j hit)
]

-- A miss means that no place has an occurrence.
pub index_complete : (p s : Text) (j : ℕ) → index p s ≡ none → has_prefix p (drop j s) ≡ false
unfolding index
index_complete p [] zero h = ground arith
index_complete p [] (suc j) h = ground arith
index_complete p (c ∷ s) zero h = ground arith
index_complete p (c ∷ s) (suc j) h = ground (arith, index_complete p s j)

pub index-le : (p s : Text) (i : ℕ) → index p s ≡ some i → i ≤ length s
unfolding index
index-le p [] i h = ground arith
index-le p (c ∷ s) i h = elim (Option-cases (index p s)) [
  | inl miss ↦ ground arith
  | inr (j, hit) ↦ ground (arith, index-le p s j hit)
]

-- The first occurrence is the one that is found.
pub index_at :
    (p s : Text) (i : ℕ)
    → i ≤ length s
    → has_prefix p (drop i s) ≡ true
    → ((j : ℕ) → j < i → has_prefix p (drop j s) ≡ false)
    → index p s ≡ some i
unfolding index
index_at p [] zero l h none_before = ground arith
index_at p [] (suc i) l h none_before = absurd (omega arith)
index_at p (c ∷ s) zero l h none_before = ground arith
index_at p (c ∷ s) (suc i) l h none_before =
    let rest = index_at p s i (omega arith) h (λ j lt. none_before (suc j) (omega arith)) in
    ground (arith, rest, none_before 0 (omega arith))

-- A found text is cut out of the text around it.
pub index_split :
    (p s : Text) (i : ℕ) → index p s ≡ some i → s ≡ take i s ++ (p ++ drop (i + length p) s)
index_split p s i h =
    let hit = has_prefix_sound p (drop i s) (index_sound p s i h) in
    sym (take-append-drop i s)
    ∙ ap (◌++◌ (take i s)) (hit ∙ ap (◌++◌ p) (sym (drop-add i (length p) s)))

-- A text contains another exactly when it is cut at it into two parts.
pub contains_iff :
    (p s : Text)
    → (contains p s ≡ true) ↔ ((before : Text) × (after : Text) × (s ≡ before ++ (p ++ after)))
unfolding contains
contains_iff p s = elim (Option-cases (index p s)) [
  | inr (i, hit) ↦
      (λ _. (take i s, drop (i + length p) s, index_split p s i hit), λ _. rw (hit, contains) refl)
  | inl miss ↦
      (λ h. absurd (let e = rw (miss, contains) at h in cc), λ f. absurd (missed f.0 f.1 miss f.2))
]
  where
    missed : (before after : Text) → index p s ≡ none → s ≡ before ++ (p ++ after) → ⊥
    missed before after miss split =
        let hit : has_prefix p (drop (length before) s) ≡ true =
          rw (split, drop-append_left before (p ++ after)) (has_prefix-append p after) in
        let none_there = index_complete p s (length before) miss in cc

abbrev pub In : Text → List Text → Type 0
In p [] = ⊥
In p (q ∷ qs) = (p ≡ q) ⊎ In p qs
