-- ===== src/Signals/Context/Window.antt =====
-- lookupWindowSize of internal/signals/context.go, by the longest key that matches a model.
use ca_session_source.Base.{
  ℕ, ◌≤◌, ◌≡◌, ◌⊎◌, ◌↔◌, refl, sym, ap, subst, ◌∙◌, inl, inr, true, false, List, [], ◌∷◌, none,
  some, arith, nat_equality, list_equality, Bool-cases, Option-cases, length, All, is_some, take,
  take-append_left, drop,
}
use ca_session_source.GoMap.{Map, get}
use ca_session_source.GoText.{Text, has_prefix}
use ca_session_source.GoText.Laws.{In, has_prefix_sound}
use ca_session_source.Signals.Context.{prefix_matches, first_prefix, lookup_window_size}

-- Sorted by length, longest first.
abbrev pub LongestFirst : List Text → Type 0
LongestFirst [] = Unit
LongestFirst (p ∷ ps) = All (λ q. length q ≤ length p) ps × LongestFirst ps

-- The sorted prefixes are the keys of the map.
abbrev pub AreKeys : Map Text ℕ → List Text → Type 0
AreKeys sizes ps = (p : Text) → In p ps ↔ (is_some (get p sizes) ≡ true)

matching_prefix : (model p : Text) → prefix_matches model p ≡ true → has_prefix p model ≡ true
unfolding prefix_matches
matching_prefix model p h = ground arith

-- Matching prefixes of one length are equal.
matching_unique :
    (model p q : Text)
    → prefix_matches model p ≡ true
    → prefix_matches model q ≡ true
    → length p ≡ length q
    → p ≡ q
matching_unique model p q hp hq e =
    let ep = has_prefix_sound p model (matching_prefix model p hp) in
    let eq = has_prefix_sound q model (matching_prefix model q hq) in
    let tp : take (length p) model ≡ p =
      ap (take (length p)) ep ∙ take-append_left p (drop (length p) model) in
    let tq : take (length q) model ≡ q =
      ap (take (length q)) eq ∙ take-append_left q (drop (length q) model) in
    sym tp ∙ ap (λ n. take n model) e ∙ tq

All-In : (P : Text → Type 0) (p : Text) (qs : List Text) → All P qs → In p qs → P p
All-In P p [] a i = absurd i
All-In P p (q ∷ qs) a (inl e) = subst P (sym e) a.0
All-In P p (q ∷ qs) a (inr i) = All-In P p qs a.1 i

first_prefix-longest :
    (sizes : Map Text ℕ) (model p : Text) (ps : List Text)
    → LongestFirst ps
    → In p ps
    → prefix_matches model p ≡ true
    → ((q : Text) → In q ps → prefix_matches model q ≡ true → length q ≤ length p)
    → first_prefix sizes model ps ≡ (elim (get p sizes) [ none ↦ 0 | some size ↦ size ])
unfolding first_prefix
first_prefix-longest sizes model p [] sorted i hit longest = absurd i
first_prefix-longest sizes model p (q ∷ qs) sorted (inl e) hit longest =
    let hit' : prefix_matches model q ≡ true = rw e at hit in
    rw hit' (ap (λ k. elim (get k sizes) [ none ↦ 0 | some size ↦ size ]) (sym e))
first_prefix-longest sizes model p (q ∷ qs) sorted (inr i) hit longest =
    elim (Bool-cases (prefix_matches model q)) [
      | inl here ↦
          let e : p ≡ q = matching_unique model p q hit here (
            omega (
              arith,
              All-In (λ r. length r ≤ length q) p qs sorted.0 i,
              longest q (inl refl) here,
            )) in
          rw here (ap (λ k. elim (get k sizes) [ none ↦ 0 | some size ↦ size ]) (sym e))
      | inr miss ↦
          rw miss (
            first_prefix-longest sizes model p qs sorted.1 i hit (λ r ir hr. longest r (inr ir) hr))
    ]

first_prefix-miss :
    (sizes : Map Text ℕ) (model : Text) (ps : List Text)
    → ((q : Text) → In q ps → prefix_matches model q ≡ false)
    → first_prefix sizes model ps ≡ 0
unfolding first_prefix
first_prefix-miss sizes model [] miss = refl
first_prefix-miss sizes model (q ∷ qs) miss =
    rw (miss q (inl refl)) (first_prefix-miss sizes model qs (λ r ir. miss r (inr ir)))

-- What the size of a model is to be: its own, or that of the longest key that matches it, or 0.
pub data IsWindowSize (sizes : Map Text ℕ) (ps : List Text) (model : Text) : ℕ → Type 0 where
  listed : {n : ℕ} → get model sizes ≡ some n → IsWindowSize sizes ps model n
  by_prefix :
      {n : ℕ} (p : Text)
      → get model sizes ≡ none
      → get p sizes ≡ some n
      → prefix_matches model p ≡ true
      → ((q : Text) → In q ps → prefix_matches model q ≡ true → length q ≤ length p)
      → IsWindowSize sizes ps model n
  unlisted :
      get model sizes ≡ none
      → ((q : Text) → In q ps → prefix_matches model q ≡ false)
      → IsWindowSize sizes ps model 0

size_found :
    (sizes : Map Text ℕ) (ps : List Text) (model : Text) (n : ℕ)
    → LongestFirst ps
    → AreKeys sizes ps
    → IsWindowSize sizes ps model n
    → lookup_window_size sizes ps model ≡ n
unfolding lookup_window_size
size_found sizes ps model n sorted are_keys (listed h) = ground arith
size_found sizes ps model n sorted are_keys (by_prefix p h hp hit longest) =
    let i : In p ps = (are_keys p).1 (rw hp) in
    let found = first_prefix-longest sizes model p ps sorted i hit longest in ground arith
size_found sizes ps model n sorted are_keys (unlisted h miss) =
    ground (arith, first_prefix-miss sizes model ps miss)

-- A prefix that matches and that no matching one is longer than.
abbrev BestPrefix : Text → List Text → Type 0
BestPrefix model ps =
    (p : Text) × In p ps
    × (prefix_matches model p ≡ true)
    × ((q : Text) → In q ps → prefix_matches model q ≡ true → length q ≤ length p)

best_prefix :
    (model : Text) (ps : List Text)
    → LongestFirst ps
    → BestPrefix model ps ⊎ ((q : Text) → In q ps → prefix_matches model q ≡ false)
best_prefix model [] sorted = inr (λ q i. absurd i)
best_prefix model (p ∷ ps) sorted = elim (Bool-cases (prefix_matches model p)) [
  | inl hit ↦ inl (
    p,
    inl refl,
    hit,
    λ q i h. elim i [
      | inl e ↦ rw e (omega arith)
      | inr later ↦ All-In (λ r. length r ≤ length p) q ps sorted.0 later
    ],
  )
  | inr miss ↦ elim (best_prefix model ps sorted.1) [
    | inl (q, i, h, longest) ↦ inl (
      q,
      inr i,
      h,
      λ r j hr. elim j [
        | inl e ↦ absurd (let hp : prefix_matches model p ≡ true = rw e at hr in cc)
        | inr later ↦ longest r later hr
      ],
    )
    | inr none_hit ↦ inr (λ q i. elim i [ inl e ↦ rw e miss | inr later ↦ none_hit q later ])
  ]
]

window_size :
    (sizes : Map Text ℕ) (ps : List Text) (model : Text)
    → LongestFirst ps
    → AreKeys sizes ps
    → (n : ℕ) × IsWindowSize sizes ps model n
window_size sizes ps model sorted are_keys = elim (Option-cases (get model sizes)) [
  | inl absent ↦ elim (best_prefix model ps sorted) [
    | inl (p, i, hit, longest) ↦ elim (Option-cases (get p sizes)) [
      | inl gone ↦ absurd (let known = (are_keys p).0 i in ground arith)
      | inr (n, h) ↦ (n, by_prefix p absent h hit longest)
    ]
    | inr none_hit ↦ (0, unlisted absent none_hit)
  ]
  | inr (n, h) ↦ (n, listed h)
]

-- For a map of sizes and its keys sorted longest first, equal lengths in any order, the answer is n
-- exactly when the model is a key of size n; or it is none, and a key that matches it, and is no
-- shorter than any other key that does, has the size n; or no key matches it, and n is 0.
pub lookup_window_size_iff :
    (sizes : Map Text ℕ) (ps : List Text) (model : Text) (n : ℕ)
    → LongestFirst ps
    → AreKeys sizes ps
    → (lookup_window_size sizes ps model ≡ n) ↔ IsWindowSize sizes ps model n
lookup_window_size_iff sizes ps model n sorted are_keys = (
  λ e.
      let (m, is_size) = window_size sizes ps model sorted are_keys in
      let same : m ≡ n = sym (size_found sizes ps model m sorted are_keys is_size) ∙ e in
      subst (IsWindowSize sizes ps model) same is_size,
  size_found sizes ps model n sorted are_keys,
)
