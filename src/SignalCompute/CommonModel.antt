-- ===== src/SignalCompute/CommonModel.antt =====
-- extractMostCommonModel of internal/sync/signal_compute.go, for any order of the map of counts.
use mathlib.Core.Path.{subst₂}
use ca_session_source.Base.{
  ℕ, zero, suc, ◌+◌, ◌≤◌, ◌<◌, ◌≡◌, ◌⊎◌, ◌↔◌, refl, sym, ap, ◌∙◌, inl, inr, Bool, ◌&&◌, List, [],
  ◌∷◌, Option, none, some, arith, ◌==◌, ==_iff, string_equality, nat_equality, list_equality, ltb,
  if◌then◌else◌, All, Bool-cases, Option-cases,
}
use ca_session_source.Base.Counting.{count}
use ca_session_source.GoMap.{Map, get, get_or}
use ca_session_source.GoMap.Laws.{get-put}
use ca_session_source.GoText.{Text}
use ca_session_source.MessageRows.{Message}
use ca_session_source.SignalCompute.{
  has_model, ModelCounts, count_model, count_models, Best, better, best_model, no_best, no_counts,
}

-- An assistant's message with the model `p`, which is not the empty text.
pub uses_model : Text → Message → Bool
uses_model p m = has_model m && m.model == p

abbrev pub uses : Text → List Message → ℕ
uses p msgs = count (uses_model p) msgs

-- The index of the first message with the model, the list beginning at index `i`.
abbrev pub first_from : ℕ → Text → List Message → Option ℕ
first_from i p [] = none
first_from i p (m ∷ msgs) =
    let rest = first_from (suc i) p msgs in if uses_model p m then some i else rest

-- The same from index 0, and 0 where no message has the model.
abbrev pub first_use : Text → List Message → ℕ
first_use p msgs = elim (first_from 0 p msgs) [ none ↦ 0 | some i ↦ i ]

abbrev bump : Option ℕ → ℕ → Option ℕ
bump none zero = none
bump none (suc n) = some (suc n)
bump (some a) n = some (a + n)

abbrev or_else : Option ℕ → Option ℕ → Option ℕ
or_else none later = later
or_else (some i) later = some i

get-count_models :
    (p : Text) (i : ℕ) (s : ModelCounts) (msgs : List Message)
    → get p (count_models i s msgs).counts ≡ bump (get p s.counts) (uses p msgs)
unfolding count_models uses_model get_or
get-count_models p i s [] = elim (Option-cases (get p s.counts)) [
  | inl e ↦ rw e
  | inr (a, e) ↦ rw e (ap some (omega arith))
]
get-count_models p i s (m ∷ msgs) =
    let s' = if has_model m then count_model i m.model s else s in
    let law = get-put m.model p (get_or 0 m.model s.counts + 1) s.counts in
    ground (arith, get-count_models p (suc i) s' msgs, law, ==_iff m.model p)

get-first_seen :
    (p : Text) (i : ℕ) (s : ModelCounts) (msgs : List Message)
    → get p (count_models i s msgs).first_seen ≡ or_else (get p s.first_seen) (first_from i p msgs)
unfolding count_models uses_model
get-first_seen p i s [] = elim (Option-cases (get p s.first_seen)) [
  | inl e ↦ rw e
  | inr (a, e) ↦ rw e
]
get-first_seen p i s (m ∷ msgs) =
    let s' = if has_model m then count_model i m.model s else s in
    let law = get-put m.model p i s.first_seen in
    let same : m.model ≡ p → get m.model s.first_seen ≡ get p s.first_seen =
      λ e. ap (λ k. get k s.first_seen) e in
    ground (arith, get-first_seen p (suc i) s' msgs, law, ==_iff m.model p, same)

-- An entry stands in a list of entries.
abbrev pub Listed : Text × ℕ → List (Text × ℕ) → Type 0
Listed e [] = ⊥
Listed e (f ∷ fs) = ((e.0 ≡ f.0) × (e.1 ≡ f.1)) ⊎ Listed e fs

-- The list holds the entries of the map, in some order.
abbrev pub Visits : List (Text × ℕ) → Map Text ℕ → Type 0
Visits visited m = (k : Text) (n : ℕ) → Listed (k, n) visited ↔ (get k m ≡ some n)

-- The first entry has the higher count, or the same count and is not seen later.
abbrev pub Beats : (Text → ℕ) → Text → ℕ → Text → ℕ → Type 0
Beats first p m q n = (n < m) ⊎ ((n ≡ m) × (first p ≤ first q))

better_lem :
    (seen : Map Text ℕ) (best : Best) (b : ℕ) (model : Text) (n : ℕ)
    → best.count ≡ some b
    → let next = better seen best model n in
      let first = λ (p : Text). get_or 0 p seen in
      (c : ℕ) × (next.count ≡ some c)
      × Beats first next.model c best.model b
      × Beats first next.model c model n
      × (((next.model ≡ best.model) × (c ≡ b)) ⊎ ((next.model ≡ model) × (c ≡ n)))
unfolding better
better_lem seen best b model n e =
    let first_model = get_or 0 model seen in
    let first_best = get_or 0 best.model seen in
    elim (Bool-cases (ltb b n)) [
      | inl more ↦ (
        n,
        rw (e, better, more),
        rw (e, better, more) (ground arith),
        rw (e, better, more) (inr (refl, omega arith)),
        rw (e, better, more) (inr (refl, refl)),
      )
      | inr no_more ↦ elim (Bool-cases (n == b && ltb first_model first_best)) [
        | inl earlier ↦ (
          b,
          rw (e, better, no_more, earlier),
          rw (e, better, no_more, earlier) (ground arith),
          rw (e, better, no_more, earlier) (ground arith),
          rw (e, better, no_more, earlier) (inr (refl, ground arith)),
        )
        | inr not_earlier ↦ (
          b,
          rw (e, better, no_more, not_earlier) e,
          rw (e, better, no_more, not_earlier) (inr (refl, omega arith)),
          rw (e, better, no_more, not_earlier) (ground arith),
          rw (e, better, no_more, not_earlier) (inl (refl, refl)),
        )
      ]
    ]

Beats-trans :
    (first : Text → ℕ) (p q r : Text) (l m n : ℕ)
    → Beats first p l q m
    → Beats first q m r n
    → Beats first p l r n
Beats-trans first p q r l m n a b = omega arith

-- The loop's answer is the best so far or an entry, and beats these all.
record Wins (seen : Map Text ℕ) (r b_model : Text) (b : ℕ) (visited : List (Text × ℕ))
    : Type 0 where
  total : ℕ
  origin : ((r ≡ b_model) × (total ≡ b)) ⊎ Listed (r, total) visited
  beats_best : Beats (λ p. get_or 0 p seen) r total b_model b
  beats_all : All (λ e. Beats (λ p. get_or 0 p seen) r total e.0 e.1) visited

best_model-Wins :
    (seen : Map Text ℕ) (best : Best) (b : ℕ) (visited : List (Text × ℕ))
    → best.count ≡ some b
    → Wins seen (best_model seen best visited) best.model b visited
unfolding best_model
best_model-Wins seen best b [] e = record {
  total = b;
  origin = inl (refl, refl);
  beats_best = inr (refl, omega arith);
  beats_all = tt;
}
best_model-Wins seen best b ((model, n) ∷ visited) e =
    let first = λ (p : Text). get_or 0 p seen in
    let next = better seen best model n in
    let (c, has_c, over_best, over_entry, origin) = better_lem seen best b model n e in
    let w = best_model-Wins seen next c visited has_c in
    let r = best_model seen next visited in
    record {
      total = w.total;
      origin = elim w.origin [
        | inl (same, size) ↦ elim origin [
          | inl (old, k) ↦ inl (same ∙ old, size ∙ k)
          | inr (new, k) ↦ inr (inl (same ∙ new, size ∙ k))
        ]
        | inr later ↦ inr (inr later)
      ];
      beats_best = Beats-trans first r next.model best.model w.total c b w.beats_best over_best;
      beats_all =
          (Beats-trans first r next.model model w.total c n w.beats_best over_entry, w.beats_all);
    }

best_model-no_best :
    (seen : Map Text ℕ) (model : Text) (n : ℕ) (visited : List (Text × ℕ))
    → Wins seen (best_model seen no_best ((model, n) ∷ visited)) model n visited
unfolding best_model better
best_model-no_best seen model n visited =
    best_model-Wins seen (record { model = model; count = some n }) n visited refl

Listed-All :
    (P : Text → ℕ → Type 0) (k : Text) (n : ℕ) (es : List (Text × ℕ))
    → All (λ e. P e.0 e.1) es
    → Listed (k, n) es
    → P k n
Listed-All P k n [] a l = absurd l
Listed-All P k n ((j, m) ∷ es) a (inl (p, q)) = subst₂ P (sym p) (sym q) a.0
Listed-All P k n (e ∷ es) a (inr l) = Listed-All P k n es a.1 l

get-counts :
    (p : Text) (msgs : List Message)
    → get p (count_models 0 no_counts msgs).counts ≡ bump none (uses p msgs)
unfolding get
get-counts p msgs = get-count_models p 0 no_counts msgs

get_or-first_seen :
    (p : Text) (msgs : List Message)
    → get_or 0 p (count_models 0 no_counts msgs).first_seen ≡ first_use p msgs
unfolding get get_or
get_or-first_seen p msgs =
    ap (λ o. elim o [ none ↦ 0 | some i ↦ i ]) (get-first_seen p 0 no_counts msgs)

bump_pos : (n : ℕ) → 0 < n → bump none n ≡ some n
bump_pos zero h = absurd (omega arith)
bump_pos (suc n) h = refl

bump-some : (n m : ℕ) → bump none n ≡ some m → (n ≡ m) × (0 < n)
bump-some zero m h = absurd (cc)
bump-some (suc n) m h = (ground arith, omega arith)

-- The model that is used most, and first among the models used as often; the empty text where no
-- assistant's message names a model.
pub data IsMostCommon (msgs : List Message) (r : Text) : Type 0 where
  unused : ((p : Text) → uses p msgs ≡ 0) → r ≡ [] → IsMostCommon msgs r
  most :
      0 < uses r msgs
      → ((p : Text)
          → 0 < uses p msgs
          → Beats (λ q. first_use q msgs) r (uses r msgs) p (uses p msgs))
      → IsMostCommon msgs r

-- Whatever the order in which the counts of the models are visited, extractMostCommonModel picks
-- the model that the most assistant's messages name, and among the models named as often the one
-- that is named first. It picks the empty text where no assistant's message names a model.
pub best_model-IsMostCommon :
    (msgs : List Message) (visited : List (Text × ℕ))
    → Visits visited (count_models 0 no_counts msgs).counts
    → IsMostCommon msgs (best_model (count_models 0 no_counts msgs).first_seen no_best visited)
unfolding best_model
best_model-IsMostCommon msgs [] v = unused (λ p. none_used p (uses p msgs) refl) refl
  where
    none_used : (p : Text) (n : ℕ) → uses p msgs ≡ n → uses p msgs ≡ 0
    none_used p zero e = e
    none_used p (suc n) e = absurd ((v p (suc n)).1 (get-counts p msgs ∙ ap (bump none) e))
best_model-IsMostCommon msgs ((model, n) ∷ visited) v =
    let seen = (count_models 0 no_counts msgs).first_seen in
    let w = best_model-no_best seen model n visited in
    let r = best_model seen no_best ((model, n) ∷ visited) in
    let listed : Listed (r, w.total) ((model, n) ∷ visited) = elim w.origin [
      | inl e ↦ inl e
      | inr l ↦ inr l
    ] in
    let counted =
      bump-some (uses r msgs) w.total (sym (get-counts r msgs) ∙ (v r w.total).0 listed) in
    most (counted.1) λ p used.
      let there : Listed (p, uses p msgs) ((model, n) ∷ visited) =
        (v p (uses p msgs)).1 (get-counts p msgs ∙ bump_pos (uses p msgs) used) in
      let over =
        Listed-All (λ q m. Beats (λ k. get_or 0 k seen) r w.total q m) p (uses p msgs)
          ((model, n) ∷ visited) (w.beats_best, w.beats_all) there in
      omega (arith, over, counted.0, get_or-first_seen r msgs, get_or-first_seen p msgs)
