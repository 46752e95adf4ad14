-- ===== src/SessionTiming/Primary.antt =====
-- attributeTurnGo of internal/db/timing.go: the category that a turn is counted under, for any order
-- of the map of counts.
use ca_session_source.Base.{
  ℕ, ◌+◌, ◌*◌, ◌≤◌, ◌<◌, ◌≡◌, ◌⊎◌, refl, sym, subst, inl, inr, Bool, false, not, ◌&&◌, List, [],
  ◌∷◌, Option, none, some, arith, ◌==◌, ==_iff, list_equality, nat_equality, if◌then◌else◌, ltb,
  length, Bool-cases, Option-cases,
}
use ca_session_source.Base.Counting.{count, count-le-length}
use ca_session_source.Base.Int.{ℤ, pos, ◌-ℤ◌, ltb_ℤ}
use ca_session_source.GoMap.{Map, get, put, get_or}
use ca_session_source.GoMap.Laws.{get_or-put}
use ca_session_source.GoText.{Text, codes}
use ca_session_source.SignalCompute.CommonModel.{Listed, Visits}
use ca_session_source.SessionTiming.Subagents.{
  others, subagent_times, split_calls-parts, IsLongest, Covers, is_covering, is_covering_iff,
  union_of-IsLongest,
}
use ca_session_source.SessionTiming.{
  CallTiming, union_of, max_ℤ, count_categories, majority, attribute_turn_go,
}

abbrev pub in_category : Text → CallTiming → Bool
in_category cat c = c.category == cat

abbrev pub in_category_count : Text → List CallTiming → ℕ
in_category_count cat calls = count (in_category cat) calls

get_or-count_categories :
    (cat : Text) (counts : Map Text ℕ) (calls : List CallTiming)
    → get_or 0 cat (count_categories counts calls)
      ≡ get_or 0 cat counts + in_category_count cat calls
unfolding count_categories
get_or-count_categories cat counts [] = omega arith
get_or-count_categories cat counts (c ∷ calls) =
    let next = put c.category (get_or 0 c.category counts + 1) counts in
    ground (
      arith,
      get_or-count_categories cat next calls,
      get_or-put 0 c.category cat (get_or 0 c.category counts + 1) counts,
      ==_iff c.category cat,
    )

-- The loop answers an entry with more than half, or that there is none.
majority-Listed :
    (n : ℕ) (visited : List (Text × ℕ))
    → ((cat : Text) × (k : ℕ) × Listed (cat, k) visited × (n < k * 2) × (majority n visited ≡ cat))
      ⊎ (((cat : Text) (k : ℕ) → Listed (cat, k) visited → k * 2 ≤ n)
          × (majority n visited ≡ codes "Mixed"))
unfolding majority
majority-Listed n [] = inr (λ cat k l. absurd l, refl)
majority-Listed n (e ∷ visited) = elim (Bool-cases (ltb n (e.1 * 2))) [
  | inl more ↦ inl (e.0, e.1, inl (refl, refl), ground arith, rw more refl)
  | inr no_more ↦ elim (majority-Listed n visited) [
    | inl (cat, k, l, half, answer) ↦ inl (cat, k, inr l, half, rw no_more answer)
    | inr (few, answer) ↦ inr (
      λ cat k l. elim l [
        | inl (same_cat, same_k) ↦ omega (arith, same_k, ltb_no n (e.1 * 2) no_more)
        | inr later ↦ few cat k later
      ],
      rw no_more answer,
    )
  ]
]
  where
    ltb_no : (a b : ℕ) → ltb a b ≡ false → b ≤ a
    ltb_no a b h = ground arith

-- The category that a turn is counted under.
pub data IsPrimary (calls : List CallTiming) : Option ℤ → Text → Type 0 where
  unknown : IsPrimary calls none (codes "Mixed")
  covered :
      (turn_dur longest : ℤ)
      → IsLongest longest (subagent_times calls)
      → Covers longest turn_dur
      → IsPrimary calls (some turn_dur) (codes "Task")
  most :
      (turn_dur longest : ℤ) (cat : Text)
      → IsLongest longest (subagent_times calls)
      → ¬ Covers longest turn_dur
      → length (others calls) < in_category_count cat (others calls) * 2
      → IsPrimary calls (some turn_dur) cat
  mixed :
      (turn_dur longest : ℤ)
      → IsLongest longest (subagent_times calls)
      → ¬ Covers longest turn_dur
      → ((cat : Text) → in_category_count cat (others calls) * 2 ≤ length (others calls))
      → IsPrimary calls (some turn_dur) (codes "Mixed")

-- How the category follows from the parts of the calls.
abbrev primary_for : (Map Text ℕ → List (Text × ℕ)) → ℤ → List ℤ × List CallTiming → Text
primary_for visit turn_dur parts =
    let longest = union_of (pos 0) parts.0 in
    if ltb_ℤ (pos 0) longest && not (ltb_ℤ longest (max_ℤ (turn_dur -ℤ longest) (pos 0)))
    then codes "Task"
    else if length parts.1 == 0
    then codes "Mixed"
    else majority (length parts.1) (visit (count_categories [] parts.1))

counted :
    (cat : Text) (k : ℕ) (calls : List CallTiming)
    → get cat (count_categories [] calls) ≡ some k
    → in_category_count cat calls ≡ k
unfolding get_or get
counted cat k calls e = let sum = get_or-count_categories cat [] calls in ground (arith, sum, e)

uncounted :
    (cat : Text) (calls : List CallTiming)
    → get cat (count_categories [] calls) ≡ none
    → in_category_count cat calls ≡ 0
unfolding get_or get
uncounted cat calls e = let sum = get_or-count_categories cat [] calls in ground (arith, sum, e)

majority-IsPrimary :
    (visited : List (Text × ℕ)) (turn_dur longest : ℤ) (calls : List CallTiming)
    → Visits visited (count_categories [] (others calls))
    → IsLongest longest (subagent_times calls)
    → ¬ Covers longest turn_dur
    → IsPrimary calls (some turn_dur) (majority (length (others calls)) visited)
majority-IsPrimary visited turn_dur longest calls visits long bare =
    elim (majority-Listed (length (others calls)) visited) [
      | inl (cat, k, listed, half, answer) ↦
          let all = counted cat k (others calls) ((visits cat k).0 listed) in
          rw answer (most turn_dur longest cat long bare (omega (arith, all)))
      | inr (few, answer) ↦
          let at_most_half : (cat : Text)
              → in_category_count cat (others calls) * 2 ≤ length (others calls) =
            λ cat. elim (Option-cases (get cat (count_categories [] (others calls)))) [
              | inl absent ↦ omega (arith, uncounted cat (others calls) absent)
              | inr (k, found) ↦
                  let all = counted cat k (others calls) found in
                  omega (arith, all, few cat k ((visits cat k).1 found))
            ] in
          rw answer (mixed turn_dur longest long bare at_most_half)
    ]

-- attributeTurnGo counts a turn of unknown duration under "Mixed". For the others, take the longest
-- duration of a sub-agent's call, or 0 where there is none above it. If it is positive and no less
-- than what it leaves of the turn, the turn is counted under "Task"; any other turn under the
-- category of more than half of the calls that are no timed sub-agent's, and under "Mixed" where
-- there is none. In whatever order the map of counts is visited, that is so.
pub attribute_turn_go-IsPrimary :
    (visit : Map Text ℕ → List (Text × ℕ)) (turn_dur : Option ℤ) (calls : List CallTiming)
    → (let counts = count_categories [] (others calls) in Visits (visit counts) counts)
    → IsPrimary calls turn_dur (attribute_turn_go visit turn_dur calls).primary_category
unfolding attribute_turn_go
attribute_turn_go-IsPrimary visit none calls visits = unknown
attribute_turn_go-IsPrimary visit (some turn_dur) calls visits =
    let longest = union_of (pos 0) (subagent_times calls) in
    let long = union_of-IsLongest (subagent_times calls) in
    subst (λ parts. IsPrimary calls (some turn_dur) (primary_for visit turn_dur parts))
      (sym (split_calls-parts [] [] calls))
      (elim (Bool-cases (is_covering longest turn_dur)) [
        | inl all ↦
            rw all (covered turn_dur longest long ((is_covering_iff longest turn_dur).0 all))
        | inr short ↦
            let bare : ¬ Covers longest turn_dur =
              λ c. absurd (let e = (is_covering_iff longest turn_dur).1 c in cc) in
            elim (Bool-cases (length (others calls) == 0)) [
              | inl alone ↦
                  rw (short, alone)
                    (mixed turn_dur longest long bare
                      (λ cat. ground (arith, count-le-length (in_category cat) (others calls))))
              | inr some_left ↦
                  rw (short, some_left)
                    (majority-IsPrimary (visit (count_categories [] (others calls))) turn_dur
                      longest calls visits long bare)
            ]
      ])
