-- ===== src/SessionTiming/Subagents.antt =====
-- attributeTurnGo of internal/db/timing.go: the calls of sub-agents, and the longest of them.
use ca_session_source.Base.{
  ◌+◌, ◌≤◌, ◌≡◌, ◌⊎◌, ◌↔◌, refl, ap, ◌∙◌, inl, inr, Bool, true, not, ◌&&◌, List, [], ◌∷◌, ◌++◌,
  none, some, arith, list_equality, All, nat_equality, if◌then◌else◌, is_some, append-nil,
  append_assoc, Bool-cases, Option-cases,
}
use ca_session_source.Base.Counting.{select}
use ca_session_source.Base.Int.{ℤ, pos, negsuc, pos_part, neg_part, ◌-ℤ◌, ltb_ℤ}
use ca_session_source.SessionTiming.{CallTiming, is_timed_subagent, split_calls, union_of, max_ℤ}

-- The calls that are no sub-agents' with a duration.
abbrev pub others : List CallTiming → List CallTiming
others calls = select (λ c. not (is_timed_subagent c)) calls

-- The durations of the sub-agents that have one.
abbrev pub subagent_times : List CallTiming → List ℤ
subagent_times [] = []
subagent_times (c ∷ calls) =
    if is_some c.subagent_session_id
    then elim c.duration_ms as (λ _. List ℤ) [
      | none ↦ subagent_times calls
      | some d ↦ d ∷ subagent_times calls
    ]
    else subagent_times calls

pub split_calls-parts :
    (sub_totals : List ℤ) (non_sub calls : List CallTiming)
    → split_calls sub_totals non_sub calls
      ≡ (sub_totals ++ subagent_times calls, non_sub ++ others calls)
unfolding split_calls
split_calls-parts sub_totals non_sub [] = rw (append-nil, append-nil) refl
split_calls-parts sub_totals non_sub (c ∷ calls) =
    let left_over =
      split_calls-parts sub_totals (non_sub ++ c ∷ []) calls
      ∙ ap (λ l. (sub_totals ++ subagent_times calls, l))
          (append_assoc non_sub (c ∷ []) (others calls)) in
    elim (Bool-cases (is_some c.subagent_session_id)) [
      | inr alone ↦ rw alone left_over
      | inl sub ↦ elim (Option-cases c.duration_ms) [
        | inl untimed ↦ simp (sub, untimed) left_over
        | inr (d, timed) ↦
            simp (sub, timed)
              (split_calls-parts (sub_totals ++ d ∷ []) non_sub calls
                ∙ ap (λ l. (l, non_sub ++ others calls))
                    (append_assoc sub_totals (d ∷ []) (subagent_times calls)))
      ]
    ]

abbrev pub AtMost : ℤ → ℤ → Type 0
AtMost a b = pos_part a + neg_part b ≤ pos_part b + neg_part a

abbrev OneOf : ℤ → List ℤ → Type 0
OneOf d [] = ⊥
OneOf d (e ∷ ds) = (d ≡ e) ⊎ OneOf d ds

-- The longest of the durations, or 0 where none is above it.
pub record IsLongest (longest : ℤ) (durations : List ℤ) : Type 0 where
  pub positive : AtMost (pos 0) longest
  pub maximal : All (λ d. AtMost d longest) durations
  pub attained : (longest ≡ pos 0) ⊎ OneOf longest durations

-- The duration is positive and no less than what it leaves of the turn.
abbrev pub Covers : ℤ → ℤ → Type 0
Covers longest turn_dur = (¬ AtMost longest (pos 0)) × AtMost (turn_dur -ℤ longest) longest

-- The test of the code.
abbrev pub is_covering : ℤ → ℤ → Bool
is_covering longest turn_dur =
    ltb_ℤ (pos 0) longest && not (ltb_ℤ longest (max_ℤ (turn_dur -ℤ longest) (pos 0)))

pub is_covering_iff :
    (longest turn_dur : ℤ) → (is_covering longest turn_dur ≡ true) ↔ Covers longest turn_dur
unfolding max_ℤ
is_covering_iff longest turn_dur = by_parts longest (turn_dur -ℤ longest)
  where
    by_parts :
        (longest left : ℤ)
        → ((ltb_ℤ (pos 0) longest && not (ltb_ℤ longest (max_ℤ left (pos 0)))) ≡ true)
          ↔ ((¬ AtMost longest (pos 0)) × AtMost left longest)
    by_parts (pos n) (pos m) = ground arith
    by_parts (pos n) (negsuc m) = ground arith
    by_parts (negsuc n) (pos m) = ground arith
    by_parts (negsuc n) (negsuc m) = ground arith

-- The loop, begun with `start`.
record Longest (start longest : ℤ) (durations : List ℤ) : Type 0 where
  from : AtMost start longest
  above : All (λ d. AtMost d longest) durations
  found : (longest ≡ start) ⊎ OneOf longest durations

union_of-Longest :
    (start : ℤ) (durations : List ℤ) → Longest start (union_of start durations) durations
unfolding union_of
union_of-Longest start [] = record { from = omega arith; above = tt; found = inl refl }
union_of-Longest start (d ∷ ds) = elim (Bool-cases (ltb_ℤ start d)) [
  | inl longer ↦
      let rest = union_of-Longest d ds in
      rw longer (record {
        from = ground (arith, rest.from);
        above = (rest.from, rest.above);
        found = elim rest.found [ inl e ↦ inr (inl e) | inr o ↦ inr (inr o) ];
      })
  | inr shorter ↦
      let rest = union_of-Longest start ds in
      rw shorter (record {
        from = rest.from;
        above = (ground (arith, rest.from), rest.above);
        found = elim rest.found [ inl e ↦ inl e | inr o ↦ inr (inr o) ];
      })
]

pub union_of-IsLongest : (durations : List ℤ) → IsLongest (union_of (pos 0) durations) durations
union_of-IsLongest durations =
    let l = union_of-Longest (pos 0) durations in
    record { positive = l.from; maximal = l.above; attained = l.found }
