-- ===== src/Signals/Context/MidTask.antt =====
-- CountMidTaskCompactions of internal/signals/context.go: the tools around a boundary.
use ca_session_source.Base.{
  ℕ, zero, suc, ◌+◌, ◌≤◌, ◌≡◌, ◌≢◌, ◌↔◌, refl, sym, ap, ◌∙◌, inl, inr, String, true, false, ◌&&◌,
  ◌||◌, List, [], ◌∷◌, ◌++◌, map, arith, ◌==◌, ==_iff, ==_refl, string_equality, Bool-cases, length,
  take, drop, if◌then◌else◌, ltb, leb, length-append, append_assoc, append-nil, ◌-◌,
}
use mathlib.Core.Path.{subst₂}
use ca_session_source.Base.Counting.{count, select}
use ca_session_source.Signals.Context.{
  ToolCallOrdinal, names_before, keep_last, after_loop, tool_window_before, tool_window_after,
  has_name, add_name, name_set, matched_loop, is_mid_task, count_boundaries,
  count_mid_task_compactions,
}

has_name-append :
    (x : String) (ms ns : List String) → has_name x (ms ++ ns) ≡ (has_name x ms || has_name x ns)
unfolding has_name
has_name-append x [] ns = refl
has_name-append x (m ∷ ms) ns = ground (arith, has_name-append x ms ns)

has_name-add_name :
    (x y : String) (ns : List String) → has_name x (add_name y ns) ≡ (has_name x ns || y == x)
unfolding add_name has_name
has_name-add_name x y ns =
    let same : y ≡ x → has_name x ns ≡ has_name y ns = λ e. ap (λ k. has_name k ns) (sym e) in
    ground (arith, has_name-append x ns (y ∷ []), ==_iff y x, same)

has_name-name_set :
    (x : String) (ns bs : List String)
    → has_name x (name_set ns bs) ≡ (has_name x ns || has_name x bs)
unfolding name_set has_name
has_name-name_set x ns [] = ground arith
has_name-name_set x ns (b ∷ bs) =
    ground (arith, has_name-name_set x (add_name b ns) bs, has_name-add_name x b ns)

has_name-matched :
    (x : String) (before matched after : List String)
    → has_name x (matched_loop before matched after)
      ≡ (has_name x matched || has_name x after && has_name x before)
unfolding matched_loop has_name
has_name-matched x before matched [] = ground arith
has_name-matched x before matched (a ∷ after) =
    let same : a ≡ x → has_name x before ≡ has_name a before =
      λ e. ap (λ k. has_name k before) (sym e) in
    ground (
      arith,
      has_name-matched x before matched after,
      has_name-matched x before (add_name a matched) after,
      has_name-add_name x a matched,
      ==_iff a x,
      same,
    )

abbrev NoRepeat : List String → Type 0
NoRepeat [] = Unit
NoRepeat (n ∷ ns) = (has_name n ns ≡ false) × NoRepeat ns

append-NoRepeat :
    (n : String) (ns : List String) → has_name n ns ≡ false → NoRepeat ns → NoRepeat (ns ++ n ∷ [])
unfolding has_name
append-NoRepeat n [] h d = (refl, tt)
append-NoRepeat n (m ∷ ms) h d =
    let n_ne_m : (n == m) ≡ false = ground (arith, ==_iff n m, ==_iff m n) in
    let other : has_name m (n ∷ []) ≡ false = ground arith in
    (has_name-append m ms (n ∷ []) ∙ rw (d.0, other) refl, append-NoRepeat n ms (ground arith) d.1)

add_name-NoRepeat : (n : String) (ns : List String) → NoRepeat ns → NoRepeat (add_name n ns)
unfolding add_name
add_name-NoRepeat n ns d = elim (Bool-cases (has_name n ns)) [
  | inl old ↦ rw old d
  | inr new ↦ rw new (append-NoRepeat n ns new d)
]

matched-NoRepeat :
    (before matched after : List String)
    → NoRepeat matched
    → NoRepeat (matched_loop before matched after)
unfolding matched_loop
matched-NoRepeat before matched [] d = d
matched-NoRepeat before matched (a ∷ after) d = elim (Bool-cases (has_name a before)) [
  | inl hit ↦
      rw hit (matched-NoRepeat before (add_name a matched) after (add_name-NoRepeat a matched d))
  | inr miss ↦ rw miss (matched-NoRepeat before matched after d)
]

-- Two different names of a list.
record TwoIn (ns : List String) : Type 0 where
  left : String
  right : String
  differ : left ≢ right
  has_left : has_name left ns ≡ true
  has_right : has_name right ns ≡ true

two_of_length : (ns : List String) → NoRepeat ns → 2 ≤ length ns → TwoIn ns
unfolding has_name
two_of_length [] d h = absurd (omega arith)
two_of_length (m ∷ []) d h = absurd (omega arith)
two_of_length (m ∷ n ∷ ns) d h = record {
  left = m;
  right = n;
  differ = λ e. ground (arith, ==_iff n m);
  has_left = rw (==_refl m);
  has_right = ground (arith, ==_refl n);
}

length_of_two : (ns : List String) → TwoIn ns → 2 ≤ length ns
unfolding has_name
length_of_two [] t = absurd (let e = t.has_left in cc)
length_of_two (m ∷ []) t = absurd (t.differ (ground (arith, ==_iff m t.left, ==_iff m t.right)))
length_of_two (m ∷ n ∷ ns) t = omega arith

-- The names of the last ten calls before the boundary.
abbrev pub last_before : List ToolCallOrdinal → ℕ → List String
last_before calls b =
    let names = map (λ c. c.tool_name) (select (λ c. ltb c.message_ordinal b) calls) in
    drop (length names - 10) names

-- The names of the first five calls after the boundary.
abbrev pub first_after : List ToolCallOrdinal → ℕ → List String
first_after calls b = take 5 (map (λ c. c.tool_name) (select (λ c. ltb b c.message_ordinal) calls))

names_before-select :
    (calls : List ToolCallOrdinal) (b : ℕ)
    → names_before calls b ≡ map (λ c. c.tool_name) (select (λ c. ltb c.message_ordinal b) calls)
unfolding names_before
names_before-select [] b = refl
names_before-select (c ∷ cs) b = ground (arith, names_before-select cs b)

keep_last-drop : (n : ℕ) (names : List String) → keep_last n names ≡ drop (length names - n) names
unfolding keep_last
keep_last-drop n names = elim (Bool-cases (ltb n (length names))) [
  | inl long ↦ rw long
  | inr short ↦ let e : length names - n ≡ 0 = ground arith in rw short (rw e)
]

tool_window_before-eq :
    (calls : List ToolCallOrdinal) (b : ℕ) → tool_window_before calls b 10 ≡ last_before calls b
unfolding tool_window_before
tool_window_before-eq calls b =
    keep_last-drop 10 (names_before calls b)
    ∙ ap (λ names. drop (length names - 10) names) (names_before-select calls b)

after_loop-take :
    (names : List String) (calls : List ToolCallOrdinal) (b k n : ℕ)
    → length names + suc k ≡ n
    → after_loop names calls b n
      ≡ names ++ take (suc k) (map (λ c. c.tool_name) (select (λ c. ltb b c.message_ordinal) calls))
unfolding after_loop
after_loop-take names [] b k n e = sym (append-nil names)
after_loop-take names (c ∷ cs) b zero n e = elim (Bool-cases (ltb b c.message_ordinal)) [
  | inl later ↦
      let full : leb n (length (names ++ c.tool_name ∷ [])) ≡ true =
        ground (arith, length-append names (c.tool_name ∷ [])) in
      rw (later, full)
  | inr not_later ↦ rw not_later (after_loop-take names cs b zero n e)
]
after_loop-take names (c ∷ cs) b (suc k) n e = elim (Bool-cases (ltb b c.message_ordinal)) [
  | inl later ↦
      let more = names ++ c.tool_name ∷ [] in
      let size = length-append names (c.tool_name ∷ []) in
      let room : leb n (length more) ≡ false = ground (arith, size) in
      rw (later, room)
        (after_loop-take more cs b k n (omega (arith, size))
          ∙ append_assoc names (c.tool_name ∷ []) _)
  | inr not_later ↦ rw not_later (after_loop-take names cs b (suc k) n e)
]

tool_window_after-eq :
    (calls : List ToolCallOrdinal) (b : ℕ) → tool_window_after calls b 5 ≡ first_after calls b
unfolding tool_window_after
tool_window_after-eq calls b = after_loop-take [] calls b 4 5 (omega arith)

-- Two different tools are named both before and after the boundary.
pub record SharesTwo (before after : List String) : Type 0 where
  pub left : String
  pub right : String
  pub differ : left ≢ right
  pub left_before : has_name left before ≡ true
  pub right_before : has_name right before ≡ true
  pub left_after : has_name left after ≡ true
  pub right_after : has_name right after ≡ true

has_shared :
    (x : String) (before after : List String)
    → has_name x (matched_loop (name_set [] before) [] after)
      ≡ (has_name x after && has_name x before)
unfolding has_name
has_shared x before after =
    ground (arith, has_name-matched x (name_set [] before) [] after, has_name-name_set x [] before)

matched_iff :
    (before after : List String)
    → (2 ≤ length (matched_loop (name_set [] before) [] after)) ↔ SharesTwo before after
matched_iff before after = (
  λ h.
      let t = two_of_length _ (matched-NoRepeat (name_set [] before) [] after tt) h in
      record {
        left = t.left;
        right = t.right;
        differ = t.differ;
        left_before = ground (arith, t.has_left, has_shared t.left before after);
        right_before = ground (arith, t.has_right, has_shared t.right before after);
        left_after = ground (arith, t.has_left, has_shared t.left before after);
        right_after = ground (arith, t.has_right, has_shared t.right before after);
      },
  λ s. length_of_two _ (record {
    left = s.left;
    right = s.right;
    differ = s.differ;
    has_left = ground (arith, s.left_before, s.left_after, has_shared s.left before after);
    has_right = ground (arith, s.right_before, s.right_after, has_shared s.right before after);
  }),
)

shares_nonempty :
    (before after : List String) → SharesTwo before after → (1 ≤ length before) × (1 ≤ length after)
unfolding has_name
shares_nonempty [] after s = absurd (let e = s.left_before in cc)
shares_nonempty (m ∷ ms) [] s = absurd (let e = s.left_after in cc)
shares_nonempty (m ∷ ms) (n ∷ ns) s = (omega arith, omega arith)

is_mid_task_windows :
    (calls : List ToolCallOrdinal) (b : ℕ)
    → (is_mid_task calls b ≡ true)
      ↔ SharesTwo (tool_window_before calls b 10) (tool_window_after calls b 5)
unfolding is_mid_task
is_mid_task_windows calls b =
    let before = tool_window_before calls b 10 in
    let after = tool_window_after calls b 5 in
    (
      λ h. (matched_iff before after).0 (ground arith),
      λ s. ground (arith, shares_nonempty before after s, (matched_iff before after).1 s),
    )

-- A boundary counts as in mid-task exactly when two different tools are each named by one of the
-- last ten calls before the boundary and by one of the first five calls after it.
pub is_mid_task_iff :
    (calls : List ToolCallOrdinal) (b : ℕ)
    → (is_mid_task calls b ≡ true) ↔ SharesTwo (last_before calls b) (first_after calls b)
is_mid_task_iff calls b =
    subst₂ (λ before after. (is_mid_task calls b ≡ true) ↔ SharesTwo before after)
      (tool_window_before-eq calls b) (tool_window_after-eq calls b) (is_mid_task_windows calls b)

count_boundaries-count :
    (n : ℕ) (bs : List ℕ) (calls : List ToolCallOrdinal)
    → count_boundaries n bs calls ≡ n + count (is_mid_task calls) bs
unfolding count_boundaries
count_boundaries-count n [] calls = omega arith
count_boundaries-count n (b ∷ bs) calls =
    ground (arith, count_boundaries-count (if is_mid_task calls b then suc n else n) bs calls)

count_no_calls : (bs : List ℕ) → count (is_mid_task []) bs ≡ 0
unfolding is_mid_task tool_window_before tool_window_after
count_no_calls [] = refl
count_no_calls (b ∷ bs) = omega (arith, count_no_calls bs)

-- CountMidTaskCompactions counts the boundaries in mid-task, each as often as it is listed.
pub count_mid_task_compactions-count :
    (bs : List ℕ) (calls : List ToolCallOrdinal)
    → count_mid_task_compactions bs calls ≡ count (is_mid_task calls) bs
unfolding count_mid_task_compactions
count_mid_task_compactions-count [] calls = refl
count_mid_task_compactions-count (b ∷ bs) [] = ground (arith, count_no_calls (b ∷ bs))
count_mid_task_compactions-count (b ∷ bs) (c ∷ cs) =
    ground (arith, count_boundaries-count 0 (b ∷ bs) (c ∷ cs))
