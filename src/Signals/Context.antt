-- ===== src/Signals/Context.antt =====
-- internal/signals/context.go: compactions, context pressure and compactions in mid-task.
pub mod Window
pub mod MidTask
pub mod Compactions
use ca_session_source.Base.{
  ℕ, zero, suc, ◌+◌, ◌-◌, ◌*◌, String, Bool, true, false, not, ◌&&◌, ◌||◌, List, [], ◌∷◌, ◌++◌, map,
  Option, none, some, ◌==◌, string_equality, nat_equality, list_equality, ltb, leb, if◌then◌else◌,
  length, drop, get_elem?,
}
use ca_session_source.GoMap.{Map, get}
use ca_session_source.GoText.{Text, codes, has_prefix}
use ca_session_source.Signals.Score.{Quotient}

pub record ContextTokenRow : Type 0 where
  pub context_tokens : ℕ
  pub has_context_tokens : Bool

pub record ToolCallOrdinal : Type 0 where
  pub message_ordinal : ℕ
  pub tool_name : String

pub record ContextPressureResult : Type 0 where
  pub compaction_count : ℕ
  pub pressure_max : Option Quotient

abbrev pub mid_task_window_before : ℕ
mid_task_window_before = 10

abbrev pub mid_task_window_after : ℕ
mid_task_window_after = 5

abbrev pub mid_task_overlap_threshold : ℕ
mid_task_overlap_threshold = 2

-- The loop of toolWindowBefore.
pub names_before : List ToolCallOrdinal → ℕ → List String
names_before [] ordinal = []
names_before (c ∷ cs) ordinal =
    let rest = names_before cs ordinal in
    if ltb c.message_ordinal ordinal then c.tool_name ∷ rest else rest

-- `names[len(names)-n:]` where there are more than `n`.
pub keep_last : ℕ → List String → List String
keep_last n names = if ltb n (length names) then drop (length names - n) names else names

pub tool_window_before : List ToolCallOrdinal → ℕ → ℕ → List String
unfolding names_before keep_last
tool_window_before calls ordinal n = keep_last n (names_before calls ordinal)

-- The loop of toolWindowAfter, with `names` so far; it breaks once there are `n` names.
pub after_loop : List String → List ToolCallOrdinal → ℕ → ℕ → List String
after_loop names [] ordinal n = names
after_loop names (c ∷ cs) ordinal n =
    let more = names ++ c.tool_name ∷ [] in
    let go_on = after_loop more cs ordinal n in
    let next = after_loop names cs ordinal n in
    if ltb ordinal c.message_ordinal then (if leb n (length more) then more else go_on) else next

pub tool_window_after : List ToolCallOrdinal → ℕ → ℕ → List String
unfolding after_loop
tool_window_after calls ordinal n = after_loop [] calls ordinal n

-- Membership in a map from names to struct{}, held as the list of its keys.
pub has_name : String → List String → Bool
has_name name [] = false
has_name name (m ∷ ms) = m == name || has_name name ms

pub add_name : String → List String → List String
unfolding has_name
add_name name names = if has_name name names then names else names ++ name ∷ []

-- The loop that fills beforeSet.
pub name_set : List String → List String → List String
unfolding add_name
name_set names [] = names
name_set names (b ∷ bs) = name_set (add_name b names) bs

-- The loop that fills `matched`.
pub matched_loop : List String → List String → List String → List String
unfolding add_name
matched_loop before_set matched [] = matched
matched_loop before_set matched (name ∷ after) =
    matched_loop before_set (if has_name name before_set then add_name name matched else matched)
      after

-- The body of the loop over the boundaries: whether boundary `b` is counted.
pub is_mid_task : List ToolCallOrdinal → ℕ → Bool
unfolding name_set matched_loop
is_mid_task calls b =
    let before = tool_window_before calls b mid_task_window_before in
    let after = tool_window_after calls b mid_task_window_after in
    if leb (length before) 0 || leb (length after) 0
    then false
    else leb mid_task_overlap_threshold (length (matched_loop (name_set [] before) [] after))

pub count_boundaries : ℕ → List ℕ → List ToolCallOrdinal → ℕ
count_boundaries count [] calls = count
count_boundaries count (b ∷ bs) calls =
    count_boundaries (if is_mid_task calls b then suc count else count) bs calls

pub count_mid_task_compactions : List ℕ → List ToolCallOrdinal → ℕ
unfolding count_boundaries
count_mid_task_compactions boundaries calls =
    if leb (length boundaries) 0 || leb (length calls) 0
    then 0
    else count_boundaries 0 boundaries calls

-- The map contextWindowSizes.
abbrev pub context_window_sizes : Map Text ℕ
context_window_sizes =
    (codes "claude-opus-4-6", 1_000_000)
    ∷ (codes "claude-sonnet-4-6", 200_000)
    ∷ (codes "claude-sonnet-4-5", 200_000)
    ∷ (codes "claude-haiku-4-5", 200_000)
    ∷ (codes "claude-3-5-sonnet", 200_000)
    ∷ (codes "claude-3-opus", 200_000)
    ∷ (codes "claude-3-haiku", 200_000)
    ∷ (codes "gpt-4o-mini", 128_000)
    ∷ (codes "gpt-4o", 128_000)
    ∷ (codes "gpt-4-turbo", 128_000)
    ∷ (codes "o3", 200_000)
    ∷ (codes "o4-mini", 200_000)
    ∷ (codes "gemini-2.5-pro", 1_000_000)
    ∷ (codes "gemini-2.5-flash", 1_000_000)
    ∷ (codes "gemini-2.0-flash", 1_000_000)
    ∷ []

-- `strings.HasPrefix(model, prefix) && (len(model) == len(prefix) || model[len(prefix)] == '-')`.
pub prefix_matches : Text → Text → Bool
prefix_matches model prefix =
    has_prefix prefix model
    && (length model == length prefix
        || (elim (get_elem? model (length prefix)) [ none ↦ false | some c ↦ c == b'-' ]))

-- The loop over sortedPrefixes in a map of sizes.
pub first_prefix : Map Text ℕ → Text → List Text → ℕ
unfolding prefix_matches
first_prefix sizes model [] = 0
first_prefix sizes model (prefix ∷ prefixes) =
    let rest = first_prefix sizes model prefixes in
    if prefix_matches model prefix
    then (elim (get prefix sizes) [ none ↦ 0 | some size ↦ size ])
    else rest

-- lookupWindowSize, with the map and the sorted prefixes, which the package's `init` computes.
pub lookup_window_size : Map Text ℕ → List Text → Text → ℕ
unfolding first_prefix
lookup_window_size sizes sorted_prefixes model = elim (get model sizes) [
  | none ↦ first_prefix sizes model sorted_prefixes
  | some size ↦ size
]

pub compute_pressure : List Text → ℕ → Text → Option Quotient
compute_pressure sorted_prefixes peak_context_tokens model =
    let window_size = lookup_window_size context_window_sizes sorted_prefixes model in
    if leb peak_context_tokens 0 || model == []
    then none
    else if window_size == 0
    then none
    else some (record { top = peak_context_tokens; bottom = window_size })

-- `float64(tokens) < float64(prev) * 0.7`, which for numbers below 2^50 is this test of integers.
pub dropped : ℕ → ℕ → Bool
dropped prev tokens = ltb (10 * tokens) (7 * prev)

-- The loop of countCompactions; -1 for prevTokens is `none`.
pub compactions_loop : ℕ → Option ℕ → List ContextTokenRow → ℕ
unfolding dropped
compactions_loop count prev [] = count
compactions_loop count prev (t ∷ ts) =
    let skipped = compactions_loop count prev ts in
    let now : ℕ = elim prev [
      | none ↦ count
      | some p ↦
          if ltb 0 p then (if dropped p t.context_tokens then suc count else count) else count
    ] in
    let measured = compactions_loop now (some t.context_tokens) ts in
    if not t.has_context_tokens then skipped else measured

pub count_compactions : List ContextTokenRow → ℕ
unfolding compactions_loop
count_compactions tokens = compactions_loop 0 none tokens

pub compute_context_pressure : List Text → List ContextTokenRow → ℕ → Text → ContextPressureResult
compute_context_pressure sorted_prefixes tokens peak_context_tokens model = record {
  compaction_count = count_compactions tokens;
  pressure_max = compute_pressure sorted_prefixes peak_context_tokens model;
}
