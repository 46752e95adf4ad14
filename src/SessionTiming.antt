-- ===== src/SessionTiming.antt =====
-- internal/db/timing.go: the time that a session's turns and tool calls took. The queries of the rows
-- are not modelled; makeInputPreview, which decodes JSON, package time and sort.Slice are arguments.
-- Identifiers and ordinals are numbers from 0 on, and durations do not overflow.
pub mod Subagents
pub mod Primary
pub mod VisitOrder
pub mod Slowest
pub mod Tests
use ca_session_source.Base.{
  ℕ, zero, suc, ◌+◌, ◌*◌, String, Bool, true, false, not, ◌&&◌, ◌||◌, List, [], ◌∷◌, ◌++◌, Option,
  none, some, ◌==◌, list_equality, nat_equality, string_equality, if◌then◌else◌, ltb, length,
  is_some,
}
use ca_session_source.Base.Int.{ℤ, pos, ◌-ℤ◌, ◌+ℤ◌, ltb_ℤ}
use ca_session_source.GoMap.{Map, get, put, get_or}
use ca_session_source.GoText.{Text, codes}

pub record CategoryTotal : Type 0 where
  pub category : Text
  pub duration_ms : ℤ
  pub call_count : ℕ

pub record CallTiming : Type 0 where
  pub tool_use_id : String
  pub tool_name : String
  pub category : Text
  pub skill_name : Option String
  pub subagent_session_id : Option String
  pub duration_ms : Option ℤ
  pub is_parallel : Bool
  pub input_preview : Text

pub record TurnTiming : Type 0 where
  pub message_id : ℕ
  pub ordinal : ℕ
  pub started_at : String
  pub duration_ms : Option ℤ
  pub primary_category : Text
  pub calls : List CallTiming

pub record SessionTiming : Type 0 where
  pub session_id : String
  pub total_duration_ms : ℤ
  pub tool_duration_ms : ℤ
  pub turn_count : ℕ
  pub tool_call_count : ℕ
  pub subagent_count : ℕ
  pub slowest_call : Option CallTiming
  pub by_category : List CategoryTotal
  pub turns : List TurnTiming
  pub running : Bool

pub record TurnRow : Type 0 where
  pub message_id : ℕ
  pub ordinal : ℕ
  pub timestamp : String
  pub has_tool_use : Bool
  pub duration_ms : Option ℤ

pub record CallRow : Type 0 where
  pub message_id : ℕ
  pub tool_use_id : String
  pub tool_name : String
  pub category : Text
  pub skill_name : Option String
  pub subagent_session_id : Option String
  pub input_json : Text
  pub duration_ms : Option ℤ

-- The fields of a session that the code reads; a nil pointer is `none`.
pub record TimedSession : Type 0 where
  pub id : String
  pub started_at : Option String
  pub ended_at : Option String

pub record TurnAttribution : Type 0 where
  pub primary_category : Text
  pub remainder_ms : ℤ
  pub subagent_durations : List ℤ

-- `c.SubagentSessionID != nil && c.DurationMs != nil`
abbrev pub is_timed_subagent : CallTiming → Bool
is_timed_subagent c = is_some c.subagent_session_id && is_some c.duration_ms

-- The loop that splits the calls, with what it has found so far.
pub split_calls : List ℤ → List CallTiming → List CallTiming → List ℤ × List CallTiming
split_calls sub_totals non_sub [] = (sub_totals, non_sub)
split_calls sub_totals non_sub (c ∷ calls) =
    let left_over = split_calls sub_totals (non_sub ++ c ∷ []) calls in
    if is_some c.subagent_session_id
    then elim c.duration_ms as (λ _. List ℤ × List CallTiming) [
      | some d ↦ split_calls (sub_totals ++ d ∷ []) non_sub calls
      | none ↦ left_over
    ]
    else left_over

-- The loop that takes the maximum.
pub union_of : ℤ → List ℤ → ℤ
union_of sub_union [] = sub_union
union_of sub_union (d ∷ sub_totals) =
    union_of (if ltb_ℤ sub_union d then d else sub_union) sub_totals

pub max_ℤ : ℤ → ℤ → ℤ
max_ℤ a b = if ltb_ℤ a b then b else a

pub count_categories : Map Text ℕ → List CallTiming → Map Text ℕ
count_categories counts [] = counts
count_categories counts (c ∷ non_sub) =
    count_categories (put c.category (get_or 0 c.category counts + 1) counts) non_sub

-- The loop over the counts in the order that they are visited.
pub majority : ℕ → List (Text × ℕ) → Text
majority n [] = codes "Mixed"
majority n (e ∷ visited) = let rest = majority n visited in if ltb n (e.1 * 2) then e.0 else rest

-- `visit` is the order in which the map of counts is visited.
pub attribute_turn_go :
    (Map Text ℕ → List (Text × ℕ)) → Option ℤ → List CallTiming → TurnAttribution
unfolding split_calls union_of max_ℤ count_categories majority
attribute_turn_go visit none calls = record {
  primary_category = codes "Mixed";
  remainder_ms = pos 0;
  subagent_durations = [];
}
attribute_turn_go visit (some turn_dur) calls =
    let parts = split_calls [] [] calls in
    let sub_union = union_of (pos 0) parts.0 in
    let remainder = max_ℤ (turn_dur -ℤ sub_union) (pos 0) in
    record {
      primary_category =
          if ltb_ℤ (pos 0) sub_union && not (ltb_ℤ sub_union remainder)
          then codes "Task"
          else if length parts.1 == 0
          then codes "Mixed"
          else majority (length parts.1) (visit (count_categories [] parts.1));
      remainder_ms = remainder;
      subagent_durations = parts.0;
    }

-- A pointer into the map is the entry itself.
pub bucket : Map Text CategoryTotal → Text → ℤ → ℕ → Map Text CategoryTotal
bucket m cat dur call_count =
    if not (ltb_ℤ (pos 0) dur)
    then m
    else let t = get_or (record { category = cat; duration_ms = pos 0; call_count = 0 }) cat m in
      put cat
        (record t { duration_ms = t.duration_ms +ℤ dur; call_count = t.call_count + call_count }) m

pub bucket_subagents : Map Text CategoryTotal → List ℤ → Map Text CategoryTotal
unfolding bucket
bucket_subagents m [] = m
bucket_subagents m (sa ∷ durations) = bucket_subagents (bucket m (codes "Task") sa 1) durations

-- The variables of the loop over the turns.
pub record Assembly : Type 0 where
  pub tool_duration_ms : ℤ
  pub turn_count : ℕ
  pub tool_call_count : ℕ
  pub subagent_count : ℕ
  pub slowest : Option CallTiming
  pub category_totals : Map Text CategoryTotal
  pub turns : List TurnTiming

abbrev pub no_turns : Assembly
no_turns = record {
  tool_duration_ms = pos 0;
  turn_count = 0;
  tool_call_count = 0;
  subagent_count = 0;
  slowest = none;
  category_totals = [];
  turns = [];
}

-- The writes into a call of a turn with `n` calls.
pub mark_call : ℕ → Option ℤ → CallTiming → CallTiming
mark_call n turn_dur c = record c {
  is_parallel = ltb 1 n;
  duration_ms =
      if not (ltb 1 n) && not (is_some c.subagent_session_id) && not (is_some c.duration_ms)
      then turn_dur
      else c.duration_ms;
}

-- The slower one of the slowest call so far, which has a duration, and of a call that takes `d`.
abbrev pub longer_of : Option ℤ → CallTiming → ℤ → CallTiming → Option CallTiming
longer_of none s d c = some s
longer_of (some longest) s d c = if ltb_ℤ longest d then some c else some s

abbrev pub slower_of : Option CallTiming → Option ℤ → CallTiming → Option CallTiming
slower_of slowest none c = slowest
slower_of none (some d) c = some c
slower_of (some s) (some d) c = longer_of s.duration_ms s d c

pub slower : Option CallTiming → CallTiming → Option CallTiming
slower slowest c = slower_of slowest c.duration_ms c

-- The inner loop: the calls after its writes, and the slowest call.
pub mark_calls :
    ℕ
    → Option ℤ
    → List CallTiming
    → List CallTiming
    → Option CallTiming
    → List CallTiming × Option CallTiming
unfolding mark_call slower
mark_calls n turn_dur marked [] slowest = (marked, slowest)
mark_calls n turn_dur marked (c ∷ calls) slowest =
    let m = mark_call n turn_dur c in
    mark_calls n turn_dur (marked ++ m ∷ []) calls (slower slowest m)

pub count_subagents : List CallTiming → ℕ
count_subagents [] = 0
count_subagents (c ∷ calls) =
    (if is_some c.subagent_session_id then 1 else 0) + count_subagents calls

abbrev pub add_duration : ℤ → Option ℤ → ℤ
add_duration sum none = sum
add_duration sum (some d) = sum +ℤ d

-- The body of the loop over the turns. A message has one row, so that its calls are marked once.
pub add_turn :
    (Map Text ℕ → List (Text × ℕ)) → Map ℕ (List CallTiming) → Assembly → TurnRow → Assembly
unfolding mark_calls count_subagents attribute_turn_go bucket bucket_subagents
add_turn visit calls_by_msg a t =
    if not t.has_tool_use
    then a
    else let turn_calls = get_or [] t.message_id calls_by_msg in
      let marked = mark_calls (length turn_calls) t.duration_ms [] turn_calls a.slowest in
      let attribution = attribute_turn_go visit t.duration_ms marked.0 in
      let turn : TurnTiming = record {
        message_id = t.message_id;
        ordinal = t.ordinal;
        started_at = t.timestamp;
        duration_ms = t.duration_ms;
        primary_category = attribution.primary_category;
        calls = marked.0;
      } in
      record {
        tool_duration_ms = add_duration a.tool_duration_ms t.duration_ms;
        turn_count = suc a.turn_count;
        tool_call_count = a.tool_call_count + length marked.0;
        subagent_count = a.subagent_count + count_subagents marked.0;
        slowest = marked.1;
        category_totals =
            bucket_subagents
              (bucket a.category_totals attribution.primary_category attribution.remainder_ms
                (length marked.0))
              attribution.subagent_durations;
        turns = a.turns ++ turn ∷ [];
      }

pub add_turns :
    (Map Text ℕ → List (Text × ℕ)) → Map ℕ (List CallTiming) → Assembly → List TurnRow → Assembly
unfolding add_turn
add_turns visit calls_by_msg a [] = a
add_turns visit calls_by_msg a (t ∷ turns) =
    add_turns visit calls_by_msg (add_turn visit calls_by_msg a t) turns

module _ (make_input_preview : Text → String → Text → Text) where
  pub call_timing : CallRow → CallTiming
  call_timing r = record {
    tool_use_id = r.tool_use_id;
    tool_name = r.tool_name;
    category = r.category;
    skill_name = r.skill_name;
    subagent_session_id = r.subagent_session_id;
    duration_ms = r.duration_ms;
    is_parallel = false;
    input_preview = make_input_preview r.category r.tool_name r.input_json;
  }

  -- The loop that groups the calls by their messages.
  pub group_calls : Map ℕ (List CallTiming) → List CallRow → Map ℕ (List CallTiming)
  unfolding call_timing
  group_calls calls_by_msg [] = calls_by_msg
  group_calls calls_by_msg (r ∷ calls) =
      group_calls
        (put r.message_id (get_or [] r.message_id calls_by_msg ++ call_timing r ∷ []) calls_by_msg)
        calls

  -- `parse` is time.Parse, `millis` the milliseconds between two times, `now` the caller's time in
  -- RFC 3339, `visit` and `visit_totals` the orders in which the maps are visited, and `sort` is
  -- sort.Slice by descending duration.
  module _ {T : Type 0} (parse : String → Option T) (millis : T → T → ℤ) where
    pub millis_between : String → String → ℤ
    millis_between a b = elim (parse a) as (λ _. ℤ) [
      | none ↦ pos 0
      | some ta ↦ elim (parse b) as (λ _. ℤ) [ none ↦ pos 0 | some tb ↦ millis ta tb ]
    ]

    -- The text behind a pointer that is neither nil nor empty.
    abbrev pub set_text : Option String → Option String
    set_text none = none
    set_text (some s) = if s == "" then none else some s

    pub assemble_timing :
        (Map Text ℕ → List (Text × ℕ))
        → (Map Text CategoryTotal → List CategoryTotal)
        → (List CategoryTotal → List CategoryTotal)
        → TimedSession
        → List TurnRow
        → List CallRow
        → String
        → SessionTiming
    unfolding group_calls add_turns millis_between
    assemble_timing visit visit_totals sort sess turns calls now =
        let ended_at = set_text sess.ended_at in
        let a = add_turns visit (group_calls [] calls) no_turns turns in
        record {
          session_id = sess.id;
          total_duration_ms = elim (set_text sess.started_at) as (λ _. ℤ) [
            | none ↦ pos 0
            | some started ↦ elim ended_at as (λ _. ℤ) [
              | some ended ↦ millis_between started ended
              | none ↦ millis_between started now
            ]
          ];
          tool_duration_ms = a.tool_duration_ms;
          turn_count = a.turn_count;
          tool_call_count = a.tool_call_count;
          subagent_count = a.subagent_count;
          slowest_call = a.slowest;
          by_category = sort (visit_totals a.category_totals);
          turns = a.turns;
          running = not (is_some ended_at);
        }
