-- ===== src/SignalCompute/Tests.antt =====
-- Signals of a session of four messages.
use ca_session_source.Base.{
  ℕ, ◌≡◌, refl, sym, inl, inr, String, true, false, List, [], ◌∷◌, none, some, length, list_beq,
  list_equality, nat_equality, ◌==◌, ==_iff, Bool,
}
use ca_session_source.GoMap.{get, put, get_or}
use ca_session_source.GoText.{Text, codes}
use ca_session_source.MessageRows.{ToolCall, Message}
use ca_session_source.Signals.ToolFailure.{ToolCallRow}
use ca_session_source.SignalCompute.Streak.{EndsWithRun, compute_final_streak_lem}
use ca_session_source.SignalCompute.CommonModel.{
  Listed, Visits, IsMostCommon, best_model-IsMostCommon,
}
use ca_session_source.SignalCompute.Bounds.{IsConsistent, compute_signals-IsConsistent}
use ca_session_source.SignalCompute.{
  SessionRow, Clock, extract_tool_call_rows, count_models, no_best, no_counts, best_model,
  compute_final_streak, compute_signals_from_messages,
}

abbrev call : String → ToolCall
call status = record {
  tool_name = "Bash";
  category = "Bash";
  tool_use_id = "t1";
  input_json = codes "{}";
  result_content_length = 0;
  result_content = [];
  result_events = record { agent_id = []; status = status; content = [] } ∷ [];
}

abbrev message : ℕ → String → Text → List ToolCall → Message
message ordinal role model calls = record {
  ordinal = ordinal;
  role = role;
  content = codes "text";
  model = model;
  context_tokens = 0;
  has_context_tokens = false;
  tool_calls = calls;
  tool_results = [];
  is_system = false;
  is_compact_boundary = false;
}

abbrev messages : List Message
messages =
    message 0 "user" [] []
    ∷ message 1 "assistant" (codes "b") (call "done" ∷ [])
    ∷ message 2 "assistant" (codes "a") (call "errored" ∷ call "cancelled" ∷ [])
    ∷ message 3 "assistant" (codes "a") []
    ∷ []

abbrev rows : List ToolCallRow
rows = extract_tool_call_rows messages

compute_final_streak_lem_example : EndsWithRun (compute_final_streak rows) rows
compute_final_streak_lem_example = compute_final_streak_lem rows

-- The counts of the two models, visited from the model that is seen later.
abbrev visited : List (Text × ℕ)
visited = (codes "a", 2) ∷ (codes "b", 1) ∷ []

counts_are : (count_models 0 no_counts messages).counts ≡ (codes "b", 1) ∷ (codes "a", 2) ∷ []
unfolding count_models get put get_or list_beq
counts_are = refl

entry-Listed :
    (k : Text) (n : ℕ) (a b : Bool)
    → (codes "b" == k) ≡ b
    → (codes "a" == k) ≡ a
    → get k ((codes "b", 1) ∷ (codes "a", 2) ∷ []) ≡ some n
    → Listed (k, n) visited
unfolding get
entry-Listed k n a true eb ea h =
    inr (inl (sym ((==_iff (codes "b") k).0 eb), let e : some 1 ≡ some n = rw eb at h in cc))
entry-Listed k n true false eb ea h =
    inl (sym ((==_iff (codes "a") k).0 ea), let e : some 2 ≡ some n = rw (eb, ea) at h in cc)
entry-Listed k n false false eb ea h = absurd (let e = rw (eb, ea) at h in cc)

visited-Visits : Visits visited (count_models 0 no_counts messages).counts
unfolding get list_beq
visited-Visits k n = rw counts_are (
  λ l. elim l [
    | inl e ↦ rw (e.0, e.1) refl
    | inr later ↦ elim later [ inl e ↦ rw (e.0, e.1) refl | inr gone ↦ absurd gone ]
  ],
  λ h. entry-Listed k n (codes "a" == k) (codes "b" == k) refl refl h,
)

best_model-IsMostCommon_example :
    IsMostCommon messages
      (best_model (count_models 0 no_counts messages).first_seen no_best visited)
best_model-IsMostCommon_example = best_model-IsMostCommon messages visited visited-Visits

-- A clock that stands still, with timestamps it does not read.
abbrev clock : Clock
clock = record {
  now = 900;
  pending_now = 901;
  parse_rfc3339_nano = λ s. none;
  format_rfc3339 = λ t. [];
}

abbrev session : SessionRow
session = record {
  is_automated = false;
  message_count = 4;
  peak_context_tokens = 0;
  has_peak_context_tokens = false;
  ended_at = none;
}

compute_signals-IsConsistent_example :
    IsConsistent
      (length (extract_tool_call_rows messages))
      (compute_signals_from_messages clock [] session messages)
compute_signals-IsConsistent_example = compute_signals-IsConsistent clock [] session messages
