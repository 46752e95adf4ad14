-- ===== src/Signals/Outcome.antt =====
-- internal/signals/outcome.go: how a session seems to have ended. Times are nanoseconds; the zero
-- `time.Time` is `none`, and the time of the call, `time.Now`, is an argument.
pub mod Phrases
pub mod Cases
use ca_session_source.Base.{
  ℕ, ◌+◌, ◌*◌, String, Bool, true, false, not, ◌&&◌, ◌||◌, List, [], ◌∷◌, Option, none, some, ◌==◌,
  string_equality, nat_equality, ltb, leb, if◌then◌else◌,
}
use ca_session_source.GoText.{Text, codes, contains, to_lower}

-- 10 * time.Minute.
abbrev pub recency_window : ℕ
recency_window = 10 * 60 * 1_000_000_000

pub record OutcomeInput : Type 0 where
  pub is_automated : Bool
  pub message_count : ℕ
  pub ended_with_role : String
  pub final_failure_streak : ℕ
  pub last_assistant_text : Text
  pub last_activity : Option ℕ

pub record OutcomeResult : Type 0 where
  pub outcome : String
  pub confidence : String
  pub is_recent : Bool

abbrev give_up_patterns : List Text
give_up_patterns =
    codes "i'm unable to"
    ∷ codes "i can't proceed"
    ∷ codes "i don't have access"
    ∷ codes "i cannot proceed"
    ∷ codes "i am unable to"
    ∷ []

pub contains_pattern : List Text → Text → Bool
contains_pattern [] lower = false
contains_pattern (p ∷ ps) lower = contains p lower || contains_pattern ps lower

pub has_give_up_pattern : Text → Bool
has_give_up_pattern text = contains_pattern give_up_patterns (to_lower text)

-- `time.Since(t) < RecencyWindow`; a `t` that lies ahead of `now` gives a negative duration.
pub is_recent : ℕ → Option ℕ → Bool
is_recent now none = false
is_recent now (some t) = ltb now (t + recency_window)

pub classify_outcome : ℕ → OutcomeInput → OutcomeResult
unfolding is_recent
classify_outcome now input =
    let abandoned_confidence = if leb 10 input.message_count then "high" else "medium" in
    let completed_confidence =
      if has_give_up_pattern input.last_assistant_text then "low" else "medium" in
    if input.is_automated
    then record { outcome = "unknown"; confidence = "low"; is_recent = false }
    else if input.message_count == 2 && input.ended_with_role == "assistant"
    then record { outcome = "completed"; confidence = "medium"; is_recent = false }
    else if ltb input.message_count 3
    then record { outcome = "unknown"; confidence = "low"; is_recent = false }
    else if is_recent now input.last_activity
    then record { outcome = "unknown"; confidence = "low"; is_recent = true }
    else if input.ended_with_role == "user"
    then record { outcome = "abandoned"; confidence = abandoned_confidence; is_recent = false }
    else if leb 3 input.final_failure_streak
    then record { outcome = "errored"; confidence = "medium"; is_recent = false }
    else if input.ended_with_role == "assistant"
    then record { outcome = "completed"; confidence = completed_confidence; is_recent = false }
    else record { outcome = "unknown"; confidence = "low"; is_recent = false }
