-- ===== src/Signals/Outcome/Cases.antt =====
-- ClassifyOutcome of internal/signals/outcome.go, by its answers rather than by its tests.
use ca_session_source.Base.{
  sym, ◌∙◌, inl, inr, Bool-cases, ℕ, ◌+◌, ◌≤◌, ◌<◌, ◌≡◌, ◌≢◌, ◌⊎◌, ◌↔◌, refl, true, false, Option,
  none, some, arith, ==_iff, string_ne, string_equality, nat_equality,
}
use ca_session_source.Signals.Outcome.Phrases.{GivesUp, has_give_up_pattern-GivesUp}
use ca_session_source.Signals.Outcome.{
  has_give_up_pattern, recency_window, OutcomeInput, is_recent, classify_outcome,
}

-- The session's last activity is known, and lies within the window before `now`, or after `now`.
abbrev pub ActiveSince : ℕ → Option ℕ → Type 0
ActiveSince now none = ⊥
ActiveSince now (some t) = now < t + recency_window

is_recent_iff : (now : ℕ) (t : Option ℕ) → (is_recent now t ≡ true) ↔ ActiveSince now t
unfolding is_recent
is_recent_iff now none = (λ h. cc, λ h. absurd h)
is_recent_iff now (some t) = ground arith

-- A person's session of at least three messages that is no longer active.
pub record IsSettled (now : ℕ) (input : OutcomeInput) : Type 0 where
  pub by_hand : input.is_automated ≡ false
  pub long : 3 ≤ input.message_count
  pub quiet : ¬ ActiveSince now input.last_activity

-- A session of two messages by hand, the agent's last.
abbrev pub IsBrief : OutcomeInput → Type 0
IsBrief input =
    (input.is_automated ≡ false) × (input.message_count ≡ 2) × (input.ended_with_role ≡ "assistant")

-- A settled session with the agent's message last, after fewer than three failed calls.
abbrev pub IsAnswered : ℕ → OutcomeInput → Type 0
IsAnswered now input =
    IsSettled now input × (input.ended_with_role ≡ "assistant") × (input.final_failure_streak < 3)

abbrev pub IsCompleted : ℕ → OutcomeInput → Type 0
IsCompleted now input = IsBrief input ⊎ IsAnswered now input

-- A session of which nothing is said: automated, too short, still active, or settled with neither
-- the user's nor the agent's message last, after fewer than three failed calls.
abbrev pub IsUnknown : ℕ → OutcomeInput → Type 0
IsUnknown now input =
    (input.is_automated ≡ true)
    ⊎ ((input.message_count < 3)
        × ((input.message_count ≢ 2) ⊎ (input.ended_with_role ≢ "assistant")))
    ⊎ ((3 ≤ input.message_count) × ActiveSince now input.last_activity)
    ⊎ (IsSettled now input
        × (input.ended_with_role ≢ "user")
        × (input.ended_with_role ≢ "assistant")
        × (input.final_failure_streak < 3))

abbrev pub IsErrored : ℕ → OutcomeInput → Type 0
IsErrored now input =
    IsSettled now input × (input.ended_with_role ≢ "user") × (3 ≤ input.final_failure_streak)

abbrev pub IsLow : ℕ → OutcomeInput → Type 0
IsLow now input = IsUnknown now input ⊎ (IsAnswered now input × GivesUp input.last_assistant_text)

abbrev pub IsMedium : ℕ → OutcomeInput → Type 0
IsMedium now input =
    ((IsSettled now input × (input.ended_with_role ≡ "user") × (input.message_count < 10))
      ⊎ IsErrored now input
      ⊎ IsBrief input)
    ⊎ (IsAnswered now input × ¬ GivesUp input.last_assistant_text)

module _ (now : ℕ) (input : OutcomeInput) where
  -- What each outcome is answered for, from the facts about the tests.
  outcome_abandoned :
      ((classify_outcome now input).outcome ≡ "abandoned")
      ↔ (IsSettled now input × (input.ended_with_role ≡ "user"))
  unfolding classify_outcome
  outcome_abandoned = ground (
    arith,
    is_recent_iff now input.last_activity,
    ==_iff input.ended_with_role "user",
    string_ne "unknown" "abandoned" refl,
    string_ne "completed" "abandoned" refl,
    string_ne "errored" "abandoned" refl,
  )

  outcome_errored :
      ((classify_outcome now input).outcome ≡ "errored")
      ↔ (IsSettled now input × (input.ended_with_role ≢ "user") × (3 ≤ input.final_failure_streak))
  unfolding classify_outcome
  outcome_errored = ground (
    arith,
    is_recent_iff now input.last_activity,
    ==_iff input.ended_with_role "user",
    string_ne "unknown" "errored" refl,
    string_ne "completed" "errored" refl,
    string_ne "abandoned" "errored" refl,
  )

  outcome-IsCompleted : ((classify_outcome now input).outcome ≡ "completed") ↔ IsCompleted now input
  unfolding classify_outcome
  outcome-IsCompleted = ground (
    arith,
    is_recent_iff now input.last_activity,
    ==_iff input.ended_with_role "user",
    ==_iff input.ended_with_role "assistant",
    string_ne "user" "assistant" refl,
    string_ne "unknown" "completed" refl,
    string_ne "errored" "completed" refl,
    string_ne "abandoned" "completed" refl,
  )

  outcome_recent : ((classify_outcome now input).is_recent ≡ true) ↔ (
      (input.is_automated ≡ false)
      × (3 ≤ input.message_count)
      × ActiveSince now input.last_activity)
  unfolding classify_outcome
  outcome_recent = ground (arith, is_recent_iff now input.last_activity)

  confidence_high :
      ((classify_outcome now input).confidence ≡ "high")
      ↔ (IsSettled now input × (input.ended_with_role ≡ "user") × (10 ≤ input.message_count))
  unfolding classify_outcome
  confidence_high = ground (
    arith,
    is_recent_iff now input.last_activity,
    ==_iff input.ended_with_role "user",
    string_ne "low" "high" refl,
    string_ne "medium" "high" refl,
  )

  outcome-IsUnknown : ((classify_outcome now input).outcome ≡ "unknown") ↔ IsUnknown now input
  unfolding classify_outcome
  outcome-IsUnknown = ground (
    arith,
    is_recent_iff now input.last_activity,
    ==_iff input.ended_with_role "user",
    ==_iff input.ended_with_role "assistant",
    string_ne "user" "assistant" refl,
    string_ne "completed" "unknown" refl,
    string_ne "errored" "unknown" refl,
    string_ne "abandoned" "unknown" refl,
  )

  confidence_medium : ((classify_outcome now input).confidence ≡ "medium") ↔ (
      ((IsSettled now input × (input.ended_with_role ≡ "user") × (input.message_count < 10))
        ⊎ IsErrored now input
        ⊎ IsBrief input)
      ⊎ (IsAnswered now input × (has_give_up_pattern input.last_assistant_text ≡ false)))
  unfolding classify_outcome
  confidence_medium = ground (
    arith,
    is_recent_iff now input.last_activity,
    ==_iff input.ended_with_role "user",
    ==_iff input.ended_with_role "assistant",
    string_ne "user" "assistant" refl,
    string_ne "low" "medium" refl,
    string_ne "high" "medium" refl,
  )

  confidence_low : ((classify_outcome now input).confidence ≡ "low") ↔ (
      IsUnknown now input
      ⊎ (IsAnswered now input × (has_give_up_pattern input.last_assistant_text ≡ true)))
  unfolding classify_outcome
  confidence_low = ground (
    arith,
    is_recent_iff now input.last_activity,
    ==_iff input.ended_with_role "user",
    ==_iff input.ended_with_role "assistant",
    string_ne "user" "assistant" refl,
    string_ne "medium" "low" refl,
    string_ne "high" "low" refl,
  )

  confidence-IsMedium : ((classify_outcome now input).confidence ≡ "medium") ↔ IsMedium now input
  confidence-IsMedium =
      let tested = has_give_up_pattern-GivesUp input.last_assistant_text in
      (
        λ h. elim (confidence_medium.0 h) [
          | inl other ↦ inl other
          | inr (answered, silent) ↦
              inr (
                answered,
                λ g. let spoken = tested.1 g in let e = sym silent ∙ spoken in absurd (cc),
              )
        ],
        λ m. confidence_medium.1 (elim m [
          | inl other ↦ inl other
          | inr (answered, quiet) ↦ inr (
            answered,
            elim (Bool-cases (has_give_up_pattern input.last_assistant_text)) [
              | inl spoken ↦ absurd (quiet (tested.0 spoken))
              | inr silent ↦ silent
            ],
          )
        ]),
      )

  confidence-IsLow : ((classify_outcome now input).confidence ≡ "low") ↔ IsLow now input
  confidence-IsLow =
      let tested = has_give_up_pattern-GivesUp input.last_assistant_text in
      (
        λ h. elim (confidence_low.0 h) [
          | inl unsaid ↦ inl unsaid
          | inr (answered, spoken) ↦ inr (answered, tested.0 spoken)
        ],
        λ l.
            confidence_low.1
              (elim l [ inl unsaid ↦ inl unsaid | inr (answered, g) ↦ inr (answered, tested.1 g) ]),
      )

pub recent_unknown :
    (now : ℕ) (input : OutcomeInput)
    → (classify_outcome now input).is_recent ≡ true
    → (classify_outcome now input).outcome ≡ "unknown"
unfolding classify_outcome
recent_unknown now input h = ground arith

-- A session is settled when it is not automated, has three messages or more, and its last activity
-- is unknown or not within the last ten minutes. "abandoned" is answered exactly for a settled
-- session that ends with the user; "errored" exactly for a settled one that does not, and whose last
-- three tool calls failed; "completed" exactly for a settled one that ends with the assistant after
-- fewer failed calls, or for two messages by hand, the assistant's last; and "unknown" exactly for
-- an automated session, one of fewer than three messages that is not completed, one that is still
-- active, or a settled one that ends with neither after fewer failed calls. A session is recent
-- exactly when it would be settled but for its last activity. The confidence is "high" exactly for
-- an abandoned session of ten messages or more, "low" exactly for an unknown outcome or a settled
-- session that is completed with a phrase of giving up in the assistant's last text, and "medium"
-- exactly for the other abandoned and completed sessions and the errored ones.
pub classify_outcome_lem :
    (now : ℕ) (input : OutcomeInput)
    → let r = classify_outcome now input in
      ((r.outcome ≡ "abandoned") ↔ (IsSettled now input × (input.ended_with_role ≡ "user")))
      × ((r.outcome ≡ "errored") ↔ IsErrored now input)
      × ((r.outcome ≡ "completed") ↔ IsCompleted now input)
      × ((r.outcome ≡ "unknown") ↔ IsUnknown now input)
      × ((r.is_recent ≡ true) ↔ (
          (input.is_automated ≡ false)
          × (3 ≤ input.message_count)
          × ActiveSince now input.last_activity))
      × ((r.confidence ≡ "high")
          ↔ (IsSettled now input × (input.ended_with_role ≡ "user") × (10 ≤ input.message_count)))
      × ((r.confidence ≡ "medium") ↔ IsMedium now input)
      × ((r.confidence ≡ "low") ↔ IsLow now input)
classify_outcome_lem now input = (
  outcome_abandoned now input,
  outcome_errored now input,
  outcome-IsCompleted now input,
  outcome-IsUnknown now input,
  outcome_recent now input,
  confidence_high now input,
  confidence-IsMedium now input,
  confidence-IsLow now input,
)
