-- ===== src/Termination/Statuses.antt =====
-- Classify of internal/parser/termination.go, by the statuses that it answers.
use ca_session_source.Base.{list_equality, nat_equality}
use ca_session_source.Base.{
  ◌≡◌, ◌≢◌, ◌⊎◌, ◌↔◌, refl, Bool, true, false, List, [], ◌∷◌, ◌++◌, arith, ==_iff, string_ne,
  string_equality, ap,
}
use ca_session_source.GoText.{Text, codes}
use ca_session_source.Termination.Orphans.{HasOrphan, has_orphaned_tool_call_iff}
use ca_session_source.Termination.{
  ParsedMessage, is_awaiting_user_stop_reason, ends_with_assistant, no_messages, classify,
}

-- The last message is an assistant's.
pub record EndsWithAssistant (messages : List ParsedMessage) : Type 0 where
  pub before : List ParsedMessage
  pub last : ParsedMessage
  pub split : messages ≡ before ++ last ∷ []
  pub by_assistant : last.role ≡ codes "assistant"

ending_found :
    (messages : List ParsedMessage)
    → ends_with_assistant messages ≡ true
    → EndsWithAssistant messages
unfolding ends_with_assistant
ending_found [] h = absurd (cc)
ending_found (m ∷ []) h = record {
  before = [];
  last = m;
  split = refl;
  by_assistant = (==_iff m.role (codes "assistant")).0 h;
}
ending_found (m ∷ n ∷ messages) h =
    let e = ending_found (n ∷ messages) h in
    record {
      before = m ∷ e.before;
      last = e.last;
      split = ap (λ l. m ∷ l) e.split;
      by_assistant = e.by_assistant;
    }

ending_reported :
    (before : List ParsedMessage) (last : ParsedMessage)
    → last.role ≡ codes "assistant"
    → ends_with_assistant (before ++ last ∷ []) ≡ true
unfolding ends_with_assistant
ending_reported [] last e = (==_iff last.role (codes "assistant")).1 e
ending_reported (m ∷ []) last e = (==_iff last.role (codes "assistant")).1 e
ending_reported (m ∷ n ∷ before) last e = ending_reported (n ∷ before) last e

ends_with_assistant_iff :
    (messages : List ParsedMessage)
    → (ends_with_assistant messages ≡ true) ↔ EndsWithAssistant messages
ends_with_assistant_iff messages =
    (ending_found messages, λ e. rw e.split (ending_reported e.before e.last e.by_assistant))

no_messages_iff : (messages : List ParsedMessage) → (no_messages messages ≡ true) ↔ (messages ≡ [])
no_messages_iff [] = ground arith
no_messages_iff (m ∷ messages) = ground arith

-- The assistant has ended its turn, and nothing follows.
abbrev pub IsAwaiting : List ParsedMessage → Text → Type 0
IsAwaiting messages stop_reason =
    EndsWithAssistant messages
    × ((stop_reason ≡ codes "end_turn") ⊎ (stop_reason ≡ codes "task_complete"))

IsAwaiting-iff :
    (messages : List ParsedMessage) (stop_reason : Text)
    → ((ends_with_assistant messages ≡ true) × (is_awaiting_user_stop_reason stop_reason ≡ true))
      ↔ IsAwaiting messages stop_reason
unfolding is_awaiting_user_stop_reason
IsAwaiting-iff messages stop_reason = ground (
  arith,
  ends_with_assistant_iff messages,
  ==_iff stop_reason (codes "end_turn"),
  ==_iff stop_reason (codes "task_complete"),
)

some_message :
    (before after : List ParsedMessage) (m : ParsedMessage)
    → no_messages (before ++ (m ∷ after)) ≡ false
some_message [] after m = refl
some_message (n ∷ before) after m = refl

orphan_some : (messages : List ParsedMessage) → HasOrphan messages → no_messages messages ≡ false
orphan_some messages o = rw o.split (some_message o.before o.after o.last)

awaiting_some :
    (messages : List ParsedMessage) (stop_reason : Text)
    → IsAwaiting messages stop_reason
    → no_messages messages ≡ false
awaiting_some messages stop_reason (e, _) = rw e.split (some_message e.before [] e.last)

module _ (messages : List ParsedMessage) (stop_reason : Text) (file_truncated : Bool) where
  status_truncated :
      (classify messages stop_reason file_truncated ≡ "truncated") ↔ (file_truncated ≡ true)
  unfolding classify
  status_truncated = ground (
    arith,
    string_ne "" "truncated" refl,
    string_ne "tool_call_pending" "truncated" refl,
    string_ne "awaiting_user" "truncated" refl,
    string_ne "clean" "truncated" refl,
  )

  status_unknown :
      (classify messages stop_reason file_truncated ≡ "")
      ↔ ((file_truncated ≡ false) × (messages ≡ []))
  unfolding classify
  status_unknown = ground (
    arith,
    no_messages_iff messages,
    string_ne "truncated" "" refl,
    string_ne "tool_call_pending" "" refl,
    string_ne "awaiting_user" "" refl,
    string_ne "clean" "" refl,
  )

  status_pending :
      (classify messages stop_reason file_truncated ≡ "tool_call_pending")
      ↔ ((file_truncated ≡ false) × HasOrphan messages)
  unfolding classify
  status_pending = ground (
    arith,
    has_orphaned_tool_call_iff messages,
    orphan_some messages,
    string_ne "truncated" "tool_call_pending" refl,
    string_ne "" "tool_call_pending" refl,
    string_ne "awaiting_user" "tool_call_pending" refl,
    string_ne "clean" "tool_call_pending" refl,
  )

  status-IsAwaiting :
      (classify messages stop_reason file_truncated ≡ "awaiting_user")
      ↔ ((file_truncated ≡ false) × (¬ HasOrphan messages) × IsAwaiting messages stop_reason)
  unfolding classify
  status-IsAwaiting = ground (
    arith,
    has_orphaned_tool_call_iff messages,
    IsAwaiting-iff messages stop_reason,
    awaiting_some messages stop_reason,
    string_ne "truncated" "awaiting_user" refl,
    string_ne "" "awaiting_user" refl,
    string_ne "tool_call_pending" "awaiting_user" refl,
    string_ne "clean" "awaiting_user" refl,
  )

  status_clean : (classify messages stop_reason file_truncated ≡ "clean") ↔ (
      (file_truncated ≡ false)
      × (messages ≢ [])
      × (¬ HasOrphan messages)
      × (¬ IsAwaiting messages stop_reason))
  unfolding classify
  status_clean = ground (
    arith,
    no_messages_iff messages,
    has_orphaned_tool_call_iff messages,
    IsAwaiting-iff messages stop_reason,
    string_ne "truncated" "clean" refl,
    string_ne "" "clean" refl,
    string_ne "tool_call_pending" "clean" refl,
    string_ne "awaiting_user" "clean" refl,
  )

-- Classify answers "truncated" exactly for a truncated file, and for others: no status exactly where
-- there are no messages; "tool_call_pending" exactly where a call of the last assistant's message is
-- answered by no message after it; "awaiting_user" exactly where none is, the last message is an
-- assistant's and the stop reason is "end_turn" or "task_complete"; "clean" exactly where there are
-- messages and none of these hold.
pub classify_lem :
    (messages : List ParsedMessage) (stop_reason : Text) (file_truncated : Bool)
    → let status = classify messages stop_reason file_truncated in
      ((status ≡ "truncated") ↔ (file_truncated ≡ true))
      × ((status ≡ "") ↔ ((file_truncated ≡ false) × (messages ≡ [])))
      × ((status ≡ "tool_call_pending") ↔ ((file_truncated ≡ false) × HasOrphan messages))
      × ((status ≡ "awaiting_user")
          ↔ ((file_truncated ≡ false) × (¬ HasOrphan messages) × IsAwaiting messages stop_reason))
      × ((status ≡ "clean") ↔ (
          (file_truncated ≡ false)
          × (messages ≢ [])
          × (¬ HasOrphan messages)
          × (¬ IsAwaiting messages stop_reason)))
classify_lem messages stop_reason file_truncated = (
  status_truncated messages stop_reason file_truncated,
  status_unknown messages stop_reason file_truncated,
  status_pending messages stop_reason file_truncated,
  status-IsAwaiting messages stop_reason file_truncated,
  status_clean messages stop_reason file_truncated,
)
