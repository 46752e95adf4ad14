-- ===== src/ClaudeSession/Queued/Order.antt =====
-- mergeQueuedCommands of internal/parser/claude.go: the merged messages stand in chronological order.
use ca_session_source.Base.{
  ℕ, suc, ◌≡◌, refl, ap, inl, inr, true, false, List, [], ◌∷◌, map, Bool-cases,
}
use ca_session_source.ClaudeMessages.{ClaudeMessage, Calls}
use ca_session_source.ClaudeSession.{QueuedCommand}
use ca_session_source.ClaudeSession.Queued.{
  queued_command_message, queued_before, renumber, merge_loops, merge_queued_commands,
}

module _ {T : Type 0} (calls : Calls T) where
  -- What is used of time.Time's Before: of two instants at most one is before the other.
  abbrev pub IsAsymmetric : Type 0
  IsAsymmetric = (a b : T) → calls.before a b ≡ true → calls.before b a ≡ false

  -- None of the instants is zero, none is before `p`, and none is before the one that it follows.
  abbrev pub Chronological : T → List T → Type 0
  Chronological p [] = Unit
  Chronological p (t ∷ ts) =
      (calls.is_zero t ≡ false) × (calls.before t p ≡ false) × Chronological t ts

  abbrev pub instants : List (ClaudeMessage T) → List T
  instants messages = map (λ m. m.timestamp) messages

  abbrev pub prompted : List (QueuedCommand T) → List T
  prompted queued = map (λ q. q.timestamp) queued

  renumber-instants :
      (k : ℕ) (out : List (ClaudeMessage T)) → instants (renumber k out) ≡ instants out
  unfolding renumber
  renumber-instants k [] = refl
  renumber-instants k (m ∷ out) = ap (◌∷◌ m.timestamp) (renumber-instants (suc k) out)

  commands-instants :
      (queued : List (QueuedCommand T))
      → instants (map queued_command_message queued) ≡ prompted queued
  unfolding queued_command_message
  commands-instants [] = refl
  commands-instants (q ∷ queued) = ap (◌∷◌ q.timestamp) (commands-instants queued)

  merge_loops-Chronological :
      IsAsymmetric
      → (p : T) (messages : List (ClaudeMessage T)) (queued : List (QueuedCommand T))
      → Chronological p (instants messages)
      → Chronological p (prompted queued)
      → Chronological p (instants (merge_loops calls messages queued))
  unfolding merge_loops queued_before queued_command_message
  merge_loops-Chronological asym p [] queued up_m up_q = rw (commands-instants queued) up_q
  merge_loops-Chronological asym p (m ∷ messages) [] up_m up_q = up_m
  merge_loops-Chronological asym p (m ∷ messages) (q ∷ queued) up_m up_q =
      elim (Bool-cases (calls.before q.timestamp m.timestamp)) [
        | inl sooner ↦
            rw (up_q.0, up_m.0, sooner, merge_loops)
              (
                up_q.0,
                up_q.1,
                merge_loops-Chronological asym q.timestamp (m ∷ messages) queued
                    (up_m.0, asym q.timestamp m.timestamp sooner, up_m.2) up_q.2,
              )
        | inr not_before ↦
            rw (up_q.0, up_m.0, not_before, merge_loops)
              (
                up_m.0,
                up_m.1,
                merge_loops-Chronological asym m.timestamp messages (q ∷ queued) up_m.2
                    (up_q.0, not_before, up_q.2),
              )
      ]

  -- If the messages and the queued commands stand in chronological order from an instant on, and
  -- all have timestamps, the merged messages stand in chronological order from it on. Of Before the
  -- asymmetry is used only.
  pub merge_queued_commands-Chronological :
      IsAsymmetric
      → (p : T) (messages : List (ClaudeMessage T)) (queued : List (QueuedCommand T)) (start : ℕ)
      → Chronological p (instants messages)
      → Chronological p (prompted queued)
      → Chronological p (instants (merge_queued_commands calls messages queued start))
  unfolding merge_queued_commands
  merge_queued_commands-Chronological asym p messages queued start up_m up_q =
      rw (renumber-instants start (merge_loops calls messages queued))
        (merge_loops-Chronological asym p messages queued up_m up_q)
