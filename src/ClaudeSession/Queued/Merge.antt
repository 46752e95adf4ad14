-- ===== src/ClaudeSession/Queued/Merge.antt =====
-- mergeQueuedCommands of internal/parser/claude.go: what the merged messages are.
use mathlib.Core.Path.{ap₂, sym}
use ca_session_source.Base.{
  ℕ, suc, ◌+◌, ◌≡◌, refl, ap, ◌∙◌, inl, inr, List, [], ◌∷◌, arith, length, numbers, length-map, map,
  numbers, Bool-cases,
}
use ca_session_source.ClaudeMessages.{ClaudeMessage, Calls}
use ca_session_source.ClaudeSession.{QueuedCommand}
use ca_session_source.ClaudeSession.Queued.{
  queued_command_message, queued_before, renumber, merge_loops, merge_queued_commands,
}

-- The third list holds the elements of the first two, those of each in their order.
pub data Interleaves {ℓ} {A : Type ℓ} : List A → List A → List A → Type ℓ where
  nothing : Interleaves [] [] []
  from_left : (x : A) (xs ys zs : List A) → Interleaves xs ys zs → Interleaves (x ∷ xs) ys (x ∷ zs)
  from_right : (y : A) (xs ys zs : List A) → Interleaves xs ys zs → Interleaves xs (y ∷ ys) (y ∷ zs)

only_left {ℓ} : {A : Type ℓ} (xs : List A) → Interleaves xs [] xs
only_left [] = nothing
only_left (x ∷ xs) = from_left x xs [] xs (only_left xs)

only_right {ℓ} : {A : Type ℓ} (ys : List A) → Interleaves [] ys ys
only_right [] = nothing
only_right (y ∷ ys) = from_right y [] ys ys (only_right ys)

map-Interleaves {ℓ κ} :
    {A : Type ℓ} {B : Type κ} (f : A → B) {xs ys zs : List A}
    → Interleaves xs ys zs
    → Interleaves (map f xs) (map f ys) (map f zs)
map-Interleaves f nothing = nothing
map-Interleaves f (from_left x xs ys zs i) = from_left (f x) _ _ _ (map-Interleaves f i)
map-Interleaves f (from_right y xs ys zs i) = from_right (f y) _ _ _ (map-Interleaves f i)

length-Interleaves {ℓ} :
    {A : Type ℓ} {xs ys zs : List A} → Interleaves xs ys zs → length zs ≡ length xs + length ys
length-Interleaves nothing = refl
length-Interleaves (from_left x xs ys zs i) = omega (arith, length-Interleaves i)
length-Interleaves (from_right y xs ys zs i) = omega (arith, length-Interleaves i)

-- A message but for its ordinal.
abbrev pub unnumbered : {T : Type 0} → ClaudeMessage T → ClaudeMessage T
unnumbered m = record m { ordinal = 0 }

module _ {T : Type 0} where
  renumber-ordinals :
      (k : ℕ) (out : List (ClaudeMessage T))
      → map (λ m. m.ordinal) (renumber k out) ≡ numbers k (length out)
  unfolding renumber
  renumber-ordinals k [] = refl
  renumber-ordinals k (m ∷ out) = ap (◌∷◌ k) (renumber-ordinals (suc k) out)

  renumber-unnumbered :
      (k : ℕ) (out : List (ClaudeMessage T)) → map unnumbered (renumber k out) ≡ map unnumbered out
  unfolding renumber
  renumber-unnumbered k [] = refl
  renumber-unnumbered k (m ∷ out) = ap (◌∷◌ (unnumbered m)) (renumber-unnumbered (suc k) out)

  module _ (calls : Calls T) where
    merge_loops-Interleaves :
        (messages : List (ClaudeMessage T)) (queued : List (QueuedCommand T))
        → Interleaves messages
            (map queued_command_message queued)
            (merge_loops calls messages queued)
    unfolding merge_loops
    merge_loops-Interleaves [] queued = only_right (map queued_command_message queued)
    merge_loops-Interleaves (m ∷ messages) [] = only_left (m ∷ messages)
    merge_loops-Interleaves (m ∷ messages) (q ∷ queued) =
        elim (Bool-cases (queued_before calls q m)) [
          | inl sooner ↦
              rw (sooner, merge_loops)
                (from_right _ _ _ _ (merge_loops-Interleaves (m ∷ messages) queued))
          | inr not_before ↦
              rw (not_before, merge_loops)
                (from_left _ _ _ _ (merge_loops-Interleaves messages (q ∷ queued)))
        ]

    -- The merged list holds every message and one message for each queued command, both in their
    -- order and unchanged but for their ordinals, which are consecutive from the start ordinal on.
    pub merge_queued_commands_lem :
        (messages : List (ClaudeMessage T)) (queued : List (QueuedCommand T)) (start : ℕ)
        → Interleaves
            (map unnumbered messages)
            (map unnumbered (map queued_command_message queued))
            (map unnumbered (merge_queued_commands calls messages queued start))
          × (map (λ m. m.ordinal) (merge_queued_commands calls messages queued start)
              ≡ numbers start (length messages + length queued))
    unfolding merge_queued_commands
    merge_queued_commands_lem messages queued start =
        let merged = merge_loops-Interleaves messages queued in
        (
          rw (renumber-unnumbered start (merge_loops calls messages queued))
              (map-Interleaves unnumbered merged),
          renumber-ordinals start (merge_loops calls messages queued)
              ∙ ap (numbers start) (
                  omega
                    (arith, length-Interleaves merged, length-map queued_command_message queued)),
        )

    merge_loops-none :
        (messages : List (ClaudeMessage T)) → merge_loops calls messages [] ≡ messages
    unfolding merge_loops
    merge_loops-none [] = refl
    merge_loops-none (m ∷ messages) = refl

    renumber_same :
        (k : ℕ) (out : List (ClaudeMessage T))
        → map (λ m. m.ordinal) out ≡ numbers k (length out)
        → renumber k out ≡ out
    unfolding renumber
    renumber_same k [] h = refl
    renumber_same k (m ∷ out) h =
        let first : m.ordinal ≡ k = cc in
        let rest : map (λ n. n.ordinal) out ≡ numbers (suc k) (length out) = cc in
        ap₂ (λ i l. record m { ordinal = i } ∷ l) (sym first) (renumber_same (suc k) out rest)

    -- Without queued commands, messages that are numbered from the start ordinal on stay as they are.
    pub merge_queued_commands-none :
        (messages : List (ClaudeMessage T)) (start : ℕ)
        → map (λ m. m.ordinal) messages ≡ numbers start (length messages)
        → merge_queued_commands calls messages [] start ≡ messages
    unfolding merge_queued_commands
    merge_queued_commands-none messages start h =
        rw (merge_loops-none messages) (renumber_same start messages h)
