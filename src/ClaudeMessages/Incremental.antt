-- ===== src/ClaudeMessages/Incremental.antt =====
-- extractMessages and extractMessagesFrom of internal/parser/claude.go on a file that has grown.
use mathlib.Core.List.{append_assoc, append-nil}
use mathlib.Core.Path.{ap₂}
use ca_session_source.Base.{
  ℕ, suc, ◌+◌, ◌≡◌, refl, sym, ap, subst, ◌∙◌, inl, inr, Bool, true, false, List, [], ◌∷◌, ◌++◌,
  Option, none, some, list_equality, nat_equality, arith, if◌then◌else◌, length, map, numbers,
  Option-cases,
}
use ca_session_source.GoText.{Text}
use ca_session_source.ClaudeDag.{DagEntry}
use ca_session_source.ClaudeMessages.{
  ClaudeMessage, Calls, TextContent, shown_text, text_message, system_message, plain_message,
  compact_message, read_entry, extract_loop, extract_messages, extract_messages_from,
}

module _ {T : Type 0} (calls : Calls T) where
  -- The messages of the entries, numbered from `k` on.
  abbrev pub messages_of : List (DagEntry T) → ℕ → List (ClaudeMessage T)
  messages_of [] k = []
  messages_of (e ∷ entries) k = elim (read_entry calls e k) [
    | none ↦ messages_of entries k
    | some m ↦ m ∷ messages_of entries (suc k)
  ]

  extract_loop-messages_of :
      (entries : List (DagEntry T)) (messages : List (ClaudeMessage T)) (started ended : T) (k : ℕ)
      → (extract_loop calls entries messages started ended k).0 ≡ messages ++ messages_of entries k
  unfolding extract_loop
  extract_loop-messages_of [] messages started ended k = sym (append-nil messages)
  extract_loop-messages_of (e ∷ entries) messages started ended k =
      elim (Option-cases (read_entry calls e k)) [
        | inl skipped ↦
            rw (skipped, extract_loop, messages_of)
              (extract_loop-messages_of entries messages _ _ k)
        | inr (m, read) ↦
            rw (read, extract_loop, messages_of)
              (extract_loop-messages_of entries (messages ++ m ∷ []) _ _ (suc k)
                ∙ append_assoc messages (m ∷ []) (messages_of entries (suc k)))
      ]

  messages_of-append :
      (xs ys : List (DagEntry T)) (k : ℕ)
      → messages_of (xs ++ ys) k
        ≡ messages_of xs k ++ messages_of ys (k + length (messages_of xs k))
  messages_of-append [] ys k = let e : k + 0 ≡ k = omega arith in rw e refl
  messages_of-append (x ∷ xs) ys k = elim (Option-cases (read_entry calls x k)) [
    | inl skipped ↦ rw (skipped, messages_of) (messages_of-append xs ys k)
    | inr (m, read) ↦
        let rest = messages_of-append xs ys (suc k) in
        let place : k + suc (length (messages_of xs (suc k)))
            ≡ suc k + length (messages_of xs (suc k)) =
          omega arith in
        rw (read, messages_of, place) (ap (◌∷◌ m) rest)
  ]

  -- A message, if there is one, has the ordinal `k`.
  data IsNumbered (k : ℕ) : Option (ClaudeMessage T) → Type 0 where
    missing : IsNumbered k none
    numbered : (m : ClaudeMessage T) → m.ordinal ≡ k → IsNumbered k (some m)

  if-IsNumbered :
      {k : ℕ} (b : Bool) {x y : Option (ClaudeMessage T)}
      → IsNumbered k x
      → IsNumbered k y
      → IsNumbered k (if b then x else y)
  if-IsNumbered true x y = x
  if-IsNumbered false x y = y

  text_message-IsNumbered :
      (e : DagEntry T) (parts : TextContent) (k : ℕ) (text : Text)
      → IsNumbered k (text_message calls e parts k text)
  unfolding text_message system_message plain_message
  text_message-IsNumbered e parts k text =
      if-IsNumbered _ missing
        (if-IsNumbered _ (numbered _ refl) (if-IsNumbered _ missing (numbered _ refl)))

  shown-IsNumbered :
      (e : DagEntry T) (parts : TextContent) (k : ℕ) (o : Option Text)
      → IsNumbered k (elim o as (λ _. Option (ClaudeMessage T)) [
        | none ↦ none
        | some text ↦ text_message calls e parts k text
      ])
  shown-IsNumbered e parts k none = missing
  shown-IsNumbered e parts k (some text) = text_message-IsNumbered e parts k text

  read_entry-IsNumbered : (e : DagEntry T) (k : ℕ) → IsNumbered k (read_entry calls e k)
  unfolding read_entry compact_message
  read_entry-IsNumbered e k =
      let parts = calls.text_content e.line in
      if-IsNumbered _ (numbered _ refl)
        (if-IsNumbered _ missing (shown-IsNumbered e parts k (shown_text calls e parts.text)))

  ordinal_of : {k : ℕ} (m : ClaudeMessage T) → IsNumbered k (some m) → m.ordinal ≡ k
  ordinal_of m (numbered _ e) = e

  -- An entry's message has the ordinal that it is given.
  read_entry-ordinal :
      (e : DagEntry T) (k : ℕ) (m : ClaudeMessage T) → read_entry calls e k ≡ some m → m.ordinal ≡ k
  read_entry-ordinal e k m h = ordinal_of m (subst (IsNumbered k) h (read_entry-IsNumbered e k))

  messages_of-ordinals :
      (entries : List (DagEntry T)) (k : ℕ)
      → map (λ m. m.ordinal) (messages_of entries k) ≡ numbers k (length (messages_of entries k))
  messages_of-ordinals [] k = refl
  messages_of-ordinals (e ∷ entries) k = elim (Option-cases (read_entry calls e k)) [
    | inl skipped ↦ rw (skipped, messages_of) (messages_of-ordinals entries k)
    | inr (m, read) ↦
        rw (read, messages_of)
          (ap₂ ◌∷◌ (read_entry-ordinal e k m read) (messages_of-ordinals entries (suc k)))
  ]

  pub extract_messages_from-ordinals :
      (entries : List (DagEntry T)) (k : ℕ)
      → let messages = (extract_messages_from calls entries k).0 in
        map (λ m. m.ordinal) messages ≡ numbers k (length messages)
  unfolding extract_messages_from
  extract_messages_from-ordinals entries k =
      rw (extract_loop-messages_of entries [] calls.zero_time calls.zero_time k)
        (messages_of-ordinals entries k)

  pub extract_messages_from-append :
      (xs ys : List (DagEntry T)) (k : ℕ)
      → (extract_messages_from calls (xs ++ ys) k).0
        ≡ (extract_messages_from calls xs k).0
          ++ (extract_messages_from calls ys (k + length (extract_messages_from calls xs k).0)).0
  unfolding extract_messages_from
  extract_messages_from-append xs ys k =
      let whole = extract_loop-messages_of (xs ++ ys) [] calls.zero_time calls.zero_time k in
      let first = extract_loop-messages_of xs [] calls.zero_time calls.zero_time k in
      whole
      ∙ messages_of-append xs ys k
      ∙ rw first (
          ap (◌++◌ (messages_of xs k))
            (sym (extract_loop-messages_of ys [] calls.zero_time calls.zero_time _)))

  -- The full parse of a file numbers its messages from 0 on.
  pub extract_messages-from_zero :
      (entries : List (DagEntry T))
      → extract_messages calls entries ≡ extract_messages_from calls entries 0
  unfolding extract_messages extract_messages_from
  extract_messages-from_zero entries = refl
