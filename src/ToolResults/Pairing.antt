-- ===== src/ToolResults/Pairing.antt =====
-- pairToolResults of internal/sync/engine.go: which result each call takes.
use ca_session_source.Base.{
  ℕ, ◌≡◌, ◌≢◌, refl, sym, ap, ◌∙◌, inl, inr, String, Bool, true, not, ◌&&◌, List, [], ◌∷◌, Option,
  none, some, arith, ◌==◌, ==_iff, string_equality, nat_equality, if◌then◌else◌, Bool-cases, length,
  map,
}
use ca_session_source.GoMap.{Map, get}
use ca_session_source.GoText.{Text}
use ca_session_source.MessageRows.{ToolCall, ToolResult, Message}
use ca_session_source.ToolResults.Places.{
  call_at, on_some, later_or, last_use, get-index_messages, get_empty-index_messages,
  last_use-call_at, without_calls, update_message-without_calls,
}
use ca_session_source.ToolResults.{
  index_messages, update_message, set_result, pair_results, pair_messages, pair_tool_results,
}
use ca_session_source.ToolResults.Writes.{
  last_result, all_results, is_place, points, written, pair_messages-call, settled, written_mine,
  written_other,
}

-- The call at the place has an id, and no later call has the same.
abbrev pub is_last_use : List Message → ℕ → ℕ → ToolCall → Bool
is_last_use msgs i j tc =
    not (tc.tool_use_id == "") && is_place i j (last_use tc.tool_use_id 0 msgs)

is_place-later_or : (i j : ℕ) (o : Option (ℕ × ℕ)) → is_place i j (later_or o none) ≡ is_place i j o
is_place-later_or i j none = refl
is_place-later_or i j (some p) = refl

points-last_use :
    (msgs : List Message) (i j : ℕ) (r : ToolResult)
    → r.tool_use_id ≢ ""
    → points (index_messages 0 [] msgs) i j r ≡ is_place i j (last_use r.tool_use_id 0 msgs)
unfolding get
points-last_use msgs i j r ne =
    ap (is_place i j) (get-index_messages r.tool_use_id 0 [] msgs ne)
    ∙ is_place-later_or i j (last_use r.tool_use_id 0 msgs)

is_place-id :
    (msgs : List Message) (i j : ℕ) (id : String) (tc : ToolCall) (o : Option (ℕ × ℕ))
    → last_use id 0 msgs ≡ o
    → is_place i j o ≡ true
    → call_at i j msgs ≡ some tc
    → tc.tool_use_id ≡ id
is_place-id msgs i j id tc none e h there = absurd (cc)
is_place-id msgs i j id tc (some (p, q)) e h there =
    let (d, c, at_d, c_there, named) = last_use-call_at id 0 (p, q) msgs e in
    let same_i : d ≡ i = ground arith in
    let same_j : q ≡ j = ground arith in
    let same : c ≡ tc = let f = rw (same_i, same_j) at c_there in cc in rw (← same) named

points_eq :
    (msgs : List Message) (i j : ℕ) (tc : ToolCall) (r : ToolResult)
    → call_at i j msgs ≡ some tc
    → points (index_messages 0 [] msgs) i j r
      ≡ (r.tool_use_id == tc.tool_use_id && is_last_use msgs i j tc)
unfolding get
points_eq msgs i j tc r there = elim (Bool-cases (r.tool_use_id == "")) [
  | inl empty ↦
      let e : r.tool_use_id ≡ "" = (==_iff r.tool_use_id "").0 empty in
      let unknown : get r.tool_use_id (index_messages 0 [] msgs) ≡ none =
        rw e (get_empty-index_messages 0 [] msgs) in
      rw unknown (ground (arith, ==_iff r.tool_use_id tc.tool_use_id, ==_iff tc.tool_use_id ""))
  | inr full ↦
      let ne : r.tool_use_id ≢ "" = λ e. ground (arith, ==_iff r.tool_use_id "") in
      points-last_use msgs i j r ne ∙ elim (Bool-cases (r.tool_use_id == tc.tool_use_id)) [
        | inl hit ↦
            let e : r.tool_use_id ≡ tc.tool_use_id = (==_iff r.tool_use_id tc.tool_use_id).0 hit in
            rw (hit, ← e, full) refl
        | inr miss ↦ elim (Bool-cases (is_place i j (last_use r.tool_use_id 0 msgs))) [
          | inl here ↦
              let e = is_place-id msgs i j r.tool_use_id tc _ refl here there in
              absurd (ground (arith, ==_iff r.tool_use_id tc.tool_use_id))
          | inr there_not ↦ rw (miss, there_not) refl
        ]
      ]
]

module _ (decode_content : Text → Text) (blocked : Map String Bool) where
  -- A call after the pairing: the last use of its id takes the last result with the id, if any.
  abbrev pub paired : List Message → ℕ → ℕ → ToolCall → ToolCall
  paired msgs i j tc =
      if is_last_use msgs i j tc
      then settled decode_content blocked (last_result tc.tool_use_id (all_results msgs)) tc
      else tc

  written-paired :
      (msgs : List Message) (i j : ℕ) (o : Option ToolCall)
      → call_at i j msgs ≡ o
      → on_some (written decode_content blocked (index_messages 0 [] msgs) i j (all_results msgs)) o
        ≡ on_some (paired msgs i j) o
  written-paired msgs i j none e = refl
  written-paired msgs i j (some tc) e = ap some (elim (Bool-cases (is_last_use msgs i j tc)) [
    | inl mine ↦
        written_mine decode_content blocked (index_messages 0 [] msgs) i j tc.tool_use_id
          (all_results msgs) tc (λ r. points_eq msgs i j tc r e ∙ rw mine (ground arith))
        ∙ rw mine refl
    | inr other ↦
        written_other decode_content blocked (index_messages 0 [] msgs) i j (all_results msgs) tc
          (λ r. points_eq msgs i j tc r e ∙ rw other (ground arith))
        ∙ rw other refl
  ])

  -- With an empty index, nothing is written.
  no_index :
      (idx : Map String (ℕ × ℕ)) (i j : ℕ) (rs : List ToolResult) (o : Option ToolCall)
      → (length idx == 0) ≡ true
      → o ≡ on_some (written decode_content blocked idx i j rs) o
  unfolding get
  no_index idx i j rs none e = refl
  no_index [] i j rs (some tc) e =
      ap some (sym (written_other decode_content blocked [] i j rs tc (λ r. refl)))
  no_index (p ∷ idx) i j rs (some tc) e = absurd (ground arith)

  call_at-pair_tool_results :
      (msgs : List Message) (i j : ℕ)
      → call_at i j (pair_tool_results decode_content blocked msgs)
        ≡ on_some (paired msgs i j) (call_at i j msgs)
  unfolding pair_tool_results
  call_at-pair_tool_results msgs i j =
      let idx = index_messages 0 [] msgs in
      elim (Bool-cases (length idx == 0)) [
        | inl empty ↦
            rw (empty, pair_tool_results)
              (no_index idx i j (all_results msgs) (call_at i j msgs) empty
                ∙ written-paired msgs i j (call_at i j msgs) refl)
        | inr full ↦
            rw (full, pair_tool_results)
              (pair_messages-call decode_content blocked idx i j msgs msgs
                ∙ written-paired msgs i j (call_at i j msgs) refl)
      ]

  pair_results-without_calls :
      (idx : Map String (ℕ × ℕ)) (rs : List ToolResult) (msgs : List Message)
      → map without_calls (pair_results decode_content blocked idx rs msgs) ≡ map without_calls msgs
  unfolding pair_results
  pair_results-without_calls idx [] msgs = refl
  pair_results-without_calls idx (r ∷ rs) msgs =
      pair_results-without_calls idx rs _ ∙ one (get r.tool_use_id idx)
    where
      one :
          (o : Option (ℕ × ℕ))
          → map without_calls (elim o as (λ _. List Message) [
            | none ↦ msgs
            | some p ↦ update_message p.0 p.1 (set_result decode_content blocked r) msgs
          ])
            ≡ map without_calls msgs
      one none = refl
      one (some p) = update_message-without_calls p.0 p.1 _ msgs

  pair_messages-without_calls :
      (idx : Map String (ℕ × ℕ)) (rest msgs : List Message)
      → map without_calls (pair_messages decode_content blocked idx rest msgs)
        ≡ map without_calls msgs
  unfolding pair_messages
  pair_messages-without_calls idx [] msgs = refl
  pair_messages-without_calls idx (m ∷ rest) msgs =
      pair_messages-without_calls idx rest _ ∙ pair_results-without_calls idx m.tool_results msgs

  -- pairToolResults changes nothing of the messages but their calls. Of these it changes, for each
  -- id but the empty one, the last call with the id only, and that to take the last result with the
  -- id in any message, if there is one.
  pub pair_tool_results_lem :
      (msgs : List Message)
      → (map without_calls (pair_tool_results decode_content blocked msgs) ≡ map without_calls msgs)
        × ((i j : ℕ)
            → call_at i j (pair_tool_results decode_content blocked msgs)
              ≡ on_some (paired msgs i j) (call_at i j msgs))
  unfolding pair_tool_results
  pair_tool_results_lem msgs = (
    elim (Bool-cases (length (index_messages 0 [] msgs) == 0)) [
      | inl empty ↦ rw (empty, pair_tool_results) refl
      | inr full ↦ rw (full, pair_tool_results) (pair_messages-without_calls _ msgs msgs)
    ],
    call_at-pair_tool_results msgs,
  )
