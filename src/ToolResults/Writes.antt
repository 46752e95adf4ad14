-- ===== src/ToolResults/Writes.antt =====
-- pairToolResults of internal/sync/engine.go: the writes to the call at one place.
use ca_session_source.Base.{
  ℕ, ◌≡◌, refl, ap, ◌∙◌, String, Bool, true, false, ◌&&◌, List, [], ◌∷◌, ◌++◌, Option, none, some,
  arith, ◌==◌, string_equality, nat_equality, if◌then◌else◌,
}
use ca_session_source.GoMap.{Map, get}
use ca_session_source.GoText.{Text}
use ca_session_source.MessageRows.{ToolCall, ToolResult, Message}
use ca_session_source.ToolResults.Places.{call_at, on_some, call_at-update, later_or}
use ca_session_source.ToolResults.{update_message, set_result, pair_results, pair_messages}

-- The last of the results with the id.
abbrev pub last_result : String → List ToolResult → Option ToolResult
last_result id [] = none
last_result id (r ∷ rs) =
    later_or (last_result id rs) (if r.tool_use_id == id then some r else none)

abbrev pub all_results : List Message → List ToolResult
all_results [] = []
all_results (m ∷ msgs) = m.tool_results ++ all_results msgs

-- The result is for the call at the place.
abbrev pub is_place : ℕ → ℕ → Option (ℕ × ℕ) → Bool
is_place i j none = false
is_place i j (some p) = p.0 == i && p.1 == j

abbrev pub points : Map String (ℕ × ℕ) → ℕ → ℕ → ToolResult → Bool
points idx i j r = is_place i j (get r.tool_use_id idx)

module _ (decode_content : Text → Text) (blocked : Map String Bool) where
  abbrev pub set : ToolResult → ToolCall → ToolCall
  set = set_result decode_content blocked

  -- A call after the writes of the results that are for its place.
  abbrev pub written : Map String (ℕ × ℕ) → ℕ → ℕ → List ToolResult → ToolCall → ToolCall
  written idx i j [] tc = tc
  written idx i j (r ∷ rs) tc = written idx i j rs (if points idx i j r then set r tc else tc)

  pub on_some-written :
      (idx : Map String (ℕ × ℕ)) (i j : ℕ) (r : ToolResult) (rs : List ToolResult)
      (o : Option ToolCall)
      → on_some (written idx i j rs) (if points idx i j r then on_some (set r) o else o)
        ≡ on_some (written idx i j (r ∷ rs)) o
  on_some-written idx i j r rs none = ground arith
  on_some-written idx i j r rs (some tc) = ground arith

  pub one_result :
      (idx : Map String (ℕ × ℕ)) (i j : ℕ) (r : ToolResult) (msgs : List Message)
      → call_at i j (elim (get r.tool_use_id idx) [
        | none ↦ msgs
        | some p ↦ update_message p.0 p.1 (set r) msgs
      ])
        ≡ (if points idx i j r then on_some (set r) (call_at i j msgs) else call_at i j msgs)
  one_result idx i j r msgs = written_at (get r.tool_use_id idx)
    where
      written_at :
          (o : Option (ℕ × ℕ))
          → call_at i j (elim o as (λ _. List Message) [
            | none ↦ msgs
            | some p ↦ update_message p.0 p.1 (set r) msgs
          ])
            ≡ (if is_place i j o then on_some (set r) (call_at i j msgs) else call_at i j msgs)
      written_at none = refl
      written_at (some p) = call_at-update i j p.0 p.1 (set r) msgs

  pub pair_results-call :
      (idx : Map String (ℕ × ℕ)) (i j : ℕ) (rs : List ToolResult) (msgs : List Message)
      → call_at i j (pair_results decode_content blocked idx rs msgs)
        ≡ on_some (written idx i j rs) (call_at i j msgs)
  unfolding pair_results
  pair_results-call idx i j [] msgs = same (call_at i j msgs)
    where
      same : (o : Option ToolCall) → o ≡ on_some (λ tc. tc) o
      same none = refl
      same (some tc) = refl
  pair_results-call idx i j (r ∷ rs) msgs =
      pair_results-call idx i j rs _
      ∙ ap (on_some (written idx i j rs)) (one_result idx i j r msgs)
      ∙ on_some-written idx i j r rs (call_at i j msgs)

  pub written-append :
      (idx : Map String (ℕ × ℕ)) (i j : ℕ) (rs ss : List ToolResult) (o : Option ToolCall)
      → on_some (written idx i j ss) (on_some (written idx i j rs) o)
        ≡ on_some (written idx i j (rs ++ ss)) o
  written-append idx i j rs ss none = refl
  written-append idx i j [] ss (some tc) = refl
  written-append idx i j (r ∷ rs) ss (some tc) = written-append idx i j rs ss (some _)

  pub pair_messages-call :
      (idx : Map String (ℕ × ℕ)) (i j : ℕ) (rest msgs : List Message)
      → call_at i j (pair_messages decode_content blocked idx rest msgs)
        ≡ on_some (written idx i j (all_results rest)) (call_at i j msgs)
  unfolding pair_messages
  pair_messages-call idx i j [] msgs = same (call_at i j msgs)
    where
      same : (o : Option ToolCall) → o ≡ on_some (λ tc. tc) o
      same none = refl
      same (some tc) = refl
  pair_messages-call idx i j (m ∷ rest) msgs =
      pair_messages-call idx i j rest _
      ∙ ap (on_some (written idx i j (all_results rest)))
          (pair_results-call idx i j m.tool_results msgs)
      ∙ written-append idx i j m.tool_results (all_results rest) (call_at i j msgs)

  -- A call with the last result for it.
  abbrev pub settled : Option ToolResult → ToolCall → ToolCall
  settled none tc = tc
  settled (some r) tc = set r tc

  pub set_again : (r s : ToolResult) (tc : ToolCall) → set s (set r tc) ≡ set s tc
  unfolding set_result
  set_again r s tc = ground arith

  pub settled_step :
      (later : Option ToolResult) (r : ToolResult) (hit : Bool) (tc : ToolCall)
      → settled later (if hit then set r tc else tc)
        ≡ settled (later_or later (if hit then some r else none)) tc
  settled_step none r true tc = refl
  settled_step none r false tc = refl
  settled_step (some s) r true tc = set_again r s tc
  settled_step (some s) r false tc = refl

  -- Where the results with the id are those for the place, the last of them is what counts.
  pub written_mine :
      (idx : Map String (ℕ × ℕ)) (i j : ℕ) (id : String) (rs : List ToolResult) (tc : ToolCall)
      → ((r : ToolResult) → points idx i j r ≡ (r.tool_use_id == id))
      → written idx i j rs tc ≡ settled (last_result id rs) tc
  written_mine idx i j id [] tc h = refl
  written_mine idx i j id (r ∷ rs) tc h =
      ap (λ b. written idx i j rs (if b then set r tc else tc)) (h r)
      ∙ written_mine idx i j id rs _ h
      ∙ settled_step (last_result id rs) r (r.tool_use_id == id) tc

  pub written_other :
      (idx : Map String (ℕ × ℕ)) (i j : ℕ) (rs : List ToolResult) (tc : ToolCall)
      → ((r : ToolResult) → points idx i j r ≡ false)
      → written idx i j rs tc ≡ tc
  written_other idx i j [] tc h = refl
  written_other idx i j (r ∷ rs) tc h =
      ap (λ b. written idx i j rs (if b then set r tc else tc)) (h r)
      ∙ written_other idx i j rs tc h
