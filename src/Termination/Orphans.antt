-- ===== src/Termination/Orphans.antt =====
-- hasOrphanedToolCall of internal/parser/termination.go: calls without a later result.
use ca_session_source.Base.{list_equality, nat_equality}
use ca_session_source.Base.{
  ◌≡◌, ◌≢◌, ◌↔◌, refl, sym, ap, ◌∙◌, inl, inr, String, Bool, true, false, not, ◌||◌, ◌&&◌, List, [],
  ◌∷◌, ◌++◌, Option, none, some, arith, ◌==◌, ==_iff, string_equality, Bool-cases, All,
}
use ca_session_source.Base.Counting.{any}
use ca_session_source.GoText.{codes}
use ca_session_source.GoMap.{Map, get_or, put}
use ca_session_source.GoMap.Laws.{get_or-put}
use ca_session_source.Termination.{
  ParsedToolCall, ParsedToolResult, ParsedMessage, last_assistant, resolve_results,
  resolve_messages, has_unresolved, has_orphaned_tool_call,
}

-- The message has a result for the call.
abbrev pub answers : String → ParsedMessage → Bool
answers id m = any (λ r. r.tool_use_id == id) m.tool_results

abbrev pub NotAssistant : ParsedMessage → Type 0
NotAssistant m = m.role ≢ codes "assistant"

-- The last assistant's message has a call with an id that no message after it answers.
pub record HasOrphan (messages : List ParsedMessage) : Type 0 where
  pub before : List ParsedMessage
  pub last : ParsedMessage
  pub after : List ParsedMessage
  pub split : messages ≡ before ++ (last ∷ after)
  pub by_assistant : last.role ≡ codes "assistant"
  pub is_last : All NotAssistant after
  pub earlier : List ParsedToolCall
  pub call : ParsedToolCall
  pub later : List ParsedToolCall
  pub among : last.tool_calls ≡ earlier ++ (call ∷ later)
  pub named : call.tool_use_id ≢ ""
  pub unanswered : any (answers call.tool_use_id) after ≡ false

resolve_results-any :
    (id : String) (resolved : Map String Bool) (results : List ParsedToolResult)
    → id ≢ ""
    → get_or false id (resolve_results resolved results)
      ≡ (get_or false id resolved || any (λ r. r.tool_use_id == id) results)
unfolding resolve_results
resolve_results-any id resolved [] ne = ground arith
resolve_results-any id resolved (tr ∷ results) ne = elim (Bool-cases (tr.tool_use_id == "")) [
  | inl empty ↦
      let other : (tr.tool_use_id == id) ≡ false =
        ground (arith, ==_iff tr.tool_use_id id, ==_iff tr.tool_use_id "") in
      rw (empty, other) (resolve_results-any id resolved results ne)
  | inr full ↦
      let ih = resolve_results-any id (put tr.tool_use_id true resolved) results ne in
      let read = get_or-put false tr.tool_use_id id true resolved in
      rw (full, ih, read) (ground arith)
]

resolve_messages-any :
    (id : String) (resolved : Map String Bool) (messages : List ParsedMessage)
    → id ≢ ""
    → get_or false id (resolve_messages resolved messages)
      ≡ (get_or false id resolved || any (answers id) messages)
unfolding resolve_messages
resolve_messages-any id resolved [] ne = ground arith
resolve_messages-any id resolved (m ∷ messages) ne =
    let here = resolve_results-any id resolved m.tool_results ne in
    let ih = resolve_messages-any id (resolve_results resolved m.tool_results) messages ne in
    rw (ih, here) (ground arith)

-- Some call with an id is not among the resolved ones.
abbrev Unresolved : Map String Bool → List ParsedToolCall → Type 0
Unresolved resolved calls =
    (earlier : List ParsedToolCall) × (call : ParsedToolCall) × (later : List ParsedToolCall)
    × (calls ≡ earlier ++ (call ∷ later))
    × (call.tool_use_id ≢ "")
    × (get_or false call.tool_use_id resolved ≡ false)

Unresolved-found :
    (resolved : Map String Bool) (calls : List ParsedToolCall)
    → has_unresolved resolved calls ≡ true
    → Unresolved resolved calls
unfolding has_unresolved
Unresolved-found resolved [] h = absurd (cc)
Unresolved-found resolved (tc ∷ calls) h =
    elim (Bool-cases (not (tc.tool_use_id == "") && not (get_or false tc.tool_use_id resolved))) [
      | inl hit ↦ (
        [],
        tc,
        calls,
        refl,
        λ e. absurd (ground (arith, ==_iff tc.tool_use_id "")),
        ground arith,
      )
      | inr miss ↦
          let (earlier, call, later, split, named, open_call) =
            Unresolved-found resolved calls (rw miss at h) in
          (tc ∷ earlier, call, later, ap (λ l. tc ∷ l) split, named, open_call)
    ]

unresolved_reported :
    (resolved : Map String Bool) (earlier later : List ParsedToolCall) (call : ParsedToolCall)
    → call.tool_use_id ≢ ""
    → get_or false call.tool_use_id resolved ≡ false
    → has_unresolved resolved (earlier ++ (call ∷ later)) ≡ true
unfolding has_unresolved
unresolved_reported resolved [] later call named open_call =
    ground (arith, ==_iff call.tool_use_id "")
unresolved_reported resolved (tc ∷ earlier) later call named open_call =
    ground (arith, unresolved_reported resolved earlier later call named open_call)

none_by_assistant :
    (messages : List ParsedMessage) → All NotAssistant messages → last_assistant messages ≡ none
unfolding last_assistant
none_by_assistant [] a = refl
none_by_assistant (m ∷ messages) a =
    let other : (m.role == codes "assistant") ≡ false =
      ground (arith, ==_iff m.role (codes "assistant")) in
    rw (none_by_assistant messages a.1, other) refl

last_assistant-split :
    (before after : List ParsedMessage) (last : ParsedMessage)
    → last.role ≡ codes "assistant"
    → All NotAssistant after
    → last_assistant (before ++ (last ∷ after)) ≡ some (last, after)
unfolding last_assistant
last_assistant-split [] after last e a =
    let it_is : (last.role == codes "assistant") ≡ true =
      (==_iff last.role (codes "assistant")).1 e in
    rw (none_by_assistant after a, it_is) refl
last_assistant-split (m ∷ before) after last e a =
    rw (last_assistant-split before after last e a) refl

-- What lastAssistantIdx points at.
abbrev LastSplit : List ParsedMessage → Option (ParsedMessage × List ParsedMessage) → Type 0
LastSplit messages none = All NotAssistant messages
LastSplit messages (some (last, after)) =
    (before : List ParsedMessage) × (messages ≡ before ++ (last ∷ after))
    × (last.role ≡ codes "assistant")
    × All NotAssistant after

last_assistant-LastSplit :
    (messages : List ParsedMessage) → LastSplit messages (last_assistant messages)
unfolding last_assistant
last_assistant-LastSplit [] = tt
last_assistant-LastSplit (m ∷ messages) =
    found (last_assistant messages) refl (last_assistant-LastSplit messages)
  where
    found :
        (r : Option (ParsedMessage × List ParsedMessage))
        → last_assistant messages ≡ r
        → LastSplit messages r
        → LastSplit (m ∷ messages) (last_assistant (m ∷ messages))
    found none e a = elim (Bool-cases (m.role == codes "assistant")) [
      | inl here ↦
          rw (e, here, last_assistant) ([], refl, (==_iff m.role (codes "assistant")).0 here, a)
      | inr other ↦
          rw (e, other, last_assistant)
            (λ h. absurd (ground (arith, ==_iff m.role (codes "assistant"))), a)
    ]
    found (some (last, after)) e (before, split, role, a) =
        rw (e, last_assistant) (m ∷ before, ap (λ l. m ∷ l) split, role, a)

orphan_found :
    (messages : List ParsedMessage) → has_orphaned_tool_call messages ≡ true → HasOrphan messages
unfolding has_orphaned_tool_call get_or
orphan_found messages h = found (last_assistant messages) refl (last_assistant-LastSplit messages)
  where
    found :
        (r : Option (ParsedMessage × List ParsedMessage))
        → last_assistant messages ≡ r
        → LastSplit messages r
        → HasOrphan messages
    found none e a = absurd (let p : false ≡ true = rw (e, has_orphaned_tool_call) at h in cc)
    found (some (last, after)) e (before, split, role, a) =
        let (earlier, call, later, among, named, open_call) =
          Unresolved-found (resolve_messages [] after) last.tool_calls
            (rw (e, has_orphaned_tool_call) at h) in
        record {
          before = before;
          last = last;
          after = after;
          split = split;
          by_assistant = role;
          is_last = a;
          earlier = earlier;
          call = call;
          later = later;
          among = among;
          named = named;
          unanswered = sym (resolve_messages-any call.tool_use_id [] after named) ∙ open_call;
        }

orphan_reported :
    (messages : List ParsedMessage) → HasOrphan messages → has_orphaned_tool_call messages ≡ true
unfolding has_orphaned_tool_call get_or
orphan_reported messages o =
    let at_last = last_assistant-split o.before o.after o.last o.by_assistant o.is_last in
    let open_call = resolve_messages-any o.call.tool_use_id [] o.after o.named ∙ o.unanswered in
    rw (o.split, at_last, o.among, has_orphaned_tool_call)
      (unresolved_reported (resolve_messages [] o.after) o.earlier o.later o.call o.named open_call)

-- hasOrphanedToolCall answers true exactly when the last assistant's message has a call with an id
-- that is not the id of a result in any message after it.
pub has_orphaned_tool_call_iff :
    (messages : List ParsedMessage) → (has_orphaned_tool_call messages ≡ true) ↔ HasOrphan messages
has_orphaned_tool_call_iff messages = (orphan_found messages, orphan_reported messages)
