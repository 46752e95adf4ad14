-- ===== src/ToolResults/Places.antt =====
-- pairToolResults of internal/sync/engine.go: the places of calls, and the index of their ids.
use ca_session_source.Base.{
  ℕ, zero, suc, ◌+◌, ◌≡◌, ◌≢◌, refl, sym, ap, ◌∙◌, inl, inr, String, not, ◌&&◌, List, [], ◌∷◌,
  Option, none, some, arith, ◌==◌, ==_iff, string_equality, nat_equality, if◌then◌else◌, Bool-cases,
  Option-cases, get_elem?, map,
}
use ca_session_source.GoMap.{Map, get, put}
use ca_session_source.GoMap.Laws.{get-put}
use ca_session_source.MessageRows.{ToolCall, Message}
use ca_session_source.ToolResults.{index_calls, index_messages, update_call, update_message}

-- The call at place `j` of the message at place `i`.
abbrev pub call_at : ℕ → ℕ → List Message → Option ToolCall
call_at i j [] = none
call_at zero j (m ∷ msgs) = get_elem? m.tool_calls j
call_at (suc i) j (m ∷ msgs) = call_at i j msgs

abbrev pub on_some {ℓ} : {A : Type ℓ} → (A → A) → Option A → Option A
on_some f none = none
on_some f (some x) = some (f x)

update_call-get :
    (j k : ℕ) (f : ToolCall → ToolCall) (calls : List ToolCall)
    → get_elem? (update_call k f calls) j
      ≡ (if k == j then on_some f (get_elem? calls j) else get_elem? calls j)
unfolding update_call
update_call-get j k f [] = ground arith
update_call-get zero zero f (tc ∷ calls) = refl
update_call-get zero (suc k) f (tc ∷ calls) = ground arith
update_call-get (suc j) zero f (tc ∷ calls) = ground arith
update_call-get (suc j) (suc k) f (tc ∷ calls) = ground (arith, update_call-get j k f calls)

pub call_at-update :
    (i j p q : ℕ) (f : ToolCall → ToolCall) (msgs : List Message)
    → call_at i j (update_message p q f msgs)
      ≡ (if p == i && q == j then on_some f (call_at i j msgs) else call_at i j msgs)
unfolding update_message
call_at-update i j p q f [] = ground arith
call_at-update zero j zero q f (m ∷ msgs) = ground (arith, update_call-get j q f m.tool_calls)
call_at-update zero j (suc p) q f (m ∷ msgs) = ground arith
call_at-update (suc i) j zero q f (m ∷ msgs) = ground arith
call_at-update (suc i) j (suc p) q f (m ∷ msgs) = ground (arith, call_at-update i j p q f msgs)

abbrev pub later_or {ℓ} : {A : Type ℓ} → Option A → Option A → Option A
later_or none old = old
later_or (some x) old = some x

abbrev pub at_message : ℕ → Option ℕ → Option (ℕ × ℕ)
at_message i none = none
at_message i (some j) = some (i, j)

-- The place of the last call with the id among a message's calls, counted from `j` on.
abbrev pub last_call : String → ℕ → List ToolCall → Option ℕ
last_call id j [] = none
last_call id j (tc ∷ calls) =
    later_or (last_call id (suc j) calls) (if tc.tool_use_id == id then some j else none)

-- The place of the last call with the id, the messages counted from `i` on.
abbrev pub last_use : String → ℕ → List Message → Option (ℕ × ℕ)
last_use id i [] = none
last_use id i (m ∷ msgs) =
    later_or (last_use id (suc i) msgs) (at_message i (last_call id 0 m.tool_calls))

later_or_assoc {ℓ} :
    {A : Type ℓ} (a b c : Option A) → later_or a (later_or b c) ≡ later_or (later_or a b) c
later_or_assoc none b c = refl
later_or_assoc (some x) b c = refl

at_message-later_or :
    (i : ℕ) (a b : Option ℕ)
    → at_message i (later_or a b) ≡ later_or (at_message i a) (at_message i b)
at_message-later_or i none b = refl
at_message-later_or i (some x) b = refl

-- What one call adds to the index.
get-index_call :
    (id : String) (i j : ℕ) (idx : Map String (ℕ × ℕ)) (tc : ToolCall)
    → id ≢ ""
    → get id (if not (tc.tool_use_id == "") then put tc.tool_use_id (i, j) idx else idx)
      ≡ later_or (at_message i (if tc.tool_use_id == id then some j else none)) (get id idx)
get-index_call id i j idx tc ne = ground (
  arith,
  ==_iff tc.tool_use_id id,
  ==_iff tc.tool_use_id "",
  get-put tc.tool_use_id id (i, j) idx,
)

get-index_calls :
    (id : String) (i j : ℕ) (idx : Map String (ℕ × ℕ)) (calls : List ToolCall)
    → id ≢ ""
    → get id (index_calls i j idx calls)
      ≡ later_or (at_message i (last_call id j calls)) (get id idx)
unfolding index_calls
get-index_calls id i j idx [] ne = refl
get-index_calls id i j idx (tc ∷ calls) ne =
    let one : Option ℕ = if tc.tool_use_id == id then some j else none in
    let rest = last_call id (suc j) calls in
    get-index_calls id i (suc j) _ calls ne
    ∙ ap (later_or (at_message i rest)) (get-index_call id i j idx tc ne)
    ∙ later_or_assoc (at_message i rest) (at_message i one) (get id idx)
    ∙ ap (λ p. later_or p (get id idx)) (sym (at_message-later_or i rest one))

pub get-index_messages :
    (id : String) (i : ℕ) (idx : Map String (ℕ × ℕ)) (msgs : List Message)
    → id ≢ ""
    → get id (index_messages i idx msgs) ≡ later_or (last_use id i msgs) (get id idx)
unfolding index_messages
get-index_messages id i idx [] ne = refl
get-index_messages id i idx (m ∷ msgs) ne =
    get-index_messages id (suc i) _ msgs ne
    ∙ ap (later_or (last_use id (suc i) msgs)) (get-index_calls id i 0 idx m.tool_calls ne)
    ∙ later_or_assoc (last_use id (suc i) msgs) (at_message i (last_call id 0 m.tool_calls))
        (get id idx)

-- The empty id is no key of the index.
get_empty-index_calls :
    (i j : ℕ) (idx : Map String (ℕ × ℕ)) (calls : List ToolCall)
    → get "" (index_calls i j idx calls) ≡ get "" idx
unfolding index_calls
get_empty-index_calls i j idx [] = refl
get_empty-index_calls i j idx (tc ∷ calls) = elim (Bool-cases (tc.tool_use_id == "")) [
  | inl empty ↦ rw empty (get_empty-index_calls i (suc j) idx calls)
  | inr full ↦
      rw (full, get_empty-index_calls i (suc j) (put tc.tool_use_id (i, j) idx) calls)
        (get-put tc.tool_use_id "" (i, j) idx ∙ rw full refl)
]

pub get_empty-index_messages :
    (i : ℕ) (idx : Map String (ℕ × ℕ)) (msgs : List Message)
    → get "" (index_messages i idx msgs) ≡ get "" idx
unfolding index_messages
get_empty-index_messages i idx [] = refl
get_empty-index_messages i idx (m ∷ msgs) =
    get_empty-index_messages (suc i) _ msgs ∙ get_empty-index_calls i 0 idx m.tool_calls

last_call-get :
    (id : String) (j k : ℕ) (calls : List ToolCall)
    → last_call id j calls ≡ some k
    → (d : ℕ) × (tc : ToolCall) × (k ≡ j + d)
      × (get_elem? calls d ≡ some tc)
      × (tc.tool_use_id ≡ id)
last_call-get id j k [] h = absurd (cc)
last_call-get id j k (tc ∷ calls) h = elim (Option-cases (last_call id (suc j) calls)) [
  | inr (l, e) ↦
      let same : l ≡ k = let p = rw e at h in cc in
      let (d, c, at_d, get_d, named) = last_call-get id (suc j) k calls (e ∙ ap some same) in
      (suc d, c, omega arith, get_d, named)
  | inl e ↦ elim (Bool-cases (tc.tool_use_id == id)) [
    | inl hit ↦
        let same : j ≡ k = let p = rw (e, hit) at h in cc in
        (0, tc, omega arith, refl, (==_iff tc.tool_use_id id).0 hit)
    | inr miss ↦ absurd (let p = rw (e, miss) at h in cc)
  ]
]

-- The place of a last use holds a call with the id.
pub last_use-call_at :
    (id : String) (i : ℕ) (p : ℕ × ℕ) (msgs : List Message)
    → last_use id i msgs ≡ some p
    → (d : ℕ) × (tc : ToolCall) × (p.0 ≡ i + d)
      × (call_at d p.1 msgs ≡ some tc)
      × (tc.tool_use_id ≡ id)
last_use-call_at id i p [] h = absurd (cc)
last_use-call_at id i p (m ∷ msgs) h = elim (Option-cases (last_use id (suc i) msgs)) [
  | inr (q, e) ↦
      let same : q ≡ p = let g = rw e at h in cc in
      let (d, tc, at_d, there, named) = last_use-call_at id (suc i) p msgs (e ∙ ap some same) in
      (suc d, tc, omega arith, there, named)
  | inl e ↦ elim (Option-cases (last_call id 0 m.tool_calls)) [
    | inr (k, f) ↦
        let same : (i, k) ≡ p = let g = rw (e, f) at h in cc in
        let (d, tc, at_d, there, named) = last_call-get id 0 k m.tool_calls f in
        let own_call : p.1 ≡ k = ap (λ (q : ℕ × ℕ). q.1) (sym same) in
        let own_place : p.1 ≡ d = omega (arith, own_call, at_d) in
        let own_message : p.0 ≡ i = ap (λ (q : ℕ × ℕ). q.0) (sym same) in
        (0, tc, omega (arith, own_message), rw own_place there, named)
    | inl f ↦ absurd (let g = rw (e, f) at h in cc)
  ]
]

-- A message but for its calls.
abbrev pub without_calls : Message → Message
without_calls m = record m { tool_calls = [] }

pub update_message-without_calls :
    (p q : ℕ) (f : ToolCall → ToolCall) (msgs : List Message)
    → map without_calls (update_message p q f msgs) ≡ map without_calls msgs
unfolding update_message
update_message-without_calls p q f [] = refl
update_message-without_calls zero q f (m ∷ msgs) = refl
update_message-without_calls (suc p) q f (m ∷ msgs) =
    ap (λ l. without_calls m ∷ l) (update_message-without_calls p q f msgs)
