-- ===== src/SessionTiming/Slowest.antt =====
-- AssembleTiming of internal/db/timing.go: the slowest call of a session.
use mathlib.Core.List.{append_assoc}
use ca_session_source.Base.{
  ℕ, ◌≡◌, ◌⊎◌, refl, sym, ap, subst, ◌∙◌, inl, inr, Bool, true, false, not, List, [], ◌∷◌, ◌++◌,
  Option, none, some, nat_equality, String, arith, if◌then◌else◌, length, append-nil, All,
  All-append, All-imp, Bool-cases,
}
use ca_session_source.Base.Int.{ℤ, ltb_ℤ}
use ca_session_source.GoMap.{Map, get_or}
use ca_session_source.GoText.{Text}
use ca_session_source.SessionTiming.{
  CallTiming, TurnTiming, TurnRow, CallRow, CategoryTotal, TimedSession, Assembly, no_turns,
  mark_call, slower, longer_of, slower_of, mark_calls, add_turn, add_turns, group_calls,
  assemble_timing,
}

abbrev pub Among : CallTiming → List CallTiming → Type 0
Among c [] = ⊥
Among c (x ∷ xs) = (c ≡ x) ⊎ Among c xs

Among-append_left : (c : CallTiming) (xs ys : List CallTiming) → Among c xs → Among c (xs ++ ys)
Among-append_left c [] ys m = absurd m
Among-append_left c (x ∷ xs) ys (inl e) = inl e
Among-append_left c (x ∷ xs) ys (inr m) = inr (Among-append_left c xs ys m)

Among-append_last : (c : CallTiming) (xs : List CallTiming) → Among c (xs ++ c ∷ [])
Among-append_last c [] = inl refl
Among-append_last c (x ∷ xs) = inr (Among-append_last c xs)

abbrev pub Untimed : CallTiming → Type 0
Untimed c = c.duration_ms ≡ none

-- The call has no duration, or one that is not longer.
abbrev pub NotLonger : ℤ → CallTiming → Type 0
NotLonger longest c =
    (c.duration_ms ≡ none) ⊎ ((d : ℤ) × (c.duration_ms ≡ some d) × (ltb_ℤ longest d ≡ false))

-- One of the calls that no other takes longer than, and none exactly where no call has a duration.
abbrev pub IsSlowest : List CallTiming → Option CallTiming → Type 0
IsSlowest calls none = All Untimed calls
IsSlowest calls (some s) =
    (longest : ℤ) × (s.duration_ms ≡ some longest) × Among s calls × All (NotLonger longest) calls

NotLonger-le : (a b : ℤ) (c : CallTiming) → ltb_ℤ a b ≡ true → NotLonger a c → NotLonger b c
NotLonger-le a b c less (inl e) = inl e
NotLonger-le a b c less (inr (d, e, le)) = inr (d, e, ground arith)

ltb_ℤ_irrefl : (a : ℤ) → ltb_ℤ a a ≡ false
ltb_ℤ_irrefl a = ground arith

-- Taking one more call into account.
slower_of-IsSlowest :
    (calls : List CallTiming) (c : CallTiming) (slowest : Option CallTiming) (t : Option ℤ)
    → c.duration_ms ≡ t
    → IsSlowest calls slowest
    → IsSlowest (calls ++ c ∷ []) (slower_of slowest t c)
slower_of-IsSlowest calls c none none e h = All-append Untimed calls (c ∷ []) h (e, tt)
slower_of-IsSlowest calls c (some s) none e (longest, timed, among, all) = (
  longest,
  timed,
  Among-append_left s calls (c ∷ []) among,
  All-append (NotLonger longest) calls (c ∷ []) all (inl e, tt),
)
slower_of-IsSlowest calls c none (some d) e h = (
  d,
  e,
  Among-append_last c calls,
  All-append (NotLonger d) calls (c ∷ []) (All-imp (λ x u. inl u) calls h)
      (inr (d, e, ltb_ℤ_irrefl d), tt),
)
slower_of-IsSlowest calls c (some s) (some d) e (longest, timed, among, all) =
    subst (λ o. IsSlowest (calls ++ c ∷ []) (longer_of o s d c)) (sym timed)
      (elim (Bool-cases (ltb_ℤ longest d)) [
        | inl more ↦ rw more (
          d,
          e,
          Among-append_last c calls,
          All-append (NotLonger d) calls (c ∷ [])
              (All-imp (λ x n. NotLonger-le longest d x more n) calls all)
              (inr (d, e, ltb_ℤ_irrefl d), tt),
        )
        | inr no_more ↦ rw no_more (
          longest,
          timed,
          Among-append_left s calls (c ∷ []) among,
          All-append (NotLonger longest) calls (c ∷ []) all (inr (d, e, no_more), tt),
        )
      ])

-- The inner loop: what it has marked comes after the calls of the turns before.
mark_calls-IsSlowest :
    (n : ℕ) (turn_dur : Option ℤ) (before marked calls : List CallTiming)
    (slowest : Option CallTiming)
    → IsSlowest (before ++ marked) slowest
    → let r = mark_calls n turn_dur marked calls slowest in IsSlowest (before ++ r.0) r.1
unfolding mark_calls slower
mark_calls-IsSlowest n turn_dur before marked [] slowest h = h
mark_calls-IsSlowest n turn_dur before marked (c ∷ calls) slowest h =
    let m = mark_call n turn_dur c in
    let next = slower_of-IsSlowest (before ++ marked) m slowest m.duration_ms refl h in
    mark_calls-IsSlowest n turn_dur before (marked ++ m ∷ []) calls _ (
      subst (λ l. IsSlowest l (slower_of slowest m.duration_ms m))
        (append_assoc before marked (m ∷ [])) next)

-- The calls of all turns.
abbrev pub all_calls : List TurnTiming → List CallTiming
all_calls [] = []
all_calls (t ∷ turns) = t.calls ++ all_calls turns

all_calls-last :
    (turns : List TurnTiming) (t : TurnTiming)
    → all_calls (turns ++ t ∷ []) ≡ all_calls turns ++ t.calls
all_calls-last [] t = append-nil t.calls
all_calls-last (x ∷ turns) t =
    ap (◌++◌ x.calls) (all_calls-last turns t)
    ∙ sym (append_assoc x.calls (all_calls turns) t.calls)

turn_added :
    (turns : List TurnTiming) (t : TurnTiming) (slowest : Option CallTiming)
    → IsSlowest (all_calls turns ++ t.calls) slowest
    → IsSlowest (all_calls (turns ++ t ∷ [])) slowest
turn_added turns t slowest h = subst (λ l. IsSlowest l slowest) (sym (all_calls-last turns t)) h

-- The slowest call is that of the turns so far.
record IsSound (a : Assembly) : Type 0 where
  found : IsSlowest (all_calls a.turns) a.slowest

if-IsSound : (b : Bool) {x y : Assembly} → IsSound x → IsSound y → IsSound (if b then x else y)
if-IsSound true x y = x
if-IsSound false x y = y

module _ (visit : Map Text ℕ → List (Text × ℕ)) (calls_by_msg : Map ℕ (List CallTiming)) where
  add_turn-IsSound :
      (a : Assembly) (t : TurnRow) → IsSound a → IsSound (add_turn visit calls_by_msg a t)
  unfolding add_turn
  add_turn-IsSound a t sound =
      let turn_calls = get_or [] t.message_id calls_by_msg in
      let start =
        subst (λ l. IsSlowest l a.slowest) (sym (append-nil (all_calls a.turns))) sound.found in
      let marked_calls = mark_calls (length turn_calls) t.duration_ms [] turn_calls a.slowest in
      let marked =
        mark_calls-IsSlowest (length turn_calls) t.duration_ms (all_calls a.turns) [] turn_calls
          a.slowest start in
      if-IsSound (not t.has_tool_use) sound
        (record { found = turn_added a.turns _ marked_calls.1 marked })

  add_turns-IsSound :
      (a : Assembly) (turns : List TurnRow)
      → IsSound a
      → IsSound (add_turns visit calls_by_msg a turns)
  unfolding add_turns
  add_turns-IsSound a [] sound = sound
  add_turns-IsSound a (t ∷ turns) sound =
      add_turns-IsSound (add_turn visit calls_by_msg a t) turns (add_turn-IsSound a t sound)

-- The slowest call that AssembleTiming answers is one of the calls of its turns, no call of them
-- takes longer, and there is none exactly where no call of them has a duration.
pub assemble_timing-IsSlowest :
    {T : Type 0} (preview : Text → String → Text → Text) (parse : String → Option T)
    (millis : T → T → ℤ) (visit : Map Text ℕ → List (Text × ℕ))
    (visit_totals : Map Text CategoryTotal → List CategoryTotal)
    (sort : List CategoryTotal → List CategoryTotal) (sess : TimedSession) (turns : List TurnRow)
    (calls : List CallRow) (now : String)
    → let timing =
        assemble_timing preview parse millis visit visit_totals sort sess turns calls now in
      IsSlowest (all_calls timing.turns) timing.slowest_call
unfolding assemble_timing
assemble_timing-IsSlowest preview parse millis visit visit_totals sort sess turns calls now =
    (add_turns-IsSound visit (group_calls preview [] calls) no_turns turns
      (record { found = tt })).found
