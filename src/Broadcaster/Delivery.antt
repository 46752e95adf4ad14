-- ===== src/Broadcaster/Delivery.antt =====
-- internal/server/broadcaster.go: what becomes of the last event that Emit was given.
use ca_session_source.Base.{
  ℕ, ◌≡◌, refl, ap, ◌∙◌, inl, inr, String, List, [], ◌∷◌, Option, none, some, arith, ◌==◌, ==_iff,
  ==_refl, nat_equality, Bool-cases,
}
use ca_session_source.Base.Int.{ℤ}
use ca_session_source.Broadcaster.Emit.{broadcast_eq}
use ca_session_source.Broadcaster.{
  Event, World, start, is_leading, take_lead, defer_event, emit, flush_trailing, subscribe,
  unsubscribe, Step, passes, emits, fires, runs, subscribes, unsubscribes, receives, Run, here,
  next,
}

abbrev newest : List (ℕ × Event) → Option Event
newest [] = none
newest ((t, e) ∷ log) = some e

-- The event that is pending, and where none is, the one that was broadcast last.
pub latest : World → Option Event
latest w = elim w.pending [ some ev ↦ some ev | none ↦ newest w.log ]

emit-latest :
    (v w : World) (scope : String)
    → emit scope v ≡ some w
    → latest w ≡ some (record { scope = scope })
unfolding emit take_lead defer_event latest
emit-latest v w scope e = elim (Bool-cases (is_leading v)) [
  | inl lead ↦
      let (sent, _, same) =
        broadcast_eq (take_lead v) w (record { scope = scope }) (rw (lead, emit) at e) in
      rw same refl
  | inr late ↦
      let ev : Event = record { scope = scope } in
      let same : defer_event ev v ≡ w = let p = rw (late, emit) at e in cc in
      rw (← same) (deferred ev v.timer refl)
]
  where
    deferred : (ev : Event) (t : Option ℕ) → v.timer ≡ t → latest (defer_event ev v) ≡ some ev
    deferred ev none e = rw (e, defer_event) refl
    deferred ev (some id) e = rw (e, defer_event) refl

pub flush-log :
    (v w : World) (ev : Event)
    → v.pending ≡ some ev
    → flush_trailing v.timer_gen v ≡ some w
    → (w.pending ≡ none) × (w.now ≡ v.now) × (w.log ≡ (v.now, ev) ∷ v.log)
unfolding flush_trailing
flush-log v w ev p e =
    let (sent, _, same) = broadcast_eq _ w ev (rw (==_refl v.timer_gen, p, flush_trailing) at e) in
    rw same (refl, refl, refl)

flush-latest :
    (v w : World) (gen : ℕ) (p : Option Event)
    → v.pending ≡ p
    → flush_trailing gen v ≡ some w
    → latest w ≡ latest v
unfolding flush_trailing latest
flush-latest v w gen none e h = ground arith
flush-latest v w gen (some ev) e h = elim (Bool-cases (gen == v.timer_gen)) [
  | inl current ↦
      let h' : flush_trailing v.timer_gen v ≡ some w =
        rw ((==_iff gen v.timer_gen).0 current) at h in
      let (none_pending, _, log) = flush-log v w ev e h' in rw (none_pending, log, e) refl
  | inr stale ↦ let same : v ≡ w = let q = rw (stale, flush_trailing) at h in cc in rw same refl
]

-- The event that the step emits, if it is a call of Emit.
emitted : {v w : World} → Step v w → Option Event
emitted (emits scope e) = some (record { scope = scope })
emitted _ = none

-- The event of the last call of Emit in a run.
pub last_emitted : {v w : World} {n : ℕ} → Run v n w → Option Event
unfolding emitted
last_emitted here = none
last_emitted (next r s) = elim (emitted s) [ some ev ↦ some ev | none ↦ last_emitted r ]

unsubscribe-latest : (ch : ℕ) (v w : World) → unsubscribe ch v ≡ some w → latest w ≡ latest v
unfolding unsubscribe latest
unsubscribe-latest ch v w h = ground arith

Step-latest :
    (v w : World) (s : Step v w)
    → latest w ≡ (elim (emitted s) [ some ev ↦ some ev | none ↦ latest v ])
unfolding emitted latest subscribe
Step-latest v w (passes d e) = rw e refl
Step-latest v w (emits scope e) = emit-latest v w scope e
Step-latest v w (fires before after c split due e) = rw e refl
Step-latest v w (runs before after c split e) = flush-latest _ w c.gen v.pending refl e
Step-latest v w (subscribes e) = rw e refl
Step-latest v w (unsubscribes ch e) = unsubscribe-latest ch v w e
Step-latest v w (receives ch c ev rest _ _ e) = rw e refl

-- After any run of a new broadcaster, the event of the last call of Emit is the pending one, or
-- none is pending and it is the event that was broadcast last.
pub run-latest : (d : ℤ) (t n : ℕ) (w : World) (r : Run (start d t) n w) → latest w ≡ last_emitted r
unfolding last_emitted start latest
run-latest d t n w here = refl
run-latest d t n w (next {w = v} r s) =
    Step-latest v w s
    ∙ ap
        (λ (last : Option Event). elim (emitted s) as (λ _. Option Event) [
          | some ev ↦ some ev
          | none ↦ last
        ])
        (run-latest d t _ v r)
