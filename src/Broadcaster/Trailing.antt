-- ===== src/Broadcaster/Trailing.antt =====
-- internal/server/broadcaster.go: the timer of a pending event.
use ca_session_source.Base.{
  ℕ, ◌+◌, ◌^◌, ◌≤◌, ◌<◌, ◌≡◌, ◌⊎◌, refl, sym, ap, subst, ◌∙◌, inl, inr, List, [], ◌∷◌, ◌++◌, none,
  some, arith, ◌-◌, Option, All, All-append_right, ◌==◌, ==_iff, nat_equality, Bool-cases,
}
use ca_session_source.Base.Int.{ℤ}
use ca_session_source.Broadcaster.Invariant.{own, interval, NotAhead, DueAt, Fits, RateInv}
use ca_session_source.Broadcaster.Rate.{run-rate_limited, run-RateInv}
use ca_session_source.Broadcaster.Channels.{Inv, flush-Inv, run-Inv}
use ca_session_source.Broadcaster.Delivery.{flush-log}
use ca_session_source.Broadcaster.{
  Event, Callback, World, start, flush_trailing, passes, fires, runs, RunsByItself, Run, here, next,
}

-- A callback of generation `g` stands in the list.
abbrev Owned : ℕ → List Callback → Type 0
Owned g cs =
    (before : List Callback) × (c : Callback) × (after : List Callback) × (cs
      ≡ before ++ (c ∷ after))
    × (c.gen ≡ g)

own-Owned : (g : ℕ) (cs : List Callback) → (own g cs ≡ 0) ⊎ Owned g cs
own-Owned g [] = inl refl
own-Owned g (c ∷ cs) = elim (Bool-cases (c.gen == g)) [
  | inl mine ↦ inr ([], c, cs, refl, (==_iff c.gen g).0 mine)
  | inr other ↦ elim (own-Owned g cs) [
    | inl e ↦ inl (ground arith)
    | inr (before, d, after, split, e) ↦ inr (c ∷ before, d, after, ap (λ l. c ∷ l) split, e)
  ]
]

-- A world in which the event was just broadcast, by a few events more, none of a caller or a client,
-- and no later than the interval after `w`.
pub record Delivered (w : World) (ev : Event) : Type 0 where
  pub count : ℕ
  pub few : count ≤ 3
  pub reached : World
  pub run : Run w count reached
  pub alone : RunsByItself run
  pub soon : reached.now ≤ w.now + interval w
  pub sent : reached.log ≡ (reached.now, ev) ∷ w.log
  pub settled : reached.pending ≡ none

-- What the callback of the current generation does, once it has the mutex.
flush_delivers :
    (v : World) (ev : Event) (gen : ℕ)
    → Inv v
    → v.pending ≡ some ev
    → gen ≡ v.timer_gen
    → (u : World) × (flush_trailing gen v ≡ some u)
      × (u.pending ≡ none)
      × (u.log ≡ (u.now, ev) ∷ v.log)
      × (u.now ≡ v.now)
flush_delivers v ev gen i p e =
    let (u, f, _) = flush-Inv v gen v.pending refl i in
    let (settled, now, log) = flush-log v u ev p (subst (λ g. flush_trailing g v ≡ some u) e f) in
    (u, f, settled, log ∙ ap (λ t. (t, ev) ∷ v.log) (sym now), now)

due_soon :
    (d : ℕ) (last : Option ℕ) (now due : ℕ) → NotAhead last now → DueAt d last due → due ≤ now + d
due_soon d none now due past at = absurd at
due_soon d (some t) now due past at = omega arith

running_delivers :
    (w : World) (ev : Event)
    → Inv w
    → w.pending ≡ some ev
    → Owned w.timer_gen w.running
    → Delivered w ev
running_delivers w ev i p (before, c, after, split, e) =
    let taken : World = record w { running = before ++ after } in
    let (u, f, settled, log, at) = flush_delivers taken ev c.gen i p e in
    record {
      count = 1;
      few = omega arith;
      reached = u;
      run = next here (runs before after c split f);
      alone = (tt, refl);
      soon = omega (arith, at);
      sent = log;
      settled = settled;
    }

scheduled_delivers :
    (w : World) (ev : Event)
    → Inv w
    → w.pending ≡ some ev
    → RateInv w
    → Owned w.timer_gen w.scheduled
    → Delivered w ev
scheduled_delivers w ev i p rate (before, c, after, split, e) =
    let wait = c.due - w.now in
    let later : World = record w { now = w.now + wait } in
    let fired : World = record later { scheduled = before ++ after; running = c ∷ w.running } in
    let taken : World = record fired { running = w.running } in
    let (u, f, settled, log, at) = flush_delivers taken ev c.gen i p e in
    record {
      count = 3;
      few = omega arith;
      reached = u;
      run =
          next (next (next here (passes wait refl)) (fires before after c split (omega arith) refl))
            (runs [] w.running c refl f);
      alone = (((tt, refl), refl), refl);
      soon =
          let fits =
            All-append_right (Fits w.timer_gen w.last_emit (interval w)) before (c ∷ after)
              (subst (All (Fits w.timer_gen w.last_emit (interval w))) split rate.set_fit) in
          omega (arith, at, due_soon (interval w) w.last_emit w.now c.due rate.past (fits.0.1 e));
      sent = log;
      settled = settled;
    }

-- When an event is pending after a run of fewer than 2^64 events of a new broadcaster, at most three
-- further events broadcast it, next after all earlier broadcasts, and leave none pending. None of
-- them is an Emit or another call from outside: only time passes, the timer fires, and its callback
-- runs. This is done when no more time has passed than the interval.
pub run-Delivered :
    (d : ℤ) (t n : ℕ) (w : World) (ev : Event)
    → Run (start d t) n w
    → n < 2 ^ 64
    → w.pending ≡ some ev
    → Delivered w ev
run-Delivered d t n w ev r h p =
    let i = run-Inv d t n w r in
    let (spaced, carried, one) = run-rate_limited d t n w r h in
    let owned : own w.timer_gen w.scheduled + own w.timer_gen w.running ≡ 1 = one ∙ rw p refl in
    elim (own-Owned w.timer_gen w.running) [
      | inr running ↦ running_delivers w ev i p running
      | inl none_running ↦ elim (own-Owned w.timer_gen w.scheduled) [
        | inr scheduled ↦ scheduled_delivers w ev i p (run-RateInv d t n w r h).0 scheduled
        | inl none_scheduled ↦ absurd (omega arith)
      ]
    ]
