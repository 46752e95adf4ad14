-- ===== src/Broadcaster/Rate.antt =====
-- internal/server/broadcaster.go: the times of the broadcasts in a run.
use ca_session_source.Base.{
  ℕ, suc, ◌+◌, ◌^◌, ◌≤◌, ◌<◌, ◌≡◌, refl, sym, ap, subst, ◌∙◌, List, ◌∷◌, ◌++◌, some, arith,
  nat_equality, if◌then◌else◌, is_some, All-imp, Bool-cases,
}
use ca_session_source.Base.Int.{ℤ, pos_part}
use ca_session_source.GoMap.{Map}
use ca_session_source.Broadcaster.{
  Channel, World, start, is_leading, emit, flush_trailing, subscribe, unsubscribe, Step, passes,
  emits, fires, runs, subscribes, unsubscribes, receives, Run, here, next,
}
use ca_session_source.Broadcaster.Invariant.{Spaced, own, RateInv}
use ca_session_source.Broadcaster.Emit.{emit-RateInv}
use ca_session_source.Broadcaster.Flush.{fire-RateInv, take_running, flush-RateInv}

pass-RateInv : (v : World) (d : ℕ) → RateInv v → RateInv (record v { now = v.now + d })
pass-RateInv v d i = record {
  logged = i.logged;
  spaced = i.spaced;
  past = ground (arith, i.past);
  one = i.one;
  set_fit = i.set_fit;
  run_fit = i.run_fit;
  fired = All-imp (λ c h. omega arith) v.running i.fired;
  carried = i.carried;
}

-- The subscribers and their channels play no part in the rate.
subs-RateInv :
    (v : World) (subs : List ℕ) (channels : Map ℕ Channel) (id : ℕ)
    → RateInv v
    → let b = v.broadcaster in
      RateInv
        (record v { broadcaster = record b { subs = subs }; channels = channels; next_id = id })
subs-RateInv v subs channels id i = record {
  logged = i.logged;
  spaced = i.spaced;
  past = i.past;
  one = i.one;
  set_fit = i.set_fit;
  run_fit = i.run_fit;
  fired = i.fired;
  carried = i.carried;
}

unsubscribe_eq :
    (ch : ℕ) (v w : World)
    → unsubscribe ch v ≡ some w
    → (subs : List ℕ) × (channels : Map ℕ Channel) × (let b = v.broadcaster in
        w ≡ record v { broadcaster = record b { subs = subs }; channels = channels })
unfolding unsubscribe
unsubscribe_eq ch v w h = (w.subs, w.channels, ground arith)

Step-RateInv : (v w : World) → Step v w → RateInv v → v.timer_gen + 1 < 2 ^ 64 → RateInv w
unfolding subscribe
Step-RateInv v w (passes d e) i small = rw e (pass-RateInv v d i)
Step-RateInv v w (emits scope e) i small = emit-RateInv v w scope i small e
Step-RateInv v w (fires before after c split due e) i small =
    rw e (fire-RateInv v before after c i split due)
Step-RateInv v w (runs before after c split e) i small =
    flush-RateInv v w (before ++ after) c v.pending refl i (take_running v before after c i split) e
Step-RateInv v w (subscribes e) i small =
    rw e (subs-RateInv v (v.next_id ∷ v.subs) _ (suc v.next_id) i)
Step-RateInv v w (unsubscribes ch e) i small =
    let (subs, channels, same) = unsubscribe_eq ch v w e in
    rw same (subs-RateInv v subs channels v.next_id i)
Step-RateInv v w (receives ch c ev rest _ _ e) i small = rw e (subs-RateInv v v.subs _ v.next_id i)

-- One event starts at most one generation, and keeps the interval.
Step-gen :
    (v w : World) → Step v w → (w.timer_gen ≤ v.timer_gen + 1) × (w.min_interval ≡ v.min_interval)
unfolding subscribe emit flush_trailing
Step-gen v w (passes d e) = rw e (omega arith, refl)
Step-gen v w (emits scope e) = ground (arith, Bool-cases (is_leading v))
Step-gen v w (fires before after c split due e) = rw e (omega arith, refl)
Step-gen v w (runs before after c split e) = ground arith
Step-gen v w (subscribes e) = rw e (omega arith, refl)
Step-gen v w (unsubscribes ch e) =
    let (subs, channels, same) = unsubscribe_eq ch v w e in rw same (omega arith, refl)
Step-gen v w (receives ch c ev rest _ _ e) = rw e (omega arith, refl)

pub run-RateInv :
    (d : ℤ) (t n : ℕ) (w : World)
    → Run (start d t) n w
    → n < 2 ^ 64
    → RateInv w × (w.timer_gen ≤ n) × (w.min_interval ≡ d)
unfolding start
run-RateInv d t n w here h = (
  record {
    logged = refl;
    spaced = tt;
    past = tt;
    one = refl;
    set_fit = tt;
    run_fit = tt;
    fired = tt;
    carried = refl;
  },
  omega arith,
  refl,
)
run-RateInv d t n w (next {w = v} r s) h =
    let (i, few, same) = run-RateInv d t _ v r (omega arith) in
    let (g, kept) = Step-gen v w s in (Step-RateInv v w s i (omega arith), omega arith, kept ∙ same)

-- A new broadcaster is run through fewer than 2^64 events, in any order: time passes, Emit,
-- Subscribe and unsubscribe are called, clients receive, timers fire once they are due, and the
-- fired callbacks get the mutex at any later time. Then any two of its successive broadcasts are at
-- least the interval apart, if it is positive, and an event is pending exactly when a timer is noted, of which exactly
-- one callback of the current generation is still to run.
pub run-rate_limited :
    (d : ℤ) (t n : ℕ) (w : World)
    → Run (start d t) n w
    → n < 2 ^ 64
    → Spaced (pos_part d) w.log
      × (is_some w.pending ≡ is_some w.timer)
      × (own w.timer_gen w.scheduled + own w.timer_gen w.running
          ≡ (if is_some w.pending then 1 else 0))
run-rate_limited d t n w r h =
    let (i, few, same) = run-RateInv d t n w r h in
    (
      subst (λ k. Spaced (pos_part k) w.log) same i.spaced,
      i.carried,
      i.one ∙ ap (λ b. if b then 1 else 0) (sym i.carried),
    )
