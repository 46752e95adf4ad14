-- ===== src/Broadcaster/Emit.antt =====
-- internal/server/broadcaster.go: Emit between two events of a run.
use ca_session_source.Base.{
  ℕ, suc, ◌+◌, ◌-◌, ◌||◌, not, ◌%◌, ◌^◌, ◌≤◌, ◌<◌, ◌≡◌, refl, sym, subst, inl, inr, String, true,
  false, List, ◌∷◌, Option, none, some, arith, nat_equality, All, Bool-cases, Option-cases,
}
use ca_session_source.Base.Int.{ℤ, pos, negsuc, pos_part, ◌-ℤ◌, ltb_ℤ, is_zero}
use ca_session_source.GoMap.{Map}
use ca_session_source.Broadcaster.{
  Event, Channel, Callback, World, stop, broadcast_to, broadcast_locked, is_leading, take_lead,
  wait_left, defer_event, emit,
}
use ca_session_source.Broadcaster.Invariant.{
  Spaced, last_time, FarFrom, NotAhead, DueAt, Fits, interval, own, RateInv, Spaced-cons, own_later,
  fit_later, stop-All,
}

pub leading_far :
    (v : World)
    → NotAhead v.last_emit v.now
    → is_leading v ≡ true
    → FarFrom (interval v) v.last_emit v.now
unfolding is_leading
leading_far v past h = far v.min_interval v.last_emit v.now past h
  where
    far :
        (d : ℤ) (last : Option ℕ) (now : ℕ)
        → NotAhead last now
        → (is_zero d || (elim last [ none ↦ true | some t ↦ not (ltb_ℤ (pos (now - t)) d) ])) ≡ true
        → FarFrom (pos_part d) last now
    far d none now past h = tt
    far (pos n) (some t) now past h = ground arith
    far (negsuc n) (some t) now past h = ground arith

pub broadcast_eq :
    (v w : World) (ev : Event)
    → broadcast_locked ev v ≡ some w
    → (sent : Map ℕ Channel) × (broadcast_to v.subs ev v.channels ≡ some sent)
      × (w ≡ record v { channels = sent; log = (v.now, ev) ∷ v.log })
unfolding broadcast_locked
broadcast_eq v w ev e = elim (Option-cases (broadcast_to v.subs ev v.channels)) [
  | inl panics ↦ absurd (let p = rw (panics, broadcast_locked) at e in cc)
  | inr (sent, ok) ↦ (sent, ok, let p = rw (ok, broadcast_locked) at e in cc)
]

-- The state just before a broadcast: the time of the broadcast is noted, nothing is pending, and
-- the generation owns no callback.
pub record IsReady (v : World) : Type 0 where
  pub last : v.last_emit ≡ some v.now
  pub spaced : Spaced (interval v) v.log
  pub far : FarFrom (interval v) (last_time v.log) v.now
  pub none_set : own v.timer_gen v.scheduled ≡ 0
  pub none_run : own v.timer_gen v.running ≡ 0
  pub no_timer : v.timer ≡ none
  pub no_pending : v.pending ≡ none
  pub set_fit : All (Fits v.timer_gen v.last_emit (interval v)) v.scheduled
  pub run_fit : All (Fits v.timer_gen v.last_emit (interval v)) v.running
  pub fired : All (λ c. c.due ≤ v.now) v.running

pub broadcast-RateInv :
    (v w : World) (ev : Event) → IsReady v → broadcast_locked ev v ≡ some w → RateInv w
broadcast-RateInv v w ev r e =
    let (sent, ok, same) = broadcast_eq v w ev e in
    subst RateInv (sym same) (record {
      logged = sym r.last;
      spaced = Spaced-cons (interval v) v.now ev v.log r.spaced r.far;
      past = subst (λ l. NotAhead l v.now) (sym r.last) (omega arith);
      one = ground (arith, r.none_set, r.none_run, r.no_timer);
      set_fit = r.set_fit;
      run_fit = r.run_fit;
      fired = r.fired;
      carried = rw (r.no_timer, r.no_pending) refl;
    })

pub take_lead-IsReady :
    (v : World) → RateInv v → is_leading v ≡ true → v.timer_gen + 1 < 2 ^ 64 → IsReady (take_lead v)
unfolding take_lead
take_lead-IsReady v i lead small =
    let gen : (v.timer_gen + 1) % 2 ^ 64 ≡ suc v.timer_gen = omega arith in
    let stopped : List Callback = elim v.timer [
      | none ↦ v.scheduled
      | some id ↦ stop id v.scheduled
    ] in
    let old : All (Fits v.timer_gen v.last_emit (interval v)) stopped = stopped_fit v.timer in
    record {
      last = refl;
      spaced = i.spaced;
      far = subst (λ l. FarFrom (interval v) l v.now) (sym i.logged) (leading_far v i.past lead);
      none_set = rw gen (own_later v.timer_gen (interval v) v.last_emit stopped old);
      none_run = rw gen (own_later v.timer_gen (interval v) v.last_emit v.running i.run_fit);
      no_timer = refl;
      no_pending = refl;
      set_fit = rw gen (fit_later v.timer_gen (interval v) v.last_emit (some v.now) stopped old);
      run_fit =
          rw gen (fit_later v.timer_gen (interval v) v.last_emit (some v.now) v.running i.run_fit);
      fired = i.fired;
    }
  where
    stopped_fit :
        (t : Option ℕ)
        → All
            (Fits v.timer_gen v.last_emit (interval v))
            (elim t [ none ↦ v.scheduled | some id ↦ stop id v.scheduled ])
    stopped_fit none = i.set_fit
    stopped_fit (some id) =
        stop-All (Fits v.timer_gen v.last_emit (interval v)) id v.scheduled i.set_fit

-- The timer that is set within the interval is due when the interval ends.
pub wait_left-DueAt :
    (v : World)
    → NotAhead v.last_emit v.now
    → is_leading v ≡ false
    → DueAt (interval v) v.last_emit (v.now + wait_left v)
unfolding is_leading wait_left ◌-ℤ◌
wait_left-DueAt v past h = at v.min_interval v.last_emit v.now past h
  where
    at :
        (d : ℤ) (last : Option ℕ) (now : ℕ)
        → NotAhead last now
        → (is_zero d || (elim last [ none ↦ true | some t ↦ not (ltb_ℤ (pos (now - t)) d) ]))
          ≡ false
        → DueAt
            (pos_part d)
            last
            (now + (elim last [ none ↦ 0 | some t ↦ pos_part (d -ℤ pos (now - t)) ]))
    at (pos n) none now past h = ground arith
    at (negsuc n) none now past h = ground arith
    at (pos n) (some t) now past h = ground arith
    at (negsuc n) (some t) now past h = ground arith

pub defer_event-RateInv :
    (v : World) (ev : Event) (t : Option ℕ)
    → v.timer ≡ t
    → RateInv v
    → is_leading v ≡ false
    → RateInv (defer_event ev v)
unfolding defer_event
defer_event-RateInv v ev none e i late =
    rw (e, defer_event)
      (record {
        logged = i.logged;
        spaced = i.spaced;
        past = i.past;
        one = ground (arith, i.one);
        set_fit = ((omega arith, λ _. wait_left-DueAt v i.past late), i.set_fit);
        run_fit = i.run_fit;
        fired = i.fired;
        carried = refl;
      })
defer_event-RateInv v ev (some id) e i late =
    rw (e, defer_event)
      (record {
        logged = i.logged;
        spaced = i.spaced;
        past = i.past;
        one = rw e (ground (arith, i.one));
        set_fit = i.set_fit;
        run_fit = i.run_fit;
        fired = i.fired;
        carried = rw e refl;
      })

pub emit-RateInv :
    (v w : World) (scope : String)
    → RateInv v
    → v.timer_gen + 1 < 2 ^ 64
    → emit scope v ≡ some w
    → RateInv w
unfolding emit
emit-RateInv v w scope i small e = elim (Bool-cases (is_leading v)) [
  | inl lead ↦
      broadcast-RateInv (take_lead v) w (record { scope = scope })
        (take_lead-IsReady v i lead small) (rw (lead, emit) at e)
  | inr late ↦
      let same : defer_event (record { scope = scope }) v ≡ w =
        let p = rw (late, emit) at e in cc in
      subst RateInv same (defer_event-RateInv v (record { scope = scope }) v.timer refl i late)
]
