-- ===== src/Broadcaster/Flush.antt =====
-- internal/server/broadcaster.go: timers that fire, and flushTrailing, between two events of a run.
use ca_session_source.Base.{
  ◌+◌, ◌≤◌, ◌≡◌, refl, sym, ap, subst, ◌∙◌, inl, inr, true, false, List, ◌∷◌, ◌++◌, Option, none,
  some, arith, ◌==◌, ==_iff, nat_equality, if◌then◌else◌, is_some, All, All-append, All-append_left,
  All-append_right, Bool-cases,
}
use ca_session_source.Base.Counting.{count-append}
use ca_session_source.Broadcaster.{Event, Callback, World, flush_trailing}
use ca_session_source.Broadcaster.Invariant.{
  FarFrom, Fits, interval, own, RateInv, fit_none, DueAt-FarFrom,
}
use ca_session_source.Broadcaster.Emit.{IsReady, broadcast-RateInv}

-- A callback that fires is taken from the timers that are set.
pub fire-RateInv :
    (v : World) (before after : List Callback) (c : Callback)
    → RateInv v
    → v.scheduled ≡ before ++ (c ∷ after)
    → c.due ≤ v.now
    → RateInv (record v { scheduled = before ++ after; running = c ∷ v.running })
fire-RateInv v before after c i split due =
    let P = Fits v.timer_gen v.last_emit (interval v) in
    let all : All P (before ++ (c ∷ after)) = subst (All P) split i.set_fit in
    let rest = All-append_right P before (c ∷ after) all in
    let mine = λ (k : Callback). k.gen == v.timer_gen in
    let sizes : own v.timer_gen v.scheduled ≡ own v.timer_gen (before ++ (c ∷ after)) =
      ap (own v.timer_gen) split in
    record {
      logged = i.logged;
      spaced = i.spaced;
      past = i.past;
      one = omega (
        arith,
        i.one,
        sizes,
        count-append mine before (c ∷ after),
        count-append mine before after,
      );
      set_fit = All-append P before after (All-append_left P before (c ∷ after) all) rest.1;
      run_fit = (rest.0, i.run_fit);
      fired = (due, i.fired);
      carried = i.carried;
    }

-- The callbacks that wait for the mutex, less the one that gets it.
pub record Taken (v : World) (rest : List Callback) (c : Callback) : Type 0 where
  pub fits : Fits v.timer_gen v.last_emit (interval v) c
  pub due : c.due ≤ v.now
  pub size :
      own v.timer_gen v.running ≡ own v.timer_gen rest + (if c.gen == v.timer_gen then 1 else 0)
  pub rest_fit : All (Fits v.timer_gen v.last_emit (interval v)) rest
  pub rest_fired : All (λ k. k.due ≤ v.now) rest

pub take_running :
    (v : World) (before after : List Callback) (c : Callback)
    → RateInv v
    → v.running ≡ before ++ (c ∷ after)
    → Taken v (before ++ after) c
take_running v before after c i split =
    let P = Fits v.timer_gen v.last_emit (interval v) in
    let D = λ (k : Callback). k.due ≤ v.now in
    let all : All P (before ++ (c ∷ after)) = subst (All P) split i.run_fit in
    let due : All D (before ++ (c ∷ after)) = subst (All D) split i.fired in
    let mine = λ (k : Callback). k.gen == v.timer_gen in
    let sizes : own v.timer_gen v.running ≡ own v.timer_gen (before ++ (c ∷ after)) =
      ap (own v.timer_gen) split in
    let rest = All-append_right P before (c ∷ after) all in
    let rest_due = All-append_right D before (c ∷ after) due in
    record {
      fits = rest.0;
      due = rest_due.0;
      size =
          omega
            (arith, sizes, count-append mine before (c ∷ after), count-append mine before after);
      rest_fit = All-append P before after (All-append_left P before (c ∷ after) all) rest.1;
      rest_fired = All-append D before after (All-append_left D before (c ∷ after) due) rest_due.1;
    }

pub stale-RateInv :
    (v : World) (rest : List Callback) (c : Callback)
    → RateInv v
    → Taken v rest c
    → (c.gen == v.timer_gen) ≡ false
    → RateInv (record v { running = rest })
stale-RateInv v rest c i t stale = record {
  logged = i.logged;
  spaced = i.spaced;
  past = i.past;
  one = ground (arith, i.one, t.size);
  set_fit = i.set_fit;
  run_fit = t.rest_fit;
  fired = t.rest_fired;
  carried = i.carried;
}

-- The callback of the current generation is the only one of it.
pub alone :
    (v : World) (rest : List Callback) (c : Callback)
    → RateInv v
    → Taken v rest c
    → (c.gen == v.timer_gen) ≡ true
    → (is_some v.timer ≡ true) × (own v.timer_gen v.scheduled ≡ 0) × (own v.timer_gen rest ≡ 0)
alone v rest c i t current = ground (arith, i.one, t.size)

pub flushed-IsReady :
    (v : World) (rest : List Callback) (c : Callback)
    → RateInv v
    → Taken v rest c
    → (c.gen == v.timer_gen) ≡ true
    → let b = v.broadcaster in
      IsReady (record v {
        broadcaster = record b { timer = none; pending = none; last_emit = some v.now };
        running = rest;
      })
flushed-IsReady v rest c i t current =
    let (has_timer, none_set, none_run) = alone v rest c i t current in
    let far =
      DueAt-FarFrom (interval v) v.last_emit c.due v.now
        (t.fits.1 ((==_iff c.gen v.timer_gen).0 current)) t.due in
    record {
      last = refl;
      spaced = i.spaced;
      far = subst (λ l. FarFrom (interval v) l v.now) (sym i.logged) far;
      none_set = none_set;
      none_run = none_run;
      no_timer = refl;
      no_pending = refl;
      set_fit =
          fit_none v.timer_gen (interval v) v.last_emit (some v.now) v.scheduled none_set i.set_fit;
      run_fit = fit_none v.timer_gen (interval v) v.last_emit (some v.now) rest none_run t.rest_fit;
      fired = t.rest_fired;
    }

pub flush-RateInv :
    (v w : World) (rest : List Callback) (c : Callback) (p : Option Event)
    → v.pending ≡ p
    → RateInv v
    → Taken v rest c
    → flush_trailing c.gen (record v { running = rest }) ≡ some w
    → RateInv w
unfolding flush_trailing
flush-RateInv v w rest c none e i t h = elim (Bool-cases (c.gen == v.timer_gen)) [
  | inl current ↦
      let has_timer = (alone v rest c i t current).0 in
      absurd (let k : is_some v.pending ≡ true = i.carried ∙ has_timer in let q = rw e at k in cc)
  | inr stale ↦
      let same : record v { running = rest } ≡ w = let q = rw (stale, flush_trailing) at h in cc in
      subst RateInv same (stale-RateInv v rest c i t stale)
]
flush-RateInv v w rest c (some ev) e i t h = elim (Bool-cases (c.gen == v.timer_gen)) [
  | inl current ↦
      broadcast-RateInv _ w ev (flushed-IsReady v rest c i t current)
        (rw (current, e, flush_trailing) at h)
  | inr stale ↦
      let same : record v { running = rest } ≡ w = let q = rw (stale, flush_trailing) at h in cc in
      subst RateInv same (stale-RateInv v rest c i t stale)
]
