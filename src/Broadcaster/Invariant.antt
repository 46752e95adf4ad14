-- ===== src/Broadcaster/Invariant.antt =====
-- internal/server/broadcaster.go: what the rate limit keeps between two events of a run.
use ca_session_source.Base.{
  ℕ, suc, ◌+◌, ◌≤◌, ◌≡◌, refl, inl, inr, List, [], ◌∷◌, Option, none, some, arith, ◌==◌,
  nat_equality, if◌then◌else◌, is_some, All, All-imp, Bool-cases,
}
use ca_session_source.Base.Counting.{count}
use ca_session_source.Base.Int.{pos_part}
use ca_session_source.Broadcaster.{Event, Callback, World, stop}

-- The interval; 0 if it is negative.
abbrev pub interval : World → ℕ
interval w = pos_part w.min_interval

-- Broadcasts, newest first, each at least `d` after the one before it.
abbrev pub Spaced : ℕ → List (ℕ × Event) → Type 0
Spaced d [] = Unit
Spaced d ((t, e) ∷ []) = Unit
Spaced d ((t, e) ∷ (s, f) ∷ log) = (s + d ≤ t) × Spaced d ((s, f) ∷ log)

abbrev pub last_time : List (ℕ × Event) → Option ℕ
last_time [] = none
last_time ((t, e) ∷ log) = some t

-- The time is at least the interval after the last broadcast.
abbrev pub FarFrom : ℕ → Option ℕ → ℕ → Type 0
FarFrom d none t = Unit
FarFrom d (some s) t = s + d ≤ t

abbrev pub NotAhead : Option ℕ → ℕ → Type 0
NotAhead none now = Unit
NotAhead (some t) now = t ≤ now

-- The time is the interval after the last broadcast.
abbrev pub DueAt : ℕ → Option ℕ → ℕ → Type 0
DueAt d none t = ⊥
DueAt d (some s) t = t ≡ s + d

-- A callback of generation `g`, if it is of that generation, is due the interval after the last
-- broadcast; no callback is of a later generation.
abbrev pub Fits : ℕ → Option ℕ → ℕ → Callback → Type 0
Fits g last d c = (c.gen ≤ g) × (c.gen ≡ g → DueAt d last c.due)

abbrev pub own : ℕ → List Callback → ℕ
own g = count (λ c. c.gen == g)

-- What holds between two events of a run.
pub record RateInv (v : World) : Type 0 where
  pub logged : last_time v.log ≡ v.last_emit
  pub spaced : Spaced (interval v) v.log
  pub past : NotAhead v.last_emit v.now
  pub one :
      own v.timer_gen v.scheduled + own v.timer_gen v.running ≡ (if is_some v.timer then 1 else 0)
  pub set_fit : All (Fits v.timer_gen v.last_emit (interval v)) v.scheduled
  pub run_fit : All (Fits v.timer_gen v.last_emit (interval v)) v.running
  pub fired : All (λ c. c.due ≤ v.now) v.running
  pub carried : is_some v.pending ≡ is_some v.timer

pub Spaced-cons :
    (d t : ℕ) (e : Event) (log : List (ℕ × Event))
    → Spaced d log
    → FarFrom d (last_time log) t
    → Spaced d ((t, e) ∷ log)
Spaced-cons d t e [] s f = tt
Spaced-cons d t e ((s', e') ∷ log) s f = (f, s)

-- A later generation owns no callback yet.
pub own_later :
    (g d : ℕ) (last : Option ℕ) (cs : List Callback) → All (Fits g last d) cs → own (suc g) cs ≡ 0
own_later g d last [] a = refl
own_later g d last (c ∷ cs) a = ground (arith, own_later g d last cs a.1)

pub fit_later :
    (g d : ℕ) (last last' : Option ℕ) (cs : List Callback)
    → All (Fits g last d) cs
    → All (Fits (suc g) last' d) cs
fit_later g d last last' cs = All-imp (λ c f. (omega arith, λ e. absurd (omega arith))) cs

-- Where a generation owns no callback, the last broadcast may move.
pub fit_none :
    (g d : ℕ) (last last' : Option ℕ) (cs : List Callback)
    → own g cs ≡ 0
    → All (Fits g last d) cs
    → All (Fits g last' d) cs
fit_none g d last last' [] e a = tt
fit_none g d last last' (c ∷ cs) e a = (
  (a.0.0, λ own_c. absurd (ground (arith, own_c))),
  fit_none g d last last' cs (ground arith) a.1,
)

pub stop-All : (P : Callback → Type 0) (id : ℕ) (cs : List Callback) → All P cs → All P (stop id cs)
unfolding stop
stop-All P id [] a = tt
stop-All P id (c ∷ cs) a = elim (Bool-cases (c.timer == id)) [
  | inl hit ↦ rw hit (stop-All P id cs a.1)
  | inr miss ↦ rw miss (a.0, stop-All P id cs a.1)
]

pub DueAt-FarFrom : (d : ℕ) (last : Option ℕ) (s t : ℕ) → DueAt d last s → s ≤ t → FarFrom d last t
DueAt-FarFrom d none s t f h = absurd f
DueAt-FarFrom d (some r) s t f h = omega arith
