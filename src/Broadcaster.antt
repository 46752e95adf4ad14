-- ===== src/Broadcaster.antt =====
-- internal/server/broadcaster.go: the rate-limited fan-out of refresh events. The methods hold one
-- mutex, so a run is a sequence of whole method calls, with what the runtime does between them: time
-- passes, a timer fires, a fired callback gets the mutex, a client receives. Times are nanoseconds
-- of the monotonic clock, from 0 on; the interval may be negative. `log` is no part of the program: it records each broadcast.
pub mod Invariant
pub mod Emit
pub mod Flush
pub mod Rate
pub mod Delivery
pub mod Trailing
pub mod Channels
pub mod Tests
use ca_session_source.Base.{
  ℕ, zero, suc, ◌+◌, ◌-◌, ◌%◌, ◌^◌, ◌≤◌, ◌≡◌, String, Bool, true, false, not, ◌&&◌, ◌||◌, List, [],
  ◌∷◌, ◌++◌, Option, none, some, ◌==◌, nat_equality, ltb, leb, if◌then◌else◌, length,
}
use ca_session_source.Base.Int.{ℤ, pos, pos_part, ◌-ℤ◌, ltb_ℤ, is_zero}
use ca_session_source.GoMap.{Map, get, put}

abbrev pub broadcaster_buffer_cap : ℕ
broadcaster_buffer_cap = 8

pub record Event : Type 0 where
  pub scope : String

-- A channel that Subscribe made, and whether its sync.Once has run.
pub record Channel : Type 0 where
  pub buffer : List Event
  pub closed : Bool
  pub once_done : Bool

-- A call of flushTrailing that time.AfterFunc scheduled: its timer, the generation that it captured,
-- and the time before which it does not fire.
pub record Callback : Type 0 where
  pub timer : ℕ
  pub gen : ℕ
  pub due : ℕ

-- `subs` holds channels by their number. The zero `lastEmit` is `none`.
pub record Broadcaster : Type 0 where
  pub subs : List ℕ
  pub min_interval : ℤ
  pub last_emit : Option ℕ
  pub pending : Option Event
  pub timer : Option ℕ
  pub timer_gen : ℕ

-- The broadcaster, with the channels and timers that the runtime keeps for it: `scheduled` timers
-- have not fired, and `running` callbacks have, but have not got the mutex.
pub record World : Type 0 where
  pub broadcaster : Broadcaster
  pub open broadcaster use *
  pub now : ℕ
  pub channels : Map ℕ Channel
  pub scheduled : List Callback
  pub running : List Callback
  pub next_id : ℕ
  pub log : List (ℕ × Event)

unfoldable pub new_broadcaster : ℤ → Broadcaster
new_broadcaster min_interval = record {
  subs = [];
  min_interval = min_interval;
  last_emit = none;
  pending = none;
  timer = none;
  timer_gen = 0;
}

unfoldable pub start : ℤ → ℕ → World
unfolding new_broadcaster
start min_interval now = record {
  broadcaster = new_broadcaster min_interval;
  now = now;
  channels = [];
  scheduled = [];
  running = [];
  next_id = 0;
  log = [];
}

-- timer.Stop: a timer that has fired is past stopping.
pub stop : ℕ → List Callback → List Callback
stop id [] = []
stop id (c ∷ cs) = let rest = stop id cs in if c.timer == id then rest else c ∷ rest

-- `select { case ch <- ev: default: }`. A send on a closed channel panics: `none`.
pub send : ℕ → Event → Map ℕ Channel → Option (Map ℕ Channel)
send ch ev channels = elim (get ch channels) [
  | none ↦ none
  | some c ↦
      if c.closed
      then none
      else if ltb (length c.buffer) broadcaster_buffer_cap
      then some (put ch (record c { buffer = c.buffer ++ ev ∷ [] }) channels)
      else some channels
]

-- The loop of broadcastLocked.
pub broadcast_to : List ℕ → Event → Map ℕ Channel → Option (Map ℕ Channel)
unfolding send
broadcast_to [] ev channels = some channels
broadcast_to (ch ∷ subs) ev channels = elim (send ch ev channels) [
  | none ↦ none
  | some sent ↦ broadcast_to subs ev sent
]

pub broadcast_locked : Event → World → Option World
unfolding broadcast_to
broadcast_locked ev w = elim (broadcast_to w.subs ev w.channels) [
  | none ↦ none
  | some sent ↦ some (record w { channels = sent; log = (w.now, ev) ∷ w.log })
]

-- `b.minInterval == 0 || b.lastEmit.IsZero() || now.Sub(b.lastEmit) >= b.minInterval`.
pub is_leading : World → Bool
is_leading w =
    is_zero w.min_interval
    || (elim w.last_emit [ none ↦ true | some t ↦ not (ltb_ℤ (pos (w.now - t)) w.min_interval) ])

-- What Emit does to its state before a broadcast at the leading edge.
pub take_lead : World → World
unfolding stop
take_lead w =
    let b = w.broadcaster in
    record w {
      broadcaster = record b {
        pending = none;
        timer = none;
        timer_gen = (b.timer_gen + 1) % 2 ^ 64;
        last_emit = some w.now;
      };
      scheduled = elim b.timer [ none ↦ w.scheduled | some id ↦ stop id w.scheduled ];
    }

-- `b.minInterval - now.Sub(b.lastEmit)`, where lastEmit is not zero. AfterFunc takes a negative
-- duration as 0.
pub wait_left : World → ℕ
wait_left w = elim w.last_emit [ none ↦ 0 | some t ↦ pos_part (w.min_interval -ℤ pos (w.now - t)) ]

-- What Emit does within the interval: the event is pending, and a timer is set if none is.
pub defer_event : Event → World → World
unfolding wait_left
defer_event ev w =
    let b = w.broadcaster in
    elim b.timer [
      | some id ↦ record w { broadcaster = record b { pending = some ev } }
      | none ↦ record w {
        broadcaster = record b { pending = some ev; timer = some w.next_id };
        scheduled =
            record { timer = w.next_id; gen = b.timer_gen; due = w.now + wait_left w }
            ∷ w.scheduled;
        next_id = suc w.next_id;
      }
    ]

unfoldable pub emit : String → World → Option World
unfolding is_leading take_lead defer_event broadcast_locked
emit scope w =
    let ev : Event = record { scope = scope } in
    if is_leading w then broadcast_locked ev (take_lead w) else some (defer_event ev w)

unfoldable pub flush_trailing : ℕ → World → Option World
unfolding broadcast_locked
flush_trailing gen w =
    let b = w.broadcaster in
    if not (gen == b.timer_gen) then some w else elim b.pending [
      | none ↦ some (record w { broadcaster = record b { timer = none } })
      | some ev ↦ broadcast_locked ev (record w {
        broadcaster = record b { timer = none; pending = none; last_emit = some w.now };
      })
    ]

abbrev pub fresh_channel : Channel
fresh_channel = record { buffer = []; closed = false; once_done = false }

unfoldable pub subscribe : World → World
subscribe w =
    let b = w.broadcaster in
    record w {
      broadcaster = record b { subs = w.next_id ∷ b.subs };
      channels = put w.next_id fresh_channel w.channels;
      next_id = suc w.next_id;
    }

pub has_sub : ℕ → List ℕ → Bool
has_sub ch [] = false
has_sub ch (s ∷ ss) = s == ch || has_sub ch ss

pub delete_sub : ℕ → List ℕ → List ℕ
delete_sub ch [] = []
delete_sub ch (s ∷ ss) = let rest = delete_sub ch ss in if s == ch then rest else s ∷ rest

-- `close(ch)`; closing a closed channel panics: `none`.
pub close_channel : ℕ → Map ℕ Channel → Option (Map ℕ Channel)
close_channel ch channels = elim (get ch channels) [
  | none ↦ none
  | some c ↦ if c.closed then none else some (put ch (record c { closed = true }) channels)
]

mark_once : ℕ → Channel → World → World
mark_once ch c w = record w { channels = put ch (record c { once_done = true }) w.channels }

-- The function that unsub hands to once.Do.
pub unsubscribe_once : ℕ → World → Option World
unfolding has_sub delete_sub close_channel
unsubscribe_once ch w =
    let b = w.broadcaster in
    if has_sub ch b.subs
    then elim (close_channel ch w.channels) [
      | none ↦ none
      | some closed ↦
          some
            (record w { broadcaster = record b { subs = delete_sub ch b.subs }; channels = closed })
    ]
    else some w

-- The function that Subscribe returns, for the channel `ch`, which Subscribe made.
pub unsubscribe : ℕ → World → Option World
unfolding mark_once unsubscribe_once
unsubscribe ch w = elim (get ch w.channels) [
  | none ↦ some w
  | some c ↦ if c.once_done then some w else unsubscribe_once ch (mark_once ch c w)
]

-- One event of a run.
pub data Step (v w : World) : Type 0 where
  passes : (d : ℕ) → w ≡ record v { now = v.now + d } → Step v w
  emits : (scope : String) → emit scope v ≡ some w → Step v w
  fires :
      (before after : List Callback) (c : Callback)
      → v.scheduled ≡ before ++ (c ∷ after)
      → c.due ≤ v.now
      → w ≡ record v { scheduled = before ++ after; running = c ∷ v.running }
      → Step v w
  runs :
      (before after : List Callback) (c : Callback)
      → v.running ≡ before ++ (c ∷ after)
      → flush_trailing c.gen (record v { running = before ++ after }) ≡ some w
      → Step v w
  subscribes : w ≡ subscribe v → Step v w
  unsubscribes : (ch : ℕ) → unsubscribe ch v ≡ some w → Step v w
  receives :
      (ch : ℕ) (c : Channel) (ev : Event) (rest : List Event)
      → get ch v.channels ≡ some c
      → c.buffer ≡ ev ∷ rest
      → w ≡ record v { channels = put ch (record c { buffer = rest }) v.channels }
      → Step v w

-- The event is none of a caller or a client: the time passes, a timer fires, its callback runs.
abbrev pub by_itself : {v w : World} → Step v w → Bool
by_itself (passes _ _) = true
by_itself (fires _ _ _ _ _ _) = true
by_itself (runs _ _ _ _ _) = true
by_itself _ = false

-- A run of `n` events.
pub data Run (v : World) : ℕ → World → Type 0 where
  here : Run v zero v
  next : {n : ℕ} {w u : World} → Run v n w → Step w u → Run v (suc n) u

-- No event of the run is of a caller or a client.
abbrev pub RunsByItself : {v w : World} {n : ℕ} → Run v n w → Type 0
RunsByItself here = Unit
RunsByItself (next r s) = RunsByItself r × (by_itself s ≡ true)
