-- ===== src/Broadcaster/Tests.antt =====
-- A run of a broadcaster with the interval 10: one event is sent at once, one with the timer.
use ca_session_source.Base.{
  ℕ, ◌+◌, ◌^◌, ◌≤◌, ◌<◌, ◌≡◌, refl, String, true, [], ◌∷◌, Option, none, some, if◌then◌else◌,
  is_some, length, arith, nat_equality,
}
use ca_session_source.Base.Int.{pos, ◌-ℤ◌}
use ca_session_source.GoMap.{get, put}
use ca_session_source.Broadcaster.Invariant.{Spaced, own}
use ca_session_source.Broadcaster.Rate.{run-rate_limited}
use ca_session_source.Broadcaster.Channels.{IsOpen, run-no_panic}
use ca_session_source.Broadcaster.Delivery.{latest, last_emitted, run-latest}
use ca_session_source.Broadcaster.Trailing.{Delivered, run-Delivered}
use ca_session_source.Broadcaster.{
  Channel, World, start, emit, flush_trailing, subscribe, unsubscribe, has_sub, Run, here, next,
  passes, emits, fires, runs, subscribes,
}

abbrev sent : World → Option World → World
sent v none = v
sent v (some w) = w

abbrev subscribed : World
subscribed = subscribe (start (pos 10) 0)

abbrev led : World
led = sent subscribed (emit "sessions" subscribed)

abbrev waited : World
waited = record led { now = 3 }

abbrev deferred : World
deferred = sent waited (emit "messages" waited)

abbrev elapsed : World
elapsed = record deferred { now = 11 }

abbrev fired : World
fired = record elapsed { scheduled = []; running = elapsed.scheduled }

abbrev flushed : World
flushed = sent fired (flush_trailing 1 (record fired { running = [] }))

trace_deferred : Run (start (pos 10) 0) 4 deferred
unfolding start subscribe emit put get
trace_deferred =
    let r1 : Run (start (pos 10) 0) 1 subscribed = next here (subscribes refl) in
    let r2 : Run (start (pos 10) 0) 2 led = next r1 (emits "sessions" refl) in
    let r3 : Run (start (pos 10) 0) 3 waited = next r2 (passes 3 refl) in
    next r3 (emits "messages" refl)

trace : Run (start (pos 10) 0) 7 flushed
unfolding start subscribe emit flush_trailing put get ◌-ℤ◌
trace =
    let r5 : Run (start (pos 10) 0) 5 elapsed = next trace_deferred (passes 8 refl) in
    let r6 : Run (start (pos 10) 0) 6 fired = next r5 (fires [] [] _ refl (omega arith) refl) in
    next r6 (runs [] [] _ refl refl)

deferred_pending : deferred.pending ≡ some (record { scope = "messages" })
unfolding start subscribe emit put get
deferred_pending = refl

trace_log :
    flushed.log ≡ (11, record { scope = "messages" }) ∷ (0, record { scope = "sessions" }) ∷ []
unfolding start subscribe emit flush_trailing put get
trace_log = refl

trace_short : 7 < 2 ^ 64
trace_short = omega arith

run-rate_limited_example :
    Spaced 10 flushed.log
    × (is_some flushed.pending ≡ is_some flushed.timer)
    × (own flushed.timer_gen flushed.scheduled + own flushed.timer_gen flushed.running
        ≡ (if is_some flushed.pending then 1 else 0))
run-rate_limited_example = run-rate_limited (pos 10) 0 7 flushed trace trace_short

run-no_panic_example :
    ((scope : String) → (u : World) × (emit scope flushed ≡ some u))
    × ((gen : ℕ) → (u : World) × (flush_trailing gen flushed ≡ some u))
    × ((ch : ℕ) → (u : World) × (unsubscribe ch flushed ≡ some u))
    × ((ch : ℕ) (c : Channel) → get ch flushed.channels ≡ some c → length c.buffer ≤ 8)
    × ((ch : ℕ) → has_sub ch flushed.subs ≡ true → IsOpen ch flushed.channels)
run-no_panic_example = run-no_panic (pos 10) 0 7 flushed trace

run-latest_example : latest flushed ≡ last_emitted trace
run-latest_example = run-latest (pos 10) 0 7 flushed trace

trace_deferred_short : 4 < 2 ^ 64
trace_deferred_short = omega arith

run-Delivered_example : Delivered deferred (record { scope = "messages" })
run-Delivered_example =
    run-Delivered (pos 10) 0 4 deferred (record { scope = "messages" }) trace_deferred
      trace_deferred_short deferred_pending
