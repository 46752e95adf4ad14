-- ===== src/Broadcaster/Channels.antt =====
-- internal/server/broadcaster.go: the subscribers and their channels, between two events of a run.
use ca_session_source.Base.{
  ℕ, suc, ◌≤◌, ◌<◌, ◌≡◌, ◌⊎◌, refl, sym, ap, subst, ◌∙◌, inl, inr, String, true, false, not, ◌||◌,
  ◌&&◌, List, [], ◌∷◌, ◌++◌, Option, none, some, arith, ◌==◌, ==_iff, ==_refl, nat_equality, ltb,
  length, length-append, Bool-cases, Option-cases,
}
use ca_session_source.Base.Int.{ℤ}
use ca_session_source.GoMap.{Map, get, put}
use ca_session_source.GoMap.Laws.{get-put}
use ca_session_source.Broadcaster.{
  Event, Channel, World, start, broadcaster_buffer_cap, send, broadcast_to, broadcast_locked,
  is_leading, take_lead, defer_event, emit, flush_trailing, subscribe, fresh_channel, has_sub,
  delete_sub, close_channel, mark_once, unsubscribe_once, unsubscribe, Step, passes, emits, fires,
  runs, subscribes, unsubscribes, receives, Run, here, next,
}

-- A subscribed channel is open, and its unsubscribe function has not run.
abbrev pub IsOpen : ℕ → Map ℕ Channel → Type 0
IsOpen ch m = (c : Channel) × (get ch m ≡ some c) × (c.closed ≡ false) × (c.once_done ≡ false)

pub record ChannelInv (subs : List ℕ) (m : Map ℕ Channel) (next_id : ℕ) : Type 0 where
  pub open_subs : (ch : ℕ) → has_sub ch subs ≡ true → IsOpen ch m
  pub bounded :
      (ch : ℕ) (c : Channel) → get ch m ≡ some c → length c.buffer ≤ broadcaster_buffer_cap
  pub known : (ch : ℕ) (c : Channel) → get ch m ≡ some c → ch < next_id

abbrev pub Inv : World → Type 0
Inv w = ChannelInv w.subs w.channels w.next_id

-- A channel that is written again, no longer than its buffer, and open if it was.
write_channel :
    (subs : List ℕ) (m : Map ℕ Channel) (n ch : ℕ) (old c : Channel)
    → get ch m ≡ some old
    → length c.buffer ≤ broadcaster_buffer_cap
    → (has_sub ch subs ≡ true → (c.closed ≡ false) × (c.once_done ≡ false))
    → ChannelInv subs m n
    → ChannelInv subs (put ch c m) n
write_channel subs m n ch old c there small stays i = record {
  open_subs = λ j s. open_after j s (Bool-cases (ch == j));
  bounded = λ j d h. bounded_after j d h (Bool-cases (ch == j));
  known = λ j d h. known_after j d h (Bool-cases (ch == j));
}
  where
    open_after :
        (j : ℕ)
        → has_sub j subs ≡ true
        → ((ch == j) ≡ true) ⊎ ((ch == j) ≡ false)
        → IsOpen j (put ch c m)
    open_after j s (inl hit) =
        let e : j ≡ ch = sym ((==_iff ch j).0 hit) in
        let (not_closed, not_done) = stays (rw e at s) in
        (c, get-put ch j c m ∙ rw hit refl, not_closed, not_done)
    open_after j s (inr miss) =
        let (d, h, not_closed, not_done) = i.open_subs j s in
        (d, get-put ch j c m ∙ rw miss h, not_closed, not_done)

    bounded_after :
        (j : ℕ) (d : Channel)
        → get j (put ch c m) ≡ some d
        → ((ch == j) ≡ true) ⊎ ((ch == j) ≡ false)
        → length d.buffer ≤ broadcaster_buffer_cap
    bounded_after j d h (inl hit) =
        let e : c ≡ d = let p = rw (get-put ch j c m, hit) at h in cc in rw (← e) small
    bounded_after j d h (inr miss) = i.bounded j d (rw (get-put ch j c m, miss) at h)

    known_after :
        (j : ℕ) (d : Channel)
        → get j (put ch c m) ≡ some d
        → ((ch == j) ≡ true) ⊎ ((ch == j) ≡ false)
        → j < n
    known_after j d h (inl hit) = rw (← (==_iff ch j).0 hit) (i.known ch old there)
    known_after j d h (inr miss) = i.known j d (rw (get-put ch j c m, miss) at h)

send-ChannelInv :
    (subs : List ℕ) (m : Map ℕ Channel) (n ch : ℕ) (ev : Event)
    → ChannelInv subs m n
    → has_sub ch subs ≡ true
    → (sent : Map ℕ Channel) × (send ch ev m ≡ some sent) × ChannelInv subs sent n
unfolding send
send-ChannelInv subs m n ch ev i s =
    let (c, h, not_closed, not_done) = i.open_subs ch s in
    elim (Bool-cases (ltb (length c.buffer) broadcaster_buffer_cap)) [
      | inl room ↦
          let c' : Channel = record c { buffer = c.buffer ++ ev ∷ [] } in
          (
            put ch c' m,
            rw (h, send, not_closed, room),
            write_channel subs m n ch c c' h (ground (arith, length-append c.buffer (ev ∷ [])))
                (λ _. (not_closed, not_done)) i,
          )
      | inr full ↦ (m, rw (h, send, not_closed, full), i)
    ]

-- The loop reaches subscribed channels only.
broadcast_to-ChannelInv :
    (subs visited : List ℕ) (m : Map ℕ Channel) (n : ℕ) (ev : Event)
    → ChannelInv subs m n
    → ((ch : ℕ) → has_sub ch visited ≡ true → has_sub ch subs ≡ true)
    → (sent : Map ℕ Channel) × (broadcast_to visited ev m ≡ some sent) × ChannelInv subs sent n
unfolding broadcast_to has_sub
broadcast_to-ChannelInv subs [] m n ev i v = (m, refl, i)
broadcast_to-ChannelInv subs (ch ∷ visited) m n ev i v =
    let (sent, e, j) = send-ChannelInv subs m n ch ev i (v ch (rw (==_refl ch) refl)) in
    let later : (k : ℕ) → has_sub k visited ≡ true → has_sub k subs ≡ true =
      λ k s. v k (ground (arith, s)) in
    let (all, f, k) = broadcast_to-ChannelInv subs visited sent n ev j later in
    (all, rw (e, broadcast_to) f, k)

broadcast-Inv :
    (v : World) (ev : Event) → Inv v → (w : World) × (broadcast_locked ev v ≡ some w) × Inv w
unfolding broadcast_locked
broadcast-Inv v ev i =
    let (sent, e, j) =
      broadcast_to-ChannelInv v.subs v.subs v.channels v.next_id ev i (λ ch s. s) in
    (record v { channels = sent; log = (v.now, ev) ∷ v.log }, rw (e, broadcast_locked), j)

more_ids :
    (subs : List ℕ) (m : Map ℕ Channel) (n : ℕ) → ChannelInv subs m n → ChannelInv subs m (suc n)
more_ids subs m n i = record {
  open_subs = i.open_subs;
  bounded = i.bounded;
  known = λ ch c h. omega (arith, i.known ch c h);
}

emit-Inv : (v : World) (scope : String) → Inv v → (w : World) × (emit scope v ≡ some w) × Inv w
unfolding emit take_lead defer_event
emit-Inv v scope i = elim (Bool-cases (is_leading v)) [
  | inl lead ↦
      let (w, e, j) = broadcast-Inv (take_lead v) (record { scope = scope }) i in
      (w, rw (lead, emit) e, j)
  | inr late ↦
      let ev : Event = record { scope = scope } in
      (defer_event ev v, rw (late, emit), deferred ev v.timer refl)
]
  where
    deferred : (ev : Event) (t : Option ℕ) → v.timer ≡ t → Inv (defer_event ev v)
    deferred ev none e = rw (e, defer_event) (more_ids v.subs v.channels v.next_id i)
    deferred ev (some id) e = rw (e, defer_event) i

pub flush-Inv :
    (v : World) (gen : ℕ) (p : Option Event)
    → v.pending ≡ p
    → Inv v
    → (w : World) × (flush_trailing gen v ≡ some w) × Inv w
unfolding flush_trailing
flush-Inv v gen p e i = elim (Bool-cases (gen == v.timer_gen)) [
  | inl current ↦ pend p e current
  | inr stale ↦ (v, rw (stale, flush_trailing), i)
]
  where
    pend :
        (q : Option Event)
        → v.pending ≡ q
        → (gen == v.timer_gen) ≡ true
        → (w : World) × (flush_trailing gen v ≡ some w) × Inv w
    pend none e current =
        let b = v.broadcaster in
        (record v { broadcaster = record b { timer = none } }, ground (arith, current, e), i)
    pend (some ev) e current =
        let b = v.broadcaster in
        let ready : World = record v {
          broadcaster = record b { timer = none; pending = none; last_emit = some v.now };
        } in
        let (w, f, j) = broadcast-Inv ready ev i in (w, rw (current, e, flush_trailing) f, j)

has_sub-delete_sub :
    (ch j : ℕ) (subs : List ℕ) → has_sub j (delete_sub ch subs) ≡ (has_sub j subs && not (ch == j))
unfolding has_sub delete_sub
has_sub-delete_sub ch j [] = refl
has_sub-delete_sub ch j (s ∷ subs) =
    ground (arith, has_sub-delete_sub ch j subs, ==_iff s j, ==_iff s ch, ==_iff ch j)

deleted :
    (ch n : ℕ) (subs : List ℕ) (m : Map ℕ Channel)
    → ChannelInv subs m n
    → ChannelInv (delete_sub ch subs) m n
deleted ch n subs m i = record {
  open_subs = λ j s. i.open_subs j (ground (arith, s, has_sub-delete_sub ch j subs));
  bounded = i.bounded;
  known = i.known;
}

unsubscribe-Inv : (v : World) (ch : ℕ) → Inv v → (w : World) × (unsubscribe ch v ≡ some w) × Inv w
unfolding unsubscribe unsubscribe_once mark_once close_channel
unsubscribe-Inv v ch i = elim (Option-cases (get ch v.channels)) [
  | inl missing ↦ (v, rw (missing, unsubscribe), i)
  | inr (c, h) ↦ elim (Bool-cases c.once_done) [
    | inl again ↦ (v, rw (h, unsubscribe, again), i)
    | inr first ↦ once c h first (Bool-cases (has_sub ch v.subs))
  ]
]
  where
    once :
        (c : Channel)
        → get ch v.channels ≡ some c
        → c.once_done ≡ false
        → ((has_sub ch v.subs) ≡ true) ⊎ ((has_sub ch v.subs) ≡ false)
        → (w : World) × (unsubscribe ch v ≡ some w) × Inv w
    once c h first (inl member) =
        let c₁ : Channel = record c { once_done = true } in
        let c₂ : Channel = record c₁ { closed = true } in
        let m₁ = put ch c₁ v.channels in
        let m₂ = put ch c₂ m₁ in
        let subs = delete_sub ch v.subs in
        let gone : has_sub ch subs ≡ false =
          has_sub-delete_sub ch ch v.subs ∙ rw (member, ==_refl ch) refl in
        let there : get ch m₁ ≡ some c₁ = get-put ch ch c₁ v.channels ∙ rw (==_refl ch) refl in
        let (d, hd, not_closed, not_done) = i.open_subs ch member in
        let same : c ≡ d = cc in
        let open_c : c.closed ≡ false = rw same not_closed in
        let b = v.broadcaster in
        (
          record v { broadcaster = record b { subs = subs }; channels = m₂ },
          ground (arith, h, first, member, there, open_c),
          write_channel subs m₁ v.next_id ch c₁ c₂ there (i.bounded ch c h)
              (λ s. absurd (let p : false ≡ true = sym gone ∙ s in cc))
              (write_channel subs v.channels v.next_id ch c c₁ h (i.bounded ch c h)
                (λ s. absurd (let p : false ≡ true = sym gone ∙ s in cc))
                (deleted ch v.next_id v.subs v.channels i)),
        )
    once c h first (inr outside) =
        let c₁ : Channel = record c { once_done = true } in
        (
          record v { channels = put ch c₁ v.channels },
          ground (arith, h, first, outside),
          write_channel v.subs v.channels v.next_id ch c c₁ h (i.bounded ch c h)
              (λ s. absurd (let p : false ≡ true = sym outside ∙ s in cc)) i,
        )

subscribe-Inv : (v : World) → Inv v → Inv (subscribe v)
unfolding subscribe has_sub
subscribe-Inv v i = record {
  open_subs = λ ch s. opened ch s (Bool-cases (v.next_id == ch));
  bounded = λ ch c h. bound ch c h (Bool-cases (v.next_id == ch));
  known = λ ch c h. older ch c h (Bool-cases (v.next_id == ch));
}
  where
    m : Map ℕ Channel
    m = put v.next_id fresh_channel v.channels

    opened :
        (ch : ℕ)
        → (v.next_id == ch || has_sub ch v.subs) ≡ true
        → ((v.next_id == ch) ≡ true) ⊎ ((v.next_id == ch) ≡ false)
        → IsOpen ch m
    opened ch s (inl new) =
        (fresh_channel, get-put v.next_id ch fresh_channel v.channels ∙ rw new refl, refl, refl)
    opened ch s (inr old) =
        let (c, h, not_closed, not_done) = i.open_subs ch (rw old at s) in
        (c, get-put v.next_id ch fresh_channel v.channels ∙ rw old h, not_closed, not_done)

    bound :
        (ch : ℕ) (c : Channel)
        → get ch m ≡ some c
        → ((v.next_id == ch) ≡ true) ⊎ ((v.next_id == ch) ≡ false)
        → length c.buffer ≤ broadcaster_buffer_cap
    bound ch c h (inl new) =
        let e : fresh_channel ≡ c =
          let p = rw (get-put v.next_id ch fresh_channel v.channels, new) at h in cc in
        rw (← e) (omega arith)
    bound ch c h (inr old) =
        i.bounded ch c (rw (get-put v.next_id ch fresh_channel v.channels, old) at h)

    older :
        (ch : ℕ) (c : Channel)
        → get ch m ≡ some c
        → ((v.next_id == ch) ≡ true) ⊎ ((v.next_id == ch) ≡ false)
        → ch < suc v.next_id
    older ch c h (inl new) = let e = (==_iff v.next_id ch).0 new in omega arith
    older ch c h (inr old) =
        let k = i.known ch c (rw (get-put v.next_id ch fresh_channel v.channels, old) at h) in
        omega arith

-- Two results of one call are one.
Inv-result : (r : Option World) (w u : World) → r ≡ some w → r ≡ some u → Inv u → Inv w
Inv-result r w u e f i = let same : u ≡ w = cc in subst Inv same i

shorter :
    (c : Channel) (ev : Event) (rest : List Event)
    → c.buffer ≡ ev ∷ rest
    → length c.buffer ≤ 8
    → length rest ≤ 8
shorter c ev rest e h = let size : length c.buffer ≡ suc (length rest) = ap length e in omega arith

Step-Inv : (v w : World) → Step v w → Inv v → Inv w
Step-Inv v w (passes d e) i = rw e i
Step-Inv v w (emits scope e) i =
    let (u, f, j) = emit-Inv v scope i in Inv-result (emit scope v) w u e f j
Step-Inv v w (fires before after c split due e) i = rw e i
Step-Inv v w (runs before after c split e) i =
    let taken : World = record v { running = before ++ after } in
    let (u, f, j) = flush-Inv taken c.gen v.pending refl i in
    Inv-result (flush_trailing c.gen taken) w u e f j
Step-Inv v w (subscribes e) i = rw e (subscribe-Inv v i)
Step-Inv v w (unsubscribes ch e) i =
    let (u, f, j) = unsubscribe-Inv v ch i in Inv-result (unsubscribe ch v) w u e f j
Step-Inv v w (receives ch c ev rest h full e) i = rw e (
    write_channel v.subs v.channels v.next_id ch c (record c { buffer = rest }) h
      (shorter c ev rest full (i.bounded ch c h)) open_still i)
  where
    open_still : has_sub ch v.subs ≡ true → (c.closed ≡ false) × (c.once_done ≡ false)
    open_still s =
        let (d, hd, not_closed, not_done) = i.open_subs ch s in
        let same : c ≡ d = cc in rw same (not_closed, not_done)

pub run-Inv : (d : ℤ) (t n : ℕ) (w : World) → Run (start d t) n w → Inv w
unfolding start has_sub get
run-Inv d t n w here = record {
  open_subs = λ ch s. absurd (cc);
  bounded = λ ch c h. absurd (cc);
  known = λ ch c h. absurd (cc);
}
run-Inv d t n w (next {w = v} r s) = Step-Inv v w s (run-Inv d t _ v r)

-- After any run of a new broadcaster, Emit, the callback of any timer and the unsubscribe function
-- of any channel return without a panic: they send on no closed channel, and close none again. No
-- channel holds more than the 8 events of its buffer, and every subscribed channel is open.
pub run-no_panic :
    (d : ℤ) (t n : ℕ) (w : World)
    → Run (start d t) n w
    → ((scope : String) → (u : World) × (emit scope w ≡ some u))
      × ((gen : ℕ) → (u : World) × (flush_trailing gen w ≡ some u))
      × ((ch : ℕ) → (u : World) × (unsubscribe ch w ≡ some u))
      × ((ch : ℕ) (c : Channel) → get ch w.channels ≡ some c → length c.buffer ≤ 8)
      × ((ch : ℕ) → has_sub ch w.subs ≡ true → IsOpen ch w.channels)
run-no_panic d t n w r =
    let i = run-Inv d t n w r in
    (
      λ scope. let (u, e, _) = emit-Inv w scope i in (u, e),
      λ gen. let (u, e, _) = flush-Inv w gen w.pending refl i in (u, e),
      λ ch. let (u, e, _) = unsubscribe-Inv w ch i in (u, e),
      i.bounded,
      i.open_subs,
    )
