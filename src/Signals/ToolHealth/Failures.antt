-- ===== src/Signals/ToolHealth/Failures.antt =====
-- countFailures of internal/signals/toolhealth.go: the number of failures and their longest run.
use ca_session_source.Base.{
  ℕ, suc, ◌+◌, ◌≤◌, ◌≡◌, refl, ap, inl, inr, true, List, [], ◌∷◌, ◌++◌, arith, ltb, if◌then◌else◌,
  length, All, Bool-cases,
}
use ca_session_source.Base.Counting.{count}
use ca_session_source.Signals.ToolFailure.{ToolCallRow, is_failure}
use ca_session_source.Signals.ToolHealth.{failures_loop, count_failures}

abbrev pub Failed : ToolCallRow → Type 0
Failed c = is_failure c ≡ true

-- A block of `n` consecutive failures stands among the calls.
pub record HasRun (n : ℕ) (calls : List ToolCallRow) : Type 0 where
  pub before : List ToolCallRow
  pub run : List ToolCallRow
  pub after : List ToolCallRow
  pub split : calls ≡ before ++ (run ++ after)
  pub failed : All Failed run
  pub long : length run ≡ n

failures_loop-count :
    (f m s : ℕ) (cs : List ToolCallRow) → (failures_loop f m s cs).0 ≡ f + count is_failure cs
unfolding failures_loop
failures_loop-count f m s [] = omega arith
failures_loop-count f m s (c ∷ cs) = elim (Bool-cases (is_failure c)) [
  | inl e ↦
      rw e
        (omega (arith, failures_loop-count (suc f) (if ltb m (suc s) then suc s else m) (suc s) cs))
  | inr e ↦ rw e (omega (arith, failures_loop-count f m 0 cs))
]

failures_loop-ge : (f m s : ℕ) (cs : List ToolCallRow) → m ≤ (failures_loop f m s cs).1
unfolding failures_loop
failures_loop-ge f m s [] = omega arith
failures_loop-ge f m s (c ∷ cs) = ground (
  arith,
  failures_loop-ge (suc f) (if ltb m (suc s) then suc s else m) (suc s) cs,
  failures_loop-ge f m 0 cs,
)

failures_loop-run :
    (f m s : ℕ) (run after : List ToolCallRow)
    → s ≤ m
    → All Failed run
    → s + length run ≤ (failures_loop f m s (run ++ after)).1
unfolding failures_loop
failures_loop-run f m s [] after h a = omega (arith, failures_loop-ge f m s after)
failures_loop-run f m s (c ∷ run) after h a = rw (a.0) (
    omega (
      arith,
      failures_loop-run (suc f) (if ltb m (suc s) then suc s else m) (suc s) run after
          (ground arith) a.1,
    ))

failures_loop-every_run :
    (f m s : ℕ) (before run after : List ToolCallRow)
    → s ≤ m
    → All Failed run
    → length run ≤ (failures_loop f m s (before ++ (run ++ after))).1
unfolding failures_loop
failures_loop-every_run f m s [] run after h a =
    omega (arith, failures_loop-run f m s run after h a)
failures_loop-every_run f m s (c ∷ before) run after h a =
    let next = if ltb m (suc s) then suc s else m in
    elim (Bool-cases (is_failure c)) [
      | inl e ↦
          rw e (failures_loop-every_run (suc f) next (suc s) before run after (ground arith) a)
      | inr e ↦ rw e (failures_loop-every_run f m 0 before run after (omega arith) a)
    ]

-- Where the loop's `max_streak` comes from: it was there, or a run that goes on from the calls
-- before, or a run among these calls.
data Source (m s r : ℕ) (cs : List ToolCallRow) : Type 0 where
  kept : r ≡ m → Source m s r cs
  ahead :
      (run after : List ToolCallRow)
      → cs ≡ run ++ after
      → All Failed run
      → s + length run ≡ r
      → Source m s r cs
  inside : HasRun r cs → Source m s r cs

run_later : {n : ℕ} (c : ToolCallRow) {cs : List ToolCallRow} → HasRun n cs → HasRun n (c ∷ cs)
run_later c h = record {
  before = c ∷ h.before;
  run = h.run;
  after = h.after;
  split = ap (◌∷◌ c) h.split;
  failed = h.failed;
  long = h.long;
}

Source-Failed :
    (m s r : ℕ) (c : ToolCallRow) (cs : List ToolCallRow)
    → Failed c
    → Source (if ltb m (suc s) then suc s else m) (suc s) r cs
    → Source m s r (c ∷ cs)
Source-Failed m s r c cs e (kept k) = elim (Bool-cases (ltb m (suc s))) [
  | inl more ↦ ahead (c ∷ []) cs refl (e, tt) (ground arith)
  | inr less ↦ kept (ground arith)
]
Source-Failed m s r c cs e (ahead run after p a l) =
    ahead (c ∷ run) after (ap (◌∷◌ c) p) (e, a) (omega arith)
Source-Failed m s r c cs e (inside h) = inside (run_later c h)

Source-passed :
    (m s r : ℕ) (c : ToolCallRow) (cs : List ToolCallRow) → Source m 0 r cs → Source m s r (c ∷ cs)
Source-passed m s r c cs (kept k) = kept k
Source-passed m s r c cs (ahead run after p a l) = inside (record {
  before = c ∷ [];
  run = run;
  after = after;
  split = ap (◌∷◌ c) p;
  failed = a;
  long = omega arith;
})
Source-passed m s r c cs (inside h) = inside (run_later c h)

failures_loop-Source :
    (f m s : ℕ) (cs : List ToolCallRow) → Source m s (failures_loop f m s cs).1 cs
unfolding failures_loop
failures_loop-Source f m s [] = kept refl
failures_loop-Source f m s (c ∷ cs) =
    let next = if ltb m (suc s) then suc s else m in
    elim (Bool-cases (is_failure c)) [
      | inl e ↦ rw e (Source-Failed m s _ c cs e (failures_loop-Source (suc f) next (suc s) cs))
      | inr e ↦ rw e (Source-passed m s _ c cs (failures_loop-Source f m 0 cs))
    ]

run_of_Source : {r : ℕ} {cs : List ToolCallRow} → Source 0 0 r cs → HasRun r cs
run_of_Source {cs = cs} (kept k) = record {
  before = [];
  run = [];
  after = cs;
  split = refl;
  failed = tt;
  long = omega arith;
}
run_of_Source (ahead run after p a l) = record {
  before = [];
  run = run;
  after = after;
  split = p;
  failed = a;
  long = omega arith;
}
run_of_Source (inside h) = h

-- countFailures returns the number of failed calls, and the length of a run of consecutive failures
-- that no other run of consecutive failures is longer than.
pub count_failures_lem :
    (calls : List ToolCallRow)
    → ((count_failures calls).0 ≡ count is_failure calls)
      × HasRun (count_failures calls).1 calls
      × ((n : ℕ) → HasRun n calls → n ≤ (count_failures calls).1)
unfolding count_failures
count_failures_lem calls = (
  omega (arith, failures_loop-count 0 0 0 calls),
  run_of_Source (failures_loop-Source 0 0 0 calls),
  λ n h. rw h.split (
      omega (
        arith,
        h.long,
        failures_loop-every_run 0 0 0 h.before h.run h.after (omega arith) h.failed,
      )),
)
