-- ===== src/Signals/ToolHealth/Retries.antt =====
-- countRetries of internal/signals/toolhealth.go, by the maximal runs of equal calls.
use ca_session_source.Base.{
  ℕ, suc, ◌+◌, ◌-◌, ◌≤◌, ◌≡◌, refl, inl, inr, Bool, true, false, List, [], ◌∷◌, arith, leb,
  if◌then◌else◌, length, Bool-cases, sum_by,
}
use ca_session_source.Signals.ToolFailure.{ToolCallRow}
use ca_session_source.Signals.ToolHealth.{add_run, is_repeat, retries_loop, count_retries}

-- The lengths of the maximal runs of a list of calls, each call repeating the one before it.
extend_run : Bool → List ℕ → List ℕ
extend_run b [] = 1 ∷ []
extend_run true (n ∷ ns) = suc n ∷ ns
extend_run false (n ∷ ns) = 1 ∷ n ∷ ns

pub runs_from : ToolCallRow → List ToolCallRow → List ℕ
unfolding extend_run
runs_from c [] = 1 ∷ []
runs_from c (d ∷ ds) = extend_run (is_repeat c d) (runs_from d ds)

pub runs : List ToolCallRow → List ℕ
unfolding runs_from
runs [] = []
runs (c ∷ cs) = runs_from c cs

-- A run of three calls or more holds one retry for each call after its first.
pub run_retries : ℕ → ℕ
run_retries n = if leb 3 n then n - 1 else 0

runs_from-cons :
    (c : ToolCallRow) (cs : List ToolCallRow) → (n : ℕ) × (ns : List ℕ) × (runs_from c cs ≡ n ∷ ns)
unfolding runs_from
runs_from-cons c [] = (1, [], refl)
runs_from-cons c (d ∷ ds) =
    let (n, ns, e) = runs_from-cons d ds in
    elim (Bool-cases (is_repeat c d)) [
      | inl same ↦ (suc n, ns, ground (arith, e))
      | inr other ↦ (1, n ∷ ns, ground (arith, e))
    ]

abbrev grow : ℕ → List ℕ → List ℕ
grow j [] = []
grow j (n ∷ ns) = (j + n) ∷ ns

retries_loop-runs :
    (prev : ToolCallRow) (total j : ℕ) (cs : List ToolCallRow)
    → retries_loop prev total (suc j) cs ≡ total + sum_by run_retries (grow j (runs_from prev cs))
unfolding retries_loop runs_from run_retries
retries_loop-runs prev total j [] = ground arith
retries_loop-runs prev total j (c ∷ cs) =
    let (n, ns, e) = runs_from-cons c cs in
    let same_run = retries_loop-runs c total (suc j) cs in
    let new_run = retries_loop-runs c (add_run total (suc j)) 0 cs in
    elim (Bool-cases (is_repeat prev c)) [
      | inl same ↦ ground (arith, same_run)
      | inr other ↦ ground (arith, new_run)
    ]

-- countRetries is the sum, over the maximal runs of calls that each repeat the one before it, of the
-- run's length less one, where the run has three calls or more.
pub count_retries-runs :
    (calls : List ToolCallRow) → count_retries calls ≡ sum_by run_retries (runs calls)
unfolding count_retries runs runs_from run_retries
count_retries-runs [] = refl
count_retries-runs (c ∷ []) = refl
count_retries-runs (c ∷ d ∷ []) = ground arith
count_retries-runs (c ∷ d ∷ e ∷ cs) =
    let (n, ns, p) = runs_from-cons c (d ∷ e ∷ cs) in
    ground (arith, p, retries_loop-runs c 0 0 (d ∷ e ∷ cs))

sum-extend_run :
    (b : Bool) (ns : List ℕ) → sum_by (λ n. n) (extend_run b ns) ≡ suc (sum_by (λ n. n) ns)
unfolding extend_run
sum-extend_run b [] = omega arith
sum-extend_run true (n ∷ ns) = omega arith
sum-extend_run false (n ∷ ns) = omega arith

-- The runs are a division of the calls.
pub sum-runs : (calls : List ToolCallRow) → sum_by (λ n. n) (runs calls) ≡ length calls
unfolding runs runs_from
sum-runs [] = refl
sum-runs (c ∷ []) = omega arith
sum-runs (c ∷ d ∷ cs) =
    omega (arith, sum-extend_run (is_repeat c d) (runs_from d cs), sum-runs (d ∷ cs))

sum-run_retries : (ns : List ℕ) → sum_by run_retries ns ≤ sum_by (λ n. n) ns
unfolding run_retries
sum-run_retries [] = omega arith
sum-run_retries (n ∷ ns) = ground (arith, sum-run_retries ns)

pub count_retries-le-length : (calls : List ToolCallRow) → count_retries calls ≤ length calls
count_retries-le-length calls =
    omega (arith, count_retries-runs calls, sum-runs calls, sum-run_retries (runs calls))
