-- ===== src/Signals/Context/Compactions.antt =====
-- countCompactions of internal/signals/context.go, by neighbouring measurements.
use ca_session_source.Base.{
  ℕ, suc, ◌+◌, ◌*◌, ◌≡◌, refl, Bool, List, [], ◌∷◌, map, none, some, arith, ltb,
}
use ca_session_source.Base.Counting.{count, select}
use ca_session_source.Signals.Context.{ContextTokenRow, compactions_loop, count_compactions}

-- The measured token counts, in order.
abbrev pub measured : List ContextTokenRow → List ℕ
measured rows = map (λ r. r.context_tokens) (select (λ r. r.has_context_tokens) rows)

-- Each element of a list with the next.
abbrev pub neighbours_from : ℕ → List ℕ → List (ℕ × ℕ)
neighbours_from p [] = []
neighbours_from p (t ∷ ts) = (p, t) ∷ neighbours_from t ts

abbrev pub neighbours : List ℕ → List (ℕ × ℕ)
neighbours [] = []
neighbours (t ∷ ts) = neighbours_from t ts

-- The second count is below seven tenths of the first.
unfoldable pub is_drop : ℕ × ℕ → Bool
is_drop (p, t) = ltb (10 * t) (7 * p)

compactions_loop-some :
    (n p : ℕ) (rows : List ContextTokenRow)
    → compactions_loop n (some p) rows ≡ n + count is_drop (neighbours_from p (measured rows))
unfolding compactions_loop is_drop
compactions_loop-some n p [] = omega arith
compactions_loop-some n p (r ∷ rows) = ground (
  arith,
  compactions_loop-some n p rows,
  compactions_loop-some n r.context_tokens rows,
  compactions_loop-some (suc n) r.context_tokens rows,
)

compactions_loop-none :
    (rows : List ContextTokenRow)
    → compactions_loop 0 none rows ≡ count is_drop (neighbours (measured rows))
unfolding compactions_loop
compactions_loop-none [] = refl
compactions_loop-none (r ∷ rows) =
    ground (arith, compactions_loop-none rows, compactions_loop-some 0 r.context_tokens rows)

-- countCompactions is the number of neighbours, among the rows that have a token count, of which the
-- second is below seven tenths of the first.
pub count_compactions-neighbours :
    (rows : List ContextTokenRow)
    → count_compactions rows ≡ count is_drop (neighbours (measured rows))
unfolding count_compactions
count_compactions-neighbours rows = compactions_loop-none rows
