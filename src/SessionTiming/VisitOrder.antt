-- ===== src/SessionTiming/VisitOrder.antt =====
-- The map of counts of attributeTurnGo in internal/db/timing.go, and orders of its entries.
use ca_session_source.Base.{
  ℕ, ◌+◌, ◌≡◌, sym, ◌∙◌, inl, inr, List, [], ◌∷◌, some, arith, ◌==◌, ==_iff, list_equality,
  nat_equality, Bool-cases,
}
use ca_session_source.GoMap.{Map, get, put, get_or}
use ca_session_source.GoMap.Laws.{IsDistinct, put-IsDistinct}
use ca_session_source.GoText.{Text}
use ca_session_source.SignalCompute.CommonModel.{Listed, Visits}
use ca_session_source.SessionTiming.{CallTiming, count_categories}

Listed-get :
    (m : Map Text ℕ) → IsDistinct m → (k : Text) (n : ℕ) → Listed (k, n) m → get k m ≡ some n
unfolding get
Listed-get [] d k n l = absurd l
Listed-get ((j, v) ∷ m) d k n (inl (e, h)) = ground (arith, ==_iff j k)
Listed-get ((j, v) ∷ m) d k n (inr l) =
    let later = Listed-get m d.1 k n l in
    elim (Bool-cases (j == k)) [
      | inr other ↦ rw other later
      | inl same ↦
          let e : j ≡ k = (==_iff j k).0 same in
          absurd (let gone = rw e at d.0 in let clash = sym gone ∙ later in cc)
    ]

get-Listed : (m : Map Text ℕ) (k : Text) (n : ℕ) → get k m ≡ some n → Listed (k, n) m
unfolding get
get-Listed [] k n h = absurd (cc)
get-Listed ((j, v) ∷ m) k n h = elim (Bool-cases (j == k)) [
  | inl same ↦ inl (sym ((==_iff j k).0 same), let e : some v ≡ some n = rw same at h in sym (cc))
  | inr other ↦ inr (get-Listed m k n (rw other at h))
]

count_categories-IsDistinct :
    (counts : Map Text ℕ) (calls : List CallTiming)
    → IsDistinct counts
    → IsDistinct (count_categories counts calls)
unfolding count_categories
count_categories-IsDistinct counts [] d = d
count_categories-IsDistinct counts (c ∷ calls) d =
    count_categories-IsDistinct (put c.category (get_or 0 c.category counts + 1) counts) calls
      (put-IsDistinct c.category (get_or 0 c.category counts + 1) counts d)

-- The counts are visited by their own entries.
pub count_categories-Visits :
    (calls : List CallTiming) → Visits (count_categories [] calls) (count_categories [] calls)
count_categories-Visits calls k n = (
  Listed-get (count_categories [] calls) (count_categories-IsDistinct [] calls tt) k n,
  get-Listed (count_categories [] calls) k n,
)
