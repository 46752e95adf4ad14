-- ===== src/Signals/EditChurn/Windows.antt =====
-- hasChurnWindow of internal/signals/toolhealth.go: windows of consecutive ordinals.
use ca_session_source.Base.{
  ℕ, zero, suc, ◌+◌, ◌-◌, ◌≤◌, ◌<◌, ◌≡◌, ◌↔◌, ap, sym, subst, length-append, inl, inr, Bool, true,
  false, List, [], ◌∷◌, ◌++◌, arith, ltb, if◌then◌else◌, length, take, drop, All, Bool-cases,
  take-append-drop, length-take_of_le, take-append_left,
}
use ca_session_source.Signals.EditChurn.{window_range, window_fits, has_churn_window}

-- Any two ordinals of the window differ by less than `max_span`.
abbrev pub Within : ℕ → List ℕ → Type 0
Within max_span w = All (λ a. All (λ b. a < b + max_span) w) w

pub record HasWindow (ords : List ℕ) (window_size max_span : ℕ) : Type 0 where
  pub before : List ℕ
  pub window : List ℕ
  pub after : List ℕ
  pub split : ords ≡ before ++ (window ++ after)
  pub size : length window ≡ window_size
  pub within : Within max_span window

range_bounds :
    (lo hi : ℕ) (os : List ℕ)
    → lo ≤ hi
    → let r = window_range lo hi os in (r.0 ≤ lo) × (hi ≤ r.1) × All (λ o. (r.0 ≤ o) × (o ≤ r.1)) os
unfolding window_range
range_bounds lo hi [] h = (omega arith, omega arith, tt)
range_bounds lo hi (o ∷ os) h =
    let lo' = if ltb o lo then o else lo in
    let hi' = if ltb hi o then o else hi in
    let (below, above, rest) = range_bounds lo' hi' os (ground arith) in
    let lo_le : (lo' ≤ lo) × (lo' ≤ o) = ground arith in
    let hi_ge : (hi ≤ hi') × (o ≤ hi') = ground arith in
    (omega arith, omega arith, ((omega arith, omega arith), rest))

-- What holds of the two ends and of all the ordinals holds of the least and of the greatest.
range_keeps :
    (P : ℕ → Type 0) (lo hi : ℕ) (os : List ℕ)
    → P lo
    → P hi
    → All P os
    → P (window_range lo hi os).0 × P (window_range lo hi os).1
unfolding window_range
range_keeps P lo hi [] l h a = (l, h)
range_keeps P lo hi (o ∷ os) l h a =
    range_keeps P (if ltb o lo then o else lo) (if ltb hi o then o else hi) os
      (pick (ltb o lo) a.0 l) (pick (ltb hi o) a.0 h) a.1
  where
    pick : (b : Bool) {x y : ℕ} → P x → P y → P (if b then x else y)
    pick true p q = p
    pick false p q = q

All-imp : (P Q : ℕ → Type 0) (xs : List ℕ) → ((x : ℕ) → P x → Q x) → All P xs → All Q xs
All-imp P Q [] f a = tt
All-imp P Q (x ∷ xs) f a = (f x a.0, All-imp P Q xs f a.1)

Within-range :
    (m o : ℕ) (os : List ℕ)
    → ltb ((window_range o o os).1 - (window_range o o os).0) m ≡ true
    → Within m (o ∷ os)
Within-range m o os h =
    let (below, above, rest) = range_bounds o o os (omega arith) in
    let r = window_range o o os in
    let ends : All (λ x. (r.0 ≤ x) × (x ≤ r.1)) (o ∷ os) = ((below, above), rest) in
    let close : r.1 < r.0 + m = ground arith in
    All-imp (λ x. (r.0 ≤ x) × (x ≤ r.1)) (λ a. All (λ b. a < b + m) (o ∷ os)) (o ∷ os)
      (λ a p.
        All-imp (λ x. (r.0 ≤ x) × (x ≤ r.1)) (λ b. a < b + m) (o ∷ os) (λ b q. omega arith) ends)
      ends

range-Within :
    (m o : ℕ) (os : List ℕ)
    → Within m (o ∷ os)
    → ltb ((window_range o o os).1 - (window_range o o os).0) m ≡ true
range-Within m o os w =
    let greatest = range_keeps (λ a. All (λ b. a < b + m) (o ∷ os)) o o os w.0 w.0 w.1 in
    let least =
      range_keeps (λ b. (window_range o o os).1 < b + m) o o os greatest.1.0 greatest.1.0
        greatest.1.1 in
    let close : (window_range o o os).1 < (window_range o o os).0 + m = least.0 in ground arith

window_fits-Within :
    (n m o : ℕ) (os : List ℕ) → (window_fits (suc n) m o os ≡ true) ↔ Within m (o ∷ take n os)
unfolding window_fits
window_fits-Within n m o os =
    let e : suc n - 1 ≡ n = omega arith in
    rw e (λ h. Within-range m o (take n os) h, λ w. range-Within m o (take n os) w)

churn_window_sound :
    (ords : List ℕ) (n m : ℕ) → has_churn_window ords (suc n) m ≡ true → HasWindow ords (suc n) m
unfolding has_churn_window
churn_window_sound [] n m h = cc
churn_window_sound (o ∷ os) n m h = elim (Bool-cases (window_fits (suc n) m o os)) [
  | inl fits ↦ record {
    before = [];
    window = o ∷ take n os;
    after = drop n os;
    split = ap (◌∷◌ o) (sym (take-append-drop n os));
    size = ap suc (length-take_of_le n os (ground arith));
    within = (window_fits-Within n m o os).0 fits;
  }
  | inr no_fit ↦
      let later = churn_window_sound os n m (ground arith) in
      record {
        before = o ∷ later.before;
        window = later.window;
        after = later.after;
        split = ap (◌∷◌ o) later.split;
        size = later.size;
        within = later.within;
      }
]

churn_window_complete :
    (before window after : List ℕ) (n m : ℕ)
    → length window ≡ suc n
    → Within m window
    → has_churn_window (before ++ (window ++ after)) (suc n) m ≡ true
unfolding has_churn_window
churn_window_complete [] [] after n m l w = absurd (omega arith)
churn_window_complete [] (o ∷ os) after n m l w =
    let e : take n (os ++ after) ≡ os =
      subst (λ k. take k (os ++ after) ≡ os) (omega arith) (take-append_left os after) in
    let fits =
      (window_fits-Within n m o (os ++ after)).1 (subst (λ t. Within m (o ∷ t)) (sym e) w) in
    ground (arith, fits, length-append os after)
churn_window_complete (b ∷ before) window after n m l w = ground (
  arith,
  churn_window_complete before window after n m l w,
  length-append before (window ++ after),
  length-append window after,
)

-- hasChurnWindow answers true exactly when some block of `window_size` consecutive ordinals, which
-- is at least 1, has any two ordinals less than `max_span` apart.
pub has_churn_window_iff :
    (ords : List ℕ) (window_size max_span : ℕ)
    → 0 < window_size
    → (has_churn_window ords window_size max_span ≡ true) ↔ HasWindow ords window_size max_span
has_churn_window_iff ords zero max_span h = absurd (omega arith)
has_churn_window_iff ords (suc n) max_span h = (
  churn_window_sound ords n max_span,
  λ w. rw w.split (churn_window_complete w.before w.window w.after n max_span w.size w.within),
)
