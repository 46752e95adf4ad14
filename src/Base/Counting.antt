-- ===== src/Base/Counting.antt =====
-- Counting and selecting by a Boolean test.
use Prim.Native.Nat.{ℕ, ◌+◌, ◌≤◌}
use mathlib.Core.Path.{◌≡◌, refl, ap, ap₂, ◌∙◌}
use mathlib.Core.Logic.{∥∥₁_elim}
use native.Mathlib.Nat.{ℕ_set}
use mathlib.Core.Bool.{Bool, true, false}
use mathlib.Core.List.{List, [], ◌∷◌, ◌++◌, Perm, Permᴰ}
use native.Mathlib.Omega.{arith}
use ca_session_source.Base.Tests.{if◌then◌else◌}
use ca_session_source.Base.Lists.{length, sum_by}

module _ {ℓ} {A : Type ℓ} (p : A → Bool) where
  abbrev pub count : List A → ℕ
  count [] = 0
  count (x ∷ xs) = (if p x then 1 else 0) + count xs

  abbrev pub select : List A → List A
  select [] = []
  select (x ∷ xs) = let rest = select xs in if p x then x ∷ rest else rest

  abbrev pub any : List A → Bool
  any [] = false
  any (x ∷ xs) = let rest = any xs in if p x then true else rest

  pub count-append : (xs ys : List A) → count (xs ++ ys) ≡ count xs + count ys
  count-append [] ys = omega arith
  count-append (x ∷ xs) ys = omega (arith, count-append xs ys)

  pub count-le-length : (xs : List A) → count xs ≤ length xs
  count-le-length [] = omega arith
  count-le-length (x ∷ xs) = ground (arith, count-le-length xs)

sum_by-Permᴰ {ℓ} :
    {A : Type ℓ} (f : A → ℕ) {xs ys : List A} → Permᴰ xs ys → sum_by f xs ≡ sum_by f ys
sum_by-Permᴰ f Permᴰ.nil = refl
sum_by-Permᴰ f (Permᴰ.cons e r) = ap₂ ◌+◌ (ap f e) (sum_by-Permᴰ f r)
sum_by-Permᴰ f (Permᴰ.swap {l = l} e g) = rw (e, g) (omega arith)
sum_by-Permᴰ f (Permᴰ.trans r s) = sum_by-Permᴰ f r ∙ sum_by-Permᴰ f s

-- A sum does not depend on the order of its terms.
pub sum_by-Perm {ℓ} :
    {A : Type ℓ} (f : A → ℕ) {xs ys : List A} → Perm xs ys → sum_by f xs ≡ sum_by f ys
sum_by-Perm f p = ∥∥₁_elim p (ℕ_set _ _) (sum_by-Permᴰ f)
