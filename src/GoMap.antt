-- ===== src/GoMap.antt =====
-- A Go map as an association list with one entry for each key. Go visits a map's entries in no
-- fixed order: here they stand in the order of their first write, and what the program computes
-- from a whole map is proved for every order.
pub mod Laws
use ca_session_source.Base.{
  Bool, true, false, List, [], ◌∷◌, Option, none, some, Equality, ◌==◌, if◌then◌else◌,
}

abbrev pub Map {ℓ κ} : Type ℓ → Type κ → Type (ℓ ⊔ κ)
Map K V = List (K × V)

module _ {ℓ κ} {K : Type ℓ} {V : Type κ} ⦃e : Equality K⦄ where
  unfoldable pub get : K → Map K V → Option V
  get k [] = none
  get k ((j, v) ∷ m) = if j == k then some v else get k m

  unfoldable pub put : K → V → Map K V → Map K V
  put k v [] = (k, v) ∷ []
  put k v ((j, w) ∷ m) = if j == k then (j, v) ∷ m else (j, w) ∷ put k v m

-- `m[k]` with the zero value of a missing key.
unfoldable pub get_or {ℓ κ} : {K : Type ℓ} {V : Type κ} ⦃e : Equality K⦄ → V → K → Map K V → V
unfolding get
get_or d k m = elim (get k m) [ none ↦ d | some v ↦ v ]
