-- ===== src/GoMap/Laws.antt =====
-- Reading after writing, and which keys a map holds.
use ca_session_source.Base.{
  ◌≡◌, refl, List, [], ◌∷◌, none, some, Equality, ◌==◌, ==_iff, arith, if◌then◌else◌, All, All-imp,
  ==_refl, is_some,
}
use ca_session_source.Base.Counting.{any}
use ca_session_source.GoMap.{Map, get, put, get_or}

module _ {ℓ κ} {K : Type ℓ} {V : Type κ} ⦃e : Equality K⦄ where
  pub get-put :
      (k j : K) (v : V) (m : Map K V) → get j (put k v m) ≡ (if k == j then some v else get j m)
  unfolding get put
  get-put k j v [] = refl
  get-put k j v ((i, w) ∷ m) =
      ground (arith, e.same_iff k j, e.same_iff i k, e.same_iff i j, get-put k j v m)

  pub get_or-put :
      (d : V) (k j : K) (v : V) (m : Map K V)
      → get_or d j (put k v m) ≡ (if k == j then v else get_or d j m)
  unfolding get_or
  get_or-put d k j v m = ground (arith, get-put k j v m)

  -- Every key stands once.
  abbrev pub IsDistinct : Map K V → Type (ℓ ⊔ κ)
  IsDistinct [] = Unit
  IsDistinct ((k, v) ∷ m) = (get k m ≡ none) × IsDistinct m

  pub put-IsDistinct : (k : K) (v : V) (m : Map K V) → IsDistinct m → IsDistinct (put k v m)
  unfolding get put
  put-IsDistinct k v [] d = (refl, tt)
  put-IsDistinct k v ((j, w) ∷ m) d =
      ground (arith, e.same_iff j k, e.same_iff k j, get-put k j v m, put-IsDistinct k v m d.1)

  -- A key stands in the map when reading it finds a value.
  abbrev pub keys : Map K V → List K
  keys [] = []
  keys ((k, v) ∷ m) = k ∷ keys m

  pub any-keys : (k : K) (m : Map K V) → any (λ j. j == k) (keys m) ≡ is_some (get k m)
  unfolding get
  any-keys k [] = refl
  any-keys k ((j, v) ∷ m) = ground (arith, any-keys k m)

  abbrev pub Reads : Map K V → K × V → Type κ
  Reads m e = get e.0 m ≡ some e.1

  Reads-later :
      (j : K) (w : V) (m : Map K V) (e : K × V) → get j m ≡ none → Reads m e → Reads ((j, w) ∷ m) e
  unfolding get
  Reads-later j w m (k, v) fresh h = ground (arith, ==_iff j k)

  -- In a map whose keys stand once, each entry is what reading its key gives.
  pub IsDistinct-entries : (m : Map K V) → IsDistinct m → All (λ p. get p.0 m ≡ some p.1) m
  unfolding get
  IsDistinct-entries [] d = tt
  IsDistinct-entries ((j, w) ∷ m) d =
      (rw (==_refl j), All-imp (λ p h. Reads-later j w m p d.0 h) m (IsDistinct-entries m d.1))
