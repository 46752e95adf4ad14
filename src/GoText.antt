-- ===== src/GoText.antt =====
-- What the source uses of Go's `strings` package, over the bytes of a string.
pub mod Laws
pub mod Space
use Prim.Native.Char.{code}
use ca_session_source.Base.{
  ℕ, zero, suc, ◌+◌, String, Bool, true, false, ◌&&◌, ◌||◌, List, [], ◌∷◌, ◌++◌, Option, none, some,
  Equality, ◌==◌, nat_equality, if◌then◌else◌, leb,
}

-- A Go string that the program looks into, as its bytes.
abbrev pub Text : Type 0
Text = List ℕ

-- The bytes of an ASCII literal. `String` has its own `[]` and `∷`.
abbrev pub codes : String → Text
codes String.[] = []
codes (String.◌∷◌ c s) = code c ∷ codes s

-- strings.HasPrefix, the prefix first.
unfoldable pub has_prefix : Text → Text → Bool
has_prefix [] s = true
has_prefix (p ∷ ps) [] = false
has_prefix (p ∷ ps) (c ∷ s) = p == c && has_prefix ps s

-- strings.Index, the text sought first; -1 is `none`.
unfoldable pub index : Text → Text → Option ℕ
unfolding has_prefix
index p [] = if has_prefix p [] then some 0 else none
index p (c ∷ s) =
    let rest = index p s in
    if has_prefix p (c ∷ s) then some 0 else elim rest [ none ↦ none | some i ↦ some (suc i) ]

-- strings.Contains, the text sought first.
unfoldable pub contains : Text → Text → Bool
unfolding index
contains p s = elim (index p s) [ none ↦ false | some _ ↦ true ]

-- strings.Join, the separator first.
unfoldable pub join : Text → List Text → Text
join sep [] = []
join sep (p ∷ []) = p
join sep (p ∷ q ∷ ps) = p ++ (sep ++ join sep (q ∷ ps))

-- Puts a byte in front of the first line.
cons_first : ℕ → List Text → List Text
cons_first c [] = (c ∷ []) ∷ []
cons_first c (l ∷ ls) = (c ∷ l) ∷ ls

-- strings.SplitSeq by a separator of one byte, as the list of its pieces.
unfoldable pub split : ℕ → Text → List Text
unfolding cons_first
split d [] = [] ∷ []
split d (c ∷ s) = let rest = split d s in if c == d then [] ∷ rest else cons_first c rest

-- unicode.ToLower as far as ASCII letters come out of it: besides `A` to `Z` these are the letters
-- U+0130 (bytes c4 b0, to `i`) and U+212A (bytes e2 84 aa, to `k`). The other letters stay outside
-- ASCII, and are left as they are.
unfoldable pub to_lower : Text → Text
to_lower [] = []
to_lower (a ∷ []) = (if leb b'A' a && leb a b'Z' then a + 32 else a) ∷ []
to_lower (a ∷ b ∷ []) =
    let rest = to_lower (b ∷ []) in
    if a == 0xc4 && b == 0xb0
    then b'i' ∷ []
    else (if leb b'A' a && leb a b'Z' then a + 32 else a) ∷ rest
to_lower (a ∷ b ∷ c ∷ s) =
    let rest = to_lower (b ∷ c ∷ s) in
    let after_two = to_lower (c ∷ s) in
    let after_three = to_lower s in
    if a == 0xc4 && b == 0xb0
    then b'i' ∷ after_two
    else if a == 0xe2 && b == 0x84 && c == 0xaa
    then b'k' ∷ after_three
    else (if leb b'A' a && leb a b'Z' then a + 32 else a) ∷ rest
