-- ===== src/GoText/Space.antt =====
-- strings.TrimSpace: cuts the white space of Unicode off both ends of a text of UTF-8 bytes.
use mathlib.Core.List.{reverse}
use ca_session_source.Base.{ℕ, zero, suc, List, [], ◌∷◌, map, nat_equality, if◌then◌else◌, length}
use ca_session_source.GoText.{Text, has_prefix}

-- The encodings of the runes for which unicode.IsSpace holds.
abbrev spaces : List Text
spaces =
    (0x09 ∷ [])
    ∷ (0x0a ∷ [])
    ∷ (0x0b ∷ [])
    ∷ (0x0c ∷ [])
    ∷ (0x0d ∷ [])
    ∷ (0x20 ∷ [])
    ∷ (0xc2 ∷ 0x85 ∷ [])
    ∷ (0xc2 ∷ 0xa0 ∷ [])
    ∷ (0xe1 ∷ 0x9a ∷ 0x80 ∷ [])
    ∷ (0xe2 ∷ 0x80 ∷ 0x80 ∷ [])
    ∷ (0xe2 ∷ 0x80 ∷ 0x81 ∷ [])
    ∷ (0xe2 ∷ 0x80 ∷ 0x82 ∷ [])
    ∷ (0xe2 ∷ 0x80 ∷ 0x83 ∷ [])
    ∷ (0xe2 ∷ 0x80 ∷ 0x84 ∷ [])
    ∷ (0xe2 ∷ 0x80 ∷ 0x85 ∷ [])
    ∷ (0xe2 ∷ 0x80 ∷ 0x86 ∷ [])
    ∷ (0xe2 ∷ 0x80 ∷ 0x87 ∷ [])
    ∷ (0xe2 ∷ 0x80 ∷ 0x88 ∷ [])
    ∷ (0xe2 ∷ 0x80 ∷ 0x89 ∷ [])
    ∷ (0xe2 ∷ 0x80 ∷ 0x8a ∷ [])
    ∷ (0xe2 ∷ 0x80 ∷ 0xa8 ∷ [])
    ∷ (0xe2 ∷ 0x80 ∷ 0xa9 ∷ [])
    ∷ (0xe2 ∷ 0x80 ∷ 0xaf ∷ [])
    ∷ (0xe2 ∷ 0x81 ∷ 0x9f ∷ [])
    ∷ (0xe3 ∷ 0x80 ∷ 0x80 ∷ [])
    ∷ []

-- The length of the first of the sequences that the text begins with, or 0.
space_length : List Text → Text → ℕ
space_length [] s = 0
space_length (p ∷ ps) s = let rest = space_length ps s in if has_prefix p s then length p else rest

-- Drops the sequences at the start, and first `n` bytes of one that has begun.
trim_start : List Text → ℕ → Text → Text
unfolding space_length
trim_start seqs n [] = []
trim_start seqs (suc n) (c ∷ s) = trim_start seqs n s
trim_start seqs zero (c ∷ s) =
    let n = space_length seqs (c ∷ s) in elim n [ zero ↦ c ∷ s | suc k ↦ trim_start seqs k s ]

unfoldable pub trim_space : Text → Text
unfolding trim_start
trim_space s = reverse (trim_start (map reverse spaces) 0 (reverse (trim_start spaces 0 s)))
