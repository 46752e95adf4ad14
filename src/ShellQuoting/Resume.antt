-- ===== src/ShellQuoting/Resume.antt =====
-- shellQuote of internal/server/resume.go.
use ca_session_source.Base.{
  ℕ, Bool, true, not, ◌&&◌, ◌||◌, [], ◌∷◌, ◌++◌, ◌==◌, nat_equality, if◌then◌else◌, leb,
}
use ca_session_source.GoText.{Text, codes}
use ca_session_source.ShellQuoting.{replace_byte}

unfoldable pub is_letter_or_digit : ℕ → Bool
is_letter_or_digit c =
    leb b'a' c && leb c b'z' || leb b'A' c && leb c b'Z' || leb b'0' c && leb c b'9'

-- The loop over the runes: a byte of a rune beyond ASCII is not safe either.
unfoldable pub only_safe : Text → Bool
unfolding is_letter_or_digit
only_safe [] = true
only_safe (c ∷ s) = (is_letter_or_digit c || c == b'-' || c == b'_') && only_safe s

unfoldable pub no_flag : Text → Bool
no_flag [] = true
no_flag (c ∷ s) = not (c == b'-')

unfoldable pub shell_quote : Text → Text
unfolding only_safe no_flag replace_byte
shell_quote s =
    if no_flag s && only_safe s
    then s
    else b'\'' ∷ replace_byte b'\'' (codes "'\"'\"'") s ++ codes "'"
