-- ===== src/ShellQuoting/Words/Reading.antt =====
-- What a shell reads of text that shellQuote of internal/ssh or of internal/server has quoted.
use ca_session_source.Base.{
  ℕ, ◌≡◌, refl, ◌∙◌, inl, inr, true, false, ◌&&◌, ◌||◌, List, [], ◌∷◌, ◌++◌, append_assoc,
  append-nil, Option, none, some, ◌==◌, ==_iff, nat_equality, arith, Bool-cases,
}
use ca_session_source.GoText.{Text, codes}
use ca_session_source.ShellQuoting.{replace_byte, shell_quote}
use ca_session_source.ShellQuoting.Resume.{only_safe, no_flag, shell_quote as resume_quote}
use ca_session_source.ShellQuoting.Resume
use ca_session_source.ShellQuoting.Words.{bare, single, read_from, start, is_literal, begun}

-- A text that, put for a quote inside quotes, gives a quote and leaves the quotes open.
abbrev GivesQuote : Text → Type 0
GivesQuote by =
    (w : Text) (words : List Text) (rest : Text)
    → read_from (record { quoting = single; word = some w; words = words }) (by ++ rest)
      ≡ read_from (record { quoting = single; word = some (w ++ b'\'' ∷ []); words = words }) rest

ssh-GivesQuote : GivesQuote (codes "'\\''")
unfolding read_from
ssh-GivesQuote w words rest = refl

resume-GivesQuote : GivesQuote (codes "'\"'\"'")
unfolding read_from
resume-GivesQuote w words rest = refl

byte_read :
    (w : Text) (words : List Text) (c : ℕ) (rest : Text)
    → (c == b'\'') ≡ false
    → read_from (record { quoting = single; word = some w; words = words }) (c ∷ rest)
      ≡ read_from (record { quoting = single; word = some (w ++ c ∷ []); words = words }) rest
unfolding read_from
byte_read w words c rest other = rw (other, read_from) refl

-- Between quotes, a text whose quotes are replaced gives the text.
quoted-read :
    (by : Text)
    → GivesQuote by
    → (w : Text) (words : List Text) (s rest : Text)
    → read_from
        (record { quoting = single; word = some w; words = words })
        (replace_byte b'\'' by s ++ b'\'' ∷ rest)
      ≡ read_from (record { quoting = bare; word = some (w ++ s); words = words }) rest
unfolding read_from replace_byte
quoted-read by gives w words [] rest = rw (append-nil w) refl
quoted-read by gives w words (c ∷ s) rest = elim (Bool-cases (c == b'\'')) [
  | inl same ↦
      rw (same, append_assoc by (replace_byte b'\'' by s) (b'\'' ∷ rest))
        (gives w words (replace_byte b'\'' by s ++ b'\'' ∷ rest)
          ∙ quoted-read by gives (w ++ b'\'' ∷ []) words s rest
          ∙ rw ((==_iff c b'\'').0 same, append_assoc w (b'\'' ∷ []) s) refl)
  | inr other ↦ rw (other) (
      byte_read w words c (replace_byte b'\'' by s ++ b'\'' ∷ rest) other
      ∙ quoted-read by gives (w ++ c ∷ []) words s rest
      ∙ rw (append_assoc w (c ∷ []) s) refl)
]

-- A quoted text, wherever a word begins, gives the text.
abbrev pub after : Text → List Text → Text → Option (List Text)
after s words rest = read_from (record { quoting = bare; word = some s; words = words }) rest

pub shell_quote-read :
    (words : List Text) (s rest : Text)
    → read_from (start words) (shell_quote s ++ rest) ≡ after s words rest
unfolding read_from shell_quote
shell_quote-read words s rest =
    rw (append_assoc (replace_byte b'\'' (codes "'\\''") s) (codes "'") rest)
      (quoted-read (codes "'\\''") ssh-GivesQuote [] words s rest)

-- The bytes that Resume.shell_quote leaves alone stand for themselves.
safe-is_literal :
    (c : ℕ) → (Resume.is_letter_or_digit c || c == b'-' || c == b'_') ≡ true → is_literal c ≡ true
unfolding Resume.is_letter_or_digit is_literal
safe-is_literal c safe = ground arith

literal_read :
    (words : List Text) (w : Option Text) (c : ℕ) (rest : Text)
    → is_literal c ≡ true
    → read_from (record { quoting = bare; word = w; words = words }) (c ∷ rest)
      ≡ after (begun w ++ c ∷ []) words rest
unfolding read_from
literal_read words w c rest literal = rw (literal, read_from) refl

safe-read :
    (words : List Text) (w s rest : Text)
    → only_safe s ≡ true
    → read_from (record { quoting = bare; word = some w; words = words }) (s ++ rest)
      ≡ after (w ++ s) words rest
unfolding read_from only_safe
safe-read words w [] rest safe = rw (append-nil w) refl
safe-read words w (c ∷ s) rest safe =
    literal_read words (some w) c (s ++ rest) (safe-is_literal c (ground (arith, safe)))
    ∙ (safe-read words (w ++ c ∷ []) s rest (ground (arith, safe))
        ∙ rw (append_assoc w (c ∷ []) s) refl)

-- What Resume.shell_quote makes of a text that is not empty is read as the text.
pub resume_quote-read :
    (words : List Text) (c : ℕ) (s rest : Text)
    → read_from (start words) (resume_quote (c ∷ s) ++ rest) ≡ after (c ∷ s) words rest
unfolding read_from Resume.shell_quote only_safe
resume_quote-read words c s rest = elim (Bool-cases (no_flag (c ∷ s) && only_safe (c ∷ s))) [
  | inl safe ↦ rw (safe) (
      literal_read words none c (s ++ rest) (safe-is_literal c (ground (arith, safe)))
      ∙ safe-read words (c ∷ []) s rest (ground (arith, safe)))
  | inr quoted ↦
      rw (quoted, append_assoc (replace_byte b'\'' (codes "'\"'\"'") (c ∷ s)) (codes "'") rest)
        (quoted-read (codes "'\"'\"'") resume-GivesQuote [] words (c ∷ s) rest)
]
