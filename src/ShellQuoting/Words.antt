-- ===== src/ShellQuoting/Words.antt =====
-- The words that a POSIX shell reads from one simple command without expansions, which the text that
-- internal/ssh and internal/server/resume.go quote is written for.
pub mod Reading
pub mod Commands
pub mod Tests
use ca_session_source.Base.{
  ℕ, Bool, ◌||◌, ◌&&◌, List, [], ◌∷◌, ◌++◌, Option, none, some, ◌==◌, nat_equality, if◌then◌else◌,
  leb,
}
use ca_session_source.GoText.{Text}

pub data Quoting : Type 0 where
  bare single double escaped : Quoting

-- The quoting at hand, the word begun if there is one, and the words read before it.
pub record Reader : Type 0 where
  pub quoting : Quoting
  pub word : Option Text
  pub words : List Text

pub is_alphanumeric : ℕ → Bool
is_alphanumeric c = leb b'a' c && leb c b'z' || leb b'A' c && leb c b'Z' || leb b'0' c && leb c b'9'

-- The bytes that stand for themselves outside quotes, as far as this reader takes them.
pub is_literal : ℕ → Bool
unfolding is_alphanumeric
is_literal c = is_alphanumeric c || c == b'-' || c == b'_' || c == b'/' || c == b'.'

abbrev pub begun : Option Text → Text
begun none = []
begun (some w) = w

abbrev pub ended : Option Text → List Text
ended none = []
ended (some w) = w ∷ []

abbrev pub append_byte : Reader → ℕ → Reader
append_byte r c = record r { word = some (begun r.word ++ c ∷ []) }

abbrev pub enter : Quoting → Reader → Reader
enter q r = record r { quoting = q; word = some (begun r.word) }

-- One byte; none where it would expand, end the command, or is not known to stand for itself.
pub step : Quoting → Reader → ℕ → Option Reader
unfolding is_literal
step bare r c =
    if is_literal c
    then some (append_byte r c)
    else if c == b'\''
    then some (enter single r)
    else if c == b'"'
    then some (enter double r)
    else if c == b'\\'
    then some (enter escaped r)
    else if c == b' '
    then some (record { quoting = bare; word = none; words = r.words ++ ended r.word })
    else none
step single r c = if c == b'\'' then some (enter bare r) else some (append_byte r c)
step double r c =
    if c == b'"'
    then some (enter bare r)
    else if c == b'$' || c == b'`' || c == b'\\'
    then none
    else some (append_byte r c)
step escaped r c = if c == b'\n' then none else some (enter bare (append_byte r c))

-- At the end of the command a quote is still open, or the words are those read.
pub finish : Quoting → Reader → Option (List Text)
finish bare r = some (r.words ++ ended r.word)
finish _ r = none

pub read_from : Reader → Text → Option (List Text)
unfolding step finish
read_from r [] = finish r.quoting r
read_from r (c ∷ s) = elim (step r.quoting r c) [ none ↦ none | some next ↦ read_from next s ]

abbrev pub start : List Text → Reader
start words = record { quoting = bare; word = none; words = words }

pub shell_words : Text → Option (List Text)
unfolding read_from
shell_words s = read_from (start []) s
