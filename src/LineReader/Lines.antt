-- ===== src/LineReader/Lines.antt =====
-- lineReader of internal/parser/linereader.go: the lines that the answers of bufio.Reader make up.
use ca_session_source.Base.{ℕ, Bool, ◌&&◌, List, [], ◌∷◌, ◌++◌, if◌then◌else◌, ltb, leb, length}
use ca_session_source.Base.Counting.{select}
use ca_session_source.Base.Int.{ℤ, sub_ℕ}
use ca_session_source.GoText.{Text}
use ca_session_source.LineReader.{Chunk, ReadError, is_eof, LineReader}

-- The lines of a file that begins with `start` and goes on with the chunks, each with the place in
-- the file behind it: a line is what the chunks hold up to one that is no prefix. What is left at
-- the end of the file is its last line; what is left at another error is no line.
abbrev pub lines : ReadError → ℕ → ℕ → Text → List Chunk → List (Text × ℤ)
lines ending n buffered start [] = if is_eof ending then (start, sub_ℕ n buffered) ∷ [] else []
lines ending n buffered start (c ∷ cs) =
    if c.is_prefix
    then lines ending c.n c.buffered (start ++ c.bytes) cs
    else (start ++ c.bytes, sub_ℕ c.n c.buffered) ∷ lines ending c.n c.buffered [] cs

abbrev pub is_readable : ℕ → Text × ℤ → Bool
is_readable max_len l = ltb 0 (length l.0) && leb (length l.0) max_len

-- The lines still to come that are neither empty nor oversized.
abbrev pub coming : Text → List Chunk → LineReader → List (Text × ℤ)
coming start cs lr = select (is_readable lr.max_len) (lines lr.ending lr.n lr.buffered start cs)

abbrev pub remaining : LineReader → List (Text × ℤ)
remaining lr = coming [] lr.chunks lr
