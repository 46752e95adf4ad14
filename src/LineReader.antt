-- ===== src/LineReader.antt =====
-- internal/parser/linereader.go: a file of JSON lines is read line by line. bufio.Reader is not part
-- of the repository: what it answers is an argument, as the list of its answers and the error that
-- ends them. newLineReader, the only constructor, sets `cr`, which here stands in the reader itself.
pub mod Lines
pub mod Reading
pub mod JsonLines
pub mod Tests
use ca_session_source.Base.{
  ℕ, zero, suc, ◌*◌, String, Bool, true, false, not, ◌&&◌, ◌⊎◌, inl, inr, List, [], ◌∷◌, ◌++◌,
  Option, none, some, ◌==◌, list_equality, nat_equality, if◌then◌else◌, ltb, length, list_beq,
}
use ca_session_source.Base.Int.{ℤ, pos, sub_ℕ}
use ca_session_source.GoText.{Text}

-- An answer of bufio.Reader.ReadLine without an error. `n` is the number of bytes read from the file
-- after the call, `buffered` how many of them are still in the buffer.
pub record Chunk : Type 0 where
  pub bytes : Text
  pub is_prefix : Bool
  pub n : ℕ
  pub buffered : ℕ

-- The error that ends the answers; the same error is the answer to all later calls.
pub data ReadError : Type 0 where
  eof : ReadError
  failed : String → ReadError

abbrev pub is_eof : ReadError → Bool
is_eof eof = true
is_eof (failed e) = false

pub record LineReader : Type 0 where
  pub chunks : List Chunk
  pub ending : ReadError
  pub n : ℕ
  pub buffered : ℕ
  pub max_len : ℕ
  pub buf : Text
  pub err : Option String
  pub bytes_read : ℤ

abbrev pub initial_scan_buf_size : ℕ
initial_scan_buf_size = 64 * 1024

abbrev pub max_line_size : ℕ
max_line_size = 64 * 1024 * 1024

-- A reader whose bufio.Reader answers with the chunks and the error.
unfoldable pub new_line_reader : List Chunk → ReadError → ℕ → LineReader
new_line_reader chunks ending max_len = record {
  chunks = chunks;
  ending = ending;
  n = 0;
  buffered = 0;
  max_len = max_len;
  buf = [];
  err = none;
  bytes_read = pos 0;
}

pub update_bytes_read : LineReader → LineReader
update_bytes_read lr = record lr { bytes_read = sub_ℕ lr.n lr.buffered }

-- The state after ReadLine has answered with the chunk.
abbrev pub advance : Chunk → List Chunk → LineReader → LineReader
advance c cs lr = record lr { chunks = cs; n = c.n; buffered = c.buffered }

-- The loop of readLine; the chunks are those of the reader.
pub read_chunks : Bool → List Chunk → LineReader → Text × Option ReadError × LineReader
unfolding update_bytes_read
read_chunks oversized [] lr =
    if ltb 0 (length lr.buf) && is_eof lr.ending
    then (lr.buf, none, update_bytes_read lr)
    else ([], some lr.ending, lr)
read_chunks true (c ∷ cs) lr =
    let skipping = read_chunks true cs (advance c cs lr) in
    if not c.is_prefix then ([], none, update_bytes_read (advance c cs lr)) else skipping
read_chunks false (c ∷ cs) lr =
    let grown = record (advance c cs lr) { buf = lr.buf ++ c.bytes } in
    let cleared = record grown { buf = [] } in
    let skipping = read_chunks true cs cleared in
    let reading = read_chunks false cs grown in
    if ltb lr.max_len (length grown.buf)
    then if not c.is_prefix then ([], none, update_bytes_read cleared) else skipping
    else if not c.is_prefix
    then (grown.buf, none, update_bytes_read grown)
    else reading

pub read_line : LineReader → Text × Option ReadError × LineReader
unfolding read_chunks
read_line lr = read_chunks false lr.chunks (record lr { buf = [] })

-- Keeps an error other than the end of the file.
pub note_error : ReadError → LineReader → LineReader
note_error eof lr = lr
note_error (failed e) lr = record lr { err = some e }

-- A line, or `none` for ("", false). The outer `none` is running out of fuel.
pub next : ℕ → LineReader → Option (Option Text × LineReader)
unfolding read_line note_error
next zero lr = none
next (suc fuel) lr =
    let step = read_line lr in
    let rest = next fuel step.2 in
    elim step.1 [
      | some e ↦ some (none, note_error e step.2)
      | none ↦ if not (step.0 == []) then some (some step.0, step.2) else rest
    ]

pub data FileError : Type 0 where
  open_failed : String → String → FileError
  seek_failed : String → ℕ → String → FileError
  read_failed : String → FileError

abbrev pub read_error : Option String → Option FileError
read_error none = none
read_error (some e) = some (read_failed e)

-- gjson.Valid, os.Open and Seek are arguments; `fn` is a closure that updates a state.
module _ {ℓ} {S : Type ℓ} (valid : Text → Bool) (fn : S → Text → S) where
  -- The loop of readJSONLFrom: the state, and `consumed`.
  pub read_valid : ℕ → S → ℤ → LineReader → Option (S × ℤ × Option String)
  unfolding next
  read_valid zero s consumed lr = none
  read_valid (suc fuel) s consumed lr = elim (next (suc (length lr.chunks)) lr) [
    | none ↦ none
    | some (none, lr') ↦ some (s, consumed, lr'.err)
    | some (some line, lr') ↦
        if valid line
        then read_valid fuel (fn s line) lr'.bytes_read lr'
        else read_valid fuel s consumed lr'
  ]

  pub read_jsonl_from {κ} :
      {F : Type κ} (open_file : String → String ⊎ F)
      (seek : F → ℕ → String ⊎ (List Chunk × ReadError))
      → ℕ
      → String
      → ℕ
      → S
      → Option (S × ℤ × Option FileError)
  unfolding read_valid new_line_reader
  read_jsonl_from open_file seek fuel path offset s = elim (open_file path) [
    | inl e ↦ some (s, pos 0, some (open_failed path e))
    | inr f ↦ elim (seek f offset) [
      | inl e ↦ some (s, pos 0, some (seek_failed path offset e))
      | inr (chunks, ending) ↦
          elim (read_valid fuel s (pos 0) (new_line_reader chunks ending max_line_size)) [
            | none ↦ none
            | some (t, consumed, err) ↦ some (t, consumed, read_error err)
          ]
    ]
  ]
