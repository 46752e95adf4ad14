-- ===== src/LineReader/JsonLines.antt =====
-- readJSONLFrom of internal/parser/linereader.go: the lines it hands on, and the bytes it counts.
use ca_session_source.Base.{
  ℕ, zero, suc, ◌≤◌, ◌<◌, ◌≡◌, refl, ap, ◌∙◌, inl, inr, ◌⊎◌, Bool, List, [], ◌∷◌, ◌++◌, Option,
  none, some, String, arith, if◌then◌else◌, length, Bool-cases,
}
use ca_session_source.Base.Counting.{select}
use ca_session_source.Base.Int.{ℤ, pos}
use ca_session_source.GoText.{Text}
use ca_session_source.LineReader.{
  Chunk, ReadError, LineReader, FileError, open_failed, seek_failed, read_error, next, read_valid,
  read_jsonl_from, new_line_reader, max_line_size,
}
use ca_session_source.LineReader.Lines.{lines, remaining, is_readable}
use ca_session_source.LineReader.Reading.{Answer, no_more, a_line, next-Answer, final_err}

with_err {ℓ} :
    {S : Type ℓ} (r : S × ℤ) {e e' : Option String}
    → e ≡ e'
    → ◌≡◌ {A = Option (S × ℤ × Option String)} (some (r.0, r.1, e)) (some (r.0, r.1, e'))
with_err r h = ap (λ e. some (r.0, r.1, e)) h

abbrev pub last_place : ℤ → List (Text × ℤ) → ℤ
last_place p [] = p
last_place p (l ∷ ls) = last_place l.1 ls

-- A line that gjson accepts.
abbrev pub is_valid : (Text → Bool) → Text × ℤ → Bool
is_valid valid l = valid l.0

module _ {ℓ} {S : Type ℓ} (valid : Text → Bool) (fn : S → Text → S) where
  abbrev pub handle_all : S → List (Text × ℤ) → S
  handle_all s [] = s
  handle_all s (l ∷ ls) = handle_all (fn s l.0) ls

  -- All lines that are to come are read, the valid ones handed on in their order.
  abbrev Whole : S → ℤ → LineReader → S × ℤ × Option String
  Whole s p lr =
      let good = select (is_valid valid) (remaining lr) in
      (handle_all s good, last_place p good, final_err lr.ending lr.err)

  abbrev after_next : ℕ → S → ℤ → Option (Option Text × LineReader) → Option (S × ℤ × Option String)
  after_next fuel s p answer = elim answer [
    | none ↦ none
    | some (none, lr) ↦ some (s, p, lr.err)
    | some (some line, lr) ↦
        if valid line
        then read_valid valid fn fuel (fn s line) lr.bytes_read lr
        else read_valid valid fn fuel s p lr
  ]

  read_valid-after_next :
      (fuel : ℕ) (s : S) (p : ℤ) (lr : LineReader)
      → read_valid valid fn (suc fuel) s p lr
        ≡ after_next fuel s p (next (suc (length lr.chunks)) lr)
  unfolding read_valid
  read_valid-after_next fuel s p lr = refl

  after_next-Answer :
      (fuel : ℕ) (s : S) (p : ℤ) (lr : LineReader)
      → ((t : S) (q : ℤ) (lr' : LineReader)
          → length (remaining lr') < fuel
          → read_valid valid fn fuel t q lr' ≡ some (Whole t q lr'))
      → length (remaining lr) < suc fuel
      → (r : Option Text × LineReader) → Answer lr r
      → after_next fuel s p (some r) ≡ some (Whole s p lr)
  after_next-Answer fuel s p lr later enough _ (no_more lr' left kept) = rw (left, kept) refl
  after_next-Answer fuel s p lr later enough _ (a_line l lr' same left fewer) =
      let fits : length (remaining lr') < fuel = omega (arith, ap length left) in
      let kept : final_err lr'.ending lr'.err ≡ final_err lr.ending lr.err =
        rw (same.same_ending, same.same_err) refl in
      elim (Bool-cases (valid l)) [
        | inl good ↦ rw (left, good) (later (fn s l) lr'.bytes_read lr' fits ∙ with_err (_, _) kept)
        | inr bad ↦ rw (left, bad) (later s p lr' fits ∙ with_err (_, _) kept)
      ]

  read_valid_lem :
      (fuel : ℕ) (s : S) (p : ℤ) (lr : LineReader)
      → length (remaining lr) < fuel
      → read_valid valid fn fuel s p lr ≡ some (Whole s p lr)
  read_valid_lem zero s p lr enough = absurd (omega arith)
  read_valid_lem (suc fuel) s p lr enough =
      let (r, found, answer) = next-Answer (suc (length lr.chunks)) lr (omega arith) in
      read_valid-after_next fuel s p lr
      ∙ ap (after_next fuel s p) found
      ∙ after_next-Answer fuel s p lr (read_valid_lem fuel) enough r answer

length-lines_le :
    (ending : ReadError) (n buffered : ℕ) (start : Text) (cs : List Chunk)
    → length (lines ending n buffered start cs) ≤ suc (length cs)
length-lines_le ending n buffered start [] = ground arith
length-lines_le ending n buffered start (c ∷ cs) = ground (
  arith,
  length-lines_le ending c.n c.buffered (start ++ c.bytes) cs,
  length-lines_le ending c.n c.buffered [] cs,
)

length-select_le {ℓ} : {A : Type ℓ} (p : A → Bool) (xs : List A) → length (select p xs) ≤ length xs
length-select_le p [] = omega arith
length-select_le p (x ∷ xs) = ground (arith, length-select_le p xs)

-- The lines of a file that readJSONLFrom can hand on.
abbrev pub json_lines : (Text → Bool) → List Chunk → ReadError → List (Text × ℤ)
json_lines valid chunks ending =
    select (is_valid valid) (select (is_readable max_line_size) (lines ending 0 0 [] chunks))

module _ {ℓ κ} {S : Type ℓ} {F : Type κ} (valid : Text → Bool) (fn : S → Text → S)
    (open_file : String → String ⊎ F) (seek : F → ℕ → String ⊎ (List Chunk × ReadError)) where
  -- What readJSONLFrom answers, apart from fuel.
  abbrev pub json_outcome : String → ℕ → S → S × ℤ × Option FileError
  json_outcome path offset s = elim (open_file path) [
    | inl e ↦ (s, pos 0, some (open_failed path e))
    | inr f ↦ elim (seek f offset) [
      | inl e ↦ (s, pos 0, some (seek_failed path offset e))
      | inr (chunks, ending) ↦
          let good = json_lines valid chunks ending in
          (handle_all valid fn s good, last_place (pos 0) good, read_error (final_err ending none))
    ]
  ]

  -- Enough fuel for every file.
  abbrev pub json_fuel : String → ℕ → ℕ
  json_fuel path offset = elim (open_file path) [
    | inl e ↦ 0
    | inr f ↦ elim (seek f offset) [ inl e ↦ 0 | inr (chunks, ending) ↦ suc (suc (length chunks)) ]
  ]

  read_jsonl_from-opened :
      (fuel : ℕ) (path : String) (offset : ℕ) (s : S) (f : F)
      → open_file path ≡ inr f
      → (r : String ⊎ (List Chunk × ReadError)) → seek f offset ≡ r
      → json_fuel path offset ≤ fuel
      → read_jsonl_from valid fn open_file seek fuel path offset s
        ≡ some (json_outcome path offset s)
  unfolding read_jsonl_from new_line_reader
  read_jsonl_from-opened fuel path offset s f e (inl x) h enough =
      rw (e, h, read_jsonl_from, json_outcome) refl
  read_jsonl_from-opened fuel path offset s f e (inr (chunks, ending)) h enough =
      let lr = new_line_reader chunks ending max_line_size in
      let fits : suc (suc (length chunks)) ≤ fuel = rw (json_fuel, e, h) at enough in
      let few : length (remaining lr) < fuel = omega (
        arith,
        fits,
        length-select_le (is_readable max_line_size) (lines ending 0 0 [] chunks),
        length-lines_le ending 0 0 [] chunks,
      ) in
      rw (e, h, read_jsonl_from, read_valid_lem valid fn fuel s (pos 0) lr few, json_outcome) refl

  -- With enough fuel, readJSONLFrom hands on to `fn`, in their order, the lines of the file from the
  -- offset on that are neither empty nor longer than maxLineSize and that gjson accepts, however
  -- bufio.Reader cuts them into chunks. The bytes it counts end with the last of these lines, and
  -- are none if there is none. It answers the error that opening, seeking or reading met, and none
  -- at the end of the file.
  pub read_jsonl_from_lem :
      (fuel : ℕ) (path : String) (offset : ℕ) (s : S)
      → json_fuel path offset ≤ fuel
      → read_jsonl_from valid fn open_file seek fuel path offset s
        ≡ some (json_outcome path offset s)
  unfolding read_jsonl_from
  read_jsonl_from_lem fuel path offset s enough = at_open (open_file path) refl
    where
      at_open :
          (o : String ⊎ F)
          → open_file path ≡ o
          → read_jsonl_from valid fn open_file seek fuel path offset s
            ≡ some (json_outcome path offset s)
      at_open (inl x) e = rw (e, read_jsonl_from, json_outcome) refl
      at_open (inr f) e = read_jsonl_from-opened fuel path offset s f e (seek f offset) refl enough
