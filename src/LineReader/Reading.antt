-- ===== src/LineReader/Reading.antt =====
-- lineReader.next of internal/parser/linereader.go: which lines it returns.
use ca_session_source.Base.{
  ℕ, zero, suc, ◌≤◌, ◌<◌, ◌≡◌, refl, sym, ap, ◌∙◌, inl, inr, true, false, not, List, [], ◌∷◌, ◌++◌,
  Option, none, some, String, arith, ◌==◌, ==_iff, list_beq, list_equality, nat_equality,
  if◌then◌else◌, ltb, leb, length, length-append, Bool-cases,
}
use ca_session_source.Base.Int.{ℤ, sub_ℕ}
use ca_session_source.GoText.{Text}
use ca_session_source.LineReader.{
  Chunk, ReadError, LineReader, is_eof, advance, read_chunks, read_line, update_bytes_read, next,
  note_error,
}
use ca_session_source.LineReader.Lines.{coming, remaining, is_readable}

-- What a step of the reader leaves alone.
pub record Same (ending : ReadError) (max_len : ℕ) (err : Option String) (lr : LineReader)
    : Type 0 where
  pub same_ending : lr.ending ≡ ending
  pub same_max_len : lr.max_len ≡ max_len
  pub same_err : lr.err ≡ err

unchanged : (lr : LineReader) → Same lr.ending lr.max_len lr.err lr
unchanged lr = record { same_ending = refl; same_max_len = refl; same_err = refl }

-- What readLine can do when the lines `todo` are to come, of a reader with `k` answers left.
module _ (ending : ReadError) (max_len : ℕ) (err : Option String) where
  pub data Step (todo : List (Text × ℤ)) (k : ℕ)
      : Text × Option ReadError × LineReader → Type 0 where
    ended :
        (lr : LineReader)
        → Same ending max_len err lr
        → todo ≡ []
        → Step todo k ([], some ending, lr)
    skipped :
        (lr : LineReader)
        → Same ending max_len err lr
        → todo ≡ remaining lr
        → length lr.chunks < k
        → Step todo k ([], none, lr)
    got :
        (l : Text) (lr : LineReader)
        → Same ending max_len err lr
        → 0 < length l
        → todo ≡ (l, lr.bytes_read) ∷ remaining lr
        → length lr.chunks ≤ k
        → Step todo k (l, none, lr)

  weaken :
      {todo : List (Text × ℤ)} {k : ℕ} {r : Text × Option ReadError × LineReader}
      → Step todo k r
      → Step todo (suc k) r
  weaken (ended lr same e) = ended lr same e
  weaken (skipped lr same e less) = skipped lr same e (omega arith)
  weaken (got l lr same full e less) = got l lr same full e (omega arith)

too_long : (max_len : ℕ) (l : Text × ℤ) → max_len < length l.0 → is_readable max_len l ≡ false
too_long max_len l over = ground arith

no_text : (l : Text) → length l ≡ 0 → l ≡ []
no_text [] h = refl
no_text (c ∷ l) h = absurd (omega arith)

-- What is left at the end is not returned when it is empty or oversized.
coming-end :
    (start : Text) (lr : LineReader)
    → ((p : ℤ) → is_readable lr.max_len (start, p) ≡ false)
    → coming start [] lr ≡ []
coming-end start lr out = elim (Bool-cases (is_eof lr.ending)) [
  | inl e ↦ rw (e, out _) refl
  | inr e ↦ rw e refl
]

-- An oversized line is no line to return, however it goes on.
skipping :
    (start : Text) (cs : List Chunk) (lr : LineReader)
    → lr.max_len < length start
    → lr.buf ≡ []
    → Step lr.ending lr.max_len lr.err (coming start cs lr) (length cs) (read_chunks true cs lr)
unfolding read_chunks update_bytes_read
skipping start [] lr over empty =
    rw empty
      (ended _ (unchanged _) (coming-end start lr (λ p. too_long lr.max_len (start, p) over)))
skipping start (c ∷ cs) lr over empty =
    let long : lr.max_len < length (start ++ c.bytes) =
      omega (arith, length-append start c.bytes) in
    elim (Bool-cases c.is_prefix) [
      | inl more ↦
          rw more (weaken _ _ _ (skipping (start ++ c.bytes) cs (advance c cs lr) long empty))
      | inr last ↦
          rw (last, too_long lr.max_len (start ++ c.bytes, sub_ℕ c.n c.buffered) long)
            (skipped _ (unchanged _) refl (omega arith))
    ]

reading :
    (cs : List Chunk) (lr : LineReader)
    → length lr.buf ≤ lr.max_len
    → lr.chunks ≡ cs
    → Step lr.ending lr.max_len lr.err (coming lr.buf cs lr) (length cs) (read_chunks false cs lr)
unfolding read_chunks update_bytes_read
reading [] lr short here = elim (Bool-cases (ltb 0 (length lr.buf))) [
  | inr none_left ↦
      rw none_left (ended lr (unchanged lr) (coming-end lr.buf lr (λ p. rw none_left refl)))
  | inl full ↦ elim (Bool-cases (is_eof lr.ending)) [
    | inl e ↦
        let readable : leb (length lr.buf) lr.max_len ≡ true = ground arith in
        let left : remaining (update_bytes_read lr) ≡ [] = rw (here, e) refl in
        rw (e, full, readable)
          (got lr.buf (update_bytes_read lr) (unchanged _) (ground arith)
            (ap (◌∷◌ (lr.buf, sub_ℕ lr.n lr.buffered)) (sym left)) (rw here (omega arith)))
    | inr e ↦ rw (full, e) (ended lr (unchanged lr) refl)
  ]
]
reading (c ∷ cs) lr short here =
    let whole = lr.buf ++ c.bytes in
    let place = sub_ℕ c.n c.buffered in
    elim (Bool-cases (ltb lr.max_len (length whole))) [
      | inl over ↦ elim (Bool-cases c.is_prefix) [
        | inl more ↦ rw (over, more) (weaken _ _ _ (skipping whole cs _ (ground arith) refl))
        | inr last ↦
            rw (over, last, too_long lr.max_len (whole, place) (ground arith))
              (skipped _ (unchanged _) refl (omega arith))
      ]
      | inr fits ↦ elim (Bool-cases c.is_prefix) [
        | inl more ↦ rw (fits, more) (weaken _ _ _ (reading cs _ (ground arith) refl))
        | inr last ↦ elim (Bool-cases (ltb 0 (length whole))) [
          | inl full ↦
              let readable : leb (length whole) lr.max_len ≡ true = ground arith in
              rw (fits, last, full, readable)
                (got whole _ (unchanged _) (ground arith) refl (omega arith))
          | inr blank ↦
              let e : whole ≡ [] = no_text whole (ground arith) in
              rw (fits, last, blank, e) (skipped _ (unchanged _) refl (omega arith))
        ]
      ]
    ]

read_line-Step :
    (lr : LineReader)
    → Step lr.ending lr.max_len lr.err (remaining lr) (length lr.chunks) (read_line lr)
unfolding read_line
read_line-Step lr = reading lr.chunks (record lr { buf = [] }) (omega arith) refl

-- The error that a reader keeps when its answers end.
abbrev pub final_err : ReadError → Option String → Option String
final_err ReadError.eof err = err
final_err (ReadError.failed e) err = some e

-- What `next` answers on a reader with the lines `todo` to come.
pub data Answer (lr : LineReader) : Option Text × LineReader → Type 0 where
  no_more :
      (lr' : LineReader)
      → remaining lr ≡ []
      → lr'.err ≡ final_err lr.ending lr.err
      → Answer lr (none, lr')
  a_line :
      (l : Text) (lr' : LineReader)
      → Same lr.ending lr.max_len lr.err lr'
      → remaining lr ≡ (l, lr'.bytes_read) ∷ remaining lr'
      → length lr'.chunks ≤ length lr.chunks
      → Answer lr (some l, lr')

abbrev Answered : ℕ → LineReader → Type 0
Answered fuel lr = (r : Option Text × LineReader) × (next fuel lr ≡ some r) × Answer lr r

-- A skipped line changes nothing of the answer.
Answer-skipped :
    (lr lr' : LineReader)
    → Same lr.ending lr.max_len lr.err lr'
    → remaining lr ≡ remaining lr'
    → length lr'.chunks < length lr.chunks
    → (r : Option Text × LineReader) → Answer lr' r
    → Answer lr r
Answer-skipped lr lr' same e less _ (no_more end left kept) =
    no_more end (e ∙ left) (kept ∙ rw (same.same_ending, same.same_err) refl)
Answer-skipped lr lr' same e less _ (a_line l end again left fewer) =
    a_line l end
      (record {
        same_ending = again.same_ending ∙ same.same_ending;
        same_max_len = again.same_max_len ∙ same.same_max_len;
        same_err = again.same_err ∙ same.same_err;
      })
      (e ∙ left) (omega arith)

abbrev after_line : ℕ → Text × Option ReadError × LineReader → Option (Option Text × LineReader)
after_line fuel step = elim step.1 [
  | some e ↦ some (none, note_error e step.2)
  | none ↦ if not (step.0 == []) then some (some step.0, step.2) else next fuel step.2
]

next-after_line : (fuel : ℕ) (lr : LineReader) → next (suc fuel) lr ≡ after_line fuel (read_line lr)
unfolding next
next-after_line fuel lr = refl

not_empty : (l : Text) → 0 < length l → not (l == []) ≡ true
not_empty l h = ground (arith, ==_iff l [])

next-Step :
    (fuel : ℕ) (lr : LineReader)
    → ((lr' : LineReader) → length lr'.chunks < fuel → Answered fuel lr')
    → length lr.chunks < suc fuel
    → (r : Text × Option ReadError × LineReader) → read_line lr ≡ r
    → Step lr.ending lr.max_len lr.err (remaining lr) (length lr.chunks) r
    → Answered (suc fuel) lr
unfolding note_error list_beq
next-Step fuel lr later enough _ e (ended lr' same left) = (
  (none, note_error lr.ending lr'),
  next-after_line fuel lr ∙ ap (after_line fuel) e,
  no_more (note_error lr.ending lr') left (noted lr.ending same.same_err),
)
  where
    noted :
        (ending : ReadError)
        → lr'.err ≡ lr.err
        → (note_error ending lr').err ≡ final_err ending lr.err
    noted ReadError.eof kept = kept
    noted (ReadError.failed m) kept = refl
next-Step fuel lr later enough _ e (skipped lr' same left less) =
    let (r, found, answer) = later lr' (omega arith) in
    let step = next-after_line fuel lr ∙ ap (after_line fuel) e in
    (r, step ∙ found, Answer-skipped lr lr' same left less r answer)
next-Step fuel lr later enough _ e (got l lr' same full left fewer) =
    let kept : after_line fuel (l, none, lr') ≡ some (some l, lr') = rw (not_empty l full) refl in
    let step = next-after_line fuel lr ∙ ap (after_line fuel) e in
    ((some l, lr'), step ∙ kept, a_line l lr' same left fewer)

pub next-Answer : (fuel : ℕ) (lr : LineReader) → length lr.chunks < fuel → Answered fuel lr
next-Answer zero lr enough = absurd (omega arith)
next-Answer (suc fuel) lr enough =
    next-Step fuel lr (next-Answer fuel) enough (read_line lr) refl (read_line-Step lr)
