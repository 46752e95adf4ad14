-- ===== src/Signals/EditChurn/Paths.antt =====
-- extractFilePath of internal/signals/toolhealth.go: the text between the marker and the next quote.
use ca_session_source.Base.{
  ℕ, ◌+◌, ◌<◌, ◌≡◌, ◌≢◌, ◌↔◌, sym, ap, ◌∙◌, inl, inr, false, [], ◌++◌, some, arith, length, take,
  drop, take-append_left, drop-append_left, drop-add, length-append, length-take_of_le,
  Option-cases,
}
use ca_session_source.GoText.{Text, codes, has_prefix, index}
use ca_session_source.GoText.Laws.{has_prefix-append, index_first, index_at, index_split, index-le}
use ca_session_source.Signals.EditChurn.{file_path_marker, up_to_quote, extract_file_path}

abbrev quote : Text
quote = codes "\""

-- No place before `n` begins an occurrence of `p`.
abbrev NoneBefore : Text → ℕ → Text → Type 0
NoneBefore p n s = (j : ℕ) → j < n → has_prefix p (drop j s) ≡ false

-- The input is some text, the first marker, the path up to the next quote, and the rest.
pub record PathAt (input path : Text) : Type 0 where
  pub before : Text
  pub rest : Text
  pub split : input ≡ before ++ (file_path_marker ++ (path ++ (quote ++ rest)))
  pub first_marker : NoneBefore file_path_marker (length before) input
  pub next_quote : NoneBefore quote (length path) (path ++ (quote ++ rest))

index_prefix :
    (p before rest : Text)
    → NoneBefore p (length before) (before ++ (p ++ rest))
    → index p (before ++ (p ++ rest)) ≡ some (length before)
index_prefix p before rest first =
    index_at p (before ++ (p ++ rest)) (length before)
      (omega (arith, length-append before (p ++ rest)))
      (rw (drop-append_left before (p ++ rest)) (has_prefix-append p rest)) first

up_to_quote-found :
    (path rest : Text)
    → NoneBefore quote (length path) (path ++ (quote ++ rest))
    → up_to_quote (path ++ (quote ++ rest)) ≡ path
unfolding up_to_quote
up_to_quote-found path rest next =
    rw (index_prefix quote path rest next, up_to_quote) (take-append_left path (quote ++ rest))

path_found :
    (before path rest : Text)
    → NoneBefore file_path_marker
        (length before)
        (before ++ (file_path_marker ++ (path ++ (quote ++ rest))))
    → NoneBefore quote (length path) (path ++ (quote ++ rest))
    → extract_file_path (before ++ (file_path_marker ++ (path ++ (quote ++ rest)))) ≡ path
unfolding extract_file_path
path_found before path rest first next =
    let tail = path ++ (quote ++ rest) in
    let input = before ++ (file_path_marker ++ tail) in
    let after : drop (length before + length file_path_marker) input ≡ tail =
      drop-add (length before) (length file_path_marker) input
      ∙ ap (drop (length file_path_marker)) (drop-append_left before (file_path_marker ++ tail))
      ∙ drop-append_left file_path_marker tail in
    rw (index_prefix file_path_marker before tail first, extract_file_path)
      (ap up_to_quote after ∙ up_to_quote-found path rest next)

up_to_quote-eq :
    (text path : Text)
    → path ≢ []
    → up_to_quote text ≡ path
    → (rest : Text) × (text ≡ path ++ (quote ++ rest)) × NoneBefore quote (length path) text
unfolding up_to_quote
up_to_quote-eq text path some_path h = elim (Option-cases (index quote text)) [
  | inl miss ↦ absurd (some_path (sym (rw (miss, up_to_quote) at h)))
  | inr (i, hit) ↦
      let e : take i text ≡ path = rw (hit, up_to_quote) at h in
      let size : i ≡ length path =
        sym (length-take_of_le i text (index-le quote text i hit)) ∙ ap length e in
      (
        drop (i + length quote) text,
        index_split quote text i hit ∙ ap (λ p. p ++ (quote ++ drop (i + length quote) text)) e,
        λ j lt. index_first quote text i j hit (rw size lt),
      )
]

-- extractFilePath answers a path, where that is not empty, exactly when the input consists of some
-- text, the marker `"file_path":"`, the path, a quote and some text, when no marker begins in the
-- text before, and no quote in the path.
pub extract_file_path_iff :
    (input path : Text) → path ≢ [] → (extract_file_path input ≡ path) ↔ PathAt input path
unfolding extract_file_path
extract_file_path_iff input path some_path = (forth, back)
  where
    forth : extract_file_path input ≡ path → PathAt input path
    forth h = elim (Option-cases (index file_path_marker input)) [
      | inl miss ↦ absurd (some_path (sym (rw (miss, extract_file_path) at h)))
      | inr (i, hit) ↦
          let found : up_to_quote (drop (i + length file_path_marker) input) ≡ path =
            rw (hit, extract_file_path) at h in
          let (rest, e, closed) = up_to_quote-eq _ path some_path found in
          let size = length-take_of_le i input (index-le file_path_marker input i hit) in
          record {
            before = take i input;
            rest = rest;
            split =
                index_split file_path_marker input i hit
                ∙ ap (λ t. take i input ++ (file_path_marker ++ t)) e;
            first_marker = λ j lt. index_first file_path_marker input i j hit (rw (← size) lt);
            next_quote = λ j lt. rw (← e) (closed j lt);
          }
    ]

    back : PathAt input path → extract_file_path input ≡ path
    back p = rw p.split (
        path_found p.before path p.rest (λ j lt. rw (← p.split) (p.first_marker j lt)) p.next_quote)
