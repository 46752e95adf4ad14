-- ===== src/LineReader/Tests.antt =====
-- internal/parser/linereader.go on a small file: a line in two chunks, an empty line, a line that is
-- no JSON, and a last line without a newline.
use ca_session_source.Base.{
  ℕ, ◌≡◌, refl, ◌⊎◌, inr, Bool, true, false, not, String, List, [], ◌∷◌, ◌++◌, none, some, ◌==◌,
  list_equality, nat_equality, list_beq, arith,
}
use ca_session_source.Base.Int.{pos}
use ca_session_source.GoText.{Text, codes}
use ca_session_source.LineReader.{Chunk, ReadError, eof, failed, read_jsonl_from}
use ca_session_source.LineReader.JsonLines.{json_outcome, read_jsonl_from_lem}

abbrev chunks : List Chunk
chunks =
    record { bytes = codes "{1"; is_prefix = true; n = 17; buffered = 15 }
    ∷ record { bytes = codes "2}"; is_prefix = false; n = 17; buffered = 12 }
    ∷ record { bytes = []; is_prefix = false; n = 17; buffered = 11 }
    ∷ record { bytes = codes "bad"; is_prefix = false; n = 17; buffered = 7 }
    ∷ record { bytes = codes "{3}"; is_prefix = false; n = 17; buffered = 3 }
    ∷ record { bytes = codes "{4}"; is_prefix = false; n = 17; buffered = 0 }
    ∷ []

abbrev valid : Text → Bool
valid line = not (line == codes "bad")

abbrev collect : List Text → Text → List Text
collect found line = found ++ line ∷ []

abbrev open_it : String → String ⊎ String
open_it path = inr path

abbrev seek_it : ReadError → String → ℕ → String ⊎ (List Chunk × ReadError)
seek_it ending path offset = inr (chunks, ending)

read_all :
    read_jsonl_from valid collect open_it (seek_it eof) 8 "s.jsonl" 0 []
    ≡ some (codes "{12}" ∷ codes "{3}" ∷ codes "{4}" ∷ [], pos 17, none)
unfolding read_jsonl_from list_beq
read_all = refl

read_jsonl_from_lem_example :
    read_jsonl_from valid collect open_it (seek_it (failed "disk")) 8 "s.jsonl" 0 []
    ≡ some (json_outcome valid collect open_it (seek_it (failed "disk")) "s.jsonl" 0 [])
read_jsonl_from_lem_example =
    read_jsonl_from_lem valid collect open_it (seek_it (failed "disk")) 8 "s.jsonl" 0 []
      (omega arith)
