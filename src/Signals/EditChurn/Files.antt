-- ===== src/Signals/EditChurn/Files.antt =====
-- countEditChurn of internal/signals/toolhealth.go, by the files and the order of the map.
use ca_session_source.Base.{
  ℕ, ◌≡◌, ◌≢◌, ◌⊎◌, refl, sym, ap, ◌∙◌, Bool, true, false, not, ◌&&◌, List, [], ◌∷◌, ◌++◌, map,
  Option, none, some, arith, ◌==◌, ==_iff, list_equality, nat_equality, Bool-cases, if◌then◌else◌,
  All, is_some, inl, inr, All-imp, append-nil, append_assoc,
}
use ca_session_source.Base.Counting.{count, select, any}
use ca_session_source.GoMap.{Map, get, put, get_or}
use ca_session_source.GoMap.Laws.{
  get-put, put-IsDistinct, IsDistinct, IsDistinct-entries, keys, any-keys,
}
use ca_session_source.GoText.{Text}
use ca_session_source.Signals.ToolFailure.{ToolCallRow}
use ca_session_source.Signals.EditChurn.{
  extract_file_path, has_churn_window, is_edit, collect_ordinals, count_churned, count_edit_churn,
}

-- An Edit or Write call whose input names the file `path`.
pub edits_file : Text → ToolCallRow → Bool
edits_file path c = is_edit c && extract_file_path c.input_json == path

-- The ordinals of the messages that edit the file, in the order of the calls.
abbrev pub edit_ordinals : Text → List ToolCallRow → List ℕ
edit_ordinals path calls = map (λ c. c.message_ordinal) (select (edits_file path) calls)

-- What a map holds after further ordinals were appended under a key.
abbrev appended : Option (List ℕ) → List ℕ → Option (List ℕ)
appended none [] = none
appended none (o ∷ os) = some (o ∷ os)
appended (some ords) os = some (ords ++ os)

appended_twice :
    (old : Option (List ℕ)) (o : ℕ) (os : List ℕ)
    → appended (appended old (o ∷ [])) os ≡ appended old (o ∷ os)
appended_twice none o os = refl
appended_twice (some ords) o os = ap some (append_assoc ords (o ∷ []) os)

appended_none : (old : Option (List ℕ)) → appended old [] ≡ old
appended_none none = refl
appended_none (some ords) = ap some (append-nil ords)

abbrev collect_step : Map Text (List ℕ) → ToolCallRow → Map Text (List ℕ)
collect_step m c =
    let path = extract_file_path c.input_json in
    if not (is_edit c)
    then m
    else if path == []
    then m
    else put path (get_or [] path m ++ c.message_ordinal ∷ []) m

abbrev own_ordinal : Text → ToolCallRow → List ℕ
own_ordinal path c = if edits_file path c then c.message_ordinal ∷ [] else []

get-collect_step :
    (path : Text) (m : Map Text (List ℕ)) (c : ToolCallRow)
    → path ≢ []
    → get path (collect_step m c) ≡ appended (get path m) (own_ordinal path c)
unfolding edits_file get_or
get-collect_step path m c some_path =
    let key = extract_file_path c.input_json in
    ground (
      arith,
      appended_none (get path m),
      get-put key path (get_or [] key m ++ c.message_ordinal ∷ []) m,
      ==_iff key path,
      ==_iff key [],
    )

-- The loop appends, under each path, the ordinals of the calls that edit it.
get-collect_ordinals :
    (path : Text) (m : Map Text (List ℕ)) (calls : List ToolCallRow)
    → path ≢ []
    → get path (collect_ordinals m calls) ≡ appended (get path m) (edit_ordinals path calls)
unfolding collect_ordinals
get-collect_ordinals path m [] some_path = sym (appended_none (get path m))
get-collect_ordinals path m (c ∷ cs) some_path =
    get-collect_ordinals path (collect_step m c) cs some_path
    ∙ ap (λ old. appended old (edit_ordinals path cs)) (get-collect_step path m c some_path)
    ∙ join (edits_file path c) refl
  where
    join :
        (b : Bool)
        → edits_file path c ≡ b
        → appended
            (appended (get path m) (if b then c.message_ordinal ∷ [] else []))
            (edit_ordinals path cs)
          ≡ appended (get path m) (
              map
                (λ d. d.message_ordinal)
                (if b then c ∷ select (edits_file path) cs else select (edits_file path) cs))
    join true e = appended_twice (get path m) c.message_ordinal (edit_ordinals path cs)
    join false e = ap (λ old. appended old (edit_ordinals path cs)) (appended_none (get path m))

collect_ordinals-IsDistinct :
    (m : Map Text (List ℕ)) (calls : List ToolCallRow)
    → IsDistinct m
    → IsDistinct (collect_ordinals m calls)
unfolding collect_ordinals
collect_ordinals-IsDistinct m [] d = d
collect_ordinals-IsDistinct m (c ∷ cs) d =
    let path = extract_file_path c.input_json in
    let put_d = put-IsDistinct path (get_or [] path m ++ c.message_ordinal ∷ []) m d in
    collect_ordinals-IsDistinct (collect_step m c) cs
      (choose m _ (not (is_edit c)) d (choose m _ (path == []) d put_d))
  where
    choose :
        (m₁ m₂ : Map Text (List ℕ)) (b : Bool)
        → IsDistinct m₁
        → IsDistinct m₂
        → IsDistinct (if b then m₁ else m₂)
    choose m₁ m₂ true p q = p
    choose m₁ m₂ false p q = q

get_nil-collect_ordinals :
    (m : Map Text (List ℕ)) (calls : List ToolCallRow)
    → get [] m ≡ none
    → get [] (collect_ordinals m calls) ≡ none
unfolding collect_ordinals
get_nil-collect_ordinals m [] h = h
get_nil-collect_ordinals m (c ∷ cs) h =
    let key = extract_file_path c.input_json in
    get_nil-collect_ordinals (collect_step m c) cs
      (ground (arith, get-put key [] (get_or [] key m ++ c.message_ordinal ∷ []) m))

is_some-appended :
    (path : Text) (calls : List ToolCallRow)
    → is_some (appended none (edit_ordinals path calls)) ≡ any (edits_file path) calls
is_some-appended path [] = refl
is_some-appended path (c ∷ cs) = ground (arith, is_some-appended path cs)

appended_eq_some : (os ords : List ℕ) → appended none os ≡ some ords → ords ≡ os
appended_eq_some [] ords h = cc
appended_eq_some (o ∷ os) ords h = cc

-- The file crowds: three edits in a row lie within ten messages.
abbrev pub is_churned : List ToolCallRow → Text → Bool
is_churned calls path = has_churn_window (edit_ordinals path calls) 3 10

count_churned-keys :
    (calls : List ToolCallRow) (m : Map Text (List ℕ))
    → All (λ e. e.1 ≡ edit_ordinals e.0 calls) m
    → count_churned m ≡ count (is_churned calls) (keys m)
unfolding count_churned
count_churned-keys calls [] a = refl
count_churned-keys calls ((path, ords) ∷ m) a =
    rw a.0 (ground (arith, count_churned-keys calls m a.1))

-- No path stands twice.
abbrev pub NoRepeat : List Text → Type 0
NoRepeat [] = Unit
NoRepeat (p ∷ ps) = (any (λ q. q == p) ps ≡ false) × NoRepeat ps

keys-NoRepeat : (m : Map Text (List ℕ)) → IsDistinct m → NoRepeat (keys m)
keys-NoRepeat [] d = tt
keys-NoRepeat ((p, v) ∷ m) d = (any-keys p m ∙ ap is_some d.0, keys-NoRepeat m d.1)

-- The files that the calls edit, each once, in the order of their first edit.
pub edited_files : List ToolCallRow → List Text
edited_files calls = keys (collect_ordinals [] calls)

pub edited_files-NoRepeat : (calls : List ToolCallRow) → NoRepeat (edited_files calls)
unfolding edited_files
edited_files-NoRepeat calls = keys-NoRepeat _ (collect_ordinals-IsDistinct [] calls tt)

pub any-edited_files :
    (calls : List ToolCallRow) (path : Text)
    → any (λ q. q == path) (edited_files calls)
      ≡ (if path == [] then false else any (edits_file path) calls)
unfolding edited_files get
any-edited_files calls path = elim (Bool-cases (path == [])) [
  | inl empty ↦
      let e : path ≡ [] = (==_iff path []).0 empty in
      rw empty
        (rw e (any-keys {K = Text} [] _ ∙ ap is_some (get_nil-collect_ordinals [] calls refl)))
  | inr other ↦
      let ne : path ≢ [] = λ e. ground (arith, ==_iff path []) in
      rw other (
        any-keys path _
        ∙ ap is_some (get-collect_ordinals path [] calls ne)
        ∙ is_some-appended path calls)
]

-- The entry of each file holds the ordinals of the messages that edit it.
entries-edit_ordinals :
    (calls : List ToolCallRow)
    → All (λ e. e.1 ≡ edit_ordinals e.0 calls) (collect_ordinals [] calls)
unfolding get
entries-edit_ordinals calls =
    let m = collect_ordinals [] calls in
    All-imp (λ e h. entry e h (Bool-cases (e.0 == []))) m
      (IsDistinct-entries m (collect_ordinals-IsDistinct [] calls tt))
  where
    entry :
        (e : Text × List ℕ)
        → get e.0 (collect_ordinals [] calls) ≡ some e.1
        → (e.0 == [] ≡ true) ⊎ (e.0 == [] ≡ false)
        → e.1 ≡ edit_ordinals e.0 calls
    entry (path, ords) h (inl empty) =
        let e : path ≡ [] = (==_iff path []).0 empty in
        let missing = get_nil-collect_ordinals [] calls refl in cc
    entry (path, ords) h (inr other) =
        let ne : path ≢ [] = λ e. ground (arith, ==_iff path []) in
        appended_eq_some (edit_ordinals path calls) ords
          (sym (get-collect_ordinals path [] calls ne) ∙ h)

-- countEditChurn counts, among the files that the calls edit, each counted once, those with three
-- edits in a row within ten messages. These files are the paths, other than the empty one, that
-- some Edit or Write call names.
pub count_edit_churn-files :
    (calls : List ToolCallRow)
    → (count_edit_churn calls ≡ count (is_churned calls) (edited_files calls))
      × NoRepeat (edited_files calls)
      × ((path : Text)
          → any (λ q. q == path) (edited_files calls)
            ≡ (if path == [] then false else any (edits_file path) calls))
unfolding count_edit_churn edited_files
count_edit_churn-files calls = (
  count_churned-keys calls (collect_ordinals [] calls) (entries-edit_ordinals calls),
  edited_files-NoRepeat calls,
  any-edited_files calls,
)
