-- ===== src/Signals/EditChurn.antt =====
-- internal/signals/toolhealth.go: edit churn, files edited three times within ten messages.
pub mod Windows
pub mod Paths
pub mod Files
use ca_session_source.Base.{
  ℕ, zero, suc, ◌+◌, ◌-◌, String, Bool, true, false, not, ◌&&◌, ◌||◌, List, [], ◌∷◌, ◌++◌, Option,
  none, some, ◌==◌, nat_equality, string_equality, list_equality, ltb, leb, if◌then◌else◌, length,
  take, drop,
}
use ca_session_source.GoMap.{Map, put, get_or}
use ca_session_source.GoText.{Text, codes, index}
use ca_session_source.Signals.ToolFailure.{ToolCallRow}

abbrev file_path_marker : Text
file_path_marker = codes "\"file_path\":\""

-- What stands before the next quote; the empty text where there is none.
pub up_to_quote : Text → Text
up_to_quote rest = elim (index (codes "\"") rest) [ none ↦ [] | some end ↦ take end rest ]

-- extractFilePath; the empty text where it finds none.
pub extract_file_path : Text → Text
extract_file_path input = elim (index file_path_marker input) [
  | none ↦ []
  | some idx ↦ up_to_quote (drop (idx + length file_path_marker) input)
]

-- The inner loop of hasChurnWindow: the least and the greatest ordinal of a window.
pub window_range : ℕ → ℕ → List ℕ → ℕ × ℕ
window_range lo hi [] = (lo, hi)
window_range lo hi (o ∷ os) =
    window_range (if ltb o lo then o else lo) (if ltb hi o then o else hi) os

-- `hi - lo < maxSpan` for the window of `window_size` ordinals that begins at `o`.
pub window_fits : ℕ → ℕ → ℕ → List ℕ → Bool
unfolding window_range
window_fits window_size max_span o os =
    let r = window_range o o (take (window_size - 1) os) in ltb (r.1 - r.0) max_span

-- The outer loop: the first ordinal of the window moves along the list while a whole window is
-- left. hasChurnWindow is called with a window of 3; a window of 0 makes the source panic.
pub has_churn_window : List ℕ → ℕ → ℕ → Bool
unfolding window_fits
has_churn_window [] window_size max_span = false
has_churn_window (o ∷ os) window_size max_span =
    let rest = has_churn_window os window_size max_span in
    if ltb (length (o ∷ os)) window_size
    then false
    else if window_fits window_size max_span o os
    then true
    else rest

pub is_edit : ToolCallRow → Bool
is_edit c = c.category == "Edit" || c.category == "Write"

-- The loop that fills fileOrdinals.
pub collect_ordinals : Map Text (List ℕ) → List ToolCallRow → Map Text (List ℕ)
collect_ordinals m [] = m
collect_ordinals m (c ∷ cs) =
    let path = extract_file_path c.input_json in
    collect_ordinals
      (if not (is_edit c)
        then m
        else if path == []
        then m
        else put path (get_or [] path m ++ c.message_ordinal ∷ []) m)
      cs

-- The loop over fileOrdinals, in the order that the map yields its entries.
pub count_churned : List (Text × List ℕ) → ℕ
count_churned [] = 0
count_churned ((path, ords) ∷ m) =
    let rest = count_churned m in if has_churn_window ords 3 10 then suc rest else rest

pub count_edit_churn : List ToolCallRow → ℕ
unfolding collect_ordinals count_churned
count_edit_churn calls = count_churned (collect_ordinals [] calls)
