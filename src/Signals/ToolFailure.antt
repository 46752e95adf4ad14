-- ===== src/Signals/ToolFailure.antt =====
-- internal/signals/toolhealth.go: the rows of the tool calls, and which of them are failures.
-- Strings that the code only compares are `String`; those it looks into are `Text`.
use ca_session_source.Base.{
  ℕ, suc, String, Bool, true, false, not, ◌&&◌, ◌||◌, List, [], ◌∷◌, ◌==◌, nat_equality,
  string_equality, list_equality, leb, if◌then◌else◌, length, drop,
}
use ca_session_source.GoText.{Text, codes, has_prefix, contains, split}

pub record ToolCallRow : Type 0 where
  pub tool_name : String
  pub category : String
  pub input_json : Text
  pub result_content : Text
  pub message_ordinal : ℕ
  pub call_index : ℕ
  pub event_status : String

is_digit : ℕ → Bool
is_digit c = leb b'0' c && leb c b'9'

-- `\d` and `[1-9]` at the start of a text.
starts_digit : Text → Bool
unfolding is_digit
starts_digit [] = false
starts_digit (c ∷ s) = is_digit c

starts_nonzero : Text → Bool
starts_nonzero [] = false
starts_nonzero (c ∷ s) = leb b'1' c && leb c b'9'

abbrev goroutine_word : Text
goroutine_word = codes "goroutine "

abbrev exit_status_word : Text
exit_status_word = codes "exit status "

abbrev exit_code_word : Text
exit_code_word = codes "exit code "

-- The regular expression `goroutine \d+`: some place has the word and a digit.
pub go_routine_re : Text → Bool
unfolding starts_digit
go_routine_re [] = false
go_routine_re (c ∷ s) =
    let rest = go_routine_re s in
    if has_prefix goroutine_word (c ∷ s) && starts_digit (drop (length goroutine_word) (c ∷ s))
    then true
    else rest

-- The regular expression `exit (?:status|code) ([1-9]\d*)`.
pub exit_status_re : Text → Bool
unfolding starts_nonzero
exit_status_re [] = false
exit_status_re (c ∷ s) =
    let rest = exit_status_re s in
    if has_prefix exit_status_word (c ∷ s)
      && starts_nonzero (drop (length exit_status_word) (c ∷ s))
    then true
    else if has_prefix exit_code_word (c ∷ s)
        && starts_nonzero (drop (length exit_code_word) (c ∷ s))
    then true
    else rest

-- The loop of hasJSStackTrace over the lines, with `consecutive`.
pub stack_lines : ℕ → List Text → Bool
stack_lines consecutive [] = false
stack_lines consecutive (line ∷ lines) =
    let next = suc consecutive in
    let go_on = stack_lines next lines in
    let reset = stack_lines 0 lines in
    if has_prefix (codes "  at ") line then (if leb 3 next then true else go_on) else reset

pub has_js_stack_trace : Text → Bool
has_js_stack_trace content = stack_lines 0 (split b'\n' content)

abbrev traceback : Text
traceback = codes "Traceback (most recent call last)"

abbrev companions : List Text
companions =
    codes "command not found"
    ∷ codes "No such file"
    ∷ codes "Permission denied"
    ∷ codes "fatal:"
    ∷ codes "panic:"
    ∷ []

pub contains_any : List Text → Text → Bool
contains_any [] content = false
contains_any (c ∷ cs) content = contains c content || contains_any cs content

pub has_error_companion : Text → Bool
has_error_companion content =
    if contains_any companions content
    then true
    else if contains traceback content
    then true
    else if go_routine_re content
    then true
    else has_js_stack_trace content

pub is_bash_failure : Text → Bool
is_bash_failure content =
    if contains (codes "command not found") content
    then true
    else if contains (codes "Permission denied") content
    then true
    else if contains traceback content
    then true
    else if go_routine_re content
    then true
    else if has_js_stack_trace content
    then true
    else if exit_status_re content
    then has_error_companion content
    else false

pub is_content_failure : String → Text → Bool
is_content_failure category content =
    if category == "Bash"
    then is_bash_failure content
    else if category == "Edit" || category == "Write"
    then contains (codes "FAILED") content
    else false

unfoldable pub is_failure : ToolCallRow → Bool
is_failure c =
    if not (c.event_status == "")
    then c.event_status == "errored" || c.event_status == "cancelled"
    else is_content_failure c.category c.result_content
