-- ===== src/ClaudeSession/Tests.antt =====
-- Sessions of small files, with numbers for instants.
use ca_session_source.Base.{none, numbers}
use ca_session_source.Base.{
  ℕ, ◌+◌, ◌≡◌, ◌⊎◌, refl, false, List, [], ◌∷◌, map, some, arith, ◌==◌, string_equality,
  list_equality, nat_equality, ltb, length,
}
use ca_session_source.GoText.{Text, codes}
use ca_session_source.ClaudeDag.Tests.{
  tree, chain, tree-ParentsFirst, chain_no_fork, chain-IsNamed, chain-IsDistinct,
}
use ca_session_source.ClaudeSession.Branches.{AreBranches, parse_dag-some}
use ca_session_source.ClaudeSession.Linear.{parse_dag-parse_linear}
use ca_session_source.ClaudeSession.Queued.Merge.{
  Interleaves, unnumbered, merge_queued_commands_lem,
}
use ca_session_source.ClaudeSession.Queued.Order.{
  IsAsymmetric, Chronological, instants, merge_queued_commands-Chronological,
}
use ca_session_source.ClaudeSession.Queued.{queued_command_message, merge_queued_commands}
use ca_session_source.ClaudeMessages.{ClaudeMessage, Calls}
use ca_session_source.ClaudeSession.{QueuedCommand, ParseResult, parse_linear, parse_dag}

abbrev message : Text → ℕ → ClaudeMessage ℕ
message content timestamp = record {
  ordinal = 0;
  role = codes "user";
  content = content;
  timestamp = timestamp;
  is_system = false;
  content_length = length content;
  tool_calls = [];
  tool_results = [];
  source_type = codes "user";
  source_subtype = [];
  source_uuid = [];
  stop_reason = [];
}

abbrev pub number_calls : Calls ℕ
number_calls = record {
  zero_time = 0;
  is_zero = λ t. t == 0;
  before = ltb;
  str = λ line path. [];
  bool = λ line path. false;
  text_content = λ line. record { text = line; tool_calls = []; tool_results = [] };
  compact_summary = λ line. line;
  command_text = λ text. none;
  is_command_envelope = λ text. false;
  system_subtype = λ text. [];
  is_system_message = λ text. false;
  annotate = λ messages. messages;
  is_skippable = λ content. false;
  preview = λ content. content;
}

parse_dag-some_example :
    (results : List (ParseResult ℕ)) × (parse_dag number_calls (codes "s") [] 3 8 512 9 tree
      ≡ some results)
    × ((results ≡ parse_linear number_calls (codes "s") [] 3 8 tree)
        ⊎ AreBranches number_calls (codes "s") [] 3 8 tree results)
parse_dag-some_example =
    parse_dag-some number_calls (codes "s") [] 3 8 tree tree-ParentsFirst 512 9 (omega arith)
      (omega arith)

parse_dag-parse_linear_example :
    parse_dag number_calls (codes "s") [] 3 8 0 3 chain
    ≡ some (parse_linear number_calls (codes "s") [] 3 8 chain)
parse_dag-parse_linear_example =
    parse_dag-parse_linear number_calls (codes "s") [] 3 8 _ _ chain-IsNamed chain-IsDistinct refl
      chain_no_fork 0 3 (omega arith)

abbrev messages : List (ClaudeMessage ℕ)
messages = message (codes "a") 3 ∷ message (codes "b") 6 ∷ []

abbrev queued : List (QueuedCommand ℕ)
queued =
    record { prompt = codes "q"; timestamp = 4 } ∷ record { prompt = codes "r"; timestamp = 6 } ∷ []

merge_queued_commands_lem_example :
    Interleaves
      (map unnumbered messages)
      (map unnumbered (map queued_command_message queued))
      (map unnumbered (merge_queued_commands number_calls messages queued 10))
    × (map (λ m. m.ordinal) (merge_queued_commands number_calls messages queued 10)
        ≡ numbers 10 (length messages + length queued))
merge_queued_commands_lem_example = merge_queued_commands_lem number_calls messages queued 10

ltb_asym : IsAsymmetric number_calls
ltb_asym a b h = ground arith

merge_queued_commands-Chronological_example :
    Chronological number_calls 2
      (instants number_calls (merge_queued_commands number_calls messages queued 10))
merge_queued_commands-Chronological_example =
    merge_queued_commands-Chronological number_calls ltb_asym 2 messages queued 10
      (refl, refl, (refl, refl, tt)) (refl, refl, (refl, refl, tt))
