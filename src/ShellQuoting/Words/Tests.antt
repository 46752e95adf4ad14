-- ===== src/ShellQuoting/Words/Tests.antt =====
-- Small commands, quoted and read.
use ca_session_source.Base.{ℕ, ◌≡◌, ◌≢◌, refl, List, [], ◌∷◌, ◌++◌, none, some, String}
use ca_session_source.GoText.{Text, codes, has_prefix}
use ca_session_source.ShellQuoting.{build_tar_command, build_ssh_args}
use ca_session_source.ShellQuoting.Resume.{shell_quote as resume_quote}
use ca_session_source.ShellQuoting.Words.{shell_words}
use ca_session_source.ShellQuoting.Words.Commands.{
  tar_paths, IsCall, IsTarget, build_tar_command-words, build_ssh_args-words, shell_quote-words,
}

mixed_words : shell_words (codes "a'b c'\\d \"e'f\"") ≡ some (codes "ab cd" ∷ codes "e'f" ∷ [])
unfolding shell_words
mixed_words = refl

open_quote : shell_words (codes "a 'b") ≡ none
unfolding shell_words
open_quote = refl

expansion : shell_words (codes "a $b") ≡ none
unfolding shell_words
expansion = refl

-- Without its quotes, a path with a space would be two words.
abbrev dirs : List (String × List Text)
dirs =
    ("claude", codes "/home/a b/.claude" ∷ codes "/" ∷ [])
    ∷ ("codex", [])
    ∷ ("gemini", codes "o'neil/$x" ∷ [])
    ∷ []

tar_command :
    build_tar_command dirs ≡ codes "tar cf - -C / -- 'home/a b/.claude' '' 'o'\\''neil/$x'"
unfolding build_tar_command has_prefix
tar_command = refl

build_tar_command-words_example :
    shell_words (build_tar_command dirs)
    ≡ some (
        codes "tar" ∷ codes "cf" ∷ codes "-" ∷ codes "-C" ∷ codes "/" ∷ codes "--" ∷ tar_paths dirs)
build_tar_command-words_example = build_tar_command-words dirs

-- The empty text is left without quotes, so that a shell reads no word.
no_word : shell_words (resume_quote []) ≡ some []
unfolding shell_words resume_quote
no_word = refl

plain : resume_quote (codes "a-1_B") ≡ codes "a-1_B"
unfolding resume_quote
plain = refl

dashed : resume_quote (codes "-x'") ≡ codes "'-x'\"'\"''"
unfolding resume_quote
dashed = refl

given : codes "-x'" ≢ []
given e = cc

shell_quote-words_example : shell_words (resume_quote (codes "-x'")) ≡ some (codes "-x'" ∷ [])
shell_quote-words_example = shell_quote-words (codes "-x'") given

abbrev itoa : ℕ → Text
itoa n = codes "22"

build_ssh_args-words_example :
    (call : List Text) × (target : Text) × (remote_cmd : Text) × (build_ssh_args itoa
        (codes "h")
        (codes "u")
        22
        (codes "-v" ∷ [])
        (build_tar_command dirs)
      ≡ call ++ (codes "-v" ∷ []) ++ target ∷ codes "--" ∷ remote_cmd ∷ [])
    × IsCall itoa 22 call
    × IsTarget (codes "h") (codes "u") target
    × (shell_words remote_cmd ≡ some (codes "sh" ∷ codes "-c" ∷ build_tar_command dirs ∷ []))
build_ssh_args-words_example =
    build_ssh_args-words itoa (codes "h") (codes "u") 22 (codes "-v" ∷ []) (build_tar_command dirs)
