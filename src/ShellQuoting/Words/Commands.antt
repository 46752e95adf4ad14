-- ===== src/ShellQuoting/Words/Commands.antt =====
-- The words that a shell reads from the commands of internal/ssh, and from what shellQuote of
-- internal/server/resume.go answers.
use ca_session_source.Base.{
  ◌<◌, ◌⊎◌, inl, inr, list_beq, arith, Bool-cases, ℕ, ◌≡◌, refl, sym, ap, ◌∙◌, ◌≢◌, List, [], ◌∷◌,
  ◌++◌, map, append_assoc, append-nil, some, ◌==◌, list_equality, nat_equality, if◌then◌else◌, ltb,
}
use ca_session_source.GoText.{Text, codes, join}
use ca_session_source.ShellQuoting.{
  trim_prefix, shell_quote, quoted_dirs, quoted_paths, build_tar_command, build_ssh_args,
}
use ca_session_source.ShellQuoting.Resume.{shell_quote as resume_quote}
use ca_session_source.ShellQuoting.Words.{read_from, start, shell_words}
use ca_session_source.ShellQuoting.Words.Reading.{shell_quote-read, resume_quote-read}

-- What tar is to be given: every directory, without the slash that it begins with.
abbrev pub tar_paths {ℓ} : {A : Type ℓ} → List (A × List Text) → List Text
tar_paths [] = []
tar_paths (agent ∷ dirs) = map (trim_prefix (codes "/")) agent.1 ++ tar_paths dirs

quoted_dirs_lem :
    (ds : List Text) → quoted_dirs ds ≡ map shell_quote (map (trim_prefix (codes "/")) ds)
unfolding quoted_dirs
quoted_dirs_lem [] = refl
quoted_dirs_lem (d ∷ ds) = rw (quoted_dirs_lem ds) refl

map-append {ℓ ℓ'} :
    {A : Type ℓ} {B : Type ℓ'} (f : A → B) (xs ys : List A)
    → map f (xs ++ ys) ≡ map f xs ++ map f ys
map-append f [] ys = refl
map-append f (x ∷ xs) ys = ap (λ l. f x ∷ l) (map-append f xs ys)

quoted_paths_lem {ℓ} :
    {A : Type ℓ} (dirs : List (A × List Text))
    → quoted_paths dirs ≡ map shell_quote (tar_paths dirs)
unfolding quoted_paths
quoted_paths_lem [] = refl
quoted_paths_lem (agent ∷ dirs) =
    rw
      (
        map-append shell_quote (map (trim_prefix (codes "/")) agent.1) (tar_paths dirs),
        sym (quoted_dirs_lem agent.1),
        sym (quoted_paths_lem dirs),
      )
      refl

next_read :
    (words : List Text) (p rest : Text)
    → read_from (start words) (shell_quote p ++ (codes " " ++ rest))
      ≡ read_from (start (words ++ p ∷ [])) rest
unfolding read_from
next_read words p rest = shell_quote-read words p (codes " " ++ rest)

join-read :
    (words paths : List Text)
    → read_from (start words) (join (codes " ") (map shell_quote paths)) ≡ some (words ++ paths)
unfolding read_from join
join-read words [] = rw (append-nil words) refl
join-read words (p ∷ []) =
    ap (read_from (start words)) (sym (append-nil (shell_quote p))) ∙ shell_quote-read words p []
join-read words (p ∷ q ∷ ps) =
    next_read words p (join (codes " ") (map shell_quote (q ∷ ps)))
    ∙ join-read (words ++ p ∷ []) (q ∷ ps)
    ∙ rw (append_assoc words (p ∷ []) (q ∷ ps)) refl

-- The remote shell reads from the command of buildTarCommand the options of tar and then, as one
-- word each, the directories of the agents in the order in which the map is visited, each without
-- the slash that it begins with, whatever bytes they are of.
pub build_tar_command-words {ℓ} :
    {A : Type ℓ} (dirs : List (A × List Text))
    → shell_words (build_tar_command dirs)
      ≡ some (
          codes "tar"
          ∷ codes "cf"
          ∷ codes "-"
          ∷ codes "-C"
          ∷ codes "/"
          ∷ codes "--"
          ∷ tar_paths dirs)
unfolding shell_words build_tar_command
build_tar_command-words dirs = rw (quoted_paths_lem dirs) (
    join-read (codes "tar" ∷ codes "cf" ∷ codes "-" ∷ codes "-C" ∷ codes "/" ∷ codes "--" ∷ [])
      (tar_paths dirs))

-- Whom ssh connects to.
abbrev pub IsTarget : Text → Text → Text → Type 0
IsTarget host user target =
    ((user ≡ []) × (target ≡ host)) ⊎ ((user ≢ []) × (target ≡ user ++ codes "@" ++ host))

-- The arguments before those of the caller.
abbrev pub IsCall : (ℕ → Text) → ℕ → List Text → Type 0
IsCall itoa port call =
    ((port ≡ 0) × (call ≡ codes "ssh" ∷ []))
    ⊎ ((0 < port) × (call ≡ codes "ssh" ∷ codes "-p" ∷ itoa port ∷ []))

call_lem :
    (itoa : ℕ → Text) (port : ℕ)
    → IsCall itoa port (codes "ssh" ∷ (if ltb 0 port then codes "-p" ∷ itoa port ∷ [] else []))
call_lem itoa port = elim (Bool-cases (ltb 0 port)) [
  | inl given ↦ inr (ground arith, rw given refl)
  | inr absent ↦ inl (ground arith, rw absent refl)
]

target_lem :
    (host user : Text) → IsTarget host user (if user == [] then host else user ++ codes "@" ++ host)
unfolding list_beq
target_lem host [] = inl (refl, refl)
target_lem host (c ∷ user) = inr (λ e. cc, refl)

-- buildSSHArgs gives ssh, then `-p` and the port where it is positive, the options of the caller,
-- the target, `--` and one command. The target is the host, with the user and `@` before it where
-- the user is not empty. From the command the shell of the remote user reads three words: `sh`,
-- `-c`, and the command to run, whatever bytes it is of.
pub build_ssh_args-words :
    (itoa : ℕ → Text) (host user : Text) (port : ℕ) (ssh_opts : List Text) (cmd : Text)
    → (call : List Text) × (target : Text) × (remote_cmd : Text) × (build_ssh_args itoa host user
          port ssh_opts cmd
        ≡ call ++ ssh_opts ++ target ∷ codes "--" ∷ remote_cmd ∷ [])
      × IsCall itoa port call
      × IsTarget host user target
      × (shell_words remote_cmd ≡ some (codes "sh" ∷ codes "-c" ∷ cmd ∷ []))
unfolding shell_words build_ssh_args
build_ssh_args-words itoa host user port ssh_opts cmd = (
  codes "ssh" ∷ (if ltb 0 port then codes "-p" ∷ itoa port ∷ [] else []),
  (if user == [] then host else user ++ codes "@" ++ host),
  codes "sh -c " ++ shell_quote cmd,
  refl,
  call_lem itoa port,
  target_lem host user,
  ap (λ quoted. shell_words (codes "sh -c " ++ quoted)) (sym (append-nil (shell_quote cmd)))
      ∙ shell_quote-read (codes "sh" ∷ codes "-c" ∷ []) cmd [],
)

-- A shell reads what shellQuote answers as one word, the text itself, where the text is not empty:
-- also a text that begins with a dash, and one with quotes, spaces or bytes that shells expand.
pub shell_quote-words : (s : Text) → s ≢ [] → shell_words (resume_quote s) ≡ some (s ∷ [])
unfolding shell_words
shell_quote-words [] given = absurd (given refl)
shell_quote-words (c ∷ s) given =
    ap (read_from (start [])) (sym (append-nil (resume_quote (c ∷ s))))
    ∙ resume_quote-read [] c s []
