-- ===== src/ShellQuoting.antt =====
-- The quoting of words for a shell in internal/ssh/transfer.go and internal/ssh/ssh.go, and, in
-- Resume, that of internal/server/resume.go.
pub mod Resume
pub mod Words
use ca_session_source.Base.{
  ℕ, Bool, List, [], ◌∷◌, ◌++◌, map, ◌==◌, nat_equality, list_equality, if◌then◌else◌, ltb, length,
  drop,
}
use ca_session_source.GoText.{Text, codes, has_prefix, join}

-- strings.ReplaceAll of a byte by a text.
pub replace_byte : ℕ → Text → Text → Text
replace_byte d by [] = []
replace_byte d by (c ∷ s) = (if c == d then by else c ∷ []) ++ replace_byte d by s

-- strings.TrimPrefix, the prefix first.
pub trim_prefix : Text → Text → Text
trim_prefix p s = if has_prefix p s then drop (length p) s else s

-- strings.ReplaceAll(s, "'", `'\''`) between two quotes.
pub shell_quote : Text → Text
unfolding replace_byte
shell_quote s = b'\'' ∷ replace_byte b'\'' (codes "'\\''") s ++ codes "'"

pub quoted_dirs : List Text → List Text
unfolding trim_prefix shell_quote
quoted_dirs [] = []
quoted_dirs (d ∷ agent_dirs) = shell_quote (trim_prefix (codes "/") d) ∷ quoted_dirs agent_dirs

-- The agents with their directories, in the order in which the map is visited.
pub quoted_paths {ℓ} : {A : Type ℓ} → List (A × List Text) → List Text
unfolding quoted_dirs
quoted_paths [] = []
quoted_paths (agent ∷ dirs) = quoted_dirs agent.1 ++ quoted_paths dirs

pub build_tar_command {ℓ} : {A : Type ℓ} → List (A × List Text) → Text
unfolding quoted_paths join
build_tar_command dirs = codes "tar cf - -C / -- " ++ join (codes " ") (quoted_paths dirs)

-- `itoa` is strconv.Itoa.
pub build_ssh_args : (ℕ → Text) → Text → Text → ℕ → List Text → Text → List Text
unfolding shell_quote
build_ssh_args itoa host user port ssh_opts cmd =
    let target = if user == [] then host else user ++ codes "@" ++ host in
    let remote_cmd = codes "sh -c " ++ shell_quote cmd in
    let args = codes "ssh" ∷ (if ltb 0 port then codes "-p" ∷ itoa port ∷ [] else []) in
    args ++ ssh_opts ++ target ∷ codes "--" ∷ remote_cmd ∷ []
