-- ===== src/Tools/Paths.antt =====
-- internal/tools/paths.go: the paths that the file tools accept, with what they use of Go's package
-- path on rooted paths. An error's `%q` is written for a path that it prints as it is.
use doota.Prelude.{
  ℕ, suc, Bool, false, not, List, [], ◌∷◌, ◌++◌, reverse, ◌==◌, ◌&&◌, ◌||◌, leb, ltb, if◌then◌else◌,
  exists_row, length, drop,
}
use doota.Prelude.Text.{Text, codes, trim_space, is_empty, text_eq, has_prefix, split_at_char}
use doota.Store.Query.{Result, ok, err, refused}

abbrev pub workspace_path : Text
workspace_path = codes "/workspace"

abbrev pub repo_dir : Text
repo_dir = codes "/workspace/repo"

abbrev pub log_dir : Text
log_dir = codes "/tmp/doot-logs"

-- The names of a rooted path, last first: `path.Clean` drops empty names and ".", and ".." takes
-- the name before it away.
unfoldable pub clean_step : List Text → Text → List Text
unfolding is_empty text_eq
clean_step names s =
    if is_empty s || text_eq s (codes ".")
    then names
    else if text_eq s (codes "..")
    then elim names [ [] ↦ [] | _ ∷ before ↦ before ]
    else s ∷ names

unfoldable pub clean_names : List Text → List Text → List Text
unfolding clean_step
clean_names names [] = names
clean_names names (s ∷ ss) = clean_names (clean_step names s) ss

unfoldable pub path_of : List Text → Text
path_of [] = []
path_of (s ∷ ss) = b'/' ∷ s ++ path_of ss

-- `path.Clean` of a rooted path.
unfoldable pub clean : Text → Text
unfolding clean_names path_of split_at_char
clean p = elim (reverse (clean_names [] (split_at_char b'/' p))) [
  | [] ↦ codes "/"
  | s ∷ ss ↦ path_of (s ∷ ss)
]

-- The directory itself, or what stands below it.
unfoldable pub is_within : Text → Text → Bool
unfolding text_eq has_prefix
is_within dir abs = text_eq abs dir || has_prefix abs (dir ++ codes "/")

-- `repoPath`.
unfoldable pub repo_path : Text → Result Text
unfolding clean is_within is_empty has_prefix
repo_path raw =
    let p = trim_space raw in
    if is_empty p
    then err (refused (codes "path is required"))
    else if has_prefix p (codes "/")
    then if is_within workspace_path (clean p)
      then ok (clean p)
      else err (
          refused (
            clean p
            ++ codes " is outside the workspace ("
            ++ workspace_path
            ++ codes "); use bash if you genuinely need it"))
    else if is_within repo_dir (clean (repo_dir ++ codes "/" ++ p))
    then ok (clean (repo_dir ++ codes "/" ++ p))
    else err (refused (codes "\"" ++ p ++ codes "\" escapes the repository root"))

-- `relToRepo`.
unfoldable pub rel_to_repo : Text → Text
unfolding text_eq has_prefix
rel_to_repo abs =
    if text_eq abs repo_dir
    then codes "."
    else if has_prefix abs (repo_dir ++ codes "/")
    then drop (suc (length repo_dir)) abs
    else abs

-- `workDir`.
unfoldable pub work_dir : Text → Result Text
unfolding clean is_within is_empty has_prefix
work_dir raw =
    let cwd = trim_space raw in
    if is_empty cwd
    then ok repo_dir
    else if has_prefix cwd (codes "/")
    then ok (clean cwd)
    else if is_within repo_dir (clean (repo_dir ++ codes "/" ++ cwd))
    then ok (clean (repo_dir ++ codes "/" ++ cwd))
    else err (
        refused (
          codes "\""
          ++ cwd
          ++ codes "\" escapes the repository root; pass an absolute path instead"))

unfoldable pub is_alphanumeric : ℕ → Bool
is_alphanumeric c =
    (leb b'A' c && leb c b'Z') || (leb b'a' c && leb c b'z') || (leb b'0' c && leb c b'9')

unfoldable pub is_name_char : ℕ → Bool
unfolding is_alphanumeric
is_name_char c = is_alphanumeric c || c == b'.' || c == b'_' || c == b'-'

-- Whether `processName` matches.
unfoldable pub is_process_name : Text → Bool
unfolding is_alphanumeric is_name_char
is_process_name [] = false
is_process_name (c ∷ cs) =
    is_alphanumeric c && not (exists_row (λ d. not (is_name_char d)) cs) && ltb (length cs) 64

unfoldable pub log_path : Text → Text
log_path name = log_dir ++ codes "/" ++ name ++ codes ".log"

unfoldable pub pid_path : Text → Text
pid_path name = log_dir ++ codes "/" ++ name ++ codes ".pid"
