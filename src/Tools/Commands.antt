-- ===== src/Tools/Commands.antt =====
-- internal/tools/git.go: the commands of the git tools, and what they say. A `%q` is written for a
-- text that it prints as it is.
use doota.Prelude.{
  ℕ, Bool, not, ◌||◌, List, [], ◌∷◌, ◌++◌, Option, none, some, ◌==◌, if◌then◌else◌, exists_row,
}
use doota.Prelude.Text.{
  Text, codes, is_empty, trim_space, drop_right, has_prefix, contains_part, text_eq, join,
}
use doota.Store.Query.{Result, ok, err, refused}
use doota.Config.Values.{itoa}
use doota.Sandbox.{Command, ExecResult, Sh, output, succeeded}
use doota.Tools.Result.{ToolResult, fail, success, no_display, diff_display}
use doota.Tools.Paths.{repo_path, rel_to_repo, repo_dir}
use doota.Tools.Quote.{shell_quote}
use doota.Tools.Truncate.{clip, notice}
use doota.Tools.Diff.{max_diff_bytes}

abbrev pub work_branch : Text
work_branch = codes "doot"

abbrev pub in_repo : Text → Command
in_repo cmd = record { cmd = cmd; dir = repo_dir }

-- `gitRef`: the message, where the revision is refused.
unfoldable pub git_ref : Text → Option Text
unfolding is_empty has_prefix exists_row
git_ref raw =
    let ref = trim_space raw in
    let message = codes "\"" ++ ref ++ codes "\" is not a valid revision" in
    if is_empty ref
    then none
    else if has_prefix ref (codes "-")
    then some message
    else if exists_row (λ c. c == b' ' || c == b'\t' || c == b'\n') ref
    then some message
    else none

-- The part of git_diff's command after its options, and what the diff is of.
unfoldable pub diff_range : Text → Text → Text × Text
unfolding is_empty shell_quote
diff_range from to =
    if is_empty to
    then if is_empty from
      then (codes " HEAD", codes "uncommitted changes against HEAD")
      else (codes " " ++ shell_quote from ++ codes " HEAD", from ++ codes "..HEAD")
    else if is_empty from
    then (codes " " ++ shell_quote to, codes "working tree against " ++ to)
    else (codes " " ++ shell_quote from ++ codes " " ++ shell_quote to, from ++ codes ".." ++ to)

unfoldable pub diff_notice : Text → Text
unfolding notice
diff_notice size = notice (
    codes "diff is larger than "
    ++ size
    ++ codes "; call git_diff with stat true for the shape of it, then diff individual revisions")

unfoldable pub failed_text : Text → ExecResult → Text
unfolding itoa output
failed_text what r =
    what ++ codes " failed (exit " ++ itoa r.exit_code ++ codes "): " ++ trim_space (output r)

abbrev pub is_break : ℕ → Bool
is_break c = c == b'\n'

unfoldable pub diff_result : (ℕ → Text) → Text → Bool → ExecResult → ToolResult
unfolding is_empty output clip diff_notice failed_text
diff_result byte_count scope stat r =
    if not (succeeded r.exit_code)
    then fail (failed_text (codes "git diff") r)
    else let body = drop_right is_break (output r) in
      if is_empty body
      then success (codes "No changes in " ++ scope ++ codes ".") no_display
      else let (capped, cut) = clip body max_diff_bytes in
        let shown = if cut then capped ++ diff_notice (byte_count max_diff_bytes) else body in
        success (codes "diff of " ++ scope ++ codes "\n\n" ++ shown)
          (diff_display scope shown stat cut)

unfoldable pub quote_paths : List Text → Result (List Text)
unfolding repo_path rel_to_repo
quote_paths [] = ok []
quote_paths (p ∷ ps) = elim (repo_path p) [
  | err e ↦ err e
  | ok abs ↦ elim (quote_paths ps) [
    | err e ↦ err e
    | ok quoted ↦ ok (shell_quote (rel_to_repo abs) ∷ quoted)
  ]
]

-- The command that stages: all changes, or the paths that are named.
unfoldable pub stage_command : List Text → Result Text
unfolding quote_paths join
stage_command [] = ok (codes "git add -A")
stage_command (p ∷ ps) = elim (quote_paths (p ∷ ps)) [
  | err e ↦ err e
  | ok quoted ↦ ok (codes "git add -- " ++ join (codes " ") quoted)
]

abbrev pub branch_command : Command
branch_command = in_repo (codes "git rev-parse --abbrev-ref HEAD")

abbrev pub staged_command : Command
staged_command = in_repo (codes "git diff --cached --quiet")

abbrev pub show_command : Command
show_command = in_repo (codes "git --no-pager show --stat --oneline --no-color HEAD | head -n 40")

abbrev pub head_command : Command
head_command = in_repo (codes "git rev-parse --short " ++ shell_quote (codes "HEAD"))

abbrev pub commit_message_path : Text
commit_message_path = codes "/tmp/doot-commit-message"

unfoldable pub off_branch_text : Text → Text
unfolding is_empty
off_branch_text branch =
    let where_at =
      if is_empty branch
      then codes "a detached HEAD"
      else codes "branch \"" ++ branch ++ codes "\"" in
    codes "refusing to run: HEAD is on "
    ++ where_at
    ++ codes ", and this system only ever commits to \"doot\". Run `git checkout doot` with bash "
    ++ codes "first, and work out how HEAD moved before continuing."

unfoldable pub push_hint : Text → Text
unfolding contains_part
push_hint out =
    if contains_part (codes "could not read Username") out
      || contains_part (codes "Authentication failed") out
      || contains_part (codes "Permission denied") out
      || contains_part (codes "403") out
    then codes
        "\n\nThe GitHub token was rejected. It is installed in the sandbox as a credential-store "
      ++ codes "file, so this is a problem with the token itself: it may lack repo scope, have "
      ++ codes "expired, or not grant write access to this repository. Do not retry — report it so "
      ++ codes "the operator can replace the GitHub token on the Settings screen."
    else []

unfoldable pub push_command : Bool → Command
push_command forced = in_repo (
    codes "git push"
    ++ (if forced then codes " --force-with-lease" else [])
    ++ codes " origin doot")

-- The branch in what git printed; empty for a detached HEAD.
unfoldable pub branch_of : ExecResult → Result Text
unfolding text_eq itoa output
branch_of r =
    if not (succeeded r.exit_code)
    then err (
        refused (
          codes "read current branch: git exited "
          ++ itoa r.exit_code
          ++ codes ": "
          ++ trim_space (output r)))
    else let branch = trim_space r.stdout in
      if text_eq branch (codes "HEAD") then ok [] else ok branch

abbrev pub lift : {A : Type 0} → Result A → Sh A
lift r acts = (r, acts)
