-- ===== src/Tools/Git.antt =====
-- internal/tools/git.go: git_diff, git_commit and git_push on a sandbox. The arguments are decoded
-- already.
use doota.Prelude.{ℕ, Bool, not, List, [], ◌++◌, Option, none, some, if◌then◌else◌}
use doota.Prelude.Text.{Text, codes, is_empty, trim_space, drop_right, text_eq}
use doota.Store.Query.{ok, err, error_message}
use doota.Sandbox.{Sandbox, Sh, output, succeeded, exec, run, write, ◌>>=◌, return}
use doota.Tools.Result.{ToolResult, fail, success, commit_display, push_display}
use doota.Tools.Quote.{shell_quote}
use doota.Tools.Commands.{
  branch_command, branch_of, commit_message_path, diff_range, diff_result, failed_text, git_ref,
  head_command, in_repo, is_break, lift, off_branch_text, push_command, push_hint, show_command,
  stage_command, staged_command, work_branch,
}

module _ (byte_count : ℕ → Text) (sb : Sandbox) where
  -- `gitDiffTool.Execute`, with the plan's base commit.
  unfoldable pub git_diff : Text → Text → Text → Bool → Sh ToolResult
  unfolding git_ref diff_range diff_result is_empty run
  git_diff base from_arg to_arg stat = elim (git_ref from_arg) [
    | some m ↦ return (fail m)
    | none ↦ elim (git_ref to_arg) [
      | some m ↦ return (fail m)
      | none ↦ do
        let given = trim_space from_arg
        let from = if is_empty given then base else given
        let (range, scope) = diff_range from (trim_space to_arg)
        let option = if stat then codes " --stat" else []
        r ← run sb (codes "git diff") (in_repo (codes "git --no-pager diff" ++ option ++ range))
        return (diff_result byte_count scope stat r)
    ]
  ]

module _ (sb : Sandbox) where
  -- `currentBranch`.
  unfoldable pub current_branch : Sh Text
  unfolding run branch_of
  current_branch = do r ← run sb (codes "read current branch") branch_command; lift (branch_of r)

  -- `requireWorkBranch`: `none` where the tool may run.
  unfoldable pub require_work_branch : Sh (Option ToolResult)
  unfolding current_branch text_eq off_branch_text
  require_work_branch = do
    branch ← current_branch
    return (if text_eq branch work_branch then none else some (fail (off_branch_text branch)))

  -- `revParse` of HEAD, where the callers drop an error.
  unfoldable pub head_sha : Sh Text
  unfolding exec
  head_sha acts =
      let (r, acts') = exec sb head_command acts in
      (
        ok (elim r [
          | err e ↦ []
          | ok x ↦ if succeeded x.exit_code then trim_space x.stdout else []
        ]),
        acts',
      )

  -- From the staged changes on.
  unfoldable pub commit_staged : Text → Sh ToolResult
  unfolding run write head_sha failed_text output
  commit_staged message = do
    staged ← run sb (codes "check staged changes") staged_command
    if succeeded staged.exit_code
        then return (
            fail (
              codes
                "nothing to commit: there are no staged changes. Check `git status` with bash."))
        else do
          done ← write sb (codes "write commit message") commit_message_path (message ++ codes "\n")
          committed ←
              run sb (codes "git commit")
                (in_repo (codes "git commit -F " ++ shell_quote (sb.path commit_message_path)))
          if not (succeeded committed.exit_code)
              then return (fail (failed_text (codes "commit") committed))
              else do
                shown ← run sb (codes "describe commit") show_command
                sha ← head_sha
                let stat = drop_right is_break (output shown)
                return (
                    success (codes "Committed to doot.\n\n" ++ stat)
                      (commit_display sha message stat))

  -- From the staging on, once HEAD is known to be on the branch.
  unfoldable pub stage_and_commit : Text → List Text → Sh ToolResult
  unfolding stage_command commit_staged run failed_text
  stage_and_commit message paths = elim (stage_command paths) [
    | err e ↦ return (fail (error_message e))
    | ok stage ↦ do
      r ← run sb (codes "git add") (in_repo stage)
      if succeeded r.exit_code
          then commit_staged message
          else return (fail (failed_text (codes "staging") r))
  ]

  -- `gitCommitTool.Execute`.
  unfoldable pub git_commit : Text → List Text → Sh ToolResult
  unfolding require_work_branch is_empty
  git_commit message_arg paths =
      let message = trim_space message_arg in
      if is_empty message then return (fail (codes "message is required.")) else do
        off ← require_work_branch
        elim off [ some refusal ↦ return refusal | none ↦ stage_and_commit message paths ]

  -- The push itself, and what is said of it.
  unfoldable pub push_branch : Bool → Sh ToolResult
  unfolding run head_sha push_hint failed_text output is_empty
  push_branch forced = do
    r ← run sb (codes "git push") (push_command forced)
    let out = trim_space (output r)
    if not (succeeded r.exit_code)
        then return (fail (failed_text (codes "push") r ++ push_hint out))
        else do
          sha ← head_sha
          let shown = if is_empty out then codes "Everything up to date." else out
          return (
              success (codes "Pushed doot to origin at " ++ sha ++ codes ".\n\n" ++ shown)
                (push_display sha forced))

  -- `gitPushTool.Execute`.
  unfoldable pub git_push : Bool → Sh ToolResult
  unfolding require_work_branch
  git_push forced = do
    off ← require_work_branch
    elim off [ some refusal ↦ return refusal | none ↦ push_branch forced ]
