-- ===== src/Project/Goal.antt =====
-- internal/project/service.go: SyncGoalStart, which brings the work branch up to the default branch
-- before a goal starts.
use doota.Prelude.{Bool, false, not, ◌&&◌, List, ◌++◌, if◌then◌else◌}
use doota.Prelude.Text.{Text, codes, trim_space, is_empty, text_eq}
use doota.Store.Query.{Result, ok, err, refused, wrapped}
use doota.Sandbox.{
  Sandbox, Command, ExecResult, Act, Sh, output, succeeded, exec, run, ◌>>=◌, return, throw,
}
use doota.Config.Values.{itoa}
use doota.Tools.Quote.{shell_quote}
use doota.Tools.Commands.{in_repo, work_branch, branch_command, failed_text}
use doota.Project.Rows.{ProjectRow, ProjectTable}
use doota.Project.Service.{Provider, ready_sandbox}

abbrev pub status_command : Command
status_command = in_repo (codes "git status --porcelain")

abbrev pub fetch_command : Text → Command
fetch_command default = in_repo (
    codes "git fetch origin "
    ++ shell_quote (codes "refs/heads/" ++ default ++ codes ":refs/remotes/origin/" ++ default))

abbrev pub rebase_command : Text → Command
rebase_command default = in_repo (codes "git rebase origin/" ++ shell_quote default)

abbrev pub abort_command : Command
abort_command = in_repo (codes "git rebase --abort")

abbrev pub exits_well : Result ExecResult → Bool
exits_well (err e) = false
exits_well (ok r) = succeeded r.exit_code

module _ (sb : Sandbox) (default : Text) where
  abbrev conflict_text : Bool → ExecResult → Text
  conflict_text aborted r =
      codes "rebase onto origin/"
      ++ default
      ++ (if aborted
          then codes " conflicted and was aborted; resolve the branch manually, then resume: "
          else codes " failed and could not be aborted safely: ")
      ++ trim_space (output r)

  -- What is done about the rebase: one that fails is aborted.
  unfoldable pub settle_rebase : ExecResult → Sh (Unit {0})
  unfolding exec output
  settle_rebase r = if succeeded r.exit_code then return tt else λ acts.
      let (aborted, acts') = exec sb abort_command acts in
      (err (refused (conflict_text (exits_well aborted) r)), acts')

  unfoldable pub rebase_default : Sh (Unit {0})
  unfolding run settle_rebase
  rebase_default = do r ← run sb (codes "rebase doot") (rebase_command default); settle_rebase r

  -- Each step goes on by the answer to the command before it.
  unfoldable pub after_fetch : ExecResult → Sh (Unit {0})
  unfolding rebase_default failed_text
  after_fetch r =
      if succeeded r.exit_code
      then rebase_default
      else throw (refused (failed_text (codes "fetch default branch") r))

  unfoldable pub fetch_default : Sh (Unit {0})
  unfolding run after_fetch
  fetch_default = do
    r ← run sb (codes "fetch default branch") (fetch_command default)
    after_fetch r

  unfoldable pub after_branch : ExecResult → Sh (Unit {0})
  unfolding fetch_default text_eq
  after_branch r =
      if succeeded r.exit_code && text_eq (trim_space r.stdout) work_branch
      then fetch_default
      else throw (refused (codes "cannot start a goal: HEAD must be on \"doot\""))

  unfoldable pub check_branch : Sh (Unit {0})
  unfolding run after_branch
  check_branch = do r ← run sb (codes "read work branch") branch_command; after_branch r

  unfoldable pub after_status : ExecResult → Sh (Unit {0})
  unfolding check_branch output is_empty itoa
  after_status r =
      if not (succeeded r.exit_code)
      then throw (
          refused (
            codes "inspect worktree: git exited "
            ++ itoa r.exit_code
            ++ codes ": "
            ++ trim_space (output r)))
      else if is_empty (trim_space (output r))
      then check_branch
      else throw (
          refused (
            codes "cannot start a goal with uncommitted changes on doot; commit or clean the "
            ++ codes "worktree first"))

  -- `SyncGoalStart`, once the sandbox is ready.
  unfoldable pub sync_in_sandbox : Sh (Unit {0})
  unfolding run after_status
  sync_in_sandbox = do r ← run sb (codes "inspect worktree") status_command; after_status r

-- `SyncGoalStart`, where `sb` is the sandbox of the provider.
unfoldable pub sync_goal_start :
    Provider
    → Sandbox
    → ProjectRow × ProjectTable
    → List Act
    → (Result (Unit {0}) × List Act) × (ProjectRow × ProjectTable)
unfolding ready_sandbox sync_in_sandbox
sync_goal_start v sb (p, t) acts =
    let (r, pt) = ready_sandbox v (p, t) in
    elim r [
      | err e ↦ ((err (wrapped (codes "open sandbox for goal start") e), acts), pt)
      | ok _ ↦ (sync_in_sandbox sb p.default_branch acts, pt)
    ]
