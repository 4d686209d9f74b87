-- ===== src/Tests/Sandboxes.antt =====
-- The tools and the setup on a sandbox of sample answers, and a review.
use doota.Prelude.{
  ◌≡◌, ◌≤◌, ◌⊎◌, refl, true, false, List, [], ◌∷◌, ◌++◌, Option, none, some, if◌then◌else◌,
  first_row, update_rows,
}
use doota.Prelude.Int.{pos}
use doota.Prelude.Text.{Text, codes, text_eq, trim_space, is_empty, is_space, drop_right}
use doota.Store.Schema.{ready}
use doota.Store.Query.{ok}
use doota.Model.Response.{silent_cause, is_silent}
use doota.Sandbox.{Sandbox, output, Act, ran}
use doota.Tools.Result.{ToolResult, success, no_display, commit_display}
use doota.Tools.Commands.{
  branch_command, staged_command, show_command, head_command, stage_command, in_repo,
}
use doota.Tools.Git.{stage_and_commit, git_commit, git_push}
use doota.Tools.Gitting.{
  IsRefusal, on_branch, exits_zero, commit_command, message_act, git_push-git_commit_off_branch,
  git_commit-done,
}
use doota.Tools.Github.{parse_github_repo, trim_suffix}
use doota.Tools.Remotes.{IsRepoName, ssh_remote, https_remote, parse_github_repo-names}
use doota.Project.Rows.{
  ProjectRow, ProjectTable, new_project, project_by_id, set_sandbox_status, update_project,
  append_setup_log, set_default_branch, set_sandbox, sandbox_name_of,
}
use doota.Project.Steps.{
  Setup, SetupEnv, log_line, update_table, step, run, exec_setup, write_setup,
}
use doota.Project.Provision.{
  run_provision, provision, fetch_project, prepare, ensure_sandbox, run_setup_script, configure_git,
  check_out, clone_repo, checkout_work_branch, record_branch, install_dependencies,
  install_git_credential, create_sandbox,
}
use doota.Project.Setup.{status_of, CheckedOut, run_provision-CheckedOut}
use doota.Sandbox.{state_running}
use doota.Project.Service.{Provider}
use doota.Project.Goal.{status_command, sync_goal_start}
use doota.Project.Synced.{FailsAfter, Synced, sync_goal_start-Synced}
use doota.Agent.Reviewer.{reviewer_max_turns, review_loop, answers}
use doota.Agent.Verdicts.{Responsive, review_loop-ends}
use doota.Tests.Fixtures.{spoken}

-- Each command prints the same and exits with 0, but for the test that nothing is staged.
abbrev printing : Text → Sandbox
printing t = record {
  exec = λ c acts. ok (record {
    stdout = t;
    stderr = [];
    exit_code = if text_eq c.cmd staged_command.cmd then pos 1 else pos 0;
  });
  write_file = λ p content acts. none;
  path = λ p. p;
}

git_push-git_commit_off_branch_example :
    let sb = printing (codes "main\n") in
    IsRefusal (git_commit sb (codes "Fix") [] []).0
    × (((git_commit sb (codes "Fix") [] []).1 ≡ [])
        ⊎ ((git_commit sb (codes "Fix") [] []).1 ≡ ran branch_command ∷ []))
    × IsRefusal (git_push sb true []).0
    × ((git_push sb true []).1 ≡ ran branch_command ∷ [])
unfolding text_eq trim_space
git_push-git_commit_off_branch_example =
    git_push-git_commit_off_branch (printing (codes "main\n")) (codes "Fix") [] true [] refl

abbrev committed : ToolResult
committed =
    success (codes "Committed to doot.\n\ndoot")
      (commit_display (codes "doot") (codes "Fix") (codes "doot"))

git_commit-done_example :
    let sb = printing (codes "doot\n") in
    (stage : Text) × (stage_command [] ≡ ok stage)
    × (on_branch (sb.exec branch_command []) ≡ true)
    × ((git_commit sb (codes " Fix ") [] []).1
        ≡ ran head_command
          ∷ ran show_command
          ∷ ran (commit_command sb)
          ∷ message_act (trim_space (codes " Fix "))
          ∷ ran staged_command
          ∷ ran (in_repo stage)
          ∷ ran branch_command
          ∷ [])
    × (exits_zero (sb.exec (in_repo stage) (ran branch_command ∷ [])) ≡ true)
    × (exits_zero (
          sb.exec (commit_command sb) (
            message_act (trim_space (codes " Fix "))
            ∷ ran staged_command
            ∷ ran (in_repo stage)
            ∷ ran branch_command
            ∷ []))
        ≡ true)
unfolding git_commit trim_space stage_and_commit drop_right
git_commit-done_example =
    git_commit-done (printing (codes "doot\n")) (codes " Fix ") [] [] committed refl refl

abbrev parse : Text → Option (Text × Text)
parse t = some (codes "github.com", codes "/doot/site")

doot_IsRepoName : IsRepoName (codes "doot")
unfolding is_empty is_space
doot_IsRepoName = record {
  full = refl;
  one = (refl, (refl, (refl, (refl, tt))));
  no_space = (refl, (refl, (refl, (refl, tt))));
}

site_IsRepoName : IsRepoName (codes "site")
unfolding is_empty is_space
site_IsRepoName = record {
  full = refl;
  one = (refl, (refl, (refl, (refl, tt))));
  no_space = (refl, (refl, (refl, (refl, tt))));
}

parse_github_repo-names_example :
    (parse_github_repo parse (ssh_remote (codes "doot") (codes "site") ++ codes ".git")
      ≡ ok (codes "doot", codes "site"))
    × (parse_github_repo parse (https_remote (codes "doot") (codes "site") ++ codes ".git")
        ≡ ok (codes "doot", codes "site"))
    × (parse_github_repo parse (ssh_remote (codes "doot") (codes "site"))
        ≡ ok (codes "doot", codes "site"))
    × (parse_github_repo parse (https_remote (codes "doot") (codes "site"))
        ≡ ok (codes "doot", codes "site"))
unfolding trim_suffix text_eq
parse_github_repo-names_example =
    parse_github_repo-names parse (codes "doot") (codes "site") doot_IsRepoName site_IsRepoName refl
      refl

abbrev site : ProjectRow
site =
    new_project (codes "site") (codes "https://github.com/doot/site") (codes "main") 3000
      (record { rows = []; serial = 1 })

abbrev table : ProjectTable
table = record { rows = site ∷ []; serial = 2 }

abbrev setup_env : SetupEnv
setup_env = record {
  script = [];
  author_name = codes "doot";
  author_email = codes "doot@localhost";
  token = codes "secret";
  kind = codes "local";
  gets = λ n. none;
  creates = λ n. none;
  sandbox = printing (codes "trunk\n");
  url = [];
  key_text = λ n. codes "a-b";
}

sets_up :
    status_of 1 (run_provision setup_env 1 (record { table = table; acts = [] })).table ≡ some ready
unfolding run_provision first_row provision fetch_project prepare log_line ensure_sandbox
    run_setup_script trim_space configure_git drop_right text_eq check_out clone_repo
    checkout_work_branch record_branch install_dependencies set_sandbox_status update_rows
    update_table update_project append_setup_log project_by_id set_default_branch set_sandbox
    is_empty install_git_credential create_sandbox sandbox_name_of step run exec_setup write_setup
    output
sets_up = refl

run_provision-CheckedOut_example :
    let s : Setup = record { table = table; acts = [] } in
    (p : ProjectRow) × (before : List Act) × (project_by_id 1 s.table ≡ ok p)
    × CheckedOut setup_env p before (run_provision setup_env 1 s).acts
run_provision-CheckedOut_example =
    run_provision-CheckedOut setup_env 1 (record { table = table; acts = [] }) sets_up

abbrev awake : Provider
awake = record {
  opens = λ name n. ok tt;
  state = λ n. ok state_running;
  wakes = λ n. ok tt;
  stops = λ n. false;
}

-- A clean worktree on the work branch, where every command exits with 0.
abbrev tidy : Sandbox
tidy = record {
  exec = λ c acts. ok (record {
    stdout = if text_eq c.cmd branch_command.cmd then codes "doot\n" else [];
    stderr = [];
    exit_code = pos 0;
  });
  write_file = λ p content acts. none;
  path = λ p. p;
}

abbrev placed : ProjectRow
placed = record site { sandbox_id = some (codes "doot-1"); status = ready }

sync_goal_start-Synced_example :
    let r = (sync_goal_start awake tidy (placed, table) []).0 in
    FailsAfter [] r
    ⊎ Synced tidy (codes "main") (ran status_command ∷ []) (tidy.exec status_command []) r
sync_goal_start-Synced_example = sync_goal_start-Synced awake tidy placed table []

spoken_Responsive : Responsive (λ offered h. ok spoken) (λ c h. ok (success [] no_display)) 1000
unfolding silent_cause is_silent is_empty
spoken_Responsive =
    (λ offered h. (spoken, refl, refl, λ e. refl), λ c h. (success [] no_display, refl))

review_loop-ends_example :
    let (ended, calls) =
      review_loop
        (λ offered h. ok spoken)
        (λ c h. ok (success [] no_display))
        1000
        reviewer_max_turns
        [] in
    (calls ≤ reviewer_max_turns) × ((t : Text) × (ended ≡ answers t))
review_loop-ends_example =
    review_loop-ends (λ offered h. ok spoken) (λ c h. ok (success [] no_display)) 1000 []
      spoken_Responsive
