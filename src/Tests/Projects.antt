-- ===== src/Tests/Projects.antt =====
-- The project, its sandbox and its processes on sample data.
use doota.Prelude.{
  ℕ, ◌≡◌, ◌<◌, ◌⊎◌, ◌==◌, refl, true, false, List, [], ◌∷◌, none, some, arith, count_rows,
  first_row, if◌then◌else◌,
}
use doota.Prelude.Text.{codes, text_eq, is_empty, trim_space}
use doota.Store.Schema.{ready}
use doota.Store.Query.{ok, err, refused, not_found}
use doota.Sandbox.{state_sleeping}
use doota.Project.Rows.{
  ProjectRow, ProjectTable, project_by_id, new_project, project_exists, active_project,
  create_project,
}
use doota.Project.Background.{
  BackgroundProcess, ProcessTable, new_process, is_bg_running, set_background_process_status,
  start_background_process, running_background_process,
}
use doota.Project.Single.{
  ProjectCall, creates, deletes, sets_status, project_run, OneLive, project_run-OneLive,
}
use doota.Project.Names.{OneRunning, start_background_process-running}
use doota.Project.Service.{Provider, refresh_status, retry_sandbox, sandbox_attempts}
use doota.Project.Lifecycle.{Refreshed, refresh_status-Refreshed}
use doota.Sandbox.{Sandbox, ExecResult, ran, output}
use doota.Prelude.Int.{pos}
use doota.Tools.Result.{success, no_display}
use doota.Tools.Shell.{
  Shell, find_running, mark_stopped, kill_process_group, run_in, last_word, take_word,
}
use doota.Tools.Jobs.{stop_bg, stop_running, stop_outcome}
use doota.Tools.Stopping.{kill_command, outcome_of, stop_bg-stopped}
use doota.Project.Attempts.{Fails, Ends, retry_sandbox-Ends}

abbrev no_projects : ProjectTable
no_projects = record { rows = []; serial = 1 }

abbrev calls : List ProjectCall
calls =
    creates (codes "site") (codes "https://github.com/doot/site") (codes "main") 3000
    ∷ creates (codes "other") (codes "https://github.com/doot/other") (codes "main") 3000
    ∷ sets_status 1 ready
    ∷ deletes 1
    ∷ creates (codes "other") (codes "https://github.com/doot/other") (codes "main") 3000
    ∷ []

project_run-OneLive_example :
    let t = project_run calls no_projects in
    let (r, t') = create_project (codes "x") (codes "y") (codes "main") 80 t in
    OneLive t
    × (((p : ProjectRow) × (active_project t ≡ ok p) × (r ≡ err project_exists) × (t' ≡ t))
        ⊎ ((active_project t ≡ err not_found)
            × ((p : ProjectRow) × (r ≡ ok p) × (active_project t' ≡ ok p))))
unfolding count_rows
project_run-OneLive_example =
    project_run-OneLive calls (codes "x") (codes "y") (codes "main") 80 no_projects (omega arith)

abbrev no_processes : ProcessTable
no_processes = record { rows = []; serial = 1; now = 10 }

start_background_process-running_example :
    let (r, t') =
      start_background_process 1
        (codes "dev")
        (codes "npm start")
        []
        (codes "/tmp/doot-logs/dev.log")
        no_processes in
    (b : BackgroundProcess) × (r ≡ ok b)
    × (running_background_process 1 (codes "dev") t' ≡ ok b)
    × (running_background_process 1 (codes "db") t'
        ≡ running_background_process 1 (codes "db") no_processes)
unfolding text_eq
start_background_process-running_example =
    start_background_process-running 1 (codes "dev") (codes "npm start") []
      (codes "/tmp/doot-logs/dev.log") no_processes 1 (codes "db") refl

abbrev running_row : ProjectRow
running_row = record (new_project (codes "site") (codes "u") (codes "main") 3000 no_projects) {
  sandbox_id = some (codes "doot-1");
  status = ready;
}

-- The first attempt to open fails, and the sandbox sleeps.
abbrev sleepy : Provider
sleepy = record {
  opens = λ name n. if n == 0 then err (refused (codes "busy")) else ok tt;
  state = λ n. ok state_sleeping;
  wakes = λ n. ok tt;
  stops = λ n. false;
}

abbrev one_project : ProjectTable
one_project = record no_projects { rows = running_row ∷ [] }

refresh_status-Refreshed_example :
    Refreshed running_row one_project (refresh_status sleepy (running_row, one_project))
    × (project_by_id running_row.id (refresh_status sleepy (running_row, one_project)).1
        ≡ ok (refresh_status sleepy (running_row, one_project)).0)
unfolding project_by_id first_row
refresh_status-Refreshed_example = refresh_status-Refreshed sleepy running_row one_project refl

retry_sandbox-Ends_example :
    (n : ℕ) × (n < sandbox_attempts)
    × ((k : ℕ) → k < n → Fails (sleepy.opens (codes "doot-1")) k)
    × Ends
        (sleepy.opens (codes "doot-1"))
        sleepy.stops
        3
        n
        (retry_sandbox (sleepy.opens (codes "doot-1")) sleepy.stops)
retry_sandbox-Ends_example = retry_sandbox-Ends (sleepy.opens (codes "doot-1")) sleepy.stops

abbrev obedient : Sandbox
obedient = record {
  exec = λ c acts. ok (record { stdout = codes "terminated\n"; stderr = []; exit_code = pos 0 });
  write_file = λ p content acts. none;
  path = λ p. p;
}

abbrev started : Shell
started = record {
  table = record {
    rows =
        new_process 1 (codes "dev") (codes "npm start") [] (codes "/tmp/doot-logs/dev.log")
          no_processes
        ∷ [];
    serial = 2;
    now = 10;
  };
  acts = [];
}

started-OneRunning : OneRunning started.table
unfolding count_rows
started-OneRunning pid name = ground arith

stops_dev :
    (stop_bg (λ names. names) obedient 1 (codes "dev") started).0
    ≡ ok (success (codes "Stopped \"dev\" with SIGTERM.") no_display)
unfolding stop_bg find_running stop_running mark_stopped kill_process_group run_in last_word
    take_word stop_outcome running_background_process set_background_process_status first_row
    text_eq is_empty trim_space output is_bg_running
stops_dev = refl

stop_bg-stopped_example :
    let name = trim_space (codes "dev") in
    let r = success (codes "Stopped \"dev\" with SIGTERM.") no_display in
    let after = (stop_bg (λ names. names) obedient 1 (codes "dev") started).1 in
    ((running_background_process 1 name started.table ≡ err not_found)
      × (r.is_error ≡ true)
      × (after ≡ started))
    ⊎ ((b : BackgroundProcess) × (x : ExecResult) × (running_background_process 1 name started.table
          ≡ ok b)
        × (obedient.exec (kill_command obedient name) started.acts ≡ ok x)
        × (after.acts ≡ ran (kill_command obedient name) ∷ started.acts)
        × (r ≡ stop_outcome (λ names. names) obedient name (outcome_of x))
        × (r.is_error ≡ text_eq (outcome_of x) (codes "no-pidfile"))
        × (running_background_process 1 name after.table ≡ err not_found))
unfolding is_empty trim_space
stop_bg-stopped_example =
    stop_bg-stopped (λ names. names) obedient 1 (codes "dev") started
      (success (codes "Stopped \"dev\" with SIGTERM.") no_display) started-OneRunning refl stops_dev
