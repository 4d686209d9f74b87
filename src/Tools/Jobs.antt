-- ===== src/Tools/Jobs.antt =====
-- internal/tools/shell.go: the two tools themselves.
use doota.Prelude.{
  ℕ, Bool, true, false, not, ◌&&◌, List, ◌++◌, none, some, map, where_rows, if◌then◌else◌, ◌==◌,
}
use doota.Prelude.Text.{Text, codes, trim_space, is_empty, text_eq, join}
use doota.Store.Query.{ok, err, canceled, error_message}
use doota.Sandbox.{Sandbox}
use doota.Project.Background.{BackgroundProcess, ProcessTable, is_bg_running}
use doota.Tools.Result.{
  ToolResult, fail, success, no_display, started_display, exited_display, unsignalled_display,
}
use doota.Tools.Truncate.{clip_middle}
use doota.Tools.Paths.{work_dir, is_process_name, log_path, rel_to_repo}
use doota.Tools.Shell.{
  Bg, ◌>>=◌, return, throw, find_running, mark_stopped, try_mark_stopped, insert_started,
  kill_process_group, process_alive, tail_file, launch_detached, name_rule,
}

abbrev quoted : Text → Text
quoted t = codes "\"" ++ t ++ codes "\""

abbrev name_of : BackgroundProcess → Text
name_of b = b.name

-- `RunningBackgroundNames`, before the database orders them.
unfoldable pub running_names : ℕ → ProcessTable → List Text
unfolding is_bg_running
running_names pid t =
    map name_of
      (where_rows (λ (b : BackgroundProcess). b.project == pid && is_bg_running b.status) t.rows)

module _ (sort_names : List Text → List Text) (sb : Sandbox) where
  unfoldable pub not_running : ℕ → Text → Bg ToolResult
  unfolding running_names is_empty join
  not_running pid name s =
      let names = running_names pid s.table in
      (
        ok (
            fail (
              if is_empty names
              then codes "nothing named "
                ++ quoted name
                ++ codes " is running, and no background processes are."
              else codes "nothing named "
                ++ quoted name
                ++ codes " is running. Running: "
                ++ join (codes ", ") (sort_names names)
                ++ codes ".")),
        s,
      )

  unfoldable pub stop_outcome : Text → Text → ToolResult
  unfolding text_eq
  stop_outcome name outcome =
      if text_eq outcome (codes "no-pidfile")
      then record {
        content =
            quoted name
            ++ codes " had no pid file, so it could not be signalled — its sandbox may have been "
            ++ codes "restored or recreated since it started. The process record is now marked "
            ++ codes "stopped.";
        display = unsignalled_display name;
        is_error = true;
      }
      else if text_eq outcome (codes "killed")
      then success
          (codes "Stopped "
            ++ quoted name
            ++ codes ". It ignored SIGTERM, so it was killed with SIGKILL.")
          no_display
      else if text_eq outcome (codes "already-gone")
      then success (quoted name ++ codes " had already exited. Its record is now marked stopped.")
          no_display
      else success (codes "Stopped " ++ quoted name ++ codes " with SIGTERM.") no_display

  unfoldable pub stop_running : Text → BackgroundProcess → Bg ToolResult
  unfolding kill_process_group mark_stopped stop_outcome
  stop_running name b = do
    outcome ← kill_process_group sb name
    done ← mark_stopped b.id
    return (stop_outcome name outcome)

  -- `stopBgTool.Execute`.
  unfoldable pub stop_bg : ℕ → Text → Bg ToolResult
  unfolding find_running not_running stop_running is_empty trim_space
  stop_bg pid name_arg =
      let name = trim_space name_arg in
      if is_empty name then return (fail (codes "name is required.")) else do
        running ← find_running pid name
        elim running [ none ↦ not_running pid name | some b ↦ stop_running name b ]

module _ (sb : Sandbox) (stops : Bool) where
  -- What becomes of a process of that name, and whether there was one.
  unfoldable pub replace_running : ℕ → Text → Bg Bool
  unfolding find_running kill_process_group try_mark_stopped
  replace_running pid name = do
    running ← find_running pid name
    elim running [
      | none ↦ return false
      | some b ↦ do outcome ← kill_process_group sb name; done ← try_mark_stopped b.id; return true
    ]

  -- The wait for the process to settle, which a cancelled run cuts short.
  unfoldable pub settle : Bg (Unit {0})
  settle = if stops then throw canceled else return tt

  -- Once the process has been launched and stored.
  unfoldable pub report_started :
      Text → Text → Text → Text → Bool → BackgroundProcess → Bg ToolResult
  unfolding process_alive try_mark_stopped tail_file is_empty log_path rel_to_repo
  report_started name command dir pid_text replaced b = do
    waited ← settle
    alive ← process_alive sb pid_text
    if alive
        then return (
            success
              ((if replaced then codes "Replaced and started " else codes "Started ")
                ++ quoted name
                ++ codes " (pid "
                ++ pid_text
                ++ codes "), logging to "
                ++ log_path name
                ++ codes ". Read it with read_logs.")
              (started_display name pid_text (log_path name) (rel_to_repo dir) command))
        else do
          marked ← try_mark_stopped b.id
          tail ← tail_file sb (log_path name) 40
          return (record {
            content =
                quoted name
                ++ codes " exited immediately. Its log:\n\n"
                ++ (if is_empty tail then codes "(the log is empty)" else tail);
            display = exited_display name (log_path name);
            is_error = true;
          })

  unfoldable pub start_named : ℕ → Text → Text → Text → Bg ToolResult
  unfolding replace_running launch_detached insert_started report_started is_empty clip_middle
  start_named pid name command dir = do
    replaced ← replace_running pid name
    launched ← launch_detached sb name command dir
    let (pid_text, printed) = launched
    if is_empty pid_text
        then return (
            fail (
              codes "could not start "
              ++ quoted name
              ++ codes ": the process never reported a pid. Output was: "
              ++ clip_middle printed 2048))
        else do
          b ← insert_started pid name command dir (log_path name)
          report_started name command dir pid_text replaced b

  -- `bashBgTool.Execute`.
  unfoldable pub bash_bg : ℕ → Text → Text → Text → Bg ToolResult
  unfolding start_named is_process_name work_dir is_empty trim_space
  bash_bg pid name_arg command cwd =
      let name = trim_space name_arg in
      if not (is_process_name name)
      then return (fail name_rule)
      else if is_empty (trim_space command)
      then return (fail (codes "command is required."))
      else elim (work_dir cwd) [
        | err e ↦ return (fail (error_message e))
        | ok dir ↦ start_named pid name command dir
      ]
