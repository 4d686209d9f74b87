-- ===== src/Tools/Shell.antt =====
-- internal/tools/shell.go: bash_bg and stop_bg, on the table of processes and a sandbox. The
-- arguments are decoded already; the order that the database gives to names is a parameter.
use doota.Prelude.{
  ℕ, Bool, not, List, [], ◌∷◌, ◌++◌, Option, none, some, reverse, if◌then◌else◌, ◌==◌,
}
use doota.Prelude.Text.{
  Text, codes, decimal, trim_space, is_empty, is_space, drop_right, contains_part,
}
use doota.Store.Query.{Error, Result, ok, err, refused, wrapped}
use doota.Web.Session.{parse_int}
use doota.Config.Values.{itoa}
use doota.Sandbox.{Sandbox, Command, ExecResult, Act, ran, wrote, output, succeeded}
use doota.Project.Background.{
  ProcessTable, BackgroundProcess, bg_stopped, running_background_process, start_background_process,
  set_background_process_status,
}
use doota.Project.Steps.{anywhere}
use doota.Tools.Quote.{shell_quote}
use doota.Tools.Paths.{log_path, pid_path, log_dir}

-- The table of processes, and all that the sandbox was asked.
pub record Shell : Type 0 where
  pub table : ProcessTable
  pub acts : List Act

abbrev pub Bg : Type 0 → Type 0
Bg A = Shell → Result A × Shell

infixl 5 ◌>>=◌
abbrev pub ◌>>=◌ : {A B : Type 0} → Bg A → (A → Bg B) → Bg B
◌>>=◌ m f s = let (r, s') = m s in elim r [ err e ↦ (err e, s') | ok a ↦ f a s' ]

abbrev pub return : {A : Type 0} → A → Bg A
return a s = (ok a, s)

abbrev pub throw : {A : Type 0} → Error → Bg A
throw e s = (err e, s)

-- The characters up to the first space.
unfoldable pub take_word : Text → Text
unfolding is_space
take_word [] = []
take_word (c ∷ cs) = if is_space c then [] else c ∷ take_word cs

-- The last of `strings.Fields`; empty where there is none.
unfoldable pub last_word : Text → Text
unfolding trim_space take_word
last_word t = reverse (take_word (reverse (trim_space t)))

unfoldable pub launch_script : Text → Text → Text → Text
launch_script log pid cmd =
    codes "\nrm -f "
    ++ log
    ++ codes " "
    ++ pid
    ++ codes "\nlaunch='echo $$ > "
    ++ pid
    ++ codes "; exec sh "
    ++ cmd
    ++ codes "'\nif command -v setsid >/dev/null 2>&1; then\n  setsid sh -c \"$launch\" > "
    ++ log
    ++ codes " 2>&1 < /dev/null &\nelse\n  sh -c \"$launch\" > "
    ++ log
    ++ codes " 2>&1 < /dev/null &\nfi\ni=0\nwhile [ $i -lt 40 ]; do\n  [ -s "
    ++ pid
    ++ codes " ] && break\n  sleep 0.1\n  i=$((i+1))\ndone\ncat "
    ++ pid
    ++ codes " 2>/dev/null\n"

unfoldable pub kill_script : Text → Text
kill_script pid =
    codes "\npid=$(cat "
    ++ pid
    ++ codes " 2>/dev/null)\nif [ -z \"$pid\" ]; then echo no-pidfile; exit 0; fi\n"
    ++ codes "if ! kill -0 \"$pid\" 2>/dev/null; then rm -f "
    ++ pid
    ++ codes "; echo already-gone; exit 0; fi\n"
    ++ codes "kill -TERM -\"$pid\" 2>/dev/null || kill -TERM \"$pid\" 2>/dev/null\n"
    ++ codes "i=0\nwhile [ $i -lt 50 ]; do\n  kill -0 \"$pid\" 2>/dev/null || break\n"
    ++ codes "  sleep 0.1\n  i=$((i+1))\ndone\nif kill -0 \"$pid\" 2>/dev/null; then\n"
    ++ codes "  kill -KILL -\"$pid\" 2>/dev/null || kill -KILL \"$pid\" 2>/dev/null\n"
    ++ codes "  sleep 0.2\n  echo killed\nelse\n  echo terminated\nfi\nrm -f "
    ++ pid
    ++ codes "\n"

abbrev pub name_rule : Text
name_rule =
    codes
      "name must be 1-64 characters of letters, digits, dot, dash, or underscore, starting with "
    ++ codes "a letter or digit"

unfoldable pub find_running : ℕ → Text → Bg (Option BackgroundProcess)
unfolding running_background_process
find_running pid name s =
    (ok (elim (running_background_process pid name s.table) [ err e ↦ none | ok b ↦ some b ]), s)

-- `SetBackgroundProcessStatus` to stopped.
unfoldable pub mark_stopped : ℕ → Bg (Unit {0})
unfolding set_background_process_status
mark_stopped i s =
    let (r, t) = set_background_process_status i bg_stopped s.table in (r, record s { table = t })

-- The same where an error is only logged.
unfoldable pub try_mark_stopped : ℕ → Bg (Unit {0})
unfolding mark_stopped
try_mark_stopped i s = (ok tt, (mark_stopped i s).1)

unfoldable pub insert_started : ℕ → Text → Text → Text → Text → Bg BackgroundProcess
unfolding start_background_process
insert_started pid name command dir log s =
    let (r, t) = start_background_process pid name command dir log s.table in
    (r, record s { table = t })

module _ (sb : Sandbox) where
  unfoldable pub run_in : Text → Command → Bg ExecResult
  run_in prefix c s =
      let s' = record s { acts = ran c ∷ s.acts } in
      elim (sb.exec c s.acts) [ err e ↦ (err (wrapped prefix e), s') | ok r ↦ (ok r, s') ]

  unfoldable pub write_in : Text → Text → Text → Bg (Unit {0})
  write_in prefix p content s =
      let s' = record s { acts = wrote p content ∷ s.acts } in
      elim (sb.write_file p content s.acts) [
        | some e ↦ (err (wrapped prefix e), s')
        | none ↦ (ok tt, s')
      ]

  -- `killProcessGroup`.
  unfoldable pub kill_process_group : Text → Bg Text
  unfolding run_in kill_script shell_quote last_word output is_empty pid_path
  kill_process_group name = do
    r ←
        run_in (codes "stop " ++ name)
          (anywhere (kill_script (shell_quote (sb.path (pid_path name)))))
    let word = last_word (output r)
    return (if is_empty word then codes "terminated" else word)

  -- `processAlive`.
  unfoldable pub process_alive : Text → Bg Bool
  unfolding run_in shell_quote output contains_part
  process_alive pid = do
    r ← run_in (codes "check pid " ++ pid) (
        anywhere
          (codes "kill -0 " ++ shell_quote pid ++ codes " 2>/dev/null && echo alive || echo gone"))
    return (contains_part (codes "alive") (output r))

  -- `tailFile`, where the caller drops an error.
  unfoldable pub tail_file : Text → ℕ → Bg Text
  unfolding run_in shell_quote output decimal drop_right
  tail_file p n s =
      let (r, s') =
        run_in (codes "tail " ++ p)
          (anywhere (
            codes "tail -n "
            ++ decimal n
            ++ codes " "
            ++ shell_quote (sb.path p)
            ++ codes " 2>/dev/null"))
          s in
      (ok (elim r [ err e ↦ [] | ok x ↦ drop_right (λ c. c == b'\n') (output x) ]), s')

  -- The pid that a launch reports, empty where it reports none, and all that it printed.
  unfoldable pub pid_of : Text → Text × Text
  unfolding last_word parse_int
  pid_of out =
      let candidate = last_word out in
      elim (parse_int candidate) [ none ↦ ([], out) | some _ ↦ (candidate, out) ]

  -- `launchDetached`.
  unfoldable pub launch_detached : Text → Text → Text → Bg (Text × Text)
  unfolding run_in write_in launch_script pid_of output itoa shell_quote log_path pid_path
      trim_space
  launch_detached name command dir = do
    made ←
        run_in (codes "create log directory")
          (anywhere (codes "mkdir -p " ++ shell_quote (sb.path log_dir)))
    if not (succeeded made.exit_code)
        then throw (
            refused (
              codes "create log directory: exit "
              ++ itoa made.exit_code
              ++ codes ": "
              ++ trim_space (output made)))
        else do
          let file = log_dir ++ codes "/" ++ name ++ codes ".cmd"
          staged ← write_in (codes "stage command for " ++ name) file (command ++ codes "\n")
          r ← run_in (codes "start " ++ name) (record {
            cmd = launch_script (sb.path (log_path name)) (sb.path (pid_path name)) (sb.path file);
            dir = dir;
          })
          return (pid_of (trim_space (output r)))
