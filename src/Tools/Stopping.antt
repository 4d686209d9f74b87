-- ===== src/Tools/Stopping.antt =====
-- What stop_bg leaves running.
use doota.Prelude.{
  ℕ, ◌≡◌, ◌⊎◌, refl, sym, ap, ◌∙◌, true, false, List, ◌∷◌, Option, none, some, arith, if◌then◌else◌,
  first_row, Option-cases, inl, inr,
}
use doota.Prelude.Text.{Text, codes, trim_space, is_empty, text_eq}
use doota.Store.Query.{Result, ok, err, not_found}
use doota.Sandbox.{Sandbox, Command, ExecResult, ran, output}
use doota.Project.Steps.{anywhere}
use doota.Tools.Quote.{shell_quote}
use doota.Tools.Paths.{pid_path}
use doota.Project.Background.{
  BackgroundProcess, ProcessTable, is_running_named, found, running_background_process,
}
use doota.Project.Names.{OneRunning}
use doota.Tools.Result.{ToolResult}
use doota.Tools.Shell.{
  Shell, Bg, ◌>>=◌, return, find_running, mark_stopped, kill_process_group, run_in, kill_script,
  last_word,
}
use doota.Tools.Jobs.{not_running, stop_outcome, stop_running, stop_bg}
use doota.Tools.Marking.{mark_stopped-gone, bind-ok}

module _ (sort_names : List Text → List Text) (sb : Sandbox) where
  kill-table : (name : Text) (s : Shell) → (kill_process_group sb name s).1.table ≡ s.table
  unfolding kill_process_group run_in
  kill-table name s = ground arith

  stop_running-gone :
      (pid : ℕ) (name : Text) (b : BackgroundProcess) (s : Shell) (r : ToolResult)
      → OneRunning s.table
      → running_background_process pid name s.table ≡ ok b
      → (stop_running sort_names sb name b s).0 ≡ ok r
      → running_background_process pid name (stop_running sort_names sb name b s).1.table
        ≡ err not_found
  unfolding stop_running
  stop_running-gone pid name b s r one running h =
      let rest : Text → Bg ToolResult =
        λ outcome. mark_stopped b.id >>= λ done. return (stop_outcome sort_names sb name outcome) in
      let (outcome, killed, h₁, e₁) = bind-ok (kill_process_group sb name) rest s r h in
      let s₁ = (kill_process_group sb name s).1 in
      let (done, marked, h₂, e₂) =
        bind-ok (mark_stopped b.id) (λ done. return (stop_outcome sort_names sb name outcome)) s₁ r
          h₁ in
      let same : s₁.table ≡ s.table = kill-table name s in
      ap (λ (x : Shell). running_background_process pid name x.table) (e₁ ∙ e₂)
      ∙ mark_stopped-gone pid name b s₁ (rw same one) (rw same running) marked

  -- How stop_bg goes on by what runs.
  abbrev choose : Text → ℕ → Option BackgroundProcess → Bg ToolResult
  choose name pid none = not_running sort_names sb pid name
  choose name pid (some b) = stop_running sort_names sb name b

  find_running-none :
      (pid : ℕ) (name : Text) (k : Option BackgroundProcess → Bg ToolResult) (s : Shell)
      → running_background_process pid name s.table ≡ err not_found
      → (find_running pid name >>= k) s ≡ k none s
  unfolding find_running
  find_running-none pid name k s h = ground arith

  find_running-some :
      (pid : ℕ) (name : Text) (k : Option BackgroundProcess → Bg ToolResult) (s : Shell)
      (b : BackgroundProcess)
      → running_background_process pid name s.table ≡ ok b
      → (find_running pid name >>= k) s ≡ k (some b) s
  unfolding find_running
  find_running-some pid name k s b h = ground arith

  stop_bg-some :
      (pid : ℕ) (raw : Text) (s : Shell) (b : BackgroundProcess)
      → is_empty (trim_space raw) ≡ false
      → running_background_process pid (trim_space raw) s.table ≡ ok b
      → stop_bg sort_names sb pid raw s ≡ stop_running sort_names sb (trim_space raw) b s
  unfolding stop_bg find_running
  stop_bg-some pid raw s b full runs =
      rw full (find_running-some pid (trim_space raw) (choose (trim_space raw) pid) s b runs)

running-cases :
    (pid : ℕ) (name : Text) (t : ProcessTable)
    → (running_background_process pid name t ≡ err not_found)
      ⊎ ((b : BackgroundProcess) × (running_background_process pid name t ≡ ok b))
unfolding running_background_process
running-cases pid name t = elim (Option-cases (first_row (is_running_named pid name) t.rows)) [
  | inl missing ↦ inl (ap found missing)
  | inr (b, there) ↦ inr (b, ap found there)
]

-- What stop_bg asks of the sandbox, and how it reads the answer.
abbrev pub kill_command : Sandbox → Text → Command
kill_command sb name = anywhere (kill_script (shell_quote (sb.path (pid_path name))))

abbrev pub outcome_of : ExecResult → Text
outcome_of x = let word = last_word (output x) in if is_empty word then codes "terminated" else word

module _ (sort_names : List Text → List Text) (sb : Sandbox) where
  kill_process_group-ran :
      (name : Text) (s : Shell) (outcome : Text)
      → (kill_process_group sb name s).0 ≡ ok outcome
      → (x : ExecResult) × (sb.exec (kill_command sb name) s.acts ≡ ok x)
        × (outcome ≡ outcome_of x)
        × ((kill_process_group sb name s).1.acts ≡ ran (kill_command sb name) ∷ s.acts)
  unfolding kill_process_group run_in
  kill_process_group-ran name s outcome h = go (sb.exec (kill_command sb name) s.acts) refl
    where
      go :
          (a : Result ExecResult)
          → sb.exec (kill_command sb name) s.acts ≡ a
          → (x : ExecResult) × (sb.exec (kill_command sb name) s.acts ≡ ok x)
            × (outcome ≡ outcome_of x)
            × ((kill_process_group sb name s).1.acts ≡ ran (kill_command sb name) ∷ s.acts)
      go (err e) asked = absurd (ground arith)
      go (ok x) asked = (x, asked, ground arith, ground arith)

  mark_stopped-acts : (i : ℕ) (s : Shell) → (mark_stopped i s).1.acts ≡ s.acts
  unfolding mark_stopped
  mark_stopped-acts i s = refl

  stop_running-ran :
      (name : Text) (b : BackgroundProcess) (s : Shell) (r : ToolResult)
      → (stop_running sort_names sb name b s).0 ≡ ok r
      → (x : ExecResult) × (sb.exec (kill_command sb name) s.acts ≡ ok x)
        × (r ≡ stop_outcome sort_names sb name (outcome_of x))
        × ((stop_running sort_names sb name b s).1.acts ≡ ran (kill_command sb name) ∷ s.acts)
  unfolding stop_running
  stop_running-ran name b s r h =
      let rest : Text → Bg ToolResult =
        λ outcome. mark_stopped b.id >>= λ done. return (stop_outcome sort_names sb name outcome) in
      let (outcome, killed, h₁, e₁) = bind-ok (kill_process_group sb name) rest s r h in
      let s₁ = (kill_process_group sb name s).1 in
      let (done, marked, h₂, e₂) =
        bind-ok (mark_stopped b.id) (λ done. return (stop_outcome sort_names sb name outcome)) s₁ r
          h₁ in
      let (x, asked, word, acts) = kill_process_group-ran name s outcome killed in
      let told : stop_outcome sort_names sb name outcome ≡ r = cc in
      (
        x,
        asked,
        sym told ∙ ap (stop_outcome sort_names sb name) word,
        ap (λ (x : Shell). x.acts) (e₁ ∙ e₂) ∙ mark_stopped-acts b.id s₁ ∙ acts,
      )

  stop_outcome-is_error :
      (name outcome : Text)
      → (stop_outcome sort_names sb name outcome).is_error ≡ text_eq outcome (codes "no-pidfile")
  unfolding stop_outcome
  stop_outcome-is_error name outcome = ground arith

  not_running-refused :
      (pid : ℕ) (name : Text) (s : Shell) (r : ToolResult)
      → (not_running sort_names sb pid name s).0 ≡ ok r
      → (r.is_error ≡ true) × ((not_running sort_names sb pid name s).1 ≡ s)
  unfolding not_running
  not_running-refused pid name s r h = ground arith

  stop_bg-not_running :
      (pid : ℕ) (raw : Text) (s : Shell)
      → is_empty (trim_space raw) ≡ false
      → running_background_process pid (trim_space raw) s.table ≡ err not_found
      → stop_bg sort_names sb pid raw s ≡ not_running sort_names sb pid (trim_space raw) s
  unfolding stop_bg find_running
  stop_bg-not_running pid raw s full none_runs = rw full (
      find_running-none sort_names sb pid (trim_space raw)
        (choose sort_names sb (trim_space raw) pid) s none_runs)

-- A stop that comes to a result finds no process marked as running under the name, which it answers
-- with an error and without a command or a write, or finds one. Then it has run the command that
-- signals the process group, once and nothing else, and tells what the last word of the command's
-- output says, as an error exactly where that is that there was no pid file. Either way, no process
-- is marked as running under the name in the project afterwards. (An error of the sandbox is no
-- result.)
pub stop_bg-stopped :
    (sort_names : List Text → List Text) (sb : Sandbox) (pid : ℕ) (raw : Text) (s : Shell)
    (r : ToolResult)
    → OneRunning s.table
    → is_empty (trim_space raw) ≡ false
    → (stop_bg sort_names sb pid raw s).0 ≡ ok r
    → ((running_background_process pid (trim_space raw) s.table ≡ err not_found)
        × (r.is_error ≡ true)
        × ((stop_bg sort_names sb pid raw s).1 ≡ s))
      ⊎ ((b : BackgroundProcess) × (x : ExecResult) × (running_background_process pid
              (trim_space raw)
              s.table
            ≡ ok b)
          × (sb.exec (kill_command sb (trim_space raw)) s.acts ≡ ok x)
          × ((stop_bg sort_names sb pid raw s).1.acts
              ≡ ran (kill_command sb (trim_space raw)) ∷ s.acts)
          × (r ≡ stop_outcome sort_names sb (trim_space raw) (outcome_of x))
          × (r.is_error ≡ text_eq (outcome_of x) (codes "no-pidfile"))
          × (running_background_process pid
                (trim_space raw)
                (stop_bg sort_names sb pid raw s).1.table
              ≡ err not_found))
stop_bg-stopped sort_names sb pid raw s r one full h =
    elim (running-cases pid (trim_space raw) s.table) [
      | inl none_runs ↦
          let same = stop_bg-not_running sort_names sb pid raw s full none_runs in
          let (refused, kept) =
            not_running-refused sort_names sb pid (trim_space raw) s r
              (ap (λ (x : Result ToolResult × Shell). x.0) (sym same) ∙ h) in
          inl (none_runs, refused, ap (λ (x : Result ToolResult × Shell). x.1) same ∙ kept)
      | inr (b, runs) ↦
          let same = stop_bg-some sort_names sb pid raw s b full runs in
          let done = ap (λ (x : Result ToolResult × Shell). x.0) (sym same) ∙ h in
          let (x, asked, told, acts) = stop_running-ran sort_names sb (trim_space raw) b s r done in
          inr (
            b,
            x,
            runs,
            asked,
            ap (λ (x : Result ToolResult × Shell). x.1.acts) same ∙ acts,
            told,
            ap (λ (r : ToolResult). r.is_error) told
                ∙ stop_outcome-is_error sort_names sb (trim_space raw) (outcome_of x),
            ap
                  (λ (x : Result ToolResult × Shell).
                    running_background_process pid (trim_space raw) x.1.table)
                  same
                ∙ stop_running-gone sort_names sb pid (trim_space raw) b s r one runs done,
          )
    ]
