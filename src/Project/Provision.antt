-- ===== src/Project/Provision.antt =====
-- internal/project/provision.go, and the goroutine of `startProvision`: the setup of a sandbox. A
-- write to the log or the row that the database refuses is left out.
use doota.Prelude.{ℕ, not, ◌||◌, [], ◌++◌, none, some, if◌then◌else◌}
use doota.Prelude.Text.{codes, is_empty, trim_space, text_eq}
use doota.Store.Schema.{ready, failing}
use doota.Store.Query.{ok, err, error_message, refused, wrapped}
use doota.Config.Values.{itoa}
use doota.Sandbox.{Command, ExecResult, succeeded}
use doota.Tools.Quote.{shell_quote}
use doota.Tools.Paths.{workspace_path, repo_dir}
use doota.Project.Rows.{
  ProjectRow, sandbox_name_of, project_by_id, set_sandbox, set_sandbox_status, set_default_branch,
}
use doota.Project.Steps.{
  Prov, Setup, SetupEnv, anywhere, checkout_command, dependency_install, detect_command,
  git_credentials_path, in_repo, log_line, return, run, sandbox_name, setup_path, step, throw,
  update_table, verify_command, write_setup, ◌>>=◌, ◌>>◌,
}

module _ (env : SetupEnv) where
  -- The part of `ensureSandbox` that creates one.
  unfoldable pub create_sandbox : ProjectRow → Prov (Unit {0})
  unfolding log_line update_table set_sandbox is_empty sandbox_name
  create_sandbox p =
      let name = sandbox_name (env.key_text p.id) in
      do
        log_line p.id (codes "creating sandbox " ++ name)
        elim (env.creates name) [
          | some e ↦ throw (wrapped (codes "create sandbox") e)
          | none ↦ do
            update_table (set_sandbox p.id name)
            if is_empty env.url then return tt else log_line p.id (codes "sandbox url: " ++ env.url)
        ]

  -- `ensureSandbox`.
  unfoldable pub ensure_sandbox : ProjectRow → Prov (Unit {0})
  unfolding create_sandbox log_line is_empty sandbox_name_of
  ensure_sandbox p =
      let name = sandbox_name_of p in
      if is_empty name then create_sandbox p else elim (env.gets name) [
        | none ↦ log_line p.id (codes "reusing sandbox " ++ name)
        | some e ↦ do
          log_line p.id (codes "previous sandbox " ++ name ++ codes " is gone; creating a new one")
          create_sandbox p
      ]

  -- `runSetupScript`.
  unfoldable pub run_setup_script : ProjectRow → Prov (Unit {0})
  unfolding step run write_setup log_line is_empty itoa
  run_setup_script p =
      if is_empty (trim_space env.script)
      then log_line p.id (codes "no setup script configured; skipping")
      else do
        step p.id (codes "setup script")
        write_setup env (codes "write setup script") setup_path env.script
        r ← run env p.id (anywhere (codes "sh " ++ shell_quote (env.sandbox.path setup_path)))
        if succeeded r.exit_code
            then return tt
            else log_line p.id
                (codes "warning: setup script exited " ++ itoa r.exit_code ++ codes "; continuing")

  -- `installGitCredential`.
  unfoldable pub install_git_credential : ProjectRow → Prov (Unit {0})
  unfolding step run write_setup log_line is_empty itoa
  install_git_credential p = do
    step p.id (codes "git credential")
    if is_empty env.token
        then log_line p.id (
            codes "warning: no GitHub token configured in Settings; private clones and all pushes "
            ++ codes "will fail until one is set")
        else do
          write_setup env (codes "write git credential") git_credentials_path
              (codes "https://x-access-token:" ++ env.token ++ codes "@github.com\n")
          r ← run env p.id (
              anywhere (
                codes "git config --global credential.helper "
                ++ shell_quote (codes "store --file=" ++ env.sandbox.path git_credentials_path)
                ++ codes " && git config --global url."
                ++ shell_quote (codes "https://github.com/")
                ++ codes ".insteadOf "
                ++ shell_quote (codes "git@github.com:")))
          if succeeded r.exit_code
              then log_line p.id (
                  codes
                    "note: GitHub PAT installed - clone, fetch, push, and pull requests all use "
                  ++ codes "native git over HTTPS")
              else throw
                  (refused (codes "configure git credential helper: exit " ++ itoa r.exit_code))

  -- `configureGit`.
  unfoldable pub configure_git : ProjectRow → Prov (Unit {0})
  unfolding step run install_git_credential itoa
  configure_git p = do
    step p.id (codes "git identity")
    r ← run env p.id (
        anywhere (
          codes "git config --global user.name "
          ++ shell_quote env.author_name
          ++ codes " && git config --global user.email "
          ++ shell_quote env.author_email
          ++ codes " && git config --global advice.detachedHead false"))
    if succeeded r.exit_code
        then install_git_credential p
        else throw (refused (codes "configure git identity: exit " ++ itoa r.exit_code))

  abbrev pub clone_command : ProjectRow → Command
  clone_command p = anywhere (
      codes "rm -rf "
      ++ shell_quote (env.sandbox.path repo_dir)
      ++ codes " && mkdir -p "
      ++ shell_quote (env.sandbox.path workspace_path)
      ++ codes " && git clone --progress "
      ++ shell_quote p.repo_url
      ++ codes " "
      ++ shell_quote (env.sandbox.path repo_dir))

  -- `cloneRepo`.
  unfoldable pub clone_repo : ProjectRow → Prov (Unit {0})
  unfolding itoa
  clone_repo p = do
    step p.id (codes "clone")
    r ← run env p.id (clone_command p)
    if not (succeeded r.exit_code)
        then throw (refused (codes "clone failed with exit " ++ itoa r.exit_code))
        else do
          head ← run env p.id verify_command
          if succeeded head.exit_code
              then return tt
              else throw (
                  refused (
                    codes
                      "clone produced no checkout: the remote's HEAD does not point at a branch "
                    ++ codes "that exists. Check the repository's default branch"))

  -- The default branch that git tells, where it tells one.
  unfoldable pub record_branch : ProjectRow → ExecResult → Prov (Unit {0})
  unfolding update_table set_default_branch log_line is_empty text_eq
  record_branch p r =
      let detected = trim_space r.stdout in
      if not (succeeded r.exit_code) || is_empty detected || text_eq detected (codes "HEAD")
      then return tt
      else do
        update_table (set_default_branch p.id detected)
        log_line p.id (codes "default branch: " ++ detected)

  -- `checkoutWorkBranch`.
  unfoldable pub checkout_work_branch : ProjectRow → Prov (Unit {0})
  unfolding itoa
  checkout_work_branch p = do
    step p.id (codes "branch")
    r ← run env p.id detect_command
    record_branch p r
    out ← run env p.id checkout_command
    if succeeded out.exit_code
        then return tt
        else throw (refused (codes "checkout doot failed with exit " ++ itoa out.exit_code))

  -- `installDependencies`, whose failures are warnings.
  unfoldable pub install_dependencies : ProjectRow → Prov (Unit {0})
  unfolding itoa
  install_dependencies p s =
      let (r, s') =
        (step p.id (codes "dependencies") >> run env p.id (in_repo dependency_install)) s in
      elim r [
        | err e ↦ log_line p.id (codes "warning: " ++ error_message e) s'
        | ok x ↦
            if succeeded x.exit_code
            then (ok tt, s')
            else log_line p.id
                (codes "warning: dependency install exited "
                  ++ itoa x.exit_code
                  ++ codes "; the agent can fix this later")
                s'
      ]

  unfoldable pub fetch_project : ℕ → Prov ProjectRow
  unfolding project_by_id
  fetch_project i s = (project_by_id i s.table, s)

  -- The steps of `provision` up to the clone, and from it on.
  unfoldable pub prepare : ProjectRow → Prov (Unit {0})
  prepare p = do
    log_line p.id (codes "=== doot setup ===")
    log_line p.id (codes "provider: " ++ env.kind)
    log_line p.id (codes "repo:     " ++ p.repo_url)
    ensure_sandbox p
    run_setup_script p
    configure_git p

  unfoldable pub check_out : ProjectRow → Prov (Unit {0})
  check_out p = do clone_repo p; checkout_work_branch p; install_dependencies p

  -- `Service.provision`.
  unfoldable pub provision : ℕ → Prov (Unit {0})
  provision i = do p ← fetch_project i; prepare p; check_out p

  -- The goroutine of `startProvision`.
  unfoldable pub run_provision : ℕ → Setup → Setup
  run_provision i s =
      let (r, s') = provision i s in
      elim r [
        | err e ↦
            ((do
              log_line i []
              log_line i (codes "FAILED: " ++ error_message e)
              update_table (set_sandbox_status i failing))
              s').1
        | ok _ ↦
            ((do
              update_table (set_sandbox_status i ready)
              log_line i []
              log_line i (codes "Ready."))
              s').1
      ]
