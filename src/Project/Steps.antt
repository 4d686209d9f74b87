-- ===== src/Project/Steps.antt =====
-- internal/project/provision.go: what the steps of a setup are made of. The provider's answers, the
-- printed key of a project and the settings are parameters.
use doota.Prelude.{
  ℕ, Bool, List, [], ◌∷◌, ◌++◌, Option, none, some, ◌==◌, map, take, if◌then◌else◌, delete_rows,
}
use doota.Prelude.Text.{Text, codes, is_empty, drop_right, split_at_char, join}
use doota.Store.Query.{Error, Result, ok, err, wrapped}
use doota.Sandbox.{Sandbox, Command, ExecResult, Act, ran, wrote, output}
use doota.Tools.Paths.{repo_dir}
use doota.Project.Rows.{ProjectTable, append_setup_log}

-- The tables' row and all that the sandbox was asked.
pub record Setup : Type 0 where
  pub table : ProjectTable
  pub acts : List Act

abbrev pub Prov : Type 0 → Type 0
Prov A = Setup → Result A × Setup

infixl 5 ◌>>=◌ ◌>>◌
abbrev pub ◌>>=◌ : {A B : Type 0} → Prov A → (A → Prov B) → Prov B
◌>>=◌ m f s = let (r, s') = m s in elim r [ err e ↦ (err e, s') | ok a ↦ f a s' ]

abbrev pub ◌>>◌ : {B : Type 0} → Prov (Unit {0}) → Prov B → Prov B
m >> k = m >>= λ _. k

abbrev pub return : {A : Type 0} → A → Prov A
return a s = (ok a, s)

abbrev pub throw : {A : Type 0} → Error → Prov A
throw e s = (err e, s)

-- What provisioning reads: the settings, the provider's answers to Get and Create for a name, the
-- sandbox and its URL, and how the key of a project is printed.
pub record SetupEnv : Type 0 where
  pub script : Text
  pub author_name : Text
  pub author_email : Text
  pub token : Text
  pub kind : Text
  pub gets : Text → Option Error
  pub creates : Text → Option Error
  pub sandbox : Sandbox
  pub url : Text
  pub key_text : ℕ → Text

-- `strings.ReplaceAll(projectID, "-", "")`.
unfoldable pub drop_dashes : Text → Text
unfolding delete_rows
drop_dashes t = delete_rows (λ c. c == b'-') t

-- `sandboxName`.
unfoldable pub sandbox_name : Text → Text
unfolding drop_dashes
sandbox_name key = codes "doot-" ++ take 12 (drop_dashes key)

-- `indent`.
unfoldable pub indent : Text → Text
unfolding split_at_char join
indent t = join (codes "\n") (map (λ l. codes "  " ++ l) (split_at_char b'\n' t))

abbrev pub setup_path : Text
setup_path = codes "/tmp/doot-setup.sh"

abbrev pub git_credentials_path : Text
git_credentials_path = codes "/workspace/.doot-git-credentials"

abbrev pub anywhere : Text → Command
anywhere cmd = record { cmd = cmd; dir = [] }

abbrev pub in_repo : Text → Command
in_repo cmd = record { cmd = cmd; dir = repo_dir }

abbrev pub verify_command : Command
verify_command = in_repo (codes "git rev-parse --verify HEAD")

abbrev pub detect_command : Command
detect_command = in_repo (codes "git rev-parse --abbrev-ref HEAD")

abbrev pub checkout_command : Command
checkout_command = in_repo (codes "git checkout -B doot")

abbrev pub dependency_install : Text
dependency_install =
    codes
      "\nif   [ -f pnpm-lock.yaml ];    then echo \"pnpm-lock.yaml\";    pnpm install --frozen-lockfile\n"
    ++ codes
        "elif [ -f yarn.lock ];         then echo \"yarn.lock\";         yarn install --frozen-lockfile\n"
    ++ codes "elif [ -f package-lock.json ]; then echo \"package-lock.json\"; npm ci\n"
    ++ codes "elif [ -f package.json ];      then echo \"package.json\";      npm install\n"
    ++ codes "elif [ -f go.mod ];            then echo \"go.mod\";            go mod download\n"
    ++ codes "elif [ -f uv.lock ];           then echo \"uv.lock\";           uv sync\n"
    ++ codes
        "elif [ -f requirements.txt ];  then echo \"requirements.txt\";  pip install -r requirements.txt\n"
    ++ codes "elif [ -f Gemfile ];           then echo \"Gemfile\";           bundle install\n"
    ++ codes "elif [ -f Cargo.toml ];        then echo \"Cargo.toml\";        cargo fetch\n"
    ++ codes "else echo \"no recognised dependency manifest; nothing to install\"\nfi\n"

abbrev is_break : ℕ → Bool
is_break c = c == b'\n'

-- `logLine` and `step`.
unfoldable pub log_line : ℕ → Text → Prov (Unit {0})
unfolding append_setup_log
log_line i line s = (ok tt, record s { table = append_setup_log i line s.table })

unfoldable pub step : ℕ → Text → Prov (Unit {0})
unfolding log_line
step i title = do log_line i []; log_line i (codes "--- " ++ title ++ codes " ---")

unfoldable pub update_table : (ProjectTable → ProjectTable) → Prov (Unit {0})
update_table f s = (ok tt, record s { table = f s.table })

module _ (env : SetupEnv) where
  unfoldable pub exec_setup : Command → Prov ExecResult
  exec_setup c s = (env.sandbox.exec c s.acts, record s { acts = ran c ∷ s.acts })

  -- `Service.run`.
  unfoldable pub run : ℕ → Command → Prov ExecResult
  unfolding log_line exec_setup indent output is_empty
  run i c = do
    log_line i (codes "$ " ++ c.cmd)
    r ← exec_setup c
    let out = drop_right is_break (output r)
    if is_empty out then return r else do log_line i (indent out); return r

  unfoldable pub write_setup : Text → Text → Text → Prov (Unit {0})
  write_setup prefix p content s =
      let s' = record s { acts = wrote p content ∷ s.acts } in
      elim (env.sandbox.write_file p content s.acts) [
        | some e ↦ (err (wrapped prefix e), s')
        | none ↦ (ok tt, s')
      ]
