-- ===== src/Project/Rows.antt =====
-- internal/store/project.go: the rows of project with the columns that their service uses (those
-- that a run uses are in Store/Schema). Rows are held newest first and a key is a number. The
-- partial unique index on the rows that are not deleted is the test of the insert.
use doota.Prelude.{
  ℕ, suc, Bool, true, false, not, ◌&&◌, List, [], ◌∷◌, ◌++◌, Option, none, some, ◌==◌,
  if◌then◌else◌, first_row, exists_row, update_rows, count_rows,
}
use doota.Prelude.Text.{Text, codes}
use doota.Store.Schema.{SandboxStatus, provisioning, ready, sleeping, failing, missing}
use doota.Store.Query.{Error, Result, ok, err, not_found, refused}

pub record ProjectRow : Type 0 where
  pub id : ℕ
  pub name : Text
  pub repo_url : Text
  pub default_branch : Text
  pub sandbox_id : Option Text
  pub status : SandboxStatus
  pub preview_port : ℕ
  pub setup_log : Option Text
  pub deleted : Bool

pub record ProjectTable : Type 0 where
  pub rows : List ProjectRow
  pub serial : ℕ

-- `Project.Sandbox`, `Log`, `IsProvisioning` and `IsReady`.
unfoldable pub sandbox_name_of : ProjectRow → Text
sandbox_name_of p = elim p.sandbox_id [ none ↦ [] | some n ↦ n ]

unfoldable pub log_of : ProjectRow → Text
log_of p = elim p.setup_log [ none ↦ [] | some t ↦ t ]

unfoldable pub is_provisioning : SandboxStatus → Bool
is_provisioning provisioning = true
is_provisioning _ = false

unfoldable pub is_ready : SandboxStatus → Bool
is_ready ready = true
is_ready _ = false

unfoldable pub same_status : SandboxStatus → SandboxStatus → Bool
same_status provisioning provisioning = true
same_status ready ready = true
same_status sleeping sleeping = true
same_status failing failing = true
same_status missing missing = true
same_status _ _ = false

-- `ErrProjectExists`.
abbrev pub project_exists : Error
project_exists = refused (codes "a project already exists")

abbrev pub is_live : ProjectRow → Bool
is_live p = not p.deleted

abbrev pub has_id : ℕ → ProjectRow → Bool
has_id i p = p.id == i

-- The row, with the defaults of the table.
abbrev pub new_project : Text → Text → Text → ℕ → ProjectTable → ProjectRow
new_project name repo_url branch port t = record {
  id = t.serial;
  name = name;
  repo_url = repo_url;
  default_branch = branch;
  sandbox_id = none;
  status = provisioning;
  preview_port = port;
  setup_log = none;
  deleted = false;
}

-- `CreateProject`.
unfoldable pub create_project :
    Text → Text → Text → ℕ → ProjectTable → Result ProjectRow × ProjectTable
unfolding exists_row
create_project name repo_url branch port t =
    let p = new_project name repo_url branch port t in
    if exists_row is_live t.rows
    then (err project_exists, t)
    else (ok p, record t { rows = p ∷ t.rows; serial = suc t.serial })

-- `ActiveProject` and `ProjectByID`.
unfoldable pub active_project : ProjectTable → Result ProjectRow
active_project t = elim (first_row is_live t.rows) [ none ↦ err not_found | some p ↦ ok p ]

unfoldable pub project_by_id : ℕ → ProjectTable → Result ProjectRow
project_by_id i t = elim (first_row (has_id i) t.rows) [ none ↦ err not_found | some p ↦ ok p ]

-- `UPDATE project SET … WHERE id = $1`.
unfoldable pub update_project : ℕ → (ProjectRow → ProjectRow) → ProjectTable → ProjectTable
unfolding update_rows
update_project i f t = record t { rows = update_rows (has_id i) f t.rows }

unfoldable pub set_sandbox : ℕ → Text → ProjectTable → ProjectTable
unfolding update_project
set_sandbox i name t = update_project i (λ p. record p { sandbox_id = some name }) t

unfoldable pub set_sandbox_status : ℕ → SandboxStatus → ProjectTable → ProjectTable
unfolding update_project
set_sandbox_status i s t = update_project i (λ p. record p { status = s }) t

unfoldable pub set_default_branch : ℕ → Text → ProjectTable → ProjectTable
unfolding update_project
set_default_branch i b t = update_project i (λ p. record p { default_branch = b }) t

unfoldable pub set_preview_port : ℕ → ℕ → ProjectTable → ProjectTable
unfolding update_project
set_preview_port i port t = update_project i (λ p. record p { preview_port = port }) t

unfoldable pub reset_setup_log : ℕ → ProjectTable → ProjectTable
unfolding update_project
reset_setup_log i t = update_project i (λ p. record p { setup_log = some [] }) t

unfoldable pub append_setup_log : ℕ → Text → ProjectTable → ProjectTable
unfolding update_project log_of
append_setup_log i line t =
    update_project i (λ p. record p { setup_log = some (log_of p ++ line ++ codes "\n") }) t

-- `SoftDeleteProject`.
unfoldable pub soft_delete_project : ℕ → ProjectTable → Result (Unit {0}) × ProjectTable
unfolding exists_row update_rows
soft_delete_project i t =
    let chosen = λ (p : ProjectRow). has_id i p && is_live p in
    if exists_row chosen t.rows
    then (
      ok tt,
      record t {
        rows =
            update_rows chosen
              (λ (p : ProjectRow). record p { deleted = true; sandbox_id = none; status = missing })
              t.rows;
      },
    )
    else (err not_found, t)

abbrev pub interrupted_text : Text
interrupted_text = codes "\n[interrupted: the server restarted during setup. Use Recreate.]\n"

-- `FailInterruptedProvisioning`, with the number of rows.
unfoldable pub fail_interrupted_provisioning : ProjectTable → ℕ × ProjectTable
unfolding update_rows count_rows is_provisioning log_of
fail_interrupted_provisioning t =
    let chosen = λ (p : ProjectRow). is_live p && is_provisioning p.status in
    (
      count_rows chosen t.rows,
      record t {
        rows =
            update_rows chosen
              (λ (p : ProjectRow). record p {
                status = failing;
                setup_log = some (log_of p ++ interrupted_text);
              })
              t.rows;
      },
    )
