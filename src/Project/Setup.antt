-- ===== src/Project/Setup.antt =====
-- When a project becomes ready.
use doota.Prelude.{
  ◌≡◌, ◌≢◌, ◌⊎◌, refl, ap, ◌∙◌, ℕ, Bool, true, false, List, [], ◌∷◌, ◌++◌, Option, none, some,
  arith, ◌==◌, first_row, update_rows, inl, inr, Bool-cases, Option-cases,
}
use doota.Prelude.Text.{Text, codes}
use doota.Store.Schema.{SandboxStatus, ready, failing}
use doota.Store.Query.{Error, Result, ok, err, error_message}
use doota.Sandbox.{Command, ExecResult, Act, ran, succeeded}
use doota.Project.Rows.{
  ProjectRow, ProjectTable, has_id, project_by_id, set_sandbox_status, update_project,
  append_setup_log,
}
use doota.Project.Steps.{
  Setup, SetupEnv, Prov, ◌>>=◌, ◌>>◌, log_line, step, update_table, exec_setup, run, verify_command,
  detect_command, checkout_command, in_repo, dependency_install,
}
use doota.Project.Provision.{
  clone_command, clone_repo, record_branch, checkout_work_branch, install_dependencies,
  fetch_project, prepare, check_out, provision, run_provision,
}

abbrev pub status_of : ℕ → ProjectTable → Option SandboxStatus
status_of i t = elim (first_row (has_id i) t.rows) [ none ↦ none | some p ↦ some p.status ]

abbrev pub exits_zero : Result ExecResult → Bool
exits_zero (err e) = false
exits_zero (ok r) = succeeded r.exit_code

-- A step that ended well passes its state on.
bind-ok :
    {A B : Type 0} (m : Prov A) (f : A → Prov B) (s : Setup) (b : B)
    → ((m >>= f) s).0 ≡ ok b
    → (a : A) × ((m s).0 ≡ ok a) × ((f a (m s).1).0 ≡ ok b) × (((m >>= f) s).1 ≡ (f a (m s).1).1)
bind-ok {A} {B} m f s b h = go (m s).0 h
  where
    go :
        (r : Result A)
        → (elim r as (λ _. Result B × Setup) [ err e ↦ (err e, (m s).1) | ok a ↦ f a (m s).1 ]).0
          ≡ ok b
        → (a : A) × (r ≡ ok a)
          × ((f a (m s).1).0 ≡ ok b)
          × ((elim r as (λ _. Result B × Setup) [ err e ↦ (err e, (m s).1) | ok a ↦ f a (m s).1 ]).1
              ≡ (f a (m s).1).1)
    go (err e) k = absurd (ground arith)
    go (ok a) k = (a, refl, k, refl)

Result-cases :
    (r : Result ExecResult) → ((e : Error) × (r ≡ err e)) ⊎ ((x : ExecResult) × (r ≡ ok x))
Result-cases (err e) = inl (e, refl)
Result-cases (ok x) = inr (x, refl)

Setup-cases : (r : Result (Unit {0})) → ((e : Error) × (r ≡ err e)) ⊎ (r ≡ ok tt)
Setup-cases (err e) = inl (e, refl)
Setup-cases (ok tt) = inr refl

run-acts :
    (env : SetupEnv) (i : ℕ) (c : Command) (s : Setup)
    → ((run env i c s).0 ≡ env.sandbox.exec c s.acts) × ((run env i c s).1.acts ≡ ran c ∷ s.acts)
unfolding run log_line exec_setup
run-acts env i c s = (ground arith, ground arith)

step-acts :
    (i : ℕ) (title : Text) (s : Setup)
    → ((step i title s).0 ≡ ok tt) × ((step i title s).1.acts ≡ s.acts)
unfolding step log_line
step-acts i title s = (refl, refl)

clone_repo-ok :
    (env : SetupEnv) (p : ProjectRow) (s : Setup)
    → (clone_repo env p s).0 ≡ ok tt
    → (exits_zero (env.sandbox.exec (clone_command env p) s.acts) ≡ true)
      × (exits_zero (env.sandbox.exec verify_command (ran (clone_command env p) ∷ s.acts)) ≡ true)
      × ((clone_repo env p s).1.acts ≡ ran verify_command ∷ ran (clone_command env p) ∷ s.acts)
unfolding clone_repo
clone_repo-ok env p s h =
    let s₁ = (step p.id (codes "clone") s).1 in
    let s₂ = (run env p.id (clone_command env p) s₁).1 in
    let begun = step-acts p.id (codes "clone") s in
    let cloned = run-acts env p.id (clone_command env p) s₁ in
    let verified = run-acts env p.id verify_command s₂ in (ground arith, ground arith, ground arith)

record_branch-acts :
    (env : SetupEnv) (p : ProjectRow) (r : ExecResult) (s : Setup)
    → ((record_branch env p r s).0 ≡ ok tt) × ((record_branch env p r s).1.acts ≡ s.acts)
unfolding record_branch update_table log_line
record_branch-acts env p r s = (ground arith, ground arith)

checkout-ok :
    (env : SetupEnv) (p : ProjectRow) (s : Setup)
    → (checkout_work_branch env p s).0 ≡ ok tt
    → (exits_zero (env.sandbox.exec checkout_command (ran detect_command ∷ s.acts)) ≡ true)
      × ((checkout_work_branch env p s).1.acts ≡ ran checkout_command ∷ ran detect_command ∷ s.acts)
unfolding checkout_work_branch
checkout-ok env p s h =
    let s₁ = (step p.id (codes "branch") s).1 in
    let begun = step-acts p.id (codes "branch") s in
    let detected = run-acts env p.id detect_command s₁ in
    elim (Result-cases (run env p.id detect_command s₁).0) [
      | inl (e, bad) ↦ absurd (ground arith)
      | inr (r, good) ↦
          let s₂ = (run env p.id detect_command s₁).1 in
          let s₃ = (record_branch env p r s₂).1 in
          let recorded = record_branch-acts env p r s₂ in
          let out = run-acts env p.id checkout_command s₃ in (ground arith, ground arith)
    ]

install-acts :
    (env : SetupEnv) (p : ProjectRow) (s : Setup)
    → (install_dependencies env p s).1.acts ≡ ran (in_repo dependency_install) ∷ s.acts
unfolding install_dependencies log_line
install-acts env p s =
    let s₁ = (step p.id (codes "dependencies") s).1 in
    let begun = step-acts p.id (codes "dependencies") s in
    let ended = run-acts env p.id (in_repo dependency_install) s₁ in ground arith

-- The repository was cloned, its HEAD names a commit, and the work branch is checked out.
abbrev pub CheckedOut : SetupEnv → ProjectRow → List Act → List Act → Type 0
CheckedOut env p before acts =
    (exits_zero (env.sandbox.exec (clone_command env p) before) ≡ true)
    × (exits_zero (env.sandbox.exec verify_command (ran (clone_command env p) ∷ before)) ≡ true)
    × (exits_zero (
          env.sandbox.exec checkout_command
            (ran detect_command ∷ ran verify_command ∷ ran (clone_command env p) ∷ before))
        ≡ true)
    × (acts
        ≡ ran (in_repo dependency_install)
          ∷ ran checkout_command
          ∷ ran detect_command
          ∷ ran verify_command
          ∷ ran (clone_command env p)
          ∷ before)

check_out-ok :
    (env : SetupEnv) (p : ProjectRow) (s : Setup)
    → (check_out env p s).0 ≡ ok tt
    → CheckedOut env p s.acts (check_out env p s).1.acts
unfolding check_out
check_out-ok env p s h =
    let (u, cloned, h₁, e₁) =
      bind-ok (clone_repo env p) (λ _. checkout_work_branch env p >> install_dependencies env p) s
        tt h in
    let s₁ = (clone_repo env p s).1 in
    let (w, moved, h₂, e₂) =
      bind-ok (checkout_work_branch env p) (λ _. install_dependencies env p) s₁ tt h₁ in
    let s₂ = (checkout_work_branch env p s₁).1 in
    let (c₁, c₂, acts₁) = clone_repo-ok env p s cloned in
    let (c₃, acts₂) = checkout-ok env p s₁ moved in
    let acts₃ = install-acts env p s₂ in
    (c₁, c₂, rw (← acts₁) c₃, ap (λ x. x.acts) (e₁ ∙ e₂) ∙ ground arith)

-- What a step leaves of the status.
update_project-first_row :
    (i : ℕ) (f : ProjectRow → ProjectRow) (rows : List ProjectRow) (q : ProjectRow)
    → ((p : ProjectRow) → (f p).id ≡ p.id)
    → first_row (has_id i) (update_rows (has_id i) f rows) ≡ some q
    → (p : ProjectRow) × (q ≡ f p)
unfolding first_row update_rows
update_project-first_row i f [] q same h = absurd (ground arith)
update_project-first_row i f (p ∷ rows) q same h = elim (Bool-cases (p.id == i)) [
  | inl hit ↦ (p, let kept = same p in ground arith)
  | inr miss ↦ update_project-first_row i f rows q same (ground arith)
]

failing-status :
    (i : ℕ) (t : ProjectTable) → status_of i (set_sandbox_status i failing t) ≢ some ready
unfolding set_sandbox_status update_project
failing-status i t h =
    elim (Option-cases
      (first_row (has_id i) (update_rows (has_id i) (λ p. record p { status = failing }) t.rows))) [
        | inl none_left ↦ absurd (ground arith)
        | inr (q, found) ↦
            let (p, same) =
              update_project-first_row i (λ p. record p { status = failing }) t.rows q (λ x. refl)
                found in
            absurd (ground arith)
      ]

run_provision-failed :
    (env : SetupEnv) (i : ℕ) (s : Setup) (e : Error)
    → (provision env i s).0 ≡ err e
    → (t : ProjectTable) × ((run_provision env i s).table ≡ set_sandbox_status i failing t)
unfolding run_provision log_line update_table
run_provision-failed env i s e failed = (
  append_setup_log i (codes "FAILED: " ++ error_message e)
      (append_setup_log i [] (provision env i s).1.table),
  rw (failed, run_provision),
)

run_provision-acts :
    (env : SetupEnv) (i : ℕ) (s : Setup)
    → (provision env i s).0 ≡ ok tt
    → (run_provision env i s).acts ≡ (provision env i s).1.acts
unfolding run_provision log_line update_table
run_provision-acts env i s done = rw (done, run_provision)

provision-ok :
    (env : SetupEnv) (i : ℕ) (s : Setup)
    → (provision env i s).0 ≡ ok tt
    → (p : ProjectRow) × (before : List Act) × (project_by_id i s.table ≡ ok p)
      × CheckedOut env p before (provision env i s).1.acts
unfolding provision fetch_project
provision-ok env i s h =
    let (p, known, h₁, e₁) =
      bind-ok (fetch_project env i) (λ p. prepare env p >> check_out env p) s tt h in
    let s₁ = (fetch_project env i s).1 in
    let (u, ready_to, h₂, e₂) = bind-ok (prepare env p) (λ _. check_out env p) s₁ tt h₁ in
    let s₂ = (prepare env p s₁).1 in (p, s₂.acts, known, rw (e₁ ∙ e₂) (check_out-ok env p s₂ h₂))

-- When a setup leaves its project ready, the repository of that project was cloned with exit 0,
-- the clone's HEAD names a commit, and the work branch was checked out with exit 0, in this order
-- and as the last commands but the installation of the dependencies, whatever the others did.
pub run_provision-CheckedOut :
    (env : SetupEnv) (i : ℕ) (s : Setup)
    → status_of i (run_provision env i s).table ≡ some ready
    → (p : ProjectRow) × (before : List Act) × (project_by_id i s.table ≡ ok p)
      × CheckedOut env p before (run_provision env i s).acts
run_provision-CheckedOut env i s h = elim (Setup-cases (provision env i s).0) [
  | inl (e, failed) ↦
      let (t, ended) = run_provision-failed env i s e failed in
      absurd (failing-status i t (rw ended at h))
  | inr done ↦
      let (p, before, known, checked) = provision-ok env i s done in
      (p, before, known, rw (run_provision-acts env i s done) checked)
]
