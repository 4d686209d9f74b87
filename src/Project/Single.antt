-- ===== src/Project/Single.antt =====
-- One project at a time.
use doota.Prelude.{
  ℕ, ◌++◌, ◌≤◌, ◌≡◌, ◌⊎◌, refl, ap, true, false, ◌&&◌, List, [], ◌∷◌, none, some, arith, first_row,
  exists_row, count_rows, Bool-cases, inl, inr,
}
use doota.Prelude.Text.{Text}
use doota.Store.Schema.{SandboxStatus, missing, failing}
use doota.Store.Query.{ok, err, not_found}
use doota.Store.Rows.{
  count_rows-update_rows_le, count_rows-exists_row, first_row-exists_row, first_row-exists_row_hit,
}
use doota.Project.Rows.{
  ProjectRow, ProjectTable, new_project, is_live, has_id, is_provisioning, project_exists,
  create_project, active_project, update_project, set_sandbox, set_sandbox_status,
  set_default_branch, set_preview_port, reset_setup_log, append_setup_log, soft_delete_project,
  fail_interrupted_provisioning, interrupted_text, log_of,
}

pub data ProjectCall : Type 0 where
  creates : Text → Text → Text → ℕ → ProjectCall
  sets_sandbox sets_branch appends : ℕ → Text → ProjectCall
  sets_status : ℕ → SandboxStatus → ProjectCall
  sets_port : ℕ → ℕ → ProjectCall
  resets deletes : ℕ → ProjectCall
  interrupts : ProjectCall

unfoldable pub project_call : ProjectCall → ProjectTable → ProjectTable
project_call (creates name url branch port) t = (create_project name url branch port t).1
project_call (sets_sandbox i name) t = set_sandbox i name t
project_call (sets_branch i branch) t = set_default_branch i branch t
project_call (appends i line) t = append_setup_log i line t
project_call (sets_status i s) t = set_sandbox_status i s t
project_call (sets_port i port) t = set_preview_port i port t
project_call (resets i) t = reset_setup_log i t
project_call (deletes i) t = (soft_delete_project i t).1
project_call interrupts t = (fail_interrupted_provisioning t).1

unfoldable pub project_run : List ProjectCall → ProjectTable → ProjectTable
project_run [] t = t
project_run (c ∷ cs) t = project_run cs (project_call c t)

abbrev pub OneLive : ProjectTable → Type 0
OneLive t = count_rows is_live t.rows ≤ 1

update_project-OneLive :
    (i : ℕ) (f : ProjectRow → ProjectRow) (t : ProjectTable)
    → ((p : ProjectRow) → (f p).deleted ≡ p.deleted)
    → OneLive t
    → OneLive (update_project i f t)
unfolding update_project
update_project-OneLive i f t same h = omega (
  arith,
  h,
  count_rows-update_rows_le is_live (has_id i) f t.rows (λ p hit live. let kept = same p in cc),
)

create_project-OneLive :
    (name url branch : Text) (port : ℕ) (t : ProjectTable)
    → OneLive t
    → OneLive (create_project name url branch port t).1
unfolding create_project count_rows
create_project-OneLive name url branch port t h = elim (Bool-cases (exists_row is_live t.rows)) [
  | inl taken ↦ rw taken h
  | inr free ↦ rw free (omega (arith, count_rows-exists_row is_live t.rows free))
]

soft_delete_project-OneLive :
    (i : ℕ) (t : ProjectTable) → OneLive t → OneLive (soft_delete_project i t).1
unfolding soft_delete_project
soft_delete_project-OneLive i t h =
    elim (Bool-cases (exists_row (λ (p : ProjectRow). has_id i p && is_live p) t.rows)) [
      | inr absent ↦ rw absent h
      | inl there ↦ rw there (
          omega (
            arith,
            h,
            count_rows-update_rows_le is_live (λ (p : ProjectRow). has_id i p && is_live p)
                (λ (p : ProjectRow). record p {
                  deleted = true;
                  sandbox_id = none;
                  status = missing;
                })
                t.rows (λ p hit live. ground arith),
          ))
    ]

fail_interrupted-OneLive :
    (t : ProjectTable) → OneLive t → OneLive (fail_interrupted_provisioning t).1
unfolding fail_interrupted_provisioning
fail_interrupted-OneLive t h = omega (
  arith,
  h,
  count_rows-update_rows_le is_live (λ (p : ProjectRow). is_live p && is_provisioning p.status)
      (λ (p : ProjectRow). record p {
        status = failing;
        setup_log = some (log_of p ++ interrupted_text);
      })
      t.rows (λ p hit live. live),
)

project_call-OneLive : (c : ProjectCall) (t : ProjectTable) → OneLive t → OneLive (project_call c t)
unfolding project_call set_sandbox set_sandbox_status set_default_branch set_preview_port
    reset_setup_log append_setup_log
project_call-OneLive (creates name url branch port) t h =
    create_project-OneLive name url branch port t h
project_call-OneLive (sets_sandbox i name) t h = update_project-OneLive i _ t (λ p. refl) h
project_call-OneLive (sets_branch i branch) t h = update_project-OneLive i _ t (λ p. refl) h
project_call-OneLive (appends i line) t h = update_project-OneLive i _ t (λ p. refl) h
project_call-OneLive (sets_status i s) t h = update_project-OneLive i _ t (λ p. refl) h
project_call-OneLive (sets_port i port) t h = update_project-OneLive i _ t (λ p. refl) h
project_call-OneLive (resets i) t h = update_project-OneLive i _ t (λ p. refl) h
project_call-OneLive (deletes i) t h = soft_delete_project-OneLive i t h
project_call-OneLive interrupts t h = fail_interrupted-OneLive t h

project_run-OneLive_lem :
    (cs : List ProjectCall) (t : ProjectTable) → OneLive t → OneLive (project_run cs t)
unfolding project_run
project_run-OneLive_lem [] t h = h
project_run-OneLive_lem (c ∷ cs) t h =
    project_run-OneLive_lem cs (project_call c t) (project_call-OneLive c t h)

create_project-taken :
    (name url branch : Text) (port : ℕ) (t : ProjectTable) (p : ProjectRow)
    → exists_row is_live t.rows ≡ true
    → first_row is_live t.rows ≡ some p
    → (active_project t ≡ ok p) × (create_project name url branch port t ≡ (err project_exists, t))
unfolding create_project active_project
create_project-taken name url branch port t p taken found = (rw (found, active_project), rw taken)

active-none :
    (t : ProjectTable) → first_row is_live t.rows ≡ none → active_project t ≡ err not_found
unfolding active_project
active-none t h = rw (h, active_project)

create_project-free :
    (name url branch : Text) (port : ℕ) (t : ProjectTable)
    → exists_row is_live t.rows ≡ false
    → let (r, t') = create_project name url branch port t in
      (p : ProjectRow) × (r ≡ ok p) × (active_project t' ≡ ok p)
unfolding create_project active_project first_row
create_project-free name url branch port t free =
    (new_project name url branch port t, rw free, rw free)

-- Whatever calls are made in whatever order, at most one project is not deleted; where there is
-- one, it is the active project and a creation is refused and changes nothing, and where there is
-- none, a creation makes the active one.
pub project_run-OneLive :
    (cs : List ProjectCall) (name url branch : Text) (port : ℕ) (start : ProjectTable)
    → OneLive start
    → let t = project_run cs start in
      let (r, t') = create_project name url branch port t in
      OneLive t
      × (((p : ProjectRow) × (active_project t ≡ ok p) × (r ≡ err project_exists) × (t' ≡ t))
          ⊎ ((active_project t ≡ err not_found)
              × ((p : ProjectRow) × (r ≡ ok p) × (active_project t' ≡ ok p))))
project_run-OneLive cs name url branch port start h =
    let t = project_run cs start in
    (
      project_run-OneLive_lem cs start h,
      elim (Bool-cases (exists_row is_live t.rows)) [
        | inl taken ↦ inl (
            let (p, found) = first_row-exists_row_hit is_live t.rows taken in
            let (active, refused) = create_project-taken name url branch port t p taken found in
            (p, active, ap (λ x. x.0) refused, ap (λ x. x.1) refused))
        | inr free ↦ inr (
          active-none t (first_row-exists_row is_live t.rows free),
          create_project-free name url branch port t free,
        )
      ],
    )
