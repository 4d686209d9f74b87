-- ===== src/Project/Lifecycle.antt =====
-- How the status of a sandbox moves.
use doota.Prelude.{
  ◌≡◌, ◌⊎◌, refl, ap, sym, ◌∙◌, Option, none, some, first_row, first_row-holds, true, false, ◌||◌,
  arith, inl, inr, Bool-cases,
}
use doota.Prelude.Text.{is_empty}
use doota.Store.Schema.{SandboxStatus, ready, sleeping, missing}
use doota.Store.Rows.{first_row-update}
use doota.Store.Query.{Error, Result, ok, err, not_found, is_sandbox_gone}
use doota.Sandbox.{SandboxState, state_unknown, state_running, state_sleeping, state_missing}
use doota.Project.Rows.{
  ProjectRow, ProjectTable, is_provisioning, same_status, set_sandbox_status, sandbox_name_of,
  project_by_id, update_project, has_id,
}
use doota.Project.Service.{Provider, retry_sandbox, set_status, refresh_by, refresh_status}

-- What a refresh may make of a status: nothing else, the loss of the sandbox, or the change between
-- ready and sleeping.
abbrev pub Moves : SandboxStatus → SandboxStatus → Type 0
Moves s s' =
    (s' ≡ s)
    ⊎ ((s' ≡ missing) × (is_provisioning s ≡ false))
    ⊎ ((s ≡ sleeping) × (s' ≡ ready))
    ⊎ ((s ≡ ready) × (s' ≡ sleeping))

same_status_sound : (a b : SandboxStatus) → same_status a b ≡ true → a ≡ b
unfolding same_status
same_status_sound a b h = ground arith

-- The row and the table change together.
abbrev pub Written : ProjectRow → ProjectTable → ProjectRow × ProjectTable → Type 0
Written p t (p', t') =
    (p' ≡ record p { status = p'.status })
    × ((t' ≡ t) × (p' ≡ p) ⊎ (t' ≡ set_sandbox_status p.id p'.status t))

-- A row that was read by its key is read back as it was written.
project_by_id-Written :
    (p : ProjectRow) (t : ProjectTable) (r : ProjectRow × ProjectTable)
    → project_by_id p.id t ≡ ok p
    → Written p t r
    → project_by_id p.id r.1 ≡ ok r.0
unfolding project_by_id set_sandbox_status update_project
project_by_id-Written p t r known (only, inl (table, row)) =
    ap (project_by_id p.id) table ∙ known ∙ ap ok (sym row)
project_by_id-Written p t r known (only, inr table) =
    let s = r.0.status in
    let first = by_key (first_row (has_id p.id) t.rows) known in
    ap (project_by_id p.id) table
    ∙ ap read_row (
        first_row-update (has_id p.id) (has_id p.id) (λ (q : ProjectRow). record q { status = s })
          t.rows p (λ x. refl) first (first_row-holds (has_id p.id) t.rows p first))
    ∙ ap ok (sym only)
  where
    read_row : Option ProjectRow → Result ProjectRow
    read_row o = elim o [ none ↦ err not_found | some q ↦ ok q ]

    by_key : (o : Option ProjectRow) → read_row o ≡ ok p → o ≡ some p
    by_key none h = absurd (ground arith)
    by_key (some q) h = let same : q ≡ p = cc in ap some same

set_status-Written :
    (s : SandboxStatus) (p : ProjectRow) (t : ProjectTable)
    → ((set_status s (p, t)).0.status ≡ s) × Written p t (set_status s (p, t))
unfolding set_status
set_status-Written s p t = elim (Bool-cases (same_status p.status s)) [
  | inl same ↦ rw same (same_status_sound p.status s same, (refl, inl (refl, refl)))
  | inr other ↦ rw other (refl, (refl, inr refl))
]

-- What is claimed of a refresh.
abbrev pub Refreshed : ProjectRow → ProjectTable → ProjectRow × ProjectTable → Type 0
Refreshed p t r = Moves p.status r.0.status × Written p t r

unchanged-Refreshed : (p : ProjectRow) (t : ProjectTable) → Refreshed p t (p, t)
unchanged-Refreshed p t = (inl refl, (refl, inl (refl, refl)))

missing-Refreshed :
    (p : ProjectRow) (t : ProjectTable)
    → is_provisioning p.status ≡ false
    → Refreshed p t (set_status missing (p, t))
missing-Refreshed p t settled =
    let (now, written) = set_status-Written missing p t in (inr (inl (now, settled)), written)

refresh_by-Refreshed :
    (s : SandboxState) (p : ProjectRow) (t : ProjectTable)
    → is_provisioning p.status ≡ false
    → Refreshed p t (refresh_by s (p, t))
unfolding refresh_by
refresh_by-Refreshed state_unknown p t settled = unchanged-Refreshed p t
refresh_by-Refreshed state_missing p t settled = missing-Refreshed p t settled
refresh_by-Refreshed state_running p t settled = elim (Bool-cases (same_status p.status sleeping)) [
  | inr other ↦ rw other (unchanged-Refreshed p t)
  | inl asleep ↦
      let (now, written) = set_status-Written ready p t in
      rw asleep (inr (inr (inl (same_status_sound p.status sleeping asleep, now))), written)
]
refresh_by-Refreshed state_sleeping p t settled = elim (Bool-cases (same_status p.status ready)) [
  | inr other ↦ rw other (unchanged-Refreshed p t)
  | inl awake ↦
      let (now, written) = set_status-Written sleeping p t in
      rw awake (inr (inr (inr (same_status_sound p.status ready awake, now))), written)
]

Unit_cases : (r : Result (Unit {0})) → ((e : Error) × (r ≡ err e)) ⊎ (r ≡ ok tt)
Unit_cases (err e) = inl (e, refl)
Unit_cases (ok tt) = inr refl

state_cases :
    (r : Result SandboxState) → ((e : Error) × (r ≡ err e)) ⊎ ((s : SandboxState) × (r ≡ ok s))
state_cases (err e) = inl (e, refl)
state_cases (ok s) = inr (s, refl)

refreshed :
    (v : Provider) (p : ProjectRow) (t : ProjectTable) → Refreshed p t (refresh_status v (p, t))
unfolding refresh_status
refreshed v p t = elim (Bool-cases (is_provisioning p.status || is_empty (sandbox_name_of p))) [
  | inl skip ↦ rw skip (unchanged-Refreshed p t)
  | inr go ↦
      let settled : is_provisioning p.status ≡ false = ground arith in
      elim (Unit_cases (retry_sandbox (v.opens (sandbox_name_of p)) v.stops)) [
        | inl (e, failed) ↦ elim (Bool-cases (is_sandbox_gone e)) [
          | inl gone ↦ rw (go, failed, gone) (missing-Refreshed p t settled)
          | inr there ↦ rw (go, failed, there) (unchanged-Refreshed p t)
        ]
        | inr opened ↦ elim (state_cases (retry_sandbox v.state v.stops)) [
          | inl (e, failed) ↦ rw (go, opened, failed) (unchanged-Refreshed p t)
          | inr (s, told) ↦ rw (go, opened, told) (refresh_by-Refreshed s p t settled)
        ]
      ]
]

-- Whatever the provider answers, a refresh leaves the status as it is, or makes it missing where no
-- setup is under way, or moves it between ready and sleeping. No other field of the row changes, and
-- where the row was the one that the table holds under its key, the new row is.
pub refresh_status-Refreshed :
    (v : Provider) (p : ProjectRow) (t : ProjectTable)
    → project_by_id p.id t ≡ ok p
    → Refreshed p t (refresh_status v (p, t))
      × (project_by_id p.id (refresh_status v (p, t)).1 ≡ ok (refresh_status v (p, t)).0)
refresh_status-Refreshed v p t known =
    let done = refreshed v p t in
    (done, project_by_id-Written p t (refresh_status v (p, t)) known done.1)
