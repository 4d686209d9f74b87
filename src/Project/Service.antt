-- ===== src/Project/Service.antt =====
-- internal/project/service.go: the sandbox of the project. What the provider answers to the n-th
-- attempt of an operation is a parameter; a write of a status that fails is only logged, and is
-- left out.
use doota.Prelude.{
  ℕ, zero, suc, ◌*◌, ◌^◌, Bool, false, not, ◌&&◌, ◌||◌, List, ◌∷◌, ◌==◌, ltb, if◌then◌else◌,
  exists_row, delete_rows,
}
use doota.Prelude.Int.{ℤ, pos, negsuc}
use doota.Prelude.Text.{Text, codes, is_empty, trim_space}
use doota.Store.Schema.{SandboxStatus, provisioning, ready, sleeping, missing}
use doota.Store.Query.{
  Error, Result, ok, err, sandbox_gone, canceled, refused, wrapped, is_sandbox_gone, is_canceled,
}
use doota.Sandbox.{SandboxState, state_unknown, state_running, state_sleeping, state_missing}
use doota.Project.Rows.{
  ProjectRow, ProjectTable, sandbox_name_of, is_provisioning, same_status, create_project,
  set_sandbox_status, set_preview_port, reset_setup_log, soft_delete_project,
}
use doota.Project.Background.{ProcessTable, stop_all_background_processes}

abbrev pub sandbox_attempts : ℕ
sandbox_attempts = 4

-- In milliseconds.
unfoldable pub sandbox_backoff : ℕ → ℕ
sandbox_backoff attempt = let delay = 2 ^ attempt * 1000 in if ltb 8000 delay then 8000 else delay

-- An error that no further attempt can mend.
unfoldable pub is_fatal : Error → Bool
is_fatal e = is_sandbox_gone e || is_canceled e

-- `left` attempts remain, of which `attempt` is the number of the next; `stops n` is whether the
-- context is cancelled during the wait after attempt `n`.
unfoldable pub retry_from {ℓ} : {A : Type ℓ} → (ℕ → Result A) → (ℕ → Bool) → ℕ → ℕ → Result A
retry_from fn stops zero attempt = err canceled
retry_from fn stops (suc left) attempt =
    let rest = retry_from fn stops left (suc attempt) in
    elim (fn attempt) [
      | ok a ↦ ok a
      | err e ↦
          if is_fatal e
          then err e
          else elim left [ zero ↦ err e | suc _ ↦ if stops attempt then err canceled else rest ]
    ]

-- `retrySandbox`.
unfoldable pub retry_sandbox {ℓ} : {A : Type ℓ} → (ℕ → Result A) → (ℕ → Bool) → Result A
unfolding retry_from
retry_sandbox fn stops = retry_from fn stops sandbox_attempts 0

-- What the provider answers to each attempt of opening, asking for the state, and waking.
pub record Provider : Type 0 where
  pub opens : Text → ℕ → Result (Unit {0})
  pub state : ℕ → Result SandboxState
  pub wakes : ℕ → Result (Unit {0})
  pub stops : ℕ → Bool

-- `Service.setStatus`, on the caller's row and the table.
unfoldable pub set_status : SandboxStatus → ProjectRow × ProjectTable → ProjectRow × ProjectTable
set_status s (p, t) =
    if same_status p.status s
    then (p, t)
    else (record p { status = s }, set_sandbox_status p.id s t)

-- `markSandboxUnavailable`.
unfoldable pub mark_sandbox_unavailable :
    Error → ProjectRow × ProjectTable → ProjectRow × ProjectTable
unfolding set_status
mark_sandbox_unavailable e pt = if is_sandbox_gone e then set_status missing pt else pt

-- `Service.Sandbox`.
unfoldable pub open_sandbox : Provider → ProjectRow → ℕ → Result (Unit {0})
unfolding is_empty sandbox_name_of
open_sandbox v p attempt =
    if is_empty (sandbox_name_of p)
    then err (refused (codes "project has no sandbox"))
    else v.opens (sandbox_name_of p) attempt

abbrev unavailable :
    Text → Error → ProjectRow × ProjectTable → Result (Unit {0}) × (ProjectRow × ProjectTable)
unavailable what e pt = (err (wrapped what e), mark_sandbox_unavailable e pt)

-- From the state of the sandbox on.
unfoldable pub wake_by :
    Provider
    → SandboxState
    → ProjectRow × ProjectTable
    → Result (Unit {0}) × (ProjectRow × ProjectTable)
unfolding mark_sandbox_unavailable set_status
wake_by v state_missing pt = (err sandbox_gone, mark_sandbox_unavailable sandbox_gone pt)
wake_by v state_sleeping pt = elim (retry_sandbox v.wakes v.stops) [
  | err e ↦ unavailable (codes "wake sandbox") e pt
  | ok _ ↦ (ok tt, set_status ready pt)
]
wake_by v state_running pt = (ok tt, pt)
wake_by v state_unknown pt = (ok tt, pt)

-- `ReadySandbox`, and `Wake`, which is the same.
unfoldable pub ready_sandbox :
    Provider → ProjectRow × ProjectTable → Result (Unit {0}) × (ProjectRow × ProjectTable)
unfolding mark_sandbox_unavailable
ready_sandbox v (p, t) = elim (retry_sandbox (open_sandbox v p) v.stops) [
  | err e ↦ unavailable (codes "open sandbox") e (p, t)
  | ok _ ↦ elim (retry_sandbox v.state v.stops) [
    | err e ↦ unavailable (codes "read sandbox state") e (p, t)
    | ok s ↦ wake_by v s (p, t)
  ]
]

-- What `RefreshStatus` does with the state.
unfoldable pub refresh_by : SandboxState → ProjectRow × ProjectTable → ProjectRow × ProjectTable
refresh_by state_running (p, t) =
    if same_status p.status sleeping then set_status ready (p, t) else (p, t)
refresh_by state_sleeping (p, t) =
    if same_status p.status ready then set_status sleeping (p, t) else (p, t)
refresh_by state_missing pt = set_status missing pt
refresh_by state_unknown pt = pt

-- `RefreshStatus`.
unfoldable pub refresh_status : Provider → ProjectRow × ProjectTable → ProjectRow × ProjectTable
refresh_status v (p, t) =
    if is_provisioning p.status || is_empty (sandbox_name_of p)
    then (p, t)
    else elim (retry_sandbox (v.opens (sandbox_name_of p)) v.stops) [
      | err e ↦ if is_sandbox_gone e then set_status missing (p, t) else (p, t)
      | ok _ ↦ elim (retry_sandbox v.state v.stops) [ err e ↦ (p, t) | ok s ↦ refresh_by s (p, t) ]
    ]

-- The service: its tables, the setups that are under way, and those it has started.
pub record ProjectService : Type 0 where
  pub projects : ProjectTable
  pub processes : ProcessTable
  pub inflight : List ℕ
  pub started : List ℕ

abbrev is_port : ℤ → Bool
is_port (pos n) = ltb 0 n && not (ltb 65535 n)
is_port (negsuc n) = false

abbrev port_of : ℤ → ℕ
port_of (pos n) = n
port_of (negsuc n) = 0

abbrev bad_port : Error
bad_port = refused (codes "preview port must be between 1 and 65535")

-- `startProvision`, up to the goroutine that it starts.
unfoldable pub start_provision : ℕ → ProjectService → ProjectService
unfolding exists_row
start_provision i s =
    if exists_row (λ j. j == i) s.inflight
    then s
    else record s { inflight = i ∷ s.inflight; started = i ∷ s.started }

-- The deferred end of that goroutine.
unfoldable pub end_provision : ℕ → ProjectService → ProjectService
unfolding delete_rows
end_provision i s = record s { inflight = delete_rows (λ j. j == i) s.inflight }

-- `Service.Create`.
unfoldable pub create : Text → Text → ℤ → ProjectService → Result ProjectRow × ProjectService
unfolding is_empty create_project start_provision
create name_arg url_arg port s =
    let name = trim_space name_arg in
    let url = trim_space url_arg in
    if is_empty name
    then (err (refused (codes "project name is required")), s)
    else if is_empty url
    then (err (refused (codes "repository URL is required")), s)
    else if not (is_port port)
    then (err bad_port, s)
    else let (r, t) = create_project name url (codes "main") (port_of port) s.projects in
      elim r [
        | err e ↦ (err e, s)
        | ok p ↦ (ok p, start_provision p.id (record s { projects = t }))
      ]

-- `Recreate`: deleting the old sandbox is tried first, and does not stop it when it fails.
unfoldable pub recreate : ProjectRow → ProjectService → ProjectService
unfolding start_provision stop_all_background_processes set_sandbox_status reset_setup_log
recreate p s = start_provision p.id (record s {
  projects = set_sandbox_status p.id provisioning (reset_setup_log p.id s.projects);
  processes = (stop_all_background_processes p.id s.processes).1;
})

-- `Service.Delete`, likewise.
unfoldable pub delete : ProjectRow → ProjectService → Result (Unit {0}) × ProjectService
unfolding soft_delete_project stop_all_background_processes
delete p s =
    let (r, t) = soft_delete_project p.id s.projects in
    (r, record s { projects = t; processes = (stop_all_background_processes p.id s.processes).1 })

-- `Service.SetPreviewPort`.
unfoldable pub change_preview_port :
    ProjectRow → ℤ → ProjectService → Result (Unit {0}) × ProjectService
unfolding set_preview_port
change_preview_port p port s =
    if is_port port
    then (ok tt, record s { projects = set_preview_port p.id (port_of port) s.projects })
    else (err bad_port, s)
