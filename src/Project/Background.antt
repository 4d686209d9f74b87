-- ===== src/Project/Background.antt =====
-- internal/store/background.go: the processes that the agent has started. Rows are held newest
-- first, a key is a number, and the index bg_active_name is the test of the insert and of an update.
use doota.Prelude.{
  ℕ, suc, Bool, true, false, not, ◌&&◌, List, [], ◌∷◌, ◌++◌, Option, none, some, ◌==◌,
  if◌then◌else◌, first_row, exists_row, update_rows, count_rows, where_rows,
}
use doota.Prelude.Text.{Text, is_empty, text_eq}
use doota.Store.Query.{Result, ok, err, not_found, unique_violation}

pub data BgStatus : Type 0 where
  bg_running bg_stopped bg_unknown : BgStatus

pub record BackgroundProcess : Type 0 where
  pub id : ℕ
  pub project : ℕ
  pub name : Text
  pub command : Text
  pub cwd : Option Text
  pub log_path : Text
  pub status : BgStatus
  pub started_at : ℕ
  pub stopped_at : Option ℕ

pub record ProcessTable : Type 0 where
  pub rows : List BackgroundProcess
  pub serial : ℕ
  pub now : ℕ

-- `IsRunning` and `Dir`.
unfoldable pub is_bg_running : BgStatus → Bool
is_bg_running bg_running = true
is_bg_running _ = false

unfoldable pub dir_of : BackgroundProcess → Text
dir_of b = elim b.cwd [ none ↦ [] | some d ↦ d ]

-- `WHERE project_id = $1 AND name = $2`, and with the status in the index.
abbrev pub is_named : ℕ → Text → BackgroundProcess → Bool
is_named pid name b = b.project == pid && text_eq b.name name

abbrev pub is_running_named : ℕ → Text → BackgroundProcess → Bool
is_running_named pid name b = is_named pid name b && is_bg_running b.status

abbrev pub stopped_at_now : ℕ → BackgroundProcess → BackgroundProcess
stopped_at_now now b = record b { status = bg_stopped; stopped_at = some now }

unfoldable pub retire : ℕ → Text → ProcessTable → ProcessTable
retire pid name t = record t {
  rows = update_rows (is_running_named pid name) (stopped_at_now t.now) t.rows;
}

-- The row, with the defaults of the table.
abbrev pub new_process : ℕ → Text → Text → Text → Text → ProcessTable → BackgroundProcess
new_process pid name command cwd log_path t = record {
  id = t.serial;
  project = pid;
  name = name;
  command = command;
  cwd = if is_empty cwd then none else some cwd;
  log_path = log_path;
  status = bg_running;
  started_at = t.now;
  stopped_at = none;
}

unfoldable pub insert_process :
    ℕ → Text → Text → Text → Text → ProcessTable → Result BackgroundProcess × ProcessTable
insert_process pid name command cwd log_path t =
    let b = new_process pid name command cwd log_path t in
    if exists_row (is_running_named pid name) t.rows
    then (err unique_violation, t)
    else (ok b, record t { rows = b ∷ t.rows; serial = suc t.serial })

-- The end of a transaction, which an error rolls back.
abbrev pub committed :
    ProcessTable → Result BackgroundProcess × ProcessTable → Result BackgroundProcess × ProcessTable
committed t (err e, _) = (err e, t)
committed t (ok b, t') = (ok b, t')

-- `StartBackgroundProcess`: one transaction.
unfoldable pub start_background_process :
    ℕ → Text → Text → Text → Text → ProcessTable → Result BackgroundProcess × ProcessTable
start_background_process pid name command cwd log_path t =
    committed t (insert_process pid name command cwd log_path (retire pid name t))

abbrev pub found : Option BackgroundProcess → Result BackgroundProcess
found none = err not_found
found (some b) = ok b

-- `RunningBackgroundProcess` and `LatestBackgroundProcess`.
unfoldable pub running_background_process : ℕ → Text → ProcessTable → Result BackgroundProcess
running_background_process pid name t = found (first_row (is_running_named pid name) t.rows)

unfoldable pub latest_background_process : ℕ → Text → ProcessTable → Result BackgroundProcess
latest_background_process pid name t = found (first_row (is_named pid name) t.rows)

-- `ListBackgroundProcesses`: the running ones first.
unfoldable pub list_background_processes : ℕ → ProcessTable → List BackgroundProcess
list_background_processes pid t =
    where_rows (λ (b : BackgroundProcess). b.project == pid && is_bg_running b.status) t.rows
    ++ where_rows (λ (b : BackgroundProcess). b.project == pid && not (is_bg_running b.status))
        t.rows

-- `SetBackgroundProcessStatus`.
unfoldable pub set_background_process_status :
    ℕ → BgStatus → ProcessTable → Result (Unit {0}) × ProcessTable
set_background_process_status i s t =
    elim (first_row (λ (b : BackgroundProcess). b.id == i) t.rows) [
      | none ↦ (err not_found, t)
      | some b ↦
          if is_bg_running s
            && exists_row
                (λ (o : BackgroundProcess). is_running_named b.project b.name o && not (o.id == i))
                t.rows
          then (err unique_violation, t)
          else (
            ok tt,
            record t {
              rows =
                  update_rows (λ (o : BackgroundProcess). o.id == i)
                    (λ o. record o {
                      status = s;
                      stopped_at = if is_bg_running s then none else some t.now;
                    })
                    t.rows;
            },
          )
    ]

-- `StopAllBackgroundProcesses`, with the number of rows.
unfoldable pub stop_all_background_processes : ℕ → ProcessTable → ℕ × ProcessTable
stop_all_background_processes pid t =
    let chosen = λ (b : BackgroundProcess). b.project == pid && is_bg_running b.status in
    (count_rows chosen t.rows, record t { rows = update_rows chosen (stopped_at_now t.now) t.rows })
