-- ===== src/Project/Names.antt =====
-- One running process for a name.
use doota.Prelude.{
  ℕ, suc, ◌≤◌, ◌≡◌, refl, ap, ◌∙◌, true, false, ◌&&◌, List, [], ◌∷◌, some, arith, ◌==◌, first_row,
  exists_row, count_rows, eq_self, Bool-cases, Option-cases, inl, inr,
}
use doota.Prelude.Text.{Text, text_eq, text_eq_refl, text_eq_sound}
use doota.Store.Query.{ok}
use doota.Store.Rows.{
  count_rows-update_rows_le, exists_row-update_rows_none, count_rows-exists_row,
  first_row-update_rows_other,
}
use doota.Project.Background.{
  BackgroundProcess, ProcessTable, bg_stopped, is_bg_running, is_running_named, stopped_at_now,
  new_process, committed, found, retire, insert_process, start_background_process,
  running_background_process, set_background_process_status, stop_all_background_processes,
}

-- The calls that the program makes: bash_bg, the end of a process that has stopped, and a sandbox
-- that is replaced.
pub data ProcessCall : Type 0 where
  starts : ℕ → Text → Text → Text → Text → ProcessCall
  stops stops_all : ℕ → ProcessCall

unfoldable pub process_call : ProcessCall → ProcessTable → ProcessTable
process_call (starts pid name command cwd log_path) t =
    (start_background_process pid name command cwd log_path t).1
process_call (stops i) t = (set_background_process_status i bg_stopped t).1
process_call (stops_all pid) t = (stop_all_background_processes pid t).1

unfoldable pub process_run : List ProcessCall → ProcessTable → ProcessTable
process_run [] t = t
process_run (c ∷ cs) t = process_run cs (process_call c t)

abbrev pub OneRunning : ProcessTable → Type 0
OneRunning t = (pid : ℕ) (name : Text) → count_rows (is_running_named pid name) t.rows ≤ 1

stopped-is_running_named :
    (pid now : ℕ) (name : Text) (b : BackgroundProcess)
    → is_running_named pid name (stopped_at_now now b) ≡ false
unfolding is_bg_running
stopped-is_running_named pid now name b = ground arith

insert_process-retire :
    (pid : ℕ) (name command cwd log_path : Text) (t : ProcessTable)
    → exists_row (is_running_named pid name) (retire pid name t).rows ≡ false
unfolding retire
insert_process-retire pid name command cwd log_path t =
    exists_row-update_rows_none (is_running_named pid name) (stopped_at_now t.now) t.rows
      (stopped-is_running_named pid t.now name)

insert_process-free :
    (pid : ℕ) (name command cwd log_path : Text) (t : ProcessTable)
    → exists_row (is_running_named pid name) t.rows ≡ false
    → let b = new_process pid name command cwd log_path t in
      insert_process pid name command cwd log_path t
      ≡ (ok b, record t { rows = b ∷ t.rows; serial = suc t.serial })
unfolding insert_process
insert_process-free pid name command cwd log_path t h = rw h

-- A start never meets the index: the row before it has been retired.
start-eq :
    (pid : ℕ) (name command cwd log_path : Text) (t : ProcessTable)
    → let b = new_process pid name command cwd log_path t in
      start_background_process pid name command cwd log_path t
      ≡ (ok b, record t { rows = b ∷ (retire pid name t).rows; serial = suc t.serial })
unfolding start_background_process retire
start-eq pid name command cwd log_path t = ap (committed t) (
    insert_process-free pid name command cwd log_path (retire pid name t)
      (insert_process-retire pid name command cwd log_path t))

new-is_running_named :
    (pid : ℕ) (name command cwd log_path : Text) (t : ProcessTable) (pid' : ℕ) (name' : Text)
    → is_running_named pid' name' (new_process pid name command cwd log_path t) ≡ true
    → (pid ≡ pid') × (name ≡ name')
unfolding is_bg_running
new-is_running_named pid name command cwd log_path t pid' name' h =
    ground (arith, text_eq_sound name name')

retire-OneRunning :
    (pid : ℕ) (name : Text) (t : ProcessTable) → OneRunning t → OneRunning (retire pid name t)
unfolding retire
retire-OneRunning pid name t h pid' name' = omega (
  arith,
  h pid' name',
  count_rows-update_rows_le (is_running_named pid' name') (is_running_named pid name)
      (stopped_at_now t.now) t.rows
      (λ b hit after. let off = stopped-is_running_named pid' t.now name' b in cc),
)

count_rows-new :
    (pid : ℕ) (name command cwd log_path : Text) (t : ProcessTable) (pid' : ℕ) (name' : Text)
    → count_rows (is_running_named pid' name') (retire pid name t).rows ≤ 1
    → count_rows
        (is_running_named pid' name')
        (new_process pid name command cwd log_path t ∷ (retire pid name t).rows)
      ≤ 1
unfolding count_rows
count_rows-new pid name command cwd log_path t pid' name' h =
    elim (Bool-cases (is_running_named pid' name' (new_process pid name command cwd log_path t))) [
      | inr miss ↦ rw miss (omega (arith, h))
      | inl hit ↦
          let (same_pid, same_name) =
            new-is_running_named pid name command cwd log_path t pid' name' hit in
          let none_left : count_rows (is_running_named pid' name') (retire pid name t).rows ≡ 0 =
            rw (← same_pid) (
              rw (← same_name) (
                count_rows-exists_row (is_running_named pid name) (retire pid name t).rows
                  (insert_process-retire pid name command cwd log_path t))) in
          rw hit (omega (arith, none_left))
    ]

start-OneRunning :
    (pid : ℕ) (name command cwd log_path : Text) (t : ProcessTable)
    → OneRunning t
    → OneRunning (start_background_process pid name command cwd log_path t).1
start-OneRunning pid name command cwd log_path t h pid' name' =
    rw (start-eq pid name command cwd log_path t) (
      count_rows-new pid name command cwd log_path t pid' name'
        (retire-OneRunning pid name t h pid' name'))

stop-is_running_named :
    (now pid : ℕ) (name : Text) (b : BackgroundProcess)
    → is_running_named pid name (record b { status = bg_stopped; stopped_at = some now }) ≡ false
unfolding is_bg_running
stop-is_running_named now pid name b = ground arith

set_stopped-OneRunning :
    (i : ℕ) (t : ProcessTable)
    → OneRunning t
    → OneRunning (set_background_process_status i bg_stopped t).1
unfolding set_background_process_status is_bg_running
set_stopped-OneRunning i t h pid name =
    elim (Option-cases (first_row (λ (b : BackgroundProcess). b.id == i) t.rows)) [
      | inl absent ↦ rw (absent, set_background_process_status) (h pid name)
      | inr (b, found) ↦
          rw (found, set_background_process_status)
            (omega (
              arith,
              h pid name,
              count_rows-update_rows_le (is_running_named pid name)
                  (λ (o : BackgroundProcess). o.id == i)
                  (λ o. record o { status = bg_stopped; stopped_at = some t.now }) t.rows
                  (λ o hit after. let off = stop-is_running_named t.now pid name o in cc),
            ))
    ]

stop_all-OneRunning :
    (pid : ℕ) (t : ProcessTable) → OneRunning t → OneRunning (stop_all_background_processes pid t).1
unfolding stop_all_background_processes
stop_all-OneRunning pid t h pid' name = omega (
  arith,
  h pid' name,
  count_rows-update_rows_le (is_running_named pid' name)
      (λ (b : BackgroundProcess). b.project == pid && is_bg_running b.status) (stopped_at_now t.now)
      t.rows (λ b hit after. let off = stopped-is_running_named pid' t.now name b in cc),
)

process_call-OneRunning :
    (c : ProcessCall) (t : ProcessTable) → OneRunning t → OneRunning (process_call c t)
unfolding process_call
process_call-OneRunning (starts pid name command cwd log_path) t h =
    start-OneRunning pid name command cwd log_path t h
process_call-OneRunning (stops i) t h = set_stopped-OneRunning i t h
process_call-OneRunning (stops_all pid) t h = stop_all-OneRunning pid t h

-- Whatever calls are made in whatever order, no project has two running processes of one name.
pub process_run-OneRunning :
    (cs : List ProcessCall) (t : ProcessTable) → OneRunning t → OneRunning (process_run cs t)
unfolding process_run
process_run-OneRunning [] t h = h
process_run-OneRunning (c ∷ cs) t h =
    process_run-OneRunning cs (process_call c t) (process_call-OneRunning c t h)

found-new :
    (pid : ℕ) (name command cwd log_path : Text) (t : ProcessTable)
    → let b = new_process pid name command cwd log_path t in
      running_background_process pid name
        (record t { rows = b ∷ (retire pid name t).rows; serial = suc t.serial })
      ≡ ok b
unfolding running_background_process first_row is_bg_running
found-new pid name command cwd log_path t = rw (eq_self pid, text_eq_refl name)

named_other :
    (pid pid' : ℕ) (name name' : Text) (b : BackgroundProcess)
    → (pid == pid' && text_eq name name') ≡ false
    → is_running_named pid name b ≡ true
    → is_running_named pid' name' b ≡ false
named_other pid pid' name name' b other hit = ground (arith, text_eq_sound b.name name)

first_row-miss :
    (pid : ℕ) (name command cwd log_path : Text) (t : ProcessTable) (pid' : ℕ) (name' : Text)
    → (pid == pid' && text_eq name name') ≡ false
    → first_row
        (is_running_named pid' name')
        (new_process pid name command cwd log_path t ∷ (retire pid name t).rows)
      ≡ first_row (is_running_named pid' name') (retire pid name t).rows
unfolding first_row
first_row-miss pid name command cwd log_path t pid' name' other = ground arith

found-other :
    (pid : ℕ) (name command cwd log_path : Text) (t : ProcessTable) (pid' : ℕ) (name' : Text)
    → (pid == pid' && text_eq name name') ≡ false
    → running_background_process pid' name' (record t {
      rows = new_process pid name command cwd log_path t ∷ (retire pid name t).rows;
      serial = suc t.serial;
    })
      ≡ running_background_process pid' name' t
unfolding running_background_process retire
found-other pid name command cwd log_path t pid' name' other = ap found (
    first_row-miss pid name command cwd log_path t pid' name' other
    ∙ first_row-update_rows_other (is_running_named pid' name') (is_running_named pid name)
        (stopped_at_now t.now) t.rows (λ b hit. named_other pid pid' name name' b other hit)
        (λ b hit. stopped-is_running_named pid' t.now name' b))

-- A start succeeds on every table: the process it makes is then the one that is found running under
-- its name, and what is found under any other name or project does not change.
pub start_background_process-running :
    (pid : ℕ) (name command cwd log_path : Text) (t : ProcessTable) (pid' : ℕ) (name' : Text)
    → (pid == pid' && text_eq name name') ≡ false
    → let (r, t') = start_background_process pid name command cwd log_path t in
      (b : BackgroundProcess) × (r ≡ ok b)
      × (running_background_process pid name t' ≡ ok b)
      × (running_background_process pid' name' t' ≡ running_background_process pid' name' t)
start_background_process-running pid name command cwd log_path t pid' name' other =
    rw (start-eq pid name command cwd log_path t) (
      new_process pid name command cwd log_path t,
      refl,
      found-new pid name command cwd log_path t,
      found-other pid name command cwd log_path t pid' name' other,
    )
