-- ===== src/Agent/Turns.antt =====
-- A worker at the head of its loop, and a message of the operator.
use doota.Prelude.{
  ℕ, suc, some, ◌≡◌, refl, ap, ◌∙◌, true, false, ◌&&◌, arith, if◌then◌else◌, update_rows, first_row,
  first_row-holds, ◌==◌,
}
use doota.Prelude.Text.{Text, codes, is_empty, trim_space}
use doota.Store.Schema.{Run, Db, paused, is_running, agent_idle}
use doota.Store.Query.{Tx, Result, ok, err, busy, found}
use doota.Store.Run.{active_run, run_by_id, mark_paused, has_id}
use doota.Store.Rows.{first_row-narrow, first_row-update}
use doota.Store.Laws.{update_run-hit, found_ok}
use doota.Store.Transcript.{append_event}
use doota.Agent.State.{Service, ◌>>◌, return, store, publish, publish_run, set_state}
use doota.Agent.Control.{submit, answer, takes_answer}
use doota.Agent.Outside.{Outside}
use doota.Agent.Calls.{is_not_found, pause_run}
use doota.Agent.Loop.{Ended, stopped, run_loop}

abbrev paused_row : ℕ → Run → Run
paused_row now r = record r { state = paused; updated_at = now }

mark_paused-running :
    (rid : ℕ) (db : Db) (r : Run)
    → run_by_id rid db ≡ ok r
    → is_running r.state ≡ true
    → let db' = record db {
      runs = update_rows (λ r. r.id == rid && is_running r.state) (paused_row db.now) db.runs;
    } in
      (mark_paused rid db ≡ ok (paused_row db.now r, db'))
      × (run_by_id rid db' ≡ ok (paused_row db.now r))
unfolding run_by_id mark_paused
mark_paused-running rid db r h works =
    let row : first_row (has_id rid) db.runs ≡ some r = found_ok _ r h in
    let mine : (r.id == rid && is_running r.state) ≡ true =
      ground (arith, first_row-holds (has_id rid) db.runs r row) in
    let first =
      first_row-narrow (has_id rid) (λ r. r.id == rid && is_running r.state) db.runs r
        (λ x e. ground arith) row mine in
    (
      update_run-hit _ (paused_row db.now) db r first,
      ap found (first_row-update (has_id rid) _ (paused_row db.now) db.runs r (λ x. refl) row mine),
    )

store-ok :
    {A : Type 0} (t : Tx A) (s : Service) (a : A) (db : Db)
    → t s.db ≡ ok (a, db)
    → store t s ≡ (ok a, record s { db = db })
unfolding store
store-ok t s a db h = rw (h, store) refl

pause_run-marked :
    (rid : ℕ) (s : Service) (r : Run) (db : Db)
    → mark_paused rid s.db ≡ ok (r, db)
    → pause_run rid s
      ≡ (do publish_run r; set_state r.project r.id agent_idle (codes "paused"))
          (record s { db = db })
unfolding pause_run
pause_run-marked rid s r db h =
    ap
      (λ (x : Result Run × Service). elim x.0 as (λ _. Result (Unit {0}) × Service) [
        | err e ↦ if is_not_found e then (ok tt, x.1) else (err e, x.1)
        | ok r ↦ (do publish_run r; set_state r.project r.id agent_idle (codes "paused")) x.1
      ])
      (store-ok (mark_paused rid) s r db h)

-- What a pause does to the tables, beside the events that it publishes.
pause_run-running :
    (rid : ℕ) (s : Service) (r : Run)
    → run_by_id rid s.db ≡ ok r
    → is_running r.state ≡ true
    → ((pause_run rid s).0 ≡ ok tt)
      × (run_by_id rid (pause_run rid s).1.db ≡ ok (paused_row s.db.now r))
      × ((pause_run rid s).1.db.messages ≡ s.db.messages)
      × ((pause_run rid s).1.db.tool_logs ≡ s.db.tool_logs)
unfolding publish_run set_state publish append_event run_by_id
pause_run-running rid s r h works =
    let (marked, later) = mark_paused-running rid s.db r h works in
    rw (pause_run-marked rid s (paused_row s.db.now r) _ marked) (refl, later, refl, refl)

run_loop-stopped :
    (o : Outside) (fuel rid : ℕ) (s : Service) (r : Run)
    → run_by_id rid s.db ≡ ok r
    → is_running r.state ≡ true
    → r.pause_requested ≡ true
    → run_loop o (suc fuel) rid s ≡ (pause_run rid >> return stopped) s
unfolding run_loop
run_loop-stopped o fuel rid s r h works asked = rw (h, works, asked, run_loop) refl

then_return :
    (rid : ℕ) (s : Service)
    → (pause_run rid s).0 ≡ ok tt
    → (pause_run rid >> return stopped) s ≡ (ok stopped, (pause_run rid s).1)
then_return rid s h =
    ap
      (λ (x : Result (Unit {0})). elim x as (λ _. Result Ended × Service) [
        | err e ↦ (err e, (pause_run rid s).1)
        | ok _ ↦ (ok stopped, (pause_run rid s).1)
      ])
      h

-- A pause that was asked for takes effect at the head of the next round: the loop ends there, the
-- run is paused, and neither the model nor a tool has been called, whatever they would do.
pub run_loop-pause_requested :
    (o : Outside) (fuel rid : ℕ) (s : Service) (r : Run)
    → run_by_id rid s.db ≡ ok r
    → is_running r.state ≡ true
    → r.pause_requested ≡ true
    → let (ended, s') = run_loop o (suc fuel) rid s in
      (ended ≡ ok stopped)
      × (run_by_id rid s'.db ≡ ok (record r { state = paused; updated_at = s.db.now }))
      × (s'.db.messages ≡ s.db.messages)
      × (s'.db.tool_logs ≡ s.db.tool_logs)
run_loop-pause_requested o fuel rid s r h works asked =
    let (done, later, messages, logs) = pause_run-running rid s r h works in
    rw (run_loop-stopped o fuel rid s r h works asked ∙ then_return rid s done)
      (refl, later, messages, logs)

-- While the run that holds the project is at work, or waits for something else than the answer to a
-- question, a message is refused and nothing changes.
pub submit-busy :
    (pid : ℕ) (raw : Text) (s : Service) (r : Run)
    → is_empty (trim_space raw) ≡ false
    → active_run pid s.db ≡ ok r
    → takes_answer r ≡ false
    → submit pid raw s ≡ (err busy, s)
unfolding submit answer
submit-busy pid raw s r some_text holds closed = rw (some_text, holds, closed, submit, answer) refl
