-- ===== src/Agent/Worker/Run.antt =====
-- `awaitError`, `run` and the worker of `start` keep the invariant of the tables.
use doota.Prelude.{ℕ, zero, suc, Bool, true, false, some, if◌then◌else◌, update_rows}
use doota.Store.Schema.{Run, Project, missing, is_running, error, agent_error}
use doota.Store.Query.{Result, ok, err, Error, error_message, is_sandbox_gone}
use doota.Store.Run.{run_by_id, await_human}
use doota.Store.Plan.{is_project}
use doota.Store.Safety.{await_human-Keeps}
use doota.Agent.State.{Service, ◌>>=◌, ◌>>◌, return, throw, store, publish_run, set_state, retire}
use doota.Agent.Outside.{Outside, error_json}
use doota.Agent.Calls.{pause_run}
use doota.Agent.Loop.{
  advance, action_text, mark_missing, await_error, Ended, stopped, run_loop, work,
}
use doota.Agent.Safety.{
  ServiceInv, Sound, return-Sound, throw-Sound, sound_steps, if-Sound, either-ServiceInv,
}
use doota.Agent.Worker.Calls.{pause_run-Sound}
use doota.Agent.Worker.Loop.{advance-Sound}

mark_missing-ServiceInv :
    (e : Error) (pid : ℕ) (s : Service) → ServiceInv s → ServiceInv (mark_missing e pid s)
unfolding mark_missing
mark_missing-ServiceInv e pid s v = pick (is_sandbox_gone e)
  where
    pick :
        (b : Bool)
        → ServiceInv (
            if b
            then record s {
              db = record (s.db) {
                projects =
                    update_rows
                      (is_project pid)
                      (λ (p : Project). record p { sandbox_status = missing })
                      s.db.projects;
              };
            }
            else s)
    pick true = record {
      one_active = v.one_active;
      runs_below = v.runs_below;
      messages_below = v.messages_below;
      events_below = v.events_below;
    }
    pick false = v

pub await_error-Sound : (o : Outside) (rid : ℕ) (e : Error) → Sound (await_error o rid e)
unfolding await_error
await_error-Sound o rid e = record { sound = λ s v. found (run_by_id rid s.db) s v }
  where
    parked :
        (pid : ℕ)
        → Sound {A = Unit {0}} (do
          row ← store (
              await_human rid error
                (o.encode (error_json (error_message e) (action_text e)))
                (some (error_message e)))
          publish_run row
          set_state pid rid agent_error (error_message e))
    parked pid = search (sound_steps, await_human-Keeps) depth 8

    found :
        (r : Result Run) (s : Service)
        → ServiceInv s
        → ServiceInv
            (elim r as (λ _. Result (Unit {0}) × Service) [
              | err e' ↦ (err e', s)
              | ok r ↦
                  (do
                    row ← store (
                        await_human rid error
                          (o.encode (error_json (error_message e) (action_text e)))
                          (some (error_message e)))
                    publish_run row
                    set_state r.project rid agent_error (error_message e))
                    (mark_missing e r.project s)
            ]).1
    found (err e') s v = v
    found (ok r) s v =
        (parked r.project).sound (mark_missing e r.project s)
          (mark_missing-ServiceInv e r.project s v)

-- One turn of the loop, by what the row says and by what `advance` returned.
module _ (o : Outside) (rid : ℕ) where
  failed-Sound : (e : Error) → Sound {A = Ended} (do await_error o rid e; return stopped)
  failed-Sound e = search (sound_steps, await_error-Sound) depth 6

  turned :
      (r : Run) (fuel : ℕ)
      → Sound (run_loop o fuel rid)
      → (running paused : Bool) (s : Service) → ServiceInv s
      → ServiceInv
          (elim running as (λ _. Result Ended × Service) [
            | false ↦ (do publish_run r; return stopped) s
            | true ↦ elim paused as (λ _. Result Ended × Service) [
              | true ↦ (do pause_run rid; return stopped) s
              | false ↦
                  let (more, s₁) = advance o r s in
                  let rest = run_loop o fuel rid s₁ in
                  elim more as (λ _. Result Ended × Service) [
                    | err e ↦ (do await_error o rid e; return stopped) s₁
                    | ok go ↦ if go then rest else (ok stopped, s₁)
                  ]
            ]
          ]).1
  turned r fuel rest false paused s v = ended.sound s v
    where
      ended : Sound {A = Ended} (do publish_run r; return stopped)
      ended = search sound_steps depth 6
  turned r fuel rest true true s v = ended.sound s v
    where
      ended : Sound {A = Ended} (do pause_run rid; return stopped)
      ended = search (sound_steps, pause_run-Sound) depth 6
  turned r fuel rest true false s v =
      let a = advance o r s in
      either-ServiceInv (λ e. (do await_error o rid e; return stopped))
        (λ go. λ s. if go then run_loop o fuel rid s else (ok stopped, s)) a.0 a.1
        ((advance-Sound o r).sound s v) failed-Sound
        (λ go.
          if-Sound (λ _. go) (run_loop o fuel rid) (return stopped) rest (return-Sound stopped))

  pub run_loop-Sound : (fuel : ℕ) → Sound (run_loop o fuel rid)
  unfolding run_loop
  run_loop-Sound zero = return-Sound _
  run_loop-Sound (suc fuel) = record {
    sound = λ s v.
        either-ServiceInv throw
          (λ r. λ s. elim (is_running r.state) as (λ _. Result Ended × Service) [
            | false ↦ (do publish_run r; return stopped) s
            | true ↦ elim r.pause_requested as (λ _. Result Ended × Service) [
              | true ↦ (do pause_run rid; return stopped) s
              | false ↦
                  let (more, s₁) = advance o r s in
                  let rest = run_loop o fuel rid s₁ in
                  elim more as (λ _. Result Ended × Service) [
                    | err e ↦ (do await_error o rid e; return stopped) s₁
                    | ok go ↦ if go then rest else (ok stopped, s₁)
                  ]
            ]
          ])
          (run_by_id rid s.db) s v throw-Sound
          λ r. record {
            sound = turned r fuel (run_loop-Sound fuel) (is_running r.state) r.pause_requested;
          };
  }

  pub work-Sound : (fuel : ℕ) → Sound (work o fuel rid)
  unfolding work retire
  work-Sound fuel = record { sound = λ s v. (run_loop-Sound fuel).sound s v }
