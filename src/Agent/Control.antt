-- ===== src/Agent/Control.antt =====
-- internal/agent/agent.go: what the operator calls, `Submit` to `RevisePlan`.
use doota.Prelude.{
  ℕ, Bool, false, ◌&&◌, List, [], ◌∷◌, Option, none, some, ◌==◌, update_rows, if◌then◌else◌, length,
}
use doota.Prelude.Text.{Text, codes, trim_space, is_empty}
use doota.Store.Schema.{
  Run, Message, Project, SandboxStatus, is_running, is_awaiting, is_question, plan_payload,
  revising_payload,
}
use doota.Store.Query.{ok, err, busy, refused}
use doota.Store.Run.{
  active_run, interrupted_runs, request_pause, resume_run, create_run_with_message,
  append_answer_and_resume,
}
use doota.Store.Plan.{approve_plan, revise_plan}
use doota.Agent.State.{
  Service, Proc, ◌>>=◌, ◌>>◌, return, throw, store, publish, publish_run, publish_message, start,
}

-- A durable query: the run that holds the project is at work.
unfoldable pub is_busy : ℕ → Service → Bool
is_busy pid s = elim (active_run pid s.db) [ err _ ↦ false | ok r ↦ is_running r.state ]

-- The run waits for the answer to a question.
unfoldable pub takes_answer : Run → Bool
takes_answer r = is_awaiting r.state && is_question r.awaiting_reason

-- The end of `Submit`: tell the clients and start the worker.
unfoldable pub announce : ℕ → Run → Message → Proc Message
announce pid r m = do
  publish_message pid r.id "message.created" m
  publish_run r
  start r.id
  return m

-- The active run's part of `Submit`.
unfoldable pub answer : ℕ → Run → Text → Proc Message
unfolding takes_answer announce
answer pid r text =
    if takes_answer r
    then (do (m, resumed) ← store (append_answer_and_resume pid r.id text); announce pid resumed m)
    else throw busy

-- The rest of `Submit`: any failure to create the run is reported as `ErrBusy`.
unfoldable pub begin_run : ℕ → Text → Proc Message
unfolding announce
begin_run pid text s =
    let (created, s') = store (create_run_with_message pid text) s in
    elim created [ err _ ↦ (err busy, s') | ok (r, m) ↦ announce pid r m s' ]

unfoldable pub submit : ℕ → Text → Proc Message
unfolding answer begin_run is_empty
submit pid raw s =
    let text = trim_space raw in
    if is_empty text
    then (err (refused (codes "a message cannot be empty")), s)
    else elim (active_run pid s.db) [ ok r ↦ answer pid r text s | err _ ↦ begin_run pid text s ]

-- The cancels of the worker reach the model stream and the tool, which are outside the model.
unfoldable pub pause : ℕ → Proc (Unit {0})
pause pid = do r ← store (request_pause pid); publish_run r

unfoldable pub resume : ℕ → Proc (Unit {0})
resume pid = do r ← store (resume_run pid); publish_run r; start r.id

unfoldable pub start_all : List Run → Proc (Unit {0})
start_all [] = return tt
start_all (r ∷ rs) = do start r.id; start_all rs

unfoldable pub recover : Proc (Unit {0})
unfolding start_all
recover s = start_all (interrupted_runs s.db) s

-- What `ReadySandbox` leaves on the project's row: the status that it writes, where it writes one.
unfoldable pub note_status : ℕ → Option SandboxStatus → Service → Service
note_status pid none s = s
note_status pid (some status) s = record s {
  db = record s.db {
    projects =
        update_rows (λ (p : Project). p.id == pid) (λ p. record p { sandbox_status = status })
          s.db.projects;
  };
}

unfoldable pub ready_for : ℕ → Option SandboxStatus → Proc (Unit {0})
unfolding note_status
ready_for pid status s = (ok tt, note_status pid status s)

-- `status` is what waking the sandbox writes, whether that succeeds or not, and `base` is what git
-- printed for HEAD, empty where the sandbox did not answer.
unfoldable pub approve : ℕ → Option SandboxStatus → Text → Proc (Unit {0})
unfolding ready_for
approve pid status base = do
  ready_for pid status
  (pad, r, m) ← store (approve_plan pid base)
  publish_message pid r.id "message.created" m
  publish pid r.id "plan.updated" (plan_payload pad.title (length pad.tasks) pad.status)
  publish_run r
  start r.id

unfoldable pub revise : ℕ → Text → Proc (Unit {0})
revise pid feedback = do
  (r, m) ← store (revise_plan pid feedback)
  publish_message pid r.id "message.created" m
  publish pid r.id "plan.updated" revising_payload
  publish_run r
  start r.id
