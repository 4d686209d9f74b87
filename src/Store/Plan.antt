-- ===== src/Store/Plan.antt =====
-- internal/store/scratchpad.go, lines 185 to 499: the plan's transactions.
use doota.Prelude.{
  ℕ, suc, Bool, not, ◌&&◌, List, [], ◌∷◌, ◌++◌, Option, none, some, ◌==◌, if◌then◌else◌,
  update_rows,
}
use doota.Prelude.Text.{Text, codes, is_empty, trim_space, text_eq, decimal}
use doota.Store.Schema.{
  Run, Message, NewMessage, Task, TaskStatus, Spec, Scratchpad, Project, pending, doing, completed,
  blocked, draft, approved, plan_approval, running, is_awaiting, is_plan_approval,
}
use doota.Store.Query.{
  Tx, Result, ok, err, refused, ◌>>=◌, ◌>>◌, return, guard, lift, or_fail, update_run,
  append_message_tx, scratchpad_tx, write_scratchpad,
}
use doota.Store.Run.{park, user_turn}
use doota.Store.Board.{empty_pad, awaiting_approval, is_empty_pad}

pub record PlanDraft : Type 0 where
  pub title : Text
  pub tasks : List Text
  pub spec : Spec

-- The tasks of a fresh board, numbered from `n`; an error where a summary is blank.
unfoldable pub draft_tasks : ℕ → List Text → Result (List Task)
unfolding is_empty
draft_tasks n [] = ok []
draft_tasks n (s ∷ ss) =
    let rest = draft_tasks (suc n) ss in
    if is_empty (trim_space s)
    then err (refused (codes "task " ++ decimal n ++ codes " needs a summary"))
    else elim rest [
      | err e ↦ err e
      | ok ts ↦ ok (record { n = n; summary = trim_space s; status = pending; note = [] } ∷ ts)
    ]

-- The checks of `WritePlan` before its transaction.
unfoldable pub draft_pad : PlanDraft → Result Scratchpad
unfolding is_empty draft_tasks
draft_pad d =
    if is_empty (trim_space d.title)
    then err (refused (codes "a plan needs a title"))
    else if is_empty d.tasks
    then err (refused (codes "a plan needs at least one task"))
    else elim (draft_tasks 1 d.tasks) [
      | err e ↦ err e
      | ok ts ↦ ok (record empty_pad {
        title = trim_space d.title;
        status = some draft;
        spec = d.spec;
        tasks = ts;
      })
    ]

unfoldable pub write_plan : ℕ → ℕ → PlanDraft → NewMessage → Text → Tx (Scratchpad × Run × Message)
write_plan pid rid d turn payload = do
  pad ← lift (draft_pad d)
  scratchpad_tx pid
  write_scratchpad pid pad
  m ← append_message_tx turn
  r ← park rid plan_approval payload
  return (pad, r, m)

-- The row that an approval or a revision writes. `pause_requested` is left as it is.
unfoldable pub released_row : ℕ → Run → Run
released_row now r = record r {
  state = running;
  awaiting_reason = none;
  awaiting_payload = none;
  updated_at = now;
}

unfoldable pub release_run : ℕ → Tx Run
unfolding released_row
release_run pid db =
    update_run (λ r. r.project == pid && is_awaiting r.state && is_plan_approval r.awaiting_reason)
      (released_row db.now) db

abbrev pub approval_text : Text
approval_text =
    codes
      "Plan approved. Start working through the subtasks now: mark each one doing, do the work, commit it, mark it done. Do not ask again for permission."

abbrev pub no_draft : Text
no_draft = codes "there is no drafted plan waiting for approval"

unfoldable pub approved_pad : Text → Scratchpad → Scratchpad
approved_pad base pad = record pad {
  status = some approved;
  base_commit = trim_space base;
  feedback = [];
}

unfoldable pub approve_plan : ℕ → Text → Tx (Scratchpad × Run × Message)
approve_plan pid base = do
  pad ← scratchpad_tx pid
  guard (awaiting_approval pad) (refused no_draft)
  write_scratchpad pid (approved_pad base pad)
  r ← release_run pid
  m ← append_message_tx (user_turn pid r.id approval_text)
  return (approved_pad base pad, r, m)

abbrev pub revision_text : Text → Text
revision_text feedback =
    codes "Revise the plan: " ++ feedback ++ codes "\n\nPresent the new plan with create_plan."

unfoldable pub revise_plan : ℕ → Text → Tx (Run × Message)
unfolding is_empty
revise_plan pid text =
    let feedback = trim_space text in
    do
      guard (not (is_empty feedback)) (refused (codes "revision feedback is required"))
      pad ← scratchpad_tx pid
      guard (awaiting_approval pad) (refused no_draft)
      write_scratchpad pid (record empty_pad { feedback = feedback })
      r ← release_run pid
      m ← append_message_tx (user_turn pid r.id (revision_text feedback))
      return (r, m)

-- The `switch` on a status that both update_task and `UpdateTask` make.
unfoldable pub task_status : Text → Option TaskStatus
unfolding text_eq
task_status s =
    if text_eq s (codes "pending")
    then some pending
    else if text_eq s (codes "doing")
    then some doing
    else if text_eq s (codes "done")
    then some completed
    else if text_eq s (codes "blocked")
    then some blocked
    else none

-- The loop over the tasks, up to its `break`; `none` where no task has the number.
unfoldable pub set_task : ℕ → TaskStatus → Text → List Task → Option (List Task)
set_task n status note [] = none
set_task n status note (t ∷ ts) =
    let rest = set_task n status note ts in
    if t.n == n
    then some (record t { status = status; note = trim_space note } ∷ ts)
    else elim rest [ none ↦ none | some ts' ↦ some (t ∷ ts') ]

unfoldable pub update_task : ℕ → ℕ → Text → Text → NewMessage → Tx (Scratchpad × Message)
update_task pid n status note turn = do
  st ←
      or_fail (task_status status)
        (refused (codes "status must be pending, doing, done, or blocked"))
  pad ← scratchpad_tx pid
  guard (not (is_empty_pad pad)) (refused (codes "there is no plan to update"))
  ts ←
      or_fail (set_task n st note pad.tasks)
        (refused (codes "there is no task " ++ decimal n ++ codes " on the board"))
  write_scratchpad pid (record pad { tasks = ts })
  m ← append_message_tx turn
  return (record pad { tasks = ts }, m)

unfoldable pub clear_plan : ℕ → Tx (Unit {0})
clear_plan pid = write_scratchpad pid empty_pad

abbrev pub is_project : ℕ → Project → Bool
is_project pid p = p.id == pid

unfoldable pub set_memories : ℕ → Text → Tx (Unit {0})
set_memories pid text db = ok (
  tt,
  record db {
    projects =
        update_rows (is_project pid) (λ p. record p { memories = trim_space text }) db.projects;
  },
)

unfoldable pub set_orientation : ℕ → Text → Tx (Unit {0})
set_orientation pid text db = ok (
  tt,
  record db {
    projects =
        update_rows (is_project pid) (λ p. record p { orientation = trim_space text }) db.projects;
  },
)
