-- ===== src/Store/Run.antt =====
-- internal/store/runs.go: the state of a run and its transitions.
use doota.Prelude.{
  ℕ, suc, ◌+◌, Bool, true, false, not, ◌&&◌, ◌||◌, List, [], ◌∷◌, Option, none, some, ◌==◌,
  if◌then◌else◌, first_row, where_rows, exists_row, reverse,
}
use doota.Prelude.Text.{Text}
use doota.Store.Schema.{
  Run, RunState, Awaiting, Message, NewMessage, ToolCall, Db, running, awaiting_human, paused, idle,
  user, is_active, is_running, is_awaiting, is_paused, is_plan_approval, is_assistant, is_tool,
  has_tool_calls,
}
use doota.Store.Query.{
  Tx, Result, ok, err, unique_violation, ◌>>=◌, return, found, update_run, append_message_tx,
}

-- The row that `UPDATE run SET state = running, …, error = NULL` writes.
unfoldable pub resumed_row : ℕ → Run → Run
resumed_row now r = record r {
  state = running;
  pause_requested = false;
  awaiting_reason = none;
  awaiting_payload = none;
  error_text = none;
  updated_at = now;
}

unfoldable pub awaiting_row : Awaiting → Text → ℕ → Run → Run
awaiting_row reason payload now r = record r {
  state = awaiting_human;
  awaiting_reason = some reason;
  awaiting_payload = some payload;
  updated_at = now;
}

-- A new row of run, with the defaults of the table.
unfoldable pub new_run : ℕ → ℕ → ℕ → Run
new_run id pid now = record {
  id = id;
  project = pid;
  state = running;
  awaiting_reason = none;
  awaiting_payload = none;
  pause_requested = false;
  error_text = none;
  step_count = 0;
  started_at = now;
  updated_at = now;
  finished_at = none;
}

-- A user turn with nothing but its text.
unfoldable pub user_turn : ℕ → ℕ → Text → NewMessage
user_turn pid rid content = record {
  project = pid;
  run = some rid;
  role = user;
  kind = none;
  content = content;
  reasoning_items = none;
  tool_calls = none;
  tool_call_id = none;
  tool_name = none;
  token_count = none;
  prompt_tokens = none;
  reasoning_tokens = none;
  interrupted = false;
  tool_display = none;
}

abbrev pub has_id : ℕ → Run → Bool
has_id rid r = r.id == rid

abbrev pub active_in : ℕ → Run → Bool
active_in pid r = r.project == pid && is_active r.state

abbrev pub of_run : ℕ → Message → Bool
of_run rid m = elim m.run [ none ↦ false | some k ↦ k == rid ]

-- The rows that the partial index run_one_active holds for a project.
abbrev pub indexed_in : ℕ → Run → Bool
indexed_in pid r =
    r.project == pid && (is_running r.state || is_awaiting r.state || is_paused r.state)

unfoldable pub latest_run : ℕ → Db → Result Run
latest_run pid db = found (first_row (λ (r : Run). r.project == pid) db.runs)

unfoldable pub active_run : ℕ → Db → Result Run
active_run pid db = found (first_row (active_in pid) db.runs)

unfoldable pub run_by_id : ℕ → Db → Result Run
run_by_id rid db = found (first_row (has_id rid) db.runs)

-- Oldest first.
unfoldable pub interrupted_runs : Db → List Run
interrupted_runs db = reverse (where_rows (λ (r : Run). is_running r.state) db.runs)

unfoldable pub request_pause : ℕ → Tx Run
request_pause pid db =
    update_run (λ r. r.project == pid && is_running r.state)
      (λ r. record r { pause_requested = true; updated_at = db.now }) db

unfoldable pub mark_paused : ℕ → Tx Run
mark_paused rid db =
    update_run (λ r. r.id == rid && is_running r.state)
      (λ r. record r { state = paused; updated_at = db.now }) db

-- Not false of the reason in `NOT (state = $4 AND awaiting_reason = $5)`, which leaves out a NULL too.
unfoldable pub is_plan_or_null : Option Awaiting → Bool
unfolding is_plan_approval
is_plan_or_null none = true
is_plan_or_null (some reason) = is_plan_approval (some reason)

-- A run that waits for its plan's approval is left out.
unfoldable pub resume_run : ℕ → Tx Run
resume_run pid db =
    update_run
      (λ r.
        r.project == pid
        && (is_paused r.state || is_awaiting r.state)
        && not (is_awaiting r.state && is_plan_or_null r.awaiting_reason))
      (resumed_row db.now) db

unfoldable pub await_human : ℕ → Awaiting → Text → Option Text → Tx Run
await_human rid reason payload cause db =
    update_run (λ r. r.id == rid && is_running r.state)
      (λ r. record (awaiting_row reason payload db.now r) { error_text = cause }) db

-- No guard on the state that the run is in.
unfoldable pub finish_run : ℕ → RunState → Option Text → Tx Run
finish_run rid state cause db =
    update_run (has_id rid)
      (λ r. record r {
        state = state;
        error_text = cause;
        finished_at = some db.now;
        updated_at = db.now;
      })
      db

unfoldable pub increment_run_step : ℕ → Tx Run
increment_run_step rid db =
    update_run (has_id rid) (λ r. record r { step_count = r.step_count + 1; updated_at = db.now })
      db

-- The newest assistant message of the run that asked for tools.
unfoldable pub asking_message : ℕ → Message → Bool
asking_message rid m = of_run rid m && is_assistant m.role && has_tool_calls m

-- `EXISTS(SELECT 1 FROM message WHERE run_id = $1 AND role = 'tool' AND tool_call_id = $3)`
unfoldable pub answered : ℕ → ℕ → List Message → Bool
answered rid cid msgs =
    exists_row
      (λ (m : Message).
        of_run rid m && is_tool m.role && elim m.tool_call_id [ none ↦ false | some k ↦ k == cid ])
      msgs

-- The ids of the calls with no result, in the order of the calls.
unfoldable pub unanswered : ℕ → List Message → List ToolCall → List ℕ
unanswered rid msgs [] = []
unanswered rid msgs (c ∷ cs) =
    let rest = unanswered rid msgs cs in if answered rid c.id msgs then rest else c.id ∷ rest

abbrev pub calls_of : Message → List ToolCall
calls_of m = elim m.tool_calls [ none ↦ [] | some cs ↦ cs ]

unfoldable pub trailing_tool_calls : ℕ → Db → Option (Message × List ℕ)
trailing_tool_calls rid db = elim (first_row (asking_message rid) db.messages) [
  | none ↦ none
  | some m ↦ some (m, unanswered rid db.messages (calls_of m))
]

-- `INSERT INTO run`, which the index run_one_active refuses beside another active run.
unfoldable pub insert_run : ℕ → Tx Run
insert_run pid db = elim (exists_row (indexed_in pid) db.runs) [
  | true ↦ err unique_violation
  | false ↦
      let r = new_run db.serial pid db.now in
      ok (r, record db { runs = r ∷ db.runs; serial = suc db.serial })
]

unfoldable pub create_run_with_message : ℕ → Text → Tx (Run × Message)
create_run_with_message pid content = do
  r ← insert_run pid
  m ← append_message_tx (user_turn pid r.id content)
  return (r, m)

-- `UPDATE run SET state = awaiting_human, … WHERE id = $1 AND state = running`
unfoldable pub park : ℕ → Awaiting → Text → Tx Run
park rid reason payload db =
    update_run (λ r. r.id == rid && is_running r.state) (awaiting_row reason payload db.now) db

unfoldable pub append_tool_result_and_await : ℕ → NewMessage → Awaiting → Text → Tx (Message × Run)
unfolding park
append_tool_result_and_await rid turn reason payload = do
  m ← append_message_tx turn
  r ← (λ db.
      update_run (λ r. r.id == rid && is_running r.state) (awaiting_row reason payload db.now) db)
  return (m, r)

-- The last message of the run is an assistant's final word.
unfoldable pub is_terminal : Message → Bool
is_terminal m = is_assistant m.role && not (has_tool_calls m) && not m.interrupted

unfoldable pub finish_terminal : ℕ → Tx Run
finish_terminal rid db =
    update_run (λ r. r.id == rid && is_running r.state)
      (λ r. record r { state = idle; finished_at = some db.now; updated_at = db.now }) db

-- The row that was finished; where no run was at work, there was nothing to recover.
unfoldable pub recovered : Db → Result (Run × Db) → Option Run × Db
recovered db (err _) = (none, db)
recovered db (ok (r, db')) = (some r, db')

abbrev pub is_final_word : Option Message → Bool
is_final_word none = false
is_final_word (some m) = is_terminal m

-- `none` where there was nothing to recover; the transaction is then given up.
unfoldable pub finish_if_terminal_assistant : ℕ → Db → Option Run × Db
unfolding finish_terminal recovered is_terminal
finish_if_terminal_assistant rid db =
    if is_final_word (first_row (of_run rid) db.messages)
    then recovered db (finish_terminal rid db)
    else (none, db)

unfoldable pub resume_answered : ℕ → ℕ → Tx Run
resume_answered pid rid db =
    update_run (λ r. r.id == rid && r.project == pid && is_awaiting r.state) (resumed_row db.now) db

unfoldable pub append_answer_and_resume : ℕ → ℕ → Text → Tx (Message × Run)
unfolding resume_answered
append_answer_and_resume pid rid content = do
  m ← append_message_tx (user_turn pid rid content)
  r ← (λ db.
      update_run (λ r. r.id == rid && r.project == pid && is_awaiting r.state) (resumed_row db.now)
        db)
  return (m, r)
