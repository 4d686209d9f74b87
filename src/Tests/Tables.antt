-- ===== src/Tests/Tables.antt =====
-- Runs of the store's operations, and the theorems about them at sample data.
use doota.Prelude.{
  ◌≡◌, ◌⊎◌, ◌==◌, refl, map, true, false, [], ◌∷◌, some, arith, first_row, where_rows, count_rows,
  exists_row, update_rows,
}
use doota.Prelude.Text.{codes, trim_space}
use doota.Store.Schema.{
  Run, Message, Db, Scratchpad, draft, idle, is_active, is_running, is_awaiting, is_paused,
  is_plan_approval, is_tool, approved, running,
}
use doota.Store.Query.{
  ok, err, not_found, unique_violation, after, update_run, scratchpad_tx, write_scratchpad,
  append_message_tx,
}
use doota.Store.Run.{
  active_in, of_run, answered, unanswered, resume_run, request_pause, create_run_with_message,
  user_turn, trailing_tool_calls, asking_message,
}
use doota.Store.Run
use doota.Store.Plan.{
  PlanDraft, draft_tasks, draft_pad, set_task, approve_plan, release_run, approval_text,
}
use doota.Store.Board.{empty_spec, empty_pad, awaiting_approval, is_empty_pad}
use doota.Store.Transcript.{clear_conversation, run_of, message_of, event_of}
use doota.Store.Invariant.{Inv}
use doota.Store.Laws.{
  resume_run-plan_approval, create_run_with_message-active, request_pause-active, key_state,
}
use doota.Store.Approval.{waits_for_plan, approve_plan-ok}
use doota.Store.Clearing.{clear_conversation-others}
use doota.Tests.Fixtures.{
  drafted_pad, working_run, waiting_run, db_of, read_call, list_call, asking_row, result_row,
  first_task, second_task,
}

waiting_Inv : Inv (db_of waiting_run)
unfolding count_rows is_active is_awaiting is_running is_paused
waiting_Inv = record {
  one_active = λ pid. ground arith;
  runs_below = (
    omega arith,
    record { awaits = λ e. refl; works = λ e. cc; rests = λ e. cc; ends = refl },
    tt,
  );
  messages_below = (omega arith, tt);
  events_below = tt;
}

resume_run-plan_approval_example : resume_run 7 (db_of waiting_run) ≡ err not_found
unfolding Run.active_run first_row is_active is_awaiting is_plan_approval
resume_run-plan_approval_example =
    resume_run-plan_approval 7 (db_of waiting_run) waiting_run waiting_Inv refl refl refl

create_run_with_message-active_example :
    let db = db_of working_run in
    ((r : Run) × (Run.active_run 8 db ≡ ok r)
      × (create_run_with_message 8 (codes "Go") db ≡ err unique_violation))
    ⊎ ((Run.active_run 8 db ≡ err not_found)
        × (r : Run) × (m : Message) × (db' : Db) × (create_run_with_message 8 (codes "Go") db
            ≡ ok ((r, m), db'))
        × (Run.active_run 8 db' ≡ ok r)
        × (m.turn ≡ user_turn 8 r.id (codes "Go"))
        × (db'.messages ≡ m ∷ db.messages)
        × (db'.projects ≡ db.projects)
        × (Run.active_run 7 db' ≡ Run.active_run 7 db))
create_run_with_message-active_example =
    create_run_with_message-active 8 (codes "Go") (db_of working_run) 7 refl

request_pause-active_example :
    (db' : Db) × (request_pause 7 (db_of working_run)
      ≡ ok (record working_run { pause_requested = true; updated_at = 20 }, db'))
    × (Run.active_run 7 db' ≡ ok (record working_run { pause_requested = true; updated_at = 20 }))
    × (map key_state db'.runs ≡ map key_state (db_of working_run).runs)
    × (where_rows (λ (r : Run). r.project == 8) db'.runs
        ≡ where_rows (λ (r : Run). r.project == 8) (db_of working_run).runs)
    × (db'.messages ≡ (db_of working_run).messages)
    × (db'.projects ≡ (db_of working_run).projects)
unfolding Run.active_run first_row is_active is_running
request_pause-active_example =
    request_pause-active 7 8 (db_of working_run) working_run refl refl refl

-- Of two calls, the second is still to be run once the first has its result.
pending_calls : unanswered 1 (result_row ∷ asking_row ∷ []) (read_call ∷ list_call ∷ []) ≡ 32 ∷ []
unfolding unanswered answered exists_row is_tool
pending_calls = refl

abbrev plan : PlanDraft
plan = record {
  title = codes " Fix it ";
  tasks = codes "Read " ∷ codes "Write" ∷ [];
  spec = empty_spec;
}

abbrev plan_pad : Scratchpad
plan_pad = record empty_pad {
  title = codes "Fix it";
  status = some draft;
  tasks = first_task ∷ second_task ∷ [];
}

drafted_plan : draft_pad plan ≡ ok plan_pad
unfolding draft_pad trim_space
drafted_plan = refl

-- The plan is approved, on top of a commit, while a pause is asked for.
abbrev approved_db : Db
approved_db = after (db_of waiting_run) (approve_plan 7 (codes "abc ") (db_of waiting_run))

approved_run : Run.active_run 7 approved_db ≡ ok (record working_run { updated_at = 20 })
unfolding approve_plan scratchpad_tx write_scratchpad release_run update_run append_message_tx
    awaiting_approval is_empty_pad first_row update_rows Run.active_run is_active is_awaiting
    is_plan_approval
approved_run = refl

abbrev plan_message : Message
plan_message = record {
  id = 5;
  turn = user_turn 7 1 approval_text;
  in_context = true;
  created_at = 20;
}

abbrev approved_pad : Scratchpad
approved_pad = record drafted_pad { status = some approved; base_commit = codes "abc" }

approve_plan-ok_example :
    (old : Run) × (pad₀ : Scratchpad) × (scratchpad_tx 7 (db_of waiting_run)
      ≡ ok (pad₀, db_of waiting_run))
    × (awaiting_approval pad₀ ≡ true)
    × (first_row (waits_for_plan 7) (db_of waiting_run).runs ≡ some old)
    × (approved_pad ≡ record pad₀ {
      status = some approved;
      base_commit = trim_space (codes "abc ");
      feedback = [];
    })
    × (scratchpad_tx 7 approved_db ≡ ok (approved_pad, approved_db))
    × (is_running running ≡ true)
    × (1 ≡ old.id)
    × (false ≡ old.pause_requested)
    × (plan_message.turn.run ≡ some old.id)
    × (Run.active_run 7 approved_db ≡ ok (record working_run { updated_at = 20 }))
    × (approved_db.messages ≡ plan_message ∷ (db_of waiting_run).messages)
unfolding approve_plan scratchpad_tx write_scratchpad release_run update_run append_message_tx
    awaiting_approval is_empty_pad first_row update_rows is_awaiting is_plan_approval trim_space
    user_turn doota.Store.Plan.approved_pad
approve_plan-ok_example =
    approve_plan-ok 7 (codes "abc ") (db_of waiting_run) approved_pad
      (record working_run { updated_at = 20 }) plan_message approved_db waiting_Inv refl

clear_conversation-others_example :
    let db = record (db_of working_run) {
      runs = record working_run { project = 8 } ∷ record working_run { state = idle } ∷ [];
    } in
    let db' = after db (clear_conversation 7 db) in
    (count_rows (run_of 7) db'.runs ≡ 0)
    × (count_rows (message_of 7) db'.messages ≡ 0)
    × (count_rows (event_of 7) db'.events ≡ 0)
    × (where_rows (run_of 8) db'.runs ≡ where_rows (run_of 8) db.runs)
    × (where_rows (message_of 8) db'.messages ≡ where_rows (message_of 8) db.messages)
    × (where_rows (event_of 8) db'.events ≡ where_rows (event_of 8) db.events)
unfolding exists_row is_active
clear_conversation-others_example =
    clear_conversation-others 7 8
      (record (db_of working_run) {
        runs = record working_run { project = 8 } ∷ record working_run { state = idle } ∷ [];
      })
      refl refl
