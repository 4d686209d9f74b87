-- ===== src/Store/Safety.antt =====
-- Every operation of the store keeps the invariant of its tables.
use Prim.Native.String.{String}
use native.Mathlib.Nat.{le_trans}
use doota.Prelude.{
  exists_row, ℕ, ◌≡◌, refl, Bool, true, false, not, ◌&&◌, ◌||◌, Option, some, arith, ◌==◌, ◌+◌,
  first_row, Bool-cases, inl, inr,
}
use doota.Prelude.Text.{Text}
use doota.Store.Schema.{
  Run, RunState, Awaiting, NewMessage, Db, Payload, paused, is_active, is_running, is_awaiting,
  is_paused, is_plan_approval,
}
use doota.Store.Query.{Result, ok, err, after}
use doota.Store.Run.{
  resumed_row, awaiting_row, request_pause, mark_paused, resume_run, await_human, finish_run,
  increment_run_step, create_run_with_message, append_tool_result_and_await,
  finish_if_terminal_assistant, append_answer_and_resume, is_plan_or_null, active_in, has_id, park,
  resume_answered, finish_terminal, recovered, is_final_word, of_run,
}
use doota.Store.Plan.{
  PlanDraft, write_plan, released_row, release_run, approve_plan, revise_plan, update_task,
  clear_plan, set_memories, set_orientation,
}
use doota.Store.Transcript.{
  ClearedCounts, cleared_counts, delete_all, clear_board, clear_conversation, append_event,
  append_message,
}
use doota.Store.Invariant.{
  after-Inv, serial-Inv, count-delete, delete-RunsBelow, delete-MessagesBelow, delete-EventsBelow,
  Consistent, IsSafe, Inv, Keeps, update_run-Inv, append_message_tx-Keeps, write_scratchpad-Keeps,
  keeps,
}

-- The state of a row after a write, with what the write leaves of its reason.
abbrev Writes : (Run → Bool) → (Run → Run) → Type 0
Writes p f =
    (r : Run)
    → p r ≡ true
    → (is_active (f r).state ≡ true → is_active r.state ≡ true) × (Consistent r → Consistent (f r))

IsSafe-write :
    (p : Run → Bool) (f : Run → Run)
    → ((r : Run) → (f r).id ≡ r.id)
    → ((r : Run) → (f r).project ≡ r.project)
    → Writes p f
    → IsSafe p f
IsSafe-write p f ids projects writes = record {
  same_id = ids;
  same_project = projects;
  activates_none = λ r hit. (writes r hit).0;
  consistent = λ r hit. (writes r hit).1;
}

pub request_pause-Keeps : (pid : ℕ) → Keeps (request_pause pid)
unfolding request_pause is_running is_active is_awaiting is_paused
request_pause-Keeps pid = record {
  kept = λ db.
      update_run-Inv (λ r. r.project == pid && is_running r.state)
        (λ r. record r { pause_requested = true; updated_at = db.now })
        (IsSafe-write _ _ (λ r. refl) (λ r. refl) (λ r hit. (ground arith, λ c. ground arith))) db;
}

pub mark_paused-Keeps : (rid : ℕ) → Keeps (mark_paused rid)
unfolding mark_paused is_running is_active is_awaiting is_paused
mark_paused-Keeps rid = record {
  kept = λ db.
      update_run-Inv (λ r. r.id == rid && is_running r.state)
        (λ r. record r { state = paused; updated_at = db.now })
        (IsSafe-write _ _ (λ r. refl) (λ r. refl) (λ r hit. (ground arith, λ c. ground arith))) db;
}

pub resume_run-Keeps : (pid : ℕ) → Keeps (resume_run pid)
unfolding resume_run is_running is_active is_awaiting is_paused resumed_row
resume_run-Keeps pid = record {
  kept = λ db.
      update_run-Inv
        (λ r.
          r.project == pid
          && (is_paused r.state || is_awaiting r.state)
          && not (is_awaiting r.state && is_plan_or_null r.awaiting_reason))
        (resumed_row db.now)
        (IsSafe-write _ _ (λ r. refl) (λ r. refl) (λ r hit. (ground arith, λ c. ground arith))) db;
}

pub await_human-Keeps :
    (rid : ℕ) (reason : Awaiting) (payload : Text) (cause : Option Text)
    → Keeps (await_human rid reason payload cause)
unfolding await_human is_running is_active is_awaiting is_paused awaiting_row
await_human-Keeps rid reason payload cause = record {
  kept = λ db.
      update_run-Inv (λ r. r.id == rid && is_running r.state)
        (λ r. record (awaiting_row reason payload db.now r) { error_text = cause })
        (IsSafe-write _ _ (λ r. refl) (λ r. refl) (λ r hit. (ground arith, λ c. ground arith))) db;
}

pub increment_run_step-Keeps : (rid : ℕ) → Keeps (increment_run_step rid)
unfolding increment_run_step is_running is_active is_awaiting is_paused
increment_run_step-Keeps rid = record {
  kept = λ db.
      update_run-Inv (has_id rid)
        (λ r. record r { step_count = r.step_count + 1; updated_at = db.now })
        (IsSafe-write _ _ (λ r. refl) (λ r. refl) (λ r hit. (ground arith, λ c. ground arith))) db;
}

pub release_run-Keeps : (pid : ℕ) → Keeps (release_run pid)
unfolding release_run is_running is_active is_awaiting is_paused
release_run-Keeps pid = record {
  kept = λ db.
      update_run-Inv
        (λ r. r.project == pid && is_awaiting r.state && is_plan_approval r.awaiting_reason)
        (released_row db.now)
        (IsSafe-write _ _ (λ r. refl) (λ r. refl) (λ r hit. (ground arith, λ c. ground arith))) db;
}

-- A run is finished in a state that is not active.
pub finish_run-Keeps :
    (rid : ℕ) (state : RunState) (cause : Option Text)
    → is_active state ≡ false
    → Keeps (finish_run rid state cause)
unfolding finish_run is_running is_active is_awaiting is_paused
finish_run-Keeps rid state cause ends = record {
  kept = λ db.
      update_run-Inv (has_id rid)
        (λ r. record r {
          state = state;
          error_text = cause;
          finished_at = some db.now;
          updated_at = db.now;
        })
        (IsSafe-write _ _ (λ r. refl) (λ r. refl) (λ r hit. (ground arith, λ c. ground arith))) db;
}

pub park-Keeps : (rid : ℕ) (reason : Awaiting) (payload : Text) → Keeps (park rid reason payload)
unfolding park awaiting_row is_running is_active is_awaiting is_paused
park-Keeps rid reason payload = record {
  kept = λ db.
      update_run-Inv _ _
        (IsSafe-write _ _ (λ r. refl) (λ r. refl) (λ r hit. (ground arith, λ c. ground arith))) db;
}

pub create_run_with_message-Keeps :
    (pid : ℕ) (content : Text) → Keeps (create_run_with_message pid content)
unfolding create_run_with_message
create_run_with_message-Keeps pid content = search keeps

pub append_tool_result_and_await-Keeps :
    (rid : ℕ) (turn : NewMessage) (reason : Awaiting) (payload : Text)
    → Keeps (append_tool_result_and_await rid turn reason payload)
unfolding append_tool_result_and_await
append_tool_result_and_await-Keeps rid turn reason payload = search (keeps, park-Keeps)

pub resume_answered-Keeps : (pid rid : ℕ) → Keeps (resume_answered pid rid)
unfolding resume_answered resumed_row is_running is_active is_awaiting is_paused
resume_answered-Keeps pid rid = record {
  kept = λ db.
      update_run-Inv _ _
        (IsSafe-write _ _ (λ r. refl) (λ r. refl) (λ r hit. (ground arith, λ c. ground arith))) db;
}

pub append_answer_and_resume-Keeps :
    (pid rid : ℕ) (content : Text) → Keeps (append_answer_and_resume pid rid content)
unfolding append_answer_and_resume
append_answer_and_resume-Keeps pid rid content = search (keeps, resume_answered-Keeps)

pub write_plan-Keeps :
    (pid rid : ℕ) (d : PlanDraft) (turn : NewMessage) (payload : Text)
    → Keeps (write_plan pid rid d turn payload)
unfolding write_plan
write_plan-Keeps pid rid d turn payload = search (keeps, park-Keeps) depth 14

pub approve_plan-Keeps : (pid : ℕ) (base : Text) → Keeps (approve_plan pid base)
unfolding approve_plan
approve_plan-Keeps pid base = search (keeps, release_run-Keeps) depth 12

pub revise_plan-Keeps : (pid : ℕ) (text : Text) → Keeps (revise_plan pid text)
unfolding revise_plan
revise_plan-Keeps pid text = search (keeps, release_run-Keeps) depth 12

pub update_task-Keeps :
    (pid n : ℕ) (status note : Text) (turn : NewMessage)
    → Keeps (update_task pid n status note turn)
unfolding update_task
update_task-Keeps pid n status note turn = search keeps depth 16

pub set_memories-Keeps : (pid : ℕ) (text : Text) → Keeps (set_memories pid text)
unfolding set_memories
set_memories-Keeps pid text = record {
  kept = λ db v. record {
    one_active = v.one_active;
    runs_below = v.runs_below;
    messages_below = v.messages_below;
    events_below = v.events_below;
  };
}

pub set_orientation-Keeps : (pid : ℕ) (text : Text) → Keeps (set_orientation pid text)
unfolding set_orientation
set_orientation-Keeps pid text = record {
  kept = λ db v. record {
    one_active = v.one_active;
    runs_below = v.runs_below;
    messages_below = v.messages_below;
    events_below = v.events_below;
  };
}

-- The update of `finish_if_terminal_assistant`.
pub finish_terminal-Keeps : (rid : ℕ) → Keeps (finish_terminal rid)
unfolding finish_terminal is_running is_active is_awaiting is_paused
finish_terminal-Keeps rid = record {
  kept = λ db.
      update_run-Inv _ _
        (IsSafe-write _ _ (λ r. refl) (λ r. refl) (λ r hit. (ground arith, λ c. ground arith))) db;
}

recovered-Inv :
    (db : Db) (r : Result (Run × Db)) → Inv db → Inv (after db r) → Inv (recovered db r).1
unfolding recovered
recovered-Inv db (ok (_, _)) v w = w
recovered-Inv db (err _) v w = v

pub finish_if_terminal_assistant-Inv :
    (rid : ℕ) (db : Db) → Inv db → Inv (finish_if_terminal_assistant rid db).1
unfolding finish_if_terminal_assistant
finish_if_terminal_assistant-Inv rid db v =
    elim (Bool-cases (is_final_word (first_row (of_run rid) db.messages))) [
      | inl last ↦
          rw (last, finish_if_terminal_assistant)
            (recovered-Inv db (finish_terminal rid db) v ((finish_terminal-Keeps rid).kept db v))
      | inr other ↦ rw (other, finish_if_terminal_assistant) v
    ]

delete_all-Inv : (pid : ℕ) (db : Db) → Inv db → Inv (delete_all pid db)
unfolding delete_all
delete_all-Inv pid db v = record {
  one_active = λ other. le_trans (count-delete (active_in other) _ db.runs) (v.one_active other);
  runs_below = delete-RunsBelow _ db.serial db.runs v.runs_below;
  messages_below = delete-MessagesBelow _ db.serial db.messages v.messages_below;
  events_below = delete-EventsBelow _ db.serial db.events v.events_below;
}

clear_board-Keeps : (pid : ℕ) (c : ClearedCounts) → Keeps (clear_board pid c)
unfolding clear_board
clear_board-Keeps pid c = search keeps

pub clear_conversation-Keeps : (pid : ℕ) → Keeps (clear_conversation pid)
unfolding clear_conversation
clear_conversation-Keeps pid = record {
  kept = λ db v. elim (Bool-cases (exists_row (active_in pid) db.runs)) [
    | inl busy ↦ rw (busy, clear_conversation) v
    | inr free ↦
        rw (free, clear_conversation)
          (after-Inv db (delete_all pid db)
            (clear_board pid (cleared_counts pid db) (delete_all pid db)) v
            ((clear_board-Keeps pid (cleared_counts pid db)).kept (delete_all pid db)
              (delete_all-Inv pid db v)))
  ];
}

pub append_event-Keeps :
    (pid : ℕ) (rid : Option ℕ) (name : String) (payload : Payload)
    → Keeps (append_event pid rid name payload)
unfolding append_event
append_event-Keeps pid rid name payload = record {
  kept = λ db v. serial-Inv db _ (omega arith, v.events_below) v;
}

pub append_message-Keeps : (turn : NewMessage) → Keeps (append_message turn)
unfolding append_message
append_message-Keeps turn = append_message_tx-Keeps turn

pub clear_plan-Keeps : (pid : ℕ) → Keeps (clear_plan pid)
unfolding clear_plan
clear_plan-Keeps pid = write_scratchpad-Keeps pid _
