-- ===== src/Store/Transcript.antt =====
-- internal/store/messages.go, conversation.go, history.go, events.go and toolcalls.go: the
-- transcript, its clearing, the tool log and the event rows.
use Prim.Native.String.{String}
use text.Mathlib.Text.{◌==◌ as str_eq}
use doota.Prelude.{
  ℕ, suc, ◌+◌, Bool, true, false, not, ◌&&◌, ◌||◌, List, ◌∷◌, Option, none, some, ◌==◌, ltb,
  if◌then◌else◌, where_rows, first_row, exists_row, count_rows, delete_rows, reverse, take,
}
use doota.Store.Schema.{Run, Message, NewMessage, Db, ToolLog, Event, Payload}
use doota.Store.Query.{Tx, ok, err, active_run, ◌>>◌, return, append_message_tx, write_scratchpad}
use doota.Store.Run.{active_in}
use doota.Store.Board.{empty_pad}

abbrev pub shown_in : ℕ → Message → Bool
shown_in pid m = m.project == pid && m.in_context

-- Oldest first, as the model reads them.
unfoldable pub context_messages : ℕ → Db → List Message
context_messages pid db = reverse (where_rows (shown_in pid) db.messages)

-- The newest `limit` turns, oldest first; 500 where the limit is not positive.
unfoldable pub transcript_messages : ℕ → ℕ → Db → List Message
transcript_messages pid limit db =
    reverse (take (if limit == 0 then 500 else limit) (where_rows (shown_in pid) db.messages))

unfoldable pub messages_after : ℕ → ℕ → Db → List Message
messages_after pid after_id db = reverse (
    where_rows (λ (m : Message). m.project == pid && ltb after_id m.id && m.in_context) db.messages)

abbrev pub has_prompt_tokens : Message → Bool
has_prompt_tokens m = elim m.prompt_tokens [ none ↦ false | some _ ↦ true ]

unfoldable pub context_tokens : ℕ → Db → ℕ
context_tokens pid db =
    elim (first_row (λ (m : Message). shown_in pid m && has_prompt_tokens m) db.messages) [
      | none ↦ 0
      | some m ↦ elim m.prompt_tokens [ none ↦ 0 | some n ↦ n ]
    ]

-- The first row of the project is the newest, so its id is the greatest.
unfoldable pub latest_message_id : ℕ → Db → ℕ
latest_message_id pid db = elim (first_row (λ (m : Message). m.project == pid) db.messages) [
  | none ↦ 0
  | some m ↦ m.id
]

unfoldable pub count_messages : ℕ → Db → ℕ
count_messages pid db = count_rows (λ (m : Message). m.project == pid) db.messages

unfoldable pub append_message : NewMessage → Tx Message
append_message turn = append_message_tx turn

unfoldable pub log_tool_call : ToolLog → Db → Db
log_tool_call row db = record db { tool_logs = row ∷ db.tool_logs }

abbrev pub logged_for : ℕ → String → ToolLog → Bool
logged_for rid name l = elim l.run [ none ↦ false | some k ↦ k == rid ] && str_eq l.tool_name name

-- `count(*)` and `coalesce(bool_or(NOT is_error), false)`
unfoldable pub tool_outcomes : ℕ → String → Db → ℕ × Bool
tool_outcomes rid name db = (
  count_rows (logged_for rid name) db.tool_logs,
  exists_row (λ l. logged_for rid name l && not l.is_error) db.tool_logs,
)

unfoldable pub review_outcomes : ℕ → Db → ℕ × Bool
unfolding tool_outcomes
review_outcomes rid db = tool_outcomes rid "review" db

unfoldable pub ui_review_outcomes : ℕ → Db → ℕ × Bool
unfolding tool_outcomes
ui_review_outcomes rid db = tool_outcomes rid "ui_review" db

unfoldable pub review_attempted : ℕ → Db → Bool
unfolding review_outcomes
review_attempted rid db = ltb 0 (review_outcomes rid db).0

unfoldable pub append_event : ℕ → Option ℕ → String → Payload → Tx Event
append_event pid rid name payload db =
    let e : Event = record {
      id = db.serial;
      project = pid;
      run = rid;
      type_name = name;
      payload = payload;
      created_at = db.now;
    } in
    ok (e, record db { events = e ∷ db.events; serial = suc db.serial })

abbrev newer_event : ℕ → ℕ → Event → Bool
newer_event pid after_id e = e.project == pid && ltb after_id e.id

-- Oldest first, at most `limit` of them.
unfoldable pub events_since : ℕ → ℕ → ℕ → Db → List Event
events_since pid after_id limit db =
    take (if limit == 0 then 500 else limit)
      (reverse (where_rows (newer_event pid after_id) db.events))

-- Rows older than `window`, the retention of seven days in the clock's unit.
unfoldable pub prune_events : ℕ → Db → Db
prune_events window db = record db {
  events = delete_rows (λ (e : Event). ltb (e.created_at + window) db.now) db.events;
}

pub record ClearedCounts : Type 0 where
  pub messages : ℕ
  pub runs : ℕ
  pub tool_calls : ℕ
  pub events : ℕ

unfoldable pub nothing_cleared : ClearedCounts → Bool
nothing_cleared c = c.messages == 0 && c.runs == 0 && c.tool_calls == 0

abbrev pub run_of : ℕ → Run → Bool
run_of pid r = r.project == pid

abbrev pub message_of : ℕ → Message → Bool
message_of pid m = m.project == pid

abbrev pub event_of : ℕ → Event → Bool
event_of pid e = e.project == pid

-- `run_id IN (SELECT …) OR message_id IN (SELECT …)`
unfoldable pub log_of : ℕ → Db → ToolLog → Bool
log_of pid db l =
    elim l.run [
      | none ↦ false
      | some k ↦ exists_row (λ (r : Run). run_of pid r && r.id == k) db.runs
    ]
    || elim l.message [
      | none ↦ false
      | some k ↦ exists_row (λ (m : Message). message_of pid m && m.id == k) db.messages
    ]

-- The four deletions of `steps`, innermost first.
unfoldable pub delete_all : ℕ → Db → Db
unfolding log_of
delete_all pid db = record db {
  tool_logs = delete_rows (log_of pid db) db.tool_logs;
  events = delete_rows (event_of pid) db.events;
  messages = delete_rows (message_of pid) db.messages;
  runs = delete_rows (run_of pid) db.runs;
}

unfoldable pub cleared_counts : ℕ → Db → ClearedCounts
unfolding log_of
cleared_counts pid db = record {
  messages = count_rows (message_of pid) db.messages;
  runs = count_rows (run_of pid) db.runs;
  tool_calls = count_rows (log_of pid db) db.tool_logs;
  events = count_rows (event_of pid) db.events;
}

unfoldable pub clear_board : ℕ → ClearedCounts → Tx ClearedCounts
clear_board pid counts = do write_scratchpad pid empty_pad; return counts

unfoldable pub clear_conversation : ℕ → Tx ClearedCounts
unfolding clear_board delete_all cleared_counts
clear_conversation pid db =
    if exists_row (active_in pid) db.runs
    then err active_run
    else clear_board pid (cleared_counts pid db) (delete_all pid db)
