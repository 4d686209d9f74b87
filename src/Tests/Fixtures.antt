-- ===== src/Tests/Fixtures.antt =====
-- A project with a drafted plan, a run that works on it, and what the world around it answers.
use doota.Prelude.{true, false, [], ◌∷◌, none, some}
use doota.Prelude.Text.{codes}
use doota.Store.Schema.{
  Run, Message, NewMessage, ToolCall, Task, Scratchpad, Project, Db, running, user, pending, draft,
  ready, plan_approval, awaiting_human, assistant, tool,
}
use doota.Store.Board.{empty_spec}
use doota.Model.Response.{Response}
use doota.Tools.Result.{no_display, success}
use doota.Store.Query.{ok}
use doota.Agent.State.{Service}
use doota.Agent.Outside.{Outside}

abbrev pub first_task : Task
first_task = record { n = 1; summary = codes "Read"; status = pending; note = [] }

abbrev pub second_task : Task
second_task = record { n = 2; summary = codes "Write"; status = pending; note = [] }

abbrev pub drafted_pad : Scratchpad
drafted_pad = record {
  title = codes "Fix it";
  status = some draft;
  base_commit = [];
  feedback = [];
  spec = empty_spec;
  tasks = first_task ∷ second_task ∷ [];
}

abbrev pub sample_project : Project
sample_project = record {
  id = 7;
  scratchpad = drafted_pad;
  memories = [];
  orientation = [];
  sandbox_status = ready;
}

abbrev pub working_run : Run
working_run = record {
  id = 1;
  project = 7;
  state = running;
  awaiting_reason = none;
  awaiting_payload = none;
  pause_requested = false;
  error_text = none;
  step_count = 0;
  started_at = 10;
  updated_at = 10;
  finished_at = none;
}

abbrev pub waiting_run : Run
waiting_run = record working_run {
  state = awaiting_human;
  awaiting_reason = some plan_approval;
  awaiting_payload = some (codes "{}");
}

abbrev pub stopping_run : Run
stopping_run = record working_run { pause_requested = true }

abbrev pub question : NewMessage
question = record {
  project = 7;
  run = some 1;
  role = user;
  kind = none;
  content = codes "Fix it";
  reasoning_items = none;
  tool_calls = none;
  tool_call_id = none;
  tool_name = none;
  token_count = none;
  prompt_tokens = none;
  reasoning_tokens = none;
  interrupted = false;
  tool_display = none;
}

abbrev pub question_row : Message
question_row = record { id = 2; turn = question; in_context = true; created_at = 10 }

abbrev pub read_call : ToolCall
read_call = record { id = 31; name = "read_file"; args = codes "{}" }

abbrev pub list_call : ToolCall
list_call = record { id = 32; name = "list_dir"; args = codes "{}" }

-- An assistant's turn that asks for two tools.
abbrev pub asking_row : Message
asking_row = record {
  id = 3;
  turn = record question {
    role = assistant;
    content = [];
    tool_calls = some (read_call ∷ list_call ∷ []);
  };
  in_context = true;
  created_at = 11;
}

-- The result of the first of them.
abbrev pub result_row : Message
result_row = record {
  id = 4;
  turn = record question { role = tool; content = codes "text"; tool_call_id = some 31 };
  in_context = true;
  created_at = 12;
}

abbrev pub db_of : Run → Db
db_of r = record {
  projects = sample_project ∷ [];
  runs = r ∷ [];
  messages = question_row ∷ [];
  tool_logs = [];
  events = [];
  serial = 5;
  now = 20;
}

abbrev pub service_of : Run → Service
service_of r = record {
  db = db_of r;
  hub = record { next = 0; clients = []; dropped = 0 };
  workers = [];
}

abbrev pub spoken : Response
spoken = record {
  content = codes "All is well.";
  tool_calls = [];
  finish_reason = codes "completed";
  usage = record { prompt_tokens = 10; completion_tokens = 4; reasoning_tokens = 0 };
  model = codes "m";
  reasoning = [];
  truncated = false;
  filtered = false;
  usage_reported = true;
}

-- A model that says a word, tools that succeed, and a clean worktree with nothing that renders.
abbrev pub calm : Outside
calm = record {
  model = λ n ms s. record { response = some spoken; failure = none; happenings = [] };
  cancelled = λ n s. false;
  max_output_tokens = 1000;
  sandbox_fault = λ s. none;
  tool = λ c s. record { outcome = ok (success (codes "done") no_display); happenings = [] };
  review = λ t s. (success (codes "No findings.") no_display, []);
  ui_review = λ t s. (success (codes "No findings.") no_display, []);
  worktree = λ s. ok [];
  diff_stat = λ s. ok (success (codes " main.go | 3 +--") no_display);
  push = λ s. ok (success (codes "Pushed.") no_display);
  create_pr = λ t b s. ok (success (codes "Opened.") no_display);
  encode = λ j. [];
}
