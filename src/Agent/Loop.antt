-- ===== src/Agent/Loop.antt =====
-- internal/agent/agent.go, `run`, `advance` and `awaitError`: the loop of one worker.
use doota.Prelude.{
  ℕ, zero, suc, ◌+◌, Bool, true, false, ◌||◌, List, [], ◌∷◌, ◌++◌, Option, none, some, ◌==◌,
  if◌then◌else◌, first_row, update_rows, map,
}
use doota.Prelude.Text.{Text, codes, trim_space, is_empty, decimal, contains_part, to_lower}
use doota.Store.Schema.{
  Run, NewMessage, ToolCall, Project, missing, assistant, idle, error, is_running, agent_idle,
  agent_thinking, agent_done, agent_error,
}
use doota.Store.Query.{ok, err, Error, not_found, refused, wrapped, error_message, is_sandbox_gone}
use doota.Store.Run.{
  run_by_id, await_human, finish_run, increment_run_step, trailing_tool_calls,
  finish_if_terminal_assistant,
}
use doota.Store.Plan.{is_project}
use doota.Store.Transcript.{append_message, context_messages}
use doota.Model.Response.{
  Response, SilentCause, not_silent, silent_truncated, silent_reasoning, silent_cause,
}
use doota.Agent.State.{
  Service, Proc, ◌>>=◌, ◌>>◌, return, throw, store, publish_run, publish_message, set_state, retire,
}
use doota.Agent.Outside.{Outside, error_json}
use doota.Agent.Stream.{Streamed, stream_with_retry}
use doota.Agent.Calls.{pause_requested, pause_run, execute_calls}

abbrev output_limit : Text
output_limit = codes ". Raise Max output tokens in Settings, up to 131072"

-- `silentModelError`.
unfoldable pub silent_text : SilentCause → Response → ℕ → Text
silent_text silent_truncated r budget =
    codes "the model reached its output limit of "
    ++ decimal budget
    ++ codes " tokens without producing anything to act on"
    ++ output_limit
silent_text silent_reasoning r budget =
    codes "the model spent "
    ++ decimal r.usage.completion_tokens
    ++ codes " output tokens reasoning and returned no text and no tool calls"
    ++ output_limit
silent_text _ r budget =
    codes
      "the model returned no text, no tool calls, and no token usage, and gave no reason. That is a dropped or rejected request rather than a budget problem: check the model name and credentials in Settings, then press Resume"

-- `nullable`, `nullableInt` and `nullableJSON`.
abbrev positive : ℕ → Option ℕ
positive n = if n == 0 then none else some n

abbrev nonempty {ℓ} : {A : Type ℓ} → List A → Option (List A)
nonempty [] = none
nonempty (x ∷ xs) = some (x ∷ xs)

-- The message of an assistant's turn; one that broke off keeps its text and not its calls.
unfoldable pub assistant_turn : ℕ → ℕ → Response → Bool → NewMessage
assistant_turn pid rid r interrupted = record {
  project = pid;
  run = some rid;
  role = assistant;
  kind = none;
  content = r.content;
  reasoning_items = nonempty r.reasoning;
  tool_calls = if interrupted then none else nonempty r.tool_calls;
  tool_call_id = none;
  tool_name = none;
  token_count = positive r.usage.completion_tokens;
  prompt_tokens = positive r.usage.prompt_tokens;
  reasoning_tokens = positive r.usage.reasoning_tokens;
  interrupted = interrupted;
  tool_display = none;
}

-- A pause that was asked for, or else the error.
unfoldable pub stop_or_fail : ℕ → Error → Proc Bool
stop_or_fail rid e s =
    if pause_requested rid s then (do pause_run rid; return false) s else (err e, s)

-- A stream that died: what arrived is kept.
unfoldable pub broken_stream : ℕ → ℕ → Response → Error → Proc Bool
unfolding stop_or_fail assistant_turn is_empty
broken_stream pid rid r e =
    if is_empty (trim_space r.content)
    then stop_or_fail rid (wrapped (codes "model stream failed") e)
    else (do
      m ← store (append_message (assistant_turn pid rid r true))
      publish_message pid rid "message.complete" m
      stop_or_fail rid (wrapped (codes "model stream failed") e))

abbrev pub ids_of : List ToolCall → List ℕ
ids_of = map λ c. c.id

-- The model has said its piece: the turn is over.
unfoldable pub finish_turn : ℕ → ℕ → Proc Bool
finish_turn pid rid = do
  r ← store (finish_run rid idle none)
  publish_run r
  set_state pid rid agent_done []
  return false

-- A reply with text or calls.
unfoldable pub take_reply : Outside → ℕ → ℕ → Response → Proc Bool
unfolding assistant_turn finish_turn
take_reply o pid rid r = do
  m ← store (append_message (assistant_turn pid rid r false))
  publish_message pid rid "message.complete" m
  store (increment_run_step rid)
  (elim r.tool_calls [
    | [] ↦ finish_turn pid rid
    | c ∷ cs ↦ (do execute_calls o pid rid m (ids_of (c ∷ cs)); return true)
  ])

unfoldable pub accept : Outside → ℕ → ℕ → Response → Proc Bool
unfolding silent_text take_reply
accept o pid rid r = elim (silent_cause r) [
  | not_silent ↦ take_reply o pid rid r
  | cause ↦ throw (refused (silent_text cause r o.max_output_tokens))
]

abbrev pub some_error : Option Error → Error
some_error none = refused []
some_error (some e) = e

unfoldable pub take_stream : Outside → ℕ → ℕ → Streamed → Proc Bool
unfolding stop_or_fail broken_stream accept
take_stream o pid rid st = elim st.response [
  | none ↦ stop_or_fail rid (wrapped (codes "model call failed") (some_error st.failure))
  | some r ↦ elim st.failure [ some e ↦ broken_stream pid rid r e | none ↦ accept o pid rid r ]
]

-- One model call on the live window.
unfoldable pub call_model : Outside → ℕ → ℕ → ℕ → Proc Bool
unfolding take_stream
call_model o pid rid step s =
    let (_, s₁) = set_state pid rid agent_thinking (codes "step " ++ decimal (step + 1)) s in
    let (st, s₂) = stream_with_retry o (context_messages pid s.db) s₁ in take_stream o pid rid st s₂

-- The calls of a turn that a restart or a pause left without a result come first.
unfoldable pub replay_or_call : Outside → ℕ → ℕ → ℕ → Proc Bool
unfolding call_model
replay_or_call o pid rid step s = elim (trailing_tool_calls rid s.db) [
  | none ↦ call_model o pid rid step s
  | some (m, []) ↦ call_model o pid rid step s
  | some (m, id ∷ ids) ↦ (do execute_calls o pid rid m (id ∷ ids); return true) s
]

-- The step number is that of the row which `run` read. The project's row must be there.
unfoldable pub advance : Outside → Run → Proc Bool
unfolding replay_or_call
advance o r s = elim (first_row (is_project r.project) s.db.projects) [
  | none ↦ (err not_found, s)
  | some _ ↦
      let (finished, db) = finish_if_terminal_assistant r.id s.db in
      let s₁ = record s { db = db } in
      elim finished [
        | some row ↦ (do publish_run row; set_state r.project r.id agent_idle []; return false) s₁
        | none ↦ replay_or_call o r.project r.id r.step_count s₁
      ]
]

-- What the operator is told to do.
unfoldable pub action_text : Error → Text
action_text e =
    if is_sandbox_gone e
    then codes
        "The sandbox is gone. Open Project, recreate it (uncommitted work is lost), wait for setup, then press Resume."
    else if contains_part (codes "model") (map to_lower (error_message e))
        || contains_part (codes "stream") (map to_lower (error_message e))
    then codes "The model request was retried and still failed. Check Settings, then press Resume."
    else codes "Read the message below, fix the underlying problem, then press Resume."

unfoldable pub mark_missing : Error → ℕ → Service → Service
mark_missing e pid s =
    if is_sandbox_gone e
    then record s {
      db = record (s.db) {
        projects =
            update_rows (is_project pid) (λ (p : Project). record p { sandbox_status = missing })
              s.db.projects;
      };
    }
    else s

unfoldable pub await_error : Outside → ℕ → Error → Proc (Unit {0})
unfolding mark_missing action_text
await_error o rid e s = elim (run_by_id rid s.db) [
  | err e' ↦ (err e', s)
  | ok r ↦
      (do
        row ← store (
            await_human rid error (o.encode (error_json (error_message e) (action_text e)))
              (some (error_message e)))
        publish_run row
        set_state r.project rid agent_error (error_message e))
        (mark_missing e r.project s)
]

-- How a worker's loop ended: by itself, or for want of fuel.
pub data Ended : Type 0 where
  stopped out_of_fuel : Ended

-- The head of a round: whether the run goes on, and its row.
unfoldable pub run_loop : Outside → ℕ → ℕ → Proc Ended
unfolding pause_run await_error advance
run_loop o zero rid s = (ok out_of_fuel, s)
run_loop o (suc fuel) rid s = elim (run_by_id rid s.db) [
  | err e ↦ (err e, s)
  | ok r ↦ elim (is_running r.state) [
    | false ↦ (do publish_run r; return stopped) s
    | true ↦ elim r.pause_requested [
      | true ↦ (do pause_run rid; return stopped) s
      | false ↦
          let (more, s₁) = advance o r s in
          let rest = run_loop o fuel rid s₁ in
          elim more [
            | err e ↦ (do await_error o rid e; return stopped) s₁
            | ok go ↦ if go then rest else (ok stopped, s₁)
          ]
    ]
  ]
]

-- The goroutine of `start`: the loop, then the deferred cleanup.
unfoldable pub work : Outside → ℕ → ℕ → Proc Ended
unfolding run_loop
work o fuel rid s = let (ended, s₁) = run_loop o fuel rid s in (ended, (retire rid s₁).1)
