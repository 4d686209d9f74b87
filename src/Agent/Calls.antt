-- ===== src/Agent/Calls.antt =====
-- internal/agent/agent.go, `executeCalls`: the tools of one assistant turn, in order, each with its
-- durable effect and its result.
use Prim.Native.String.{String}
use text.Mathlib.Text.{◌==◌ as str_eq}
use doota.Prelude.{
  ℕ, Bool, true, false, ◌||◌, List, [], ◌∷◌, ◌++◌, Option, none, some, ◌==◌, if◌then◌else◌,
  exists_row,
}
use doota.Prelude.Text.{Text, codes}
use doota.Store.Schema.{
  Run, Message, NewMessage, ToolCall, Kind, tool, ask_human, review, ui_review, is_running,
  agent_idle, agent_working, tool_payload,
}
use doota.Store.Query.{Result, ok, err, Error, not_found, wrapped, is_canceled, scratchpad_tx}
use doota.Store.Run.{run_by_id, mark_paused, calls_of}
use doota.Tools.Result.{Display, ToolResult, no_display, fail, focus_of, intent_of}
use doota.Tools.Registry.{primary}
use doota.Agent.State.{
  Service, Proc, ◌>>=◌, ◌>>◌, return, store, publish, publish_run, publish_message, set_state,
}
use doota.Agent.Outside.{Outside, Json, display_json, Happening, meanwhile}
use doota.Agent.Ship.{run_tool}
use doota.Agent.Apply.{Applied, plain, asserted, apply_control}

unfoldable pub pause_requested : ℕ → Service → Bool
pause_requested rid s = elim (run_by_id rid s.db) [ err _ ↦ false | ok r ↦ r.pause_requested ]

abbrev pub is_not_found : Error → Bool
is_not_found not_found = true
is_not_found _ = false

-- A run that is no longer at work is left alone.
unfoldable pub pause_run : ℕ → Proc (Unit {0})
pause_run rid s =
    let (marked, s₁) = store (mark_paused rid) s in
    elim marked [
      | err e ↦ if is_not_found e then (ok tt, s₁) else (err e, s₁)
      | ok r ↦ (do publish_run r; set_state r.project r.id agent_idle (codes "paused")) s₁
    ]

-- The JSON that a display is stored as.
unfoldable pub shown : (Json → Text) → Display → Option Text
shown encode display = elim display [ no_display ↦ none | d ↦ some (encode (display_json d)) ]

unfoldable pub kind_of : String → Option Kind
kind_of name =
    if str_eq name "ask_human"
    then some ask_human
    else if str_eq name "review"
    then some review
    else if str_eq name "ui_review"
    then some ui_review
    else none

unfoldable pub tool_message : Outside → ℕ → ℕ → ToolCall → ToolResult → NewMessage
unfolding shown kind_of
tool_message o pid rid call result = record {
  project = pid;
  run = some rid;
  role = tool;
  kind = kind_of call.name;
  content = result.content;
  reasoning_items = none;
  tool_calls = none;
  tool_call_id = some call.id;
  tool_name = some call.name;
  token_count = none;
  prompt_tokens = none;
  reasoning_tokens = none;
  interrupted = false;
  tool_display = shown o.encode result.display;
}

-- The call through the primary registry; what happens meanwhile happens before its row is written.
unfoldable pub call_tool : Outside → ℕ → ℕ → ToolCall → Proc ToolResult
unfolding run_tool
call_tool o rid mid call s =
    let reply = o.tool call s in
    run_tool primary rid mid call.name (λ _. reply.outcome) (meanwhile reply.happenings s)

abbrev pub stopped : ToolResult
stopped = fail (codes "Stopped at the operator's request.")

-- An infrastructure error is a stop where the operator asked for one, and escalates otherwise.
unfoldable pub settle : ℕ → String → Result ToolResult → Proc ToolResult
unfolding pause_requested
settle rid name (ok r) s = (ok r, s)
settle rid name (err e) s =
    if pause_requested rid s || is_canceled e
    then (ok stopped, s)
    else (err (wrapped (codes "tool " ++ codes name) e), s)

-- Which reviewer the runner calls for a result.
pub data Reviewer : Type 0 where
  semantic visual nobody : Reviewer

unfoldable pub reviewer_of : String → Reviewer
reviewer_of name =
    if str_eq name "review" then semantic else if str_eq name "ui_review" then visual else nobody

unfoldable pub reviewed : (Text → Service → ToolResult × List Happening) → Text → Proc ToolResult
reviewed ask t s = let (result, happenings) = ask t s in (ok result, meanwhile happenings s)

unfoldable pub consult : Reviewer → Outside → ToolResult → Proc ToolResult
unfolding asserted reviewed
consult nobody o result = return result
consult semantic o result =
    asserted (focus_of result.display) (codes "review returned an invalid request")
      (reviewed o.review)
consult visual o result =
    asserted (intent_of result.display) (codes "ui_review returned an invalid request")
      (reviewed o.ui_review)

-- The reviewers are run by the runner, on a result that is no error.
unfoldable pub run_reviewers : Outside → String → ToolResult → Proc ToolResult
unfolding consult reviewer_of
run_reviewers o name result =
    if result.is_error then return result else consult (reviewer_of name) o result

-- The message of a result, with the effect of a control tool that succeeded.
unfoldable pub persist : Outside → ℕ → ℕ → ℕ → ToolCall → ToolResult → Proc Applied
unfolding tool_message plain apply_control
persist o pid rid mid call result =
    if result.is_error
    then plain (tool_message o pid rid call result)
    else apply_control o pid rid mid call result (tool_message o pid rid call result)

-- The result of one call, up to its message: the body of the loop before its last tests.
unfoldable pub perform : Outside → ℕ → ℕ → ℕ → ToolCall → Proc Applied
unfolding call_tool settle run_reviewers persist
perform o pid rid mid call s =
    let (reply, s₁) = call_tool o rid mid call s in
    (do
      result ← settle rid call.name reply
      final ← run_reviewers o call.name result
      applied ← persist o pid rid mid call final
      publish_message pid rid "tool.complete" applied.0
      return applied)
      s₁

-- A transition ends the loop, and so does a run that something else has stopped.
unfoldable pub after_call : ℕ → Option Run → Proc Bool
after_call rid (some r) s = (do publish_run r; return false) s
after_call rid none s = elim (run_by_id rid s.db) [
  | err e ↦ (err e, s)
  | ok r ↦ if is_running r.state then (ok true, s) else (do publish_run r; return false) s
]

-- One round for a call that is wanted: `true` where the loop goes on.
unfoldable pub round : Outside → ℕ → ℕ → ℕ → ToolCall → Proc Bool
unfolding pause_requested pause_run perform after_call
round o pid rid mid call s =
    if pause_requested rid s
    then (do pause_run rid; return false) s
    else (do
      set_state pid rid agent_working (codes call.name)
      publish pid rid "tool.started" (tool_payload call.name call.id)
      store (scratchpad_tx pid)
      applied ← perform o pid rid mid call
      after_call rid applied.1)
        s

abbrev pub is_wanted : ℕ → List ℕ → Bool
is_wanted id ids = exists_row (λ k. k == id) ids

unfoldable pub each_call : Outside → ℕ → ℕ → ℕ → List ℕ → List ToolCall → Proc (Unit {0})
unfolding round
each_call o pid rid mid only [] s = (ok tt, s)
each_call o pid rid mid only (c ∷ cs) s =
    let skip = each_call o pid rid mid only cs s in
    if is_wanted c.id only
    then (let (more, s₁) = round o pid rid mid c s in
        let rest = each_call o pid rid mid only cs s₁ in
        elim more [ err e ↦ (err e, s₁) | ok go ↦ if go then rest else (ok tt, s₁) ])
    else skip

unfoldable pub execute_calls : Outside → ℕ → ℕ → Message → List ℕ → Proc (Unit {0})
unfolding each_call
execute_calls o pid rid assistant only s = elim (o.sandbox_fault s) [
  | some e ↦ (err (wrapped (codes "sandbox unavailable before tool execution") e), s)
  | none ↦ each_call o pid rid assistant.id only (calls_of assistant) s
]
