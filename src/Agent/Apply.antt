-- ===== src/Agent/Apply.antt =====
-- internal/agent/agent.go, `applyControl`: what the result of a control tool does to the run, the
-- board and the notes.
use Prim.Native.String.{String}
use text.Mathlib.Text.{◌==◌ as str_eq}
use doota.Prelude.{ℕ, ◌++◌, Option, none, some, if◌then◌else◌, length}
use doota.Prelude.Text.{Text, codes, trim_space}
use doota.Store.Schema.{Run, Message, NewMessage, ToolCall, Scratchpad, question, plan_payload}
use doota.Store.Query.{ok, err, Error, refused, error_message}
use doota.Store.Run.{append_tool_result_and_await}
use doota.Store.Plan.{PlanDraft, write_plan, update_task, set_memories, set_orientation}
use doota.Store.Transcript.{append_message}
use doota.Tools.Result.{
  PlanRequest, TaskUpdate, ToolResult, plan_of, task_of, memories_of, orientation_of, summary_of,
}
use doota.Agent.State.{Proc, ◌>>=◌, ◌>>◌, return, throw, store, publish}
use doota.Agent.Outside.{Outside, question_json, plan_json}
use doota.Agent.Ship.{ship}

-- `failed`: a tool result that the model sees as a failure.
unfoldable pub failed : NewMessage → Error → NewMessage
failed turn e = record turn {
  content = codes "That did not work: " ++ error_message e;
  tool_display = none;
}

unfoldable pub draft_of : PlanRequest → PlanDraft
draft_of p = record {
  title = p.title;
  tasks = p.tasks;
  spec = record {
    problem = p.problem;
    approach = p.approach;
    verification = p.verification;
    edge_cases = p.edge_cases;
    risks = p.risks;
    questions = p.questions;
  };
}

abbrev pub Applied : Type 0
Applied = Message × Option Run

unfoldable pub publish_plan : ℕ → ℕ → Scratchpad → Proc (Unit {0})
publish_plan pid rid pad =
    publish pid rid "plan.updated" (plan_payload pad.title (length pad.tasks) pad.status)

unfoldable pub plain : NewMessage → Proc Applied
plain turn = do m ← store (append_message turn); return (m, none)

unfoldable pub apply_ask : Outside → ℕ → ToolResult → NewMessage → Proc Applied
apply_ask o rid result turn = do
  (m, r) ← store (
      append_tool_result_and_await rid turn question
        (o.encode (question_json result.content result.display)))
  return (m, some r)

unfoldable pub apply_plan : Outside → ℕ → ℕ → PlanRequest → NewMessage → Proc Applied
unfolding draft_of publish_plan
apply_plan o pid rid p turn = do
  (pad, r, m) ← store (
      write_plan pid rid (draft_of p) turn
        (o.encode (plan_json (trim_space p.title) (length p.tasks))))
  publish_plan pid rid pad
  return (m, some r)

-- A task that is not on the board is the model's mistake: the message says so.
unfoldable pub apply_task : ℕ → ℕ → TaskUpdate → NewMessage → Proc Applied
unfolding plain failed publish_plan
apply_task pid rid u turn s =
    let (done, s₁) = store (update_task pid u.task u.status u.note turn) s in
    elim done [
      | err e ↦ plain (failed turn e) s₁
      | ok (pad, m) ↦ (do publish_plan pid rid pad; return (m, none)) s₁
    ]

unfoldable pub apply_memories : ℕ → Text → NewMessage → Proc Applied
apply_memories pid t turn = do
  store (set_memories pid t)
  m ← store (append_message turn)
  return (m, none)

unfoldable pub apply_orientation : ℕ → Text → NewMessage → Proc Applied
apply_orientation pid t turn = do
  store (set_orientation pid t)
  m ← store (append_message turn)
  return (m, none)

-- The control tools by name; any other is `ordinary`.
pub data Control : Type 0 where
  asks plans updates remembers orients ships ordinary : Control

unfoldable pub control_of : String → Control
control_of name =
    if str_eq name "ask_human"
    then asks
    else if str_eq name "create_plan"
    then plans
    else if str_eq name "update_task"
    then updates
    else if str_eq name "remember"
    then remembers
    else if str_eq name "record_orientation"
    then orients
    else if str_eq name "done"
    then ships
    else ordinary

-- A type assertion on what a tool displays, with the error where it does not hold.
unfoldable pub asserted : {A B : Type 0} → Option A → Text → (A → Proc B) → Proc B
asserted none t f = throw (refused t)
asserted (some a) t f = f a

-- The `switch` on the name with its type assertions on the display.
unfoldable pub apply_by :
    Control → Outside → ℕ → ℕ → ℕ → ToolCall → ToolResult → NewMessage → Proc Applied
unfolding asserted apply_ask apply_plan apply_task apply_memories apply_orientation plain ship
apply_by asks o pid rid mid call result turn = apply_ask o rid result turn
apply_by plans o pid rid mid call result turn =
    asserted (plan_of result.display) (codes "create_plan returned an invalid plan")
      λ p. apply_plan o pid rid p turn
apply_by updates o pid rid mid call result turn =
    asserted (task_of result.display) (codes "update_task returned an invalid update")
      λ u. apply_task pid rid u turn
apply_by remembers o pid rid mid call result turn =
    asserted (memories_of result.display) (codes "remember returned an invalid update")
      λ t. apply_memories pid t turn
apply_by orients o pid rid mid call result turn =
    asserted (orientation_of result.display) (codes "record_orientation returned an invalid update")
      λ t. apply_orientation pid t turn
apply_by ships o pid rid mid call result turn =
    asserted (summary_of result.display) (codes "done returned an invalid request")
      λ t. ship o pid rid mid call.id t
apply_by ordinary o pid rid mid call result turn = plain turn

unfoldable pub apply_control :
    Outside → ℕ → ℕ → ℕ → ToolCall → ToolResult → NewMessage → Proc Applied
unfolding apply_by control_of
apply_control o pid rid mid call result turn =
    apply_by (control_of call.name) o pid rid mid call result turn
