-- ===== src/Agent/Worker/Apply.antt =====
-- `applyControl` keeps the invariant of the tables.
use doota.Prelude.{ℕ, Option, none, some}
use doota.Prelude.Text.{Text}
use doota.Store.Schema.{NewMessage, ToolCall, Scratchpad}
use doota.Store.Plan.{update_task}
use doota.Store.Safety.{
  append_message-Keeps, append_tool_result_and_await-Keeps, write_plan-Keeps, update_task-Keeps,
  set_memories-Keeps, set_orientation-Keeps,
}
use doota.Tools.Result.{PlanRequest, TaskUpdate, ToolResult}
use doota.Agent.State.{Proc, ◌>>◌, return, store}
use doota.Agent.Outside.{Outside}
use doota.Agent.Apply.{
  failed, publish_plan, plain, apply_ask, apply_plan, apply_task, apply_memories, apply_orientation,
  Control, asks, plans, updates, remembers, orients, ships, ordinary, apply_by, asserted,
}
use doota.Agent.Safety.{
  Sound, throw-Sound, store-Sound, publish-Sound, sound_steps, either-ServiceInv,
}
use doota.Agent.Worker.Ship.{ship-Sound}

publish_plan-Sound : (pid rid : ℕ) (pad : Scratchpad) → Sound (publish_plan pid rid pad)
unfolding publish_plan
publish_plan-Sound pid rid pad = publish-Sound _ _ _ _

pub plain-Sound : (turn : NewMessage) → Sound (plain turn)
unfolding plain
plain-Sound turn = search (sound_steps, append_message-Keeps) depth 8

apply_ask-Sound :
    (o : Outside) (rid : ℕ) (result : ToolResult) (turn : NewMessage)
    → Sound (apply_ask o rid result turn)
unfolding apply_ask
apply_ask-Sound o rid result turn = search (sound_steps, append_tool_result_and_await-Keeps) depth 8

apply_plan-Sound :
    (o : Outside) (pid rid : ℕ) (p : PlanRequest) (turn : NewMessage)
    → Sound (apply_plan o pid rid p turn)
unfolding apply_plan
apply_plan-Sound o pid rid p turn = search (sound_steps, write_plan-Keeps) depth 10

apply_task-Sound :
    (pid rid : ℕ) (u : TaskUpdate) (turn : NewMessage) → Sound (apply_task pid rid u turn)
unfolding apply_task
apply_task-Sound pid rid u turn = record {
  sound = λ s v.
      let updated = store (update_task pid u.task u.status u.note turn) s in
      either-ServiceInv (λ e. plain (failed turn e))
        (λ a. (do publish_plan pid rid a.0; return (a.1, none))) updated.0 updated.1
        ((store-Sound _ (update_task-Keeps pid u.task u.status u.note turn)).sound s v)
        (λ e. plain-Sound _) (λ a. search sound_steps depth 8);
}

apply_memories-Sound : (pid : ℕ) (t : Text) (turn : NewMessage) → Sound (apply_memories pid t turn)
unfolding apply_memories
apply_memories-Sound pid t turn =
    search (sound_steps, set_memories-Keeps, append_message-Keeps) depth 10

apply_orientation-Sound :
    (pid : ℕ) (t : Text) (turn : NewMessage) → Sound (apply_orientation pid t turn)
unfolding apply_orientation
apply_orientation-Sound pid t turn =
    search (sound_steps, set_orientation-Keeps, append_message-Keeps) depth 10

pub asserted-Sound :
    {A B : Type 0} (a : Option A) (t : Text) (f : A → Proc B)
    → ((a : A) → Sound (f a))
    → Sound (asserted a t f)
unfolding asserted
asserted-Sound none t f h = throw-Sound _
asserted-Sound (some a) t f h = h a

module _ (o : Outside) (pid rid mid : ℕ) where
  pub apply_by-Sound :
      (c : Control) (call : ToolCall) (result : ToolResult) (turn : NewMessage)
      → Sound (apply_by c o pid rid mid call result turn)
  unfolding apply_by
  apply_by-Sound asks call result turn = apply_ask-Sound o rid result turn
  apply_by-Sound plans call result turn =
      asserted-Sound _ _ _ λ p. apply_plan-Sound o pid rid p turn
  apply_by-Sound updates call result turn =
      asserted-Sound _ _ _ λ u. apply_task-Sound pid rid u turn
  apply_by-Sound remembers call result turn =
      asserted-Sound _ _ _ λ t. apply_memories-Sound pid t turn
  apply_by-Sound orients call result turn =
      asserted-Sound _ _ _ λ t. apply_orientation-Sound pid t turn
  apply_by-Sound ships call result turn =
      asserted-Sound _ _ _ λ t. ship-Sound o pid rid mid call.id t
  apply_by-Sound ordinary call result turn = plain-Sound turn
