-- ===== src/Agent/Worker/Calls.antt =====
-- `executeCalls` keeps the invariant of the tables.
use Prim.Native.String.{String}
use doota.Prelude.{
  ℕ, Bool, true, false, ◌||◌, Option, none, some, List, [], ◌∷◌, ◌++◌, if◌then◌else◌,
}
use doota.Prelude.Text.{Text, codes}
use doota.Store.Schema.{Run, Message, ToolCall, is_running, agent_idle, agent_working, tool_payload}
use doota.Store.Query.{Result, ok, err, Error, wrapped, is_canceled, scratchpad_tx}
use doota.Store.Run.{run_by_id, mark_paused, calls_of}
use doota.Store.Invariant.{scratchpad_tx-Keeps}
use doota.Store.Safety.{mark_paused-Keeps}
use doota.Tools.Result.{ToolResult}
use doota.Agent.State.{
  Service, Proc, ◌>>=◌, ◌>>◌, return, throw, store, publish, publish_run, publish_message,
  set_state,
}
use doota.Agent.Outside.{Outside, Happening, meanwhile}
use doota.Agent.Apply.{Applied, control_of, apply_control}
use doota.Agent.Calls.{
  pause_requested, pause_run, call_tool, stopped, settle, Reviewer, semantic, visual, nobody,
  reviewed, consult, run_reviewers, persist, perform, after_call, round, is_wanted, each_call,
  execute_calls, is_not_found,
}
use doota.Agent.Safety.{
  ServiceInv, Sound, return-Sound, throw-Sound, store-Sound, sound_steps, choice-Sound, if-Sound,
  either-ServiceInv, meanwhile-ServiceInv,
}
use doota.Agent.Worker.Ship.{run_tool-Sound}
use doota.Agent.Worker.Apply.{plain-Sound, asserted-Sound, apply_by-Sound}

pub pause_run-Sound : (rid : ℕ) → Sound (pause_run rid)
unfolding pause_run
pause_run-Sound rid = record {
  sound = λ s v.
      either-ServiceInv (λ e. λ s. if is_not_found e then (ok tt, s) else (err e, s))
        (λ r. (do publish_run r; set_state r.project r.id agent_idle (codes "paused")))
        (store (mark_paused rid) s).0 (store (mark_paused rid) s).1
        ((store-Sound _ (mark_paused-Keeps rid)).sound s v)
        (λ e.
          if-Sound (λ _. is_not_found e) (return tt) (throw e) (return-Sound tt) (throw-Sound e))
        (λ r. search sound_steps depth 8);
}

module _ (o : Outside) (pid rid mid : ℕ) where
  call_tool-ServiceInv :
      (call : ToolCall) (s : Service) → ServiceInv s → ServiceInv (call_tool o rid mid call s).1
  unfolding call_tool
  call_tool-ServiceInv call s v =
      let reply = o.tool call s in
      (run_tool-Sound _ rid mid call.name (λ _. reply.outcome)).sound (meanwhile reply.happenings s)
        (meanwhile-ServiceInv reply.happenings s v)

  settle-Sound : (name : String) (r : Result ToolResult) → Sound (settle rid name r)
  unfolding settle
  settle-Sound name (ok r) = return-Sound r
  settle-Sound name (err e) =
      if-Sound (λ s. pause_requested rid s || is_canceled e) (return stopped)
        (throw (wrapped (codes "tool " ++ codes name) e)) (return-Sound _) (throw-Sound _)

  reviewed-Sound :
      (ask : Text → Service → ToolResult × List Happening) (t : Text) → Sound (reviewed ask t)
  unfolding reviewed
  reviewed-Sound ask t = record { sound = λ s v. meanwhile-ServiceInv (ask t s).1 s v }

  consult-Sound : (r : Reviewer) (result : ToolResult) → Sound (consult r o result)
  unfolding consult
  consult-Sound nobody result = return-Sound result
  consult-Sound semantic result = asserted-Sound _ _ _ (reviewed-Sound o.review)
  consult-Sound visual result = asserted-Sound _ _ _ (reviewed-Sound o.ui_review)

  run_reviewers-Sound : (name : String) (result : ToolResult) → Sound (run_reviewers o name result)
  unfolding run_reviewers
  run_reviewers-Sound name result =
      choice-Sound result.is_error _ _ (return-Sound result) (consult-Sound _ result)

  persist-Sound :
      (call : ToolCall) (result : ToolResult) → Sound (persist o pid rid mid call result)
  unfolding persist apply_control
  persist-Sound call result =
      choice-Sound result.is_error _ _ (plain-Sound _)
        (apply_by-Sound o pid rid mid (control_of call.name) call result _)

  perform-Sound : (call : ToolCall) → Sound (perform o pid rid mid call)
  unfolding perform
  perform-Sound call = record {
    sound = λ s v.
        let called = call_tool o rid mid call s in
        (rest called.0).sound called.1 (call_tool-ServiceInv call s v);
  }
    where
      rest :
          (reply : Result ToolResult)
          → Sound {A = Applied} (do
            result ← settle rid call.name reply
            final ← run_reviewers o call.name result
            applied ← persist o pid rid mid call final
            publish_message pid rid "tool.complete" applied.0
            return applied)
      rest reply = search (sound_steps, settle-Sound, run_reviewers-Sound, persist-Sound) depth 12

  after_call-Sound : (transition : Option Run) → Sound (after_call rid transition)
  unfolding after_call
  after_call-Sound (some r) = record { sound = λ s v. (stop r).sound s v }
    where
      stop : (r : Run) → Sound {A = Bool} (do publish_run r; return false)
      stop r = search sound_steps depth 6
  after_call-Sound none = record {
    sound = λ s v.
        either-ServiceInv throw
          (λ r.
            λ s. if is_running r.state then (ok true, s) else (do publish_run r; return false) s)
          (run_by_id rid s.db) s v throw-Sound
          λ r.
            if-Sound (λ _. is_running r.state) (return true) (do publish_run r; return false)
              (return-Sound true) (search sound_steps depth 6);
  }

  round-Sound : (call : ToolCall) → Sound (round o pid rid mid call)
  unfolding round
  round-Sound call = if-Sound (pause_requested rid) _ _ paused performed
    where
      paused : Sound {A = Bool} (do pause_run rid; return false)
      paused = search (sound_steps, pause_run-Sound) depth 6

      performed : Sound {A = Bool} (do
        set_state pid rid agent_working (codes call.name)
        publish pid rid "tool.started" (tool_payload call.name call.id)
        store (scratchpad_tx pid)
        applied ← perform o pid rid mid call
        after_call rid applied.1)
      performed =
          search (sound_steps, scratchpad_tx-Keeps, perform-Sound, after_call-Sound) depth 16

  pub each_call-Sound :
      (only : List ℕ) (cs : List ToolCall) → Sound (each_call o pid rid mid only cs)
  unfolding each_call
  each_call-Sound only [] = return-Sound tt
  each_call-Sound only (c ∷ cs) =
      if-Sound (λ _. is_wanted c.id only) wanted (each_call o pid rid mid only cs)
        (wanted-Sound (each_call-Sound only cs)) (each_call-Sound only cs)
    where
      next : Bool → Proc (Unit {0})
      next go s = if go then each_call o pid rid mid only cs s else (ok tt, s)

      wanted : Proc (Unit {0})
      wanted s =
          let (more, s₁) = round o pid rid mid c s in
          elim more [ err e ↦ (err e, s₁) | ok go ↦ next go s₁ ]

      wanted-Sound : Sound (each_call o pid rid mid only cs) → Sound wanted
      wanted-Sound rest = record {
        sound = λ s v.
            let r = round o pid rid mid c s in
            either-ServiceInv throw next r.0 r.1 ((round-Sound c).sound s v) throw-Sound λ go.
              if-Sound (λ _. go) (each_call o pid rid mid only cs) (return tt) rest
                (return-Sound tt);
      }

pub execute_calls-Sound :
    (o : Outside) (pid rid : ℕ) (m : Message) (only : List ℕ)
    → Sound (execute_calls o pid rid m only)
unfolding execute_calls
execute_calls-Sound o pid rid m only = record { sound = λ s v. ready s v (o.sandbox_fault s) }
  where
    ready :
        (s : Service)
        → ServiceInv s
        → (fault : Option Error)
        → ServiceInv
            (elim fault as (λ _. Result (Unit {0}) × Service) [
              | some e ↦ (err (wrapped (codes "sandbox unavailable before tool execution") e), s)
              | none ↦ each_call o pid rid m.id only (calls_of m) s
            ]).1
    ready s v (some e) = v
    ready s v none = (each_call-Sound o pid rid m.id only (calls_of m)).sound s v
