-- ===== src/Agent/Worker/Loop.antt =====
-- `streamWithRetry` and `advance` keep the invariant of the tables.
use doota.Prelude.{
  ℕ, zero, suc, ◌+◌, refl, Bool, true, false, Option, none, some, List, [], ◌∷◌, ◌++◌,
  if◌then◌else◌, first_row,
}
use doota.Prelude.Text.{codes, trim_space, is_empty, decimal}
use doota.Store.Schema.{
  Run, Message, ToolCall, Project, is_active, idle, agent_idle, agent_thinking,
}
use doota.Store.Query.{Result, err, Error, not_found, refused, wrapped, canceled}
use doota.Store.Run.{finish_run, trailing_tool_calls, finish_if_terminal_assistant}
use doota.Store.Plan.{is_project}
use doota.Store.Transcript.{context_messages}
use doota.Store.Invariant.{Keeps}
use doota.Store.Safety.{
  append_message-Keeps, finish_run-Keeps, increment_run_step-Keeps,
  finish_if_terminal_assistant-Inv,
}
use doota.Model.Response.{
  Response, SilentCause, not_silent, silent_truncated, silent_filtered, silent_reasoning,
  silent_unknown, silent_cause,
}
use doota.Agent.State.{Service, Proc, ◌>>◌, return, throw, publish_run, set_state}
use doota.Agent.Outside.{Outside, meanwhile}
use doota.Agent.Stream.{Streamed, retry, stream_with_retry, max_attempts, is_final, returned}
use doota.Agent.Calls.{pause_requested, pause_run, execute_calls}
use doota.Agent.Loop.{
  silent_text, stop_or_fail, broken_stream, ids_of, finish_turn, take_reply, accept, some_error,
  take_stream, call_model, replay_or_call, advance,
}
use doota.Agent.Safety.{
  ServiceInv, Sound, throw-Sound, set_state-Sound, sound_steps, choice-Sound, if-Sound,
  meanwhile-ServiceInv,
}
use doota.Agent.Worker.Calls.{pause_run-Sound, execute_calls-Sound}

-- The four ends of an attempt: it is final, it was the last, the wait was cancelled, or the next
-- attempt is made.
retried :
    (P : Service → Type 0) (final cancelled : Bool) (left : ℕ) (x : Streamed) (s' : Service)
    → (y z : Streamed) (next : Streamed × Service) → P s'
    → P next.1
    → P
        (elim final as (λ _. Streamed × Service) [
          | true ↦ (x, s')
          | false ↦ elim left as (λ _. Streamed × Service) [
            | zero ↦ (y, s')
            | suc _ ↦ if cancelled then (z, s') else next
          ]
        ]).1
retried P true cancelled left x s' y z next now later = now
retried P false cancelled zero x s' y z next now later = now
retried P false true (suc left) x s' y z next now later = now
retried P false false (suc left) x s' y z next now later = later

retry-ServiceInv :
    (o : Outside) (history : List Message) (left attempt : ℕ) (s : Service)
    → ServiceInv s
    → ServiceInv (retry o history left attempt s).1
unfolding retry
retry-ServiceInv o history zero attempt s v = v
retry-ServiceInv o history (suc left) attempt s v =
    let reply = o.model attempt history s in
    let s' = meanwhile reply.happenings s in
    let v' = meanwhile-ServiceInv reply.happenings s v in
    retried ServiceInv (is_final reply) (o.cancelled attempt s') left (returned reply (suc attempt))
      s' (record { response = none; failure = reply.failure; attempts = suc attempt })
      (record { response = none; failure = some canceled; attempts = suc attempt })
      (retry o history left (suc attempt) s') v'
      (retry-ServiceInv o history left (suc attempt) s' v')

idle_run-Keeps : (rid : ℕ) → Keeps (finish_run rid idle none)
unfolding is_active
idle_run-Keeps rid = finish_run-Keeps rid idle none refl

module _ (pid rid : ℕ) where
  stop_or_fail-Sound : (e : Error) → Sound (stop_or_fail rid e)
  unfolding stop_or_fail
  stop_or_fail-Sound e = if-Sound (pause_requested rid) _ (throw e) paused (throw-Sound e)
    where
      paused : Sound {A = Bool} (do pause_run rid; return false)
      paused = search (sound_steps, pause_run-Sound) depth 6

  broken_stream-Sound : (r : Response) (e : Error) → Sound (broken_stream pid rid r e)
  unfolding broken_stream
  broken_stream-Sound r e =
      choice-Sound (is_empty (trim_space r.content)) _ _ (stop_or_fail-Sound _)
        (search (sound_steps, append_message-Keeps, stop_or_fail-Sound) depth 8)

  finish_turn-Sound : Sound (finish_turn pid rid)
  unfolding finish_turn
  finish_turn-Sound = search (sound_steps, idle_run-Keeps) depth 8

  take_reply-Sound : (o : Outside) (r : Response) → Sound (take_reply o pid rid r)
  unfolding take_reply
  take_reply-Sound o r =
      search (sound_steps, append_message-Keeps, increment_run_step-Keeps, acts r.tool_calls) depth
        10
    where
      acts :
          (cs : List ToolCall) (m : Message)
          → Sound (elim cs as (λ _. Proc Bool) [
            | [] ↦ finish_turn pid rid
            | c ∷ cs ↦ (do execute_calls o pid rid m (ids_of (c ∷ cs)); return true)
          ])
      acts [] m = finish_turn-Sound
      acts (c ∷ cs) m = search (sound_steps, execute_calls-Sound) depth 6

  accept-Sound : (o : Outside) (r : Response) → Sound (accept o pid rid r)
  unfolding accept
  accept-Sound o r = by_cause (silent_cause r)
    where
      by_cause :
          (c : SilentCause)
          → Sound (elim c as (λ _. Proc Bool) [
            | not_silent ↦ take_reply o pid rid r
            | cause ↦ throw (refused (silent_text cause r o.max_output_tokens))
          ])
      by_cause not_silent = take_reply-Sound o r
      by_cause silent_truncated = throw-Sound _
      by_cause silent_filtered = throw-Sound _
      by_cause silent_reasoning = throw-Sound _
      by_cause silent_unknown = throw-Sound _

  take_stream-Sound : (o : Outside) (st : Streamed) → Sound (take_stream o pid rid st)
  unfolding take_stream
  take_stream-Sound o st = arrived st.response st.failure
    where
      arrived :
          (response : Option Response) (failure : Option Error)
          → Sound (elim response as (λ _. Proc Bool) [
            | none ↦ stop_or_fail rid (wrapped (codes "model call failed") (some_error failure))
            | some r ↦ elim failure as (λ _. Proc Bool) [
              | some e ↦ broken_stream pid rid r e
              | none ↦ accept o pid rid r
            ]
          ])
      arrived none failure = stop_or_fail-Sound _
      arrived (some r) (some e) = broken_stream-Sound r e
      arrived (some r) none = accept-Sound o r

  call_model-Sound : (o : Outside) (step : ℕ) → Sound (call_model o pid rid step)
  unfolding call_model stream_with_retry
  call_model-Sound o step = record {
    sound = λ s v.
        let s₁ = (set_state pid rid agent_thinking (codes "step " ++ decimal (step + 1)) s).1 in
        let st = stream_with_retry o (context_messages pid s.db) s₁ in
        (take_stream-Sound o st.0).sound st.1 (
          retry-ServiceInv o (context_messages pid s.db) max_attempts 0 s₁
            ((set_state-Sound pid rid agent_thinking _).sound s v));
  }

  replay_or_call-Sound : (o : Outside) (step : ℕ) → Sound (replay_or_call o pid rid step)
  unfolding replay_or_call
  replay_or_call-Sound o step = record { sound = λ s v. pick (trailing_tool_calls rid s.db) s v }
    where
      replay :
          (m : Message) (ids : List ℕ)
          → Sound {A = Bool} (do execute_calls o pid rid m ids; return true)
      replay m ids = search (sound_steps, execute_calls-Sound) depth 6

      pick :
          (t : Option (Message × List ℕ)) (s : Service)
          → ServiceInv s
          → ServiceInv
              (elim t as (λ _. Result Bool × Service) [
                | none ↦ call_model o pid rid step s
                | some (m, []) ↦ call_model o pid rid step s
                | some (m, id ∷ ids) ↦ (do execute_calls o pid rid m (id ∷ ids); return true) s
              ]).1
      pick none s v = (call_model-Sound o step).sound s v
      pick (some (m, [])) s v = (call_model-Sound o step).sound s v
      pick (some (m, id ∷ ids)) s v = (replay m (id ∷ ids)).sound s v

pub advance-Sound : (o : Outside) (r : Run) → Sound (advance o r)
unfolding advance
advance-Sound o r = record {
  sound = λ s v. known (first_row (is_project r.project) s.db.projects) s v;
}
  where
    ended :
        (row : Run)
        → Sound {A = Bool}
            (do publish_run row; set_state r.project r.id agent_idle []; return false)
    ended row = search sound_steps depth 8

    go :
        (finished : Option Run) (s : Service)
        → ServiceInv s
        → ServiceInv
            (elim finished as (λ _. Result Bool × Service) [
              | some row ↦
                  (do publish_run row; set_state r.project r.id agent_idle []; return false) s
              | none ↦ replay_or_call o r.project r.id r.step_count s
            ]).1
    go (some row) s v = (ended row).sound s v
    go none s v = (replay_or_call-Sound r.project r.id o r.step_count).sound s v

    known :
        (p : Option Project) (s : Service)
        → ServiceInv s
        → ServiceInv
            (elim p as (λ _. Result Bool × Service) [
              | none ↦ (err not_found, s)
              | some _ ↦
                  let (finished, db) = finish_if_terminal_assistant r.id s.db in
                  let s₁ = record s { db = db } in
                  elim finished as (λ _. Result Bool × Service) [
                    | some row ↦
                        (do publish_run row; set_state r.project r.id agent_idle []; return false)
                          s₁
                    | none ↦ replay_or_call o r.project r.id r.step_count s₁
                  ]
            ]).1
    known none s v = v
    known (some p) s v =
        let f = finish_if_terminal_assistant r.id s.db in
        go f.0 (record s { db = f.1 }) (finish_if_terminal_assistant-Inv r.id s.db v)
