-- ===== src/Agent/Worker/Ship.antt =====
-- `ship` keeps the invariant of the tables.
use Prim.Native.String.{String}
use doota.Prelude.{ℕ, refl, not, Option, none, some, List, if◌then◌else◌}
use doota.Prelude.Text.{Text, codes, trim_space, is_empty}
use doota.Store.Schema.{is_active, Run, Message, done, error, agent_done}
use doota.Store.Query.{Result, ok, err, wrapped}
use doota.Store.Run.{finish_run, append_tool_result_and_await}
use doota.Store.Plan.{clear_plan}
use doota.Store.Transcript.{append_message, log_tool_call, review_outcomes, ui_review_outcomes}
use doota.Store.Invariant.{Keeps}
use doota.Store.Safety.{
  append_message-Keeps, clear_plan-Keeps, finish_run-Keeps, append_tool_result_and_await-Keeps,
}
use doota.Tools.Result.{ToolResult, Display}
use doota.Tools.Registry.{execute, shipping, reviewer}
use doota.Agent.State.{Service, ◌>>=◌, ◌>>◌, return, store, set_state}
use doota.Agent.Outside.{Outside, error_json, unpushed_json, shipped_json}
use doota.Agent.Ship.{
  done_result, run_tool, Gate, pass, unreviewed, inconclusive, unseen, unseen_verdict, review_gate,
  gate, gate_text, refuse, pr_title, pr_outcome, shipped_text, finish_ship, push_failed_text,
  push_and_finish, read_diff, ship, dirty_text, files_of, touched_files,
}
use doota.Agent.Safety.{ServiceInv, Sound, sound_steps, if-Sound, choice-ServiceInv}

pub run_tool-Sound :
    (registry : List String) (rid mid : ℕ) (name : String) (reply : Service → Result ToolResult)
    → Sound (run_tool registry rid mid name reply)
unfolding run_tool execute log_tool_call
run_tool-Sound registry rid mid name reply = record {
  sound = λ s v. record {
    one_active = v.one_active;
    runs_below = v.runs_below;
    messages_below = v.messages_below;
    events_below = v.events_below;
  };
}

pub refuse-Sound :
    (o : Outside) (pid rid cid : ℕ) (content summary : Text)
    → Sound (refuse o pid rid cid content summary)
unfolding refuse
refuse-Sound o pid rid cid content summary = search (sound_steps, append_message-Keeps) depth 8

shipped_run-Keeps : (rid : ℕ) → Keeps (finish_run rid done none)
unfolding is_active
shipped_run-Keeps rid = finish_run-Keeps rid done none refl

finish_ship-Sound :
    (o : Outside) (pid rid mid cid : ℕ) (summary : Text) (pushed : Display)
    → Sound (finish_ship o pid rid mid cid summary pushed)
unfolding finish_ship
finish_ship-Sound o pid rid mid cid summary pushed = record {
  sound = λ s v.
      let title = pr_title pid summary s in
      let called = run_tool shipping rid mid "create_pr" (o.create_pr title summary) s in
      (ends (shipped_text summary (pr_outcome called.0))
          (o.encode (shipped_json summary pushed (pr_outcome called.0)))).sound
        called.1
        ((run_tool-Sound shipping rid mid "create_pr" (o.create_pr title summary)).sound s v);
}
  where
    ends :
        (text display : Text)
        → Sound {A = Message × Option Run} (do
          store (clear_plan pid)
          m ← store (append_message (done_result pid rid cid text display))
          r ← store (finish_run rid done none)
          set_state pid rid agent_done (codes "shipped")
          return (m, some r))
    ends text display =
        search (sound_steps, clear_plan-Keeps, append_message-Keeps, shipped_run-Keeps) depth 16

push_and_finish-Sound :
    (o : Outside) (pid rid mid cid : ℕ) (summary : Text)
    → Sound (push_and_finish o pid rid mid cid summary)
unfolding push_and_finish
push_and_finish-Sound o pid rid mid cid summary = record {
  sound = λ s v.
      let called = run_tool shipping rid mid "git_push" o.push s in
      pushed called.0 called.1 ((run_tool-Sound shipping rid mid "git_push" o.push).sound s v);
}
  where
    rejected :
        (content display payload : Text)
        → Sound {A = Message × Option Run} (do
          (m, w) ← store (
              append_tool_result_and_await rid
                (done_result pid rid cid (push_failed_text content) display)
                error
                payload)
          return (m, some w))
    rejected content display payload =
        search (sound_steps, append_tool_result_and_await-Keeps) depth 8

    pushed :
        (reply : Result ToolResult) (s : Service)
        → ServiceInv s
        → ServiceInv
            (elim reply as (λ _. Result (Message × Option Run) × Service) [
              | err e ↦ (err (wrapped (codes "push for done") e), s)
              | ok r ↦
                  if r.is_error
                  then (do
                    (m, w) ← store (
                        append_tool_result_and_await rid
                          (done_result pid rid cid
                            (push_failed_text r.content)
                            (o.encode (unpushed_json summary r.display)))
                          error
                          (o.encode (
                            error_json r.content
                              (codes "Fix the push problem, then press Resume."))))
                    return (m, some w))
                      s
                  else finish_ship o pid rid mid cid summary r.display s
            ]).1
    pushed (err e) s v = v
    pushed (ok r) s v =
        (if-Sound (λ _. r.is_error) _ _
            (rejected r.content (o.encode (unpushed_json summary r.display))
              (o.encode (error_json r.content (codes "Fix the push problem, then press Resume."))))
            (finish_ship-Sound o pid rid mid cid summary r.display)).sound
          s v

read_diff-ServiceInv :
    (o : Outside) (rid mid : ℕ) (s : Service) → ServiceInv s → ServiceInv (read_diff o rid mid s).1
unfolding read_diff
read_diff-ServiceInv o rid mid s v = read (review_gate (review_outcomes rid s.db))
  where
    read :
        (g : Gate)
        → ServiceInv
            (elim g as (λ _. Option Text × Service) [
              | pass ↦ (
                touched_files (run_tool reviewer rid mid "git_diff" o.diff_stat s).0,
                (run_tool reviewer rid mid "git_diff" o.diff_stat s).1,
              )
              | _ ↦ (none, s)
            ]).1
    read pass = (run_tool-Sound reviewer rid mid "git_diff" o.diff_stat).sound s v
    read unreviewed = v
    read inconclusive = v
    read unseen = v
    read unseen_verdict = v

pub ship-Sound :
    (o : Outside) (pid rid mid cid : ℕ) (summary : Text) → Sound (ship o pid rid mid cid summary)
unfolding ship
ship-Sound o pid rid mid cid summary = record { sound = λ s v. checked s v (o.worktree s) }
  where
    gated :
        (g : Gate) (s₁ : Service) (touched : Option Text)
        → ServiceInv s₁
        → ServiceInv
            (elim g as (λ _. Result (Message × Option Run) × Service) [
              | pass ↦ push_and_finish o pid rid mid cid summary s₁
              | g ↦ refuse o pid rid cid (gate_text g (files_of touched)) summary s₁
            ]).1
    gated pass s₁ t v = (push_and_finish-Sound o pid rid mid cid summary).sound s₁ v
    gated unreviewed s₁ t v = (refuse-Sound o pid rid cid _ summary).sound s₁ v
    gated inconclusive s₁ t v = (refuse-Sound o pid rid cid _ summary).sound s₁ v
    gated unseen s₁ t v = (refuse-Sound o pid rid cid _ summary).sound s₁ v
    gated unseen_verdict s₁ t v = (refuse-Sound o pid rid cid _ summary).sound s₁ v

    checked :
        (s : Service)
        → ServiceInv s
        → (out : Result Text)
        → ServiceInv
            (elim out as (λ _. Result (Message × Option Run) × Service) [
              | err e ↦ (err (wrapped (codes "check worktree before shipping") e), s)
              | ok out ↦
                  if not (is_empty (trim_space out))
                  then refuse o pid rid cid dirty_text summary s
                  else let (touched, s₁) = read_diff o rid mid s in
                    elim (gate (review_outcomes rid s.db) touched (ui_review_outcomes rid s₁.db)) [
                      | pass ↦ push_and_finish o pid rid mid cid summary s₁
                      | g ↦ refuse o pid rid cid (gate_text g (files_of touched)) summary s₁
                    ]
            ]).1
    checked s v (err e) = v
    checked s v (ok out) =
        choice-ServiceInv (not (is_empty (trim_space out)))
          (refuse o pid rid cid dirty_text summary s) _
          ((refuse-Sound o pid rid cid dirty_text summary).sound s v)
          (let (touched, s₁) = read_diff o rid mid s in
            gated (gate (review_outcomes rid s.db) touched (ui_review_outcomes rid s₁.db)) s₁
              touched (read_diff-ServiceInv o rid mid s v))
