-- ===== src/Agent/Ship.antt =====
-- internal/agent/agent.go, `ship`: the gates before shipping, the push, the pull request and the
-- end of the run. A diff or a push is run through a registry, which logs it.
use Prim.Native.String.{String}
use doota.Prelude.{
  ℕ, Bool, false, not, ◌&&◌, List, [], ◌++◌, Option, none, some, ltb, ◌==◌, if◌then◌else◌,
}
use doota.Prelude.Text.{Text, codes, trim_space, is_empty}
use doota.Store.Schema.{Run, Message, NewMessage, tool, done, error, agent_done}
use doota.Store.Query.{Result, ok, err, wrapped, error_message, scratchpad_tx}
use doota.Store.Run.{finish_run, append_tool_result_and_await}
use doota.Store.Plan.{clear_plan}
use doota.Store.Transcript.{append_message, review_outcomes, ui_review_outcomes}
use doota.Tools.Result.{ToolResult, Display, fail}
use doota.Tools.Registry.{execute, shipping, reviewer}
use doota.Agent.State.{Service, Proc, ◌>>=◌, ◌>>◌, return, store, set_state}
use doota.Agent.Outside.{Outside, error_json, held_json, unpushed_json, shipped_json}
use doota.Agent.Touched.{ui_touched}

-- The tool result of done, with what it shows.
unfoldable pub done_result : ℕ → ℕ → ℕ → Text → Text → NewMessage
done_result pid rid cid content display = record {
  project = pid;
  run = some rid;
  role = tool;
  kind = none;
  content = content;
  reasoning_items = none;
  tool_calls = none;
  tool_call_id = some cid;
  tool_name = some "done";
  token_count = none;
  prompt_tokens = none;
  reasoning_tokens = none;
  interrupted = false;
  tool_display = some display;
}

-- A tool that the runner calls itself, through a registry.
unfoldable pub run_tool :
    List String → ℕ → ℕ → String → (Service → Result ToolResult) → Proc ToolResult
run_tool registry rid mid name reply s =
    let (r, db) = execute registry rid mid name (reply s) s.db in (r, record s { db = db })

-- What stops a ship before the push; the order is that of the code.
pub data Gate : Type 0 where
  pass unreviewed inconclusive unseen unseen_verdict : Gate

unfoldable pub review_gate : ℕ × Bool → Gate
review_gate (attempts, concluded) =
    if attempts == 0
    then unreviewed
    else if not concluded && ltb attempts 2
    then inconclusive
    else pass

unfoldable pub ui_gate : ℕ × Bool → Gate
ui_gate (attempts, concluded) =
    if attempts == 0
    then unseen
    else if not concluded && ltb attempts 2
    then unseen_verdict
    else pass

abbrev pub dirty_text : Text
dirty_text =
    codes
      "done needs a clean worktree. Commit or discard the remaining changes, then call done again."

unfoldable pub gate_text : Gate → Text → Text
gate_text pass files = []
gate_text unreviewed files =
    codes
      "Before shipping, call review so an independent reviewer reads the diff. Deal with anything real it finds, then call done again."
gate_text inconclusive files =
    codes
      "The review did not reach a verdict, so nothing has actually been reviewed yet. Call review again. If it fails the same way a second time, say so in your summary and call done — but do not describe this work as reviewed."
gate_text unseen files =
    codes "This change touches the interface ("
    ++ files
    ++ codes
        "), and you cannot see rendered pixels. Start the app with bash_bg and call ui_review with mode \"verify\" and its URL, so a reviewer that can see it checks the phone and desktop layouts. Fix what it finds, then call done again."
gate_text unseen_verdict files =
    codes
      "The UI review did not reach a verdict, so the interface has not actually been looked at. Call ui_review again. If it fails the same way twice, say so in your summary and call done — but do not describe the UI as checked."

-- The files that render, where git_diff could be read; a failure is only logged.
unfoldable pub touched_files : Result ToolResult → Option Text
unfolding ui_touched
touched_files (err _) = none
touched_files (ok r) = if r.is_error then none else ui_touched r.content

-- Both gates: the interface's only where the first one passes and the diff touches a file that
-- renders.
unfoldable pub gate : ℕ × Bool → Option Text → ℕ × Bool → Gate
unfolding review_gate ui_gate
gate reviews touched ui_reviews = elim (review_gate reviews) [
  | pass ↦ elim touched [ none ↦ pass | some _ ↦ ui_gate ui_reviews ]
  | g ↦ g
]

unfoldable pub refuse : Outside → ℕ → ℕ → ℕ → Text → Text → Proc (Message × Option Run)
refuse o pid rid cid content summary = do
  m ← store (append_message (done_result pid rid cid content (o.encode (held_json summary))))
  return (m, none)

-- The title of the pull request: the plan's, or else the summary.
unfoldable pub pr_title : ℕ → Text → Service → Text
unfolding is_empty
pr_title pid summary s = elim (scratchpad_tx pid s.db) [
  | err _ ↦ summary
  | ok (pad, _) ↦ if is_empty pad.title then summary else pad.title
]

unfoldable pub pr_outcome : Result ToolResult → ToolResult
pr_outcome (ok r) = r
pr_outcome (err e) =
    fail (codes "Could not open a pull request after the successful push: " ++ error_message e)

unfoldable pub shipped_text : Text → ToolResult → Text
shipped_text summary pr =
    codes "Shipped `doot`.\n\n"
    ++ summary
    ++ codes "\n\nPreview: /"
    ++ (if pr.is_error
        then codes "\n\nNo pull request was opened, but the push succeeded: " ++ pr.content
        else codes "\n\n" ++ pr.content)

-- After the push: the pull request, the cleared board, the message and the end of the run.
unfoldable pub finish_ship : Outside → ℕ → ℕ → ℕ → ℕ → Text → Display → Proc (Message × Option Run)
unfolding run_tool pr_outcome
finish_ship o pid rid mid cid summary pushed s =
    let title = pr_title pid summary s in
    let (reply, s₁) = run_tool shipping rid mid "create_pr" (o.create_pr title summary) s in
    (do
      store (clear_plan pid)
      m ← store (
          append_message (
            done_result pid rid cid (shipped_text summary (pr_outcome reply))
              (o.encode (shipped_json summary pushed (pr_outcome reply)))))
      r ← store (finish_run rid done none)
      set_state pid rid agent_done (codes "shipped")
      return (m, some r))
      s₁

unfoldable pub push_failed_text : Text → Text
push_failed_text content = codes "Shipping stopped: pushing doot failed. " ++ content

unfoldable pub push_and_finish : Outside → ℕ → ℕ → ℕ → ℕ → Text → Proc (Message × Option Run)
unfolding finish_ship
push_and_finish o pid rid mid cid summary s =
    let (reply, s₁) = run_tool shipping rid mid "git_push" o.push s in
    elim reply [
      | err e ↦ (err (wrapped (codes "push for done") e), s₁)
      | ok r ↦
          if r.is_error
          then (do
            (m, w) ← store (
                append_tool_result_and_await rid
                  (done_result pid rid cid (push_failed_text r.content)
                    (o.encode (unpushed_json summary r.display)))
                  error
                  (o.encode
                    (error_json r.content (codes "Fix the push problem, then press Resume."))))
            return (m, some w))
              s₁
          else finish_ship o pid rid mid cid summary r.display s₁
    ]

-- The diff is only read where the semantic review lets the ship through.
unfoldable pub read_diff : Outside → ℕ → ℕ → Service → Option Text × Service
read_diff o rid mid s = elim (review_gate (review_outcomes rid s.db)) [
  | pass ↦
      let (reply, s₁) = run_tool reviewer rid mid "git_diff" o.diff_stat s in
      (touched_files reply, s₁)
  | _ ↦ (none, s)
]

abbrev pub files_of : Option Text → Text
files_of none = []
files_of (some t) = t

unfoldable pub ship : Outside → ℕ → ℕ → ℕ → ℕ → Text → Proc (Message × Option Run)
unfolding read_diff push_and_finish refuse
ship o pid rid mid cid summary s = elim (o.worktree s) [
  | err e ↦ (err (wrapped (codes "check worktree before shipping") e), s)
  | ok out ↦
      if not (is_empty (trim_space out))
      then refuse o pid rid cid dirty_text summary s
      else let (touched, s₁) = read_diff o rid mid s in
        let go = push_and_finish o pid rid mid cid summary s₁ in
        elim (gate (review_outcomes rid s.db) touched (ui_review_outcomes rid s₁.db)) [
          | pass ↦ go
          | g ↦ refuse o pid rid cid (gate_text g (files_of touched)) summary s₁
        ]
]
