-- ===== src/Tools/Result.antt =====
-- internal/tools/tools.go: what a tool returns. `Display any` is a data type of the payloads that
-- the runner looks at.
use doota.Prelude.{ℕ, Bool, true, false, List, Option, none, some}
use doota.Prelude.Text.{Text}

pub record PlanRequest : Type 0 where
  pub title : Text
  pub problem : Text
  pub approach : Text
  pub verification : List Text
  pub edge_cases : List Text
  pub risks : Text
  pub questions : List Text
  pub tasks : List Text

pub record TaskUpdate : Type 0 where
  pub task : ℕ
  pub status : Text
  pub note : Text

pub data Display : Type 0 where
  no_display : Display
  plan_request : PlanRequest → Display
  task_update : TaskUpdate → Display
  memories_update orientation_update done_request review_request ui_review_request : Text → Display
  other_display : Text → Display
  -- Of git_diff: the scope, the diff, `stat` and `truncated`; of git_commit: the commit, the message
  -- and its summary; of git_push: the commit and `forced`; of create_pr: the URL, the number, the
  -- status and `created`; of bash_bg: the name, the pid, the log, the directory and the command of a
  -- process that runs, or the name and the log of one that has exited; of stop_bg: the name of one
  -- that could not be signalled.
  diff_display : Text → Text → Bool → Bool → Display
  commit_display : Text → Text → Text → Display
  push_display : Text → Bool → Display
  pull_display : Option Text → Option ℕ → Option ℕ → Bool → Display
  started_display : Text → Text → Text → Text → Text → Display
  exited_display : Text → Text → Display
  unsignalled_display : Text → Display

pub record ToolResult : Type 0 where
  pub content : Text
  pub display : Display
  pub is_error : Bool

abbrev pub fail : Text → ToolResult
fail t = record { content = t; display = no_display; is_error = true }

abbrev pub success : Text → Display → ToolResult
success t d = record { content = t; display = d; is_error = false }

-- The type assertions on a display.
abbrev pub plan_of : Display → Option PlanRequest
plan_of (plan_request x) = some x
plan_of _ = none

abbrev pub task_of : Display → Option TaskUpdate
task_of (task_update x) = some x
task_of _ = none

abbrev pub memories_of : Display → Option Text
memories_of (memories_update x) = some x
memories_of _ = none

abbrev pub orientation_of : Display → Option Text
orientation_of (orientation_update x) = some x
orientation_of _ = none

abbrev pub summary_of : Display → Option Text
summary_of (done_request x) = some x
summary_of _ = none

abbrev pub focus_of : Display → Option Text
focus_of (review_request x) = some x
focus_of _ = none

abbrev pub intent_of : Display → Option Text
intent_of (ui_review_request x) = some x
intent_of _ = none
