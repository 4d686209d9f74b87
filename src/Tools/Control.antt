-- ===== src/Tools/Control.antt =====
-- internal/tools/plan.go and review.go: the tools that validate a request and hand it to the
-- runner. `decode` parses the JSON arguments and is a parameter.
use doota.Prelude.{ℕ, List, [], ◌∷◌, ◌++◌, none, some, ◌==◌, ltb, if◌then◌else◌, length}
use doota.Prelude.Text.{Text, codes, trim_space, is_empty, decimal}
use doota.Store.Query.{Result, ok, err, error_message}
use doota.Store.Plan.{task_status}
use doota.Tools.Result.{
  PlanRequest, TaskUpdate, ToolResult, plan_request, task_update, memories_update,
  orientation_update, done_request, review_request, fail, success,
}

-- `trimAll`: the entries that are not blank, trimmed.
unfoldable pub trim_all : List Text → List Text
unfolding is_empty
trim_all [] = []
trim_all (t ∷ ts) =
    let rest = trim_all ts in if is_empty (trim_space t) then rest else trim_space t ∷ rest

unfoldable pub trimmed_request : PlanRequest → PlanRequest
unfolding trim_all
trimmed_request a = record {
  title = trim_space a.title;
  problem = trim_space a.problem;
  approach = trim_space a.approach;
  verification = trim_all a.verification;
  edge_cases = trim_all a.edge_cases;
  risks = trim_space a.risks;
  questions = trim_all a.questions;
  tasks = trim_all a.tasks;
}

unfoldable pub proposed_text : PlanRequest → Text
proposed_text a =
    codes "Proposed \""
    ++ a.title
    ++ codes "\": "
    ++ decimal (length a.tasks)
    ++ codes " subtasks, "
    ++ decimal (length a.verification)
    ++ codes " verification steps, "
    ++ decimal (length a.edge_cases)
    ++ codes " edge cases. Waiting for the operator to approve it."

unfoldable pub create_plan : (Text → Result PlanRequest) → Text → ToolResult
unfolding trimmed_request is_empty
create_plan decode args = elim (decode args) [
  | err e ↦ fail (error_message e)
  | ok raw ↦
      let a = trimmed_request raw in
      if is_empty a.title
      then fail (codes "title is required.")
      else if is_empty a.problem
      then fail (codes "problem is required: restate what the operator wants in your own words.")
      else if is_empty a.approach
      then fail (codes "approach is required: say how you will do this, in plain language.")
      else if is_empty a.verification
      then fail (
          codes
            "verification is required: name how you will check this actually works. If something genuinely cannot be verified — rendered layout, for instance — say that as the entry.")
      else if is_empty a.tasks
      then fail (codes "a plan needs at least one subtask.")
      else success (proposed_text a) (plan_request a)
]

unfoldable pub update_task_tool : (Text → Result TaskUpdate) → Text → ToolResult
unfolding is_empty
update_task_tool decode args = elim (decode args) [
  | err e ↦ fail (error_message e)
  | ok a ↦
      if a.task == 0
      then fail (codes "task must be a subtask number from the board.")
      else elim (task_status (trim_space a.status)) [
        | none ↦ fail (codes "status must be pending, doing, done, or blocked.")
        | some _ ↦
            success
              (codes "Marking subtask "
                ++ decimal a.task
                ++ codes " as "
                ++ trim_space a.status
                ++ codes ".")
              (task_update (record a { status = trim_space a.status; note = trim_space a.note }))
      ]
]

abbrev pub max_notes_len : ℕ
max_notes_len = 8000

-- `size` is `len`, the number of bytes in UTF-8.
unfoldable pub remember : (Text → ℕ) → (Text → Result Text) → Text → ToolResult
remember size decode args = elim (decode args) [
  | err e ↦ fail (error_message e)
  | ok raw ↦
      if ltb max_notes_len (size (trim_space raw))
      then fail (
          codes "memories must stay under "
          ++ decimal max_notes_len
          ++ codes " characters; prune the least useful lines.")
      else success (codes "Memories updated.") (memories_update (trim_space raw))
]

unfoldable pub record_orientation : (Text → ℕ) → (Text → Result Text) → Text → ToolResult
unfolding is_empty
record_orientation size decode args = elim (decode args) [
  | err e ↦ fail (error_message e)
  | ok raw ↦
      if is_empty (trim_space raw)
      then fail (codes "orientation is required. To clear the notes, say so in chat instead.")
      else if ltb max_notes_len (size (trim_space raw))
      then fail (
          codes "orientation must stay under "
          ++ decimal max_notes_len
          ++ codes " characters; keep the commands and drop the prose.")
      else success (codes "Orientation notes updated.") (orientation_update (trim_space raw))
]

unfoldable pub review_tool : (Text → Result Text) → Text → ToolResult
review_tool decode args = elim (decode args) [
  | err e ↦ fail (error_message e)
  | ok focus ↦ success (codes "Starting an independent review.") (review_request (trim_space focus))
]

unfoldable pub done_tool : (Text → Result Text) → Text → ToolResult
unfolding is_empty
done_tool decode args = elim (decode args) [
  | err e ↦ fail (error_message e)
  | ok raw ↦
      if is_empty (trim_space raw)
      then fail (codes "summary is required.")
      else success (codes "Shipping.") (done_request (trim_space raw))
]
