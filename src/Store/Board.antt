-- ===== src/Store/Board.antt =====
-- internal/store/scratchpad.go, lines 17 to 183: the task board and what the model sees of it.
use doota.Prelude.{
  Bool, true, false, not, ◌&&◌, List, [], ◌∷◌, ◌++◌, Option, none, some, ◌==◌, if◌then◌else◌,
}
use doota.Prelude.Text.{Text, codes, is_empty, drop_right, decimal}
use doota.Store.Schema.{
  Task, TaskStatus, Spec, Scratchpad, PlanStatus, pending, doing, completed, blocked, draft,
  approved,
}

abbrev pub empty_spec : Spec
empty_spec = record {
  problem = [];
  approach = [];
  verification = [];
  edge_cases = [];
  risks = [];
  questions = [];
}

-- `Scratchpad{}`
abbrev pub empty_pad : Scratchpad
empty_pad = record {
  title = [];
  status = none;
  base_commit = [];
  feedback = [];
  spec = empty_spec;
  tasks = [];
}

unfoldable pub is_empty_spec : Spec → Bool
unfolding is_empty
is_empty_spec s =
    is_empty s.problem
    && is_empty s.approach
    && is_empty s.verification
    && is_empty s.edge_cases
    && is_empty s.risks
    && is_empty s.questions

unfoldable pub is_empty_pad : Scratchpad → Bool
unfolding is_empty
is_empty_pad s = is_empty s.title && is_empty s.tasks

abbrev is_draft : Option PlanStatus → Bool
is_draft (some draft) = true
is_draft _ = false

abbrev is_released : Option PlanStatus → Bool
is_released (some approved) = true
is_released _ = false

unfoldable pub is_approved : Scratchpad → Bool
is_approved s = is_released s.status

unfoldable pub awaiting_approval : Scratchpad → Bool
unfolding is_empty_pad
awaiting_approval s = not (is_empty_pad s) && is_draft s.status

abbrev pub is_doing : TaskStatus → Bool
is_doing doing = true
is_doing _ = false

abbrev pub is_open : TaskStatus → Bool
is_open pending = true
is_open blocked = true
is_open _ = false

abbrev pub is_completed : TaskStatus → Bool
is_completed completed = true
is_completed _ = false

-- The first task of a kind: one loop of `Current`.
unfoldable pub first_task : (TaskStatus → Bool) → List Task → Option Task
first_task p [] = none
first_task p (t ∷ ts) = let rest = first_task p ts in if p t.status then some t else rest

unfoldable pub current : Scratchpad → Option Task
unfolding first_task
current s = elim (first_task is_doing s.tasks) [
  | some t ↦ some t
  | none ↦ first_task is_open s.tasks
]

unfoldable pub all_completed : List Task → Bool
all_completed [] = true
all_completed (t ∷ ts) = is_completed t.status && all_completed ts

unfoldable pub all_done : Scratchpad → Bool
unfolding all_completed is_empty_pad
all_done s = if is_empty_pad s then false else all_completed s.tasks

unfoldable pub status_text : TaskStatus → Text
status_text pending = codes "pending"
status_text doing = codes "doing"
status_text completed = codes "done"
status_text blocked = codes "blocked"

unfoldable pub plan_status_text : Option PlanStatus → Text
plan_status_text none = []
plan_status_text (some draft) = codes "draft"
plan_status_text (some approved) = codes "approved"

-- One `Fprintf` of a labelled line, left out where the field is empty.
unfoldable pub field_line : Text → Text → Text
unfolding is_empty
field_line label value = if is_empty value then [] else label ++ value ++ codes "\n"

unfoldable pub item_lines : Text → List Text → Text
item_lines label [] = []
item_lines label (v ∷ vs) = label ++ v ++ codes "\n" ++ item_lines label vs

unfoldable pub spec_lines : Spec → Text
unfolding is_empty_spec field_line item_lines
spec_lines s =
    if is_empty_spec s
    then []
    else codes "\nAgreed spec:\n"
      ++ field_line (codes "  Problem: ") s.problem
      ++ field_line (codes "  Approach: ") s.approach
      ++ item_lines (codes "  Must verify: ") s.verification
      ++ item_lines (codes "  Edge case: ") s.edge_cases
      ++ field_line (codes "  Risks: ") s.risks
      ++ codes "\n"

unfoldable pub task_line : Task → Text
unfolding is_empty status_text
task_line t =
    decimal t.n
    ++ codes ". ["
    ++ status_text t.status
    ++ codes "] "
    ++ t.summary
    ++ (if is_empty t.note then [] else codes " — " ++ t.note)
    ++ codes "\n"

unfoldable pub task_lines : List Task → Text
unfolding task_line
task_lines [] = []
task_lines (t ∷ ts) = task_line t ++ task_lines ts

unfoldable pub render : Scratchpad → Text
unfolding spec_lines task_lines plan_status_text is_empty_pad
render s =
    if is_empty_pad s
    then codes "The task board is empty. No plan has been made."
    else drop_right (λ c. c == b'\n')
        (codes "Plan: "
          ++ s.title
          ++ codes " ("
          ++ plan_status_text s.status
          ++ codes ")\n"
          ++ spec_lines s.spec
          ++ task_lines s.tasks)
