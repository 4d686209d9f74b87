-- ===== src/Agent/Reviewer.antt =====
-- internal/agent/review.go: the reviewer's own loop. What a model call gives after its retries, on
-- a conversation and with or without the tools, and what a read-only tool gives are parameters.
use doota.Prelude.{
  ℕ, zero, suc, Bool, not, ◌||◌, List, [], ◌∷◌, ◌++◌, map, ◌==◌, leb, if◌then◌else◌,
}
use doota.Prelude.Text.{
  Text, codes, decimal, is_empty, trim_space, drop_left, drop_right, to_lower, text_eq,
}
use doota.Store.Schema.{user, assistant, tool, ToolCall, Scratchpad, Task}
use doota.Store.Query.{Result, ok, err, error_message}
use doota.Store.Board.{status_text}
use doota.Model.Response.{Response, not_silent, silent_cause}
use doota.Model.Input.{ModelMessage}
use doota.Tools.Result.{ToolResult, fail, success, other_display}
use doota.Agent.Loop.{silent_text}

abbrev pub reviewer_max_turns : ℕ
reviewer_max_turns = 24

abbrev pub reviewer_warn_turns : ℕ
reviewer_warn_turns = 3

abbrev pub user_turn : Text → ModelMessage
user_turn t = record {
  role = user;
  content = t;
  tool_calls = [];
  images = [];
  reasoning = [];
  tool_call_id = 0;
}

abbrev pub assistant_reply : Response → ModelMessage
assistant_reply r = record {
  role = assistant;
  content = r.content;
  tool_calls = r.tool_calls;
  images = [];
  reasoning = r.reasoning;
  tool_call_id = 0;
}

abbrev pub tool_turn : ToolCall → Text → ModelMessage
tool_turn c t = record {
  role = tool;
  content = t;
  tool_calls = [];
  images = [];
  reasoning = [];
  tool_call_id = c.id;
}

-- How a review ends: with the model's last words, with a call or a tool that
-- failed, or with its turns used up.
pub data ReviewEnd : Type 0 where
  answers breaks tools_fail : Text → ReviewEnd
  runs_out : ReviewEnd

-- The user's turn that goes before the call with `remaining` turns left, this one included.
unfoldable pub reminder : ℕ → List ModelMessage
unfolding decimal
reminder remaining =
    if remaining == 1
    then user_turn (
        codes "Last turn, and your tools are withdrawn. Give your findings now, or CLEAN if the "
        ++ codes "change is sound. Name anything you did not get to check.")
      ∷ []
    else if leb remaining reviewer_warn_turns
    then user_turn (
        decimal remaining ++ codes " turns left. Finish what you are checking and reach a verdict.")
      ∷ []
    else []

-- The results of a turn's calls, in order; the first infrastructure error ends the review.
unfoldable pub run_tools :
    (ToolCall → List ModelMessage → Result ToolResult)
    → List ToolCall
    → List ModelMessage
    → Result (List ModelMessage)
run_tools call [] history = ok history
run_tools call (c ∷ cs) history = elim (call c history) [
  | err e ↦ err e
  | ok r ↦ run_tools call cs (history ++ tool_turn c r.content ∷ [])
]

module _ (ask : Bool → List ModelMessage → Result Response)
    (call : ToolCall → List ModelMessage → Result ToolResult) (budget : ℕ) where
  -- The loop of `runReview` with `left` turns remaining: how it ends, and the number of model calls.
  unfoldable pub review_loop : ℕ → List ModelMessage → ReviewEnd × ℕ
  unfolding is_empty silent_text
  review_loop zero history = (runs_out, 0)
  review_loop (suc left) history =
      let told = history ++ reminder (suc left) in
      elim (ask (not (suc left == 1)) told) [
        | err e ↦ (breaks (error_message e), 1)
        | ok r ↦ elim (silent_cause r) [
          | not_silent ↦
              if is_empty r.tool_calls
              then (answers r.content, 1)
              else elim (run_tools call r.tool_calls (told ++ assistant_reply r ∷ [])) [
                | err e ↦ (tools_fail (error_message e), 1)
                | ok more ↦ let (ended, n) = review_loop left more in (ended, suc n)
              ]
          | cause ↦ (breaks (silent_text cause r budget), 1)
        ]
      ]

abbrev is_mark : ℕ → Bool
is_mark c = c == b'.' || c == b'!'

-- `strings.EqualFold(strings.Trim(findings, ".!"), "CLEAN")`: no other character folds to one of
-- these letters.
unfoldable pub is_clean : Text → Bool
unfolding drop_left drop_right to_lower text_eq
is_clean t = text_eq (map to_lower (drop_right is_mark (drop_left is_mark t))) (codes "clean")

-- `reviewResult`.
unfoldable pub review_result : Text → ToolResult
unfolding is_clean is_empty trim_space
review_result raw =
    let findings = trim_space raw in
    if is_empty findings
    then fail (codes "The reviewer replied with nothing. Treat the review as inconclusive.")
    else if is_clean findings
    then success (codes "Review: clean. No actionable findings.")
        (other_display (codes "No actionable findings."))
    else success
        (codes "Review findings:\n\n"
          ++ findings
          ++ codes
              "\n\nFix what is real. If a finding is wrong, say so in one sentence and move on.")
        (other_display findings)

unfoldable pub end_result : ReviewEnd → ToolResult
unfolding review_result
end_result (answers t) = review_result t
end_result (breaks t) = fail (
    codes "The review did not complete: "
    ++ t
    ++ codes "\n\nDecide whether to retry it or proceed and say which.")
end_result (tools_fail t) = fail (
    codes "The reviewer's tools failed: "
    ++ t
    ++ codes "\n\nDecide whether to retry the review or proceed and say which.")
end_result runs_out = fail (
    codes "The reviewer stopped without reaching a conclusion. Treat the review as inconclusive: "
    ++ codes "proceed only if you are confident, and say so.")

unfoldable pub brief_tasks : List Task → Text
unfolding decimal status_text
brief_tasks [] = []
brief_tasks (t ∷ ts) =
    codes "  "
    ++ decimal t.n
    ++ codes ". ["
    ++ status_text t.status
    ++ codes "] "
    ++ t.summary
    ++ codes "\n"
    ++ brief_tasks ts

-- The opening turn.
unfoldable pub review_brief : Scratchpad → Text → Text → Text
unfolding is_empty brief_tasks
review_brief pad focus diff =
    (if is_empty pad.title
      then []
      else codes "Intended work: "
        ++ pad.title
        ++ codes "\n"
        ++ brief_tasks pad.tasks
        ++ codes "\n")
    ++ (if is_empty focus
        then []
        else codes "The author asked you to look at: " ++ focus ++ codes "\n\n")
    ++ codes "Diff under review:\n"
    ++ diff

-- `runReview`, on what git_diff gives.
unfoldable pub run_review :
    (Bool → List ModelMessage → Result Response)
    → (ToolCall → List ModelMessage → Result ToolResult)
    → ℕ
    → Result ToolResult
    → Scratchpad
    → Text
    → ToolResult
unfolding review_loop end_result review_brief is_empty trim_space
run_review ask call budget diff pad focus = elim diff [
  | err e ↦ fail (codes "The reviewer could not collect the diff: " ++ error_message e)
  | ok d ↦
      if d.is_error
      then fail (codes "The reviewer could not collect the diff: " ++ d.content)
      else if is_empty (trim_space d.content)
      then fail (codes "There is nothing to review: the diff is empty.")
      else end_result
          (review_loop ask call budget reviewer_max_turns
            (user_turn (review_brief pad focus d.content) ∷ [])).0
]
