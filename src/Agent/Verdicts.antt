-- ===== src/Agent/Verdicts.antt =====
-- That a review comes to an end, and to which.
use doota.Prelude.{
  ℕ, zero, suc, ◌≤◌, ◌≡◌, refl, ap, ◌∙◌, Bool, true, false, not, List, [], ◌∷◌, ◌++◌, arith, ◌==◌,
  if◌then◌else◌, Bool-cases, inl, inr,
}
use doota.Prelude.Text.{Text, is_empty}
use doota.Store.Schema.{ToolCall}
use doota.Store.Query.{Result, ok, err, error_message}
use doota.Model.Response.{
  Response, SilentCause, not_silent, silent_truncated, silent_filtered, silent_reasoning,
  silent_unknown, silent_cause,
}
use doota.Model.Input.{ModelMessage}
use doota.Tools.Result.{ToolResult}
use doota.Agent.Loop.{silent_text}
use doota.Agent.Reviewer.{
  ReviewEnd, answers, breaks, tools_fail, reminder, run_tools, review_loop, tool_turn,
  assistant_reply, reviewer_max_turns,
}

module _ (ask : Bool → List ModelMessage → Result Response)
    (call : ToolCall → List ModelMessage → Result ToolResult) (budget : ℕ) where
  -- The model answers each call with text or tools, every tool runs, and a model that is given no
  -- tools asks for none.
  abbrev pub Responsive : Type 0
  Responsive =
      ((offered : Bool) (h : List ModelMessage)
        → (r : Response) × (ask offered h ≡ ok r)
          × (silent_cause r ≡ not_silent)
          × (offered ≡ false → is_empty r.tool_calls ≡ true))
      × ((c : ToolCall) (h : List ModelMessage) → (x : ToolResult) × (call c h ≡ ok x))

  run_tools-ok :
      (cs : List ToolCall) (h : List ModelMessage)
      → ((c : ToolCall) (g : List ModelMessage) → (x : ToolResult) × (call c g ≡ ok x))
      → (more : List ModelMessage) × (run_tools call cs h ≡ ok more)
  unfolding run_tools
  run_tools-ok [] h works = (h, refl)
  run_tools-ok (c ∷ cs) h works =
      let (x, done) = works c h in
      let (more, rest) = run_tools-ok cs (h ++ tool_turn c x.content ∷ []) works in
      (more, rw (done, run_tools) rest)

  -- One turn of a responsive model.
  turn-answers :
      (left : ℕ) (h : List ModelMessage) (r : Response)
      → ask (not (suc left == 1)) (h ++ reminder (suc left)) ≡ ok r
      → silent_cause r ≡ not_silent
      → is_empty r.tool_calls ≡ true
      → review_loop ask call budget (suc left) h ≡ (answers r.content, 1)
  unfolding review_loop
  turn-answers left h r asked spoke none_wanted = rw (asked, review_loop, spoke, none_wanted)

  turn-goes_on :
      (left : ℕ) (h more : List ModelMessage) (r : Response)
      → ask (not (suc left == 1)) (h ++ reminder (suc left)) ≡ ok r
      → silent_cause r ≡ not_silent
      → is_empty r.tool_calls ≡ false
      → run_tools call r.tool_calls ((h ++ reminder (suc left)) ++ assistant_reply r ∷ []) ≡ ok more
      → review_loop ask call budget (suc left) h
        ≡ ((review_loop ask call budget left more).0, suc (review_loop ask call budget left more).1)
  unfolding review_loop
  turn-goes_on left h more r asked spoke wanted ran = rw (asked, review_loop, spoke, wanted, ran)

  review_loop-answers :
      (left : ℕ) (h : List ModelMessage)
      → Responsive
      → (t : Text) × ((review_loop ask call budget (suc left) h).0 ≡ answers t)
  review_loop-answers zero h works =
      let (r, asked, spoke, obeys) = works.0 false (h ++ reminder 1) in
      (r.content, ap (λ x. x.0) (turn-answers 0 h r asked spoke (obeys refl)))
  review_loop-answers (suc left) h works =
      let told = h ++ reminder (suc (suc left)) in
      let (r, asked, spoke, obeys) = works.0 true told in
      let offered : not (suc (suc left) == 1) ≡ true = ground arith in
      let asked' : ask (not (suc (suc left) == 1)) told ≡ ok r = rw offered asked in
      elim (Bool-cases (is_empty r.tool_calls)) [
        | inl none_wanted ↦
            (r.content, ap (λ x. x.0) (turn-answers (suc left) h r asked' spoke none_wanted))
        | inr wanted ↦
            let (more, ran) = run_tools-ok r.tool_calls (told ++ assistant_reply r ∷ []) works.1 in
            let (t, ends) = review_loop-answers left more works in
            (t, ap (λ x. x.0) (turn-goes_on (suc left) h more r asked' spoke wanted ran) ∙ ends)
      ]

  -- The number of calls on the branches of a turn.
  silent-calls :
      (cause : SilentCause) (r : Response) (n : ℕ) (x : ReviewEnd × ℕ)
      → x.1 ≤ suc n
      → (elim cause as (λ _. ReviewEnd × ℕ) [
        | not_silent ↦ x
        | c ↦ (breaks (silent_text c r budget), 1)
      ]).1
        ≤ suc n
  silent-calls not_silent r n x h = h
  silent-calls silent_truncated r n x h = omega arith
  silent-calls silent_filtered r n x h = omega arith
  silent-calls silent_reasoning r n x h = omega arith
  silent-calls silent_unknown r n x h = omega arith

  tools-calls :
      (ran : Result (List ModelMessage)) (n : ℕ) (next : List ModelMessage → ReviewEnd × ℕ)
      → ((more : List ModelMessage) → (next more).1 ≤ n)
      → (elim ran as (λ _. ReviewEnd × ℕ) [
        | err e ↦ (tools_fail (error_message e), 1)
        | ok more ↦ let (ended, m) = next more in (ended, suc m)
      ]).1
        ≤ suc n
  tools-calls (err e) n next h = omega arith
  tools-calls (ok more) n next h = omega (arith, h more)

  wanted-calls :
      (none_wanted : Bool) (n : ℕ) (t : Text) (x : ReviewEnd × ℕ)
      → x.1 ≤ suc n
      → (if none_wanted then (answers t, 1) else x).1 ≤ suc n
  wanted-calls true n t x h = omega arith
  wanted-calls false n t x h = h

  -- However the model and the tools answer.
  review_loop-calls :
      (left : ℕ) (h : List ModelMessage) → (review_loop ask call budget left h).1 ≤ left
  unfolding review_loop
  review_loop-calls zero h = omega arith
  review_loop-calls (suc left) h =
      let told = h ++ reminder (suc left) in
      elim (ask (not (suc left == 1)) told)
        as (λ a.
          (elim a as (λ _. ReviewEnd × ℕ) [
            | err e ↦ (breaks (error_message e), 1)
            | ok r ↦ elim (silent_cause r) as (λ _. ReviewEnd × ℕ) [
              | not_silent ↦
                  if is_empty r.tool_calls
                  then (answers r.content, 1)
                  else elim (run_tools call r.tool_calls (told ++ assistant_reply r ∷ []))
                      as (λ _. ReviewEnd × ℕ) [
                        | err e ↦ (tools_fail (error_message e), 1)
                        | ok more ↦
                            let (ended, n) = review_loop ask call budget left more in (ended, suc n)
                      ]
              | cause ↦ (breaks (silent_text cause r budget), 1)
            ]
          ]).1
          ≤ suc left) [
            | err e ↦ omega arith
            | ok r ↦ silent-calls (silent_cause r) r left _ (
                wanted-calls (is_empty r.tool_calls) left r.content _ (
                  tools-calls (run_tools call r.tool_calls (told ++ assistant_reply r ∷ [])) left
                    (review_loop ask call budget left) (review_loop-calls left)))
          ]

-- Where the model answers every call with text or tools, every tool runs, and no tool is asked for
-- once they are withdrawn, a review ends within 24 model calls with words of the model, so it never
-- runs out without a verdict.
pub review_loop-ends :
    (ask : Bool → List ModelMessage → Result Response)
    (call : ToolCall → List ModelMessage → Result ToolResult) (budget : ℕ) (h : List ModelMessage)
    → Responsive ask call budget
    → let (ended, calls) = review_loop ask call budget reviewer_max_turns h in
      (calls ≤ reviewer_max_turns) × ((t : Text) × (ended ≡ answers t))
review_loop-ends ask call budget h responsive = (
  review_loop-calls ask call budget reviewer_max_turns h,
  review_loop-answers ask call budget 23 h responsive,
)
