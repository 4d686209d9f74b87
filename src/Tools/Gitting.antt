-- ===== src/Tools/Gitting.antt =====
-- What git_commit and git_push do to the sandbox.
use doota.Prelude.{
  ◌≡◌, ◌≢◌, ◌⊎◌, refl, sym, ap, ◌∙◌, Bool, true, false, ◌&&◌, List, [], ◌∷◌, ◌++◌, Option, none,
  some, arith, Bool-cases, inl, inr,
}
use doota.Prelude.Text.{Text, codes, trim_space, is_empty, text_eq, text_eq_sound}
use doota.Store.Query.{Error, Result, ok, err}
use doota.Sandbox.{
  Sandbox, Command, ExecResult, Act, Sh, ran, wrote, succeeded, exec, run, write, ◌>>=◌, return,
}
use doota.Tools.Result.{ToolResult}
use doota.Tools.Quote.{shell_quote}
use doota.Tools.Commands.{
  work_branch, in_repo, branch_command, staged_command, show_command, head_command,
  commit_message_path, branch_of, stage_command,
}
use doota.Tools.Git.{
  current_branch, require_work_branch, head_sha, commit_staged, stage_and_commit, git_commit,
  push_branch, git_push,
}

abbrev pub exits_zero : Result ExecResult → Bool
exits_zero (err e) = false
exits_zero (ok r) = succeeded r.exit_code

-- What git says of HEAD names the work branch.
abbrev pub on_branch : Result ExecResult → Bool
on_branch (err e) = false
on_branch (ok r) = succeeded r.exit_code && text_eq (trim_space r.stdout) work_branch

-- A failure that the model reads, or an error of the infrastructure.
abbrev pub IsRefusal : Result ToolResult → Type 0
IsRefusal (err e) = Unit {0}
IsRefusal (ok r) = r.is_error ≡ true

abbrev pub commit_command : Sandbox → Command
commit_command sb = in_repo (codes "git commit -F " ++ shell_quote (sb.path commit_message_path))

abbrev pub message_act : Text → Act
message_act message = wrote commit_message_path (message ++ codes "\n")

head-off_branch : (t : Text) → text_eq t (codes "HEAD") ≡ true → text_eq t work_branch ≡ false
unfolding text_eq
head-off_branch t h = rw (text_eq_sound t (codes "HEAD") h)

empty-off_branch : (t : Text) → text_eq [] work_branch ≡ false
unfolding text_eq
empty-off_branch t = refl

Result-cases :
    (r : Result ExecResult) → ((e : Error) × (r ≡ err e)) ⊎ ((x : ExecResult) × (r ≡ ok x))
Result-cases (err e) = inl (e, refl)
Result-cases (ok x) = inr (x, refl)

gate_stops :
    (g : Result (Option ToolResult)) (acts : List Act) (k : Sh ToolResult)
    → g ≢ ok none
    → ((m : ToolResult) → g ≡ ok (some m) → m.is_error ≡ true)
    → let ended = elim g as (λ _. Result ToolResult × List Act) [
      | err e ↦ (err e, acts)
      | ok off ↦ elim off as (λ _. Sh ToolResult) [ some m ↦ return m | none ↦ k ] acts
    ] in
      IsRefusal ended.0 × (ended.1 ≡ acts)
gate_stops (err e) acts k n f = (tt, refl)
gate_stops (ok none) acts k n f = absurd (n refl)
gate_stops (ok (some m)) acts k n f = (f m refl, refl)

refusal-success :
    (o : Result ToolResult) (r : ToolResult) → o ≡ ok r → r.is_error ≡ false → IsRefusal o → ⊥
refusal-success (err e) r h k i = cc
refusal-success (ok x) r h k i = let same : x ≡ r = cc in ground arith

stage_cases : (r : Result Text) → ((e : Error) × (r ≡ err e)) ⊎ ((t : Text) × (r ≡ ok t))
stage_cases (err e) = inl (e, refl)
stage_cases (ok t) = inr (t, refl)

module _ (sb : Sandbox) where
  require_work_branch-acts :
      (acts : List Act) → (require_work_branch sb acts).1 ≡ ran branch_command ∷ acts
  unfolding require_work_branch current_branch run branch_of
  require_work_branch-acts acts = ground arith

  -- The tools go on exactly where HEAD is on the branch.
  require_work_branch-on_branch :
      (acts : List Act)
      → on_branch (sb.exec branch_command acts) ≡ true
      → (require_work_branch sb acts).0 ≡ ok none
  unfolding require_work_branch current_branch run branch_of
  require_work_branch-on_branch acts h = elim (Result-cases (sb.exec branch_command acts)) [
    | inl (e, same) ↦ ground arith
    | inr (x, same) ↦ ground (arith, head-off_branch (trim_space x.stdout))
  ]

  -- They go on nowhere else.
  require_work_branch-goes_on :
      (acts : List Act)
      → (require_work_branch sb acts).0 ≡ ok none
      → on_branch (sb.exec branch_command acts) ≡ true
  unfolding require_work_branch current_branch run branch_of
  require_work_branch-goes_on acts h = elim (Result-cases (sb.exec branch_command acts)) [
    | inl (e, same) ↦ ground arith
    | inr (x, same) ↦ ground (arith, empty-off_branch [])
  ]

  require_work_branch-refusal :
      (acts : List Act) (m : ToolResult)
      → (require_work_branch sb acts).0 ≡ ok (some m)
      → m.is_error ≡ true
  unfolding require_work_branch
  require_work_branch-refusal acts m h = ground arith

  commit_staged-done :
      (message : Text) (acts : List Act) (r : ToolResult)
      → (commit_staged sb message acts).0 ≡ ok r
      → r.is_error ≡ false
      → ((commit_staged sb message acts).1
          ≡ ran head_command
            ∷ ran show_command
            ∷ ran (commit_command sb)
            ∷ message_act message
            ∷ ran staged_command
            ∷ acts)
        × (exits_zero
              (sb.exec (commit_command sb) (message_act message ∷ ran staged_command ∷ acts))
            ≡ true)
  unfolding commit_staged run write head_sha exec
  commit_staged-done message acts r h e = ground arith

  stage_and_commit-done :
      (message : Text) (paths : List Text) (acts : List Act) (r : ToolResult)
      → (stage_and_commit sb message paths acts).0 ≡ ok r
      → r.is_error ≡ false
      → (stage : Text) × (stage_command paths ≡ ok stage)
        × ((stage_and_commit sb message paths acts).1
            ≡ (commit_staged sb message (ran (in_repo stage) ∷ acts)).1)
        × ((commit_staged sb message (ran (in_repo stage) ∷ acts)).0 ≡ ok r)
        × (exits_zero (sb.exec (in_repo stage) acts) ≡ true)
  unfolding stage_and_commit run
  stage_and_commit-done message paths acts r h e = elim (stage_cases (stage_command paths)) [
    | inl (x, same) ↦ absurd (ground arith)
    | inr (stage, same) ↦ (stage, same, ground arith, ground arith, ground arith)
  ]

  -- What stands behind the branch's test is not reached.
  gated-IsRefusal :
      (acts : List Act)
      → on_branch (sb.exec branch_command acts) ≡ false
      → (k : Sh ToolResult)
      → let goes_on = require_work_branch sb >>= λ off. elim off as (λ _. Sh ToolResult) [
        | some refusal ↦ return refusal
        | none ↦ k
      ] in
        IsRefusal (goes_on acts).0 × ((goes_on acts).1 ≡ ran branch_command ∷ acts)
  gated-IsRefusal acts h k = rw (← require_work_branch-acts acts) (
      gate_stops (require_work_branch sb acts).0 (require_work_branch sb acts).1 k
        (λ goes. let on = require_work_branch-goes_on acts goes in cc)
        (require_work_branch-refusal acts))

  git_commit-full :
      (raw : Text) (paths : List Text) (acts : List Act) (r : ToolResult)
      → (git_commit sb raw paths acts).0 ≡ ok r
      → r.is_error ≡ false
      → is_empty (trim_space raw) ≡ false
  unfolding git_commit
  git_commit-full raw paths acts r h e = elim (Bool-cases (is_empty (trim_space raw))) [
    | inr full ↦ full
    | inl none_given ↦ absurd (ground arith)
  ]

  -- The tools after the branch has been read, on every answer.
  git_commit-on_branch :
      (raw : Text) (paths : List Text) (acts : List Act)
      → is_empty (trim_space raw) ≡ false
      → (require_work_branch sb acts).0 ≡ ok none
      → git_commit sb raw paths acts
        ≡ stage_and_commit sb (trim_space raw) paths (ran branch_command ∷ acts)
  unfolding git_commit
  git_commit-on_branch raw paths acts full h =
      rw full (rw (h, ◌>>=◌, require_work_branch-acts acts))

  git_commit-off_branch :
      (raw : Text) (paths : List Text) (acts : List Act)
      → on_branch (sb.exec branch_command acts) ≡ false
      → IsRefusal (git_commit sb raw paths acts).0
        × (((git_commit sb raw paths acts).1 ≡ acts)
            ⊎ ((git_commit sb raw paths acts).1 ≡ ran branch_command ∷ acts))
  unfolding git_commit
  git_commit-off_branch raw paths acts h = elim (Bool-cases (is_empty (trim_space raw))) [
    | inl none_given ↦ rw none_given (refl, inl refl)
    | inr full ↦ rw full (
        let stop = gated-IsRefusal acts h (stage_and_commit sb (trim_space raw) paths) in
        (stop.0, inr stop.1))
  ]

  git_push-off_branch :
      (forced : Bool) (acts : List Act)
      → on_branch (sb.exec branch_command acts) ≡ false
      → IsRefusal (git_push sb forced acts).0
        × ((git_push sb forced acts).1 ≡ ran branch_command ∷ acts)
  unfolding git_push
  git_push-off_branch forced acts h = gated-IsRefusal acts h (push_branch sb forced)

  -- Where HEAD is not on the work branch, or git does not say, git_commit and git_push end in a
  -- failure or an error and ask the sandbox for nothing but where HEAD is: nothing is staged,
  -- committed or pushed.
  pub git_push-git_commit_off_branch :
      (raw : Text) (paths : List Text) (forced : Bool) (acts : List Act)
      → on_branch (sb.exec branch_command acts) ≡ false
      → IsRefusal (git_commit sb raw paths acts).0
        × (((git_commit sb raw paths acts).1 ≡ acts)
            ⊎ ((git_commit sb raw paths acts).1 ≡ ran branch_command ∷ acts))
        × IsRefusal (git_push sb forced acts).0
        × ((git_push sb forced acts).1 ≡ ran branch_command ∷ acts)
  git_push-git_commit_off_branch raw paths forced acts h =
      let committing = git_commit-off_branch raw paths acts h in
      let pushing = git_push-off_branch forced acts h in
      (committing.0, committing.1, pushing.0, pushing.1)

  -- A git_commit that reports success ran, on the work branch, the staging, the check of what is
  -- staged, a commit with the trimmed message in its file, and the two questions about the commit,
  -- in this order and nothing else; the staging and the commit exited with 0.
  pub git_commit-done :
      (raw : Text) (paths : List Text) (acts : List Act) (r : ToolResult)
      → (git_commit sb raw paths acts).0 ≡ ok r
      → r.is_error ≡ false
      → let message = trim_space raw in
        (stage : Text) × (stage_command paths ≡ ok stage)
        × (on_branch (sb.exec branch_command acts) ≡ true)
        × ((git_commit sb raw paths acts).1
            ≡ ran head_command
              ∷ ran show_command
              ∷ ran (commit_command sb)
              ∷ message_act message
              ∷ ran staged_command
              ∷ ran (in_repo stage)
              ∷ ran branch_command
              ∷ acts)
        × (exits_zero (sb.exec (in_repo stage) (ran branch_command ∷ acts)) ≡ true)
        × (exits_zero (
              sb.exec (commit_command sb) (
                message_act message
                ∷ ran staged_command
                ∷ ran (in_repo stage)
                ∷ ran branch_command
                ∷ acts))
            ≡ true)
  git_commit-done raw paths acts r h e =
      let full = git_commit-full raw paths acts r h e in
      elim (Bool-cases (on_branch (sb.exec branch_command acts))) [
        | inr off ↦ absurd (
            refusal-success (git_commit sb raw paths acts).0 r h e
              (git_commit-off_branch raw paths acts off).0)
        | inl on ↦
            let run_on =
              git_commit-on_branch raw paths acts full (require_work_branch-on_branch acts on) in
            let start = ran branch_command ∷ acts in
            let (stage, named, same, ended, staged) =
              stage_and_commit-done (trim_space raw) paths start r (ap (λ p. p.0) (sym run_on) ∙ h)
                e in
            let (all, committed) =
              commit_staged-done (trim_space raw) (ran (in_repo stage) ∷ start) r ended e in
            (stage, named, on, ap (λ p. p.1) run_on ∙ same ∙ all, staged, committed)
      ]
