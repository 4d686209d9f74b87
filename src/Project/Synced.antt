-- ===== src/Project/Synced.antt =====
-- How the start of a goal leaves the work branch.
use doota.Prelude.{◌≡◌, ◌⊎◌, refl, Bool, true, false, ◌&&◌, List, ◌∷◌, arith, Bool-cases, inl, inr}
use doota.Prelude.Text.{Text, codes, trim_space, is_empty}
use doota.Store.Query.{Error, Result, ok, err, wrapped}
use doota.Sandbox.{Sandbox, Command, ExecResult, Act, Sh, ran, output, succeeded, exec, run, ◌>>=◌}
use doota.Tools.Commands.{branch_command}
use doota.Tools.Gitting.{on_branch}
use doota.Project.Rows.{ProjectRow, ProjectTable}
use doota.Project.Service.{Provider, ready_sandbox}
use doota.Project.Goal.{
  status_command, fetch_command, rebase_command, abort_command, exits_well, settle_rebase,
  rebase_default, fetch_default, check_branch, after_fetch, after_branch, after_status,
  sync_in_sandbox, sync_goal_start,
}

-- `git status` exits with 0 and prints nothing.
abbrev pub is_clean_worktree : Result ExecResult → Bool
is_clean_worktree (err e) = false
is_clean_worktree (ok r) = succeeded r.exit_code && is_empty (trim_space (output r))

Exec-cases : (r : Result ExecResult) → ((e : Error) × (r ≡ err e)) ⊎ ((x : ExecResult) × (r ≡ ok x))
Exec-cases (err e) = inl (e, refl)
Exec-cases (ok x) = inr (x, refl)

abbrev pub breaks_down : Result ExecResult → Bool
breaks_down (err e) = true
breaks_down (ok r) = false

-- A call that ends in an error once all of `asked` was asked for.
abbrev pub FailsAfter : List Act → Result (Unit {0}) × List Act → Type 0
FailsAfter asked r = ((e : Error) × (r.0 ≡ err e)) × (r.1 ≡ asked)

-- How the rebase ends, by git's answer to it, `asked` being all that was asked up to it.
abbrev pub Rebased : List Act → Result ExecResult → Result (Unit {0}) × List Act → Type 0
Rebased asked answer r =
    ((exits_well answer ≡ true) × (r.0 ≡ ok tt) × (r.1 ≡ asked))
    ⊎ ((breaks_down answer ≡ true) × FailsAfter asked r)
    ⊎ ((breaks_down answer ≡ false)
        × (exits_well answer ≡ false)
        × FailsAfter (ran abort_command ∷ asked) r)

-- From the fetch on, `asked` being all that was asked up to it.
abbrev pub Fetched :
    Sandbox → Text → List Act → Result ExecResult → Result (Unit {0}) × List Act → Type 0
Fetched sb default asked answer r =
    FailsAfter asked r
    ⊎ ((exits_well answer ≡ true)
        × Rebased (ran (rebase_command default) ∷ asked) (sb.exec (rebase_command default) asked) r)

-- From the question where HEAD is on.
abbrev pub Checked :
    Sandbox → Text → List Act → Result ExecResult → Result (Unit {0}) × List Act → Type 0
Checked sb default asked answer r =
    FailsAfter asked r
    ⊎ ((on_branch answer ≡ true)
        × Fetched sb default (ran (fetch_command default) ∷ asked)
            (sb.exec (fetch_command default) asked) r)

-- From the start on, in a sandbox that is ready.
abbrev pub Synced :
    Sandbox → Text → List Act → Result ExecResult → Result (Unit {0}) × List Act → Type 0
Synced sb default asked answer r =
    FailsAfter asked r
    ⊎ ((is_clean_worktree answer ≡ true)
        × Checked sb default (ran branch_command ∷ asked) (sb.exec branch_command asked) r)

-- An operation that asks for one command and goes on by its answer.
asking : Sandbox → Text → Command → (ExecResult → Sh (Unit {0})) → Sh (Unit {0})
asking sb prefix c k acts = elim (sb.exec c acts) [
  | err e ↦ (err (wrapped prefix e), ran c ∷ acts)
  | ok x ↦ k x (ran c ∷ acts)
]

module _ (sb : Sandbox) (default : Text) where
  run-asking :
      (prefix : Text) (c : Command) (k : ExecResult → Sh (Unit {0})) (acts : List Act)
      → (run sb prefix c >>= k) acts ≡ asking sb prefix c k acts
  unfolding run asking
  run-asking prefix c k acts = ground arith

  -- What holds of both answers holds of the operation.
  asking-cases :
      (prefix : Text) (c : Command) (k : ExecResult → Sh (Unit {0})) (acts : List Act)
      (P : Result ExecResult → Result (Unit {0}) × List Act → Type 0)
      → ((e : Error) → P (err e) (err (wrapped prefix e), ran c ∷ acts))
      → ((x : ExecResult) → P (ok x) (k x (ran c ∷ acts)))
      → P (sb.exec c acts) ((run sb prefix c >>= k) acts)
  unfolding asking
  asking-cases prefix c k acts P fails goes_on =
      rw (run-asking prefix c k acts) (go (sb.exec c acts))
    where
      go :
          (r : Result ExecResult)
          → P r (elim r as (λ _. Result (Unit {0}) × List Act) [
            | err e ↦ (err (wrapped prefix e), ran c ∷ acts)
            | ok x ↦ k x (ran c ∷ acts)
          ])
      go (err e) = fails e
      go (ok x) = goes_on x

  rebase_default-Rebased :
      (acts : List Act)
      → Rebased
          (ran (rebase_command default) ∷ acts)
          (sb.exec (rebase_command default) acts)
          (rebase_default sb default acts)
  unfolding rebase_default settle_rebase exec
  rebase_default-Rebased acts =
      let c = rebase_command default in
      asking-cases (codes "rebase doot") c (settle_rebase sb default) acts (Rebased (ran c ∷ acts))
        (λ e. inr (inl (refl, ((_, refl), refl))))
        (λ x. elim (Bool-cases (succeeded x.exit_code)) [
          | inl good ↦ rw good (inl (refl, refl, refl))
          | inr bad ↦ rw bad (inr (inr (refl, refl, ((_, refl), refl))))
        ])

  fetch_default-Fetched :
      (acts : List Act)
      → Fetched sb default
          (ran (fetch_command default) ∷ acts)
          (sb.exec (fetch_command default) acts)
          (fetch_default sb default acts)
  unfolding fetch_default after_fetch
  fetch_default-Fetched acts =
      let c = fetch_command default in
      asking-cases (codes "fetch default branch") c (after_fetch sb default) acts
        (Fetched sb default (ran c ∷ acts)) (λ e. inl ((_, refl), refl))
        (λ x. elim (Bool-cases (succeeded x.exit_code)) [
          | inl good ↦ rw good (inr (refl, rebase_default-Rebased (ran c ∷ acts)))
          | inr bad ↦ rw bad (inl ((_, refl), refl))
        ])

  check_branch-Checked :
      (acts : List Act)
      → Checked sb default
          (ran branch_command ∷ acts)
          (sb.exec branch_command acts)
          (check_branch sb default acts)
  unfolding check_branch after_branch
  check_branch-Checked acts =
      asking-cases (codes "read work branch") branch_command (after_branch sb default) acts
        (Checked sb default (ran branch_command ∷ acts)) (λ e. inl ((_, refl), refl))
        (λ x. elim (Bool-cases (on_branch (ok x))) [
          | inl on ↦ rw on (inr (refl, fetch_default-Fetched (ran branch_command ∷ acts)))
          | inr off ↦ rw off (inl ((_, refl), refl))
        ])

  sync_in_sandbox-Synced :
      (acts : List Act)
      → Synced sb default
          (ran status_command ∷ acts)
          (sb.exec status_command acts)
          (sync_in_sandbox sb default acts)
  unfolding sync_in_sandbox after_status
  sync_in_sandbox-Synced acts =
      asking-cases (codes "inspect worktree") status_command (after_status sb default) acts
        (Synced sb default (ran status_command ∷ acts)) (λ e. inl ((_, refl), refl))
        (λ x. elim (Bool-cases (succeeded x.exit_code)) [
          | inr bad ↦ rw bad (inl ((_, refl), refl))
          | inl good ↦ elim (Bool-cases (is_empty (trim_space (output x)))) [
            | inr dirty ↦ rw (good, dirty) (inl ((_, refl), refl))
            | inl clean ↦
                rw (good, clean) (inr (refl, check_branch-Checked (ran status_command ∷ acts)))
          ]
        ])

-- However the provider, git and the remote answer, the start of a goal either cannot open the
-- sandbox and asks it for nothing, or stops after it has only looked at the worktree and at HEAD,
-- or goes on, from a clean worktree with HEAD on the work branch, to a fetch and a rebase. It ends
-- well exactly after a rebase that exits with 0; a rebase that exits otherwise is followed by an
-- abort, while one whose command breaks down is left as it is.
pub sync_goal_start-Synced :
    (v : Provider) (sb : Sandbox) (p : ProjectRow) (t : ProjectTable) (acts : List Act)
    → let r = (sync_goal_start v sb (p, t) acts).0 in
      FailsAfter acts r
      ⊎ Synced sb p.default_branch (ran status_command ∷ acts) (sb.exec status_command acts) r
unfolding sync_goal_start
sync_goal_start-Synced v sb p t acts = go (ready_sandbox v (p, t)).0
  where
    go :
        (r : Result (Unit {0}))
        → let ended =
            (elim r as (λ _. (Result (Unit {0}) × List Act) × (ProjectRow × ProjectTable)) [
              | err e ↦ (
                (err (wrapped (codes "open sandbox for goal start") e), acts),
                (ready_sandbox v (p, t)).1,
              )
              | ok _ ↦ (sync_in_sandbox sb p.default_branch acts, (ready_sandbox v (p, t)).1)
            ]).0 in
          FailsAfter acts ended
          ⊎ Synced sb p.default_branch
              (ran status_command ∷ acts)
              (sb.exec status_command acts)
              ended
    go (err e) = inl ((_, refl), refl)
    go (ok _) = inr (sync_in_sandbox-Synced sb p.default_branch acts)
