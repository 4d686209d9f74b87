-- ===== src/Sandbox.antt =====
-- internal/sandbox/sandbox.go: what the program asks of a sandbox, and what comes back. Both
-- providers are parameters; their answers may depend on all that was asked before. Environment
-- variables of a command other than those of `shellLine`, and timeouts, are left out.
use doota.Prelude.{ℕ, Bool, true, false, List, [], ◌∷◌, ◌++◌, Option, none, some, if◌then◌else◌}
use doota.Prelude.Int.{ℤ, pos}
use doota.Prelude.Text.{Text, codes, is_empty}
use doota.Store.Query.{Error, Result, ok, err, wrapped}
use doota.Tools.Quote.{shell_quote}

-- `dir` is empty for the sandbox's own directory.
pub record Command : Type 0 where
  pub cmd : Text
  pub dir : Text

pub record ExecResult : Type 0 where
  pub stdout : Text
  pub stderr : Text
  pub exit_code : ℤ

-- `ExecResult.Output`.
unfoldable pub output : ExecResult → Text
unfolding is_empty
output r =
    if is_empty r.stderr
    then r.stdout
    else if is_empty r.stdout
    then r.stderr
    else r.stdout ++ codes "\n" ++ r.stderr

abbrev pub succeeded : ℤ → Bool
succeeded (pos ℕ.zero) = true
succeeded _ = false

-- The lines of `shellLine`, for the variables in the order of their names.
unfoldable pub exports : List (Text × Text) → Text
exports [] = []
exports ((k, v) ∷ env) =
    codes "export " ++ k ++ codes "=" ++ shell_quote v ++ codes "; " ++ exports env

unfoldable pub shell_line : List (Text × Text) → Text → Text
unfolding exports
shell_line env cmd = exports env ++ cmd

-- What was asked of a sandbox: commands, files written, and waking it.
pub data Act : Type 0 where
  ran : Command → Act
  wrote : Text → Text → Act
  woke : Act

pub data SandboxState : Type 0 where
  state_unknown state_running state_sleeping state_missing : SandboxState

-- A sandbox, whose answers may depend on what was asked before, newest first. `path` is `Path`.
pub record Sandbox : Type 0 where
  pub exec : Command → List Act → Result ExecResult
  pub write_file : Text → Text → List Act → Option Error
  pub path : Text → Text

-- An operation on a sandbox: its result, or an error of the infrastructure, and all that was asked.
abbrev pub Sh : Type 0 → Type 0
Sh A = List Act → Result A × List Act

infixl 5 ◌>>=◌
abbrev pub ◌>>=◌ : {A B : Type 0} → Sh A → (A → Sh B) → Sh B
◌>>=◌ m f acts = let (r, acts') = m acts in elim r [ err e ↦ (err e, acts') | ok a ↦ f a acts' ]

abbrev pub return : {A : Type 0} → A → Sh A
return a acts = (ok a, acts)

abbrev pub throw : {A : Type 0} → Error → Sh A
throw e acts = (err e, acts)

module _ (sb : Sandbox) where
  unfoldable pub exec : Command → Sh ExecResult
  exec c acts = (sb.exec c acts, ran c ∷ acts)

  -- `Exec`, with the prefix that `fmt.Errorf` puts before an error.
  unfoldable pub run : Text → Command → Sh ExecResult
  run prefix c acts = elim (sb.exec c acts) [
    | err e ↦ (err (wrapped prefix e), ran c ∷ acts)
    | ok r ↦ (ok r, ran c ∷ acts)
  ]

  unfoldable pub write : Text → Text → Text → Sh (Unit {0})
  write prefix p content acts = elim (sb.write_file p content acts) [
    | some e ↦ (err (wrapped prefix e), wrote p content ∷ acts)
    | none ↦ (ok tt, wrote p content ∷ acts)
  ]
