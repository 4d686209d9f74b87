-- ===== src/Agent/Outside.antt =====
-- What the runner meets while it works: the operator's calls that land during a model call or a
-- tool, the rows and frames that those write, and the answers of what is outside the repository.
-- A reply may depend on the whole state of the service, which no two moments of a run share.
use Prim.Native.String.{String}
use doota.Prelude.{ℕ, Bool, List, [], ◌∷◌, Option}
use doota.Prelude.Text.{Text}
use doota.Store.Schema.{Message, SandboxStatus, ToolCall, ToolLog, agent_working, delta_payload}
use doota.Store.Query.{Result, Error}
use doota.Store.Transcript.{clear_conversation, log_tool_call}
use doota.Model.Response.{Response}
use doota.Tools.Result.{ToolResult, Display}
use doota.Agent.State.{Service, store, set_state, publish_live}
use doota.Agent.Control.{submit, pause, resume, approve, revise}

pub data OperatorCall : Type 0 where
  submits : ℕ → Text → OperatorCall
  pauses resumes clears : ℕ → OperatorCall
  approves : ℕ → Option SandboxStatus → Text → OperatorCall
  revises : ℕ → Text → OperatorCall

-- The state after an operator's call, whatever it returned.
unfoldable pub operate : OperatorCall → Service → Service
operate (submits pid text) s = (submit pid text s).1
operate (pauses pid) s = (pause pid s).1
operate (resumes pid) s = (resume pid s).1
operate (clears pid) s = (store (clear_conversation pid) s).1
operate (approves pid status base) s = (approve pid status base s).1
operate (revises pid text) s = (revise pid text s).1

pub data Happening : Type 0 where
  operator : OperatorCall → Happening
  streams_text : Text → Happening
  announces_tool : ℕ → ℕ → String → Text → Happening
  logs : ToolLog → Happening

-- `logs` is a call that a reviewer makes through its own registry.
unfoldable pub happen : Happening → Service → Service
unfolding operate
happen (operator c) s = operate c s
happen (streams_text t) s = (publish_live "message.delta" (delta_payload t) s).1
happen (announces_tool pid rid name detail) s = (set_state pid rid agent_working detail s).1
happen (logs row) s = record s { db = log_tool_call row s.db }

unfoldable pub meanwhile : List Happening → Service → Service
unfolding happen
meanwhile [] s = s
meanwhile (h ∷ hs) s = meanwhile hs (happen h s)

-- `Stream` may return a response, an error, or both.
pub record ModelReply : Type 0 where
  pub response : Option Response
  pub failure : Option Error
  pub happenings : List Happening

pub record ToolReply : Type 0 where
  pub outcome : Result ToolResult
  pub happenings : List Happening

-- What the runner hands to `json.Marshal`: a display, a question, a plan's title and number of
-- tasks, an error and what to do about it, and the displays of `done`.
pub data Json : Type 0 where
  display_json : Display → Json
  question_json : Text → Display → Json
  plan_json : Text → ℕ → Json
  error_json : Text → Text → Json
  held_json : Text → Json
  unpushed_json : Text → Display → Json
  shipped_json : Text → Display → ToolResult → Json

pub record Outside : Type 0 where
  -- Attempt `n` of `model.Client.Stream`, on the transcript that `advance` hands it.
  pub model : ℕ → List Message → Service → ModelReply
  -- The context was cancelled during the wait after attempt `n`.
  pub cancelled : ℕ → Service → Bool
  -- The setting model.max_output_tokens.
  pub max_output_tokens : ℕ
  -- `ReadySandbox`: the error, if there is no sandbox.
  pub sandbox_fault : Service → Option Error
  -- What a registered tool does.
  pub tool : ToolCall → Service → ToolReply
  -- `runReview` and `runUIReview`, on the focus or the intent that was asked for.
  pub review : Text → Service → ToolResult × List Happening
  pub ui_review : Text → Service → ToolResult × List Happening
  -- The output of `git status --porcelain`.
  pub worktree : Service → Result Text
  -- git_diff with `stat` through the reviewer's registry, git_push and create_pr through the
  -- shipping registry.
  pub diff_stat : Service → Result ToolResult
  pub push : Service → Result ToolResult
  pub create_pr : Text → Text → Service → Result ToolResult
  -- `json.Marshal`.
  pub encode : Json → Text
