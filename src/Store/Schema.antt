-- ===== src/Store/Schema.antt =====
-- The rows of internal/store/migrations and the Go structs that are scanned from them.
-- A uuid or bigserial key is a number, `NULL` is `none`, a checked text column is a data type, and
-- a jsonb column is held decoded. A table is held newest row first, so `ORDER BY id DESC` is the
-- order of the list.
use Prim.Native.String.{String}
use doota.Prelude.{ℕ, Bool, true, false, List, Option, none, some}
use doota.Prelude.Text.{Text}

pub data RunState : Type 0 where
  idle running awaiting_human paused done failed : RunState

pub data Awaiting : Type 0 where
  plan_approval question error : Awaiting

pub record Run : Type 0 where
  pub id : ℕ
  pub project : ℕ
  pub state : RunState
  pub awaiting_reason : Option Awaiting
  pub awaiting_payload : Option Text
  pub pause_requested : Bool
  pub error_text : Option Text
  pub step_count : ℕ
  pub started_at : ℕ
  pub updated_at : ℕ
  pub finished_at : Option ℕ

-- `Run.Active`, and the predicate of the index run_one_active.
unfoldable pub is_active : RunState → Bool
is_active running = true
is_active awaiting_human = true
is_active paused = true
is_active _ = false

unfoldable pub is_running : RunState → Bool
is_running running = true
is_running _ = false

unfoldable pub is_awaiting : RunState → Bool
is_awaiting awaiting_human = true
is_awaiting _ = false

unfoldable pub is_paused : RunState → Bool
is_paused paused = true
is_paused _ = false

unfoldable pub is_plan_approval : Option Awaiting → Bool
is_plan_approval (some plan_approval) = true
is_plan_approval _ = false

unfoldable pub is_question : Option Awaiting → Bool
is_question (some question) = true
is_question _ = false

pub data Role : Type 0 where
  system user assistant tool : Role

unfoldable pub is_assistant : Role → Bool
is_assistant assistant = true
is_assistant _ = false

unfoldable pub is_tool : Role → Bool
is_tool tool = true
is_tool _ = false

pub data Kind : Type 0 where
  plan review ui_review ask_human notice : Kind

-- `id` is the call id that the model chose; it is only compared.
pub record ToolCall : Type 0 where
  pub id : ℕ
  pub name : String
  pub args : Text

-- `id` and the content are opaque to the program.
pub record ReasoningItem : Type 0 where
  pub id : ℕ
  pub encrypted_content : Text
  pub summary : List Text

-- What a message says apart from its keys: `NewMessage` after `nullable` and its siblings have
-- turned empty fields into `NULL`.
pub record NewMessage : Type 0 where
  pub project : ℕ
  pub run : Option ℕ
  pub role : Role
  pub kind : Option Kind
  pub content : Text
  pub reasoning_items : Option (List ReasoningItem)
  pub tool_calls : Option (List ToolCall)
  pub tool_call_id : Option ℕ
  pub tool_name : Option String
  pub token_count : Option ℕ
  pub prompt_tokens : Option ℕ
  pub reasoning_tokens : Option ℕ
  pub interrupted : Bool
  pub tool_display : Option Text

pub record Message : Type 0 where
  pub id : ℕ
  pub turn : NewMessage
  pub open turn use *
  pub in_context : Bool
  pub created_at : ℕ

-- `Message.HasToolCalls`.
unfoldable pub has_tool_calls : Message → Bool
has_tool_calls m = elim m.tool_calls [ none ↦ false | some _ ↦ true ]

pub data TaskStatus : Type 0 where
  pending doing completed blocked : TaskStatus

pub record Task : Type 0 where
  pub n : ℕ
  pub summary : Text
  pub status : TaskStatus
  pub note : Text

pub record Spec : Type 0 where
  pub problem : Text
  pub approach : Text
  pub verification : List Text
  pub edge_cases : List Text
  pub risks : Text
  pub questions : List Text

pub data PlanStatus : Type 0 where
  draft approved : PlanStatus

-- `status` is `none` for the empty text of a scratchpad with no plan.
pub record Scratchpad : Type 0 where
  pub title : Text
  pub status : Option PlanStatus
  pub base_commit : Text
  pub feedback : Text
  pub spec : Spec
  pub tasks : List Task

pub data SandboxStatus : Type 0 where
  provisioning ready sleeping failing missing : SandboxStatus

-- The columns of project that the run's operations read or write.
pub record Project : Type 0 where
  pub id : ℕ
  pub scratchpad : Scratchpad
  pub memories : Text
  pub orientation : Text
  pub sandbox_status : SandboxStatus

pub record ToolLog : Type 0 where
  pub run : Option ℕ
  pub message : Option ℕ
  pub tool_name : String
  pub content : Text
  pub is_error : Bool

pub data AgentState : Type 0 where
  agent_idle agent_thinking agent_working agent_error agent_done : AgentState

-- The JSON objects that events carry, held decoded.
pub data Payload : Type 0 where
  run_payload : ℕ → RunState → Option Awaiting → ℕ → Bool → Payload
  agent_payload : AgentState → Text → Payload
  message_payload : ℕ → Role → Option Kind → Option String → Payload
  tool_payload : String → ℕ → Payload
  plan_payload : Text → ℕ → Option PlanStatus → Payload
  revising_payload : Payload
  delta_payload : Text → Payload

pub record Event : Type 0 where
  pub id : ℕ
  pub project : ℕ
  pub run : Option ℕ
  pub type_name : String
  pub payload : Payload
  pub created_at : ℕ

-- `serial` is the next fresh key, and `now` what the transaction's `now()` returns.
pub record Db : Type 0 where
  pub projects : List Project
  pub runs : List Run
  pub messages : List Message
  pub tool_logs : List ToolLog
  pub events : List Event
  pub serial : ℕ
  pub now : ℕ
