-- ===== src/Agent/State.antt =====
-- The state of `agent.Service`: the database, the hub, and the run ids with a worker. A method
-- returns its result or error with the state that it leaves: what it has done before an error stays.
use Prim.Native.String.{String}
use doota.Prelude.{ℕ, Bool, List, ◌∷◌, some, ◌==◌, if◌then◌else◌, exists_row, delete_rows}
use doota.Prelude.Text.{Text}
use doota.Store.Schema.{
  Run, Message, Db, Payload, AgentState, run_payload, agent_payload, message_payload,
}
use doota.Store.Query.{Tx, Result, ok, err, Error}
use doota.Store.Transcript.{append_event}
use doota.Events.Hub.{Hub, Frame}
use doota.Events.Hub

pub record Service : Type 0 where
  pub db : Db
  pub hub : Hub
  pub workers : List ℕ

abbrev pub Proc : Type 0 → Type 0
Proc A = Service → Result A × Service

infixl 5 ◌>>=◌ ◌>>◌
abbrev pub ◌>>=◌ : {A B : Type 0} → Proc A → (A → Proc B) → Proc B
◌>>=◌ m f s = let (r, s') = m s in elim r [ err e ↦ (err e, s') | ok a ↦ f a s' ]

abbrev pub ◌>>◌ : {A B : Type 0} → Proc A → Proc B → Proc B
m >> k = m >>= λ _. k

abbrev pub return : {A : Type 0} → A → Proc A
return a s = (ok a, s)

abbrev pub throw : {A : Type 0} → Error → Proc A
throw e s = (err e, s)

-- A call of the store: on an error the database is as it was.
unfoldable pub store : {A : Type 0} → Tx A → Proc A
store t s = elim (t s.db) [ err e ↦ (err e, s) | ok (a, db) ↦ (ok a, record s { db = db }) ]

-- `publish`: an event row, then a frame that carries its id.
unfoldable pub publish : ℕ → ℕ → String → Payload → Proc (Unit {0})
publish pid rid name payload s = elim (append_event pid (some rid) name payload s.db) [
  | err _ ↦ (ok tt, s)
  | ok (e, db) ↦ (
    ok tt,
    record s {
      db = db;
      hub = Hub.publish (record { id = e.id; type_name = name; payload = payload }) s.hub;
    },
  )
]

-- `publishLive`: a frame with no id and no row.
unfoldable pub publish_live : String → Payload → Proc (Unit {0})
publish_live name payload s = (
  ok tt,
  record s { hub = Hub.publish (record { id = 0; type_name = name; payload = payload }) s.hub },
)

unfoldable pub set_state : ℕ → ℕ → AgentState → Text → Proc (Unit {0})
unfolding publish
set_state pid rid state detail = publish pid rid "agent.state" (agent_payload state detail)

unfoldable pub publish_run : Run → Proc (Unit {0})
unfolding publish
publish_run r =
    publish r.project r.id "run.state"
      (run_payload r.id r.state r.awaiting_reason r.step_count r.pause_requested)

unfoldable pub publish_message : ℕ → ℕ → String → Message → Proc (Unit {0})
unfolding publish
publish_message pid rid name m =
    publish pid rid name (message_payload m.id m.role m.kind m.tool_name)

abbrev pub same_key : ℕ → ℕ → Bool
same_key a b = b == a

-- `start`: a run with a worker gets no second one.
unfoldable pub start : ℕ → Proc (Unit {0})
start rid s =
    if exists_row (same_key rid) s.workers
    then (ok tt, s)
    else (ok tt, record s { workers = rid ∷ s.workers })

-- The deferred cleanup of a worker.
unfoldable pub retire : ℕ → Proc (Unit {0})
retire rid s = (ok tt, record s { workers = delete_rows (same_key rid) s.workers })
