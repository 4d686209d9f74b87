-- ===== src/Agent/Safety.antt =====
-- No call of the operator and no step of a worker breaks the invariant of the tables.
use Prim.Native.String.{String}
use doota.Prelude.{
  arith, ℕ, Bool, true, false, Option, none, some, List, [], ◌∷◌, if◌then◌else◌, exists_row,
}
use doota.Prelude.Text.{Text, is_empty, trim_space}
use doota.Store.Schema.{Run, Message, Payload, AgentState, SandboxStatus, Db}
use doota.Store.Query.{Tx, Result, ok, err, Error, busy, after}
use doota.Store.Invariant.{Inv, Keeps, serial-Inv}
use doota.Store.Transcript.{append_event, log_tool_call}
use doota.Store.Run.{active_run, create_run_with_message}
use doota.Store.Safety.{
  request_pause-Keeps, resume_run-Keeps, create_run_with_message-Keeps,
  append_answer_and_resume-Keeps, approve_plan-Keeps, revise_plan-Keeps, clear_conversation-Keeps,
}
use doota.Agent.State.{
  Service, Proc, ◌>>=◌, ◌>>◌, return, throw, store, publish, publish_live, set_state, publish_run,
  publish_message, start, same_key,
}
use doota.Agent.Control.{
  submit, answer, begin_run, announce, takes_answer, pause, resume, recover, start_all, approve,
  ready_for, note_status, revise,
}
use doota.Agent.Outside.{OperatorCall, operate, Happening, happen, meanwhile}

abbrev pub ServiceInv : Service → Type 0
ServiceInv s = Inv s.db

-- A method after which the invariant still holds, whatever it returns.
pub record Sound {A : Type 0} (m : Proc A) : Type 0 where
  pub sound : (s : Service) → ServiceInv s → ServiceInv (m s).1

module _ {A B : Type 0} (m : Proc A) (k : A → Proc B) where
  pub bind-Sound : Sound m → ((a : A) → Sound (k a)) → Sound (m >>= k)
  bind-Sound hm hk = record { sound = λ s v. rest (m s).0 (m s).1 (hm.sound s v) }
    where
      rest :
          (r : Result A) (s : Service)
          → ServiceInv s
          → ServiceInv (elim r as (λ _. Result B × Service) [ err e ↦ (err e, s) | ok a ↦ k a s ]).1
      rest (err e) s w = w
      rest (ok a) s w = (hk a).sound s w

module _ {A B : Type 0} (m : Proc A) (k : Proc B) where
  pub then-Sound : Sound m → Sound k → Sound (m >> k)
  then-Sound hm hk = bind-Sound m (λ _. k) hm (λ _. hk)

pub return-Sound : {A : Type 0} (a : A) → Sound (return a)
return-Sound a = record { sound = λ s v. v }

pub throw-Sound : {A : Type 0} (e : Error) → Sound (throw {A = A} e)
throw-Sound e = record { sound = λ s v. v }

pub store-Sound : {A : Type 0} (t : Tx A) → Keeps t → Sound (store t)
unfolding store
store-Sound t h = record { sound = λ s v. rest s v (t s.db) (h.kept s.db v) }
  where
    rest :
        {A : Type 0} (s : Service)
        → ServiceInv s
        → (r : Result (A × Db)) → Inv (after s.db r)
        → ServiceInv
            (elim r as (λ _. Result A × Service) [
              | err e ↦ (err e, s)
              | ok (a, db) ↦ (ok a, record s { db = db })
            ]).1
    rest s v (err e) w = v
    rest s v (ok (a, db)) w = w

pub publish-Sound :
    (pid rid : ℕ) (name : String) (payload : Payload) → Sound (publish pid rid name payload)
unfolding publish append_event
publish-Sound pid rid name payload = record {
  sound = λ s v. serial-Inv s.db _ (omega arith, v.events_below) v;
}

pub publish_live-Sound : (name : String) (payload : Payload) → Sound (publish_live name payload)
unfolding publish_live
publish_live-Sound name payload = record { sound = λ s v. v }

pub set_state-Sound :
    (pid rid : ℕ) (state : AgentState) (detail : Text) → Sound (set_state pid rid state detail)
unfolding set_state
set_state-Sound pid rid state detail = publish-Sound pid rid _ _

pub publish_run-Sound : (r : Run) → Sound (publish_run r)
unfolding publish_run
publish_run-Sound r = publish-Sound _ _ _ _

pub publish_message-Sound :
    (pid rid : ℕ) (name : String) (m : Message) → Sound (publish_message pid rid name m)
unfolding publish_message
publish_message-Sound pid rid name m = publish-Sound _ _ _ _

-- A choice between two methods by a test on the state.
pub if-Sound :
    {A : Type 0} (test : Service → Bool) (m k : Proc A)
    → Sound m
    → Sound k
    → Sound (λ s. if test s then m s else k s)
if-Sound test m k hm hk = record { sound = λ s v. branch s v (test s) }
  where
    branch : (s : Service) → ServiceInv s → (b : Bool) → ServiceInv (if b then m s else k s).1
    branch s v true = hm.sound s v
    branch s v false = hk.sound s v

-- A choice between two methods.
pub choice-Sound :
    {A : Type 0} (b : Bool) (m k : Proc A) → Sound m → Sound k → Sound (if b then m else k)
choice-Sound true m k hm hk = hm
choice-Sound false m k hm hk = hk

pub choice-ServiceInv :
    {A : Type 0} (b : Bool) (x y : A × Service)
    → ServiceInv x.1
    → ServiceInv y.1
    → ServiceInv (if b then x else y).1
choice-ServiceInv true x y hx hy = hx
choice-ServiceInv false x y hx hy = hy

pub start-Sound : (rid : ℕ) → Sound (start rid)
unfolding start
start-Sound rid =
    if-Sound (λ s. exists_row (same_key rid) s.workers) (return tt)
      (λ s. (ok tt, record s { workers = rid ∷ s.workers })) (return-Sound tt)
      (record { sound = λ s v. v })

-- What is done next depends on what a method returned, or on what a query found.
module _ {A B : Type 0} (f : Error → Proc B) (g : A → Proc B) where
  pub either-ServiceInv :
      (r : Result A) (s : Service)
      → ServiceInv s
      → ((e : Error) → Sound (f e))
      → ((a : A) → Sound (g a))
      → ServiceInv (elim r as (λ _. Result B × Service) [ err e ↦ f e s | ok a ↦ g a s ]).1
  either-ServiceInv (err e) s v hf hg = (hf e).sound s v
  either-ServiceInv (ok a) s v hf hg = (hg a).sound s v

pub ruleset sound_steps = (
  bind-Sound, then-Sound, return-Sound, throw-Sound, store-Sound, publish-Sound, set_state-Sound,
  publish_run-Sound, publish_message-Sound, start-Sound,
)

pub announce-Sound : (pid : ℕ) (r : Run) (m : Message) → Sound (announce pid r m)
unfolding announce
announce-Sound pid r m = search sound_steps depth 12

answer-Sound : (pid : ℕ) (r : Run) (text : Text) → Sound (answer pid r text)
unfolding answer
answer-Sound pid r text =
    choice-Sound (takes_answer r) _ (throw busy)
      (search (sound_steps, append_answer_and_resume-Keeps, announce-Sound) depth 8)
      (throw-Sound busy)

begin_run-Sound : (pid : ℕ) (text : Text) → Sound (begin_run pid text)
unfolding begin_run
begin_run-Sound pid text = record {
  sound = λ s v.
      created (store (create_run_with_message pid text) s)
        ((store-Sound _ (create_run_with_message-Keeps pid text)).sound s v);
}
  where
    created :
        (r : Result (Run × Message) × Service)
        → ServiceInv r.1
        → ServiceInv
            (elim r.0 as (λ _. Result Message × Service) [
              | err _ ↦ (err busy, r.1)
              | ok (row, m) ↦ announce pid row m r.1
            ]).1
    created (err _, s) w = w
    created (ok (row, m), s) w = (announce-Sound pid row m).sound s w

pub submit-Sound : (pid : ℕ) (raw : Text) → Sound (submit pid raw)
unfolding submit
submit-Sound pid raw =
    if-Sound (λ _. is_empty (trim_space raw)) (throw _) _ (throw-Sound _)
      (record { sound = λ s v. by_run s v (active_run pid s.db) })
  where
    by_run :
        (s : Service)
        → ServiceInv s
        → (r : Result Run)
        → ServiceInv
            (elim r as (λ _. Result Message × Service) [
              | ok row ↦ answer pid row (trim_space raw) s
              | err _ ↦ begin_run pid (trim_space raw) s
            ]).1
    by_run s v (ok row) = (answer-Sound pid row _).sound s v
    by_run s v (err _) = (begin_run-Sound pid _).sound s v

pub pause-Sound : (pid : ℕ) → Sound (pause pid)
unfolding pause
pause-Sound pid = search (sound_steps, request_pause-Keeps) depth 8

pub resume-Sound : (pid : ℕ) → Sound (resume pid)
unfolding resume
resume-Sound pid = search (sound_steps, resume_run-Keeps) depth 8

ready_for-Sound : (pid : ℕ) (status : Option SandboxStatus) → Sound (ready_for pid status)
unfolding ready_for note_status
ready_for-Sound pid none = record { sound = λ s v. v }
ready_for-Sound pid (some status) = record {
  sound = λ s v. record {
    one_active = v.one_active;
    runs_below = v.runs_below;
    messages_below = v.messages_below;
    events_below = v.events_below;
  };
}

pub approve-Sound :
    (pid : ℕ) (status : Option SandboxStatus) (base : Text) → Sound (approve pid status base)
unfolding approve
approve-Sound pid status base = search (sound_steps, ready_for-Sound, approve_plan-Keeps) depth 14

pub revise-Sound : (pid : ℕ) (feedback : Text) → Sound (revise pid feedback)
unfolding revise
revise-Sound pid feedback = search (sound_steps, revise_plan-Keeps) depth 12

start_all-Sound : (rs : List Run) → Sound (start_all rs)
unfolding start_all
start_all-Sound [] = return-Sound _
start_all-Sound (r ∷ rs) = then-Sound _ _ (start-Sound r.id) (start_all-Sound rs)

pub recover-Sound : Sound recover
unfolding recover
recover-Sound = record { sound = λ s v. (start_all-Sound _).sound s v }

pub operate-ServiceInv : (c : OperatorCall) (s : Service) → ServiceInv s → ServiceInv (operate c s)
unfolding operate
operate-ServiceInv (OperatorCall.submits pid text) s v = (submit-Sound pid text).sound s v
operate-ServiceInv (OperatorCall.pauses pid) s v = (pause-Sound pid).sound s v
operate-ServiceInv (OperatorCall.resumes pid) s v = (resume-Sound pid).sound s v
operate-ServiceInv (OperatorCall.clears pid) s v =
    (store-Sound _ (clear_conversation-Keeps pid)).sound s v
operate-ServiceInv (OperatorCall.approves pid status base) s v =
    (approve-Sound pid status base).sound s v
operate-ServiceInv (OperatorCall.revises pid text) s v = (revise-Sound pid text).sound s v

happen-ServiceInv : (h : Happening) (s : Service) → ServiceInv s → ServiceInv (happen h s)
unfolding happen log_tool_call
happen-ServiceInv (Happening.operator c) s v = operate-ServiceInv c s v
happen-ServiceInv (Happening.streams_text t) s v = (publish_live-Sound _ _).sound s v
happen-ServiceInv (Happening.announces_tool pid rid name detail) s v =
    (set_state-Sound _ _ _ _).sound s v
happen-ServiceInv (Happening.logs row) s v = record {
  one_active = v.one_active;
  runs_below = v.runs_below;
  messages_below = v.messages_below;
  events_below = v.events_below;
}

-- Whatever the operator does while the worker waits.
pub meanwhile-ServiceInv :
    (hs : List Happening) (s : Service) → ServiceInv s → ServiceInv (meanwhile hs s)
unfolding meanwhile
meanwhile-ServiceInv [] s v = v
meanwhile-ServiceInv (h ∷ hs) s v = meanwhile-ServiceInv hs (happen h s) (happen-ServiceInv h s v)
