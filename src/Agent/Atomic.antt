-- ===== src/Agent/Atomic.antt =====
-- A call of the operator that fails changes nothing.
use Prim.Native.String.{String}
use doota.Prelude.{
  ℕ, Option, length, ◌≡◌, ◌⊎◌, inl, inr, refl, Bool, true, false, ◌∷◌, if◌then◌else◌, exists_row,
}
use doota.Prelude.Text.{Text, is_empty, trim_space}
use doota.Store.Schema.{Run, Message, Payload, SandboxStatus, Db, plan_payload}
use doota.Store.Query.{Tx, Result, Error, ok, err, busy}
use doota.Store.Run.{active_run, create_run_with_message, append_answer_and_resume}
use doota.Store.Plan.{approve_plan}
use doota.Store.Transcript.{append_event}
use doota.Agent.State.{
  Service, Proc, ◌>>=◌, ◌>>◌, return, throw, store, publish, publish_run, publish_message, start,
  same_key,
}
use doota.Agent.Control.{
  announce, answer, begin_run, submit, takes_answer, pause, resume, note_status, ready_for, approve,
  revise,
}

-- A method that never returns an error.
record Succeeds {A : Type 0} (m : Proc A) : Type 0 where
  always : (s : Service) → (a : A) × ((m s).0 ≡ ok a)

-- It returned a value, or the service is as it was.
abbrev pub AllOrNothing : {A : Type 0} → Result A × Service → Service → Type 0
AllOrNothing {A} (r, s') s = ((a : A) × (r ≡ ok a)) ⊎ (s' ≡ s)

record Atomic {A : Type 0} (m : Proc A) : Type 0 where
  atomic : (s : Service) → AllOrNothing (m s) s

module _ {A B : Type 0} (m : Proc A) (k : A → Proc B) where
  bind-Succeeds : Succeeds m → ((a : A) → Succeeds (k a)) → Succeeds (m >>= k)
  bind-Succeeds hm hk = record { always = λ s. rest (m s).0 (m s).1 (hm.always s) }
    where
      rest :
          (r : Result A) (s : Service)
          → (a : A) × (r ≡ ok a)
          → (b : B) × ((elim r as (λ _. Result B × Service) [ err e ↦ (err e, s) | ok a ↦ k a s ]).0
              ≡ ok b)
      rest (err e) s (a, h) = absurd cc
      rest (ok a) s h = (hk a).always s

  bind-Atomic : Atomic m → ((a : A) → Succeeds (k a)) → Atomic (m >>= k)
  bind-Atomic hm hk = record { atomic = λ s. rest (m s).0 (m s).1 s (hm.atomic s) }
    where
      rest :
          (r : Result A) (s' s : Service)
          → AllOrNothing (r, s') s
          → AllOrNothing
              (elim r as (λ _. Result B × Service) [ err e ↦ (err e, s') | ok a ↦ k a s' ])
              s
      rest (err e) s' s (inl (a, h)) = absurd cc
      rest (err e) s' s (inr same) = inr same
      rest (ok a) s' s h = inl ((hk a).always s')

return-Succeeds : {A : Type 0} (a : A) → Succeeds (return a)
return-Succeeds a = record { always = λ s. (a, refl) }

throw-Atomic : {A : Type 0} (e : Error) → Atomic (throw {A = A} e)
throw-Atomic e = record { atomic = λ s. inr refl }

store-Atomic : {A : Type 0} (t : Tx A) → Atomic (store t)
unfolding store
store-Atomic {A} t = record { atomic = λ s. rest s (t s.db) }
  where
    rest :
        (s : Service) (r : Result (A × Db))
        → AllOrNothing
            (elim r as (λ _. Result A × Service) [
              | err e ↦ (err e, s)
              | ok (a, db) ↦ (ok a, record s { db = db })
            ])
            s
    rest s (err e) = inr refl
    rest s (ok (a, db)) = inl (a, refl)

publish-Succeeds :
    (pid rid : ℕ) (name : String) (payload : Payload) → Succeeds (publish pid rid name payload)
unfolding publish append_event
publish-Succeeds pid rid name payload = record { always = λ s. (tt, refl) }

publish_run-Succeeds : (r : Run) → Succeeds (publish_run r)
unfolding publish_run
publish_run-Succeeds r = publish-Succeeds _ _ _ _

publish_message-Succeeds :
    (pid rid : ℕ) (name : String) (m : Message) → Succeeds (publish_message pid rid name m)
unfolding publish_message
publish_message-Succeeds pid rid name m = publish-Succeeds _ _ _ _

start-Succeeds : (rid : ℕ) → Succeeds (start rid)
unfolding start
start-Succeeds rid = record { always = λ s. started s (exists_row (same_key rid) s.workers) }
  where
    started :
        (s : Service) (b : Bool)
        → (a : Unit {0}) × ((if◌then◌else◌ {A = Result (Unit {0}) × Service} b
              (ok tt, s)
              (ok tt, record s { workers = rid ∷ s.workers })).0
            ≡ ok a)
    started s true = (tt, refl)
    started s false = (tt, refl)

ruleset atomic_steps = (
  bind-Succeeds, bind-Atomic, return-Succeeds, store-Atomic, publish-Succeeds, publish_run-Succeeds,
  publish_message-Succeeds, start-Succeeds,
)

announce-Succeeds : (pid : ℕ) (r : Run) (m : Message) → Succeeds (announce pid r m)
unfolding announce
announce-Succeeds pid r m = search atomic_steps depth 12

pause-Atomic : (pid : ℕ) → Atomic (pause pid)
unfolding pause
pause-Atomic pid = search atomic_steps depth 8

resume-Atomic : (pid : ℕ) → Atomic (resume pid)
unfolding resume
resume-Atomic pid = search atomic_steps depth 8

-- All of an approval after the sandbox has been asked for.
released-Atomic :
    (pid : ℕ) (base : Text)
    → Atomic (do
      (pad, r, m) ← store (approve_plan pid base)
      publish_message pid r.id "message.created" m
      publish pid r.id "plan.updated" (plan_payload pad.title (length pad.tasks) pad.status)
      publish_run r
      start r.id)
released-Atomic pid base = search atomic_steps depth 12

approve-AllOrNothing :
    (pid : ℕ) (status : Option SandboxStatus) (base : Text) (s : Service)
    → AllOrNothing (approve pid status base s) (note_status pid status s)
unfolding approve ready_for
approve-AllOrNothing pid status base s =
    (released-Atomic pid base).atomic (note_status pid status s)

revise-Atomic : (pid : ℕ) (feedback : Text) → Atomic (revise pid feedback)
unfolding revise
revise-Atomic pid feedback = search atomic_steps depth 12

answer-Atomic : (pid : ℕ) (r : Run) (text : Text) → Atomic (answer pid r text)
unfolding answer
answer-Atomic pid r text = by_test (takes_answer r)
  where
    by_test :
        (b : Bool)
        → Atomic (
            if b
            then (do
              (m, resumed) ← store (append_answer_and_resume pid r.id text)
              announce pid resumed m)
            else throw busy)
    by_test true = search (atomic_steps, announce-Succeeds) depth 8
    by_test false = throw-Atomic busy

begin_run-Atomic : (pid : ℕ) (text : Text) → Atomic (begin_run pid text)
unfolding begin_run
begin_run-Atomic pid text = record {
  atomic = λ s.
      created s (store (create_run_with_message pid text) s)
        ((store-Atomic (create_run_with_message pid text)).atomic s);
}
  where
    created :
        (s : Service) (r : Result (Run × Message) × Service)
        → AllOrNothing r s
        → AllOrNothing
            (elim r.0 as (λ _. Result Message × Service) [
              | err _ ↦ (err busy, r.1)
              | ok (row, m) ↦ announce pid row m r.1
            ])
            s
    created s (err _, s') (inl (a, h)) = absurd cc
    created s (err _, s') (inr same) = inr same
    created s (ok (row, m), s') h = inl ((announce-Succeeds pid row m).always s')

submit-Atomic : (pid : ℕ) (raw : Text) → Atomic (submit pid raw)
unfolding submit
submit-Atomic pid raw = record {
  atomic = λ s. by_test _ s (is_empty (trim_space raw)) (active_run pid s.db);
}
  where
    by_test :
        (e : Error) (s : Service) (b : Bool) (r : Result Run)
        → AllOrNothing
            (if b then (err e, s) else elim r as (λ _. Result Message × Service) [
              | ok row ↦ answer pid row (trim_space raw) s
              | err _ ↦ begin_run pid (trim_space raw) s
            ])
            s
    by_test e s true r = inr refl
    by_test e s false (ok row) = (answer-Atomic pid row (trim_space raw)).atomic s
    by_test e s false (err _) = (begin_run-Atomic pid (trim_space raw)).atomic s

-- Each call of the operator returns a value, or leaves the whole service as it was: the tables, the
-- workers and the frames that wait for browsers. Of an approval that fails, one write stays: the
-- status of the sandbox, where waking it had written one.
pub operator-AllOrNothing :
    (pid : ℕ) (text : Text) (status : Option SandboxStatus) (s : Service)
    → AllOrNothing (submit pid text s) s
      × AllOrNothing (pause pid s) s
      × AllOrNothing (resume pid s) s
      × AllOrNothing (approve pid status text s) (note_status pid status s)
      × AllOrNothing (revise pid text s) s
operator-AllOrNothing pid text status s = (
  (submit-Atomic pid text).atomic s,
  (pause-Atomic pid).atomic s,
  (resume-Atomic pid).atomic s,
  approve-AllOrNothing pid status text s,
  (revise-Atomic pid text).atomic s,
)
