-- ===== src/Tests/Turns.antt =====
-- Turns of the runner on sample data, and the theorems about them there.
use doota.Prelude.{◌≡◌, refl, List, [], ◌∷◌, ◌++◌, some, arith, first_row, count_rows}
use doota.Prelude.Text.{codes}
use doota.Store.Schema.{ready, paused, is_active, is_running, is_awaiting, is_paused}
use doota.Store.Query.{ok}
use doota.Store.Run.{run_by_id}
use doota.Store.Invariant.{Inv}
use doota.Store.Transcript.{review_outcomes, tool_outcomes}
use doota.Tools.Result.{success, review_request}
use doota.Tools.Registry.{execute, primary}
use doota.Agent.Control.{submit, pause, resume, note_status, approve, revise}
use doota.Agent.Atomic.{AllOrNothing, operator-AllOrNothing}
use doota.Agent.Outside.{OperatorCall}
use doota.Agent.Ship.{ship, review_gate, pass}
use doota.Agent.Loop.{stopped, run_loop}
use doota.Agent.History.{ServiceStep, service_run, service_run-ServiceInv}
use doota.Agent.Safety.{ServiceInv}
use doota.Agent.Turns.{run_loop-pause_requested}
use doota.Agent.Gates.{HeldBack, ship-unreviewed, execute-review_gate}
use doota.Agent.Delta.{new_delta_batch}
use doota.Agent.Deltas.{BatchStep, batch_run, added, shown_text, batch_run-added}
use doota.Tests.Fixtures.{working_run, stopping_run, db_of, service_of, calm}

working_Inv : Inv (db_of working_run)
unfolding count_rows is_active is_awaiting is_running is_paused
working_Inv = record {
  one_active = λ pid. ground arith;
  runs_below = (
    omega arith,
    record { awaits = λ e. cc; works = λ e. refl; rests = λ e. cc; ends = refl },
    tt,
  );
  messages_below = (omega arith, tt);
  events_below = tt;
}

abbrev history : List ServiceStep
history =
    ServiceStep.operates (OperatorCall.pauses 7)
    ∷ ServiceStep.works calm 4 1
    ∷ ServiceStep.operates (OperatorCall.resumes 7)
    ∷ ServiceStep.works calm 4 1
    ∷ ServiceStep.operates (OperatorCall.clears 7)
    ∷ []

service_run-ServiceInv_example : ServiceInv (service_run history (service_of working_run))
service_run-ServiceInv_example = service_run-ServiceInv history (service_of working_run) working_Inv

run_loop-pause_requested_example :
    let (ended, s') = run_loop calm 4 1 (service_of stopping_run) in
    (ended ≡ ok stopped)
    × (run_by_id 1 s'.db ≡ ok (record stopping_run { state = paused; updated_at = 20 }))
    × (s'.db.messages ≡ (db_of stopping_run).messages)
    × (s'.db.tool_logs ≡ [])
unfolding run_by_id first_row is_running
run_loop-pause_requested_example =
    run_loop-pause_requested calm 3 1 (service_of stopping_run) stopping_run refl refl refl

ship-unreviewed_example :
    HeldBack (service_of working_run) (ship calm 7 1 3 33 (codes "Fixed") (service_of working_run))
unfolding review_outcomes tool_outcomes count_rows
ship-unreviewed_example =
    ship-unreviewed calm 7 1 3 33 (codes "Fixed") (service_of working_run) refl

execute-review_gate_example :
    review_gate (
      review_outcomes 1
        (execute primary 1 3 "review"
          (ok (success (codes "Starting an independent review.") (review_request [])))
          (db_of working_run)).1)
    ≡ pass
execute-review_gate_example =
    execute-review_gate 1 3 (success (codes "Starting an independent review.") (review_request []))
      (db_of working_run) refl

operator-AllOrNothing_example :
    let s = service_of working_run in
    AllOrNothing (submit 7 (codes "Go on") s) s
    × AllOrNothing (pause 7 s) s
    × AllOrNothing (resume 7 s) s
    × AllOrNothing (approve 7 (some ready) (codes "Go on") s) (note_status 7 (some ready) s)
    × AllOrNothing (revise 7 (codes "Go on") s) s
operator-AllOrNothing_example =
    operator-AllOrNothing 7 (codes "Go on") (some ready) (service_of working_run)

abbrev streamed : List BatchStep
streamed =
    BatchStep.adds (codes "ab")
    ∷ BatchStep.flushes
    ∷ BatchStep.flushes
    ∷ BatchStep.adds (codes "c")
    ∷ BatchStep.adds (codes "d")
    ∷ []

abbrev late : List BatchStep
late = BatchStep.adds (codes "late") ∷ BatchStep.flushes ∷ []

batch_run-added_example :
    shown_text
      (batch_run
        (streamed ++ BatchStep.closes ∷ (late ++ BatchStep.flushes ∷ late))
        new_delta_batch).0
    ≡ codes "abcd"
unfolding added
batch_run-added_example = batch_run-added streamed late late
