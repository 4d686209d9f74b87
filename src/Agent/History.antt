-- ===== src/Agent/History.antt =====
-- A history of the service: the operator's calls, the workers, the start of the process, and the
-- pruning of the event rows. What happens while a worker waits is in its `Outside`.
use doota.Prelude.{ℕ, List, [], ◌∷◌}
use doota.Store.Invariant.{delete-EventsBelow}
use doota.Store.Transcript.{prune_events}
use doota.Agent.State.{Service}
use doota.Agent.Control.{recover}
use doota.Agent.Outside.{OperatorCall, operate, Outside}
use doota.Agent.Loop.{work}
use doota.Agent.Safety.{ServiceInv, operate-ServiceInv, recover-Sound}
use doota.Agent.Worker.Run.{work-Sound}

-- `works` is a worker that runs for at most `fuel` rounds.
pub data ServiceStep : Type 0 where
  operates : OperatorCall → ServiceStep
  works : Outside → ℕ → ℕ → ServiceStep
  recovers : ServiceStep
  prunes : ℕ → ServiceStep

unfoldable pub service_step : ServiceStep → Service → Service
service_step (operates c) s = operate c s
service_step (works o fuel rid) s = (work o fuel rid s).1
service_step recovers s = (recover s).1
service_step (prunes window) s = record s { db = prune_events window s.db }

unfoldable pub service_run : List ServiceStep → Service → Service
unfolding service_step
service_run [] s = s
service_run (c ∷ cs) s = service_run cs (service_step c s)

pub service_step-ServiceInv :
    (c : ServiceStep) (s : Service) → ServiceInv s → ServiceInv (service_step c s)
unfolding service_step prune_events
service_step-ServiceInv (operates c) s v = operate-ServiceInv c s v
service_step-ServiceInv (works o fuel rid) s v = (work-Sound o rid fuel).sound s v
service_step-ServiceInv recovers s v = recover-Sound.sound s v
service_step-ServiceInv (prunes window) s v = record {
  one_active = v.one_active;
  runs_below = v.runs_below;
  messages_below = v.messages_below;
  events_below = delete-EventsBelow _ s.db.serial s.db.events v.events_below;
}

-- Whatever the operator, the workers, the model and the tools do, in any order, the invariant of the
-- tables is kept: at most one active run for each project; runs, messages and events in the order
-- of their keys; a reason on every run that waits and none on one that is at work or paused; and
-- the time of its end on exactly the runs that are not active.
pub service_run-ServiceInv :
    (cs : List ServiceStep) (s : Service) → ServiceInv s → ServiceInv (service_run cs s)
unfolding service_run
service_run-ServiceInv [] s v = v
service_run-ServiceInv (c ∷ cs) s v =
    service_run-ServiceInv cs (service_step c s) (service_step-ServiceInv c s v)
