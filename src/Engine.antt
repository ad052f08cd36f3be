-- ===== src/Engine.antt =====
-- What can happen to the engine: the RPCs of internal/frontend/grpc/handler.go, and the ticks of
-- the two loops of cmd/engine/main.go. An engine's life is a list of these, one after the other,
-- each with the answers that the outside world gives it.
pub mod Atomic
pub mod Outcome
pub mod Settled
pub mod Life
use my_temp.Common.{◌+◌, List, [], ◌∷◌, none}
use my_temp.Metrics.{new_metrics}
use my_temp.Persistence.Tables.{empty_db}
use my_temp.Persistence.Session.{Env, World, M, pure, ◌>>=◌, count}
use my_temp.Persistence.{reclaim_expired_leases}
use my_temp.History.Timers.{scan_timers}
use my_temp.Proto.{
  StartWorkflowRequest, PollTaskRequest, RespondWorkflowTaskCompletedRequest,
  RespondActivityTaskCompletedRequest, RespondActivityTaskFailedRequest, SignalWorkflowRequest,
}
use my_temp.Frontend.{
  start_workflow_rpc, poll_workflow_task_rpc, respond_workflow_task_completed_rpc,
  poll_activity_task_rpc, respond_activity_task_completed_rpc, respond_activity_task_failed_rpc,
  signal_workflow_rpc,
}

pub data Call : Type 0 where
  start : StartWorkflowRequest → Call
  poll_workflow poll_activity : PollTaskRequest → Call
  workflow_task_completed : RespondWorkflowTaskCompletedRequest → Call
  activity_task_completed : RespondActivityTaskCompletedRequest → Call
  activity_task_failed : RespondActivityTaskFailedRequest → Call
  signal : SignalWorkflowRequest → Call
  reclaim_tick scan_tick : Call

abbrev pub discard : {A : Type 0} → M A → M (Unit {0})
discard m = m >>= λ _. pure tt

-- A tick of `reclaimLoop`.
unfoldable pub reclaim_once : Env → M (Unit {0})
reclaim_once env = reclaim_expired_leases env >>= λ n.
    count (λ m. record m { leases_reclaimed = m.leases_reclaimed + n })

unfoldable pub perform : Env → Call → M (Unit {0})
perform env (start req) = discard (start_workflow_rpc env req)
perform env (poll_workflow req) = discard (poll_workflow_task_rpc env req)
perform env (poll_activity req) = discard (poll_activity_task_rpc env req)
perform env (workflow_task_completed req) = respond_workflow_task_completed_rpc env req
perform env (activity_task_completed req) = respond_activity_task_completed_rpc env req
perform env (activity_task_failed req) = respond_activity_task_failed_rpc env req
perform env (signal req) = signal_workflow_rpc env req
perform env reclaim_tick = reclaim_once env
perform env scan_tick = scan_timers env

-- The engine as it starts on an empty database.
abbrev pub boot : World
boot = record { db = empty_db; tx = none; metrics = new_metrics; calls = 0 }

-- A call that fails is answered with its status, and the engine goes on.
unfoldable pub run : World → List (Env × Call) → World
run w [] = w
run w ((env, c) ∷ cs) = run (perform env c w).1 cs
