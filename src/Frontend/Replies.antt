-- ===== src/Frontend/Replies.antt =====
-- What a client of internal/frontend/grpc is told when a call is refused.
use my_temp.Common.{ℕ, ◌+◌, String_eq, true, false, ◌≡◌, refl, none, some, find, ◌==◌, ℕ_eq, arith}
use my_temp.Errors.{Error, is}
use my_temp.Persistence.Types.{WorkflowExecution}
use my_temp.Persistence.Tables.{is_execution}
use my_temp.Persistence.Session.{
  Env, World, ◌>>=◌, ◌>>◌, wrapped, deferring_rollback, begin_tx, pool_query,
}
use my_temp.Persistence.{get_latest_execution, get_workflow_execution, get_task}
use my_temp.History.Start.{start_workflow, check_not_running}
use my_temp.History.ActivityTask.{complete_activity_task}
use my_temp.History.Signal.{signal_workflow, resolve_run}
use my_temp.Proto.{StartWorkflowRequest, RespondActivityTaskCompletedRequest, SignalWorkflowRequest}
use my_temp.Frontend.{
  Reply, status_error, served, start_workflow_rpc, respond_activity_task_completed_rpc,
  signal_workflow_rpc,
}
use my_temp.Frontend.Errors.{
  Code, already_exists, failed_precondition, code_not_found, internal, to_status,
}
use my_temp.Spec.Start.{latest_of}

-- Two errors whose status code is Internal have the same status, whatever their texts are.
pub internal_errors_alike :
    (e e' : Error)
    → (to_status e).code ≡ internal
    → (to_status e').code ≡ internal
    → to_status e ≡ to_status e'
unfolding to_status
internal_errors_alike e e' h h' = ground arith

abbrev pub HasCode : {A : Type 0} → Code → Reply A → Type 0
HasCode c (status_error s) = s.code ≡ c
HasCode c _ = ⊥

-- While the database answers, a start for a workflow whose latest run is running is answered with
-- AlreadyExists.
pub start_running-already_exists :
    (env : Env) (req : StartWorkflowRequest) (w : World) (x : WorkflowExecution)
    → ((n : ℕ) → env.fault n ≡ none)
    → latest_of req.workflow_id w.db ≡ some x
    → (x.status == "Running") ≡ true
    → HasCode already_exists (served (start_workflow_rpc env req) w).0
unfolding served start_workflow_rpc start_workflow check_not_running get_latest_execution ◌>>=◌ ◌>>◌
    wrapped deferring_rollback begin_tx pool_query to_status is
start_running-already_exists env req w x calm latest running =
    rw (calm w.calls, calm (w.calls + 1), latest, running) refl

-- While the database answers, a signal for a run that is named by its id and is over is answered with
-- FailedPrecondition.
pub signal_over-failed_precondition :
    (env : Env) (req : SignalWorkflowRequest) (w : World) (x : WorkflowExecution)
    → ((n : ℕ) → env.fault n ≡ none)
    → (req.run_id == "") ≡ false
    → find (is_execution req.workflow_id req.run_id) w.db.executions ≡ some x
    → (x.status == "Running") ≡ false
    → HasCode failed_precondition (served (signal_workflow_rpc env req) w).0
unfolding served signal_workflow_rpc signal_workflow resolve_run get_workflow_execution ◌>>=◌ ◌>>◌
    wrapped deferring_rollback begin_tx pool_query to_status is
signal_over-failed_precondition env req w x calm named found over =
    rw (named, calm w.calls, calm (w.calls + 1), found, over) refl

-- While the database answers, the completion of an activity task that is not there is answered with
-- NotFound.
pub complete_missing-not_found :
    (env : Env) (req : RespondActivityTaskCompletedRequest) (w : World)
    → ((n : ℕ) → env.fault n ≡ none)
    → find (λ t. t.id == req.task_id) w.db.tasks ≡ none
    → HasCode code_not_found (served (respond_activity_task_completed_rpc env req) w).0
unfolding served respond_activity_task_completed_rpc complete_activity_task get_task ◌>>=◌ ◌>>◌
    wrapped deferring_rollback begin_tx pool_query to_status is
complete_missing-not_found env req w calm missing =
    rw (calm w.calls, calm (w.calls + 1), missing) refl
