-- ===== src/History/Signal.antt =====
-- `SignalWorkflow` of internal/history/history.go
use my_temp.Common.{◌+◌, String, not, ◌==◌, String_eq, if◌then◌else◌}
use my_temp.Errors.{Error, sentinel, workflow_not_running, wrap}
use my_temp.Persistence.Types.{Bytes, WorkflowExecution}
use my_temp.Persistence.Session.{
  Env, M, pure, raise, ◌>>=◌, ◌>>◌, wrapped, begin_tx, commit, deferring_rollback, count,
}
use my_temp.Persistence.{
  get_latest_execution, get_workflow_execution, get_events, insert_event,
  insert_workflow_task_if_not_exists,
}
use my_temp.History.Rows.{next_event_id, signal_received_event, replay_task}
use Prim.Native.String.{◌++◌ as append}

abbrev pub not_running_error : String → Error
not_running_error status = wrap (append "status " status) (sentinel workflow_not_running)

module _ (env : Env) (workflow_id : String) where
  -- An empty run id stands for the latest run.
  unfoldable pub resolve_run : String → M String
  resolve_run run_id =
      let latest_run =
        wrapped "get latest execution" (get_latest_execution env workflow_id) >>= λ exec.
        pure exec.run_id in
      if run_id == "" then latest_run else pure run_id

  unfoldable pub deliver_signal : String → String → Bytes → WorkflowExecution → M (Unit {0})
  deliver_signal run_id signal_name input exec = do
    events ← wrapped "get events" (get_events env workflow_id run_id)
    wrapped "insert signal received event" (
        insert_event env
          (signal_received_event workflow_id run_id (next_event_id events) signal_name input))
    wrapped "insert workflow task" (
        insert_workflow_task_if_not_exists env
          (replay_task workflow_id run_id exec (next_event_id events)))
    wrapped "commit transaction" (commit env)
    count (λ m. record m { signals_delivered = m.signals_delivered + 1 })

  unfoldable pub signal_workflow : String → String → Bytes → M (Unit {0})
  signal_workflow requested signal_name input = do
    run_id ← resolve_run requested
    wrapped "begin transaction" (begin_tx env)
    deferring_rollback do
      exec ← wrapped "get workflow execution" (get_workflow_execution env workflow_id run_id)
      if not (exec.status == "Running")
          then raise (not_running_error exec.status)
          else deliver_signal run_id signal_name input exec
