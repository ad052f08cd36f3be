-- ===== src/History/Start.antt =====
-- `StartWorkflow` of internal/history/history.go
use my_temp.Common.{◌+◌, String, ◌==◌, String_eq, if◌then◌else◌}
use my_temp.Errors.{sentinel, not_found, workflow_already_running, wrap, is}
use my_temp.Persistence.Types.{Bytes, WorkflowExecution}
use my_temp.Persistence.Session.{
  Env, World, Result, ok, err, M, pure, ◌>>=◌, ◌>>◌, wrapped, new_uuid, begin_tx, commit,
  deferring_rollback, count,
}
use my_temp.Persistence.{get_latest_execution, insert_workflow_execution, insert_event, insert_task}
use my_temp.History.Rows.{started_execution, workflow_started_event, first_workflow_task}

-- `err != nil && !errors.Is(err, ErrNotFound)`, and then the test for a run that is running.
abbrev pub refuse_running : String → Result WorkflowExecution × World → Result (Unit {0}) × World
refuse_running workflow_id (ok existing, w) =
    if existing.status == "Running"
    then (err (wrap workflow_id (sentinel workflow_already_running)), w)
    else (ok tt, w)
refuse_running workflow_id (err e, w) =
    if is e not_found then (ok tt, w) else (err (wrap "get latest execution" e), w)

module _ (env : Env) where
  unfoldable pub check_not_running : String → M (Unit {0})
  check_not_running workflow_id w =
      refuse_running workflow_id (get_latest_execution env workflow_id w)

  -- The three rows of a new run.
  unfoldable pub insert_run : String → String → String → String → Bytes → M (Unit {0})
  insert_run run_id workflow_id workflow_type task_queue input = do
    wrapped "insert workflow execution" (
        insert_workflow_execution env
          (started_execution workflow_id run_id workflow_type task_queue))
    wrapped "insert workflow started event"
        (insert_event env (workflow_started_event workflow_id run_id input))
    wrapped "insert workflow task"
        (insert_task env (first_workflow_task workflow_id run_id workflow_type task_queue input))

  unfoldable pub start_workflow : String → String → String → Bytes → M String
  start_workflow workflow_id workflow_type task_queue input = do
    wrapped "begin transaction" (begin_tx env)
    deferring_rollback do
      check_not_running workflow_id
      run_id ← new_uuid env
      insert_run run_id workflow_id workflow_type task_queue input
      wrapped "commit transaction" (commit env)
      count (λ m. record m { workflows_started = m.workflows_started + 1 })
      pure run_id
