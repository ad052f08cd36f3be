-- ===== src/History/ActivityTask.antt =====
-- `CompleteActivityTask` and `FailActivityTask` of internal/history/history.go
use my_temp.Common.{ℕ, ◌+◌, String, if◌then◌else◌, lt_int32}
use my_temp.Common.Int.{◌+ℤ◌}
use my_temp.Persistence.Types.{Bytes, Task}
use my_temp.Persistence.Session.{
  Env, M, ◌>>=◌, ◌>>◌, wrapped, time_now, begin_tx, commit, deferring_rollback, count,
}
use my_temp.Persistence.{
  get_workflow_execution, get_events, get_task, insert_event, insert_task, complete_task,
}
use my_temp.History.Rows.{
  next_event_id, activity_completed_event, activity_failed_event, replay_task, retry_task,
}
use my_temp.History.Retry.{default_retry_policy, next_retry_delay}

module _ (env : Env) (task_id : ℕ) (workflow_id run_id : String) where
  unfoldable pub complete_activity_task : Bytes → M (Unit {0})
  complete_activity_task result = do
    wrapped "begin transaction" (begin_tx env)
    deferring_rollback do
      task ← wrapped "get task" (get_task env task_id)
      events ← wrapped "get events" (get_events env workflow_id run_id)
      wrapped "insert activity completed event" (
          insert_event env
            (activity_completed_event workflow_id run_id (next_event_id events) task result))
      wrapped "complete activity task" (complete_task env task_id)
      exec ← wrapped "get workflow execution" (get_workflow_execution env workflow_id run_id)
      wrapped "insert workflow task"
          (insert_task env (replay_task exec.workflow_id exec.run_id exec (next_event_id events)))
      wrapped "commit transaction" (commit env)
      count (λ m. record m { activities_completed = m.activities_completed + 1 })

  -- An attempt is left: the task is replaced by one that becomes visible after the backoff.
  unfoldable pub retry_activity : Task → M (Unit {0})
  retry_activity task = do
    delay ← next_retry_delay env (default_retry_policy env.float) task.attempt
    wrapped "complete failed activity task" (complete_task env task_id)
    now ← time_now env
    wrapped "reschedule activity" (insert_task env (retry_task task (now +ℤ delay)))
    wrapped "commit transaction" (commit env)
    count (λ m. record m { activity_retries = m.activity_retries + 1 })

  -- No attempt is left: the failure goes into the history.
  unfoldable pub give_up_activity : Task → String → M (Unit {0})
  give_up_activity task err_msg = do
    events ← wrapped "get events" (get_events env workflow_id run_id)
    wrapped "insert activity failed event" (
        insert_event env
          (activity_failed_event workflow_id run_id (next_event_id events) task err_msg))
    wrapped "complete failed activity task" (complete_task env task_id)
    exec ← wrapped "get workflow execution" (get_workflow_execution env workflow_id run_id)
    wrapped "insert workflow task"
        (insert_task env (replay_task workflow_id run_id exec (next_event_id events)))
    wrapped "commit transaction" (commit env)
    count (λ m. record m { activities_failed = m.activities_failed + 1 })

  unfoldable pub fail_activity_task : String → M (Unit {0})
  fail_activity_task err_msg = do
    wrapped "begin transaction" (begin_tx env)
    deferring_rollback do
      task ← wrapped "get task" (get_task env task_id)
      if lt_int32 task.attempt task.max_attempts
          then retry_activity task
          else give_up_activity task err_msg
