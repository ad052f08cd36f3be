-- ===== src/History/WorkflowTask.antt =====
-- `CompleteWorkflowTask` of internal/history/history.go
use my_temp.Common.{ℕ, ◌+◌, String, not, List, [], ◌∷◌, ◌==◌, String_eq, if◌then◌else◌, int64}
use my_temp.Metrics.{Metrics}
use my_temp.Persistence.Types.{WorkflowExecution}
use my_temp.Persistence.Session.{
  Env, M, pure, ◌>>=◌, ◌>>◌, wrapped, time_now, begin_tx, commit, deferring_rollback, count,
}
use my_temp.Persistence.{
  get_workflow_execution, get_events, insert_event, insert_task, insert_timer,
  update_workflow_status, complete_task,
}
use my_temp.History.Types.{Command}
use my_temp.History.Rows.{
  next_event_id, activity_scheduled_event, activity_task, timer_started_event, started_timer,
  workflow_completed_event, workflow_failed_event,
}
use my_temp.History.Retry.{default_retry_policy}

-- The variables of the loop: the next event id and the tallies.
pub record Progress : Type 0 where
  pub next_id : ℕ
  pub scheduled : ℕ
  pub timers_started : ℕ
  pub completed : ℕ
  pub failed : ℕ

abbrev pub first_progress : ℕ → Progress
first_progress id = record {
  next_id = id;
  scheduled = 0;
  timers_started = 0;
  completed = 0;
  failed = 0;
}

module _ (env : Env) (exec : WorkflowExecution) (workflow_id run_id : String) where
  unfoldable pub schedule_activity : Progress → Command → M Progress
  schedule_activity p cmd = do
    wrapped "insert activity scheduled event"
        (insert_event env (activity_scheduled_event workflow_id run_id p.next_id cmd))
    wrapped "insert activity task" (
        insert_task env (
          activity_task workflow_id run_id exec p.next_id
            (default_retry_policy env.float).max_attempts cmd))
    pure (record p { next_id = int64 (p.next_id + 1); scheduled = p.scheduled + 1 })

  unfoldable pub start_timer : Progress → Command → M Progress
  start_timer p cmd = do
    wrapped "insert timer started event"
        (insert_event env (timer_started_event workflow_id run_id p.next_id cmd))
    now ← time_now env
    wrapped "insert timer" (insert_timer env (started_timer workflow_id run_id now cmd))
    pure (record p { next_id = int64 (p.next_id + 1); timers_started = p.timers_started + 1 })

  -- `nextEventID` is not advanced here, nor in the next case.
  unfoldable pub complete_workflow : Progress → Command → M Progress
  complete_workflow p cmd = do
    wrapped "insert workflow completed event"
        (insert_event env (workflow_completed_event workflow_id run_id p.next_id cmd))
    wrapped "update workflow status" (update_workflow_status env workflow_id run_id "Completed")
    pure (record p { completed = p.completed + 1 })

  unfoldable pub fail_workflow : Progress → Command → M Progress
  fail_workflow p cmd = do
    wrapped "insert workflow failed event"
        (insert_event env (workflow_failed_event workflow_id run_id p.next_id cmd))
    wrapped "update workflow status" (update_workflow_status env workflow_id run_id "Failed")
    pure (record p { failed = p.failed + 1 })

  -- The `switch cmd.Type`; a command of any other type is passed over.
  unfoldable pub apply_command : Progress → Command → M Progress
  apply_command p cmd =
      if cmd.type == "ScheduleActivity"
      then schedule_activity p cmd
      else if cmd.type == "StartTimer"
      then start_timer p cmd
      else if cmd.type == "CompleteWorkflow"
      then complete_workflow p cmd
      else if cmd.type == "FailWorkflow"
      then fail_workflow p cmd
      else pure p

  unfoldable pub apply_commands : Progress → List Command → M Progress
  apply_commands p [] = pure p
  apply_commands p (cmd ∷ cmds) = apply_command p cmd >>= λ p'. apply_commands p' cmds

abbrev pub count_progress : Progress → Metrics → Metrics
count_progress p m = record m {
  activities_scheduled = m.activities_scheduled + p.scheduled;
  timers_started = m.timers_started + p.timers_started;
  workflows_completed = m.workflows_completed + p.completed;
  workflows_failed = m.workflows_failed + p.failed;
}

module _ (env : Env) (task_id : ℕ) (workflow_id run_id : String) where
  -- The run is over: the task is dropped, and its commands with it.
  unfoldable pub drop_task : M (Unit {0})
  drop_task = do wrapped "complete workflow task" (complete_task env task_id); commit env

  unfoldable pub record_commands : List Command → WorkflowExecution → M (Unit {0})
  record_commands commands exec = do
    events ← wrapped "get events" (get_events env workflow_id run_id)
    p ← apply_commands env exec workflow_id run_id (first_progress (next_event_id events)) commands
    wrapped "complete workflow task" (complete_task env task_id)
    wrapped "commit transaction" (commit env)
    count (count_progress p)

  unfoldable pub complete_workflow_task : List Command → M (Unit {0})
  complete_workflow_task commands = do
    wrapped "begin transaction" (begin_tx env)
    deferring_rollback do
      exec ← wrapped "get workflow execution" (get_workflow_execution env workflow_id run_id)
      if not (exec.status == "Running") then drop_task else record_commands commands exec
