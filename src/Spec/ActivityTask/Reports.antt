-- ===== src/Spec/ActivityTask/Reports.antt =====
-- `CompleteActivityTask` and `FailActivityTask` of internal/history/history.go, with the rows written out.
use my_temp.Common.{ℕ, ◌+◌, String, String_eq, ℕ_eq, ◌==◌, true, false, ◌≡◌, some, find, lt_int32}
use my_temp.Common.Int.{◌+ℤ◌}
use my_temp.Common.Text.{utf8}
use my_temp.Persistence.Types.{Bytes, Time, WorkflowExecution, Task}
use my_temp.Persistence.Tables.{is_execution}
use my_temp.Persistence.Session.{Env, World}
use my_temp.Persistence.Ends.{Ends, Cause, Ends-mono}
use my_temp.History.ActivityTask.{complete_activity_task}
use my_temp.History.Retry.{default_retry_policy, jittered_delay}
use my_temp.Spec.ActivityTask.{
  ActivityCompletes, ActivityRefused, complete_activity_task-ActivityCompletes,
}
use my_temp.Spec.ActivityTask.Rows.{stored, Recorded, PutBack, activity_completed-Recorded}

module _ (env : Env) (id : ℕ) (wid rid : String) where
  -- The task that is reported on, and its run.
  pub record Completion (result : Bytes) (w w' : World) : Type 0 where
    pub task : Task
    pub exec : WorkflowExecution
    pub found_task : find (λ t. t.id == id) w.db.tasks ≡ some task
    pub found_exec : find (is_execution wid rid) w.db.executions ≡ some exec
    pub tables :
        Recorded id wid rid "ActivityCompleted"
          (stored result)
          (env.db_clock w.calls)
          task
          exec
          w.db
          w'.db
    pub counted :
        w'.metrics
        ≡ record (w.metrics) { activities_completed = w.metrics.activities_completed + 1 }

  pub record Retry (w w' : World) : Type 0 where
    pub task : Task
    pub clock : Time
    pub random : ℕ
    pub found_task : find (λ t. t.id == id) w.db.tasks ≡ some task
    pub attempt_left : lt_int32 task.attempt task.max_attempts ≡ true
    pub tables :
        PutBack id wid rid
          (clock +ℤ jittered_delay env.float (default_retry_policy env.float) task.attempt random)
          task
          w.db
          w'.db
    pub counted :
        w'.metrics ≡ record (w.metrics) { activity_retries = w.metrics.activity_retries + 1 }

  pub record Failure (text : String) (w w' : World) : Type 0 where
    pub task : Task
    pub exec : WorkflowExecution
    pub found_task : find (λ t. t.id == id) w.db.tasks ≡ some task
    pub exhausted : lt_int32 task.attempt task.max_attempts ≡ false
    pub found_exec : find (is_execution wid rid) w.db.executions ≡ some exec
    pub tables :
        Recorded id wid rid "ActivityFailed"
          (some (utf8 text))
          (env.db_clock w.calls)
          task
          exec
          w.db
          w'.db
    pub counted :
        w'.metrics ≡ record (w.metrics) { activities_failed = w.metrics.activities_failed + 1 }

  completes-Completion :
      (result : Bytes) (w w' : World)
      → ActivityCompletes env id wid rid result w w'
      → Completion result w w'
  completes-Completion result w w' h = record {
    task = h.task;
    exec = h.exec;
    found_task = h.found_task;
    found_exec = h.found_exec;
    tables = rw (h.tables) (
        activity_completed-Recorded id wid rid (env.db_clock w.calls) result h.task h.exec w.db
          h.found_exec);
    counted = h.counted;
  }

  -- `CompleteActivityTask` ends without an error only when the task and the run are there. Then the
  -- history has one more row, an `ActivityCompleted` event of the run with the result, the name and index
  -- of the task, and the number after those of the run's events; the tasks with that id are gone, all
  -- others are there, and after them a workflow task of the run; the other tables are as they were. It
  -- returns an error only because the task or the run is missing or a call to the database failed.
  pub complete_activity_task-Completion :
      (result : Bytes) (w : World)
      → Ends
          (Cause env (ActivityRefused env id wid rid w))
          (λ _. Completion result w)
          (complete_activity_task env id wid rid result)
          w
  complete_activity_task-Completion result w =
      Ends-mono (complete_activity_task-ActivityCompletes env id wid rid result w)
        (λ _. completes-Completion result w)
