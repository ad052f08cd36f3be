-- ===== src/Spec/ActivityTask.antt =====
-- `CompleteActivityTask` and `FailActivityTask` of internal/history/history.go, and their
-- specification.
pub mod Rows
pub mod Reports
use my_temp.Common.{
  ℕ, ◌+◌, String, none, some, ◌≡◌, refl, ◌⊎◌, inl, inr, true, false, ◌==◌, ℕ_eq, find, lt_int32,
}
use my_temp.Common.Int.{◌+ℤ◌}
use my_temp.Persistence.Types.{Bytes, Time, WorkflowExecution, Task}
use my_temp.Persistence.Tables.{is_execution}
use my_temp.Persistence.Session.{Env, World}
use my_temp.Persistence.Ends.{Ends, Cause, fault, refused}
use my_temp.Persistence.Calls.{ends_rules}
use my_temp.Persistence.Methods.{ends_methods}
use my_temp.History.Retry.{default_retry_policy, next_retry_delay, jittered_delay}
use my_temp.History.ActivityTask.{
  complete_activity_task, fail_activity_task, retry_activity, give_up_activity,
}
use my_temp.Spec.Effects.{activity_completed, activity_retried, activity_failed}

module _ (env : Env) (id : ℕ) (wid rid : String) where
  pub record ActivityCompletes (result : Bytes) (w w' : World) : Type 0 where
    pub task : Task
    pub exec : WorkflowExecution
    pub found_task : find (λ t. t.id == id) w.db.tasks ≡ some task
    pub found_exec : find (is_execution wid rid) w.db.executions ≡ some exec
    pub tables : w'.db ≡ activity_completed (env.db_clock w.calls) id wid rid result task exec w.db
    pub counted :
        w'.metrics
        ≡ record (w.metrics) { activities_completed = w.metrics.activities_completed + 1 }
    pub closed : w'.tx ≡ none

  -- An attempt was left: the task is back in the queue, with its delay and the next attempt.
  pub record ActivityRetries (w w' : World) : Type 0 where
    pub task : Task
    pub clock : Time
    pub random : ℕ
    pub found_task : find (λ t. t.id == id) w.db.tasks ≡ some task
    pub attempt_left : lt_int32 task.attempt task.max_attempts ≡ true
    pub tables :
        w'.db
        ≡ activity_retried id task
            (clock +ℤ jittered_delay env.float (default_retry_policy env.float) task.attempt random)
            w.db
    pub counted :
        w'.metrics ≡ record (w.metrics) { activity_retries = w.metrics.activity_retries + 1 }
    pub closed : w'.tx ≡ none

  pub record ActivityFails (text : String) (w w' : World) : Type 0 where
    pub task : Task
    pub exec : WorkflowExecution
    pub found_task : find (λ t. t.id == id) w.db.tasks ≡ some task
    pub exhausted : lt_int32 task.attempt task.max_attempts ≡ false
    pub found_exec : find (is_execution wid rid) w.db.executions ≡ some exec
    pub tables : w'.db ≡ activity_failed (env.db_clock w.calls) id wid rid text task exec w.db
    pub counted :
        w'.metrics ≡ record (w.metrics) { activities_failed = w.metrics.activities_failed + 1 }
    pub closed : w'.tx ≡ none

  -- The task is no longer there, or the run has no row.
  pub data ActivityRefused (w : World) : Type 0 where
    no_task : find (λ t. t.id == id) w.db.tasks ≡ none → ActivityRefused w
    no_run : find (is_execution wid rid) w.db.executions ≡ none → ActivityRefused w

  -- `CompleteActivityTask` ends without an error only when the task and the run are there; then the
  -- task is gone, the result is the next event of the run, and a workflow task lets it be replayed. It
  -- returns an error only because the task or the run is missing or a call to the database failed.
  pub complete_activity_task-ActivityCompletes :
      (result : Bytes) (w : World)
      → Ends
          (Cause env (ActivityRefused w))
          (λ _. ActivityCompletes result w)
          (complete_activity_task env id wid rid result)
          w
  unfolding complete_activity_task activity_completed
  complete_activity_task-ActivityCompletes result w =
      search (ends_rules, ends_methods, fault, refused, no_task, no_run, leaf) depth 40
    where
      leaf :
          (task : Task) (exec : WorkflowExecution) {calls : ℕ}
          → find (λ t. t.id == id) w.db.tasks ≡ some task
          → find (is_execution wid rid) w.db.executions ≡ some exec
          → ActivityCompletes result w (record {
            db = activity_completed (env.db_clock w.calls) id wid rid result task exec w.db;
            tx = none;
            calls = calls;
            metrics = record (w.metrics) {
              activities_completed = w.metrics.activities_completed + 1;
            };
          })
      leaf task exec found_task found_exec = record {
        task = task;
        exec = exec;
        found_task = found_task;
        found_exec = found_exec;
        tables = refl;
        counted = refl;
        closed = refl;
      }

  -- `FailActivityTask` ends without an error only when the task is there; then, with an attempt left,
  -- the task is replaced by its next attempt after the backoff and the history does not change; with
  -- none left, the failure is the next event of the run and a workflow task lets it be replayed. It
  -- returns an error only because the task or the run is missing or a call to the database failed.
  pub fail_activity_task-Ends :
      (text : String) (w : World)
      → Ends
          (Cause env (ActivityRefused w))
          (λ _ w'. ActivityRetries w w' ⊎ ActivityFails text w w')
          (fail_activity_task env id wid rid text)
          w
  unfolding fail_activity_task retry_activity give_up_activity next_retry_delay activity_retried
      activity_failed
  fail_activity_task-Ends text w =
      search (ends_rules, ends_methods, fault, refused, no_task, no_run, retried, gave_up) depth 40
    where
      retried :
          (task : Task) (clock : Time) (random : ℕ) {calls : ℕ}
          → find (λ t. t.id == id) w.db.tasks ≡ some task
          → lt_int32 task.attempt task.max_attempts ≡ true
          → let w' : World = record {
            db =
                activity_retried id task
                  (clock
                    +ℤ jittered_delay env.float
                        (default_retry_policy env.float)
                        task.attempt
                        random)
                  w.db;
            tx = none;
            calls = calls;
            metrics = record (w.metrics) { activity_retries = w.metrics.activity_retries + 1 };
          } in
            ActivityRetries w w' ⊎ ActivityFails text w w'
      retried task clock random found_task left = inl (record {
        task = task;
        clock = clock;
        random = random;
        found_task = found_task;
        attempt_left = left;
        tables = refl;
        counted = refl;
        closed = refl;
      })

      gave_up :
          (task : Task) (exec : WorkflowExecution) {calls : ℕ}
          → find (λ t. t.id == id) w.db.tasks ≡ some task
          → lt_int32 task.attempt task.max_attempts ≡ false
          → find (is_execution wid rid) w.db.executions ≡ some exec
          → let w' : World = record {
            db = activity_failed (env.db_clock w.calls) id wid rid text task exec w.db;
            tx = none;
            calls = calls;
            metrics = record (w.metrics) { activities_failed = w.metrics.activities_failed + 1 };
          } in
            ActivityRetries w w' ⊎ ActivityFails text w w'
      gave_up task exec found_task out found_exec = inr (record {
        task = task;
        exec = exec;
        found_task = found_task;
        exhausted = out;
        found_exec = found_exec;
        tables = refl;
        counted = refl;
        closed = refl;
      })
