-- ===== src/Spec/ActivityTask/Rows.antt =====
-- The rows of `CompleteActivityTask` and `FailActivityTask` of internal/history/history.go, written out.
use my_temp.Common.{
  ℕ, ◌+◌, String, String_eq, ℕ_eq, ◌==◌, eq_iff, not, true, ◌≡◌, refl, ap, List, [], ◌∷◌, ◌++◌,
  none, some, keep, find, find-test, length, int32, int64, arith,
}
use my_temp.Common.Text.{utf8}
use my_temp.Persistence.Types.{Bytes, Time, zero_time, WorkflowExecution, Event, Task}
use my_temp.Persistence.Tables.{
  Db, non_nil, is_execution, insert_event_row, insert_task_row, delete_task_rows,
}
use my_temp.Journal.{rows_of}
use my_temp.Journal.Rows.{next_id_of-length}
use my_temp.Spec.Effects.{activity_completed, activity_retried, activity_failed}

-- What the column `data` holds: NULL is not written.
abbrev pub stored : Bytes → Bytes
stored none = some []
stored (some bytes) = some bytes

non_nil-stored : (bytes : Bytes) → non_nil bytes ≡ stored bytes
non_nil-stored none = refl
non_nil-stored (some b) = refl

own_execution :
    (wid rid : String) (exec : WorkflowExecution)
    → is_execution wid rid exec ≡ true
    → (exec.workflow_id ≡ wid) × (exec.run_id ≡ rid)
own_execution wid rid exec own =
    ground (arith, own, eq_iff exec.workflow_id wid, eq_iff exec.run_id rid)

module _ (id : ℕ) (wid rid : String) where
  -- The number of the next event of the run.
  abbrev pub next_number : Db → ℕ
  next_number db = int64 (length (rows_of wid rid db) + 1)

  abbrev pub other_tasks : Db → List Task
  other_tasks db = keep (λ t. not (t.id == id)) db.tasks

  -- The event of an activity that has come to its end.
  abbrev pub outcome_event : String → Bytes → Time → Task → Db → Event
  outcome_event type bytes now task db = record {
    id = db.next_event;
    workflow_id = wid;
    run_id = rid;
    event_id = next_number db;
    event_type = type;
    signal_name = "";
    activity_name = task.activity_name;
    activity_index = task.activity_index;
    timer_index = 0;
    event_data = bytes;
    created_at = now;
  }

  -- The task that lets a worker replay the run.
  abbrev pub wake_up : WorkflowExecution → Db → Task
  wake_up exec db = record {
    id = db.next_task;
    task_queue = exec.task_queue;
    task_type = "workflow";
    workflow_type = exec.workflow_type;
    workflow_id = wid;
    run_id = rid;
    scheduled_event_id = next_number db;
    input = none;
    activity_name = "";
    activity_index = 0;
    attempt = 0;
    max_attempts = 0;
    visibility_time = zero_time;
    lease_owner = none;
    lease_expires_at = none;
  }

  -- The next attempt of the activity.
  abbrev pub next_attempt : Task → Time → Db → Task
  next_attempt task visible db = record {
    id = db.next_task;
    task_queue = task.task_queue;
    task_type = "activity";
    workflow_type = task.workflow_type;
    workflow_id = task.workflow_id;
    run_id = task.run_id;
    scheduled_event_id = task.scheduled_event_id;
    input = task.input;
    activity_name = task.activity_name;
    activity_index = task.activity_index;
    attempt = int32 (task.attempt + 1);
    max_attempts = task.max_attempts;
    visibility_time = visible;
    lease_owner = none;
    lease_expires_at = none;
  }

  -- The activity's end is in the history, its task is gone, and a workflow task has come.
  pub record Recorded (type : String) (bytes : Bytes) (now : Time) (task : Task)
      (exec : WorkflowExecution) (db db' : Db) : Type 0 where
    pub history : db'.events ≡ db.events ++ outcome_event type bytes now task db ∷ []
    pub tasks : db'.tasks ≡ other_tasks db ++ wake_up exec db ∷ []
    pub executions : db'.executions ≡ db.executions
    pub timers : db'.timers ≡ db.timers

  -- The task has been replaced by its next attempt, and nothing else has changed.
  pub record PutBack (visible : Time) (task : Task) (db db' : Db) : Type 0 where
    pub tasks : db'.tasks ≡ other_tasks db ++ next_attempt task visible db ∷ []
    pub history : db'.events ≡ db.events
    pub executions : db'.executions ≡ db.executions
    pub timers : db'.timers ≡ db.timers

  pub activity_completed-Recorded :
      (now : Time) (result : Bytes) (task : Task) (exec : WorkflowExecution) (db : Db)
      → find (is_execution wid rid) db.executions ≡ some exec
      → Recorded "ActivityCompleted"
          (stored result)
          now
          task
          exec
          db
          (activity_completed now id wid rid result task exec db)
  unfolding activity_completed insert_event_row insert_task_row delete_task_rows
  activity_completed-Recorded now result task exec db found = record {
    history = rw (next_id_of-length wid rid db) (
        ap
          (λ b.
            db.events
            ++ record (outcome_event "ActivityCompleted" none now task db) { event_data = b } ∷ [])
          (non_nil-stored result));
    tasks =
        let own =
          own_execution wid rid exec (find-test (is_execution wid rid) db.executions found) in
        rw (next_id_of-length wid rid db, own.0, own.1) refl;
    executions = refl;
    timers = refl;
  }

  pub activity_failed-Recorded :
      (now : Time) (text : String) (task : Task) (exec : WorkflowExecution) (db : Db)
      → Recorded "ActivityFailed"
          (some (utf8 text))
          now
          task
          exec
          db
          (activity_failed now id wid rid text task exec db)
  unfolding activity_failed insert_event_row insert_task_row delete_task_rows
  activity_failed-Recorded now text task exec db = record {
    history = rw (next_id_of-length wid rid db) refl;
    tasks = rw (next_id_of-length wid rid db) refl;
    executions = refl;
    timers = refl;
  }

  pub activity_retried-PutBack :
      (visible : Time) (task : Task) (db : Db)
      → PutBack visible task db (activity_retried id task visible db)
  unfolding activity_retried insert_task_row delete_task_rows
  activity_retried-PutBack visible task db = record {
    tasks = refl;
    history = refl;
    executions = refl;
    timers = refl;
  }
