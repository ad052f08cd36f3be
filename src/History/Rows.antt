-- ===== src/History/Rows.antt =====
-- The rows that internal/history/history.go writes: its struct literals, by what they stand for.
use my_temp.Common.{ℕ, ◌+◌, ◌*◌, String, List, some, int32, int64, length}
use my_temp.Common.Int.{◌+ℤ◌, of_int64}
use my_temp.Common.Text.{utf8}
use my_temp.Persistence.Types.{Bytes, Time, WorkflowExecution, Event, Task, Timer}
use my_temp.History.Types.{Command, zero_execution, zero_event, zero_task, zero_timer}

-- `int64(len(events)) + 1`
abbrev pub next_event_id : List Event → ℕ
next_event_id events = int64 (length events + 1)

module _ (workflow_id run_id : String) where
  abbrev pub started_execution : String → String → WorkflowExecution
  started_execution workflow_type task_queue = record zero_execution {
    workflow_id = workflow_id;
    run_id = run_id;
    workflow_type = workflow_type;
    task_queue = task_queue;
    status = "Running";
  }

  abbrev pub workflow_started_event : Bytes → Event
  workflow_started_event input = record zero_event {
    workflow_id = workflow_id;
    run_id = run_id;
    event_id = 1;
    event_type = "WorkflowStarted";
    activity_name = "";
    event_data = input;
  }

  abbrev pub first_workflow_task : String → String → Bytes → Task
  first_workflow_task workflow_type task_queue input = record zero_task {
    task_queue = task_queue;
    task_type = "workflow";
    workflow_type = workflow_type;
    workflow_id = workflow_id;
    run_id = run_id;
    scheduled_event_id = 1;
    input = input;
  }

  abbrev pub activity_scheduled_event : ℕ → Command → Event
  activity_scheduled_event id cmd = record zero_event {
    workflow_id = workflow_id;
    run_id = run_id;
    event_id = id;
    event_type = "ActivityScheduled";
    activity_name = cmd.activity_name;
    activity_index = cmd.activity_index;
    event_data = cmd.input;
  }

  abbrev pub activity_task : WorkflowExecution → ℕ → ℕ → Command → Task
  activity_task exec id max_attempts cmd = record zero_task {
    task_queue = cmd.task_queue;
    task_type = "activity";
    workflow_type = exec.workflow_type;
    workflow_id = workflow_id;
    run_id = run_id;
    scheduled_event_id = id;
    activity_name = cmd.activity_name;
    activity_index = cmd.activity_index;
    attempt = 1;
    max_attempts = max_attempts;
    input = cmd.input;
  }

  abbrev pub timer_started_event : ℕ → Command → Event
  timer_started_event id cmd = record zero_event {
    workflow_id = workflow_id;
    run_id = run_id;
    event_id = id;
    event_type = "TimerStarted";
    timer_index = cmd.timer_index;
  }

  -- `FireAt` is `time.Now().Add(time.Duration(cmd.DurationMs) * time.Millisecond)`.
  abbrev pub started_timer : Time → Command → Timer
  started_timer now cmd = record zero_timer {
    workflow_id = workflow_id;
    run_id = run_id;
    timer_index = cmd.timer_index;
    fire_at = now +ℤ of_int64 (int64 (cmd.duration_ms * 1000000));
  }

  abbrev pub workflow_completed_event : ℕ → Command → Event
  workflow_completed_event id cmd = record zero_event {
    workflow_id = workflow_id;
    run_id = run_id;
    event_id = id;
    event_type = "WorkflowCompleted";
    event_data = cmd.input;
  }

  abbrev pub workflow_failed_event : ℕ → Command → Event
  workflow_failed_event id cmd = record zero_event {
    workflow_id = workflow_id;
    run_id = run_id;
    event_id = id;
    event_type = "WorkflowFailed";
    activity_name = cmd.activity_name;
    event_data = cmd.input;
  }

  abbrev pub activity_completed_event : ℕ → Task → Bytes → Event
  activity_completed_event id task result = record zero_event {
    workflow_id = workflow_id;
    run_id = run_id;
    event_id = id;
    event_type = "ActivityCompleted";
    activity_name = task.activity_name;
    activity_index = task.activity_index;
    event_data = result;
  }

  abbrev pub activity_failed_event : ℕ → Task → String → Event
  activity_failed_event id task err_msg = record zero_event {
    workflow_id = workflow_id;
    run_id = run_id;
    event_id = id;
    event_type = "ActivityFailed";
    activity_name = task.activity_name;
    activity_index = task.activity_index;
    event_data = some (utf8 err_msg);
  }

  abbrev pub timer_fired_event : ℕ → Timer → Event
  timer_fired_event id timer = record zero_event {
    workflow_id = workflow_id;
    run_id = run_id;
    event_id = id;
    event_type = "TimerFired";
    timer_index = timer.timer_index;
  }

  abbrev pub signal_received_event : ℕ → String → Bytes → Event
  signal_received_event id signal_name input = record zero_event {
    workflow_id = workflow_id;
    run_id = run_id;
    event_id = id;
    event_type = "SignalReceived";
    signal_name = signal_name;
    event_data = input;
  }

  -- The task that lets a worker replay the run after something has happened to it.
  abbrev pub replay_task : WorkflowExecution → ℕ → Task
  replay_task exec id = record zero_task {
    task_queue = exec.task_queue;
    task_type = "workflow";
    workflow_type = exec.workflow_type;
    workflow_id = workflow_id;
    run_id = run_id;
    scheduled_event_id = id;
  }

-- The next attempt of an activity, for the same scheduling event.
abbrev pub retry_task : Task → Time → Task
retry_task task visible = record zero_task {
  task_queue = task.task_queue;
  task_type = "activity";
  workflow_type = task.workflow_type;
  workflow_id = task.workflow_id;
  run_id = task.run_id;
  scheduled_event_id = task.scheduled_event_id;
  activity_name = task.activity_name;
  activity_index = task.activity_index;
  input = task.input;
  attempt = int32 (task.attempt + 1);
  max_attempts = task.max_attempts;
  visibility_time = visible;
}
