-- ===== src/History/Types.antt =====
-- internal/history/types.go, and the zero values of the rows that history.go fills in.
use my_temp.Common.{ℕ, String, none, false}
use my_temp.Persistence.Types.{Bytes, WorkflowExecution, Event, Task, Timer, zero_time}

pub record Command : Type 0 where
  pub type : String
  pub activity_name : String
  pub task_queue : String
  pub input : Bytes
  pub activity_index : ℕ
  pub timer_index : ℕ
  pub duration_ms : ℕ

abbrev pub zero_execution : WorkflowExecution
zero_execution = record {
  workflow_id = "";
  run_id = "";
  workflow_type = "";
  task_queue = "";
  status = "";
  started_at = zero_time;
  closed_at = none;
}

abbrev pub zero_event : Event
zero_event = record {
  id = 0;
  workflow_id = "";
  run_id = "";
  event_id = 0;
  event_type = "";
  signal_name = "";
  activity_name = "";
  activity_index = 0;
  timer_index = 0;
  event_data = none;
  created_at = zero_time;
}

abbrev pub zero_task : Task
zero_task = record {
  id = 0;
  task_queue = "";
  task_type = "";
  workflow_type = "";
  workflow_id = "";
  run_id = "";
  scheduled_event_id = 0;
  input = none;
  activity_name = "";
  activity_index = 0;
  attempt = 0;
  max_attempts = 0;
  visibility_time = zero_time;
  lease_owner = none;
  lease_expires_at = none;
}

abbrev pub zero_timer : Timer
zero_timer = record {
  id = 0;
  workflow_id = "";
  run_id = "";
  timer_index = 0;
  fire_at = zero_time;
  fired = false;
}
