-- ===== src/Proto.antt =====
-- The messages of proto/engine/v1/EngineService.proto, by their fields in EngineService.pb.go.
-- A request and a response are the arguments and the result of the method that carries them.
use my_temp.Common.{ℕ, String, List, [], none}
use my_temp.Persistence.Types.{Bytes}

pub record StartWorkflowRequest : Type 0 where
  pub workflow_id : String
  pub workflow_type : String
  pub task_queue : String
  pub input : Bytes

pub record StartWorkflowResponse : Type 0 where
  pub run_id : String

pub record PollTaskRequest : Type 0 where
  pub task_queue : String
  pub lease_owner : String

pub record HistoryEvent : Type 0 where
  pub event_id : ℕ
  pub event_type : String
  pub activity_name : String
  pub activity_index : ℕ
  pub event_data : Bytes
  pub timer_index : ℕ
  pub signal_name : String

pub record PollWorkflowTaskResponse : Type 0 where
  pub task_id : ℕ
  pub workflow_id : String
  pub run_id : String
  pub workflow_type : String
  pub history : List HistoryEvent

pub record PollActivityTaskResponse : Type 0 where
  pub task_id : ℕ
  pub workflow_id : String
  pub run_id : String
  pub activity_name : String
  pub input : Bytes

pub record Command : Type 0 where
  pub type : String
  pub activity_name : String
  pub activity_index : ℕ
  pub task_queue : String
  pub input : Bytes
  pub command_data : Bytes
  pub timer_index : ℕ
  pub duration_ms : ℕ

pub record RespondWorkflowTaskCompletedRequest : Type 0 where
  pub task_id : ℕ
  pub workflow_id : String
  pub run_id : String
  pub commands : List Command

pub record RespondActivityTaskCompletedRequest : Type 0 where
  pub task_id : ℕ
  pub workflow_id : String
  pub run_id : String
  pub result : Bytes

pub record RespondActivityTaskFailedRequest : Type 0 where
  pub task_id : ℕ
  pub workflow_id : String
  pub run_id : String
  pub error : String

pub record SignalWorkflowRequest : Type 0 where
  pub workflow_id : String
  pub run_id : String
  pub signal_name : String
  pub input : Bytes

-- The zero values of messages that the source fills in by field names.
abbrev pub zero_command : Command
zero_command = record {
  type = "";
  activity_name = "";
  activity_index = 0;
  task_queue = "";
  input = none;
  command_data = none;
  timer_index = 0;
  duration_ms = 0;
}

abbrev pub no_workflow_task : PollWorkflowTaskResponse
no_workflow_task = record {
  task_id = 0;
  workflow_id = "";
  run_id = "";
  workflow_type = "";
  history = [];
}

abbrev pub no_activity_task : PollActivityTaskResponse
no_activity_task = record {
  task_id = 0;
  workflow_id = "";
  run_id = "";
  activity_name = "";
  input = none;
}
