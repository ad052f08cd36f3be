-- ===== src/Frontend.antt =====
-- internal/frontend/grpc/handler.go: one function for each RPC. Its result is the response, or the
-- status of the error; the log lines are left out.
pub mod Errors
pub mod Replies
pub mod Logging
use my_temp.Common.{ℕ, ◌+◌, String, List, [], ◌∷◌, Option, none, some, map}
use my_temp.Metrics.{Metrics}
use my_temp.Persistence.Types.{Event, Task}
use my_temp.Persistence.Session.{Env, World, Result, ok, err, M, pure, ◌>>=◌, ◌>>◌, count}
use my_temp.Persistence.{poll_task, get_events}
use my_temp.History.Types.{Command}
use my_temp.History.Start.{start_workflow}
use my_temp.History.WorkflowTask.{complete_workflow_task}
use my_temp.History.ActivityTask.{complete_activity_task, fail_activity_task}
use my_temp.History.Signal.{signal_workflow}
use my_temp.Proto
use my_temp.Proto.{
  StartWorkflowRequest, StartWorkflowResponse, PollTaskRequest, PollWorkflowTaskResponse,
  PollActivityTaskResponse, RespondWorkflowTaskCompletedRequest,
  RespondActivityTaskCompletedRequest, RespondActivityTaskFailedRequest, SignalWorkflowRequest,
  HistoryEvent, no_workflow_task, no_activity_task,
}
use Errors.{Status, to_status}

pub data Reply (A : Type 0) : Type 0 where
  response : A → Reply A
  status_error : Status → Reply A

abbrev pub reply_of : {A : Type 0} → Result A × World → Reply A × World
reply_of (ok a, w) = (response a, w)
reply_of (err e, w) = (status_error (to_status e), w)

unfoldable pub unmarshal_command : Proto.Command → Command
unmarshal_command c = record {
  type = c.type;
  activity_name = c.activity_name;
  task_queue = c.task_queue;
  input = c.input;
  activity_index = c.activity_index;
  timer_index = c.timer_index;
  duration_ms = c.duration_ms;
}

unfoldable pub unmarshal_commands : List Proto.Command → List Command
unfolding unmarshal_command
unmarshal_commands = map unmarshal_command

unfoldable pub marshal_event : Event → HistoryEvent
marshal_event e = record {
  event_id = e.event_id;
  event_type = e.event_type;
  activity_name = e.activity_name;
  activity_index = e.activity_index;
  event_data = e.event_data;
  timer_index = e.timer_index;
  signal_name = e.signal_name;
}

unfoldable pub marshal_events : List Event → List HistoryEvent
unfolding marshal_event
marshal_events = map marshal_event

module _ (env : Env) where
  -- The handlers as actions; `served` below turns their errors into statuses.
  unfoldable pub start_workflow_rpc : StartWorkflowRequest → M StartWorkflowResponse
  start_workflow_rpc req = do
    run_id ← start_workflow env req.workflow_id req.workflow_type req.task_queue req.input
    pure (record { run_id = run_id })

  -- A hit is counted when the task has been leased, before its history is read.
  abbrev pub answer_workflow_poll : Option Task → M PollWorkflowTaskResponse
  answer_workflow_poll none =
      count (λ m. record m { workflow_misses = m.workflow_misses + 1 }) >> pure no_workflow_task
  answer_workflow_poll (some task) =
      count (λ m. record m { workflow_hits = m.workflow_hits + 1 })
      >> (get_events env task.workflow_id task.run_id >>= λ events. pure (record {
        task_id = task.id;
        workflow_id = task.workflow_id;
        run_id = task.run_id;
        workflow_type = task.workflow_type;
        history = marshal_events events;
      }))

  unfoldable pub poll_workflow_task_rpc : PollTaskRequest → M PollWorkflowTaskResponse
  poll_workflow_task_rpc req =
      poll_task env req.task_queue "workflow" req.lease_owner >>= answer_workflow_poll

  unfoldable pub respond_workflow_task_completed_rpc :
      RespondWorkflowTaskCompletedRequest → M (Unit {0})
  respond_workflow_task_completed_rpc req =
      complete_workflow_task env req.task_id req.workflow_id req.run_id
        (unmarshal_commands req.commands)

  abbrev pub answer_activity_poll : Option Task → M PollActivityTaskResponse
  answer_activity_poll none =
      count (λ m. record m { activity_misses = m.activity_misses + 1 }) >> pure no_activity_task
  answer_activity_poll (some task) =
      count (λ m. record m { activity_hits = m.activity_hits + 1 })
      >> pure (record {
        task_id = task.id;
        workflow_id = task.workflow_id;
        run_id = task.run_id;
        activity_name = task.activity_name;
        input = task.input;
      })

  unfoldable pub poll_activity_task_rpc : PollTaskRequest → M PollActivityTaskResponse
  poll_activity_task_rpc req =
      poll_task env req.task_queue "activity" req.lease_owner >>= answer_activity_poll

  unfoldable pub respond_activity_task_completed_rpc :
      RespondActivityTaskCompletedRequest → M (Unit {0})
  respond_activity_task_completed_rpc req =
      complete_activity_task env req.task_id req.workflow_id req.run_id req.result

  unfoldable pub respond_activity_task_failed_rpc : RespondActivityTaskFailedRequest → M (Unit {0})
  respond_activity_task_failed_rpc req =
      fail_activity_task env req.task_id req.workflow_id req.run_id req.error

  unfoldable pub signal_workflow_rpc : SignalWorkflowRequest → M (Unit {0})
  signal_workflow_rpc req = signal_workflow env req.workflow_id req.run_id req.signal_name req.input

-- `return nil, toStatus(err)`.
unfoldable pub served : {A : Type 0} → M A → World → Reply A × World
served m w = reply_of (m w)
