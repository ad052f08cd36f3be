-- ===== src/Sdk/Worker.antt =====
-- `executeWorkflowTask` and `executeActivityTask` of sdk/worker.go: the request that a worker answers a
-- task with, or none when it answers nothing. The registered functions, and what reflection and
-- encoding/json make of their arguments and results, are arguments. A workflow function that panics
-- with another value than `ErrPendingActivity` ends the process and is not modelled.
use Prim.Native.String.{◌++◌ as append}
use my_temp.Common.{
  ℕ, String, String_eq, Bool, List, [], ◌∷◌, ◌++◌, Option, none, some, ◌==◌, if◌then◌else◌,
}
use my_temp.Common.Text.{utf8}
use my_temp.Persistence.Types.{Bytes}
use my_temp.Proto.{
  HistoryEvent, Command, zero_command, PollWorkflowTaskResponse, PollActivityTaskResponse,
  RespondWorkflowTaskCompletedRequest, RespondActivityTaskCompletedRequest,
  RespondActivityTaskFailedRequest,
}
use my_temp.Sdk.Context.{new_context, is_empty}
use my_temp.Sdk.Workflow.{Workflow, Ending, paused, returned, replay}
pub mod Paused

pub record WorkflowFunction : Type 0 where
  -- The error of `json.Unmarshal` for the type of the input.
  pub input_error : Bytes → Option String
  pub body : Bytes → Workflow

-- The data of the first `WorkflowStarted` event.
unfoldable pub input_bytes : List HistoryEvent → Bytes
input_bytes [] = none
input_bytes (e ∷ es) =
    let rest = input_bytes es in if e.event_type == "WorkflowStarted" then e.event_data else rest

abbrev pub closing : Ending → List Command → List Command
closing paused cmds = cmds
closing (returned (some text)) cmds =
    cmds ++ record zero_command { type = "FailWorkflow"; input = some (utf8 text) } ∷ []
closing (returned none) cmds = cmds ++ record zero_command { type = "CompleteWorkflow" } ∷ []

abbrev pub unreadable : (Bytes → Option String) → Bytes → Option String
unreadable error bytes = if is_empty bytes then none else error bytes

module _ (json : Bytes → Option String) (queue : String) (task : PollWorkflowTaskResponse) where
  abbrev pub answer_with : List Command → RespondWorkflowTaskCompletedRequest
  answer_with cmds = record {
    task_id = task.task_id;
    workflow_id = task.workflow_id;
    run_id = task.run_id;
    commands = cmds;
  }

  unfoldable pub run_workflow : WorkflowFunction → RespondWorkflowTaskCompletedRequest
  run_workflow fn =
      let (ending, c) =
        replay json (fn.body (input_bytes task.history)) (new_context task.history queue) in
      answer_with (closing ending c.commands)

  abbrev pub run_readable :
      WorkflowFunction → Option String → Option RespondWorkflowTaskCompletedRequest
  run_readable fn (some text) = none
  run_readable fn none = some (run_workflow fn)

  abbrev pub run_registered : Option WorkflowFunction → Option RespondWorkflowTaskCompletedRequest
  run_registered none = none
  run_registered (some fn) = run_readable fn (unreadable fn.input_error (input_bytes task.history))

  unfoldable pub execute_workflow_task :
      (String → Option WorkflowFunction) → Option RespondWorkflowTaskCompletedRequest
  execute_workflow_task functions = run_registered (functions task.workflow_type)

-- What a call of an activity function comes to.
pub data ActivityRun : Type 0 where
  panicked : String → ActivityRun
  failed : String → ActivityRun
  finished : Bytes → ActivityRun
  -- The result cannot be marshalled.
  unmarshalable : String → ActivityRun

pub record ActivityFunction : Type 0 where
  pub input_error : Bytes → Option String
  pub call : Bytes → ActivityRun

pub data ActivityReply : Type 0 where
  success : RespondActivityTaskCompletedRequest → ActivityReply
  failure_reply : RespondActivityTaskFailedRequest → ActivityReply

module _ (task : PollActivityTaskResponse) where
  abbrev report_activity_success : Bytes → ActivityReply
  report_activity_success result = success (record {
    task_id = task.task_id;
    workflow_id = task.workflow_id;
    run_id = task.run_id;
    result = result;
  })

  abbrev report_activity_failure : String → ActivityReply
  report_activity_failure text = failure_reply (record {
    task_id = task.task_id;
    workflow_id = task.workflow_id;
    run_id = task.run_id;
    error = text;
  })

  abbrev pub report_run : ActivityRun → ActivityReply
  report_run (panicked text) = report_activity_failure (append "activity panicked: " text)
  report_run (failed text) = report_activity_failure text
  report_run (finished result) = report_activity_success result
  report_run (unmarshalable text) =
      report_activity_failure (append "marshal activity result: " text)

  unfoldable pub execute_activity_task : (String → Option ActivityFunction) → Option ActivityReply
  execute_activity_task functions = elim (functions task.activity_name) [
    | none ↦ none
    | some fn ↦ elim (unreadable fn.input_error task.input) [
      | some text ↦ some (
          report_activity_failure
            (append "unmarshal activity input (" (append task.activity_name (append "): " text))))
      | none ↦ some (report_run (fn.call task.input))
    ]
  ]
