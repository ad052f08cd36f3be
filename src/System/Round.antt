-- ===== src/System/Round.antt =====
-- A round of `executeWorkflowTask` of sdk/worker.go and `CompleteWorkflowTask` of
-- internal/history/history.go.
use my_temp.Common.{
  keep, ◌+◌, ◌<◌, ◌^◌, String, String_eq, ℕ_eq, ◌==◌, false, ◌≡◌, ap, sym, ◌∙◌, subst, List, [],
  Option, none, some, length,
}
use my_temp.Persistence.Types.{Bytes}
use my_temp.Persistence.Tables.{is_event_of, events_of, order_by_event_id}
use my_temp.Persistence.Session.{Env, World, ok}
use my_temp.Proto.{PollTaskRequest, PollWorkflowTaskResponse}
use my_temp.Frontend.{poll_workflow_task_rpc, marshal_events}
use my_temp.Engine.{Call, workflow_task_completed, poll_workflow, perform, run, boot}
use my_temp.Sdk.Workflow.{paused}
use my_temp.Sdk.Worker.{
  WorkflowFunction, input_bytes, unreadable, answer_with, run_workflow, execute_workflow_task,
}
use my_temp.Journal.{rows_of}
use my_temp.Journal.Order.{length-order_by_event_id}
use my_temp.Journal.Grown.{Fits}
use my_temp.Journal.Calls.{Sound, perform-Sound, run-Sound, poll_workflow-events}
use my_temp.System.Polls.{Carries, poll_workflow_task_rpc-Carries, poll_is_a_call}
use my_temp.System.Recorded.{round-RecordedBy, again_waits, Runs, first}

-- A second task of a run is harmless. At some moment of an engine's life a worker polls and is given a
-- task of a run that is running; its workflow function pauses; the engine takes its answer without an
-- error; and the next poll gives a task of the same run again, before anything else has come. Then the
-- worker answers that task with no command at all: what the engine has recorded is exactly what the
-- function would ask for. The function must be registered and able to read its input, and the number
-- of the run's events and one more must fit into an int64.
pub second_task_is_harmless :
    (json : Bytes → Option String) (queue : String) (functions : String → Option WorkflowFunction)
    (fn : WorkflowFunction) (cs : List (Env × Call)) (env₁ env₂ env₃ : Env)
    (poll₁ poll₃ : PollTaskRequest) (task again : PollWorkflowTaskResponse) (w₁ w₂ w₃ : World)
    → poll_workflow_task_rpc env₁ poll₁ (run boot cs) ≡ (ok task, w₁)
    → (task.task_id == 0) ≡ false
    → Runs task.workflow_id task.run_id w₁
    → functions task.workflow_type ≡ some fn
    → unreadable fn.input_error (input_bytes task.history) ≡ none
    → (first json queue task fn).0 ≡ paused
    → perform env₂ (workflow_task_completed (run_workflow json queue task fn)) w₁ ≡ (ok tt, w₂)
    → poll_workflow_task_rpc env₃ poll₃ w₂ ≡ (ok again, w₃)
    → (again.task_id == 0) ≡ false
    → again.workflow_id ≡ task.workflow_id
    → again.run_id ≡ task.run_id
    → again.workflow_type ≡ task.workflow_type
    → length (events_of task.workflow_id task.run_id w₃.db) + 1 < 2 ^ 64
    → execute_workflow_task json queue again functions ≡ some (answer_with json queue again [])
unfolding events_of
second_task_is_harmless json queue functions fn cs env₁ env₂ env₃ poll₁ poll₃ task again w₁ w₂ w₃
      polled given runs registered readable waits completed polled' given' same_id same_run
      same_type fits =
    let sound : Sound w₁ =
      subst Sound (poll_is_a_call env₁ poll₁ (run boot cs) w₁ task polled)
        (perform-Sound env₁ (poll_workflow poll₁) (run boot cs) (run-Sound cs)) in
    let carries = poll_workflow_task_rpc-Carries env₁ poll₁ (run boot cs) w₁ task polled given in
    let carries' = poll_workflow_task_rpc-Carries env₃ poll₃ w₂ w₃ again polled' given' in
    let events : w₃.db.events ≡ w₂.db.events =
      ap (λ w. w.db.events) (sym (poll_is_a_call env₃ poll₃ w₂ w₃ again polled'))
      ∙ poll_workflow-events task.workflow_id task.run_id env₃ poll₃ w₂ in
    let ids = ap (keep (is_event_of task.workflow_id task.run_id)) events in
    let count = length-order_by_event_id (rows_of task.workflow_id task.run_id w₃.db) in
    let few : Fits (rows_of task.workflow_id task.run_id w₂.db) =
      subst Fits ids (subst (λ n. n + 1 < 2 ^ 64) count fits) in
    let carries₂ : Carries again w₂ = record {
      history =
          carries'.history
          ∙ ap
              (λ l.
                marshal_events
                  (order_by_event_id (keep (is_event_of again.workflow_id again.run_id) l)))
              events;
    } in
    again_waits json queue task fn functions registered readable waits again w₂ same_id same_run
      same_type carries₂
      (round-RecordedBy json queue task fn functions registered readable waits env₂ w₁ w₂ carries
        sound runs completed few)
