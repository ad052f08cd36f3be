-- ===== src/Sdk/Worker/Paused.antt =====
-- `executeWorkflowTask` of sdk/worker.go on a task of a paused workflow that comes again.
use my_temp.Common.{
  ℕ, String, String_eq, ◌≡◌, refl, sym, ap, subst, ◌∙◌, inl, inr, List, [], ◌∷◌, ◌++◌, Option, none,
  some, All,
}
use my_temp.Persistence.Types.{Bytes}
use my_temp.Proto.{HistoryEvent, PollWorkflowTaskResponse}
use my_temp.Sdk.Context.{Context, new_context}
use my_temp.Sdk.Workflow.{Ending, paused, replay}
use my_temp.Sdk.Lookups.{IsScheduling, Recorded}
use my_temp.Sdk.Idempotent.{replay_idempotent}
use my_temp.Sdk.Worker.{
  WorkflowFunction, input_bytes, closing, unreadable, answer_with, run_workflow,
  execute_workflow_task,
}

input_bytes-none : (es : List HistoryEvent) → All IsScheduling es → input_bytes es ≡ none
unfolding input_bytes
input_bytes-none [] h = refl
input_bytes-none (e ∷ es) (inl k, h) = rw k (input_bytes-none es h)
input_bytes-none (e ∷ es) (inr k, h) = rw k (input_bytes-none es h)

input_bytes-append :
    (h es : List HistoryEvent) → All IsScheduling es → input_bytes (h ++ es) ≡ input_bytes h
unfolding input_bytes
input_bytes-append [] es s = input_bytes-none es s
input_bytes-append (e ∷ h) es s = rw (input_bytes-append h es s) refl

closed : (r : Ending × Context) → r.0 ≡ paused → r.1.commands ≡ [] → closing r.0 r.1.commands ≡ []
closed r e e' = rw (e, e') refl

module _ (json : Bytes → Option String) (queue : String) (task : PollWorkflowTaskResponse)
    (fn : WorkflowFunction) where
  abbrev first : Ending × Context
  first = replay json (fn.body (input_bytes task.history)) (new_context task.history queue)

  abbrev grown : ℕ → List HistoryEvent → PollWorkflowTaskResponse
  grown id events = record task { task_id = id; history = task.history ++ events }

  second_run :
      (id : ℕ) (events : List HistoryEvent)
      → first.0 ≡ paused
      → All IsScheduling events
      → All (Recorded (task.history ++ events)) first.1.commands
      → run_workflow json queue (grown id events) fn ≡ answer_with json queue (grown id events) []
  unfolding run_workflow
  second_run id events stops only recorded =
      let same = input_bytes-append task.history events only in
      let agrees =
        replay_idempotent json (fn.body (input_bytes task.history)) task.history events queue only
          recorded in
      subst
        (λ bytes.
          let r = replay json (fn.body bytes) (new_context (task.history ++ events) queue) in
          answer_with json queue (grown id events) (closing r.0 r.1.commands)
          ≡ answer_with json queue (grown id events) [])
        (sym same)
        (ap (answer_with json queue (grown id events)) (
          closed
            (replay json (fn.body (input_bytes task.history))
              (new_context (task.history ++ events) queue))
            (agrees.0 ∙ stops) agrees.1))

  -- Suppose that a worker's replay of a task has paused, and that the history has then grown by events
  -- that only say that activities were scheduled or timers started, among them one for each command
  -- of the replay. Then the worker answers a task of the run with that history by no command at all,
  -- whatever the id of the task is, if the function is registered and can read its input.
  pub paused_worker_is_idempotent :
      (functions : String → Option WorkflowFunction) (id : ℕ) (events : List HistoryEvent)
      → functions task.workflow_type ≡ some fn
      → unreadable fn.input_error (input_bytes task.history) ≡ none
      → first.0 ≡ paused
      → All IsScheduling events
      → All (Recorded (task.history ++ events)) first.1.commands
      → execute_workflow_task json queue (grown id events) functions
        ≡ some (answer_with json queue (grown id events) [])
  unfolding execute_workflow_task
  paused_worker_is_idempotent functions id events registered readable stops only recorded =
      rw (registered, input_bytes-append task.history events only, readable)
        (ap some (second_run id events stops only recorded))
