-- ===== src/Sdk/Loops.antt =====
-- `Run`, `pollWorkflowTasks` and `pollActivityTasks` of sdk/worker.go. A loop is driven by the list of
-- what its `select` finds: that the context is done, or not yet; in a turn the stub says what the calls
-- to the engine do. Sleeping and logging are left out.
use my_temp.Common.{
  ℕ_eq, ◌==◌, Bool, true, false, List, [], ◌∷◌, Option, none, some, if◌then◌else◌, String,
}
use my_temp.Persistence.Types.{Bytes}
use my_temp.Persistence.Session.{World}
use my_temp.Proto.{
  PollWorkflowTaskResponse, PollActivityTaskResponse, RespondWorkflowTaskCompletedRequest,
}
use my_temp.Frontend.{Reply, response, status_error}
use my_temp.Sdk.Client.{
  EngineServiceClient, poll_workflow_task, poll_activity_task, respond_activity_task_completed,
  respond_activity_task_failed,
}
use my_temp.Sdk.Worker.{
  execute_workflow_task, execute_activity_task, ActivityReply, success, failure_reply,
}
use my_temp.Sdk.Registry.{Worker}

pub data Turn : Type 0 where
  done : Turn
  turn : EngineServiceClient → Turn

module _ (json : Bytes → Option String) (worker : Worker) (engine : EngineServiceClient) where
  abbrev pub send_answer : Option RespondWorkflowTaskCompletedRequest → World → World
  send_answer none w = w
  send_answer (some req) w = (engine.respond_workflow_task_completed_call req w).1

  -- `err != nil || resp.TaskId == 0`, or else the task is executed.
  abbrev pub on_workflow_task : Reply PollWorkflowTaskResponse × World → World
  on_workflow_task (status_error s, w) = w
  on_workflow_task (response task, w) =
      if task.task_id == 0
      then w
      else send_answer (execute_workflow_task json worker.queue task worker.workflow_functions) w

  unfoldable pub workflow_turn : World → World
  workflow_turn w = on_workflow_task (poll_workflow_task engine worker.queue worker.id w)

  abbrev pub send_reply : Option ActivityReply → World → World
  send_reply none w = w
  send_reply (some (success r)) w =
      (respond_activity_task_completed engine r.task_id r.workflow_id r.run_id r.result w).1
  send_reply (some (failure_reply r)) w =
      (respond_activity_task_failed engine r.task_id r.workflow_id r.run_id r.error w).1

  abbrev pub on_activity_task : Reply PollActivityTaskResponse × World → World
  on_activity_task (status_error s, w) = w
  on_activity_task (response task, w) =
      if task.task_id == 0
      then w
      else send_reply (execute_activity_task task worker.activity_functions) w

  unfoldable pub activity_turn : World → World
  activity_turn w = on_activity_task (poll_activity_task engine worker.queue worker.id w)

-- `for { select { ... } }`; `none` while the loop goes on.
unfoldable pub until_done : (EngineServiceClient → World → World) → List Turn → World → Option World
until_done body [] w = none
until_done body (done ∷ turns) w = some w
until_done body (turn engine ∷ turns) w = until_done body turns (body engine w)

unfoldable pub poll_workflow_tasks :
    (Bytes → Option String) → Worker → List Turn → World → Option World
poll_workflow_tasks json worker = until_done (workflow_turn json worker)

unfoldable pub poll_activity_tasks :
    (Bytes → Option String) → Worker → List Turn → World → Option World
poll_activity_tasks json worker = until_done (activity_turn json worker)

-- The goroutine that runs next.
pub data Wake : Type 0 where
  workflows : Turn → Wake
  activities : Turn → Wake

-- Which of the two loops have returned.
pub record Returned : Type 0 where
  pub workflow_loop : Bool
  pub activity_loop : Bool

abbrev pub none_returned : Returned
none_returned = record { workflow_loop = false; activity_loop = false }

-- `wg.Wait()`
abbrev pub wait : Returned → World → Option World → Option World
wait r w rest = if r.workflow_loop then (if r.activity_loop then some w else rest) else rest

module _ (json : Bytes → Option String) (worker : Worker) where
  -- A goroutine that has returned does not run again.
  abbrev pub wake : Wake → Returned → World → Returned × World
  wake (workflows done) r w = (record r { workflow_loop = true }, w)
  wake (workflows (turn engine)) r w =
      (r, if r.workflow_loop then w else workflow_turn json worker engine w)
  wake (activities done) r w = (record r { activity_loop = true }, w)
  wake (activities (turn engine)) r w =
      (r, if r.activity_loop then w else activity_turn json worker engine w)

  -- The two goroutines in the order in which they run.
  unfoldable pub run_from : List Wake → Returned → World → Option World
  run_from [] r w = wait r w none
  run_from (x ∷ xs) r w = let s = wake x r w in let rest = run_from xs s.0 s.1 in wait r w rest

  unfoldable pub run_worker : List Wake → World → Option World
  run_worker wakes = run_from wakes none_returned
