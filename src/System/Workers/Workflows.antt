-- ===== src/System/Workers/Workflows.antt =====
-- A turn of `pollWorkflowTasks` of sdk/worker.go.
use my_temp.Common.{
  List, [], ◌∷◌, ◌++◌, ◌≡◌, refl, ap, sym, ◌∙◌, subst, Option, none, some, ◌⊎◌, inl, inr, String,
  String_eq, Bool-cases, Option-cases, ◌==◌, ℕ_eq,
}
use my_temp.Common.Text.{utf8}
use my_temp.Persistence.Types.{Bytes}
use my_temp.Persistence.Session.{Env, World, ◌>>=◌}
use my_temp.Proto.{
  Command, zero_command, PollTaskRequest, PollWorkflowTaskResponse,
  RespondWorkflowTaskCompletedRequest,
}
use my_temp.Frontend.{Reply, response, status_error, poll_workflow_task_rpc, served}
use my_temp.Sdk.Client.{connected, poll_workflow_task}
use my_temp.Sdk.Context.{Context, new_context}
use my_temp.Sdk.Workflow.{Ending, paused, returned, replay}
use my_temp.Sdk.Registry.{Worker}
use my_temp.Sdk.Worker.{
  WorkflowFunction, unreadable, input_bytes, answer_with, closing, execute_workflow_task,
  run_workflow,
}
use my_temp.Sdk.Loops.{send_answer, on_workflow_task, workflow_turn}
use my_temp.Engine.{Call, poll_workflow, workflow_task_completed, perform, run}
use my_temp.System.Reaches.{reply-world, served-discard}
use my_temp.System.Workers.{all_in}

module _ (json : Bytes → Option String) (worker : Worker) (task : PollWorkflowTaskResponse) where
  abbrev pub answers : List Command → List Call
  answers cmds =
      workflow_task_completed (record {
        task_id = task.task_id;
        workflow_id = task.workflow_id;
        run_id = task.run_id;
        commands = cmds;
      })
      ∷ []

  -- The function of the task, run on the input and the history, comes to this end.
  abbrev pub Played : WorkflowFunction → Ending → Context → Type 0
  Played fn ending c =
      (worker.workflow_functions task.workflow_type ≡ some fn)
      × (unreadable fn.input_error (input_bytes task.history) ≡ none)
      × (replay json (fn.body (input_bytes task.history)) (new_context task.history worker.queue)
          ≡ (ending, c))

  -- The calls by which a worker answers a workflow task.
  pub data WorkflowAnswer : List Call → Type 0 where
    not_registered : worker.workflow_functions task.workflow_type ≡ none → WorkflowAnswer []
    bad_input :
        (fn : WorkflowFunction) (text : String)
        → worker.workflow_functions task.workflow_type ≡ some fn
        → unreadable fn.input_error (input_bytes task.history) ≡ some text
        → WorkflowAnswer []
    waits :
        (fn : WorkflowFunction) (c : Context)
        → Played fn paused c
        → WorkflowAnswer (answers c.commands)
    completes :
        (fn : WorkflowFunction) (c : Context)
        → Played fn (returned none) c
        → WorkflowAnswer
            (answers (c.commands ++ record zero_command { type = "CompleteWorkflow" } ∷ []))
    fails :
        (fn : WorkflowFunction) (c : Context) (text : String)
        → Played fn (returned (some text)) c
        → WorkflowAnswer (
            answers (
              c.commands
              ++ record zero_command { type = "FailWorkflow"; input = some (utf8 text) } ∷ []))

-- After the reply to a poll: no calls without a task, and else the answer to it.
abbrev pub AfterWorkflowPoll :
    (Bytes → Option String) → Worker → Reply PollWorkflowTaskResponse → List Call → Type 0
AfterWorkflowPoll json worker (status_error s) calls = calls ≡ []
AfterWorkflowPoll json worker (response task) calls =
    ((task.task_id ≡ 0) × (calls ≡ []))
    ⊎ (¬ (task.task_id ≡ 0) × WorkflowAnswer json worker task calls)

module _ (json : Bytes → Option String) (worker : Worker) (env : Env) where
  abbrev Answered : PollWorkflowTaskResponse → World → World → Type 0
  Answered task w w' =
      (calls : List Call) × WorkflowAnswer json worker task calls × (w' ≡ run w (all_in env calls))

  abbrev closed :
      PollWorkflowTaskResponse → Ending × Context → Option RespondWorkflowTaskCompletedRequest
  closed task (ending, c) = some (answer_with json worker.queue task (closing ending c.commands))

  ends-Answered :
      (task : PollWorkflowTaskResponse) (w : World) (fn : WorkflowFunction) (r : Ending × Context)
      → Played json worker task fn r.0 r.1
      → Answered task w (send_answer json worker (connected env) (closed task r) w)
  unfolding connected served perform run
  ends-Answered task w fn (paused, c) h = (_, waits fn c h, reply-world _)
  ends-Answered task w fn (returned none, c) h = (_, completes fn c h, reply-world _)
  ends-Answered task w fn (returned (some text), c) h = (_, fails fn c text h, reply-world _)

  executed-Answered :
      (task : PollWorkflowTaskResponse) (w : World)
      → Answered task w (
          send_answer json worker
            (connected env)
            (execute_workflow_task json worker.queue task worker.workflow_functions)
            w)
  unfolding run_workflow run execute_workflow_task
  executed-Answered task w = elim (Option-cases (worker.workflow_functions task.workflow_type)) [
    | inl unknown ↦
        sent none (rw (execute_workflow_task, unknown) refl) ([], not_registered unknown, refl)
    | inr (fn, known) ↦ elim (Option-cases (unreadable fn.input_error (input_bytes task.history))) [
      | inl readable ↦
          let r =
            replay json (fn.body (input_bytes task.history))
              (new_context task.history worker.queue) in
          sent (closed task r) (rw (execute_workflow_task, known, readable) refl)
            (ends-Answered task w fn r (known, readable, refl))
      | inr (text, bad) ↦
          sent none (rw (execute_workflow_task, known, bad) refl)
            ([], bad_input fn text known bad, refl)
    ]
  ]
    where
      sent :
          (o : Option RespondWorkflowTaskCompletedRequest)
          → execute_workflow_task json worker.queue task worker.workflow_functions ≡ o
          → Answered task w (send_answer json worker (connected env) o w)
          → Answered task w (
              send_answer json worker
                (connected env)
                (execute_workflow_task json worker.queue task worker.workflow_functions)
                w)
      sent o e h =
          subst (λ o. Answered task w (send_answer json worker (connected env) o w)) (sym e) h

  abbrev After : Reply PollWorkflowTaskResponse × World → World → Type 0
  After r w' =
      (calls : List Call) × AfterWorkflowPoll json worker r.0 calls
      × (w' ≡ run r.1 (all_in env calls))

  on_workflow_task-After :
      (r : Reply PollWorkflowTaskResponse × World)
      → After r (on_workflow_task json worker (connected env) r)
  unfolding run
  on_workflow_task-After (status_error s, w) = ([], refl, refl)
  on_workflow_task-After (response task, w) = elim (Bool-cases (task.task_id == 0)) [
    | inl none_given ↦
        rw none_given ([], inl ((ℕ_eq.beq_iff task.task_id 0).0 none_given, refl), refl)
    | inr given ↦
        let answered = executed-Answered task w in
        rw given (
          answered.0,
          inr (λ e. absurd (cc ((ℕ_eq.beq_iff task.task_id 0).1 e, given)), answered.1),
          answered.2,
        )
  ]

  -- One turn of the workflow loop of a worker, over a connection that delivers, makes one poll for its own
  -- queue under its own id. After an error or an answer without a task it makes no other call, and none
  -- for a task whose function it does not know or whose input cannot be read. It answers every other
  -- task exactly once, by the ids of the task: with the commands of the replay over the task's history
  -- when the function waits, and with one more command at the end when it has returned,
  -- `CompleteWorkflow` for no error and `FailWorkflow` with the text of an error.
  pub workflow_turn-AfterWorkflowPoll :
      (w : World)
      → (calls : List Call) × AfterWorkflowPoll json worker
          (poll_workflow_task (connected env) worker.queue worker.id w).0
          calls
        × (workflow_turn json worker (connected env) w
            ≡ run w (
                (env, poll_workflow (record { task_queue = worker.queue; lease_owner = worker.id }))
                ∷ all_in env calls))
  unfolding workflow_turn poll_workflow_task connected perform run served ◌>>=◌
  workflow_turn-AfterWorkflowPoll w =
      let req : PollTaskRequest = record { task_queue = worker.queue; lease_owner = worker.id } in
      let polled = poll_workflow_task (connected env) worker.queue worker.id w in
      let after = on_workflow_task-After polled in
      (
        after.0,
        after.1,
        after.2
            ∙ ap (λ x. run x (all_in env after.0))
                (served-discard (poll_workflow_task_rpc env req w)),
      )
