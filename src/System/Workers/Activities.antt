-- ===== src/System/Workers/Activities.antt =====
-- A turn of `pollActivityTasks` of sdk/worker.go.
use Prim.Native.String.{◌++◌ as append}
use my_temp.Common.{
  List, [], ◌∷◌, ◌≡◌, refl, ap, sym, ◌∙◌, subst, Option, none, some, ◌⊎◌, inl, inr, String,
  String_eq, Bool-cases, Option-cases, ◌==◌, ℕ_eq,
}
use my_temp.Persistence.Types.{Bytes}
use my_temp.Persistence.Session.{Env, World, ◌>>=◌}
use my_temp.Proto.{PollTaskRequest, PollActivityTaskResponse}
use my_temp.Frontend.{Reply, response, status_error, poll_activity_task_rpc, served}
use my_temp.Sdk.Client.{
  connected, poll_activity_task, respond_activity_task_completed, respond_activity_task_failed,
}
use my_temp.Sdk.Registry.{Worker}
use my_temp.Sdk.Worker.{
  ActivityFunction, ActivityRun, ActivityReply, panicked, failed, finished, unmarshalable,
  unreadable, report_run, execute_activity_task, failure_reply,
}
use my_temp.Sdk.Loops.{send_reply, on_activity_task, activity_turn}
use my_temp.Engine.{
  Call, poll_activity, activity_task_completed, activity_task_failed, perform, run,
}
use my_temp.System.Reaches.{reply-world, served-discard}
use my_temp.System.Workers.{all_in}

module _ (worker : Worker) (task : PollActivityTaskResponse) where
  abbrev pub reports_failure : String → List Call
  reports_failure text =
      activity_task_failed (record {
        task_id = task.task_id;
        workflow_id = task.workflow_id;
        run_id = task.run_id;
        error = text;
      })
      ∷ []

  abbrev pub Called : ActivityFunction → ActivityRun → Type 0
  Called fn end =
      (worker.activity_functions task.activity_name ≡ some fn)
      × (unreadable fn.input_error task.input ≡ none)
      × (fn.call task.input ≡ end)

  -- The calls by which a worker reports on an activity task.
  pub data ActivityReport : List Call → Type 0 where
    not_registered : worker.activity_functions task.activity_name ≡ none → ActivityReport []
    bad_input :
        (fn : ActivityFunction) (text : String)
        → worker.activity_functions task.activity_name ≡ some fn
        → unreadable fn.input_error task.input ≡ some text
        → ActivityReport (
            reports_failure
              (append "unmarshal activity input (" (append task.activity_name (append "): " text))))
    has_panicked :
        (fn : ActivityFunction) (text : String)
        → Called fn (panicked text)
        → ActivityReport (reports_failure (append "activity panicked: " text))
    has_failed :
        (fn : ActivityFunction) (text : String)
        → Called fn (failed text)
        → ActivityReport (reports_failure text)
    bad_result :
        (fn : ActivityFunction) (text : String)
        → Called fn (unmarshalable text)
        → ActivityReport (reports_failure (append "marshal activity result: " text))
    has_finished :
        (fn : ActivityFunction) (result : Bytes)
        → Called fn (finished result)
        → ActivityReport (
            activity_task_completed (record {
              task_id = task.task_id;
              workflow_id = task.workflow_id;
              run_id = task.run_id;
              result = result;
            })
            ∷ [])

-- After the reply to a poll: no calls without a task, and else the report on it.
abbrev pub AfterActivityPoll : Worker → Reply PollActivityTaskResponse → List Call → Type 0
AfterActivityPoll worker (status_error s) calls = calls ≡ []
AfterActivityPoll worker (response task) calls =
    ((task.task_id ≡ 0) × (calls ≡ [])) ⊎ (¬ (task.task_id ≡ 0) × ActivityReport worker task calls)

module _ (json : Bytes → Option String) (worker : Worker) (env : Env) where
  abbrev Reported : PollActivityTaskResponse → World → World → Type 0
  Reported task w w' =
      (calls : List Call) × ActivityReport worker task calls × (w' ≡ run w (all_in env calls))

  ends-Reported :
      (task : PollActivityTaskResponse) (w : World) (fn : ActivityFunction) (end : ActivityRun)
      → Called worker task fn end
      → Reported task w (send_reply json worker (connected env) (some (report_run task end)) w)
  unfolding connected respond_activity_task_completed respond_activity_task_failed served perform
      run
  ends-Reported task w fn (panicked text) h = (_, has_panicked fn text h, reply-world _)
  ends-Reported task w fn (failed text) h = (_, has_failed fn text h, reply-world _)
  ends-Reported task w fn (finished result) h = (_, has_finished fn result h, reply-world _)
  ends-Reported task w fn (unmarshalable text) h = (_, bad_result fn text h, reply-world _)

  executed-Reported :
      (task : PollActivityTaskResponse) (w : World)
      → Reported task w (
          send_reply json worker
            (connected env)
            (execute_activity_task task worker.activity_functions)
            w)
  unfolding execute_activity_task connected respond_activity_task_failed served perform run
  executed-Reported task w = elim (Option-cases (worker.activity_functions task.activity_name)) [
    | inl unknown ↦
        sent none (rw (execute_activity_task, unknown) refl) ([], not_registered unknown, refl)
    | inr (fn, known) ↦ elim (Option-cases (unreadable fn.input_error task.input)) [
      | inl readable ↦
          sent (some (report_run task (fn.call task.input)))
            (rw (execute_activity_task, known, readable) refl)
            (ends-Reported task w fn (fn.call task.input) (known, readable, refl))
      | inr (text, bad) ↦
          sent
            (some (
              failure_reply (record {
                task_id = task.task_id;
                workflow_id = task.workflow_id;
                run_id = task.run_id;
                error =
                    append "unmarshal activity input ("
                      (append task.activity_name (append "): " text));
              })))
            (rw (execute_activity_task, known, bad) refl)
            (_, bad_input fn text known bad, reply-world _)
    ]
  ]
    where
      sent :
          (o : Option ActivityReply)
          → execute_activity_task task worker.activity_functions ≡ o
          → Reported task w (send_reply json worker (connected env) o w)
          → Reported task w (
              send_reply json worker
                (connected env)
                (execute_activity_task task worker.activity_functions)
                w)
      sent o e h =
          subst (λ o. Reported task w (send_reply json worker (connected env) o w)) (sym e) h

  abbrev After : Reply PollActivityTaskResponse × World → World → Type 0
  After r w' =
      (calls : List Call) × AfterActivityPoll worker r.0 calls × (w' ≡ run r.1 (all_in env calls))

  on_activity_task-After :
      (r : Reply PollActivityTaskResponse × World)
      → After r (on_activity_task json worker (connected env) r)
  unfolding run
  on_activity_task-After (status_error s, w) = ([], refl, refl)
  on_activity_task-After (response task, w) = elim (Bool-cases (task.task_id == 0)) [
    | inl none_given ↦
        rw none_given ([], inl ((ℕ_eq.beq_iff task.task_id 0).0 none_given, refl), refl)
    | inr given ↦
        let reported = executed-Reported task w in
        rw given (
          reported.0,
          inr (λ e. absurd (cc ((ℕ_eq.beq_iff task.task_id 0).1 e, given)), reported.1),
          reported.2,
        )
  ]

  -- One turn of the activity loop of a worker, over a connection that delivers, makes one poll for its own
  -- queue under its own id. After an error or an answer without a task it makes no other call. For a task
  -- whose function it does not know it makes none; it reports exactly once on every other task, by the
  -- ids of the task: as completed with the result, when the function has returned one that can be
  -- marshalled; and as failed when the input cannot be read or the function has panicked, has returned an
  -- error or a result that cannot be marshalled.
  pub activity_turn-AfterActivityPoll :
      (w : World)
      → (calls : List Call) × AfterActivityPoll worker
          (poll_activity_task (connected env) worker.queue worker.id w).0
          calls
        × (activity_turn json worker (connected env) w
            ≡ run w (
                (env, poll_activity (record { task_queue = worker.queue; lease_owner = worker.id }))
                ∷ all_in env calls))
  unfolding activity_turn poll_activity_task connected perform run served ◌>>=◌
  activity_turn-AfterActivityPoll w =
      let req : PollTaskRequest = record { task_queue = worker.queue; lease_owner = worker.id } in
      let polled = poll_activity_task (connected env) worker.queue worker.id w in
      let after = on_activity_task-After polled in
      (
        after.0,
        after.1,
        after.2
            ∙ ap (λ x. run x (all_in env after.0))
                (served-discard (poll_activity_task_rpc env req w)),
      )
