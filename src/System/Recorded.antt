-- ===== src/System/Recorded.antt =====
-- What `CompleteWorkflowTask` of internal/history/history.go records of the answer that
-- `executeWorkflowTask` of sdk/worker.go gives for a workflow function that pauses.
use my_temp.Common.{
  some-injective, subst₂, String, String_eq, ℕ_eq, ◌==◌, true, ◌≡◌, refl, ap, sym, ◌∙◌, subst, List,
  [], ◌++◌, ◌∷◌, map, All-mono, Option, none, some, All, find, inl, inr,
}
use my_temp.Persistence.Types.{Bytes, WorkflowExecution}
use my_temp.Persistence.Tables.{is_execution, events_of, order_by_event_id, delete_task_rows}
use my_temp.Persistence.Session.{Env, World, Result, ok}
use my_temp.History.WorkflowTask.{first_progress}
use my_temp.Spec.Effects.{next_id_of}
use my_temp.Spec.WorkflowTask.{CommandsRecorded}
use my_temp.Proto
use my_temp.Proto.{HistoryEvent, PollTaskRequest, PollWorkflowTaskResponse}
use my_temp.Frontend.{marshal_event, marshal_events, unmarshal_commands}
use my_temp.Engine.{workflow_task_completed, perform}
use my_temp.Engine.Settled.{Settled, perform-Settled}
use my_temp.Sdk.Context.{Context, new_context}
use my_temp.Sdk.Workflow.{Ending, paused, replay}
use my_temp.Sdk.Lookups.{IsScheduling, Recorded}
use my_temp.Sdk.Fresh.{replay-IsAsking}
use my_temp.Sdk.Worker.{
  WorkflowFunction, input_bytes, closing, unreadable, answer_with, run_workflow,
  execute_workflow_task,
}
use my_temp.Sdk.Worker.Paused.{paused_worker_is_idempotent}
use my_temp.Journal.{rows_of}
use my_temp.Journal.Grown.{Fits}
use my_temp.Journal.Rows.{Tidy, Grown-start}
use my_temp.Journal.Asked.{asked-Answered, Recorded-cons}
use my_temp.Journal.Calls.{Sound}
use my_temp.System.Polls.{Carries}

-- The run has a row, which says that it is running.
abbrev pub Runs : String → String → World → Type 0
Runs wid rid w =
    (exec : WorkflowExecution) × (find (is_execution wid rid) w.db.executions ≡ some exec)
    × ((exec.status == "Running") ≡ true)

map-append : {A B : Type 0} (f : A → B) (xs ys : List A) → map f (xs ++ ys) ≡ map f xs ++ map f ys
map-append f [] ys = refl
map-append f (x ∷ xs) ys = ap (λ l. f x ∷ l) (map-append f xs ys)

module _ (json : Bytes → Option String) (queue : String) (task : PollWorkflowTaskResponse)
    (fn : WorkflowFunction) where
  abbrev pub first : Ending × Context
  first = replay json (fn.body (input_bytes task.history)) (new_context task.history queue)

  -- What the answer of a worker that waits leaves.
  pub record RecordedBy (w' : World) : Type 0 where
    pub events : List HistoryEvent
    pub history :
        marshal_events (events_of task.workflow_id task.run_id w'.db) ≡ task.history ++ events
    pub only : All IsScheduling events
    pub recorded : All (Recorded (task.history ++ events)) first.1.commands

Recorded-append :
    (h es : List HistoryEvent) (cmd : Proto.Command) → Recorded es cmd → Recorded (h ++ es) cmd
Recorded-append [] es cmd k = k
Recorded-append (e ∷ h) es cmd k = Recorded-cons e (h ++ es) cmd (Recorded-append h es cmd k)

module _ (json : Bytes → Option String) (queue : String) (task : PollWorkflowTaskResponse)
    (fn : WorkflowFunction) where
  module _ (env : Env) (w w' : World) (carries : Carries task w)
      (tidy : Tidy task.workflow_id task.run_id w.db)
      (fits : Fits (rows_of task.workflow_id task.run_id w'.db)) where
    answered-RecordedBy :
        CommandsRecorded env task.task_id task.workflow_id task.run_id
          (unmarshal_commands (first json queue task fn).1.commands)
          w
          w'
        → RecordedBy json queue task fn w'
    unfolding marshal_events events_of delete_task_rows
    answered-RecordedBy c =
        let wid = task.workflow_id in
        let rid = task.run_id in
        let cmds = (first json queue task fn).1.commands in
        let rows : rows_of wid rid w'.db ≡ rows_of wid rid c.view = ap (rows_of wid rid) c.tables in
        let a =
          asked-Answered (env.db_clock w.calls) c.exec wid rid (rows_of wid rid w.db) [] cmds
            (first_progress (next_id_of wid rid w.db), w.db) (c.progress, c.view)
            (replay-IsAsking json task.history queue (fn.body (input_bytes task.history))) c.applied
            (Grown-start wid rid w.db tidy) in
        record {
          events = marshal_events a.more;
          history =
              ap (λ l. map marshal_event (order_by_event_id l)) rows
              ∙ ap (map marshal_event) (a.grown.extended (subst Fits rows fits)).ordered
              ∙ map-append marshal_event (events_of wid rid w.db) a.more
              ∙ ap (λ h. h ++ map marshal_event a.more) (sym carries.history);
          only = a.only;
          recorded =
              All-mono _ _ cmds (Recorded-append task.history (marshal_events a.more)) a.recorded;
        }

  -- The commands are applied, since the run is running.
  applied :
      (env : Env) (w : World)
      → Runs task.workflow_id task.run_id w
      → (cmds : List Proto.Command) (r : Result (Unit {0}) × World) (w' : World)
      → Settled env (workflow_task_completed (answer_with json queue task cmds)) w r
      → r ≡ (ok tt, w')
      → CommandsRecorded env task.task_id task.workflow_id task.run_id
          (unmarshal_commands cmds)
          w
          w'
  applied env w (exec, found, running) cmds r w' settled e =
      elim (subst (Settled env (workflow_task_completed (answer_with json queue task cmds)) w) e
        settled) [
          | inl dropped ↦
              let same : dropped.exec ≡ exec =
                some-injective dropped.exec exec (sym dropped.found_exec ∙ found) in
              absurd (cc (dropped.over, running, ap (λ (x : WorkflowExecution). x.status) same))
          | inr recorded ↦ recorded
        ]

  module _ (functions : String → Option WorkflowFunction)
      (registered : functions task.workflow_type ≡ some fn)
      (readable : unreadable fn.input_error (input_bytes task.history) ≡ none)
      (waits : (first json queue task fn).0 ≡ paused) where
    waiting_commands :
        run_workflow json queue task fn
        ≡ answer_with json queue task (first json queue task fn).1.commands
    unfolding run_workflow
    waiting_commands =
        ap
          (λ ending.
            answer_with json queue task (closing ending (first json queue task fn).1.commands))
          waits

    -- The engine has recorded the answer of a worker that waits.
    pub round-RecordedBy :
        (env : Env) (w w' : World)
        → Carries task w
        → Sound w
        → Runs task.workflow_id task.run_id w
        → perform env (workflow_task_completed (run_workflow json queue task fn)) w ≡ (ok tt, w')
        → Fits (rows_of task.workflow_id task.run_id w'.db)
        → RecordedBy json queue task fn w'
    round-RecordedBy env w w' carries (inv, tidy) runs e fits =
        let cmds = (first json queue task fn).1.commands in
        answered-RecordedBy env w w' carries (tidy task.workflow_id task.run_id) fits (
          applied env w runs cmds
            (perform env (workflow_task_completed (answer_with json queue task cmds)) w) w'
            (perform-Settled env (workflow_task_completed (answer_with json queue task cmds)) w tt)
            (subst (λ req. perform env (workflow_task_completed req) w ≡ (ok tt, w'))
              waiting_commands e))

    -- Another task of the run, with the history as it then is.
    pub again_waits :
        (again : PollWorkflowTaskResponse) (w : World)
        → again.workflow_id ≡ task.workflow_id
        → again.run_id ≡ task.run_id
        → again.workflow_type ≡ task.workflow_type
        → Carries again w
        → RecordedBy json queue task fn w
        → execute_workflow_task json queue again functions ≡ some (answer_with json queue again [])
    again_waits again w same_id same_run same_type carries r =
        let history : again.history ≡ task.history ++ r.events =
          carries.history
          ∙ subst₂
              (λ a b.
                marshal_events (events_of again.workflow_id again.run_id w.db)
                ≡ marshal_events (events_of a b w.db))
              same_id same_run refl
          ∙ r.history in
        let grown : PollWorkflowTaskResponse = record task {
          task_id = again.task_id;
          history = task.history ++ r.events;
        } in
        let same : grown ≡ again = cc (history, same_id, same_run, same_type) in
        subst
          (λ t. execute_workflow_task json queue t functions ≡ some (answer_with json queue t []))
          same
          (paused_worker_is_idempotent json queue task fn functions again.task_id r.events
            registered readable waits r.only r.recorded)
