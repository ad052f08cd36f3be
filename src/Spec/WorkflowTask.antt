-- ===== src/Spec/WorkflowTask.antt =====
-- `CompleteWorkflowTask` of internal/history/history.go, and its specification.
use my_temp.Common.{
  ℕ, String, Bool, none, some, ◌≡◌, refl, ◌⊎◌, inl, inr, true, false, not, ◌==◌, String_eq, find,
  List, [], ◌∷◌, if◌then◌else◌,
}
use my_temp.Metrics.{Metrics}
use my_temp.Persistence.Types.{Time, WorkflowExecution}
use my_temp.Persistence.Tables.{Db, is_execution, delete_task_rows}
use my_temp.Persistence.Session.{Env, World, M}
use my_temp.Persistence.Ends.{Ends, Cause, fault, refused, Excuse, Ends-bind, Ends-pure, in_tx}
use my_temp.Persistence.Calls.{ends_rules}
use my_temp.Persistence.Methods.{ends_methods}
use my_temp.History.Types.{Command}
use my_temp.History.WorkflowTask.{
  Progress, first_progress, count_progress, schedule_activity, start_timer, complete_workflow,
  fail_workflow, apply_command, apply_commands, drop_task, record_commands, complete_workflow_task,
}
use my_temp.Spec.Effects.{
  scheduled, timed, completed, failed, command_effect, CommandsApplied, next_id_of,
}

-- A test decides alike in the code and in the specification.
Ends-branch :
    {A S : Type 0} {F : Type 0} {Q : A → World → Type 0} (P : (Time → S) → Type 0) (b : Bool)
    {m k : M A} {w : World} {s t : Time → S}
    → P (λ c. if b then s c else t c)
    → (P s → Ends F Q m w)
    → (P t → Ends F Q k w)
    → Ends F Q (if b then m else k) w
Ends-branch P true h f g = f h
Ends-branch P false h f g = g h

module _ (env : Env) (exec : WorkflowExecution) (wid rid : String) (db : Db) (metrics : Metrics)
    (now : Time) {F : Type 0} (excuse : Excuse env F) where
  -- Whatever the clock and the count of calls, `Q` holds of what the specification leaves.
  abbrev Left : (Progress → World → Type 0) → (Time → Progress × Db) → Type 0
  Left Q s = (clock : Time) (calls : ℕ) → Q (s clock).0 (in_tx db metrics calls now (s clock).1)

  module _ (Q : Progress → World → Type 0) (calls : ℕ) (view : Db) (p : Progress)
      (cmd : Command) where
    Ends-schedule_activity :
        Left Q (λ clock. scheduled now exec wid rid p view cmd)
        → Ends F Q (schedule_activity env exec wid rid p cmd) (in_tx db metrics calls now view)
    unfolding schedule_activity
    Ends-schedule_activity h = search (ends_rules, ends_methods, excuse, h) depth 20

    Ends-start_timer :
        Left Q (λ clock. timed now exec wid rid clock p view cmd)
        → Ends F Q (start_timer env exec wid rid p cmd) (in_tx db metrics calls now view)
    unfolding start_timer
    Ends-start_timer h = search (ends_rules, ends_methods, excuse, h) depth 20

    Ends-complete_workflow :
        Left Q (λ clock. completed now exec wid rid p view cmd)
        → Ends F Q (complete_workflow env exec wid rid p cmd) (in_tx db metrics calls now view)
    unfolding complete_workflow
    Ends-complete_workflow h = search (ends_rules, ends_methods, excuse, h) depth 20

    Ends-fail_workflow :
        Left Q (λ clock. failed now exec wid rid p view cmd)
        → Ends F Q (fail_workflow env exec wid rid p cmd) (in_tx db metrics calls now view)
    unfolding fail_workflow
    Ends-fail_workflow h = search (ends_rules, ends_methods, excuse, h) depth 20

    Ends-apply_command :
        Left Q (λ clock. command_effect now exec wid rid clock (p, view) cmd)
        → Ends F Q (apply_command env exec wid rid p cmd) (in_tx db metrics calls now view)
    unfolding apply_command command_effect
    Ends-apply_command h =
        Ends-branch (Left Q) (cmd.type == "ScheduleActivity") h Ends-schedule_activity (λ h₁.
          Ends-branch (Left Q) (cmd.type == "StartTimer") h₁ Ends-start_timer (λ h₂.
            Ends-branch (Left Q) (cmd.type == "CompleteWorkflow") h₂ Ends-complete_workflow (λ h₃.
              Ends-branch (Left Q) (cmd.type == "FailWorkflow") h₃ Ends-fail_workflow
                (λ h₄. Ends-pure p (h₄ now calls)))))

  Ends-apply_commands :
      (Q : Progress → World → Type 0) (calls : ℕ) (view : Db) (p : Progress) (cmds : List Command)
      → ((s : Progress × Db) (calls' : ℕ)
          → CommandsApplied now exec wid rid cmds (p, view) s
          → Q s.0 (in_tx db metrics calls' now s.1))
      → Ends F Q (apply_commands env exec wid rid p cmds) (in_tx db metrics calls now view)
  unfolding apply_commands
  Ends-apply_commands Q calls view p [] h = Ends-pure p (h (p, view) calls refl)
  Ends-apply_commands Q calls view p (cmd ∷ cmds) h = Ends-bind _ _ (
      Ends-apply_command _ calls view p cmd (λ clock calls₁.
        let s = command_effect now exec wid rid clock (p, view) cmd in
        Ends-apply_commands Q calls₁ s.1 s.0 cmds
          (λ s' calls₂ applied. h s' calls₂ (clock, applied))))

module _ (env : Env) (id : ℕ) (wid rid : String) (cmds : List Command) (w : World) where
  -- The run was over: its task is gone, and nothing else has changed.
  pub record TaskDropped (w' : World) : Type 0 where
    pub exec : WorkflowExecution
    pub found_exec : find (is_execution wid rid) w.db.executions ≡ some exec
    pub over : not (exec.status == "Running") ≡ true
    pub tables : w'.db ≡ delete_task_rows id w.db
    pub counted : w'.metrics ≡ w.metrics
    pub closed : w'.tx ≡ none

  -- The commands were applied in order, from the first free event id.
  pub record CommandsRecorded (w' : World) : Type 0 where
    pub exec : WorkflowExecution
    pub found_exec : find (is_execution wid rid) w.db.executions ≡ some exec
    pub running : not (exec.status == "Running") ≡ false
    pub progress : Progress
    pub view : Db
    pub applied :
        CommandsApplied
          (env.db_clock w.calls)
          exec
          wid
          rid
          cmds
          (first_progress (next_id_of wid rid w.db), w.db)
          (progress, view)
    pub tables : w'.db ≡ delete_task_rows id view
    pub counted : w'.metrics ≡ count_progress progress w.metrics
    pub closed : w'.tx ≡ none

  -- The run has no row.
  pub data WorkflowTaskRefused : Type 0 where
    no_run : find (is_execution wid rid) w.db.executions ≡ none → WorkflowTaskRefused

  -- `CompleteWorkflowTask` ends without an error only when the run is there; then its task is gone,
  -- and, if the run was running, all commands have been applied in order from the next event id, else
  -- none. It returns an error only because the run has no row or a call to the database failed.
  pub complete_workflow_task-Ends :
      Ends
        (Cause env WorkflowTaskRefused)
        (λ _ w'. TaskDropped w' ⊎ CommandsRecorded w')
        (complete_workflow_task env id wid rid cmds)
        w
  unfolding complete_workflow_task drop_task record_commands
  complete_workflow_task-Ends =
      search
        (ends_rules, ends_methods, Ends-apply_commands, fault, refused, no_run, dropped, recorded)
        depth 40 fits 20000
    where
      dropped :
          (exec : WorkflowExecution) {calls : ℕ}
          → find (is_execution wid rid) w.db.executions ≡ some exec
          → not (exec.status == "Running") ≡ true
          → let w' : World = record {
            db = delete_task_rows id w.db;
            tx = none;
            calls = calls;
            metrics = w.metrics;
          } in
            TaskDropped w' ⊎ CommandsRecorded w'
      dropped exec found_exec over = inl (record {
        exec = exec;
        found_exec = found_exec;
        over = over;
        tables = refl;
        counted = refl;
        closed = refl;
      })

      recorded :
          (exec : WorkflowExecution) (s : Progress × Db) {calls : ℕ}
          → find (is_execution wid rid) w.db.executions ≡ some exec
          → not (exec.status == "Running") ≡ false
          → CommandsApplied
              (env.db_clock w.calls)
              exec
              wid
              rid
              cmds
              (first_progress (next_id_of wid rid w.db), w.db)
              s
          → let w' : World = record {
            db = delete_task_rows id s.1;
            tx = none;
            calls = calls;
            metrics = count_progress s.0 w.metrics;
          } in
            TaskDropped w' ⊎ CommandsRecorded w'
      recorded exec s found_exec running applied = inr (record {
        exec = exec;
        found_exec = found_exec;
        running = running;
        progress = s.0;
        view = s.1;
        applied = applied;
        tables = refl;
        counted = refl;
        closed = refl;
      })
