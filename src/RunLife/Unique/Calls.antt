-- ===== src/RunLife/Unique/Calls.antt =====
-- The runs of one workflow over calls and lives of the engine.
use my_temp.Common.{
  ◌≤◌, String, String_eq, Bool, true, false, ◌≡◌, refl, inl, inr, List, [], ◌∷◌, ◌++◌, ◌==◌,
  if◌then◌else◌, Option, none, some, arith, All,
}
use my_temp.Common.Int.{ltb_ℤ}
use my_temp.Persistence.Types.{Bytes, Time, WorkflowExecution, Task, Timer}
use my_temp.Persistence.Tables.{
  Db, insert_execution_row, insert_event_row, insert_task_row, insert_timer_row, delete_task_rows,
  insert_workflow_task_row,
}
use my_temp.Persistence.Session.{Env, World}
use my_temp.History.Types.{Command}
use my_temp.History.WorkflowTask.{Progress}
use my_temp.History.Rows.{started_execution}
use my_temp.Spec.Effects.{
  started, scheduled, timed, completed, failed, command_effect, CommandsApplied, activity_completed,
  activity_retried, activity_failed, timer_fired, TimersFired, signal_received,
}
use my_temp.Spec.Start.{NotRunning}
use my_temp.Spec.Polling.{TaskPolled}
use my_temp.Spec.Timers.{due_at}
use my_temp.Engine.{
  Call, start, poll_workflow, poll_activity, workflow_task_completed, activity_task_completed,
  activity_task_failed, signal, reclaim_tick, scan_tick, perform, run, boot,
}
use my_temp.Engine.Outcome.{Effect, Outcome, perform-Outcome}
use my_temp.RunLife.Unique.{InTurn, running_runs}
use my_temp.RunLife.Unique.Rows.{IsOver-All, append-InTurn, running_runs-one}
use my_temp.RunLife.Unique.Status.{close-InTurn}

abbrev TakesTurns : Db → Type 0
TakesTurns db = InTurn db.executions

-- The instant is later than the start of every run that there is.
abbrev After : Time → Db → Type 0
After now db = All (λ x. ltb_ℤ x.started_at now ≡ true) db.executions

inserted-executions :
    (now : Time) (x : WorkflowExecution) (db : Db) {v : Db}
    → insert_execution_row now x db ≡ some v
    → v.executions ≡ db.executions ++ record x { started_at = now; closed_at = none } ∷ []
unfolding insert_execution_row
inserted-executions now x db e = ground arith

insert_execution_row-InTurn :
    (now : Time) (wid rid type queue : String) (db : Db) {v : Db}
    → insert_execution_row now (started_execution wid rid type queue) db ≡ some v
    → NotRunning wid db
    → After now db
    → TakesTurns db
    → TakesTurns v
insert_execution_row-InTurn now wid rid type queue db {v} e idle later h =
    rw (inserted-executions now _ db e) (
      append-InTurn
        (record (started_execution wid rid type queue) { started_at = now; closed_at = none })
        db.executions h later (IsOver-All wid db.executions h idle))

signal_received-executions :
    (now : Time) (a b name : String) (input : Bytes) (exec : WorkflowExecution) (db : Db)
    → (signal_received now a b name input exec db).executions ≡ db.executions
unfolding signal_received insert_workflow_task_row insert_task_row insert_event_row
signal_received-executions now a b name input exec db = ground arith

TimersFired-executions :
    (now : Time) (db : Db) (ts : List Timer) (v v' : Db)
    → TimersFired now db ts v v'
    → v'.executions ≡ v.executions
unfolding timer_fired insert_event_row insert_task_row
TimersFired-executions now db [] v v' e = rw e refl
TimersFired-executions now db (t ∷ ts) v v' (exec, found, rest) =
    TimersFired-executions now db ts (timer_fired now db t exec v) v' rest

branch :
    (b : Bool) (s t : Progress × Db)
    → TakesTurns s.1
    → TakesTurns t.1
    → TakesTurns (if b then s else t).1
branch true s t h k = h
branch false s t h k = k

module _ (now : Time) (exec : WorkflowExecution) (a b : String) where
  command_effect-InTurn :
      (clock : Time) (p : Progress) (v : Db) (cmd : Command)
      → TakesTurns v
      → TakesTurns (command_effect now exec a b clock (p, v) cmd).1
  unfolding command_effect insert_event_row insert_task_row insert_timer_row
  command_effect-InTurn clock p v cmd h =
      branch (cmd.type == "ScheduleActivity") (scheduled now exec a b p v cmd) _ h (
        branch (cmd.type == "StartTimer") (timed now exec a b clock p v cmd) _ h (
          branch (cmd.type == "CompleteWorkflow") (completed now exec a b p v cmd) _
            (close-InTurn now a b "Completed" (inl refl) v.executions h)
            (branch (cmd.type == "FailWorkflow") (failed now exec a b p v cmd) (p, v)
              (close-InTurn now a b "Failed" (inr refl) v.executions h) h)))

  CommandsApplied-InTurn :
      (cmds : List Command) (s s' : Progress × Db)
      → CommandsApplied now exec a b cmds s s'
      → TakesTurns s.1
      → TakesTurns s'.1
  CommandsApplied-InTurn [] s s' e h = rw e h
  CommandsApplied-InTurn (cmd ∷ cmds) s s' (clock, rest) h =
      CommandsApplied-InTurn cmds (command_effect now exec a b clock s cmd) s' rest
        (command_effect-InTurn clock s.0 s.1 cmd h)

TaskPolled-executions :
    (env : Env) (queue type owner : String) (w w' : World) (row : Option Task)
    → TaskPolled env queue type owner w row w'
    → w'.db.executions ≡ w.db.executions
TaskPolled-executions env queue type owner w w' none p = rw p.tables refl
TaskPolled-executions env queue type owner w w' (some t) p = rw p.tables refl

-- A start happens after the starts of all runs that there are, on the clock of the database.
abbrev pub IsTimely : Env → Call → World → Type 0
IsTimely env (start r) w = After (env.db_clock w.calls) w.db
IsTimely env _ w = Unit {0}

abbrev pub AreTimely : World → List (Env × Call) → Type 0
AreTimely w [] = Unit {0}
AreTimely w ((env, c) ∷ cs) = IsTimely env c w × AreTimely (perform env c w).1 cs

Effect-InTurn :
    (env : Env) (c : Call) (w w' : World)
    → IsTimely env c w
    → Effect env c w w'
    → TakesTurns w.db
    → TakesTurns w'.db
unfolding started activity_completed activity_retried activity_failed insert_event_row
    insert_task_row delete_task_rows
Effect-InTurn env (start r) w w' later (id, e) h = rw e.tables (
    insert_execution_row-InTurn (env.db_clock w.calls) r.workflow_id id r.workflow_type r.task_queue
      w.db e.new_row e.not_running later h)
Effect-InTurn env (poll_workflow r) w w' later e h =
    rw
      (
        e.tables,
        TaskPolled-executions env r.task_queue "workflow" r.lease_owner w e.leased e.row e.polls,
      )
      h
Effect-InTurn env (poll_activity r) w w' later e h =
    rw
      (
        e.tables,
        TaskPolled-executions env r.task_queue "activity" r.lease_owner w e.leased e.row e.polls,
      )
      h
Effect-InTurn env (workflow_task_completed r) w w' later (inl e) h = rw e.tables h
Effect-InTurn env (workflow_task_completed r) w w' later (inr e) h =
    rw e.tables (
      CommandsApplied-InTurn (env.db_clock w.calls) e.exec r.workflow_id r.run_id _ _ _ e.applied h)
Effect-InTurn env (activity_task_completed r) w w' later e h = rw e.tables h
Effect-InTurn env (activity_task_failed r) w w' later (inl e) h = rw e.tables h
Effect-InTurn env (activity_task_failed r) w w' later (inr e) h = rw e.tables h
Effect-InTurn env (signal r) w w' later e h =
    rw
      (
        e.tables,
        signal_received-executions (env.db_clock e.calls) r.workflow_id e.run_id r.signal_name
            r.input e.exec w.db,
      )
      h
Effect-InTurn env reclaim_tick w w' later e h = rw (e.tables, e.reclaims.tables) h
Effect-InTurn env scan_tick w w' later e h =
    rw
      (
        e.tables,
        TimersFired-executions (env.db_clock w.calls) w.db (due_at env w) w.db e.view e.fired,
      )
      h

Outcome-InTurn :
    (env : Env) (c : Call) (w w' : World)
    → IsTimely env c w
    → Outcome env c w w'
    → TakesTurns w.db
    → TakesTurns w'.db
Outcome-InTurn env c w w' later (inl same) h = rw same.db h
Outcome-InTurn env c w w' later (inr e) h = Effect-InTurn env c w w' later e h

run-InTurn :
    (w : World) (cs : List (Env × Call))
    → AreTimely w cs
    → TakesTurns w.db
    → TakesTurns (run w cs).db
unfolding run
run-InTurn w [] timely h = h
run-InTurn w ((env, c) ∷ cs) timely h =
    run-InTurn (perform env c w).1 cs timely.1
      (Outcome-InTurn env c w (perform env c w).1 timely.0 (perform-Outcome env c w) h)

-- Over every life of an engine that began on an empty database, at most one run of a workflow is
-- running at any moment, if each start comes later, on the clock of the database, than the starts of
-- the runs that are there.
pub one_run_at_a_time :
    (cs : List (Env × Call)) (wid : String)
    → AreTimely boot cs
    → running_runs wid (run boot cs).db.executions ≤ 1
one_run_at_a_time cs wid timely =
    running_runs-one wid (run boot cs).db.executions (run-InTurn boot cs timely tt)
