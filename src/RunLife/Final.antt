-- ===== src/RunLife/Final.antt =====
-- The row of a run that is over, over calls and lives of the engine.
use my_temp.Common.{
  String, String_eq, Bool, true, false, not, ◌≡◌, refl, inl, inr, List, [], ◌∷◌, ◌==◌,
  if◌then◌else◌, Option, none, some, arith,
}
use my_temp.Persistence.Types.{Bytes, Time, WorkflowExecution, Task, Timer}
use my_temp.Persistence.Tables.{
  Db, is_execution, insert_event_row, insert_task_row, insert_timer_row, delete_task_rows,
  insert_workflow_task_row,
}
use my_temp.Persistence.Session.{Env, World}
use my_temp.History.Types.{Command}
use my_temp.History.WorkflowTask.{Progress}
use my_temp.Spec.Effects.{
  started, scheduled, timed, completed, failed, command_effect, CommandsApplied, activity_completed,
  activity_retried, activity_failed, timer_fired, TimersFired, signal_received,
}
use my_temp.Spec.Polling.{TaskPolled}
use my_temp.Spec.Timers.{due_at}
use my_temp.Engine.{
  Call, start, poll_workflow, poll_activity, workflow_task_completed, activity_task_completed,
  activity_task_failed, signal, reclaim_tick, scan_tick, perform, run,
}
use my_temp.Engine.Life.{run-Keeps}
use my_temp.Engine.Outcome.{Effect, Outcome, perform-Outcome}
use my_temp.RunLife.{IsRow, IsOver}
use my_temp.RunLife.Statements.{insert_execution_row-IsRow, set_status-IsRow, running-other}

running_of : (b : Bool) → not b ≡ false → b ≡ true
running_of true e = refl
running_of false e = cc

module _ (wid rid : String) (x : WorkflowExecution) where
  insert_workflow_task_row-IsRow :
      (now : Time) (t : Task) (db : Db)
      → IsRow wid rid x db
      → IsRow wid rid x (insert_workflow_task_row now t db)
  unfolding insert_workflow_task_row insert_task_row
  insert_workflow_task_row-IsRow now t db h = ground arith

  signal_received-IsRow :
      (now : Time) (a b name : String) (input : Bytes) (exec : WorkflowExecution) (db : Db)
      → IsRow wid rid x db
      → IsRow wid rid x (signal_received now a b name input exec db)
  unfolding signal_received insert_event_row
  signal_received-IsRow now a b name input exec db h = insert_workflow_task_row-IsRow now _ _ h

  TimersFired-IsRow :
      (now : Time) (db : Db) (ts : List Timer) (v v' : Db)
      → TimersFired now db ts v v'
      → IsRow wid rid x v
      → IsRow wid rid x v'
  unfolding timer_fired insert_event_row insert_task_row
  TimersFired-IsRow now db [] v v' e h = rw e h
  TimersFired-IsRow now db (t ∷ ts) v v' (exec, found, rest) h =
      TimersFired-IsRow now db ts (timer_fired now db t exec v) v' rest h

  branch :
      (b : Bool) (s t : Progress × Db)
      → IsRow wid rid x s.1
      → IsRow wid rid x t.1
      → IsRow wid rid x (if b then s else t).1
  branch true s t h k = h
  branch false s t h k = k

  module _ (now : Time) (exec : WorkflowExecution) (a b : String)
      (other : is_execution a b x ≡ false) where
    command_effect-IsRow :
        (clock : Time) (p : Progress) (v : Db) (cmd : Command)
        → IsRow wid rid x v
        → IsRow wid rid x (command_effect now exec a b clock (p, v) cmd).1
    unfolding command_effect insert_event_row insert_task_row insert_timer_row
    command_effect-IsRow clock p v cmd h =
        branch (cmd.type == "ScheduleActivity") (scheduled now exec a b p v cmd) _ h (
          branch (cmd.type == "StartTimer") (timed now exec a b clock p v cmd) _ h (
            branch (cmd.type == "CompleteWorkflow") (completed now exec a b p v cmd) _
              (set_status-IsRow now a b "Completed" wid rid x v.executions other h)
              (branch (cmd.type == "FailWorkflow") (failed now exec a b p v cmd) (p, v)
                (set_status-IsRow now a b "Failed" wid rid x v.executions other h) h)))

    CommandsApplied-IsRow :
        (cmds : List Command) (s s' : Progress × Db)
        → CommandsApplied now exec a b cmds s s'
        → IsRow wid rid x s.1
        → IsRow wid rid x s'.1
    CommandsApplied-IsRow [] s s' e h = rw e h
    CommandsApplied-IsRow (cmd ∷ cmds) s s' (clock, rest) h =
        CommandsApplied-IsRow cmds (command_effect now exec a b clock s cmd) s' rest
          (command_effect-IsRow clock s.0 s.1 cmd h)

  TaskPolled-IsRow :
      (env : Env) (queue type owner : String) (w w' : World) (row : Option Task)
      → TaskPolled env queue type owner w row w'
      → IsRow wid rid x w.db
      → IsRow wid rid x w'.db
  TaskPolled-IsRow env queue type owner w w' none p h = rw p.tables h
  TaskPolled-IsRow env queue type owner w w' (some t) p h = rw p.tables h

  Effect-IsRow :
      (env : Env) (c : Call) (w w' : World)
      → IsOver x
      → Effect env c w w'
      → IsRow wid rid x w.db
      → IsRow wid rid x w'.db
  unfolding started activity_completed activity_retried activity_failed insert_event_row
      insert_task_row delete_task_rows
  Effect-IsRow env (start r) w w' over (id, e) h =
      rw e.tables (insert_execution_row-IsRow (env.db_clock w.calls) _ wid rid x w.db e.new_row h)
  Effect-IsRow env (poll_workflow r) w w' over e h =
      rw e.tables
        (TaskPolled-IsRow env r.task_queue "workflow" r.lease_owner w e.leased e.row e.polls h)
  Effect-IsRow env (poll_activity r) w w' over e h =
      rw e.tables
        (TaskPolled-IsRow env r.task_queue "activity" r.lease_owner w e.leased e.row e.polls h)
  Effect-IsRow env (workflow_task_completed r) w w' over (inl e) h = rw e.tables h
  Effect-IsRow env (workflow_task_completed r) w w' over (inr e) h = rw e.tables (
      CommandsApplied-IsRow (env.db_clock w.calls) e.exec r.workflow_id r.run_id
        (running-other r.workflow_id r.run_id wid rid e.exec x w.db e.found_exec h
          (running_of (e.exec.status == "Running") e.running) over)
        _ _ _ e.applied h)
  Effect-IsRow env (activity_task_completed r) w w' over e h = rw e.tables h
  Effect-IsRow env (activity_task_failed r) w w' over (inl e) h = rw e.tables h
  Effect-IsRow env (activity_task_failed r) w w' over (inr e) h = rw e.tables h
  Effect-IsRow env (signal r) w w' over e h = rw e.tables (
      signal_received-IsRow (env.db_clock e.calls) r.workflow_id e.run_id r.signal_name r.input
        e.exec w.db h)
  Effect-IsRow env reclaim_tick w w' over e h = rw (e.tables, e.reclaims.tables) h
  Effect-IsRow env scan_tick w w' over e h =
      rw e.tables
        (TimersFired-IsRow (env.db_clock w.calls) w.db (due_at env w) w.db e.view e.fired h)

  Outcome-IsRow :
      (env : Env) (c : Call) (w w' : World)
      → IsOver x
      → Outcome env c w w'
      → IsRow wid rid x w.db
      → IsRow wid rid x w'.db
  Outcome-IsRow env c w w' over (inl same) h = rw same.db h
  Outcome-IsRow env c w w' over (inr e) h = Effect-IsRow env c w w' over e h

  -- Once a run is over, no call changes its row: it is never running again, and its status and the
  -- instant of its end stay what they are.
  pub over_is_final :
      (w : World) (cs : List (Env × Call))
      → IsOver x
      → IsRow wid rid x w.db
      → IsRow wid rid x (run w cs).db
  over_is_final w cs over h =
      run-Keeps (λ v. IsRow wid rid x v.db)
        (λ env c v k. Outcome-IsRow env c v (perform env c v).1 over (perform-Outcome env c v) k) w
        cs h
