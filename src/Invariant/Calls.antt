-- ===== src/Invariant/Calls.antt =====
-- The invariant of the tables over calls and lives of the engine.
use my_temp.Common.{Option, none, some, refl, String, inl, inr, List}
use my_temp.Persistence.Types.{Task}
use my_temp.Persistence.Tables.{empty_db}
use my_temp.Persistence.Session.{Env, World}
use my_temp.Spec.Polling.{TaskPolled}
use my_temp.Engine.{
  Call, start, poll_workflow, poll_activity, workflow_task_completed, activity_task_completed,
  activity_task_failed, signal, reclaim_tick, scan_tick, perform, run, boot,
}
use my_temp.Engine.Life.{run-Keeps}
use my_temp.Engine.Outcome.{Effect, Outcome, perform-Outcome}
use my_temp.History.Types.{zero_task}
use my_temp.Invariant.{Inv}
use my_temp.Invariant.Statements.{lease-Inv, reclaim-Inv, delete_task_rows-Inv}
use my_temp.Invariant.Effects.{
  started-Inv, found-HasRun, activity_completed-Inv, activity_failed-Inv, activity_retried-Inv,
  signal_received-Inv, TimersFired-Inv, CommandsApplied-Open,
}

TaskPolled-Inv :
    (env : Env) (queue type owner : String) (w w' : World) (row : Option Task)
    → TaskPolled env queue type owner w row w'
    → Inv w.db
    → Inv w'.db
TaskPolled-Inv env queue type owner w w' none p h = rw p.tables h
TaskPolled-Inv env queue type owner w w' (some t) p h =
    rw p.tables (lease-Inv (env.db_clock w.calls) owner t.id w.db h)

Effect-Inv : (env : Env) (c : Call) (w w' : World) → Effect env c w w' → Inv w.db → Inv w'.db
Effect-Inv env (start r) w w' (rid, e) h = rw e.tables (
    started-Inv (env.db_clock w.calls) r.workflow_id rid r.workflow_type r.task_queue r.input w.db
      e.new_row h)
Effect-Inv env (poll_workflow r) w w' e h =
    rw e.tables
      (TaskPolled-Inv env r.task_queue "workflow" r.lease_owner w e.leased e.row e.polls h)
Effect-Inv env (poll_activity r) w w' e h =
    rw e.tables
      (TaskPolled-Inv env r.task_queue "activity" r.lease_owner w e.leased e.row e.polls h)
Effect-Inv env (workflow_task_completed r) w w' (inl e) h =
    rw e.tables (delete_task_rows-Inv r.task_id w.db h)
Effect-Inv env (workflow_task_completed r) w w' (inr e) h = rw e.tables (
    delete_task_rows-Inv r.task_id e.view
      (CommandsApplied-Open (env.db_clock w.calls) e.exec r.workflow_id r.run_id _ _ _ e.applied
        (record {
          inv = h;
          has = found-HasRun r.workflow_id r.run_id w.db.executions e.found_exec;
        })).inv)
Effect-Inv env (activity_task_completed r) w w' e h = rw e.tables (
    activity_completed-Inv (env.db_clock w.calls) r.task_id r.workflow_id r.run_id e.task e.exec
      w.db e.found_exec h r.result)
Effect-Inv env (activity_task_failed r) w w' (inl e) h =
    rw e.tables (activity_retried-Inv r.task_id e.task _ w.db e.found_task e.attempt_left h)
Effect-Inv env (activity_task_failed r) w w' (inr e) h = rw e.tables (
    activity_failed-Inv (env.db_clock w.calls) r.task_id r.workflow_id r.run_id e.task e.exec w.db
      e.found_exec h r.error)
Effect-Inv env (signal r) w w' e h = rw e.tables (
    signal_received-Inv (env.db_clock e.calls) 0 r.workflow_id e.run_id zero_task e.exec w.db
      e.found_exec h r.signal_name r.input)
Effect-Inv env reclaim_tick w w' e h =
    rw (e.tables, e.reclaims.tables) (reclaim-Inv (env.db_clock w.calls) w.db h)
Effect-Inv env scan_tick w w' e h =
    rw e.tables (TimersFired-Inv (env.db_clock w.calls) w.db _ w.db e.view refl e.fired h)

Outcome-Inv : (env : Env) (c : Call) (w w' : World) → Outcome env c w w' → Inv w.db → Inv w'.db
Outcome-Inv env c w w' (inl same) h = rw same.db h
Outcome-Inv env c w w' (inr e) h = Effect-Inv env c w w' e h

-- Every call keeps the invariant of the tables, whether it returns an error or not.
pub perform-Inv : (env : Env) (c : Call) (w : World) → Inv w.db → Inv (perform env c w).1.db
perform-Inv env c w h = Outcome-Inv env c w (perform env c w).1 (perform-Outcome env c w) h

empty-Inv : Inv empty_db
empty-Inv = record { executions = tt; events = tt; tasks = tt; timers = tt; rising = tt }

-- At every moment of an engine's life, whatever the requests, the answers of the outside world and
-- the failures were, the invariant of the tables holds.
pub run-Inv : (cs : List (Env × Call)) → Inv (run boot cs).db
run-Inv cs = run-Keeps (λ w. Inv w.db) perform-Inv boot cs empty-Inv
