-- ===== src/TaskLife/Survives.antt =====
-- What is known of a task row, over calls and lives of the engine.
use my_temp.Common.{ℕ, String, Bool, ◌≡◌, sym, inl, inr, List, [], ◌∷◌, Option, none, some, map}
use my_temp.Persistence.Types.{Time, Task}
use my_temp.Persistence.Tables.{Db, pollable, lease, reclaim}
use my_temp.Persistence.Session.{Env, World}
use my_temp.Spec.Timers.{due_at}
use my_temp.Spec.Polling.{TaskPolled}
use my_temp.Engine.{
  Call, start, poll_workflow, poll_activity, workflow_task_completed, activity_task_completed,
  activity_task_failed, signal, reclaim_tick, scan_tick, perform, run,
}
use my_temp.Engine.Outcome.{Effect, Outcome, perform-Outcome}
use my_temp.TaskLife.{Marked}
use my_temp.TaskLife.Effects.{
  started-Marked, delete_task_rows-Marked, activity_completed-Marked, activity_retried-Marked,
  activity_failed-Marked, signal_received-Marked, TimersFired-Marked, CommandsApplied-Marked,
}

-- Every clock of a life is allowed.
abbrev pub Clocks : (Time → Type 0) → List (Env × Call) → Type 0
Clocks Allowed [] = Unit {0}
Clocks Allowed ((env, c) ∷ cs) = ((n : ℕ) → Allowed (env.db_clock n)) × Clocks Allowed cs

module _ (P : Task → Type 0) (id : ℕ) (Allowed : Time → Type 0)
    (on_lease : (locked : ℕ → Bool) (now : Time) (queue type owner : String) (db : Db) (t : Task)
      → pollable locked now queue type db ≡ some t
      → Marked P id db
      → Marked P id (record db { tasks = map (lease now owner t.id) db.tasks }))
    (on_reclaim : (now : Time) (db : Db)
      → Allowed now
      → Marked P id db
      → Marked P id (record db { tasks = map (reclaim now) db.tasks })) where
  TaskPolled-Marked :
      (env : Env) (queue type owner : String) (w w' : World) (row : Option Task)
      → TaskPolled env queue type owner w row w'
      → Marked P id w.db
      → Marked P id w'.db
  TaskPolled-Marked env queue type owner w w' none p h = rw p.tables h
  TaskPolled-Marked env queue type owner w w' (some t) p h =
      rw p.tables
        (on_lease env.locked_task (env.db_clock w.calls) queue type owner w.db t (sym p.found) h)

  Effect-Marked :
      (env : Env) (c : Call) (w w' : World)
      → ((n : ℕ) → Allowed (env.db_clock n))
      → Effect env c w w'
      → Marked P id w.db
      → Marked P id w'.db
  Effect-Marked env (start r) w w' k (rid, e) h = rw e.tables (
      started-Marked P id (env.db_clock w.calls) r.workflow_id rid r.workflow_type r.task_queue
        r.input w.db e.new_row h)
  Effect-Marked env (poll_workflow r) w w' k e h =
      rw e.tables
        (TaskPolled-Marked env r.task_queue "workflow" r.lease_owner w e.leased e.row e.polls h)
  Effect-Marked env (poll_activity r) w w' k e h =
      rw e.tables
        (TaskPolled-Marked env r.task_queue "activity" r.lease_owner w e.leased e.row e.polls h)
  Effect-Marked env (workflow_task_completed r) w w' k (inl e) h =
      rw e.tables (delete_task_rows-Marked P id r.task_id w.db h)
  Effect-Marked env (workflow_task_completed r) w w' k (inr e) h = rw e.tables (
      delete_task_rows-Marked P id r.task_id e.view (
        CommandsApplied-Marked P id (env.db_clock w.calls) e.exec r.workflow_id r.run_id _ _ _
          e.applied h))
  Effect-Marked env (activity_task_completed r) w w' k e h = rw e.tables (
      activity_completed-Marked P id (env.db_clock w.calls) r.task_id r.workflow_id r.run_id
        r.result e.task e.exec w.db h)
  Effect-Marked env (activity_task_failed r) w w' k (inl e) h =
      rw e.tables (activity_retried-Marked P id r.task_id e.task _ w.db h)
  Effect-Marked env (activity_task_failed r) w w' k (inr e) h = rw e.tables (
      activity_failed-Marked P id (env.db_clock w.calls) r.task_id r.workflow_id r.run_id r.error
        e.task e.exec w.db h)
  Effect-Marked env (signal r) w w' k e h = rw e.tables (
      signal_received-Marked P id (env.db_clock e.calls) r.workflow_id e.run_id r.signal_name
        r.input e.exec w.db h)
  Effect-Marked env reclaim_tick w w' k e h =
      rw (e.tables, e.reclaims.tables) (on_reclaim (env.db_clock w.calls) w.db (k w.calls) h)
  Effect-Marked env scan_tick w w' k e h =
      rw e.tables
        (TimersFired-Marked P id (env.db_clock w.calls) w.db (due_at env w) w.db e.view e.fired h)

  Outcome-Marked :
      (env : Env) (c : Call) (w w' : World)
      → ((n : ℕ) → Allowed (env.db_clock n))
      → Outcome env c w w'
      → Marked P id w.db
      → Marked P id w'.db
  Outcome-Marked env c w w' k (inl same) h = rw same.db h
  Outcome-Marked env c w w' k (inr e) h = Effect-Marked env c w w' k e h

  pub run-Marked :
      (w : World) (cs : List (Env × Call))
      → Clocks Allowed cs
      → Marked P id w.db
      → Marked P id (run w cs).db
  unfolding run
  run-Marked w [] k h = h
  run-Marked w ((env, c) ∷ cs) (k, ks) h =
      run-Marked (perform env c w).1 cs ks
        (Outcome-Marked env c w (perform env c w).1 k (perform-Outcome env c w) h)
