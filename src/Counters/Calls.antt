-- ===== src/Counters/Calls.antt =====
-- The counters of internal/metrics/metrics.go over calls and lives of the engine.
use my_temp.Common.{ℕ, String, String_eq, Option, none, some, ◌≡◌, refl, inl, inr, List, arith}
use my_temp.Metrics.{Metrics, new_metrics}
use my_temp.Persistence.Types.{Task}
use my_temp.Persistence.Tables.{Db, empty_db, delete_task_rows}
use my_temp.Persistence.Session.{Env, World}
use my_temp.Spec.Effects.{next_id_of}
use my_temp.History.Types.{zero_task}
use my_temp.Spec.Timers.{due_at}
use my_temp.Spec.Polling.{TaskPolled}
use my_temp.Engine.{
  Call, start, poll_workflow, poll_activity, workflow_task_completed, activity_task_completed,
  activity_task_failed, signal, reclaim_tick, scan_tick, perform, run, boot,
}
use my_temp.Engine.Life.{run-Keeps}
use my_temp.Engine.Outcome.{Effect, Outcome, perform-Outcome}
use my_temp.Counters.{Counted}
use my_temp.Counters.Steps.{
  Counted-same, count_workflow_poll-counter, count_activity_poll-counter, count_progress-counter,
  activity_retried-events, retries-counter, reclaims-counter,
}
use my_temp.Counters.Effects.{
  started-Counted, activity_completed-Counted, activity_failed-Counted, signal_received-Counted,
  TimersFired-Counted, CommandsApplied-Counted,
}

Counted-move : {m m' : Metrics} (db db' : Db) → m' ≡ m → db' ≡ db → Counted m db → Counted m' db'
Counted-move db db' e f h k = rw (e, f) (h k)

Polled-events :
    (env : Env) (queue type owner : String) (w w' : World) (row : Option Task)
    → TaskPolled env queue type owner w row w'
    → w'.db.events ≡ w.db.events
Polled-events env queue type owner w w' none p = rw p.tables refl
Polled-events env queue type owner w w' (some t) p = rw p.tables refl

dropped-Counted :
    (id : ℕ) (db : Db) (m : Metrics) → Counted m db → Counted m (delete_task_rows id db)
unfolding delete_task_rows
dropped-Counted id db m h = h

module _ (env : Env) (w w' : World) (h : Counted w.metrics w.db) where
  Effect-Counted : (c : Call) → Effect env c w w' → Counted w'.metrics w'.db
  Effect-Counted (start r) (rid, e) = Counted-move _ w'.db e.counted e.tables (
      started-Counted (env.db_clock w.calls) r.workflow_id rid r.workflow_type r.task_queue r.input
        w.db w.metrics e.new_row h)
  Effect-Counted (poll_workflow r) e =
      Counted-same w.db w'.db (λ k. rw e.counted (count_workflow_poll-counter e.row w.metrics k))
        (rw e.tables
          (Polled-events env r.task_queue "workflow" r.lease_owner w e.leased e.row e.polls))
        h
  Effect-Counted (poll_activity r) e =
      Counted-same w.db w'.db (λ k. rw e.counted (count_activity_poll-counter e.row w.metrics k))
        (rw e.tables
          (Polled-events env r.task_queue "activity" r.lease_owner w e.leased e.row e.polls))
        h
  Effect-Counted (workflow_task_completed r) (inl e) =
      Counted-move (delete_task_rows r.task_id w.db) w'.db e.counted e.tables
        (dropped-Counted r.task_id w.db w.metrics h)
  Effect-Counted (workflow_task_completed r) (inr e) =
      Counted-move (delete_task_rows r.task_id e.view) w'.db e.counted e.tables (
        dropped-Counted r.task_id e.view _ (
          CommandsApplied-Counted (env.db_clock w.calls) e.exec r.workflow_id r.run_id w.metrics _ _
            _ e.applied
            (Counted-same w.db w.db
              (count_progress-counter (next_id_of r.workflow_id r.run_id w.db) w.metrics) refl h)))
  Effect-Counted (activity_task_completed r) e = Counted-move _ w'.db e.counted e.tables (
      activity_completed-Counted (env.db_clock w.calls) r.task_id r.workflow_id r.run_id e.task
        e.exec w.db w.metrics h r.result)
  Effect-Counted (activity_task_failed r) (inl e) =
      Counted-same w.db w'.db (λ k. rw e.counted (retries-counter w.metrics k))
        (rw e.tables (activity_retried-events r.task_id e.task _ w.db)) h
  Effect-Counted (activity_task_failed r) (inr e) = Counted-move _ w'.db e.counted e.tables (
      activity_failed-Counted (env.db_clock w.calls) r.task_id r.workflow_id r.run_id e.task e.exec
        w.db w.metrics h r.error)
  Effect-Counted (signal r) e = Counted-move _ w'.db e.counted e.tables (
      signal_received-Counted (env.db_clock e.calls) 0 r.workflow_id e.run_id zero_task e.exec w.db
        w.metrics h r.signal_name r.input)
  Effect-Counted reclaim_tick e =
      Counted-same w.db w'.db (λ k. rw e.counted (reclaims-counter e.rows w.metrics k))
        (rw (e.tables, e.reclaims.tables) refl) h
  Effect-Counted scan_tick e = Counted-move e.view w'.db e.counted e.tables (
      TimersFired-Counted (env.db_clock w.calls) w.db (due_at env w) w.db e.view w.metrics e.fired
        h)

Outcome-Counted :
    (env : Env) (c : Call) (w w' : World)
    → Outcome env c w w'
    → Counted w.metrics w.db
    → Counted w'.metrics w'.db
Outcome-Counted env c w w' (inl same) h = Counted-move w.db w'.db same.metrics same.db h
Outcome-Counted env c w w' (inr e) h = Effect-Counted env w w' h c e

boot-Counted : Counted new_metrics empty_db
boot-Counted k = ground arith

-- Over every life of an engine that began on an empty database, each of the nine counters is the
-- number of events of its type in the table, whatever failed on the way.
pub run-Counted : (cs : List (Env × Call)) → Counted (run boot cs).metrics (run boot cs).db
run-Counted cs =
    run-Keeps (λ w. Counted w.metrics w.db)
      (λ env c w h. Outcome-Counted env c w (perform env c w).1 (perform-Outcome env c w) h) boot cs
      boot-Counted
