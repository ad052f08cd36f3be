-- ===== src/History/Timers.antt =====
-- `ScanTimers` of internal/history/history.go
use my_temp.Common.{◌+◌, List, [], ◌∷◌, length}
use my_temp.Persistence.Types.{Timer}
use my_temp.Persistence.Session.{
  Env, M, pure, ◌>>=◌, ◌>>◌, wrapped, begin_tx, commit, deferring_rollback, count,
}
use my_temp.Persistence.{
  get_workflow_execution, get_events, get_due_timers, insert_event, insert_task, mark_timer_fired,
}
use my_temp.History.Rows.{next_event_id, timer_fired_event, replay_task}

module _ (env : Env) where
  -- The body of the loop. `GetEvents` reads through the pool, not through the transaction.
  unfoldable pub fire_timer : Timer → M (Unit {0})
  fire_timer timer = do
    events ← wrapped "get events" (get_events env timer.workflow_id timer.run_id)
    wrapped "insert timer fired event" (
        insert_event env
          (timer_fired_event timer.workflow_id timer.run_id (next_event_id events) timer))
    wrapped "mark timer fired" (mark_timer_fired env timer.id)
    exec ←
        wrapped "get workflow execution" (get_workflow_execution env timer.workflow_id timer.run_id)
    wrapped "insert workflow task"
        (insert_task env (replay_task timer.workflow_id timer.run_id exec (next_event_id events)))

  unfoldable pub fire_timers : List Timer → M (Unit {0})
  fire_timers [] = pure tt
  fire_timers (timer ∷ timers) = fire_timer timer >> fire_timers timers

  unfoldable pub scan_timers : M (Unit {0})
  scan_timers = do
    wrapped "begin transaction" (begin_tx env)
    deferring_rollback do
      due ← wrapped "get due timers" (get_due_timers env)
      fire_timers due
      wrapped "commit transaction" (commit env)
      count (λ m. record m { timers_fired = m.timers_fired + length due })
