-- ===== src/Examples/Tasks.antt =====
-- The theorems on tasks and timers over the life of an engine, at concrete inputs.
use my_temp.Common.{String_eq, false, ◌≡◌, refl, ℕ_eq, [], ◌∷◌, some, All, ◌<◌, arith}
use my_temp.Common.Int.{pos, ltb_ℤ}
use my_temp.Persistence.Types.{Task}
use my_temp.Persistence.Session.{World, ok}
use my_temp.Persistence.Quiet.{Same, Succeeds}
use my_temp.History.Rows.{first_workflow_task}
use my_temp.Frontend.{unmarshal_commands}
use my_temp.Spec.Timers.{due_at}
use my_temp.Engine.{activity_task_failed, activity_task_completed, scan_tick, reclaim_tick}
use my_temp.Invariant.Calls.{run-Inv}
use my_temp.TaskLife.Reported.{report_failed, report_completed, reported_once}
use my_temp.TaskLife.Leased.{lease_end, leased_exclusively}
use my_temp.TimerLife.Once.{timers_fire_once}
use my_temp.Examples.{
  after_first, started_two, at_activity, calm_at, charge_failed, charge_done, two_starts,
  to_activity,
}
use my_temp.Common.Int.{◌+ℤ◌}
use my_temp.Engine.{reclaim_once, perform, run}
use my_temp.Errors.{is}
use my_temp.Frontend.{
  unmarshal_commands, start_workflow_rpc, poll_workflow_task_rpc,
  respond_workflow_task_completed_rpc, poll_activity_task_rpc, respond_activity_task_failed_rpc,
}
use my_temp.History.ActivityTask.{retry_activity, fail_activity_task}
use my_temp.History.Retry.{next_retry_delay}
use my_temp.History.Start.{check_not_running, insert_run, start_workflow}
use my_temp.History.Timers.{fire_timer, fire_timers, scan_timers}
use my_temp.History.WorkflowTask.{
  schedule_activity, start_timer, apply_command, apply_commands, record_commands,
  complete_workflow_task,
}
use my_temp.Persistence.{
  insert_workflow_execution, get_workflow_execution, get_latest_execution, insert_event, get_events,
  insert_task, poll_task, get_task, reclaim_expired_leases, complete_task, insert_timer,
  get_due_timers, mark_timer_fired,
}
use my_temp.Persistence.Session.{
  wrapped, time_now, new_uuid, rand_float, pool_query, pool_exec, begin_tx, tx_query, tx_exec,
  commit, deferring_rollback, count,
}
use my_temp.Persistence.Tables.{
  insert_execution_row, latest, insert_event_row, pollable, lease, reclaim, delete_task_rows,
  insert_timer_row, due_timers, insert_workflow_task_row,
}

abbrev first_task : Task
first_task = record (first_workflow_task "order-1" "run-1" "Order" "orders" (some (7 ∷ []))) {
  id = 1;
}

abbrev second_task : Task
second_task = record (first_workflow_task "order-2" "run-2" "Order" "orders" (some (7 ∷ []))) {
  id = 2;
}

abbrev after_second : World
after_second =
    (poll_task (calm_at 50 "") "orders" "workflow" "w2"
      (run after_first ((calm_at 50 "", reclaim_tick) ∷ []))).1

first_poll :
    poll_task (calm_at 20 "") "orders" "workflow" "w1" started_two
    ≡ (ok (some first_task), after_first)
unfolding start_workflow_rpc insert_workflow_execution get_latest_execution insert_event insert_task
    poll_task is perform run check_not_running insert_run start_workflow wrapped new_uuid pool_query
    begin_tx tx_query tx_exec commit deferring_rollback count insert_execution_row latest
    insert_event_row pollable insert_workflow_task_row
first_poll = refl

second_poll :
    poll_task
      (calm_at 50 "")
      "orders"
      "workflow"
      "w2"
      (run after_first ((calm_at 50 "", reclaim_tick) ∷ []))
    ≡ (ok (some second_task), after_second)
unfolding start_workflow_rpc insert_workflow_execution get_latest_execution insert_event insert_task
    poll_task reclaim_expired_leases is reclaim_once perform run check_not_running insert_run
    start_workflow ◌+ℤ◌ wrapped new_uuid pool_query pool_exec begin_tx tx_query tx_exec commit
    deferring_rollback count insert_execution_row latest insert_event_row pollable lease reclaim
    insert_workflow_task_row
second_poll = refl

early_enough : ltb_ℤ (lease_end (pos 20000000000)) (pos 50000000000) ≡ false
unfolding ◌+ℤ◌
early_enough = refl

leased_exclusively_example : ¬ (second_task.id ≡ first_task.id)
leased_exclusively_example =
    leased_exclusively (calm_at 20 "") (calm_at 50 "") "orders" "workflow" "w1" "orders" "workflow"
      "w2" started_two after_first after_second first_task second_task
      ((calm_at 50 "", reclaim_tick) ∷ []) (run-Inv two_starts) first_poll ((λ n. early_enough), tt)
      second_poll

failure_accepted :
    Succeeds (perform (calm_at 12 "") (activity_task_failed charge_failed) at_activity)
unfolding unmarshal_commands start_workflow_rpc poll_workflow_task_rpc
    respond_workflow_task_completed_rpc poll_activity_task_rpc respond_activity_task_failed_rpc
    insert_workflow_execution get_workflow_execution get_latest_execution insert_event get_events
    insert_task poll_task get_task complete_task insert_timer is perform run retry_activity
    fail_activity_task schedule_activity start_timer apply_command apply_commands record_commands
    complete_workflow_task next_retry_delay check_not_running insert_run start_workflow wrapped
    time_now new_uuid rand_float pool_query begin_tx tx_query tx_exec commit deferring_rollback
    count insert_execution_row latest insert_event_row pollable lease delete_task_rows
    insert_timer_row insert_workflow_task_row
failure_accepted = tt

reported_once_example :
    let w =
      run
        (perform (calm_at 12 "") (activity_task_failed charge_failed) at_activity).1
        ((calm_at 14 "", scan_tick) ∷ []) in
    Same w (perform (calm_at 20 "") (activity_task_completed charge_done) w).1
reported_once_example =
    reported_once (calm_at 12 "") (calm_at 20 "") (report_failed charge_failed)
      (report_completed charge_done) at_activity ((calm_at 14 "", scan_tick) ∷ [])
      (run-Inv to_activity) refl failure_accepted

timers_are_numbered : All (λ t. t.id < at_activity.db.next_timer) at_activity.db.timers
unfolding unmarshal_commands start_workflow_rpc poll_workflow_task_rpc
    respond_workflow_task_completed_rpc poll_activity_task_rpc insert_workflow_execution
    get_workflow_execution get_latest_execution insert_event get_events insert_task poll_task
    complete_task insert_timer is perform run schedule_activity start_timer apply_command
    apply_commands record_commands complete_workflow_task check_not_running insert_run
    start_workflow wrapped time_now new_uuid pool_query begin_tx tx_query tx_exec commit
    deferring_rollback count insert_execution_row latest insert_event_row pollable lease
    delete_task_rows insert_timer_row insert_workflow_task_row
timers_are_numbered = (omega arith, tt)

scan_succeeds : Succeeds (perform (calm_at 14 "") scan_tick at_activity)
unfolding unmarshal_commands start_workflow_rpc poll_workflow_task_rpc
    respond_workflow_task_completed_rpc poll_activity_task_rpc insert_workflow_execution
    get_workflow_execution get_latest_execution insert_event get_events insert_task poll_task
    complete_task insert_timer get_due_timers mark_timer_fired is perform run fire_timer fire_timers
    scan_timers schedule_activity start_timer apply_command apply_commands record_commands
    complete_workflow_task check_not_running insert_run start_workflow ◌+ℤ◌ wrapped time_now
    new_uuid pool_query begin_tx tx_query tx_exec commit deferring_rollback count
    insert_execution_row latest insert_event_row pollable lease delete_task_rows insert_timer_row
    due_timers insert_workflow_task_row
scan_succeeds = tt

timers_fire_once_example :
    All
      (λ t.
        All
          (λ u. ¬ (u.id ≡ t.id))
          (due_at (calm_at 30 "") (
            run
              (perform (calm_at 14 "") scan_tick at_activity).1
              ((calm_at 20 "", scan_tick) ∷ []))))
      (due_at (calm_at 14 "") at_activity)
timers_fire_once_example =
    timers_fire_once (calm_at 14 "") (calm_at 30 "") at_activity ((calm_at 20 "", scan_tick) ∷ [])
      timers_are_numbered scan_succeeds
