-- ===== src/Examples/Lives.antt =====
-- The theorems on calls and lives of an engine at concrete inputs.
use my_temp.Common.{String_eq, refl, ℕ_eq, ◌≤◌}
use my_temp.Frontend.{signal_workflow_rpc, served}
use my_temp.Frontend.Errors.{failed_precondition}
use my_temp.Frontend.Replies.{HasCode, signal_over-failed_precondition}
use my_temp.Frontend.{unmarshal_commands}
use my_temp.Engine.{poll_workflow, activity_task_failed, boot}
use my_temp.Engine.Outcome.{Outcome, perform-Outcome}
use my_temp.Engine.Settled.{Settled, perform-Settled}
use my_temp.Invariant.{Inv}
use my_temp.Invariant.Calls.{run-Inv}
use my_temp.Counters.{Counted}
use my_temp.Counters.Calls.{run-Counted}
use my_temp.RunLife.{IsRow}
use my_temp.RunLife.Final.{over_is_final}
use my_temp.RunLife.Unique.{running_runs}
use my_temp.RunLife.Unique.Calls.{AreTimely, one_run_at_a_time}
use my_temp.Examples.{
  paid, ended_order, started_one, at_activity, at_end, calm_at, worker, charge_failed, two_starts,
  to_end,
}
use my_temp.Common.Int.{◌+ℤ◌}
use my_temp.Engine.{reclaim_once, perform, run}
use my_temp.Errors.{is}
use my_temp.Frontend.{
  unmarshal_commands, start_workflow_rpc, poll_workflow_task_rpc,
  respond_workflow_task_completed_rpc, respond_activity_task_completed_rpc, signal_workflow_rpc,
}
use my_temp.History.ActivityTask.{complete_activity_task}
use my_temp.History.Signal.{resolve_run, deliver_signal, signal_workflow}
use my_temp.History.Start.{check_not_running, insert_run, start_workflow}
use my_temp.History.Timers.{fire_timer, fire_timers, scan_timers}
use my_temp.History.WorkflowTask.{
  schedule_activity, start_timer, complete_workflow, apply_command, apply_commands, record_commands,
  complete_workflow_task,
}
use my_temp.Persistence.{
  insert_workflow_execution, get_workflow_execution, get_latest_execution, update_workflow_status,
  insert_event, get_events, insert_task, poll_task, get_task, reclaim_expired_leases, complete_task,
  insert_timer, get_due_timers, mark_timer_fired, insert_workflow_task_if_not_exists,
}
use my_temp.Persistence.Session.{
  ◌>>◌, wrapped, time_now, new_uuid, pool_query, pool_exec, begin_tx, tx_query, tx_exec, commit,
  deferring_rollback, count,
}
use my_temp.Persistence.Tables.{
  insert_execution_row, latest, set_status, insert_event_row, pollable, lease, delete_task_rows,
  insert_timer_row, due_timers, insert_workflow_task_row,
}

perform-Settled_example :
    let c = activity_task_failed charge_failed in
    Settled (calm_at 12 "") c at_activity (perform (calm_at 12 "") c at_activity)
perform-Settled_example =
    perform-Settled (calm_at 12 "") (activity_task_failed charge_failed) at_activity tt

order_has_ended : IsRow "order-1" "run-1" ended_order at_end.db
unfolding unmarshal_commands start_workflow_rpc poll_workflow_task_rpc
    respond_workflow_task_completed_rpc respond_activity_task_completed_rpc signal_workflow_rpc
    insert_workflow_execution get_workflow_execution get_latest_execution update_workflow_status
    insert_event get_events insert_task poll_task get_task reclaim_expired_leases complete_task
    insert_timer get_due_timers mark_timer_fired insert_workflow_task_if_not_exists is reclaim_once
    perform run fire_timer fire_timers scan_timers complete_activity_task resolve_run deliver_signal
    signal_workflow schedule_activity start_timer complete_workflow apply_command apply_commands
    record_commands complete_workflow_task check_not_running insert_run start_workflow ◌+ℤ◌ wrapped
    time_now new_uuid pool_query pool_exec begin_tx tx_query tx_exec commit deferring_rollback count
    insert_execution_row latest set_status insert_event_row pollable lease delete_task_rows
    insert_timer_row due_timers insert_workflow_task_row
order_has_ended = refl

over_is_final_example : IsRow "order-1" "run-1" ended_order (run at_end two_starts).db
over_is_final_example =
    over_is_final "order-1" "run-1" ended_order at_end two_starts refl order_has_ended

run-Inv_example : Inv (run boot to_end).db
run-Inv_example = run-Inv to_end

run-Counted_example : Counted (run boot to_end).metrics (run boot to_end).db
run-Counted_example = run-Counted to_end

perform-Outcome_example :
    let c = poll_workflow (worker "w1") in
    Outcome (calm_at 11 "") c started_one (perform (calm_at 11 "") c started_one).1
perform-Outcome_example = perform-Outcome (calm_at 11 "") (poll_workflow (worker "w1")) started_one

starts-AreTimely : AreTimely boot two_starts
unfolding start_workflow_rpc insert_workflow_execution get_latest_execution insert_event insert_task
    is perform check_not_running insert_run start_workflow ◌>>◌ wrapped new_uuid pool_query begin_tx
    tx_exec commit deferring_rollback count insert_execution_row latest insert_event_row
    insert_workflow_task_row
starts-AreTimely = (tt, ((refl, tt), tt))

one_run_at_a_time_example : running_runs "order-1" (run boot two_starts).db.executions ≤ 1
one_run_at_a_time_example = one_run_at_a_time two_starts "order-1" starts-AreTimely

signal_over-failed_precondition_example :
    HasCode failed_precondition (served (signal_workflow_rpc (calm_at 50 "") paid) at_end).0
signal_over-failed_precondition_example =
    signal_over-failed_precondition (calm_at 50 "") paid at_end ended_order (λ n. refl) refl
      order_has_ended refl
