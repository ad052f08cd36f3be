-- ===== src/Examples/Replies.antt =====
-- The theorems on the answers of the engine and on its delays at concrete inputs.
use my_temp.Common.{String_eq, ◌≡◌, refl, ◌==◌, ℕ_eq, none, some, find}
use my_temp.Common.Int.{pos}
use my_temp.Errors.{failure, wrap}
use my_temp.Persistence.Types.{WorkflowExecution}
use my_temp.History.Rows.{started_execution}
use my_temp.Frontend.{unmarshal_commands}
use my_temp.Frontend.Errors.{internal, already_exists, code_not_found}
use my_temp.Frontend.Replies.{
  HasCode, internal_errors_alike, start_running-already_exists, complete_missing-not_found,
}
use my_temp.Spec.Start.{latest_of}
use my_temp.Examples.{started_one, at_end, calm_at, start_order, charge_done}
use my_temp.Common.Int.{◌+ℤ◌}
use my_temp.Engine.{reclaim_once, perform, run}
use my_temp.Errors.{is}
use my_temp.Frontend.{
  unmarshal_commands, start_workflow_rpc, poll_workflow_task_rpc,
  respond_workflow_task_completed_rpc, respond_activity_task_completed_rpc, signal_workflow_rpc,
  served,
}
use my_temp.Frontend.Errors.{to_status}
use my_temp.History.ActivityTask.{complete_activity_task}
use my_temp.History.Signal.{resolve_run, deliver_signal, signal_workflow}
use my_temp.History.Start.{check_not_running, insert_run, start_workflow}
use my_temp.History.Timers.{fire_timer, fire_timers, scan_timers}
use my_temp.History.WorkflowTask.{
  schedule_activity, start_timer, complete_workflow, apply_command, apply_commands, record_commands,
  complete_workflow_task,
}
use my_temp.Persistence.{
  insert_workflow_execution, get_workflow_execution, get_latest_execution, update_workflow_status,
  insert_event, get_events, insert_task, poll_task, get_task, reclaim_expired_leases, complete_task,
  insert_timer, get_due_timers, mark_timer_fired, insert_workflow_task_if_not_exists,
}
use my_temp.Persistence.Session.{
  ◌>>◌, wrapped, time_now, new_uuid, pool_query, pool_exec, begin_tx, tx_query, tx_exec, commit,
  deferring_rollback, count,
}
use my_temp.Persistence.Tables.{
  insert_execution_row, latest, insert_event_row, pollable, lease, reclaim, delete_task_rows,
  insert_timer_row, due_timers, insert_workflow_task_row,
}

disk_full-internal : (to_status (failure "disk full")).code ≡ internal
unfolding to_status is
disk_full-internal = refl

commit_failed-internal : (to_status (wrap "commit" (failure "timeout"))).code ≡ internal
unfolding to_status is
commit_failed-internal = refl

internal_errors_alike_example :
    to_status (failure "disk full") ≡ to_status (wrap "commit" (failure "timeout"))
internal_errors_alike_example =
    internal_errors_alike (failure "disk full") (wrap "commit" (failure "timeout"))
      disk_full-internal commit_failed-internal

abbrev running_order : WorkflowExecution
running_order = record (started_execution "order-1" "run-1" "Order" "orders") {
  started_at = pos 10000000000;
}

order_is_latest : latest_of "order-1" started_one.db ≡ some running_order
unfolding start_workflow_rpc insert_workflow_execution get_latest_execution insert_event insert_task
    is perform run check_not_running insert_run start_workflow ◌>>◌ wrapped new_uuid pool_query
    begin_tx tx_exec commit deferring_rollback count insert_execution_row latest insert_event_row
    insert_workflow_task_row
order_is_latest = refl

start_running-already_exists_example :
    HasCode already_exists
      (served (start_workflow_rpc (calm_at 11 "run-2") (start_order "order-1")) started_one).0
start_running-already_exists_example =
    start_running-already_exists (calm_at 11 "run-2") (start_order "order-1") started_one
      running_order (λ n. refl) order_is_latest refl

no_charge : find (λ t. t.id == 2) at_end.db.tasks ≡ none
unfolding unmarshal_commands start_workflow_rpc poll_workflow_task_rpc
    respond_workflow_task_completed_rpc respond_activity_task_completed_rpc signal_workflow_rpc
    insert_workflow_execution get_workflow_execution get_latest_execution update_workflow_status
    insert_event get_events insert_task poll_task get_task reclaim_expired_leases complete_task
    insert_timer get_due_timers mark_timer_fired insert_workflow_task_if_not_exists is reclaim_once
    perform run fire_timer fire_timers scan_timers complete_activity_task resolve_run deliver_signal
    signal_workflow schedule_activity start_timer complete_workflow apply_command apply_commands
    record_commands complete_workflow_task check_not_running insert_run start_workflow ◌+ℤ◌ wrapped
    time_now new_uuid pool_query pool_exec begin_tx tx_query tx_exec commit deferring_rollback count
    insert_execution_row latest insert_event_row pollable lease reclaim delete_task_rows
    insert_timer_row due_timers insert_workflow_task_row
no_charge = refl

complete_missing-not_found_example :
    HasCode code_not_found
      (served (respond_activity_task_completed_rpc (calm_at 50 "") charge_done) at_end).0
complete_missing-not_found_example =
    complete_missing-not_found (calm_at 50 "") charge_done at_end (λ n. refl) no_charge
