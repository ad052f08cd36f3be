-- ===== src/Examples/Order.antt =====
-- One order from the API to the shipment, through the engine and a worker.
use my_temp.Common.{
  String, String_eq, ◌==◌, ◌≡◌, refl, List, [], ◌∷◌, Option, none, some, map, if◌then◌else◌,
}
use my_temp.Persistence.Session.{World}
use my_temp.Engine.{boot}
use my_temp.Sdk.Worker.{WorkflowFunction, ActivityFunction}
use my_temp.Sdk.Registry.{Worker}
use my_temp.Sdk.Loops.{Wake, workflows, activities, done, turn}
use my_temp.Pizza.{stock_in, charge_in}
use my_temp.Examples.{calm_at, plain_codec, plain_web, pizza, no_error}
use my_temp.Common.Int.{◌+ℤ◌}
use my_temp.Common.Text.{utf8}
use my_temp.Engine.{reclaim_once, perform, run}
use my_temp.Errors.{is, error_text}
use my_temp.Frontend.{
  unmarshal_command, unmarshal_commands, marshal_event, marshal_events, start_workflow_rpc,
  poll_workflow_task_rpc, respond_workflow_task_completed_rpc, poll_activity_task_rpc,
  respond_activity_task_completed_rpc, respond_activity_task_failed_rpc, signal_workflow_rpc,
  served,
}
use my_temp.Frontend.Errors.{to_status}
use my_temp.History.ActivityTask.{
  complete_activity_task, retry_activity, give_up_activity, fail_activity_task,
}
use my_temp.History.Retry.{jittered_delay, next_retry_delay}
use my_temp.History.Signal.{resolve_run, deliver_signal}
use my_temp.History.Start.{check_not_running, insert_run, start_workflow}
use my_temp.History.Timers.{fire_timer, fire_timers, scan_timers}
use my_temp.History.WorkflowTask.{
  schedule_activity, start_timer, complete_workflow, fail_workflow, apply_command, apply_commands,
  drop_task, record_commands, complete_workflow_task,
}
use my_temp.Persistence.{
  insert_workflow_execution, get_workflow_execution, get_latest_execution, update_workflow_status,
  insert_event, get_events, insert_task, poll_task, get_task, reclaim_expired_leases, complete_task,
  insert_timer, get_due_timers, mark_timer_fired, insert_workflow_task_if_not_exists,
}
use my_temp.Persistence.Session.{
  ◌>>=◌, ◌>>◌, wrapped, time_now, new_uuid, rand_float, pool_query, pool_exec, begin_tx, tx_query,
  tx_exec, commit, deferring_rollback, count,
}
use my_temp.Persistence.Tables.{
  insert_execution_row, latest, set_status, insert_event_row, events_of, insert_task_row, pollable,
  lease, reclaim, delete_task_rows, insert_timer_row, due_timers, mark_fired,
  insert_workflow_task_row,
}
use my_temp.Pizza.{test_workflow, check_stock, charge_card, ship_order}
use my_temp.Pizza.Api.{order_handler}
use my_temp.Sdk.Client.{
  connected, new_client, start_new_workflow, poll_workflow_task, respond_workflow_task_completed,
  poll_activity_task, respond_activity_task_completed, respond_activity_task_failed,
}
use my_temp.Sdk.Context.{
  has_pending_activities, get_from, execute_activity, sleep, signal_from, receive_signal,
}
use my_temp.Sdk.Loops.{
  workflow_turn, activity_turn, until_done, poll_workflow_tasks, poll_activity_tasks, run_from,
  run_worker,
}
use my_temp.Sdk.Worker.{input_bytes, run_workflow, execute_workflow_task, execute_activity_task}
use my_temp.Sdk.Workflow.{replay}
use my_temp.Spec.Effects.{
  started, command_effect, activity_completed, activity_retried, activity_failed, timer_fired,
  signal_received,
}

-- The functions of the example worker; the card is charged at the third attempt of the process.
abbrev workflow_functions : String → Option WorkflowFunction
workflow_functions name =
    if name == "TestWorkflow"
    then some (record { input_error = no_error; body = λ bytes. test_workflow plain_codec pizza })
    else none

abbrev activity_functions : String → Option ActivityFunction
activity_functions name =
    if name == "CheckStock"
    then some (record { input_error = no_error; call = λ bytes. check_stock plain_codec pizza })
    else if name == "ChargeCard"
    then some (record {
      input_error = no_error;
      call = λ bytes. (charge_card plain_codec 2 (stock_in plain_codec bytes)).0;
    })
    else some (record {
      input_error = no_error;
      call = λ bytes. ship_order plain_codec (charge_in plain_codec bytes);
    })

abbrev example_worker : Worker
example_worker = record {
  id = "w1";
  queue = "test";
  workflow_functions = workflow_functions;
  activity_functions = activity_functions;
}

abbrev ordered : World
ordered = (order_handler plain_web (connected (calm_at 10 "run-1")) (some (1 ∷ [])) boot).1

abbrev wakes : List Wake
wakes =
    workflows (turn (connected (calm_at 11 "")))
    ∷ activities (turn (connected (calm_at 12 "")))
    ∷ workflows (turn (connected (calm_at 13 "")))
    ∷ activities (turn (connected (calm_at 14 "")))
    ∷ workflows (turn (connected (calm_at 15 "")))
    ∷ activities (turn (connected (calm_at 16 "")))
    ∷ workflows (turn (connected (calm_at 17 "")))
    ∷ workflows done
    ∷ activities done
    ∷ []

abbrev statuses : Option World → List String
statuses none = []
statuses (some w) = map (λ x. x.status) w.db.executions

abbrev events : Option World → List String
events none = []
events (some w) = map (λ e. e.event_type) w.db.events

order_is_shipped : statuses (run_worker no_error example_worker wakes ordered) ≡ "Completed" ∷ []
unfolding test_workflow check_stock charge_card ship_order unmarshal_command unmarshal_commands
    marshal_event marshal_events start_workflow_rpc poll_workflow_task_rpc
    respond_workflow_task_completed_rpc poll_activity_task_rpc respond_activity_task_completed_rpc
    respond_activity_task_failed_rpc signal_workflow_rpc served insert_workflow_execution
    get_workflow_execution get_latest_execution update_workflow_status insert_event get_events
    insert_task poll_task get_task reclaim_expired_leases complete_task insert_timer get_due_timers
    mark_timer_fired insert_workflow_task_if_not_exists is error_text reclaim_once perform run
    order_handler started command_effect activity_completed activity_retried activity_failed
    timer_fired signal_received replay workflow_turn activity_turn until_done poll_workflow_tasks
    poll_activity_tasks run_from run_worker has_pending_activities get_from execute_activity sleep
    signal_from receive_signal connected new_client start_new_workflow poll_workflow_task
    respond_workflow_task_completed poll_activity_task respond_activity_task_completed
    respond_activity_task_failed input_bytes run_workflow execute_workflow_task
    execute_activity_task fire_timer fire_timers scan_timers complete_activity_task retry_activity
    give_up_activity fail_activity_task resolve_run deliver_signal schedule_activity start_timer
    complete_workflow fail_workflow apply_command apply_commands drop_task record_commands
    complete_workflow_task jittered_delay next_retry_delay check_not_running insert_run
    start_workflow to_status utf8 ◌+ℤ◌ ◌>>=◌ ◌>>◌ wrapped time_now new_uuid rand_float pool_query
    pool_exec begin_tx tx_query tx_exec commit deferring_rollback count insert_execution_row latest
    set_status insert_event_row events_of insert_task_row pollable lease reclaim delete_task_rows
    insert_timer_row due_timers mark_fired insert_workflow_task_row
order_is_shipped = refl

order_is_told :
    events (run_worker no_error example_worker wakes ordered)
    ≡ "WorkflowStarted" ∷ "ActivityScheduled" ∷ "ActivityCompleted" ∷ "ActivityScheduled"
      ∷ "ActivityCompleted" ∷ "ActivityScheduled" ∷ "ActivityCompleted" ∷ "WorkflowCompleted" ∷ []
unfolding test_workflow check_stock charge_card ship_order unmarshal_command unmarshal_commands
    marshal_event marshal_events start_workflow_rpc poll_workflow_task_rpc
    respond_workflow_task_completed_rpc poll_activity_task_rpc respond_activity_task_completed_rpc
    respond_activity_task_failed_rpc signal_workflow_rpc served insert_workflow_execution
    get_workflow_execution get_latest_execution update_workflow_status insert_event get_events
    insert_task poll_task get_task reclaim_expired_leases complete_task insert_timer get_due_timers
    mark_timer_fired insert_workflow_task_if_not_exists is error_text reclaim_once perform run
    order_handler started command_effect activity_completed activity_retried activity_failed
    timer_fired signal_received replay workflow_turn activity_turn until_done poll_workflow_tasks
    poll_activity_tasks run_from run_worker has_pending_activities get_from execute_activity sleep
    signal_from receive_signal connected new_client start_new_workflow poll_workflow_task
    respond_workflow_task_completed poll_activity_task respond_activity_task_completed
    respond_activity_task_failed input_bytes run_workflow execute_workflow_task
    execute_activity_task fire_timer fire_timers scan_timers complete_activity_task retry_activity
    give_up_activity fail_activity_task resolve_run deliver_signal schedule_activity start_timer
    complete_workflow fail_workflow apply_command apply_commands drop_task record_commands
    complete_workflow_task jittered_delay next_retry_delay check_not_running insert_run
    start_workflow to_status utf8 ◌+ℤ◌ ◌>>=◌ ◌>>◌ wrapped time_now new_uuid rand_float pool_query
    pool_exec begin_tx tx_query tx_exec commit deferring_rollback count insert_execution_row latest
    set_status insert_event_row events_of insert_task_row pollable lease reclaim delete_task_rows
    insert_timer_row due_timers mark_fired insert_workflow_task_row
order_is_told = refl
