-- ===== src/Examples/Tests.antt =====
-- Runs on the concrete inputs. Four of them show what the code does in cases that it does not handle.
use my_temp.Common.{ℕ, String, ◌≡◌, refl, List, [], ◌∷◌, map, none, true}
use my_temp.Persistence.Session.{World}
use my_temp.Engine.{boot}
use my_temp.Sdk.Workflow.{paused}
use my_temp.Sdk.Context.{new_context}
use my_temp.Examples.{
  to_end, two_timers, activity_after_end, two_answers, signal_in_flight, order_workflow, marshalled,
}
use my_temp.Common.Int.{◌+ℤ◌}
use my_temp.Engine.{reclaim_once, perform, run}
use my_temp.Errors.{is}
use my_temp.Frontend.{
  unmarshal_commands, start_workflow_rpc, poll_workflow_task_rpc,
  respond_workflow_task_completed_rpc, respond_activity_task_completed_rpc, signal_workflow_rpc,
}
use my_temp.History.ActivityTask.{complete_activity_task}
use my_temp.History.Signal.{resolve_run, deliver_signal, signal_workflow}
use my_temp.History.Start.{check_not_running, insert_run, start_workflow}
use my_temp.History.Timers.{fire_timer, fire_timers, scan_timers}
use my_temp.History.WorkflowTask.{
  schedule_activity, start_timer, complete_workflow, apply_command, apply_commands, record_commands,
  complete_workflow_task,
}
use my_temp.Persistence.{
  insert_workflow_execution, get_workflow_execution, get_latest_execution, update_workflow_status,
  insert_event, get_events, insert_task, poll_task, get_task, reclaim_expired_leases, complete_task,
  insert_timer, get_due_timers, mark_timer_fired, insert_workflow_task_if_not_exists,
}
use my_temp.Persistence.Session.{
  ◌>>◌, wrapped, time_now, new_uuid, pool_query, pool_exec, begin_tx, tx_query, tx_exec, commit,
  deferring_rollback, count,
}
use my_temp.Persistence.Tables.{
  insert_execution_row, latest, insert_event_row, events_of, pollable, lease, reclaim,
  delete_task_rows, insert_timer_row, due_timers, mark_fired, insert_workflow_task_row,
}
use my_temp.Sdk.Context.{has_pending_activities, signal_from}
use my_temp.Sdk.Workflow.{replay}

abbrev event_types : World → List String
event_types w = map (λ e. e.event_type) w.db.events

abbrev event_ids : World → List ℕ
event_ids w = map (λ e. e.event_id) w.db.events

order_is_recorded :
    event_types (run boot to_end)
    ≡ "WorkflowStarted" ∷ "ActivityScheduled" ∷ "TimerStarted" ∷ "ActivityCompleted" ∷ "TimerFired"
      ∷ "SignalReceived" ∷ "WorkflowCompleted" ∷ []
unfolding unmarshal_commands start_workflow_rpc poll_workflow_task_rpc
    respond_workflow_task_completed_rpc respond_activity_task_completed_rpc signal_workflow_rpc
    insert_workflow_execution get_workflow_execution get_latest_execution update_workflow_status
    insert_event get_events insert_task poll_task get_task reclaim_expired_leases complete_task
    insert_timer get_due_timers mark_timer_fired insert_workflow_task_if_not_exists is reclaim_once
    perform run fire_timer fire_timers scan_timers complete_activity_task resolve_run deliver_signal
    signal_workflow schedule_activity start_timer complete_workflow apply_command apply_commands
    record_commands complete_workflow_task check_not_running insert_run start_workflow ◌+ℤ◌ wrapped
    time_now new_uuid pool_query pool_exec begin_tx tx_query tx_exec commit deferring_rollback count
    insert_execution_row latest insert_event_row pollable lease delete_task_rows insert_timer_row
    due_timers mark_fired insert_workflow_task_row
order_is_recorded = refl

order_ids_rise : event_ids (run boot to_end) ≡ 1 ∷ 2 ∷ 3 ∷ 4 ∷ 5 ∷ 6 ∷ 7 ∷ []
unfolding unmarshal_commands start_workflow_rpc poll_workflow_task_rpc
    respond_workflow_task_completed_rpc respond_activity_task_completed_rpc signal_workflow_rpc
    insert_workflow_execution get_workflow_execution get_latest_execution update_workflow_status
    insert_event get_events insert_task poll_task get_task reclaim_expired_leases complete_task
    insert_timer get_due_timers mark_timer_fired insert_workflow_task_if_not_exists is reclaim_once
    perform run fire_timer fire_timers scan_timers complete_activity_task resolve_run deliver_signal
    signal_workflow schedule_activity start_timer complete_workflow apply_command apply_commands
    record_commands complete_workflow_task check_not_running insert_run start_workflow ◌+ℤ◌ wrapped
    time_now new_uuid pool_query pool_exec begin_tx tx_query tx_exec commit deferring_rollback count
    insert_execution_row latest insert_event_row events_of pollable lease delete_task_rows
    insert_timer_row due_timers mark_fired insert_workflow_task_row
order_ids_rise = refl

-- Both `TimerFired` events have the id 4.
two_timers_share_an_id : event_ids (run boot two_timers) ≡ 1 ∷ 2 ∷ 3 ∷ 4 ∷ 4 ∷ []
unfolding unmarshal_commands start_workflow_rpc respond_workflow_task_completed_rpc
    insert_workflow_execution get_workflow_execution get_latest_execution insert_event get_events
    insert_task complete_task insert_timer get_due_timers mark_timer_fired is perform run fire_timer
    fire_timers scan_timers start_timer apply_command apply_commands record_commands
    complete_workflow_task check_not_running insert_run start_workflow ◌+ℤ◌ ◌>>◌ wrapped time_now
    new_uuid pool_query begin_tx tx_query tx_exec commit deferring_rollback count
    insert_execution_row latest insert_event_row events_of delete_task_rows insert_timer_row
    due_timers mark_fired insert_workflow_task_row
two_timers_share_an_id = refl

-- `WorkflowCompleted` and the `ActivityScheduled` after it have the id 2.
end_and_activity_share_an_id : event_ids (run boot activity_after_end) ≡ 1 ∷ 2 ∷ 2 ∷ []
unfolding unmarshal_commands start_workflow_rpc respond_workflow_task_completed_rpc
    insert_workflow_execution get_workflow_execution get_latest_execution update_workflow_status
    insert_event get_events insert_task complete_task is perform run schedule_activity
    complete_workflow apply_command apply_commands record_commands complete_workflow_task
    check_not_running insert_run start_workflow ◌>>◌ wrapped new_uuid pool_query begin_tx tx_exec
    commit deferring_rollback count insert_execution_row latest insert_event_row events_of
    delete_task_rows insert_timer_row due_timers mark_fired insert_workflow_task_row
end_and_activity_share_an_id = refl

-- The activity is scheduled twice.
stale_answer_is_applied :
    event_types (run boot two_answers)
    ≡ "WorkflowStarted" ∷ "ActivityScheduled" ∷ "ActivityScheduled" ∷ []
unfolding unmarshal_commands start_workflow_rpc poll_workflow_task_rpc
    respond_workflow_task_completed_rpc insert_workflow_execution get_workflow_execution
    get_latest_execution insert_event get_events insert_task poll_task reclaim_expired_leases
    complete_task is reclaim_once perform run schedule_activity apply_command apply_commands
    record_commands complete_workflow_task check_not_running insert_run start_workflow ◌+ℤ◌ wrapped
    new_uuid pool_query pool_exec begin_tx tx_query tx_exec commit deferring_rollback count
    insert_execution_row latest insert_event_row pollable lease reclaim delete_task_rows
    insert_timer_row due_timers mark_fired insert_workflow_task_row
stale_answer_is_applied = refl

-- The signal is in the history, and no task is left that would let a worker see it.
signal_is_not_seen : (run boot signal_in_flight).db.tasks ≡ []
unfolding unmarshal_commands start_workflow_rpc poll_workflow_task_rpc
    respond_workflow_task_completed_rpc signal_workflow_rpc insert_workflow_execution
    get_workflow_execution get_latest_execution insert_event get_events insert_task poll_task
    complete_task insert_workflow_task_if_not_exists is perform run resolve_run deliver_signal
    signal_workflow apply_commands record_commands complete_workflow_task check_not_running
    insert_run start_workflow wrapped new_uuid pool_query begin_tx tx_query tx_exec commit
    deferring_rollback count insert_execution_row latest insert_event_row pollable lease
    delete_task_rows insert_timer_row due_timers mark_fired insert_workflow_task_row
signal_is_not_seen = refl

order_waits_for_payment :
    (replay
      (λ bytes. none)
      order_workflow
      (new_context
        (marshalled "WorkflowStarted" ""
          ∷ marshalled "ActivityScheduled" "Charge"
          ∷ marshalled "ActivityCompleted" "Charge"
          ∷ [])
        "orders")).0
    ≡ paused
unfolding replay signal_from insert_timer_row due_timers mark_fired insert_workflow_task_row
order_waits_for_payment = refl

order_is_pending :
    has_pending_activities (
      new_context
        (marshalled "ActivityScheduled" "Charge" ∷ marshalled "ActivityFailed" "Charge" ∷ [])
        "orders")
    ≡ true
unfolding has_pending_activities insert_timer_row due_timers mark_fired insert_workflow_task_row
order_is_pending = refl
