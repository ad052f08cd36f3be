-- ===== src/Examples/Histories.antt =====
-- The theorems on histories and on the way from a client to a worker at concrete inputs.
use my_temp.Common.{
  All, ◌≤◌, ◌+◌, ◌<◌, ◌^◌, String, String_eq, ℕ_eq, ◌==◌, false, ◌≡◌, refl, List, [], ◌∷◌, ◌++◌,
  some, arith, length, subst,
}
use my_temp.Persistence.Types.{Event}
use my_temp.Persistence.Session.{World}
use my_temp.Proto.{PollWorkflowTaskResponse, no_workflow_task}
use my_temp.Frontend.{Reply, response, status_error}
use my_temp.Engine.{reclaim_tick, boot}
use my_temp.Journal.Calls.{history_only_grows}
use my_temp.System.Ready.{Given, started_run_can_be_polled}
use my_temp.Journal.Bounds.{Ascending, event_ids_in_bounds}
use my_temp.System.Input.{input_round_trip}
use my_temp.Examples.{calm_at, to_end, one_start}
use my_temp.Common.Int.{◌+ℤ◌}
use my_temp.Engine.{reclaim_once, perform, run}
use my_temp.Errors.{is}
use my_temp.Frontend.{
  unmarshal_commands, start_workflow_rpc, poll_workflow_task_rpc,
  respond_workflow_task_completed_rpc, respond_activity_task_completed_rpc, signal_workflow_rpc,
  served,
}
use my_temp.History.ActivityTask.{complete_activity_task}
use my_temp.History.Signal.{resolve_run, deliver_signal, signal_workflow}
use my_temp.History.Start.{check_not_running, insert_run, start_workflow}
use my_temp.History.Timers.{fire_timer, fire_timers, scan_timers}
use my_temp.History.WorkflowTask.{
  schedule_activity, start_timer, complete_workflow, apply_command, apply_commands, record_commands,
  complete_workflow_task,
}
use my_temp.Persistence.{
  insert_workflow_execution, get_workflow_execution, get_latest_execution, update_workflow_status,
  insert_event, get_events, insert_task, poll_task, get_task, reclaim_expired_leases, complete_task,
  insert_timer, get_due_timers, mark_timer_fired, insert_workflow_task_if_not_exists,
}
use my_temp.Persistence.Session.{
  ◌>>◌, wrapped, time_now, new_uuid, pool_query, pool_exec, begin_tx, tx_query, tx_exec, commit,
  deferring_rollback, count,
}
use my_temp.Persistence.Tables.{
  insert_execution_row, latest, insert_event_row, events_of, pollable, lease, reclaim,
  delete_task_rows, insert_timer_row, due_timers, insert_workflow_task_row,
}
use my_temp.Sdk.Client.{connected, start_new_workflow, poll_workflow_task}
use my_temp.Sdk.Worker.{input_bytes}

few_facts :
    (length (events_of "order-1" "run-1" (run (run boot one_start) to_end).db) + 1 < 2 ^ 64)
    × (length (events_of "order-1" "run-1" (run boot to_end).db) + 1 < 2 ^ 64)
unfolding unmarshal_commands start_workflow_rpc poll_workflow_task_rpc
    respond_workflow_task_completed_rpc respond_activity_task_completed_rpc signal_workflow_rpc
    insert_workflow_execution get_workflow_execution get_latest_execution update_workflow_status
    insert_event get_events insert_task poll_task get_task reclaim_expired_leases complete_task
    insert_timer get_due_timers mark_timer_fired insert_workflow_task_if_not_exists is reclaim_once
    perform run signal_workflow fire_timer fire_timers scan_timers complete_activity_task
    resolve_run deliver_signal schedule_activity start_timer complete_workflow apply_command
    apply_commands record_commands complete_workflow_task check_not_running insert_run
    start_workflow ◌+ℤ◌ wrapped time_now new_uuid pool_query pool_exec begin_tx tx_query tx_exec
    commit deferring_rollback count insert_execution_row latest insert_event_row events_of pollable
    lease delete_task_rows insert_timer_row due_timers insert_workflow_task_row
few_facts = ((omega arith), (omega arith))

history_only_grows_example :
    (news : List Event) × (events_of "order-1" "run-1" (run (run boot one_start) to_end).db
      ≡ events_of "order-1" "run-1" (run boot one_start).db ++ news)
history_only_grows_example = history_only_grows "order-1" "run-1" one_start to_end few_facts.0

abbrev client_start : Reply String × World
client_start =
    start_new_workflow (connected (calm_at 10 "run-1")) "order-1" "Order" "orders" (some (7 ∷ []))
      (run boot [])

abbrev reply_task : Reply PollWorkflowTaskResponse × World → PollWorkflowTaskResponse
reply_task (response task, w) = task
reply_task (status_error s, w) = no_workflow_task

abbrev client_poll : Reply PollWorkflowTaskResponse × World
client_poll =
    poll_workflow_task (connected (calm_at 12 "")) "orders" "w1"
      (run client_start.1 ((calm_at 11 "", reclaim_tick) ∷ []))

abbrev Answered : {A : Type 0} → Reply A × World → Type 0
Answered (response a, w) = Unit {0}
Answered (status_error s, w) = ⊥

abbrev text_in : Reply String × World → String
text_in (response a, w) = a
text_in (status_error s, w) = ""

told : (r : Reply String × World) → Answered r → r ≡ (response (text_in r), r.1)
told (response a, w) h = refl
told (status_error s, w) h = absurd h

given :
    (r : Reply PollWorkflowTaskResponse × World) → Answered r → r ≡ (response (reply_task r), r.1)
given (response a, w) h = refl
given (status_error s, w) h = absurd h

client_facts :
    (Answered client_start)
    × (text_in client_start ≡ "run-1")
    × (Answered client_poll)
    × (((reply_task client_poll).task_id == 0) ≡ false)
    × ((reply_task client_poll).workflow_id ≡ "order-1")
    × ((reply_task client_poll).run_id ≡ "run-1")
    × (length (events_of "order-1" "run-1" client_poll.1.db) + 1 < 2 ^ 64)
unfolding start_workflow_rpc poll_workflow_task_rpc served insert_workflow_execution
    get_latest_execution insert_event get_events insert_task poll_task reclaim_expired_leases is
    reclaim_once perform run connected start_new_workflow poll_workflow_task check_not_running
    insert_run start_workflow ◌>>◌ wrapped new_uuid pool_query pool_exec begin_tx tx_query tx_exec
    commit deferring_rollback count insert_execution_row latest insert_event_row events_of pollable
    reclaim insert_workflow_task_row
client_facts = (tt, refl, tt, refl, refl, refl, (omega arith))

client_is_told : client_start ≡ (response "run-1", client_start.1)
client_is_told =
    subst (λ t. client_start ≡ (response t, client_start.1)) client_facts.1
      (told client_start client_facts.0)

worker_is_given : client_poll ≡ (response (reply_task client_poll), client_poll.1)
worker_is_given = given client_poll client_facts.2

input_round_trip_example : input_bytes (reply_task client_poll).history ≡ some (7 ∷ [])
input_round_trip_example =
    input_round_trip "order-1" "Order" "orders" (some (7 ∷ [])) []
      ((calm_at 11 "", reclaim_tick) ∷ []) (calm_at 10 "run-1") (calm_at 12 "") "run-1" "orders"
      "w1" client_start.1 client_poll.1 (reply_task client_poll) client_is_told worker_is_given
      client_facts.3 client_facts.4 client_facts.5 client_facts.6

started_run_can_be_polled_example :
    Given
      (calm_at 12 "")
      "orders"
      "w1"
      client_start.1
      (poll_workflow_task (connected (calm_at 12 "")) "orders" "w1" client_start.1)
started_run_can_be_polled_example =
    started_run_can_be_polled "order-1" "Order" "orders" (some (7 ∷ [])) [] (calm_at 10 "run-1")
      (calm_at 12 "") "run-1" "w1" client_start.1 client_is_told (λ n. refl) refl (λ n. refl)

event_ids_in_bounds_example :
    Ascending (events_of "order-1" "run-1" (run boot to_end).db)
    × All
        (λ e. e.event_id ≤ length (events_of "order-1" "run-1" (run boot to_end).db))
        (events_of "order-1" "run-1" (run boot to_end).db)
event_ids_in_bounds_example = event_ids_in_bounds "order-1" "run-1" to_end few_facts.1
