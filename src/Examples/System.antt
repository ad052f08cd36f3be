-- ===== src/Examples/System.antt =====
-- A second task of a run at a concrete input.
use my_temp.Common.{
  ◌+◌, ◌<◌, ◌^◌, String, String_eq, ℕ_eq, ◌==◌, true, false, ◌≡◌, refl, List, [], ◌∷◌, Option, none,
  some, if◌then◌else◌, arith, length, ◌∙◌, sym,
}
use my_temp.Persistence.Session.{Env, World, Result, ok, err}
use my_temp.Proto.{PollWorkflowTaskResponse, no_workflow_task}
use my_temp.Engine.{
  Call, start, poll_workflow, workflow_task_completed, activity_task_completed, scan_tick, boot,
}
use my_temp.Sdk.Workflow.{finish, execute, get, paused}
use my_temp.Sdk.Worker.{WorkflowFunction, unreadable, answer_with}
use my_temp.System.Recorded.{Runs, first}
use my_temp.System.Round.{second_task_is_harmless}
use my_temp.Examples.{no_error, calm_at, start_order, worker, charge_and_wait, charge_done}
use my_temp.Common.Int.{◌+ℤ◌}
use my_temp.Engine.{perform, run}
use my_temp.Errors.{is}
use my_temp.Frontend.{
  unmarshal_commands, marshal_events, start_workflow_rpc, poll_workflow_task_rpc,
  respond_workflow_task_completed_rpc, respond_activity_task_completed_rpc,
}
use my_temp.History.ActivityTask.{complete_activity_task}
use my_temp.History.Start.{check_not_running, insert_run, start_workflow}
use my_temp.History.Timers.{fire_timer, fire_timers, scan_timers}
use my_temp.History.WorkflowTask.{
  schedule_activity, start_timer, apply_command, apply_commands, record_commands,
  complete_workflow_task,
}
use my_temp.Persistence.{
  insert_workflow_execution, get_workflow_execution, get_latest_execution, insert_event, get_events,
  insert_task, poll_task, get_task, complete_task, insert_timer, get_due_timers, mark_timer_fired,
}
use my_temp.Persistence.Session.{
  wrapped, time_now, new_uuid, pool_query, begin_tx, tx_query, tx_exec, commit, deferring_rollback,
  count,
}
use my_temp.Persistence.Tables.{
  insert_execution_row, latest, insert_event_row, events_of, pollable, lease, delete_task_rows,
  insert_timer_row, due_timers, insert_workflow_task_row,
}
use my_temp.Sdk.Worker.{input_bytes, run_workflow, execute_workflow_task}
use my_temp.Sdk.Workflow.{replay}

-- The charge is done and the timer has fired: each has queued a task of the run.
abbrev two_tasks : List (Env × Call)
two_tasks =
    (calm_at 10 "run-1", start (start_order "order-1"))
    ∷ (calm_at 11 "", poll_workflow (worker "w1"))
    ∷ (calm_at 12 "", workflow_task_completed charge_and_wait)
    ∷ (calm_at 13 "", activity_task_completed charge_done)
    ∷ (calm_at 14 "", scan_tick)
    ∷ []

-- Charge, and then send.
abbrev sending : WorkflowFunction
sending = record {
  input_error = no_error;
  body = λ bytes.
      execute "Charge" none
        (λ f. get f true (λ a. execute "Send" none (λ g. get g true (λ b. finish none))));
}

abbrev functions : String → Option WorkflowFunction
functions name = if name == "Order" then some sending else none

abbrev task_in : Result PollWorkflowTaskResponse × World → PollWorkflowTaskResponse
task_in (ok task, w) = task
task_in (err e, w) = no_workflow_task

abbrev first_poll : Result PollWorkflowTaskResponse × World
first_poll = poll_workflow_task_rpc (calm_at 15 "") (worker "w1") (run boot two_tasks)

abbrev answered : World
answered =
    (perform (calm_at 16 "")
      (workflow_task_completed (run_workflow no_error "orders" (task_in first_poll) sending))
      first_poll.1).1

abbrev second_poll : Result PollWorkflowTaskResponse × World
second_poll = poll_workflow_task_rpc (calm_at 17 "") (worker "w1") answered

abbrev Succeeded : {A : Type 0} → Result A × World → Type 0
Succeeded (ok a, w) = Unit {0}
Succeeded (err e, w) = ⊥

gives : (r : Result PollWorkflowTaskResponse × World) → Succeeded r → r ≡ (ok (task_in r), r.1)
gives (ok task, w) h = refl
gives (err e, w) h = absurd h

takes : (r : Result (Unit {0}) × World) → Succeeded r → r ≡ (ok tt, r.1)
takes (ok tt, w) h = refl
takes (err e, w) h = absurd h

round_facts :
    (Succeeded first_poll)
    × (((task_in first_poll).task_id == 0) ≡ false)
    × (Runs (task_in first_poll).workflow_id (task_in first_poll).run_id first_poll.1)
    × (functions (task_in first_poll).workflow_type ≡ some sending)
    × (unreadable no_error (input_bytes (task_in first_poll).history) ≡ none)
    × ((first no_error "orders" (task_in first_poll) sending).0 ≡ paused)
    × (Succeeded (
        perform
          (calm_at 16 "")
          (workflow_task_completed (run_workflow no_error "orders" (task_in first_poll) sending))
          first_poll.1))
    × (Succeeded second_poll)
    × (((task_in second_poll).task_id == 0) ≡ false)
    × ((task_in first_poll).workflow_id ≡ "order-1")
    × ((task_in second_poll).workflow_id ≡ "order-1")
    × ((task_in first_poll).run_id ≡ "run-1")
    × ((task_in second_poll).run_id ≡ "run-1")
    × ((task_in first_poll).workflow_type ≡ "Order")
    × ((task_in second_poll).workflow_type ≡ "Order")
    × (length (
            events_of (task_in first_poll).workflow_id (task_in first_poll).run_id second_poll.1.db)
          + 1
        < 2 ^ 64)
unfolding unmarshal_commands marshal_events start_workflow_rpc poll_workflow_task_rpc
    respond_workflow_task_completed_rpc respond_activity_task_completed_rpc
    insert_workflow_execution get_workflow_execution get_latest_execution insert_event get_events
    insert_task poll_task get_task complete_task insert_timer get_due_timers mark_timer_fired is
    perform run replay input_bytes run_workflow fire_timer fire_timers scan_timers
    complete_activity_task schedule_activity start_timer apply_command apply_commands
    record_commands complete_workflow_task check_not_running insert_run start_workflow ◌+ℤ◌ wrapped
    time_now new_uuid pool_query begin_tx tx_query tx_exec commit deferring_rollback count
    insert_execution_row latest insert_event_row events_of pollable lease delete_task_rows
    insert_timer_row due_timers insert_workflow_task_row
round_facts = (
  tt,
  refl,
  ((_, refl, refl)),
  refl,
  refl,
  refl,
  tt,
  tt,
  refl,
  refl,
  refl,
  refl,
  refl,
  refl,
  refl,
  (omega arith),
)

first_poll_gives : first_poll ≡ (ok (task_in first_poll), first_poll.1)
first_poll_gives = gives first_poll round_facts.0

answer_taken :
    perform
      (calm_at 16 "")
      (workflow_task_completed (run_workflow no_error "orders" (task_in first_poll) sending))
      first_poll.1
    ≡ (ok tt, answered)
answer_taken = takes _ round_facts.6

second_poll_gives : second_poll ≡ (ok (task_in second_poll), second_poll.1)
second_poll_gives = gives second_poll round_facts.7

same_id : (task_in second_poll).workflow_id ≡ (task_in first_poll).workflow_id
same_id = round_facts.10 ∙ sym round_facts.9

same_run : (task_in second_poll).run_id ≡ (task_in first_poll).run_id
same_run = round_facts.12 ∙ sym round_facts.11

same_type : (task_in second_poll).workflow_type ≡ (task_in first_poll).workflow_type
same_type = round_facts.14 ∙ sym round_facts.13

second_task_is_harmless_example :
    execute_workflow_task no_error "orders" (task_in second_poll) functions
    ≡ some (answer_with no_error "orders" (task_in second_poll) [])
second_task_is_harmless_example =
    second_task_is_harmless no_error "orders" functions sending two_tasks (calm_at 15 "")
      (calm_at 16 "") (calm_at 17 "") (worker "w1") (worker "w1") (task_in first_poll)
      (task_in second_poll) first_poll.1 answered second_poll.1 first_poll_gives round_facts.1
      round_facts.2 round_facts.3 round_facts.4 round_facts.5 answer_taken second_poll_gives
      round_facts.8 same_id same_run same_type round_facts.15
