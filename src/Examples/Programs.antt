-- ===== src/Examples/Programs.antt =====
-- The theorems on the programs around the engine at concrete inputs.
use Prim.Native.String.{◌++◌ as append}
use my_temp.Common.{
  any, ℕ, String, String_eq, ℕ_eq, true, ◌≡◌, refl, ◌↔◌, List, [], ◌∷◌, ◌++◌, none, some, inr, All,
  map,
}
use my_temp.Persistence.Session.{World}
use my_temp.Proto.{HistoryEvent}
use my_temp.Frontend.{served, start_workflow_rpc, signal_workflow_rpc}
use my_temp.History.Start.{start_workflow}
use my_temp.History.Signal.{signal_workflow as history_signal, resolve_run}
use my_temp.Persistence.{get_latest_execution}
use my_temp.Persistence.Session.{◌>>=◌, ◌>>◌, wrapped, begin_tx, pool_query}
use my_temp.Engine.{Call, poll_workflow, poll_activity, scan_tick, reclaim_tick, run, boot}
use my_temp.Cmd.{ctx_done, tick, reclaim_loop, scan_loop}
use my_temp.Cmd.Loops.{loops_end_when_done}
use my_temp.Sdk.Context.{new_context}
use my_temp.Sdk.Workflow.{replay}
use my_temp.Sdk.Worker.{WorkflowFunction, ActivityFunction, finished}
use my_temp.Sdk.Client.{
  start_new_workflow, signal_workflow, connected, poll_workflow_task, poll_activity_task,
}
use my_temp.Sdk.Registry.{Worker, function, register_workflow, register_activity}
use my_temp.Sdk.Registry.Names.{Adds, registered_by_name}
use my_temp.Sdk.Loops.{
  Wake, workflows, activities, done, turn, run_worker, workflow_turn, activity_turn,
}
use my_temp.Pizza.{test_workflow, approval_workflow}
use my_temp.Pizza.Shipping.{
  NoShipping, test_workflow_ships_when_charged, approval_workflow_ships_when_approved,
}
use my_temp.Pizza.Main.{Inputs, worker_main, test_workflow_function, approval_workflow_function}
use my_temp.Pizza.Main.Served.{Plays, worker_main-Plays}
use my_temp.Pizza.Api.{order_handler, test_handler, approve_handler}
use my_temp.Pizza.Orders.{Answers, order_handler-Answers}
use my_temp.System.Workers.{all_in}
use my_temp.System.Workers.Activities.{AfterActivityPoll, activity_turn-AfterActivityPoll}
use my_temp.System.Workers.Workflows.{AfterWorkflowPoll, workflow_turn-AfterWorkflowPoll}
use my_temp.System.Workers.Returns.{
  HasReturned, ends_workflows, ends_activities, run_worker-HasReturned,
}
use my_temp.Examples.{
  started_one, asked_to_charge, no_error, plain_codec, pizza, plain_web, calm_at, down,
  order_workflow, marshalled,
}

abbrev order_function : WorkflowFunction
order_function = record { input_error = no_error; body = λ bytes. order_workflow }

abbrev charge_function : ActivityFunction
charge_function = record { input_error = no_error; call = λ bytes. finished none }

abbrev idle_worker : Worker
idle_worker = record {
  id = "w1";
  queue = "test";
  workflow_functions = λ name. some order_function;
  activity_functions = λ name. some charge_function;
}

-- The charge of an order has been asked for.
abbrev charge_waits : World
charge_waits = run boot asked_to_charge

-- One turn of each loop, and then the end.
abbrev short_run : List Wake
short_run =
    workflows (turn (connected (calm_at 11 "")))
    ∷ activities (turn (connected down))
    ∷ activities done
    ∷ workflows done
    ∷ []

run_worker-HasReturned_example :
    HasReturned (run_worker no_error idle_worker short_run boot)
    ↔ ((any ends_workflows short_run ≡ true) × (any ends_activities short_run ≡ true))
run_worker-HasReturned_example = run_worker-HasReturned no_error idle_worker short_run boot

-- A worker that polls a queue with an order on it, or with the charge of an order.
abbrev order_worker : Worker
order_worker = record idle_worker { queue = "orders" }

workflow_turn-AfterWorkflowPoll_example :
    let env = calm_at 11 "" in
    (calls : List Call) × AfterWorkflowPoll no_error order_worker
      (poll_workflow_task (connected env) "orders" "w1" started_one).0
      calls
    × (workflow_turn no_error order_worker (connected env) started_one
        ≡ run started_one (
            (env, poll_workflow (record { task_queue = "orders"; lease_owner = "w1" }))
            ∷ all_in env calls))
workflow_turn-AfterWorkflowPoll_example =
    workflow_turn-AfterWorkflowPoll no_error order_worker (calm_at 11 "") started_one

activity_turn-AfterActivityPoll_example :
    let env = calm_at 60 "" in
    (calls : List Call) × AfterActivityPoll order_worker
      (poll_activity_task (connected env) "orders" "w1" charge_waits).0
      calls
    × (activity_turn no_error order_worker (connected env) charge_waits
        ≡ run charge_waits (
            (env, poll_activity (record { task_queue = "orders"; lease_owner = "w1" }))
            ∷ all_in env calls))
activity_turn-AfterActivityPoll_example =
    activity_turn-AfterActivityPoll no_error order_worker (calm_at 60 "") charge_waits

registered_by_name_example :
    (w₁ : Worker) × (register_workflow idle_worker
        (function (append "main" (append "." "TestWorkflow")) order_function)
      ≡ some w₁)
    × (w₂ : Worker) × (register_activity w₁
          (function (append "main" (append "." "Ship")) charge_function)
        ≡ some w₂)
    × Adds "TestWorkflow" order_function idle_worker.workflow_functions w₂.workflow_functions
    × Adds "Ship" charge_function idle_worker.activity_functions w₂.activity_functions
registered_by_name_example =
    registered_by_name idle_worker "main" "TestWorkflow" "main" "Ship" order_function
      charge_function refl refl

loops_end_when_done_example :
    (reclaim_loop (map tick (down ∷ calm_at 20 "" ∷ []) ++ ctx_done ∷ []) boot
      ≡ some (run boot (map (λ env. (env, reclaim_tick)) (down ∷ calm_at 20 "" ∷ []))))
    × (scan_loop (map tick (down ∷ calm_at 20 "" ∷ []) ++ ctx_done ∷ []) boot
        ≡ some (run boot (map (λ env. (env, scan_tick)) (down ∷ calm_at 20 "" ∷ []))))
loops_end_when_done_example = loops_end_when_done (down ∷ calm_at 20 "" ∷ []) [] boot

abbrev with_bytes : ℕ → HistoryEvent → HistoryEvent
with_bytes b e = record e { event_data = some (b ∷ []) }

abbrev in_stock : List HistoryEvent
in_stock =
    marshalled "WorkflowStarted" ""
    ∷ marshalled "ActivityScheduled" "CheckStock"
    ∷ with_bytes 1 (marshalled "ActivityCompleted" "CheckStock")
    ∷ []

-- The charge has failed to be made.
abbrev uncharged : List HistoryEvent
uncharged =
    in_stock
    ++ record (with_bytes 0 (marshalled "ActivityCompleted" "ChargeCard")) { activity_index = 1 }
      ∷ []

test_workflow_ships_when_charged_example :
    All NoShipping
      (replay no_error (test_workflow plain_codec pizza) (new_context uncharged "test")).1.commands
test_workflow_ships_when_charged_example =
    test_workflow_ships_when_charged no_error plain_codec "test" uncharged pizza refl

-- The order has been refused.
abbrev disapproved : List HistoryEvent
disapproved =
    in_stock
    ++ record (with_bytes 0 (marshalled "SignalReceived" "")) { signal_name = "approval" } ∷ []

approval_workflow_ships_when_approved_example :
    All NoShipping
      (replay no_error
        (approval_workflow plain_codec pizza)
        (new_context disapproved "test")).1.commands
approval_workflow_ships_when_approved_example =
    approval_workflow_ships_when_approved no_error plain_codec "test" disapproved pizza refl

order_handler-Answers_example :
    Answers
      (calm_at 10 "run-1")
      plain_web
      (some (1 ∷ []))
      boot
      (order_handler plain_web (connected (calm_at 10 "run-1")) (some (1 ∷ [])) boot)
order_handler-Answers_example =
    order_handler-Answers (calm_at 10 "run-1") plain_web (some (1 ∷ [])) boot

abbrev plain_inputs : Inputs
plain_inputs = record {
  order_error = no_error;
  stock_error = no_error;
  charge_error = no_error;
  to_order = λ bytes. pizza;
}

worker_main-Plays_example :
    (w : Worker) × (worker_main plain_codec plain_inputs 0 "w1" none
        (connected (calm_at 10 "run-1"))
      ≡ inr (some w))
    × (w.queue ≡ "test")
    × (w.workflow_functions "TestWorkflow" ≡ some (test_workflow_function plain_codec plain_inputs))
    × (w.workflow_functions "ApprovalWorkflow"
        ≡ some (approval_workflow_function plain_codec plain_inputs))
    × ((name : String) (fn : WorkflowFunction) → w.workflow_functions name ≡ some fn → Plays w fn)
worker_main-Plays_example =
    worker_main-Plays plain_codec plain_inputs 0 "w1" (connected (calm_at 10 "run-1"))

-- While the engine is down, POST /test is answered with status 200 and POST /approve with 500.
test_while_down : (test_handler plain_web (connected down) (some (1 ∷ [])) boot).0.status ≡ 200
unfolding test_handler start_new_workflow connected served start_workflow_rpc ◌>>=◌ start_workflow
    ◌>>◌ wrapped begin_tx
test_while_down = refl

approve_while_down : (approve_handler plain_web (connected down) none boot).0.status ≡ 500
unfolding approve_handler signal_workflow connected served signal_workflow_rpc history_signal ◌>>=◌
    resolve_run wrapped get_latest_execution pool_query
approve_while_down = refl
