-- ===== src/Examples/Replays.antt =====
-- The theorems on replays of sdk/worker.go at concrete inputs.
use my_temp.Common.{
  String, String_eq, ◌≡◌, refl, ◌==◌, ℕ_eq, [], ◌∷◌, Option, none, some, All, inl, if◌then◌else◌,
}
use my_temp.Proto.{HistoryEvent, PollWorkflowTaskResponse}
use my_temp.Persistence.Types.{Bytes}
use my_temp.Sdk.Context.{new_context}
use my_temp.Sdk.Workflow.{paused}
use my_temp.Sdk.Lookups.{IsScheduling, Recorded}
use my_temp.Sdk.Idempotent.{Agrees, replay_idempotent}
use my_temp.Sdk.Fresh.{replay_asks_for_new}
use my_temp.Sdk.Worker.{WorkflowFunction, unreadable, answer_with}
use my_temp.Sdk.Worker.Paused.{paused_worker_is_idempotent}
use my_temp.Examples.{order_workflow, marshalled}
use my_temp.Sdk.Worker.{input_bytes, execute_workflow_task}
use my_temp.Sdk.Workflow.{replay}

abbrev any_json : Bytes → Option String
any_json bytes = none

abbrev began : HistoryEvent
began = marshalled "WorkflowStarted" ""

abbrev charge_scheduled : HistoryEvent
charge_scheduled = marshalled "ActivityScheduled" "Charge"

only-IsScheduling : All IsScheduling (charge_scheduled ∷ [])
only-IsScheduling = (inl refl, tt)

charge_is_Recorded :
    All
      (Recorded (began ∷ charge_scheduled ∷ []))
      (replay any_json order_workflow (new_context (began ∷ []) "orders")).1.commands
unfolding replay
charge_is_Recorded = (refl, tt)

replay_idempotent_example :
    Agrees
      (replay any_json order_workflow (new_context (began ∷ []) "orders"))
      (replay any_json order_workflow (new_context (began ∷ charge_scheduled ∷ []) "orders"))
replay_idempotent_example =
    replay_idempotent any_json order_workflow (began ∷ []) (charge_scheduled ∷ []) "orders"
      only-IsScheduling charge_is_Recorded

replay_asks_for_new_example :
    All
      (λ cmd. ¬ Recorded (began ∷ []) cmd)
      (replay any_json order_workflow (new_context (began ∷ []) "orders")).1.commands
replay_asks_for_new_example = replay_asks_for_new any_json (began ∷ []) "orders" order_workflow

abbrev order_function : WorkflowFunction
order_function = record { input_error = any_json; body = λ bytes. order_workflow }

abbrev functions : String → Option WorkflowFunction
functions name = if name == "Order" then some order_function else none

abbrev order_task : PollWorkflowTaskResponse
order_task = record {
  task_id = 1;
  workflow_id = "order-1";
  run_id = "run-1";
  workflow_type = "Order";
  history = began ∷ [];
}

order_pauses : (replay any_json order_workflow (new_context (began ∷ []) "orders")).0 ≡ paused
unfolding replay
order_pauses = refl

order_is_readable : unreadable any_json (input_bytes (began ∷ [])) ≡ none
unfolding input_bytes
order_is_readable = refl

paused_worker_is_idempotent_example :
    let later : PollWorkflowTaskResponse = record order_task {
      task_id = 9;
      history = began ∷ charge_scheduled ∷ [];
    } in
    execute_workflow_task any_json "orders" later functions
    ≡ some (answer_with any_json "orders" later [])
paused_worker_is_idempotent_example =
    paused_worker_is_idempotent any_json "orders" order_task order_function functions 9
      (charge_scheduled ∷ []) refl order_is_readable order_pauses only-IsScheduling
      charge_is_Recorded
