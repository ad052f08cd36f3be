-- ===== src/Examples.antt =====
-- Concrete inputs: an order workflow with one activity, a signal and a timer.
use my_temp.Common.{
  ◌++◌, if◌then◌else◌, ◌==◌, ℕ_eq, inl, inr, ℕ, ◌+◌, String, Bool, true, false, List, [], ◌∷◌,
  Option, none, some, ltb, ◌*◌, ◌^◌,
}
use my_temp.Common.Int.{ℤ, pos, pos_part}
use my_temp.Float.{Float64}
use my_temp.Persistence.Types.{Bytes, Task, WorkflowExecution}
use my_temp.Persistence.Session.{Env, World}
use my_temp.Persistence.{poll_task}
use my_temp.History.Rows.{started_execution}
use my_temp.Pizza.{PizzaOrder, Codec}
use my_temp.Pizza.Api.{Web}
use my_temp.Proto
use my_temp.Proto.{
  HistoryEvent, StartWorkflowRequest, PollTaskRequest, RespondWorkflowTaskCompletedRequest,
  RespondActivityTaskCompletedRequest, RespondActivityTaskFailedRequest, SignalWorkflowRequest,
  zero_command,
}
use my_temp.Sdk.Workflow.{Workflow, finish, execute, get, sleep_for, receive}
use my_temp.Engine.{
  Call, start, poll_workflow, poll_activity, workflow_task_completed, activity_task_completed,
  activity_task_failed, signal, reclaim_tick, scan_tick, run, boot,
}
pub mod Tests
pub mod Tasks
pub mod Lives
pub mod Operations
pub mod Replies
pub mod Delays
pub mod Replays
pub mod System
pub mod Histories
pub mod Programs
pub mod Order

-- A stand-in for the floats of the machine, exact on small integers.
abbrev pub whole_floats : Float64
whole_floats = record {
  of_int = pos_part;
  to_int = λ n. pos n;
  lt = ltb;
  add = λ a b. a + b;
  mul = λ a b. a * b;
  pow = λ a b. a ^ b;
  half = 0;
  two = 2;
}

-- Nothing fails; the clock of the database is at the given second.
abbrev pub calm_at : ℕ → String → Env
calm_at seconds uuid = record {
  fault = λ n. none;
  db_clock = λ n. pos (seconds * 1000000000);
  go_clock = λ n. pos (seconds * 1000000000);
  uuid = λ n. uuid;
  random = λ n. 0;
  float = whole_floats;
  locked_task = λ n. false;
  locked_timer = λ n. false;
}

-- The database does not answer.
abbrev pub down : Env
down = record (calm_at 1 "run-x") { fault = λ n. some "connection refused" }

abbrev pub start_order : String → StartWorkflowRequest
start_order wid = record {
  workflow_id = wid;
  workflow_type = "Order";
  task_queue = "orders";
  input = some (7 ∷ []);
}

abbrev pub worker : String → PollTaskRequest
worker name = record { task_queue = "orders"; lease_owner = name }

abbrev pub charge_and_wait : RespondWorkflowTaskCompletedRequest
charge_and_wait = record {
  task_id = 1;
  workflow_id = "order-1";
  run_id = "run-1";
  commands =
      record zero_command {
        type = "ScheduleActivity";
        activity_name = "Charge";
        task_queue = "orders";
      }
      ∷ record zero_command { type = "StartTimer"; duration_ms = 1000 }
      ∷ [];
}

abbrev pub charge_failed : RespondActivityTaskFailedRequest
charge_failed = record {
  task_id = 2;
  workflow_id = "order-1";
  run_id = "run-1";
  error = "card declined";
}

abbrev pub charge_done : RespondActivityTaskCompletedRequest
charge_done = record { task_id = 2; workflow_id = "order-1"; run_id = "run-1"; result = none }

abbrev pub paid : SignalWorkflowRequest
paid = record { workflow_id = "order-1"; run_id = "run-1"; signal_name = "paid"; input = none }

abbrev pub finish_order : RespondWorkflowTaskCompletedRequest
finish_order = record {
  task_id = 3;
  workflow_id = "order-1";
  run_id = "run-1";
  commands = record zero_command { type = "CompleteWorkflow" } ∷ [];
}

abbrev pub one_start : List (Env × Call)
one_start = (calm_at 10 "run-1", start (start_order "order-1")) ∷ []

abbrev pub two_starts : List (Env × Call)
two_starts =
    (calm_at 10 "run-1", start (start_order "order-1"))
    ∷ (calm_at 11 "run-2", start (start_order "order-2"))
    ∷ []

abbrev pub to_activity : List (Env × Call)
to_activity =
    (calm_at 10 "run-1", start (start_order "order-1"))
    ∷ (calm_at 11 "", poll_workflow (worker "w1"))
    ∷ (calm_at 12 "", workflow_task_completed charge_and_wait)
    ∷ (calm_at 12 "", poll_activity (worker "w1"))
    ∷ []

abbrev pub asked_to_charge : List (Env × Call)
asked_to_charge =
    (calm_at 10 "run-1", start (start_order "order-1"))
    ∷ (calm_at 11 "", poll_workflow (worker "w1"))
    ∷ (calm_at 12 "", workflow_task_completed charge_and_wait)
    ∷ []

-- The charge has failed twice, and is in its third attempt.
abbrev pub two_failures : List (Env × Call)
two_failures =
    asked_to_charge
    ++ (calm_at 60 "", poll_activity (worker "w1"))
      ∷ (calm_at 61 "", activity_task_failed charge_failed)
      ∷ (calm_at 160 "", poll_activity (worker "w1"))
      ∷ (calm_at 161 "", activity_task_failed (record charge_failed { task_id = 3 }))
      ∷ []

abbrev pub to_end : List (Env × Call)
to_end =
    (calm_at 10 "run-1", start (start_order "order-1"))
    ∷ (calm_at 11 "", poll_workflow (worker "w1"))
    ∷ (calm_at 12 "", workflow_task_completed charge_and_wait)
    ∷ (down, activity_task_completed charge_done)
    ∷ (calm_at 13 "", activity_task_completed charge_done)
    ∷ (calm_at 14 "", scan_tick)
    ∷ (calm_at 14 "", signal paid)
    ∷ (calm_at 45 "", reclaim_tick)
    ∷ (calm_at 46 "", workflow_task_completed finish_order)
    ∷ []

-- The workflow function: charge, wait for the payment, wait a second.
abbrev pub order_workflow : Workflow
order_workflow =
    execute "Charge" none
      (λ charge. get charge true (λ answer. receive "paid" (λ bytes. sleep_for 1000 (finish none))))

abbrev pub marshalled : String → String → HistoryEvent
marshalled type name = record {
  event_id = 1;
  event_type = type;
  activity_name = name;
  activity_index = 0;
  event_data = none;
  timer_index = 0;
  signal_name = "";
}

abbrev pub with_commands : List Proto.Command → RespondWorkflowTaskCompletedRequest
with_commands cmds = record {
  task_id = 1;
  workflow_id = "order-1";
  run_id = "run-1";
  commands = cmds;
}

abbrev pub command : String → Proto.Command
command type = record zero_command { type = type; task_queue = "orders" }

-- Two timers of one run are due in one scan.
abbrev pub two_timers : List (Env × Call)
two_timers =
    (calm_at 10 "run-1", start (start_order "order-1"))
    ∷ (
      calm_at 11 "",
      workflow_task_completed (with_commands (command "StartTimer" ∷ command "StartTimer" ∷ [])),
    )
    ∷ (calm_at 20 "", scan_tick)
    ∷ []

-- The workflow completes, and its function has asked for an activity after that.
abbrev pub activity_after_end : List (Env × Call)
activity_after_end =
    (calm_at 10 "run-1", start (start_order "order-1"))
    ∷ (
      calm_at 11 "",
      workflow_task_completed
          (with_commands (command "CompleteWorkflow" ∷ command "ScheduleActivity" ∷ [])),
    )
    ∷ []

-- Two workers answer one task, the second after its lease has been taken back.
abbrev pub two_answers : List (Env × Call)
two_answers =
    (calm_at 10 "run-1", start (start_order "order-1"))
    ∷ (calm_at 11 "", poll_workflow (worker "w1"))
    ∷ (calm_at 50 "", reclaim_tick)
    ∷ (calm_at 51 "", poll_workflow (worker "w2"))
    ∷ (calm_at 52 "", workflow_task_completed (with_commands (command "ScheduleActivity" ∷ [])))
    ∷ (calm_at 53 "", workflow_task_completed (with_commands (command "ScheduleActivity" ∷ [])))
    ∷ []

-- A signal comes while a worker holds the task of the run, whose history it has read before.
abbrev pub signal_in_flight : List (Env × Call)
signal_in_flight =
    (calm_at 10 "run-1", start (start_order "order-1"))
    ∷ (calm_at 11 "", poll_workflow (worker "w1"))
    ∷ (calm_at 12 "", signal paid)
    ∷ (calm_at 13 "", workflow_task_completed (with_commands []))
    ∷ []

abbrev pub started_one : World
started_one = run boot one_start

abbrev pub started_two : World
started_two = run boot two_starts

abbrev pub at_activity : World
at_activity = run boot to_activity

abbrev pub at_end : World
at_end = run boot to_end

abbrev pub after_first : World
after_first = (poll_task (calm_at 20 "") "orders" "workflow" "w1" started_two).1

abbrev pub ended_order : WorkflowExecution
ended_order = record (started_execution "order-1" "run-1" "Order" "orders") {
  status = "Completed";
  started_at = pos 10000000000;
  closed_at = some (pos 46000000000);
}

abbrev pub no_error : Bytes → Option String
no_error bytes = none

-- A codec that tells a charge and an approval by the first byte.
abbrev pub starts_with_one : Bytes → Bool
starts_with_one none = false
starts_with_one (some []) = false
starts_with_one (some (b ∷ bs)) = b == 1

abbrev pub plain_codec : Codec
plain_codec = record {
  of_order = λ order. some (7 ∷ []);
  of_stock = λ stock. some (if stock.available then 1 ∷ [] else 0 ∷ []);
  of_charge = λ charge. some (if charge.charged then 1 ∷ [] else 0 ∷ []);
  of_text = λ text. some (7 ∷ []);
  to_stock = λ bytes. record { available = starts_with_one bytes; item = "" };
  to_charge = λ bytes. record { charged = starts_with_one bytes; amount = pos 100 };
  to_decision = λ bytes. record { approved = starts_with_one bytes };
  as_string = λ bytes. "";
}

abbrev pub pizza : PizzaOrder
pizza = record { order_id = pos 22; items = "margherita" ∷ [] }

abbrev pub plain_web : Web
plain_web = record {
  decode = λ body. if starts_with_one body then inr pizza else inl "unexpected EOF";
  marshal = λ order. inr (some (7 ∷ []));
  marshal_decision = λ decision. some (1 ∷ []);
  error_text = λ status. status.message;
  decimal = λ n. "22";
}
