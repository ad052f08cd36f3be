-- ===== src/Pizza/Main.antt =====
-- `main` of examples/worker/main.go. The errors of `json.Unmarshal` for the inputs of its functions, and
-- the orders and charges that it leaves, are arguments.
pub mod Served
use mathlib.Core.Option.{bind as ◌>>=◌}
use Prim.Native.String.{◌++◌ as append}
use my_temp.Common.{ℕ, String, ◌⊎◌, inl, inr, List, [], Option, none, some}
use my_temp.Common.Int.{pos}
use my_temp.Persistence.Types.{Bytes}
use my_temp.Sdk.Workflow.{Workflow}
use my_temp.Sdk.Worker.{WorkflowFunction, ActivityFunction}
use my_temp.Sdk.Client.{EngineServiceClient, new_client}
use my_temp.Sdk.Registry.{Worker, new_worker, function, register_workflow, register_activity}
use my_temp.Pizza.{
  PizzaOrder, Codec, read, stock_in, charge_in, test_workflow, test_timer_workflow,
  approval_workflow, check_stock, charge_card, ship_order,
}

pub record Inputs : Type 0 where
  pub order_error : Bytes → Option String
  pub stock_error : Bytes → Option String
  pub charge_error : Bytes → Option String
  pub to_order : Bytes → PizzaOrder

module _ (codec : Codec) (inputs : Inputs) where
  abbrev pub order_in : Bytes → PizzaOrder
  order_in = read (record { order_id = pos 0; items = [] }) inputs.to_order

  abbrev taking_order : (PizzaOrder → Workflow) → WorkflowFunction
  taking_order fn = record { input_error = inputs.order_error; body = λ bytes. fn (order_in bytes) }

  abbrev pub test_workflow_function : WorkflowFunction
  test_workflow_function = taking_order (test_workflow codec)

  abbrev pub test_timer_workflow_function : WorkflowFunction
  test_timer_workflow_function = taking_order (test_timer_workflow codec)

  abbrev pub approval_workflow_function : WorkflowFunction
  approval_workflow_function = taking_order (approval_workflow codec)

  abbrev pub check_stock_function : ActivityFunction
  check_stock_function = record {
    input_error = inputs.order_error;
    call = λ bytes. check_stock codec (order_in bytes);
  }

  -- At one value of `chargeAttempts`; that it grows by one is the second part of `charge_card`.
  abbrev pub charge_card_function : ℕ → ActivityFunction
  charge_card_function charge_attempts = record {
    input_error = inputs.stock_error;
    call = λ bytes. (charge_card codec charge_attempts (stock_in codec bytes)).0;
  }

  abbrev pub ship_function : ActivityFunction
  ship_function = record {
    input_error = inputs.charge_error;
    call = λ bytes. ship_order codec (charge_in codec bytes);
  }

  unfoldable pub register_all : ℕ → Worker → Option Worker
  register_all charge_attempts worker = do
    w₁ ← register_workflow worker (function "main.TestWorkflow" test_workflow_function)
    w₂ ← register_workflow w₁ (function "main.TestTimerWorkflow" test_timer_workflow_function)
    w₃ ← register_workflow w₂ (function "main.ApprovalWorkflow" approval_workflow_function)
    w₄ ← register_activity w₃ (function "main.CheckStock" check_stock_function)
    w₅ ← register_activity w₄ (function "main.ChargeCard" (charge_card_function charge_attempts))
    register_activity w₅ (function "main.Ship" ship_function)

  -- The text of `log.Fatal`, or the worker that runs; `none` is a panic.
  abbrev pub run_with : ℕ → String → String ⊎ EngineServiceClient → String ⊎ Option Worker
  run_with charge_attempts uuid (inl text) = inl (append "Worker client connection failed:" text)
  run_with charge_attempts uuid (inr engine) =
      inr (register_all charge_attempts (new_worker uuid "test"))

  unfoldable pub worker_main :
      ℕ → String → Option String → EngineServiceClient → String ⊎ Option Worker
  worker_main charge_attempts uuid error engine =
      run_with charge_attempts uuid (new_client error engine)
