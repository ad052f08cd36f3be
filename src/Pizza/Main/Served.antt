-- ===== src/Pizza/Main/Served.antt =====
-- What the worker of examples/worker/main.go can do for the workflows that it runs.
use mathlib.Core.Option.{bind as ◌>>=◌}
use my_temp.Common.{
  ℕ, String, String_eq, ◌==◌, true, ◌≡◌, refl, inl, inr, Option, none, some, List, All, Bool-cases,
  some-injective, subst, branch,
}
use my_temp.Common.Int.{pos}
use my_temp.Persistence.Types.{Bytes}
use my_temp.Proto.{HistoryEvent, Command}
use my_temp.Sdk.Context.{new_context, Answer, value, activity_error, decode_error}
use my_temp.Sdk.Workflow.{Workflow, finish, replay}
use my_temp.Sdk.Asks.{OnlyCalls, OfNew, replay-All}
use my_temp.Sdk.Worker.{WorkflowFunction, ActivityFunction}
use my_temp.Sdk.Client.{EngineServiceClient, new_client}
use my_temp.Sdk.Registry.{
  Worker, split, insert_key, new_worker, register_workflow, register_activity,
}
use my_temp.Pizza.{
  PizzaOrder, Codec, unless_error, test_workflow, test_timer_workflow, approval_workflow, stock_in,
  charge_in, decision_in, ship, ChargeResult,
}
use my_temp.Pizza.Main.{
  Inputs, worker_main, register_all, test_workflow_function, test_timer_workflow_function,
  approval_workflow_function, ship_function, charge_card_function, check_stock_function,
}

abbrev pub Registered : Worker → String → Type 0
Registered w name = (fn : ActivityFunction) × (w.activity_functions name ≡ some fn)

abbrev pub CanDo : Worker → Command → Type 0
CanDo w cmd = cmd.type ≡ "ScheduleActivity" → Registered w cmd.activity_name

-- A property of all functions of a map.
abbrev AllOf : {F : Type 0} → (F → Type 0) → (String → Option F) → Type 0
AllOf {F} P functions = (name : String) (fn : F) → functions name ≡ some fn → P fn

insert_key-AllOf :
    {F : Type 0} (P : F → Type 0) (key : String) (fn : F) (functions : String → Option F)
    → P fn
    → AllOf P functions
    → AllOf P (insert_key key fn functions)
insert_key-AllOf P key fn functions p others name found e = elim (Bool-cases (name == key)) [
  | inl same ↦ subst P (some-injective _ _ (rw same at e)) p
  | inr other ↦ others name found (rw other at e)
]

unless_error-OnlyCalls :
    (Called : String → Type 0) (codec : Codec) (prefix : String) (k : Bytes → Workflow)
    → ((bytes : Bytes) → OnlyCalls Called (k bytes))
    → (answer : Answer) → OnlyCalls Called (unless_error codec prefix answer k)
unless_error-OnlyCalls Called codec prefix k h (value bytes) = h bytes
unless_error-OnlyCalls Called codec prefix k h (activity_error bytes) = tt
unless_error-OnlyCalls Called codec prefix k h (decode_error text) = tt

abbrev charged_100 : ChargeResult
charged_100 = record { charged = true; amount = pos 100 }

-- The activities that the workflow functions call, for a worker that has them.
record Serves (w : Worker) : Type 0 where
  has_check_stock : Registered w "CheckStock"
  has_charge_card : Registered w "ChargeCard"
  has_ship : Registered w "Ship"

module _ (codec : Codec) (w : Worker) (has : Serves w) where
  abbrev Called : String → Type 0
  Called name = Registered w name

  ship-OnlyCalls : (charge : ChargeResult) → OnlyCalls Called (ship codec charge)
  ship-OnlyCalls charge = (
    has.has_ship,
    λ f. unless_error-OnlyCalls Called codec "" (λ tracking. finish none) (λ bytes. tt),
  )

  test_workflow-OnlyCalls : (order : PizzaOrder) → OnlyCalls Called (test_workflow codec order)
  unfolding test_workflow
  test_workflow-OnlyCalls order = (
    has.has_check_stock,
    λ f. unless_error-OnlyCalls Called codec _ _ (λ stock.
        branch (OnlyCalls Called) (stock_in codec stock).available _ _
          (
            has.has_charge_card,
            λ f. unless_error-OnlyCalls Called codec _ _ (λ charge.
                branch (OnlyCalls Called) (charge_in codec charge).charged _ _
                  (ship-OnlyCalls (charge_in codec charge)) tt),
          )
          tt),
  )

  test_timer_workflow-OnlyCalls :
      (order : PizzaOrder) → OnlyCalls Called (test_timer_workflow codec order)
  unfolding test_timer_workflow
  test_timer_workflow-OnlyCalls order = (
    has.has_check_stock,
    λ f. unless_error-OnlyCalls Called codec _ _ (λ stock. ship-OnlyCalls charged_100),
  )

  approval_workflow-OnlyCalls :
      (order : PizzaOrder) → OnlyCalls Called (approval_workflow codec order)
  unfolding approval_workflow
  approval_workflow-OnlyCalls order = (
    has.has_check_stock,
    λ f. unless_error-OnlyCalls Called codec _ _ (λ stock bytes.
        branch (OnlyCalls Called) (decision_in codec bytes).approved _ _
          (ship-OnlyCalls charged_100) tt),
  )

new_ones :
    (w : Worker) (h : List HistoryEvent) (queue : String) → OfNew (Registered w) (CanDo w) h queue
new_ones w h queue = record {
  of_activity = λ name input a called new e. called;
  of_timer = λ ms t new e. absurd (cc e);
}

-- The tasks that a worker of the example can be given, all of whose commands it can do.
abbrev pub Plays : Worker → WorkflowFunction → Type 0
Plays w fn =
    (json : Bytes → Option String) (h : List HistoryEvent) (input : Bytes)
    → All (CanDo w) (replay json (fn.body input) (new_context h w.queue)).1.commands

module _ (codec : Codec) (inputs : Inputs) where
  abbrev all_functions : String → Option WorkflowFunction
  all_functions = insert_key "ApprovalWorkflow" (approval_workflow_function codec inputs) (
      insert_key "TestTimerWorkflow" (test_timer_workflow_function codec inputs)
        (insert_key "TestWorkflow" (test_workflow_function codec inputs) (λ name. none)))

  abbrev all_activities : ℕ → String → Option ActivityFunction
  all_activities charge_attempts = insert_key "Ship" (ship_function codec inputs) (
      insert_key "ChargeCard" (charge_card_function codec inputs charge_attempts)
        (insert_key "CheckStock" (check_stock_function codec inputs) (λ name. none)))

  abbrev example_worker : ℕ → String → Worker
  example_worker charge_attempts uuid = record {
    id = uuid;
    queue = "test";
    workflow_functions = all_functions;
    activity_functions = all_activities charge_attempts;
  }

  all_functions-Plays : (w : Worker) → Serves w → AllOf (Plays w) all_functions
  all_functions-Plays w has =
      insert_key-AllOf (Plays w) _ _ _
        (plays (approval_workflow_function codec inputs)
          (λ input. approval_workflow-OnlyCalls codec w has _))
        (insert_key-AllOf (Plays w) _ _ _
          (plays (test_timer_workflow_function codec inputs)
            (λ input. test_timer_workflow-OnlyCalls codec w has _))
          (insert_key-AllOf (Plays w) _ _ _
            (plays (test_workflow_function codec inputs)
              (λ input. test_workflow-OnlyCalls codec w has _))
            (λ name fn e. absurd (cc e))))
    where
      plays :
          (fn : WorkflowFunction)
          → ((input : Bytes) → OnlyCalls (Registered w) (fn.body input))
          → Plays w fn
      plays fn calls json h input =
          replay-All json h w.queue (Registered w) (CanDo w) (new_ones w h w.queue) _ (calls input)

  -- The worker that the example program starts when its client connects polls the queue `test`; it has
  -- a function for `TestWorkflow` and for `ApprovalWorkflow`, the types that the handlers of the example
  -- API start on that queue; and whatever workflow function it has, on whatever history and input, each
  -- activity that the function asks for is one that the worker has.
  pub worker_main-Plays :
      (charge_attempts : ℕ) (uuid : String) (engine : EngineServiceClient)
      → (w : Worker) × (worker_main codec inputs charge_attempts uuid none engine ≡ inr (some w))
        × (w.queue ≡ "test")
        × (w.workflow_functions "TestWorkflow" ≡ some (test_workflow_function codec inputs))
        × (w.workflow_functions "ApprovalWorkflow" ≡ some (approval_workflow_function codec inputs))
        × ((name : String) (fn : WorkflowFunction)
            → w.workflow_functions name ≡ some fn
            → Plays w fn)
  unfolding worker_main register_all ◌>>=◌ new_client new_worker register_workflow register_activity
      split
  worker_main-Plays charge_attempts uuid engine = (
    example_worker charge_attempts uuid,
    refl,
    refl,
    refl,
    refl,
    all_functions-Plays (example_worker charge_attempts uuid)
        (record { has_check_stock = (_, refl); has_charge_card = (_, refl); has_ship = (_, refl) }),
  )
