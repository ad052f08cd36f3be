-- ===== src/Pizza.antt =====
-- examples/worker/main.go: its workflow functions and its activities. What encoding/json makes of the
-- values of their types is an argument. Log lines are left out.
pub mod Found
pub mod Main
pub mod Shipping
pub mod Api
pub mod Orders
use Prim.Native.String.{◌++◌ as append}
use my_temp.Common.{
  ℕ, ◌+◌, String, Bool, true, false, List, [], ◌∷◌, Option, none, some, ltb, if◌then◌else◌,
}
use my_temp.Common.Int.{ℤ, pos}
use my_temp.Persistence.Types.{Bytes}
use my_temp.Sdk.Context.{Answer, value, activity_error, decode_error, is_empty}
use my_temp.Sdk.Workflow.{Workflow, finish, execute, get, sleep_for, receive}
use my_temp.Sdk.Worker.{ActivityRun, failed, finished}

pub record PizzaOrder : Type 0 where
  pub order_id : ℤ
  pub items : List String

pub record StockResult : Type 0 where
  pub available : Bool
  pub item : String

pub record ChargeResult : Type 0 where
  pub charged : Bool
  pub amount : ℤ

pub record Decision : Type 0 where
  pub approved : Bool

-- `json.Marshal` of each type, what `json.Unmarshal` leaves in a variable of each type, and
-- `string(event.Data)`.
pub record Codec : Type 0 where
  pub of_order : PizzaOrder → Bytes
  pub of_stock : StockResult → Bytes
  pub of_charge : ChargeResult → Bytes
  pub of_text : String → Bytes
  pub to_stock : Bytes → StockResult
  pub to_charge : Bytes → ChargeResult
  pub to_decision : Bytes → Decision
  pub as_string : Bytes → String

-- A variable that nothing is read into keeps its zero value.
abbrev pub read : {A : Type 0} → A → (Bytes → A) → Bytes → A
read zero_value json bytes = if is_empty bytes then zero_value else json bytes

module _ (codec : Codec) where
  abbrev pub stock_in : Bytes → StockResult
  stock_in = read (record { available = false; item = "" }) codec.to_stock

  abbrev pub charge_in : Bytes → ChargeResult
  charge_in = read (record { charged = false; amount = pos 0 }) codec.to_charge

  abbrev pub decision_in : Bytes → Decision
  decision_in = read (record { approved = false }) codec.to_decision

  -- `if err != nil { return ... }`, with what is put before the text of the error.
  abbrev pub unless_error : String → Answer → (Bytes → Workflow) → Workflow
  unless_error prefix (value bytes) k = k bytes
  unless_error prefix (activity_error bytes) k =
      finish (some (append prefix (codec.as_string bytes)))
  unless_error prefix (decode_error text) k = finish (some (append prefix text))

  -- `workflow.ExecuteActivity(c, name, input).Get(&out)`
  abbrev pub call_activity : String → Bytes → String → (Bytes → Workflow) → Workflow
  call_activity name input prefix k =
      execute name input (λ f. get f true (λ answer. unless_error prefix answer k))

  abbrev pub ship : ChargeResult → Workflow
  ship charge = call_activity "Ship" (codec.of_charge charge) "" (λ tracking. finish none)

  unfoldable pub test_timer_workflow : PizzaOrder → Workflow
  test_timer_workflow order =
      call_activity "CheckStock" (codec.of_order order) "out of stock: "
        (λ stock. sleep_for 30000 (ship (record { charged = true; amount = pos 100 })))

  unfoldable pub test_workflow : PizzaOrder → Workflow
  test_workflow order = call_activity "CheckStock" (codec.of_order order) "out of stock: " (λ stock.
      if (stock_in stock).available
      then call_activity "ChargeCard" (codec.of_stock (stock_in stock)) "" (λ charge.
        if (charge_in charge).charged
        then ship (charge_in charge)
        else finish (some "charge failed"))
      else finish (some "not availabe"))

  unfoldable pub approval_workflow : PizzaOrder → Workflow
  approval_workflow order = call_activity "CheckStock" (codec.of_order order) "" (λ stock.
      receive "approval" (λ bytes.
        if (decision_in bytes).approved
        then ship (record { charged = true; amount = pos 100 })
        else finish (some "approval rejected")))

  abbrev first_item : List String → String
  first_item [] = ""
  first_item (item ∷ items) = item

  unfoldable pub check_stock : PizzaOrder → ActivityRun
  check_stock order =
      finished (codec.of_stock (record { available = true; item = first_item order.items }))

  -- With `chargeAttempts`, the variable that all calls in the process share.
  unfoldable pub charge_card : ℕ → StockResult → ActivityRun × ℕ
  charge_card charge_attempts stock = (
    if ltb (charge_attempts + 1) 3
        then failed "flaky API 503"
        else finished (codec.of_charge (record { charged = true; amount = pos 100 })),
    charge_attempts + 1,
  )

  unfoldable pub ship_order : ChargeResult → ActivityRun
  ship_order charge = finished (codec.of_text "TRACK-12345")
