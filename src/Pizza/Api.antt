-- ===== src/Pizza/Api.antt =====
-- examples/api/main.go: the handlers of its routes, over the client of sdk/client.go. What the decoder
-- makes of the body of a request, `json.Marshal`, the texts of gRPC errors and `%d` are arguments.
use Prim.Native.String.{◌++◌ as append}
use my_temp.Common.{ℕ, String, true, ◌⊎◌, inl, inr}
use my_temp.Common.Int.{ℤ}
use my_temp.Persistence.Types.{Bytes}
use my_temp.Persistence.Session.{World}
use my_temp.Frontend.{Reply, response, status_error}
use my_temp.Frontend.Errors.{Status}
use my_temp.Sdk.Client.{EngineServiceClient, start_new_workflow, signal_workflow}
use my_temp.Pizza.{PizzaOrder, Decision}

pub record HttpResponse : Type 0 where
  pub status : ℕ
  pub body : String

pub record Web : Type 0 where
  -- The error of the decoder, or the order.
  pub decode : Bytes → String ⊎ PizzaOrder
  pub marshal : PizzaOrder → String ⊎ Bytes
  pub marshal_decision : Decision → Bytes
  pub error_text : Status → String
  pub decimal : ℤ → String

-- `w.Write` on its own, and `http.Error`.
abbrev pub written : String → HttpResponse
written text = record { status = 200; body = text }

abbrev pub http_error : ℕ → String → HttpResponse
http_error status text = record { status = status; body = append text "\n" }

module _ (web : Web) (engine : EngineServiceClient) where
  abbrev pub test_reply : Reply String × World → HttpResponse × World
  test_reply (response run_id, w) = (written (append "runID:" run_id), w)
  test_reply (status_error s, w) =
      (written (append "Failed to get runID from StartWorkflow: " (web.error_text s)), w)

  abbrev pub test_start : String ⊎ Bytes → World → HttpResponse × World
  test_start (inl text) w = (written (append "json marshal error: " text), w)
  test_start (inr bytes) w =
      test_reply (start_new_workflow engine "test-order22" "ApprovalWorkflow" "test" bytes w)

  abbrev pub test_decoded : String ⊎ PizzaOrder → World → HttpResponse × World
  test_decoded (inl text) w = (written (append "json decoder error: " text), w)
  test_decoded (inr order) w = test_start (web.marshal order) w

  unfoldable pub test_handler : Bytes → World → HttpResponse × World
  test_handler body = test_decoded (web.decode body)

  abbrev pub order_reply : String → Reply String × World → HttpResponse × World
  order_reply workflow_id (response run_id, w) =
      (written (append "workflowID:" (append workflow_id (append " runID:" run_id))), w)
  order_reply workflow_id (status_error s, w) =
      (http_error 500 (append "StartNewWorkflow failed: " (web.error_text s)), w)

  abbrev pub order_start : PizzaOrder → String ⊎ Bytes → World → HttpResponse × World
  order_start order (inl text) w = (http_error 500 (append "json marshal error: " text), w)
  order_start order (inr bytes) w =
      let workflow_id = append "order-" (web.decimal order.order_id) in
      order_reply workflow_id (start_new_workflow engine workflow_id "TestWorkflow" "test" bytes w)

  abbrev pub order_decoded : String ⊎ PizzaOrder → World → HttpResponse × World
  order_decoded (inl text) w = (http_error 400 (append "json decoder error: " text), w)
  order_decoded (inr order) w = order_start order (web.marshal order) w

  unfoldable pub order_handler : Bytes → World → HttpResponse × World
  order_handler body = order_decoded (web.decode body)

  abbrev pub approve_reply : Reply (Unit {0}) × World → HttpResponse × World
  approve_reply (response done, w) = (written "approved", w)
  approve_reply (status_error s, w) = (http_error 500 (web.error_text s), w)

  unfoldable pub approve_handler : Bytes → World → HttpResponse × World
  approve_handler body w = approve_reply (
      signal_workflow engine "test-order22" "" "approval"
        (web.marshal_decision (record { approved = true })) w)
