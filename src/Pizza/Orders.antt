-- ===== src/Pizza/Orders.antt =====
-- `POST /order` of examples/api/main.go against the engine.
use Prim.Native.String.{◌++◌ as append}
use my_temp.Common.{String, ◌≡◌, refl, ◌⊎◌, inl, inr}
use my_temp.Persistence.Types.{Bytes}
use my_temp.Persistence.Session.{Env, World, Result, ok, err, pure, after, ◌>>=◌}
use my_temp.Persistence.Quiet.{Same, Unchanged}
use my_temp.Persistence.Ends.{Holds, Cause}
use my_temp.History.Atomic.{IsAtomic-start_workflow}
use my_temp.History.Start.{start_workflow}
use my_temp.Spec.Start.{WorkflowStarts, StartRefused, start_workflow-WorkflowStarts}
use my_temp.Frontend.{reply_of, served, start_workflow_rpc}
use my_temp.Sdk.Client.{connected, start_new_workflow, run_id_of}
use my_temp.Pizza.{PizzaOrder}
use my_temp.Pizza.Api.{HttpResponse, Web, order_reply, order_start, order_decoded, order_handler}

module _ (env : Env) (web : Web) (body : Bytes) (w : World) where
  abbrev order_workflow : PizzaOrder → String
  order_workflow order = append "order-" (web.decimal order.order_id)

  -- The order is read, and its workflow has been started with it.
  pub record OrderTaken (w' : World) : Type 0 where
    pub order : PizzaOrder
    pub read : web.decode body ≡ inr order
    pub bytes : Bytes
    pub sent : web.marshal order ≡ inr bytes
    pub run_id : String
    pub starts : WorkflowStarts env (order_workflow order) "TestWorkflow" "test" bytes w run_id w'

  abbrev pub Answers : HttpResponse × World → Type 0
  Answers (r, w') =
      ((r.status ≡ 200) × OrderTaken w') ⊎ (((r.status ≡ 400) ⊎ (r.status ≡ 500)) × Same w w')

  Answers-started :
      (order : PizzaOrder) (bytes : Bytes) (r : Result String × World)
      → web.decode body ≡ inr order
      → web.marshal order ≡ inr bytes
      → Unchanged w r
      → Holds
          (Cause env (StartRefused env (order_workflow order) "TestWorkflow" "test" bytes w))
          (WorkflowStarts env (order_workflow order) "TestWorkflow" "test" bytes w)
          r
      → Answers (
          order_reply web
            (connected env)
            (order_workflow order)
            (run_id_of (reply_of (after (λ id. pure (record { run_id = id })) r))))
  Answers-started order bytes (ok rid, w') read sent same h = inl (
    refl,
    record { order = order; read = read; bytes = bytes; sent = sent; run_id = rid; starts = h },
  )
  Answers-started order bytes (err e, w') read sent same h = inr (inr refl, same)

  Answers-marshalled :
      (order : PizzaOrder) (m : String ⊎ Bytes)
      → web.decode body ≡ inr order
      → web.marshal order ≡ m
      → Answers (order_start web (connected env) order m w)
  unfolding start_new_workflow connected served start_workflow_rpc ◌>>=◌
  Answers-marshalled order (inl text) read sent =
      inr (inr refl, record { db = refl; metrics = refl })
  Answers-marshalled order (inr bytes) read sent =
      let id = order_workflow order in
      Answers-started order bytes (start_workflow env id "TestWorkflow" "test" bytes w) read sent
        ((IsAtomic-start_workflow env id "TestWorkflow" "test" bytes).at w)
        (start_workflow-WorkflowStarts env id "TestWorkflow" "test" bytes w).at

  Answers-decoded :
      (d : String ⊎ PizzaOrder)
      → web.decode body ≡ d
      → Answers (order_decoded web (connected env) d w)
  Answers-decoded (inl text) read = inr (inl refl, record { db = refl; metrics = refl })
  Answers-decoded (inr order) read = Answers-marshalled order (web.marshal order) read refl

  -- `POST /order` is answered with status 200 only when the order could be read and the engine has
  -- started one run of `TestWorkflow` with it, under the workflow id of the order's number; otherwise the
  -- status is 400 or 500, and the tables and metrics of the engine are as they were.
  pub order_handler-Answers : Answers (order_handler web (connected env) body w)
  unfolding order_handler
  order_handler-Answers = Answers-decoded (web.decode body) refl
