-- ===== src/Sdk/Client.antt =====
-- sdk/client.go. The stub that protoc generates from proto/engine/v1/EngineService.proto is an
-- argument: what a call of it does to the world, and its reply. `connected` is the stub of a connection
-- that always delivers.
use Prim.Native.String.{◌++◌ as append}
use my_temp.Common.{◌⊎◌, inl, inr, ℕ, String, List, Option, none, some}
use my_temp.Persistence.Types.{Bytes}
use my_temp.Persistence.Session.{Env, World}
use my_temp.Proto.{
  StartWorkflowRequest, StartWorkflowResponse, PollTaskRequest, PollWorkflowTaskResponse,
  PollActivityTaskResponse, Command, RespondWorkflowTaskCompletedRequest,
  RespondActivityTaskCompletedRequest, RespondActivityTaskFailedRequest, SignalWorkflowRequest,
}
use my_temp.Frontend.{
  Reply, response, status_error, served, start_workflow_rpc, poll_workflow_task_rpc,
  respond_workflow_task_completed_rpc, poll_activity_task_rpc, respond_activity_task_completed_rpc,
  respond_activity_task_failed_rpc, signal_workflow_rpc,
}

abbrev pub Rpc : Type 0 → Type 0
Rpc A = World → Reply A × World

pub record EngineServiceClient : Type 0 where
  pub start_workflow_call : StartWorkflowRequest → Rpc StartWorkflowResponse
  pub poll_workflow_task_call : PollTaskRequest → Rpc PollWorkflowTaskResponse
  pub respond_workflow_task_completed_call : RespondWorkflowTaskCompletedRequest → Rpc (Unit {0})
  pub poll_activity_task_call : PollTaskRequest → Rpc PollActivityTaskResponse
  pub respond_activity_task_completed_call : RespondActivityTaskCompletedRequest → Rpc (Unit {0})
  pub respond_activity_task_failed_call : RespondActivityTaskFailedRequest → Rpc (Unit {0})
  pub signal_workflow_call : SignalWorkflowRequest → Rpc (Unit {0})

unfoldable pub connected : Env → EngineServiceClient
connected env = record {
  start_workflow_call = λ req. served (start_workflow_rpc env req);
  poll_workflow_task_call = λ req. served (poll_workflow_task_rpc env req);
  respond_workflow_task_completed_call =
      λ req. served (respond_workflow_task_completed_rpc env req);
  poll_activity_task_call = λ req. served (poll_activity_task_rpc env req);
  respond_activity_task_completed_call =
      λ req. served (respond_activity_task_completed_rpc env req);
  respond_activity_task_failed_call = λ req. served (respond_activity_task_failed_rpc env req);
  signal_workflow_call = λ req. served (signal_workflow_rpc env req);
}

abbrev pub run_id_of : Reply StartWorkflowResponse × World → Reply String × World
run_id_of (response r, w) = (response r.run_id, w)
run_id_of (status_error s, w) = (status_error s, w)

-- `NewClient`: the error of `grpc.NewClient`, if any, and the stub of the connection.
unfoldable pub new_client : Option String → EngineServiceClient → String ⊎ EngineServiceClient
new_client none engine = inr engine
new_client (some text) engine = inl (append "failed to connect to grpc: [" (append text "]"))

-- The methods of `Client`, which holds nothing but the stub and its connection.
module _ (engine : EngineServiceClient) where
  unfoldable pub start_new_workflow : String → String → String → Bytes → Rpc String
  start_new_workflow workflow_id workflow_type task_queue input w = run_id_of (
      engine.start_workflow_call
        (record {
          workflow_id = workflow_id;
          workflow_type = workflow_type;
          task_queue = task_queue;
          input = input;
        })
        w)

  unfoldable pub poll_workflow_task : String → String → Rpc PollWorkflowTaskResponse
  poll_workflow_task queue lease_owner =
      engine.poll_workflow_task_call (record { task_queue = queue; lease_owner = lease_owner })

  unfoldable pub respond_workflow_task_completed :
      ℕ → String → String → List Command → Rpc (Unit {0})
  respond_workflow_task_completed task_id workflow_id run_id commands =
      engine.respond_workflow_task_completed_call (record {
        task_id = task_id;
        workflow_id = workflow_id;
        run_id = run_id;
        commands = commands;
      })

  unfoldable pub poll_activity_task : String → String → Rpc PollActivityTaskResponse
  poll_activity_task queue lease_owner =
      engine.poll_activity_task_call (record { task_queue = queue; lease_owner = lease_owner })

  unfoldable pub respond_activity_task_completed : ℕ → String → String → Bytes → Rpc (Unit {0})
  respond_activity_task_completed task_id workflow_id run_id result =
      engine.respond_activity_task_completed_call
        (record { task_id = task_id; workflow_id = workflow_id; run_id = run_id; result = result })

  unfoldable pub respond_activity_task_failed : ℕ → String → String → String → Rpc (Unit {0})
  respond_activity_task_failed task_id workflow_id run_id text =
      engine.respond_activity_task_failed_call
        (record { task_id = task_id; workflow_id = workflow_id; run_id = run_id; error = text })

  unfoldable pub signal_workflow : String → String → String → Bytes → Rpc (Unit {0})
  signal_workflow workflow_id run_id signal_name input = engine.signal_workflow_call (record {
    workflow_id = workflow_id;
    run_id = run_id;
    signal_name = signal_name;
    input = input;
  })
