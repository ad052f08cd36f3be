-- ===== src/System/Reaches.antt =====
-- Worlds that come from each other by calls of the engine, and the two calls of a client and a worker
-- over a connection that delivers: internal/frontend/grpc/handler.go behind sdk/client.go.
use my_temp.Common.{List, [], ◌∷◌, ◌++◌, ◌≡◌, refl, ap, ◌∙◌, sym}
use my_temp.Persistence.Session.{Env, World, Result, ok, err, pure, after, ◌>>=◌}
use my_temp.Proto.{StartWorkflowRequest, PollTaskRequest}
use my_temp.Frontend.{served, reply_of, start_workflow_rpc, poll_workflow_task_rpc}
use my_temp.Engine.{Call, start, poll_workflow, perform, run}
use my_temp.Sdk.Client.{connected}

-- The second world comes from the first one by calls of the engine.
pub record Reaches (w w' : World) : Type 0 where
  pub calls : List (Env × Call)
  pub there : w' ≡ run w calls

run-append : (w : World) (cs ds : List (Env × Call)) → run w (cs ++ ds) ≡ run (run w cs) ds
unfolding run
run-append w [] ds = refl
run-append w ((env, c) ∷ cs) ds = run-append (perform env c w).1 cs ds

pub Reaches-trans : (a b c : World) → Reaches a b → Reaches b c → Reaches a c
Reaches-trans a b c h k = record {
  calls = h.calls ++ k.calls;
  there = k.there ∙ ap (λ w. run w k.calls) h.there ∙ sym (run-append a h.calls k.calls);
}

pub reply-world : {A : Type 0} (r : Result A × World) → (reply_of r).1 ≡ r.1
reply-world (ok a, w) = refl
reply-world (err e, w) = refl

pub served-discard :
    {A : Type 0} (r : Result A × World) → (reply_of r).1 ≡ (after {B = Unit {0}} (λ _. pure tt) r).1
served-discard (ok a, w) = refl
served-discard (err e, w) = refl

module _ (env : Env) (w : World) where
  one_call : {w' : World} (c : Call) → w' ≡ (perform env c w).1 → Reaches w w'
  unfolding run
  one_call c e = record { calls = (env, c) ∷ []; there = e }

-- A connection that delivers makes one call of the engine.
pub start-Reaches :
    (env : Env) (r : StartWorkflowRequest) (w : World)
    → Reaches w ((connected env).start_workflow_call r w).1
unfolding connected served perform ◌>>=◌
start-Reaches env r w = one_call env w (start r) (served-discard (start_workflow_rpc env r w))

pub poll_workflow-Reaches :
    (env : Env) (r : PollTaskRequest) (w : World)
    → Reaches w ((connected env).poll_workflow_task_call r w).1
unfolding connected served perform ◌>>=◌
poll_workflow-Reaches env r w =
    one_call env w (poll_workflow r) (served-discard (poll_workflow_task_rpc env r w))
