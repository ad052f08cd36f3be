-- ===== src/Sdk/Workflow.antt =====
-- A workflow function, as far as the engine can see it: the calls of sdk/workflow that it makes, and
-- what it does with their results; and its replay by `executeWorkflowTask` of sdk/worker.go.
use my_temp.Common.{ℕ, String, Bool, Option}
use my_temp.Persistence.Types.{Bytes}
use my_temp.Sdk.Context.{
  Context, ActivityFuture, Answer, Step, pending, went, get_from, execute_activity, sleep,
  receive_signal,
}

pub data Workflow : Type 0 where
  -- `return nil`, or an error with its text.
  finish : Option String → Workflow
  execute : String → Bytes → (ActivityFuture → Workflow) → Workflow
  get : ActivityFuture → Bool → (Answer → Workflow) → Workflow
  sleep_for : ℕ → Workflow → Workflow
  receive : String → (Bytes → Workflow) → Workflow

pub data Ending : Type 0 where
  paused : Ending
  returned : Option String → Ending

abbrev pub on_step :
    {A : Type 0} → Step A → Ending × Context → (A → Ending × Context) → Ending × Context
on_step pending stop go = stop
on_step (went a) stop go = go a

-- `fn.Call(...)` under the recover of `ErrPendingActivity`.
unfoldable pub replay : (Bytes → Option String) → Workflow → Context → Ending × Context
unfolding execute_activity sleep receive_signal get_from
replay json (finish e) c = (returned e, c)
replay json (execute name input k) c =
    let (future, c') = execute_activity c name input in replay json (k future) c'
replay json (get f out k) c =
    on_step (get_from json out f c.history) (paused, c) (λ a. replay json (k a) c)
replay json (sleep_for ms k) c =
    let (step, c') = sleep c ms in on_step step (paused, c') (λ _. replay json k c')
replay json (receive name k) c =
    let (step, c') = receive_signal c name in
    on_step step (paused, c') (λ bytes. replay json (k bytes) c')
