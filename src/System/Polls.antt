-- ===== src/System/Polls.antt =====
-- `PollWorkflowTask` of internal/frontend/grpc/handler.go: the history in its answer.
use my_temp.Common.{
  subst, ℕ_eq, ◌==◌, false, ◌≡◌, refl, ap, ◌∙◌, Option, none, some, Option-cases, inl, inr,
}
use my_temp.Persistence.Types.{Task}
use my_temp.Persistence.Tables.{events_of}
use my_temp.Persistence.Session.{
  Env, World, Result, ok, err, pure, after, ◌>>=◌, ◌>>◌, wrapped, pool_query, count,
}
use my_temp.Persistence.{poll_task, get_events}
use my_temp.Proto.{PollTaskRequest, PollWorkflowTaskResponse}
use my_temp.Engine.{poll_workflow, perform}
use my_temp.Frontend.{answer_workflow_poll, poll_workflow_task_rpc, marshal_events}

-- The answer carries the whole history of its run.
pub record Carries (task : PollWorkflowTaskResponse) (w : World) : Type 0 where
  pub history : task.history ≡ marshal_events (events_of task.workflow_id task.run_id w.db)

abbrev CarriesOk : Result PollWorkflowTaskResponse × World → Type 0
CarriesOk (ok task, w) = (task.task_id == 0) ≡ false → Carries task w
CarriesOk (err e, w) = Unit {0}

module _ (env : Env) where
  answer-CarriesOk : (row : Option Task) (w : World) → CarriesOk (answer_workflow_poll env row w)
  unfolding count ◌>>=◌ ◌>>◌ get_events wrapped pool_query
  answer-CarriesOk none w = λ e. absurd (cc e)
  answer-CarriesOk (some t) w = elim (Option-cases (env.fault w.calls)) [
    | inl calm ↦ rw calm (λ e. record { history = refl })
    | inr (text, fails) ↦ rw fails tt
  ]

  poll-CarriesOk :
      (req : PollTaskRequest) (r : Result (Option Task) × World)
      → CarriesOk (after (answer_workflow_poll env) r)
  poll-CarriesOk req (ok row, w) = answer-CarriesOk row w
  poll-CarriesOk req (err e, w) = tt

  -- A worker that is given a task by a poll is given the history of its run as it then is.
  pub poll_workflow_task_rpc-Carries :
      (req : PollTaskRequest) (w w' : World) (task : PollWorkflowTaskResponse)
      → poll_workflow_task_rpc env req w ≡ (ok task, w')
      → (task.task_id == 0) ≡ false
      → Carries task w'
  unfolding poll_workflow_task_rpc ◌>>=◌
  poll_workflow_task_rpc-Carries req w w' task e =
      subst CarriesOk e
        (poll-CarriesOk req (poll_task env req.task_queue "workflow" req.lease_owner w))

  discard-world :
      {A : Type 0} (r : Result A × World) → (after {B = Unit {0}} (λ _. pure tt) r).1 ≡ r.1
  discard-world (ok a, w) = refl
  discard-world (err e, w) = refl

  -- The poll as a call of the engine.
  pub poll_is_a_call :
      (req : PollTaskRequest) (w w' : World) (task : PollWorkflowTaskResponse)
      → poll_workflow_task_rpc env req w ≡ (ok task, w')
      → (perform env (poll_workflow req) w).1 ≡ w'
  unfolding perform ◌>>=◌
  poll_is_a_call req w w' task e =
      discard-world (poll_workflow_task_rpc env req w) ∙ ap (λ r. r.1) e
