-- ===== src/Engine/Atomic.antt =====
-- What is left of a call of the engine that ends in an error.
use my_temp.Common.{Option, none, some}
use my_temp.Persistence.Types.{Task}
use my_temp.Persistence.Session.{Env, World, M}
use my_temp.Persistence.Quiet.{
  IsAtomic, IsInfallible, IsInfallible-pure, IsInfallible-then, IsInfallible-count, Unchanged,
  IsAtomic-of_infallible,
}
use my_temp.History.Atomic.{
  IsAtomic-start_workflow, IsAtomic-complete_workflow_task, IsAtomic-complete_activity_task,
  IsAtomic-fail_activity_task, IsAtomic-scan_timers, IsAtomic-signal_workflow, IsAtomic-poll_task,
  IsAtomic-reclaim_expired_leases,
}
use my_temp.Frontend.{
  start_workflow_rpc, respond_workflow_task_completed_rpc, poll_activity_task_rpc,
  respond_activity_task_completed_rpc, respond_activity_task_failed_rpc, signal_workflow_rpc,
  answer_activity_poll,
}
use my_temp.Engine.{
  Call, start, poll_workflow, poll_activity, workflow_task_completed, activity_task_completed,
  activity_task_failed, signal, reclaim_tick, scan_tick, discard, reclaim_once, perform,
}

-- All calls but the poll for a workflow task, which reads the history after it has committed.
abbrev pub IsOneTransaction : Call → Type 0
IsOneTransaction (poll_workflow req) = ⊥
IsOneTransaction _ = Unit {0}

IsInfallible-answer_activity_poll :
    (env : Env) (t : Option Task) → IsInfallible (answer_activity_poll env t)
IsInfallible-answer_activity_poll env none =
    IsInfallible-then _ _ (IsInfallible-count _) (IsInfallible-pure _)
IsInfallible-answer_activity_poll env (some t) =
    IsInfallible-then _ _ (IsInfallible-count _) (IsInfallible-pure _)

IsAtomic-discard : {A : Type 0} (m : M A) → IsAtomic m → IsAtomic (discard m)
IsAtomic-discard m h = IsAtomic-of_infallible m _ h (λ a. IsInfallible-pure tt)

perform-IsAtomic : (env : Env) (c : Call) → IsOneTransaction c → IsAtomic (perform env c)
unfolding perform start_workflow_rpc poll_activity_task_rpc respond_workflow_task_completed_rpc
    respond_activity_task_completed_rpc respond_activity_task_failed_rpc signal_workflow_rpc
    reclaim_once
perform-IsAtomic env (start req) h =
    IsAtomic-discard _
      (IsAtomic-of_infallible _ _ (IsAtomic-start_workflow env _ _ _ _) (λ a. IsInfallible-pure _))
perform-IsAtomic env (poll_workflow req) h = absurd h
perform-IsAtomic env (poll_activity req) h = IsAtomic-discard _ (
    IsAtomic-of_infallible _ _ (IsAtomic-poll_task env _ _ _)
      (IsInfallible-answer_activity_poll env))
perform-IsAtomic env (workflow_task_completed req) h = IsAtomic-complete_workflow_task env _ _ _ _
perform-IsAtomic env (activity_task_completed req) h = IsAtomic-complete_activity_task env _ _ _ _
perform-IsAtomic env (activity_task_failed req) h = IsAtomic-fail_activity_task env _ _ _ _
perform-IsAtomic env (signal req) h = IsAtomic-signal_workflow env _ _ _ _
perform-IsAtomic env reclaim_tick h =
    IsAtomic-of_infallible _ _ (IsAtomic-reclaim_expired_leases env) (λ n. IsInfallible-count _)
perform-IsAtomic env scan_tick h = IsAtomic-scan_timers env

-- A call that ends in an error leaves the committed tables and every metric as they were, whichever
-- database call fails and whatever the other answers are; the poll for a workflow task is excepted.
pub perform_all_or_nothing :
    (env : Env) (c : Call) (w : World) → IsOneTransaction c → Unchanged w (perform env c w)
perform_all_or_nothing env c w h = (perform-IsAtomic env c h).at w
