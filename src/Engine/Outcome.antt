-- ===== src/Engine/Outcome.antt =====
-- What a call of the engine does to the tables and the metrics.
use my_temp.Common.{ℕ, ◌+◌, String, Option, none, some, ◌≡◌, refl, ◌⊎◌, inl, inr, arith, ap, ◌∙◌}
use my_temp.Metrics.{Metrics}
use my_temp.Persistence.Types.{Task}
use my_temp.Persistence.Session.{
  Env, World, Result, ok, err, pure, after, ◌>>=◌, ◌>>◌, wrapped, pool_query, count,
}
use my_temp.Persistence.{poll_task, get_events}
use my_temp.Persistence.Quiet.{Same, Unchanged}
use my_temp.Persistence.Ends.{
  Ends, Holds, Cause, Ends-bind, Ends-pure, Ends-mono, Ends-then, Ends-count,
}
use my_temp.History.Atomic.{IsAtomic-poll_task}
use my_temp.Proto.{PollTaskRequest}
use my_temp.Frontend.{
  start_workflow_rpc, poll_workflow_task_rpc, respond_workflow_task_completed_rpc,
  poll_activity_task_rpc, respond_activity_task_completed_rpc, respond_activity_task_failed_rpc,
  signal_workflow_rpc, answer_workflow_poll, answer_activity_poll, unmarshal_commands,
}
use my_temp.Spec.Start.{WorkflowStarts, StartRefused, start_workflow-WorkflowStarts}
use my_temp.Spec.WorkflowTask.{
  TaskDropped, WorkflowTaskRefused, CommandsRecorded, complete_workflow_task-Ends,
}
use my_temp.Spec.ActivityTask.{
  ActivityCompletes, ActivityRetries, ActivityFails, ActivityRefused,
  complete_activity_task-ActivityCompletes, fail_activity_task-Ends,
}
use my_temp.Spec.Signal.{SignalDelivered, SignalRefused, signal_workflow-SignalDelivered}
use my_temp.Spec.Timers.{TimersScanned, ScanRefused, scan_timers-TimersScanned}
use my_temp.Spec.Polling.{
  TaskPolled, poll_task-TaskPolled, LeasesReclaimed, reclaim_expired_leases-LeasesReclaimed,
}
use my_temp.Engine.{
  Call, start, poll_workflow, poll_activity, workflow_task_completed, activity_task_completed,
  activity_task_failed, signal, reclaim_tick, scan_tick, reclaim_once, perform,
}
use my_temp.Engine.Atomic.{IsOneTransaction, perform_all_or_nothing}

abbrev pub count_workflow_poll : Option Task → Metrics → Metrics
count_workflow_poll none m = record m { workflow_misses = m.workflow_misses + 1 }
count_workflow_poll (some t) m = record m { workflow_hits = m.workflow_hits + 1 }

abbrev pub count_activity_poll : Option Task → Metrics → Metrics
count_activity_poll none m = record m { activity_misses = m.activity_misses + 1 }
count_activity_poll (some t) m = record m { activity_hits = m.activity_hits + 1 }

-- A poll, and then its counter.
pub record Polled (env : Env) (type : String) (tally : Option Task → Metrics → Metrics)
    (req : PollTaskRequest) (w w' : World) : Type 0 where
  pub row : Option Task
  pub leased : World
  pub polls : TaskPolled env req.task_queue type req.lease_owner w row leased
  pub tables : w'.db ≡ leased.db
  pub counted : w'.metrics ≡ tally row w.metrics

pub record Reclaimed (env : Env) (w w' : World) : Type 0 where
  pub rows : ℕ
  pub freed : World
  pub reclaims : LeasesReclaimed env w rows freed
  pub tables : w'.db ≡ freed.db
  pub counted :
      w'.metrics ≡ record (w.metrics) { leases_reclaimed = w.metrics.leases_reclaimed + rows }

abbrev pub Effect : Env → Call → World → World → Type 0
Effect env (start r) w w' =
    (rid : String) × WorkflowStarts env r.workflow_id r.workflow_type r.task_queue r.input w rid w'
Effect env (poll_workflow r) w w' = Polled env "workflow" count_workflow_poll r w w'
Effect env (poll_activity r) w w' = Polled env "activity" count_activity_poll r w w'
Effect env (workflow_task_completed r) w w' =
    TaskDropped env r.task_id r.workflow_id r.run_id (unmarshal_commands r.commands) w w'
    ⊎ CommandsRecorded env r.task_id r.workflow_id r.run_id (unmarshal_commands r.commands) w w'
Effect env (activity_task_completed r) w w' =
    ActivityCompletes env r.task_id r.workflow_id r.run_id r.result w w'
Effect env (activity_task_failed r) w w' =
    ActivityRetries env r.task_id r.workflow_id r.run_id w w'
    ⊎ ActivityFails env r.task_id r.workflow_id r.run_id r.error w w'
Effect env (signal r) w w' = SignalDelivered env r.workflow_id r.run_id r.signal_name r.input w w'
Effect env reclaim_tick w w' = Reclaimed env w w'
Effect env scan_tick w w' = TimersScanned env w w'

-- Why a call is refused although the database answers.
abbrev pub Refused : Env → Call → World → Type 0
Refused env (start r) w = StartRefused env r.workflow_id r.workflow_type r.task_queue r.input w
Refused env (poll_workflow r) w = ⊥
Refused env (poll_activity r) w = ⊥
Refused env (workflow_task_completed r) w =
    WorkflowTaskRefused env r.task_id r.workflow_id r.run_id (unmarshal_commands r.commands) w
Refused env (activity_task_completed r) w = ActivityRefused env r.task_id r.workflow_id r.run_id w
Refused env (activity_task_failed r) w = ActivityRefused env r.task_id r.workflow_id r.run_id w
Refused env (signal r) w = SignalRefused env r.workflow_id r.run_id r.signal_name r.input w
Refused env reclaim_tick w = ⊥
Refused env scan_tick w = ScanRefused w.db

abbrev pub Outcome : Env → Call → World → World → Type 0
Outcome env c w w' = Same w w' ⊎ Effect env c w w'

module _ (env : Env) (req : PollTaskRequest) (w : World) where
  activity_poll-Ends :
      (row : Option Task) (w' : World)
      → TaskPolled env req.task_queue "activity" req.lease_owner w row w'
      → Ends
          (Cause env ⊥)
          (λ _. Polled env "activity" count_activity_poll req w)
          (answer_activity_poll env row)
          w'
  activity_poll-Ends none w' h = Ends-then _ _ (
      Ends-count _ (
        Ends-pure _
          (record { row = none; leased = w'; polls = h; tables = refl; counted = cc (h.counted) })))
  activity_poll-Ends (some t) w' h = Ends-then _ _ (
      Ends-count _ (
        Ends-pure _ (record {
          row = some t;
          leased = w';
          polls = h;
          tables = refl;
          counted = cc (h.counted);
        })))

  answer_workflow_poll_world :
      (row : Option Task) (w' : World)
      → ((answer_workflow_poll env row w').1.db ≡ w'.db)
        × ((answer_workflow_poll env row w').1.metrics ≡ count_workflow_poll row w'.metrics)
  unfolding get_events wrapped pool_query count ◌>>=◌ ◌>>◌
  answer_workflow_poll_world none w' = (refl, refl)
  answer_workflow_poll_world (some t) w' = ground arith

  workflow_poll-Outcome :
      (r : Result (Option Task) × World)
      → Unchanged w r
      → Holds (Cause env ⊥) (TaskPolled env req.task_queue "workflow" req.lease_owner w) r
      → let w' = (after (answer_workflow_poll env) r).1 in
        Same w w' ⊎ Polled env "workflow" count_workflow_poll req w w'
  workflow_poll-Outcome (err e, w') same h = inl same
  workflow_poll-Outcome (ok row, w') same h =
      let (tables, counted) = answer_workflow_poll_world row w' in
      inr (record {
        row = row;
        leased = w';
        polls = h;
        tables = tables;
        counted = counted ∙ ap (count_workflow_poll row) h.counted;
      })

discard-world :
    {A : Type 0} (r : Result A × World) → (after {B = Unit {0}} (λ _. pure tt) r).1 ≡ r.1
discard-world (ok a, w) = refl
discard-world (err e, w) = refl

-- The lease stays when the read of the history fails after it.
poll_workflow-Outcome :
    (env : Env) (req : PollTaskRequest) (w : World)
    → Outcome env (poll_workflow req) w (perform env (poll_workflow req) w).1
unfolding perform poll_workflow_task_rpc ◌>>=◌
poll_workflow-Outcome env req w =
    let r = poll_task env req.task_queue "workflow" req.lease_owner w in
    rw (discard-world (after (answer_workflow_poll env) r)) (
      workflow_poll-Outcome env req w r ((IsAtomic-poll_task env _ _ _).at w)
        (poll_task-TaskPolled env _ _ _ w).at)

-- A call that returns no error has had its effect.
pub perform-Ends :
    (env : Env) (c : Call) (w : World)
    → IsOneTransaction c
    → Ends (Cause env (Refused env c w)) (λ _. Effect env c w) (perform env c) w
unfolding perform start_workflow_rpc poll_activity_task_rpc respond_workflow_task_completed_rpc
    respond_activity_task_completed_rpc respond_activity_task_failed_rpc signal_workflow_rpc
    reclaim_once
perform-Ends env (start r) w one = Ends-bind _ _ (
    Ends-bind _ _ (
      Ends-mono (start_workflow-WorkflowStarts env _ _ _ _ w)
        (λ rid w' h. Ends-pure _ (Ends-pure tt (rid, h)))))
perform-Ends env (poll_workflow r) w one = absurd one
perform-Ends env (poll_activity r) w one = Ends-bind _ _ (
    Ends-bind _ _ (
      Ends-mono (poll_task-TaskPolled env _ _ _ w) (λ row w' h.
        Ends-mono (activity_poll-Ends env r w row w' h) (λ _ _ done. Ends-pure tt done))))
perform-Ends env (workflow_task_completed r) w one = complete_workflow_task-Ends env _ _ _ _ w
perform-Ends env (activity_task_completed r) w one =
    complete_activity_task-ActivityCompletes env _ _ _ _ w
perform-Ends env (activity_task_failed r) w one = fail_activity_task-Ends env _ _ _ _ w
perform-Ends env (signal r) w one = signal_workflow-SignalDelivered env _ _ _ _ w
perform-Ends env reclaim_tick w one = Ends-bind _ _ (
    Ends-mono (reclaim_expired_leases-LeasesReclaimed env w) (λ n w' h.
      Ends-count _
        (record { rows = n; freed = w'; reclaims = h; tables = refl; counted = cc (h.counted) })))
perform-Ends env scan_tick w one = scan_timers-TimersScanned env w

Outcome-of :
    (env : Env) (c : Call) (w : World) (r : Result (Unit {0}) × World)
    → Unchanged w r
    → Holds (Cause env (Refused env c w)) (λ _. Effect env c w) r
    → Outcome env c w r.1
Outcome-of env c w (ok a, w') same done = inr done
Outcome-of env c w (err e, w') same done = inl same

one_transaction :
    (env : Env) (c : Call) (w : World) → IsOneTransaction c → Outcome env c w (perform env c w).1
one_transaction env c w one =
    Outcome-of env c w (perform env c w) (perform_all_or_nothing env c w one)
      (perform-Ends env c w one).at

-- Whatever fails, a call, the poll for a workflow task included, leaves the tables and the metrics as
-- they were, or has the effect on both that its specification describes.
pub perform-Outcome : (env : Env) (c : Call) (w : World) → Outcome env c w (perform env c w).1
perform-Outcome env (poll_workflow r) w = poll_workflow-Outcome env r w
perform-Outcome env (start r) w = one_transaction env (start r) w tt
perform-Outcome env (poll_activity r) w = one_transaction env (poll_activity r) w tt
perform-Outcome env (workflow_task_completed r) w =
    one_transaction env (workflow_task_completed r) w tt
perform-Outcome env (activity_task_completed r) w =
    one_transaction env (activity_task_completed r) w tt
perform-Outcome env (activity_task_failed r) w = one_transaction env (activity_task_failed r) w tt
perform-Outcome env (signal r) w = one_transaction env (signal r) w tt
perform-Outcome env reclaim_tick w = one_transaction env reclaim_tick w tt
perform-Outcome env scan_tick w = one_transaction env scan_tick w tt
