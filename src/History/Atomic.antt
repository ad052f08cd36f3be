-- ===== src/History/Atomic.antt =====
-- The operations of internal/history/history.go, and the polling of tasks, when they end in an error.
use my_temp.Common.{ℕ, String, List, [], ◌∷◌, Option, none, some, arith}
use my_temp.Persistence.Types.{Bytes, WorkflowExecution, Task, Timer}
use my_temp.Persistence.Session.{Env, World, Result, ok, err, pool_exec}
use my_temp.Persistence.{get_latest_execution, poll_task, lease_row, reclaim_expired_leases}
use my_temp.Persistence.Quiet.{
  IsQuiet, IsQuiet-bind, IsQuiet-pure, IsQuiet-tx_query, IsQuiet-tx_exec, IsAtomic, IsAtomic-last,
  IsAtomic-of_quiet, quiet_rules, atomic_rules, IsAtomic-wrapped, Same,
}
use my_temp.Persistence.Quiet.Methods.{quiet_methods, IsQuiet-get_latest_execution}
use my_temp.History.Types.{Command}
use my_temp.History.Retry.{RetryPolicy, next_retry_delay}
use my_temp.History.Start.{refuse_running, check_not_running, insert_run, start_workflow}
use my_temp.History.WorkflowTask.{
  Progress, schedule_activity, start_timer, complete_workflow, fail_workflow, apply_command,
  apply_commands, drop_task, record_commands, complete_workflow_task,
}
use my_temp.History.ActivityTask.{
  complete_activity_task, retry_activity, give_up_activity, fail_activity_task,
}
use my_temp.History.Timers.{fire_timer, fire_timers, scan_timers}
use my_temp.History.Signal.{resolve_run, deliver_signal, signal_workflow}

refuse_running-Same :
    (wid : String) (w : World) (r : Result WorkflowExecution × World)
    → Same w r.1
    → Same w (refuse_running wid r).1
refuse_running-Same wid w (ok x, w') s = ground arith
refuse_running-Same wid w (err e, w') s = ground arith

module _ (env : Env) where
  IsQuiet-next_retry_delay : (p : RetryPolicy) (n : ℕ) → IsQuiet (next_retry_delay env p n)
  unfolding next_retry_delay
  IsQuiet-next_retry_delay p n = search quiet_rules

  IsQuiet-check_not_running : (wid : String) → IsQuiet (check_not_running env wid)
  unfolding check_not_running
  IsQuiet-check_not_running wid = record {
    at = λ w.
        refuse_running-Same wid w (get_latest_execution env wid w)
          ((IsQuiet-get_latest_execution env wid).at w);
  }

  IsQuiet-insert_run :
      (rid wid type queue : String) (input : Bytes)
      → IsQuiet (insert_run env rid wid type queue input)
  unfolding insert_run
  IsQuiet-insert_run rid wid type queue input = search (quiet_methods, quiet_rules) depth 8

  pub IsAtomic-start_workflow :
      (wid type queue : String) (input : Bytes) → IsAtomic (start_workflow env wid type queue input)
  unfolding start_workflow
  IsAtomic-start_workflow wid type queue input =
      search
        (quiet_methods, IsQuiet-check_not_running, IsQuiet-insert_run, atomic_rules, IsAtomic-last)
        depth 12

  module _ (exec : WorkflowExecution) (wid rid : String) (p : Progress) (cmd : Command) where
    IsQuiet-schedule_activity : IsQuiet (schedule_activity env exec wid rid p cmd)
    unfolding schedule_activity
    IsQuiet-schedule_activity = search (quiet_methods, quiet_rules) depth 8

    IsQuiet-start_timer : IsQuiet (start_timer env exec wid rid p cmd)
    unfolding start_timer
    IsQuiet-start_timer = search (quiet_methods, quiet_rules) depth 8

    IsQuiet-complete_workflow : IsQuiet (complete_workflow env exec wid rid p cmd)
    unfolding complete_workflow
    IsQuiet-complete_workflow = search (quiet_methods, quiet_rules) depth 8

    IsQuiet-fail_workflow : IsQuiet (fail_workflow env exec wid rid p cmd)
    unfolding fail_workflow
    IsQuiet-fail_workflow = search (quiet_methods, quiet_rules) depth 8

    IsQuiet-apply_command : IsQuiet (apply_command env exec wid rid p cmd)
    unfolding apply_command
    IsQuiet-apply_command =
        search
          (
            IsQuiet-schedule_activity, IsQuiet-start_timer, IsQuiet-complete_workflow,
            IsQuiet-fail_workflow, quiet_rules,
          )
          depth 8

  IsQuiet-apply_commands :
      (exec : WorkflowExecution) (wid rid : String) (p : Progress) (cmds : List Command)
      → IsQuiet (apply_commands env exec wid rid p cmds)
  unfolding apply_commands
  IsQuiet-apply_commands exec wid rid p [] = IsQuiet-pure p
  IsQuiet-apply_commands exec wid rid p (cmd ∷ cmds) =
      IsQuiet-bind _ _ (IsQuiet-apply_command exec wid rid p cmd)
        (λ p'. IsQuiet-apply_commands exec wid rid p' cmds)

  module _ (id : ℕ) (wid rid : String) where
    pub IsAtomic-complete_workflow_task :
        (cmds : List Command) → IsAtomic (complete_workflow_task env id wid rid cmds)
    unfolding complete_workflow_task drop_task record_commands
    IsAtomic-complete_workflow_task cmds =
        search (quiet_methods, IsQuiet-apply_commands, atomic_rules, IsAtomic-last) depth 12

    pub IsAtomic-complete_activity_task :
        (result : Bytes) → IsAtomic (complete_activity_task env id wid rid result)
    unfolding complete_activity_task
    IsAtomic-complete_activity_task result =
        search (quiet_methods, atomic_rules, IsAtomic-last) depth 12

    IsAtomic-retry_activity : (t : Task) → IsAtomic (retry_activity env id wid rid t)
    unfolding retry_activity
    IsAtomic-retry_activity t =
        search (quiet_methods, IsQuiet-next_retry_delay, atomic_rules, IsAtomic-last) depth 12

    IsAtomic-give_up_activity :
        (t : Task) (text : String) → IsAtomic (give_up_activity env id wid rid t text)
    unfolding give_up_activity
    IsAtomic-give_up_activity t text = search (quiet_methods, atomic_rules, IsAtomic-last) depth 12

    pub IsAtomic-fail_activity_task :
        (text : String) → IsAtomic (fail_activity_task env id wid rid text)
    unfolding fail_activity_task
    IsAtomic-fail_activity_task text =
        search (quiet_methods, IsAtomic-retry_activity, IsAtomic-give_up_activity, atomic_rules)
          depth 12

  IsQuiet-fire_timer : (t : Timer) → IsQuiet (fire_timer env t)
  unfolding fire_timer
  IsQuiet-fire_timer t = search (quiet_methods, quiet_rules) depth 12

  IsQuiet-fire_timers : (ts : List Timer) → IsQuiet (fire_timers env ts)
  unfolding fire_timers
  IsQuiet-fire_timers [] = IsQuiet-pure tt
  IsQuiet-fire_timers (t ∷ ts) = search (quiet_rules, IsQuiet-fire_timer t, IsQuiet-fire_timers ts)

  pub IsAtomic-scan_timers : IsAtomic (scan_timers env)
  unfolding scan_timers
  IsAtomic-scan_timers =
      search (quiet_methods, IsQuiet-fire_timers, atomic_rules, IsAtomic-last) depth 12

  IsQuiet-resolve_run : (wid rid : String) → IsQuiet (resolve_run env wid rid)
  unfolding resolve_run
  IsQuiet-resolve_run wid rid = search (quiet_methods, quiet_rules) depth 8

  pub IsAtomic-signal_workflow :
      (wid rid name : String) (input : Bytes) → IsAtomic (signal_workflow env wid rid name input)
  unfolding signal_workflow deliver_signal
  IsAtomic-signal_workflow wid rid name input =
      search (quiet_methods, IsQuiet-resolve_run, atomic_rules, IsAtomic-last, IsAtomic-of_quiet)
        depth 14

  IsAtomic-lease_row : (owner : String) (t : Option Task) → IsAtomic (lease_row env owner t)
  IsAtomic-lease_row owner none = IsAtomic-of_quiet _ (IsQuiet-pure none)
  IsAtomic-lease_row owner (some t) =
      search (IsQuiet-tx_exec env, atomic_rules, IsAtomic-last) depth 8

  pub IsAtomic-poll_task : (queue type owner : String) → IsAtomic (poll_task env queue type owner)
  unfolding poll_task
  IsAtomic-poll_task queue type owner =
      search (IsQuiet-tx_query env, IsAtomic-lease_row, atomic_rules) depth 8

  pub IsAtomic-reclaim_expired_leases : IsAtomic (reclaim_expired_leases env)
  unfolding reclaim_expired_leases pool_exec
  IsAtomic-reclaim_expired_leases = IsAtomic-wrapped _ _ (record { at = λ w. ground arith })
