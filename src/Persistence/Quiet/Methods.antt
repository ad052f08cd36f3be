-- ===== src/Persistence/Quiet/Methods.antt =====
-- The methods of `Persistence` write nothing that others can see before the commit.
use my_temp.Common.{ℕ, String, Option, none, some, ℕ_eq, String_eq}
use my_temp.Persistence.Types.{WorkflowExecution, Event, Task, Timer}
use my_temp.Persistence.Session.{Env}
use my_temp.Persistence.Quiet.{
  IsQuiet, IsQuiet-bind, IsQuiet-pure, IsQuiet-raise, IsQuiet-wrapped, IsQuiet-pool_query,
  IsQuiet-tx_query, IsQuiet-tx_exec,
}
use my_temp.Persistence.{
  or_not_found, insert_workflow_execution, get_workflow_execution, get_latest_execution,
  update_workflow_status, insert_event, get_events, insert_task, get_task, complete_task,
  insert_timer, get_due_timers, mark_timer_fired, insert_workflow_task_if_not_exists,
}

IsQuiet-or_not_found : {A : Type 0} (o : Option A) → IsQuiet (or_not_found o)
IsQuiet-or_not_found none = IsQuiet-raise _
IsQuiet-or_not_found (some a) = IsQuiet-pure a

module _ (env : Env) where
  pub IsQuiet-insert_workflow_execution :
      (w : WorkflowExecution) → IsQuiet (insert_workflow_execution env w)
  unfolding insert_workflow_execution
  IsQuiet-insert_workflow_execution w = IsQuiet-wrapped _ _ (IsQuiet-tx_exec env _)

  pub IsQuiet-get_workflow_execution :
      (wid rid : String) → IsQuiet (get_workflow_execution env wid rid)
  unfolding get_workflow_execution
  IsQuiet-get_workflow_execution wid rid =
      IsQuiet-bind _ _ (IsQuiet-wrapped _ _ (IsQuiet-pool_query env _)) IsQuiet-or_not_found

  pub IsQuiet-get_latest_execution : (wid : String) → IsQuiet (get_latest_execution env wid)
  unfolding get_latest_execution
  IsQuiet-get_latest_execution wid =
      IsQuiet-bind _ _ (IsQuiet-wrapped _ _ (IsQuiet-pool_query env _)) IsQuiet-or_not_found

  pub IsQuiet-update_workflow_status :
      (wid rid status : String) → IsQuiet (update_workflow_status env wid rid status)
  unfolding update_workflow_status
  IsQuiet-update_workflow_status wid rid status = IsQuiet-wrapped _ _ (IsQuiet-tx_exec env _)

  pub IsQuiet-insert_event : (e : Event) → IsQuiet (insert_event env e)
  unfolding insert_event
  IsQuiet-insert_event e = IsQuiet-wrapped _ _ (IsQuiet-tx_exec env _)

  pub IsQuiet-get_events : (wid rid : String) → IsQuiet (get_events env wid rid)
  unfolding get_events
  IsQuiet-get_events wid rid = IsQuiet-wrapped _ _ (IsQuiet-pool_query env _)

  pub IsQuiet-insert_task : (t : Task) → IsQuiet (insert_task env t)
  unfolding insert_task
  IsQuiet-insert_task t = IsQuiet-wrapped _ _ (IsQuiet-tx_exec env _)

  pub IsQuiet-get_task : (id : ℕ) → IsQuiet (get_task env id)
  unfolding get_task
  IsQuiet-get_task id =
      IsQuiet-bind _ _ (IsQuiet-wrapped _ _ (IsQuiet-pool_query env _)) IsQuiet-or_not_found

  pub IsQuiet-complete_task : (id : ℕ) → IsQuiet (complete_task env id)
  unfolding complete_task
  IsQuiet-complete_task id = IsQuiet-wrapped _ _ (IsQuiet-tx_exec env _)

  pub IsQuiet-insert_timer : (t : Timer) → IsQuiet (insert_timer env t)
  unfolding insert_timer
  IsQuiet-insert_timer t = IsQuiet-wrapped _ _ (IsQuiet-tx_exec env _)

  pub IsQuiet-get_due_timers : IsQuiet (get_due_timers env)
  unfolding get_due_timers
  IsQuiet-get_due_timers = IsQuiet-wrapped _ _ (IsQuiet-tx_query env _)

  pub IsQuiet-mark_timer_fired : (id : ℕ) → IsQuiet (mark_timer_fired env id)
  unfolding mark_timer_fired
  IsQuiet-mark_timer_fired id = IsQuiet-wrapped _ _ (IsQuiet-tx_exec env _)

  pub IsQuiet-insert_workflow_task_if_not_exists :
      (t : Task) → IsQuiet (insert_workflow_task_if_not_exists env t)
  unfolding insert_workflow_task_if_not_exists
  IsQuiet-insert_workflow_task_if_not_exists t = IsQuiet-wrapped _ _ (IsQuiet-tx_exec env _)

pub ruleset quiet_methods = (
  IsQuiet-insert_workflow_execution, IsQuiet-get_workflow_execution, IsQuiet-get_latest_execution,
  IsQuiet-update_workflow_status, IsQuiet-insert_event, IsQuiet-get_events, IsQuiet-insert_task,
  IsQuiet-get_task, IsQuiet-complete_task, IsQuiet-insert_timer, IsQuiet-get_due_timers,
  IsQuiet-mark_timer_fired, IsQuiet-insert_workflow_task_if_not_exists,
)
