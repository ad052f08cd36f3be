-- ===== src/Persistence.antt =====
-- internal/persistence/persistence.go: one function for each method of `Persistence`. Methods that
-- take a `pgx.Tx` work on the open transaction, the others read through the pool.
pub mod Types
pub mod Tables
pub mod Session
pub mod Quiet
pub mod Ends
pub mod Calls
pub mod Methods
use my_temp.Common.{
  ℕ, String, List, Option, none, some, map, ◌==◌, ℕ_eq, String_eq, find, length, keep,
}
use my_temp.Errors.{sentinel, not_found}
use Types.{WorkflowExecution, Event, Task, Timer}
use Tables.{
  Db, is_execution, latest, events_of, pollable, lease, is_expired, reclaim, due_timers, mark_fired,
  insert_execution_row, set_status, insert_event_row, insert_task_row, delete_task_rows,
  insert_timer_row, insert_workflow_task_row,
}
use Session.{
  Env, Tx, M, pure, raise, ◌>>=◌, ◌>>◌, wrapped, pool_query, pool_exec, begin_tx, tx_query, tx_exec,
  commit, deferring_rollback,
}

-- `pgx.ErrNoRows` becomes `ErrNotFound`.
abbrev pub or_not_found : {A : Type 0} → Option A → M A
or_not_found none = raise (sentinel not_found)
or_not_found (some a) = pure a

module _ (env : Env) where
  unfoldable pub insert_workflow_execution : WorkflowExecution → M (Unit {0})
  insert_workflow_execution w =
      wrapped "insert workflow execution" (tx_exec env (λ t. insert_execution_row t.now w t.view))

  unfoldable pub get_workflow_execution : String → String → M WorkflowExecution
  unfolding ◌>>=◌
  get_workflow_execution workflow_id run_id = do
    row ←
        wrapped "scan workflow execution"
          (pool_query env (λ db. find (is_execution workflow_id run_id) db.executions))
    or_not_found row

  unfoldable pub get_latest_execution : String → M WorkflowExecution
  unfolding ◌>>=◌
  get_latest_execution workflow_id = do
    row ←
        wrapped "scan latest execution"
          (pool_query env (λ db. latest (keep (λ w. w.workflow_id == workflow_id) db.executions)))
    or_not_found row

  unfoldable pub update_workflow_status : String → String → String → M (Unit {0})
  update_workflow_status workflow_id run_id status = wrapped "update workflow status" (
      tx_exec env (λ t. some (record (t.view) {
        executions = map (set_status t.now workflow_id run_id status) t.view.executions;
      })))

  unfoldable pub insert_event : Event → M (Unit {0})
  insert_event e =
      wrapped "insert event" (tx_exec env (λ t. some (insert_event_row t.now e t.view)))

  unfoldable pub get_events : String → String → M (List Event)
  get_events workflow_id run_id =
      wrapped "query events" (pool_query env (events_of workflow_id run_id))

  unfoldable pub insert_task : Task → M (Unit {0})
  insert_task t = wrapped "insert task" (tx_exec env (λ x. some (insert_task_row t x.view)))

  -- After the `SELECT`: lease the row and commit, or return `(nil, nil)` for an empty queue.
  abbrev pub lease_row : String → Option Task → M (Option Task)
  lease_row owner none = pure none
  lease_row owner (some t) =
      wrapped "set lease owner" (
        tx_exec env
          (λ x. some (record (x.view) { tasks = map (lease x.now owner t.id) x.view.tasks })))
      >> wrapped "commit transaction" (commit env)
      >> pure (some t)

  unfoldable pub poll_task : String → String → String → M (Option Task)
  unfolding ◌>>=◌ ◌>>◌
  poll_task queue task_type lease_owner = do
    wrapped "begin transaction" (begin_tx env)
    deferring_rollback (
        wrapped "scan task"
          (tx_query env (λ x. pollable env.locked_task x.now queue task_type x.view))
        >>= lease_row lease_owner)

  unfoldable pub get_task : ℕ → M Task
  unfolding ◌>>=◌
  get_task task_id = do
    row ← wrapped "scan task" (pool_query env (λ db. find (λ t. t.id == task_id) db.tasks))
    or_not_found row

  unfoldable pub reclaim_expired_leases : M ℕ
  reclaim_expired_leases = wrapped "reclaim expired leases" (
      pool_exec env (λ now db. length (keep (is_expired now) db.tasks))
        (λ now db. record db { tasks = map (reclaim now) db.tasks }))

  unfoldable pub complete_task : ℕ → M (Unit {0})
  complete_task task_id =
      wrapped "complete task" (tx_exec env (λ t. some (delete_task_rows task_id t.view)))

  unfoldable pub insert_timer : Timer → M (Unit {0})
  insert_timer t = wrapped "insert timer" (tx_exec env (λ x. some (insert_timer_row t x.view)))

  unfoldable pub get_due_timers : M (List Timer)
  get_due_timers =
      wrapped "query due timers" (tx_query env (λ x. due_timers env.locked_timer x.now x.view))

  unfoldable pub mark_timer_fired : ℕ → M (Unit {0})
  mark_timer_fired timer_id = wrapped "mark timer fired" (
      tx_exec env
        (λ t. some (record (t.view) { timers = map (mark_fired timer_id) t.view.timers })))

  unfoldable pub insert_workflow_task_if_not_exists : Task → M (Unit {0})
  insert_workflow_task_if_not_exists t =
      wrapped "insert workflow task"
        (tx_exec env (λ x. some (insert_workflow_task_row x.now t x.view)))
