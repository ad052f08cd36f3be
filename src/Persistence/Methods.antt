-- ===== src/Persistence/Methods.antt =====
-- What each method of `Persistence` returns and writes.
use my_temp.Common.{
  ℕ, ◌+◌, String, ◌≡◌, refl, Option, none, some, List, map, ◌==◌, ℕ_eq, String_eq, find, keep,
}
use my_temp.Metrics.{Metrics}
use my_temp.Persistence.Types.{WorkflowExecution, Event, Task, Timer, Time}
use my_temp.Persistence.Tables.{
  Db, is_execution, latest, events_of, due_timers, mark_fired, insert_execution_row, set_status,
  insert_event_row, insert_task_row, delete_task_rows, insert_timer_row, insert_workflow_task_row,
}
use my_temp.Persistence.Session.{Env, World, count_call}
use my_temp.Persistence.Ends.{Ends, Excuse, in_tx, Ends-bind, Ends-pure, Ends-raise, Ends-wrapped}
use my_temp.Persistence.Calls.{Ends-pool_query, Ends-tx_query, Ends-tx_exec, Ends-tx_write}
use my_temp.Persistence.{
  or_not_found, insert_workflow_execution, get_workflow_execution, get_latest_execution,
  update_workflow_status, insert_event, get_events, insert_task, get_task, complete_task,
  insert_timer, get_due_timers, mark_timer_fired, insert_workflow_task_if_not_exists,
}

Ends-or_not_found :
    {A : Type 0} {F : Type 0} {Q : A → World → Type 0} (o : Option A) {w : World}
    → (o ≡ none → F)
    → ((a : A) → o ≡ some a → Q a w)
    → Ends F Q (or_not_found o) w
Ends-or_not_found none f h = Ends-raise _ (f refl)
Ends-or_not_found (some a) f h = Ends-pure a (h a refl)

module _ (env : Env) where
  pub Ends-get_workflow_execution :
      {F : Type 0} {Q : WorkflowExecution → World → Type 0} (wid rid : String) {w : World}
      → Excuse env F
      → (find (is_execution wid rid) w.db.executions ≡ none → F)
      → ((x : WorkflowExecution)
          → find (is_execution wid rid) w.db.executions ≡ some x
          → Q x (count_call w))
      → Ends F Q (get_workflow_execution env wid rid) w
  unfolding get_workflow_execution
  Ends-get_workflow_execution wid rid excuse missing h =
      Ends-bind _ _
        (Ends-wrapped _ _ (Ends-pool_query env _ excuse (Ends-or_not_found _ missing h)))

  pub Ends-get_latest_execution :
      {F : Type 0} {Q : WorkflowExecution → World → Type 0} (wid : String) {w : World}
      → Excuse env F
      → (latest (keep (λ y. y.workflow_id == wid) w.db.executions) ≡ none → F)
      → ((x : WorkflowExecution)
          → latest (keep (λ y. y.workflow_id == wid) w.db.executions) ≡ some x
          → Q x (count_call w))
      → Ends F Q (get_latest_execution env wid) w
  unfolding get_latest_execution
  Ends-get_latest_execution wid excuse missing h =
      Ends-bind _ _
        (Ends-wrapped _ _ (Ends-pool_query env _ excuse (Ends-or_not_found _ missing h)))

  pub Ends-get_task :
      {F : Type 0} {Q : Task → World → Type 0} (id : ℕ) {w : World}
      → Excuse env F
      → (find (λ t. t.id == id) w.db.tasks ≡ none → F)
      → ((t : Task) → find (λ t. t.id == id) w.db.tasks ≡ some t → Q t (count_call w))
      → Ends F Q (get_task env id) w
  unfolding get_task
  Ends-get_task id excuse missing h =
      Ends-bind _ _
        (Ends-wrapped _ _ (Ends-pool_query env _ excuse (Ends-or_not_found _ missing h)))

  pub Ends-get_events :
      {F : Type 0} {Q : List Event → World → Type 0} (wid rid : String) {w : World}
      → Excuse env F
      → Q (events_of wid rid w.db) (count_call w)
      → Ends F Q (get_events env wid rid) w
  unfolding get_events
  Ends-get_events wid rid excuse h = Ends-wrapped _ _ (Ends-pool_query env _ excuse h)

  module _ {db : Db} {metrics : Metrics} {calls : ℕ} {now : Time} {view : Db} where
    pub Ends-insert_workflow_execution :
        {F : Type 0} {Q : Unit {0} → World → Type 0} (x : WorkflowExecution)
        → Excuse env F
        → (insert_execution_row now x view ≡ none → F)
        → ((v : Db)
            → insert_execution_row now x view ≡ some v
            → Q tt (in_tx db metrics (calls + 1) now v))
        → Ends F Q (insert_workflow_execution env x) (in_tx db metrics calls now view)
    unfolding insert_workflow_execution
    Ends-insert_workflow_execution x excuse missing h =
        Ends-wrapped _ _ (Ends-tx_exec env _ excuse missing h)

    pub Ends-update_workflow_status :
        {F : Type 0} {Q : Unit {0} → World → Type 0} (wid rid status : String)
        → Excuse env F
        → Q tt (
            in_tx db metrics
              (calls + 1)
              now
              (record view { executions = map (set_status now wid rid status) view.executions }))
        → Ends F Q (update_workflow_status env wid rid status) (in_tx db metrics calls now view)
    unfolding update_workflow_status
    Ends-update_workflow_status wid rid status excuse h =
        Ends-wrapped _ _ (Ends-tx_write env _ excuse h)

    pub Ends-insert_event :
        {F : Type 0} {Q : Unit {0} → World → Type 0} (e : Event)
        → Excuse env F
        → Q tt (in_tx db metrics (calls + 1) now (insert_event_row now e view))
        → Ends F Q (insert_event env e) (in_tx db metrics calls now view)
    unfolding insert_event
    Ends-insert_event e excuse h = Ends-wrapped _ _ (Ends-tx_write env _ excuse h)

    pub Ends-insert_task :
        {F : Type 0} {Q : Unit {0} → World → Type 0} (t : Task)
        → Excuse env F
        → Q tt (in_tx db metrics (calls + 1) now (insert_task_row t view))
        → Ends F Q (insert_task env t) (in_tx db metrics calls now view)
    unfolding insert_task
    Ends-insert_task t excuse h = Ends-wrapped _ _ (Ends-tx_write env _ excuse h)

    pub Ends-complete_task :
        {F : Type 0} {Q : Unit {0} → World → Type 0} (id : ℕ)
        → Excuse env F
        → Q tt (in_tx db metrics (calls + 1) now (delete_task_rows id view))
        → Ends F Q (complete_task env id) (in_tx db metrics calls now view)
    unfolding complete_task
    Ends-complete_task id excuse h = Ends-wrapped _ _ (Ends-tx_write env _ excuse h)

    pub Ends-insert_timer :
        {F : Type 0} {Q : Unit {0} → World → Type 0} (t : Timer)
        → Excuse env F
        → Q tt (in_tx db metrics (calls + 1) now (insert_timer_row t view))
        → Ends F Q (insert_timer env t) (in_tx db metrics calls now view)
    unfolding insert_timer
    Ends-insert_timer t excuse h = Ends-wrapped _ _ (Ends-tx_write env _ excuse h)

    pub Ends-get_due_timers :
        {F : Type 0} {Q : List Timer → World → Type 0}
        → Excuse env F
        → Q (due_timers env.locked_timer now view) (in_tx db metrics (calls + 1) now view)
        → Ends F Q (get_due_timers env) (in_tx db metrics calls now view)
    unfolding get_due_timers
    Ends-get_due_timers excuse h = Ends-wrapped _ _ (Ends-tx_query env _ excuse h)

    pub Ends-mark_timer_fired :
        {F : Type 0} {Q : Unit {0} → World → Type 0} (id : ℕ)
        → Excuse env F
        → Q tt (
            in_tx db metrics
              (calls + 1)
              now
              (record view { timers = map (mark_fired id) view.timers }))
        → Ends F Q (mark_timer_fired env id) (in_tx db metrics calls now view)
    unfolding mark_timer_fired
    Ends-mark_timer_fired id excuse h = Ends-wrapped _ _ (Ends-tx_write env _ excuse h)

    pub Ends-insert_workflow_task_if_not_exists :
        {F : Type 0} {Q : Unit {0} → World → Type 0} (t : Task)
        → Excuse env F
        → Q tt (in_tx db metrics (calls + 1) now (insert_workflow_task_row now t view))
        → Ends F Q (insert_workflow_task_if_not_exists env t) (in_tx db metrics calls now view)
    unfolding insert_workflow_task_if_not_exists
    Ends-insert_workflow_task_if_not_exists t excuse h =
        Ends-wrapped _ _ (Ends-tx_write env _ excuse h)

pub ruleset ends_methods = (
  Ends-insert_workflow_execution, Ends-get_workflow_execution, Ends-get_latest_execution,
  Ends-update_workflow_status, Ends-insert_event, Ends-get_events, Ends-insert_task, Ends-get_task,
  Ends-complete_task, Ends-insert_timer, Ends-get_due_timers, Ends-mark_timer_fired,
  Ends-insert_workflow_task_if_not_exists,
)
