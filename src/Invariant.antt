-- ===== src/Invariant.antt =====
-- What holds of the four tables between two calls. The schema declares none of it but the primary
-- key of the executions: there are no foreign keys and no checks.
use my_temp.Common.{
  ℕ, ◌≤◌, ◌<◌, String, Bool, true, false, ◌≡◌, ◌⊎◌, List, [], ◌∷◌, Option, none, some, any, All,
}
use my_temp.Persistence.Types.{Bytes, WorkflowExecution, Event, Task, Timer}
use my_temp.Persistence.Tables.{Db, is_execution}
pub mod Executions
pub mod Statements
pub mod Open
pub mod Effects
pub mod Calls

abbrev pub is_some : {A : Type 0} → Option A → Bool
is_some none = false
is_some (some a) = true

-- The run has a row in `workflow_executions`.
abbrev pub HasRun : List WorkflowExecution → String → String → Type 0
HasRun xs wid rid = any (is_execution wid rid) xs ≡ true

-- A run is open while it is running, and has an end when it is completed or failed.
abbrev pub IsSoundExecution : WorkflowExecution → Type 0
IsSoundExecution x =
    ((x.status ≡ "Running") × (is_some x.closed_at ≡ false))
    ⊎ ((x.status ≡ "Completed") × (is_some x.closed_at ≡ true))
    ⊎ ((x.status ≡ "Failed") × (is_some x.closed_at ≡ true))

abbrev pub IsSoundEvent : List WorkflowExecution → Event → Type 0
IsSoundEvent xs e = HasRun xs e.workflow_id e.run_id × (is_some e.event_data ≡ true)

-- A task never passes its last attempt, there are at most three, and a lease has both its columns.
abbrev pub IsSoundTask : List WorkflowExecution → Task → Type 0
IsSoundTask xs t =
    HasRun xs t.workflow_id t.run_id
    × (t.attempt ≤ t.max_attempts)
    × (t.max_attempts ≤ 3)
    × (is_some t.lease_owner ≡ is_some t.lease_expires_at)

abbrev pub IsSoundTimer : List WorkflowExecution → Timer → Type 0
IsSoundTimer xs t = HasRun xs t.workflow_id t.run_id

-- Task ids rise along the table and stay under the next one.
abbrev pub Rising : ℕ → List Task → Type 0
Rising n [] = Unit {0}
Rising n (t ∷ ts) = (t.id < n) × All (λ u. t.id < u.id) ts × Rising n ts

pub record Inv (db : Db) : Type 0 where
  pub executions : All IsSoundExecution db.executions
  pub events : All (IsSoundEvent db.executions) db.events
  pub tasks : All (IsSoundTask db.executions) db.tasks
  pub timers : All (IsSoundTimer db.executions) db.timers
  pub rising : Rising db.next_task db.tasks
