-- ===== src/Persistence/Tables.antt =====
-- The four tables, and what each SQL statement of internal/persistence/persistence.go does to
-- them. Ids come from the tables' sequences; the gap that a rollback leaves is not kept.
use my_temp.Common.{
  ℕ, ◌+◌, String, Bool, true, false, not, ◌&&◌, ◌||◌, List, [], ◌∷◌, ◌++◌, Option, none, some, ◌==◌,
  String_eq, ℕ_eq, leb, if◌then◌else◌, keep, any, take,
}
use my_temp.Common.Int.{pos, ◌+ℤ◌, leb_ℤ, ltb_ℤ}
use my_temp.Persistence.Types.{Bytes, Time, WorkflowExecution, Event, Task, Timer}

pub record Db : Type 0 where
  pub executions : List WorkflowExecution
  pub events : List Event
  pub tasks : List Task
  pub timers : List Timer
  pub next_event : ℕ
  pub next_task : ℕ
  pub next_timer : ℕ

abbrev pub empty_db : Db
empty_db = record {
  executions = [];
  events = [];
  tasks = [];
  timers = [];
  next_event = 1;
  next_task = 1;
  next_timer = 1;
}

-- `WHERE workflow_id = $1 AND run_id = $2`, on each table.
abbrev pub is_execution : String → String → WorkflowExecution → Bool
is_execution wid rid w = w.workflow_id == wid && w.run_id == rid

abbrev pub is_event_of : String → String → Event → Bool
is_event_of wid rid e = e.workflow_id == wid && e.run_id == rid

-- `started_at` and `closed_at` take their defaults, and the primary key refuses a second row.
unfoldable pub insert_execution_row : Time → WorkflowExecution → Db → Option Db
insert_execution_row now w db =
    if any (is_execution w.workflow_id w.run_id) db.executions
    then none
    else some (record db {
      executions = db.executions ++ record w { started_at = now; closed_at = none } ∷ [];
    })

-- `ORDER BY started_at DESC LIMIT 1`; of rows of one instant the first in the table.
unfoldable pub latest : List WorkflowExecution → Option WorkflowExecution
latest [] = none
latest (x ∷ xs) = elim (latest xs) [
  | none ↦ some x
  | some y ↦ if ltb_ℤ x.started_at y.started_at then some y else some x
]

abbrev pub is_closed_status : String → Bool
is_closed_status s = s == "Completed" || s == "Failed" || s == "Canceled"

unfoldable pub set_status : Time → String → String → String → WorkflowExecution → WorkflowExecution
set_status now wid rid status w =
    if is_execution wid rid w
    then record w {
      status = status;
      closed_at = if is_closed_status status then some now else w.closed_at;
    }
    else w

-- `data` is the only column that the source makes non-NULL by itself.
abbrev pub non_nil : Bytes → Bytes
non_nil none = some []
non_nil (some b) = some b

unfoldable pub insert_event_row : Time → Event → Db → Db
insert_event_row now e db = record db {
  events =
      db.events
      ++ record e { id = db.next_event; event_data = non_nil e.event_data; created_at = now } ∷ [];
  next_event = db.next_event + 1;
}

-- `ORDER BY event_id`: events with one id keep the order of the table.
abbrev pub insert_by_id : Event → List Event → List Event
insert_by_id e [] = e ∷ []
insert_by_id e (x ∷ xs) =
    let rest = insert_by_id e xs in if leb e.event_id x.event_id then e ∷ x ∷ xs else x ∷ rest

abbrev pub order_by_event_id : List Event → List Event
order_by_event_id [] = []
order_by_event_id (e ∷ es) = insert_by_id e (order_by_event_id es)

unfoldable pub events_of : String → String → Db → List Event
events_of wid rid db = order_by_event_id (keep (is_event_of wid rid) db.events)

unfoldable pub insert_task_row : Task → Db → Db
insert_task_row t db = record db {
  tasks = db.tasks ++ record t { id = db.next_task } ∷ [];
  next_task = db.next_task + 1;
}

abbrev pub is_unleased : Task → Bool
is_unleased t = elim t.lease_owner [ none ↦ true | some _ ↦ false ]

-- The `WHERE` clause of `PollTask`.
abbrev pub is_pollable : Time → String → String → Task → Bool
is_pollable now queue task_type t =
    t.task_queue == queue
    && t.task_type == task_type
    && is_unleased t
    && leb_ℤ t.visibility_time now

-- `ORDER BY id LIMIT 1`.
abbrev pub lowest_id : List Task → Option Task
lowest_id [] = none
lowest_id (t ∷ ts) = elim (lowest_id ts) [
  | none ↦ some t
  | some u ↦ if leb t.id u.id then some t else some u
]

-- `FOR UPDATE SKIP LOCKED`: rows that other transactions hold are passed over.
unfoldable pub pollable : (ℕ → Bool) → Time → String → String → Db → Option Task
pollable locked now queue task_type db =
    lowest_id (keep (λ t. is_pollable now queue task_type t && not (locked t.id)) db.tasks)

-- `now() + interval '30 seconds'`, in nanoseconds.
abbrev pub lease_time : ℕ
lease_time = 30000000000

unfoldable pub lease : Time → String → ℕ → Task → Task
lease now owner id t =
    if t.id == id
    then record t { lease_owner = some owner; lease_expires_at = some (now +ℤ pos lease_time) }
    else t

-- A comparison with NULL does not hold.
abbrev pub is_expired : Time → Task → Bool
is_expired now t =
    not (is_unleased t) && (elim t.lease_expires_at [ none ↦ false | some at ↦ ltb_ℤ at now ])

unfoldable pub reclaim : Time → Task → Task
reclaim now t =
    if is_expired now t then record t { lease_owner = none; lease_expires_at = none } else t

unfoldable pub delete_task_rows : ℕ → Db → Db
delete_task_rows id db = record db { tasks = keep (λ t. not (t.id == id)) db.tasks }

unfoldable pub insert_timer_row : Timer → Db → Db
insert_timer_row t db = record db {
  timers = db.timers ++ record t { id = db.next_timer; fired = false } ∷ [];
  next_timer = db.next_timer + 1;
}

-- The `WHERE` clause of `GetDueTimers`.
abbrev pub is_due : Time → Timer → Bool
is_due now t = leb_ℤ t.fire_at now && not t.fired

-- The statement gives no order; here the rows come as the table has them.
unfoldable pub due_timers : (ℕ → Bool) → Time → Db → List Timer
due_timers locked now db = take 100 (keep (λ t. is_due now t && not (locked t.id)) db.timers)

unfoldable pub mark_fired : ℕ → Timer → Timer
mark_fired id t = if t.id == id && not t.fired then record t { fired = true } else t

abbrev pub is_workflow_task_of : String → String → Task → Bool
is_workflow_task_of wid rid t = t.workflow_id == wid && t.run_id == rid && t.task_type == "workflow"

-- The columns that the statement does not name take the defaults of the table.
abbrev pub default_task : Time → Task → Task
default_task now t = record t {
  input = none;
  activity_name = "";
  activity_index = 0;
  attempt = 1;
  max_attempts = 3;
  visibility_time = now;
  lease_owner = none;
  lease_expires_at = none;
}

-- `INSERT ... SELECT ... WHERE NOT EXISTS`.
unfoldable pub insert_workflow_task_row : Time → Task → Db → Db
unfolding insert_task_row
insert_workflow_task_row now t db =
    if any (is_workflow_task_of t.workflow_id t.run_id) db.tasks
    then db
    else insert_task_row (default_task now t) db
