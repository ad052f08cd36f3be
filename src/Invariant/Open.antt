-- ===== src/Invariant/Open.antt =====
-- The invariant together with a run that is there, and the SQL statements on rows of the run.
use my_temp.Common.{ℕ, ◌≤◌, String, ◌≡◌, ℕ_eq, map, some}
use my_temp.Persistence.Types.{Time, WorkflowExecution, Event, Task, Timer}
use my_temp.Persistence.Tables.{
  Db, insert_execution_row, insert_event_row, insert_task_row, delete_task_rows, insert_timer_row,
  mark_fired,
}
use my_temp.Spec.Effects.{with_status}
use my_temp.Invariant.{is_some, HasRun, Inv}
use my_temp.Invariant.Executions.{
  insert_execution_row-Inv, with_status-Inv, with_status-HasRun, IsFinal,
}
use my_temp.Invariant.Statements.{
  insert_event_row-Inv, insert_task_row-Inv, delete_task_rows-Inv, insert_timer_row-Inv,
  mark_fired-Inv,
}

pub record Open (wid rid : String) (db : Db) : Type 0 where
  pub inv : Inv db
  pub has : HasRun db.executions wid rid

-- What the invariant says of a task besides its run.
pub record IsSoundAttempt (t : Task) : Type 0 where
  pub attempt_le : t.attempt ≤ t.max_attempts
  pub at_most_three : t.max_attempts ≤ 3
  pub paired : is_some t.lease_owner ≡ is_some t.lease_expires_at

pub insert_execution_row-Open :
    (now : Time) (x : WorkflowExecution) (db : Db) {v : Db}
    → x.status ≡ "Running"
    → insert_execution_row now x db ≡ some v
    → Inv db
    → Open x.workflow_id x.run_id v
insert_execution_row-Open now x db running e h =
    let (inv, has) = insert_execution_row-Inv now x db running e h in
    record { inv = inv; has = has }

pub insert_event_row-Open :
    (now : Time) (e : Event) (db : Db)
    → Open e.workflow_id e.run_id db
    → Open e.workflow_id e.run_id (insert_event_row now e db)
insert_event_row-Open now e db o = record {
  inv = insert_event_row-Inv now e db o.has o.inv;
  has = unfold insert_event_row in o.has;
}

pub insert_task_row-Open :
    (t : Task) (db : Db)
    → IsSoundAttempt t
    → Open t.workflow_id t.run_id db
    → Open t.workflow_id t.run_id (insert_task_row t db)
insert_task_row-Open t db a o = record {
  inv = insert_task_row-Inv t db (o.has, a.attempt_le, a.at_most_three, a.paired) o.inv;
  has = unfold insert_task_row in o.has;
}

pub delete_task_rows-Open :
    (wid rid : String) (id : ℕ) (db : Db) → Open wid rid db → Open wid rid (delete_task_rows id db)
delete_task_rows-Open wid rid id db o = record {
  inv = delete_task_rows-Inv id db o.inv;
  has = unfold delete_task_rows in o.has;
}

pub insert_timer_row-Open :
    (t : Timer) (db : Db)
    → Open t.workflow_id t.run_id db
    → Open t.workflow_id t.run_id (insert_timer_row t db)
insert_timer_row-Open t db o = record {
  inv = insert_timer_row-Inv t db o.has o.inv;
  has = unfold insert_timer_row in o.has;
}

pub mark_fired-Open :
    (wid rid : String) (id : ℕ) (db : Db)
    → Open wid rid db
    → Open wid rid (record db { timers = map (mark_fired id) db.timers })
mark_fired-Open wid rid id db o = record { inv = mark_fired-Inv id db o.inv; has = o.has }

pub with_status-Open :
    (now : Time) (wid rid status : String) (db : Db)
    → IsFinal status
    → Open wid rid db
    → Open wid rid (with_status now wid rid status db)
with_status-Open now wid rid status db final o = record {
  inv = with_status-Inv now wid rid status db final o.inv;
  has = with_status-HasRun now wid rid status wid rid db o.has;
}
