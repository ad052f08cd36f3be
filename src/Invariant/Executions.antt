-- ===== src/Invariant/Executions.antt =====
-- The invariant of the tables and the SQL statements on `workflow_executions` in
-- internal/persistence/persistence.go.
use my_temp.Common.{
  ◌≡◌, refl, ◌⊎◌, inl, inr, List, [], ◌∷◌, ◌++◌, none, some, All, arith, ℕ_eq, All-append, All-map,
  All-mono, any-append, any-map, eq_refl, String,
}
use my_temp.Persistence.Types.{Time, WorkflowExecution}
use my_temp.Persistence.Tables.{Db, is_execution, insert_execution_row, set_status}
use my_temp.Spec.Effects.{with_status}
use my_temp.Invariant.{HasRun, IsSoundExecution, Inv}

-- Every run of `xs` is a run of `ys`.
abbrev Extends : List WorkflowExecution → List WorkflowExecution → Type 0
Extends xs ys = (wid rid : String) → HasRun xs wid rid → HasRun ys wid rid

Inv-extend :
    (db : Db) (ys : List WorkflowExecution)
    → Extends db.executions ys
    → All IsSoundExecution ys
    → Inv db
    → Inv (record db { executions = ys })
Inv-extend db ys more sound h = record {
  executions = sound;
  events = All-mono _ _ db.events (λ e p. (more _ _ p.0, p.1)) h.events;
  tasks = All-mono _ _ db.tasks (λ t p. (more _ _ p.0, p.1, p.2, p.3)) h.tasks;
  timers = All-mono _ _ db.timers (λ t p. more _ _ p) h.timers;
  rising = h.rising;
}

abbrev with_execution : Time → WorkflowExecution → Db → Db
with_execution now x db = record db {
  executions = db.executions ++ record x { started_at = now; closed_at = none } ∷ [];
}

insert_execution_row-with_execution :
    (now : Time) (x : WorkflowExecution) (db : Db) {v : Db}
    → insert_execution_row now x db ≡ some v
    → v ≡ with_execution now x db
unfolding insert_execution_row
insert_execution_row-with_execution now x db e = ground arith

with_execution-Inv :
    (now : Time) (x : WorkflowExecution) (db : Db)
    → x.status ≡ "Running"
    → Inv db
    → Inv (with_execution now x db)
      × HasRun (with_execution now x db).executions x.workflow_id x.run_id
with_execution-Inv now x db running h = (
  Inv-extend db _ (λ wid rid p. rw (any-append (is_execution wid rid) db.executions _, p))
      (All-append IsSoundExecution db.executions _ h.executions (inl (running, refl), tt)) h,
  rw (any-append (is_execution x.workflow_id x.run_id) db.executions _)
      (rw (eq_refl x.workflow_id, eq_refl x.run_id) (ground arith)),
)

-- A run that is inserted is there, and is sound because it is running.
pub insert_execution_row-Inv :
    (now : Time) (x : WorkflowExecution) (db : Db) {v : Db}
    → x.status ≡ "Running"
    → insert_execution_row now x db ≡ some v
    → Inv db
    → Inv v × HasRun v.executions x.workflow_id x.run_id
insert_execution_row-Inv now x db running e h =
    rw (insert_execution_row-with_execution now x db e) (with_execution-Inv now x db running h)

set_status-key :
    (now : Time) (wid rid status a b : String) (x : WorkflowExecution)
    → is_execution a b (set_status now wid rid status x) ≡ is_execution a b x
unfolding set_status
set_status-key now wid rid status a b x = ground arith

-- The statuses that the engine writes are two of those that close a run.
abbrev pub IsFinal : String → Type 0
IsFinal status = (status ≡ "Completed") ⊎ (status ≡ "Failed")

set_status-IsSoundExecution :
    (now : Time) (wid rid status : String) (x : WorkflowExecution)
    → IsFinal status
    → IsSoundExecution x
    → IsSoundExecution (set_status now wid rid status x)
unfolding set_status
set_status-IsSoundExecution now wid rid status x (inl e) h = rw e (ground arith)
set_status-IsSoundExecution now wid rid status x (inr e) h = rw e (ground arith)

pub with_status-Inv :
    (now : Time) (wid rid status : String) (db : Db)
    → IsFinal status
    → Inv db
    → Inv (with_status now wid rid status db)
with_status-Inv now wid rid status db final h =
    Inv-extend db _
      (λ a b p.
        rw
          (any-map (is_execution a b) (set_status now wid rid status) db.executions
            (set_status-key now wid rid status a b))
          p)
      (All-map IsSoundExecution _ db.executions
        (λ x. set_status-IsSoundExecution now wid rid status x final) h.executions)
      h

-- A status changes no key.
pub with_status-HasRun :
    (now : Time) (wid rid status a b : String) (db : Db)
    → HasRun db.executions a b
    → HasRun (with_status now wid rid status db).executions a b
with_status-HasRun now wid rid status a b db p =
    rw
      (any-map (is_execution a b) (set_status now wid rid status) db.executions
        (set_status-key now wid rid status a b))
      p
