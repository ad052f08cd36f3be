-- ===== src/Counters/Steps.antt =====
-- What each specification adds to the events, and what the code adds to the counters.
use my_temp.Common.{
  ℕ, suc, ◌+◌, String, String_eq, ◌≡◌, refl, List, [], ◌∷◌, ◌++◌, arith, Option, some,
}
use my_temp.Metrics.{Metrics}
use my_temp.Persistence.Types.{Time, WorkflowExecution, Event, Task}
use my_temp.Persistence.Tables.{
  Db, insert_event_row, insert_execution_row, insert_task_row, insert_workflow_task_row,
  delete_task_rows,
}
use my_temp.History.WorkflowTask.{count_progress, first_progress}
use my_temp.Spec.Effects.{activity_retried}
use my_temp.Engine.Outcome.{count_workflow_poll, count_activity_poll}
use my_temp.Counters.{
  Kind, workflow_started, workflow_completed, workflow_failed, activity_scheduled,
  activity_completed, activity_failed, timer_started, timer_fired, signal_received, event_type_of,
  counter, one_if, tally, Counted,
}

tally-append :
    (type : String) (xs ys : List Event) → tally type (xs ++ ys) ≡ tally type xs + tally type ys
tally-append type [] ys = omega arith
tally-append type (x ∷ xs) ys = omega (arith, tally-append type xs ys)

abbrev pub add : Kind → ℕ → Metrics → Metrics
add workflow_started n m = record m { workflows_started = m.workflows_started + n }
add workflow_completed n m = record m { workflows_completed = m.workflows_completed + n }
add workflow_failed n m = record m { workflows_failed = m.workflows_failed + n }
add activity_scheduled n m = record m { activities_scheduled = m.activities_scheduled + n }
add activity_completed n m = record m { activities_completed = m.activities_completed + n }
add activity_failed n m = record m { activities_failed = m.activities_failed + n }
add timer_started n m = record m { timers_started = m.timers_started + n }
add timer_fired n m = record m { timers_fired = m.timers_fired + n }
add signal_received n m = record m { signals_delivered = m.signals_delivered + n }

abbrev Each : (Kind → Type 0) → Type 0
Each P =
    P workflow_started
    × P workflow_completed
    × P workflow_failed
    × P activity_scheduled
    × P activity_completed
    × P activity_failed
    × P timer_started
    × P timer_fired
    × P signal_received

each-at : (P : Kind → Type 0) → Each P → (k : Kind) → P k
each-at P h workflow_started = h.0
each-at P h workflow_completed = h.1
each-at P h workflow_failed = h.2
each-at P h activity_scheduled = h.3
each-at P h activity_completed = h.4
each-at P h activity_failed = h.5
each-at P h timer_started = h.6
each-at P h timer_fired = h.7
each-at P h signal_received = h.8

abbrev Adds : Kind → Metrics → Kind → Type 0
Adds k m j = counter j (add k 1 m) ≡ counter j m + one_if (event_type_of k) (event_type_of j)

counter-add : (k : Kind) (m : Metrics) → Each (Adds k m)
counter-add workflow_started m = ground arith
counter-add workflow_completed m = ground arith
counter-add workflow_failed m = ground arith
counter-add activity_scheduled m = ground arith
counter-add activity_completed m = ground arith
counter-add activity_failed m = ground arith
counter-add timer_started m = ground arith
counter-add timer_fired m = ground arith
counter-add signal_received m = ground arith

-- An event and its counter go together.
pub insert_event_row-Counted :
    (k : Kind) (now : Time) (e : Event) (db : Db) (m : Metrics)
    → e.event_type ≡ event_type_of k
    → Counted m db
    → Counted (add k 1 m) (insert_event_row now e db)
unfolding insert_event_row
insert_event_row-Counted k now e db m same h j =
    rw (tally-append (event_type_of j) db.events _, same)
      (omega (arith, h j, each-at (Adds k m) (counter-add k m) j))

pub Counted-same :
    {m m' : Metrics} (db db' : Db)
    → ((k : Kind) → counter k m' ≡ counter k m)
    → db'.events ≡ db.events
    → Counted m db
    → Counted m' db'
Counted-same db db' c e h k = rw (e, c k) (h k)

pub count_workflow_poll-counter :
    (row : Option Task) (m : Metrics) (k : Kind)
    → counter k (count_workflow_poll row m) ≡ counter k m
count_workflow_poll-counter row m k = ground arith

pub count_activity_poll-counter :
    (row : Option Task) (m : Metrics) (k : Kind)
    → counter k (count_activity_poll row m) ≡ counter k m
count_activity_poll-counter row m k = ground arith

pub add_fired-counter :
    (n : ℕ) (m : Metrics) (k : Kind)
    → counter k (add timer_fired (suc n) m) ≡ counter k (add timer_fired n (add timer_fired 1 m))
add_fired-counter n m k = ground arith

pub add_none-counter : (m : Metrics) (k : Kind) → counter k (add timer_fired 0 m) ≡ counter k m
add_none-counter m k = ground arith

pub count_progress-counter :
    (id : ℕ) (m : Metrics) (k : Kind)
    → counter k (count_progress (first_progress id) m) ≡ counter k m
count_progress-counter id m k = ground arith

-- The other statements write no event.
pub insert_execution_row-events :
    (now : Time) (x : WorkflowExecution) (db : Db) {v : Db}
    → insert_execution_row now x db ≡ some v
    → v.events ≡ db.events
unfolding insert_execution_row
insert_execution_row-events now x db e = ground arith

pub insert_workflow_task_row-events :
    (now : Time) (t : Task) (db : Db) → (insert_workflow_task_row now t db).events ≡ db.events
unfolding insert_workflow_task_row insert_task_row
insert_workflow_task_row-events now t db = ground arith

pub activity_retried-events :
    (id : ℕ) (task : Task) (visible : Time) (db : Db)
    → (activity_retried id task visible db).events ≡ db.events
unfolding activity_retried insert_task_row delete_task_rows
activity_retried-events id task visible db = refl

pub retries-counter :
    (m : Metrics) (k : Kind)
    → counter k (record m { activity_retries = m.activity_retries + 1 }) ≡ counter k m
retries-counter m k = ground arith

pub reclaims-counter :
    (n : ℕ) (m : Metrics) (k : Kind)
    → counter k (record m { leases_reclaimed = m.leases_reclaimed + n }) ≡ counter k m
reclaims-counter n m k = ground arith
