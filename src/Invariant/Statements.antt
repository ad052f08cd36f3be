-- ===== src/Invariant/Statements.antt =====
-- The invariant of the tables and the SQL statements of internal/persistence/persistence.go.
use my_temp.Common.{
  ℕ, ◌+◌, ◌<◌, Bool, true, false, ◌≡◌, refl, List, [], ◌∷◌, ◌++◌, none, some, All, keep, map, arith,
  ℕ_eq, if◌then◌else◌, All-append, All-keep, All-map, String,
}
use my_temp.Persistence.Types.{Bytes, Time, WorkflowExecution, Event, Task, Timer}
use my_temp.Persistence.Tables.{
  Db, insert_event_row, insert_task_row, lease, reclaim, delete_task_rows, insert_timer_row,
  mark_fired, insert_workflow_task_row, default_task, non_nil,
}
use my_temp.Invariant.{is_some, HasRun, IsSoundTask, IsSoundTimer, Rising, Inv}

non_nil-is_some : (b : Bytes) → is_some (non_nil b) ≡ true
non_nil-is_some none = refl
non_nil-is_some (some b) = refl

if-Inv : (b : Bool) {db db' : Db} → Inv db → Inv db' → Inv (if b then db else db')
if-Inv true h k = h
if-Inv false h k = k

pub insert_event_row-Inv :
    (now : Time) (e : Event) (db : Db)
    → HasRun db.executions e.workflow_id e.run_id
    → Inv db
    → Inv (insert_event_row now e db)
unfolding insert_event_row
insert_event_row-Inv now e db has h = record {
  executions = h.executions;
  events = All-append _ db.events _ h.events ((has, non_nil-is_some e.event_data), tt);
  tasks = h.tasks;
  timers = h.timers;
  rising = h.rising;
}

Rising-append :
    (n : ℕ) (ts : List Task) (t : Task) → t.id ≡ n → Rising n ts → Rising (n + 1) (ts ++ t ∷ [])
Rising-append n [] t e h = (omega arith, tt, tt)
Rising-append n (x ∷ ts) t e h = (
  omega arith,
  All-append (λ u. x.id < u.id) ts _ h.1 (omega arith, tt),
  Rising-append n ts t e h.2,
)

Rising-keep : (n : ℕ) (p : Task → Bool) (ts : List Task) → Rising n ts → Rising n (keep p ts)
Rising-keep n p [] h = tt
Rising-keep n p (t ∷ ts) h =
    ground (arith, All-keep (λ u. t.id < u.id) p ts h.1, Rising-keep n p ts h.2)

All-map_id :
    (m : ℕ) (f : Task → Task) (ts : List Task)
    → ((t : Task) → (f t).id ≡ t.id)
    → All (λ u. m < u.id) ts
    → All (λ u. m < u.id) (map f ts)
All-map_id m f ts k h = All-map (λ u. m < u.id) f ts (λ x p. rw (k x) p) h

Rising-map :
    (n : ℕ) (f : Task → Task) (ts : List Task)
    → ((t : Task) → (f t).id ≡ t.id)
    → Rising n ts
    → Rising n (map f ts)
Rising-map n f [] k h = tt
Rising-map n f (t ∷ ts) k h =
    (rw (k t) h.0, rw (k t) (All-map_id t.id f ts k h.1), Rising-map n f ts k h.2)

pub insert_task_row-Inv :
    (t : Task) (db : Db) → IsSoundTask db.executions t → Inv db → Inv (insert_task_row t db)
unfolding insert_task_row
insert_task_row-Inv t db sound h = record {
  executions = h.executions;
  events = h.events;
  tasks = All-append _ db.tasks _ h.tasks (sound, tt);
  timers = h.timers;
  rising = Rising-append db.next_task db.tasks _ refl h.rising;
}

pub delete_task_rows-Inv : (id : ℕ) (db : Db) → Inv db → Inv (delete_task_rows id db)
unfolding delete_task_rows
delete_task_rows-Inv id db h = record {
  executions = h.executions;
  events = h.events;
  tasks = All-keep _ _ db.tasks h.tasks;
  timers = h.timers;
  rising = Rising-keep db.next_task _ db.tasks h.rising;
}

pub insert_timer_row-Inv :
    (t : Timer) (db : Db)
    → HasRun db.executions t.workflow_id t.run_id
    → Inv db
    → Inv (insert_timer_row t db)
unfolding insert_timer_row
insert_timer_row-Inv t db has h = record {
  executions = h.executions;
  events = h.events;
  tasks = h.tasks;
  timers = All-append _ db.timers _ h.timers (has, tt);
  rising = h.rising;
}

mark_fired-IsSoundTimer :
    (xs : List WorkflowExecution) (id : ℕ) (t : Timer)
    → IsSoundTimer xs t
    → IsSoundTimer xs (mark_fired id t)
unfolding mark_fired
mark_fired-IsSoundTimer xs id t h = ground arith

pub mark_fired-Inv :
    (id : ℕ) (db : Db) → Inv db → Inv (record db { timers = map (mark_fired id) db.timers })
mark_fired-Inv id db h = record {
  executions = h.executions;
  events = h.events;
  tasks = h.tasks;
  timers = All-map _ _ db.timers (mark_fired-IsSoundTimer db.executions id) h.timers;
  rising = h.rising;
}

pub insert_workflow_task_row-Inv :
    (now : Time) (t : Task) (db : Db)
    → HasRun db.executions t.workflow_id t.run_id
    → Inv db
    → Inv (insert_workflow_task_row now t db)
unfolding insert_workflow_task_row
insert_workflow_task_row-Inv now t db has h =
    if-Inv _ h (insert_task_row-Inv (default_task now t) db (has, omega arith, omega arith, refl) h)

map_tasks-Inv :
    (f : Task → Task) (db : Db)
    → ((t : Task) → (f t).id ≡ t.id)
    → ((t : Task) → IsSoundTask db.executions t → IsSoundTask db.executions (f t))
    → Inv db
    → Inv (record db { tasks = map f db.tasks })
map_tasks-Inv f db same sound h = record {
  executions = h.executions;
  events = h.events;
  tasks = All-map _ f db.tasks sound h.tasks;
  timers = h.timers;
  rising = Rising-map db.next_task f db.tasks same h.rising;
}

pub lease-Inv :
    (now : Time) (owner : String) (id : ℕ) (db : Db)
    → Inv db
    → Inv (record db { tasks = map (lease now owner id) db.tasks })
unfolding lease
lease-Inv now owner id db h = map_tasks-Inv _ db (λ t. ground arith) (λ t p. ground arith) h

pub reclaim-Inv :
    (now : Time) (db : Db) → Inv db → Inv (record db { tasks = map (reclaim now) db.tasks })
unfolding reclaim
reclaim-Inv now db h = map_tasks-Inv _ db (λ t. ground arith) (λ t p. ground arith) h
