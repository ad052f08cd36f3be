-- ===== src/TaskLife/Attempts/Effects.antt =====
-- The attempts of the tasks, and the effects of the operations of internal/history/history.go.
use my_temp.Common.{
  ℕ, ◌≤◌, String, String_eq, ℕ_eq, true, ◌≡◌, refl, ◌⊎◌, inl, inr, List, [], ◌∷◌, ◌==◌, branch, All,
  All-append, All-keep, All-map, find, find-All, some, arith, map, lt_int32,
}
use my_temp.Persistence.Types.{Bytes, Time, WorkflowExecution, Task, Timer}
use my_temp.Persistence.Tables.{
  Db, insert_execution_row, insert_event_row, insert_task_row, insert_timer_row, delete_task_rows,
  insert_workflow_task_row, default_task, lease, reclaim,
}
use my_temp.History.Types.{Command}
use my_temp.History.WorkflowTask.{Progress}
use my_temp.History.Rows.{started_execution, retry_task}
use my_temp.Spec.Effects.{
  started, scheduled, timed, completed, failed, command_effect, CommandsApplied, activity_completed,
  activity_retried, activity_failed, timer_fired, TimersFired, signal_received,
}

-- A workflow task without attempts, or a task that is in one of its three attempts.
abbrev pub IsTried : Task → Type 0
IsTried t =
    ((t.task_type ≡ "workflow") × (t.attempt ≡ 0) × (t.max_attempts ≡ 0))
    ⊎ ((1 ≤ t.attempt) × (t.attempt ≤ 3) × (t.max_attempts ≡ 3))

abbrev pub AllTried : Db → Type 0
AllTried db = All IsTried db.tasks

insert_task_row-AllTried :
    (t : Task) (db : Db) → IsTried t → AllTried db → AllTried (insert_task_row t db)
unfolding insert_task_row
insert_task_row-AllTried t db p h = All-append IsTried db.tasks _ h (p, tt)

pub delete_task_rows-AllTried : (id : ℕ) (db : Db) → AllTried db → AllTried (delete_task_rows id db)
unfolding delete_task_rows
delete_task_rows-AllTried id db h = All-keep IsTried _ db.tasks h

insert_workflow_task_row-AllTried :
    (now : Time) (t : Task) (db : Db) → AllTried db → AllTried (insert_workflow_task_row now t db)
unfolding insert_workflow_task_row
insert_workflow_task_row-AllTried now t db h =
    branch AllTried _ db _ h
      (insert_task_row-AllTried (default_task now t) db (inr (omega arith, omega arith, refl)) h)

insert_execution_row-tasks :
    (now : Time) (x : WorkflowExecution) (db : Db) {v : Db}
    → insert_execution_row now x db ≡ some v
    → v.tasks ≡ db.tasks
unfolding insert_execution_row
insert_execution_row-tasks now x db e = ground arith

-- A failed task that has an attempt left is in its first or second one.
retry_task-IsTried :
    (task : Task) (visible : Time)
    → lt_int32 task.attempt task.max_attempts ≡ true
    → IsTried task
    → IsTried (retry_task task visible)
retry_task-IsTried task visible left (inl h) = absurd (ground (arith, left, h.1, h.2))
retry_task-IsTried task visible left (inr h) =
    inr (ground (arith, left, h.0, h.1, h.2), ground (arith, left, h.0, h.1, h.2), h.2)

pub lease-AllTried :
    (now : Time) (owner : String) (id : ℕ) (db : Db)
    → AllTried db
    → AllTried (record db { tasks = map (lease now owner id) db.tasks })
unfolding lease
lease-AllTried now owner id db h =
    All-map IsTried _ db.tasks (λ t p. branch IsTried (t.id == id) _ t p p) h

pub reclaim-AllTried :
    (now : Time) (db : Db)
    → AllTried db
    → AllTried (record db { tasks = map (reclaim now) db.tasks })
unfolding reclaim
reclaim-AllTried now db h = All-map IsTried _ db.tasks (λ t p. branch IsTried _ _ t p p) h

pub started-AllTried :
    (now : Time) (wid rid type queue : String) (input : Bytes) (db : Db) {v : Db}
    → insert_execution_row now (started_execution wid rid type queue) db ≡ some v
    → AllTried db
    → AllTried (started now wid rid type queue input v)
unfolding started insert_event_row
started-AllTried now wid rid type queue input db e h =
    insert_task_row-AllTried _ _ (inl (refl, refl, refl))
      (rw (insert_execution_row-tasks now _ db e) h)

pub activity_completed-AllTried :
    (now : Time) (id : ℕ) (wid rid : String) (result : Bytes) (task : Task)
    (exec : WorkflowExecution) (db : Db)
    → AllTried db
    → AllTried (activity_completed now id wid rid result task exec db)
unfolding activity_completed insert_event_row
activity_completed-AllTried now id wid rid result task exec db h =
    insert_task_row-AllTried _ _ (inl (refl, refl, refl)) (delete_task_rows-AllTried id _ h)

pub activity_retried-AllTried :
    (id : ℕ) (task : Task) (visible : Time) (db : Db)
    → find (λ t. t.id == id) db.tasks ≡ some task
    → lt_int32 task.attempt task.max_attempts ≡ true
    → AllTried db
    → AllTried (activity_retried id task visible db)
unfolding activity_retried
activity_retried-AllTried id task visible db found left h =
    insert_task_row-AllTried _ _
      (retry_task-IsTried task visible left (find-All IsTried (λ t. t.id == id) db.tasks h found))
      (delete_task_rows-AllTried id db h)

pub activity_failed-AllTried :
    (now : Time) (id : ℕ) (wid rid text : String) (task : Task) (exec : WorkflowExecution) (db : Db)
    → AllTried db
    → AllTried (activity_failed now id wid rid text task exec db)
unfolding activity_failed insert_event_row
activity_failed-AllTried now id wid rid text task exec db h =
    insert_task_row-AllTried _ _ (inl (refl, refl, refl)) (delete_task_rows-AllTried id _ h)

pub signal_received-AllTried :
    (now : Time) (wid rid name : String) (input : Bytes) (exec : WorkflowExecution) (db : Db)
    → AllTried db
    → AllTried (signal_received now wid rid name input exec db)
unfolding signal_received insert_event_row
signal_received-AllTried now wid rid name input exec db h =
    insert_workflow_task_row-AllTried now _ _ h

pub TimersFired-AllTried :
    (now : Time) (db : Db) (ts : List Timer) (v v' : Db)
    → TimersFired now db ts v v'
    → AllTried v
    → AllTried v'
unfolding timer_fired insert_event_row
TimersFired-AllTried now db [] v v' e h = rw e h
TimersFired-AllTried now db (t ∷ ts) v v' (exec, found, rest) h =
    TimersFired-AllTried now db ts (timer_fired now db t exec v) v' rest
      (insert_task_row-AllTried _ _ (inl (refl, refl, refl)) h)

module _ (now : Time) (exec : WorkflowExecution) (wid rid : String) where
  command_effect-AllTried :
      (clock : Time) (p : Progress) (v : Db) (cmd : Command)
      → AllTried v
      → AllTried (command_effect now exec wid rid clock (p, v) cmd).1
  unfolding command_effect insert_event_row insert_timer_row
  command_effect-AllTried clock p v cmd h =
      branch (λ s. AllTried s.1) (cmd.type == "ScheduleActivity")
        (scheduled now exec wid rid p v cmd) _
        (insert_task_row-AllTried _ _ (inr (omega arith, omega arith, refl)) h)
        (branch (λ s. AllTried s.1) (cmd.type == "StartTimer")
          (timed now exec wid rid clock p v cmd) _ h
          (branch (λ s. AllTried s.1) (cmd.type == "CompleteWorkflow")
            (completed now exec wid rid p v cmd) _ h
            (branch (λ s. AllTried s.1) (cmd.type == "FailWorkflow")
              (failed now exec wid rid p v cmd) (p, v) h h)))

  pub CommandsApplied-AllTried :
      (cmds : List Command) (s s' : Progress × Db)
      → CommandsApplied now exec wid rid cmds s s'
      → AllTried s.1
      → AllTried s'.1
  CommandsApplied-AllTried [] s s' e h = rw e h
  CommandsApplied-AllTried (cmd ∷ cmds) s s' (clock, rest) h =
      CommandsApplied-AllTried cmds (command_effect now exec wid rid clock s cmd) s' rest
        (command_effect-AllTried clock s.0 s.1 cmd h)
