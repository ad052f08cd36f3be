-- ===== src/TaskLife/Effects.antt =====
-- What is known of a task row, and the effects of the operations of internal/history/history.go.
use my_temp.Common.{
  ℕ, String, String_eq, Bool, true, false, ◌≡◌, List, [], ◌∷◌, ◌==◌, if◌then◌else◌, All-append,
  All-keep, All-map, some, arith, map,
}
use my_temp.Persistence.Types.{Bytes, Time, WorkflowExecution, Task, Timer}
use my_temp.Persistence.Tables.{
  Db, insert_execution_row, insert_event_row, insert_task_row, insert_timer_row, delete_task_rows,
  insert_workflow_task_row, default_task,
}
use my_temp.History.Types.{Command}
use my_temp.History.WorkflowTask.{Progress}
use my_temp.History.Rows.{started_execution}
use my_temp.Spec.Effects.{
  started, scheduled, timed, completed, failed, command_effect, CommandsApplied, activity_completed,
  activity_retried, activity_failed, timer_fired, TimersFired, signal_received,
}
use my_temp.TaskLife.{Marked}

module _ (P : Task → Type 0) (id : ℕ) where
  abbrev Known : Db → Type 0
  Known = Marked P id

  pub insert_task_row-Marked : (t : Task) (db : Db) → Known db → Known (insert_task_row t db)
  unfolding insert_task_row
  insert_task_row-Marked t db h =
      (All-append _ db.tasks _ h.0 ((λ e. absurd (omega (arith, e, h.1))), tt), omega (arith, h.1))

  pub delete_task_rows-Marked : (i : ℕ) (db : Db) → Known db → Known (delete_task_rows i db)
  unfolding delete_task_rows
  delete_task_rows-Marked i db h = (All-keep _ _ db.tasks h.0, h.1)

  if-Marked : (b : Bool) (v v' : Db) → Known v → Known v' → Known (if b then v else v')
  if-Marked true v v' h k = h
  if-Marked false v v' h k = k

  insert_workflow_task_row-Marked :
      (now : Time) (t : Task) (db : Db) → Known db → Known (insert_workflow_task_row now t db)
  unfolding insert_workflow_task_row
  insert_workflow_task_row-Marked now t db h =
      if-Marked _ db (insert_task_row (default_task now t) db) h
        (insert_task_row-Marked (default_task now t) db h)

  insert_execution_row-tasks :
      (now : Time) (x : WorkflowExecution) (db : Db) {v : Db}
      → insert_execution_row now x db ≡ some v
      → (v.tasks ≡ db.tasks) × (v.next_task ≡ db.next_task)
  unfolding insert_execution_row
  insert_execution_row-tasks now x db e = ground arith

  insert_execution_row-Marked :
      (now : Time) (x : WorkflowExecution) (db : Db) {v : Db}
      → insert_execution_row now x db ≡ some v
      → Known db
      → Known v
  insert_execution_row-Marked now x db e h =
      let same = insert_execution_row-tasks now x db e in rw (same.0, same.1) h

  pub started-Marked :
      (now : Time) (wid rid type queue : String) (input : Bytes) (db : Db) {v : Db}
      → insert_execution_row now (started_execution wid rid type queue) db ≡ some v
      → Known db
      → Known (started now wid rid type queue input v)
  unfolding started insert_event_row
  started-Marked now wid rid type queue input db {v} e h =
      insert_task_row-Marked _ _ (insert_execution_row-Marked now _ db e h)

  pub activity_completed-Marked :
      (now : Time) (i : ℕ) (wid rid : String) (result : Bytes) (task : Task)
      (exec : WorkflowExecution) (db : Db)
      → Known db
      → Known (activity_completed now i wid rid result task exec db)
  unfolding activity_completed insert_event_row
  activity_completed-Marked now i wid rid result task exec db h =
      insert_task_row-Marked _ _ (delete_task_rows-Marked i _ h)

  pub activity_retried-Marked :
      (i : ℕ) (task : Task) (visible : Time) (db : Db)
      → Known db
      → Known (activity_retried i task visible db)
  unfolding activity_retried
  activity_retried-Marked i task visible db h =
      insert_task_row-Marked _ _ (delete_task_rows-Marked i db h)

  pub activity_failed-Marked :
      (now : Time) (i : ℕ) (wid rid text : String) (task : Task) (exec : WorkflowExecution)
      (db : Db)
      → Known db
      → Known (activity_failed now i wid rid text task exec db)
  unfolding activity_failed insert_event_row
  activity_failed-Marked now i wid rid text task exec db h =
      insert_task_row-Marked _ _ (delete_task_rows-Marked i _ h)

  pub signal_received-Marked :
      (now : Time) (wid rid name : String) (input : Bytes) (exec : WorkflowExecution) (db : Db)
      → Known db
      → Known (signal_received now wid rid name input exec db)
  unfolding signal_received insert_event_row
  signal_received-Marked now wid rid name input exec db h =
      insert_workflow_task_row-Marked now _ _ h

  pub TimersFired-Marked :
      (now : Time) (db : Db) (ts : List Timer) (v v' : Db)
      → TimersFired now db ts v v'
      → Known v
      → Known v'
  unfolding timer_fired insert_event_row
  TimersFired-Marked now db [] v v' e h = rw e h
  TimersFired-Marked now db (t ∷ ts) v v' (exec, found, rest) h =
      TimersFired-Marked now db ts (timer_fired now db t exec v) v' rest
        (insert_task_row-Marked _ _ h)

  branch : (b : Bool) (s t : Progress × Db) → Known s.1 → Known t.1 → Known (if b then s else t).1
  branch true s t h k = h
  branch false s t h k = k

  module _ (now : Time) (exec : WorkflowExecution) (wid rid : String) where
    command_effect-Marked :
        (clock : Time) (p : Progress) (v : Db) (cmd : Command)
        → Known v
        → Known (command_effect now exec wid rid clock (p, v) cmd).1
    unfolding command_effect insert_event_row insert_timer_row
    command_effect-Marked clock p v cmd h =
        branch (cmd.type == "ScheduleActivity") (scheduled now exec wid rid p v cmd) _
          (insert_task_row-Marked _ _ h)
          (branch (cmd.type == "StartTimer") (timed now exec wid rid clock p v cmd) _ h (
            branch (cmd.type == "CompleteWorkflow") (completed now exec wid rid p v cmd) _ h
              (branch (cmd.type == "FailWorkflow") (failed now exec wid rid p v cmd) (p, v) h h)))

    pub CommandsApplied-Marked :
        (cmds : List Command) (s s' : Progress × Db)
        → CommandsApplied now exec wid rid cmds s s'
        → Known s.1
        → Known s'.1
    CommandsApplied-Marked [] s s' e h = rw e h
    CommandsApplied-Marked (cmd ∷ cmds) s s' (clock, rest) h =
        CommandsApplied-Marked cmds (command_effect now exec wid rid clock s cmd) s' rest
          (command_effect-Marked clock s.0 s.1 cmd h)

  pub map_tasks-Marked :
      (f : Task → Task) (db : Db)
      → ((t : Task) → (f t).id ≡ t.id)
      → ((t : Task) → (t.id ≡ id → P t) → t.id ≡ id → P (f t))
      → Known db
      → Known (record db { tasks = map f db.tasks })
  map_tasks-Marked f db same k h =
      (All-map (λ t. t.id ≡ id → P t) f db.tasks (λ t p e. k t p (rw⁻¹ (same t) e)) h.0, h.1)
