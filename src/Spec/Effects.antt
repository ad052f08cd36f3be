-- ===== src/Spec/Effects.antt =====
-- The specification of internal/history/history.go without transactions, failures and retries of
-- reads: for each operation, the tables that it leaves as a function of the tables that it found.
use my_temp.Common.{
  ℕ, ◌+◌, String, some, List, [], ◌∷◌, map, ◌≡◌, ◌==◌, String_eq, ℕ_eq, if◌then◌else◌, int64, find,
}
use my_temp.Persistence.Types.{Bytes, Time, WorkflowExecution, Task, Timer}
use my_temp.Persistence.Tables.{
  Db, is_execution, events_of, set_status, insert_event_row, insert_task_row, delete_task_rows,
  insert_timer_row, mark_fired, insert_workflow_task_row,
}
use my_temp.History.Types.{Command}
use my_temp.History.Rows.{
  next_event_id, workflow_started_event, first_workflow_task, activity_scheduled_event,
  activity_task, timer_started_event, started_timer, workflow_completed_event,
  workflow_failed_event, activity_completed_event, activity_failed_event, timer_fired_event,
  signal_received_event, replay_task, retry_task,
}
use my_temp.History.WorkflowTask.{Progress}

abbrev pub next_id_of : String → String → Db → ℕ
next_id_of wid rid db = next_event_id (events_of wid rid db)

-- `StartWorkflow`, from the tables with the new execution.
unfoldable pub started : Time → String → String → String → String → Bytes → Db → Db
started now wid rid type queue input v =
    insert_task_row (first_workflow_task wid rid type queue input)
      (insert_event_row now (workflow_started_event wid rid input) v)

-- One command of `CompleteWorkflowTask`, with the reading of the clock that a timer takes.
abbrev pub with_status : Time → String → String → String → Db → Db
with_status now wid rid status v = record v {
  executions = map (set_status now wid rid status) v.executions;
}

module _ (now : Time) (exec : WorkflowExecution) (wid rid : String) where
  abbrev pub scheduled : Progress → Db → Command → Progress × Db
  scheduled p v cmd = (
    record p { next_id = int64 (p.next_id + 1); scheduled = p.scheduled + 1 },
    insert_task_row (activity_task wid rid exec p.next_id 3 cmd)
        (insert_event_row now (activity_scheduled_event wid rid p.next_id cmd) v),
  )

  abbrev pub timed : Time → Progress → Db → Command → Progress × Db
  timed clock p v cmd = (
    record p { next_id = int64 (p.next_id + 1); timers_started = p.timers_started + 1 },
    insert_timer_row (started_timer wid rid clock cmd)
        (insert_event_row now (timer_started_event wid rid p.next_id cmd) v),
  )

  abbrev pub completed : Progress → Db → Command → Progress × Db
  completed p v cmd = (
    record p { completed = p.completed + 1 },
    with_status now wid rid "Completed"
        (insert_event_row now (workflow_completed_event wid rid p.next_id cmd) v),
  )

  abbrev pub failed : Progress → Db → Command → Progress × Db
  failed p v cmd = (
    record p { failed = p.failed + 1 },
    with_status now wid rid "Failed"
        (insert_event_row now (workflow_failed_event wid rid p.next_id cmd) v),
  )

  unfoldable pub command_effect : Time → Progress × Db → Command → Progress × Db
  command_effect clock (p, v) cmd =
      if cmd.type == "ScheduleActivity"
      then scheduled p v cmd
      else if cmd.type == "StartTimer"
      then timed clock p v cmd
      else if cmd.type == "CompleteWorkflow"
      then completed p v cmd
      else if cmd.type == "FailWorkflow"
      then failed p v cmd
      else (p, v)

  -- All commands in turn, each with some reading of the clock.
  abbrev pub CommandsApplied : List Command → Progress × Db → Progress × Db → Type 0
  CommandsApplied [] s s' = s' ≡ s
  CommandsApplied (cmd ∷ cmds) s s' =
      (clock : Time) × CommandsApplied cmds (command_effect clock s cmd) s'

-- `CompleteActivityTask`.
unfoldable pub activity_completed :
    Time → ℕ → String → String → Bytes → Task → WorkflowExecution → Db → Db
activity_completed now id wid rid result task exec db =
    insert_task_row (replay_task exec.workflow_id exec.run_id exec (next_id_of wid rid db)) (
      delete_task_rows id (
        insert_event_row now (activity_completed_event wid rid (next_id_of wid rid db) task result)
          db))

-- `FailActivityTask`, with an attempt left and without.
unfoldable pub activity_retried : ℕ → Task → Time → Db → Db
activity_retried id task visible db =
    insert_task_row (retry_task task visible) (delete_task_rows id db)

unfoldable pub activity_failed :
    Time → ℕ → String → String → String → Task → WorkflowExecution → Db → Db
activity_failed now id wid rid text task exec db =
    insert_task_row (replay_task wid rid exec (next_id_of wid rid db)) (
      delete_task_rows id
        (insert_event_row now (activity_failed_event wid rid (next_id_of wid rid db) task text) db))

-- One timer of `ScanTimers`: `db` are the committed tables, `v` those of the transaction.
unfoldable pub timer_fired : Time → Db → Timer → WorkflowExecution → Db → Db
timer_fired now db t exec v =
    let id = next_id_of t.workflow_id t.run_id db in
    let w = insert_event_row now (timer_fired_event t.workflow_id t.run_id id t) v in
    insert_task_row (replay_task t.workflow_id t.run_id exec id)
      (record w { timers = map (mark_fired t.id) w.timers })

abbrev pub TimersFired : Time → Db → List Timer → Db → Db → Type 0
TimersFired now db [] v v' = v' ≡ v
TimersFired now db (t ∷ ts) v v' =
    (exec : WorkflowExecution) × (find (is_execution t.workflow_id t.run_id) db.executions
      ≡ some exec)
    × TimersFired now db ts (timer_fired now db t exec v) v'

-- `SignalWorkflow`.
unfoldable pub signal_received :
    Time → String → String → String → Bytes → WorkflowExecution → Db → Db
signal_received now wid rid name input exec db =
    insert_workflow_task_row now (replay_task wid rid exec (next_id_of wid rid db))
      (insert_event_row now (signal_received_event wid rid (next_id_of wid rid db) name input) db)
