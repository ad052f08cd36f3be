-- ===== src/Counters/Effects.antt =====
-- The counters and the effects of the operations of internal/history/history.go.
use my_temp.Common.{
  branch, ℕ, String, String_eq, some, ◌≡◌, refl, List, [], ◌∷◌, ◌==◌, length, arith,
}
use my_temp.Metrics.{Metrics}
use my_temp.Persistence.Types.{Bytes, Time, WorkflowExecution, Event, Task, Timer}
use my_temp.Persistence.Tables.{
  Db, insert_execution_row, insert_task_row, delete_task_rows, insert_timer_row, insert_event_row,
}
use my_temp.History.Types.{Command}
use my_temp.History.WorkflowTask.{Progress, count_progress}
use my_temp.History.Rows.{
  started_execution, activity_scheduled_event, timer_started_event, workflow_completed_event,
  workflow_failed_event, activity_completed_event, activity_failed_event, timer_fired_event,
  signal_received_event, replay_task, workflow_started_event,
}
use my_temp.Spec.Effects.{
  next_id_of, started, scheduled, timed, completed, failed, command_effect, CommandsApplied,
  activity_completed, activity_failed, timer_fired, TimersFired, signal_received,
}
use my_temp.Counters
use my_temp.Counters.{Kind, Counted, counter, event_type_of, tally}
use my_temp.Counters.Steps.{
  add, insert_event_row-Counted, Counted-same, add_fired-counter, add_none-counter,
  insert_execution_row-events, insert_workflow_task_row-events,
}

pub started-Counted :
    (now : Time) (wid rid type queue : String) (input : Bytes) (db : Db) (m : Metrics) {v : Db}
    → insert_execution_row now (started_execution wid rid type queue) db ≡ some v
    → Counted m db
    → Counted (add Counters.workflow_started 1 m) (started now wid rid type queue input v)
unfolding started insert_task_row
started-Counted now wid rid type queue input db m {v} e h =
    insert_event_row-Counted Counters.workflow_started now (workflow_started_event wid rid input) v
      m refl (Counted-same db v (λ k. refl) (insert_execution_row-events now _ db e) h)

module _ (now : Time) (id : ℕ) (wid rid : String) (task : Task) (exec : WorkflowExecution) (db : Db)
    (m : Metrics) (h : Counted m db) where
  pub activity_completed-Counted :
      (result : Bytes)
      → Counted
          (add Counters.activity_completed 1 m)
          (activity_completed now id wid rid result task exec db)
  unfolding activity_completed insert_task_row delete_task_rows
  activity_completed-Counted result =
      insert_event_row-Counted Counters.activity_completed now
        (activity_completed_event wid rid (next_id_of wid rid db) task result) db m refl h

  pub activity_failed-Counted :
      (text : String)
      → Counted
          (add Counters.activity_failed 1 m)
          (activity_failed now id wid rid text task exec db)
  unfolding activity_failed insert_task_row delete_task_rows
  activity_failed-Counted text =
      insert_event_row-Counted Counters.activity_failed now
        (activity_failed_event wid rid (next_id_of wid rid db) task text) db m refl h

  pub signal_received-Counted :
      (name : String) (input : Bytes)
      → Counted (add Counters.signal_received 1 m) (signal_received now wid rid name input exec db)
  unfolding signal_received
  signal_received-Counted name input =
      let e = signal_received_event wid rid (next_id_of wid rid db) name input in
      Counted-same (insert_event_row now e db) (signal_received now wid rid name input exec db)
        (λ k. refl)
        (insert_workflow_task_row-events now (replay_task wid rid exec (next_id_of wid rid db))
          (insert_event_row now e db))
        (insert_event_row-Counted Counters.signal_received now e db m refl h)

timer_fired-Counted :
    (now : Time) (db : Db) (t : Timer) (exec : WorkflowExecution) (v : Db) (m : Metrics)
    → Counted m v
    → Counted (add Counters.timer_fired 1 m) (timer_fired now db t exec v)
unfolding timer_fired insert_task_row
timer_fired-Counted now db t exec v m h =
    insert_event_row-Counted Counters.timer_fired now
      (timer_fired_event t.workflow_id t.run_id (next_id_of t.workflow_id t.run_id db) t) v m refl h

pub TimersFired-Counted :
    (now : Time) (db : Db) (ts : List Timer) (v v' : Db) (m : Metrics)
    → TimersFired now db ts v v'
    → Counted m v
    → Counted (add Counters.timer_fired (length ts) m) v'
TimersFired-Counted now db [] v v' m e h = Counted-same v v' (add_none-counter m) (rw e refl) h
TimersFired-Counted now db (t ∷ ts) v v' m (exec, found, rest) h =
    Counted-same v' v' (add_fired-counter (length ts) m) refl (
      TimersFired-Counted now db ts (timer_fired now db t exec v) v' (add Counters.timer_fired 1 m)
        rest (timer_fired-Counted now db t exec v m h))

module _ (now : Time) (exec : WorkflowExecution) (wid rid : String) (m : Metrics) where
  -- The tallies of the loop are added to the counters when it has ended.
  abbrev CountedAfter : Progress × Db → Type 0
  CountedAfter s = Counted (count_progress s.0 m) s.1

  event-CountedAfter :
      (k : Kind) (e : Event) (p : Progress) (v : Db) (s : Progress × Db)
      → e.event_type ≡ event_type_of k
      → s.1.events ≡ (insert_event_row now e v).events
      → ((j : Kind) → counter j (count_progress s.0 m) ≡ counter j (add k 1 (count_progress p m)))
      → CountedAfter (p, v)
      → CountedAfter s
  event-CountedAfter k e p v s same events tallies h =
      Counted-same (insert_event_row now e v) s.1 tallies events
        (insert_event_row-Counted k now e v (count_progress p m) same h)

  command_effect-Counted :
      (clock : Time) (p : Progress) (v : Db) (cmd : Command)
      → CountedAfter (p, v)
      → CountedAfter (command_effect now exec wid rid clock (p, v) cmd)
  unfolding command_effect insert_task_row insert_timer_row
  command_effect-Counted clock p v cmd h =
      branch CountedAfter (cmd.type == "ScheduleActivity") (scheduled now exec wid rid p v cmd) _
        (event-CountedAfter Counters.activity_scheduled
          (activity_scheduled_event wid rid p.next_id cmd) p v (scheduled now exec wid rid p v cmd)
          refl refl (λ j. ground arith) h)
        (branch CountedAfter (cmd.type == "StartTimer") (timed now exec wid rid clock p v cmd) _
          (event-CountedAfter Counters.timer_started (timer_started_event wid rid p.next_id cmd) p v
            (timed now exec wid rid clock p v cmd) refl refl (λ j. ground arith) h)
          (branch CountedAfter (cmd.type == "CompleteWorkflow") (completed now exec wid rid p v cmd)
            _
            (event-CountedAfter Counters.workflow_completed
              (workflow_completed_event wid rid p.next_id cmd) p v
              (completed now exec wid rid p v cmd) refl refl (λ j. ground arith) h)
            (branch CountedAfter (cmd.type == "FailWorkflow") (failed now exec wid rid p v cmd)
              (p, v)
              (event-CountedAfter Counters.workflow_failed
                (workflow_failed_event wid rid p.next_id cmd) p v (failed now exec wid rid p v cmd)
                refl refl (λ j. ground arith) h)
              h)))

  pub CommandsApplied-Counted :
      (cmds : List Command) (s s' : Progress × Db)
      → CommandsApplied now exec wid rid cmds s s'
      → CountedAfter s
      → CountedAfter s'
  CommandsApplied-Counted [] s s' e h = rw e h
  CommandsApplied-Counted (cmd ∷ cmds) s s' (clock, rest) h =
      CommandsApplied-Counted cmds (command_effect now exec wid rid clock s cmd) s' rest
        (command_effect-Counted clock s.0 s.1 cmd h)

-- A step on tables and counters that are known by equations.
