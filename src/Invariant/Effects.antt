-- ===== src/Invariant/Effects.antt =====
-- The invariant of the tables and the effects of the operations of internal/history/history.go.
use my_temp.Common.{
  branch, ℕ, ◌+◌, ◌≤◌, String, true, ◌≡◌, refl, inl, inr, List, [], ◌∷◌, some, find, arith, ◌==◌,
  String_eq, ℕ_eq, find-All, find-test, any_of_find, eq_iff, subst₂, lt_int32, int32,
}
use my_temp.Persistence.Types.{Bytes, Time, WorkflowExecution, Task, Timer}
use my_temp.Persistence.Tables.{
  Db, is_execution, insert_execution_row, insert_event_row, insert_task_row, delete_task_rows,
}
use my_temp.History.Types.{Command}
use my_temp.History.Rows.{
  started_execution, workflow_started_event, first_workflow_task, activity_scheduled_event,
  activity_task, timer_started_event, started_timer, workflow_completed_event,
  workflow_failed_event, activity_completed_event, activity_failed_event, timer_fired_event,
  signal_received_event, replay_task, retry_task,
}
use my_temp.History.WorkflowTask.{Progress}
use my_temp.Spec.Effects.{
  next_id_of, started, scheduled, timed, completed, failed, command_effect, CommandsApplied,
  activity_completed, activity_retried, activity_failed, timer_fired, TimersFired, signal_received,
}
use my_temp.Invariant.{HasRun, Inv}
use my_temp.Invariant.Statements.{insert_workflow_task_row-Inv}
use my_temp.Invariant.Open.{
  Open, IsSoundAttempt, insert_execution_row-Open, insert_event_row-Open, insert_task_row-Open,
  delete_task_rows-Open, insert_timer_row-Open, mark_fired-Open, with_status-Open,
}

-- The row that is found bears the ids that were asked for.
found-ids :
    (wid rid : String) (xs : List WorkflowExecution) (x : WorkflowExecution)
    → find (is_execution wid rid) xs ≡ some x
    → (wid ≡ x.workflow_id) × (rid ≡ x.run_id)
found-ids wid rid xs x e = ground (
  arith,
  find-test (is_execution wid rid) xs {x = x} e,
  eq_iff x.workflow_id wid,
  eq_iff x.run_id rid,
)

pub found-HasRun :
    (wid rid : String) (xs : List WorkflowExecution) {x : WorkflowExecution}
    → find (is_execution wid rid) xs ≡ some x
    → HasRun xs wid rid
found-HasRun wid rid xs e = any_of_find (is_execution wid rid) xs e

replay_attempt :
    (wid rid : String) (exec : WorkflowExecution) (n : ℕ)
    → IsSoundAttempt (replay_task wid rid exec n)
replay_attempt wid rid exec n = record {
  attempt_le = omega arith;
  at_most_three = omega arith;
  paired = refl;
}

pub started-Inv :
    (now : Time) (wid rid type queue : String) (input : Bytes) (db : Db) {v : Db}
    → insert_execution_row now (started_execution wid rid type queue) db ≡ some v
    → Inv db
    → Inv (started now wid rid type queue input v)
unfolding started
started-Inv now wid rid type queue input db {v} e h =
    (insert_task_row-Open (first_workflow_task wid rid type queue input) _
      (record { attempt_le = omega arith; at_most_three = omega arith; paired = refl })
      (insert_event_row-Open now (workflow_started_event wid rid input) v
        (insert_execution_row-Open now (started_execution wid rid type queue) db refl e h))).inv

module _ (now : Time) (id : ℕ) (wid rid : String) (task : Task) (exec : WorkflowExecution) (db : Db)
    (found : find (is_execution wid rid) db.executions ≡ some exec) (h : Inv db) where
  found-Open : Open wid rid db
  found-Open = record { inv = h; has = found-HasRun wid rid db.executions found }

  -- The run of the request is the run of the row that was found for it.
  pub activity_completed-Inv :
      (result : Bytes) → Inv (activity_completed now id wid rid result task exec db)
  unfolding activity_completed
  activity_completed-Inv result =
      let ids = found-ids wid rid db.executions exec found in
      (insert_task_row-Open (replay_task exec.workflow_id exec.run_id exec (next_id_of wid rid db))
        _ (replay_attempt exec.workflow_id exec.run_id exec (next_id_of wid rid db))
        (subst₂
          (λ a b. Open a b (
            delete_task_rows id (
              insert_event_row now
                (activity_completed_event wid rid (next_id_of wid rid db) task result) db)))
          ids.0 ids.1
          (delete_task_rows-Open wid rid id _ (
            insert_event_row-Open now
              (activity_completed_event wid rid (next_id_of wid rid db) task result) db
              found-Open)))).inv

  pub activity_failed-Inv : (text : String) → Inv (activity_failed now id wid rid text task exec db)
  unfolding activity_failed
  activity_failed-Inv text =
      (insert_task_row-Open (replay_task wid rid exec (next_id_of wid rid db)) _
        (replay_attempt wid rid exec (next_id_of wid rid db))
        (delete_task_rows-Open wid rid id _ (
          insert_event_row-Open now
            (activity_failed_event wid rid (next_id_of wid rid db) task text) db found-Open))).inv

  pub signal_received-Inv :
      (name : String) (input : Bytes) → Inv (signal_received now wid rid name input exec db)
  unfolding signal_received
  signal_received-Inv name input =
      let o =
        insert_event_row-Open now (signal_received_event wid rid (next_id_of wid rid db) name input)
          db found-Open in
      insert_workflow_task_row-Inv now (replay_task wid rid exec (next_id_of wid rid db)) _ o.has
        o.inv

-- One more attempt is still at most the last one: the int32 does not wrap.
next_attempt-le : (n m : ℕ) → n ≤ m → m ≤ 3 → lt_int32 n m ≡ true → int32 (n + 1) ≤ m
next_attempt-le n m h k lt = ground arith

pub activity_retried-Inv :
    (id : ℕ) (task : Task) (visible : Time) (db : Db)
    → find (λ t. t.id == id) db.tasks ≡ some task
    → lt_int32 task.attempt task.max_attempts ≡ true
    → Inv db
    → Inv (activity_retried id task visible db)
unfolding activity_retried
activity_retried-Inv id task visible db e left h =
    let sound = find-All _ (λ t. t.id == id) db.tasks h.tasks e in
    (insert_task_row-Open (retry_task task visible) _
      (record {
        attempt_le = next_attempt-le task.attempt task.max_attempts sound.1 sound.2 left;
        at_most_three = sound.2;
        paired = refl;
      })
      (delete_task_rows-Open task.workflow_id task.run_id id db
        (record { inv = h; has = sound.0 }))).inv

-- The timers of a scan are fired one by one; the executions stay as they are.
timer_fired-Inv :
    (now : Time) (db : Db) (t : Timer) (exec : WorkflowExecution) (v : Db)
    → Open t.workflow_id t.run_id v
    → Inv (timer_fired now db t exec v)
unfolding timer_fired
timer_fired-Inv now db t exec v o =
    let n = next_id_of t.workflow_id t.run_id db in
    (insert_task_row-Open (replay_task t.workflow_id t.run_id exec n) _
      (replay_attempt t.workflow_id t.run_id exec n)
      (mark_fired-Open t.workflow_id t.run_id t.id _
        (insert_event_row-Open now (timer_fired_event t.workflow_id t.run_id n t) v o))).inv

timer_fired-executions :
    (now : Time) (db : Db) (t : Timer) (exec : WorkflowExecution) (v : Db)
    → (timer_fired now db t exec v).executions ≡ v.executions
unfolding timer_fired insert_event_row insert_task_row
timer_fired-executions now db t exec v = refl

pub TimersFired-Inv :
    (now : Time) (db : Db) (ts : List Timer) (v v' : Db)
    → v.executions ≡ db.executions
    → TimersFired now db ts v v'
    → Inv v
    → Inv v'
TimersFired-Inv now db [] v v' same e h = rw e h
TimersFired-Inv now db (t ∷ ts) v v' same (exec, found, rest) h =
    TimersFired-Inv now db ts (timer_fired now db t exec v) v'
      (rw (timer_fired-executions now db t exec v) same) rest
      (timer_fired-Inv now db t exec v (record {
        inv = h;
        has = rw same (found-HasRun t.workflow_id t.run_id db.executions found);
      }))

module _ (now : Time) (exec : WorkflowExecution) (wid rid : String) where
  abbrev OpenAfter : Progress × Db → Type 0
  OpenAfter s = Open wid rid s.1

  command_effect-Open :
      (clock : Time) (p : Progress) (v : Db) (cmd : Command)
      → Open wid rid v
      → OpenAfter (command_effect now exec wid rid clock (p, v) cmd)
  unfolding command_effect
  command_effect-Open clock p v cmd o =
      branch OpenAfter (cmd.type == "ScheduleActivity") (scheduled now exec wid rid p v cmd) _
        (insert_task_row-Open (activity_task wid rid exec p.next_id 3 cmd) _
          (record { attempt_le = omega arith; at_most_three = omega arith; paired = refl })
          (insert_event_row-Open now (activity_scheduled_event wid rid p.next_id cmd) v o))
        (branch OpenAfter (cmd.type == "StartTimer") (timed now exec wid rid clock p v cmd) _
          (insert_timer_row-Open (started_timer wid rid clock cmd) _
            (insert_event_row-Open now (timer_started_event wid rid p.next_id cmd) v o))
          (branch OpenAfter (cmd.type == "CompleteWorkflow") (completed now exec wid rid p v cmd) _
            (with_status-Open now wid rid "Completed" _ (inl refl)
              (insert_event_row-Open now (workflow_completed_event wid rid p.next_id cmd) v o))
            (branch OpenAfter (cmd.type == "FailWorkflow") (failed now exec wid rid p v cmd) (p, v)
              (with_status-Open now wid rid "Failed" _ (inr refl)
                (insert_event_row-Open now (workflow_failed_event wid rid p.next_id cmd) v o))
              o)))

  pub CommandsApplied-Open :
      (cmds : List Command) (s s' : Progress × Db)
      → CommandsApplied now exec wid rid cmds s s'
      → OpenAfter s
      → OpenAfter s'
  CommandsApplied-Open [] s s' e o = rw e o
  CommandsApplied-Open (cmd ∷ cmds) s s' (clock, rest) o =
      CommandsApplied-Open cmds (command_effect now exec wid rid clock s cmd) s' rest
        (command_effect-Open clock s.0 s.1 cmd o)
