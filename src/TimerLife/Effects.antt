-- ===== src/TimerLife/Effects.antt =====
-- A timer that has fired, and the effects of the operations of internal/history/history.go.
use my_temp.Common.{
  ℕ, ◌<◌, String, String_eq, Bool, true, false, ◌≡◌, refl, inl, inr, List, [], ◌∷◌, ◌==◌, ℕ_eq,
  if◌then◌else◌, All, All-append, All-map, Option, none, some, arith, map,
}
use my_temp.Persistence.Types.{Bytes, Time, WorkflowExecution, Task, Timer}
use my_temp.Persistence.Tables.{
  Db, insert_execution_row, insert_event_row, insert_task_row, insert_timer_row, delete_task_rows,
  insert_workflow_task_row, mark_fired,
}
use my_temp.Persistence.Session.{Env, World}
use my_temp.History.Types.{Command}
use my_temp.History.WorkflowTask.{Progress}
use my_temp.Spec.Effects.{
  started, scheduled, timed, completed, failed, command_effect, CommandsApplied, activity_completed,
  activity_retried, activity_failed, timer_fired, TimersFired, signal_received,
}
use my_temp.Spec.Polling.{TaskPolled}
use my_temp.Spec.Timers.{due_at}
use my_temp.Engine.{
  Call, start, poll_workflow, poll_activity, workflow_task_completed, activity_task_completed,
  activity_task_failed, signal, reclaim_tick, scan_tick, perform,
}
use my_temp.Engine.Outcome.{Effect, Outcome, perform-Outcome}
use my_temp.TimerLife.{IsFired}

-- The table of timers and its sequence are the same.
record SameTimers (db db' : Db) : Type 0 where
  timers : db'.timers ≡ db.timers
  next : db'.next_timer ≡ db.next_timer

same-IsFired : (id : ℕ) (db db' : Db) → SameTimers db db' → IsFired id db → IsFired id db'
same-IsFired id db db' e h = rw (e.timers, e.next) h

inserted-timers :
    (now : Time) (x : WorkflowExecution) (db : Db) {v : Db}
    → insert_execution_row now x db ≡ some v
    → SameTimers db v
unfolding insert_execution_row
inserted-timers now x db e = record { timers = ground arith; next = ground arith }

signal_received-timers :
    (now : Time) (a b name : String) (input : Bytes) (exec : WorkflowExecution) (db : Db)
    → SameTimers db (signal_received now a b name input exec db)
unfolding signal_received insert_workflow_task_row insert_task_row insert_event_row
signal_received-timers now a b name input exec db = record {
  timers = ground arith;
  next = ground arith;
}

TaskPolled-timers :
    (env : Env) (queue type owner : String) (w w' : World) (row : Option Task)
    → TaskPolled env queue type owner w row w'
    → SameTimers w.db w'.db
TaskPolled-timers env queue type owner w w' none p =
    rw p.tables (record { timers = refl; next = refl })
TaskPolled-timers env queue type owner w w' (some t) p =
    rw p.tables (record { timers = refl; next = refl })

mark_fired-IsFired :
    (id i : ℕ) (t : Timer)
    → (t.id ≡ id → t.fired ≡ true)
    → (mark_fired i t).id ≡ id
    → (mark_fired i t).fired ≡ true
unfolding mark_fired
mark_fired-IsFired id i t h e = ground (arith, h)

mark_fired_self : (t : Timer) (id : ℕ) → (mark_fired id t).id ≡ id → (mark_fired id t).fired ≡ true
unfolding mark_fired
mark_fired_self t id e = ground arith

mark_fired-All :
    (id : ℕ) (ts : List Timer) → All (λ t. t.id ≡ id → t.fired ≡ true) (map (mark_fired id) ts)
mark_fired-All id [] = tt
mark_fired-All id (t ∷ ts) = (mark_fired_self t id, mark_fired-All id ts)

module _ (now : Time) (db : Db) where
  timer_fired-IsFired :
      (id : ℕ) (t : Timer) (exec : WorkflowExecution) (v : Db)
      → IsFired id v
      → IsFired id (timer_fired now db t exec v)
  unfolding timer_fired insert_event_row insert_task_row
  timer_fired-IsFired id t exec v h =
      (All-map _ (mark_fired t.id) v.timers (λ u. mark_fired-IsFired id t.id u) h.0, h.1)

  timer_fired_self :
      (t : Timer) (exec : WorkflowExecution) (v : Db)
      → t.id < v.next_timer
      → IsFired t.id (timer_fired now db t exec v)
  unfolding timer_fired insert_event_row insert_task_row
  timer_fired_self t exec v below = (mark_fired-All t.id v.timers, below)

  timer_fired-next :
      (t : Timer) (exec : WorkflowExecution) (v : Db)
      → (timer_fired now db t exec v).next_timer ≡ v.next_timer
  unfolding timer_fired insert_event_row insert_task_row
  timer_fired-next t exec v = refl

  TimersFired-IsFired :
      (id : ℕ) (ts : List Timer) (v v' : Db)
      → TimersFired now db ts v v'
      → IsFired id v
      → IsFired id v'
  TimersFired-IsFired id [] v v' e h = rw e h
  TimersFired-IsFired id (t ∷ ts) v v' (exec, found, rest) h =
      TimersFired-IsFired id ts (timer_fired now db t exec v) v' rest
        (timer_fired-IsFired id t exec v h)

  -- The timers of a scan have all fired after it.
  pub TimersFired-All :
      (ts : List Timer) (v v' : Db)
      → TimersFired now db ts v v'
      → All (λ t. t.id < v.next_timer) ts
      → All (λ t. IsFired t.id v') ts
  TimersFired-All [] v v' e h = tt
  TimersFired-All (t ∷ ts) v v' (exec, found, rest) (below, all_below) = (
    TimersFired-IsFired t.id ts (timer_fired now db t exec v) v' rest
        (timer_fired_self t exec v below),
    TimersFired-All ts (timer_fired now db t exec v) v' rest
        (rw (timer_fired-next t exec v) all_below),
  )

insert_timer_row-IsFired :
    (id : ℕ) (t : Timer) (db : Db) → IsFired id db → IsFired id (insert_timer_row t db)
unfolding insert_timer_row
insert_timer_row-IsFired id t db h =
    (All-append _ db.timers _ h.0 ((λ e. absurd (omega (arith, e, h.1))), tt), omega (arith, h.1))

branch :
    (id : ℕ) (b : Bool) (s t : Progress × Db)
    → IsFired id s.1
    → IsFired id t.1
    → IsFired id (if b then s else t).1
branch id true s t h k = h
branch id false s t h k = k

module _ (id : ℕ) (now : Time) (exec : WorkflowExecution) (a b : String) where
  command_effect-IsFired :
      (clock : Time) (p : Progress) (v : Db) (cmd : Command)
      → IsFired id v
      → IsFired id (command_effect now exec a b clock (p, v) cmd).1
  unfolding command_effect insert_event_row insert_task_row
  command_effect-IsFired clock p v cmd h =
      branch id (cmd.type == "ScheduleActivity") (scheduled now exec a b p v cmd) _ h (
        branch id (cmd.type == "StartTimer") (timed now exec a b clock p v cmd) _
          (insert_timer_row-IsFired id _ _ h)
          (branch id (cmd.type == "CompleteWorkflow") (completed now exec a b p v cmd) _ h
            (branch id (cmd.type == "FailWorkflow") (failed now exec a b p v cmd) (p, v) h h)))

  CommandsApplied-IsFired :
      (cmds : List Command) (s s' : Progress × Db)
      → CommandsApplied now exec a b cmds s s'
      → IsFired id s.1
      → IsFired id s'.1
  CommandsApplied-IsFired [] s s' e h = rw e h
  CommandsApplied-IsFired (cmd ∷ cmds) s s' (clock, rest) h =
      CommandsApplied-IsFired cmds (command_effect now exec a b clock s cmd) s' rest
        (command_effect-IsFired clock s.0 s.1 cmd h)

Effect-IsFired :
    (id : ℕ) (env : Env) (c : Call) (w w' : World)
    → Effect env c w w'
    → IsFired id w.db
    → IsFired id w'.db
unfolding started activity_completed activity_retried activity_failed insert_event_row
    insert_task_row delete_task_rows
Effect-IsFired id env (start r) w w' (rid, e) h =
    rw e.tables
      (same-IsFired id w.db e.inserted (inserted-timers (env.db_clock w.calls) _ w.db e.new_row) h)
Effect-IsFired id env (poll_workflow r) w w' e h = rw e.tables (
    same-IsFired id w.db e.leased.db
      (TaskPolled-timers env r.task_queue "workflow" r.lease_owner w e.leased e.row e.polls) h)
Effect-IsFired id env (poll_activity r) w w' e h = rw e.tables (
    same-IsFired id w.db e.leased.db
      (TaskPolled-timers env r.task_queue "activity" r.lease_owner w e.leased e.row e.polls) h)
Effect-IsFired id env (workflow_task_completed r) w w' (inl e) h = rw e.tables h
Effect-IsFired id env (workflow_task_completed r) w w' (inr e) h = rw e.tables (
    CommandsApplied-IsFired id (env.db_clock w.calls) e.exec r.workflow_id r.run_id _ _ _ e.applied
      h)
Effect-IsFired id env (activity_task_completed r) w w' e h = rw e.tables h
Effect-IsFired id env (activity_task_failed r) w w' (inl e) h = rw e.tables h
Effect-IsFired id env (activity_task_failed r) w w' (inr e) h = rw e.tables h
Effect-IsFired id env (signal r) w w' e h = rw e.tables (
    same-IsFired id w.db _
      (signal_received-timers (env.db_clock e.calls) r.workflow_id e.run_id r.signal_name r.input
        e.exec w.db)
      h)
Effect-IsFired id env reclaim_tick w w' e h = rw (e.tables, e.reclaims.tables) h
Effect-IsFired id env scan_tick w w' e h =
    rw e.tables
      (TimersFired-IsFired (env.db_clock w.calls) w.db id (due_at env w) w.db e.view e.fired h)

Outcome-IsFired :
    (id : ℕ) (env : Env) (c : Call) (w w' : World)
    → Outcome env c w w'
    → IsFired id w.db
    → IsFired id w'.db
Outcome-IsFired id env c w w' (inl same) h = rw same.db h
Outcome-IsFired id env c w w' (inr e) h = Effect-IsFired id env c w w' e h

pub perform-IsFired :
    (id : ℕ) (env : Env) (c : Call) (w : World)
    → IsFired id w.db
    → IsFired id (perform env c w).1.db
perform-IsFired id env c w h =
    Outcome-IsFired id env c w (perform env c w).1 (perform-Outcome env c w) h
