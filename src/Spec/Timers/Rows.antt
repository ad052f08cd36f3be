-- ===== src/Spec/Timers/Rows.antt =====
-- The rows of `ScanTimers` of internal/history/history.go.
use my_temp.Common.{
  ℕ, ◌+◌, ◌==◌, ℕ_eq, Bool, true, false, ◌≡◌, refl, sym, ◌∙◌, List, [], ◌∷◌, ◌++◌, none, some, find,
  any, length, int64, Bool-cases, inl, inr, arith, subst,
}
use mathlib.Core.List.{append_assoc, append-nil}
use my_temp.Common.Rows.{Rows, Rows-map}
use my_temp.Persistence.Types.{Time, WorkflowExecution, Event, Task, Timer}
use my_temp.Persistence.Tables.{Db, is_execution, insert_event_row, insert_task_row, mark_fired}
use my_temp.Persistence.Session.{Env, World}
use my_temp.Persistence.Ends.{Ends, Cause, Ends-mono}
use my_temp.History.Timers.{scan_timers}
use my_temp.Journal.{rows_of}
use my_temp.Journal.Rows.{next_id_of-length}
use my_temp.Spec.Effects.{timer_fired, TimersFired}
use my_temp.Spec.Timers.{ScanRefused, due_at, TimersScanned, scan_timers-TimersScanned}
use my_temp.Spec.Timers.Chosen.{Chosen, due_timers-Chosen}

-- The event of a timer, with the number after those of the run's committed events.
pub record Rings (db : Db) (now : Time) (t : Timer) (e : Event) : Type 0 where
  pub of_workflow : e.workflow_id ≡ t.workflow_id
  pub of_run : e.run_id ≡ t.run_id
  pub type : e.event_type ≡ "TimerFired"
  pub index : e.timer_index ≡ t.timer_index
  pub number : e.event_id ≡ int64 (length (rows_of t.workflow_id t.run_id db) + 1)
  pub at : e.created_at ≡ now

-- The workflow task of a timer, on the queue of its run.
pub record Wakes (db : Db) (t : Timer) (task : Task) : Type 0 where
  pub exec : WorkflowExecution
  pub found : find (is_execution t.workflow_id t.run_id) db.executions ≡ some exec
  pub of_workflow : task.workflow_id ≡ t.workflow_id
  pub of_run : task.run_id ≡ t.run_id
  pub type : task.task_type ≡ "workflow"
  pub queue : task.task_queue ≡ exec.task_queue
  pub free : task.lease_owner ≡ none

abbrev pub has_id : ℕ → List Timer → Bool
has_id id ts = any (λ t. t.id == id) ts

-- A timer whose id is among those of `ts` is fired; any other one is as it was.
abbrev pub MarkedBy : List Timer → Timer → Timer → Type 0
MarkedBy ts t t' =
    (has_id t.id ts ≡ true → t' ≡ record t { fired = true }) × (has_id t.id ts ≡ false → t' ≡ t)

-- Each timer of `ts` has its event and its workflow task, and is marked as fired.
pub record Fires (db : Db) (now : Time) (ts : List Timer) (v v' : Db) : Type 0 where
  pub news : List Event
  pub history : v'.events ≡ v.events ++ news
  pub rings : Rows (Rings db now) ts news
  pub woken : List Task
  pub tasks : v'.tasks ≡ v.tasks ++ woken
  pub wakes : Rows (Wakes db) ts woken
  pub marked : Rows (MarkedBy ts) v.timers v'.timers
  pub executions : v'.executions ≡ v.executions

unmarked : (xs : List Timer) → Rows (MarkedBy []) xs xs
unmarked [] = tt
unmarked (x ∷ xs) = ((λ e. absurd (cc e), λ e. refl), unmarked xs)

fired_already : (t : Timer) → t.fired ≡ true → record t { fired = true } ≡ t
fired_already t e = rw⁻¹ e refl

mark_fired-hit : (id : ℕ) (t : Timer) → t.id ≡ id → mark_fired id t ≡ record t { fired = true }
unfolding mark_fired
mark_fired-hit id t e = elim (Bool-cases t.fired) [
  | inl already ↦ rw⁻¹ (fired_already t already) (ground arith)
  | inr waiting ↦ rw (waiting, (ℕ_eq.beq_iff t.id id).1 e) refl
]

mark_fired-miss : (id : ℕ) (t : Timer) → ¬ (t.id ≡ id) → mark_fired id t ≡ t
unfolding mark_fired
mark_fired-miss id t e = ground (arith, e)

mark_fired-MarkedBy :
    (a : Timer) (ts : List Timer) (x y : Timer)
    → MarkedBy ts (mark_fired a.id x) y
    → MarkedBy (a ∷ ts) x y
mark_fired-MarkedBy a ts x y h = elim (Bool-cases (a.id == x.id)) [
  | inl hit ↦
      let k =
        subst (λ z. MarkedBy ts z y) (mark_fired-hit a.id x (sym ((ℕ_eq.beq_iff a.id x.id).0 hit)))
          h in
      (
        λ e. elim (Bool-cases (has_id x.id ts)) [ inl more ↦ k.0 more | inr last ↦ k.1 last ],
        λ e. absurd (cc (rw hit at e)),
      )
  | inr miss ↦
      let k =
        subst (λ z. MarkedBy ts z y)
          (mark_fired-miss a.id x (λ e. absurd (cc ((ℕ_eq.beq_iff a.id x.id).1 (sym e), miss))))
          h in
      (λ e. k.0 (rw miss at e), λ e. k.1 (rw miss at e))
]

timer_fired-Rings :
    (now : Time) (db : Db) (ts : List Timer) (v v' : Db)
    → TimersFired now db ts v v'
    → Fires db now ts v v'
unfolding timer_fired insert_event_row insert_task_row
timer_fired-Rings now db [] v v' e = rw e (record {
  news = [];
  history = sym (append-nil v.events);
  rings = tt;
  woken = [];
  tasks = sym (append-nil v.tasks);
  wakes = tt;
  marked = unmarked v.timers;
  executions = refl;
})
timer_fired-Rings now db (t ∷ ts) v v' (exec, found, rest) =
    let more = timer_fired-Rings now db ts (timer_fired now db t exec v) v' rest in
    record {
      news = _ ∷ more.news;
      history = more.history ∙ append_assoc v.events _ more.news;
      rings = (
        record {
          of_workflow = refl;
          of_run = refl;
          type = refl;
          index = refl;
          number = next_id_of-length t.workflow_id t.run_id db;
          at = refl;
        },
        more.rings,
      );
      woken = _ ∷ more.woken;
      tasks = more.tasks ∙ append_assoc v.tasks _ more.woken;
      wakes = (
        record {
          exec = exec;
          found = found;
          of_workflow = refl;
          of_run = refl;
          type = refl;
          queue = refl;
          free = refl;
        },
        more.wakes,
      );
      marked =
          Rows-map (MarkedBy ts) (MarkedBy (t ∷ ts)) (mark_fired t.id) v.timers v'.timers
            (mark_fired-MarkedBy t ts) more.marked;
      executions = more.executions;
    }

module _ (env : Env) (w : World) where
  pub record Scan (w' : World) : Type 0 where
    pub timers : List Timer
    pub chosen : Chosen env.locked_timer (env.db_clock w.calls) w.db.timers timers
    pub fires : Fires w.db (env.db_clock w.calls) timers w.db w'.db
    pub counted :
        w'.metrics ≡ record (w.metrics) { timers_fired = w.metrics.timers_fired + length timers }

  scanned-Scan : (w' : World) → TimersScanned env w w' → Scan w'
  scanned-Scan w' h = record {
    timers = due_at env w;
    chosen = due_timers-Chosen env.locked_timer (env.db_clock w.calls) w.db;
    fires =
        rw (h.tables)
          (timer_fired-Rings (env.db_clock w.calls) w.db (due_at env w) w.db h.view h.fired);
    counted = h.counted;
  }

  -- `ScanTimers` ends without an error only after it has chosen timers that are past their time by the
  -- clock of the database, not fired yet and not locked by others: all such timers when these are fewer
  -- than a hundred, and else a hundred of them. Then each chosen timer has, in turn, a `TimerFired`
  -- event of its run and a workflow task on the queue of its run, after the rows that were there; the
  -- timers with the ids of the chosen ones are marked as fired, and every other timer is as it was; and
  -- the counter has grown by their number. It returns an error only because a run has no row or a call
  -- to the database failed.
  pub scan_timers-Scan : Ends (Cause env (ScanRefused w.db)) (λ _. Scan) (scan_timers env) w
  scan_timers-Scan = Ends-mono (scan_timers-TimersScanned env w) (λ _. scanned-Scan)
