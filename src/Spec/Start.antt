-- ===== src/Spec/Start.antt =====
-- `StartWorkflow` of internal/history/history.go, and its specification.
use my_temp.Common.{
  ℕ, ◌+◌, String, Option, none, some, ◌≡◌, refl, false, ◌==◌, String_eq, keep, arith, Option-cases,
  true, inl, inr,
}
use my_temp.Persistence.Types.{Bytes, WorkflowExecution}
use my_temp.Persistence.Tables.{Db, latest, insert_execution_row}
use my_temp.Persistence.Session.{Env, World, count_call, wrapped, pool_query, ◌>>=◌}
use my_temp.Persistence.{get_latest_execution}
use my_temp.Persistence.Ends.{Ends, Cause, fault, refused, Excuse}
use my_temp.Persistence.Calls.{ends_rules}
use my_temp.Persistence.Methods.{ends_methods}
use my_temp.Errors.{is}
use my_temp.History.Rows.{started_execution}
use my_temp.History.Start.{check_not_running, insert_run, start_workflow}
use my_temp.Spec.Effects.{started}

abbrev pub latest_of : String → Db → Option WorkflowExecution
latest_of wid db = latest (keep (λ y. y.workflow_id == wid) db.executions)

-- The workflow has no run yet, or its latest run is over.
abbrev NotRunningRow : Option WorkflowExecution → Type 0
NotRunningRow none = Unit {0}
NotRunningRow (some x) = (x.status == "Running") ≡ false

-- The latest run of the workflow is running.
abbrev RunningRow : Option WorkflowExecution → Type 0
RunningRow none = ⊥
RunningRow (some x) = (x.status == "Running") ≡ true

abbrev pub IsRunning : String → Db → Type 0
IsRunning wid db = RunningRow (latest_of wid db)

abbrev pub NotRunning : String → Db → Type 0
NotRunning wid db = NotRunningRow (latest_of wid db)

Ends-check_not_running :
    (env : Env) {F : Type 0} {Q : Unit {0} → World → Type 0} (wid : String) {w : World}
    → Excuse env F
    → (IsRunning wid w.db → F)
    → (NotRunning wid w.db → Q tt (count_call w))
    → Ends F Q (check_not_running env wid) w
unfolding check_not_running get_latest_execution wrapped pool_query ◌>>=◌ is
Ends-check_not_running env wid {w} excuse running h = elim (Option-cases (env.fault w.calls)) [
  | inl e ↦ record { at = ground arith }
  | inr (t, e) ↦ record { at = ground (arith, excuse w.calls t e) }
]

module _ (env : Env) (wid type queue : String) (input : Bytes) (w : World) where
  pub record WorkflowStarts (rid : String) (w' : World) : Type 0 where
    pub calls : ℕ
    pub fresh_id : rid ≡ env.uuid calls
    pub not_running : NotRunning wid w.db
    pub inserted : Db
    pub new_row :
        insert_execution_row (env.db_clock w.calls) (started_execution wid rid type queue) w.db
        ≡ some inserted
    pub tables : w'.db ≡ started (env.db_clock w.calls) wid rid type queue input inserted
    pub counted :
        w'.metrics ≡ record (w.metrics) { workflows_started = w.metrics.workflows_started + 1 }
    pub closed : w'.tx ≡ none

  -- The latest run is running, or the new id is not new.
  pub data StartRefused : Type 0 where
    running : IsRunning wid w.db → StartRefused
    duplicate :
        (n : ℕ)
        → insert_execution_row
            (env.db_clock w.calls)
            (started_execution wid (env.uuid n) type queue)
            w.db
          ≡ none
        → StartRefused

  -- `StartWorkflow` ends without an error only when the latest run of the workflow is not running; then
  -- it has added one running execution under a new run id, its first event and its first task, and one
  -- to the counter. It returns an error only because the latest run is running, the new id is taken,
  -- or a call to the database failed.
  pub start_workflow-WorkflowStarts :
      Ends (Cause env StartRefused) WorkflowStarts (start_workflow env wid type queue input) w
  unfolding start_workflow insert_run started
  start_workflow-WorkflowStarts =
      search
        (ends_rules, ends_methods, Ends-check_not_running, fault, refused, running, duplicate, leaf)
        depth 40 fits 20000
    where
      leaf :
          (n : ℕ) (inserted : Db) {calls : ℕ}
          → NotRunning wid w.db
          → insert_execution_row
              (env.db_clock w.calls)
              (started_execution wid (env.uuid n) type queue)
              w.db
            ≡ some inserted
          → WorkflowStarts (env.uuid n) (record {
            db = started (env.db_clock w.calls) wid (env.uuid n) type queue input inserted;
            tx = none;
            calls = calls;
            metrics = record (w.metrics) { workflows_started = w.metrics.workflows_started + 1 };
          })
      leaf n inserted not_running new_row = record {
        calls = n;
        fresh_id = refl;
        not_running = not_running;
        inserted = inserted;
        new_row = new_row;
        tables = refl;
        counted = refl;
        closed = refl;
      }
