-- ===== src/Spec/Signal.antt =====
-- `SignalWorkflow` of internal/history/history.go, and its specification.
use my_temp.Common.{
  ℕ, ◌+◌, String, none, some, ◌≡◌, refl, ◌⊎◌, inl, inr, true, false, not, ◌==◌, String_eq, find,
  keep,
}
use my_temp.Persistence.Types.{Bytes, WorkflowExecution}
use my_temp.Persistence.Tables.{is_execution, latest, Db}
use my_temp.Persistence.Session.{Env, World}
use my_temp.Persistence.Ends.{Ends, Cause, fault, refused}
use my_temp.Persistence.Calls.{ends_rules}
use my_temp.Persistence.Methods.{ends_methods}
use my_temp.History.Signal.{signal_workflow, resolve_run, deliver_signal}
use my_temp.Spec.Effects.{signal_received}

-- The run that a request names: by its id, or as the latest of the workflow.
abbrev pub Names : Db → String → String → String → Type 0
Names db wid requested rid =
    (((requested == "") ≡ false) × (requested ≡ rid))
    ⊎ ((x : WorkflowExecution) × ((requested == "") ≡ true)
        × (latest (keep (λ y. y.workflow_id == wid) db.executions) ≡ some x)
        × (x.run_id ≡ rid))

module _ (env : Env) (wid requested name : String) (input : Bytes) (w : World) where
  pub record SignalDelivered (w' : World) : Type 0 where
    pub run_id : String
    pub named : Names w.db wid requested run_id
    pub exec : WorkflowExecution
    pub found_exec : find (is_execution wid run_id) w.db.executions ≡ some exec
    pub running : not (exec.status == "Running") ≡ false
    pub calls : ℕ
    pub tables : w'.db ≡ signal_received (env.db_clock calls) wid run_id name input exec w.db
    pub counted :
        w'.metrics ≡ record (w.metrics) { signals_delivered = w.metrics.signals_delivered + 1 }
    pub closed : w'.tx ≡ none

  -- The workflow has no run, the run has no row, or the run is over.
  pub data SignalRefused : Type 0 where
    no_latest : latest (keep (λ y. y.workflow_id == wid) w.db.executions) ≡ none → SignalRefused
    no_run : (rid : String) → find (is_execution wid rid) w.db.executions ≡ none → SignalRefused
    over :
        (rid : String) (exec : WorkflowExecution)
        → find (is_execution wid rid) w.db.executions ≡ some exec
        → not (exec.status == "Running") ≡ true
        → SignalRefused

  -- `SignalWorkflow` ends without an error only when the run it names, by its id or as the latest of
  -- the workflow, is running; then the signal is the next event of the run, and a workflow task of the
  -- run is queued unless one is there. It returns an error only because no such run is there, the run
  -- is over, or a call to the database failed.
  pub signal_workflow-SignalDelivered :
      Ends
        (Cause env SignalRefused)
        (λ _. SignalDelivered)
        (signal_workflow env wid requested name input)
        w
  unfolding signal_workflow resolve_run deliver_signal signal_received
  signal_workflow-SignalDelivered =
      search (ends_rules, ends_methods, fault, refused, no_latest, no_run, over, by_id, by_latest)
        depth 40 fits 20000
    where
      leaf :
          (run_id : String) (exec : WorkflowExecution) (n : ℕ) {calls : ℕ}
          → Names w.db wid requested run_id
          → find (is_execution wid run_id) w.db.executions ≡ some exec
          → not (exec.status == "Running") ≡ false
          → SignalDelivered (record {
            db = signal_received (env.db_clock n) wid run_id name input exec w.db;
            tx = none;
            calls = calls;
            metrics = record (w.metrics) { signals_delivered = w.metrics.signals_delivered + 1 };
          })
      leaf run_id exec n named found_exec running = record {
        run_id = run_id;
        named = named;
        exec = exec;
        found_exec = found_exec;
        running = running;
        calls = n;
        tables = refl;
        counted = refl;
        closed = refl;
      }

      by_id :
          (exec : WorkflowExecution) (n : ℕ) {calls : ℕ}
          → (requested == "") ≡ false
          → find (is_execution wid requested) w.db.executions ≡ some exec
          → not (exec.status == "Running") ≡ false
          → SignalDelivered (record {
            db = signal_received (env.db_clock n) wid requested name input exec w.db;
            tx = none;
            calls = calls;
            metrics = record (w.metrics) { signals_delivered = w.metrics.signals_delivered + 1 };
          })
      by_id exec n given = leaf requested exec n (inl (given, refl))

      by_latest :
          (x exec : WorkflowExecution) (n : ℕ) {calls : ℕ}
          → (requested == "") ≡ true
          → latest (keep (λ y. y.workflow_id == wid) w.db.executions) ≡ some x
          → find (is_execution wid x.run_id) w.db.executions ≡ some exec
          → not (exec.status == "Running") ≡ false
          → SignalDelivered (record {
            db = signal_received (env.db_clock n) wid x.run_id name input exec w.db;
            tx = none;
            calls = calls;
            metrics = record (w.metrics) { signals_delivered = w.metrics.signals_delivered + 1 };
          })
      by_latest x exec n blank newest = leaf x.run_id exec n (inr (x, blank, newest, refl))
