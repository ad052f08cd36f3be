-- ===== src/Spec/Timers.antt =====
-- `ScanTimers` of internal/history/history.go, and its specification.
pub mod Chosen
pub mod Rows
use my_temp.Common.{ℕ, ◌+◌, String, none, some, ◌≡◌, refl, find, List, [], ◌∷◌, length}
use my_temp.Metrics.{Metrics}
use my_temp.Persistence.Types.{Time, WorkflowExecution, Timer}
use my_temp.Persistence.Tables.{Db, is_execution, due_timers}
use my_temp.Persistence.Session.{Env, World}
use my_temp.Persistence.Ends.{Ends, Cause, fault, refused, Ends-then, Ends-pure, in_tx}
use my_temp.Persistence.Calls.{ends_rules}
use my_temp.Persistence.Methods.{ends_methods}
use my_temp.History.Timers.{fire_timer, fire_timers, scan_timers}
use my_temp.Spec.Effects.{timer_fired, TimersFired}

-- A timer belongs to a run that has no row.
pub data ScanRefused (db : Db) : Type 0 where
  no_run : (wid rid : String) → find (is_execution wid rid) db.executions ≡ none → ScanRefused db

module _ (env : Env) (db : Db) (metrics : Metrics) (now : Time) where
  abbrev Fails : Type 0
  Fails = Cause env (ScanRefused db)

  Ends-fire_timer :
      (Q : Unit {0} → World → Type 0) (calls : ℕ) (view : Db) (t : Timer)
      → ((exec : WorkflowExecution) (calls' : ℕ)
          → find (is_execution t.workflow_id t.run_id) db.executions ≡ some exec
          → Q tt (in_tx db metrics calls' now (timer_fired now db t exec view)))
      → Ends Fails Q (fire_timer env t) (in_tx db metrics calls now view)
  unfolding fire_timer timer_fired
  Ends-fire_timer Q calls view t h =
      search (ends_rules, ends_methods, fault, refused, no_run, h) depth 30

  Ends-fire_timers :
      (Q : Unit {0} → World → Type 0) (calls : ℕ) (view : Db) (ts : List Timer)
      → ((v : Db) (calls' : ℕ)
          → TimersFired now db ts view v
          → Q tt (in_tx db metrics calls' now v))
      → Ends Fails Q (fire_timers env ts) (in_tx db metrics calls now view)
  unfolding fire_timers
  Ends-fire_timers Q calls view [] h = Ends-pure tt (h view calls refl)
  Ends-fire_timers Q calls view (t ∷ ts) h = Ends-then _ _ (
      Ends-fire_timer _ calls view t (λ exec calls₁ found.
        Ends-fire_timers Q calls₁ (timer_fired now db t exec view) ts
          (λ v calls₂ fired. h v calls₂ (exec, found, fired))))

module _ (env : Env) (w : World) where
  abbrev pub due_at : List Timer
  due_at = due_timers env.locked_timer (env.db_clock w.calls) w.db

  pub record TimersScanned (w' : World) : Type 0 where
    pub view : Db
    pub fired : TimersFired (env.db_clock w.calls) w.db due_at w.db view
    pub tables : w'.db ≡ view
    pub counted :
        w'.metrics ≡ record (w.metrics) { timers_fired = w.metrics.timers_fired + length due_at }
    pub closed : w'.tx ≡ none

  -- `ScanTimers` ends without an error only when each due timer's run has a row; then each due timer,
  -- up to a hundred, has its event, is marked as fired and has its workflow task, and the counter
  -- has grown by their number. It returns an error only because a run has no row or a call to the
  -- database failed.
  pub scan_timers-TimersScanned :
      Ends (Cause env (ScanRefused w.db)) (λ _. TimersScanned) (scan_timers env) w
  unfolding scan_timers
  scan_timers-TimersScanned =
      search (ends_rules, ends_methods, Ends-fire_timers, fault, refused, leaf) depth 40
    where
      leaf :
          (v : Db) {calls : ℕ}
          → TimersFired (env.db_clock w.calls) w.db due_at w.db v
          → TimersScanned (record {
            db = v;
            tx = none;
            calls = calls;
            metrics = record (w.metrics) { timers_fired = w.metrics.timers_fired + length due_at };
          })
      leaf v fired = record {
        view = v;
        fired = fired;
        tables = refl;
        counted = refl;
        closed = refl;
      }
