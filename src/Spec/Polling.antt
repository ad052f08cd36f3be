-- ===== src/Spec/Polling.antt =====
-- `PollTask` and `ReclaimExpiredLeases` of internal/persistence/persistence.go, as one step on the
-- tables.
pub mod Rows
pub mod Freed
use my_temp.Common.{
  ℕ, ◌+◌, String, Option, none, some, ◌≡◌, refl, map, keep, length, arith, Option-cases, inl, inr,
}
use my_temp.Persistence.Types.{Task}
use my_temp.Persistence.Tables.{pollable, lease, is_expired, reclaim}
use my_temp.Persistence.Session.{Env, World, pool_exec}
use my_temp.Persistence.{poll_task, lease_row, reclaim_expired_leases}
use my_temp.Persistence.Ends.{
  Ends, Cause, fault, Excuse, Ends-then, Ends-bind, Ends-wrapped, Ends-rollback, Ends-pure, in_tx,
}
use my_temp.Persistence.Calls.{Ends-begin_tx, Ends-tx_query, Ends-tx_write, ends_rules}

module _ (env : Env) (queue type owner : String) (w : World) where
  -- The row that the `SELECT` of a poll finds.
  abbrev pub polled : Option Task
  polled = pollable env.locked_task (env.db_clock w.calls) queue type w.db

  abbrev Leases : Option Task → World → Type 0
  Leases none w' = w'.db ≡ w.db
  Leases (some t) w' =
      w'.db ≡ record (w.db) { tasks = map (lease (env.db_clock w.calls) owner t.id) w.db.tasks }

  -- A poll returns the row that it found, and has leased it.
  pub record TaskPolled (r : Option Task) (w' : World) : Type 0 where
    pub found : r ≡ polled
    pub tables : Leases r w'
    pub counted : w'.metrics ≡ w.metrics
    pub closed : w'.tx ≡ none

  Ends-lease_row :
      (o : Option Task)
      → o ≡ polled
      → Ends
          (Cause env ⊥)
          (λ r w'. TaskPolled r (record w' { tx = none }))
          (lease_row env owner o)
          (in_tx w.db w.metrics (w.calls + 1 + 1) (env.db_clock w.calls) w.db)
  Ends-lease_row none e =
      Ends-pure none (record { found = e; tables = refl; counted = refl; closed = refl })
  Ends-lease_row (some t) e = search (ends_rules, Ends-tx_write, fault, leaf) depth 20
    where
      leaf :
          {calls : ℕ}
          → TaskPolled (some t) (record {
            db = record (w.db) { tasks = map (lease (env.db_clock w.calls) owner t.id) w.db.tasks };
            tx = none;
            metrics = w.metrics;
            calls = calls;
          })
      leaf = record { found = e; tables = refl; counted = refl; closed = refl }

  -- `PollTask` ends without an error with the pollable row of the lowest id, and has leased it to the
  -- caller and changed nothing else; without such a row it changes nothing. It returns an error only
  -- because a call to the database failed.
  pub poll_task-TaskPolled : Ends (Cause env ⊥) TaskPolled (poll_task env queue type owner) w
  unfolding poll_task
  poll_task-TaskPolled = Ends-then _ _ (
      Ends-wrapped _ _ (
        Ends-begin_tx env fault (
          Ends-rollback _ (
            Ends-bind _ _
              (Ends-wrapped _ _ (Ends-tx_query env _ fault (Ends-lease_row polled refl)))))))

module _ (env : Env) (w : World) where
  pub record LeasesReclaimed (n : ℕ) (w' : World) : Type 0 where
    pub rows : n ≡ length (keep (is_expired (env.db_clock w.calls)) w.db.tasks)
    pub tables : w'.db ≡ record (w.db) { tasks = map (reclaim (env.db_clock w.calls)) w.db.tasks }
    pub counted : w'.metrics ≡ w.metrics

  because_fault : Excuse env (Cause env ⊥)
  because_fault = fault

  -- `ReclaimExpiredLeases` ends without an error with the number of leases that have expired, has
  -- cleared exactly those and changed nothing else. It returns an error only because the call to the
  -- database failed.
  pub reclaim_expired_leases-LeasesReclaimed :
      Ends (Cause env ⊥) LeasesReclaimed (reclaim_expired_leases env) w
  unfolding reclaim_expired_leases pool_exec
  reclaim_expired_leases-LeasesReclaimed =
      Ends-wrapped _ _ (elim (Option-cases (env.fault w.calls)) [
        | inl e ↦ record { at = ground arith }
        | inr (t, e) ↦ record { at = rw e (because_fault w.calls t e) }
      ])
