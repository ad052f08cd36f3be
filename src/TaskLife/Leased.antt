-- ===== src/TaskLife/Leased.antt =====
-- A task that `PollTask` of internal/persistence/persistence.go has leased, and later polls.
use my_temp.Common.{
  ℕ, ◌<◌, String, String_eq, Bool, false, not, ◌&&◌, ◌≡◌, sym, List, [], ◌∷◌, Option, some, All,
  All-keep, keep, ◌∙◌, ℕ_eq, arith, map,
}
use my_temp.Common.Int.{pos, ◌+ℤ◌, ltb_ℤ}
use my_temp.Persistence.Types.{Time, Task}
use my_temp.Persistence.Tables.{Db, pollable, is_pollable, is_unleased, lease, lease_time, reclaim}
use my_temp.Persistence.Session.{Env, World}
use my_temp.Persistence.{poll_task}
use my_temp.Persistence.Session.{ok}
use my_temp.Spec.Polling.Rows.{lowest_id-All}
use my_temp.Spec.Polling.{TaskPolled, poll_task-TaskPolled}
use my_temp.Invariant.{Inv}
use my_temp.TaskLife.Reported.{Rising-All}
use my_temp.Engine.{Call, run}
use my_temp.TaskLife.{Marked}
use my_temp.TaskLife.Effects.{map_tasks-Marked}
use my_temp.TaskLife.Survives.{Clocks, run-Marked}

-- The task is leased until the instant.
abbrev pub LeasedUntil : Time → Task → Type 0
LeasedUntil at t = (is_unleased t ≡ false) × (t.lease_expires_at ≡ some at)

abbrev pub NotAfter : Time → Time → Type 0
NotAfter at now = ltb_ℤ at now ≡ false

leased-not_pollable :
    (locked : ℕ → Bool) (now : Time) (queue type : String) (id : ℕ) (at : Time) (ts : List Task)
    → All (λ t. t.id ≡ id → LeasedUntil at t) ts
    → All (λ t. ¬ (t.id ≡ id)) (keep (λ t. is_pollable now queue type t && not (locked t.id)) ts)
leased-not_pollable locked now queue type id at [] h = tt
leased-not_pollable locked now queue type id at (t ∷ ts) h =
    ground (arith, h.0, leased-not_pollable locked now queue type id at ts h.1)

-- A poll does not return a task that is leased.
pollable-leased :
    (locked : ℕ → Bool) (now : Time) (queue type : String) (id : ℕ) (at : Time) (db : Db) (t : Task)
    → pollable locked now queue type db ≡ some t
    → Marked (LeasedUntil at) id db
    → ¬ (t.id ≡ id)
unfolding pollable
pollable-leased locked now queue type id at db t e h =
    lowest_id-All (λ u. ¬ (u.id ≡ id)) _
      (leased-not_pollable locked now queue type id at db.tasks h.0) e

lease-id : (now : Time) (owner : String) (i : ℕ) (t : Task) → (lease now owner i t).id ≡ t.id
unfolding lease
lease-id now owner i t = ground arith

lease-other :
    (now : Time) (owner : String) (i : ℕ) (t : Task) → ¬ (t.id ≡ i) → lease now owner i t ≡ t
unfolding lease
lease-other now owner i t other = ground arith

reclaim-id : (now : Time) (t : Task) → (reclaim now t).id ≡ t.id
unfolding reclaim
reclaim-id now t = ground arith

reclaim-leased : (now at : Time) (t : Task) → LeasedUntil at t → NotAfter at now → reclaim now t ≡ t
unfolding reclaim
reclaim-leased now at t h early = ground arith

-- A lease lasts thirty seconds.
abbrev pub lease_end : Time → Time
lease_end now = now +ℤ pos lease_time

lease-LeasedUntil :
    (now : Time) (owner : String) (i : ℕ) (t : Task)
    → t.id ≡ i
    → LeasedUntil (lease_end now) (lease now owner i t)
unfolding lease
lease-LeasedUntil now owner i t e = ground arith

lease-Marked :
    (now : Time) (owner : String) (i : ℕ) (ts : List Task)
    → All (λ t. t.id ≡ i → LeasedUntil (lease_end now) t) (map (lease now owner i) ts)
lease-Marked now owner i [] = tt
lease-Marked now owner i (t ∷ ts) = (
  λ e. lease-LeasedUntil now owner i t (rw⁻¹ (lease-id now owner i t) e),
  lease-Marked now owner i ts,
)

pollable-below :
    (locked : ℕ → Bool) (now : Time) (queue type : String) (db : Db) (t : Task)
    → pollable locked now queue type db ≡ some t
    → Inv db
    → t.id < db.next_task
unfolding pollable
pollable-below locked now queue type db t e h =
    lowest_id-All (λ u. u.id < db.next_task) _ (All-keep _ _ db.tasks (Rising-All _ _ h.rising)) e

module _ (at : Time) (id : ℕ) where
  pub run-LeasedUntil :
      (w : World) (cs : List (Env × Call))
      → Clocks (NotAfter at) cs
      → Marked (LeasedUntil at) id w.db
      → Marked (LeasedUntil at) id (run w cs).db
  run-LeasedUntil w cs early h =
      run-Marked (LeasedUntil at) id (NotAfter at)
        (λ locked now queue type owner db t e k.
          map_tasks-Marked (LeasedUntil at) id (lease now owner t.id) db (lease-id now owner t.id)
            (λ u p same.
              rw
                (lease-other now owner t.id u
                  (λ e'. pollable-leased locked now queue type id at db t e k (sym e' ∙ same)))
                (p same))
            k)
        (λ now db allowed k.
          map_tasks-Marked (LeasedUntil at) id (reclaim now) db (reclaim-id now)
            (λ u p same. rw (reclaim-leased now at u (p same) allowed) (p same)) k)
        w cs early h

poll-Marked :
    (env : Env) (queue type owner : String) (w w' : World) (t : Task)
    → TaskPolled env queue type owner w (some t) w'
    → Inv w.db
    → Marked (LeasedUntil (lease_end (env.db_clock w.calls))) t.id w'.db
poll-Marked env queue type owner w w' t p h = rw p.tables (
  lease-Marked (env.db_clock w.calls) owner t.id w.db.tasks,
  pollable-below env.locked_task (env.db_clock w.calls) queue type w.db t (sym p.found) h,
)

polled_of :
    (env : Env) (queue type owner : String) (w w' : World) (row : Option Task)
    → poll_task env queue type owner w ≡ (ok row, w')
    → TaskPolled env queue type owner w row w'
polled_of env queue type owner w w' row e = rw e at (poll_task-TaskPolled env queue type owner w).at

-- A poll that returns a task leases it for thirty seconds on the clock of the database: whatever
-- calls follow it, while that clock is not past the end of the lease, no later poll returns the same
-- task, for any queue and any owner.
pub leased_exclusively :
    (env env' : Env) (queue type owner queue' type' owner' : String) (w w₁ w₂ : World) (t u : Task)
    (cs : List (Env × Call))
    → Inv w.db
    → poll_task env queue type owner w ≡ (ok (some t), w₁)
    → Clocks (NotAfter (lease_end (env.db_clock w.calls))) cs
    → poll_task env' queue' type' owner' (run w₁ cs) ≡ (ok (some u), w₂)
    → ¬ (u.id ≡ t.id)
leased_exclusively env env' queue type owner queue' type' owner' w w₁ w₂ t u cs h first early
      second =
    let later = run w₁ cs in
    let p = polled_of env' queue' type' owner' later w₂ (some u) second in
    pollable-leased env'.locked_task (env'.db_clock later.calls) queue' type' t.id
      (lease_end (env.db_clock w.calls)) later.db u (sym p.found)
      (run-LeasedUntil (lease_end (env.db_clock w.calls)) t.id w₁ cs early (
        poll-Marked env queue type owner w w₁ t (polled_of env queue type owner w w₁ (some t) first)
          h))
