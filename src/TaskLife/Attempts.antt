-- ===== src/TaskLife/Attempts.antt =====
-- The attempts of the tasks over whole lives of the engine of internal/history/history.go.
pub mod Effects
use my_temp.Common.{ℕ, ◌≤◌, ◌↔◌, ◌≡◌, refl, sym, true, map, lt_int32, All-map}
use my_temp.Persistence.Types.{Time, Task}
use my_temp.Persistence.Tables.{Db, lease, reclaim}
use my_temp.Engine.Outcome.{Outcome}

-- An activity task is in its first, second or third attempt, and a failure is retried in the first two.
abbrev pub InAttempt : Task → Type 0
InAttempt t =
    t.task_type ≡ "activity"
    → (1 ≤ t.attempt)
      × (t.attempt ≤ 3)
      × ((lt_int32 t.attempt t.max_attempts ≡ true) ↔ (t.attempt ≤ 2))
