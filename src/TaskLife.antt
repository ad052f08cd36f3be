-- ===== src/TaskLife.antt =====
-- The life of one row of `tasks`, by its id, from the moment that something is known of it.
use my_temp.Common.{ℕ, ◌<◌, ◌≡◌, All}
use my_temp.Persistence.Types.{Task}
use my_temp.Persistence.Tables.{Db}
pub mod Effects
pub mod Survives
pub mod Reported
pub mod Leased
pub mod Attempts

-- If the row is still there, then `P` holds of it; and its id is not given out again.
abbrev pub Marked : (Task → Type 0) → ℕ → Db → Type 0
Marked P id db = All (λ t. t.id ≡ id → P t) db.tasks × (id < db.next_task)
