-- ===== src/TimerLife.antt =====
-- The life of one row of `timers`, by its id, from the moment that it has fired.
use my_temp.Common.{ℕ, ◌<◌, ◌≡◌, true, All}
use my_temp.Persistence.Tables.{Db}
pub mod Effects
pub mod Once

-- The row has fired; and its id is not given out again.
abbrev pub IsFired : ℕ → Db → Type 0
IsFired id db = All (λ t. t.id ≡ id → t.fired ≡ true) db.timers × (id < db.next_timer)
