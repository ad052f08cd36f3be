-- ===== src/System/Workers.antt =====
-- The loops of sdk/worker.go: what a turn of each does to the engine, and when `Run` returns.
pub mod Activities
pub mod Workflows
pub mod Returns
use my_temp.Common.{List, map}
use my_temp.Persistence.Session.{Env}
use my_temp.Engine.{Call}

-- Calls over one connection.
abbrev pub all_in : Env → List Call → List (Env × Call)
all_in env calls = map (λ c. (env, c)) calls
