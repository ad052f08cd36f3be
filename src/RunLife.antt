-- ===== src/RunLife.antt =====
-- The life of one row of `workflow_executions`.
use my_temp.Common.{String, String_eq, Bool, false, ◌≡◌, ◌==◌, some, find}
use my_temp.Persistence.Types.{WorkflowExecution}
use my_temp.Persistence.Tables.{Db, is_execution}
pub mod Statements
pub mod Final
pub mod Unique

-- The row of the run.
abbrev pub IsRow : String → String → WorkflowExecution → Db → Type 0
IsRow wid rid x db = find (is_execution wid rid) db.executions ≡ some x

-- The run is over.
abbrev pub IsOver : WorkflowExecution → Type 0
IsOver x = (x.status == "Running") ≡ false
