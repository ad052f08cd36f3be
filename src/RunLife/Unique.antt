-- ===== src/RunLife/Unique.antt =====
-- The runs of one workflow: how many of them are running.
use my_temp.Common.{
  ℕ, ◌+◌, ◌≤◌, String, String_eq, Bool, true, false, ◌&&◌, ◌≡◌, refl, List, [], ◌∷◌, Option, none,
  some, ◌==◌, if◌then◌else◌, All, any, keep, length,
}
use my_temp.Common.Int.{ltb_ℤ}
use my_temp.Persistence.Types.{WorkflowExecution}
use my_temp.RunLife.{IsOver}
pub mod Rows
pub mod Status
pub mod Calls

abbrev pub is_of : String → WorkflowExecution → Bool
is_of wid x = x.workflow_id == wid

abbrev pub is_running_of : String → WorkflowExecution → Bool
is_running_of wid x = x.workflow_id == wid && x.status == "Running"

-- Rows start one after the other, and a row that is followed by a row of its workflow is over.
abbrev pub InTurn : List WorkflowExecution → Type 0
InTurn [] = Unit {0}
InTurn (x ∷ xs) =
    All (λ y. ltb_ℤ x.started_at y.started_at ≡ true) xs
    × (any (is_of x.workflow_id) xs ≡ true → IsOver x)
    × InTurn xs

abbrev pub running_runs : String → List WorkflowExecution → ℕ
running_runs wid xs = length (keep (is_running_of wid) xs)
