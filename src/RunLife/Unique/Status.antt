-- ===== src/RunLife/Unique/Status.antt =====
-- Rows that start in turn, and `UpdateWorkflowStatus` of internal/persistence/persistence.go.
use my_temp.Common.{
  String, String_eq, true, false, ◌≡◌, refl, inl, inr, List, [], ◌∷◌, ◌==◌, All, any, any-map, map,
  arith, Bool-cases,
}
use my_temp.Common.Int.{ltb_ℤ}
use my_temp.Persistence.Types.{Time, WorkflowExecution}
use my_temp.Persistence.Tables.{is_execution, set_status}
use my_temp.Invariant.Executions.{IsFinal}
use my_temp.RunLife.{IsOver}
use my_temp.RunLife.Unique.{is_of, InTurn}

final_status-over : {status : String} → IsFinal status → (status == "Running") ≡ false
final_status-over (inl e) = rw e refl
final_status-over (inr e) = rw e refl

module _ (now : Time) (wid rid status : String) (final : IsFinal status) where
  abbrev close : WorkflowExecution → WorkflowExecution
  close = set_status now wid rid status

  close-workflow_id : (x : WorkflowExecution) → (close x).workflow_id ≡ x.workflow_id
  unfolding set_status
  close-workflow_id x = ground arith

  close-started_at : (x : WorkflowExecution) → (close x).started_at ≡ x.started_at
  unfolding set_status
  close-started_at x = ground arith

  close-IsOver : (x : WorkflowExecution) → IsOver x → IsOver (close x)
  unfolding set_status
  close-IsOver x h = elim (Bool-cases (is_execution wid rid x)) [
    | inl hit ↦ rw hit (final_status-over final)
    | inr miss ↦ rw miss h
  ]

  later-close :
      (x : WorkflowExecution) (xs : List WorkflowExecution)
      → All (λ y. ltb_ℤ x.started_at y.started_at ≡ true) xs
      → All (λ y. ltb_ℤ (close x).started_at y.started_at ≡ true) (map close xs)
  later-close x [] h = tt
  later-close x (y ∷ ys) h = (rw (close-started_at x, close-started_at y) h.0, later-close x ys h.1)

  any-close :
      (w : String) (xs : List WorkflowExecution) → any (is_of w) (map close xs) ≡ any (is_of w) xs
  any-close w xs = any-map (is_of w) close xs (λ x. rw (close-workflow_id x) refl)

  pub close-InTurn : (xs : List WorkflowExecution) → InTurn xs → InTurn (map close xs)
  close-InTurn [] h = tt
  close-InTurn (x ∷ xs) h = (
    later-close x xs h.0,
    λ e. close-IsOver x (h.1 (rw (any-close (close x).workflow_id xs, close-workflow_id x) at e)),
    close-InTurn xs h.2,
  )
