-- ===== src/RunLife/Statements.antt =====
-- The row of a run under the SQL statements on `workflow_executions`.
use my_temp.Common.{
  String, String_eq, Bool, true, false, ◌≡◌, List, [], ◌∷◌, ◌++◌, some, none, find, map, ◌==◌,
  arith, find-test, eq_iff, sym, subst₂, ◌∙◌, Bool-cases, inl, inr,
}
use mathlib.Core.Option.{some-injective}
use my_temp.Persistence.Types.{Time, WorkflowExecution}
use my_temp.Persistence.Tables.{Db, is_execution, insert_execution_row, set_status}
use my_temp.RunLife.{IsRow, IsOver}

find-append :
    (p : WorkflowExecution → Bool) (xs ys : List WorkflowExecution) {x : WorkflowExecution}
    → find p xs ≡ some x
    → find p (xs ++ ys) ≡ some x
find-append p [] ys e = cc
find-append p (y ∷ xs) ys {x} e = ground (arith, find-append p xs ys {x = x})

pub insert_execution_row-IsRow :
    (now : Time) (new : WorkflowExecution) (wid rid : String) (x : WorkflowExecution) (db : Db)
    {v : Db}
    → insert_execution_row now new db ≡ some v
    → IsRow wid rid x db
    → IsRow wid rid x v
unfolding insert_execution_row
insert_execution_row-IsRow now new wid rid x db e h = ground (
  arith,
  e,
  find-append (is_execution wid rid) db.executions
      (record new { started_at = now; closed_at = none } ∷ []) h,
)

pub set_status-IsRow :
    (now : Time) (a b status wid rid : String) (x : WorkflowExecution) (xs : List WorkflowExecution)
    → is_execution a b x ≡ false
    → find (is_execution wid rid) xs ≡ some x
    → find (is_execution wid rid) (map (set_status now a b status) xs) ≡ some x
unfolding set_status
set_status-IsRow now a b status wid rid x [] other e = cc
set_status-IsRow now a b status wid rid x (y ∷ xs) other e =
    ground (arith, set_status-IsRow now a b status wid rid x xs other)

is_execution-keys :
    (a b : String) (x : WorkflowExecution)
    → is_execution a b x ≡ true
    → (x.workflow_id ≡ a) × (x.run_id ≡ b)
is_execution-keys a b x e = ground (arith, eq_iff x.workflow_id a, eq_iff x.run_id b)

same_row :
    (a b wid rid : String) (exec x : WorkflowExecution) (db : Db)
    → IsRow a b exec db
    → IsRow wid rid x db
    → is_execution a b x ≡ true
    → exec ≡ x
same_row a b wid rid exec x db found row hit =
    let k = is_execution-keys a b x hit in
    let l = is_execution-keys wid rid x (find-test (is_execution wid rid) db.executions row) in
    some-injective exec x
      (sym (subst₂ (λ c d. IsRow c d exec db) (sym k.0 ∙ l.0) (sym k.1 ∙ l.1) found) ∙ row)

-- A run that is running is not the one that is over.
pub running-other :
    (a b wid rid : String) (exec x : WorkflowExecution) (db : Db)
    → IsRow a b exec db
    → IsRow wid rid x db
    → (exec.status == "Running") ≡ true
    → IsOver x
    → is_execution a b x ≡ false
running-other a b wid rid exec x db found row running over =
    elim (Bool-cases (is_execution a b x)) [
      | inr miss ↦ miss
      | inl hit ↦ absurd (still (rw (same_row a b wid rid exec x db found row hit) at running))
    ]
  where
    still : (x.status == "Running") ≡ true → ⊥
    still e = cc
