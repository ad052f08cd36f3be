-- ===== src/TaskLife/Reported.antt =====
-- The reports on one activity task: `CompleteActivityTask` and `FailActivityTask`.
use my_temp.Common.{
  ℕ, ◌<◌, String, not, ◌≡◌, refl, List, [], ◌∷◌, none, some, All, keep, find, find-All, find-test,
  subst, inl, inr, ◌==◌, ℕ_eq, arith,
}
use my_temp.Persistence.Types.{Bytes, Time, Task}
use my_temp.Persistence.Tables.{Db, lease, reclaim, insert_event_row, delete_task_rows}
use my_temp.Persistence.Session.{Env, World}
use my_temp.Spec.Effects.{activity_completed, activity_retried, activity_failed}
use my_temp.Spec.ActivityTask.{ActivityCompletes, ActivityRetries, ActivityFails}
use my_temp.Persistence.Session.{Result, ok, err}
use my_temp.Persistence.Quiet.{Same, Succeeds}
use my_temp.Proto.{RespondActivityTaskCompletedRequest, RespondActivityTaskFailedRequest}
use my_temp.Engine.{Call, activity_task_completed, activity_task_failed, perform, run}
use my_temp.Engine.Atomic.{IsOneTransaction}
use my_temp.Engine.Outcome.{Effect, Outcome, perform-Outcome}
use my_temp.Engine.Settled.{Settled, perform-Settled}
use my_temp.Invariant.{Inv, Rising}
use my_temp.TaskLife.{Marked}
use my_temp.TaskLife.Effects.{map_tasks-Marked, insert_task_row-Marked}
use my_temp.TaskLife.Survives.{run-Marked, Clocks}

-- The row is gone for good.
abbrev pub Gone : ℕ → Db → Type 0
Gone = Marked (λ t. ⊥)

abbrev AnyTime : Time → Type 0
AnyTime now = Unit {0}

lease-id : (now : Time) (owner : String) (i : ℕ) (t : Task) → (lease now owner i t).id ≡ t.id
unfolding lease
lease-id now owner i t = ground arith

reclaim-id : (now : Time) (t : Task) → (reclaim now t).id ≡ t.id
unfolding reclaim
reclaim-id now t = ground arith

any-Clocks : (cs : List (Env × Call)) → Clocks AnyTime cs
any-Clocks [] = tt
any-Clocks ((env, c) ∷ cs) = (λ n. tt, any-Clocks cs)

run-Gone : (id : ℕ) (w : World) (cs : List (Env × Call)) → Gone id w.db → Gone id (run w cs).db
run-Gone id w cs h =
    run-Marked (λ t. ⊥) id AnyTime
      (λ locked now queue type owner db t e k.
        map_tasks-Marked (λ t. ⊥) id (lease now owner t.id) db (lease-id now owner t.id)
          (λ u p same. p same) k)
      (λ now db allowed k.
        map_tasks-Marked (λ t. ⊥) id (reclaim now) db (reclaim-id now) (λ u p same. p same) k)
      w cs (any-Clocks cs) h

find-Gone :
    (id : ℕ) (ts : List Task) → All (λ t. t.id ≡ id → ⊥) ts → find (λ t. t.id == id) ts ≡ none
find-Gone id [] h = refl
find-Gone id (t ∷ ts) h = ground (arith, h.0, find-Gone id ts h.1)

keep-Gone : (id : ℕ) (ts : List Task) → All (λ t. t.id ≡ id → ⊥) (keep (λ t. not (t.id == id)) ts)
keep-Gone id [] = tt
keep-Gone id (t ∷ ts) = ground (arith, keep-Gone id ts)

pub Rising-All : (n : ℕ) (ts : List Task) → Rising n ts → All (λ t. t.id < n) ts
Rising-All n [] h = tt
Rising-All n (t ∷ ts) h = (h.0, Rising-All n ts h.2)

-- A row that is there has an id that has been given out.
found-below :
    (id : ℕ) (db : Db) {t : Task}
    → find (λ t. t.id == id) db.tasks ≡ some t
    → Inv db
    → id < db.next_task
found-below id db {t} e h =
    let below =
      find-All (λ t. t.id < db.next_task) (λ t. t.id == id) db.tasks (Rising-All _ _ h.rising) e in
    ground (arith, below, find-test (λ t. t.id == id) db.tasks e)

delete_task_rows-Gone : (id : ℕ) (db : Db) → id < db.next_task → Gone id (delete_task_rows id db)
unfolding delete_task_rows
delete_task_rows-Gone id db h = (keep-Gone id db.tasks, h)

module _ (env : Env) (id : ℕ) (wid rid : String) (w w' : World) (h : Inv w.db) where
  ActivityCompletes-Gone :
      (result : Bytes) → ActivityCompletes env id wid rid result w w' → Gone id w'.db
  unfolding activity_completed insert_event_row
  ActivityCompletes-Gone result e = rw e.tables (
      insert_task_row-Marked (λ t. ⊥) id _ _
        (delete_task_rows-Gone id _ (found-below id w.db e.found_task h)))

  ActivityRetries-Gone : ActivityRetries env id wid rid w w' → Gone id w'.db
  unfolding activity_retried
  ActivityRetries-Gone e = rw e.tables (
      insert_task_row-Marked (λ t. ⊥) id _ _
        (delete_task_rows-Gone id w.db (found-below id w.db e.found_task h)))

  ActivityFails-Gone : (text : String) → ActivityFails env id wid rid text w w' → Gone id w'.db
  unfolding activity_failed insert_event_row
  ActivityFails-Gone text e = rw e.tables (
      insert_task_row-Marked (λ t. ⊥) id _ _
        (delete_task_rows-Gone id _ (found-below id w.db e.found_task h)))

-- The calls that report how the attempt of an activity task has ended.
pub data Report : Type 0 where
  report_completed : RespondActivityTaskCompletedRequest → Report
  report_failed : RespondActivityTaskFailedRequest → Report

abbrev pub reported_task : Report → ℕ
reported_task (report_completed r) = r.task_id
reported_task (report_failed r) = r.task_id

abbrev pub call_of : Report → Call
call_of (report_completed r) = activity_task_completed r
call_of (report_failed r) = activity_task_failed r

IsOneTransaction-of : (r : Report) → IsOneTransaction (call_of r)
IsOneTransaction-of (report_completed r) = tt
IsOneTransaction-of (report_failed r) = tt

report-Gone :
    (env : Env) (r : Report) (w w' : World)
    → Inv w.db
    → Effect env (call_of r) w w'
    → Gone (reported_task r) w'.db
report-Gone env (report_completed r) w w' h done =
    ActivityCompletes-Gone env r.task_id r.workflow_id r.run_id w w' h r.result done
report-Gone env (report_failed r) w w' h (inl done) =
    ActivityRetries-Gone env r.task_id r.workflow_id r.run_id w w' h done
report-Gone env (report_failed r) w w' h (inr done) =
    ActivityFails-Gone env r.task_id r.workflow_id r.run_id w w' h r.error done

report-no_Effect :
    (env : Env) (r : Report) (w w' : World)
    → Gone (reported_task r) w.db
    → ¬ Effect env (call_of r) w w'
report-no_Effect env (report_completed r) w w' h done =
    cc (find-Gone r.task_id w.db.tasks h.0, done.found_task)
report-no_Effect env (report_failed r) w w' h (inl done) =
    cc (find-Gone r.task_id w.db.tasks h.0, done.found_task)
report-no_Effect env (report_failed r) w w' h (inr done) =
    cc (find-Gone r.task_id w.db.tasks h.0, done.found_task)

Same-of :
    (env : Env) (c : Call) (w w' : World) → ¬ Effect env c w w' → Outcome env c w w' → Same w w'
Same-of env c w w' none_done (inl same) = same
Same-of env c w w' none_done (inr done) = absurd (none_done done)

pub Effect-of :
    (env : Env) (c : Call) (w : World) (r : Result (Unit {0}) × World)
    → Succeeds r
    → Settled env c w r
    → Effect env c w r.1
Effect-of env c w (ok a, w') fine done = done
Effect-of env c w (err e, w') fine done = absurd fine

-- Once a report on an activity task has been accepted, by an engine whose tables satisfy the
-- invariant, no later report on that task changes the tables or the metrics, whatever the engine did
-- in between.
pub reported_once :
    (env env' : Env) (r r' : Report) (w : World) (cs : List (Env × Call))
    → Inv w.db
    → reported_task r ≡ reported_task r'
    → Succeeds (perform env (call_of r) w)
    → let w' = run (perform env (call_of r) w).1 cs in Same w' (perform env' (call_of r') w').1
reported_once env env' r r' w cs h same fine =
    let w₁ = (perform env (call_of r) w).1 in
    let w' = run w₁ cs in
    let done =
      Effect-of env (call_of r) w (perform env (call_of r) w) fine
        (perform-Settled env (call_of r) w (IsOneTransaction-of r)) in
    let gone = run-Gone (reported_task r) w₁ cs (report-Gone env r w w₁ h done) in
    Same-of env' (call_of r') w' (perform env' (call_of r') w').1
      (report-no_Effect env' r' w' _ (subst (λ i. Gone i w'.db) same gone))
      (perform-Outcome env' (call_of r') w')
