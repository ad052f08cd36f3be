-- ===== src/System/Ready.antt =====
-- A run that has just been started can be worked on: `PollTask` of internal/persistence/persistence.go
-- after `StartWorkflow` of internal/history/history.go.
use my_temp.Common.{
  ℕ, String, String_eq, ℕ_eq, Bool, true, false, not, ◌&&◌, ◌||◌, ◌≡◌, refl, sym, subst, List, [],
  ◌∷◌, ◌++◌, Option, none, some, Bool-cases, Option-cases, inl, inr, any, keep, any-append, eq_refl,
  if◌then◌else◌, leb,
}
use my_temp.Common.Int.{leb_ℤ}
use my_temp.Persistence.Types.{Bytes, Task, zero_time}
use my_temp.Persistence.Tables.{
  Db, is_pollable, lowest_id, pollable, insert_task_row, insert_event_row,
}
use my_temp.Persistence.Session.{
  Env, World, Result, ok, err, after, ◌>>=◌, ◌>>◌, wrapped, pool_query, count,
}
use my_temp.Persistence.{poll_task, get_events}
use my_temp.Persistence.Ends.{Holds, Cause}
use my_temp.History.Rows.{first_workflow_task}
use my_temp.Spec.Effects.{started}
use my_temp.Spec.Start.{WorkflowStarts}
use my_temp.Spec.Polling.{TaskPolled, polled, poll_task-TaskPolled}
use my_temp.Proto.{PollWorkflowTaskResponse}
use my_temp.Frontend.{
  Reply, response, reply_of, served, answer_workflow_poll, poll_workflow_task_rpc,
}
use my_temp.Engine.{Call, run, boot}
use my_temp.Engine.Settled.{Cause-none}
use my_temp.Sdk.Client.{connected, start_new_workflow, poll_workflow_task}
use my_temp.System.Input.{client_starts}

abbrev Found : Option Task → Type 0
Found o = (t : Task) × (o ≡ some t)

if-Found : (b : Bool) (t u : Task) → Found (if b then some t else some u)
if-Found true t u = (t, refl)
if-Found false t u = (u, refl)

lowest_id-Found : (t : Task) (ts : List Task) → Found (lowest_id (t ∷ ts))
lowest_id-Found t ts = elim (Option-cases (lowest_id ts)) [
  | inl e ↦ rw e (t, refl)
  | inr (u, e) ↦ rw e (if-Found (leb t.id u.id) t u)
]

lowest_of_some :
    (p : Task → Bool) (ts : List Task) → any p ts ≡ true → Found (lowest_id (keep p ts))
lowest_of_some p [] h = absurd (cc h)
lowest_of_some p (t ∷ ts) h = elim (Bool-cases (p t)) [
  | inl hit ↦ rw hit (lowest_id-Found t (keep p ts))
  | inr miss ↦ rw miss (lowest_of_some p ts (rw miss at h))
]

or_last : (b : Bool) → (b || true) ≡ true
or_last true = refl
or_last false = refl

any_last : (p : Task → Bool) (ts : List Task) (t : Task) → p t ≡ true → any p (ts ++ t ∷ []) ≡ true
any_last p ts t h = rw (any-append p ts (t ∷ []), h) (or_last (any p ts))

-- The poll has given a worker the task that it has leased.
pub record Given (env' : Env) (queue owner : String) (w' : World)
    (r : Reply PollWorkflowTaskResponse × World) : Type 0 where
  pub task : PollWorkflowTaskResponse
  pub answers : r.0 ≡ response task
  pub row : Task
  pub leased : World
  pub polls : TaskPolled env' queue "workflow" owner w' (some row) leased
  pub same : task.task_id ≡ row.id

module _ (wid type queue : String) (input : Bytes) (env env' : Env) (rid owner : String)
    (w w' : World) (free : (n : ℕ) → env'.locked_task n ≡ false)
    (later : leb_ℤ zero_time (env'.db_clock w'.calls) ≡ true) where
  -- The first task of the run is there, and nothing keeps it from the worker.
  started-Found :
      WorkflowStarts env wid type queue input w rid w'
      → Found (polled env' queue "workflow" owner w')
  unfolding pollable started insert_task_row insert_event_row
  started-Found s =
      let t : Task = record (first_workflow_task wid rid type queue input) {
        id = s.inserted.next_task;
      } in
      let p = λ (t : Task).
        is_pollable (env'.db_clock w'.calls) queue "workflow" t && not (env'.locked_task t.id) in
      let ready : p t ≡ true = rw (eq_refl queue, later, free s.inserted.next_task) refl in
      subst (λ db. Found (lowest_id (keep p (Db.tasks db)))) (sym s.tables)
        (lowest_of_some p (s.inserted.tasks ++ t ∷ []) (any_last p s.inserted.tasks t ready))

  module _ (calm : (n : ℕ) → env'.fault n ≡ none) where
    answer-Given :
        (row : Task) (x : World)
        → TaskPolled env' queue "workflow" owner w' (some row) x
        → Given env' queue owner w' (reply_of (answer_workflow_poll env' (some row) x))
    unfolding count ◌>>=◌ ◌>>◌ get_events wrapped pool_query
    answer-Given row x h =
        rw (calm x.calls)
          (record { task = _; answers = refl; row = row; leased = x; polls = h; same = refl })

    poll-Given :
        (r : Result (Option Task) × World)
        → Holds (Cause env' ⊥) (TaskPolled env' queue "workflow" owner w') r
        → Found (polled env' queue "workflow" owner w')
        → Given env' queue owner w' (reply_of (after (answer_workflow_poll env') r))
    poll-Given (ok (some row), x) h f = answer-Given row x h
    poll-Given (ok none, x) h (t, f) = absurd (cc (h.found, f))
    poll-Given (err e, x) h f = absurd (Cause-none env' ⊥ calm (λ e. e) h)

-- A start is not lost. While the database answers and holds no row of the queue for another transaction,
-- and its clock is past the year 1, the first poll for workflow tasks of the queue after a client has
-- been told the run id of a new run gives the worker a task: the pollable one of the lowest id, which is
-- leased to it.
pub started_run_can_be_polled :
    (wid type queue : String) (input : Bytes) (cs : List (Env × Call)) (env env' : Env)
    (rid owner : String) (w' : World)
    → start_new_workflow (connected env) wid type queue input (run boot cs) ≡ (response rid, w')
    → ((n : ℕ) → env'.locked_task n ≡ false)
    → leb_ℤ zero_time (env'.db_clock w'.calls) ≡ true
    → ((n : ℕ) → env'.fault n ≡ none)
    → Given env' queue owner w' (poll_workflow_task (connected env') queue owner w')
unfolding poll_workflow_task connected served poll_workflow_task_rpc ◌>>=◌
started_run_can_be_polled wid type queue input cs env env' rid owner w' starts free later calm =
    poll-Given wid type queue input env env' rid owner (run boot cs) w' free later calm
      (poll_task env' queue "workflow" owner w')
      (poll_task-TaskPolled env' queue "workflow" owner w').at
      (started-Found wid type queue input env env' rid owner (run boot cs) w' free later
        (client_starts env wid type queue input (run boot cs) w' rid starts))
