-- ===== src/System/Input.antt =====
-- The input of a run: from `StartNewWorkflow` of sdk/client.go through the engine to the workflow
-- function that sdk/worker.go calls.
use my_temp.Common.{
  ◌&&◌, if◌then◌else◌, ◌+◌, ◌<◌, ◌^◌, String, String_eq, ℕ_eq, ◌==◌, false, true, ◌≡◌, refl, ap,
  sym, ◌∙◌, subst, subst₂, List, [], ◌∷◌, ◌++◌, length, eq_refl, map,
}
use my_temp.Persistence.Types.{Bytes, Event}
use my_temp.Persistence.Tables.{Db, events_of, non_nil, insert_task_row, order_by_event_id}
use my_temp.Persistence.Session.{Env, World, Result, ok, err, pure, after, ◌>>=◌}
use my_temp.Persistence.Ends.{Holds, Cause}
use my_temp.History.Rows.{workflow_started_event}
use my_temp.History.Start.{start_workflow}
use my_temp.Spec.Effects.{started}
use my_temp.Spec.Start.{WorkflowStarts, StartRefused, start_workflow-WorkflowStarts}
use my_temp.Proto.{StartWorkflowResponse, PollWorkflowTaskResponse}
use my_temp.Frontend.{
  Reply, response, status_error, reply_of, served, start_workflow_rpc, marshal_event,
  marshal_events,
}
use my_temp.Engine.{Call, run, boot}
use my_temp.Engine.Life.{run-Keeps}
use my_temp.Sdk.Client.{connected, start_new_workflow, poll_workflow_task, run_id_of}
use my_temp.Sdk.Worker.{input_bytes}
use my_temp.Journal.{rows_of}
use my_temp.Journal.Grown.{Fits, row_of}
use my_temp.Journal.Order.{length-order_by_event_id}
use my_temp.Journal.Rows.{Continues, own_rows}
use my_temp.Journal.Calls.{Sound, perform-Sound, run-Sound, run-Continues}
use my_temp.Journal.Started.{started-rows}
use my_temp.System.Polls.{poll_workflow_task_rpc-Carries}
use my_temp.System.Reaches.{Reaches, Reaches-trans, start-Reaches, poll_workflow-Reaches}

pub Reaches-Sound : (w w' : World) → Reaches w w' → Sound w → Sound w'
Reaches-Sound w w' h sound =
    subst Sound (sym h.there) (run-Keeps Sound perform-Sound w h.calls sound)

Reaches-Continues :
    (wid rid : String) (w w' : World) → Reaches w w' → Sound w → Continues wid rid w.db w'.db
Reaches-Continues wid rid w w' h sound =
    subst (λ x. Continues wid rid w.db x.db) (sym h.there) (run-Continues wid rid w h.calls sound)

reply-ok :
    {A : Type 0} (r : Result A × World) (a : A) (w : World)
    → reply_of r ≡ (response a, w)
    → r ≡ (ok a, w)
reply-ok (ok b, w') a w e = cc e
reply-ok (err x, w') a w e = absurd (cc e)

-- The history of a run as its start leaves it: its input comes first.
record BeginsWith (input : Bytes) (wid rid : String) (db : Db) : Type 0 where
  first : Event
  type : first.event_type ≡ "WorkflowStarted"
  bytes : first.event_data ≡ non_nil input
  history : events_of wid rid db ≡ first ∷ []

started-BeginsWith :
    (env : Env) (wid type queue : String) (input : Bytes) (w w' : World) (rid : String)
    → WorkflowStarts env wid type queue input w rid w'
    → Sound w
    → BeginsWith input wid rid w'.db
unfolding events_of started insert_task_row
started-BeginsWith env wid type queue input w w' rid h (inv, tidy) =
    let now = env.db_clock w.calls in
    let e = workflow_started_event wid rid input in
    let empty = started-rows now wid rid type queue input w.db h.inserted h.new_row inv in
    let own : (wid == wid && rid == rid) ≡ true = rw (eq_refl wid, eq_refl rid) refl in
    record {
      first = row_of now e h.inserted;
      type = refl;
      bytes = refl;
      history =
          ap (λ (db : Db). order_by_event_id (rows_of wid rid db)) h.tables
          ∙ ap order_by_event_id (own_rows wid rid now e h.inserted own)
          ∙ ap (λ l. order_by_event_id (l ++ row_of now e h.inserted ∷ [])) empty;
    }

value_or : String → Reply String → String
value_or other (response a) = a
value_or other (status_error s) = other

module _ (env : Env) (wid type queue : String) (input : Bytes) (w w' : World) (rid : String) where
  abbrev as_reply : Result String × World → Reply String × World
  as_reply r = run_id_of (reply_of (after (λ id. pure (record { run_id = id })) r))

  starts_as :
      (r : Result String × World)
      → Holds
          (Cause env (StartRefused env wid type queue input w))
          (WorkflowStarts env wid type queue input w)
          r
      → as_reply r ≡ (response rid, w')
      → WorkflowStarts env wid type queue input w rid w'
  unfolding value_or
  starts_as (ok id, x) h e =
      subst₂ (WorkflowStarts env wid type queue input w) (ap (λ p. value_or "" p.0) e)
        (ap (λ p. p.1) e) h
  starts_as (err t, x) h e = absurd (cc e)

  pub client_starts :
      start_new_workflow (connected env) wid type queue input w ≡ (response rid, w')
      → WorkflowStarts env wid type queue input w rid w'
  unfolding start_new_workflow connected served start_workflow_rpc ◌>>=◌
  client_starts e =
      starts_as (start_workflow env wid type queue input w)
        (start_workflow-WorkflowStarts env wid type queue input w).at e

  run_id_of-world : (r : Reply StartWorkflowResponse × World) → (run_id_of r).1 ≡ r.1
  run_id_of-world (response a, x) = refl
  run_id_of-world (status_error s, x) = refl

  client_start-Reaches :
      start_new_workflow (connected env) wid type queue input w ≡ (response rid, w') → Reaches w w'
  unfolding start_new_workflow
  client_start-Reaches e =
      subst (Reaches w) (sym (run_id_of-world _) ∙ ap (λ p. p.1) e) (start-Reaches env _ w)

first_bytes :
    (input : Bytes) (wid rid : String) (db db' : Db)
    → BeginsWith input wid rid db
    → Continues wid rid db db'
    → Fits (rows_of wid rid db')
    → input_bytes (marshal_events (events_of wid rid db')) ≡ non_nil input
unfolding marshal_events input_bytes
first_bytes input wid rid db db' b c fits =
    let history : events_of wid rid db' ≡ b.first ∷ c.news =
      c.log fits ∙ ap (λ l. l ++ c.news) b.history in
    ap (λ l. input_bytes (map marshal_event l)) history
    ∙ ap
        (λ t.
          if t == "WorkflowStarted"
          then b.first.event_data
          else input_bytes (map marshal_event c.news))
        b.type
    ∙ b.bytes

-- The input that a client starts a workflow with is the input that the worker reads for it. Let a client
-- start a workflow at some moment of an engine's life and get a run id, and let any calls come after
-- that. Then every task of that run that a poll hands out makes the worker read the very bytes that the
-- client has sent, or no bytes if it has sent nil, as long as the number of the run's events and one
-- more fits into an int64.
pub input_round_trip :
    (wid type queue : String) (input : Bytes) (cs later : List (Env × Call)) (env₁ env₂ : Env)
    (rid poll_queue owner : String) (w₁ w₂ : World) (task : PollWorkflowTaskResponse)
    → start_new_workflow (connected env₁) wid type queue input (run boot cs) ≡ (response rid, w₁)
    → poll_workflow_task (connected env₂) poll_queue owner (run w₁ later) ≡ (response task, w₂)
    → (task.task_id == 0) ≡ false
    → task.workflow_id ≡ wid
    → task.run_id ≡ rid
    → length (events_of wid rid w₂.db) + 1 < 2 ^ 64
    → input_bytes task.history ≡ non_nil input
unfolding events_of poll_workflow_task connected served
input_round_trip wid type queue input cs later env₁ env₂ rid poll_queue owner w₁ w₂ task starts
      polls given same_id same_run fits =
    let w = run boot cs in
    let x = run w₁ later in
    let sound : Sound w₁ =
      Reaches-Sound w w₁ (client_start-Reaches env₁ wid type queue input w w₁ rid starts)
        (run-Sound cs) in
    let polled : Reaches x w₂ =
      subst (Reaches x) (ap (λ p. p.1) polls) (poll_workflow-Reaches env₂ _ x) in
    let since : Reaches w₁ w₂ =
      Reaches-trans w₁ x w₂ (record { calls = later; there = refl }) polled in
    let carries =
      poll_workflow_task_rpc-Carries env₂ _ x w₂ task (reply-ok _ task w₂ polls) given in
    let count = length-order_by_event_id (rows_of wid rid w₂.db) in
    ap input_bytes (
      carries.history
      ∙ subst₂
          (λ a b.
            marshal_events (events_of task.workflow_id task.run_id w₂.db)
            ≡ marshal_events (events_of a b w₂.db))
          same_id same_run refl)
    ∙ first_bytes input wid rid w₁.db w₂.db
        (started-BeginsWith env₁ wid type queue input w w₁ rid
          (client_starts env₁ wid type queue input w w₁ rid starts) (run-Sound cs))
        (Reaches-Continues wid rid w₁ w₂ since sound) (subst (λ n. n + 1 < 2 ^ 64) count fits)
