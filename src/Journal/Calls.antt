-- ===== src/Journal/Calls.antt =====
-- The history of a run over the calls and lives of an engine.
use my_temp.Common.{
  ◌+◌, ◌<◌, ◌^◌, String, String_eq, ◌≡◌, refl, ap, ◌∙◌, List, [], ◌∷◌, ◌++◌, inl, inr, arith,
  length, length-append, subst,
}
use mathlib.Core.List.{append_assoc}
use my_temp.Persistence.Types.{Event}
use my_temp.Persistence.Tables.{Db, insert_event_row, insert_task_row, delete_task_rows, events_of}
use my_temp.Persistence.Session.{Env, World}
use my_temp.History.Rows.{activity_completed_event, activity_failed_event, signal_received_event}
use my_temp.Spec.Effects.{
  next_id_of, activity_completed, activity_failed, activity_retried, signal_received,
}
use my_temp.Proto.{PollTaskRequest}
use my_temp.Engine.{
  Call, start, poll_workflow, poll_activity, workflow_task_completed, activity_task_completed,
  activity_task_failed, signal, reclaim_tick, scan_tick, perform, run, boot,
}
use my_temp.Engine.Outcome.{Effect, perform-Outcome}
use my_temp.Invariant.{Inv}
use my_temp.Invariant.Calls.{run-Inv, perform-Inv}
use my_temp.Journal.{rows_of}
use my_temp.Engine.Life.{run-Keeps}
use my_temp.Journal.Order.{length-order_by_event_id}
use my_temp.Journal.Grown.{Fits}
use my_temp.Journal.Rows.{Tidy, Continues}
use my_temp.Journal.Effects.{same-Continues, one_event-Continues, TimersFired-Continues}
use my_temp.Journal.Commands.{CommandsApplied-Continues}
use my_temp.Journal.Started.{
  TaskPolled-events, to_events, insert_workflow_task_row-events, started-Continues,
}

module _ (wid rid : String) where
  module _ (env : Env) where
    Effect-Continues :
        (c : Call) (w w' : World)
        → Effect env c w w'
        → Inv w.db
        → Tidy wid rid w.db
        → Continues wid rid w.db w'.db
    unfolding activity_completed activity_retried activity_failed signal_received insert_task_row
        delete_task_rows
    Effect-Continues (start r) w w' (id, e) inv tidy = rw e.tables (
        started-Continues wid rid (env.db_clock w.calls) r.workflow_id id r.workflow_type
          r.task_queue r.input w.db e.inserted e.new_row inv tidy)
    Effect-Continues (poll_workflow r) w w' e inv tidy =
        same-Continues wid rid w.db w'.db
          (ap Db.events e.tables
            ∙ TaskPolled-events env r.task_queue "workflow" r.lease_owner w e.leased e.row e.polls)
          tidy
    Effect-Continues (poll_activity r) w w' e inv tidy =
        same-Continues wid rid w.db w'.db
          (ap Db.events e.tables
            ∙ TaskPolled-events env r.task_queue "activity" r.lease_owner w e.leased e.row e.polls)
          tidy
    Effect-Continues (workflow_task_completed r) w w' (inl e) inv tidy =
        same-Continues wid rid w.db w'.db (ap Db.events e.tables) tidy
    Effect-Continues (workflow_task_completed r) w w' (inr e) inv tidy = rw e.tables (
        to_events wid rid w.db e.view (delete_task_rows r.task_id e.view) refl (
          CommandsApplied-Continues (env.db_clock w.calls) e.exec r.workflow_id r.run_id wid rid
            w.db _ (e.progress, e.view) e.applied tidy))
    Effect-Continues (activity_task_completed r) w w' e inv tidy =
        let id = next_id_of r.workflow_id r.run_id w.db in
        let event = activity_completed_event r.workflow_id r.run_id id e.task r.result in
        rw e.tables (
          to_events wid rid w.db (insert_event_row (env.db_clock w.calls) event w.db) _ refl
            (one_event-Continues wid rid (env.db_clock w.calls) event w.db refl tidy))
    Effect-Continues (activity_task_failed r) w w' (inl e) inv tidy =
        same-Continues wid rid w.db w'.db (ap Db.events e.tables) tidy
    Effect-Continues (activity_task_failed r) w w' (inr e) inv tidy =
        let id = next_id_of r.workflow_id r.run_id w.db in
        let event = activity_failed_event r.workflow_id r.run_id id e.task r.error in
        rw e.tables (
          to_events wid rid w.db (insert_event_row (env.db_clock w.calls) event w.db) _ refl
            (one_event-Continues wid rid (env.db_clock w.calls) event w.db refl tidy))
    Effect-Continues (signal r) w w' e inv tidy =
        let id = next_id_of r.workflow_id e.run_id w.db in
        let event = signal_received_event r.workflow_id e.run_id id r.signal_name r.input in
        let logged = insert_event_row (env.db_clock e.calls) event w.db in
        rw e.tables (
          to_events wid rid w.db logged _
            (insert_workflow_task_row-events (env.db_clock e.calls) _ logged)
            (one_event-Continues wid rid (env.db_clock e.calls) event w.db refl tidy))
    Effect-Continues reclaim_tick w w' e inv tidy =
        same-Continues wid rid w.db w'.db (ap Db.events (e.tables ∙ e.reclaims.tables)) tidy
    Effect-Continues scan_tick w w' e inv tidy =
        rw e.tables
          (TimersFired-Continues wid rid (env.db_clock w.calls) w.db e.view _ e.fired tidy)

    -- A poll leaves the events as they are.
    pub poll_workflow-events :
        (req : PollTaskRequest) (w : World)
        → (perform env (poll_workflow req) w).1.db.events ≡ w.db.events
    poll_workflow-events req w = elim (perform-Outcome env (poll_workflow req) w) [
      | inl same ↦ ap Db.events same.db
      | inr e ↦
          ap Db.events e.tables
          ∙ TaskPolled-events env req.task_queue "workflow" req.lease_owner w e.leased e.row e.polls
    ]

    perform-Continues :
        (c : Call) (w : World)
        → Inv w.db
        → Tidy wid rid w.db
        → Continues wid rid w.db (perform env c w).1.db
    perform-Continues c w inv tidy = elim (perform-Outcome env c w) [
      | inl same ↦ same-Continues wid rid w.db _ (ap Db.events same.db) tidy
      | inr e ↦ Effect-Continues c w _ e inv tidy
    ]

-- What is true of every world that an engine comes to.
abbrev pub Sound : World → Type 0
Sound w = Inv w.db × ((wid rid : String) → Tidy wid rid w.db)

pub perform-Sound : (env : Env) (c : Call) (w : World) → Sound w → Sound (perform env c w).1
perform-Sound env c w (inv, tidy) = (
  perform-Inv env c w inv,
  λ wid rid. (perform-Continues wid rid env c w inv (tidy wid rid)).tidy,
)

empty-Sound : Sound boot
unfolding run
empty-Sound = (run-Inv [], λ wid rid fits. tt)

pub run-Sound : (cs : List (Env × Call)) → Sound (run boot cs)
run-Sound cs = run-Keeps Sound perform-Sound boot cs empty-Sound

module _ (wid rid : String) where
  Continues-refl : (db : Db) → Tidy wid rid db → Continues wid rid db db
  Continues-refl db tidy = same-Continues wid rid db db refl tidy

  Continues-trans :
      (a b c : Db) → Continues wid rid a b → Continues wid rid b c → Continues wid rid a c
  Continues-trans a b c h k = record {
    news = h.news ++ k.news;
    rows = k.rows ∙ ap (λ l. l ++ k.news) h.rows ∙ append_assoc (rows_of wid rid a) h.news k.news;
    log = λ fits.
        let earlier : Fits (rows_of wid rid b) =
          omega (arith, fits, ap length k.rows, length-append (rows_of wid rid b) k.news) in
        k.log fits
        ∙ ap (λ l. l ++ k.news) (h.log earlier)
        ∙ append_assoc (events_of wid rid a) h.news k.news;
    tidy = k.tidy;
  }

  pub run-Continues :
      (w : World) (cs : List (Env × Call)) → Sound w → Continues wid rid w.db (run w cs).db
  unfolding run
  run-Continues w [] h = Continues-refl w.db (h.1 wid rid)
  run-Continues w ((env, c) ∷ cs) h =
      let w' = (perform env c w).1 in
      Continues-trans w.db w'.db (run w' cs).db
        (perform-Continues wid rid env c w h.0 (h.1 wid rid))
        (run-Continues w' cs (perform-Sound env c w h))

  -- The history of a run that a poll hands out is a log: whatever calls come between two moments of an
  -- engine's life, the later history is the earlier one followed by the events that have come since, as
  -- long as the number of the run's events and one more fits into an int64. No call takes an event out,
  -- changes one, or puts a new one between old ones.
  pub history_only_grows :
      (cs later : List (Env × Call))
      → length (events_of wid rid (run (run boot cs) later).db) + 1 < 2 ^ 64
      → (news : List Event) × (events_of wid rid (run (run boot cs) later).db
          ≡ events_of wid rid (run boot cs).db ++ news)
  unfolding events_of
  history_only_grows cs later fits =
      let h = run-Continues (run boot cs) later (run-Sound cs) in
      let count = length-order_by_event_id (rows_of wid rid (run (run boot cs) later).db) in
      (h.news, h.log (subst (λ n. n + 1 < 2 ^ 64) count fits))
