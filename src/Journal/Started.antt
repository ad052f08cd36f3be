-- ===== src/Journal/Started.antt =====
-- The history of a new run, and how the history of a run depends on the table of events.
use my_temp.Common.{
  int64, branch, All-mono, ◌+◌, String, String_eq, Option, none, some, ◌≡◌, refl, ap, sym, ◌∙◌,
  List, [], ◌∷◌, ◌++◌, All, false, Bool-cases, inl, inr, keep, any, arith, length, subst, subst₂,
}
use my_temp.Persistence.Types.{Bytes, Time, Event, Task}
use my_temp.Persistence.Tables.{
  Db, is_event_of, is_execution, insert_execution_row, insert_event_row, insert_task_row,
  insert_workflow_task_row, events_of, order_by_event_id, is_workflow_task_of,
}
use my_temp.Persistence.Session.{Env, World}
use my_temp.History.Rows.{started_execution, workflow_started_event}
use my_temp.Spec.Effects.{next_id_of, started}
use my_temp.Spec.Polling.{TaskPolled}
use my_temp.Invariant.{Inv, HasRun}
use my_temp.Journal.{rows_of}
use my_temp.Journal.Grown.{Fits, Numbered}
use my_temp.Journal.Rows.{Tidy, Continues, own_ids}
use my_temp.Journal.Effects.{one_event-Continues}

pub TaskPolled-events :
    (env : Env) (queue type owner : String) (w w' : World) (row : Option Task)
    → TaskPolled env queue type owner w row w'
    → w'.db.events ≡ w.db.events
TaskPolled-events env queue type owner w w' none p = rw p.tables refl
TaskPolled-events env queue type owner w w' (some t) p = rw p.tables refl

insert_execution_row-events :
    (now : Time) (a b type queue : String) (db v : Db)
    → insert_execution_row now (started_execution a b type queue) db ≡ some v
    → (v.events ≡ db.events) × (any (is_execution a b) db.executions ≡ false)
unfolding insert_execution_row
insert_execution_row-events now a b type queue db v e =
    elim (Bool-cases (any (is_execution a b) db.executions)) [
      | inl taken ↦ absurd (cc (rw taken at e))
      | inr free ↦ (ground (arith, e, free), free)
    ]

no_rows :
    (a b : String) (db : Db) (es : List Event)
    → any (is_execution a b) db.executions ≡ false
    → All (λ e. HasRun db.executions e.workflow_id e.run_id) es
    → keep (is_event_of a b) es ≡ []
no_rows a b db [] free h = refl
no_rows a b db (e ∷ es) free (h, hs) = elim (Bool-cases (is_event_of a b e)) [
  | inl own ↦
      let (w, r) = own_ids a b e own in
      let has : HasRun db.executions a b = subst₂ (HasRun db.executions) w r h in
      absurd (cc (has, free))
  | inr other ↦ rw other (no_rows a b db es free hs)
]

pub insert_workflow_task_row-events :
    (now : Time) (t : Task) (db : Db) → (insert_workflow_task_row now t db).events ≡ db.events
unfolding insert_workflow_task_row insert_task_row
insert_workflow_task_row-events now t db =
    branch (λ (d : Db). d.events ≡ db.events)
      (any (is_workflow_task_of t.workflow_id t.run_id) db.tasks) db _ refl refl

pub started-rows :
    (now : Time) (a b type queue : String) (input : Bytes) (db v : Db)
    → insert_execution_row now (started_execution a b type queue) db ≡ some v
    → Inv db
    → rows_of a b v ≡ []
started-rows now a b type queue input db v e inv =
    let (same, free) = insert_execution_row-events now a b type queue db v e in
    ap (keep (is_event_of a b)) same
    ∙ no_rows a b db db.events free (All-mono _ _ db.events (λ _ p. p.0) inv.events)

module _ (wid rid : String) where
  -- The statements are about the events only.
  pub from_events :
      (v db : Db) {x : Db} → v.events ≡ db.events → Continues wid rid v x → Continues wid rid db x
  unfolding events_of
  from_events v db same h = record {
    news = h.news;
    rows = h.rows ∙ ap (λ l. keep (is_event_of wid rid) l ++ h.news) same;
    log = λ fits.
        h.log fits ∙ ap (λ l. order_by_event_id (keep (is_event_of wid rid) l) ++ h.news) same;
    tidy = h.tidy;
  }

  pub to_events :
      (db v x : Db) → x.events ≡ v.events → Continues wid rid db v → Continues wid rid db x
  unfolding events_of
  to_events db v x same h =
      let rows : rows_of wid rid x ≡ rows_of wid rid v = ap (keep (is_event_of wid rid)) same in
      record {
        news = h.news;
        rows = rows ∙ h.rows;
        log = λ fits. ap order_by_event_id rows ∙ h.log (subst Fits rows fits);
        tidy = λ fits. subst Numbered (sym rows) (h.tidy (subst Fits rows fits));
      }

  pub started-Continues :
      (now : Time) (a b type queue : String) (input : Bytes) (db v : Db)
      → insert_execution_row now (started_execution a b type queue) db ≡ some v
      → Inv db
      → Tidy wid rid db
      → Continues wid rid db (started now a b type queue input v)
  unfolding started insert_task_row events_of
  started-Continues now a b type queue input db v e inv tidy =
      let (same, _) = insert_execution_row-events now a b type queue db v e in
      let none_yet = started-rows now a b type queue input db v e inv in
      let first : 1 ≡ next_id_of a b v =
        ap (λ l. int64 (length (order_by_event_id l) + 1)) (sym none_yet) in
      let logged = insert_event_row now (workflow_started_event a b input) v in
      from_events v db same (
        to_events v logged _ refl (
          one_event-Continues wid rid now (workflow_started_event a b input) v first (
            subst
              (λ l. Fits (keep (is_event_of wid rid) l) → Numbered (keep (is_event_of wid rid) l))
              (sym same) tidy)))
