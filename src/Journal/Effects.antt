-- ===== src/Journal/Effects.antt =====
-- The history of a run and the effects of the operations of internal/history/history.go.
use my_temp.Common.{
  ℕ, String, String_eq, ◌≡◌, refl, ap, sym, ◌∙◌, List, [], ◌∷◌, ◌++◌, subst₂, Bool-cases, inl, inr,
  length,
}
use mathlib.Core.List.{append-nil, append_assoc}
use my_temp.Persistence.Types.{Time, WorkflowExecution, Event, Timer}
use my_temp.Persistence.Tables.{Db, is_event_of, insert_event_row, insert_task_row}
use my_temp.History.Rows.{timer_fired_event}
use my_temp.Spec.Effects.{next_id_of, timer_fired, TimersFired}
use my_temp.Journal.{rows_of}
use my_temp.Journal.Grown.{Grown}
use my_temp.Journal.Rows.{
  Tidy, Continues, own_ids, Grown-start, Grown-end, own-Grown, other-Grown, stays,
}

-- Some events have come.
pub record Grows (es news : List Event) (next : ℕ) (rows : List Event) : Type 0 where
  pub more : List Event
  pub grown : Grown es (news ++ more) next rows

module _ (wid rid : String) where
  pub same-Continues :
      (db db' : Db) → db'.events ≡ db.events → Tidy wid rid db → Continues wid rid db db'
  same-Continues db db' same tidy =
      Grown-end wid rid {db = db} {db' = db'} {news = []} {next = next_id_of wid rid db} (
        subst₂ (λ a b. Grown a [] (next_id_of wid rid db) b) refl
          (ap (λ l. rows_of wid rid (record db { events = l })) (sym same))
          (Grown-start wid rid db tidy))

  -- One event, under the next id of its run.
  pub one_event-Continues :
      (now : Time) (e : Event) (db : Db)
      → e.event_id ≡ next_id_of e.workflow_id e.run_id db
      → Tidy wid rid db
      → Continues wid rid db (insert_event_row now e db)
  one_event-Continues now e db here tidy = elim (Bool-cases (is_event_of wid rid e)) [
    | inl own ↦
        let (w, r) = own_ids wid rid e own in
        let here' : e.event_id ≡ next_id_of wid rid db =
          here
          ∙ subst₂ (λ a b. next_id_of e.workflow_id e.run_id db ≡ next_id_of a b db) w r refl in
        Grown-end wid rid (
          own-Grown wid rid now e db (next_id_of wid rid db) own here'
            (stays (length (rows_of wid rid db)) (next_id_of wid rid db))
            (Grown-start wid rid db tidy))
    | inr other ↦
        Grown-end wid rid (other-Grown wid rid now e db other (Grown-start wid rid db tidy))
  ]

  module _ (es : List Event) (now : Time) (db : Db) where
    timer_fired-Grows :
        (t : Timer) (exec : WorkflowExecution) (v : Db) (news : List Event)
        → Grown es news (next_id_of wid rid db) (rows_of wid rid v)
        → Grows es news (next_id_of wid rid db) (rows_of wid rid (timer_fired now db t exec v))
    unfolding timer_fired insert_task_row
    timer_fired-Grows t exec v news h =
        let e = timer_fired_event t.workflow_id t.run_id (next_id_of t.workflow_id t.run_id db) t in
        elim (Bool-cases (is_event_of wid rid e)) [
          | inl own ↦
              let (w, r) = own_ids wid rid e own in
              record {
                more = _;
                grown =
                    own-Grown wid rid now e v (next_id_of wid rid db) own
                      (subst₂ (λ a b. next_id_of t.workflow_id t.run_id db ≡ next_id_of a b db) w r
                        refl)
                      (stays (length (rows_of wid rid v)) (next_id_of wid rid db)) h;
              }
          | inr other ↦ record {
            more = [];
            grown =
                subst₂ (λ l r. Grown es l (next_id_of wid rid db) r) (sym (append-nil news)) refl
                  (other-Grown wid rid now e v other h);
          }
        ]

    TimersFired-Grows :
        (ts : List Timer) (v v' : Db) (news : List Event)
        → TimersFired now db ts v v'
        → Grown es news (next_id_of wid rid db) (rows_of wid rid v)
        → Grows es news (next_id_of wid rid db) (rows_of wid rid v')
    TimersFired-Grows [] v v' news e h = record {
      more = [];
      grown =
          subst₂ (λ l r. Grown es l (next_id_of wid rid db) r) (sym (append-nil news))
            (ap (rows_of wid rid) (sym e)) h;
    }
    TimersFired-Grows (t ∷ ts) v v' news (exec, found, rest) h =
        let one = timer_fired-Grows t exec v news h in
        let all =
          TimersFired-Grows ts (timer_fired now db t exec v) v' (news ++ one.more) rest one.grown in
        record {
          more = one.more ++ all.more;
          grown =
              subst₂ (λ l r. Grown es l (next_id_of wid rid db) r)
                (append_assoc news one.more all.more) refl all.grown;
        }

  pub TimersFired-Continues :
      (now : Time) (db v' : Db) (ts : List Timer)
      → TimersFired now db ts db v'
      → Tidy wid rid db
      → Continues wid rid db v'
  TimersFired-Continues now db v' ts fired tidy =
      Grown-end wid rid
        (TimersFired-Grows (rows_of wid rid db) now db ts db v' [] fired
          (Grown-start wid rid db tidy)).grown
