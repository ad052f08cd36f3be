-- ===== src/Journal/Commands.antt =====
-- The history of a run and the commands of `CompleteWorkflowTask` in internal/history/history.go.
use my_temp.Common.{
  branch, ◌+◌, String, String_eq, true, false, ◌&&◌, ◌==◌, ◌≡◌, refl, ap, sym, ◌∙◌, List, [], ◌∷◌,
  ◌++◌, subst, subst₂, Bool-cases, inl, inr, int64, length, eq_refl, eq_iff, arith,
}
use mathlib.Core.List.{append-nil, append_assoc}
use my_temp.Persistence.Types.{Time, WorkflowExecution, Event}
use my_temp.Persistence.Tables.{Db, insert_task_row, insert_timer_row}
use my_temp.History.Types.{Command}
use my_temp.History.Rows.{
  activity_scheduled_event, timer_started_event, workflow_completed_event, workflow_failed_event,
}
use my_temp.History.WorkflowTask.{Progress, first_progress}
use my_temp.Spec.Effects.{
  next_id_of, scheduled, timed, completed, failed, command_effect, CommandsApplied,
}
use my_temp.Journal.{rows_of}
use my_temp.Journal.Grown.{Grown}
use my_temp.Journal.Rows.{
  Tidy, Continues, Grown-start, Grown-end, own-Grown, other_rows, stays, one_more,
}
use my_temp.Journal.Effects.{Grows}

module _ (now : Time) (exec : WorkflowExecution) (wid rid : String) where
  own : (wid == wid && rid == rid) ≡ true
  own = rw (eq_refl wid, eq_refl rid) refl

  module _ (es news : List Event) where
    abbrev GrowsTo : Progress × Db → Type 0
    GrowsTo s = Grows es news s.0.next_id (rows_of wid rid s.1)

    command_effect-Grows :
        (clock : Time) (p : Progress) (v : Db) (cmd : Command)
        → Grown es news p.next_id (rows_of wid rid v)
        → GrowsTo (command_effect now exec wid rid clock (p, v) cmd)
    unfolding command_effect insert_task_row insert_timer_row
    command_effect-Grows clock p v cmd h =
        let n = length (rows_of wid rid v) in
        branch GrowsTo (cmd.type == "ScheduleActivity") (scheduled now exec wid rid p v cmd) _
          (record {
            more = _;
            grown =
                own-Grown wid rid now (activity_scheduled_event wid rid p.next_id cmd) v
                  (int64 (p.next_id + 1)) own refl (one_more n p.next_id) h;
          })
          (branch GrowsTo (cmd.type == "StartTimer") (timed now exec wid rid clock p v cmd) _
            (record {
              more = _;
              grown =
                  own-Grown wid rid now (timer_started_event wid rid p.next_id cmd) v
                    (int64 (p.next_id + 1)) own refl (one_more n p.next_id) h;
            })
            (branch GrowsTo (cmd.type == "CompleteWorkflow") (completed now exec wid rid p v cmd) _
              (record {
                more = _;
                grown =
                    own-Grown wid rid now (workflow_completed_event wid rid p.next_id cmd) v
                      p.next_id own refl (stays n p.next_id) h;
              })
              (branch GrowsTo (cmd.type == "FailWorkflow") (failed now exec wid rid p v cmd) (p, v)
                (record {
                  more = _;
                  grown =
                      own-Grown wid rid now (workflow_failed_event wid rid p.next_id cmd) v
                        p.next_id own refl (stays n p.next_id) h;
                })
                (record {
                  more = [];
                  grown =
                      subst (λ l. Grown es l p.next_id (rows_of wid rid v)) (sym (append-nil news))
                        h;
                }))))

  CommandsApplied-Grows :
      (es news : List Event) (cmds : List Command) (s s' : Progress × Db)
      → CommandsApplied now exec wid rid cmds s s'
      → Grown es news s.0.next_id (rows_of wid rid s.1)
      → GrowsTo es news s'
  CommandsApplied-Grows es news [] s s' e h = subst (GrowsTo es news) (sym e) (record {
    more = [];
    grown = subst (λ l. Grown es l s.0.next_id (rows_of wid rid s.1)) (sym (append-nil news)) h;
  })
  CommandsApplied-Grows es news (cmd ∷ cmds) s s' (clock, rest) h =
      let one = command_effect-Grows es news clock s.0 s.1 cmd h in
      let all =
        CommandsApplied-Grows es (news ++ one.more) cmds
          (command_effect now exec wid rid clock s cmd) s' rest one.grown in
      record {
        more = one.more ++ all.more;
        grown =
            subst (λ l. Grown es l s'.0.next_id (rows_of wid rid s'.1))
              (append_assoc news one.more all.more) all.grown;
      }

  -- The commands of one run and the rows of another one.
  module _ (wid' rid' : String) (other : (wid == wid' && rid == rid') ≡ false) where
    abbrev Untouched : Db → Progress × Db → Type 0
    Untouched v s = rows_of wid' rid' s.1 ≡ rows_of wid' rid' v

    command_effect-Untouched :
        (clock : Time) (p : Progress) (v : Db) (cmd : Command)
        → Untouched v (command_effect now exec wid rid clock (p, v) cmd)
    unfolding command_effect insert_task_row insert_timer_row
    command_effect-Untouched clock p v cmd =
        branch (Untouched v) (cmd.type == "ScheduleActivity") (scheduled now exec wid rid p v cmd) _
          (other_rows wid' rid' now (activity_scheduled_event wid rid p.next_id cmd) v other)
          (branch (Untouched v) (cmd.type == "StartTimer") (timed now exec wid rid clock p v cmd) _
            (other_rows wid' rid' now (timer_started_event wid rid p.next_id cmd) v other)
            (branch (Untouched v) (cmd.type == "CompleteWorkflow")
              (completed now exec wid rid p v cmd) _
              (other_rows wid' rid' now (workflow_completed_event wid rid p.next_id cmd) v other)
              (branch (Untouched v) (cmd.type == "FailWorkflow") (failed now exec wid rid p v cmd)
                (p, v)
                (other_rows wid' rid' now (workflow_failed_event wid rid p.next_id cmd) v other)
                refl)))

    CommandsApplied-Untouched :
        (cmds : List Command) (s s' : Progress × Db)
        → CommandsApplied now exec wid rid cmds s s'
        → Untouched s.1 s'
    CommandsApplied-Untouched [] s s' e = ap (λ r. rows_of wid' rid' r.1) e
    CommandsApplied-Untouched (cmd ∷ cmds) s s' (clock, rest) =
        CommandsApplied-Untouched cmds (command_effect now exec wid rid clock s cmd) s' rest
        ∙ command_effect-Untouched clock s.0 s.1 cmd

  pub CommandsApplied-Continues :
      (wid' rid' : String) (db : Db) (cmds : List Command) (s' : Progress × Db)
      → CommandsApplied now exec wid rid cmds (first_progress (next_id_of wid rid db), db) s'
      → Tidy wid' rid' db
      → Continues wid' rid' db s'.1
  CommandsApplied-Continues wid' rid' db cmds s' applied tidy =
      elim (Bool-cases (wid == wid' && rid == rid')) [
        | inl same ↦
            let w : wid ≡ wid' = ground (arith, same, eq_iff wid wid', eq_iff rid rid') in
            let r : rid ≡ rid' = ground (arith, same, eq_iff wid wid', eq_iff rid rid') in
            subst₂ (λ a b. Tidy a b db → Continues a b db s'.1) w r
              (λ tidy'.
                Grown-end wid rid
                  (CommandsApplied-Grows (rows_of wid rid db) [] cmds
                    (first_progress (next_id_of wid rid db), db) s' applied
                    (Grown-start wid rid db tidy')).grown)
              tidy
        | inr other ↦ Grown-end wid' rid' (
            subst (Grown (rows_of wid' rid' db) [] (next_id_of wid' rid' db))
              (sym (CommandsApplied-Untouched wid' rid' other cmds _ s' applied))
              (Grown-start wid' rid' db tidy))
      ]
