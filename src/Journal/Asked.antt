-- ===== src/Journal/Asked.antt =====
-- What `CompleteWorkflowTask` of internal/history/history.go leaves in the history for the commands of
-- a worker that waits: one event for each.
use my_temp.Common.{
  ℕ, ◌+◌, String, String_eq, ℕ_eq, true, ◌==◌, ◌≡◌, refl, sym, List, [], ◌∷◌, ◌++◌, All, All-mono,
  subst, inl, inr, int64, length, eq_refl, nat_eq_iff, arith, ◌&&◌,
}
use mathlib.Core.List.{append-nil, append_assoc}
use my_temp.Persistence.Types.{Time, WorkflowExecution, Event}
use my_temp.Persistence.Tables.{Db, insert_task_row, insert_timer_row}
use my_temp.History.Rows.{activity_scheduled_event, timer_started_event}
use my_temp.History.WorkflowTask.{Progress}
use my_temp.Spec.Effects.{scheduled, timed, command_effect, CommandsApplied}
use my_temp.Proto
use my_temp.Proto.{HistoryEvent}
use my_temp.Frontend.{unmarshal_command, unmarshal_commands, marshal_event, marshal_events}
use my_temp.Sdk.Lookups.{IsScheduling, Recorded, IsAsking}
use my_temp.Journal.{rows_of}
use my_temp.Journal.Grown.{Grown, row_of}
use my_temp.Journal.Rows.{own-Grown, one_more}

nat_eq_refl : (n : ℕ) → (n == n) ≡ true
nat_eq_refl n = (nat_eq_iff n n).1 refl

pub Recorded-cons :
    (e : HistoryEvent) (h : List HistoryEvent) (cmd : Proto.Command)
    → Recorded h cmd
    → Recorded (e ∷ h) cmd
Recorded-cons e h cmd k = ground (arith, k)

Recorded-more :
    (e : HistoryEvent) (h : List HistoryEvent) (cmd : Proto.Command)
    → Recorded (e ∷ []) cmd
    → Recorded (e ∷ h) cmd
Recorded-more e h cmd k = ground (arith, k)

-- The events that the commands left.
pub record Answered (es news : List Event) (cmds : List Proto.Command) (next : ℕ)
    (rows : List Event) : Type 0 where
  pub more : List Event
  pub grown : Grown es (news ++ more) next rows
  pub only : All IsScheduling (marshal_events more)
  pub recorded : All (Recorded (marshal_events more)) cmds

module _ (now : Time) (exec : WorkflowExecution) (wid rid : String) (es : List Event) where
  own : (wid == wid && rid == rid) ≡ true
  own = rw (eq_refl wid, eq_refl rid) refl

  module _ (clock : Time) (p : Progress) (v : Db) (cmd : Proto.Command) where
    scheduled_is :
        cmd.type ≡ "ScheduleActivity"
        → command_effect now exec wid rid clock (p, v) (unmarshal_command cmd)
          ≡ scheduled now exec wid rid p v (unmarshal_command cmd)
    unfolding command_effect unmarshal_command
    scheduled_is k = rw k refl

    timed_is :
        cmd.type ≡ "StartTimer"
        → command_effect now exec wid rid clock (p, v) (unmarshal_command cmd)
          ≡ timed now exec wid rid clock p v (unmarshal_command cmd)
    unfolding command_effect unmarshal_command
    timed_is k = rw k refl

  abbrev AnsweredBy : List Event → List Proto.Command → Progress × Db → Type 0
  AnsweredBy news cmds s = Answered es news cmds s.0.next_id (rows_of wid rid s.1)

  module _ (cmd : Proto.Command) (id : ℕ) (v : Db) where
    abbrev scheduled_row : Event
    scheduled_row = row_of now (activity_scheduled_event wid rid id (unmarshal_command cmd)) v

    abbrev timed_row : Event
    timed_row = row_of now (timer_started_event wid rid id (unmarshal_command cmd)) v

    scheduled_row-Recorded :
        cmd.type ≡ "ScheduleActivity" → Recorded (marshal_event scheduled_row ∷ []) cmd
    unfolding marshal_event unmarshal_command
    scheduled_row-Recorded k =
        rw (k, eq_refl cmd.activity_name, nat_eq_refl cmd.activity_index) refl

    timed_row-Recorded : cmd.type ≡ "StartTimer" → Recorded (marshal_event timed_row ∷ []) cmd
    unfolding marshal_event unmarshal_command
    timed_row-Recorded k = rw (k, nat_eq_refl cmd.timer_index) refl

  first_event :
      (news : List Event) (cmd : Proto.Command) (cmds : List Proto.Command) (s' : Progress × Db)
      (row : Event)
      → IsScheduling (marshal_event row)
      → Recorded (marshal_event row ∷ []) cmd
      → AnsweredBy (news ++ row ∷ []) cmds s'
      → AnsweredBy news (cmd ∷ cmds) s'
  unfolding marshal_events
  first_event news cmd cmds s' row asks here h = record {
    more = row ∷ h.more;
    grown =
        subst (λ l. Grown es l s'.0.next_id (rows_of wid rid s'.1))
          (append_assoc news (row ∷ []) h.more) h.grown;
    only = (asks, h.only);
    recorded = (
      Recorded-more (marshal_event row) (marshal_events h.more) cmd here,
      All-mono _ _ cmds (λ c k. Recorded-cons (marshal_event row) (marshal_events h.more) c k)
          h.recorded,
    );
  }

  pub asked-Answered :
      (news : List Event) (cmds : List Proto.Command) (s s' : Progress × Db)
      → All IsAsking cmds
      → CommandsApplied now exec wid rid (unmarshal_commands cmds) s s'
      → Grown es news s.0.next_id (rows_of wid rid s.1)
      → AnsweredBy news cmds s'
  unfolding unmarshal_commands marshal_events marshal_event insert_task_row insert_timer_row
  asked-Answered news [] s s' tt e h = subst (AnsweredBy news []) (sym e) (record {
    more = [];
    grown = subst (λ l. Grown es l s.0.next_id (rows_of wid rid s.1)) (sym (append-nil news)) h;
    only = tt;
    recorded = tt;
  })
  asked-Answered news (cmd ∷ cmds) s s' (inl k, asks) (clock, rest) h =
      let row = scheduled_row cmd s.0.next_id s.1 in
      first_event news cmd cmds s' row (inl refl) (scheduled_row-Recorded cmd s.0.next_id s.1 k) (
        asked-Answered (news ++ row ∷ []) cmds
          (scheduled now exec wid rid s.0 s.1 (unmarshal_command cmd)) s' asks
          (subst (λ x. CommandsApplied now exec wid rid (unmarshal_commands cmds) x s')
            (scheduled_is clock s.0 s.1 cmd k) rest)
          (own-Grown wid rid now
            (activity_scheduled_event wid rid s.0.next_id (unmarshal_command cmd)) s.1
            (int64 (s.0.next_id + 1)) own refl (one_more (length (rows_of wid rid s.1)) s.0.next_id)
            h))
  asked-Answered news (cmd ∷ cmds) s s' (inr k, asks) (clock, rest) h =
      let row = timed_row cmd s.0.next_id s.1 in
      first_event news cmd cmds s' row (inr refl) (timed_row-Recorded cmd s.0.next_id s.1 k) (
        asked-Answered (news ++ row ∷ []) cmds
          (timed now exec wid rid clock s.0 s.1 (unmarshal_command cmd)) s' asks
          (subst (λ x. CommandsApplied now exec wid rid (unmarshal_commands cmds) x s')
            (timed_is clock s.0 s.1 cmd k) rest)
          (own-Grown wid rid now (timer_started_event wid rid s.0.next_id (unmarshal_command cmd))
            s.1 (int64 (s.0.next_id + 1)) own refl
            (one_more (length (rows_of wid rid s.1)) s.0.next_id) h))
