-- ===== src/Sdk/Steps.antt =====
-- What a replay does at a call of `ExecuteActivity` or `Sleep`, by what its history says.
use my_temp.Common.{
  ℕ, ◌+◌, String, String_eq, ℕ_eq, Bool, ◌≡◌, List, [], ◌∷◌, ◌++◌, Option, if◌then◌else◌, any, ap,
  ◌∙◌, int32, int64,
}
use my_temp.Persistence.Types.{Bytes}
use my_temp.Proto.{HistoryEvent, Command}
use my_temp.Sdk.Context.{
  Context, ActivityFuture, Step, pending, went, is_scheduling_of, is_timer, execute_activity,
  schedule_command, timer_command, sleep,
}
use my_temp.Sdk.Workflow.{Workflow, execute, sleep_for, Ending, paused, on_step, replay}

abbrev pub at : String → List HistoryEvent → List Command → (String → ℕ) → ℕ → ℕ → Context
at queue history commands consumed activities timers = record {
  history = history;
  commands = commands;
  queue = queue;
  signal_consumed = consumed;
  activity_call_count = activities;
  timer_call_count = timers;
}

abbrev pub future : String → ℕ → ActivityFuture
future name a = record { activity_name = name; call_index = a }

module _ (json : Bytes → Option String) (queue : String) where
  module _ (name : String) (input : Bytes) (k : ActivityFuture → Workflow) (now : List HistoryEvent)
      (cmds : List Command) (consumed : String → ℕ) (a t : ℕ) where
    abbrev pub executed : Bool → Ending × Context
    executed b = replay json (k (future name a)) (
        if b
        then at queue now cmds consumed (int64 (a + 1)) t
        else at queue now
            (cmds ++ schedule_command (at queue now cmds consumed a t) name input ∷ []) consumed
            (int64 (a + 1)) t)

    pub execute_is :
        {b : Bool}
        → any (is_scheduling_of name (int32 a)) now ≡ b
        → replay json (execute name input k) (at queue now cmds consumed a t) ≡ executed b
    unfolding replay execute_activity
    execute_is e = ap executed e

  module _ (ms : ℕ) (k : Workflow) (now : List HistoryEvent) (cmds : List Command)
      (consumed : String → ℕ) (a t : ℕ) where
    abbrev pub slept : Bool → Bool → Step (Unit {0}) × Context
    slept fired started =
        let counted = at queue now cmds consumed a (int64 (t + 1)) in
        if fired then (went tt, counted) else if started then (pending, counted) else (
          pending,
          record counted {
            commands = cmds ++ timer_command (at queue now cmds consumed a t) ms ∷ [];
          },
        )

    abbrev pub after_sleep : Bool → Bool → Ending × Context
    after_sleep fired started =
        let r = slept fired started in on_step r.0 (paused, r.1) (λ _. replay json k r.1)

    pub sleep_is :
        {fired started : Bool}
        → any (is_timer "TimerFired" (int32 t)) now ≡ fired
        → any (is_timer "TimerStarted" (int32 t)) now ≡ started
        → replay json (sleep_for ms k) (at queue now cmds consumed a t) ≡ after_sleep fired started
    unfolding replay sleep
    sleep_is {fired} e e' =
        ap (λ b. after_sleep b (any (is_timer "TimerStarted" (int32 t)) now)) e
        ∙ ap (after_sleep fired) e'
