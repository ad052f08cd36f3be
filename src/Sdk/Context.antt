-- ===== src/Sdk/Context.antt =====
-- sdk/workflow/context.go. A panic with `ErrPendingActivity` is the result `pending`; the functions
-- change the context that they are given a pointer to. What encoding/json makes of the data of an
-- event is an argument, and a nil `out` is the flag `false`.
use my_temp.Common.{
  ℕ, ◌+◌, String, String_eq, ℕ_eq, Bool, true, false, not, ◌&&◌, List, [], ◌∷◌, ◌++◌, Option, none,
  some, ◌==◌, if◌then◌else◌, any, int32, int64,
}
use my_temp.Persistence.Types.{Bytes}
use my_temp.Proto.{HistoryEvent, Command, zero_command}

pub record Context : Type 0 where
  pub history : List HistoryEvent
  pub commands : List Command
  pub queue : String
  pub signal_consumed : String → ℕ
  pub activity_call_count : ℕ
  pub timer_call_count : ℕ

-- `New`
abbrev pub new_context : List HistoryEvent → String → Context
new_context history queue = record {
  history = history;
  commands = [];
  queue = queue;
  signal_consumed = λ name. 0;
  activity_call_count = 0;
  timer_call_count = 0;
}

abbrev is_completed_name : String → HistoryEvent → Bool
is_completed_name name e = e.event_type == "ActivityCompleted" && e.activity_name == name

-- Activities by their names: a call that has failed, or a second call of one name, is not told apart.
unfoldable pub has_pending_activities : Context → Bool
has_pending_activities c =
    any
      (λ e.
        e.event_type == "ActivityScheduled"
        && not (any (is_completed_name e.activity_name) c.history))
      c.history

pub record ActivityFuture : Type 0 where
  pub activity_name : String
  pub call_index : ℕ

pub data Answer : Type 0 where
  -- `nil`, with the data that `out` was filled from.
  value : Bytes → Answer
  -- `errors.New(string(event.Data))`
  activity_error : Bytes → Answer
  -- The error of `json.Unmarshal`.
  decode_error : String → Answer

pub data Step (A : Type 0) : Type 0 where
  pending : Step A
  went : A → Step A

abbrev pub is_empty : Bytes → Bool
is_empty none = true
is_empty (some []) = true
is_empty (some (b ∷ bs)) = false

abbrev pub is_result_of : ActivityFuture → HistoryEvent → Bool
is_result_of f e = e.activity_name == f.activity_name && e.activity_index == int32 f.call_index

-- `json.Unmarshal(event.Data, out)` where there is something to read and somewhere to put it.
abbrev pub decoded : (Bytes → Option String) → Bool → Bytes → Answer
decoded json out bytes =
    if out && not (is_empty bytes)
    then (elim (json bytes) [ none ↦ value bytes | some text ↦ decode_error text ])
    else value bytes

-- The loop of `Get`.
unfoldable pub get_from :
    (Bytes → Option String) → Bool → ActivityFuture → List HistoryEvent → Step Answer
get_from json out f [] = pending
get_from json out f (e ∷ es) =
    let rest = get_from json out f es in
    if is_result_of f e
    then if e.event_type == "ActivityCompleted"
      then went (decoded json out e.event_data)
      else if e.event_type == "ActivityFailed"
      then went (activity_error e.event_data)
      else rest
    else rest

abbrev pub is_scheduling_of : String → ℕ → HistoryEvent → Bool
is_scheduling_of name index e =
    e.event_type == "ActivityScheduled" && e.activity_name == name && e.activity_index == index

abbrev pub schedule_command : Context → String → Bytes → Command
schedule_command c name input = record zero_command {
  type = "ScheduleActivity";
  task_queue = c.queue;
  activity_name = name;
  activity_index = int32 c.activity_call_count;
  input = input;
}

-- `input` is what `json.Marshal` returned, nil after an error.
unfoldable pub execute_activity : Context → String → Bytes → ActivityFuture × Context
execute_activity c name input =
    let counted : Context = record c { activity_call_count = int64 (c.activity_call_count + 1) } in
    (
      record { activity_name = name; call_index = c.activity_call_count },
      if any (is_scheduling_of name (int32 c.activity_call_count)) c.history
          then counted
          else record counted { commands = c.commands ++ schedule_command c name input ∷ [] },
    )

abbrev pub is_timer : String → ℕ → HistoryEvent → Bool
is_timer type index e = e.event_type == type && e.timer_index == index

abbrev pub timer_command : Context → ℕ → Command
timer_command c duration_ms = record zero_command {
  type = "StartTimer";
  timer_index = int32 c.timer_call_count;
  duration_ms = duration_ms;
}

-- The argument is `duration.Milliseconds()`.
unfoldable pub sleep : Context → ℕ → Step (Unit {0}) × Context
sleep c duration_ms =
    let counted : Context = record c { timer_call_count = int64 (c.timer_call_count + 1) } in
    if any (is_timer "TimerFired" (int32 c.timer_call_count)) c.history
    then (went tt, counted)
    else if any (is_timer "TimerStarted" (int32 c.timer_call_count)) c.history
    then (pending, counted)
    else (pending, record counted { commands = c.commands ++ timer_command c duration_ms ∷ [] })

abbrev pub is_signal : String → HistoryEvent → Bool
is_signal name e = e.event_type == "SignalReceived" && e.signal_name == name

-- The loop of `ReceiveSignal`, with the number of signals that it has seen.
unfoldable pub signal_from : String → ℕ → ℕ → List HistoryEvent → Option Bytes
signal_from name consumed seen [] = none
signal_from name consumed seen (e ∷ es) =
    let rest = signal_from name consumed (if is_signal name e then seen + 1 else seen) es in
    if is_signal name e && seen == consumed then some e.event_data else rest

abbrev pub take_signal : Context → String → Option Bytes → Step Bytes × Context
take_signal c name none = (pending, c)
take_signal c name (some bytes) = (
  went bytes,
  record c {
    signal_consumed = λ n. if n == name then c.signal_consumed name + 1 else c.signal_consumed n;
  },
)

unfoldable pub receive_signal : Context → String → Step Bytes × Context
receive_signal c name = take_signal c name (signal_from name (c.signal_consumed name) 0 c.history)
