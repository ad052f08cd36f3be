-- ===== src/Counters.antt =====
-- The counters of internal/metrics/metrics.go that stand for events of a history, and how many
-- events of their type the table `events` holds.
use my_temp.Common.{ℕ, ◌+◌, String, String_eq, ◌≡◌, List, [], ◌∷◌, ◌==◌, if◌then◌else◌}
use my_temp.Metrics.{Metrics}
use my_temp.Persistence.Types.{Event}
use my_temp.Persistence.Tables.{Db}
pub mod Steps
pub mod Effects
pub mod Calls

pub data Kind : Type 0 where
  workflow_started workflow_completed workflow_failed : Kind
  activity_scheduled activity_completed activity_failed : Kind
  timer_started timer_fired signal_received : Kind

abbrev pub event_type_of : Kind → String
event_type_of workflow_started = "WorkflowStarted"
event_type_of workflow_completed = "WorkflowCompleted"
event_type_of workflow_failed = "WorkflowFailed"
event_type_of activity_scheduled = "ActivityScheduled"
event_type_of activity_completed = "ActivityCompleted"
event_type_of activity_failed = "ActivityFailed"
event_type_of timer_started = "TimerStarted"
event_type_of timer_fired = "TimerFired"
event_type_of signal_received = "SignalReceived"

abbrev pub counter : Kind → Metrics → ℕ
counter workflow_started m = m.workflows_started
counter workflow_completed m = m.workflows_completed
counter workflow_failed m = m.workflows_failed
counter activity_scheduled m = m.activities_scheduled
counter activity_completed m = m.activities_completed
counter activity_failed m = m.activities_failed
counter timer_started m = m.timers_started
counter timer_fired m = m.timers_fired
counter signal_received m = m.signals_delivered

abbrev pub one_if : String → String → ℕ
one_if a b = if a == b then 1 else 0

-- How many events have the type.
abbrev pub tally : String → List Event → ℕ
tally type [] = 0
tally type (e ∷ es) = one_if e.event_type type + tally type es

-- Each counter is the number of events that it counts.
abbrev pub Counted : Metrics → Db → Type 0
Counted m db = (k : Kind) → counter k m ≡ tally (event_type_of k) db.events
