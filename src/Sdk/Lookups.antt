-- ===== src/Sdk/Lookups.antt =====
-- What the loops of sdk/workflow/context.go find in a history that has grown by the events of a
-- worker's own commands.
use my_temp.Common.{
  ℕ, ◌+◌, String, String_eq, ℕ_eq, Bool, true, false, ◌≡◌, refl, ◌⊎◌, inl, inr, List, [], ◌∷◌, ◌++◌,
  Option, none, ◌==◌, if◌then◌else◌, ◌||◌, any, All, any-append, arith,
}
use my_temp.Persistence.Types.{Bytes}
use my_temp.Proto.{HistoryEvent, Command}
use my_temp.Sdk.Context.{
  ActivityFuture, pending, get_from, is_scheduling_of, is_timer, is_signal, signal_from,
}

-- The events that a worker's commands leave: activities scheduled and timers started.
abbrev pub IsScheduling : HistoryEvent → Type 0
IsScheduling e = (e.event_type ≡ "ActivityScheduled") ⊎ (e.event_type ≡ "TimerStarted")

-- The commands of a workflow function that has not returned.
abbrev pub IsAsking : Command → Type 0
IsAsking cmd = (cmd.type ≡ "ScheduleActivity") ⊎ (cmd.type ≡ "StartTimer")

-- The history has the event that the command asks for.
abbrev pub Recorded : List HistoryEvent → Command → Type 0
Recorded h cmd =
    (if cmd.type == "ScheduleActivity"
      then any (is_scheduling_of cmd.activity_name cmd.activity_index) h
      else any (is_timer "TimerStarted" cmd.timer_index) h)
    ≡ true

get_from-pending :
    (json : Bytes → Option String) (out : Bool) (f : ActivityFuture) (es : List HistoryEvent)
    → All IsScheduling es
    → get_from json out f es ≡ pending
unfolding get_from
get_from-pending json out f [] h = refl
get_from-pending json out f (e ∷ es) (inl k, h) =
    rw (k, get_from-pending json out f es h) (ground arith)
get_from-pending json out f (e ∷ es) (inr k, h) =
    rw (k, get_from-pending json out f es h) (ground arith)

pub get_from-append :
    (json : Bytes → Option String) (out : Bool) (f : ActivityFuture) (h es : List HistoryEvent)
    → All IsScheduling es
    → get_from json out f (h ++ es) ≡ get_from json out f h
unfolding get_from
get_from-append json out f [] es s = get_from-pending json out f es s
get_from-append json out f (e ∷ h) es s = rw (get_from-append json out f h es s) refl

fired-none :
    (n : ℕ) (es : List HistoryEvent)
    → All IsScheduling es
    → any (is_timer "TimerFired" n) es ≡ false
fired-none n [] h = refl
fired-none n (e ∷ es) (inl k, h) = rw (k, fired-none n es h) refl
fired-none n (e ∷ es) (inr k, h) = rw (k, fired-none n es h) refl

or_false : (b : Bool) → (b || false) ≡ b
or_false true = refl
or_false false = refl

pub fired-append :
    (n : ℕ) (h es : List HistoryEvent)
    → All IsScheduling es
    → any (is_timer "TimerFired" n) (h ++ es) ≡ any (is_timer "TimerFired" n) h
fired-append n h es s =
    rw (any-append (is_timer "TimerFired" n) h es, fired-none n es s) (or_false _)

signal_from-none :
    (name : String) (consumed seen : ℕ) (es : List HistoryEvent)
    → All IsScheduling es
    → signal_from name consumed seen es ≡ none
unfolding signal_from
signal_from-none name consumed seen [] h = refl
signal_from-none name consumed seen (e ∷ es) (inl k, h) =
    rw k (signal_from-none name consumed seen es h)
signal_from-none name consumed seen (e ∷ es) (inr k, h) =
    rw k (signal_from-none name consumed seen es h)

pub signal_from-append :
    (name : String) (consumed seen : ℕ) (h es : List HistoryEvent)
    → All IsScheduling es
    → signal_from name consumed seen (h ++ es) ≡ signal_from name consumed seen h
unfolding signal_from
signal_from-append name consumed seen [] es s = signal_from-none name consumed seen es s
signal_from-append name consumed seen (e ∷ h) es s =
    rw (signal_from-append name consumed (if is_signal name e then seen + 1 else seen) h es s) refl

pub any-more :
    (p : HistoryEvent → Bool) (h es : List HistoryEvent) → any p h ≡ true → any p (h ++ es) ≡ true
any-more p h es e = rw (any-append p h es, e) refl
