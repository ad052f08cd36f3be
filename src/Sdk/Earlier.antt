-- ===== src/Sdk/Earlier.antt =====
-- The commands that the functions of sdk/workflow/context.go find in their context.
use my_temp.Common.{
  ℕ, String, String_eq, ℕ_eq, Bool, true, false, ◌≡◌, refl, inl, inr, List, [], ◌∷◌, ◌++◌, Option,
  none, some, if◌then◌else◌, any, All, Bool-cases, int32,
}
use my_temp.Persistence.Types.{Bytes}
use my_temp.Proto.{Command}
use my_temp.Sdk.Context.{
  Context, Step, pending, went, get_from, is_timer, signal_from, execute_activity, sleep,
  receive_signal, take_signal,
}
use my_temp.Sdk.Workflow.{
  Workflow, finish, execute, get, sleep_for, receive, Ending, on_step, replay,
}

pub All-left : (P : Command → Type 0) (xs ys : List Command) → All P (xs ++ ys) → All P xs
All-left P [] ys h = tt
All-left P (x ∷ xs) ys h = (h.0, All-left P xs ys h.1)

pub All-last : (P : Command → Type 0) (xs : List Command) (y : Command) → All P (xs ++ y ∷ []) → P y
All-last P [] y h = h.0
All-last P (x ∷ xs) y h = All-last P xs y h.1

-- The commands of a step, and those before it.
module _ (P : Command → Type 0) where
  abbrev AllOf : Ending × Context → Type 0
  AllOf r = All P r.1.commands

  if-earlier :
      (b : Bool) (c c' : Context) (cmd : Command)
      → c'.commands ≡ c.commands ++ cmd ∷ []
      → All P (if b then c else c').commands
      → All P c.commands
  if-earlier true c c' cmd e h = h
  if-earlier false c c' cmd e h = All-left P c.commands (cmd ∷ []) (rw⁻¹ e h)

  execute_activity-earlier :
      (c : Context) (name : String) (input : Bytes)
      → All P (execute_activity c name input).1.commands
      → All P c.commands
  unfolding execute_activity
  execute_activity-earlier c name input h = if-earlier _ _ _ _ refl h

  sleep-earlier : (c : Context) (ms : ℕ) → All P (sleep c ms).1.commands → All P c.commands
  unfolding sleep
  sleep-earlier c ms h =
      elim (Bool-cases (any (is_timer "TimerFired" (int32 c.timer_call_count)) c.history)) [
        | inl e ↦ rw e at h
        | inr e ↦
            elim (Bool-cases (any (is_timer "TimerStarted" (int32 c.timer_call_count)) c.history)) [
              | inl e' ↦ rw (e, e') at h
              | inr e' ↦ All-left P c.commands _ (rw (e, e') at h)
            ]
      ]

  take_signal-earlier :
      (c : Context) (name : String) (o : Option Bytes)
      → All P (take_signal c name o).1.commands
      → All P c.commands
  take_signal-earlier c name none h = h
  take_signal-earlier c name (some bytes) h = h

  on_step-earlier :
      {A : Type 0} (s : Step A) (stop : Ending × Context) (go : A → Ending × Context) (c : Context)
      → (AllOf stop → All P c.commands)
      → ((a : A) → AllOf (go a) → All P c.commands)
      → AllOf (on_step s stop go)
      → All P c.commands
  on_step-earlier pending stop go c f g h = f h
  on_step-earlier (went a) stop go c f g h = g a h

  -- A replay keeps the commands that were there.
  pub replay-earlier :
      (json : Bytes → Option String) (p : Workflow) (c : Context)
      → AllOf (replay json p c)
      → All P c.commands
  unfolding replay receive_signal
  replay-earlier json (finish e) c h = h
  replay-earlier json (execute name input k) c h =
      execute_activity-earlier c name input (replay-earlier json (k _) _ h)
  replay-earlier json (get f out k) c h =
      on_step-earlier (get_from json out f c.history) _ _ c (λ x. x)
        (λ a. replay-earlier json (k a) c) h
  replay-earlier json (sleep_for ms k) c h = sleep-earlier c ms (
      on_step-earlier (sleep c ms).0 _ _ (sleep c ms).1 (λ x. x)
        (λ a. replay-earlier json k (sleep c ms).1) h)
  replay-earlier json (receive name k) c h =
      let r = receive_signal c name in
      take_signal-earlier c name (signal_from name (c.signal_consumed name) 0 c.history)
        (on_step-earlier r.0 _ _ r.1 (λ x. x) (λ a. replay-earlier json (k a) r.1) h)
