-- ===== src/Sdk/Asks.antt =====
-- What holds of every command that a replay by sdk/worker.go can make.
use my_temp.Common.{
  false, ◌≡◌, ℕ, ◌+◌, String, String_eq, ℕ_eq, refl, inl, inr, List, [], ◌∷◌, ◌++◌, Option, none,
  some, any, All, All-append, Bool-cases, sym, subst, int32, int64,
}
use my_temp.Persistence.Types.{Bytes}
use my_temp.Proto.{HistoryEvent, Command}
use my_temp.Sdk.Context.{
  ActivityFuture, Answer, Context, new_context, Step, pending, went, get_from, is_scheduling_of,
  is_timer, signal_from, schedule_command, timer_command, receive_signal, take_signal,
}
use my_temp.Sdk.Workflow.{
  Workflow, finish, execute, get, sleep_for, receive, Ending, paused, on_step, replay,
}
use my_temp.Sdk.Steps.{at, future, execute_is, sleep_is}

on_step-All :
    (P : Command → Type 0) {A : Type 0} (s : Step A) (stop : Ending × Context)
    (go : A → Ending × Context)
    → All P stop.1.commands
    → ((a : A) → All P (go a).1.commands)
    → All P (on_step s stop go).1.commands
on_step-All P pending stop go f g = f
on_step-All P (went a) stop go f g = g a

-- Every activity that `p` can call, whatever it reads, has a name in `Called`.
abbrev pub OnlyCalls : (String → Type 0) → Workflow → Type 0
OnlyCalls Called (finish e) = Unit {0}
OnlyCalls Called (execute name input go) =
    Called name × ((f : ActivityFuture) → OnlyCalls Called (go f))
OnlyCalls Called (get f out go) = (answer : Answer) → OnlyCalls Called (go answer)
OnlyCalls Called (sleep_for ms go) = OnlyCalls Called go
OnlyCalls Called (receive name go) = (bytes : Bytes) → OnlyCalls Called (go bytes)

abbrev pub AnyName : String → Type 0
AnyName name = Unit {0}

pub all-OnlyCalls : (p : Workflow) → OnlyCalls AnyName p
all-OnlyCalls (finish e) = tt
all-OnlyCalls (execute name input go) = (tt, λ f. all-OnlyCalls (go f))
all-OnlyCalls (get f out go) = λ answer. all-OnlyCalls (go answer)
all-OnlyCalls (sleep_for ms go) = all-OnlyCalls go
all-OnlyCalls (receive name go) = λ bytes. all-OnlyCalls (go bytes)

-- A property of the commands that ask for an activity or a timer that the history does not have, the
-- activity with a name in `Called`.
pub record OfNew (Called : String → Type 0) (P : Command → Type 0) (h : List HistoryEvent)
    (queue : String) : Type 0 where
  pub of_activity :
      (name : String) (input : Bytes) (a : ℕ)
      → Called name
      → any (is_scheduling_of name (int32 a)) h ≡ false
      → P (schedule_command (at queue h [] (λ name. 0) a 0) name input)
  pub of_timer :
      (ms : ℕ) (t : ℕ)
      → any (is_timer "TimerStarted" (int32 t)) h ≡ false
      → P (timer_command (at queue h [] (λ name. 0) 0 t) ms)

module _ (json : Bytes → Option String) (h : List HistoryEvent) (queue : String)
    (Called : String → Type 0) (P : Command → Type 0) (new_ones : OfNew Called P h queue) where
  abbrev HoldsAfter : Ending × Context → Type 0
  HoldsAfter r = All P r.1.commands

  replay_from-All :
      (p : Workflow) (cmds : List Command) (consumed : String → ℕ) (a t : ℕ)
      → OnlyCalls Called p
      → All P cmds
      → HoldsAfter (replay json p (at queue h cmds consumed a t))
  unfolding replay receive_signal
  replay_from-All (finish e) cmds consumed a t calls k = k
  replay_from-All (execute name input go) cmds consumed a t calls k =
      elim (Bool-cases (any (is_scheduling_of name (int32 a)) h)) [
        | inl old ↦
            subst HoldsAfter (sym (execute_is json queue name input go h cmds consumed a t old))
              (replay_from-All (go (future name a)) cmds consumed (int64 (a + 1)) t (calls.1 _) k)
        | inr new ↦
            let cmd = schedule_command (at queue h cmds consumed a t) name input in
            subst HoldsAfter (sym (execute_is json queue name input go h cmds consumed a t new)) (
              replay_from-All (go (future name a)) (cmds ++ cmd ∷ []) consumed (int64 (a + 1)) t
                (calls.1 _)
                (All-append P cmds (cmd ∷ []) k
                  (new_ones.of_activity name input a calls.0 new, tt)))
      ]
  replay_from-All (get f out go) cmds consumed a t calls k =
      on_step-All P (get_from json out f h) _ _ k
        (λ answer. replay_from-All (go answer) cmds consumed a t (calls answer) k)
  replay_from-All (sleep_for ms go) cmds consumed a t calls k =
      elim (Bool-cases (any (is_timer "TimerFired" (int32 t)) h)) [
        | inl fired ↦
            subst HoldsAfter (sym (sleep_is json queue ms go h cmds consumed a t fired refl))
              (replay_from-All go cmds consumed a (int64 (t + 1)) calls k)
        | inr waiting ↦ elim (Bool-cases (any (is_timer "TimerStarted" (int32 t)) h)) [
          | inl started ↦
              subst HoldsAfter (sym (sleep_is json queue ms go h cmds consumed a t waiting started))
                k
          | inr new ↦
              subst HoldsAfter (sym (sleep_is json queue ms go h cmds consumed a t waiting new)) (
                All-append P cmds (timer_command (at queue h cmds consumed a t) ms ∷ []) k
                  (new_ones.of_timer ms t new, tt))
        ]
      ]
  replay_from-All (receive name go) cmds consumed a t calls k =
      received (λ bytes consumed'. replay_from-All (go bytes) cmds consumed' a t (calls bytes) k)
        (signal_from name (consumed name) 0 h)
    where
      received :
          ((bytes : Bytes) (consumed' : String → ℕ)
            → HoldsAfter (replay json (go bytes) (at queue h cmds consumed' a t)))
          → (o : Option Bytes)
          → let r = take_signal (at queue h cmds consumed a t) name o in
            HoldsAfter (on_step r.0 (paused, r.1) (λ bytes. replay json (go bytes) r.1))
      received go' none = k
      received go' (some bytes) = go' bytes _

  pub replay-All :
      (p : Workflow) → OnlyCalls Called p → All P (replay json p (new_context h queue)).1.commands
  replay-All p calls = replay_from-All p [] (λ name. 0) 0 0 calls tt
