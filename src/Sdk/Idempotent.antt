-- ===== src/Sdk/Idempotent.antt =====
-- A replay over a history that has recorded the commands of the last replay, and nothing else.
use my_temp.Common.{
  ℕ, ◌+◌, String, String_eq, ℕ_eq, ◌≡◌, refl, inl, inr, List, [], ◌∷◌, ◌++◌, Option, none, some,
  any, All, Bool-cases, subst, ◌∙◌, int32, int64,
}
use my_temp.Persistence.Types.{Bytes}
use my_temp.Proto.{HistoryEvent, Command}
use my_temp.Sdk.Context.{
  Context, new_context, Step, pending, went, get_from, is_scheduling_of, is_timer, signal_from,
  schedule_command, timer_command, receive_signal, take_signal,
}
use my_temp.Sdk.Workflow.{
  Workflow, finish, execute, get, sleep_for, receive, Ending, paused, on_step, replay,
}
use my_temp.Sdk.Lookups.{
  IsScheduling, Recorded, get_from-append, fired-append, signal_from-append, any-more,
}
use my_temp.Sdk.Steps.{at, future, execute_is, sleep_is}
use my_temp.Sdk.Earlier.{All-last, replay-earlier}

-- The second replay ends as the first one, without commands.
abbrev pub Agrees : Ending × Context → Ending × Context → Type 0
Agrees r r' = (r'.0 ≡ r.0) × (r'.1.commands ≡ [])

module _ (P : Command → Type 0) where
  on_step-Agrees :
      {A : Type 0} (s : Step A) (stop stop' : Ending × Context) (go go' : A → Ending × Context)
      → (All P stop.1.commands → Agrees stop stop')
      → ((a : A) → All P (go a).1.commands → Agrees (go a) (go' a))
      → All P (on_step s stop go).1.commands
      → Agrees (on_step s stop go) (on_step s stop' go')
  on_step-Agrees pending stop stop' go go' f g h = f h
  on_step-Agrees (went a) stop stop' go go' f g h = g a h

module _ (json : Bytes → Option String) (h es : List HistoryEvent) (queue : String)
    (s : All IsScheduling es) where
  abbrev Kept : Ending × Context → Type 0
  Kept r = All (Recorded (h ++ es)) r.1.commands

  replay-Agrees :
      (p : Workflow) (cmds : List Command) (consumed : String → ℕ) (a t : ℕ)
      → Kept (replay json p (at queue h cmds consumed a t))
      → Agrees
          (replay json p (at queue h cmds consumed a t))
          (replay json p (at queue (h ++ es) [] consumed a t))
  unfolding replay receive_signal
  replay-Agrees (finish e) cmds consumed a t kept = (refl, refl)
  replay-Agrees (execute name input k) cmds consumed a t kept =
      elim (Bool-cases (any (is_scheduling_of name (int32 a)) h)) [
        | inl old ↦
            let first = execute_is json queue name input k h cmds consumed a t old in
            let second =
              execute_is json queue name input k (h ++ es) [] consumed a t (any-more _ h es old) in
            rw (first, second)
              (replay-Agrees (k (future name a)) cmds consumed (int64 (a + 1)) t
                (subst Kept first kept))
        | inr new ↦
            let cmd = schedule_command (at queue h cmds consumed a t) name input in
            let first = execute_is json queue name input k h cmds consumed a t new in
            let kept' = subst Kept first kept in
            let now_there =
              All-last (Recorded (h ++ es)) cmds cmd
                (replay-earlier (Recorded (h ++ es)) json (k (future name a)) _ kept') in
            let second = execute_is json queue name input k (h ++ es) [] consumed a t now_there in
            rw (first, second)
              (replay-Agrees (k (future name a)) (cmds ++ cmd ∷ []) consumed (int64 (a + 1)) t
                kept')
      ]
  replay-Agrees (get f out k) cmds consumed a t kept = rw (get_from-append json out f h es s) (
      on_step-Agrees (Recorded (h ++ es)) (get_from json out f h) _ _ _ _ (λ x. (refl, refl))
        (λ answer. replay-Agrees (k answer) cmds consumed a t) kept)
  replay-Agrees (sleep_for ms k) cmds consumed a t kept =
      let same = fired-append (int32 t) h es s in
      elim (Bool-cases (any (is_timer "TimerFired" (int32 t)) h)) [
        | inl fired ↦
            let first = sleep_is json queue ms k h cmds consumed a t fired refl in
            rw (first, sleep_is json queue ms k (h ++ es) [] consumed a t (same ∙ fired) refl)
              (replay-Agrees k cmds consumed a (int64 (t + 1)) (subst Kept first kept))
        | inr waiting ↦ elim (Bool-cases (any (is_timer "TimerStarted" (int32 t)) h)) [
          | inl started ↦
              rw
                (
                  sleep_is json queue ms k h cmds consumed a t waiting started,
                  sleep_is json queue ms k (h ++ es) [] consumed a t (same ∙ waiting)
                      (any-more _ h es started),
                )
                (refl, refl)
          | inr new ↦
              let first = sleep_is json queue ms k h cmds consumed a t waiting new in
              let now_there =
                All-last (Recorded (h ++ es)) cmds (timer_command (at queue h cmds consumed a t) ms)
                  (subst Kept first kept) in
              rw
                (
                  first,
                  sleep_is json queue ms k (h ++ es) [] consumed a t (same ∙ waiting) now_there,
                )
                (refl, refl)
        ]
      ]
  replay-Agrees (receive name k) cmds consumed a t kept =
      rw (signal_from-append name (consumed name) 0 h es s) (
        received (λ bytes consumed'. replay-Agrees (k bytes) cmds consumed' a t)
          (signal_from name (consumed name) 0 h) kept)
    where
      received :
          ((bytes : Bytes) (consumed' : String → ℕ)
            → Kept (replay json (k bytes) (at queue h cmds consumed' a t))
            → Agrees
                (replay json (k bytes) (at queue h cmds consumed' a t))
                (replay json (k bytes) (at queue (h ++ es) [] consumed' a t)))
          → (o : Option Bytes)
          → let c = at queue h cmds consumed a t in
            let c' = at queue (h ++ es) [] consumed a t in
            let r = take_signal c name o in
            let r' = take_signal c' name o in
            Kept (on_step r.0 (paused, r.1) (λ bytes. replay json (k bytes) r.1))
            → Agrees
                (on_step r.0 (paused, r.1) (λ bytes. replay json (k bytes) r.1))
                (on_step r'.0 (paused, r'.1) (λ bytes. replay json (k bytes) r'.1))
      received go none kept' = (refl, refl)
      received go (some bytes) kept' = go bytes _ kept'

-- Suppose that a worker has replayed a workflow function, and that the history has then grown by events
-- that only say that activities were scheduled or timers started, among them one for each of the
-- commands of the replay. Then the next replay ends as that one did (it pauses if that one
-- paused, and else returns the same), and has no commands.
pub replay_idempotent :
    (json : Bytes → Option String) (p : Workflow) (history events : List HistoryEvent)
    (queue : String)
    → All IsScheduling events
    → All (Recorded (history ++ events)) (replay json p (new_context history queue)).1.commands
    → Agrees
        (replay json p (new_context history queue))
        (replay json p (new_context (history ++ events) queue))
replay_idempotent json p history events queue only recorded =
    replay-Agrees json history events queue only p [] (λ name. 0) 0 0 recorded
