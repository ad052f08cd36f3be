-- ===== src/Sdk/Fresh.antt =====
-- The commands of a replay by sdk/worker.go, and its history.
use my_temp.Common.{String, String_eq, ℕ_eq, inl, inr, refl, List, Option, All}
use my_temp.Persistence.Types.{Bytes}
use my_temp.Proto.{HistoryEvent}
use my_temp.Sdk.Context.{new_context}
use my_temp.Sdk.Workflow.{Workflow, replay}
use my_temp.Sdk.Lookups.{Recorded, IsAsking}
use my_temp.Sdk.Asks.{AnyName, all-OnlyCalls, OfNew, replay-All}

module _ (json : Bytes → Option String) (h : List HistoryEvent) (queue : String) where
  not-Recorded : OfNew AnyName (λ cmd. ¬ Recorded h cmd) h queue
  not-Recorded = record {
    of_activity = λ name input a named new e. cc (e, new);
    of_timer = λ ms t new e. cc (e, new);
  }

  -- No command of a replay asks for an activity that its history says is scheduled, or for a timer that
  -- its history says is started.
  pub replay_asks_for_new :
      (p : Workflow)
      → All (λ cmd. ¬ Recorded h cmd) (replay json p (new_context h queue)).1.commands
  replay_asks_for_new p =
      replay-All json h queue AnyName (λ cmd. ¬ Recorded h cmd) not-Recorded p (all-OnlyCalls p)

  asking : OfNew AnyName IsAsking h queue
  asking = record {
    of_activity = λ name input a named new. inl refl;
    of_timer = λ ms t new. inr refl;
  }

  -- While it runs, a workflow function only asks for activities and timers.
  pub replay-IsAsking :
      (p : Workflow) → All IsAsking (replay json p (new_context h queue)).1.commands
  replay-IsAsking p = replay-All json h queue AnyName IsAsking asking p (all-OnlyCalls p)
