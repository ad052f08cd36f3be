-- ===== src/Pizza/Shipping.antt =====
-- When the workflow functions of examples/worker/main.go ship.
use my_temp.Common.{
  branch, ℕ, ◌+◌, String, String_eq, ℕ_eq, ◌==◌, Bool, true, false, ◌≡◌, refl, sym, List, [], ◌∷◌,
  ◌++◌, Option, none, some, All, All-append, if◌then◌else◌, subst, Bool-cases, inl, inr, any, int32,
  int64, ◌&&◌,
}
use my_temp.Common.Int.{pos}
use my_temp.Persistence.Types.{Bytes}
use my_temp.Proto.{HistoryEvent, Command}
use my_temp.Sdk.Context.{
  ActivityFuture, Context, new_context, went, Answer, value, activity_error, decode_error, get_from,
  is_result_of, is_scheduling_of, schedule_command, is_signal, signal_from, take_signal,
  receive_signal,
}
use my_temp.Sdk.Workflow.{Workflow, finish, get, Ending, paused, on_step, replay}
use my_temp.Sdk.Steps.{at, future, execute_is}
use my_temp.Pizza.{
  PizzaOrder, Codec, unless_error, call_activity, ship, stock_in, charge_in, decision_in,
  test_workflow, approval_workflow,
}
use my_temp.Pizza.Found.{Step-cases, any_of_get, any_of_signal}

abbrev pub NoShipping : Command → Type 0
NoShipping cmd = (cmd.activity_name == "Ship") ≡ false

-- The history says that the second activity, `ChargeCard`, has completed with a charge.
abbrev pub has_charge : Codec → List HistoryEvent → Bool
has_charge codec = any (λ e.
    e.event_type == "ActivityCompleted"
    && is_result_of (future "ChargeCard" 1) e
    && (charge_in codec e.event_data).charged)

-- The history has a signal `approval` that approves.
abbrev pub has_approval : Codec → List HistoryEvent → Bool
has_approval codec = any (λ e. is_signal "approval" e && (decision_in codec e.event_data).approved)

module _ (json : Bytes → Option String) (codec : Codec) (queue : String)
    (h : List HistoryEvent) where
  abbrev Unshipped : Ending × Context → Type 0
  Unshipped r = All NoShipping r.1.commands

  -- `ExecuteActivity(...).Get(...)` of another activity than `Ship`.
  call_activity-Unshipped :
      (name : String) (input : Bytes) (prefix : String) (k : Bytes → Workflow) (cmds : List Command)
      (consumed : String → ℕ) (a t : ℕ)
      → (name == "Ship") ≡ false
      → All NoShipping cmds
      → ((bytes : Bytes) (cmds' : List Command)
          → get_from json true (future name a) h ≡ went (value bytes)
          → All NoShipping cmds'
          → Unshipped (replay json (k bytes) (at queue h cmds' consumed (int64 (a + 1)) t)))
      → Unshipped
          (replay json (call_activity codec name input prefix k) (at queue h cmds consumed a t))
  unfolding replay
  call_activity-Unshipped name input prefix k cmds consumed a t other none_yet go =
      elim (Bool-cases (any (is_scheduling_of name (int32 a)) h)) [
        | inl old ↦
            subst Unshipped
              (sym (execute_is json queue name input future_use h cmds consumed a t old))
              (waits cmds none_yet)
        | inr new ↦
            subst Unshipped
              (sym (execute_is json queue name input future_use h cmds consumed a t new))
              (waits (cmds ++ schedule_command (at queue h cmds consumed a t) name input ∷ [])
                (All-append NoShipping cmds _ none_yet (other, tt)))
      ]
    where
      future_use : ActivityFuture → Workflow
      future_use f = get f true (λ answer. unless_error codec prefix answer k)

      answered :
          (answer : Answer) (cmds' : List Command)
          → get_from json true (future name a) h ≡ went answer
          → All NoShipping cmds'
          → Unshipped (
              replay json
                (unless_error codec prefix answer k)
                (at queue h cmds' consumed (int64 (a + 1)) t))
      answered (value bytes) cmds' e so_far = go bytes cmds' e so_far
      answered (activity_error bytes) cmds' e so_far = so_far
      answered (decode_error text) cmds' e so_far = so_far

      waits :
          (cmds' : List Command)
          → All NoShipping cmds'
          → Unshipped (
              replay json
                (future_use (future name a))
                (at queue h cmds' consumed (int64 (a + 1)) t))
      waits cmds' so_far =
          let c = at queue h cmds' consumed (int64 (a + 1)) t in
          elim (Step-cases (get_from json true (future name a) h)) [
            | inl e ↦
                subst
                  (λ s. Unshipped (
                    on_step s (paused, c)
                      (λ answer. replay json (unless_error codec prefix answer k) c)))
                  (sym e) so_far
            | inr (answer, e) ↦
                subst
                  (λ s. Unshipped (
                    on_step s (paused, c)
                      (λ answer. replay json (unless_error codec prefix answer k) c)))
                  (sym e) (answered answer cmds' e so_far)
          ]

  -- A branch that the history does not lead to.
  not_taken :
      (b : Bool) (p : Workflow) (e : Option String) (c : Context)
      → b ≡ false
      → All NoShipping c.commands
      → Unshipped (replay json (if b then p else finish e) c)
  unfolding replay
  not_taken b p e c off so_far =
      subst (λ b. Unshipped (replay json (if b then p else finish e) c)) (sym off) so_far

  -- `TestWorkflow` never asks for a shipment unless its history has the result of its `ChargeCard` call,
  -- and that says that the card has been charged.
  pub test_workflow_ships_when_charged :
      (order : PizzaOrder)
      → has_charge codec h ≡ false
      → All NoShipping (replay json (test_workflow codec order) (new_context h queue)).1.commands
  unfolding test_workflow replay
  test_workflow_ships_when_charged order unpaid =
      call_activity-Unshipped "CheckStock" (codec.of_order order) "out of stock: " _ [] (λ _. 0) 0 0
        refl tt
        (λ stock cmds e so_far.
          branch (λ p. Unshipped (replay json p (at queue h cmds (λ _. 0) 1 0)))
            (stock_in codec stock).available _ _
            (call_activity-Unshipped "ChargeCard" (codec.of_stock (stock_in codec stock)) "" _ cmds
              (λ _. 0) 1 0 refl so_far after_charge)
            so_far)
    where
      after_charge :
          (bytes : Bytes) (cmds : List Command)
          → get_from json true (future "ChargeCard" 1) h ≡ went (value bytes)
          → All NoShipping cmds
          → Unshipped (
              replay json
                (if (charge_in codec bytes).charged
                  then ship codec (charge_in codec bytes)
                  else finish (some "charge failed"))
                (at queue h cmds (λ _. 0) 2 0))
      after_charge bytes cmds e so_far = elim (Bool-cases (charge_in codec bytes).charged) [
        | inl paid ↦ absurd (
            cc (
              any_of_get json true (future "ChargeCard" 1) (λ b. (charge_in codec b).charged) h
                  bytes e paid,
              unpaid,
            ))
        | inr unpaid_one ↦
            not_taken (charge_in codec bytes).charged (ship codec (charge_in codec bytes)) _ _
              unpaid_one so_far
      ]

  -- `ApprovalWorkflow` never asks for a shipment unless its history has an `approval` signal that
  -- approves.
  pub approval_workflow_ships_when_approved :
      (order : PizzaOrder)
      → has_approval codec h ≡ false
      → All NoShipping
          (replay json (approval_workflow codec order) (new_context h queue)).1.commands
  unfolding approval_workflow replay receive_signal
  approval_workflow_ships_when_approved order unapproved =
      call_activity-Unshipped "CheckStock" (codec.of_order order) "" _ [] (λ _. 0) 0 0 refl tt
        (λ stock cmds e so_far. received cmds so_far (signal_from "approval" 0 0 h) refl)
    where
      shipped : Workflow
      shipped = ship codec (record { charged = true; amount = pos 100 })

      after_signal :
          (bytes : Bytes) (c : Context)
          → signal_from "approval" 0 0 h ≡ some bytes
          → All NoShipping c.commands
          → Unshipped (
              replay json
                (if (decision_in codec bytes).approved
                  then shipped
                  else finish (some "approval rejected"))
                c)
      after_signal bytes c e so_far = elim (Bool-cases (decision_in codec bytes).approved) [
        | inl yes_to_it ↦ absurd (
            cc (
              any_of_signal "approval" 0 0 (λ b. (decision_in codec b).approved) h bytes e
                  yes_to_it,
              unapproved,
            ))
        | inr refused_it ↦
            not_taken (decision_in codec bytes).approved shipped _ c refused_it so_far
      ]

      received :
          (cmds : List Command)
          → All NoShipping cmds
          → (o : Option Bytes) → signal_from "approval" 0 0 h ≡ o
          → let r = take_signal (at queue h cmds (λ _. 0) 1 0) "approval" o in
            Unshipped (
              on_step r.0
                (paused, r.1)
                (λ bytes.
                  replay json
                    (if (decision_in codec bytes).approved
                      then shipped
                      else finish (some "approval rejected"))
                    r.1))
      received cmds so_far none e = so_far
      received cmds so_far (some bytes) e = after_signal bytes _ e so_far
