-- ===== src/System/Workers/Returns.antt =====
-- When `Run` of sdk/worker.go returns.
use my_temp.Common.{
  Bool, true, false, ◌||◌, List, [], ◌∷◌, ◌≡◌, refl, Option, none, some, any, String, ◌↔◌,
  Bool-cases, inl, inr, ◌⊎◌, sym, ◌∙◌,
}
use my_temp.Persistence.Types.{Bytes}
use my_temp.Persistence.Session.{World}
use my_temp.Sdk.Registry.{Worker}
use my_temp.Sdk.Loops.{
  Turn, done, turn, Wake, workflows, activities, Returned, none_returned, wait, wake, run_from,
  run_worker,
}

abbrev is_done : Turn → Bool
is_done done = true
is_done (turn engine) = false

-- The workflow loop, or the activity loop, finds its context done.
abbrev pub ends_workflows : Wake → Bool
ends_workflows (workflows t) = is_done t
ends_workflows (activities t) = false

abbrev pub ends_activities : Wake → Bool
ends_activities (workflows t) = false
ends_activities (activities t) = is_done t

abbrev pub HasReturned : Option World → Type 0
HasReturned o = (w : World) × (o ≡ some w)

or_false : (b : Bool) → (b || false) ≡ true → b ≡ true
or_false true h = refl
or_false false h = h

or_true : (a : Bool) → (a || true) ≡ true
or_true true = refl
or_true false = refl

module _ (json : Bytes → Option String) (worker : Worker) where
  -- The loops that have returned, or will.
  abbrev WillEnd : List Wake → Returned → Type 0
  WillEnd xs r =
      ((r.workflow_loop || any ends_workflows xs) ≡ true)
      × ((r.activity_loop || any ends_activities xs) ≡ true)

  WillEnd-next :
      (x : Wake) (xs : List Wake) (r : Returned) (w : World)
      → WillEnd (x ∷ xs) r ↔ WillEnd xs (wake json worker x r w).0
  WillEnd-next (workflows done) xs r w = (λ h. (refl, h.1), λ h. (or_true r.workflow_loop, h.1))
  WillEnd-next (workflows (turn engine)) xs r w = (λ h. h, λ h. h)
  WillEnd-next (activities done) xs r w = (λ h. (h.0, refl), λ h. (h.0, or_true r.activity_loop))
  WillEnd-next (activities (turn engine)) xs r w = (λ h. h, λ h. h)

  wait-HasReturned :
      (r : Returned) (w : World) (rest : Option World)
      → HasReturned rest
      → HasReturned (wait r w rest)
  wait-HasReturned r w rest h = elim (Bool-cases r.workflow_loop) [
    | inl a ↦ elim (Bool-cases r.activity_loop) [
      | inl b ↦ (w, rw (a, b) refl)
      | inr b ↦ (h.0, rw (a, b) h.1)
    ]
    | inr a ↦ (h.0, rw a h.1)
  ]

  both_ended :
      (xs : List Wake) (r : Returned)
      → r.workflow_loop ≡ true
      → r.activity_loop ≡ true
      → WillEnd xs r
  both_ended xs r a b = (rw a refl, rw b refl)

  run_from-HasReturned :
      (xs : List Wake) (r : Returned) (w : World)
      → WillEnd xs r
      → HasReturned (run_from json worker xs r w)
  unfolding run_from
  run_from-HasReturned [] r w h =
      (w, rw (or_false r.workflow_loop h.0, or_false r.activity_loop h.1) refl)
  run_from-HasReturned (x ∷ xs) r w h =
      let s = wake json worker x r w in
      wait-HasReturned r w (run_from json worker xs s.0 s.1)
        (run_from-HasReturned xs s.0 s.1 ((WillEnd-next x xs r w).0 h))

  wait-cases :
      (r : Returned) (w : World) (o : Option World)
      → ((r.workflow_loop ≡ true) × (r.activity_loop ≡ true)) ⊎ (wait r w o ≡ o)
  wait-cases r w o = elim (Bool-cases r.workflow_loop) [
    | inl a ↦ elim (Bool-cases r.activity_loop) [
      | inl b ↦ inl (a, b)
      | inr b ↦ inr (rw (a, b) refl)
    ]
    | inr a ↦ inr (rw a refl)
  ]

  run_from-WillEnd :
      (xs : List Wake) (r : Returned) (w : World)
      → HasReturned (run_from json worker xs r w)
      → WillEnd xs r
  unfolding run_from
  run_from-WillEnd [] r w (w', e) = elim (wait-cases r w none) [
    | inl both ↦ both_ended [] r both.0 both.1
    | inr on ↦ absurd (cc (e, on))
  ]
  run_from-WillEnd (x ∷ xs) r w (w', e) =
      let s = wake json worker x r w in
      elim (wait-cases r w (run_from json worker xs s.0 s.1)) [
        | inl both ↦ both_ended (x ∷ xs) r both.0 both.1
        | inr on ↦ (WillEnd-next x xs r w).1 (run_from-WillEnd xs s.0 s.1 (w', sym on ∙ e))
      ]

  -- `Run` of a worker returns exactly when each of its two loops finds its context done at some time,
  -- whatever the order in which the goroutines run and whatever the connections do.
  pub run_worker-HasReturned :
      (wakes : List Wake) (w : World)
      → HasReturned (run_worker json worker wakes w)
        ↔ ((any ends_workflows wakes ≡ true) × (any ends_activities wakes ≡ true))
  unfolding run_worker
  run_worker-HasReturned wakes w =
      (run_from-WillEnd wakes none_returned w, run_from-HasReturned wakes none_returned w)
