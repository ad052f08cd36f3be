-- ===== src/Pizza/Found.antt =====
-- What a workflow function has read, in its history: `Get` and `ReceiveSignal` of
-- sdk/workflow/context.go.
use my_temp.Common.{
  arith, ◌⊎◌, ℕ, ◌+◌, String, String_eq, ℕ_eq, ◌==◌, Bool, true, ◌≡◌, refl, List, [], ◌∷◌, Option,
  some, inl, inr, any, ◌&&◌,
}
use my_temp.Persistence.Types.{Bytes}
use my_temp.Proto.{HistoryEvent}
use my_temp.Sdk.Context.{
  ActivityFuture, Step, pending, went, value, get_from, is_result_of, is_signal, decoded,
  signal_from,
}

pub Step-cases : {A : Type 0} (s : Step A) → (s ≡ pending) ⊎ ((a : A) × (s ≡ went a))
Step-cases pending = inl refl
Step-cases (went a) = inr (a, refl)

pub decoded_bytes :
    (json : Bytes → Option String) (out : Bool) (b bytes : Bytes)
    → decoded json out b ≡ value bytes
    → b ≡ bytes
decoded_bytes json out b bytes e = ground (arith, e)

-- What `Get` reads without an error is the result of a completed event of that call.
pub any_of_get :
    (json : Bytes → Option String) (out : Bool) (f : ActivityFuture) (test : Bytes → Bool)
    (h : List HistoryEvent) (bytes : Bytes)
    → get_from json out f h ≡ went (value bytes)
    → test bytes ≡ true
    → any (λ e. e.event_type == "ActivityCompleted" && is_result_of f e && test e.event_data) h
      ≡ true
unfolding get_from
any_of_get json out f test [] bytes e t = absurd (cc e)
any_of_get json out f test (x ∷ h) bytes e t =
    ground
      (arith, e, t, any_of_get json out f test h bytes, decoded_bytes json out x.event_data bytes)

-- A signal that `ReceiveSignal` takes is in the history.
pub any_of_signal :
    (name : String) (consumed seen : ℕ) (test : Bytes → Bool) (h : List HistoryEvent)
    (bytes : Bytes)
    → signal_from name consumed seen h ≡ some bytes
    → test bytes ≡ true
    → any (λ e. is_signal name e && test e.event_data) h ≡ true
unfolding signal_from
any_of_signal name consumed seen test [] bytes e t = absurd (cc e)
any_of_signal name consumed seen test (x ∷ h) bytes e t = ground (
  arith,
  e,
  t,
  any_of_signal name consumed seen test h bytes,
  any_of_signal name consumed (seen + 1) test h bytes,
)
