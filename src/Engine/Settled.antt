-- ===== src/Engine/Settled.antt =====
-- What the answer to a call of the engine says about the tables and the metrics.
use my_temp.Common.{ℕ, none, ◌≡◌}
use my_temp.Persistence.Session.{Env, World, Result, ok, err}
use my_temp.Persistence.Quiet.{Same, Unchanged}
use my_temp.Persistence.Ends.{Holds, Cause, fault, refused}
use my_temp.Engine.{Call, perform}
use my_temp.Engine.Atomic.{IsOneTransaction, perform_all_or_nothing}
use my_temp.Engine.Outcome.{Effect, Refused, perform-Ends}

abbrev pub Settled : Env → Call → World → Result (Unit {0}) × World → Type 0
Settled env c w (ok a, w') = Effect env c w w'
Settled env c w (err e, w') = Same w w' × Cause env (Refused env c w)

Settled-of :
    (env : Env) (c : Call) (w : World) (r : Result (Unit {0}) × World)
    → Unchanged w r
    → Holds (Cause env (Refused env c w)) (λ _. Effect env c w) r
    → Settled env c w r
Settled-of env c w (ok a, w') same done = done
Settled-of env c w (err e, w') same cause = (same, cause)

-- For every call but the poll for a workflow task: if it returns no error, its effect is the one that
-- the specification describes; if it returns an error, the tables and the metrics are as they were,
-- and either a call to the database failed or the request is one that the specification refuses.
pub perform-Settled :
    (env : Env) (c : Call) (w : World) → IsOneTransaction c → Settled env c w (perform env c w)
perform-Settled env c w one =
    Settled-of env c w (perform env c w) (perform_all_or_nothing env c w one)
      (perform-Ends env c w one).at

pub Cause-none : (env : Env) (R : Type 0) → ((n : ℕ) → env.fault n ≡ none) → ¬ R → ¬ Cause env R
Cause-none env R calm fine (fault n text e) = cc (calm n)
Cause-none env R calm fine (refused r) = fine r
