-- ===== src/Engine/Life.antt =====
-- From calls to lives of an engine: induction on the list of calls.
use my_temp.Common.{List, [], ◌∷◌}
use my_temp.Persistence.Session.{Env, World}
use my_temp.Engine.{Call, perform, run}

pub run-Keeps :
    (P : World → Type 0)
    → ((env : Env) (c : Call) (w : World) → P w → P (perform env c w).1)
    → (w : World) (cs : List (Env × Call)) → P w
    → P (run w cs)
unfolding run
run-Keeps P keeps w [] h = h
run-Keeps P keeps w ((env, c) ∷ cs) h = run-Keeps P keeps (perform env c w).1 cs (keeps env c w h)
