-- ===== src/Cmd/Loops.antt =====
-- `reclaimLoop` and `scanTimers` of cmd/engine/main.go as part of an engine's life.
use my_temp.Common.{List, [], ◌∷◌, ◌++◌, map, some, ◌≡◌, refl}
use my_temp.Persistence.Session.{Env, World}
use my_temp.Engine.{reclaim_tick, scan_tick, perform, run}
use my_temp.Cmd.{Select, ctx_done, tick, reclaim_loop, scan_loop}

-- Each loop returns when it first finds its context done, in whatever state the database then is; until
-- then it has made its call once for each tick, an earlier error notwithstanding, and nothing else.
pub loops_end_when_done :
    (envs : List Env) (rest : List Select) (w : World)
    → (reclaim_loop (map tick envs ++ ctx_done ∷ rest) w
        ≡ some (run w (map (λ env. (env, reclaim_tick)) envs)))
      × (scan_loop (map tick envs ++ ctx_done ∷ rest) w
          ≡ some (run w (map (λ env. (env, scan_tick)) envs)))
unfolding reclaim_loop scan_loop run perform
loops_end_when_done [] rest w = (refl, refl)
loops_end_when_done (env ∷ envs) rest w = (
  (loops_end_when_done envs rest (perform env reclaim_tick w).1).0,
  (loops_end_when_done envs rest (perform env scan_tick w).1).1,
)
