-- ===== src/Persistence/Calls.antt =====
-- What holds after a call of the database, the clock, the ids or the random numbers.
use my_temp.Common.{ℕ, ◌+◌, String, ◌≡◌, arith, Option, none, some, inl, inr, Option-cases}
use my_temp.Metrics.{Metrics}
use my_temp.Persistence.Types.{Time}
use my_temp.Persistence.Tables.{Db}
use my_temp.Persistence.Session.{
  Env, Tx, World, count_call, time_now, new_uuid, rand_float, pool_query, begin_tx, tx_query,
  tx_exec, commit,
}
use my_temp.Persistence.Ends.{
  Ends, Excuse, in_tx, Ends-bind, Ends-then, Ends-pure, Ends-raise, Ends-wrapped, Ends-rollback,
  Ends-if, Ends-count,
}

module _ (env : Env) {F : Type 0} where
  pub Ends-time_now :
      {Q : Time → World → Type 0} {w : World}
      → Q (env.go_clock w.calls) (count_call w)
      → Ends F Q (time_now env) w
  unfolding time_now
  Ends-time_now h = record { at = h }

  pub Ends-new_uuid :
      {Q : String → World → Type 0} {w : World}
      → Q (env.uuid w.calls) (count_call w)
      → Ends F Q (new_uuid env) w
  unfolding new_uuid
  Ends-new_uuid h = record { at = h }

  pub Ends-rand_float :
      {Q : ℕ → World → Type 0} {w : World}
      → Q (env.random w.calls) (count_call w)
      → Ends F Q (rand_float env) w
  unfolding rand_float
  Ends-rand_float h = record { at = h }

  pub Ends-pool_query :
      {A : Type 0} {Q : A → World → Type 0} (f : Db → A) {w : World}
      → Excuse env F
      → Q (f w.db) (count_call w)
      → Ends F Q (pool_query env f) w
  unfolding pool_query
  Ends-pool_query {A} {Q} f {w} x h = elim (Option-cases (env.fault w.calls)) [
    | inl e ↦ record { at = ground arith }
    | inr (t, e) ↦ record { at = ground (arith, x w.calls t e) }
  ]

  pub Ends-begin_tx :
      {Q : Unit {0} → World → Type 0} {w : World}
      → Excuse env F
      → Q tt (in_tx w.db w.metrics (w.calls + 1) (env.db_clock w.calls) w.db)
      → Ends F Q (begin_tx env) w
  unfolding begin_tx
  Ends-begin_tx {w = w} x h = elim (Option-cases (env.fault w.calls)) [
    | inl e ↦ record { at = ground arith }
    | inr (t, e) ↦ record { at = ground (arith, x w.calls t e) }
  ]

  module _ {db : Db} {metrics : Metrics} {calls : ℕ} {now : Time} {view : Db} where
    pub Ends-tx_query :
        {A : Type 0} {Q : A → World → Type 0} (f : Tx → A)
        → Excuse env F
        → Q (f (record { view = view; now = now })) (in_tx db metrics (calls + 1) now view)
        → Ends F Q (tx_query env f) (in_tx db metrics calls now view)
    unfolding tx_query
    Ends-tx_query f x h = elim (Option-cases (env.fault calls)) [
      | inl e ↦ record { at = ground arith }
      | inr (t, e) ↦ record { at = ground (arith, x calls t e) }
    ]

    pub Ends-tx_exec :
        {Q : Unit {0} → World → Type 0} (f : Tx → Option Db)
        → Excuse env F
        → (f (record { view = view; now = now }) ≡ none → F)
        → ((v : Db)
            → f (record { view = view; now = now }) ≡ some v
            → Q tt (in_tx db metrics (calls + 1) now v))
        → Ends F Q (tx_exec env f) (in_tx db metrics calls now view)
    unfolding tx_exec
    Ends-tx_exec f x reject h = elim (Option-cases (env.fault calls)) [
      | inr (t, e) ↦ record { at = ground (arith, x calls t e) }
      | inl e ↦ elim (Option-cases (f (record { view = view; now = now }))) [
        | inl r ↦ record { at = ground (arith, reject r) }
        | inr (v, r) ↦ record { at = ground (arith, h v r) }
      ]
    ]

    pub Ends-tx_write :
        {Q : Unit {0} → World → Type 0} (g : Tx → Db)
        → Excuse env F
        → Q tt (in_tx db metrics (calls + 1) now (g (record { view = view; now = now })))
        → Ends F Q (tx_exec env (λ t. some (g t))) (in_tx db metrics calls now view)
    unfolding tx_exec
    Ends-tx_write g x h = elim (Option-cases (env.fault calls)) [
      | inl e ↦ record { at = ground arith }
      | inr (t, e) ↦ record { at = ground (arith, x calls t e) }
    ]

    pub Ends-commit :
        {Q : Unit {0} → World → Type 0}
        → Excuse env F
        → Q tt (record { db = view; tx = none; metrics = metrics; calls = calls + 1 })
        → Ends F Q (commit env) (in_tx db metrics calls now view)
    unfolding commit
    Ends-commit x h = elim (Option-cases (env.fault calls)) [
      | inl e ↦ record { at = ground arith }
      | inr (t, e) ↦ record { at = ground (arith, x calls t e) }
    ]

pub ruleset ends_rules = (
  Ends-bind, Ends-then, Ends-pure, Ends-raise, Ends-wrapped, Ends-rollback, Ends-if, Ends-time_now,
  Ends-new_uuid, Ends-rand_float, Ends-begin_tx, Ends-commit, Ends-count,
)
