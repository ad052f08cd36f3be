-- ===== src/Persistence/Session.antt =====
-- The engine process and its connection to Postgres. An operation is an action on the `World`:
-- the committed tables, the open transaction, the metrics, and a count of the calls that were made
-- to the world outside. What those calls answer is the `Env`: any database call may fail, the
-- clocks and the fresh ids are arbitrary, and any row may be locked by another transaction.
use my_temp.Common.{ℕ, ◌+◌, String, Bool, Option, none, some}
use my_temp.Errors.{Error, failure, wrap}
use my_temp.Float.{Float64}
use my_temp.Metrics.{Metrics}
use my_temp.Persistence.Types.{Time}
use my_temp.Persistence.Tables.{Db}

pub record Env : Type 0 where
  pub fault : ℕ → Option String
  pub db_clock : ℕ → Time
  pub go_clock : ℕ → Time
  pub uuid : ℕ → String
  pub random : ℕ → ℕ
  pub float : Float64
  pub locked_task : ℕ → Bool
  pub locked_timer : ℕ → Bool

-- A transaction sees its own writes; `now()` is the instant at which it began.
pub record Tx : Type 0 where
  pub view : Db
  pub now : Time

pub record World : Type 0 where
  pub db : Db
  pub tx : Option Tx
  pub metrics : Metrics
  pub calls : ℕ

pub data Result (A : Type 0) : Type 0 where
  ok : A → Result A
  err : Error → Result A

abbrev pub M : Type 0 → Type 0
M A = World → Result A × World

abbrev pub pure : {A : Type 0} → A → M A
pure a w = (ok a, w)

abbrev pub raise : {A : Type 0} → Error → M A
raise e w = (err e, w)

abbrev pub after : {A B : Type 0} → (A → M B) → Result A × World → Result B × World
after f (ok a, w) = f a w
after f (err e, w) = (err e, w)

infixl 5 ◌>>=◌ ◌>>◌
unfoldable pub ◌>>=◌ : {A B : Type 0} → M A → (A → M B) → M B
◌>>=◌ m f w = after f (m w)

unfoldable pub ◌>>◌ : {A B : Type 0} → M A → M B → M B
unfolding ◌>>=◌
m >> k = m >>= λ _. k

abbrev pub relabel : {A : Type 0} → (Error → Error) → Result A × World → Result A × World
relabel f (ok a, w) = (ok a, w)
relabel f (err e, w) = (err (f e), w)

-- `return ..., fmt.Errorf("<what>: %w", err)`.
unfoldable pub wrapped : {A : Type 0} → String → M A → M A
wrapped what m w = relabel (wrap what) (m w)

abbrev pub answer : {A : Type 0} → Option String → A → Result A
answer none a = ok a
answer (some text) a = err (failure text)

abbrev pub count_call : World → World
count_call w = record w { calls = w.calls + 1 }

abbrev pub tx_closed : Error
tx_closed = failure "tx is closed"

module _ (env : Env) where
  -- `time.Now()`, `uuid.New().String()`, `rand.Float64()`: these do not fail.
  unfoldable pub time_now : M Time
  time_now w = (ok (env.go_clock w.calls), count_call w)

  unfoldable pub new_uuid : M String
  new_uuid w = (ok (env.uuid w.calls), count_call w)

  unfoldable pub rand_float : M ℕ
  rand_float w = (ok (env.random w.calls), count_call w)

  -- A read through the pool: the committed tables only, also while a transaction is open.
  unfoldable pub pool_query : {A : Type 0} → (Db → A) → M A
  pool_query f w = (answer (env.fault w.calls) (f w.db), count_call w)

  abbrev write_pool : Option String → (Db → Db) → World → World
  write_pool none f w = record w { db = f w.db }
  write_pool (some text) f w = w

  -- A statement of its own through the pool, which commits at once; its result is read before.
  unfoldable pub pool_exec : {A : Type 0} → (Time → Db → A) → (Time → Db → Db) → M A
  pool_exec f g w =
      let now = env.db_clock w.calls in
      (
        answer (env.fault w.calls) (f now w.db),
        count_call (write_pool (env.fault w.calls) (g now) w),
      )

  abbrev open_tx : Option String → Time → World → World
  open_tx none now w = record w { tx = some (record { view = w.db; now = now }) }
  open_tx (some text) now w = w

  unfoldable pub begin_tx : M (Unit {0})
  begin_tx w = (
    answer (env.fault w.calls) tt,
    count_call (open_tx (env.fault w.calls) (env.db_clock w.calls) w),
  )

  abbrev query_in : {A : Type 0} → Option Tx → Option String → (Tx → A) → Result A
  query_in none o f = err tx_closed
  query_in (some t) o f = answer o (f t)

  unfoldable pub tx_query : {A : Type 0} → (Tx → A) → M A
  tx_query f w = (query_in w.tx (env.fault w.calls) f, count_call w)

  abbrev write_row : Option Db → Tx → World → Result (Unit {0}) × World
  write_row none t w = (err (failure "duplicate key value violates unique constraint"), w)
  write_row (some view) t w = (ok tt, record w { tx = some (record t { view = view }) })

  abbrev exec_in : Option Tx → Option String → (Tx → Option Db) → World → Result (Unit {0}) × World
  exec_in none o f w = (err tx_closed, w)
  exec_in (some t) (some text) f w = (err (failure text), w)
  exec_in (some t) none f w = write_row (f t) t w

  -- `tx.Exec`; `none` is a statement that violates a constraint.
  unfoldable pub tx_exec : (Tx → Option Db) → M (Unit {0})
  tx_exec f w = exec_in w.tx (env.fault w.calls) f (count_call w)

  abbrev commit_in : Option Tx → Option String → World → Result (Unit {0}) × World
  commit_in none o w = (err tx_closed, w)
  commit_in (some t) (some text) w = (err (failure text), w)
  commit_in (some t) none w = (ok tt, record w { db = t.view; tx = none })

  -- A commit that fails has not been applied.
  unfoldable pub commit : M (Unit {0})
  commit w = commit_in w.tx (env.fault w.calls) (count_call w)

abbrev pub close_tx : {A : Type 0} → Result A × World → Result A × World
close_tx (r, w) = (r, record w { tx = none })

-- `defer tx.Rollback(ctx)` around the rest of a function; after a commit it does nothing.
unfoldable pub deferring_rollback : {A : Type 0} → M A → M A
deferring_rollback m w = close_tx (m w)

unfoldable pub count : (Metrics → Metrics) → M (Unit {0})
count f w = (ok tt, record w { metrics = f w.metrics })
